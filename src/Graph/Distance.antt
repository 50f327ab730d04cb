-- ===== src/Graph/Distance.antt =====
-- Proofs about csapex_core/src/model/graph/graph_impl.cpp, `calculateDepths`: the depth of a vertex is its
-- distance from the sources.
use csapex.Base.{
  ℕ, suc, ◌*◌, ◌≤◌, ◌<◌, ◌≡◌, ◌↔◌, refl, sym, ap, subst, ◌∙◌, ◌==◌, true, false, List, [], ◌∷◌,
  Option, none, some, elem, length, Option-cases, inl, inr, arith,
}
use csapex.Graph.{Graph}
use csapex.Graph.Search.{elem_cons}
use csapex.Graph.Edges.{IsConsistent}
use csapex.Graph.Depths.{
  children_of, Streams, follow_sources, find_vertices_that_join_streams, populate_sources,
  calculate_depths,
}
use csapex.Graph.Spread.{ReachedFrom, begin, step}
use csapex.Graph.Marks.{SpreadAll, spread_all-SpreadAll}
use csapex.Graph.Streams.{flags, FollowedAll, follow_sources-FollowedAll}
use csapex.Graph.Relax.{numbered_one}
use csapex.Graph.Totals.{total}
use csapex.Graph.Settle.{Walk, from_source, along, Settling}
use csapex.Graph.Populate.{Populated, populate_sources-Populated, Settling-least}

-- A vertex with a depth counts among those that have one.
counted :
    (max v k : ℕ) (all vs : List ℕ) (d : ℕ → Option ℕ)
    → elem v vs ≡ true
    → d v ≡ some k
    → (k == max) ≡ false
    → 1 ≤ total (numbered_one max all) d vs
counted max v k all [] d m at n = cc m
counted max v k all (u ∷ vs) d m at n = elim (elem_cons v u vs m) [
  | inl p ↦
      let one : numbered_one max all (d u) ≡ 1 =
        ap (numbered_one max all) (ap d (sym p) ∙ at) ∙ rw n refl in
      omega (arith, one)
  | inr m' ↦ omega (arith, counted max v k all vs d m' at n)
]

some_of_flag : (d : ℕ → Option ℕ) (v : ℕ) → flags d v ≡ true → (k : ℕ) × (d v ≡ some k)
some_of_flag d v h = elim (Option-cases (d v)) [ inl e ↦ cc (rw e at h) | inr k ↦ k ]

flag_of_some : (d : ℕ → Option ℕ) (v k : ℕ) → d v ≡ some k → flags d v ≡ true
flag_of_some d v k e = rw e refl

module _ (max : ℕ) (g : Graph) (fuel : ℕ) (few : length g.vertices < max)
    (consistent : IsConsistent g)
    (sources_in : (s : ℕ) → elem s g.sources ≡ true → elem s g.vertices ≡ true)
    (le : length g.vertices * suc (length g.vertices) < fuel) where
  abbrev Source : ℕ → Type 0
  Source s = elem s g.sources ≡ true

  marks : SpreadAll (children_of g) Source fuel g.sources (λ v. false)
  marks =
      spread_all-SpreadAll (children_of g) Source g.vertices consistent.inside fuel g.sources
        (λ v. false) (λ e h. h) (omega (arith, le))
        (record { sound = λ v e. cc e; queued = λ v e. cc e; closed = λ u e. cc e })

  abbrev unset : Streams
  unset = record { depth = λ v. none; joins = [] }

  followed : FollowedAll max g (follow_sources fuel max g g.sources unset) marks.after g.sources []
  followed =
      follow_sources-FollowedAll max g fuel g.sources [] unset marks.after (λ e h. h)
        (record { zero_at = λ e h. cc h; values = λ v e h. cc h }) marks.returns

  abbrev seeds : ℕ → Option ℕ
  seeds = followed.after.depth

  marked_of : (v k : ℕ) → seeds v ≡ some k → marks.after v ≡ true
  marked_of v k e = ap (λ f. f v) (sym followed.marks) ∙ flag_of_some seeds v k e

  seed_of : (v : ℕ) → marks.after v ≡ true → (k : ℕ) × (seeds v ≡ some k)
  seed_of v m = some_of_flag seeds v (ap (λ f. f v) followed.marks ∙ m)

  seeds-Settling : Settling max g few consistent.inside [] g.sources seeds
  seeds-Settling = record {
    sound = λ v k h. elim (followed.values v k h) [
      | inl m ↦ inl m
      | inr z ↦ inr (subst (λ j. Walk g j v) (sym z.0) (from_source v z.1))
    ];
    small = λ v k h n. elim (followed.values v k h) [
      | inl m ↦ ground (arith, m, n)
      | inr z ↦
          omega (arith, z.0, counted max v k g.vertices g.vertices seeds (sources_in v z.1) h n)
    ];
    zero_at = λ s m. followed.seeded s (inl m);
    spreads = λ u k w h m. elim (marks.invariant.closed u (marked_of u k h)) [
      | inl x ↦ cc x
      | inr all ↦ seed_of w (all w m)
    ];
    closed = λ u k h. elim (followed.values u k h) [ inl m ↦ inl m | inr z ↦ inr (inl z.1) ];
    queued = λ v h. cc h;
  }

  populated :
      Populated max g few consistent.inside [] (populate_sources fuel max g g.sources seeds) seeds
  populated =
      populate_sources-Populated max g few consistent.inside fuel g.sources seeds (λ e h. h) le
        seeds-Settling

  Walk-of : (v : ℕ) → ReachedFrom (children_of g) Source v → (k : ℕ) × Walk g k v
  Walk-of v (begin s start) = (0, from_source s start)
  Walk-of v (step u w p m) = let (k, q) = Walk-of u p in (suc k, along k u w q m)

  abbrev least :
      (j v : ℕ)
      → Walk g j v
      → (k : ℕ) × (populated.after v ≡ some k) × (k ≤ j) × ((k == max) ≡ false)
  least = Settling-least max g few consistent.inside populated.after populated.invariant

  -- No vertex is left with the largest `int`.
  Walk-to_numbered : (v k : ℕ) → populated.after v ≡ some k → Walk g k v
  Walk-to_numbered v k h = elim (populated.invariant.sound v k h) [
    | inr p ↦ p
    | inl m ↦ elim (Option-cases (seeds v)) [
      | inl n ↦ cc (populated.unreached v n, h)
      | inr (j, s) ↦
          let (i, p) = Walk-of v (marks.invariant.sound v (marked_of v j s)) in
          let (x, at, _, n) = least i v p in
          let same : x ≡ k = cc (at, h) in ground (arith, same, m, n)
    ]
  ]

  depth_iff :
      (v k : ℕ) → (populated.after v ≡ some k) ↔ (Walk g k v × ((j : ℕ) → Walk g j v → k ≤ j))
  depth_iff v k = (
    λ h. (
      Walk-to_numbered v k h,
      λ j p.
          let (x, at, x_le, _) = least j v p in
          let same : x ≡ k = cc (at, h) in omega (arith, x_le, same),
    ),
    λ h.
        let (x, at, x_le, _) = least k v h.0 in
        let same : x ≡ k = omega (arith, x_le, h.1 x (Walk-to_numbered v x at)) in
        at ∙ ap some same,
  )

  none_iff : (v : ℕ) → (populated.after v ≡ none) ↔ ((k : ℕ) → ¬ Walk g k v)
  none_iff v = (
    λ h k p. let (x, at, _, _) = least k v p in cc (at, h),
    λ h. elim (Option-cases (populated.after v)) [
      | inl e ↦ e
      | inr (k, e) ↦ absurd (h k (Walk-to_numbered v k e))
    ],
  )

-- In a consistent graph, whose sources are among its vertices and which has fewer vertices than the largest
-- `int`, the depths are computed in the end: a vertex has the depth `k` exactly if `k` is the length of a
-- shortest path from a source to it, and the depth -1 exactly if there is no path. As many rounds as the
-- product of the number of vertices and the next number, and one more, are enough.
pub calculate_depths-distance :
    (max : ℕ) (g : Graph) (fuel : ℕ)
    → length g.vertices < max
    → IsConsistent g
    → ((s : ℕ) → elem s g.sources ≡ true → elem s g.vertices ≡ true)
    → length g.vertices * suc (length g.vertices) < fuel
    → (s : Streams) × (calculate_depths fuel max g ≡ some s)
      × ((v k : ℕ) → (s.depth v ≡ some k) ↔ (Walk g k v × ((j : ℕ) → Walk g j v → k ≤ j)))
      × ((v : ℕ) → (s.depth v ≡ none) ↔ ((k : ℕ) → ¬ Walk g k v))
unfolding calculate_depths find_vertices_that_join_streams
calculate_depths-distance max g fuel few consistent sources_in le =
    let F = followed max g fuel few consistent sources_in le in
    let P = populated max g fuel few consistent sources_in le in
    let found : find_vertices_that_join_streams fuel max g ≡ some F.after = F.returns in
    (
      record F.after { depth = P.after },
      rw (calculate_depths, found, P.returns) refl,
      depth_iff max g fuel few consistent sources_in le,
      none_iff max g fuel few consistent sources_in le,
    )
