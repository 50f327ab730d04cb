-- ===== src/Graph/Marks.antt =====
-- Proofs about csapex_core/src/model/graph/graph_impl.cpp, `calculateDepths`: which vertices lead to one that
-- needs messages.
use csapex.Base.{
  ℕ, ◌≤◌, ◌<◌, ◌≡◌, ◌↔◌, refl, subst, ◌==◌, ==_iff, ==_refl, Bool, true, false, List, [], ◌∷◌, some,
  elem, update, length, Bool-cases, inl, inr, arith,
}
use csapex.Graph.{Graph, Facade, find_vertices_that_need_messages}
use csapex.Graph.Search.{or_inr, elem_cons}
use csapex.Graph.Edges.{IsConsistent}
use csapex.Graph.Depths.{spread_all, parents_of, mark_essentials}
use csapex.Graph.Spread.{ReachedFrom, begin, step, unmarked, Closing, spread-SpreadOut}

pub unmarked-le-length : (m : ℕ → Bool) (vs : List ℕ) → unmarked m vs ≤ length vs
unmarked-le-length m [] = omega arith
unmarked-le-length m (v ∷ vs) = elim (Bool-cases (m v)) [
  | inl q ↦ rw q (omega (arith, unmarked-le-length m vs))
  | inr q ↦ rw q (omega (arith, unmarked-le-length m vs))
]

module _ (next : ℕ → List ℕ) (Start : ℕ → Type 0) where
  -- One more start
  pub Closing-start :
      (e : ℕ) (m : ℕ → Bool)
      → Start e
      → Closing next Start [] m
      → Closing next Start (e ∷ []) (update m e true)
  Closing-start e m start I = record {
    sound = λ v h. elim (Bool-cases (e == v)) [
      | inl q ↦ subst (ReachedFrom next Start) ((==_iff e v).0 q) (begin e start)
      | inr q ↦ I.sound v (rw q at h)
    ];
    queued = λ v h. elim (elem_cons v e [] h) [ inl p ↦ ground (arith, p) | inr x ↦ cc x ];
    closed = λ u h. elim (Bool-cases (e == u)) [
      | inl q ↦ inl (ground (arith, q))
      | inr q ↦ elim (I.closed u (rw q at h)) [
        | inl x ↦ cc x
        | inr all ↦
            inr λ w i. elim (Bool-cases (e == w)) [ inl r ↦ rw r refl | inr r ↦ rw r (all w i) ]
      ]
    ];
  }

  -- The marks that the loop over the starts leaves.
  pub record SpreadAll (fuel : ℕ) (es : List ℕ) (m : ℕ → Bool) : Type 0 where
    pub after : ℕ → Bool
    pub returns : spread_all fuel next es m ≡ some after
    pub invariant : Closing next Start [] after
    pub grows : (v : ℕ) → m v ≡ true → after v ≡ true
    pub started : (e : ℕ) → elem e es ≡ true → after e ≡ true

  module _ (vs : List ℕ) (inside : (u w : ℕ) → elem w (next u) ≡ true → elem w vs ≡ true) where
    pub spread_all-SpreadAll :
        (fuel : ℕ) (es : List ℕ) (m : ℕ → Bool)
        → ((e : ℕ) → elem e es ≡ true → Start e)
        → length vs < fuel
        → Closing next Start [] m
        → SpreadAll fuel es m
    unfolding spread_all
    spread_all-SpreadAll fuel [] m starts le I = record {
      after = m;
      returns = refl;
      invariant = I;
      grows = λ v e. e;
      started = λ e h. cc h;
    }
    spread_all-SpreadAll fuel (e ∷ es) m starts le I =
        let m1 = update m e true in
        let s =
          spread-SpreadOut next Start vs inside fuel (e ∷ []) m1
            (Closing-start e m (starts e (rw (==_refl e) refl)) I)
            (omega (arith, unmarked-le-length m1 vs, le)) in
        let r =
          spread_all-SpreadAll fuel es s.after (λ u h. starts u (or_inr (u == e) (elem u es) h)) le
            s.invariant in
        record {
          after = r.after;
          returns = rw (spread_all, s.returns) r.returns;
          invariant = r.invariant;
          grows = λ v h.
              r.grows v
                (s.grows v (elim (Bool-cases (e == v)) [ inl q ↦ rw q refl | inr q ↦ rw q h ]));
          started = λ u h. elim (elem_cons u e es h) [
            | inl p ↦ r.grows u (s.grows u (ground (arith, p)))
            | inr h' ↦ r.started u h'
          ];
        }

  -- In the end exactly what is reached is marked.
  pub SpreadAll-complete :
      (fuel : ℕ) (es : List ℕ) (m : ℕ → Bool) (r : SpreadAll fuel es m)
      → ((e : ℕ) → Start e → elem e es ≡ true)
      → (v : ℕ) → ReachedFrom next Start v
      → r.after v ≡ true
  SpreadAll-complete fuel es m r all v (begin s start) = r.started s (all s start)
  SpreadAll-complete fuel es m r all v (step u w p i) =
      elim (r.invariant.closed u (SpreadAll-complete fuel es m r all u p)) [
        | inl x ↦ cc x
        | inr closed ↦ closed w i
      ]

-- A vertex from which a path of edges leads to one that needs messages.
abbrev pub LeadsToEssential : Graph → (ℕ → Facade) → ℕ → Type 0
LeadsToEssential g facade =
    ReachedFrom (parents_of g)
      (λ e. elem e (find_vertices_that_need_messages facade g.vertices) ≡ true)

-- In a consistent graph the loop that marks what leads to the vertices that need messages ends, and a
-- vertex is marked exactly if a path of edges leads from it to one of them: one round more than there are
-- vertices is enough for each.
pub mark_essentials-LeadsToEssential :
    (g : Graph) (facade : ℕ → Facade) (fuel : ℕ)
    → IsConsistent g
    → length g.vertices < fuel
    → (flags : ℕ → Bool) × (mark_essentials fuel g facade ≡ some flags)
      × ((v : ℕ) → (flags v ≡ true) ↔ LeadsToEssential g facade v)
unfolding mark_essentials
mark_essentials-LeadsToEssential g facade fuel consistent le =
    let needs = find_vertices_that_need_messages facade g.vertices in
    let r =
      spread_all-SpreadAll (parents_of g) (λ e. elem e needs ≡ true) g.vertices consistent.outside
        fuel needs (λ v. false) (λ e h. h) le
        (record { sound = λ v e. cc e; queued = λ v e. cc e; closed = λ u e. cc e }) in
    (
      r.after,
      r.returns,
      λ v. (
        r.invariant.sound v,
        SpreadAll-complete (parents_of g) (λ e. elem e needs ≡ true) fuel needs (λ v. false) r
            (λ e h. h) v,
      ),
    )
