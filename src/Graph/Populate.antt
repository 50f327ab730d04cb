-- ===== src/Graph/Populate.antt =====
-- Proofs about csapex_core/src/model/graph/graph_impl.cpp, `calculateDepths`: the loop that lowers the depths
-- ends, and leaves the least ones.
use csapex.Base.{
  ℕ, zero, suc, ◌+◌, ◌*◌, ◌≤◌, ◌<◌, ◌≡◌, refl, sym, ap, fun_ext, ◌∙◌, ◌==◌, ==_iff, ==_refl, true,
  false, List, [], ◌∷◌, Option, none, some, elem, update, length, Bool-cases, Option-cases, inl,
  inr, arith,
}
use csapex.Graph.{Graph}
use csapex.Graph.Search.{or_inr, elem_cons}
use csapex.Graph.Totals.{total_bound}
use csapex.Graph.Relax.{weight, potential, IsSmall, relax-Relaxed, numbered_length}
use csapex.Graph.Depths.{children_of, next_depth, relax, populate, populate_sources}
use csapex.Graph.Settle.{Walk, from_source, along, Settling, Settling-step}

module _ (max : ℕ) (g : Graph) (few : length g.vertices < max)
    (inside : (u w : ℕ) → elem w (children_of g u) ≡ true → elem w g.vertices ≡ true) where
  -- The depths that the loop leaves.
  pub record Populated (pending : List ℕ) (o : Option (ℕ → Option ℕ)) (d : ℕ → Option ℕ)
      : Type 0 where
    pub after : ℕ → Option ℕ
    pub returns : o ≡ some after
    pub invariant : Settling max g few inside [] pending after
    pub unreached : (v : ℕ) → d v ≡ none → after v ≡ none

  populate-Populated :
      (fuel : ℕ) (q pending : List ℕ) (d : ℕ → Option ℕ)
      → Settling max g few inside q pending d
      → length q + potential max g.vertices d ≤ fuel
      → Populated pending (populate fuel max g q d) d
  unfolding populate
  populate-Populated fuel [] pending d I le = record {
    after = d;
    returns = refl;
    invariant = I;
    unreached = λ v e. e;
  }
  populate-Populated zero (top ∷ q) pending d I le = absurd (omega (arith, le))
  populate-Populated (suc fuel) (top ∷ q) pending d I le =
      let (kt, at, n) = I.queued top (rw (==_refl top) refl) in
      let least = I.small top kt at n in
      let size = numbered_length max g.vertices d g.vertices in
      let r = relax max (suc kt) (children_of g top) (q, d) in
      let R =
        relax-Relaxed max g.vertices (suc kt) (children_of g top) q d
          (omega (arith, least, size, few)) least I.small (inside top) in
      let p =
        populate-Populated fuel r.0 pending r.1
          (Settling-step max g few inside q pending top kt d r.0 r.1 I at n R)
          (omega (arith, R.smaller, le)) in
      let same : next_depth (d top) ≡ suc kt = ap next_depth at in
      rw (populate, same)
        (record {
          after = p.after;
          returns = p.returns;
          invariant = p.invariant;
          unreached = λ v e. p.unreached v (R.unreached v e);
        })

  -- A source has the depth 0 already when its turn comes.
  next_source :
      (e : ℕ) (es : List ℕ) (d : ℕ → Option ℕ)
      → elem e g.sources ≡ true
      → Settling max g few inside [] (e ∷ es) d
      → Settling max g few inside (e ∷ []) es (update d e (some 0))
  next_source e es d m I =
      let same : update d e (some 0) ≡ d = fun_ext λ v. at_zero v in
      rw same (record {
        sound = I.sound;
        small = I.small;
        zero_at = I.zero_at;
        spreads = I.spreads;
        closed = λ u k h. elim (I.closed u k h) [
          | inl x ↦ inl x
          | inr (inr done) ↦ inr (inr done)
          | inr (inl on) ↦ inr (inl (ground (arith, on)))
        ];
        queued = λ v h. elim (elem_cons v e [] h) [
          | inr x ↦ cc x
          | inl p ↦ (0, ap d p ∙ I.zero_at e m, ground (arith, few))
        ];
      })
    where
      at_zero : (v : ℕ) → update d e (some 0) v ≡ d v
      at_zero v = elim (Bool-cases (e == v)) [
        | inl q ↦ rw q (sym (ap d (sym ((==_iff e v).0 q)) ∙ I.zero_at e m))
        | inr q ↦ rw q refl
      ]

  weight_bound :
      (d : ℕ → Option ℕ)
      → IsSmall max g.vertices d
      → (v : ℕ) → weight max g.vertices (d v) ≤ suc (length g.vertices)
  weight_bound d small v = elim (Option-cases (d v)) [
    | inl e ↦ rw e (omega arith)
    | inr (k, e) ↦ elim (Bool-cases (k == max)) [
      | inl q ↦ rw (e, q) (omega arith)
      | inr q ↦
          rw (e, q) (omega (arith, small v k e q, numbered_length max g.vertices d g.vertices))
    ]
  ]

  pub populate_sources-Populated :
      (fuel : ℕ) (es : List ℕ) (d : ℕ → Option ℕ)
      → ((e : ℕ) → elem e es ≡ true → elem e g.sources ≡ true)
      → length g.vertices * suc (length g.vertices) < fuel
      → Settling max g few inside [] es d
      → Populated [] (populate_sources fuel max g es d) d
  unfolding populate_sources
  populate_sources-Populated fuel [] d m le I = record {
    after = d;
    returns = refl;
    invariant = I;
    unreached = λ v e. e;
  }
  populate_sources-Populated fuel (e ∷ es) d m le I =
      let d1 = update d e (some 0) in
      let e_source = m e (rw (==_refl e) refl) in
      let I1 = next_source e es d e_source I in
      let bound =
        total_bound (weight max g.vertices) (suc (length g.vertices)) d1 g.vertices
          (weight_bound d1 I1.small) in
      let p = populate-Populated fuel (e ∷ []) es d1 I1 (omega (arith, bound, le)) in
      let r =
        populate_sources-Populated fuel es p.after (λ u h. m u (or_inr (u == e) (elem u es) h)) le
          p.invariant in
      record {
        after = r.after;
        returns = rw (populate_sources, p.returns) r.returns;
        invariant = r.invariant;
        unreached = λ v h. elim (Bool-cases (e == v)) [
          | inl q ↦ cc (I.zero_at e e_source, h, ap d ((==_iff e v).0 q))
          | inr q ↦ r.unreached v (p.unreached v (rw q h))
        ];
      }

  -- Every walk to a vertex is at least as long as its depth.
  pub Settling-least :
      (d : ℕ → Option ℕ)
      → Settling max g few inside [] [] d
      → (j v : ℕ) → Walk g j v
      → (k : ℕ) × (d v ≡ some k) × (k ≤ j) × ((k == max) ≡ false)
  Settling-least d I j v (from_source s m) = (0, I.zero_at s m, omega arith, ground (arith, few))
  Settling-least d I j v (along i u w p m) =
      let (k, at, le, n) = Settling-least d I i u p in
      elim (I.closed u k at) [
        | inl x ↦ ground (arith, x, n)
        | inr (inl x) ↦ cc x
        | inr (inr done) ↦
            let (e, at_w, le_w) = done w m in
            let least = I.small u k at n in
            (
              e,
              at_w,
              omega (arith, le, le_w),
              ground (arith, least, le_w, numbered_length max g.vertices d g.vertices, few),
            )
      ]
