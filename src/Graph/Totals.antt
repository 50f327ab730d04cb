-- ===== src/Graph/Totals.antt =====
-- Sums over the vertices of csapex_core/src/model/graph/graph_impl.cpp, `calculateDepths`: how they change when
-- one depth is set.
use csapex.Base.{
  ℕ, suc, ◌+◌, ◌*◌, ◌≤◌, ◌≡◌, refl, sym, ap, ◌==◌, ==_iff, true, false, List, [], ◌∷◌, Option, elem,
  update, length, Bool-cases, inl, inr, arith,
}
use csapex.Graph.Search.{elem_cons}

module _ (f : Option ℕ → ℕ) where
  abbrev pub total : (ℕ → Option ℕ) → List ℕ → ℕ
  total d [] = 0
  total d (v ∷ vs) = f (d v) + total d vs

  pub total_bound :
      (c : ℕ) (d : ℕ → Option ℕ) (vs : List ℕ)
      → ((v : ℕ) → f (d v) ≤ c)
      → total d vs ≤ length vs * c
  total_bound c d [] h = omega arith
  total_bound c d (v ∷ vs) h = omega (arith, h v, total_bound c d vs h)

  module _ (d : ℕ → Option ℕ) (w : ℕ) (x : Option ℕ) where
    at_other : (v : ℕ) → (w == v) ≡ false → f (update d w x v) ≡ f (d v)
    at_other v q = rw q refl

    at_self : (v : ℕ) → (w == v) ≡ true → (f (update d w x v) ≡ f x) × (f (d v) ≡ f (d w))
    at_self v q = (rw q refl, ap (λ u. f (d u)) (sym ((==_iff w v).0 q)))

    pub total_le : (vs : List ℕ) → f x ≤ f (d w) → total (update d w x) vs ≤ total d vs
    total_le [] h = omega arith
    total_le (v ∷ vs) h = elim (Bool-cases (w == v)) [
      | inl q ↦ let (a, b) = at_self v q in omega (arith, a, b, h, total_le vs h)
      | inr q ↦ omega (arith, at_other v q, total_le vs h)
    ]

    pub total_ge : (vs : List ℕ) → f (d w) ≤ f x → total d vs ≤ total (update d w x) vs
    total_ge [] h = omega arith
    total_ge (v ∷ vs) h = elim (Bool-cases (w == v)) [
      | inl q ↦ let (a, b) = at_self v q in omega (arith, a, b, h, total_ge vs h)
      | inr q ↦ omega (arith, at_other v q, total_ge vs h)
    ]

    pub total_lt :
        (vs : List ℕ)
        → elem w vs ≡ true
        → suc (f x) ≤ f (d w)
        → suc (total (update d w x) vs) ≤ total d vs
    total_lt [] i h = cc i
    total_lt (v ∷ vs) i h = elim (elem_cons w v vs i) [
      | inl p ↦
          let (a, b) = at_self v ((==_iff w v).1 p) in
          omega (arith, a, b, h, total_le vs (omega (arith, h)))
      | inr i' ↦ elim (Bool-cases (w == v)) [
        | inl q ↦ let (a, b) = at_self v q in omega (arith, a, b, h, total_le vs (omega (arith, h)))
        | inr q ↦ omega (arith, at_other v q, total_lt vs i' h)
      ]
    ]

    pub total_gt :
        (vs : List ℕ)
        → elem w vs ≡ true
        → suc (f (d w)) ≤ f x
        → suc (total d vs) ≤ total (update d w x) vs
    total_gt [] i h = cc i
    total_gt (v ∷ vs) i h = elim (elem_cons w v vs i) [
      | inl p ↦
          let (a, b) = at_self v ((==_iff w v).1 p) in
          omega (arith, a, b, h, total_ge vs (omega (arith, h)))
      | inr i' ↦ elim (Bool-cases (w == v)) [
        | inl q ↦ let (a, b) = at_self v q in omega (arith, a, b, h, total_ge vs (omega (arith, h)))
        | inr q ↦ omega (arith, at_other v q, total_gt vs i' h)
      ]
    ]
