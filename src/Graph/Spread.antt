-- ===== src/Graph/Spread.antt =====
-- Proofs about csapex_core/src/model/graph/graph_impl.cpp, `calculateDepths`: marking what is reached from
-- given vertices ends, and marks nothing else.
use csapex.Base.{
  ℕ, zero, suc, ◌+◌, ◌≤◌, ◌≡◌, ◌⊎◌, refl, sym, ap, ◌∙◌, ◌==◌, ==_iff, ==_refl, Bool, true, false,
  List, [], ◌∷◌, some, elem, update, length, Bool-cases, inl, inr, arith,
}
use csapex.Graph.Search.{or_inr, elem_cons}
use csapex.Graph.Depths.{visit_unmarked, spread}

-- What is reached from the start vertices along `next`.
pub data ReachedFrom (next : ℕ → List ℕ) (Start : ℕ → Type 0) : ℕ → Type 0 where
  begin : (s : ℕ) → Start s → ReachedFrom next Start s
  step : (u w : ℕ) → ReachedFrom next Start u → elem w (next u) ≡ true → ReachedFrom next Start w

abbrev open_flag : Bool → ℕ
open_flag true = 0
open_flag false = 1

abbrev pub unmarked : (ℕ → Bool) → List ℕ → ℕ
unmarked m [] = 0
unmarked m (v ∷ vs) = open_flag (m v) + unmarked m vs

set_flag : (m : ℕ → Bool) (w : ℕ) → update m w true w ≡ true
set_flag m w = rw (==_refl w) refl

mark_one : (m : ℕ → Bool) (w v : ℕ) → open_flag (update m w true v) ≤ open_flag (m v)
mark_one m w v = elim (Bool-cases (w == v)) [
  | inl q ↦ rw q (omega arith)
  | inr q ↦ rw q (omega arith)
]

unmarked-update_le :
    (m : ℕ → Bool) (w : ℕ) (vs : List ℕ) → unmarked (update m w true) vs ≤ unmarked m vs
unmarked-update_le m w [] = omega arith
unmarked-update_le m w (v ∷ vs) = omega (arith, mark_one m w v, unmarked-update_le m w vs)

pub unmarked-update :
    (m : ℕ → Bool) (w : ℕ) (vs : List ℕ)
    → elem w vs ≡ true
    → m w ≡ false
    → suc (unmarked (update m w true) vs) ≤ unmarked m vs
unmarked-update m w [] i n = cc i
unmarked-update m w (v ∷ vs) i n = elim (elem_cons w v vs i) [
  | inl p ↦
      let was : open_flag (m v) ≡ 1 = ap open_flag (ap m (sym p) ∙ n) in
      let now : open_flag (update m w true v) ≡ 0 =
        ap open_flag (ap (update m w true) (sym p) ∙ set_flag m w) in
      omega (arith, was, now, unmarked-update_le m w vs)
  | inr e ↦ omega (arith, mark_one m w v, unmarked-update m w vs e n)
]

-- What the loop over `ws` leaves.
pub record Visited (vs ws q : List ℕ) (m : ℕ → Bool) (q' : List ℕ) (m' : ℕ → Bool) : Type 0 where
  pub grows : (v : ℕ) → m v ≡ true → m' v ≡ true
  pub marked : (w : ℕ) → elem w ws ≡ true → m' w ≡ true
  pub kept : (v : ℕ) → elem v q ≡ true → elem v q' ≡ true
  pub fresh : (v : ℕ) → m' v ≡ true → (m v ≡ true) ⊎ ((elem v ws ≡ true) × (elem v q' ≡ true))
  pub queued : (v : ℕ) → elem v q' ≡ true → (elem v q ≡ true) ⊎ (m' v ≡ true)
  pub smaller : length q' + unmarked m' vs ≤ length q + unmarked m vs

pub visit_unmarked-Visited :
    (vs ws q : List ℕ) (m : ℕ → Bool)
    → ((w : ℕ) → elem w ws ≡ true → elem w vs ≡ true)
    → let r = visit_unmarked ws (q, m) in Visited vs ws q m r.0 r.1
unfolding visit_unmarked
visit_unmarked-Visited vs [] q m inside = record {
  grows = λ v e. e;
  marked = λ w e. cc e;
  kept = λ v e. e;
  fresh = λ v e. inl e;
  queued = λ v e. inl e;
  smaller = omega arith;
}
visit_unmarked-Visited vs (w ∷ ws) q m inside =
    let rest : (u : ℕ) → elem u ws ≡ true → elem u vs ≡ true =
      λ u e. inside u (or_inr (u == w) (elem u ws) e) in
    elim (Bool-cases (m w)) [
      | inl old ↦
          let i = visit_unmarked-Visited vs ws q m rest in
          rw (visit_unmarked, old)
            (record {
              grows = i.grows;
              marked = λ u e. elim (elem_cons u w ws e) [
                | inl p ↦ i.grows u (ap m p ∙ old)
                | inr e' ↦ i.marked u e'
              ];
              kept = i.kept;
              fresh = λ v e. elim (i.fresh v e) [
                | inl o ↦ inl o
                | inr f ↦ inr (or_inr (v == w) (elem v ws) f.0, f.1)
              ];
              queued = i.queued;
              smaller = i.smaller;
            })
      | inr new ↦
          let m1 = update m w true in
          let i = visit_unmarked-Visited vs ws (w ∷ q) m1 rest in
          let less = unmarked-update m w vs (inside w (rw (==_refl w) refl)) new in
          let w_marked : m1 w ≡ true = rw (==_refl w) refl in
          rw (visit_unmarked, new)
            (record {
              grows = λ v e.
                  i.grows v (elim (Bool-cases (w == v)) [ inl q ↦ rw q refl | inr q ↦ rw q e ]);
              marked = λ u e. elim (elem_cons u w ws e) [
                | inl p ↦ i.grows u (ap m1 p ∙ w_marked)
                | inr e' ↦ i.marked u e'
              ];
              kept = λ v e. i.kept v (or_inr (v == w) (elem v q) e);
              fresh = λ v e. elim (i.fresh v e) [
                | inr f ↦ inr (or_inr (v == w) (elem v ws) f.0, f.1)
                | inl o ↦ elim (Bool-cases (w == v)) [
                  | inl p ↦
                      let same = ==_iff w v in
                      let at : v == w ≡ true = (==_iff v w).1 (sym (same.0 p)) in
                      inr (rw at refl, i.kept v (rw at refl))
                  | inr p ↦ inl (rw p at o)
                ]
              ];
              queued = λ v e. elim (i.queued v e) [
                | inr n ↦ inr n
                | inl o ↦ elim (elem_cons v w q o) [
                  | inl p ↦ inr (i.grows v (ap m1 p ∙ w_marked))
                  | inr old ↦ inl old
                ]
              ];
              smaller = omega (arith, i.smaller, less);
            })
    ]

module _ (next : ℕ → List ℕ) (Start : ℕ → Type 0) where
  -- Marked vertices are reached, and all that they lead to is marked but for those on the stack.
  pub record Closing (q : List ℕ) (m : ℕ → Bool) : Type 0 where
    pub sound : (v : ℕ) → m v ≡ true → ReachedFrom next Start v
    pub queued : (v : ℕ) → elem v q ≡ true → m v ≡ true
    pub closed :
        (u : ℕ) → m u ≡ true → (elem u q ≡ true) ⊎ ((w : ℕ) → elem w (next u) ≡ true → m w ≡ true)

  -- Taking the top of the stack and marking what it leads to.
  pub Closing-step :
      (vs q : List ℕ) (top : ℕ) (m : ℕ → Bool) (q' : List ℕ) (m' : ℕ → Bool)
      → Closing (top ∷ q) m
      → Visited vs (next top) q m q' m'
      → Closing q' m'
  Closing-step vs q top m q' m' I V =
      let top_marked : m top ≡ true = I.queued top (rw (==_refl top) refl) in
      record {
        sound = λ v e. elim (V.fresh v e) [
          | inl old ↦ I.sound v old
          | inr f ↦ step top v (I.sound top top_marked) f.0
        ];
        queued = λ v e. elim (V.queued v e) [
          | inl old ↦ V.grows v (I.queued v (or_inr (v == top) (elem v q) old))
          | inr n ↦ n
        ];
        closed = λ u e. elim (V.fresh u e) [
          | inr f ↦ inl f.1
          | inl old ↦ elim (I.closed u old) [
            | inr all ↦ inr (λ w i. V.grows w (all w i))
            | inl on ↦ elim (elem_cons u top q on) [
              | inl p ↦ inr (λ w i. V.marked w (ap (λ t. elem w (next t)) (sym p) ∙ i))
              | inr rest ↦ inl (V.kept u rest)
            ]
          ]
        ];
      }

  -- The marks that a search leaves.
  pub record SpreadOut (fuel : ℕ) (q : List ℕ) (m : ℕ → Bool) : Type 0 where
    pub after : ℕ → Bool
    pub returns : spread fuel next q m ≡ some after
    pub invariant : Closing [] after
    pub grows : (v : ℕ) → m v ≡ true → after v ≡ true

  module _ (vs : List ℕ) (inside : (u w : ℕ) → elem w (next u) ≡ true → elem w vs ≡ true) where
    pub spread-SpreadOut :
        (fuel : ℕ) (q : List ℕ) (m : ℕ → Bool)
        → Closing q m
        → length q + unmarked m vs ≤ fuel
        → SpreadOut fuel q m
    unfolding spread
    spread-SpreadOut fuel [] m I le = record {
      after = m;
      returns = refl;
      invariant = I;
      grows = λ v e. e;
    }
    spread-SpreadOut zero (top ∷ q) m I le = absurd (omega (arith, le))
    spread-SpreadOut (suc fuel) (top ∷ q) m I le =
        let r = visit_unmarked (next top) (q, m) in
        let V = visit_unmarked-Visited vs (next top) q m (inside top) in
        let s =
          spread-SpreadOut fuel r.0 r.1 (Closing-step vs q top m r.0 r.1 I V)
            (omega (arith, V.smaller, le)) in
        record {
          after = s.after;
          returns = s.returns;
          invariant = s.invariant;
          grows = λ v e. s.grows v (V.grows v e);
        }
