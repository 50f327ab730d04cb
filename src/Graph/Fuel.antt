-- ===== src/Graph/Fuel.antt =====
-- Proofs about csapex_core/src/model/graph/graph_impl.cpp, `buildConnectedComponents`: the search from a
-- vertex ends. Each round takes a vertex from the queue, and puts one there only where it gives it a
-- component.
use csapex.Base.{
  ℕ, zero, suc, ◌+◌, ◌≤◌, ◌≡◌, refl, sym, ap, ◌∙◌, ◌==◌, ==_refl, true, List, [], ◌∷◌, ◌++◌, Option,
  none, some, elem, update, length, length-append, Bool-cases, Option-cases, inl, inr, arith,
}
use csapex.Graph.{Graph, Components, neighbors, visit_neighbors, search, erase}
use csapex.Graph.Search.{
  or_inr, Extends, visit_neighbors-Visited, elem_cons, update_cases, update_self,
}
use csapex.Graph.Erase.{length-erase}
use csapex.Graph.Components.{IsUndirected, Searching, Searching-skip, Searching-visit}

abbrev pub open_one : Option ℕ → ℕ
open_one none = 1
open_one (some k) = 0

-- How many of the vertices have no component.
abbrev pub unassigned : Components → List ℕ → ℕ
unassigned comp [] = 0
unassigned comp (v ∷ vs) = open_one (comp v) + unassigned comp vs

module _ (comp : Components) (w k : ℕ) where
  assigned_zero : (v : ℕ) → v ≡ w → open_one (update comp w (some k) v) ≡ 0
  assigned_zero v p =
      ap (λ u. open_one (update comp w (some k) u)) p ∙ ap open_one (update_self comp w (some k))

  assign_one : (v : ℕ) → open_one (update comp w (some k) v) ≤ open_one (comp v)
  assign_one v = elim (update_cases comp w v (some k)) [
    | inl p ↦ omega (arith, assigned_zero v p)
    | inr u ↦ omega (arith, ap open_one u.1)
  ]

  unassigned-update_le : (vs : List ℕ) → unassigned (update comp w (some k)) vs ≤ unassigned comp vs
  unassigned-update_le [] = omega arith
  unassigned-update_le (v ∷ vs) = omega (arith, assign_one v, unassigned-update_le vs)

  unassigned-update :
      (vs : List ℕ)
      → elem w vs ≡ true
      → comp w ≡ none
      → suc (unassigned (update comp w (some k)) vs) ≤ unassigned comp vs
  unassigned-update [] m e = cc m
  unassigned-update (v ∷ vs) m e = elim (elem_cons w v vs m) [
    | inl p ↦
        let was : open_one (comp v) ≡ 1 = ap open_one (ap comp (sym p) ∙ e) in
        omega (arith, was, assigned_zero v (sym p), unassigned-update_le vs)
    | inr n ↦ omega (arith, assign_one v, unassigned-update vs n e)
  ]

visit_neighbors_measure :
    (k : ℕ) (ws q vs : List ℕ) (comp : Components)
    → ((w : ℕ) → elem w ws ≡ true → elem w vs ≡ true)
    → let r = visit_neighbors k ws (q, comp) in
      length r.0 + unassigned r.1 vs ≤ length q + unassigned comp vs
unfolding visit_neighbors
visit_neighbors_measure k [] q vs comp h = omega arith
visit_neighbors_measure k (w ∷ ws) q vs comp h =
    let rest : (u : ℕ) → elem u ws ≡ true → elem u vs ≡ true =
      λ u m. h u (or_inr (u == w) (elem u ws) m) in
    elim (Option-cases (comp w)) [
      | inl e ↦
          let comp1 = update comp w (some k) in
          let inner : length (visit_neighbors k ws (q ++ w ∷ [], comp1)).0
                + unassigned (visit_neighbors k ws (q ++ w ∷ [], comp1)).1 vs
              ≤ length (q ++ w ∷ []) + unassigned comp1 vs =
            visit_neighbors_measure k ws (q ++ w ∷ []) vs comp1 rest in
          let fewer = unassigned-update comp w k vs (h w (rw (==_refl w) refl)) e in
          rw (visit_neighbors, e) (omega (arith, inner, fewer, length-append q (w ∷ [])))
      | inr (j, e) ↦ rw (visit_neighbors, e) (visit_neighbors_measure k ws q vs comp rest)
    ]

Extends-refl : (k : ℕ) (comp : Components) → Extends k comp comp
Extends-refl k comp = record { keeps = λ v j e. e; adds = λ v e. inl e }

Extends-trans : (k : ℕ) (a b c : Components) → Extends k a b → Extends k b c → Extends k a c
Extends-trans k a b c E F = record {
  keeps = λ v j e. F.keeps v j (E.keeps v j e);
  adds = λ v e. elim (E.adds v e) [ inl n ↦ F.adds v n | inr x ↦ inr (F.keeps v k x) ];
}

-- What a search that has ended leaves.
pub record Searched (g : Graph) (k start fuel : ℕ) (unmarked q : List ℕ) (comp : Components)
    : Type 0 where
  pub left : List ℕ
  pub found : Components
  pub returns : search fuel g k unmarked q comp ≡ some (left, found)
  pub invariant : Searching g k start left [] found
  pub extends : Extends k comp found
  pub fewer : length left ≤ length unmarked
  pub first :
      (u : ℕ) (r : List ℕ)
      → q ≡ u ∷ r
      → elem u unmarked ≡ true
      → suc (length left) ≤ length unmarked

module _ (g : Graph) (consistent : IsUndirected g) (k start : ℕ) where
  pub search-Searched :
      (fuel : ℕ) (unmarked q : List ℕ) (comp : Components)
      → Searching g k start unmarked q comp
      → length q + unassigned comp g.vertices ≤ fuel
      → Searched g k start fuel unmarked q comp
  unfolding search
  search-Searched fuel unmarked [] comp I le = record {
    left = unmarked;
    found = comp;
    returns = refl;
    invariant = I;
    extends = Extends-refl k comp;
    fewer = omega arith;
    first = λ u r e m. cc e;
  }
  search-Searched zero unmarked (front ∷ q) comp I le = absurd (omega (arith, le))
  search-Searched (suc fuel) unmarked (front ∷ q) comp I le =
      elim (Bool-cases (elem front unmarked)) [
        | inr m ↦
            let S =
              search-Searched fuel unmarked q comp
                (Searching-skip g consistent k start front unmarked q comp I m)
                (omega (arith, le)) in
            record {
              left = S.left;
              found = S.found;
              returns = rw (search, m) S.returns;
              invariant = S.invariant;
              extends = S.extends;
              fewer = S.fewer;
              first = λ u r e n. cc (m, n, e);
            }
        | inl m ↦
            let r = visit_neighbors k (neighbors g front) (q, comp) in
            let V = visit_neighbors-Visited k (neighbors g front) q comp in
            let S =
              search-Searched fuel (erase front unmarked) r.0 r.1
                (Searching-visit g consistent k start front unmarked q comp I r.0 r.1 V m)
                (omega (
                  arith,
                  le,
                  visit_neighbors_measure k (neighbors g front) q g.vertices comp
                      (consistent.inside front),
                )) in
            record {
              left = S.left;
              found = S.found;
              returns = rw (search, m) S.returns;
              invariant = S.invariant;
              extends = Extends-trans k comp r.1 S.found V.extends S.extends;
              fewer = omega (arith, S.fewer, length-erase front unmarked m);
              first = λ u r e n. omega (arith, S.fewer, length-erase front unmarked m);
            }
      ]

pub unassigned_le : (comp : Components) (vs : List ℕ) → unassigned comp vs ≤ length vs
unassigned_le comp [] = omega arith
unassigned_le comp (v ∷ vs) = omega (arith, at_most (comp v), unassigned_le comp vs)
  where
    at_most : (o : Option ℕ) → open_one o ≤ 1
    at_most none = omega arith
    at_most (some k) = omega arith
