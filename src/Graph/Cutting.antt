-- ===== src/Graph/Cutting.antt =====
-- Proofs about csapex_core/src/model/graph/graph_impl.cpp, `deleteConnection`: the vertices, the sources and the
-- sinks still agree with the connections that remain, if these are enabled.
use csapex.Base.{
  ℕ, ◌≡◌, refl, sym, ap, ◌∙◌, ◌==◌, ==_iff, ==_refl, ==_not, Bool, true, false, not, ◌&&◌, ◌||◌,
  List, any, elem, update, Bool-cases, inl, inr, if◌then◌else◌, arith,
}
use csapex.Graph.{Vertex, erase}
use csapex.Graph.Deletion.{Edge, Network, joins_vertices, remove_all, remove_parent, remove_child}
use csapex.Graph.Linked.{any_edge, IsLinked}
use csapex.Graph.Removal.{elem-remove_all, any-erase, any-erase_le}

-- The vertices after two of them were parted
abbrev pub parted : ℕ → ℕ → (ℕ → Vertex) → ℕ → Vertex
parted a b vertex =
    let orphaned = update vertex b (remove_parent a (vertex b)) in
    update orphaned a (remove_child b (orphaned a))

module _ (a b : ℕ) (vertex : ℕ → Vertex) (apart : (a == b) ≡ false) where
  children-parted :
      (v : ℕ)
      → (parted a b vertex v).children
        ≡ (if v == a then remove_all b (vertex v).children else (vertex v).children)
  children-parted v = elim (Bool-cases (v == a)) [
    | inl p ↦ rw ((==_iff v a).0 p, ==_refl a, ==_not a b apart) refl
    | inr p ↦
        rw (==_not v a p, p)
          (elim (Bool-cases (b == v)) [
            | inl q ↦ rw (sym ((==_iff b v).0 q), ==_refl b) refl
            | inr q ↦ rw q refl
          ])
  ]

  parents-parted :
      (v : ℕ)
      → (parted a b vertex v).parents
        ≡ (if v == b then remove_all a (vertex v).parents else (vertex v).parents)
  parents-parted v = elim (Bool-cases (v == a)) [
    | inl p ↦ rw ((==_iff v a).0 p, ==_refl a, apart, ==_not a b apart) refl
    | inr p ↦ rw (==_not v a p) (elim (Bool-cases (v == b)) [
      | inl q ↦ rw ((==_iff v b).0 q, ==_refl b) refl
      | inr q ↦ rw (==_not v b q, q) refl
    ])
  ]

-- A list that lost a member, if a test holds
lost_member :
    (t : Bool) (b w : ℕ) (xs : List ℕ)
    → elem w (if t then remove_all b xs else xs) ≡ not (t && w == b) && elem w xs
lost_member true b w xs = elem-remove_all b w xs
lost_member false b w xs = refl

swap : (x y : Bool) → not (x && y) ≡ not (y && x)
swap true true = refl
swap true false = refl
swap false true = refl
swap false false = refl

-- Once no connection joins two vertices, the members that a connection between them accounts for are gone.
module _ (n : Network) (L : IsLinked n) (c : ℕ) (m : elem c n.edges ≡ true) where
  abbrev pub remaining : (Edge → Bool) → Bool
  remaining p = any (λ d. p (n.edge d)) (erase c n.edges)

  pub was : (p : Edge → Bool) → any_edge p n ≡ p (n.edge c) || remaining p
  was p = any-erase (λ d. p (n.edge d)) c n.edges m

  pub remaining_le : (p : Edge → Bool) → remaining p ≡ true → any_edge p n ≡ true
  remaining_le p = any-erase_le (λ d. p (n.edge d)) c n.edges

  pub apart : ((n.edge c).from_vertex == (n.edge c).to_vertex) ≡ false
  apart = L.loopless c m

  abbrev pub separated : ℕ → Vertex
  separated =
      let a = (n.edge c).from_vertex in
      let b = (n.edge c).to_vertex in
      if remaining (joins_vertices a b) then n.graph.vertex else parted a b n.graph.vertex

  -- Connections from the tail to the head of the one that is deleted
  same_ends :
      (v w : ℕ)
      → v == (n.edge c).from_vertex && w == (n.edge c).to_vertex ≡ true
      → remaining (joins_vertices v w)
        ≡ remaining (joins_vertices (n.edge c).from_vertex (n.edge c).to_vertex)
  same_ends v w h =
      let a = (n.edge c).from_vertex in
      let b = (n.edge c).to_vertex in
      let p : v ≡ a = (==_iff v a).0 (ground (arith, h)) in
      let q : w ≡ b = (==_iff w b).0 (ground (arith, h)) in
      ap (λ x. remaining (joins_vertices x w)) p ∙ ap (λ x. remaining (joins_vertices a x)) q

  module _ (attached : (n.edge c).detached ≡ false) (v w : ℕ) where
    -- Of the connection that is deleted and those that remain, only these count in the end.
    settled :
        (s : Bool)
        → remaining (joins_vertices (n.edge c).from_vertex (n.edge c).to_vertex) ≡ s
        → (s || not (v == (n.edge c).from_vertex && w == (n.edge c).to_vertex))
            && (joins_vertices v w (n.edge c) || remaining (joins_vertices v w))
          ≡ remaining (joins_vertices v w)
    settled s e = elim (Bool-cases (v == (n.edge c).from_vertex && w == (n.edge c).to_vertex)) [
      | inl h ↦ let r = same_ends v w h ∙ e in rw (r, attached) (ground (arith, h))
      | inr h ↦ rw attached (ground (arith, h))
    ]

    pub child_after : elem w (separated v).children ≡ remaining (joins_vertices v w)
    child_after =
        let a = (n.edge c).from_vertex in
        let b = (n.edge c).to_vertex in
        let old = L.child v w ∙ was (joins_vertices v w) in
        elim (Bool-cases (remaining (joins_vertices a b))) [
          | inl s ↦ rw s (old ∙ settled true s)
          | inr s ↦ rw s (
              ap (elem w) (children-parted a b n.graph.vertex apart v)
              ∙ lost_member (v == a) b w (n.graph.vertex v).children
              ∙ ap (λ x. not (v == a && w == b) && x) old
              ∙ settled false s)
        ]

    pub parent_after : elem v (separated w).parents ≡ remaining (joins_vertices v w)
    parent_after =
        let a = (n.edge c).from_vertex in
        let b = (n.edge c).to_vertex in
        let old = L.parent v w ∙ was (joins_vertices v w) in
        elim (Bool-cases (remaining (joins_vertices a b))) [
          | inl s ↦ rw s (old ∙ settled true s)
          | inr s ↦ rw s (
              ap (elem v) (parents-parted a b n.graph.vertex apart w)
              ∙ lost_member (w == b) a v (n.graph.vertex w).parents
              ∙ ap (λ x. x && elem v (n.graph.vertex w).parents) (swap (w == b) (v == a))
              ∙ ap (λ x. not (v == a && w == b) && x) old
              ∙ settled false s)
        ]
