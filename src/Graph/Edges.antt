-- ===== src/Graph/Edges.antt =====
-- Proofs about csapex_core/src/model/graph/graph_impl.cpp, `addNode` and `addConnection`: edges are
-- known at both ends.
use csapex.Base.{
  ℕ, ◌≡◌, refl, sym, ap, ◌∙◌, ◌==◌, ==_iff, ==_refl, ==_not, Bool, true, false, List, [], ◌∷◌, ◌++◌,
  elem, update, Bool-cases, inl, inr, ◌⊎◌, if◌then◌else◌,
}
use csapex.Graph.{Vertex, Graph, neighbors, connect, add_parent, add_child}
use csapex.Graph.Search.{
  Reached, here, there, or_inr, or_cases, elem-append, elem_snoc, elem-snoc, elem_last,
}
use csapex.Graph.Components.{IsUndirected}

-- A vertex is a child of another exactly if that is a parent of it, and both are in the graph.
pub record IsConsistent (g : Graph) : Type 0 where
  pub child_parent :
      (v w : ℕ) → elem w (g.vertex v).children ≡ true → elem v (g.vertex w).parents ≡ true
  pub parent_child :
      (v w : ℕ) → elem w (g.vertex v).parents ≡ true → elem v (g.vertex w).children ≡ true
  pub inside : (v w : ℕ) → elem w (g.vertex v).children ≡ true → elem w g.vertices ≡ true
  pub outside : (v w : ℕ) → elem w (g.vertex v).parents ≡ true → elem w g.vertices ≡ true

-- A path of edges joins two vertices, in whatever direction they point.
pub data Connected (g : Graph) : ℕ → ℕ → Type 0 where
  self : (v : ℕ) → Connected g v v
  to_parent : (u v w : ℕ) → Connected g u v → elem w (g.vertex v).parents ≡ true → Connected g u w
  to_child : (u v w : ℕ) → Connected g u v → elem w (g.vertex v).children ≡ true → Connected g u w

module _ (g : Graph) where
  -- A neighbor is a parent or a child.
  neighbor_cases :
      (v w : ℕ)
      → elem w (neighbors g v) ≡ true
      → (elem w (g.vertex v).parents ≡ true) ⊎ (elem w (g.vertex v).children ≡ true)
  neighbor_cases v w e =
      or_cases (elem w (g.vertex v).parents) (elem w (g.vertex v).children)
        (sym (elem-append w (g.vertex v).parents (g.vertex v).children) ∙ e)

  parent_neighbor : (v w : ℕ) → elem w (g.vertex v).parents ≡ true → elem w (neighbors g v) ≡ true
  parent_neighbor v w e = elem-append w (g.vertex v).parents (g.vertex v).children ∙ rw e refl

  child_neighbor : (v w : ℕ) → elem w (g.vertex v).children ≡ true → elem w (neighbors g v) ≡ true
  child_neighbor v w e =
      elem-append w (g.vertex v).parents (g.vertex v).children
      ∙ or_inr (elem w (g.vertex v).parents) (elem w (g.vertex v).children) e

  pub IsUndirected-consistent : IsConsistent g → IsUndirected g
  IsUndirected-consistent C = record {
    symmetric = λ v w e. elim (neighbor_cases v w e) [
      | inl p ↦ child_neighbor w v (C.parent_child v w p)
      | inr c ↦ parent_neighbor w v (C.child_parent v w c)
    ];
    inside =
        λ v w e. elim (neighbor_cases v w e) [ inl p ↦ C.outside v w p | inr c ↦ C.inside v w c ];
  }

  pub Connected-Reached : (u v : ℕ) → Reached g u v → Connected g u v
  Connected-Reached u v (here x) = self x
  Connected-Reached u v (there x y z p e) = elim (neighbor_cases y z e) [
    | inl m ↦ to_parent x y z (Connected-Reached x y p) m
    | inr m ↦ to_child x y z (Connected-Reached x y p) m
  ]

  pub Reached-Connected : (u v : ℕ) → Connected g u v → Reached g u v
  Reached-Connected u v (self x) = here x
  Reached-Connected u v (to_parent x y z p e) =
      there x y z (Reached-Connected x y p) (parent_neighbor y z e)
  Reached-Connected u v (to_child x y z p e) =
      there x y z (Reached-Connected x y p) (child_neighbor y z e)

-- The vertex function after `connect`
abbrev pub linked : ℕ → ℕ → Graph → ℕ → Vertex
linked v_from v_to g =
    let parted = update g.vertex v_from (add_child v_to (g.vertex v_from)) in
    update parted v_to (add_parent v_from (parted v_to))

module _ (a b : ℕ) (g : Graph) (n : (a == b) ≡ false) where
  -- Only `b` gets a parent, and only `a` gets a child.
  pub parents-linked :
      (v : ℕ)
      → (linked a b g v).parents
        ≡ (if v == b then (g.vertex v).parents ++ a ∷ [] else (g.vertex v).parents)
  parents-linked v = elim (Bool-cases (v == b)) [
    | inl p ↦ rw ((==_iff v b).0 p, ==_refl b, n) refl
    | inr p ↦
        rw (==_not v b p, p)
          (elim (Bool-cases (v == a)) [
            | inl q ↦ rw ((==_iff v a).0 q, ==_refl a) refl
            | inr q ↦ rw (==_not v a q) refl
          ])
  ]

  pub children-linked :
      (v : ℕ)
      → (linked a b g v).children
        ≡ (if v == a then (g.vertex v).children ++ b ∷ [] else (g.vertex v).children)
  children-linked v = elim (Bool-cases (v == b)) [
    | inl p ↦ rw ((==_iff v b).0 p, ==_refl b, n, ==_not a b n) refl
    | inr p ↦ rw (==_not v b p) (elim (Bool-cases (v == a)) [
      | inl q ↦ rw ((==_iff v a).0 q, ==_refl a) refl
      | inr q ↦ rw (==_not v a q, q) refl
    ])
  ]

-- A member of a list that may have one more at its end.
member_cases :
    (c : Bool) (w x : ℕ) (xs : List ℕ)
    → elem w (if c then xs ++ x ∷ [] else xs) ≡ true
    → (elem w xs ≡ true) ⊎ ((c ≡ true) × (w ≡ x))
member_cases false w x xs e = inl e
member_cases true w x xs e = elim (elem_snoc w x xs e) [ inl m ↦ inl m | inr p ↦ inr (refl, p) ]

old_member :
    (c : Bool) (w x : ℕ) (xs : List ℕ)
    → elem w xs ≡ true
    → elem w (if c then xs ++ x ∷ [] else xs) ≡ true
old_member false w x xs e = e
old_member true w x xs e = elem-snoc w x xs e

module _ (a b : ℕ) (g : Graph) (n : (a == b) ≡ false) where
  -- A child of a vertex: there before, or the new one.
  child_cases :
      (v w : ℕ)
      → elem w (linked a b g v).children ≡ true
      → (elem w (g.vertex v).children ≡ true) ⊎ ((v ≡ a) × (w ≡ b))
  child_cases v w e =
      elim (member_cases (v == a) w b (g.vertex v).children
        (ap (elem w) (sym (children-linked a b g n v)) ∙ e)) [
          | inl m ↦ inl m
          | inr (p, q) ↦ inr ((==_iff v a).0 p, q)
        ]

  parent_cases :
      (v w : ℕ)
      → elem w (linked a b g v).parents ≡ true
      → (elem w (g.vertex v).parents ≡ true) ⊎ ((v ≡ b) × (w ≡ a))
  parent_cases v w e =
      elim (member_cases (v == b) w a (g.vertex v).parents
        (ap (elem w) (sym (parents-linked a b g n v)) ∙ e)) [
          | inl m ↦ inl m
          | inr (p, q) ↦ inr ((==_iff v b).0 p, q)
        ]

  old_child :
      (v w : ℕ) → elem w (g.vertex v).children ≡ true → elem w (linked a b g v).children ≡ true
  old_child v w e =
      ap (elem w) (children-linked a b g n v) ∙ old_member (v == a) w b (g.vertex v).children e

  old_parent :
      (v w : ℕ) → elem w (g.vertex v).parents ≡ true → elem w (linked a b g v).parents ≡ true
  old_parent v w e =
      ap (elem w) (parents-linked a b g n v) ∙ old_member (v == b) w a (g.vertex v).parents e

  new_child : (v w : ℕ) → v ≡ a → w ≡ b → elem w (linked a b g v).children ≡ true
  new_child v w p q =
      ap (λ x. elem x (linked a b g v).children) q
      ∙ ap (λ x. elem b (linked a b g x).children) p
      ∙ ap (elem b) (children-linked a b g n a)
      ∙ rw (==_refl a) (elem_last b (g.vertex a).children)

  new_parent : (v w : ℕ) → v ≡ b → w ≡ a → elem w (linked a b g v).parents ≡ true
  new_parent v w p q =
      ap (λ x. elem x (linked a b g v).parents) q
      ∙ ap (λ x. elem a (linked a b g x).parents) p
      ∙ ap (elem a) (parents-linked a b g n b)
      ∙ rw (==_refl b) (elem_last a (g.vertex b).parents)

-- A conditional is consistent if both its branches are.
either_way :
    (c : Bool) (x y : Graph)
    → IsConsistent x
    → (c ≡ false → IsConsistent y)
    → IsConsistent (if c then x else y)
either_way true x y p q = p
either_way false x y p q = q refl

-- Joining two vertices of a graph keeps it consistent: a vertex is a child of another exactly if that
-- is a parent of it, and both are in the graph.
pub connect-IsConsistent :
    (a b : ℕ) (g : Graph)
    → elem a g.vertices ≡ true
    → elem b g.vertices ≡ true
    → IsConsistent g
    → IsConsistent (connect a b g)
unfolding connect
connect-IsConsistent a b g ia ib C = either_way (a == b) g _ C λ n. record {
  child_parent = λ v w e. elim (child_cases a b g n v w e) [
    | inl m ↦ old_parent a b g n w v (C.child_parent v w m)
    | inr (p, q) ↦ new_parent a b g n w v q p
  ];
  parent_child = λ v w e. elim (parent_cases a b g n v w e) [
    | inl m ↦ old_child a b g n w v (C.parent_child v w m)
    | inr (p, q) ↦ new_child a b g n w v q p
  ];
  inside = λ v w e. elim (child_cases a b g n v w e) [
    | inl m ↦ C.inside v w m
    | inr (p, q) ↦ ap (λ x. elem x g.vertices) q ∙ ib
  ];
  outside = λ v w e. elim (parent_cases a b g n v w e) [
    | inl m ↦ C.outside v w m
    | inr (p, q) ↦ ap (λ x. elem x g.vertices) q ∙ ia
  ];
}
