-- ===== src/Graph/Relisted.antt =====
-- Proofs about csapex_core/src/model/graph/graph_impl.cpp, `deleteConnection`, where connections that remain are
-- disabled.
use csapex.Base.{
  ℕ, ◌≡◌, refl, ◌∙◌, ==_refl, true, false, List, [], ◌∷◌, any, elem, Bool-cases, inl, inr, arith,
}
use csapex.Base.Result.{ok}
use csapex.Graph.{erase}
use csapex.Graph.Deletion.{Edge, Network, joins_vertices, has_input_connection, delete_connection}
use csapex.Graph.Linked.{ends_at, IsLinked}
use csapex.Graph.Removal.{elem-insert}
use csapex.Graph.Cutting.{remaining_le, parent_after}
use csapex.Graph.Cut.{cut, delete_connection-cut}

-- A connection that ends at a vertex joins it with another.
origin :
    (edge : ℕ → Edge) (b : ℕ) (cs : List ℕ)
    → any (λ d. ends_at b (edge d)) cs ≡ true
    → (u : ℕ) × (any (λ d. joins_vertices u b (edge d)) cs ≡ true)
origin edge b [] h = cc h
origin edge b (c ∷ cs) h = elim (Bool-cases (ends_at b (edge c))) [
  | inl q ↦ ((edge c).from_vertex, ground (arith, q))
  | inr q ↦ let (u, i) = origin edge b cs (rw q at h) in (u, ground (arith, i))
]

-- When a connection is deleted and those that remain at the vertex where it ends are all disabled, that vertex
-- is a source afterwards, and still has a parent.
pub delete_connection_relists :
    (n : Network) (c : ℕ)
    → IsLinked n
    → elem c n.edges ≡ true
    → (n.edge c).detached ≡ false
    → has_input_connection (n.edge c).to_vertex n.edge (erase c n.edges) ≡ false
    → any (λ d. ends_at (n.edge c).to_vertex (n.edge d)) (erase c n.edges) ≡ true
    → (n' : Network) × (delete_connection c n ≡ ok n')
      × (elem (n.edge c).to_vertex n'.graph.sources ≡ true)
      × ((u : ℕ) × (elem u (n'.graph.vertex (n.edge c).to_vertex).parents ≡ true))
delete_connection_relists n c L m attached disabled still =
    let b = (n.edge c).to_vertex in
    let inside = L.head b (remaining_le n L c m (ends_at b) still) in
    let (u, i) = origin n.edge b (erase c n.edges) still in
    (
      cut n L c m attached,
      delete_connection-cut n L c m attached,
      elem-insert _ b b n.graph.sources ∙ rw (disabled, inside, ==_refl b) refl,
      (u, parent_after n L c m attached u b ∙ i),
    )
