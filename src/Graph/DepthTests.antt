-- ===== src/Graph/DepthTests.antt =====
-- The depths of a graph of four vertices for csapex_core/src/model/graph/graph_impl.cpp, where two paths of
-- different lengths lead from vertex 0 to vertex 2, and none to vertex 3 but from itself.
use csapex.Base.{
  ℕ, zero, suc, ◌≤◌, ◌↔◌, ◌≡◌, refl, true, false, [], ◌∷◌, ◌++◌, Option, none, some, elem, map,
  arith,
}
use csapex.Graph.{Graph, erase}
use csapex.Graph.Edges.{IsConsistent}
use csapex.Graph.Depths.{
  Streams, calculate_depths, find_vertices_that_join_streams, follow_sources, follow_streams,
  visit_streams, populate_sources, populate, relax,
}
use csapex.Graph.Counterpart.{
  Roles, no_roles, find_counterparts, trace, trace_parents, assign_roles,
}
use csapex.Graph.Trace.{IsSort}
use csapex.Graph.Classified.{IsJustified, find_counterparts-IsJustified}
use csapex.Graph.Settle.{Walk}
use csapex.Graph.Distance.{calculate_depths-distance}

-- Edges from 0 to 1, from 1 to 2 and from 0 to 2.
abbrev triangle : Graph
triangle = record {
  vertices = 0 ∷ 1 ∷ 2 ∷ 3 ∷ [];
  vertex = λ v. record {
    parents = elim v [ suc zero ↦ 0 ∷ [] | suc (suc zero) ↦ 1 ∷ 0 ∷ [] | _ ↦ [] ];
    children = elim v [ zero ↦ 1 ∷ 2 ∷ [] | suc zero ↦ 2 ∷ [] | _ ↦ [] ];
  };
  sources = 0 ∷ 3 ∷ [];
  sinks = 2 ∷ 3 ∷ [];
}

triangle-IsConsistent : IsConsistent triangle
triangle-IsConsistent = record {
  child_parent = λ v w e. ground (arith, e);
  parent_child = λ v w e. ground (arith, e);
  inside = λ v w e. ground (arith, e);
  outside = λ v w e. ground (arith, e);
}

-- Vertex 2 joins two streams; its depth is the length of the shorter path.
triangle-depths :
    (elim (calculate_depths 30 100 triangle) [
      | none ↦ []
      | some s ↦ s.depth 0 ∷ s.depth 1 ∷ s.depth 2 ∷ s.depth 3 ∷ map some s.joins
    ])
    ≡ some 0 ∷ some 1 ∷ some 1 ∷ some 0 ∷ some 2 ∷ []
unfolding calculate_depths find_vertices_that_join_streams follow_sources follow_streams
    visit_streams populate_sources populate relax
triangle-depths = refl

calculate_depths-distance_example :
    (s : Streams) × (calculate_depths 30 100 triangle ≡ some s)
    × ((v k : ℕ)
        → (s.depth v ≡ some k) ↔ (Walk triangle k v × ((j : ℕ) → Walk triangle j v → k ≤ j)))
    × ((v : ℕ) → (s.depth v ≡ none) ↔ ((k : ℕ) → ¬ Walk triangle k v))
calculate_depths-distance_example =
    calculate_depths-distance 100 triangle 30 (omega arith) triangle-IsConsistent
      (λ s m. ground (arith, m)) (omega arith)

-- The depths of the vertices, by which the queue is sorted as it is built.
abbrev triangle_depth : ℕ → Option ℕ
triangle_depth v = elim v [
  | zero ↦ some 0
  | suc zero ↦ some 1
  | suc (suc zero) ↦ some 1
  | _ ↦ some 0
]

in_order : IsSort (λ xs. xs)
in_order = record { members = λ v xs. refl; distinct = λ xs d. d }

find_counterparts-IsJustified_example :
    (r : Roles) × (find_counterparts 4 (λ xs. xs) triangle triangle_depth (2 ∷ []) no_roles
      ≡ some r)
    × IsJustified triangle (2 ∷ []) r
    × ((u : ℕ) → r.is_joining_vertex u ≡ elem u (2 ∷ []))
find_counterparts-IsJustified_example =
    find_counterparts-IsJustified (λ xs. xs) in_order triangle triangle-IsConsistent triangle_depth
      4 (omega arith) (2 ∷ []) (λ j m. ground (arith, m))

-- Vertex 0 is where the streams part that vertex 2 joins, and vertex 1 is between.
triangle-roles :
    (elim (find_counterparts 4 (λ xs. xs) triangle triangle_depth (2 ∷ []) no_roles) [
      | none ↦ []
      | some r ↦
          map r.is_joining_vertex_counterpart (0 ∷ 1 ∷ 2 ∷ 3 ∷ [])
          ++ map r.is_combined_by_joining_vertex (0 ∷ 1 ∷ 2 ∷ [])
    ])
    ≡ true ∷ false ∷ false ∷ false ∷ false ∷ true ∷ false ∷ []
unfolding find_counterparts trace trace_parents assign_roles erase
triangle-roles = refl
