-- ===== src/Graph/Tests.antt =====
-- A graph of three vertices for csapex_core/src/model/graph/graph_impl.cpp, of which two are joined.
use csapex.Base.{ℕ, zero, suc, true, false, ◌≡◌, ◌↔◌, refl, [], ◌∷◌, none, some, arith}
use csapex.Graph.Needs.{find_vertices_that_need_messages_stops}
use csapex.Graph.{
  Facade, find_vertices_that_need_messages, Graph, Components, erase, connect, visit_neighbors,
  search, label, build_connected_components,
}
use csapex.Graph.Edges.{IsConsistent, Connected, connect-IsConsistent}
use csapex.Graph.Connectivity.{build_connected_components-Connected}

-- Vertices without edges
abbrev points : Graph
points = record {
  vertices = 0 ∷ 1 ∷ 2 ∷ [];
  vertex = λ v. record { parents = []; children = [] };
  sources = 0 ∷ 1 ∷ 2 ∷ [];
  sinks = 0 ∷ 1 ∷ 2 ∷ [];
}

points-IsConsistent : IsConsistent points
points-IsConsistent = record {
  child_parent = λ v w e. cc e;
  parent_child = λ v w e. cc e;
  inside = λ v w e. cc e;
  outside = λ v w e. cc e;
}

build_connected_components-Connected_example :
    (found : Components) × (build_connected_components 3 4 (connect 0 2 points) (λ v. none)
      ≡ some found)
    × ((j : ℕ) × (found 0 ≡ some j))
    × ((found 0 ≡ found 2) ↔ Connected (connect 0 2 points) 0 2)
unfolding connect
build_connected_components-Connected_example =
    build_connected_components-Connected (connect 0 2 points) (λ v. none) 3 4 0 2
      (connect-IsConsistent 0 2 points refl refl points-IsConsistent) (refl, (refl, (refl, tt)))
      (omega arith) (omega arith) refl refl

-- The components of the three vertices
joined-components :
    (elim (build_connected_components 3 4 (connect 0 2 points) (λ v. none)) [
      | none ↦ []
      | some found ↦ found 0 ∷ found 1 ∷ found 2 ∷ []
    ])
    ≡ some 0 ∷ some 1 ∷ some 0 ∷ []
unfolding build_connected_components label search visit_neighbors erase connect
joined-components = refl

-- Vertex 1 processes empty messages; vertices 0 and 2 have an essential receiver.
abbrev facades : ℕ → Facade
facades v = elim v [
  | zero ↦ record { processing_nothing = false; essential = false ∷ true ∷ [] }
  | suc zero ↦ record { processing_nothing = true; essential = [] }
  | _ ↦ record { processing_nothing = false; essential = true ∷ [] }
]

find_vertices_that_need_messages_stops_example :
    find_vertices_that_need_messages facades (0 ∷ 1 ∷ 2 ∷ []) ≡ 0 ∷ 1 ∷ []
find_vertices_that_need_messages_stops_example =
    find_vertices_that_need_messages_stops facades (0 ∷ []) 1 (2 ∷ []) (refl, tt) refl
