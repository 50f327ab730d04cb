-- ===== src/Graph.antt =====
-- csapex_core/src/model/graph/graph_impl.cpp and vertex.cpp: graphs, their connected components, and the vertices
-- that need messages. A vertex is a number; the characteristics of all vertices are functions.
pub mod Search
pub mod Erase
pub mod Components
pub mod Fuel
pub mod Edges
pub mod Labels
pub mod Connectivity
pub mod Needs
pub mod Depths
pub mod Deletion
pub mod Linked
pub mod Growth
pub mod Removal
pub mod Cutting
pub mod Cut
pub mod Built
pub mod Relisted
pub mod Counterpart
pub mod Trace
pub mod Classified
pub mod Analysis
pub mod Analyzed
pub mod Clear
pub mod Spread
pub mod Marks
pub mod Totals
pub mod Relax
pub mod Settle
pub mod Populate
pub mod Streams
pub mod Distance
mod BuiltTests
mod DepthTests
mod Tests
use csapex.Base.{
  ℕ, zero, suc, ◌+◌, ◌==◌, Bool, true, false, not, List, [], ◌∷◌, ◌++◌, Option, none, some, elem,
  update, length, if◌then◌else◌,
}

pub record Vertex : Type 0 where
  pub parents : List ℕ
  pub children : List ℕ

pub record Graph : Type 0 where
  pub vertices : List ℕ
  pub vertex : ℕ → Vertex
  pub sources : List ℕ
  pub sinks : List ℕ

abbrev pub add_parent : ℕ → Vertex → Vertex
add_parent p v = record v { parents = v.parents ++ p ∷ [] }

abbrev pub add_child : ℕ → Vertex → Vertex
add_child c v = record v { children = v.children ++ c ∷ [] }

-- `std::find` and `erase`: the first occurrence goes.
unfoldable pub erase : ℕ → List ℕ → List ℕ
erase v [] = []
erase v (x ∷ xs) = let rest = erase v xs in if v == x then xs else x ∷ rest

-- `addNode`: a new vertex without edges is a source and a sink.
unfoldable pub add_node : ℕ → Graph → Graph
add_node v g = record g {
  vertices = g.vertices ++ v ∷ [];
  vertex = update g.vertex v (record { parents = []; children = [] });
  sources = g.sources ++ v ∷ [];
  sinks = g.sinks ++ v ∷ [];
}

-- What `addConnection` does to the vertices of two nodes, unless they are one.
unfoldable pub connect : ℕ → ℕ → Graph → Graph
connect v_from v_to g =
    let parted = update g.vertex v_from (add_child v_to (g.vertex v_from)) in
    if v_from == v_to then g else record g {
      vertex = update parted v_to (add_parent v_from (parted v_to));
      sources = erase v_to g.sources;
      sinks = erase v_from g.sinks;
    }

-- The components assigned so far; `none` is -1.
abbrev pub Components : Type 0
Components = ℕ → Option ℕ

abbrev pub neighbors : Graph → ℕ → List ℕ
neighbors g v = (g.vertex v).parents ++ (g.vertex v).children

abbrev pub is_none : Option ℕ → Bool
is_none none = true
is_none (some k) = false

-- The loop over all neighbors of a vertex: the queue and the components.
unfoldable pub visit_neighbors : ℕ → List ℕ → List ℕ × Components → List ℕ × Components
visit_neighbors k [] s = s
visit_neighbors k (w ∷ ws) (q, comp) =
    visit_neighbors k ws
      (if is_none (comp w) then (q ++ w ∷ [], update comp w (some k)) else (q, comp))

-- The inner loop: the unmarked vertices and the components, or `none` when the fuel runs out.
unfoldable pub search : ℕ → Graph → ℕ → List ℕ → List ℕ → Components → Option (List ℕ × Components)
search fuel g k unmarked [] comp = some (unmarked, comp)
search zero g k unmarked (front ∷ q) comp = none
search (suc fuel) g k unmarked (front ∷ q) comp =
    let next = visit_neighbors k (neighbors g front) (q, comp) in
    let skipped = search fuel g k unmarked q comp in
    let visited = search fuel g k (erase front unmarked) next.0 next.1 in
    if elem front unmarked then visited else skipped

-- The outer loop
unfoldable pub label : ℕ → ℕ → Graph → ℕ → List ℕ → Components → Option Components
label fuel inner g k [] comp = some comp
label zero inner g k (start ∷ rest) comp = none
label (suc fuel) inner g k (start ∷ rest) comp =
    elim (search inner g k (start ∷ rest) (start ∷ []) (update comp start (some k))) [
      | none ↦ none
      | some s ↦ label fuel inner g (suc k) s.0 s.1
    ]

abbrev pub clear_components : List ℕ → Components → Components
clear_components [] comp = comp
clear_components (v ∷ vs) comp = clear_components vs (update comp v none)

-- `buildConnectedComponents`, with fuel for the outer and for the inner loop. It goes over the vertices alone:
-- `checkNodeState` of their nodes, which tells a node runner to look at its node again, changes none of them.
unfoldable pub build_connected_components : ℕ → ℕ → Graph → Components → Option Components
build_connected_components fuel inner g comp =
    label fuel inner g 0 g.vertices (clear_components g.vertices comp)

-- What `findVerticesThatNeedMessages` asks of the node of a vertex: whether it processes empty
-- messages, and for each connection of its outputs whether the receiving input is essential.
pub record Facade : Type 0 where
  pub processing_nothing : Bool
  pub essential : List Bool

abbrev pub leads_to_essential : List Bool → Bool
leads_to_essential [] = false
leads_to_essential (true ∷ bs) = true
leads_to_essential (false ∷ bs) = leads_to_essential bs

-- The loop of `findVerticesThatNeedMessages`: the first vertex that processes empty messages ends it.
unfoldable pub find_vertices_that_need_messages : (ℕ → Facade) → List ℕ → List ℕ
find_vertices_that_need_messages facade [] = []
find_vertices_that_need_messages facade (v ∷ vs) =
    let rest = find_vertices_that_need_messages facade vs in
    if (facade v).processing_nothing
    then v ∷ []
    else if leads_to_essential (facade v).essential
    then v ∷ rest
    else rest
