-- ===== src/Graph/Deletion.antt =====
-- csapex_core/src/model/graph/graph_impl.cpp and vertex.cpp: the graph with its connections, and what adding
-- and deleting a connection or a node does to the vertices, sources and sinks.
use csapex.Base.{ℕ, ◌==◌, Bool, not, ◌&&◌, List, [], ◌∷◌, ◌++◌, any, elem, update, if◌then◌else◌}
use csapex.Base.Result.{Result, ok, failed}
use csapex.Graph.{Vertex, Graph, erase, connect}

-- A connection of messages between vertices of the graph: those of its output and of its input, whether it is
-- enabled, and whether one of its ends is gone.
pub record Edge : Type 0 where
  pub from_vertex : ℕ
  pub to_vertex : ℕ
  pub enabled : Bool
  pub detached : Bool

pub record Network : Type 0 where
  pub graph : Graph
  -- `edges_`
  pub edges : List ℕ
  pub edge : ℕ → Edge

-- `removeParent` and `removeChild`: every occurrence goes.
unfoldable pub remove_all : ℕ → List ℕ → List ℕ
remove_all v [] = []
remove_all v (x ∷ xs) = let rest = remove_all v xs in if v == x then rest else x ∷ rest

abbrev pub remove_parent : ℕ → Vertex → Vertex
remove_parent p v = record v { parents = remove_all p v.parents }

abbrev pub remove_child : ℕ → Vertex → Vertex
remove_child c v = record v { children = remove_all c v.children }

-- `insert` into a set
abbrev pub insert_vertex : ℕ → List ℕ → List ℕ
insert_vertex v xs = if elem v xs then xs else xs ++ v ∷ []

-- `addConnection`
unfoldable pub add_edge : ℕ → Network → Network
add_edge c n = record n {
  edges = n.edges ++ c ∷ [];
  graph = connect (n.edge c).from_vertex (n.edge c).to_vertex n.graph;
}

abbrev pub joins_vertices : ℕ → ℕ → Edge → Bool
joins_vertices v w e = not e.detached && e.from_vertex == v && e.to_vertex == w

-- `hasConnection` of the transitions of the two nodes, which no longer have the connection: an enabled one.
abbrev pub has_output_connection : ℕ → (ℕ → Edge) → List ℕ → Bool
has_output_connection v edge es = any (λ c. (edge c).from_vertex == v && (edge c).enabled) es

abbrev pub has_input_connection : ℕ → (ℕ → Edge) → List ℕ → Bool
has_input_connection v edge es = any (λ c. (edge c).to_vertex == v && (edge c).enabled) es

-- What `deleteConnection` does to the vertices of two nodes, given the other connections.
unfoldable pub disconnect : ℕ → ℕ → (ℕ → Edge) → List ℕ → Graph → Graph
disconnect v_from v_to edge es g =
    let still_connected = any (λ c. joins_vertices v_from v_to (edge c)) es in
    let orphaned = update g.vertex v_to (remove_parent v_from (g.vertex v_to)) in
    let parted = update orphaned v_from (remove_child v_to (orphaned v_from)) in
    if v_from == v_to then g else record g {
      vertex = if still_connected then g.vertex else parted;
      sinks =
          if not (has_output_connection v_from edge es) && elem v_from g.vertices
          then insert_vertex v_from g.sinks
          else g.sinks;
      sources =
          if not (has_input_connection v_to edge es) && elem v_to g.vertices
          then insert_vertex v_to g.sources
          else g.sources;
    }

-- `deleteConnection`: `failed` where it throws.
-- A connection is its number here: `deleteConnection` looks for one with the same two ports, and an input has
-- one connection at most.
unfoldable pub delete_connection : ℕ → Network → Result Network
delete_connection c n =
    let es = erase c n.edges in
    let forgotten = record n { edges = es } in
    let rest = record n {
      edges = es;
      graph = disconnect (n.edge c).from_vertex (n.edge c).to_vertex n.edge es n.graph;
    } in
    if (n.edge c).detached then ok forgotten else if elem c n.edges then ok rest else failed

-- The loops of `Vertex::detach`, which ends the life of a vertex
abbrev pub leave_parents : ℕ → List ℕ → (ℕ → Vertex) → ℕ → Vertex
leave_parents v [] vertex = vertex
leave_parents v (p ∷ ps) vertex = leave_parents v ps (update vertex p (remove_child v (vertex p)))

abbrev pub leave_children : ℕ → List ℕ → (ℕ → Vertex) → ℕ → Vertex
leave_children v [] vertex = vertex
leave_children v (c ∷ cs) vertex =
    leave_children v cs (update vertex c (remove_parent v (vertex c)))

-- `deleteNode`: `failed` where no node is found.
-- The links of the vertex end at once, and not when the last pointer to it is dropped.
unfoldable pub delete_node : ℕ → Network → Result Network
delete_node v n =
    let g = n.graph in
    let removed = record n {
      graph = record {
        vertices = erase v g.vertices;
        vertex =
            leave_children v (g.vertex v).children (leave_parents v (g.vertex v).parents g.vertex);
        sources = erase v g.sources;
        sinks = erase v g.sinks;
      };
    } in
    if elem v g.vertices then ok removed else failed
