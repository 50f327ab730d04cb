-- ===== src/Graph/Built.antt =====
-- Proofs about csapex_core/src/model/graph/graph_impl.cpp: graphs built by adding and deleting nodes and
-- connections.
use csapex.Base.{
  ℕ, ◌≡◌, refl, ap, subst, ◌∙◌, ◌==◌, ==_iff, Bool, true, false, not, ◌&&◌, List, [], ◌∷◌, elem,
  IsDistinct, Bool-cases, inl, inr, arith,
}
use csapex.Base.Result.{Result, ok}
use csapex.Graph.{erase}
use csapex.Graph.Erase.{erase-IsDistinct}
use csapex.Graph.Deletion.{Edge, Network, joins_vertices, add_edge, delete_connection, delete_node}
use csapex.Graph.Linked.{ends_at, begins_at, any_edge, IsLinked, elem-erase_set, any_joins}
use csapex.Graph.Growth.{with_node, add_node-IsLinked, add_edge-IsLinked}
use csapex.Graph.Cut.{IsActive, delete_connection-IsLinked}

pub none_listed : (xs : List ℕ) → ((w : ℕ) → elem w xs ≡ false) → xs ≡ []
none_listed [] h = refl
none_listed (x ∷ xs) h = let n = h x in ground (arith, n)

module _ (n : Network) (L : IsLinked n) (v : ℕ) (m : elem v n.graph.vertices ≡ true)
    (no_end : any_edge (ends_at v) n ≡ false) (no_begin : any_edge (begins_at v) n ≡ false) where
  abbrev pub without_node : Network
  without_node = record n {
    graph = record n.graph {
      vertices = erase v n.graph.vertices;
      sources = erase v n.graph.sources;
      sinks = erase v n.graph.sinks;
    };
  }

  childless : (n.graph.vertex v).children ≡ []
  childless = none_listed _ λ w. L.child v w ∙ not_joined w
    where
      not_joined : (w : ℕ) → any_edge (joins_vertices v w) n ≡ false
      not_joined w = elim (Bool-cases (any_edge (joins_vertices v w) n)) [
        | inl h ↦ cc ((any_joins n.edge v w n.edges h).0, no_begin)
        | inr h ↦ h
      ]

  parentless : (n.graph.vertex v).parents ≡ []
  parentless = none_listed _ λ w. L.parent w v ∙ not_joined w
    where
      not_joined : (w : ℕ) → any_edge (joins_vertices w v) n ≡ false
      not_joined w = elim (Bool-cases (any_edge (joins_vertices w v) n)) [
        | inl h ↦ cc ((any_joins n.edge w v n.edges h).1, no_end)
        | inr h ↦ h
      ]

  pub delete_node-without : delete_node v n ≡ ok without_node
  unfolding delete_node
  delete_node-without = rw (delete_node, m, childless, parentless) refl

  -- The vertex leaves a set of those where no connection is.
  left_out :
      (p : ℕ → Bool) (xs : List ℕ)
      → IsDistinct xs
      → ((u : ℕ) → elem u xs ≡ elem u n.graph.vertices && not (p u))
      → (u : ℕ) → elem u (erase v xs) ≡ elem u (erase v n.graph.vertices) && not (p u)
  left_out p xs d h u =
      elem-erase_set v u xs d
      ∙ rw (h u, elem-erase_set v u n.graph.vertices L.distinct_vertices) (ground arith)

  -- A vertex where a connection is stays.
  still_in :
      (p : ℕ → Bool) (u : ℕ)
      → p v ≡ false
      → p u ≡ true
      → elem u n.graph.vertices ≡ true
      → elem u (erase v n.graph.vertices) ≡ true
  still_in p u pv pu h =
      elem-erase_set v u n.graph.vertices L.distinct_vertices ∙ elim (Bool-cases (u == v)) [
        | inl q ↦ cc (ap p ((==_iff u v).0 q), pv, pu)
        | inr q ↦ rw (q, h) refl
      ]

  -- Deleting a node
  pub without-IsLinked : IsLinked without_node
  without-IsLinked = record {
    child = L.child;
    parent = L.parent;
    source = left_out (λ u. any_edge (ends_at u) n) n.graph.sources L.distinct_sources L.source;
    sink = left_out (λ u. any_edge (begins_at u) n) n.graph.sinks L.distinct_sinks L.sink;
    tail = λ u h. still_in (λ x. any_edge (begins_at x) n) u no_begin h (L.tail u h);
    head = λ u h. still_in (λ x. any_edge (ends_at x) n) u no_end h (L.head u h);
    loopless = L.loopless;
    distinct_vertices = erase-IsDistinct v n.graph.vertices L.distinct_vertices;
    distinct_sources = erase-IsDistinct v n.graph.sources L.distinct_sources;
    distinct_sinks = erase-IsDistinct v n.graph.sinks L.distinct_sinks;
  }

abbrev pub empty_network : (ℕ → Edge) → Network
empty_network edge = record {
  graph = record {
    vertices = [];
    vertex = λ v. record { parents = []; children = [] };
    sources = [];
    sinks = [];
  };
  edges = [];
  edge = edge;
}

-- A graph after any sequence of operations: a node is deleted when no connection is at it, a connection is added
-- between two vertices of the graph, and one is deleted while the others are enabled.
pub data Built : Network → Type 0 where
  nothing_yet : (edge : ℕ → Edge) → Built (empty_network edge)
  node_added :
      (n : Network) (v : ℕ) → Built n → elem v n.graph.vertices ≡ false → Built (with_node v n)
  node_deleted :
      (n n' : Network) (v : ℕ)
      → Built n
      → elem v n.graph.vertices ≡ true
      → any_edge (ends_at v) n ≡ false
      → any_edge (begins_at v) n ≡ false
      → delete_node v n ≡ ok n'
      → Built n'
  edge_added :
      (n : Network) (c : ℕ)
      → Built n
      → (n.edge c).detached ≡ false
      → ((n.edge c).from_vertex == (n.edge c).to_vertex) ≡ false
      → elem (n.edge c).from_vertex n.graph.vertices ≡ true
      → elem (n.edge c).to_vertex n.graph.vertices ≡ true
      → Built (add_edge c n)
  edge_deleted :
      (n n' : Network) (c : ℕ)
      → Built n
      → elem c n.edges ≡ true
      → IsActive n.edge (erase c n.edges)
      → delete_connection c n ≡ ok n'
      → Built n'
  edges_switched :
      (n : Network) (enabled : ℕ → Bool)
      → Built n
      → Built (record n { edge = λ c. record (n.edge c) { enabled = enabled c } })

empty-IsLinked : (edge : ℕ → Edge) → IsLinked (empty_network edge)
empty-IsLinked edge = record {
  child = λ v w. refl;
  parent = λ v w. refl;
  source = λ v. refl;
  sink = λ v. refl;
  tail = λ v h. cc h;
  head = λ v h. cc h;
  loopless = λ c h. cc h;
  distinct_vertices = tt;
  distinct_sources = tt;
  distinct_sinks = tt;
}

-- A run has one result.
same_result : (n n' : Network) (r : Result Network) → r ≡ ok n → r ≡ ok n' → n ≡ n'
same_result n n' r p q = cc (p, q)

-- However nodes and connections are added to a graph, deleted from it and switched on and off, where a node is
-- deleted when no connection is at it, a connection joins two different vertices of the graph, and one is deleted
-- while the others are enabled: a vertex is a child of another, and that a parent of it, exactly if a connection
-- leads from that to it, and the sources are the vertices where no connection ends, the sinks those where none
-- begins.
pub Built-IsLinked : (n : Network) → Built n → IsLinked n
Built-IsLinked _ (nothing_yet edge) = empty-IsLinked edge
Built-IsLinked _ (node_added n v b new) = add_node-IsLinked n (Built-IsLinked n b) v new
Built-IsLinked _ (node_deleted n n' v b m e g r) =
    let L = Built-IsLinked n b in
    subst IsLinked (same_result _ n' (delete_node v n) (delete_node-without n L v m e g) r)
      (without-IsLinked n L v m e g)
Built-IsLinked _ (edge_added n c b attached apart from_in to_in) =
    add_edge-IsLinked n (Built-IsLinked n b) c attached apart from_in to_in
Built-IsLinked _ (edge_deleted n n' c b m active r) =
    let (x, p, L') = delete_connection-IsLinked n (Built-IsLinked n b) c m active in
    subst IsLinked (same_result x n' (delete_connection c n) p r) L'
Built-IsLinked _ (edges_switched n enabled b) =
    let L = Built-IsLinked n b in
    record {
      child = L.child;
      parent = L.parent;
      source = L.source;
      sink = L.sink;
      tail = L.tail;
      head = L.head;
      loopless = L.loopless;
      distinct_vertices = L.distinct_vertices;
      distinct_sources = L.distinct_sources;
      distinct_sinks = L.distinct_sinks;
    }
