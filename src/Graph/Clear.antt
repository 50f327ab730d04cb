-- ===== src/Graph/Clear.antt =====
-- csapex_core/src/model/graph/graph_impl.cpp, `clear`: all connections and then all nodes are deleted. The names
-- that the graph gave are another part.
use csapex.Base.{
  ℕ, ◌≡◌, refl, ap, ◌∙◌, ◌==◌, ==_refl, Bool, true, false, not, ◌&&◌, List, [], ◌∷◌, elem, any,
}
use csapex.Base.Result.{Result, ok, assert, ◌>>=◌, ◌>>◌, for_each}
use csapex.Graph.{erase}
use csapex.Graph.Search.{or_inr}
use csapex.Graph.Erase.{erase_here}
use csapex.Graph.Deletion.{Network, delete_connection, delete_node}
use csapex.Graph.Linked.{IsLinked}
use csapex.Graph.Cut.{IsActive, cut, delete_connection-cut, cut-IsLinked}
use csapex.Graph.Built.{none_listed, without_node, delete_node-without, without-IsLinked}

abbrev pub none_left_in : List ℕ → Bool
none_left_in [] = true
none_left_in (x ∷ xs) = false

unfoldable pub clear_graph : Network → Result Network
clear_graph n = for_each delete_connection n.edges n >>= λ n1.
    assert (none_left_in n1.edges)
    >> (for_each delete_node n1.graph.vertices n1 >>= λ n2.
        assert (none_left_in n2.graph.vertices) >> ok n2)

erase_first : (c : ℕ) (cs es : List ℕ) → es ≡ c ∷ cs → erase c es ≡ cs
erase_first c cs es e = ap (erase c) e ∙ erase_here c c cs (==_refl c)

first_in : (c : ℕ) (cs es : List ℕ) → es ≡ c ∷ cs → elem c es ≡ true
first_in c cs es e = ap (elem c) e ∙ rw (==_refl c) refl

-- All connections of a graph are deleted.
deleted_connections :
    (cs : List ℕ) (n : Network)
    → IsLinked n
    → n.edges ≡ cs
    → IsActive n.edge cs
    → (n' : Network) × (for_each delete_connection cs n ≡ ok n') × IsLinked n' × (n'.edges ≡ [])
unfolding for_each
deleted_connections [] n L e A = (n, refl, L, e)
deleted_connections (c ∷ cs) n L e A =
    let m = first_in c cs n.edges e in
    let rest = erase_first c cs n.edges e in
    let attached = (A c (rw (==_refl c) refl)).1 in
    let later : IsActive n.edge cs = λ d h. A d (or_inr (d == c) (elem d cs) h) in
    let L1 = cut-IsLinked n L c m attached (rw rest later) in
    let (n', p, L', none_left) = deleted_connections cs (cut n L c m attached) L1 rest later in
    (n', rw (for_each, delete_connection-cut n L c m attached) p, L', none_left)

-- All vertices of a graph without connections are deleted.
deleted_nodes :
    (vs : List ℕ) (n : Network)
    → IsLinked n
    → n.edges ≡ []
    → n.graph.vertices ≡ vs
    → (n' : Network) × (for_each delete_node vs n ≡ ok n')
      × IsLinked n'
      × (n'.edges ≡ [])
      × (n'.graph.vertices ≡ [])
unfolding for_each
deleted_nodes [] n L none_left e = (n, refl, L, none_left, e)
deleted_nodes (v ∷ vs) n L none_left e =
    let m = first_in v vs n.graph.vertices e in
    let no_end =
      ap (λ es. any (λ c. not (n.edge c).detached && (n.edge c).to_vertex == v) es) none_left in
    let no_begin =
      ap (λ es. any (λ c. not (n.edge c).detached && (n.edge c).from_vertex == v) es) none_left in
    let L1 = without-IsLinked n L v m no_end no_begin in
    let (n', p, L', still, gone) =
      deleted_nodes vs (without_node n L v m no_end no_begin) L1 none_left
        (erase_first v vs n.graph.vertices e) in
    (n', rw (for_each, delete_node-without n L v m no_end no_begin) p, L', still, gone)

-- Clearing a graph whose children, parents, sources and sinks agree with its connections, which are enabled and
-- have both their ends, passes its assertions and leaves no connection, no vertex, no source and no sink.
pub clear_graph-empty :
    (n : Network)
    → IsLinked n
    → IsActive n.edge n.edges
    → (n' : Network) × (clear_graph n ≡ ok n')
      × (n'.edges ≡ [])
      × (n'.graph.vertices ≡ [])
      × (n'.graph.sources ≡ [])
      × (n'.graph.sinks ≡ [])
unfolding clear_graph
clear_graph-empty n L A =
    let (n1, p1, L1, e1) = deleted_connections n.edges n L refl A in
    let (n2, p2, L2, e2, v2) = deleted_nodes n1.graph.vertices n1 L1 e1 refl in
    (
      n2,
      rw (clear_graph, p1, e1, p2, v2) refl,
      e2,
      v2,
      none_listed n2.graph.sources (λ v. L2.source v ∙ rw v2 refl),
      none_listed n2.graph.sinks (λ v. L2.sink v ∙ rw v2 refl),
    )
