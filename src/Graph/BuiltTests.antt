-- ===== src/Graph/BuiltTests.antt =====
-- A graph of three vertices for csapex_core/src/model/graph/graph_impl.cpp: two connections from vertex 0 and
-- one from vertex 1 end at vertex 2.
use csapex.Base.{none, some, arith, ℕ, zero, suc, ◌==◌, ◌≡◌, refl, true, false, [], ◌∷◌, elem}
use csapex.Base.Result.{ok, failed}
use csapex.Graph.{Facade, erase, add_node, connect}
use csapex.Graph.Deletion.{Edge, Network, add_edge, delete_connection, disconnect, remove_all}
use csapex.Graph.Linked.{IsLinked}
use csapex.Graph.Growth.{with_node}
use csapex.Graph.Built.{
  empty_network, Built, nothing_yet, node_added, edge_added, edges_switched, Built-IsLinked,
}
use csapex.Graph.Cut.{IsActive}
use csapex.Graph.Clear.{clear_graph, clear_graph-empty}
use csapex.Graph.Trace.{IsSort}
use csapex.Graph.Analysis.{Characteristics, analyze_graph}
use csapex.Graph.Analyzed.{IsAnalyzed, analyze_graph-IsAnalyzed}
use csapex.Graph.Relisted.{delete_connection_relists}

abbrev into_two : ℕ → Edge
into_two c = record {
  from_vertex = elim c [ suc (suc zero) ↦ 1 | _ ↦ 0 ];
  to_vertex = 2;
  enabled = true;
  detached = false;
}

abbrev nodes : Network
nodes = with_node 2 (with_node 1 (with_node 0 (empty_network into_two)))

nodes-Built : Built nodes
unfolding add_node
nodes-Built = node_added _ 2 (node_added _ 1 (node_added _ 0 (nothing_yet into_two) refl) refl) refl

abbrev joined_nodes : Network
joined_nodes = add_edge 2 (add_edge 1 (add_edge 0 nodes))

joined_nodes-Built : Built joined_nodes
unfolding add_node add_edge connect
joined_nodes-Built =
    edge_added _ 2
      (edge_added _ 1 (edge_added _ 0 nodes-Built refl refl refl refl) refl refl refl refl) refl
      refl refl refl

Built-IsLinked_example : IsLinked joined_nodes
Built-IsLinked_example = Built-IsLinked joined_nodes joined_nodes-Built

-- Connections 1 and 2 are disabled.
abbrev switched : Network
switched = record joined_nodes { edge = λ c. record (into_two c) { enabled = c == 0 } }

switched-Built : Built switched
unfolding add_node add_edge
switched-Built = edges_switched joined_nodes (λ c. c == 0) joined_nodes-Built

delete_connection_relists_example :
    (n' : Network) × (delete_connection 0 switched ≡ ok n')
    × (elem 2 n'.graph.sources ≡ true)
    × ((u : ℕ) × (elem u (n'.graph.vertex 2).parents ≡ true))
unfolding add_node add_edge connect erase
delete_connection_relists_example =
    delete_connection_relists switched 0 (Built-IsLinked switched switched-Built) refl refl refl
      refl

-- What is left of the graph when connection 0 is deleted, and then connection 1.
remaining-graph :
    (elim (delete_connection 0 joined_nodes) [
      | failed ↦ []
      | ok n ↦ elim (delete_connection 1 n) [
        | failed ↦ []
        | ok n' ↦
            n.graph.sources
            ∷ (n.graph.vertex 2).parents
            ∷ n'.graph.sinks
            ∷ (n'.graph.vertex 2).parents
            ∷ []
      ]
    ])
    ≡ (0 ∷ 1 ∷ []) ∷ (0 ∷ 0 ∷ 1 ∷ []) ∷ (2 ∷ 0 ∷ []) ∷ (1 ∷ []) ∷ []
unfolding add_node add_edge connect erase delete_connection disconnect remove_all
remaining-graph = refl

abbrev no_facade : ℕ → Facade
no_facade v = record { processing_nothing = false; essential = [] }

keep_order : IsSort (λ xs. xs)
keep_order = record { members = λ v xs. refl; distinct = λ xs d. d }

analyze_graph-IsAnalyzed_example :
    (a : Characteristics) × (analyze_graph 20 100
        (λ xs. xs)
        no_facade
        joined_nodes.graph
        (λ v. none)
      ≡ some a)
    × IsAnalyzed joined_nodes.graph no_facade 0 1 a
unfolding add_node add_edge connect
analyze_graph-IsAnalyzed_example =
    analyze_graph-IsAnalyzed joined_nodes 100 20 (λ xs. xs) no_facade (λ v. none) 0 1
      joined_nodes-Built keep_order (omega arith) (omega arith) refl refl

joined_nodes-IsActive : IsActive into_two (0 ∷ 1 ∷ 2 ∷ [])
joined_nodes-IsActive d h = (refl, refl)

clear_graph-empty_example :
    (n' : Network) × (clear_graph joined_nodes ≡ ok n')
    × (n'.edges ≡ [])
    × (n'.graph.vertices ≡ [])
    × (n'.graph.sources ≡ [])
    × (n'.graph.sinks ≡ [])
unfolding add_node add_edge connect
clear_graph-empty_example =
    clear_graph-empty joined_nodes (Built-IsLinked joined_nodes joined_nodes-Built)
      joined_nodes-IsActive
