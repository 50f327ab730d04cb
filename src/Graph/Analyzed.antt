-- ===== src/Graph/Analyzed.antt =====
-- Proofs about csapex_core/src/model/graph/graph_impl.cpp, `analyzeGraph`, for a graph that was built by adding and
-- deleting nodes and connections.
use csapex.Base.{ℕ, suc, ◌*◌, ◌≤◌, ◌<◌, ◌≡◌, ◌↔◌, refl, true, List, none, some, elem, length, arith}
use csapex.Graph.{Graph, Components, Facade}
use csapex.Graph.Edges.{Connected}
use csapex.Graph.Connectivity.{build_connected_components-Connected}
use csapex.Graph.Marks.{LeadsToEssential, mark_essentials-LeadsToEssential}
use csapex.Graph.Settle.{Walk}
use csapex.Graph.Distance.{calculate_depths-distance}
use csapex.Graph.Deletion.{Network}
use csapex.Graph.Linked.{IsLinked-IsConsistent, IsLinked-sources_in}
use csapex.Graph.Built.{Built, Built-IsLinked}
use csapex.Graph.Trace.{IsSort}
use csapex.Graph.Classified.{IsJustified, find_counterparts-IsJustified}
use csapex.Graph.Analysis.{Characteristics, analyze_graph, calculate_depths-AreIn}

-- What is right about the characteristics of the vertices of a graph, two of which are `u` and `v`.
pub record IsAnalyzed (g : Graph) (facade : ℕ → Facade) (u v : ℕ) (a : Characteristics)
    : Type 0 where
  pub connected : (a.components u ≡ a.components v) ↔ Connected g u v
  pub essential : (w : ℕ) → (a.essential w ≡ true) ↔ LeadsToEssential g facade w
  pub nearest :
      (w k : ℕ) → (a.streams.depth w ≡ some k) ↔ (Walk g k w × ((j : ℕ) → Walk g j w → k ≤ j))
  pub unreached : (w : ℕ) → (a.streams.depth w ≡ none) ↔ ((k : ℕ) → ¬ Walk g k w)
  pub justified : IsJustified g a.streams.joins a.roles
  pub joining : (w : ℕ) → a.roles.is_joining_vertex w ≡ elem w a.streams.joins

at_most : (n fuel : ℕ) → n * suc n < fuel → n < fuel
at_most n fuel le = omega (arith, le)

-- The analysis of a graph that was built by adding and deleting nodes and connections, and that has fewer vertices
-- than the largest `int`, ends: two of its vertices have the same component exactly if a path of edges in
-- whatever direction joins them; a vertex is marked as leading to an essential vertex exactly if a path leads from
-- it to one that needs messages; its depth is its distance from the sources, and -1 exactly if no path leads to
-- it from a source; and the counterparts of the vertices that join streams, and what is marked as leading to
-- such a vertex, do lead to one.
pub analyze_graph-IsAnalyzed :
    (n : Network) (max fuel : ℕ) (sort : List ℕ → List ℕ) (facade : ℕ → Facade) (comp : Components)
    (u v : ℕ)
    → Built n
    → IsSort sort
    → length n.graph.vertices < max
    → length n.graph.vertices * suc (length n.graph.vertices) < fuel
    → elem u n.graph.vertices ≡ true
    → elem v n.graph.vertices ≡ true
    → (a : Characteristics) × (analyze_graph fuel max sort facade n.graph comp ≡ some a)
      × IsAnalyzed n.graph facade u v a
unfolding analyze_graph
analyze_graph-IsAnalyzed n max fuel sort facade comp u v built S few enough iu iv =
    let g = n.graph in
    let L = Built-IsLinked n built in
    let C = IsLinked-IsConsistent n L in
    let less = at_most (length g.vertices) fuel enough in
    let (c, c_is, any_component, connected) =
      build_connected_components-Connected g comp fuel fuel u v C L.distinct_vertices
        (omega (arith, less)) less iu iv in
    let (e, e_is, essential) = mark_essentials-LeadsToEssential g facade fuel C less in
    let (s, s_is, nearest, unreached) =
      calculate_depths-distance max g fuel few C (IsLinked-sources_in n L) enough in
    let (r, r_is, justified, joining) =
      find_counterparts-IsJustified sort S g C s.depth fuel (omega (arith, less)) s.joins
        (calculate_depths-AreIn max g C.inside fuel s s_is) in
    (
      record { components = c; essential = e; streams = s; roles = r },
      rw (analyze_graph, c_is, e_is, s_is, r_is) refl,
      record {
        connected = connected;
        essential = essential;
        nearest = nearest;
        unreached = unreached;
        justified = justified;
        joining = joining;
      },
    )
