-- ===== src/Graph/Cut.antt =====
-- Proofs about csapex_core/src/model/graph/graph_impl.cpp, `deleteConnection` and `deleteNode`: the vertices,
-- the sources and the sinks still agree with the connections.
use csapex.Base.{
  ℕ, ◌≡◌, refl, ap, ◌∙◌, ◌==◌, ==_iff, ==_refl, ==_not, true, false, not, ◌&&◌, List, elem,
  Bool-cases, inl, inr, if◌then◌else◌, arith,
}
use csapex.Base.Result.{ok}
use csapex.Graph.{erase}
use csapex.Graph.Erase.{elem-erase}
use csapex.Graph.Deletion.{
  Edge, Network, joins_vertices, insert_vertex, has_output_connection, has_input_connection,
  disconnect, delete_connection,
}
use csapex.Graph.Linked.{ends_at, begins_at, any_edge, IsLinked}
use csapex.Graph.Removal.{any_agree, elem-insert, insert-IsDistinct}
use csapex.Graph.Cutting.{remaining, separated, was, apart, remaining_le, child_after, parent_after}

-- The connections that remain are enabled, and none lost an end.
abbrev pub IsActive : (ℕ → Edge) → List ℕ → Type 0
IsActive edge es =
    (d : ℕ) → elem d es ≡ true → ((edge d).enabled ≡ true) × ((edge d).detached ≡ false)

module _ (n : Network) (L : IsLinked n) (c : ℕ) (m : elem c n.edges ≡ true) where
  -- A connection that lost an end is no longer counted.
  forgotten-IsLinked : (n.edge c).detached ≡ true → IsLinked (record n { edges = erase c n.edges })
  forgotten-IsLinked gone = record {
    child = λ v w. L.child v w ∙ was n L c m (joins_vertices v w) ∙ rw gone refl;
    parent = λ v w. L.parent v w ∙ was n L c m (joins_vertices v w) ∙ rw gone refl;
    source = λ v.
        L.source v
        ∙ ap (λ x. elem v n.graph.vertices && not x) (was n L c m (ends_at v) ∙ rw gone refl);
    sink = λ v.
        L.sink v
        ∙ ap (λ x. elem v n.graph.vertices && not x) (was n L c m (begins_at v) ∙ rw gone refl);
    tail = λ v h. L.tail v (remaining_le n L c m (begins_at v) h);
    head = λ v h. L.head v (remaining_le n L c m (ends_at v) h);
    loopless = λ d h. L.loopless d (elem-erase c d n.edges h);
    distinct_vertices = L.distinct_vertices;
    distinct_sources = L.distinct_sources;
    distinct_sinks = L.distinct_sinks;
  }

  module _ (attached : (n.edge c).detached ≡ false) where
    abbrev pub cut : Network
    cut =
        let a = (n.edge c).from_vertex in
        let b = (n.edge c).to_vertex in
        let g = n.graph in
        let es = erase c n.edges in
        record n {
          edges = es;
          graph = record g {
            vertex = separated n L c m;
            sinks =
                if not (has_output_connection a n.edge es) && elem a g.vertices
                then insert_vertex a g.sinks
                else g.sinks;
            sources =
                if not (has_input_connection b n.edge es) && elem b g.vertices
                then insert_vertex b g.sources
                else g.sources;
          };
        }

    pub delete_connection-cut : delete_connection c n ≡ ok cut
    unfolding delete_connection disconnect
    delete_connection-cut = rw (delete_connection, disconnect, attached, m, apart n L c m) refl

    module _ (active : IsActive n.edge (erase c n.edges)) where
      counted_in :
          (v : ℕ) → has_input_connection v n.edge (erase c n.edges) ≡ remaining n L c m (ends_at v)
      counted_in v =
          any_agree _ _ (erase c n.edges) λ d h. let s = active d h in rw (s.0, s.1) (ground arith)

      counted_out :
          (v : ℕ)
          → has_output_connection v n.edge (erase c n.edges) ≡ remaining n L c m (begins_at v)
      counted_out v =
          any_agree _ _ (erase c n.edges) λ d h. let s = active d h in rw (s.0, s.1) (ground arith)

      source_after :
          (v : ℕ)
          → elem v cut.graph.sources ≡ elem v n.graph.vertices && not (any_edge (ends_at v) cut)
      source_after v =
          let b = (n.edge c).to_vertex in
          elem-insert _ b v n.graph.sources
          ∙ rw (counted_in b, L.source v, was n L c m (ends_at v), attached)
              (elim (Bool-cases (v == b)) [
                | inl q ↦ rw ((==_iff v b).0 q, ==_refl b) (ground arith)
                | inr q ↦ rw (q, ==_not v b q) (ground arith)
              ])

      sink_after :
          (v : ℕ)
          → elem v cut.graph.sinks ≡ elem v n.graph.vertices && not (any_edge (begins_at v) cut)
      sink_after v =
          let a = (n.edge c).from_vertex in
          elem-insert _ a v n.graph.sinks
          ∙ rw (counted_out a, L.sink v, was n L c m (begins_at v), attached)
              (elim (Bool-cases (v == a)) [
                | inl q ↦ rw ((==_iff v a).0 q, ==_refl a) (ground arith)
                | inr q ↦ rw (q, ==_not v a q) (ground arith)
              ])

      pub cut-IsLinked : IsLinked cut
      cut-IsLinked = record {
        child = child_after n L c m attached;
        parent = parent_after n L c m attached;
        source = source_after;
        sink = sink_after;
        tail = λ v h. L.tail v (remaining_le n L c m (begins_at v) h);
        head = λ v h. L.head v (remaining_le n L c m (ends_at v) h);
        loopless = λ d h. L.loopless d (elem-erase c d n.edges h);
        distinct_vertices = L.distinct_vertices;
        distinct_sources =
            insert-IsDistinct _ (n.edge c).to_vertex n.graph.sources L.distinct_sources;
        distinct_sinks = insert-IsDistinct _ (n.edge c).from_vertex n.graph.sinks L.distinct_sinks;
      }

  -- Deleting a connection of a graph, where the others are enabled, succeeds, and if before it the children,
  -- parents, sources and sinks agreed with the connections, they do so with those that remain.
  pub delete_connection-IsLinked :
      IsActive n.edge (erase c n.edges)
      → (n' : Network) × (delete_connection c n ≡ ok n') × IsLinked n'
  unfolding delete_connection
  delete_connection-IsLinked active = elim (Bool-cases (n.edge c).detached) [
    | inl gone ↦ (_, rw (delete_connection, gone) refl, forgotten-IsLinked gone)
    | inr attached ↦ (cut attached, delete_connection-cut attached, cut-IsLinked attached active)
  ]
