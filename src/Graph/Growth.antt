-- ===== src/Graph/Growth.antt =====
-- Proofs about csapex_core/src/model/graph/graph_impl.cpp, `addNode` and `addConnection`: the vertices, the
-- sources and the sinks still agree with the connections.
use csapex.Base.{
  ℕ, ◌≡◌, refl, sym, ap, subst, ◌∙◌, ◌==◌, ==_iff, Bool, true, false, not, ◌&&◌, List, [], ◌∷◌,
  ◌++◌, elem, Bool-cases, inl, inr, arith,
}
use csapex.Graph.{erase, add_node, connect}
use csapex.Graph.Search.{elem-append}
use csapex.Graph.Edges.{linked, parents-linked, children-linked}
use csapex.Graph.Erase.{erase-IsDistinct}
use csapex.Graph.Deletion.{Network, joins_vertices, add_edge}
use csapex.Graph.Linked.{
  ends_at, begins_at, any_edge, IsLinked, any-snoc, any_joins, snoc-IsDistinct, elem-erase_set,
}

abbrev pub with_node : ℕ → Network → Network
with_node v n = record n { graph = add_node v n.graph }

module _ (n : Network) (L : IsLinked n) (v : ℕ) (new : elem v n.graph.vertices ≡ false) where
  -- No connection is at a vertex that is not in the graph.
  none_begins : any_edge (begins_at v) n ≡ false
  none_begins = elim (Bool-cases (any_edge (begins_at v) n)) [
    | inl h ↦ cc (L.tail v h, new)
    | inr h ↦ h
  ]

  none_ends : any_edge (ends_at v) n ≡ false
  none_ends = elim (Bool-cases (any_edge (ends_at v) n)) [
    | inl h ↦ cc (L.head v h, new)
    | inr h ↦ h
  ]

  none_joins : (w : ℕ) → any_edge (joins_vertices v w) n ≡ false
  none_joins w = elim (Bool-cases (any_edge (joins_vertices v w) n)) [
    | inl h ↦ cc ((any_joins n.edge v w n.edges h).0, none_begins)
    | inr h ↦ h
  ]

  none_joined : (w : ℕ) → any_edge (joins_vertices w v) n ≡ false
  none_joined w = elim (Bool-cases (any_edge (joins_vertices w v) n)) [
    | inl h ↦ cc ((any_joins n.edge w v n.edges h).1, none_ends)
    | inr h ↦ h
  ]

  no_source : elem v n.graph.sources ≡ false
  no_source = L.source v ∙ rw new refl

  no_sink : elem v n.graph.sinks ≡ false
  no_sink = L.sink v ∙ rw new refl

  -- The vertex joins a set of those where no connection is.
  listed :
      (p : ℕ → Bool) (xs : List ℕ)
      → p v ≡ false
      → ((u : ℕ) → elem u xs ≡ elem u n.graph.vertices && not (p u))
      → (u : ℕ) → elem u (xs ++ v ∷ []) ≡ elem u (n.graph.vertices ++ v ∷ []) && not (p u)
  listed p xs pv h u =
      elem-append u xs (v ∷ [])
      ∙ rw (elem-append u n.graph.vertices (v ∷ []), h u)
          (elim (Bool-cases (u == v)) [
            | inl q ↦ rw (q, (==_iff u v).0 q, pv) (ground arith)
            | inr q ↦ rw q (ground arith)
          ])

  still_in : (u : ℕ) → elem u n.graph.vertices ≡ true → elem u (n.graph.vertices ++ v ∷ []) ≡ true
  still_in u m = elem-append u n.graph.vertices (v ∷ []) ∙ rw m refl

  -- Adding a node
  pub add_node-IsLinked : IsLinked (with_node v n)
  unfolding add_node
  add_node-IsLinked = record {
    child = λ u w. elim (Bool-cases (v == u)) [
      | inl q ↦ rw (add_node, q, sym ((==_iff v u).0 q)) (sym (none_joins w))
      | inr q ↦ rw (add_node, q) (L.child u w)
    ];
    parent = λ u w. elim (Bool-cases (v == w)) [
      | inl q ↦ rw (add_node, q, sym ((==_iff v w).0 q)) (sym (none_joined u))
      | inr q ↦ rw (add_node, q) (L.parent u w)
    ];
    source = listed (λ u. any_edge (ends_at u) n) n.graph.sources none_ends L.source;
    sink = listed (λ u. any_edge (begins_at u) n) n.graph.sinks none_begins L.sink;
    tail = λ u h. still_in u (L.tail u h);
    head = λ u h. still_in u (L.head u h);
    loopless = L.loopless;
    distinct_vertices = snoc-IsDistinct v n.graph.vertices new L.distinct_vertices;
    distinct_sources = snoc-IsDistinct v n.graph.sources no_source L.distinct_sources;
    distinct_sinks = snoc-IsDistinct v n.graph.sinks no_sink L.distinct_sinks;
  }

module _ (n : Network) (L : IsLinked n) (c : ℕ) (attached : (n.edge c).detached ≡ false)
    (apart : ((n.edge c).from_vertex == (n.edge c).to_vertex) ≡ false)
    (from_in : elem (n.edge c).from_vertex n.graph.vertices ≡ true)
    (to_in : elem (n.edge c).to_vertex n.graph.vertices ≡ true) where
  abbrev joined : Network
  joined =
      let a = (n.edge c).from_vertex in
      let b = (n.edge c).to_vertex in
      record n {
        edges = n.edges ++ c ∷ [];
        graph = record n.graph {
          vertex = linked a b n.graph;
          sources = erase b n.graph.sources;
          sinks = erase a n.graph.sinks;
        };
      }

  add_edge-joined : add_edge c n ≡ joined
  unfolding add_edge connect
  add_edge-joined = rw (add_edge, connect, apart) refl

  joined-IsLinked : IsLinked joined
  joined-IsLinked =
      let a = (n.edge c).from_vertex in
      let b = (n.edge c).to_vertex in
      let g = n.graph in
      record {
        child = λ v w.
            ap (elem w) (children-linked a b g apart v)
            ∙ rw (any-snoc (λ d. joins_vertices v w (n.edge d)) n.edges c)
                (elim (Bool-cases (v == a)) [
                  | inl q ↦ rw q (
                      elem-append w (g.vertex v).children (b ∷ [])
                      ∙ rw (L.child v w, attached) (ground (arith, q)))
                  | inr q ↦ rw q (L.child v w ∙ rw attached (ground (arith, q)))
                ]);
        parent = λ v w.
            ap (elem v) (parents-linked a b g apart w)
            ∙ rw (any-snoc (λ d. joins_vertices v w (n.edge d)) n.edges c)
                (elim (Bool-cases (w == b)) [
                  | inl q ↦ rw q (
                      elem-append v (g.vertex w).parents (a ∷ [])
                      ∙ rw (L.parent v w, attached) (ground (arith, q)))
                  | inr q ↦ rw q (L.parent v w ∙ rw attached (ground (arith, q)))
                ]);
        source = λ v.
            elem-erase_set b v g.sources L.distinct_sources
            ∙ rw (L.source v, any-snoc (λ d. ends_at v (n.edge d)) n.edges c, attached)
                (ground arith);
        sink = λ v.
            elem-erase_set a v g.sinks L.distinct_sinks
            ∙ rw (L.sink v, any-snoc (λ d. begins_at v (n.edge d)) n.edges c, attached)
                (ground arith);
        tail = λ v h.
            let h' = sym (any-snoc (λ d. begins_at v (n.edge d)) n.edges c) ∙ h in
            elim (Bool-cases (a == v)) [
              | inl q ↦ ap (λ u. elem u g.vertices) (sym ((==_iff a v).0 q)) ∙ from_in
              | inr q ↦ L.tail v (ground (arith, h', q))
            ];
        head = λ v h.
            let h' = sym (any-snoc (λ d. ends_at v (n.edge d)) n.edges c) ∙ h in
            elim (Bool-cases (b == v)) [
              | inl q ↦ ap (λ u. elem u g.vertices) (sym ((==_iff b v).0 q)) ∙ to_in
              | inr q ↦ L.head v (ground (arith, h', q))
            ];
        loopless = λ d m. elim (Bool-cases (d == c)) [
          | inl q ↦ rw ((==_iff d c).0 q) apart
          | inr q ↦
              L.loopless d
                (let m' = sym (elem-append d n.edges (c ∷ [])) ∙ m in ground (arith, m', q))
        ];
        distinct_vertices = L.distinct_vertices;
        distinct_sources = erase-IsDistinct b g.sources L.distinct_sources;
        distinct_sinks = erase-IsDistinct a g.sinks L.distinct_sinks;
      }

  -- Adding a connection
  pub add_edge-IsLinked : IsLinked (add_edge c n)
  add_edge-IsLinked = subst IsLinked (sym add_edge-joined) joined-IsLinked
