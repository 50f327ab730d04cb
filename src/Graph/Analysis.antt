-- ===== src/Graph/Analysis.antt =====
-- csapex_core/src/model/graph/graph_impl.cpp, `analyzeGraph`: all that is computed of a graph when it changed.
use csapex.Base.{
  ℕ, zero, suc, ◌≡◌, sym, ◌==◌, Bool, true, List, [], ◌∷◌, Option, none, some, elem, update,
  Bool-cases, Option-cases, inl, inr, arith,
}
use csapex.Graph.{Graph, Components, Facade, build_connected_components, is_none}
use csapex.Graph.Search.{elem_cons, or_inr}
use csapex.Graph.Depths.{
  children_of, Streams, visit_streams, follow_streams, follow_sources,
  find_vertices_that_join_streams, populate_sources, mark_essentials, calculate_depths,
}
use csapex.Graph.Counterpart.{Roles, no_roles, find_counterparts}

-- `NodeCharacteristics` of all vertices
pub record Characteristics : Type 0 where
  pub components : Components
  pub essential : ℕ → Bool
  pub streams : Streams
  pub roles : Roles

unfoldable pub analyze_graph :
    ℕ → ℕ → (List ℕ → List ℕ) → (ℕ → Facade) → Graph → Components → Option Characteristics
analyze_graph fuel max sort facade g comp = elim (build_connected_components fuel fuel g comp) [
  | none ↦ none
  | some c ↦ elim (mark_essentials fuel g facade) [
    | none ↦ none
    | some e ↦ elim (calculate_depths fuel max g) [
      | none ↦ none
      | some s ↦ elim (find_counterparts fuel sort g s.depth s.joins no_roles) [
        | none ↦ none
        | some r ↦ some (record { components = c; essential = e; streams = s; roles = r })
      ]
    ]
  ]
]

module _ (max : ℕ) (g : Graph)
    (inside : (u w : ℕ) → elem w (children_of g u) ≡ true → elem w g.vertices ≡ true) where
  -- The vertices that join streams are vertices of the graph.
  abbrev pub AreIn : Streams → Type 0
  AreIn s = (j : ℕ) → elem j s.joins ≡ true → elem j g.vertices ≡ true

  visit_streams-AreIn :
      (ws q : List ℕ) (s : Streams)
      → ((w : ℕ) → elem w ws ≡ true → elem w g.vertices ≡ true)
      → AreIn s
      → AreIn (visit_streams max ws (q, s)).1
  unfolding visit_streams
  visit_streams-AreIn [] q s new A = A
  visit_streams-AreIn (w ∷ ws) q s new A =
      let new' : (x : ℕ) → elem x ws ≡ true → elem x g.vertices ≡ true =
        λ x h. new x (or_inr (x == w) (elem x ws) h) in
      elim (Bool-cases (is_none (s.depth w))) [
        | inl n ↦ rw (visit_streams, n) (visit_streams-AreIn ws (w ∷ q) _ new' A)
        | inr n ↦ elim (Bool-cases (elem w s.joins)) [
          | inl m ↦ rw (visit_streams, n, m) (visit_streams-AreIn ws q _ new' A)
          | inr m ↦
              rw (visit_streams, n, m)
                (visit_streams-AreIn ws q (record s { joins = w ∷ s.joins }) new'
                  (λ j h. elim (elem_cons j w s.joins h) [
                    | inl e ↦ new j (ground (arith, e))
                    | inr i ↦ A j i
                  ]))
        ]
      ]

  follow_streams-AreIn :
      (fuel : ℕ) (q : List ℕ) (s s' : Streams)
      → follow_streams fuel max g q s ≡ some s'
      → AreIn s
      → AreIn s'
  unfolding follow_streams
  follow_streams-AreIn fuel [] s s' e A = let same : s ≡ s' = cc e in rw (sym same) A
  follow_streams-AreIn zero (top ∷ q) s s' e A = cc e
  follow_streams-AreIn (suc fuel) (top ∷ q) s s' e A =
      let r = visit_streams max (children_of g top) (q, s) in
      follow_streams-AreIn fuel r.0 r.1 s' e
        (visit_streams-AreIn (children_of g top) q s (inside top) A)

  follow_sources-AreIn :
      (fuel : ℕ) (es : List ℕ) (s s' : Streams)
      → follow_sources fuel max g es s ≡ some s'
      → AreIn s
      → AreIn s'
  unfolding follow_sources
  follow_sources-AreIn fuel [] s s' e A = let same : s ≡ s' = cc e in rw (sym same) A
  follow_sources-AreIn fuel (x ∷ es) s s' e A =
      let s1 : Streams = record s { depth = update s.depth x (some 0) } in
      elim (Option-cases (follow_streams fuel max g (x ∷ []) s1)) [
        | inl n ↦ let bad : none ≡ some s' = rw (follow_sources, n) at e in cc bad
        | inr (s2, n) ↦
            follow_sources-AreIn fuel es s2 s' (rw (follow_sources, n) at e)
              (follow_streams-AreIn fuel (x ∷ []) s1 s2 n A)
      ]

  pub calculate_depths-AreIn :
      (fuel : ℕ) (s : Streams) → calculate_depths fuel max g ≡ some s → AreIn s
  unfolding calculate_depths find_vertices_that_join_streams
  calculate_depths-AreIn fuel s e =
      elim (Option-cases (find_vertices_that_join_streams fuel max g)) [
        | inl n ↦ let bad : none ≡ some s = rw (calculate_depths, n) at e in cc bad
        | inr (s1, n) ↦ elim (Option-cases (populate_sources fuel max g g.sources s1.depth)) [
          | inl p ↦ let bad : none ≡ some s = rw (calculate_depths, n, p) at e in cc bad
          | inr (d, p) ↦
              let same : some (record s1 { depth = d }) ≡ some s =
                rw (calculate_depths, n, p) at e in
              let joins : s1.joins ≡ s.joins = cc same in
              let A = follow_sources-AreIn fuel g.sources _ s1 n (λ j h. cc h) in
              λ j h. A j (rw joins h)
        ]
      ]
