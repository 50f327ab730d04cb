-- ===== src/Graph/Depths.antt =====
-- csapex_core/src/model/graph/graph_impl.cpp, `calculateDepths`: what leads to the vertices that need messages,
-- the vertices that join streams, and the depths. A stack lists its top first; a depth of -1 is `none`.
use csapex.Base.{
  ℕ, zero, suc, ◌==◌, ltb, Bool, true, false, ◌||◌, List, [], ◌∷◌, Option, none, some, elem, update,
  if◌then◌else◌,
}
use csapex.Graph.{Graph, Facade, is_none, find_vertices_that_need_messages}

-- The loop over the parents of a vertex: the stack, and which vertices are marked.
unfoldable pub visit_unmarked : List ℕ → List ℕ × (ℕ → Bool) → List ℕ × (ℕ → Bool)
visit_unmarked [] s = s
visit_unmarked (w ∷ ws) (q, marked) =
    visit_unmarked ws (if marked w then (q, marked) else (w ∷ q, update marked w true))

unfoldable pub spread : ℕ → (ℕ → List ℕ) → List ℕ → (ℕ → Bool) → Option (ℕ → Bool)
spread fuel next [] marked = some marked
spread zero next (top ∷ q) marked = none
spread (suc fuel) next (top ∷ q) marked =
    let s = visit_unmarked (next top) (q, marked) in spread fuel next s.0 s.1

-- The loop over the vertices that need messages
unfoldable pub spread_all : ℕ → (ℕ → List ℕ) → List ℕ → (ℕ → Bool) → Option (ℕ → Bool)
spread_all fuel next [] marked = some marked
spread_all fuel next (e ∷ es) marked = elim (spread fuel next (e ∷ []) (update marked e true)) [
  | none ↦ none
  | some marked' ↦ spread_all fuel next es marked'
]

abbrev pub parents_of : Graph → ℕ → List ℕ
parents_of g v = (g.vertex v).parents

abbrev pub children_of : Graph → ℕ → List ℕ
children_of g v = (g.vertex v).children

-- `is_leading_to_essential_vertex`: the flags of all vertices are cleared first.
unfoldable pub mark_essentials : ℕ → Graph → (ℕ → Facade) → Option (ℕ → Bool)
mark_essentials fuel g facade =
    spread_all fuel (parents_of g) (find_vertices_that_need_messages facade g.vertices) (λ v. false)

-- The depths, and the vertices that join streams.
pub record Streams : Type 0 where
  pub depth : ℕ → Option ℕ
  pub joins : List ℕ

-- The loop over the children of a vertex in `findVerticesThatJoinStreams`; `max` is the largest `int`.
unfoldable pub visit_streams : ℕ → List ℕ → List ℕ × Streams → List ℕ × Streams
visit_streams max [] s = s
visit_streams max (w ∷ ws) (q, s) = visit_streams max ws (
    if is_none (s.depth w)
    then (w ∷ q, record s { depth = update s.depth w (some max) })
    else (q, record s { joins = if elem w s.joins then s.joins else w ∷ s.joins }))

unfoldable pub follow_streams : ℕ → ℕ → Graph → List ℕ → Streams → Option Streams
follow_streams fuel max g [] s = some s
follow_streams zero max g (top ∷ q) s = none
follow_streams (suc fuel) max g (top ∷ q) s =
    let r = visit_streams max (children_of g top) (q, s) in follow_streams fuel max g r.0 r.1

-- The loop over the sources
unfoldable pub follow_sources : ℕ → ℕ → Graph → List ℕ → Streams → Option Streams
follow_sources fuel max g [] s = some s
follow_sources fuel max g (e ∷ es) s =
    elim (follow_streams fuel max g (e ∷ []) (record s { depth = update s.depth e (some 0) })) [
      | none ↦ none
      | some s' ↦ follow_sources fuel max g es s'
    ]

-- The depths of all vertices are -1 first.
unfoldable pub find_vertices_that_join_streams : ℕ → ℕ → Graph → Option Streams
find_vertices_that_join_streams fuel max g =
    follow_sources fuel max g g.sources (record { depth = λ v. none; joins = [] })

-- `top_depth + 1`
abbrev pub next_depth : Option ℕ → ℕ
next_depth none = 0
next_depth (some k) = suc k

-- Whether a child gets the depth `k`
abbrev pub lowers : ℕ → ℕ → Option ℕ → Bool
lowers max k none = false
lowers max k (some d) = d == max || ltb k d

-- The loop over the children of a vertex whose children get the depth `k`.
unfoldable pub relax : ℕ → ℕ → List ℕ → List ℕ × (ℕ → Option ℕ) → List ℕ × (ℕ → Option ℕ)
relax max k [] s = s
relax max k (w ∷ ws) (q, depth) =
    relax max k ws (if lowers max k (depth w) then (w ∷ q, update depth w (some k)) else (q, depth))

unfoldable pub populate : ℕ → ℕ → Graph → List ℕ → (ℕ → Option ℕ) → Option (ℕ → Option ℕ)
populate fuel max g [] depth = some depth
populate zero max g (top ∷ q) depth = none
populate (suc fuel) max g (top ∷ q) depth =
    let s = relax max (next_depth (depth top)) (children_of g top) (q, depth) in
    populate fuel max g s.0 s.1

unfoldable pub populate_sources : ℕ → ℕ → Graph → List ℕ → (ℕ → Option ℕ) → Option (ℕ → Option ℕ)
populate_sources fuel max g [] depth = some depth
populate_sources fuel max g (e ∷ es) depth =
    elim (populate fuel max g (e ∷ []) (update depth e (some 0))) [
      | none ↦ none
      | some depth' ↦ populate_sources fuel max g es depth'
    ]

-- What `calculateDepths` does before it classifies the joining vertices.
unfoldable pub calculate_depths : ℕ → ℕ → Graph → Option Streams
calculate_depths fuel max g = elim (find_vertices_that_join_streams fuel max g) [
  | none ↦ none
  | some s ↦ elim (populate_sources fuel max g g.sources s.depth) [
    | none ↦ none
    | some depth' ↦ some (record s { depth = depth' })
  ]
]
