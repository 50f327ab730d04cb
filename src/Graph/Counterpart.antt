-- ===== src/Graph/Counterpart.antt =====
-- csapex_core/src/model/graph/graph_impl.cpp, `calculateDepths`: the vertices that lead to one that joins streams,
-- and the vertex where these streams part. A set lists its members, the newest first.
use csapex.Base.{
  ℕ, zero, suc, ◌==◌, ltb, Bool, true, false, ◌&&◌, ◌||◌, List, [], ◌∷◌, ◌++◌, Option, none, some,
  elem, update, if◌then◌else◌,
}
use csapex.Graph.{Graph, erase}
use csapex.Graph.Depths.{parents_of}

-- Depths are compared as integers; `none` is -1.
abbrev pub lower_depth : Option ℕ → Option ℕ → Bool
lower_depth none none = false
lower_depth none (some k) = true
lower_depth (some j) none = false
lower_depth (some j) (some k) = ltb j k

abbrev pub same_depth : Option ℕ → Option ℕ → Bool
same_depth none none = true
same_depth none (some k) = false
same_depth (some j) none = false
same_depth (some j) (some k) = j == k

abbrev pub is_positive : Option ℕ → Bool
is_positive (some (suc k)) = true
is_positive _ = false

abbrev pub insert : ℕ → List ℕ → List ℕ
insert v xs = if elem v xs then xs else v ∷ xs

abbrev pub is_single : List ℕ → Bool
is_single (x ∷ []) = true
is_single _ = false

-- `Q`, `done`, `minimum` and `min_level`.
pub record Tracing : Type 0 where
  pub queue : List ℕ
  pub done : List ℕ
  pub minimum : List ℕ
  pub min_level : Option ℕ

-- A parent that is not done: `sort` is `std::sort` by the depths, of which equal ones come in any order.
abbrev pub lower_minimum : ℕ → Option ℕ → Tracing → Tracing
lower_minimum v level s =
    let lowest : Option ℕ = if lower_depth level s.min_level then level else s.min_level in
    let kept : List ℕ = if lower_depth level s.min_level then [] else s.minimum in
    record s {
      min_level = lowest;
      minimum = if same_depth level lowest then insert v kept else kept;
    }

abbrev pub enqueue : (List ℕ → List ℕ) → ℕ → List ℕ → List ℕ
enqueue sort v q = if elem v q then q else sort (q ++ v ∷ [])

-- The loop over the parents of a vertex
unfoldable pub trace_parents : (List ℕ → List ℕ) → (ℕ → Option ℕ) → List ℕ → Tracing → Tracing
trace_parents sort depth [] s = s
trace_parents sort depth (v ∷ vs) s = trace_parents sort depth vs (
    if elem v s.done
    then s
    else record (lower_minimum v (depth v) s) { queue = enqueue sort v s.queue })

-- The loop that looks for the counterpart, and whether it found one.
unfoldable pub trace :
    ℕ → (List ℕ → List ℕ) → Graph → (ℕ → Option ℕ) → List ℕ → Tracing → Option (Tracing × Bool)
trace fuel sort g depth [] s = some (s, false)
trace zero sort g depth (top ∷ q) s = none
trace (suc fuel) sort g depth (top ∷ q) s =
    let s' =
      trace_parents sort depth (parents_of g top)
        (record s { done = insert top s.done; queue = q }) in
    let rest = trace fuel sort g depth s'.queue s' in
    if is_positive s.min_level && is_single (top ∷ q) && is_single s.minimum
    then some (s, true)
    else rest

-- `NodeCharacteristics` of all vertices
pub record Roles : Type 0 where
  pub is_joining_vertex : ℕ → Bool
  pub is_joining_vertex_counterpart : ℕ → Bool
  pub is_combined_by_joining_vertex : ℕ → Bool
  pub is_leading_to_joining_vertex : ℕ → Bool

abbrev pub mark_others : ℕ → List ℕ → (ℕ → Bool) → ℕ → Bool
mark_others v [] m = m
mark_others v (x ∷ xs) m = mark_others v xs (if x == v then m else update m x true)

abbrev pub head_or : ℕ → List ℕ → ℕ
head_or v [] = v
head_or v (x ∷ xs) = x

-- What follows the loop: the only source that was found is the counterpart too.
unfoldable pub assign_roles : ℕ → Tracing → Bool → Roles → Roles
assign_roles v s is_closed r =
    let single_source = same_depth s.min_level (some 0) && is_single s.minimum in
    let top = head_or v s.minimum in
    let done : List ℕ = if single_source then erase top s.done else s.done in
    let leading = mark_others v done r.is_leading_to_joining_vertex in
    let combined = mark_others v done r.is_combined_by_joining_vertex in
    record r {
      is_joining_vertex_counterpart =
          if is_closed || single_source
          then update r.is_joining_vertex_counterpart top true
          else r.is_joining_vertex_counterpart;
      is_leading_to_joining_vertex = leading;
      is_combined_by_joining_vertex =
          if is_closed || single_source then combined else r.is_combined_by_joining_vertex;
    }

-- The loop over the vertices that join streams
unfoldable pub find_counterparts :
    ℕ → (List ℕ → List ℕ) → Graph → (ℕ → Option ℕ) → List ℕ → Roles → Option Roles
find_counterparts fuel sort g depth [] r = some r
find_counterparts fuel sort g depth (v ∷ vs) r =
    let joining : Roles = record r { is_joining_vertex = update r.is_joining_vertex v true } in
    let start : Tracing = record { queue = v ∷ []; done = []; minimum = []; min_level = depth v } in
    elim (trace fuel sort g depth (v ∷ []) start) [
      | none ↦ none
      | some (s, is_closed) ↦
          find_counterparts fuel sort g depth vs (assign_roles v s is_closed joining)
    ]

-- The flags are cleared first.
abbrev pub no_roles : Roles
no_roles = record {
  is_joining_vertex = λ v. false;
  is_joining_vertex_counterpart = λ v. false;
  is_combined_by_joining_vertex = λ v. false;
  is_leading_to_joining_vertex = λ v. false;
}
