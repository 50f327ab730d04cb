-- ===== src/Graph/Needs.antt =====
-- Proofs about csapex_core/src/model/graph/graph_impl.cpp, `findVerticesThatNeedMessages`.
use csapex.Base.{ℕ, ◌≡◌, refl, Bool, true, false, List, [], ◌∷◌, ◌++◌, All, if◌then◌else◌}
use csapex.Graph.{Facade, leads_to_essential, find_vertices_that_need_messages}

-- The vertices of which a receiver is essential.
abbrev pub with_essential : (ℕ → Facade) → List ℕ → List ℕ
with_essential facade [] = []
with_essential facade (v ∷ vs) =
    let rest = with_essential facade vs in
    if leads_to_essential (facade v).essential then v ∷ rest else rest

-- Where no vertex processes empty messages, those with an essential receiver are found.
pub find_vertices_that_need_messages_lem :
    (facade : ℕ → Facade) (vs : List ℕ)
    → All (λ v. (facade v).processing_nothing ≡ false) vs
    → find_vertices_that_need_messages facade vs ≡ with_essential facade vs
unfolding find_vertices_that_need_messages
find_vertices_that_need_messages_lem facade [] h = refl
find_vertices_that_need_messages_lem facade (v ∷ vs) h =
    rw (h.0, find_vertices_that_need_messages_lem facade vs h.1) refl

pick :
    (c : Bool) (v : ℕ) (xs ys : List ℕ)
    → (if c then v ∷ (xs ++ ys) else xs ++ ys) ≡ (if c then v ∷ xs else xs) ++ ys
pick true v xs ys = refl
pick false v xs ys = refl

-- The search stops at the first vertex that processes empty messages: of those behind it none is
-- found, whether a receiver of it is essential or not.
pub find_vertices_that_need_messages_stops :
    (facade : ℕ → Facade) (before : List ℕ) (v : ℕ) (after : List ℕ)
    → All (λ u. (facade u).processing_nothing ≡ false) before
    → (facade v).processing_nothing ≡ true
    → find_vertices_that_need_messages facade (before ++ v ∷ after)
      ≡ with_essential facade before ++ v ∷ []
unfolding find_vertices_that_need_messages
find_vertices_that_need_messages_stops facade [] v after h p = rw p refl
find_vertices_that_need_messages_stops facade (u ∷ before) v after h p =
    rw (h.0, find_vertices_that_need_messages_stops facade before v after h.1 p)
      (pick (leads_to_essential (facade u).essential) u (with_essential facade before) (v ∷ []))
