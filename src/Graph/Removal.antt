-- ===== src/Graph/Removal.antt =====
-- Proofs about csapex_core/src/model/graph/graph_impl.cpp, `deleteConnection`: the vertices, the sources and the
-- sinks still agree with the connections that remain.
use csapex.Base.{
  ℕ, ◌≡◌, refl, ◌∙◌, ◌==◌, ==_iff, ==_refl, Bool, true, false, not, ◌&&◌, ◌||◌, List, [], ◌∷◌, any,
  elem, IsDistinct, Bool-cases, inl, inr, if◌then◌else◌, arith,
}
use csapex.Graph.{erase}
use csapex.Graph.Search.{elem-append, or_inr}
use csapex.Graph.Erase.{erase_here, erase_there}
use csapex.Graph.Deletion.{remove_all, insert_vertex}
use csapex.Graph.Linked.{snoc-IsDistinct}

pub elem-remove_all : (u v : ℕ) (xs : List ℕ) → elem v (remove_all u xs) ≡ not (v == u) && elem v xs
unfolding remove_all
elem-remove_all u v [] = ground arith
elem-remove_all u v (x ∷ xs) = elim (Bool-cases (u == x)) [
  | inl q ↦ rw (remove_all, q) (elem-remove_all u v xs ∙ ground (arith, q))
  | inr q ↦ rw (remove_all, q) (rw (elem-remove_all u v xs) (ground (arith, q)))
]

-- A test on a list with a member, and on the others.
pub any-erase :
    (p : ℕ → Bool) (c : ℕ) (xs : List ℕ) → elem c xs ≡ true → any p xs ≡ p c || any p (erase c xs)
any-erase p c [] m = cc m
any-erase p c (x ∷ xs) m = elim (Bool-cases (c == x)) [
  | inl q ↦ rw (erase_here c x xs q, (==_iff c x).0 q) refl
  | inr q ↦ rw (erase_there c x xs q, any-erase p c xs (rw q at m)) (ground arith)
]

pub any-erase_le :
    (p : ℕ → Bool) (c : ℕ) (xs : List ℕ) → any p (erase c xs) ≡ true → any p xs ≡ true
unfolding erase
any-erase_le p c [] h = h
any-erase_le p c (x ∷ xs) h = elim (Bool-cases (c == x)) [
  | inl q ↦ or_inr (p x) (any p xs) (rw (erase_here c x xs q) at h)
  | inr q ↦
      let h' : p x || any p (erase c xs) ≡ true = rw (erase_there c x xs q) at h in
      elim (Bool-cases (p x)) [
        | inl y ↦ rw y refl
        | inr n ↦ or_inr (p x) (any p xs) (any-erase_le p c xs (rw n at h'))
      ]
]

-- Tests that agree on the members
pub any_agree :
    (p q : ℕ → Bool) (xs : List ℕ) → ((d : ℕ) → elem d xs ≡ true → p d ≡ q d) → any p xs ≡ any q xs
any_agree p q [] h = refl
any_agree p q (x ∷ xs) h =
    rw (h x (rw (==_refl x) refl), any_agree p q xs (λ d m. h d (or_inr (d == x) (elem d xs) m)))
      refl

-- A member of a set with one more
pub elem-insert :
    (c : Bool) (x v : ℕ) (xs : List ℕ)
    → elem v (if c then insert_vertex x xs else xs) ≡ c && v == x || elem v xs
elem-insert false x v xs = ground arith
elem-insert true x v xs = elim (Bool-cases (elem x xs)) [
  | inl m ↦ rw m (elim (Bool-cases (v == x)) [
    | inl q ↦ rw ((==_iff v x).0 q, m) (ground arith)
    | inr q ↦ rw q refl
  ])
  | inr m ↦ rw m (elem-append v xs (x ∷ []) ∙ ground arith)
]

pub insert-IsDistinct :
    (c : Bool) (x : ℕ) (xs : List ℕ)
    → IsDistinct xs
    → IsDistinct (if c then insert_vertex x xs else xs)
insert-IsDistinct false x xs d = d
insert-IsDistinct true x xs d = elim (Bool-cases (elem x xs)) [
  | inl m ↦ rw m d
  | inr m ↦ rw m (snoc-IsDistinct x xs m d)
]
