-- ===== src/Graph/Erase.antt =====
-- Proofs about csapex_core/src/model/graph/graph_impl.cpp: a vertex that is erased from the unmarked
-- ones.
use csapex.Base.{
  ℕ, ◌≡◌, refl, sym, ap, ◌∙◌, subst, ◌==◌, ==_iff, ==_refl, true, false, List, [], ◌∷◌, elem,
  Bool-cases, inl, inr, IsDistinct, ◌||◌, suc, length,
}
use csapex.Graph.{erase}
use csapex.Graph.Search.{or_inr, elem_cons}

pub erase_here : (u x : ℕ) (xs : List ℕ) → (u == x) ≡ true → erase u (x ∷ xs) ≡ xs
unfolding erase
erase_here u x xs e = rw (erase, e) refl

pub erase_there : (u x : ℕ) (xs : List ℕ) → (u == x) ≡ false → erase u (x ∷ xs) ≡ x ∷ erase u xs
unfolding erase
erase_there u x xs e = rw (erase, e) refl

pub elem-erase : (u v : ℕ) (xs : List ℕ) → elem v (erase u xs) ≡ true → elem v xs ≡ true
unfolding erase
elem-erase u v [] m = m
elem-erase u v (x ∷ xs) m = elim (Bool-cases (u == x)) [
  | inl e ↦ or_inr (v == x) (elem v xs) (ap (elem v) (sym (erase_here u x xs e)) ∙ m)
  | inr e ↦ elim (elem_cons v x (erase u xs) (ap (elem v) (sym (erase_there u x xs e)) ∙ m)) [
    | inl p ↦ ap (λ k. elem k (x ∷ xs)) p ∙ rw (==_refl x) refl
    | inr n ↦ or_inr (v == x) (elem v xs) (elem-erase u v xs n)
  ]
]

pub erase_other : (u v : ℕ) (xs : List ℕ) → (v == u) ≡ false → elem v (erase u xs) ≡ elem v xs
unfolding erase
erase_other u v [] n = refl
erase_other u v (x ∷ xs) n = elim (Bool-cases (u == x)) [
  | inl e ↦
      ap (elem v) (erase_here u x xs e) ∙ rw (ap (λ k. v == k) (sym ((==_iff u x).0 e)) ∙ n) refl
  | inr e ↦ ap (elem v) (erase_there u x xs e) ∙ ap (λ b. v == x || b) (erase_other u v xs n)
]

pub erase_self : (u : ℕ) (xs : List ℕ) → IsDistinct xs → elem u (erase u xs) ≡ false
unfolding erase
erase_self u [] d = refl
erase_self u (x ∷ xs) d = elim (Bool-cases (u == x)) [
  | inl e ↦ ap (elem u) (erase_here u x xs e) ∙ ap (λ k. elem k xs) ((==_iff u x).0 e) ∙ d.0
  | inr e ↦ ap (elem u) (erase_there u x xs e) ∙ rw (e, erase_self u xs d.1) refl
]

not_member : (u v : ℕ) (xs : List ℕ) → elem v xs ≡ false → elem v (erase u xs) ≡ false
not_member u v xs n = elim (Bool-cases (elem v (erase u xs))) [
  | inl m ↦ cc (elem-erase u v xs m, n)
  | inr m ↦ m
]

pub erase-IsDistinct : (u : ℕ) (xs : List ℕ) → IsDistinct xs → IsDistinct (erase u xs)
unfolding erase
erase-IsDistinct u [] d = tt
erase-IsDistinct u (x ∷ xs) d = elim (Bool-cases (u == x)) [
  | inl e ↦ subst IsDistinct (sym (erase_here u x xs e)) d.1
  | inr e ↦
      subst IsDistinct (sym (erase_there u x xs e))
        (not_member u x xs d.0, erase-IsDistinct u xs d.1)
]

pub length-erase : (u : ℕ) (xs : List ℕ) → elem u xs ≡ true → suc (length (erase u xs)) ≡ length xs
unfolding erase
length-erase u [] m = cc m
length-erase u (x ∷ xs) m = elim (Bool-cases (u == x)) [
  | inl e ↦ ap (λ l. suc (length l)) (erase_here u x xs e)
  | inr e ↦
      ap (λ l. suc (length l)) (erase_there u x xs e)
      ∙ ap suc (length-erase u xs (sym (rw e refl) ∙ m))
]
