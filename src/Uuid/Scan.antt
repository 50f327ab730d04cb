-- ===== src/Uuid/Scan.antt =====
-- Proofs about csapex_util/src/uuid.cpp: where the search for the last separator stops.
use csapex.Base.{
  ℕ, suc, zero, ◌+◌, ◌<◌, ◌≡◌, subst, refl, ap, Bool, true, false, [], ◌∷◌, ◌++◌, Option, none,
  some, ◌==◌, length, All, arith,
}
use mathlib.Core.Option.{some-injective}
use csapex.Uuid.{Text, colon, bar, separator, starts_with, later, find_last}

-- A text without the bar of the separator.
abbrev pub HasNoBar : Text → Type 0
HasNoBar = All (λ c. (c == bar) ≡ false)

-- A text that may follow a part: it does not begin with a bar.
abbrev pub IsTail : Text → Type 0
IsTail [] = Unit
IsTail (c ∷ t) = (c == bar) ≡ false

IsTail-append : (x z : Text) → HasNoBar x → IsTail z → IsTail (x ++ z)
IsTail-append [] z h t = t
IsTail-append (c ∷ x) z h t = h.0

starts_with-tail : (c : ℕ) (t : Text) → IsTail t → starts_with separator (c ∷ t) ≡ false
starts_with-tail c [] h = ground arith
starts_with-tail c (d ∷ t) h = ground arith

-- No separator begins in a text without a bar.
pub find_last-no_bar : (x z : Text) → HasNoBar x → IsTail z → find_last (length x) (x ++ z) ≡ none
unfolding find_last
find_last-no_bar [] z h t = refl
find_last-no_bar (c ∷ x) z h t =
    rw (find_last-no_bar x z h.1 t, starts_with-tail c (x ++ z) (IsTail-append x z h.1 t)) refl

-- Before a part without a bar, the last separator is the one in front of it.
pub find_last-separator :
    (a x z : Text) (n : ℕ)
    → HasNoBar x
    → IsTail z
    → suc (suc (suc (length x))) + length a ≡ n
    → find_last n (a ++ (separator ++ (x ++ z))) ≡ some (length a)
unfolding find_last
find_last-separator [] x z n h t e =
    let inner : find_last (length (colon ∷ x)) (colon ∷ (x ++ z)) ≡ none =
      find_last-no_bar (colon ∷ x) z (refl, h) t in
    let bound : suc (suc (suc (length x))) ≡ n = omega (arith, e) in
    subst (λ k. find_last k (separator ++ (x ++ z)) ≡ some 0) bound
      (ap (λ r. later true (later false r)) inner)
find_last-separator (c ∷ a) x z zero h t e = absurd (omega (arith, e))
find_last-separator (c ∷ a) x z (suc n) h t e =
    ap (later (starts_with separator (c ∷ (a ++ (separator ++ (x ++ z))))))
      (find_last-separator a x z n h t (omega (arith, e)))

-- A place that is found lies before the bound.
pub find_last-bound : (n : ℕ) (t : Text) (p : ℕ) → find_last n t ≡ some p → p < n
unfolding find_last
find_last-bound zero t p e = cc
find_last-bound (suc n) [] p e = cc
find_last-bound (suc n) (c ∷ t) p e =
    step (starts_with separator (c ∷ t)) (find_last n t) (find_last-bound n t) e
  where
    step :
        (b : Bool) (r : Option ℕ) → ((q : ℕ) → r ≡ some q → q < n) → later b r ≡ some p → p < suc n
    step b (some q) below g = omega (arith, below q refl, some-injective (suc q) p g)
    step true none below g = omega (arith, some-injective 0 p g)
    step false none below g = cc

-- Some place is found where a text begins with the separator and the search is not empty.
pub find_last-found :
    (n : ℕ) (t : Text) → starts_with separator t ≡ true → (p : ℕ) × (find_last (suc n) t ≡ some p)
unfolding find_last
find_last-found n [] e = cc
find_last-found n (c ∷ t) e = rw e (step (find_last n t))
  where
    step : (r : Option ℕ) → (p : ℕ) × (later true r ≡ some p)
    step (some p) = (suc p, refl)
    step none = (0, refl)

-- The place 0 is found only where the text begins with the separator.
pub find_last-zero : (n : ℕ) (t : Text) → find_last n t ≡ some 0 → starts_with separator t ≡ true
unfolding find_last
find_last-zero zero t e = cc
find_last-zero (suc n) [] e = cc
find_last-zero (suc n) (c ∷ t) e = step (starts_with separator (c ∷ t)) (find_last n t) e
  where
    step : (b : Bool) (r : Option ℕ) → later b r ≡ some 0 → b ≡ true
    step b (some q) g = absurd (ground arith)
    step true none g = refl
    step false none g = cc
