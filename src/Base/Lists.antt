-- ===== src/Base/Lists.antt =====
-- Lists measured by native numbers, predicates over all members, and finite updates of a function.
use Prim.Native.Nat.{ℕ, zero, suc, ◌+◌}
use mathlib.Core.Path.{◌≡◌, refl, ap}
use mathlib.Core.Bool.{Bool, true, false, ◌||◌, ◌&&◌}
use mathlib.Core.List.{List, [], ◌∷◌, ◌++◌}
use native.Mathlib.Omega.{arith}
use mathlib.Core.Logic.{inl, inr}
use csapex.Base.Tests.{◌==◌, ==_iff, ==_refl, if◌then◌else◌, Bool-cases}

module _ {ℓ} {A : Type ℓ} where
  abbrev pub length : List A → ℕ
  length [] = 0
  length (x ∷ xs) = suc (length xs)

  pub length-append : (xs ys : List A) → length (xs ++ ys) ≡ length xs + length ys
  length-append [] ys = omega arith
  length-append (x ∷ xs) ys = omega (arith, length-append xs ys)

abbrev pub take {ℓ} : {A : Type ℓ} → ℕ → List A → List A
take zero xs = []
take (suc n) [] = []
take (suc n) (x ∷ xs) = x ∷ take n xs

abbrev pub drop {ℓ} : {A : Type ℓ} → ℕ → List A → List A
drop zero xs = xs
drop (suc n) [] = []
drop (suc n) (x ∷ xs) = drop n xs

module _ {ℓ} {A : Type ℓ} where
  pub drop-append : (a b : List A) → drop (length a) (a ++ b) ≡ b
  drop-append [] b = refl
  drop-append (c ∷ a) b = drop-append a b

  pub take-append : (a b : List A) → take (length a) (a ++ b) ≡ a
  take-append [] b = refl
  take-append (c ∷ a) b = ap (λ t. c ∷ t) (take-append a b)

-- A predicate by recursion computes to tuples, which the tactics read and build.
abbrev pub All {ℓ κ} : {A : Type ℓ} → (A → Type κ) → List A → Type κ
All P [] = Unit
All P (x ∷ xs) = P x × All P xs

-- A test on every member, as in a loop that returns false at the first failure.
abbrev pub all {ℓ} : {A : Type ℓ} → (A → Bool) → List A → Bool
all p [] = true
all p (x ∷ xs) = p x && all p xs

abbrev pub any {ℓ} : {A : Type ℓ} → (A → Bool) → List A → Bool
any p [] = false
any p (x ∷ xs) = p x || any p xs

-- Whether an identifier is listed.
abbrev pub elem : ℕ → List ℕ → Bool
elem i [] = false
elem i (x ∷ xs) = i == x || elem i xs

-- A finite update of a table that is given as a function.
abbrev pub update {ℓ} : {A : Type ℓ} → (ℕ → A) → ℕ → A → ℕ → A
update f p v q = if p == q then v else f q

-- What a test on every member says of one.
pub all-elem :
    (p : ℕ → Bool) (xs : List ℕ) (d : ℕ) → all p xs ≡ true → elem d xs ≡ true → p d ≡ true
all-elem p [] d a m = cc
all-elem p (x ∷ xs) d a m = elim (Bool-cases (d == x)) [
  | inl e ↦ rw ((==_iff d x).0 e) (ground (arith, a))
  | inr e ↦ all-elem p xs d (ground (arith, a)) (rw e at m)
]

-- No number is listed twice.
abbrev pub IsDistinct : List ℕ → Type 0
IsDistinct [] = Unit
IsDistinct (x ∷ xs) = (elem x xs ≡ false) × IsDistinct xs

pub any-cong : (p q : ℕ → Bool) (xs : List ℕ) → ((d : ℕ) → p d ≡ q d) → any p xs ≡ any q xs
any-cong p q [] h = refl
any-cong p q (x ∷ xs) h = rw (h x, any-cong p q xs h)

-- What a failed search for a member says of each number.
pub any-elem : (p : ℕ → Bool) (xs : List ℕ) (d : ℕ) → any p xs ≡ false → elem d xs && p d ≡ false
any-elem p [] d h = refl
any-elem p (x ∷ xs) d h = elim (Bool-cases (d == x)) [
  | inl e ↦ rw ((==_iff d x).0 e, ==_refl x) (ground (arith, h))
  | inr e ↦ rw e (any-elem p xs d (ground (arith, h)))
]

-- A test holds of every member if it holds of each.
pub all-intro :
    (p : ℕ → Bool) (xs : List ℕ) → ((d : ℕ) → elem d xs ≡ true → p d ≡ true) → all p xs ≡ true
all-intro p [] h = refl
all-intro p (x ∷ xs) h =
    let here : p x ≡ true = h x (rw (==_refl x) refl) in
    let there : (d : ℕ) → elem d xs ≡ true → p d ≡ true = λ d m. h d (ground (arith, m)) in
    rw (here, all-intro p xs there) refl
