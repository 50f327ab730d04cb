-- ===== src/Base/Result.antt =====
-- The result of code that may fail a hard assertion (`apex_assert_hard` throws).
use mathlib.Core.Path.{◌≡◌, refl}
use mathlib.Core.Bool.{Bool, true, false}
use mathlib.Core.List.{List, [], ◌∷◌}

-- `failed` is the state of the program after a failed assertion: what is left of it is not observed.
pub data Result {ℓ} (Value : Type ℓ) : Type ℓ where
  failed : Result Value
  ok : Value → Result Value

-- `apex_assert_hard`
abbrev pub assert : Bool → Result (Unit {0})
assert false = failed
assert true = ok tt

infixl 5 ◌>>=◌
abbrev pub ◌>>=◌ {μ ν} :
    {Value : Type μ} {Next : Type ν} → Result Value → (Value → Result Next) → Result Next
failed >>= next = failed
ok v >>= next = next v

infixl 5 ◌>>◌
abbrev pub ◌>>◌ {ν} : {Next : Type ν} → Result (Unit {0}) → Result Next → Result Next
first >> second = first >>= λ _. second

-- A run of two steps that succeeds comes from a first step that succeeds.
pub >>=-eq-ok {μ ν} :
    {Value : Type μ} {Next : Type ν} (first : Result Value) (next : Value → Result Next) {w : Next}
    → (first >>= next) ≡ ok w
    → (v : Value) × (first ≡ ok v) × (next v ≡ ok w)
>>=-eq-ok failed next success = cc
>>=-eq-ok (ok v) next success = (v, refl, success)

-- `for (x : xs) s = body(x, s)`, left at the first failed assertion.
unfoldable pub for_each {ℓ κ} :
    {A : Type ℓ} {S : Type κ} → (A → S → Result S) → List A → S → Result S
for_each body [] s = ok s
for_each body (x ∷ xs) s = body x s >>= for_each body xs

-- The code succeeds, and its result satisfies `P`.
pub record Ensures {ℓ κ} {A : Type ℓ} (P : A → Type κ) (r : Result A) : Type (ℓ ⊔ κ) where
  pub value : A
  pub returns : r ≡ ok value
  pub holds : P value

module _ {ℓ κ} {A : Type ℓ} where
  pub Ensures-ok : {P : A → Type κ} (a : A) → P a → Ensures P (ok a)
  Ensures-ok a p = record { value = a; returns = refl; holds = p }

  pub Ensures-bind {ℓ' κ'} :
      {B : Type ℓ'} {P : A → Type κ} {Q : B → Type κ'} (m : Result A) (f : A → Result B)
      → Ensures P m
      → ((a : A) → P a → Ensures Q (f a))
      → Ensures Q (m >>= f)
  Ensures-bind m f e next = rw e.returns (next e.value e.holds)

  pub Ensures-mono {κ'} :
      {P : A → Type κ} {Q : A → Type κ'} (m : Result A)
      → Ensures P m
      → ((a : A) → P a → Q a)
      → Ensures Q m
  Ensures-mono m e f = record { value = e.value; returns = e.returns; holds = f e.value e.holds }
