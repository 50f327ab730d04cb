-- ===== src/Uuid/Decimal.antt =====
-- Proofs about csapex_util/src/uuid_provider.cpp: different numbers are written differently.
use csapex.Base.{
  ℕ, zero, suc, ◌+◌, ◌-◌, ◌*◌, ◌/◌, ◌%◌, ◌<◌, ◌≡◌, refl, sym, ap, ◌∙◌, ltb, false, [], ◌∷◌, ◌++◌,
  length, length-append, Bool-cases, inl, inr, arith,
}
use csapex.Uuid.{Text, no_name, text_eq}
use csapex.Uuid.Naming.{IsPart}
use csapex.Uuid.Provider.{digits, decimal, numbered}
use csapex.Uuid.Scan.{HasNoBar}

value_from : ℕ → Text → ℕ
value_from acc [] = acc
value_from acc (c ∷ t) = value_from (acc * 10 + (c - 48)) t

value_from-snoc :
    (acc : ℕ) (t : Text) (c : ℕ) → value_from acc (t ++ c ∷ []) ≡ value_from acc t * 10 + (c - 48)
unfolding value_from
value_from-snoc acc [] c = refl
value_from-snoc acc (d ∷ t) c = value_from-snoc (acc * 10 + (d - 48)) t c

value_from-digits : (fuel n : ℕ) → n < fuel → value_from 0 (digits fuel n) ≡ n
unfolding digits value_from
value_from-digits zero n h = absurd (omega (arith, h))
value_from-digits (suc fuel) n h = elim (Bool-cases (ltb n 10)) [
  | inl q ↦ rw q (omega arith)
  | inr q ↦ rw q (
      value_from-snoc 0 (digits fuel (n / 10)) (48 + n % 10)
      ∙ omega (arith, value_from-digits fuel (n / 10) (ground (arith, q, h))))
]

decimal_injective : (m n : ℕ) → decimal m ≡ decimal n → m ≡ n
unfolding decimal
decimal_injective m n e =
    sym (value_from-digits (suc m) m (omega arith))
    ∙ ap (value_from 0) e
    ∙ value_from-digits (suc n) n (omega arith)

pub append_injective : (a b c : Text) → a ++ b ≡ a ++ c → b ≡ c
append_injective [] b c e = e
append_injective (x ∷ a) b c e = append_injective a b c (cc e)

-- Two names with one prefix and different numbers differ.
pub numbered_injective : (name : Text) (m n : ℕ) → numbered name m ≡ numbered name n → m ≡ n
numbered_injective name m n e =
    decimal_injective m n (cc (append_injective name (95 ∷ decimal m) (95 ∷ decimal n) e))

NoBar-append : (s t : Text) → HasNoBar s → HasNoBar t → HasNoBar (s ++ t)
NoBar-append [] t h k = k
NoBar-append (c ∷ s) t h k = (h.0, NoBar-append s t h.1 k)

digits-HasNoBar : (fuel n : ℕ) → HasNoBar (digits fuel n)
unfolding digits
digits-HasNoBar zero n = tt
digits-HasNoBar (suc fuel) n = elim (Bool-cases (ltb n 10)) [
  | inl q ↦ rw q (ground (arith, q), tt)
  | inr q ↦ rw q (
      NoBar-append (digits fuel (n / 10)) ((48 + n % 10) ∷ []) (digits-HasNoBar fuel (n / 10))
        (ground arith, tt))
]

digits_nonempty : (fuel n : ℕ) → 0 < length (digits (suc fuel) n)
unfolding digits
digits_nonempty fuel n = elim (Bool-cases (ltb n 10)) [
  | inl q ↦ rw q (omega arith)
  | inr q ↦ rw q (omega (arith, length-append (digits fuel (n / 10)) ((48 + n % 10) ∷ [])))
]

long_named : (t : Text) → 1 < length t → text_eq t no_name ≡ false
long_named [] h = refl
long_named (c ∷ []) h = absurd (omega (arith, h))
long_named (c ∷ d ∷ t) h = ground arith

-- A numbered name can be read back.
pub numbered-IsPart : (name : Text) (n : ℕ) → HasNoBar name → IsPart (numbered name n)
unfolding decimal
numbered-IsPart name n h =
    let size : 1 < length (numbered name n) =
      omega (arith, length-append name (95 ∷ decimal n), digits_nonempty n n) in
    (
      NoBar-append name (95 ∷ decimal n) h (refl, digits-HasNoBar (suc n) n),
      long_named (numbered name n) size,
      omega (arith, size),
    )
