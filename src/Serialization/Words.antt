-- ===== src/Serialization/Words.antt =====
-- Proofs about bytes and the numbers that they make up, for csapex_core/include/csapex/serialization/
-- serialization_buffer.h.
use csapex.Base.{ℕ, zero, suc, ◌+◌, ◌*◌, ◌/◌, ◌%◌, ◌^◌, ◌≤◌, ◌<◌, ◌≡◌, ap, ◌∙◌, arith}
use Prim.Native.Nat.{bit_or, digits, bit_or-bitwise, max}
use native.Mathlib.Nat.{pow-suc, max-zero}

mul_double : (p w : ℕ) → p * (w * 2) ≡ p * w * 2
mul_double p w = omega arith

-- A digit set behind the digits of `a` adds up with them.
digits-disjoint :
    (n k a p : ℕ) → a < 2 ^ k → a ≤ n → digits (λ b. b) max n a (p * 2 ^ k) ≡ a + p * 2 ^ k
digits-disjoint zero k zero p lt le = omega arith
digits-disjoint zero k (suc a) p lt le = absurd (omega (arith, le))
digits-disjoint (suc n) k zero p lt le = omega arith
digits-disjoint (suc n) zero (suc a) p lt le = absurd (omega (arith, lt))
digits-disjoint (suc n) (suc j) (suc a) p lt le =
    let double : p * 2 ^ suc j ≡ p * 2 ^ j * 2 =
      ap (λ w. p * w) (pow-suc 2 j) ∙ mul_double p (2 ^ j) in
    let inner =
      digits-disjoint n j (suc a / 2) p (omega (arith, lt, pow-suc 2 j)) (omega (arith, le)) in
    let half : p * 2 ^ suc j / 2 ≡ p * 2 ^ j = omega (arith, double) in
    let even : p * 2 ^ suc j % 2 ≡ 0 = omega (arith, double) in
    rw (half, even, inner, max-zero (suc a % 2)) (omega (arith, double))

pub bit_or-disjoint : (k a p : ℕ) → a < 2 ^ k → bit_or a (p * 2 ^ k) ≡ a + p * 2 ^ k
bit_or-disjoint k a p lt = bit_or-bitwise a (p * 2 ^ k) ∙ digits-disjoint a k a p lt (omega arith)

-- The weight of the next byte
pub weight_suc : (b : ℕ) → 2 ^ (suc b * 8) ≡ 2 ^ (b * 8) * 256
weight_suc b =
    let x = b * 8 in
    let digits8 : suc b * 8 ≡ suc (suc (suc (suc (suc (suc (suc (suc x))))))) = omega arith in
    ap (λ k. 2 ^ k) digits8
    ∙ omega (
      arith,
      pow-suc 2 x,
      pow-suc 2 (suc x),
      pow-suc 2 (suc (suc x)),
      pow-suc 2 (suc (suc (suc x))),
      pow-suc 2 (suc (suc (suc (suc x)))),
      pow-suc 2 (suc (suc (suc (suc (suc x))))),
      pow-suc 2 (suc (suc (suc (suc (suc (suc x)))))),
      pow-suc 2 (suc (suc (suc (suc (suc (suc (suc x))))))),
    )
