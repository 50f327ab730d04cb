-- ===== src/Serialization/Integers.antt =====
-- Proofs about csapex_core/include/csapex/serialization/serialization_buffer.h: integers of at most
-- four bytes are read as they were written; the read of wider ones shifts an `int` too far.
use csapex.Base.{
  ℕ, zero, suc, ◌+◌, ◌*◌, ◌/◌, ◌%◌, ◌^◌, ◌≤◌, ◌<◌, ◌≡◌, refl, sym, ap, ◌∙◌, Bool, true, false, List,
  [], ◌∷◌, ◌++◌, ltb, leb, length, length-append, drop-append, arith,
}
use csapex.Base.Result.{Result, ok, failed, ◌>>=◌, ◌>>◌, assert}
use mathlib.Core.List.{append_assoc, append-nil}
use Prim.Native.Nat.{bit_or}
use native.Mathlib.Nat.{
  div-div-eq-div-mul, pow-le-pow_right, mod-eq_of_lt, mul-le-mul_right, div-add-mod', mod-lt,
  one-le-pow,
}
use csapex.Serialization.{
  Buffer, at_, append, push_back, write_bytes, write_integer, read_byte, shift_part, cast_integer,
  read_bytes, read_integer,
}
use csapex.Serialization.Words.{bit_or-disjoint, weight_suc}

-- The bytes of a number, the lowest first.
unfoldable pub digits_of : ℕ → ℕ → List ℕ
digits_of zero q = []
digits_of (suc n) q = let rest = digits_of n (q / 256) in q % 256 ∷ rest

pub length-digits_of : (n q : ℕ) → length (digits_of n q) ≡ n
unfolding digits_of
length-digits_of zero q = refl
length-digits_of (suc n) q = ap suc (length-digits_of n (q / 256))

write_bytes-append :
    (m byte i : ℕ) (s : Buffer)
    → write_bytes m byte i s ≡ append (digits_of m (i / 2 ^ (byte * 8))) s
unfolding write_bytes digits_of push_back
write_bytes-append zero byte i s = λ j. record s { bytes = sym (append-nil s.bytes) j }
write_bytes-append (suc m) byte i s =
    let q = i / 2 ^ (byte * 8) in
    let next : i / 2 ^ (suc byte * 8) ≡ q / 256 =
      ap (λ w. i / w) (weight_suc byte) ∙ sym (div-div-eq-div-mul i (2 ^ (byte * 8)) 256) in
    write_bytes-append m (suc byte) i (push_back (q % 256) s)
    ∙ ap (λ r. append (digits_of m r) (push_back (q % 256) s)) next
    ∙ λ j. record s { bytes = append_assoc s.bytes (q % 256 ∷ []) (digits_of m (q / 256)) j }

pub write_integer-append : (n i : ℕ) (s : Buffer) → write_integer n i s ≡ append (digits_of n i) s
unfolding write_integer
write_integer-append n i s =
    write_bytes-append n 0 i s ∙ ap (λ q. append (digits_of n q) s) (omega arith)

read_byte-at :
    (b : ℕ) (before rest : List ℕ)
    → read_byte (at_ before (b ∷ rest)) ≡ ok (b, at_ (before ++ b ∷ []) rest)
unfolding read_byte
read_byte-at b before rest =
    rw (drop-append before (b ∷ rest))
      λ j. ok (b, record { bytes = sym (append_assoc before (b ∷ []) rest) j; pos = length_snoc j })
  where
    length_snoc : suc (length before) ≡ length (before ++ b ∷ [])
    length_snoc = omega (arith, length-append before (b ∷ []))

-- The number so far with one more byte stays below the weight of the next one.
part_bound : (res p w : ℕ) → res < w → p < 256 → res + p * w < w * 256
part_bound res p w r h =
    let most : p * w ≤ 255 * w = mul-le-mul_right w (omega arith) in omega (arith, most)

pow_pos : (k : ℕ) → 0 < 2 ^ k
pow_pos k = omega (arith, one-le-pow k 2 (omega arith))

-- A part fits an `int` and the target type.
raw_part :
    (n byte p : ℕ)
    → n ≤ 4
    → byte < n
    → p < 256
    → (shift_part p (byte * 8) ≡ ok (p * 2 ^ (byte * 8)))
      × (cast_integer n (p * 2 ^ (byte * 8)) ≡ p * 2 ^ (byte * 8))
unfolding shift_part cast_integer
raw_part n byte p le lt h =
    let w = 2 ^ (byte * 8) in
    let positive : 0 < w = pow_pos (byte * 8) in
    let below : p * w < w * 256 = omega (arith, part_bound 0 p w positive h) in
    let in_type : 2 ^ (suc byte * 8) ≤ 2 ^ (n * 8) =
      pow-le-pow_right {n = 2} (omega arith) (omega arith) in
    let in_int : 2 ^ (suc byte * 8) ≤ 2 ^ 32 =
      pow-le-pow_right {n = 2} (omega arith) {j = 32} (omega arith) in
    let small : ltb (byte * 8) 32 ≡ true = ground arith in
    let narrow : leb n 4 ≡ true = ground arith in
    let next = weight_suc byte in
    (
      rw (small, mod-eq_of_lt {n = p * w} {m = 2 ^ 32} (omega (arith, below, next, in_int))) refl,
      rw narrow (mod-eq_of_lt {n = p * w} {m = 2 ^ (n * 8)} (omega (arith, below, next, in_type))),
    )

spread : (a r w : ℕ) → (a * 256 + r) * w ≡ a * (w * 256) + r * w
spread a r w = omega arith

regroup : (res q w : ℕ) → res + q % 256 * w + q / 256 * (w * 256) ≡ res + q * w
regroup res q w =
    let whole : (q / 256 * 256 + q % 256) * w ≡ q * w = ap (λ k. k * w) (div-add-mod' q 256) in
    omega (arith, whole, spread (q / 256) (q % 256) w)

read_bytes-step :
    (n m byte q res : ℕ) (before after : List ℕ)
    → n ≤ 4
    → byte < n
    → res < 2 ^ (byte * 8)
    → read_bytes n (suc m) byte res (at_ before (q % 256 ∷ digits_of m (q / 256) ++ after))
      ≡ read_bytes n m
          (suc byte)
          (res + q % 256 * 2 ^ (byte * 8))
          (at_ (before ++ q % 256 ∷ []) (digits_of m (q / 256) ++ after))
unfolding read_bytes
read_bytes-step n m byte q res before after le lt small =
    let p = q % 256 in
    let (shifted, cast) = raw_part n byte p le lt (mod-lt q {m = 256} (omega arith)) in
    rw
      (
        read_byte-at p before (digits_of m (q / 256) ++ after),
        shifted,
        cast,
        bit_or-disjoint (byte * 8) res p small,
      )
      refl

plus_zero : (r w : ℕ) → r ≡ r + 0 * w
plus_zero r w = omega arith

times_one : (i : ℕ) → 0 + i * 2 ^ (0 * 8) ≡ i
times_one i = omega arith

read_bytes-digits :
    (n m byte q res : ℕ) (before after : List ℕ)
    → n ≤ 4
    → byte + m ≡ n
    → res < 2 ^ (byte * 8)
    → q < 2 ^ (m * 8)
    → read_bytes n m byte res (at_ before (digits_of m q ++ after))
      ≡ ok (res + q * 2 ^ (byte * 8), at_ (before ++ digits_of m q) after)
unfolding digits_of read_bytes
read_bytes-digits n zero byte q res before after le e r h =
    let none_left : q ≡ 0 = omega (arith, h) in
    λ j. ok (
      (plus_zero res (2 ^ (byte * 8)) ∙ ap (λ k. res + k * 2 ^ (byte * 8)) (sym none_left)) j,
      at_ (sym (append-nil before) j) after,
    )
read_bytes-digits n (suc m) byte q res before after le e r h =
    let w = 2 ^ (byte * 8) in
    let b = q % 256 in
    let next = weight_suc byte in
    let bound : res + b * w < 2 ^ (suc byte * 8) =
      omega (arith, part_bound res b w r (mod-lt q {m = 256} (omega arith)), next) in
    let fewer : q / 256 < 2 ^ (m * 8) = omega (arith, h, weight_suc m) in
    read_bytes-step n m byte q res before after le (omega (arith, e)) r
    ∙ read_bytes-digits n m (suc byte) (q / 256) (res + b * w) (before ++ b ∷ []) after le
        (omega (arith, e)) bound fewer
    ∙ λ j. ok (
      (ap (λ k. res + b * w + q / 256 * k) next ∙ regroup res q w) j,
      at_ (append_assoc before (b ∷ []) (digits_of m (q / 256)) j) after,
    )

-- An integer of at most four bytes is read as it was written, and the read stops behind it.
pub read_integer-digits :
    (n i : ℕ) (before after : List ℕ)
    → n ≤ 4
    → i < 2 ^ (n * 8)
    → read_integer n (at_ before (digits_of n i ++ after))
      ≡ ok (i, at_ (before ++ digits_of n i) after)
unfolding read_integer
read_integer-digits n i before after le h =
    read_bytes-digits n n 0 i 0 before after le (omega arith) (omega arith) h
    ∙ ap (λ k. ok (k, at_ (before ++ digits_of n i) after)) (times_one i)

-- From the fifth byte on the shift is not defined.
read_bytes-wide :
    (n m byte res : ℕ) (s : Buffer) → byte ≤ 4 → 4 < byte + m → read_bytes n m byte res s ≡ failed
unfolding read_bytes shift_part
read_bytes-wide n zero byte res s le lt = absurd (omega (arith, le, lt))
read_bytes-wide n (suc m) byte res s le lt =
    step (read_byte s) (ltb (byte * 8) 32) refl
      (λ small k t. read_bytes-wide n m (suc byte) k t (ground arith) (omega (arith, lt)))
  where
    step :
        (r : Result (ℕ × Buffer)) (b : Bool)
        → ltb (byte * 8) 32 ≡ b
        → (b ≡ true → (k : ℕ) (t : Buffer) → read_bytes n m (suc byte) k t ≡ failed)
        → (do
          q ← r
          raw ← (do assert b; ok (q.0 * 2 ^ (byte * 8) % 2 ^ 32))
          read_bytes n m (suc byte) (bit_or res (cast_integer n raw)) q.1)
          ≡ failed
    step failed b e next = refl
    step (ok q) false e next = refl
    step (ok q) true e next = next refl _ _

-- Reading an integer of more than four bytes shifts an `int` by its width, which is not defined,
-- unless the buffer ends before.
pub read_integer-wide : (n : ℕ) (s : Buffer) → 4 < n → read_integer n s ≡ failed
unfolding read_integer
read_integer-wide n s lt = read_bytes-wide n n 0 0 s (omega arith) (omega (arith, lt))
