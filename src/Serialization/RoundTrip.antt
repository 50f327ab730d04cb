-- ===== src/Serialization/RoundTrip.antt =====
-- Properties of csapex_core/src/serialization: what is written to a buffer is read back, and where it
-- is not.
use csapex.Base.{
  ℕ, suc, ◌+◌, ◌*◌, ◌/◌, ◌%◌, ◌^◌, ◌≤◌, ◌<◌, ◌≡◌, refl, ap, ◌∙◌, true, List, [], ◌∷◌, ◌++◌, leb,
  length, All, arith,
}
use csapex.Base.Result.{ok}
use mathlib.Core.List.{append-nil, append_assoc}
use native.Mathlib.Nat.{mod-eq_of_lt}
use csapex.Serialization.{
  Buffer, at_, append, read_integer, write_string, read_string, finalize, write_header, put_byte,
}
use csapex.Serialization.Integers.{digits_of, read_integer-digits}
use csapex.Serialization.Codec.{Codec, Faithful, integer, string, vector}
use csapex.Serialization.Containers.{
  integer-Faithful, string-Faithful, write_string-append, vector-Faithful, read-write,
}

-- `s` holds `a` behind the bytes `before`: the write of `a` succeeds with `s`, and a read from there
-- into a new target, with any bytes written behind, gives `a` and stops behind it.
pub record ReadsBack {A : Type 0} (C : Codec A) (a : A) (before after : List ℕ) : Type 0 where
  pub written : Buffer
  pub writes : C.write a (at_ before []) ≡ ok written
  pub reads :
      C.read C.fresh (append after written)
      ≡ ok (a, record { bytes = written.bytes ++ after; pos = length written.bytes })

reads_back :
    {A : Type 0} (C : Codec A) (V : A → Type 0) (a : A) (before after : List ℕ)
    → Faithful C V
    → V a
    → ReadsBack C a before after
reads_back C V a before after F h =
    let (s, w, r) = read-write C V a before after F h in
    record { written = s; writes = w; reads = r }

-- An integer of at most four bytes, and a string of fewer than 65535 characters, is read back.
pub integer-ReadsBack :
    (n i : ℕ) (before after : List ℕ)
    → n ≤ 4
    → i < 2 ^ (n * 8)
    → ReadsBack (integer n) i before after
integer-ReadsBack n i before after le h =
    reads_back (integer n) _ i before after (integer-Faithful n le) h

-- A string of fewer than 65535 characters is read back into a target that is empty.
pub string-ReadsBack :
    (t before after : List ℕ) → length t < 65535 → ReadsBack string t before after
string-ReadsBack t before after h = reads_back string _ t before after string-Faithful h

-- A vector of fewer than 255 elements is read back, where the codec of its elements is faithful to
-- each of them.
pub vector-ReadsBack :
    {A : Type 0} (C : Codec A) (V : A → Type 0) (xs : List A) (before after : List ℕ)
    → Faithful C V
    → length xs < 255
    → All V xs
    → ReadsBack (vector C) xs before after
vector-ReadsBack C V xs before after F small h =
    reads_back (vector C) _ xs before after (vector-Faithful C F) (small, h)

-- Reading an empty string leaves in the target what it held before.
pub read_string-empty :
    (t before after : List ℕ)
    → (s : Buffer) × (write_string [] (at_ before []) ≡ ok s)
      × (read_string t (append after s)
          ≡ ok (t, record { bytes = s.bytes ++ after; pos = length s.bytes }))
unfolding read_string digits_of
read_string-empty t before after =
    let d = digits_of 2 0 in
    (
      record { bytes = before ++ d; pos = length before },
      write_string-append [] (at_ before []) (omega arith)
          ∙ ap (λ bs. ok record { bytes = bs ++ d; pos = length before }) (append-nil before),
      ap (λ bs. read_string t (record { bytes = bs; pos = length before }))
            (append_assoc before d after)
          ∙ rw (read_integer-digits 2 0 before after (omega arith) (omega arith)) refl,
    )

abbrev pub buffer : List ℕ → ℕ → Buffer
buffer bs p = record { bytes = bs; pos = p }

-- The loop of `finalize` writes the digits of the length.
write_header-digits :
    (a b c d n : ℕ) (rest : List ℕ)
    → write_header 4 0 n (a ∷ b ∷ c ∷ d ∷ rest) ≡ digits_of 4 n ++ rest
unfolding write_header put_byte digits_of
write_header-digits a b c d n rest = λ j. zeroth j ∷ n / 256 % 256 ∷ second j ∷ third j ∷ rest
  where
    zeroth : n / 2 ^ (0 * 8) % 256 ≡ n % 256
    zeroth = omega arith

    second : n / 2 ^ (2 * 8) % 256 ≡ n / 256 / 256 % 256
    second = omega arith

    third : n / 2 ^ (3 * 8) % 256 ≡ n / 256 / 256 / 256 % 256
    third = omega arith

-- Where the buffer has its header, `finalize` writes the length of the buffer to the first four
-- bytes, where a read of four bytes finds it, and changes no other byte.
pub finalize_header :
    (a b c d : ℕ) (rest : List ℕ) (p : ℕ)
    → length rest + 4 < 2 ^ 32
    → (h : List ℕ) × (finalize (buffer (a ∷ b ∷ c ∷ d ∷ rest) p) ≡ ok (buffer (h ++ rest) p))
      × (read_integer 4 (at_ [] (h ++ rest)) ≡ ok (length rest + 4, at_ h rest))
unfolding finalize
finalize_header a b c d rest p lt =
    let n = length rest + 4 in
    let size : suc (suc (suc (suc (length rest)))) ≡ n = omega arith in
    let header : leb 4 n ≡ true = ground arith in
    (
      digits_of 4 n,
      rw (size, header, mod-eq_of_lt {n = n} {m = 2 ^ 32} lt, write_header-digits a b c d n rest)
          refl,
      read_integer-digits 4 n [] rest (omega arith) lt,
    )
