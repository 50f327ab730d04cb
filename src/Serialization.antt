-- ===== src/Serialization.antt =====
-- csapex_core/include/csapex/serialization/serialization_buffer.h, src/serialization/
-- serialization_buffer.cpp and src/serialization/io/std_io.cpp with its header: values as bytes. A
-- byte is a number below 256; an integer of `n` bytes is its bit pattern, a number below `2 ^ (n * 8)`.
pub mod Words
pub mod Integers
pub mod Codec
pub mod Containers
pub mod RoundTrip
mod Tests
use csapex.Base.{
  ℕ, zero, suc, ◌+◌, ◌*◌, ◌/◌, ◌%◌, ◌^◌, ◌-◌, ◌≡◌, Bool, List, [], ◌∷◌, ◌++◌, ltb, leb,
  if◌then◌else◌, length, take, drop,
}
use csapex.Base.Result.{Result, ok, failed, ◌>>=◌, ◌>>◌, assert}
use Prim.Native.Nat.{bit_or}

pub record Buffer : Type 0 where
  pub bytes : List ℕ
  pub pos : ℕ

-- A buffer of which `before` is read, and `rest` is not.
abbrev pub at_ : List ℕ → List ℕ → Buffer
at_ before rest = record { bytes = before ++ rest; pos = length before }

abbrev pub append : List ℕ → Buffer → Buffer
append bs s = record s { bytes = s.bytes ++ bs }

abbrev pub header_length : ℕ
header_length = 4

unfoldable pub push_back : ℕ → Buffer → Buffer
push_back b s = record s { bytes = s.bytes ++ b ∷ [] }

-- The loop of `operator<<` for integers: `m` bytes to go, from byte `byte` on.
unfoldable pub write_bytes : ℕ → ℕ → ℕ → Buffer → Buffer
write_bytes zero byte i s = s
write_bytes (suc m) byte i s = write_bytes m (suc byte) i (push_back (i / 2 ^ (byte * 8) % 256) s)

unfoldable pub write_integer : ℕ → ℕ → Buffer → Buffer
write_integer n i s = write_bytes n 0 i s

abbrev pub first : List ℕ → Result ℕ
first [] = failed
first (b ∷ bs) = ok b

-- `at(pos++)`, which throws out of range
unfoldable pub read_byte : Buffer → Result (ℕ × Buffer)
read_byte s = do b ← first (drop s.pos s.bytes); ok (b, record s { pos = suc s.pos })

-- `part << k`: a byte is promoted to an `int` of 32 bits, for which C++ does not define a shift by its
-- width or more; such a run counts as failed.
unfoldable pub shift_part : ℕ → ℕ → Result ℕ
shift_part part k = do assert (ltb k 32); ok (part * 2 ^ k % 2 ^ 32)

-- `static_cast<T>` of an `int` for an integer of `n` bytes: a wider type extends the sign.
unfoldable pub cast_integer : ℕ → ℕ → ℕ
cast_integer n raw =
    if leb n 4
    then raw % 2 ^ (n * 8)
    else if ltb raw (2 ^ 31)
    then raw
    else raw + (2 ^ (n * 8) - 2 ^ 32)

-- The loop of `operator>>` for integers
unfoldable pub read_bytes : ℕ → ℕ → ℕ → ℕ → Buffer → Result (ℕ × Buffer)
read_bytes n zero byte res s = ok (res, s)
read_bytes n (suc m) byte res s = do
  r ← read_byte s
  raw ← shift_part r.0 (byte * 8)
  read_bytes n m (suc byte) (bit_or res (cast_integer n raw)) r.1

unfoldable pub read_integer : ℕ → Buffer → Result (ℕ × Buffer)
read_integer n s = read_bytes n n 0 0 s

-- `writeRaw`
unfoldable pub write_raw : List ℕ → Buffer → Buffer
write_raw data_ s = record s { bytes = s.bytes ++ data_ }

-- `readRaw`: `at(pos)` throws out of range, and what is read past the end is not defined.
unfoldable pub read_raw : ℕ → Buffer → Result (List ℕ × Buffer)
read_raw n s = do
  assert (ltb s.pos (length s.bytes))
  assert (leb (s.pos + n) (length s.bytes))
  ok (take n (drop s.pos s.bytes), record s { pos = s.pos + n })

unfoldable pub write_string : List ℕ → Buffer → Result Buffer
write_string t s = do assert (ltb (length t) 65535); ok (write_raw t (write_integer 2 (length t) s))

-- `operator>>` for strings: `t` is what the target holds before.
unfoldable pub read_string : List ℕ → Buffer → Result (List ℕ × Buffer)
read_string t s = do r ← read_integer 2 s; if ltb 0 r.0 then read_raw r.0 r.1 else ok (t, r.1)

-- The loop of `finalize`
unfoldable pub put_byte : ℕ → ℕ → List ℕ → List ℕ
put_byte k b [] = []
put_byte zero b (c ∷ bs) = b ∷ bs
put_byte (suc k) b (c ∷ bs) = c ∷ put_byte k b bs

unfoldable pub write_header : ℕ → ℕ → ℕ → List ℕ → List ℕ
write_header zero byte n bs = bs
write_header (suc m) byte n bs =
    write_header m (suc byte) n (put_byte byte (n / 2 ^ (byte * 8) % 256) bs)

-- `finalize`: `at` throws where the buffer is shorter than its header. The length is a `uint32_t`.
unfoldable pub finalize : Buffer → Result Buffer
finalize s = do
  assert (leb 4 (length s.bytes))
  ok (record s { bytes = write_header 4 0 (length s.bytes % 2 ^ 32) s.bytes })
