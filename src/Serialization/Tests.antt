-- ===== src/Serialization/Tests.antt =====
-- Small buffers for csapex_core/src/serialization.
use csapex.Base.{ℕ, ◌<◌, ◌≡◌, refl, List, [], ◌∷◌, ◌++◌, length, arith}
use csapex.Base.Result.{ok, failed}
use csapex.Serialization.{
  Buffer, at_, append, push_back, write_bytes, write_integer, read_byte, shift_part, cast_integer,
  read_bytes, read_integer, write_string, read_string,
}
use csapex.Serialization.Integers.{read_integer-wide}
use csapex.Serialization.Codec.{integer, string, vector}
use csapex.Serialization.Containers.{string-Faithful}
use csapex.Serialization.RoundTrip.{
  ReadsBack, integer-ReadsBack, string-ReadsBack, vector-ReadsBack, read_string-empty, buffer,
}

abbrev ab : List ℕ
ab = 97 ∷ 98 ∷ []

-- The number 258 on four bytes
four_bytes : write_integer 4 258 (at_ (9 ∷ []) []) ≡ buffer (9 ∷ 2 ∷ 1 ∷ 0 ∷ 0 ∷ []) 1
unfolding write_integer write_bytes push_back
four_bytes = refl

four_bytes-read :
    read_integer 4 (buffer (9 ∷ 2 ∷ 1 ∷ 0 ∷ 0 ∷ []) 1) ≡ ok (258, buffer (9 ∷ 2 ∷ 1 ∷ 0 ∷ 0 ∷ []) 5)
unfolding read_integer read_bytes read_byte shift_part cast_integer
four_bytes-read = refl

integer-ReadsBack_example : ReadsBack (integer 4) 70000 (9 ∷ []) (8 ∷ [])
integer-ReadsBack_example = integer-ReadsBack 4 70000 (9 ∷ []) (8 ∷ []) (omega arith) (omega arith)

string-ReadsBack_example : ReadsBack string ab (9 ∷ []) (8 ∷ [])
string-ReadsBack_example = string-ReadsBack ab (9 ∷ []) (8 ∷ []) (omega arith)

vector-ReadsBack_example : ReadsBack (vector string) (ab ∷ [] ∷ ab ∷ []) (9 ∷ []) (8 ∷ [])
vector-ReadsBack_example =
    vector-ReadsBack string (λ t. length t < 65535) (ab ∷ [] ∷ ab ∷ []) (9 ∷ []) (8 ∷ [])
      string-Faithful (omega arith) (omega arith, (omega arith, (omega arith, tt)))

read_string-empty_example :
    (s : Buffer) × (write_string [] (at_ (9 ∷ []) []) ≡ ok s)
    × (read_string ab (append [] s)
        ≡ ok (ab, record { bytes = s.bytes ++ []; pos = length s.bytes }))
read_string-empty_example = read_string-empty ab (9 ∷ []) []

read_integer-wide_example : read_integer 8 (buffer (1 ∷ 0 ∷ 0 ∷ 0 ∷ 0 ∷ 0 ∷ 0 ∷ 0 ∷ []) 0) ≡ failed
read_integer-wide_example =
    read_integer-wide 8 (buffer (1 ∷ 0 ∷ 0 ∷ 0 ∷ 0 ∷ 0 ∷ 0 ∷ 0 ∷ []) 0) (omega arith)
