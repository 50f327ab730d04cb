-- ===== src/Serialization/Codec.antt =====
-- csapex_core/include/csapex/serialization/io/std_io.h: how strings, vectors and pairs are written,
-- given how their elements are. The interface `Codec` is what a type offers: its two operators and
-- the value of a new target, since reading may leave a target as it was.
use csapex.Base.{ℕ, zero, suc, List, [], ◌∷◌, ◌++◌, ltb, length, ◌≡◌}
use csapex.Base.Result.{Result, ok, ◌>>=◌, ◌>>◌, assert}
use csapex.Serialization.{
  Buffer, at_, append, write_integer, read_integer, write_string, read_string,
}

pub record Codec {ℓ} (A : Type ℓ) : Type ℓ where
  pub fresh : A
  pub write : A → Buffer → Result Buffer
  pub read : A → Buffer → Result (A × Buffer)

-- What a codec promises: a value that it can write is read back into a new target, and the read
-- stops behind it.
pub record Faithful {ℓ} {A : Type ℓ} (C : Codec A) (IsValid : A → Type 0) : Type ℓ where
  pub encode : A → List ℕ
  pub writes : (a : A) (s : Buffer) → IsValid a → C.write a s ≡ ok (append (encode a) s)
  pub reads :
      (a : A) (before after : List ℕ)
      → IsValid a
      → C.read C.fresh (at_ before (encode a ++ after)) ≡ ok (a, at_ (before ++ encode a) after)

abbrev pub integer : ℕ → Codec ℕ
integer n = record {
  fresh = 0;
  write = λ i s. ok (write_integer n i s);
  read = λ i s. read_integer n s;
}

abbrev pub string : Codec (List ℕ)
string = record { fresh = []; write = write_string; read = read_string }

unfoldable pub write_pair {ℓ κ} :
    {A : Type ℓ} {B : Type κ} → Codec A → Codec B → A × B → Buffer → Result Buffer
write_pair C D p s = do s1 ← C.write p.0 s; D.write p.1 s1

unfoldable pub read_pair {ℓ κ} :
    {A : Type ℓ} {B : Type κ} → Codec A → Codec B → A × B → Buffer → Result ((A × B) × Buffer)
read_pair C D p s = do r ← C.read p.0 s; q ← D.read p.1 r.1; ok ((r.0, q.0), q.1)

abbrev pub pair {ℓ κ} : {A : Type ℓ} {B : Type κ} → Codec A → Codec B → Codec (A × B)
pair C D = record { fresh = (C.fresh, D.fresh); write = write_pair C D; read = read_pair C D }

unfoldable pub write_all {ℓ} : {A : Type ℓ} → Codec A → List A → Buffer → Result Buffer
write_all C [] s = ok s
write_all C (x ∷ xs) s = do s1 ← C.write x s; write_all C xs s1

unfoldable pub write_vector {ℓ} : {A : Type ℓ} → Codec A → List A → Buffer → Result Buffer
write_vector C xs s = do
  assert (ltb (length xs) 255)
  write_all C xs (write_integer 1 (length xs) s)

-- The loop that reads `n` more elements behind those of `xs`, each into a new one.
unfoldable pub read_all {ℓ} :
    {A : Type ℓ} → Codec A → ℕ → List A → Buffer → Result (List A × Buffer)
read_all C zero xs s = ok (xs, s)
read_all C (suc n) xs s = do r ← C.read C.fresh s; read_all C n (xs ++ r.0 ∷ []) r.1

-- The target is cleared before.
unfoldable pub read_vector {ℓ} : {A : Type ℓ} → Codec A → List A → Buffer → Result (List A × Buffer)
read_vector C xs s = do r ← read_integer 1 s; read_all C r.0 [] r.1

abbrev pub vector {ℓ} : {A : Type ℓ} → Codec A → Codec (List A)
vector C = record { fresh = []; write = write_vector C; read = read_vector C }
