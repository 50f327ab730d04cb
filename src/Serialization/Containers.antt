-- ===== src/Serialization/Containers.antt =====
-- Proofs about csapex_core/src/serialization/io/std_io.cpp and its header: the codecs of integers,
-- strings, pairs and vectors are faithful where those of their parts are.
use csapex.Base.{
  ℕ, suc, ◌+◌, ◌*◌, ◌^◌, ◌≤◌, ◌<◌, ◌≡◌, sym, ap, ◌∙◌, true, List, [], ◌∷◌, ◌++◌, ltb, leb,
  if◌then◌else◌, length, length-append, drop-append, take-append, All, arith,
}
use csapex.Base.Result.{ok}
use mathlib.Core.List.{append_assoc, append-nil}
use csapex.Serialization.{Buffer, at_, append, write_raw, read_raw, write_string, read_string}
use csapex.Serialization.Integers.{digits_of, write_integer-append, read_integer-digits}
use csapex.Serialization.Codec.{
  Codec, Faithful, integer, string, pair, write_pair, read_pair, vector, write_all, write_vector,
  read_all, read_vector,
}

-- Integers of at most four bytes
pub integer-Faithful : (n : ℕ) → n ≤ 4 → Faithful (integer n) (λ i. i < 2 ^ (n * 8))
integer-Faithful n le = record {
  encode = digits_of n;
  writes = λ i s h. ap ok (write_integer-append n i s);
  reads = λ i before after h. read_integer-digits n i before after le h;
}

read_raw-at :
    (t before after : List ℕ)
    → 0 < length t
    → read_raw (length t) (at_ before (t ++ after)) ≡ ok (t, at_ (before ++ t) after)
unfolding read_raw
read_raw-at t before after h =
    let size = length-append before (t ++ after) in
    let rest = length-append t after in
    let inside : ltb (length before) (length (before ++ (t ++ after))) ≡ true = ground arith in
    let covered : leb (length before + length t) (length (before ++ (t ++ after))) ≡ true =
      ground arith in
    rw (inside, covered, drop-append before (t ++ after), take-append t after)
      λ j. ok (
        t,
        record {
          bytes = sym (append_assoc before t after) j;
          pos = sym (length-append before t) j;
        },
      )

-- What `read_string` does behind the length.
read_text :
    (t before d after : List ℕ)
    → (if ltb 0 (length t)
        then read_raw (length t) (at_ (before ++ d) (t ++ after))
        else ok ([], at_ (before ++ d) (t ++ after)))
      ≡ ok (t, at_ (before ++ (d ++ t)) after)
read_text [] before d after = ap (λ e. ok ([], at_ (before ++ e) after)) (sym (append-nil d))
read_text (c ∷ t) before d after =
    let some_left : ltb 0 (suc (length t)) ≡ true = ground arith in
    rw some_left (
      read_raw-at (c ∷ t) (before ++ d) after (omega arith)
      ∙ ap (λ e. ok (c ∷ t, at_ e after)) (append_assoc before d (c ∷ t)))

read_string-at :
    (t before after : List ℕ)
    → length t < 65535
    → read_string [] (at_ before (digits_of 2 (length t) ++ t ++ after))
      ≡ ok (t, at_ (before ++ (digits_of 2 (length t) ++ t)) after)
unfolding read_string
read_string-at t before after h =
    let d = digits_of 2 (length t) in
    ap (λ bs. read_string [] (at_ before bs)) (append_assoc d t after)
    ∙ rw (read_integer-digits 2 (length t) before (t ++ after) (omega arith) (omega (arith, h)))
        (read_text t before d after)

pub write_string-append :
    (t : List ℕ) (s : Buffer)
    → length t < 65535
    → write_string t s ≡ ok (append (digits_of 2 (length t) ++ t) s)
unfolding write_string write_raw
write_string-append t s h =
    let small : ltb (length t) 65535 ≡ true = ground arith in
    rw (small, write_integer-append 2 (length t) s)
      λ j. ok record { bytes = append_assoc s.bytes (digits_of 2 (length t)) t j; pos = s.pos }

pub string-Faithful : Faithful string (λ t. length t < 65535)
string-Faithful = record {
  encode = λ t. digits_of 2 (length t) ++ t;
  writes = write_string-append;
  reads = read_string-at;
}

append-append : (a b : List ℕ) (s : Buffer) → append b (append a s) ≡ append (a ++ b) s
append-append a b s = λ j. record s { bytes = append_assoc s.bytes a b j }

module _ {ℓ κ} {A : Type ℓ} {B : Type κ} (C : Codec A) (D : Codec B) where
  -- A pair of values whose codecs are faithful
  pub pair-Faithful :
      {V : A → Type 0} {W : B → Type 0}
      → Faithful C V
      → Faithful D W
      → Faithful (pair C D) (λ p. V p.0 × W p.1)
  unfolding write_pair read_pair
  pair-Faithful F G = record {
    encode = λ p. F.encode p.0 ++ G.encode p.1;
    writes = λ p s h.
        rw (F.writes p.0 s h.0, G.writes p.1 (append (F.encode p.0) s) h.1)
          (ap ok (append-append (F.encode p.0) (G.encode p.1) s));
    reads = λ p before after h.
        let x = F.encode p.0 in
        let y = G.encode p.1 in
        ap (λ bs. read_pair C D (C.fresh, D.fresh) (at_ before bs)) (append_assoc x y after)
        ∙ rw (F.reads p.0 before (y ++ after) h.0, G.reads p.1 (before ++ x) after h.1)
            (ap (λ e. ok (p, at_ e after)) (append_assoc before x y));
  }

-- The bytes of all elements
abbrev pub encode_all {ℓ} : {A : Type ℓ} → (A → List ℕ) → List A → List ℕ
encode_all f [] = []
encode_all f (x ∷ xs) = f x ++ encode_all f xs

module _ {ℓ} {A : Type ℓ} (C : Codec A) {V : A → Type 0} (F : Faithful C V) where
  write_all-append :
      (xs : List A) (s : Buffer)
      → All V xs
      → write_all C xs s ≡ ok (append (encode_all F.encode xs) s)
  unfolding write_all
  write_all-append [] s h = λ j. ok record { bytes = sym (append-nil s.bytes) j; pos = s.pos }
  write_all-append (x ∷ xs) s h =
      rw (F.writes x s h.0, write_all-append xs (append (F.encode x) s) h.1)
        (ap ok (append-append (F.encode x) (encode_all F.encode xs) s))

  read_all-at :
      (xs done : List A) (before after : List ℕ)
      → All V xs
      → read_all C (length xs) done (at_ before (encode_all F.encode xs ++ after))
        ≡ ok (done ++ xs, at_ (before ++ encode_all F.encode xs) after)
  unfolding read_all
  read_all-at [] done before after h =
      λ j. ok (sym (append-nil done) j, at_ (sym (append-nil before) j) after)
  read_all-at (x ∷ xs) done before after h =
      let y = F.encode x in
      let ys = encode_all F.encode xs in
      ap (λ bs. read_all C (suc (length xs)) done (at_ before bs)) (append_assoc y ys after)
      ∙ rw
          (
            F.reads x before (ys ++ after) h.0,
            read_all-at xs (done ++ x ∷ []) (before ++ y) after h.1,
          )
          λ j. ok (append_assoc done (x ∷ []) xs j, at_ (append_assoc before y ys j) after)

  -- A vector of fewer than 255 elements whose codec is faithful
  pub vector-Faithful : Faithful (vector C) (λ xs. (length xs < 255) × All V xs)
  unfolding write_vector read_vector
  vector-Faithful = record {
    encode = λ xs. digits_of 1 (length xs) ++ encode_all F.encode xs;
    writes = λ xs s h.
        let d = digits_of 1 (length xs) in
        let small : ltb (length xs) 255 ≡ true = ground arith in
        rw (small, write_integer-append 1 (length xs) s, write_all-append xs (append d s) h.1)
          (ap ok (append-append d (encode_all F.encode xs) s));
    reads = λ xs before after h.
        let d = digits_of 1 (length xs) in
        let ys = encode_all F.encode xs in
        ap (λ bs. read_vector C [] (at_ before bs)) (append_assoc d ys after)
        ∙ rw
            (
              read_integer-digits 1 (length xs) before (ys ++ after) (omega arith)
                  (omega (arith, h.0)),
              read_all-at xs [] (before ++ d) after h.1,
            )
            (ap (λ e. ok (xs, at_ e after)) (append_assoc before d ys));
  }

-- What is written behind a buffer is read back from there into a new target: for every codec that is
-- faithful, whatever else the buffer holds before and after.
pub read-write :
    {A : Type 0} (C : Codec A) (V : A → Type 0) (a : A) (before after : List ℕ)
    → Faithful C V
    → V a
    → (s : Buffer) × (C.write a (at_ before []) ≡ ok s)
      × (C.read C.fresh (append after s)
          ≡ ok (a, record { bytes = s.bytes ++ after; pos = length s.bytes }))
read-write C V a before after F h =
    let e = F.encode a in
    (
      record { bytes = before ++ e; pos = length before },
      F.writes a (at_ before []) h
          ∙ ap (λ bs. ok record { bytes = bs ++ e; pos = length before }) (append-nil before),
      ap (λ bs. C.read C.fresh (record { bytes = bs; pos = length before }))
            (append_assoc before e after)
          ∙ F.reads a before after h,
    )
