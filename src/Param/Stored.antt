-- ===== src/Param/Stored.antt =====
-- Proofs about csapex_core/src/param/bitset_parameter.cpp: storing and loading, and which bits a value has.
use csapex.Base.{
  ℕ, ◌≡◌, refl, sym, fun_ext, ◌∙◌, ◌==◌, Bool, true, false, not, ◌&&◌, ◌||◌, List, [], ◌∷◌, Option,
  some, any, elem, Bool-cases, Option-cases, inl, inr, arith,
}
use csapex.Base.Result.{Result, ok, failed}
use csapex.Param.BitSet.{
  Word, BitSet, Entries, word_zero, word_and, word_or, written, find, is_set, set_by_name,
  set_bit_to, adjust, adjust_all, set_bits, clear, do_serialize, full_mask, read_int,
  do_deserialize,
}

-- Every bit of a value belongs to a name.
abbrev pub named : Entries → ℕ → Bool
named set i = any (λ x. x.1 i) set

abbrev pub IsWithin : Entries → Word → Type 0
IsWithin set v = (i : ℕ) → v i ≡ true → named set i ≡ true

full_mask_lem : (es : Entries) (m : Word) (i : ℕ) → full_mask es m i ≡ m i || named es i
unfolding full_mask
full_mask_lem [] m i = ground arith
full_mask_lem ((e, mask) ∷ es) m i = full_mask_lem es (word_or m mask) i ∙ ground arith

loaded-IsWithin : (set : Entries) (v : Word) → IsWithin set (word_and v (full_mask set word_zero))
loaded-IsWithin set v i h = let m = full_mask_lem set word_zero i in ground (arith, h, m)

-- A parameter whose value has only bits of its names is stored and loaded, whatever the parameter held before.
pub do_deserialize-do_serialize :
    (p q : BitSet)
    → IsWithin p.set p.value
    → ((do_deserialize (do_serialize p) q).value ≡ p.value)
      × ((do_deserialize (do_serialize p) q).set ≡ p.set)
unfolding do_deserialize
do_deserialize-do_serialize p q within = (fun_ext (λ i. same i), refl)
  where
    same : (i : ℕ) → p.value i && full_mask p.set word_zero i ≡ p.value i
    same i =
        rw (full_mask_lem p.set word_zero i)
          (elim (Bool-cases (p.value i)) [ inl q ↦ rw (q, within i q) refl | inr q ↦ rw q refl ])

find_named :
    (e : ℕ) (mask : Word) (es : Entries) (i : ℕ)
    → find e es ≡ some mask
    → mask i ≡ true
    → named es i ≡ true
find_named e mask [] i h b = cc h
find_named e mask ((key, m) ∷ es) i h b = elim (Bool-cases (key == e)) [
  | inl q ↦ let same : some m ≡ some mask = rw q at h in rw (here m same) refl
  | inr q ↦ let rest = find_named e mask es i (rw q at h) b in rw rest (ground arith)
]
  where
    here : (m : Word) → some m ≡ some mask → m i ≡ true
    here m s = cc (s, b)

-- What keeps the names, and the value to their bits.
pub record Keeps (p r : BitSet) : Type 0 where
  pub set : r.set ≡ p.set
  pub within : IsWithin p.set p.value → IsWithin p.set r.value

Keeps-trans : (a b c : BitSet) → Keeps a b → Keeps b c → Keeps a c
Keeps-trans a b c K L = record {
  set = L.set ∙ K.set;
  within = λ w i h.
      let w' : IsWithin b.set b.value = rw K.set (K.within w) in rw (sym K.set) (L.within w' i h);
}

written-IsWithin :
    (to : Bool) (e : ℕ) (mask v : Word) (set : Entries)
    → find e set ≡ some mask
    → IsWithin set v
    → IsWithin set (written to mask v)
written-IsWithin true e mask v set f w i h = elim (Bool-cases (v i)) [
  | inl q ↦ w i q
  | inr q ↦ find_named e mask set i f (ground (arith, h, q))
]
written-IsWithin false e mask v set f w i h = w i (ground (arith, h))

set_bit_to-Keeps : (e : ℕ) (to silent : Bool) (p : BitSet) → Keeps p (set_bit_to e to silent p)
unfolding set_bit_to
set_bit_to-Keeps e to silent p = elim (Option-cases (find e p.set)) [
  | inl n ↦ rw (set_bit_to, n) (record { set = refl; within = λ w. w })
  | inr (mask, f) ↦ elim (Bool-cases silent) [
    | inl s ↦
        rw (set_bit_to, f, s)
          (record { set = refl; within = written-IsWithin to e mask p.value p.set f })
    | inr s ↦
        rw (set_bit_to, f, s)
          (record { set = refl; within = written-IsWithin to e mask p.value p.set f })
  ]
]

module _ (width : ℕ) where
  adjust-Keeps :
      (elements : List ℕ) (e : ℕ) (p : BitSet) (change : Bool)
      → Keeps p (adjust width elements e (p, change)).0
  adjust-Keeps elements e p change = elim (Bool-cases (elem e elements)) [
    | inl w ↦ elim (Bool-cases (is_set width e p)) [
      | inl c ↦ rw (w, c) (record { set = refl; within = λ x. x })
      | inr c ↦ rw (w, c) (set_bit_to-Keeps e true true p)
    ]
    | inr w ↦ elim (Bool-cases (is_set width e p)) [
      | inl c ↦ rw (w, c) (set_bit_to-Keeps e false true p)
      | inr c ↦ rw (w, c) (record { set = refl; within = λ x. x })
    ]
  ]

  adjust_all-Keeps :
      (elements : List ℕ) (es : Entries) (p : BitSet) (change : Bool)
      → Keeps p (adjust_all width elements es (p, change)).0
  unfolding adjust_all
  adjust_all-Keeps elements [] p change = record { set = refl; within = λ w. w }
  adjust_all-Keeps elements ((e, mask) ∷ es) p change =
      let r : BitSet × Bool = adjust width elements e (p, change) in
      Keeps-trans p r.0 _ (adjust-Keeps elements e p change) (adjust_all-Keeps elements es r.0 r.1)

  set_bits-Keeps :
      (elements : List ℕ) (silent : Bool) (p : BitSet) → Keeps p (set_bits width elements silent p)
  unfolding set_bits
  set_bits-Keeps elements silent p =
      let s : BitSet × Bool = adjust_all width elements p.set (p, false) in
      let k = adjust_all-Keeps elements p.set p false in
      elim (Bool-cases (s.1 && not silent)) [
        | inl q ↦ rw (set_bits, q) (record { set = k.set; within = k.within })
        | inr q ↦ rw (set_bits, q) k
      ]

  -- The operations that go by names; a name that `setByName` does not know changes nothing.
  pub data Edit : Type 0 where
    by_name : ℕ → Edit
    bit_to : ℕ → Bool → Bool → Edit
    bits : List ℕ → Bool → Edit
    cleared : Edit

  abbrev kept : BitSet → Result BitSet → BitSet
  kept p failed = p
  kept p (ok q) = q

  abbrev pub apply : Edit → BitSet → BitSet
  apply (by_name e) p = kept p (set_by_name e p)
  apply (bit_to e to silent) p = set_bit_to e to silent p
  apply (bits elements silent) p = set_bits width elements silent p
  apply cleared p = clear p

  abbrev pub apply_all : List Edit → BitSet → BitSet
  apply_all [] p = p
  apply_all (e ∷ es) p = apply_all es (apply e p)

  apply-Keeps : (e : Edit) (p : BitSet) → Keeps p (apply e p)
  unfolding set_by_name
  apply-Keeps (by_name e) p = elim (Option-cases (find e p.set)) [
    | inl n ↦ rw (set_by_name, n) (record { set = refl; within = λ w. w })
    | inr (mask, f) ↦
        rw (set_by_name, f) (record { set = refl; within = λ w i h. find_named e mask p.set i f h })
  ]
  apply-Keeps (bit_to e to silent) p = set_bit_to-Keeps e to silent p
  apply-Keeps (bits elements silent) p = set_bits-Keeps elements silent p
  apply-Keeps cleared p = record { set = refl; within = λ w i h. cc h }

  apply_all-Keeps : (es : List Edit) (p : BitSet) → Keeps p (apply_all es p)
  apply_all-Keeps [] p = record { set = refl; within = λ w. w }
  apply_all-Keeps (e ∷ es) p =
      Keeps-trans p (apply e p) _ (apply-Keeps e p) (apply_all-Keeps es (apply e p))

  -- A value that was loaded with a table of names has only bits of these names, and so it stays whatever is set
  -- and cleared by names.
  pub apply_all-IsWithin :
      (int : Option Word) (set : Entries) (q : BitSet) (es : List Edit)
      → IsWithin set
          (apply_all es (do_deserialize (record { int = int; values = some set }) q)).value
  unfolding do_deserialize
  apply_all-IsWithin int set q es =
      let p = do_deserialize (record { int = int; values = some set }) q in
      (apply_all-Keeps es p).within (loaded-IsWithin set (read_int int q).value)
