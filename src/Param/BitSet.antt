-- ===== src/Param/BitSet.antt =====
-- csapex_core/src/param/bitset_parameter.cpp: `BitSetParameter`, an `int` whose bits have names. The value is the
-- function of its bits, of which as many count as an `int` has; `set_` lists the entries of the map in its order.
use csapex.Base.{
  ℕ, zero, suc, ◌==◌, Bool, true, false, not, ◌&&◌, ◌||◌, List, [], ◌∷◌, Option, none, some, all,
  elem, if◌then◌else◌,
}
use csapex.Base.Result.{Result, ok, failed}

abbrev pub Word : Type 0
Word = ℕ → Bool

-- The bits of an `int`
abbrev pub below : ℕ → List ℕ
below zero = []
below (suc w) = w ∷ below w

abbrev pub same_bit : Bool → Bool → Bool
same_bit true b = b
same_bit false b = not b

abbrev pub word_eq : ℕ → Word → Word → Bool
word_eq width v u = all (λ i. same_bit (v i) (u i)) (below width)

abbrev pub word_and : Word → Word → Word
word_and v u i = v i && u i

abbrev pub word_or : Word → Word → Word
word_or v u i = v i || u i

abbrev pub word_not : Word → Word
word_not v i = not (v i)

abbrev pub word_zero : Word
word_zero i = false

abbrev pub Entries : Type 0
Entries = List (ℕ × Word)

-- A parameter, and how often it reported a change of its value and of its scope.
pub record BitSet : Type 0 where
  pub value : Word
  pub set : Entries
  pub changes : ℕ
  pub scope_changes : ℕ

abbrev pub trigger_change : BitSet → BitSet
trigger_change p = record p { changes = suc p.changes }

-- The loops over the map that stop at a name
abbrev pub find : ℕ → Entries → Option Word
find name [] = none
find name ((key, mask) ∷ es) = if key == name then some mask else find name es

-- `setByName`: `failed` where it throws.
unfoldable pub set_by_name : ℕ → BitSet → Result BitSet
set_by_name name p = elim (find name p.set) [
  | none ↦ failed
  | some mask ↦ ok (trigger_change (record p { value = mask }))
]

abbrev pub set_bit_set : Entries → BitSet → BitSet
set_bit_set set p = record p { set = set; scope_changes = suc p.scope_changes }

abbrev pub clear : BitSet → BitSet
clear p = trigger_change (record p { value = word_zero })

abbrev pub written : Bool → Word → Word → Word
written true mask v = word_or v mask
written false mask v = word_and v (word_not mask)

unfoldable pub set_bit_to : ℕ → Bool → Bool → BitSet → BitSet
set_bit_to element to silent p = elim (find element p.set) [
  | none ↦ p
  | some mask ↦
      let q : BitSet = record p { value = written to mask p.value } in
      if silent then q else trigger_change q
]

abbrev pub set_bit : ℕ → Bool → BitSet → BitSet
set_bit element silent p = set_bit_to element true silent p

abbrev pub clear_bit : ℕ → Bool → BitSet → BitSet
clear_bit element silent p = set_bit_to element false silent p

abbrev pub covers : ℕ → Word → Word → Bool
covers width mask v = word_eq width (word_and v mask) mask

unfoldable pub is_set : ℕ → ℕ → BitSet → Bool
is_set width element p = elim (find element p.set) [
  | none ↦ false
  | some mask ↦ covers width mask p.value
]

-- What `setBits` does for one entry: the parameter, and `change`.
abbrev pub adjust : ℕ → List ℕ → ℕ → BitSet × Bool → BitSet × Bool
adjust width elements e (p, change) =
    if elem e elements
    then (if is_set width e p then (p, change) else (set_bit e true p, true))
    else (if is_set width e p then (clear_bit e true p, true) else (p, change))

-- The loop of `setBits`
unfoldable pub adjust_all : ℕ → List ℕ → Entries → BitSet × Bool → BitSet × Bool
adjust_all width elements [] s = s
adjust_all width elements ((e, mask) ∷ es) s =
    adjust_all width elements es (adjust width elements e s)

unfoldable pub set_bits : ℕ → List ℕ → Bool → BitSet → BitSet
set_bits width elements silent p =
    let s = adjust_all width elements p.set (p, false) in
    if s.1 && not silent then trigger_change s.0 else s.0

-- What `set_unsafe` is given: an `int`, a name with a flag, or a value of another type.
pub data Any : Type 0 where
  int_value : Word → Any
  pair_value : ℕ → Bool → Any
  other_value : Any

-- `set_unsafe`, with whether the value changed
unfoldable pub set_unsafe : ℕ → Any → BitSet → BitSet × Bool
set_unsafe width (int_value v) p =
    if word_eq width v p.value then (p, false) else (record p { value = v }, true)
set_unsafe width (pair_value element to) p = (set_bit_to element to false p, true)
set_unsafe width other_value p = (p, false)

-- `cloneDataFrom` of another parameter of this type
unfoldable pub clone_data_from : ℕ → BitSet → BitSet → BitSet
clone_data_from width other p =
    let q : BitSet = record p { value = other.value; set = other.set } in
    if word_eq width p.value other.value then q else trigger_change q

-- What is stored: the fields "int" and "values".
pub record Node : Type 0 where
  pub int : Option Word
  pub values : Option Entries

abbrev pub do_serialize : BitSet → Node
do_serialize p = record { int = some p.value; values = some p.set }

unfoldable pub full_mask : Entries → Word → Word
full_mask [] mask = mask
full_mask ((e, m) ∷ es) mask = full_mask es (word_or mask m)

abbrev pub read_int : Option Word → BitSet → BitSet
read_int none p = p
read_int (some v) p = record p { value = v }

unfoldable pub do_deserialize : Node → BitSet → BitSet
do_deserialize n p =
    let q = read_int n.int p in
    elim n.values [
      | none ↦ q
      | some set ↦ record q { set = set; value = word_and q.value (full_mask set word_zero) }
    ]
