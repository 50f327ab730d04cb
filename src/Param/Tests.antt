-- ===== src/Param/Tests.antt =====
-- A set of two names for csapex_core/src/param/bitset_parameter.cpp: name 7 has the bits 0 and 1, name 8 bit 2.
use csapex.Base.{
  ℕ, ◌==◌, ◌≡◌, refl, true, false, ◌&&◌, ◌||◌, [], ◌∷◌, some, any, elem, if◌then◌else◌, map, arith,
}
use csapex.Param.BitSet.{
  Word, BitSet, Entries, find, is_set, set_bits, set_bit_to, adjust_all, do_deserialize,
}
use csapex.Param.Flags.{IsTable, is_wrong, set_bits-is_set}
use csapex.Param.Stored.{IsWithin, by_name, bits, apply_all, apply_all-IsWithin}

abbrev low : Word
low i = i == 0 || i == 1

abbrev high : Word
high i = i == 2

abbrev names : Entries
names = (7, low) ∷ (8, high) ∷ []

names-IsTable : IsTable 32 names
names-IsTable = record {
  found = (refl, (refl, tt));
  separate = ((λ i. ground arith, tt), (tt, tt));
  masks = (
    record { bit = 0; counts = refl; holds = refl },
    (record { bit = 2; counts = refl; holds = refl }, tt),
  );
}

-- Bit 0 and bit 2 are set, so that name 8 is, and name 7 is not.
abbrev flags : BitSet
flags = record { value = λ i. i == 0 || i == 2; set = names; changes = 0; scope_changes = 0 }

set_bits-is_set_example :
    ((e : ℕ) (mask : Word)
      → find e names ≡ some mask
      → is_set 32 e (set_bits 32 (7 ∷ []) false flags) ≡ elem e (7 ∷ []))
    × ((set_bits 32 (7 ∷ []) false flags).set ≡ names)
    × ((set_bits 32 (7 ∷ []) false flags).changes
        ≡ (if any (is_wrong 32 (7 ∷ []) flags.value) names && true then 1 else 0))
set_bits-is_set_example = set_bits-is_set 32 (7 ∷ []) false flags names-IsTable

-- Bit 1 is added to name 7's, and bit 2 is cleared.
set_bits-result :
    map (set_bits 32 (7 ∷ []) false flags).value (0 ∷ 1 ∷ 2 ∷ 3 ∷ [])
    ≡ true ∷ true ∷ false ∷ false ∷ []
unfolding set_bits adjust_all is_set set_bit_to
set_bits-result = refl

apply_all-IsWithin_example :
    IsWithin names
      (apply_all 32
        (by_name 7 ∷ bits (8 ∷ []) true ∷ [])
        (do_deserialize (record { int = some (λ i. true); values = some names }) flags)).value
apply_all-IsWithin_example =
    apply_all-IsWithin 32 (some (λ i. true)) names flags (by_name 7 ∷ bits (8 ∷ []) true ∷ [])
