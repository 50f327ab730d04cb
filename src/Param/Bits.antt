-- ===== src/Param/Bits.antt =====
-- Proofs about csapex_core/src/param/bitset_parameter.cpp: setting and clearing the bits of a mask.
use csapex.Base.{
  ℕ, ◌≡◌, ap, fun_ext, Bool, true, false, ◌&&◌, ◌||◌, all-elem, all-intro, elem, Bool-cases, inl,
  inr, arith,
}
use csapex.Param.BitSet.{Word, below, same_bit, word_eq, covers, written}

-- A mask that is not zero.
pub record HasBit (width : ℕ) (mask : Word) : Type 0 where
  pub bit : ℕ
  pub counts : elem bit (below width) ≡ true
  pub holds : mask bit ≡ true

-- Two masks without a common bit.
abbrev pub AreDisjoint : Word → Word → Type 0
AreDisjoint mask other = (i : ℕ) → mask i && other i ≡ false

pub AreDisjoint-sym : (mask other : Word) → AreDisjoint mask other → AreDisjoint other mask
AreDisjoint-sym mask other d i = let h = d i in ground (arith, h)

set_one : (v m : Bool) → same_bit ((v || m) && m) m ≡ true
set_one v m = ground arith

-- Setting the bits of a mask sets all, clearing them leaves one unset.
pub covers-written :
    (width : ℕ) (to : Bool) (mask v : Word)
    → HasBit width mask
    → covers width mask (written to mask v) ≡ to
covers-written width true mask v h = all-intro _ (below width) λ i m. set_one (v i) (mask i)
covers-written width false mask v h = elim (Bool-cases (covers width mask (written false mask v))) [
  | inr n ↦ n
  | inl y ↦
      let at = all-elem _ (below width) h.bit y h.counts in let b = h.holds in ground (arith, at, b)
]

-- Other bits stay.
pub covers-written_other :
    (width : ℕ) (to : Bool) (mask other v : Word)
    → AreDisjoint mask other
    → covers width other (written to mask v) ≡ covers width other v
covers-written_other width true mask other v d =
    ap (λ u. word_eq width u other) (fun_ext λ i. let h = d i in ground (arith, h))
covers-written_other width false mask other v d =
    ap (λ u. word_eq width u other) (fun_ext λ i. let h = d i in ground (arith, h))
