-- ===== src/Param/Flags.antt =====
-- Proofs about csapex_core/src/param/bitset_parameter.cpp, `setBits`: which names are set afterwards, and when a
-- change is reported.
use csapex.Base.{
  ℕ, suc, ◌≡◌, refl, sym, ap, ◌∙◌, ◌==◌, ==_iff, Bool, true, false, not, ◌&&◌, ◌||◌, List, [], ◌∷◌,
  some, All, any, elem, Bool-cases, inl, inr, if◌then◌else◌, arith,
}
use csapex.Param.BitSet.{
  Word, BitSet, Entries, same_bit, covers, find, is_set, set_bit_to, adjust, adjust_all, set_bits,
  trigger_change,
}
use csapex.Param.Bits.{HasBit, AreDisjoint, AreDisjoint-sym, covers-written, covers-written_other}

abbrev pub AreSeparate : Entries → Type 0
AreSeparate [] = Unit
AreSeparate ((e, mask) ∷ es) = All (λ x. AreDisjoint mask x.1) es × AreSeparate es

-- A table of names: no name is listed twice, no bit belongs to two names, and no mask is zero.
pub record IsTable (width : ℕ) (set : Entries) : Type 0 where
  pub found : All (λ x. find x.0 set ≡ some x.1) set
  pub separate : AreSeparate set
  pub masks : All (λ x. HasBit width x.1) set

-- What holds of all entries holds of the one that is found.
pub All-find :
    (P : ℕ × Word → Type 0) (e : ℕ) (mask : Word) (es : Entries)
    → All P es
    → find e es ≡ some mask
    → P (e, mask)
All-find P e mask [] a h = cc h
All-find P e mask ((key, m) ∷ es) a h = elim (Bool-cases (key == e)) [
  | inr q ↦ All-find P e mask es a.1 (rw q at h)
  | inl q ↦
      let same : some m ≡ some mask = rw q at h in
      rw (sym ((==_iff key e).0 q), sym (found m mask same)) a.0
]
  where
    found : (m mask : Word) → some m ≡ some mask → m ≡ mask
    found m mask h = cc h

module _ (width : ℕ) (elements : List ℕ) where
  pub is_set_found :
      (e : ℕ) (mask : Word) (p : BitSet)
      → find e p.set ≡ some mask
      → is_set width e p ≡ covers width mask p.value
  unfolding is_set
  is_set_found e mask p h = rw (is_set, h) refl

  -- Whether an entry is not as it is wanted
  abbrev pub is_wrong : Word → ℕ × Word → Bool
  is_wrong v x = not (same_bit (covers width x.1 v) (elem x.0 elements))

  -- What `setBits` does for one entry, and for some.
  pub record Adjusted (es : Entries) (p : BitSet) (change : Bool) (r : BitSet × Bool) : Type 0 where
    pub set : r.0.set ≡ p.set
    pub changes : r.0.changes ≡ p.changes
    pub right : All (λ x. covers width x.1 r.0.value ≡ elem x.0 elements) es
    pub others :
        (mask : Word)
        → All (λ x. AreDisjoint x.1 mask) es
        → covers width mask r.0.value ≡ covers width mask p.value
    pub changed : r.1 ≡ change || any (is_wrong p.value) es

  adjust-Adjusted :
      (e : ℕ) (mask : Word) (p : BitSet) (change : Bool)
      → find e p.set ≡ some mask
      → HasBit width mask
      → Adjusted ((e, mask) ∷ []) p change (adjust width elements e (p, change))
  unfolding set_bit_to
  adjust-Adjusted e mask p change h b =
      let seen = is_set_found e mask p h in
      elim (Bool-cases (elem e elements)) [
        | inl w ↦ elim (Bool-cases (covers width mask p.value)) [
          | inl c ↦
              rw (w, seen, c)
                (record {
                  set = refl;
                  changes = refl;
                  right = (c ∙ sym w, tt);
                  others = λ o d. refl;
                  changed = rw (c, w) (ground arith);
                })
          | inr c ↦
              rw (w, seen, c, set_bit_to, h)
                (record {
                  set = refl;
                  changes = refl;
                  right = (covers-written width true mask p.value b ∙ sym w, tt);
                  others = λ o d. covers-written_other width true mask o p.value d.0;
                  changed = rw (c, w) (ground arith);
                })
        ]
        | inr w ↦ elim (Bool-cases (covers width mask p.value)) [
          | inr c ↦
              rw (w, seen, c)
                (record {
                  set = refl;
                  changes = refl;
                  right = (c ∙ sym w, tt);
                  others = λ o d. refl;
                  changed = rw (c, w) (ground arith);
                })
          | inl c ↦
              rw (w, seen, c, set_bit_to, h)
                (record {
                  set = refl;
                  changes = refl;
                  right = (covers-written width false mask p.value b ∙ sym w, tt);
                  others = λ o d. covers-written_other width false mask o p.value d.0;
                  changed = rw (c, w) (ground arith);
                })
        ]
      ]

  -- Bits of other names do not matter.
  wrong_same :
      (v u : Word) (es : Entries)
      → All (λ x. covers width x.1 v ≡ covers width x.1 u) es
      → any (is_wrong v) es ≡ any (is_wrong u) es
  wrong_same v u [] a = refl
  wrong_same v u (x ∷ es) a = rw (a.0, wrong_same v u es a.1) refl

  apart_from :
      (mask : Word) (es : Entries) (p : BitSet) (r : BitSet)
      → ((o : Word) → AreDisjoint mask o → covers width o r.value ≡ covers width o p.value)
      → All (λ x. AreDisjoint mask x.1) es
      → All (λ x. covers width x.1 r.value ≡ covers width x.1 p.value) es
  apart_from mask [] p r same a = tt
  apart_from mask (x ∷ es) p r same a = (same x.1 a.0, apart_from mask es p r same a.1)

  towards :
      (mask : Word) (es : Entries)
      → All (λ x. AreDisjoint mask x.1) es
      → All (λ x. AreDisjoint x.1 mask) es
  towards mask [] a = tt
  towards mask (x ∷ es) a = (AreDisjoint-sym mask x.1 a.0, towards mask es a.1)

  adjust_all-Adjusted :
      (es : Entries) (p : BitSet) (change : Bool)
      → All (λ x. find x.0 p.set ≡ some x.1) es
      → AreSeparate es
      → All (λ x. HasBit width x.1) es
      → Adjusted es p change (adjust_all width elements es (p, change))
  unfolding adjust_all
  adjust_all-Adjusted [] p change f s b = record {
    set = refl;
    changes = refl;
    right = tt;
    others = λ o d. refl;
    changed = ground arith;
  }
  adjust_all-Adjusted ((e, mask) ∷ es) p change f s b =
      let r : BitSet × Bool = adjust width elements e (p, change) in
      let one = adjust-Adjusted e mask p change f.0 b.0 in
      let rest = adjust_all-Adjusted es r.0 r.1 (rw one.set f.1) s.1 b.1 in
      let same = apart_from mask es p r.0 (λ o d. one.others o (d, tt)) s.0 in
      record {
        set = rest.set ∙ one.set;
        changes = rest.changes ∙ one.changes;
        right = (rest.others mask (towards mask es s.0) ∙ one.right.0, rest.right);
        others = λ o d. rest.others o d.1 ∙ one.others o (d.0, tt);
        changed =
            rest.changed ∙ rw (one.changed, wrong_same r.0.value p.value es same) (ground arith);
      }

  -- In a table of names, `setBits` sets exactly the names that it is given, and keeps the table; it reports a
  -- change once if some name was not as it is wanted, unless it is silent, and none otherwise.
  pub set_bits-is_set :
      (silent : Bool) (p : BitSet)
      → IsTable width p.set
      → ((e : ℕ) (mask : Word)
          → find e p.set ≡ some mask
          → is_set width e (set_bits width elements silent p) ≡ elem e elements)
        × ((set_bits width elements silent p).set ≡ p.set)
        × ((set_bits width elements silent p).changes
            ≡ (if any (is_wrong p.value) p.set && not silent then suc p.changes else p.changes))
  unfolding set_bits
  set_bits-is_set silent p T =
      let s : BitSet × Bool = adjust_all width elements p.set (p, false) in
      let a = adjust_all-Adjusted p.set p false T.found T.separate T.masks in
      elim (Bool-cases (any (is_wrong p.value) p.set && not silent)) [
        | inl q ↦
            let t : s.1 && not silent ≡ true = rw a.changed q in
            rw (set_bits, t, q)
              (
                λ e mask h.
                    is_set_found e mask (trigger_change s.0) (ap (find e) a.set ∙ h)
                    ∙ All-find (λ x. covers width x.1 s.0.value ≡ elem x.0 elements) e mask p.set
                        a.right h,
                a.set,
                ap suc a.changes,
              )
        | inr q ↦
            let t : s.1 && not silent ≡ false = rw a.changed q in
            rw (set_bits, t, q)
              (
                λ e mask h.
                    is_set_found e mask s.0 (ap (find e) a.set ∙ h)
                    ∙ All-find (λ x. covers width x.1 s.0.value ≡ elem x.0 elements) e mask p.set
                        a.right h,
                a.set,
                a.changes,
              )
      ]
