-- ===== src/Uuid/Taken.antt =====
-- Proofs about csapex_util/src/uuid_provider.cpp: making a name and freeing it.
use csapex.Base.{
  ℕ, suc, ◌<◌, ◌≡◌, refl, sym, ap, ◌∙◌, ◌||◌, ◌&&◌, not, true, false, List, [], ◌∷◌, some, length,
  All, Bool-cases, inl, inr, arith,
}
use csapex.Base.Result.{ok, failed}
use csapex.Uuid.{Text, Uuid, text_eq, parts_eq, get_full_name}
use csapex.Uuid.Naming.{IsPart}
use csapex.Uuid.Paths.{text_eq_refl}
use csapex.Uuid.Fresh.{text_eq→≡}
use csapex.Uuid.Generate.{find-put, from_text-full_name}
use csapex.Uuid.Provider.{
  Provider, find, put, drop_key, or_zero, is_some, exists, register_uuid, make_uuid, free,
}

other_key : (j k t : Text) → text_eq j k ≡ false → text_eq j t ≡ true → text_eq k t ≡ false
other_key j k t q r = elim (Bool-cases (text_eq k t)) [
  | inl e ↦ cc (ap (text_eq j) (text_eq→≡ k t e), q, r)
  | inr n ↦ n
]

find-drop_key :
    (k t : Text) (m : List (Text × ℕ))
    → is_some (find text_eq t (drop_key text_eq k m))
      ≡ not (text_eq k t) && is_some (find text_eq t m)
find-drop_key k t [] = ground arith
find-drop_key k t ((j, v) ∷ m) = elim (Bool-cases (text_eq j k)) [
  | inl q ↦
      let same : text_eq j t ≡ text_eq k t = ap (λ s. text_eq s t) (text_eq→≡ j k q) in
      elim (Bool-cases (text_eq k t)) [
        | inl r ↦ rw (q, same, r) (find-drop_key k t m ∙ rw r refl)
        | inr r ↦ rw (q, same, r) (find-drop_key k t m ∙ rw r refl)
      ]
  | inr q ↦ elim (Bool-cases (text_eq j t)) [
    | inl r ↦ let other : text_eq k t ≡ false = other_key j k t q r in rw (q, r, other) refl
    | inr r ↦ rw (q, r) (find-drop_key k t m)
  ]
]

forgotten :
    (name t : Text) (m : List (Text × ℕ))
    → is_some (find text_eq name m) ≡ false
    → not (text_eq name t) && (text_eq name t || is_some (find text_eq t m))
      ≡ is_some (find text_eq t m)
forgotten name t m new = elim (Bool-cases (text_eq name t)) [
  | inl q ↦ rw q (sym (ap (λ s. is_some (find text_eq s m)) (sym (text_eq→≡ name t q)) ∙ new))
  | inr q ↦ rw q refl
]

-- What making a name and freeing it again leaves.
pub record MadeAndFreed (reading : ℕ) (name : Text) (ps : List Text) (p : Provider) : Type 0 where
  pub made : Uuid
  pub taken : Provider
  pub freed : Provider
  pub makes : make_uuid reading name p ≡ some (ok (made, taken))
  pub parts : made.representation ≡ ps
  pub known : exists made taken ≡ true
  pub again : make_uuid reading name taken ≡ some failed
  pub frees : free made taken ≡ ok freed
  pub as_before : (t : Text) → is_some (find text_eq t freed.hash) ≡ is_some (find text_eq t p.hash)

-- A name that is not taken, and whose parts are not empty, hold no bar and are not `~`, is made; it is
-- taken then, so that making it again throws; freeing it leaves exactly the names taken that were before.
pub make_uuid-MadeAndFreed :
    (reading : ℕ) (x : Text) (ps : List Text) (p : Provider)
    → All IsPart (x ∷ ps)
    → suc (length ps) < reading
    → is_some (find text_eq (get_full_name (x ∷ ps)) p.hash) ≡ false
    → MadeAndFreed reading (get_full_name (x ∷ ps)) (x ∷ ps) p
unfolding make_uuid register_uuid free exists
make_uuid-MadeAndFreed reading x ps p parts le new =
    let name = get_full_name (x ∷ ps) in
    let count = suc (or_zero (find text_eq name p.hash)) in
    let read = from_text-full_name reading p.address (x ∷ ps) name refl parts le in
    let known =
      find-put name name count p.hash
      ∙ ap (λ b. b || is_some (find text_eq name p.hash)) (text_eq_refl name) in
    record {
      made = record { parent = some p.address; representation = x ∷ ps };
      taken = record p { hash = put text_eq name count p.hash };
      freed = record p {
        hash = drop_key text_eq name (put text_eq name count p.hash);
        sub_uuids = drop_key parts_eq ps p.sub_uuids;
      };
      makes = rw (new, read) refl;
      parts = refl;
      known = known;
      again = rw known refl;
      frees = refl;
      as_before = λ t.
          find-drop_key name t (put text_eq name count p.hash)
          ∙ ap (λ b. not (text_eq name t) && b) (find-put name t count p.hash)
          ∙ forgotten name t p.hash new;
    }
