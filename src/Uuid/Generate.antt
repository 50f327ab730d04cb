-- ===== src/Uuid/Generate.antt =====
-- Proofs about csapex_util/src/uuid_provider.cpp: the names that a provider generates are new, and taken from
-- then on.
use csapex.Base.{
  ℕ, suc, ◌<◌, ◌≡◌, refl, sym, ap, ◌∙◌, ◌||◌, Bool, true, false, List, [], ◌∷◌, ◌++◌, Option, some,
  length, All, Bool-cases, inl, inr, arith,
}
use csapex.Base.Result.{Result, ok}
use csapex.Uuid.{
  Text, Uuid, separator, text_eq, parts_eq, get_full_name, append_parts, from_text, parse,
}
use csapex.Uuid.Scan.{HasNoBar}
use csapex.Uuid.Naming.{IsPart, parse-get_full_name, get_full_name-cons}
use csapex.Uuid.Paths.{text_eq_refl}
use csapex.Uuid.Decimal.{numbered_injective, numbered-IsPart, append_injective}
use csapex.Uuid.Fresh.{text_eq→≡, Naming, Found, generate_from-ends}
use csapex.Uuid.Provider.{
  Provider, find, put, or_zero, or_empty, is_some, is_nonempty, exists, numbered, register_uuid,
  registered, generate_from, generate_next_name, generate_uuid, generate_next_sub_name,
  next_derived, generate_derived_uuid,
}

pub find-put :
    (j k : Text) (v : ℕ) (m : List (Text × ℕ))
    → is_some (find text_eq k (put text_eq j v m)) ≡ text_eq j k || is_some (find text_eq k m)
find-put j k v [] = elim (Bool-cases (text_eq j k)) [ inl q ↦ rw q refl | inr q ↦ rw q refl ]
find-put j k v ((i, w) ∷ m) = elim (Bool-cases (text_eq i j)) [
  | inl q ↦
      let same : text_eq i k ≡ text_eq j k = ap (λ t. text_eq t k) (text_eq→≡ i j q) in
      elim (Bool-cases (text_eq j k)) [
        | inl r ↦ rw (q, same, r) refl
        | inr r ↦ rw (q, same, r) refl
      ]
  | inr q ↦ elim (Bool-cases (text_eq i k)) [
    | inl r ↦ rw (q, r) (ground arith)
    | inr r ↦ rw (q, r) (find-put j k v m)
  ]
]

module _ {K V : Type 0} (eq : K → K → Bool) (eq_refl : (k : K) → eq k k ≡ true) where
  find-put_self : (k : K) (v : V) (m : List (K × V)) → find eq k (put eq k v m) ≡ some v
  find-put_self k v [] = rw (eq_refl k) refl
  find-put_self k v ((j, w) ∷ m) = elim (Bool-cases (eq j k)) [
    | inl q ↦ rw (q, q) refl
    | inr q ↦ rw (q, q) (find-put_self k v m)
  ]

-- A name that was generated is new, and from then on it is taken, as are all others that were.
pub record Generated (o : Option (Result (Uuid × Provider))) (p : Provider)
    (Named : List Text → Type 0) : Type 0 where
  pub uuid : Uuid
  pub after : Provider
  pub returns : o ≡ some (ok (uuid, after))
  pub named : Named uuid.representation
  pub new : exists uuid p ≡ false
  pub taken : exists uuid after ≡ true
  pub others : (u : Uuid) → exists u p ≡ true → exists u after ≡ true

registered-Generated :
    (fuel reading : ℕ) (next : Provider → Text × Provider) (n : Naming reading next) (p : Provider)
    → ((k : ℕ) → is_nonempty (n.parts k) ≡ true)
    → Found fuel reading next n p
    → Generated
        (registered (generate_from fuel reading next p))
        p
        (λ ps. (k : ℕ) × (ps ≡ n.parts k))
unfolding exists register_uuid
registered-Generated fuel reading next n p nonempty found =
    let name = get_full_name (n.parts found.k) in
    let count = suc (or_zero (find text_eq name found.after.hash)) in
    let u : Uuid = record { parent = some p.address; representation = n.parts found.k } in
    record {
      uuid = u;
      after = record found.after { hash = put text_eq name count found.after.hash };
      returns = rw (found.returns, nonempty found.k) refl;
      named = (found.k, refl);
      new = ap (λ t. is_some (find text_eq t p.hash)) (n.written found.k) ∙ found.unknown;
      taken =
          find-put name name count found.after.hash
          ∙ ap (λ b. b || is_some (find text_eq name found.after.hash)) (text_eq_refl name);
      others = λ v known.
          find-put name (get_full_name v.representation) count found.after.hash
          ∙ ground (
            arith,
            ap (λ m. is_some (find text_eq (get_full_name v.representation) m)) found.hash_kept,
            known,
          );
    }

single_full_name : (x : Text) → get_full_name (x ∷ []) ≡ x
unfolding get_full_name append_parts
single_full_name x = refl

pub from_text-full_name :
    (reading a : ℕ) (ps : List Text) (t : Text)
    → get_full_name ps ≡ t
    → All IsPart ps
    → length ps < reading
    → from_text reading (some a) t ≡ some (record { parent = some a; representation = ps })
unfolding from_text
from_text-full_name reading a ps t e h le =
    let parsed : parse reading t ≡ some ps =
      ap (parse reading) (sym e) ∙ parse-get_full_name ps reading h le in
    rw (from_text, parsed) refl

parts_eq_refl : (ps : List Text) → parts_eq ps ps ≡ true
unfolding parts_eq
parts_eq_refl [] = refl
parts_eq_refl (p ∷ ps) = rw (text_eq_refl p, parts_eq_refl ps) refl

module _ (prefix : Text) (no_bar : HasNoBar prefix) (reading : ℕ) where
  plain : 1 < reading → Naming reading (generate_next_name prefix)
  unfolding generate_next_name
  plain h = record {
    name = numbered prefix;
    parts = λ k. numbered prefix k ∷ [];
    counter = λ p. or_zero (find text_eq prefix p.uuids);
    made = λ p. refl;
    counted = λ p. ap or_zero (find-put_self text_eq text_eq_refl prefix _ p.uuids);
    hash_kept = λ p. refl;
    address_kept = λ p. refl;
    read = λ k a.
        from_text-full_name reading a (numbered prefix k ∷ []) (numbered prefix k)
          (single_full_name (numbered prefix k)) (numbered-IsPart prefix k no_bar, tt) h;
    written = λ k. single_full_name (numbered prefix k);
    injective = numbered_injective prefix;
  }

  -- Where the prefix has no bar, `generateUUID` ends after as many rounds as there are names taken and one
  -- more. It gives a name of the prefix and a number that was not taken, and is from then on, as are all
  -- names that were.
  pub generate_uuid-Generated :
      (fuel : ℕ) (p : Provider)
      → 1 < reading
      → length p.hash < fuel
      → Generated
          (generate_uuid fuel reading prefix p)
          p
          (λ ps. (k : ℕ) × (ps ≡ numbered prefix k ∷ []))
  unfolding generate_uuid plain
  generate_uuid-Generated fuel p h le =
      registered-Generated fuel reading (generate_next_name prefix) (plain h) p (λ k. refl)
        (generate_from-ends reading (generate_next_name prefix) (plain h) fuel p le)

  module _ (parent : Option ℕ) (x : Text) (ps : List Text) (parts : All IsPart (x ∷ ps)) where
    abbrev above : Uuid
    above = record { parent = parent; representation = x ∷ ps }

    abbrev derived_name : ℕ → Text
    derived_name k = get_full_name (x ∷ ps) ++ (separator ++ numbered prefix k)

    derived : suc (suc (length ps)) < reading → Naming reading (next_derived above prefix)
    unfolding generate_next_sub_name
    derived h = record {
      name = derived_name;
      parts = λ k. numbered prefix k ∷ x ∷ ps;
      counter = λ p. or_zero (find text_eq prefix (or_empty (find parts_eq (x ∷ ps) p.sub_uuids)));
      made = λ p. refl;
      counted = λ p.
          ap (λ m. or_zero (find text_eq prefix (or_empty m)))
            (find-put_self parts_eq parts_eq_refl (x ∷ ps) _ p.sub_uuids)
          ∙ ap or_zero (
              find-put_self text_eq text_eq_refl prefix _
                (or_empty (find parts_eq (x ∷ ps) p.sub_uuids)));
      hash_kept = λ p. refl;
      address_kept = λ p. refl;
      read = λ k a.
          from_text-full_name reading a (numbered prefix k ∷ x ∷ ps) (derived_name k)
            (get_full_name-cons (numbered prefix k) x ps) (numbered-IsPart prefix k no_bar, parts)
            h;
      written = λ k. get_full_name-cons (numbered prefix k) x ps;
      injective = λ j k e. numbered_injective prefix j k (
          append_injective separator (numbered prefix j) (numbered prefix k) (
            append_injective (get_full_name (x ∷ ps)) (separator ++ numbered prefix j)
              (separator ++ numbered prefix k) e));
    }

    -- For a prefix without a bar, and a parent of at least one part, whose parts are not empty, hold no bar
    -- and are not `~`, `generateDerivedUUID` ends after at most as many rounds as names are taken and one more,
    -- with a name that was not taken and is from then on: a part of the prefix and a number, below the parts
    -- of the parent.
    pub generate_derived_uuid-Generated :
        (fuel : ℕ) (p : Provider)
        → suc (suc (length ps)) < reading
        → length p.hash < fuel
        → Generated
            (generate_derived_uuid fuel reading above prefix p)
            p
            (λ qs. (k : ℕ) × (qs ≡ numbered prefix k ∷ x ∷ ps))
    unfolding generate_derived_uuid derived
    generate_derived_uuid-Generated fuel p h le =
        registered-Generated fuel reading (next_derived above prefix) (derived h) p (λ k. refl)
          (generate_from-ends reading (next_derived above prefix) (derived h) fuel p le)
