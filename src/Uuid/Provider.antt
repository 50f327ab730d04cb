-- ===== src/Uuid/Provider.antt =====
-- csapex_util/src/uuid_provider.cpp: a provider of names, which counts the names that it has made for each
-- prefix and knows those that are taken.
use csapex.Base.{
  ℕ, zero, suc, ◌+◌, ◌/◌, ◌%◌, ltb, Bool, true, false, List, [], ◌∷◌, ◌++◌, Option, none, some,
  if◌then◌else◌,
}
use csapex.Base.Result.{Result, ok, failed, ◌>>=◌, ◌>>◌, assert}
use csapex.Uuid.{Text, Uuid, separator, text_eq, parts_eq, get_full_name, from_text}

-- A map as an association list; the test compares two keys.
module _ {K V : Type 0} (eq : K → K → Bool) where
  abbrev pub find : K → List (K × V) → Option V
  find k [] = none
  find k ((j, v) ∷ m) = if eq j k then some v else find k m

  abbrev pub put : K → V → List (K × V) → List (K × V)
  put k v [] = (k, v) ∷ []
  put k v ((j, w) ∷ m) = if eq j k then (j, v) ∷ m else (j, w) ∷ put k v m

  abbrev pub drop_key : K → List (K × V) → List (K × V)
  drop_key k [] = []
  drop_key k ((j, v) ∷ m) = if eq j k then drop_key k m else (j, v) ∷ drop_key k m

abbrev pub or_zero : Option ℕ → ℕ
or_zero none = 0
or_zero (some n) = n

abbrev pub or_empty : Option (List (Text × ℕ)) → List (Text × ℕ)
or_empty none = []
or_empty (some m) = m

abbrev pub is_some : Option ℕ → Bool
is_some none = false
is_some (some n) = true

abbrev pub is_nonempty : List Text → Bool
is_nonempty [] = false
is_nonempty (p ∷ ps) = true

-- The provider: its address, `hash_`, `uuids_` and `sub_uuids_`.
pub record Provider : Type 0 where
  pub address : ℕ
  pub hash : List (Text × ℕ)
  pub uuids : List (Text × ℕ)
  pub sub_uuids : List (List Text × List (Text × ℕ))

-- What an output stream writes for a number, by recursion on fuel above the number.
unfoldable pub digits : ℕ → ℕ → Text
digits zero n = []
digits (suc fuel) n =
    let rest = digits fuel (n / 10) ++ (48 + n % 10) ∷ [] in
    if ltb n 10 then (48 + n) ∷ [] else rest

unfoldable pub decimal : ℕ → Text
decimal n = digits (suc n) n

-- `name << "_" << next_id`
abbrev pub numbered : Text → ℕ → Text
numbered name next_id = name ++ 95 ∷ decimal next_id

unfoldable pub generate_next_name : Text → Provider → Text × Provider
generate_next_name name p =
    let next_id = or_zero (find text_eq name p.uuids) in
    (numbered name next_id, record p { uuids = put text_eq name (suc next_id) p.uuids })

unfoldable pub generate_next_sub_name : Uuid → Text → Provider → Text × Provider
generate_next_sub_name parent name p =
    let names = or_empty (find parts_eq parent.representation p.sub_uuids) in
    let next_id = or_zero (find text_eq name names) in
    (
      numbered name next_id,
      record p {
        sub_uuids =
            put parts_eq parent.representation (put text_eq name (suc next_id) names) p.sub_uuids;
      },
    )

unfoldable pub exists : Uuid → Provider → Bool
exists u p = is_some (find text_eq (get_full_name u.representation) p.hash)

-- `registerUUID`
unfoldable pub register_uuid : Uuid → Provider → Result Provider
register_uuid u p =
    let name = get_full_name u.representation in
    assert (is_nonempty u.representation)
    >> ok (record p { hash = put text_eq name (suc (or_zero (find text_eq name p.hash))) p.hash })

-- The loops of `generateUUID` and `generateDerivedUUID`, by what gives the next name; `none` when the
-- fuel for the rounds, or for reading a name, runs out.
unfoldable pub generate_from :
    ℕ → ℕ → (Provider → Text × Provider) → Provider → Option (Uuid × Provider)
generate_from zero reading next p = none
generate_from (suc fuel) reading next p =
    let made = next p in
    elim (from_text reading (some p.address) made.0) [
      | none ↦ none
      | some r ↦
          let again = generate_from fuel reading next made.1 in
          if exists r made.1 then again else some (r, made.1)
    ]

abbrev pub registered : Option (Uuid × Provider) → Option (Result (Uuid × Provider))
registered none = none
registered (some (r, p)) = some (register_uuid r p >>= λ p'. ok (r, p'))

unfoldable pub generate_uuid : ℕ → ℕ → Text → Provider → Option (Result (Uuid × Provider))
generate_uuid fuel reading prefix p =
    registered (generate_from fuel reading (generate_next_name prefix) p)

-- The next name of `generateDerivedUUID`
abbrev pub next_derived : Uuid → Text → Provider → Text × Provider
next_derived parent prefix p =
    let made = generate_next_sub_name parent prefix p in
    (get_full_name parent.representation ++ (separator ++ made.0), made.1)

unfoldable pub generate_derived_uuid :
    ℕ → ℕ → Uuid → Text → Provider → Option (Result (Uuid × Provider))
generate_derived_uuid fuel reading parent prefix p =
    registered (generate_from fuel reading (next_derived parent prefix) p)

-- `makeUUID`: `failed` where it throws that the name is taken; `none` when the fuel runs out.
unfoldable pub make_uuid : ℕ → Text → Provider → Option (Result (Uuid × Provider))
make_uuid reading name p =
    let made : Option (Result (Uuid × Provider)) = elim (from_text reading (some p.address) name) [
      | none ↦ none
      | some r ↦ some (register_uuid r p >>= λ p'. ok (r, p'))
    ] in
    if is_some (find text_eq name p.hash) then some failed else made

-- `parentUUID`
abbrev pub parent_parts : List Text → List Text
parent_parts [] = []
parent_parts (p ∷ ps) = ps

-- `free`
unfoldable pub free : Uuid → Provider → Result Provider
free u p =
    assert (is_nonempty u.representation)
    >> ok (record p {
      hash = drop_key text_eq (get_full_name u.representation) p.hash;
      sub_uuids = drop_key parts_eq (parent_parts u.representation) p.sub_uuids;
    })

-- `clearCache`
unfoldable pub clear_cache : Provider → Provider
clear_cache p = record p { hash = []; uuids = []; sub_uuids = [] }
