-- ===== src/Uuid/ProviderTests.antt =====
-- A provider of csapex_util/src/uuid_provider.cpp that knows two names: 97 is the code of `a`, 95 of `_`.
use csapex.Base.{ℕ, ◌≡◌, refl, [], ◌∷◌, none, arith}
use csapex.Uuid.{Text, get_full_name, append_parts}
use csapex.Uuid.Provider.{Provider, numbered, decimal, digits, generate_uuid, generate_derived_uuid}
use csapex.Uuid.Generate.{Generated, generate_uuid-Generated, generate_derived_uuid-Generated}
use csapex.Uuid.Taken.{MadeAndFreed, make_uuid-MadeAndFreed}

abbrev a : Text
a = 97 ∷ []

-- `a_0` and `b` are taken.
abbrev provider : Provider
provider = record {
  address = 0;
  hash = (97 ∷ 95 ∷ 48 ∷ [], 1) ∷ (98 ∷ [], 1) ∷ [];
  uuids = [];
  sub_uuids = [];
}

ten : decimal 10 ≡ 49 ∷ 48 ∷ []
unfolding decimal digits
ten = refl

generate_uuid-Generated_example :
    Generated (generate_uuid 3 2 a provider) provider (λ ps. (k : ℕ) × (ps ≡ numbered a k ∷ []))
generate_uuid-Generated_example =
    generate_uuid-Generated a (refl, tt) 2 3 provider (omega arith) (omega arith)

generate_derived_uuid-Generated_example :
    Generated
      (generate_derived_uuid 3 4
        (record { parent = none; representation = (98 ∷ []) ∷ [] })
        a
        provider)
      provider
      (λ qs. (k : ℕ) × (qs ≡ numbered a k ∷ (98 ∷ []) ∷ []))
generate_derived_uuid-Generated_example =
    generate_derived_uuid-Generated a (refl, tt) 4 none (98 ∷ []) []
      (((refl, tt), refl, omega arith), tt) 3 provider (omega arith) (omega arith)

make_uuid-MadeAndFreed_example : MadeAndFreed 3 (get_full_name (a ∷ [])) (a ∷ []) provider
unfolding get_full_name append_parts
make_uuid-MadeAndFreed_example =
    make_uuid-MadeAndFreed 3 a [] provider (((refl, tt), refl, omega arith), tt) (omega arith) refl
