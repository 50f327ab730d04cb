-- ===== src/Uuid.antt =====
-- csapex_util/src/uuid.cpp: hierarchical names. A name lists its parts, the innermost first; its text
-- lists them the outermost first, with `:|:` between two parts. A text is a list of character codes.
pub mod Scan
pub mod Naming
pub mod Paths
pub mod Provider
pub mod Decimal
pub mod Fresh
pub mod Generate
pub mod Taken
mod ProviderTests
mod Tests
use csapex.Base.{
  ℕ, suc, zero, ◌+◌, ◌-◌, Bool, true, false, not, List, [], ◌∷◌, ◌++◌, ◌&&◌, Option, none, some,
  leb, ◌==◌, if◌then◌else◌, length, take, drop,
}
use csapex.Base.Result.{Result, ok, failed, ◌>>=◌, ◌>>◌, assert}
use mathlib.Core.List.{reverse}

abbrev pub Text : Type 0
Text = List ℕ

abbrev pub text_eq : Text → Text → Bool
text_eq [] [] = true
text_eq (c ∷ s) (d ∷ t) = c == d && text_eq s t
text_eq _ _ = false

abbrev pub colon : ℕ
colon = 58

abbrev pub bar : ℕ
bar = 124

-- `namespace_separator`
abbrev pub separator : Text
separator = colon ∷ bar ∷ colon ∷ []

abbrev pub no_name : Text
no_name = 126 ∷ []

pub record Uuid : Type 0 where
  -- the provider, while it exists
  pub parent : Option ℕ
  pub representation : List Text

abbrev pub starts_with : Text → Text → Bool
starts_with [] t = true
starts_with (c ∷ s) [] = false
starts_with (c ∷ s) (d ∷ t) = c == d && starts_with s t

-- The last of two places: one found later on, or this one.
abbrev pub later : Bool → Option ℕ → Option ℕ
later here (some p) = some (suc p)
later true none = some 0
later false none = none

-- The last place before `n` where the separator begins.
unfoldable pub find_last : ℕ → Text → Option ℕ
find_last zero t = none
find_last (suc n) [] = none
find_last (suc n) (c ∷ t) = later (starts_with separator (c ∷ t)) (find_last n t)

-- `rfind(namespace_separator, end - 1)`: at 0 the argument wraps around and sets no bound.
unfoldable pub rfind : ℕ → Text → Option ℕ
rfind end t = find_last (if end == 0 then length t else end) t

-- `substr(begin, end - begin)`: a negative length wraps around and means the rest.
unfoldable pub substr : ℕ → ℕ → Text → Text
substr begin end t = if leb begin end then take (end - begin) (drop begin t) else drop begin t

abbrev pub push_part : List Text → Text → List Text
push_part parts sub_id = if text_eq sub_id no_name then parts else parts ++ sub_id ∷ []

-- The loop of the constructor from a text, from `end` on; `none` when the fuel runs out.
unfoldable pub split_from : ℕ → Text → ℕ → List Text → Option (List Text)
split_from zero t end parts = none
split_from (suc fuel) t end parts = elim (rfind end t) [
  | none ↦ some (push_part parts (substr 0 end t))
  | some p ↦ split_from fuel t p (push_part parts (substr (p + 3) end t))
]

-- The parts that the constructor takes from a text.
unfoldable pub parse : ℕ → Text → Option (List Text)
parse fuel t = split_from fuel t (length t) []

-- The loop of `getFullName`
unfoldable pub append_parts : Text → List Text → Text
append_parts ss [] = ss
append_parts ss (p ∷ ps) = append_parts (ss ++ separator ++ p) ps

-- What `getFullName` writes for the parts, the outermost first.
abbrev pub joined : List Text → Text
joined [] = no_name
joined (p ∷ ps) = append_parts p ps

unfoldable pub get_full_name : List Text → Text
get_full_name parts = joined (reverse parts)

abbrev pub last_part : List Text → Option Text
last_part parts = elim (reverse parts) [ [] ↦ none | p ∷ ps ↦ some p ]

-- The assertion of the constructors that the outermost part is not `~`.
abbrev pub is_named : Option Text → Bool
is_named none = true
is_named (some p) = not (text_eq p no_name)

-- The constructor from parts
unfoldable pub from_parts : Option ℕ → List Text → Result Uuid
from_parts parent parts = do
  assert (is_named (last_part parts))
  ok (record { parent = parent; representation = parts })

-- The constructor from a text
unfoldable pub from_text : ℕ → Option ℕ → Text → Option Uuid
from_text fuel parent t = elim (parse fuel t) [
  | none ↦ none
  | some parts ↦ some (record { parent = parent; representation = parts })
]

unfoldable pub depth : Uuid → ℕ
depth u = length u.representation

-- `reshape` throws where the depth asked for is larger than the name's.
unfoldable pub reshape : ℕ → Uuid → Result Uuid
reshape n u = do assert (leb n (depth u)); from_parts u.parent (take n u.representation)

-- `depth() - 1` wraps around for an empty name, and `reshape` throws.
unfoldable pub nested_uuid : Uuid → Result Uuid
nested_uuid u = elim u.representation [ [] ↦ failed | p ∷ ps ↦ reshape (depth u - 1) u ]

-- `none` where the name is empty, or the fuel runs out.
unfoldable pub root_uuid : ℕ → Uuid → Option Uuid
root_uuid fuel u = elim (last_part u.representation) [
  | none ↦ none
  | some p ↦ from_text fuel u.parent p
]

-- The loop of `makeRelativeTo`: both names with the outermost part first.
unfoldable pub drop_common : List Text → List Text → List Text
drop_common [] ts = ts
drop_common (p ∷ ps) [] = []
drop_common (p ∷ ps) (t ∷ ts) = let rest = drop_common ps ts in if text_eq t p then rest else t ∷ ts

unfoldable pub make_relative_to : Uuid → Uuid → Result Uuid
make_relative_to prefix u =
    from_parts u.parent
      (reverse (drop_common (reverse prefix.representation) (reverse u.representation)))

-- `UUIDProvider::makeDerivedUUID_forced(parent, child)`
unfoldable pub make_derived_uuid : Uuid → Uuid → Uuid
make_derived_uuid parent child = record child {
  representation = child.representation ++ parent.representation;
}

-- `getAbsoluteUUID`, where a provider has the absolute name that the function gives.
unfoldable pub get_absolute_uuid : (ℕ → Uuid) → Uuid → Uuid
get_absolute_uuid providers u = elim u.parent [
  | none ↦ u
  | some p ↦ record u { representation = u.representation ++ (providers p).representation }
]

-- `operator==`
unfoldable pub parts_eq : List Text → List Text → Bool
parts_eq [] [] = true
parts_eq (p ∷ ps) (t ∷ ts) = text_eq p t && parts_eq ps ts
parts_eq _ _ = false

unfoldable pub uuid_eq : Uuid → Uuid → Bool
uuid_eq a b = parts_eq a.representation b.representation
