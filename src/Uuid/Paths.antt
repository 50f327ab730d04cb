-- ===== src/Uuid/Paths.antt =====
-- Proofs about csapex_util/src/uuid.cpp and uuid_provider.cpp: names relative to others.
use csapex.Base.{
  ℕ, ◌-◌, ◌<◌, ◌≡◌, refl, ap, ◌∙◌, true, List, [], ◌∷◌, ◌++◌, Option, none, some, ==_refl, length,
  take, length-append, take-append, arith, leb,
}
use csapex.Base.Result.{ok}
use mathlib.Core.List.{reverse, reverse-append, reverse-reverse}
use mathlib.Core.Option.{some-injective}
use csapex.Uuid.{
  Text, Uuid, text_eq, last_part, is_named, from_parts, from_text, depth, reshape, nested_uuid,
  root_uuid, drop_common, make_relative_to, make_derived_uuid, get_absolute_uuid, parse,
  get_full_name, append_parts,
}
use csapex.Uuid.Naming.{IsPart, parse-get_full_name}

pub text_eq_refl : (t : Text) → text_eq t t ≡ true
text_eq_refl [] = refl
text_eq_refl (c ∷ t) = rw (==_refl c, text_eq_refl t) refl

drop_common-append : (ps ts : List Text) → drop_common ps (ps ++ ts) ≡ ts
unfolding drop_common
drop_common-append [] ts = refl
drop_common-append (p ∷ ps) ts = rw (text_eq_refl p, drop_common-append ps ts) refl

-- A name is relative to its parent what it was before it was derived, with the parent's parts left
-- out, whatever parts both have: the outermost part must not be `~`.
pub make_relative_to-derived :
    (parent child : Uuid)
    → is_named (last_part child.representation) ≡ true
    → make_relative_to parent (make_derived_uuid parent child) ≡ ok child
unfolding make_relative_to make_derived_uuid from_parts
make_relative_to-derived parent child h =
    let same : reverse (
          drop_common (reverse parent.representation)
            (reverse (child.representation ++ parent.representation)))
        ≡ child.representation =
      rw
        (
          reverse-append child.representation parent.representation,
          drop_common-append (reverse parent.representation) (reverse child.representation),
        )
        (reverse-reverse child.representation) in
    rw (same, h) refl

absolute :
    (providers : ℕ → Uuid) (p : ℕ) (u : Uuid) (parent : Option ℕ)
    → parent ≡ some p
    → (elim parent as (λ o. Uuid) [
      | none ↦ u
      | some q ↦ record u { representation = u.representation ++ (providers q).representation }
    ])
      ≡ make_derived_uuid (providers p) u
unfolding make_derived_uuid
absolute providers p u none e = cc
absolute providers p u (some q) e =
    ap (λ k. record u { representation = u.representation ++ (providers k).representation })
      (some-injective q p e)

-- A name made absolute is relative to its provider's name what it was before.
pub make_relative_to-absolute :
    (providers : ℕ → Uuid) (p : ℕ) (u : Uuid)
    → u.parent ≡ some p
    → is_named (last_part u.representation) ≡ true
    → make_relative_to (providers p) (get_absolute_uuid providers u) ≡ ok u
unfolding get_absolute_uuid
make_relative_to-absolute providers p u e h =
    ap (make_relative_to (providers p)) (absolute providers p u u.parent e)
    ∙ make_relative_to-derived (providers p) u h

take-init : (ps : List Text) (p : Text) → take (length (ps ++ p ∷ []) - 1) (ps ++ p ∷ []) ≡ ps
take-init ps p =
    let size : length (ps ++ p ∷ []) - 1 ≡ length ps = omega (arith, length-append ps (p ∷ [])) in
    rw size (take-append ps (p ∷ []))

last_part-snoc : (ps : List Text) (p : Text) → last_part (ps ++ p ∷ []) ≡ some p
last_part-snoc ps p = rw (last_part, reverse-append ps (p ∷ [])) refl

abbrev pub name : Option ℕ → List Text → Uuid
name parent parts = record { parent = parent; representation = parts }

nested_uuid-reshape :
    (parent : Option ℕ) (ps : List Text) (p : Text)
    → nested_uuid (name parent (ps ++ p ∷ []))
      ≡ reshape (length (ps ++ p ∷ []) - 1) (name parent (ps ++ p ∷ []))
unfolding nested_uuid depth
nested_uuid-reshape parent [] p = refl
nested_uuid-reshape parent (q ∷ ps) p = refl

reshape-init :
    (parent : Option ℕ) (ps : List Text) (p : Text)
    → is_named (last_part ps) ≡ true
    → reshape (length (ps ++ p ∷ []) - 1) (name parent (ps ++ p ∷ [])) ≡ ok (name parent ps)
unfolding reshape depth from_parts
reshape-init parent ps p h =
    let fits : leb (length (ps ++ p ∷ []) - 1) (length (ps ++ p ∷ [])) ≡ true = ground arith in
    rw (fits, take-init ps p, h) refl

-- The outermost part of a name and the rest of it are what `rootUUID` and `nestedUUID` return, where
-- the outermost part can be read back and the one below it is not `~`.
pub root_and_nested :
    (parent : Option ℕ) (inner : List Text) (root : Text) (fuel : ℕ)
    → IsPart root
    → is_named (last_part inner) ≡ true
    → 1 < fuel
    → (nested_uuid (name parent (inner ++ root ∷ [])) ≡ ok (name parent inner))
      × (root_uuid fuel (name parent (inner ++ root ∷ [])) ≡ some (name parent (root ∷ [])))
unfolding root_uuid from_text get_full_name append_parts
root_and_nested parent inner root fuel h named enough =
    let whole : parse fuel root ≡ some (root ∷ []) =
      parse-get_full_name (root ∷ []) fuel (h, tt) enough in
    (
      nested_uuid-reshape parent inner root ∙ reshape-init parent inner root named,
      rw (root_uuid, last_part-snoc inner root, from_text, whole) refl,
    )
