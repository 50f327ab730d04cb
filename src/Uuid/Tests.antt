-- ===== src/Uuid/Tests.antt =====
-- Names of csapex_util/src/uuid.cpp on small texts: the codes of `a`, `b` and `c` are 97 to 99.
use csapex.Base.{ℕ, ◌≡◌, refl, List, [], ◌∷◌, none, some, arith}
use csapex.Base.Result.{ok}
use csapex.Uuid.{
  Text, Uuid, colon, bar, separator, parse, get_full_name, make_relative_to, get_absolute_uuid,
  find_last, rfind, substr, split_from, append_parts,
}
use csapex.Uuid.Naming.{parse-get_full_name, parse-returns, parse-diverges}
use csapex.Uuid.Paths.{name, make_relative_to-absolute}

abbrev a_b : List Text
a_b = (97 ∷ []) ∷ (98 ∷ 99 ∷ []) ∷ []

abbrev a_b_text : Text
a_b_text = 98 ∷ 99 ∷ colon ∷ bar ∷ colon ∷ 97 ∷ []

a_b-get_full_name : get_full_name a_b ≡ a_b_text
unfolding get_full_name append_parts
a_b-get_full_name = refl

a_b-parse : parse 7 a_b_text ≡ some a_b
unfolding parse split_from rfind find_last substr
a_b-parse = refl

-- Separators that overlap are cut at the last one, and the rest is taken twice.
overlap-parse :
    parse 7 (98 ∷ colon ∷ bar ∷ colon ∷ bar ∷ colon ∷ 97 ∷ [])
    ≡ some ((97 ∷ []) ∷ (bar ∷ colon ∷ 97 ∷ []) ∷ (98 ∷ []) ∷ [])
unfolding parse split_from rfind find_last substr
overlap-parse = refl

parse-get_full_name_example : parse 3 (get_full_name a_b) ≡ some a_b
parse-get_full_name_example =
    parse-get_full_name a_b 3
      (((refl, tt), refl, omega arith), (((refl, (refl, tt)), refl, omega arith), tt)) (omega arith)

parse-returns_example : (u : List Text) × (parse 7 a_b_text ≡ some u)
parse-returns_example = parse-returns a_b_text refl

parse-diverges_example : parse 1000 (separator) ≡ none
parse-diverges_example = parse-diverges separator 1000 refl

abbrev inner : Uuid
inner = name (some 0) ((97 ∷ []) ∷ [])

abbrev outer : ℕ → Uuid
outer p = name none ((98 ∷ 99 ∷ []) ∷ [])

make_relative_to-absolute_example :
    make_relative_to (outer 0) (get_absolute_uuid outer inner) ≡ ok inner
make_relative_to-absolute_example = make_relative_to-absolute outer 0 inner refl refl
