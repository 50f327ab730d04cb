-- ===== src/Uuid/Naming.antt =====
-- Proofs about csapex_util/src/uuid.cpp: writing a name and reading it back, and which texts the
-- constructor reads to an end.
use csapex.Base.{
  ℕ, suc, zero, ◌+◌, ◌-◌, ◌<◌, ◌≤◌, ◌≡◌, refl, ap, ◌∙◌, sym, true, false, List, [], ◌∷◌, ◌++◌, none,
  some, leb, length, length-append, drop-append, take-append, All, arith, Option-cases, inl, inr,
}
use mathlib.Core.List.{reverse, reverse-cons, append_assoc, append-nil}
use csapex.Uuid.{
  Text, separator, no_name, starts_with, find_last, rfind, substr, text_eq, push_part, split_from,
  parse, append_parts, joined, get_full_name,
}
use csapex.Uuid.Scan.{
  HasNoBar, IsTail, find_last-no_bar, find_last-separator, find_last-bound, find_last-found,
  find_last-zero,
}

append_parts-snoc :
    (ss : Text) (ps : List Text) (x : Text)
    → append_parts ss (ps ++ x ∷ []) ≡ append_parts ss ps ++ (separator ++ x)
unfolding append_parts
append_parts-snoc ss [] x = append_assoc ss separator x
append_parts-snoc ss (p ∷ ps) x = append_parts-snoc (ss ++ separator ++ p) ps x

joined-snoc :
    (ps : List Text) (y x : Text)
    → joined (ps ++ y ∷ [] ++ x ∷ []) ≡ joined (ps ++ y ∷ []) ++ (separator ++ x)
joined-snoc [] y x = append_parts-snoc y [] x
joined-snoc (p ∷ ps) y x = append_parts-snoc p (ps ++ y ∷ []) x

pub get_full_name-cons :
    (x y : Text) (r : List Text)
    → get_full_name (x ∷ y ∷ r) ≡ get_full_name (y ∷ r) ++ (separator ++ x)
unfolding get_full_name
get_full_name-cons x y r =
    rw (reverse-cons x (y ∷ r), reverse-cons y r) (joined-snoc (reverse r) y x)

substr-append :
    (begin end : ℕ) (a x z : Text)
    → begin ≡ length a
    → end ≡ length a + length x
    → substr begin end (a ++ (x ++ z)) ≡ x
unfolding substr
substr-append begin end a x z b e =
    let covered : leb begin end ≡ true = ground arith in
    let size : end - begin ≡ length x = omega arith in
    rw (covered, size, b, drop-append a (x ++ z)) (take-append x z)

-- A part that can be read back.
abbrev pub IsPart : Text → Type 0
IsPart p = HasNoBar p × (text_eq p no_name ≡ false) × (0 < length p)

rfind-find_last : (end : ℕ) (t : Text) → 0 < end → rfind end t ≡ find_last end t
unfolding rfind
rfind-find_last end t h = ground arith

push_part-IsPart : (parts : List Text) (x : Text) → IsPart x → push_part parts x ≡ parts ++ x ∷ []
push_part-IsPart parts x h = rw h.1 refl

split_from-none :
    (fuel end : ℕ) (t : Text) (parts : List Text)
    → rfind end t ≡ none
    → split_from (suc fuel) t end parts ≡ some (push_part parts (substr 0 end t))
unfolding split_from
split_from-none fuel end t parts e = rw (split_from, e) refl

split_from-some :
    (fuel end p : ℕ) (t : Text) (parts : List Text)
    → rfind end t ≡ some p
    → split_from (suc fuel) t end parts
      ≡ split_from fuel t p (push_part parts (substr (p + 3) end t))
unfolding split_from
split_from-some fuel end p t parts e = rw (split_from, e) refl

-- One part, with nothing in front of it.
split_from-root :
    (fuel : ℕ) (x z : Text) (parts : List Text)
    → IsPart x
    → IsTail z
    → split_from (suc fuel) (x ++ z) (length x) parts ≡ some (parts ++ x ∷ [])
split_from-root fuel x z parts h t =
    let found = rfind-find_last (length x) (x ++ z) h.2 ∙ find_last-no_bar x z h.0 t in
    split_from-none fuel (length x) (x ++ z) parts found
    ∙ ap (λ p. some (push_part parts p)) (substr-append 0 (length x) [] x z refl (omega arith))
    ∙ ap some (push_part-IsPart parts x h)

-- The innermost part `x`, behind the text `a` of the outer ones.
split_from-step :
    (fuel : ℕ) (a x z : Text) (parts : List Text)
    → IsPart x
    → IsTail z
    → split_from (suc fuel) (a ++ (separator ++ x) ++ z) (length (a ++ (separator ++ x))) parts
      ≡ split_from fuel (a ++ (separator ++ (x ++ z))) (length a) (parts ++ x ∷ [])
split_from-step fuel a x z parts h t =
    let end = length (a ++ (separator ++ x)) in
    let size : suc (suc (suc (length x))) + length a ≡ end =
      omega (arith, length-append a (separator ++ x)) in
    let text : a ++ (separator ++ x) ++ z ≡ a ++ (separator ++ (x ++ z)) =
      append_assoc a (separator ++ x) z in
    let found : rfind end (a ++ (separator ++ (x ++ z))) ≡ some (length a) =
      rfind-find_last end _ (omega (arith, size)) ∙ find_last-separator a x z end h.0 t size in
    let part : substr (length a + 3) end (a ++ (separator ++ (x ++ z))) ≡ x =
      ap (substr (length a + 3) end) (sym (append_assoc a separator (x ++ z)))
      ∙ substr-append (length a + 3) end (a ++ separator) x z
          (omega (arith, length-append a separator))
          (omega (arith, size, length-append a separator)) in
    ap (λ s. split_from (suc fuel) s end parts) text
    ∙ split_from-some fuel end (length a) (a ++ (separator ++ (x ++ z))) parts found
    ∙ ap (split_from fuel (a ++ (separator ++ (x ++ z))) (length a))
        (ap (push_part parts) part ∙ push_part-IsPart parts x h)

split_from-name :
    (x : Text) (r : List Text) (z : Text) (parts : List Text) (fuel : ℕ)
    → IsPart x
    → All IsPart r
    → IsTail z
    → length r ≤ fuel
    → split_from (suc fuel) (get_full_name (x ∷ r) ++ z) (length (get_full_name (x ∷ r))) parts
      ≡ some (parts ++ x ∷ r)
unfolding get_full_name append_parts
split_from-name x [] z parts fuel h hs t le = split_from-root fuel x z parts h t
split_from-name x (y ∷ r) z parts zero h hs t le = absurd (omega (arith, le))
split_from-name x (y ∷ r) z parts (suc fuel) h hs t le =
    rw (get_full_name-cons x y r, split_from-step (suc fuel) (get_full_name (y ∷ r)) x z parts h t)
      (split_from-name y r (separator ++ (x ++ z)) (parts ++ x ∷ []) fuel hs.0 hs.1 refl
          (omega (arith, le))
        ∙ ap some (append_assoc parts (x ∷ []) (y ∷ r)))

-- The constructor reads the text of every name back, whose parts are not empty, hold no bar and are
-- not `~`: fuel above the number of parts is enough.
pub parse-get_full_name :
    (parts : List Text) (fuel : ℕ)
    → All IsPart parts
    → length parts < fuel
    → parse fuel (get_full_name parts) ≡ some parts
unfolding parse get_full_name split_from rfind find_last substr
parse-get_full_name parts zero h le = absurd (omega (arith, le))
parse-get_full_name [] (suc fuel) h le = refl
parse-get_full_name (x ∷ r) (suc fuel) h le =
    let name = get_full_name (x ∷ r) in
    ap (λ t. split_from (suc fuel) t (length name) []) (sym (append-nil name))
    ∙ split_from-name x r [] [] fuel h.0 h.1 tt (omega (arith, le))

positive :
    (end p : ℕ) (t : Text) → starts_with separator t ≡ false → find_last end t ≡ some p → 0 < p
positive end zero t s f = cc (find_last-zero end t f)
positive end (suc p) t s f = omega arith

rfind-found :
    (end : ℕ) (t : Text) → starts_with separator t ≡ true → (p : ℕ) × (rfind end t ≡ some p)
unfolding rfind
rfind-found zero [] s = cc
rfind-found zero (c ∷ t) s = find_last-found (length t) (c ∷ t) s
rfind-found (suc end) t s =
    let (p, e) = find_last-found end t s in (p, rfind-find_last (suc end) t (omega arith) ∙ e)

-- The loop of the constructor ends where a text does not begin with the separator.
split_from-returns :
    (fuel end : ℕ) (t : Text) (parts : List Text)
    → starts_with separator t ≡ false
    → 0 < end
    → end ≤ fuel
    → (u : List Text) × (split_from fuel t end parts ≡ some u)
split_from-returns zero end t parts s pos le = absurd (omega (arith, pos, le))
split_from-returns (suc fuel) end t parts s pos le = elim (Option-cases (rfind end t)) [
  | inl e ↦ (_, split_from-none fuel end t parts e)
  | inr (p, e) ↦
      let found : find_last end t ≡ some p = sym (rfind-find_last end t pos) ∙ e in
      let before : p < end = find_last-bound end t p found in
      let (u, r) =
        split_from-returns fuel p t (push_part parts (substr (p + 3) end t)) s
          (positive end p t s found) (omega (arith, before, le)) in
      (u, split_from-some fuel end p t parts e ∙ r)
]

split_from-diverges :
    (fuel end : ℕ) (t : Text) (parts : List Text)
    → starts_with separator t ≡ true
    → split_from fuel t end parts ≡ none
unfolding split_from
split_from-diverges zero end t parts s = refl
split_from-diverges (suc fuel) end t parts s =
    let (p, e) = rfind-found end t s in
    split_from-some fuel end p t parts e ∙ split_from-diverges fuel p t _ s

-- The constructor reads a text to its end that does not begin with the separator: as many rounds as
-- the text is long, and one more, are enough.
pub parse-returns :
    (t : Text)
    → starts_with separator t ≡ false
    → (u : List Text) × (parse (suc (length t)) t ≡ some u)
unfolding parse split_from rfind find_last
parse-returns [] s = (_, refl)
parse-returns (c ∷ t) s =
    split_from-returns (suc (suc (length t))) (suc (length t)) (c ∷ t) [] s (omega arith)
      (omega arith)

-- The constructor reads a text for ever that begins with the separator: no fuel is enough.
pub parse-diverges : (t : Text) (fuel : ℕ) → starts_with separator t ≡ true → parse fuel t ≡ none
unfolding parse
parse-diverges t fuel s = split_from-diverges fuel (length t) t [] s
