-- ===== src/Uuid/Fresh.antt =====
-- Proofs about csapex_util/src/uuid_provider.cpp: the loops that generate a name end, with a name that is
-- not taken.
use csapex.Base.{
  ℕ, zero, suc, ◌<◌, ◌≤◌, ◌≡◌, refl, sym, ap, ◌∙◌, ==_iff, ◌||◌, Bool, true, false, List, [], ◌∷◌,
  some, length, if◌then◌else◌, Bool-cases, inl, inr, arith,
}
use csapex.Uuid.{Text, Uuid, text_eq, get_full_name, from_text}
use csapex.Uuid.Provider.{Provider, find, is_some, exists, generate_from}

pub text_eq→≡ : (s t : Text) → text_eq s t ≡ true → s ≡ t
text_eq→≡ [] [] h = refl
text_eq→≡ [] (d ∷ t) h = cc h
text_eq→≡ (c ∷ s) [] h = cc h
text_eq→≡ (c ∷ s) (d ∷ t) h =
    cc ((==_iff c d).0 (ground (arith, h)), text_eq→≡ s t (ground (arith, h)))

abbrev has : Text → List Text → Bool
has t [] = false
has t (x ∷ xs) = text_eq x t || has t xs

without : Text → List Text → List Text
without t [] = []
without t (x ∷ xs) = let rest = without t xs in if text_eq x t then rest else x ∷ rest

length-without_le : (t : Text) (xs : List Text) → length (without t xs) ≤ length xs
unfolding without
length-without_le t [] = omega arith
length-without_le t (x ∷ xs) = ground (arith, length-without_le t xs)

length-without : (t : Text) (xs : List Text) → has t xs ≡ true → length (without t xs) < length xs
unfolding without
length-without t [] h = cc h
length-without t (x ∷ xs) h = ground (arith, length-without t xs, length-without_le t xs, h)

has-without :
    (t u : Text) (xs : List Text)
    → text_eq t u ≡ false
    → has u xs ≡ true
    → has u (without t xs) ≡ true
unfolding without
has-without t u [] n h = cc h
has-without t u (x ∷ xs) n h = elim (Bool-cases (text_eq x t)) [
  | inl q ↦
      let other : text_eq x u ≡ false = rw (text_eq→≡ x t q) n in
      rw q (has-without t u xs n (ground (arith, h, other)))
  | inr q ↦ rw q (ground (arith, h, has-without t u xs n))
]

abbrev keys : List (Text × ℕ) → List Text
keys [] = []
keys ((k, v) ∷ m) = k ∷ keys m

has-keys : (t : Text) (m : List (Text × ℕ)) → is_some (find text_eq t m) ≡ has t (keys m)
has-keys t [] = refl
has-keys t ((k, v) ∷ m) = elim (Bool-cases (text_eq k t)) [
  | inl q ↦ rw q refl
  | inr q ↦ rw q (has-keys t m)
]

length-keys : (m : List (Text × ℕ)) → length (keys m) ≡ length m
length-keys [] = refl
length-keys ((k, v) ∷ m) = omega (arith, length-keys m)

-- The names that a loop tries one after the other, and how each is read.
pub record Naming (reading : ℕ) (next : Provider → Text × Provider) : Type 0 where
  pub name : ℕ → Text
  pub parts : ℕ → List Text
  pub counter : Provider → ℕ
  pub made : (p : Provider) → (next p).0 ≡ name (counter p)
  pub counted : (p : Provider) → counter (next p).1 ≡ suc (counter p)
  pub hash_kept : (p : Provider) → (next p).1.hash ≡ p.hash
  pub address_kept : (p : Provider) → (next p).1.address ≡ p.address
  pub read :
      (k a : ℕ)
      → from_text reading (some a) (name k)
        ≡ some (record { parent = some a; representation = parts k })
  pub written : (k : ℕ) → get_full_name (parts k) ≡ name k
  pub injective : (j k : ℕ) → name j ≡ name k → j ≡ k

-- The name with the number `k` that a loop gives back, and the provider behind it.
pub record Found (fuel reading : ℕ) (next : Provider → Text × Provider) (n : Naming reading next)
    (p : Provider) : Type 0 where
  pub k : ℕ
  pub after : Provider
  pub returns :
      generate_from fuel reading next p
      ≡ some (record { parent = some p.address; representation = n.parts k }, after)
  pub unknown : is_some (find text_eq (n.name k) p.hash) ≡ false
  pub hash_kept : after.hash ≡ p.hash
  pub address_kept : after.address ≡ p.address
  pub behind : n.counter p ≤ k
  pub counted : n.counter after ≡ suc k

module _ (reading : ℕ) (next : Provider → Text × Provider) (n : Naming reading next) where
  names_differ : (j k : ℕ) → j < k → text_eq (n.name j) (n.name k) ≡ false
  names_differ j k h = elim (Bool-cases (text_eq (n.name j) (n.name k))) [
    | inl q ↦ absurd (omega (arith, h, n.injective j k (text_eq→≡ (n.name j) (n.name k) q)))
    | inr q ↦ q
  ]

  -- One round
  abbrev candidate : Provider → Uuid
  candidate p = record { parent = some p.address; representation = n.parts (n.counter p) }

  round :
      (fuel : ℕ) (p : Provider)
      → generate_from (suc fuel) reading next p ≡ (
          if is_some (find text_eq (n.name (n.counter p)) p.hash)
          then generate_from fuel reading next (next p).1
          else some (candidate p, (next p).1))
  unfolding generate_from exists
  round fuel p =
      rw
        (
          generate_from,
          n.made p,
          n.read (n.counter p) p.address,
          exists,
          n.written (n.counter p),
          n.hash_kept p,
        )
        refl

  -- `ks` holds the taken names from the counter on.
  generate_from-Found :
      (fuel : ℕ) (p : Provider) (ks : List Text)
      → ((k : ℕ)
          → n.counter p ≤ k
          → is_some (find text_eq (n.name k) p.hash) ≡ true
          → has (n.name k) ks ≡ true)
      → length ks < fuel
      → Found fuel reading next n p
  generate_from-Found zero p ks h le = absurd (omega (arith, le))
  generate_from-Found (suc fuel) p ks h le =
      elim (Bool-cases (is_some (find text_eq (n.name (n.counter p)) p.hash))) [
        | inl q ↦
            let taken = n.name (n.counter p) in
            let found =
              generate_from-Found fuel (next p).1 (without taken ks)
                (λ k least known.
                  let later : n.counter p < k = omega (arith, least, n.counted p) in
                  has-without taken (n.name k) ks (names_differ (n.counter p) k later)
                    (h k (omega (arith, later)) (rw (n.hash_kept p) at known)))
                (omega (arith, length-without taken ks (h (n.counter p) (omega arith) q), le)) in
            record {
              k = found.k;
              after = found.after;
              returns =
                  round fuel p
                  ∙ (rw q found.returns
                      ∙ ap
                          (λ (a : ℕ). some (
                            let r : Uuid = record {
                              parent = some a;
                              representation = n.parts found.k;
                            } in
                                r,
                            found.after,
                          ))
                          (n.address_kept p));
              unknown =
                  ap (λ m. is_some (find text_eq (n.name found.k) m)) (sym (n.hash_kept p))
                  ∙ found.unknown;
              hash_kept = found.hash_kept ∙ n.hash_kept p;
              address_kept = found.address_kept ∙ n.address_kept p;
              behind = omega (arith, found.behind, n.counted p);
              counted = found.counted;
            }
        | inr q ↦ record {
          k = n.counter p;
          after = (next p).1;
          returns = round fuel p ∙ rw q refl;
          unknown = q;
          hash_kept = n.hash_kept p;
          address_kept = n.address_kept p;
          behind = omega arith;
          counted = n.counted p;
        }
      ]

  -- As many rounds as there are names taken, and one more, are enough.
  pub generate_from-ends :
      (fuel : ℕ) (p : Provider) → length p.hash < fuel → Found fuel reading next n p
  generate_from-ends fuel p le =
      generate_from-Found fuel p (keys p.hash)
        (λ k least known. sym (has-keys (n.name k) p.hash) ∙ known)
        (omega (arith, le, length-keys p.hash))
