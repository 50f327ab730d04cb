-- ===== src/Scheduling/Requests.antt =====
-- Proofs about csapex_core/src/scheduling/thread_pool.cpp: where each request for a group puts a generator.
use csapex.Base.{
  ℕ, suc, ◌<◌, ◌≡◌, ◌≢◌, refl, sym, ap, subst, ◌∙◌, any, ◌||◌, ◌==◌, ==_iff, ==_refl, Bool, true,
  false, List, [], ◌∷◌, Option, none, some, elem, Bool-cases, inl, inr, arith,
}
use csapex.Base.Int.{pos}
use csapex.Base.Result.{ok, Ensures, Ensures-ok, Ensures-mono}
use csapex.Scheduling.Membership.{IsPool}
use csapex.Scheduling.Assignment.{Assigned, assign_generator_to_group-Assigned}
use csapex.Scheduling.Pool.{
  ThreadPool, id_of, private_thread, default_group_id, is_in_group, make_group, with_id,
  assign_generator_to_group, use_private_thread_for, use_default_thread_for, find_group,
  assign_if_found, add_to_group, create_group, join_or_create, create_new_group_for,
}
use csapex.Scheduling.Upkeep.{new_group, new_known, new_empty, make_group-IsPool}

pub find_group-found :
    (test : ℕ → Bool) (gs : List ℕ) (g : ℕ)
    → find_group test gs ≡ some g
    → (elem g gs ≡ true) × (test g ≡ true)
unfolding find_group
find_group-found test [] g e = cc e
find_group-found test (x ∷ gs) g e = elim (Bool-cases (test x)) [
  | inl q ↦
      let same : x ≡ g = cc (rw q at e) in (ground (arith, same), subst (λ k. test k ≡ true) same q)
  | inr q ↦ let r = find_group-found test gs g (rw q at e) in (ground (arith, r.0), r.1)
]

find_group-none : (test : ℕ → Bool) (gs : List ℕ) → find_group test gs ≡ none → any test gs ≡ false
unfolding find_group
find_group-none test [] e = refl
find_group-none test (x ∷ gs) e = elim (Bool-cases (test x)) [
  | inl q ↦ let bad : some x ≡ none = rw q at e in cc bad
  | inr q ↦ rw (q, find_group-none test gs (rw q at e)) refl
]

any_found :
    (test : ℕ → Bool) (g : ℕ) (gs : List ℕ) → elem g gs ≡ true → test g ≡ true → any test gs ≡ true
any_found test g [] m q = cc m
any_found test g (x ∷ gs) m q = elim (Bool-cases (g == x)) [
  | inl e ↦ rw (sym ((==_iff g x).0 e), q) refl
  | inr e ↦ rw (any_found test g gs (rw e at m) q) (ground arith)
]

find_group-any :
    (test : ℕ → Bool) (gs : List ℕ) (g : ℕ) → find_group test gs ≡ some g → any test gs ≡ true
find_group-any test gs g e = let (m, q) = find_group-found test gs g e in any_found test g gs m q

-- A generator that was put into a group of a number, or was not.
abbrev pub Joined : Bool → ℕ → ℕ → ThreadPool → ThreadPool → Type 0
Joined true t i p p' = is_in_group t i p' ≡ true
Joined false t i p p' = p' ≡ p

pub record Grouped (b : Bool) (t i : ℕ) (p p' : ThreadPool) : Type 0 where
  pub valid : IsPool p'
  pub joined : Joined b t i p p'
  pub others : (u : ℕ) → (t == u) ≡ false → p'.assignment u ≡ p.assignment u
  pub short_names : p'.short_name ≡ p.short_name

-- Whether there is a group of a number.
abbrev pub has_group : ThreadPool → ℕ → Bool
has_group p i = any (λ g. id_of p g == i) p.groups

-- The private number can be asked for always, any other one if there is such a group.
abbrev pub may_join : ThreadPool → ℕ → Bool
may_join p i = i == private_thread || has_group p i

-- The number of the group of a name, or of the one that is made.
abbrev pub number_of : ThreadPool → Option ℕ → ℕ
number_of p none = p.world.groups.next_id
number_of p (some g) = id_of p g

module _ (p : ThreadPool) (valid : IsPool p) (t : ℕ) where
  unmoved : (i : ℕ) → is_in_group t i p ≡ true → Ensures (Assigned t i p) (ok p)
  unmoved i q =
      Ensures-ok p (record { valid = valid; placed = q; others = λ u n. refl; short_names = refl })

  -- A generator that is put into a group that was made for it.
  to_made-Assigned :
      (i name next_id : ℕ)
      → (i ≡ private_thread → (u : ℕ) × (name ≡ p.short_name u))
      → 0 < next_id
      → Ensures
          (Assigned t i p)
          (assign_generator_to_group t (new_group p valid) (make_group i name next_id p))
  to_made-Assigned i name next_id owner fresh =
      let n = new_group p valid in
      let made = make_group i name next_id p in
      let i_made : id_of made n ≡ i = rw (==_refl n) refl in
      Ensures-mono (assign_generator_to_group t n made)
        (assign_generator_to_group-Assigned made t n
          (make_group-IsPool p valid i name next_id owner fresh) (new_known p valid)
          (λ k. new_empty p valid))
        λ p' a. record {
          valid = a.valid;
          placed = subst (λ k. is_in_group t k p' ≡ true) i_made a.placed;
          others = a.others;
          short_names = a.short_names;
        }

  pub use_private-Assigned : Ensures (Assigned t 0 p) (use_private_thread_for t p)
  unfolding use_private_thread_for
  use_private-Assigned = elim (Bool-cases (is_in_group t 0 p)) [
    | inl q ↦ rw q (unmoved 0 q)
    | inr q ↦ rw q (
        to_made-Assigned 0 (p.short_name t) (with_id 0 p.world.groups.next_id) (λ k. (t, refl))
          (ground (arith, valid.counted)))
  ]

  pub use_default-Assigned : Ensures (Assigned t 1 p) (use_default_thread_for t p)
  unfolding use_default_thread_for
  use_default-Assigned =
      Ensures-mono (assign_generator_to_group t p.default_group p)
        (assign_generator_to_group-Assigned p t p.default_group valid valid.default_known
          (λ k. absurd (omega (arith, sym valid.default_id ∙ k))))
        λ p' a. record {
          valid = a.valid;
          placed = subst (λ k. is_in_group t k p' ≡ true) valid.default_id a.placed;
          others = a.others;
          short_names = a.short_names;
        }

  -- A group that is not private takes any generator.
  to_shared-Assigned :
      (g : ℕ)
      → elem g p.groups ≡ true
      → id_of p g ≢ private_thread
      → Ensures (Assigned t (id_of p g) p) (assign_generator_to_group t g p)
  to_shared-Assigned g m shared =
      assign_generator_to_group-Assigned p t g valid m (λ k. absurd (shared k))

  grouped : (i : ℕ) (p' : ThreadPool) → Assigned t i p p' → Grouped true t i p p'
  grouped i p' a = record {
    valid = a.valid;
    joined = a.placed;
    others = a.others;
    short_names = a.short_names;
  }

  stays : (i : ℕ) → Grouped false t i p p
  stays i = record { valid = valid; joined = refl; others = λ u n. refl; short_names = refl }

  if_found-Grouped :
      (i : ℕ) (found : Option ℕ)
      → (i == private_thread) ≡ false
      → find_group (λ g. id_of p g == i) p.groups ≡ found
      → Ensures (Grouped (has_group p i) t i p) (assign_if_found t found p)
  if_found-Grouped i none k e =
      rw (find_group-none (λ g. id_of p g == i) p.groups e) (Ensures-ok p (stays i))
  if_found-Grouped i (some g) k e =
      let (m, q) = find_group-found (λ g. id_of p g == i) p.groups g e in
      let same : id_of p g ≡ i = (==_iff (id_of p g) i).0 q in
      let shared : id_of p g ≢ private_thread = λ z. ground (arith, q, k, z) in
      rw (find_group-any (λ g. id_of p g == i) p.groups g e) (
        Ensures-mono (assign_generator_to_group t g p) (to_shared-Assigned g m shared)
          λ p' a. grouped i p' (subst (λ j. Assigned t j p p') same a))

  default_exists : has_group p default_group_id ≡ true
  default_exists =
      any_found (λ g. id_of p g == default_group_id) p.default_group p.groups valid.default_known
        (rw valid.default_id refl)

  pub add_to_group-Grouped :
      (i : ℕ) → Ensures (Grouped (may_join p i) t i p) (add_to_group t (pos i) p)
  unfolding add_to_group
  add_to_group-Grouped i = elim (Bool-cases (i == private_thread)) [
    | inl q ↦ rw q (
        Ensures-mono (use_private_thread_for t p) use_private-Assigned
          λ p' a. grouped i p' (subst (λ j. Assigned t j p p') (sym ((==_iff i 0).0 q)) a))
    | inr q ↦ elim (Bool-cases (i == default_group_id)) [
      | inl r ↦
          let is_one = (==_iff i 1).0 r in
          rw (q, r, ap (has_group p) is_one ∙ default_exists)
            (Ensures-mono (use_default_thread_for t p) use_default-Assigned
              λ p' a. grouped i p' (subst (λ j. Assigned t j p p') (sym is_one) a))
      | inr r ↦ rw (q, r) (if_found-Grouped i (find_group (λ g. id_of p g == i) p.groups) q refl)
    ]
  ]

  if_new-Placed :
      (name : ℕ) (found : Option ℕ)
      → ((u : ℕ) → name ≢ p.short_name u)
      → ((g : ℕ)
          → found ≡ some g
          → (elem g p.groups ≡ true) × ((p.world.groups.name g == name) ≡ true))
      → Ensures (Assigned t (number_of p found) p) (join_or_create t name found p)
  unfolding join_or_create create_group
  if_new-Placed name (some g) free h =
      let shared : id_of p g ≢ private_thread = λ e.
        let n = valid.named g (h g refl).0 e in
        free n.0 (sym ((==_iff (p.world.groups.name g) name).0 (h g refl).1) ∙ n.1) in
      to_shared-Assigned g (h g refl).0 shared
  if_new-Placed name none free h =
      let n = p.world.groups.next_id in
      to_made-Assigned n name (suc n) (λ k. absurd (omega (arith, valid.counted, k))) (omega arith)

  pub create_new_group_for-Placed :
      (name : ℕ)
      → ((u : ℕ) → name ≢ p.short_name u)
      → Ensures
          (Assigned t (number_of p (find_group (λ g. p.world.groups.name g == name) p.groups)) p)
          (create_new_group_for t name p)
  unfolding create_new_group_for
  create_new_group_for-Placed name free =
      if_new-Placed name (find_group (λ g. p.world.groups.name g == name) p.groups) free
        (λ g e. find_group-found (λ g. p.world.groups.name g == name) p.groups g e)
