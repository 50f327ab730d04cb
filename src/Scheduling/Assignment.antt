-- ===== src/Scheduling/Assignment.antt =====
-- Proofs about csapex_core/src/scheduling/thread_pool.cpp: `assignGeneratorToGroup` keeps the invariant, and
-- a private group that is left is empty when it is removed.
use csapex.Base.{
  ℕ, ◌<◌, ◌≡◌, ◌⊎◌, refl, sym, ap, subst, ◌∙◌, ◌==◌, ==_iff, ==_refl, true, false, List, [], ◌∷◌,
  Option, none, some, elem, update, Bool-cases, inl, inr, arith,
}
use csapex.Base.Result.{ok, Ensures, Ensures-ok, Ensures-bind}
use csapex.Scheduling.{SchedulingState}
use csapex.Scheduling.Queue.{is_empty}
use csapex.Scheduling.Runner.{detach, assign_to_scheduler}
use csapex.Scheduling.Membership.{IsPool, assigned_to, Moved, assign_to_scheduler-Moved}
use csapex.Scheduling.Pool.{
  ThreadPool, id_of, private_thread, is_in_group, has_id, remove_from, remove_group, leave_group,
  assign_generator_to_group,
}

-- The groups without one of them.
pub record Without (g : ℕ) (xs ys : List ℕ) : Type 0 where
  pub fewer : (h : ℕ) → elem h ys ≡ true → elem h xs ≡ true
  pub rest : (h : ℕ) → (h == g) ≡ false → elem h xs ≡ true → elem h ys ≡ true

is_empty_of :
    (g : ℕ) (w : SchedulingState)
    → ((t : ℕ) → elem t (w.groups.generators g) ≡ false)
    → is_empty g w ≡ true
is_empty_of g w none_in = no_members (w.groups.generators g) none_in
  where
    no_members :
        (ts : List ℕ)
        → ((t : ℕ) → elem t ts ≡ false)
        → (elim ts [ [] ↦ true | r ∷ rs ↦ false ]) ≡ true
    no_members [] h = refl
    no_members (r ∷ rs) h = ground (arith, h r)

remove_from-Without :
    (g : ℕ) (w : SchedulingState) (xs : List ℕ)
    → is_empty g w ≡ true
    → Ensures (Without g xs) (remove_from g w xs)
unfolding remove_from
remove_from-Without g w [] e = Ensures-ok [] (record { fewer = λ h m. m; rest = λ h n m. m })
remove_from-Without g w (x ∷ xs) e = elim (Bool-cases (x == g)) [
  | inl q ↦
      rw (q, e)
        (Ensures-ok xs (record {
          fewer = λ h m. ground (arith, m);
          rest = λ h n m. ground (arith, n, m, (==_iff x g).0 q);
        }))
  | inr q ↦ rw q (
      Ensures-bind {Q = Without g (x ∷ xs)} (remove_from g w xs) (λ ys. ok (x ∷ ys))
        (remove_from-Without g w xs e)
        λ ys o. Ensures-ok (x ∷ ys) (record {
          fewer = λ h m. ground (arith, m, o.fewer h);
          rest = λ h n m. ground (arith, m, o.rest h n);
        }))
]

-- The generator is in a group of the number, the others are where they were, and the invariant holds.
pub record Assigned (t i : ℕ) (p p' : ThreadPool) : Type 0 where
  pub valid : IsPool p'
  pub placed : is_in_group t i p' ≡ true
  pub others : (u : ℕ) → (t == u) ≡ false → p'.assignment u ≡ p.assignment u
  pub short_names : p'.short_name ≡ p.short_name

module _ (p : ThreadPool) (valid : IsPool p) (t g : ℕ) (known : elem g p.groups ≡ true)
    (elsewhere : is_in_group t (id_of p g) p ≡ false)
    (free : id_of p g ≡ private_thread → (u : ℕ) → assigned_to g (p.assignment u) ≡ false) where
  some_of_assigned : (o : Option ℕ) (h : ℕ) → assigned_to h o ≡ true → o ≡ some h
  some_of_assigned none h e = cc e
  some_of_assigned (some k) h e = ap some ((==_iff k h).0 e)

  occupied : (u h : ℕ) → p.assignment u ≡ some h → id_of p h ≡ private_thread → (h == g) ≡ false
  occupied u h e i = elim (Bool-cases (h == g)) [
    | inr n ↦ n
    | inl q ↦
        let same = (==_iff h g).0 q in
        let none_here = free (subst (λ k. id_of p k ≡ private_thread) same i) u in
        let here : assigned_to g (p.assignment u) ≡ true = ap (assigned_to g) e ∙ q in
        cc (none_here, here)
  ]

  module _ (w : SchedulingState) (moved : Moved p t g w) where
    abbrev moved_pool : List ℕ → ThreadPool
    moved_pool gs = record p { world = w; assignment = update p.assignment t (some g); groups = gs }

    now_assigned : update p.assignment t (some g) t ≡ some g
    now_assigned = rw (==_refl t) refl

    assigned_cases :
        (u h : ℕ)
        → update p.assignment t (some g) u ≡ some h
        → (((t == u) ≡ true) × (g ≡ h)) ⊎ (((t == u) ≡ false) × (p.assignment u ≡ some h))
    assigned_cases u h e = elim (Bool-cases (t == u)) [
      | inl q ↦ inl (q, cc (rw q at e))
      | inr q ↦ inr (q, rw q at e)
    ]

    alone_moved :
        (u v h : ℕ)
        → update p.assignment t (some g) u ≡ some h
        → update p.assignment t (some g) v ≡ some h
        → w.groups.id h ≡ private_thread
        → u ≡ v
    alone_moved u v h e f i =
        let i' : id_of p h ≡ private_thread = sym (ap (λ k. k h) moved.id) ∙ i in
        elim (assigned_cases u h e) [
          | inl (q, a) ↦ elim (assigned_cases v h f) [
            | inl (r, b) ↦ sym ((==_iff t u).0 q) ∙ (==_iff t v).0 r
            | inr (r, b) ↦ ground (arith, occupied v h b i', a)
          ]
          | inr (q, a) ↦ elim (assigned_cases v h f) [
            | inl (r, b) ↦ ground (arith, occupied u h a i', b)
            | inr (r, b) ↦ valid.alone u v h a b i'
          ]
        ]

    -- The pool once the generator has been moved, with the groups that are left.
    moved_pool-Assigned :
        (gs : List ℕ)
        → ((h : ℕ) → elem h gs ≡ true → elem h p.groups ≡ true)
        → ((u h : ℕ) → update p.assignment t (some g) u ≡ some h → elem h gs ≡ true)
        → elem p.default_group gs ≡ true
        → Assigned t (id_of p g) p (moved_pool gs)
    moved_pool-Assigned gs fewer all_known def = record {
      valid = record {
        tables = record { agree = moved.agree; listed = moved.listed };
        known = all_known;
        alone = alone_moved;
        named = λ h m i.
            let n = valid.named h (fewer h m) (sym (ap (λ k. k h) moved.id) ∙ i) in
            (n.0, ap (λ k. k h) moved.name ∙ n.1);
        default_known = def;
        default_id = ap (λ k. k p.default_group) moved.id ∙ valid.default_id;
        bounded = λ h m. subst (λ k. h < k) (sym moved.next_group) (valid.bounded h (fewer h m));
        counted = subst (λ k. 0 < k) (sym moved.next_id) valid.counted;
      };
      placed =
          ap (has_id w.groups.id (id_of p g)) now_assigned
          ∙ ap (λ k. k g == id_of p g) moved.id
          ∙ ==_refl (id_of p g);
      others = λ u n. rw n refl;
      short_names = refl;
    }

    known_moved : (u h : ℕ) → update p.assignment t (some g) u ≡ some h → elem h p.groups ≡ true
    known_moved u h e = elim (assigned_cases u h e) [
      | inl (q, a) ↦ subst (λ k. elem k p.groups ≡ true) a known
      | inr (q, a) ↦ valid.known u h a
    ]

    -- Nobody else is in the private group that the generator left.
    module _ (o : ℕ) (was : p.assignment t ≡ some o) (i : id_of p o ≡ private_thread) where
      left_by : (u : ℕ) → (update p.assignment t (some g) u ≡ some o) → false ≡ true
      left_by u e = elim (assigned_cases u o e) [
        | inl (q, a) ↦ ground (arith, occupied t o was i, a)
        | inr (q, a) ↦ ground (arith, valid.alone t u o was a i, q)
      ]

      left_empty : (u : ℕ) → elem u (w.groups.generators o) ≡ false
      left_empty u = elim (Bool-cases (assigned_to o (update p.assignment t (some g) u))) [
        | inl q ↦ cc (left_by u (some_of_assigned (update p.assignment t (some g) u) o q))
        | inr q ↦ moved.listed o u ∙ q
      ]

      kept : (u h : ℕ) → update p.assignment t (some g) u ≡ some h → (h == o) ≡ false
      kept u h e = elim (Bool-cases (h == o)) [
        | inr q ↦ q
        | inl q ↦ cc (left_by u (e ∙ ap some ((==_iff h o).0 q)))
      ]

      default_other : (p.default_group == o) ≡ false
      default_other = elim (Bool-cases (p.default_group == o)) [
        | inr q ↦ q
        | inl q ↦ absurd (
            omega (arith, sym valid.default_id ∙ ap (id_of p) ((==_iff p.default_group o).0 q) ∙ i))
      ]

      remove_left : Ensures (Assigned t (id_of p g) p) (remove_group o (moved_pool p.groups))
      unfolding remove_group
      remove_left =
          Ensures-bind (remove_from o w p.groups) (λ gs. ok (moved_pool gs))
            (remove_from-Without o w p.groups (is_empty_of o w left_empty))
            λ gs rest. Ensures-ok (moved_pool gs) (
              moved_pool-Assigned gs rest.fewer
                (λ u h e. rest.rest h (kept u h e) (known_moved u h e))
                (rest.rest p.default_group default_other valid.default_known))

    leave_group-Assigned :
        (old : Option ℕ)
        → p.assignment t ≡ old
        → Ensures (Assigned t (id_of p g) p) (leave_group old (moved_pool p.groups))
    unfolding leave_group
    leave_group-Assigned none e =
        Ensures-ok (moved_pool p.groups)
          (moved_pool-Assigned p.groups (λ h m. m) known_moved valid.default_known)
    leave_group-Assigned (some o) e = elim (Bool-cases (w.groups.id o == private_thread)) [
      | inl q ↦ rw q (
          remove_left o e
            (sym (ap (λ k. k o) moved.id) ∙ (==_iff (w.groups.id o) private_thread).0 q))
      | inr q ↦ rw q (
          Ensures-ok (moved_pool p.groups)
            (moved_pool-Assigned p.groups (λ h m. m) known_moved valid.default_known))
    ]

  moves : Ensures (Assigned t (id_of p g) p) (assign_generator_to_group t g p)
  unfolding assign_generator_to_group
  moves = rw elsewhere (
      Ensures-bind (assign_to_scheduler t g (detach t p.world)) _
        (assign_to_scheduler-Moved p valid.tables t g)
        λ w m. leave_group-Assigned w m (p.assignment t) refl)

-- A generator is assigned to a group of the pool; a private group must be free of generators.
pub assign_generator_to_group-Assigned :
    (p : ThreadPool) (t g : ℕ)
    → IsPool p
    → elem g p.groups ≡ true
    → (id_of p g ≡ private_thread → (u : ℕ) → assigned_to g (p.assignment u) ≡ false)
    → Ensures (Assigned t (id_of p g) p) (assign_generator_to_group t g p)
unfolding assign_generator_to_group
assign_generator_to_group-Assigned p t g valid known free =
    elim (Bool-cases (is_in_group t (id_of p g) p)) [
      | inl q ↦ rw q (
          Ensures-ok p
            (record { valid = valid; placed = q; others = λ u n. refl; short_names = refl }))
      | inr q ↦ moves p valid t g known q free
    ]
