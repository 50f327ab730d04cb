-- ===== src/Scheduling/Upkeep.antt =====
-- Proofs about csapex_core/src/scheduling/thread_pool.cpp: making a group and taking a generator out of the
-- pool keep the invariant.
use csapex.Base.{
  ℕ, ◌<◌, ◌≡◌, ◌⊎◌, refl, sym, ap, subst, ◌∙◌, ◌==◌, ==_iff, ◌&&◌, not, true, false, [], ◌∷◌, ◌++◌,
  none, some, elem, update, Bool-cases, Option-cases, inl, inr, arith,
}
use csapex.Scheduling.Runner.{detach}
use csapex.Scheduling.Handover.{detach-Structured}
use csapex.Scheduling.Membership.{
  IsPool, assigned_to, elem-append, without_scheduler, without_members,
}
use csapex.Scheduling.Pool.{
  ThreadPool, id_of, private_thread, make_group, remove_generator_from_pool,
}

module _ (p : ThreadPool) (valid : IsPool p) where
  abbrev pub new_group : ℕ
  new_group = p.world.groups.next_group

  pub old_known : (g : ℕ) → elem g p.groups ≡ true → (new_group == g) ≡ false
  old_known g m = ground (arith, valid.bounded g m)

  old_assigned : (t g : ℕ) → p.assignment t ≡ some g → (new_group == g) ≡ false
  old_assigned t g e = old_known g (valid.known t g e)

  new_cases :
      (g : ℕ)
      → elem g (p.groups ++ new_group ∷ []) ≡ true
      → (elem g p.groups ≡ true) ⊎ (new_group ≡ g)
  new_cases g m = elim (Bool-cases (elem g p.groups)) [
    | inl q ↦ inl q
    | inr q ↦ inr (ground (arith, sym (elem-append g p.groups (new_group ∷ [])) ∙ m, q))
  ]

  pub new_known : elem new_group (p.groups ++ new_group ∷ []) ≡ true
  new_known = elem-append new_group p.groups (new_group ∷ []) ∙ ground arith

  still_known : (g : ℕ) → elem g p.groups ≡ true → elem g (p.groups ++ new_group ∷ []) ≡ true
  still_known g m = elem-append g p.groups (new_group ∷ []) ∙ rw m refl

  pub new_empty : (u : ℕ) → assigned_to new_group (p.assignment u) ≡ false
  new_empty u = elim (Option-cases (p.assignment u)) [
    | inl e ↦ rw e refl
    | inr (g, e) ↦ rw e (ground (arith, old_assigned u g e))
  ]

  -- A new group whose number is not private, or whose name is that of a generator.
  pub make_group-IsPool :
      (i name next_id : ℕ)
      → (i ≡ private_thread → (t : ℕ) × (name ≡ p.short_name t))
      → 0 < next_id
      → IsPool (make_group i name next_id p)
  make_group-IsPool i name next_id owner fresh = record {
    tables = record {
      agree = valid.tables.agree;
      listed = λ g t. elim (Bool-cases (new_group == g)) [
        | inl q ↦ rw q (
            sym (new_empty t) ∙ ap (λ k. assigned_to k (p.assignment t)) ((==_iff new_group g).0 q))
        | inr q ↦ rw q (valid.tables.listed g t)
      ];
    };
    known = λ t g e. still_known g (valid.known t g e);
    alone = λ t u g e f k. valid.alone t u g e f (rw (old_assigned t g e) at k);
    named = λ g m k. elim (new_cases g m) [
      | inl old ↦
          let n = valid.named g old (rw (old_known g old) at k) in (n.0, rw (old_known g old) n.1)
      | inr new ↦ let q = (==_iff new_group g).1 new in let n = owner (rw q at k) in (n.0, rw q n.1)
    ];
    default_known = still_known p.default_group valid.default_known;
    default_id = rw (old_known p.default_group valid.default_known) valid.default_id;
    bounded = λ g m. elim (new_cases g m) [
      | inl old ↦ omega (arith, valid.bounded g old)
      | inr new ↦ omega (arith, new)
    ];
    counted = fresh;
  }

  pub remove_generator-IsPool : (t : ℕ) → IsPool (remove_generator_from_pool t p)
  unfolding remove_generator_from_pool
  remove_generator-IsPool t =
      let left = detach-Structured t p.world in
      let gone : (u h : ℕ) → update p.assignment t none u ≡ some h → p.assignment u ≡ some h =
        λ u h e. elim (Bool-cases (t == u)) [ inl q ↦ cc (rw q at e) | inr q ↦ rw q at e ] in
      let id_kept : (h : ℕ) → (detach t p.world).groups.id h ≡ id_of p h =
        λ h. ap (λ k. k h) left.id in
      record {
        tables = record {
          agree = λ u.
              ap (λ k. k u) left.schedulers
              ∙ without_scheduler p valid.tables t (p.world.runners.scheduler t) u refl;
          listed = λ h u.
              ap (λ k. elem u (k h)) left.members
              ∙ without_members p valid.tables t (p.world.runners.scheduler t) h u
                  (sym (valid.tables.agree t))
              ∙ freed h u;
        };
        known = λ u h e. valid.known u h (gone u h e);
        alone = λ u v h e f k. valid.alone u v h (gone u h e) (gone v h f) (sym (id_kept h) ∙ k);
        named = λ h m k.
            let n = valid.named h m (sym (id_kept h) ∙ k) in (n.0, ap (λ f. f h) left.name ∙ n.1);
        default_known = valid.default_known;
        default_id = id_kept p.default_group ∙ valid.default_id;
        bounded = λ h m. subst (λ k. h < k) (sym left.next_group) (valid.bounded h m);
        counted = subst (λ k. 0 < k) (sym left.next_id) valid.counted;
      }
    where
      freed :
          (h u : ℕ)
          → not (t == u) && assigned_to h (p.assignment u)
            ≡ assigned_to h (update p.assignment t none u)
      freed h u = elim (Bool-cases (t == u)) [ inl q ↦ rw q refl | inr q ↦ rw q refl ]
