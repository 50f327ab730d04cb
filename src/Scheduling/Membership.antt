-- ===== src/Scheduling/Membership.antt =====
-- Proofs about csapex_core/src/scheduling/thread_pool.cpp: the invariant of a pool, and that it holds
-- where a generator has been moved.
use csapex.Base.{
  ℕ, ◌<◌, ◌≡◌, refl, sym, ap, ◌∙◌, ◌==◌, ==_iff, ==_refl, ◌&&◌, ◌||◌, not, Bool, true, false, List,
  [], ◌∷◌, ◌++◌, Option, none, some, elem, update, Bool-cases, inl, inr, arith,
}
use csapex.Base.Result.{Ensures, Ensures-mono}
use csapex.Scheduling.{SchedulingState}
use csapex.Scheduling.Queue.{erase_generator}
use csapex.Scheduling.Runner.{detach, assign_to_scheduler}
use csapex.Scheduling.Structure.{Structured}
use csapex.Scheduling.Handover.{
  with_member, members_without, scheduler_without, detach-Structured,
  assign_to_scheduler-Structured,
}
use csapex.Scheduling.Pool.{ThreadPool, id_of, private_thread}

abbrev pub assigned_to : ℕ → Option ℕ → Bool
assigned_to g none = false
assigned_to g (some h) = h == g

-- The pool's table, the schedulers of the runners and the generators of the groups agree.
pub record Agrees (p : ThreadPool) : Type 0 where
  pub agree : (t : ℕ) → p.world.runners.scheduler t ≡ p.assignment t
  pub listed : (g t : ℕ) → elem t (p.world.groups.generators g) ≡ assigned_to g (p.assignment t)

-- The tables agree, every group in use is one of the pool's, and a private group has one generator at
-- most and the name of a generator.
pub record IsPool (p : ThreadPool) : Type 0 where
  pub tables : Agrees p
  pub known : (t g : ℕ) → p.assignment t ≡ some g → elem g p.groups ≡ true
  pub alone :
      (t u g : ℕ)
      → p.assignment t ≡ some g
      → p.assignment u ≡ some g
      → id_of p g ≡ private_thread
      → t ≡ u
  pub named :
      (g : ℕ)
      → elem g p.groups ≡ true
      → id_of p g ≡ private_thread
      → (t : ℕ) × (p.world.groups.name g ≡ p.short_name t)
  pub default_known : elem p.default_group p.groups ≡ true
  pub default_id : id_of p p.default_group ≡ 1
  pub bounded : (g : ℕ) → elem g p.groups ≡ true → g < p.world.groups.next_group
  pub counted : private_thread < p.world.groups.next_id

pub elem-append : (x : ℕ) (xs ys : List ℕ) → elem x (xs ++ ys) ≡ elem x xs || elem x ys
elem-append x [] ys = refl
elem-append x (y ∷ xs) ys = ground (arith, elem-append x xs ys)

elem-erase_generator :
    (r u : ℕ) (xs : List ℕ) → elem u (erase_generator r xs) ≡ not (r == u) && elem u xs
unfolding erase_generator
elem-erase_generator r u [] = ground arith
elem-erase_generator r u (x ∷ xs) = ground (arith, elem-erase_generator r u xs)

module _ (p : ThreadPool) (valid : Agrees p) (t : ℕ) where
  pub without_scheduler :
      (old : Option ℕ) (u : ℕ)
      → p.world.runners.scheduler t ≡ old
      → scheduler_without t old p.world.runners.scheduler u ≡ update p.assignment t none u
  without_scheduler none u e = elim (Bool-cases (t == u)) [
    | inl q ↦ rw q (ap p.world.runners.scheduler (sym ((==_iff t u).0 q)) ∙ e)
    | inr q ↦ rw q (valid.agree u)
  ]
  without_scheduler (some o) u e = elim (Bool-cases (t == u)) [
    | inl q ↦ rw q refl
    | inr q ↦ rw q (valid.agree u)
  ]

  pub without_members :
      (old : Option ℕ) (h u : ℕ)
      → p.assignment t ≡ old
      → elem u (members_without t old p.world.groups.generators h)
        ≡ not (t == u) && assigned_to h (p.assignment u)
  without_members none h u e = elim (Bool-cases (t == u)) [
    | inl q ↦
        rw q (valid.listed h u ∙ ap (assigned_to h) (ap p.assignment (sym ((==_iff t u).0 q)) ∙ e))
    | inr q ↦ rw q (valid.listed h u)
  ]
  without_members (some o) h u e = elim (Bool-cases (o == h)) [
    | inl q ↦
        let same = (==_iff o h).0 q in
        rw q (
          elem-erase_generator t u (p.world.groups.generators o)
          ∙ ap (λ b. not (t == u) && b)
              (ap (λ k. elem u (p.world.groups.generators k)) same ∙ valid.listed h u))
    | inr q ↦ elim (Bool-cases (t == u)) [
      | inl r ↦
          let here : assigned_to h (p.assignment u) ≡ false =
            ap (assigned_to h) (ap p.assignment (sym ((==_iff t u).0 r)) ∙ e) ∙ q in
          rw (q, r) (valid.listed h u ∙ here)
      | inr r ↦ rw (q, r) (valid.listed h u)
    ]
  ]

-- What holds of the groups and runners once a generator has been taken over by another group.
pub record Moved (p : ThreadPool) (t g : ℕ) (w : SchedulingState) : Type 0 where
  pub id : w.groups.id ≡ p.world.groups.id
  pub name : w.groups.name ≡ p.world.groups.name
  pub next_group : w.groups.next_group ≡ p.world.groups.next_group
  pub next_id : w.groups.next_id ≡ p.world.groups.next_id
  pub agree : (u : ℕ) → w.runners.scheduler u ≡ update p.assignment t (some g) u
  pub listed :
      (h u : ℕ) → elem u (w.groups.generators h) ≡ assigned_to h (update p.assignment t (some g) u)

module _ (p : ThreadPool) (valid : Agrees p) (t g : ℕ) where
  detached : SchedulingState
  detached = detach t p.world

  left :
      Structured p.world detached
        (members_without t (p.world.runners.scheduler t) p.world.groups.generators)
        (scheduler_without t (p.world.runners.scheduler t) p.world.runners.scheduler)
  unfolding detached
  left = detach-Structured t p.world

  detached_scheduler : (u : ℕ) → detached.runners.scheduler u ≡ update p.assignment t none u
  detached_scheduler u =
      ap (λ f. f u) left.schedulers
      ∙ without_scheduler p valid t (p.world.runners.scheduler t) u refl

  detached_members :
      (h u : ℕ)
      → elem u (detached.groups.generators h) ≡ not (t == u) && assigned_to h (p.assignment u)
  detached_members h u =
      ap (λ f. elem u (f h)) left.members
      ∙ without_members p valid t (p.world.runners.scheduler t) h u (sym (valid.agree t))

  joined :
      (h u : ℕ)
      → elem u (with_member g t detached.groups.generators h)
        ≡ assigned_to h (update p.assignment t (some g) u)
  joined h u = elim (Bool-cases (g == h)) [
    | inl q ↦
        let same = (==_iff g h).0 q in
        rw q (
          elem-append u (detached.groups.generators g) (t ∷ [])
          ∙ ap (λ b. b || elem u (t ∷ []))
              (ap (λ k. elem u (detached.groups.generators k)) same ∙ detached_members h u)
          ∙ ground (arith))
    | inr q ↦ rw q (detached_members h u ∙ ground (arith))
  ]

  rejoined :
      (u : ℕ) → update detached.runners.scheduler t (some g) u ≡ update p.assignment t (some g) u
  rejoined u = elim (Bool-cases (t == u)) [
    | inl q ↦ rw q refl
    | inr q ↦ rw q (detached_scheduler u ∙ rw q refl)
  ]

  pub assign_to_scheduler-Moved : Ensures (Moved p t g) (assign_to_scheduler t g (detach t p.world))
  unfolding detached
  assign_to_scheduler-Moved =
      Ensures-mono (assign_to_scheduler t g (detach t p.world))
        (assign_to_scheduler-Structured t g detached (detached_scheduler t ∙ rw (==_refl t) refl))
        λ w s. record {
          id = s.id ∙ left.id;
          name = s.name ∙ left.name;
          next_group = s.next_group ∙ left.next_group;
          next_id = s.next_id ∙ left.next_id;
          agree = λ u. ap (λ f. f u) s.schedulers ∙ rejoined u;
          listed = λ h u. ap (λ f. elem u (f h)) s.members ∙ joined h u;
        }
