-- ===== src/Scheduling/Transfer.antt =====
-- Proofs about csapex_core/src/model/node_runner.cpp and thread_group.cpp: a generator that moves to another
-- group takes its tasks along.
use csapex.Base.{
  ℕ, ◌≡◌, refl, ap, subst, ◌∙◌, ◌==◌, ==_iff, ==_refl, Bool, true, false, not, ◌&&◌, ◌||◌, List, [],
  ◌∷◌, ◌++◌, Option, none, some, elem, Bool-cases, inl, inr, arith,
}
use csapex.Base.Result.{Ensures, Ensures-ok}
use csapex.Scheduling.{SchedulingState}
use csapex.Scheduling.Membership.{elem-append}
use csapex.Scheduling.Order.{elem-insert_task}
use csapex.Scheduling.Service.{elem-tasks_of}
use csapex.Scheduling.Structure.{set_pause-Kept}
use csapex.Scheduling.Handover.{add_with_tasks-Structured}
use csapex.Scheduling.Queue.{schedule_task, schedule_tasks, remaining_tasks, remove_generator}
use csapex.Scheduling.Runner.{
  flush, schedule, schedule_process, set_pause, set_stepping_mode, add_generator, add_with_tasks,
  connect_node_worker, assign_to_scheduler, detach, detach_from, set_remaining, set_scheduler,
  may_step,
}

-- The task waits in the queue of the group, or with the runner.
abbrev pub Pending : ℕ → ℕ → ℕ → SchedulingState → Type 0
Pending r g t w = elem t (w.groups.queue g) || elem t (w.runners.remaining r) ≡ true

module _ (g t : ℕ) where
  Queued : SchedulingState → Type 0
  Queued w = elem t (w.groups.queue g) ≡ true

  schedule_task_keeps : (h u : ℕ) (w : SchedulingState) → Queued w → Queued (schedule_task h u w)
  unfolding schedule_task Queued
  schedule_task_keeps h u w m = elim (Bool-cases (elem u (w.groups.queue h))) [
    | inl q ↦ rw q m
    | inr q ↦ elim (Bool-cases (h == g)) [
      | inl e ↦
          let same : w.groups.queue h ≡ w.groups.queue g = ap w.groups.queue ((==_iff h g).0 e) in
          rw (q, e)
            (elem-insert_task w.tasks.priority u t (w.groups.queue h)
              ∙ ground (arith, m, ap (λ ts. elem t ts) same))
      | inr e ↦ rw (q, e) m
    ]
  ]

  schedule_task_puts : (w : SchedulingState) → Queued (schedule_task g t w)
  unfolding schedule_task Queued
  schedule_task_puts w = elim (Bool-cases (elem t (w.groups.queue g))) [
    | inl q ↦ rw q q
    | inr q ↦
        rw (q, ==_refl g)
          (elem-insert_task w.tasks.priority t t (w.groups.queue g) ∙ rw (==_refl t) refl)
  ]

  schedule_tasks_keeps :
      (h : ℕ) (ts : List ℕ) (w : SchedulingState) → Queued w → Queued (schedule_tasks h ts w)
  unfolding schedule_tasks
  schedule_tasks_keeps h [] w m = m
  schedule_tasks_keeps h (u ∷ ts) w m =
      schedule_tasks_keeps h ts (schedule_task h u w) (schedule_task_keeps h u w m)

  schedule_tasks_puts :
      (ts : List ℕ) (w : SchedulingState) → elem t ts ≡ true → Queued (schedule_tasks g ts w)
  unfolding schedule_tasks
  schedule_tasks_puts [] w m = cc m
  schedule_tasks_puts (u ∷ ts) w m = elim (Bool-cases (t == u)) [
    | inl q ↦
        schedule_tasks_keeps g ts (schedule_task g u w)
          (subst (λ k. Queued (schedule_task g k w)) ((==_iff t u).0 q) (schedule_task_puts w))
    | inr q ↦ schedule_tasks_puts ts (schedule_task g u w) (ground (arith, m, q))
  ]

module _ (r g t : ℕ) where
  -- What the runner holds back is queued once it has a scheduler.
  flush_puts :
      (ts : List ℕ) (w : SchedulingState)
      → elem t (w.groups.queue g) || elem t ts ≡ true
      → Queued g t (flush r (some g) ts w)
  unfolding flush Queued
  flush_puts ts w m = elim (Bool-cases (elem t (w.groups.queue g))) [
    | inl q ↦ schedule_tasks_keeps g t g ts w q
    | inr q ↦ schedule_tasks_puts g t ts w (ground (arith, m, q))
  ]

  schedule_puts :
      (u : ℕ) (w : SchedulingState)
      → w.runners.scheduler r ≡ some g
      → Pending r g t w
      → Queued g t (schedule r u w)
  unfolding schedule
  schedule_puts u w s m = rw s (
      flush_puts (w.runners.remaining r ++ u ∷ []) w
        (ground (arith, m, elem-append t (w.runners.remaining r) (u ∷ []))))

  Pending-of : (w : SchedulingState) → Queued g t w → Pending r g t w
  unfolding Queued
  Pending-of w m = ground (arith, m)

  schedule_process_keeps :
      (w : SchedulingState)
      → w.runners.scheduler r ≡ some g
      → Pending r g t w
      → Pending r g t (schedule_process r w)
  unfolding schedule_process
  schedule_process_keeps w s m =
      elim (Bool-cases (
        not (w.runners.paused r)
        && may_step r w
        && not (w.runners.waiting r)
        && not (w.tasks.scheduled (w.runners.execute_task r)))) [
          | inl q ↦ rw q (
              Pending-of (schedule r (w.runners.execute_task r) w)
                (schedule_puts (w.runners.execute_task r) w s m))
          | inr q ↦ rw q m
        ]

  set_pause_keeps :
      (b : Bool) (w : SchedulingState)
      → w.runners.scheduler r ≡ some g
      → Pending r g t w
      → Pending r g t (set_pause r b w)
  unfolding set_pause
  set_pause_keeps true w s m = m
  set_pause_keeps false w s m = schedule_process_keeps _ s m

  set_stepping_mode_keeps :
      (b : Bool) (w : SchedulingState)
      → w.runners.scheduler r ≡ some g
      → Pending r g t w
      → Pending r g t (set_stepping_mode r b w)
  unfolding set_stepping_mode
  set_stepping_mode_keeps true w s m = m
  set_stepping_mode_keeps false w s m = schedule_process_keeps _ s m

  add_generator_keeps :
      (w : SchedulingState)
      → w.runners.scheduler r ≡ some g
      → Pending r g t w
      → Pending r g t (add_generator g r w)
  unfolding add_generator
  add_generator_keeps w s m =
      let w1 = set_pause r (w.groups.pause g) w in
      let s1 = ap (λ f. f r) (set_pause-Kept r (w.groups.pause g) w).schedulers ∙ s in
      set_stepping_mode_keeps (w.groups.stepping g) w1 s1 (set_pause_keeps (w.groups.pause g) w s m)

  add_with_tasks_puts :
      (w : SchedulingState)
      → w.runners.scheduler r ≡ some g
      → Pending r g t w
      → Queued g t (add_with_tasks g r w)
  unfolding add_with_tasks Queued
  add_with_tasks_puts w s m =
      let w1 = add_generator g r w in
      elim (Bool-cases (elem t (w1.groups.queue g))) [
        | inl q ↦ schedule_tasks_keeps g t g (w1.runners.remaining r) w1 q
        | inr q ↦
            schedule_tasks_puts g t (w1.runners.remaining r) w1
              (ground (arith, add_generator_keeps w s m, q))
      ]

  connected_keeps :
      (w : SchedulingState)
      → w.runners.scheduler r ≡ some g
      → Queued g t w
      → Queued g t (
          let w1 = connect_node_worker r (set_remaining r [] w) in
          schedule r (w1.runners.check_task r) w1)
  unfolding connect_node_worker Queued
  connected_keeps w s m =
      let w1 = connect_node_worker r (set_remaining r [] w) in
      schedule_puts (w1.runners.check_task r) w1 s (ground (arith, m))

  assign_to_scheduler_puts :
      (w : SchedulingState)
      → w.runners.scheduler r ≡ none
      → Pending r g t w
      → Ensures (Queued g t) (assign_to_scheduler r g w)
  unfolding assign_to_scheduler
  assign_to_scheduler_puts w free m =
      let w0 = set_scheduler r (some g) w in
      let s0 : w0.runners.scheduler r ≡ some g = rw (==_refl r) refl in
      let s1 = ap (λ f. f r) (add_with_tasks-Structured g r w0).schedulers ∙ s0 in
      rw free
        (Ensures-ok _ (connected_keeps (add_with_tasks g r w0) s1 (add_with_tasks_puts w0 s0 m)))

-- The group, if any, has the task in its queue, and it is one of the runner's.
abbrev pub queued_by : ℕ → ℕ → Option ℕ → SchedulingState → Bool
queued_by r t none w = false
queued_by r t (some o) w = elem t (w.groups.queue o) && (w.tasks.parent t == r)

module _ (r g t : ℕ) where
  detach_from_hands :
      (s : Option ℕ) (w : SchedulingState)
      → w.runners.scheduler r ≡ s
      → elem t (w.runners.remaining r) || queued_by r t s w ≡ true
      → ((detach_from r s w).runners.scheduler r ≡ none) × Pending r g t (detach_from r s w)
  unfolding detach_from
  detach_from_hands none w e m = (e, ground (arith, m))
  detach_from_hands (some o) w e m =
      let all =
        elem-append t (w.runners.remaining r) (remaining_tasks o r w)
        ∙ ap (λ b. elem t (w.runners.remaining r) || b)
            (elem-tasks_of w.tasks.parent true r t (w.groups.queue o))
        ∙ m in
      (
        rw (==_refl r) refl,
        rw (==_refl r) (or_last (elem t ((remove_generator o r w).groups.queue g)) all),
      )
    where
      or_last : {b : Bool} (a : Bool) → b ≡ true → a || b ≡ true
      or_last true h = refl
      or_last false h = h

  -- When a runner is taken from its group and given to another, each task that waits, with the runner or
  -- as one of its tasks in the queue of the old group, waits in the queue of the new group.
  pub move_keeps_tasks :
      (w : SchedulingState)
      → elem t (w.runners.remaining r) || queued_by r t (w.runners.scheduler r) w ≡ true
      → Ensures (λ w'. elem t (w'.groups.queue g) ≡ true) (assign_to_scheduler r g (detach r w))
  unfolding detach Queued
  move_keeps_tasks w m =
      let d = detach_from_hands (w.runners.scheduler r) w refl m in
      assign_to_scheduler_puts r g t (detach r w) d.0 d.1
