-- ===== src/Scheduling/Handover.antt =====
-- Proofs about csapex_core/src/model/node_runner.cpp and thread_group.cpp: what taking over and giving back a
-- generator change in the groups and runners.
use csapex.Base.{ℕ, ◌≡◌, refl, ap, List, [], ◌∷◌, ◌++◌, Option, none, some, update}
use csapex.Base.Result.{Ensures, Ensures-ok}
use csapex.Scheduling.{SchedulingState}
use csapex.Scheduling.Queue.{erase_generator}
use csapex.Scheduling.Runner.{
  set_pause, add_generator, add_with_tasks, connect_node_worker, assign_to_scheduler, detach,
  detach_from, set_remaining, set_scheduler,
}
use csapex.Scheduling.Structure.{
  unchanged, then_kept, schedule-Kept, schedule_tasks-Kept, set_pause-Kept, set_stepping_mode-Kept,
  Structured,
}

abbrev pub with_member : ℕ → ℕ → (ℕ → List ℕ) → ℕ → List ℕ
with_member g r gens = update gens g (gens g ++ r ∷ [])

abbrev pub without_member : ℕ → ℕ → (ℕ → List ℕ) → ℕ → List ℕ
without_member g r gens = update gens g (erase_generator r (gens g))

add_generator-Structured :
    (g r : ℕ) (w : SchedulingState)
    → Structured w (add_generator g r w) (with_member g r w.groups.generators) w.runners.scheduler
unfolding add_generator
add_generator-Structured g r w =
    let w1 = set_pause r (w.groups.pause g) w in
    let k =
      then_kept (set_pause-Kept r (w.groups.pause g) w)
        (set_stepping_mode-Kept r (w.groups.stepping g) w1) in
    record {
      id = k.id;
      name = k.name;
      next_group = k.next_group;
      next_id = k.next_id;
      members = ap (with_member g r) k.members;
      schedulers = k.schedulers;
    }

pub add_with_tasks-Structured :
    (g r : ℕ) (w : SchedulingState)
    → Structured w (add_with_tasks g r w) (with_member g r w.groups.generators) w.runners.scheduler
unfolding add_with_tasks
add_with_tasks-Structured g r w =
    then_kept (add_generator-Structured g r w)
      (schedule_tasks-Kept g ((add_generator g r w).runners.remaining r) (add_generator g r w))

connected-Structured :
    (g r : ℕ) (w : SchedulingState) {w1 : SchedulingState} {gs : ℕ → List ℕ} {s : ℕ → Option ℕ}
    → Structured w w1 gs s
    → Structured w (connect_node_worker r (set_remaining r [] w1)) gs s
unfolding connect_node_worker
connected-Structured g r w k = record {
  id = k.id;
  name = k.name;
  next_group = k.next_group;
  next_id = k.next_id;
  members = k.members;
  schedulers = k.schedulers;
}

-- A runner without a scheduler is taken over by the group.
pub assign_to_scheduler-Structured :
    (r g : ℕ) (w : SchedulingState)
    → w.runners.scheduler r ≡ none
    → Ensures
        (λ w'.
          Structured w w'
            (with_member g r w.groups.generators)
            (update w.runners.scheduler r (some g)))
        (assign_to_scheduler r g w)
unfolding assign_to_scheduler
assign_to_scheduler-Structured r g w free =
    let w0 = set_scheduler r (some g) w in
    let a = add_with_tasks-Structured g r w0 in
    let b : Structured w (add_with_tasks g r w0) (with_member g r w.groups.generators)
        (update w.runners.scheduler r (some g)) =
      record {
        id = a.id;
        name = a.name;
        next_group = a.next_group;
        next_id = a.next_id;
        members = a.members;
        schedulers = a.schedulers;
      } in
    rw free (Ensures-ok _ (then_kept (connected-Structured g r w b) (schedule-Kept r _ _)))

abbrev pub members_without : ℕ → Option ℕ → (ℕ → List ℕ) → ℕ → List ℕ
members_without r none gens = gens
members_without r (some g) gens = without_member g r gens

abbrev pub scheduler_without : ℕ → Option ℕ → (ℕ → Option ℕ) → ℕ → Option ℕ
scheduler_without r none s = s
scheduler_without r (some g) s = update s r none

detach_from-Structured :
    (r : ℕ) (s : Option ℕ) (w : SchedulingState)
    → Structured w
        (detach_from r s w)
        (members_without r s w.groups.generators)
        (scheduler_without r s w.runners.scheduler)
unfolding detach_from
detach_from-Structured r none w = unchanged w
detach_from-Structured r (some g) w = record {
  id = refl;
  name = refl;
  next_group = refl;
  next_id = refl;
  members = refl;
  schedulers = refl;
}

-- A runner leaves the group that is its scheduler.
pub detach-Structured :
    (r : ℕ) (w : SchedulingState)
    → Structured w
        (detach r w)
        (members_without r (w.runners.scheduler r) w.groups.generators)
        (scheduler_without r (w.runners.scheduler r) w.runners.scheduler)
unfolding detach
detach-Structured r w = detach_from-Structured r (w.runners.scheduler r) w
