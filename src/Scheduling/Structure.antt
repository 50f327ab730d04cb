-- ===== src/Scheduling/Structure.antt =====
-- Proofs about csapex_core/src/model/node_runner.cpp and thread_group.cpp: what scheduling leaves alone.
use csapex.Base.{
  ℕ, ◌≡◌, refl, ◌∙◌, ◌&&◌, not, Bool, true, false, List, [], ◌∷◌, ◌++◌, Option, none, some, elem,
  update, if◌then◌else◌,
}
use csapex.Scheduling.{SchedulingState}
use csapex.Scheduling.Queue.{schedule_task, schedule_tasks}
use csapex.Scheduling.Runner.{
  flush, schedule, schedule_process, set_pause, set_stepping_mode, may_step,
}

-- The second state has the groups, members and schedulers that the record says.
pub record Structured (w w' : SchedulingState) (generators : ℕ → List ℕ) (scheduler : ℕ → Option ℕ)
    : Type 0 where
  pub id : w'.groups.id ≡ w.groups.id
  pub name : w'.groups.name ≡ w.groups.name
  pub next_group : w'.groups.next_group ≡ w.groups.next_group
  pub next_id : w'.groups.next_id ≡ w.groups.next_id
  pub members : w'.groups.generators ≡ generators
  pub schedulers : w'.runners.scheduler ≡ scheduler

abbrev pub Kept : SchedulingState → SchedulingState → Type 0
Kept w w' = Structured w w' w.groups.generators w.runners.scheduler

abbrev pub unchanged : (w : SchedulingState) → Kept w w
unchanged w = record {
  id = refl;
  name = refl;
  next_group = refl;
  next_id = refl;
  members = refl;
  schedulers = refl;
}

abbrev pub then_kept :
    {w1 w2 w3 : SchedulingState} {gs : ℕ → List ℕ} {s : ℕ → Option ℕ}
    → Structured w1 w2 gs s
    → Kept w2 w3
    → Structured w1 w3 gs s
then_kept s k = record {
  id = k.id ∙ s.id;
  name = k.name ∙ s.name;
  next_group = k.next_group ∙ s.next_group;
  next_id = k.next_id ∙ s.next_id;
  members = k.members ∙ s.members;
  schedulers = k.schedulers ∙ s.schedulers;
}

kept_if :
    (c : Bool) (w w1 w2 : SchedulingState) → Kept w w1 → Kept w w2 → Kept w (if c then w1 else w2)
kept_if true w w1 w2 k1 k2 = k1
kept_if false w w1 w2 k1 k2 = k2

schedule_task-Kept : (g t : ℕ) (w : SchedulingState) → Kept w (schedule_task g t w)
unfolding schedule_task
schedule_task-Kept g t w = kept_if (elem t (w.groups.queue g)) w _ _ (unchanged w) (record {
  id = refl;
  name = refl;
  next_group = refl;
  next_id = refl;
  members = refl;
  schedulers = refl;
})

pub schedule_tasks-Kept :
    (g : ℕ) (ts : List ℕ) (w : SchedulingState) → Kept w (schedule_tasks g ts w)
unfolding schedule_tasks
schedule_tasks-Kept g [] w = unchanged w
schedule_tasks-Kept g (t ∷ ts) w =
    then_kept (schedule_task-Kept g t w) (schedule_tasks-Kept g ts (schedule_task g t w))

flush-Kept : (r : ℕ) (s : Option ℕ) (ts : List ℕ) (w : SchedulingState) → Kept w (flush r s ts w)
unfolding flush
flush-Kept r none ts w = record {
  id = refl;
  name = refl;
  next_group = refl;
  next_id = refl;
  members = refl;
  schedulers = refl;
}
flush-Kept r (some g) ts w =
    let k = schedule_tasks-Kept g ts w in
    record {
      id = k.id;
      name = k.name;
      next_group = k.next_group;
      next_id = k.next_id;
      members = k.members;
      schedulers = k.schedulers;
    }

pub schedule-Kept : (r t : ℕ) (w : SchedulingState) → Kept w (schedule r t w)
unfolding schedule
schedule-Kept r t w = flush-Kept r (w.runners.scheduler r) (w.runners.remaining r ++ t ∷ []) w

pub schedule_process-Kept : (r : ℕ) (w : SchedulingState) → Kept w (schedule_process r w)
unfolding schedule_process
schedule_process-Kept r w =
    kept_if
      (not (w.runners.paused r)
        && may_step r w
        && not (w.runners.waiting r)
        && not (w.tasks.scheduled (w.runners.execute_task r)))
      w _ _ (schedule-Kept r (w.runners.execute_task r) w) (unchanged w)

pub set_pause-Kept : (r : ℕ) (p : Bool) (w : SchedulingState) → Kept w (set_pause r p w)
unfolding set_pause
set_pause-Kept r true w = record {
  id = refl;
  name = refl;
  next_group = refl;
  next_id = refl;
  members = refl;
  schedulers = refl;
}
set_pause-Kept r false w =
    let w1 = record w { runners = record w.runners { paused = update w.runners.paused r false } } in
    let k = schedule_process-Kept r w1 in
    record {
      id = k.id;
      name = k.name;
      next_group = k.next_group;
      next_id = k.next_id;
      members = k.members;
      schedulers = k.schedulers;
    }

pub set_stepping_mode-Kept :
    (r : ℕ) (s : Bool) (w : SchedulingState) → Kept w (set_stepping_mode r s w)
unfolding set_stepping_mode
set_stepping_mode-Kept r true w = record {
  id = refl;
  name = refl;
  next_group = refl;
  next_id = refl;
  members = refl;
  schedulers = refl;
}
set_stepping_mode-Kept r false w =
    let k = schedule_process-Kept r _ in
    record {
      id = k.id;
      name = k.name;
      next_group = k.next_group;
      next_id = k.next_id;
      members = k.members;
      schedulers = k.schedulers;
    }
