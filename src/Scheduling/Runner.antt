-- ===== src/Scheduling/Runner.antt =====
-- csapex_core/src/model/node_runner.cpp: the generator of a node's tasks, and how a thread group takes
-- it over.
use csapex.Base.{
  ℕ, ◌+◌, Bool, true, false, not, ◌&&◌, ◌||◌, List, [], ◌∷◌, ◌++◌, Option, none, some, update,
  if◌then◌else◌,
}
use csapex.Base.Result.{Result, ok, ◌>>◌, assert}
use csapex.Base.Int.{pos, int_eq}
use csapex.Scheduling.{SchedulingState}
use csapex.Scheduling.Queue.{set_generators, schedule_tasks, remaining_tasks, remove_generator}

abbrev pub set_remaining : ℕ → List ℕ → SchedulingState → SchedulingState
set_remaining r ts w = record w {
  runners = record w.runners { remaining = update w.runners.remaining r ts };
}

abbrev pub set_scheduler : ℕ → Option ℕ → SchedulingState → SchedulingState
set_scheduler r g w = record w {
  runners = record w.runners { scheduler = update w.runners.scheduler r g };
}

-- What is done once a task was put on `remaining_tasks_`.
unfoldable pub flush : ℕ → Option ℕ → List ℕ → SchedulingState → SchedulingState
flush r none ts w = set_remaining r ts w
flush r (some g) ts w = set_remaining r [] (schedule_tasks g ts w)

-- `NodeRunner::schedule`
unfoldable pub schedule : ℕ → ℕ → SchedulingState → SchedulingState
schedule r t w = flush r (w.runners.scheduler r) (w.runners.remaining r ++ t ∷ []) w

abbrev pub may_step : ℕ → SchedulingState → Bool
may_step r w =
    not (w.runners.source r)
    || not (w.runners.in_steps r)
    || not (int_eq (w.runners.possible_steps r) (pos 0))

-- `scheduleProcess`
unfoldable pub schedule_process : ℕ → SchedulingState → SchedulingState
schedule_process r w =
    let t = w.runners.execute_task r in
    if not (w.runners.paused r)
      && may_step r w
      && not (w.runners.waiting r)
      && not (w.tasks.scheduled t)
    then schedule r t w
    else w

-- `setPause`
unfoldable pub set_pause : ℕ → Bool → SchedulingState → SchedulingState
set_pause r p w =
    let w1 = record w { runners = record w.runners { paused = update w.runners.paused r p } } in
    if p then w1 else schedule_process r w1

-- `setSteppingMode`, but for the signal that tells that stepping is possible
unfoldable pub set_stepping_mode : ℕ → Bool → SchedulingState → SchedulingState
set_stepping_mode r s w =
    let w1 = record w {
      runners = record w.runners {
        in_steps = update w.runners.in_steps r s;
        possible_steps = update w.runners.possible_steps r (pos 0);
      };
    } in
    if s then w1 else schedule_process r w1

-- `ThreadGroup::add`
unfoldable pub add_generator : ℕ → ℕ → SchedulingState → SchedulingState
add_generator g r w =
    let w1 = set_stepping_mode r (w.groups.stepping g) (set_pause r (w.groups.pause g) w) in
    set_generators g (w1.groups.generators g ++ r ∷ []) w1

-- `ThreadGroup::add` with the remaining tasks of the runner: they are passed by reference, and those
-- that are still there when the generator was added are scheduled.
unfoldable pub add_with_tasks : ℕ → ℕ → SchedulingState → SchedulingState
add_with_tasks g r w = let w1 = add_generator g r w in schedule_tasks g (w1.runners.remaining r) w1

-- `connectNodeWorker`: tasks to check the parameters, to process and to notify
unfoldable pub connect_node_worker : ℕ → SchedulingState → SchedulingState
connect_node_worker r w =
    let n = w.tasks.next_task in
    record w {
      tasks = record {
        parent = update (update (update w.tasks.parent n r) (n + 1) r) (n + 2) r;
        priority =
            update (update (update w.tasks.priority n (pos 0)) (n + 1) (pos 0)) (n + 2) (pos 0);
        scheduled = update (update (update w.tasks.scheduled n false) (n + 1) false) (n + 2) false;
        next_task = n + 3;
      };
      runners = record w.runners {
        check_task = update w.runners.check_task r n;
        execute_task = update w.runners.execute_task r (n + 1);
      };
    }

abbrev pub is_detached : Option ℕ → Bool
is_detached none = true
is_detached (some g) = false

-- `assignToScheduler`
unfoldable pub assign_to_scheduler : ℕ → ℕ → SchedulingState → Result SchedulingState
assign_to_scheduler r g w =
    assert (is_detached (w.runners.scheduler r))
    >> (let w1 =
          connect_node_worker r
            (set_remaining r [] (add_with_tasks g r (set_scheduler r (some g) w))) in
        ok (schedule r (w1.runners.check_task r) w1))

-- What `detach` does with the group that executes the tasks of the runner.
unfoldable pub detach_from : ℕ → Option ℕ → SchedulingState → SchedulingState
detach_from r none w = w
detach_from r (some g) w =
    set_scheduler r none
      (set_remaining r (w.runners.remaining r ++ remaining_tasks g r w) (remove_generator g r w))

-- `NodeRunner::detach`
unfoldable pub detach : ℕ → SchedulingState → SchedulingState
detach r w = detach_from r (w.runners.scheduler r) w
