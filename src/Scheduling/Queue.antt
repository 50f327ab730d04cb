-- ===== src/Scheduling/Queue.antt =====
-- csapex_core/src/scheduling/thread_group.cpp: the tasks and the generators of a thread group.
use csapex.Base.{
  zero, suc, ℕ, ◌==◌, Bool, true, false, List, [], ◌∷◌, Option, none, some, elem, update,
  if◌then◌else◌,
}
use csapex.Base.Int.{ℤ, int_lt}
use csapex.Scheduling.{SchedulingState}

-- `tasks_.insert(task)`: into a multiset by falling priority, behind its equals.
unfoldable pub insert_task : (ℕ → ℤ) → ℕ → List ℕ → List ℕ
insert_task priority t [] = t ∷ []
insert_task priority t (x ∷ xs) =
    let rest = insert_task priority t xs in
    if int_lt (priority x) (priority t) then t ∷ x ∷ xs else x ∷ rest

abbrev pub set_scheduled : Bool → ℕ → SchedulingState → SchedulingState
set_scheduled b t w = record w {
  tasks = record w.tasks { scheduled = update w.tasks.scheduled t b };
}

abbrev pub set_queue : ℕ → List ℕ → SchedulingState → SchedulingState
set_queue g q w = record w { groups = record w.groups { queue = update w.groups.queue g q } }

abbrev pub set_generators : ℕ → List ℕ → SchedulingState → SchedulingState
set_generators g rs w = record w {
  groups = record w.groups { generators = update w.groups.generators g rs };
}

-- `ThreadGroup::schedule`
unfoldable pub schedule_task : ℕ → ℕ → SchedulingState → SchedulingState
schedule_task g t w =
    let q = insert_task w.tasks.priority t (w.groups.queue g) in
    if elem t (w.groups.queue g) then w else set_scheduled true t (set_queue g q w)

unfoldable pub schedule_tasks : ℕ → List ℕ → SchedulingState → SchedulingState
schedule_tasks g [] w = w
schedule_tasks g (t ∷ ts) w = schedule_tasks g ts (schedule_task g t w)

-- The tasks with (or without) the generator as their parent
unfoldable pub tasks_of : (ℕ → ℕ) → Bool → ℕ → List ℕ → List ℕ
tasks_of parent b r [] = []
tasks_of parent b r (t ∷ ts) =
    let rest = tasks_of parent b r ts in
    if parent t == r then (if b then t ∷ rest else rest) else (if b then rest else t ∷ rest)

-- Erases every occurrence of the generator.
unfoldable pub erase_generator : ℕ → List ℕ → List ℕ
erase_generator r [] = []
erase_generator r (x ∷ xs) = let rest = erase_generator r xs in if r == x then rest else x ∷ rest

-- `ThreadGroup::remove`: the tasks of the generator, handed back, and the group without them.
abbrev pub remaining_tasks : ℕ → ℕ → SchedulingState → List ℕ
remaining_tasks g r w = tasks_of w.tasks.parent true r (w.groups.queue g)

abbrev pub remove_generator : ℕ → ℕ → SchedulingState → SchedulingState
remove_generator g r w =
    set_generators g (erase_generator r (w.groups.generators g))
      (set_queue g (tasks_of w.tasks.parent false r (w.groups.queue g)) w)

-- `executeNextTask`: the task that is executed, if any; a group that has been stopped drops it.
unfoldable pub execute_next_task : Bool → ℕ → SchedulingState → Option ℕ × SchedulingState
execute_next_task running g w = elim (w.groups.queue g) [
  | [] ↦ (none, w)
  | t ∷ ts ↦ (if running then some t else none, set_scheduled false t (set_queue g ts w))
]

-- The inner loop of `schedulingLoop`, in a running group that is not paused: the tasks that are executed, and
-- none of which schedules others.
unfoldable pub execute_tasks : ℕ → ℕ → SchedulingState → List ℕ × SchedulingState
execute_tasks zero g w = ([], w)
execute_tasks (suc fuel) g w =
    let (task, w') = execute_next_task true g w in
    let rest = execute_tasks fuel g w' in
    elim task [ none ↦ ([], w') | some t ↦ (t ∷ rest.0, rest.1) ]

-- The group is empty of generators: `isEmpty`.
abbrev pub is_empty : ℕ → SchedulingState → Bool
is_empty g w = elim (w.groups.generators g) [ [] ↦ true | r ∷ rs ↦ false ]
