-- ===== src/Scheduling/Tests.antt =====
-- A pool of a default group and a private group for csapex_core/src/scheduling and node_runner.cpp.
use csapex.Base.{
  ℕ, ◌+◌, ◌≢◌, ◌≡◌, refl, ◌==◌, ◌||◌, true, false, List, [], ◌∷◌, none, some, elem, if◌then◌else◌,
  arith,
}
use csapex.Base.Int.{pos, negsuc}
use csapex.Base.Result.{ok, failed, Ensures}
use csapex.Scheduling.{SchedulingState}
use csapex.Scheduling.Queue.{
  insert_task, schedule_task, schedule_tasks, execute_next_task, execute_tasks,
}
use csapex.Scheduling.Runner.{assign_to_scheduler, detach}
use csapex.Scheduling.Pool.{ThreadPool, find_group, use_default_thread_for, create_new_group_for}
use csapex.Scheduling.Membership.{IsPool}
use csapex.Scheduling.Serve.{
  Request, to_private, to_default, to_group, to_new_group, enter, leave, serve, serve_all, Served,
  serve-Served, serve_all-IsPool,
}
use csapex.Scheduling.Clash.{create_new_group_for_clashes}
use csapex.Scheduling.Service.{
  IsQueue, Enqueued, Split, schedule_task-Enqueued, remove_generator-Split,
}
use csapex.Scheduling.Transfer.{move_keeps_tasks}

-- Runner 5 is in the private group 1, which has its name, and task 3 of it is queued there before task 4 of
-- a lower priority; runner 6 is in no group.
abbrev world : SchedulingState
world = record {
  tasks = record {
    parent = λ t. 5;
    priority = λ t. if t == 4 then negsuc 0 else pos 0;
    scheduled = λ t. t == 3 || t == 4;
    next_task = 10;
  };
  groups = record {
    id = λ g. if g == 0 then 1 else 0;
    name = λ g. if g == 0 then 100 else 105;
    queue = λ g. if g == 1 then 3 ∷ 4 ∷ [] else [];
    generators = λ g. if g == 1 then 5 ∷ [] else [];
    pause = λ g. false;
    stepping = λ g. false;
    next_group = 2;
    next_id = 2;
  };
  runners = record {
    scheduler = λ r. if r == 5 then some 1 else none;
    remaining = λ r. [];
    execute_task = λ r. 3;
    check_task = λ r. 4;
    paused = λ r. false;
    in_steps = λ r. false;
    possible_steps = λ r. pos 0;
    waiting = λ r. false;
    source = λ r. false;
    iterating = λ r. false;
  };
}

abbrev pool : ThreadPool
pool = record {
  world = world;
  groups = 0 ∷ 1 ∷ [];
  default_group = 0;
  assignment = λ t. if t == 5 then some 1 else none;
  paused = false;
  enable_threading = true;
  grouping = true;
  short_name = λ t. 100 + t;
}

pool-IsPool : IsPool pool
pool-IsPool = record {
  tables = record { agree = λ t. refl; listed = λ g t. ground arith };
  known = λ t g e. ground (arith, e);
  alone = λ t u g e f i. ground (arith, e, f);
  named = λ g m i. (5, ground (arith, m, i));
  default_known = refl;
  default_id = refl;
  bounded = λ g m. ground (arith, m);
  counted = omega arith;
}

abbrev requests : List Request
requests = to_new_group 6 42 ∷ to_default 5 ∷ to_private 6 ∷ leave 5 ∷ enter 7 ∷ []

name_free : (u : ℕ) → 42 ≢ pool.short_name u
name_free u = λ e. absurd (omega (arith, e))

serve-Served_example : Ensures (Served (to_group 6 (pos 1)) pool) (serve (to_group 6 (pos 1)) pool)
serve-Served_example = serve-Served (to_group 6 (pos 1)) pool pool-IsPool tt

serve_all-IsPool_example : Ensures IsPool (serve_all requests pool)
serve_all-IsPool_example =
    serve_all-IsPool requests pool pool-IsPool (name_free, (tt, (tt, (tt, (tt, tt)))))

create_new_group_for_clashes_example :
    (p' : ThreadPool) × (create_new_group_for 6 105 pool ≡ ok p')
    × (p'.assignment 5 ≡ some 1)
    × (p'.assignment 6 ≡ some 1)
    × (p'.world.groups.id 1 ≡ 0)
    × (use_default_thread_for 5 p' ≡ failed)
unfolding find_group
create_new_group_for_clashes_example =
    create_new_group_for_clashes pool 5 6 1 105 pool-IsPool refl refl refl refl refl

world-IsQueue : IsQueue 1 world
world-IsQueue = record {
  ordered = ((refl, tt), (tt, tt));
  distinct = (refl, (refl, tt));
  marked = λ t m. ground (arith, m);
}

schedule_task-Enqueued_example : Enqueued 1 8 world (schedule_task 1 8 world)
schedule_task-Enqueued_example = schedule_task-Enqueued 1 8 world world-IsQueue

-- Task 8 comes behind task 3 of its priority, and before task 4.
queue_of_three : (schedule_task 1 8 world).groups.queue 1 ≡ 3 ∷ 8 ∷ 4 ∷ []
unfolding schedule_task insert_task
queue_of_three = refl

-- Task 4, of a lower priority, is executed after the two that are scheduled later.
executed_of_three : (execute_tasks 4 0 (schedule_tasks 0 (4 ∷ 7 ∷ 8 ∷ []) world)).0 ≡ 7 ∷ 8 ∷ 4 ∷ []
unfolding execute_tasks execute_next_task schedule_tasks schedule_task insert_task
executed_of_three = refl

remove_generator-Split_example : Split 1 5 world
remove_generator-Split_example = remove_generator-Split 1 5 world world-IsQueue

move_keeps_tasks_example :
    Ensures (λ w'. elem 3 (w'.groups.queue 0) ≡ true) (assign_to_scheduler 5 0 (detach 5 world))
move_keeps_tasks_example = move_keeps_tasks 5 0 3 world refl
