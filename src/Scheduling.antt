-- ===== src/Scheduling.antt =====
-- csapex_core/src/scheduling and csapex_core/src/model/node_runner.cpp: tasks, the thread groups that
-- execute them, the runners of the nodes that generate them, and the thread pool. A pointer to a task,
-- a group or a runner is a number; the fields of all objects of a class are functions.
pub mod Queue
pub mod Runner
pub mod Structure
pub mod Handover
pub mod Pool
pub mod Membership
pub mod Assignment
pub mod Upkeep
pub mod Requests
pub mod Serve
pub mod Clash
pub mod Order
pub mod Service
pub mod Drain
pub mod Transfer
mod Tests
use csapex.Base.{ℕ, Bool, List, Option}
use csapex.Base.Int.{ℤ}

-- The tasks: `parent_`, `priority_` and `scheduled_`, and the address of the next one.
pub record Tasks : Type 0 where
  pub parent : ℕ → ℕ
  pub priority : ℕ → ℤ
  pub scheduled : ℕ → Bool
  pub next_task : ℕ

-- The thread groups: `id_`, `name_`, `tasks_`, `generators_`, `pause_` and `stepping_`.
pub record Groups : Type 0 where
  pub id : ℕ → ℕ
  pub name : ℕ → ℕ
  pub queue : ℕ → List ℕ
  pub generators : ℕ → List ℕ
  pub pause : ℕ → Bool
  pub stepping : ℕ → Bool
  pub next_group : ℕ
  -- `ThreadGroup::next_id_`
  pub next_id : ℕ

-- The runners of the nodes; `source` and `iterating` are what they ask of their nodes.
pub record Runners : Type 0 where
  pub scheduler : ℕ → Option ℕ
  pub remaining : ℕ → List ℕ
  pub execute_task : ℕ → ℕ
  pub check_task : ℕ → ℕ
  pub paused : ℕ → Bool
  pub in_steps : ℕ → Bool
  pub possible_steps : ℕ → ℤ
  pub waiting : ℕ → Bool
  pub source : ℕ → Bool
  pub iterating : ℕ → Bool

pub record SchedulingState : Type 0 where
  pub tasks : Tasks
  pub groups : Groups
  pub runners : Runners
