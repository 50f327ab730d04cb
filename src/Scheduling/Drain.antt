-- ===== src/Scheduling/Drain.antt =====
-- Proofs about csapex_core/src/scheduling/thread_group.cpp: in which order the tasks that are scheduled are
-- executed.
use csapex.Base.{ℕ, ◌≡◌, ◌⊎◌, true, false, List, [], ◌∷◌, elem, length, Option, none, some}
use csapex.Base.Int.{ℤ}
use csapex.Scheduling.{SchedulingState}
use csapex.Scheduling.Order.{tasks_at}
use csapex.Scheduling.Queue.{execute_tasks}
use csapex.Scheduling.Service.{IsQueue}

-- The queue of the group has the tasks of `ts`, which were scheduled in this order.
pub record Holds (g : ℕ) (ts : List ℕ) (w w' : SchedulingState) : Type 0 where
  pub valid : IsQueue g w'
  pub priorities : w'.tasks.priority ≡ w.tasks.priority
  pub in_order :
      (k : ℤ) → tasks_at w.tasks.priority k (w'.groups.queue g) ≡ tasks_at w.tasks.priority k ts
  pub members : (u : ℕ) → elem u (w'.groups.queue g) ≡ elem u ts
  pub count : length (w'.groups.queue g) ≡ length ts

-- What the loop executes, given the queue.
record Drained (g : ℕ) (q : List ℕ) (w : SchedulingState) (r : List ℕ × SchedulingState)
    : Type 0 where
  pub executed : r.0 ≡ q
  pub emptied : r.1.groups.queue g ≡ []
  pub unmarked :
      (u : ℕ) → (elem u q ≡ true) ⊎ (w.tasks.scheduled u ≡ false) → r.1.tasks.scheduled u ≡ false

abbrev go_on : ℕ → ℕ → Option ℕ × SchedulingState → List ℕ × SchedulingState
go_on fuel g (none, w) = ([], w)
go_on fuel g (some t, w) = let rest = execute_tasks fuel g w in (t ∷ rest.0, rest.1)
