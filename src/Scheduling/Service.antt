-- ===== src/Scheduling/Service.antt =====
-- Proofs about csapex_core/src/scheduling/thread_group.cpp: `schedule`, `executeNextTask` and `remove` keep
-- the queue of a group in order.
use csapex.Base.{
  ℕ, ◌≡◌, refl, sym, ap, ◌∙◌, ◌==◌, ==_iff, ==_refl, Bool, true, false, not, ◌&&◌, List, [], ◌∷◌,
  ◌++◌, elem, update, IsDistinct, if◌then◌else◌, Bool-cases, inl, inr, arith,
}
use mathlib.Core.List.{append-nil}
use csapex.Base.Int.{ℤ, int_eq}
use csapex.Scheduling.{SchedulingState}
use csapex.Scheduling.Order.{
  NoneAbove, IsOrdered, tasks_at, tasks_at-insert_task, insert_task-IsOrdered, elem-insert_task,
  insert_task-IsDistinct,
}
use csapex.Scheduling.Queue.{
  insert_task, schedule_task, tasks_of, remaining_tasks, remove_generator,
}

-- The queue of a group: by falling priority, no task twice, and each marked as scheduled.
pub record IsQueue (g : ℕ) (w : SchedulingState) : Type 0 where
  pub ordered : IsOrdered w.tasks.priority (w.groups.queue g)
  pub distinct : IsDistinct (w.groups.queue g)
  pub marked : (t : ℕ) → elem t (w.groups.queue g) ≡ true → w.tasks.scheduled t ≡ true

-- What scheduling a task does to the queue of a group.
pub record Enqueued (g t : ℕ) (w w' : SchedulingState) : Type 0 where
  pub valid : IsQueue g w'
  pub marked : w'.tasks.scheduled t ≡ true
  pub at_priority :
      (k : ℤ)
      → tasks_at w'.tasks.priority k (w'.groups.queue g)
        ≡ tasks_at w.tasks.priority k (w.groups.queue g)
          ++ (if not (elem t (w.groups.queue g)) && int_eq (w.tasks.priority t) k
              then t ∷ []
              else [])

append_none : (xs : List ℕ) → xs ≡ xs ++ []
append_none xs = sym (append-nil xs)

marked_on :
    (g t u : ℕ) (w : SchedulingState)
    → IsQueue g w
    → elem u (update w.groups.queue g (insert_task w.tasks.priority t (w.groups.queue g)) g) ≡ true
    → update w.tasks.scheduled t true u ≡ true
marked_on g t u w valid m = elim (Bool-cases (t == u)) [
  | inl q ↦ rw q refl
  | inr q ↦
      let m' : elem u (insert_task w.tasks.priority t (w.groups.queue g)) ≡ true =
        rw (==_refl g) at m in
      rw q (
        valid.marked u
          (ground (arith, sym (elem-insert_task w.tasks.priority t u (w.groups.queue g)) ∙ m', q)))
]

-- A task that is scheduled comes behind all tasks of its priority, unless it is in the queue already; the
-- tasks of each other priority stay as they are, and the queue stays in order.
pub schedule_task-Enqueued :
    (g t : ℕ) (w : SchedulingState) → IsQueue g w → Enqueued g t w (schedule_task g t w)
unfolding schedule_task
schedule_task-Enqueued g t w valid = elim (Bool-cases (elem t (w.groups.queue g))) [
  | inl q ↦ rw q (record {
    valid = valid;
    marked = valid.marked t q;
    at_priority = λ k. rw q (append_none (tasks_at w.tasks.priority k (w.groups.queue g)));
  })
  | inr q ↦ rw q (record {
    valid = record {
      ordered =
          rw (==_refl g)
            (insert_task-IsOrdered w.tasks.priority t (w.groups.queue g) valid.ordered);
      distinct =
          rw (==_refl g)
            (insert_task-IsDistinct w.tasks.priority t (w.groups.queue g) q valid.distinct);
      marked = λ u m. marked_on g t u w valid m;
    };
    marked = rw (==_refl t) refl;
    at_priority = λ k.
        rw (q, ==_refl g)
          (tasks_at-insert_task w.tasks.priority t k (w.groups.queue g) valid.ordered);
  })
]

pub elem-tasks_of :
    (parent : ℕ → ℕ) (b : Bool) (r u : ℕ) (ts : List ℕ)
    → elem u (tasks_of parent b r ts)
      ≡ elem u ts && (if b then parent u == r else not (parent u == r))
unfolding tasks_of
elem-tasks_of parent b r u [] = refl
elem-tasks_of parent true r u (t ∷ ts) = elim (Bool-cases (u == t)) [
  | inl q ↦ ground (arith, elem-tasks_of parent true r u ts, ap parent ((==_iff u t).0 q), q)
  | inr q ↦ ground (arith, elem-tasks_of parent true r u ts, q)
]
elem-tasks_of parent false r u (t ∷ ts) = elim (Bool-cases (u == t)) [
  | inl q ↦ ground (arith, elem-tasks_of parent false r u ts, ap parent ((==_iff u t).0 q), q)
  | inr q ↦ ground (arith, elem-tasks_of parent false r u ts, q)
]

module _ (priority : ℕ → ℤ) (parent : ℕ → ℕ) (b : Bool) (r : ℕ) where
  NoneAbove-tasks_of :
      (k : ℤ) (ts : List ℕ)
      → NoneAbove priority k ts
      → NoneAbove priority k (tasks_of parent b r ts)
  unfolding tasks_of
  NoneAbove-tasks_of k [] o = tt
  NoneAbove-tasks_of k (t ∷ ts) o = ground (arith, NoneAbove-tasks_of k ts o.1)

  IsOrdered-tasks_of :
      (ts : List ℕ) → IsOrdered priority ts → IsOrdered priority (tasks_of parent b r ts)
  unfolding tasks_of
  IsOrdered-tasks_of [] o = tt
  IsOrdered-tasks_of (t ∷ ts) o =
      ground (arith, NoneAbove-tasks_of (priority t) ts o.0, IsOrdered-tasks_of ts o.1)

  IsDistinct-tasks_of : (ts : List ℕ) → IsDistinct ts → IsDistinct (tasks_of parent b r ts)
  unfolding tasks_of
  IsDistinct-tasks_of [] d = tt
  IsDistinct-tasks_of (t ∷ ts) d =
      ground (arith, elem-tasks_of parent b r t ts, d.0, IsDistinct-tasks_of ts d.1)

-- What taking a generator from a group does to its tasks.
pub record Split (g r : ℕ) (w : SchedulingState) : Type 0 where
  pub valid : IsQueue g (remove_generator g r w)
  pub handed_back_ordered : IsOrdered w.tasks.priority (remaining_tasks g r w)
  pub handed_back :
      (t : ℕ)
      → elem t (remaining_tasks g r w) ≡ elem t (w.groups.queue g) && (w.tasks.parent t == r)
  pub left :
      (t : ℕ)
      → elem t ((remove_generator g r w).groups.queue g)
        ≡ elem t (w.groups.queue g) && not (w.tasks.parent t == r)

-- The tasks of the generator are handed back by falling priority, all others stay, and the queue stays in
-- order.
pub remove_generator-Split : (g r : ℕ) (w : SchedulingState) → IsQueue g w → Split g r w
remove_generator-Split g r w valid =
    let q = w.groups.queue g in
    record {
      valid = record {
        ordered =
            rw (==_refl g)
              (IsOrdered-tasks_of w.tasks.priority w.tasks.parent false r q valid.ordered);
        distinct =
            rw (==_refl g)
              (IsDistinct-tasks_of w.tasks.priority w.tasks.parent false r q valid.distinct);
        marked = λ u m.
            valid.marked u
              (ground (arith, elem-tasks_of w.tasks.parent false r u q, rw (==_refl g) at m));
      };
      handed_back_ordered =
          IsOrdered-tasks_of w.tasks.priority w.tasks.parent true r q valid.ordered;
      handed_back = λ t. elem-tasks_of w.tasks.parent true r t q;
      left = λ t. rw (==_refl g) (elem-tasks_of w.tasks.parent false r t q);
    }
