-- ===== src/Scheduling/Order.antt =====
-- Proofs about csapex_core/src/scheduling/thread_group.cpp: the queue of a thread group is ordered by
-- priority, and tasks of one priority are executed in the order of their arrival.
use csapex.Base.{
  ℕ, ◌≡◌, refl, sym, ◌∙◌, ◌==◌, Bool, true, false, ◌&&◌, ◌||◌, List, [], ◌∷◌, ◌++◌, elem, All,
  IsDistinct, if◌then◌else◌, Bool-cases, inl, inr, arith,
}
use mathlib.Core.List.{append-nil}
use csapex.Base.Int.{ℤ, pos, negsuc, int_lt, int_eq}
use csapex.Scheduling.Queue.{insert_task}

int_lt_trans : (x y z : ℤ) → int_lt x y ≡ true → int_lt x z ≡ false → int_lt z y ≡ true
int_lt_trans (pos a) (pos b) (pos c) h k = ground arith
int_lt_trans (pos a) (pos b) (negsuc c) h k = refl
int_lt_trans (pos a) (negsuc b) z h k = cc h
int_lt_trans (negsuc a) (pos b) (pos c) h k = cc k
int_lt_trans (negsuc a) (pos b) (negsuc c) h k = refl
int_lt_trans (negsuc a) (negsuc b) (pos c) h k = cc k
int_lt_trans (negsuc a) (negsuc b) (negsuc c) h k = ground arith

int_lt_asym : (x y : ℤ) → int_lt x y ≡ true → int_lt y x ≡ false
int_lt_asym (pos a) (pos b) h = ground arith
int_lt_asym (pos a) (negsuc b) h = cc h
int_lt_asym (negsuc a) (pos b) h = refl
int_lt_asym (negsuc a) (negsuc b) h = ground arith

int_lt-eq : (x y k : ℤ) → int_lt x y ≡ true → int_eq x k && int_eq y k ≡ false
int_lt-eq (pos a) (pos b) (pos c) h = ground arith
int_lt-eq (pos a) (pos b) (negsuc c) h = refl
int_lt-eq (pos a) (negsuc b) k h = cc h
int_lt-eq (negsuc a) (pos b) (pos c) h = refl
int_lt-eq (negsuc a) (pos b) (negsuc c) h = ground arith
int_lt-eq (negsuc a) (negsuc b) (pos c) h = refl
int_lt-eq (negsuc a) (negsuc b) (negsuc c) h = ground arith

pick_last :
    (t : ℕ) (c : Bool) (ts : List ℕ)
    → (c ≡ true → ts ≡ [])
    → (if c then t ∷ ts else ts) ≡ ts ++ (if c then t ∷ [] else [])
pick_last t true ts h = rw (h refl) refl
pick_last t false ts h = sym (append-nil ts)

module _ (priority : ℕ → ℤ) where
  -- None of the tasks is above the priority.
  abbrev pub NoneAbove : ℤ → List ℕ → Type 0
  NoneAbove k ts = All (λ t. int_lt k (priority t) ≡ false) ts

  abbrev pub IsOrdered : List ℕ → Type 0
  IsOrdered [] = Unit
  IsOrdered (t ∷ ts) = NoneAbove (priority t) ts × IsOrdered ts

  -- The tasks of one priority
  abbrev pub tasks_at : ℤ → List ℕ → List ℕ
  tasks_at k [] = []
  tasks_at k (t ∷ ts) = if int_eq (priority t) k then t ∷ tasks_at k ts else tasks_at k ts

  module _ (t : ℕ) where
    -- A queue below a task holds no other of its priority.
    tasks_at_below :
        (k : ℤ) (x : ℕ) (xs : List ℕ)
        → int_lt (priority x) (priority t) ≡ true
        → NoneAbove (priority x) xs
        → int_eq (priority t) k ≡ true
        → tasks_at k (x ∷ xs) ≡ []
    tasks_at_below k x [] h o e = ground (arith, int_lt-eq (priority x) (priority t) k h)
    tasks_at_below k x (y ∷ xs) h o e =
        let y_below = int_lt_trans (priority x) (priority t) (priority y) h o.0 in
        let rest = tasks_at_below k x xs h o.1 e in
        ground (
          arith,
          rest,
          int_lt-eq (priority x) (priority t) k h,
          int_lt-eq (priority y) (priority t) k y_below,
        )

    pub tasks_at-insert_task :
        (k : ℤ) (xs : List ℕ)
        → IsOrdered xs
        → tasks_at k (insert_task priority t xs)
          ≡ tasks_at k xs ++ (if int_eq (priority t) k then t ∷ [] else [])
    unfolding insert_task
    tasks_at-insert_task k [] o = refl
    tasks_at-insert_task k (x ∷ xs) o = elim (Bool-cases (int_lt (priority x) (priority t))) [
      | inl q ↦
          rw q (
            pick_last t (int_eq (priority t) k) (tasks_at k (x ∷ xs)) (tasks_at_below k x xs q o.0))
      | inr q ↦ rw q (ground (arith, tasks_at-insert_task k xs o.1))
    ]

    NoneAbove-insert_task :
        (k : ℤ) (xs : List ℕ)
        → int_lt k (priority t) ≡ false
        → NoneAbove k xs
        → NoneAbove k (insert_task priority t xs)
    unfolding insert_task
    NoneAbove-insert_task k [] h o = (h, tt)
    NoneAbove-insert_task k (x ∷ xs) h o = ground (arith, NoneAbove-insert_task k xs h o.1)

    NoneAbove-below :
        (x : ℕ) (xs : List ℕ)
        → int_lt (priority x) (priority t) ≡ true
        → NoneAbove (priority x) xs
        → NoneAbove (priority t) xs
    NoneAbove-below x [] h o = tt
    NoneAbove-below x (y ∷ xs) h o = (
      int_lt_asym (priority y) (priority t)
          (int_lt_trans (priority x) (priority t) (priority y) h o.0),
      NoneAbove-below x xs h o.1,
    )

    pub insert_task-IsOrdered : (xs : List ℕ) → IsOrdered xs → IsOrdered (insert_task priority t xs)
    unfolding insert_task
    insert_task-IsOrdered [] o = (tt, tt)
    insert_task-IsOrdered (x ∷ xs) o = elim (Bool-cases (int_lt (priority x) (priority t))) [
      | inl q ↦ rw q ((int_lt_asym (priority x) (priority t) q, NoneAbove-below x xs q o.0), o)
      | inr q ↦ rw q (NoneAbove-insert_task (priority x) xs q o.0, insert_task-IsOrdered xs o.1)
    ]

    pub elem-insert_task :
        (u : ℕ) (xs : List ℕ) → elem u (insert_task priority t xs) ≡ u == t || elem u xs
    unfolding insert_task
    elem-insert_task u [] = refl
    elem-insert_task u (x ∷ xs) = ground (arith, elem-insert_task u xs)

    pub insert_task-IsDistinct :
        (xs : List ℕ) → elem t xs ≡ false → IsDistinct xs → IsDistinct (insert_task priority t xs)
    unfolding insert_task
    insert_task-IsDistinct [] n d = (refl, tt)
    insert_task-IsDistinct (x ∷ xs) n d = elim (Bool-cases (int_lt (priority x) (priority t))) [
      | inl q ↦ rw q (n, d)
      | inr q ↦ rw q (
        elem-insert_task x xs ∙ ground (arith, n, d.0),
        insert_task-IsDistinct xs (ground (arith, n)) d.1,
      )
    ]
