-- ===== src/Command/Meta.antt =====
-- csapex_core/src/command/meta.cpp: a command that holds other commands. `transact` stands for
-- `beginTransaction` and `finalizeTransaction` of the root graph, which belong to the document.
use mathlib.Core.List.{reverse, reverse-cons}
use csapex.Base.{
  ℕ, ◌≡◌, refl, List, [], ◌∷◌, ◌++◌, ◌&&◌, Bool, true, false, arith, if◌then◌else◌, ap, ◌∙◌, All,
  Bool-cases, inl, inr, not,
}
use csapex.Base.Result.{Result, ok, assert, ◌>>◌}
use csapex.Command.{World, Command, execute_command, undo_command, redo_command}

module _ {ℓ} (D : Type ℓ) where
  pub record Transactions : Type ℓ where
    pub begin : World D → World D
    pub finalize : World D → World D

  -- The commands of a group, and whether it was executed.
  pub record Nested : Type ℓ where
    pub nested : List (Command D)
    pub locked : Bool

with_failure :
    (s : Bool) (i : ℕ) (xs ys : List ℕ)
    → xs ++ (if s then ys else i ∷ i ∷ ys) ≡ (if s then xs else xs ++ i ∷ i ∷ []) ++ ys
with_failure true i xs ys = refl
with_failure false i [] ys = refl
with_failure false i (x ∷ xs) ys = ap (λ l. x ∷ l) (with_failure false i xs ys)

module _ {ℓ} {D : Type ℓ} where
  -- The loops of `doExecute` and `doRedo` go on after a failure.
  pub execute_nested : List (Command D) → World D → World D × Bool
  execute_nested [] w = (w, true)
  execute_nested (c ∷ cs) w =
      let (w', s) = execute_command c w in
      let (w'', rest) = execute_nested cs w' in (w'', s && rest)

  pub redo_nested : List (Command D) → World D → World D × Bool
  redo_nested [] w = (w, true)
  redo_nested (c ∷ cs) w =
      let (w', s) = redo_command c w in let (w'', rest) = redo_nested cs w' in (w'', s && rest)

  undo_one : Command D → World D → World D
  undo_one c w =
      let (w', s) = undo_command c w in
      if s then w' else record w' { undo_later = c.id ∷ w'.undo_later }

  -- The loop of `doUndo`, over the reversed list.
  pub undo_nested : List (Command D) → World D → World D
  undo_nested [] w = w
  undo_nested (c ∷ cs) w = undo_nested cs (undo_one c w)

  -- `Meta`, as the command that the dispatcher sees.
  unfoldable pub meta : Transactions D → ℕ → Bool → List (Command D) → Command D
  unfolding execute_nested redo_nested undo_nested undo_one execute_command undo_command
      redo_command
  meta t id transaction nested = record {
    id = id;
    do_execute = λ w.
        let (w', success) = execute_nested nested (if transaction then t.begin w else w) in
        (if transaction then t.finalize w' else w', success);
    do_undo = λ w.
        let w' = undo_nested (reverse nested) (if transaction then t.begin w else w) in
        (if transaction then t.finalize w' else w', true);
    do_redo = λ w. redo_nested nested w;
    is_undoable = true;
    is_hidden = false;
    before_save_point = false;
    after_save_point = false;
  }

  -- Before the group was executed, commands can be added to it and removed.
  unfoldable pub add_nested : Command D → Nested D → Result (Nested D)
  add_nested c m = do assert (not m.locked); ok (record m { nested = m.nested ++ c ∷ [] })

  unfoldable pub clear_nested : Nested D → Result (Nested D)
  clear_nested m = do assert (not m.locked); ok (record m { nested = [] })

  -- `Meta::doExecute` with its lock
  unfoldable pub execute_and_lock :
      Transactions D → ℕ → Bool → Nested D → World D → Nested D × (World D × Bool)
  execute_and_lock t id transaction m w =
      (record m { locked = true }, (meta t id transaction m.nested).do_execute w)

  undo_nested-append :
      (xs ys : List (Command D)) (w : World D)
      → undo_nested (xs ++ ys) w ≡ undo_nested ys (undo_nested xs w)
  unfolding undo_nested
  undo_nested-append [] ys w = refl
  undo_nested-append (x ∷ xs) ys w = undo_nested-append xs ys (undo_one x w)

  -- A nested command that succeeds and is undone and redone exactly.
  pub record IsExact (c : Command D) : Type ℓ where
    pub executes : (w : World D) → (c.do_execute w).1 ≡ true
    pub undo_execute : (w : World D) → c.do_undo (c.do_execute w).0 ≡ (w, true)
    pub redo_execute : (w : World D) → c.do_redo w ≡ c.do_execute w

  undo_one-execute : (c : Command D) (w : World D) → IsExact c → undo_one c (c.do_execute w).0 ≡ w
  unfolding undo_one undo_command
  undo_one-execute c w e = ground (arith, e.undo_execute w)

  execute_nested-true :
      (cs : List (Command D)) (w : World D) → All IsExact cs → (execute_nested cs w).1 ≡ true
  unfolding execute_nested execute_command
  execute_nested-true [] w e = refl
  execute_nested-true (c ∷ cs) w e =
      ground (arith, e.0.executes w, execute_nested-true cs (c.do_execute w).0 e.1)

  undo_nested-execute_nested :
      (cs : List (Command D)) (w : World D)
      → All IsExact cs
      → undo_nested (reverse cs) (execute_nested cs w).0 ≡ w
  unfolding execute_nested execute_command undo_nested
  undo_nested-execute_nested [] w e = refl
  undo_nested-execute_nested (c ∷ cs) w e =
      ap (λ l. undo_nested l (execute_nested cs (c.do_execute w).0).0) (reverse-cons c cs)
      ∙ undo_nested-append (reverse cs) (c ∷ []) (execute_nested cs (c.do_execute w).0).0
      ∙ ap (undo_one c) (undo_nested-execute_nested cs (c.do_execute w).0 e.1)
      ∙ undo_one-execute c w e.0

  redo_nested-execute_nested :
      (cs : List (Command D)) (w : World D)
      → All IsExact cs
      → redo_nested cs w ≡ execute_nested cs w
  unfolding execute_nested execute_command redo_nested redo_command
  redo_nested-execute_nested [] w e = refl
  redo_nested-execute_nested (c ∷ cs) w e =
      rw (e.0.redo_execute w, redo_nested-execute_nested cs (c.do_execute w).0 e.1)

  -- A group of exact commands, with no transaction, is again an exact command: undoing it takes the
  -- nested ones back in reverse order, and redoing repeats them.
  pub meta-IsExact :
      (t : Transactions D) (id : ℕ) (cs : List (Command D))
      → All IsExact cs
      → IsExact (meta t id false cs)
  unfolding meta
  meta-IsExact t id cs e = record {
    executes = λ w. execute_nested-true cs w e;
    undo_execute = λ w. ap (λ x. (x, true)) (undo_nested-execute_nested cs w e);
    redo_execute = λ w. redo_nested-execute_nested cs w e;
  }

  -- What undoing commands one after the other puts into `undo_later`, the latest first.
  pub failed_twice : List (Command D) → World D → List ℕ
  unfolding undo_one undo_command
  failed_twice [] w = []
  failed_twice (c ∷ cs) w =
      let rest = failed_twice cs (undo_one c w) in
      if (c.do_undo w).1 then rest else rest ++ c.id ∷ c.id ∷ []

  -- A nested command that does not itself touch `undo_later`.
  abbrev pub LeavesQueue : Command D → Type ℓ
  LeavesQueue c = (w : World D) → (c.do_undo w).0.undo_later ≡ w.undo_later

  undo_one-undo_later :
      (c : Command D) (w : World D)
      → LeavesQueue c
      → (undo_one c w).undo_later
        ≡ (if (c.do_undo w).1 then w.undo_later else c.id ∷ c.id ∷ w.undo_later)
  unfolding undo_one undo_command
  undo_one-undo_later c w q = elim (Bool-cases (c.do_undo w).1) [
    | inl s ↦ rw (s, q w) refl
    | inr s ↦ rw (s, q w) refl
  ]

  undo_nested-undo_later :
      (cs : List (Command D)) (w : World D)
      → All LeavesQueue cs
      → (undo_nested cs w).undo_later ≡ failed_twice cs w ++ w.undo_later
  unfolding undo_nested failed_twice
  undo_nested-undo_later [] w q = refl
  undo_nested-undo_later (c ∷ cs) w q =
      undo_nested-undo_later cs (undo_one c w) q.1
      ∙ ap (λ l. failed_twice cs (undo_one c w) ++ l) (undo_one-undo_later c w q.0)
      ∙ with_failure (c.do_undo w).1 c.id (failed_twice cs (undo_one c w)) w.undo_later

  -- Undoing a group without a transaction, whose parts do not touch `undo_later`, reports success
  -- whatever the parts report, and puts each part that failed into `undo_later` twice, in the order in
  -- which they were undone.
  pub meta_undo_reports_success :
      (t : Transactions D) (id : ℕ) (cs : List (Command D)) (w : World D)
      → All LeavesQueue (reverse cs)
      → let (w', success) = (meta t id false cs).do_undo w in
        (success ≡ true) × (w'.undo_later ≡ failed_twice (reverse cs) w ++ w.undo_later)
  unfolding meta
  meta_undo_reports_success t id cs w q = (refl, undo_nested-undo_later (reverse cs) w q)
