-- ===== src/Command.antt =====
-- csapex_core/src/command: the undo and redo stacks (dispatcher.cpp), the calls every command goes
-- through (command.cpp) and the command that holds other commands (meta.cpp).
--
-- A command acts on a `World`: the document that it edits and the static list `undo_later`. What its
-- virtual `doExecute`, `doUndo` and `doRedo` do is a field of the command. `init`, which stores the
-- pointers to the core, has no other effect and is left out. The head of `done`, `undone` and
-- `undo_later` is the back of the source's deque or vector.
pub mod Meta
pub mod Versions
mod Moves
mod Saves
pub mod Savepoints
pub mod History
pub mod Outcomes
mod Tests
use csapex.Base.{
  ℕ, ◌≡◌, List, [], ◌∷◌, ◌++◌, Bool, true, false, not, Option, none, some, if◌then◌else◌, map,
}

module _ {ℓ} (D : Type ℓ) where
  pub record World : Type ℓ where
    pub doc : D
    pub undo_later : List ℕ

  pub record Command : Type ℓ where
    pub id : ℕ
    pub do_execute : World → World × Bool
    pub do_undo : World → World × Bool
    pub do_redo : World → World × Bool
    pub is_undoable : Bool
    pub is_hidden : Bool
    pub before_save_point : Bool
    pub after_save_point : Bool

-- The signals that views listen to, the latest first.
pub data Signal : Type 0 where
  dirty_changed : Bool → Signal
  state_changed : Signal

module _ {ℓ} (D : Type ℓ) where
  pub record Dispatcher : Type ℓ where
    pub world : World D
    pub later : List (Command D)
    pub done : List (Command D)
    pub undone : List (Command D)
    pub dirty : Bool
    pub signals : List Signal

-- `undo` throws when the command cannot be undone.
pub data Outcome : Type 0 where
  returned thrown : Outcome

module _ {ℓ} {D : Type ℓ} where
  unfoldable pub execute_command : Command D → World D → World D × Bool
  execute_command c w = c.do_execute w

  unfoldable pub undo_command : Command D → World D → World D × Bool
  undo_command c w =
      let (w', success) = c.do_undo w in
      if success then (w', true) else (record w' { undo_later = c.id ∷ w'.undo_later }, false)

  unfoldable pub redo_command : Command D → World D → World D × Bool
  redo_command c w = c.do_redo w

  abbrev pub set_after_savepoint : Bool → Command D → Command D
  set_after_savepoint b c = record c { after_save_point = b }

  abbrev pub set_before_savepoint : Bool → Command D → Command D
  set_before_savepoint b c = record c { before_save_point = b }

  unfoldable pub reset : Dispatcher D → Dispatcher D
  reset s = record s { later = []; done = []; undone = []; dirty = false }

  -- `setDirty(bool)`, which `setDirty()` and `setClean()` call
  unfoldable pub set_dirty : Bool → Dispatcher D → Dispatcher D
  set_dirty true s = record s {
    dirty = true;
    signals = if s.dirty then s.signals else dirty_changed true ∷ s.signals;
  }
  set_dirty false s = record s {
    dirty = false;
    signals = if s.dirty then dirty_changed false ∷ s.signals else s.signals;
  }

  emit : Signal → Dispatcher D → Dispatcher D
  emit g s = record s { signals = g ∷ s.signals }

  push_done : Command D → Dispatcher D → Dispatcher D
  push_done c s = if c.is_undoable then record s { done = c ∷ s.done; undone = [] } else s

  after_success : Command D → Dispatcher D → Dispatcher D
  unfolding push_done set_dirty emit
  after_success c s =
      let s' = push_done c s in emit state_changed (if c.is_hidden then s' else set_dirty true s')

  unfoldable pub do_execute : Command D → Dispatcher D → Dispatcher D × Bool
  unfolding after_success execute_command
  do_execute command s =
      let c = if s.dirty then command else set_after_savepoint true command in
      let (w, success) = execute_command c s.world in
      let s' = record s { world = w } in if success then (after_success c s', true) else (s', false)

  unfoldable pub execute : Option (Command D) → Dispatcher D → Dispatcher D × Bool
  execute none s = (s, false)
  execute (some c) s = do_execute c s

  unfoldable pub execute_later : Option (Command D) → Dispatcher D → Dispatcher D
  execute_later none s = s
  execute_later (some c) s = record s { later = s.later ++ c ∷ [] }

  unfoldable pub execute_all : List (Command D) → Dispatcher D → Dispatcher D
  execute_all [] s = s
  execute_all (c ∷ cs) s = execute_all cs (do_execute c s).0

  -- `executeLater()`
  unfoldable pub flush_later : Dispatcher D → Dispatcher D
  flush_later s = record (execute_all s.later s) { later = [] }

  abbrev pub clear_flags : List (Command D) → List (Command D)
  clear_flags [] = []
  clear_flags (c ∷ cs) =
      record c { before_save_point = false; after_save_point = false } ∷ clear_flags cs

  unfoldable pub clear_savepoints : Dispatcher D → Dispatcher D
  clear_savepoints s = record s {
    done = clear_flags s.done;
    undone = clear_flags s.undone;
    signals = dirty_changed s.dirty ∷ s.signals;
  }

  abbrev pub mark_back : (Command D → Command D) → List (Command D) → List (Command D)
  mark_back f [] = []
  mark_back f (c ∷ cs) = f c ∷ cs

  unfoldable pub reset_dirty_point : Dispatcher D → Dispatcher D
  unfolding set_dirty clear_savepoints emit
  reset_dirty_point s =
      let t = clear_savepoints (set_dirty false s) in
      emit (dirty_changed t.dirty) (record t {
        done = mark_back (set_before_savepoint true) t.done;
        undone = mark_back (set_after_savepoint true) t.undone;
      })

  unfoldable pub can_undo : Dispatcher D → Bool
  can_undo s = elim s.done [ [] ↦ false | c ∷ cs ↦ true ]

  unfoldable pub can_redo : Dispatcher D → Bool
  can_redo s = elim s.undone [ [] ↦ false | c ∷ cs ↦ true ]

  undo_step : List (Command D) → Dispatcher D → Dispatcher D × Outcome
  unfolding undo_command set_dirty emit
  undo_step [] s = (s, returned)
  undo_step (last ∷ rest) s =
      let (w, ret) = undo_command last s.world in
      let s' = record s { world = w; done = rest } in
      let t = set_dirty (not last.after_save_point) s' in
      if ret
      then (emit state_changed (record t { undone = last ∷ t.undone }), returned)
      else (s', thrown)

  unfoldable pub undo : Dispatcher D → Dispatcher D × Outcome
  unfolding undo_step
  undo s = undo_step s.done s

  redo_step : List (Command D) → Dispatcher D → Dispatcher D
  unfolding redo_command set_dirty emit
  redo_step [] s = s
  redo_step (last ∷ rest) s =
      let (w, ret) = redo_command last s.world in
      emit state_changed (
        set_dirty (not last.before_save_point)
          (record s { world = w; undone = rest; done = last ∷ s.done }))

  unfoldable pub redo : Dispatcher D → Dispatcher D
  unfolding redo_step
  redo s = redo_step s.undone s
