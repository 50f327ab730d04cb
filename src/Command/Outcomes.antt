-- ===== src/Command/Outcomes.antt =====
-- csapex_core/src/command/dispatcher.cpp: what each call does on every branch, errors included.
use csapex.Base.{
  length, suc, subst, ◌≡◌, refl, List, [], ◌∷◌, ◌++◌, ◌&&◌, ◌||◌, true, false, not, arith,
  if◌then◌else◌, ap, sym, ◌∙◌, some,
}
use mathlib.Core.List.{append-nil, append_assoc}
use csapex.Command.{
  World, Command, Dispatcher, thrown, do_execute, execute_later, flush_later, execute_all, undo,
  redo,
}
use csapex.Command.Versions.{Tracks, Versions, is_at, DoneFlags}
use csapex.Command.Moves.{undo_fields, redo_fields}

module _ {ℓ} {D : Type ℓ} where
  -- `execute` runs the command once and returns its verdict. On failure the stacks and the dirty flag
  -- stay; on success an undoable command goes on `done` and empties `undone`, any other leaves both,
  -- and the flag is raised unless the command is hidden.
  pub do_execute_outcome :
      (c : Command D) (s : Dispatcher D)
      → let (t, success) = do_execute c s in
        let kept = success && c.is_undoable in
        (t.world ≡ (c.do_execute s.world).0)
        × (success ≡ (c.do_execute s.world).1)
        × (t.done ≡ (
            if kept
            then record c { after_save_point = not s.dirty || c.after_save_point } ∷ s.done
            else s.done))
        × (t.undone ≡ (if kept then [] else s.undone))
        × (t.dirty ≡ (s.dirty || (success && not c.is_hidden)))
        × (t.later ≡ s.later)
  unfolding do_execute
  do_execute_outcome c s = ground arith

  -- A command whose undoing fails makes `undo` throw: it is off `done`, in `undo_later`, and not on
  -- `undone`; the dirty flag stays.
  pub undo_thrown :
      (c : Command D) (cs : List (Command D)) (w : World D) (s : Dispatcher D)
      → s.done ≡ c ∷ cs
      → c.do_undo s.world ≡ (w, false)
      → ((undo s).1 ≡ thrown)
        × ((undo s).0.world ≡ record w { undo_later = c.id ∷ w.undo_later })
        × ((undo s).0.done ≡ cs)
        × ((undo s).0.undone ≡ s.undone)
        × ((undo s).0.dirty ≡ s.dirty)
  unfolding undo
  undo_thrown c cs w s e u = ground arith

  abbrev pub with_later : List (Command D) → Dispatcher D → Dispatcher D
  with_later l s = record s { later = l }

  do_execute-with_later :
      (c : Command D) (l : List (Command D)) (s : Dispatcher D)
      → (do_execute c (with_later l s)).0 ≡ with_later l (do_execute c s).0
  unfolding do_execute
  do_execute-with_later c l s = ground arith

  execute_all-with_later :
      (cs l : List (Command D)) (s : Dispatcher D)
      → execute_all cs (with_later l s) ≡ with_later l (execute_all cs s)
  unfolding execute_all
  execute_all-with_later [] l s = refl
  execute_all-with_later (c ∷ cs) l s =
      ap (execute_all cs) (do_execute-with_later c l s)
      ∙ execute_all-with_later cs l (do_execute c s).0

  pub queue : List (Command D) → Dispatcher D → Dispatcher D
  queue [] s = s
  queue (c ∷ cs) s = queue cs (execute_later (some c) s)

  queue-later :
      (cs : List (Command D)) (s : Dispatcher D) → queue cs s ≡ with_later (s.later ++ cs) s
  unfolding queue execute_later
  queue-later [] s = ap (λ l. with_later l s) (sym (append-nil s.later))
  queue-later (c ∷ cs) s =
      queue-later cs (execute_later (some c) s)
      ∙ ap (λ l. with_later l s) (append_assoc s.later (c ∷ []) cs)

  -- Commands put off by `executeLater` run in the order in which they were put off, behind those that
  -- waited already, as if each were executed at the call that flushes; the queue is empty then.
  pub flush_later-queue :
      (cs : List (Command D)) (s : Dispatcher D)
      → flush_later (queue cs s) ≡ with_later [] (execute_all (s.later ++ cs) s)
  unfolding flush_later
  flush_later-queue cs s =
      ap flush_later (queue-later cs s)
      ∙ ap (with_later []) (execute_all-with_later (s.later ++ cs) (s.later ++ cs) s)

  pub record IsUnrecorded (c : Command D) : Type ℓ where
    pub executes : (w : World D) → (c.do_execute w).1 ≡ true
    pub not_undoable : c.is_undoable ≡ false
    pub visible : c.is_hidden ≡ false

  unrecorded_fields :
      (u : Command D) (s : Dispatcher D)
      → IsUnrecorded u
      → ((do_execute u s).0.world ≡ (u.do_execute s.world).0)
        × ((do_execute u s).0.done ≡ s.done)
        × ((do_execute u s).0.dirty ≡ true)
  unfolding do_execute
  unrecorded_fields u s n = ground (arith, n.executes s.world)

  -- At the saved version, after at least one command: a visible change that cannot be undone (a
  -- changed parameter is one) raises the flag, and `undo` and `redo` lower it again though the change
  -- is neither taken back nor saved.
  pub unrecorded_change_reported_clean :
      (v : Versions) (s : Dispatcher D) (u c : Command D) (cs : List (Command D))
      → IsUnrecorded u
      → Tracks v s
      → s.done ≡ c ∷ cs
      → s.dirty ≡ false
      → let changed = (do_execute u s).0 in
        (changed.dirty ≡ true)
        × (changed.world ≡ (u.do_execute s.world).0)
        × ((redo (undo changed).0).dirty ≡ false)
  unrecorded_change_reported_clean v s u c cs n t e d =
      let (w, p, r) = unrecorded_fields u s n in
      let changed = (do_execute u s).0 in
      let (_, before, ok, _) = subst (DoneFlags v.saved) e t.below in
      let size : length s.done ≡ suc (length cs) = ap length e in
      let saved : is_at v.saved (length s.done) ≡ true = ground (arith, t.exact) in
      let (_, q, _) = undo_fields c cs changed (p ∙ e) (ok changed.world) in
      let (_, _, clean) = redo_fields c changed.undone (undo changed).0 q in
      let marked : c.before_save_point ≡ true = before ∙ ap (is_at v.saved) (sym size) ∙ saved in
      (r, w, clean ∙ ap not marked)
