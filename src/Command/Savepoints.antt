-- ===== src/Command/Savepoints.antt =====
-- Proofs about csapex_core/src/command/dispatcher.cpp: the dirty flag is false exactly
-- at the saved version.
use csapex.Base.{ℕ, ◌+◌, ◌≡◌, refl, List, [], ◌∷◌, false, not, arith, ltb, length, All}
use csapex.Command.{World, Command, Dispatcher, can_undo, can_redo}
use csapex.Command.Versions.{
  Versions, first, is_at, Op, edits, undoes, redoes, saves, spec_step, spec_run, step, run,
  IsRegular, Tracks,
}
use csapex.Command.Moves.{edits-Tracks, undoes-Tracks, redoes-Tracks}
use csapex.Command.Saves.{saves-Tracks}

module _ {ℓ} {D : Type ℓ} where
  -- Every call of the dispatcher keeps the flags and the dirty bit in step with the versions.
  pub step-Tracks :
      (o : Op D) (v : Versions) (s : Dispatcher D)
      → IsRegular o
      → Tracks v s
      → Tracks (spec_step o v) (step o s)
  unfolding step
  step-Tracks (edits c) v s e t = edits-Tracks v s c e t
  step-Tracks undoes v s e t = undoes-Tracks v s s.done refl t
  step-Tracks redoes v s e t = redoes-Tracks v s s.undone refl t
  step-Tracks saves v s e t = saves-Tracks v s t

  pub run-Tracks :
      (os : List (Op D)) (v : Versions) (s : Dispatcher D)
      → All IsRegular os
      → Tracks v s
      → Tracks (spec_run os v) (run os s)
  unfolding run
  run-Tracks [] v s h t = t
  run-Tracks (o ∷ os) v s h t =
      run-Tracks os (spec_step o v) (step o s) h.1 (step-Tracks o v s h.0 t)

  -- A dispatcher with empty stacks whose document counts as saved.
  abbrev pub fresh : World D → Dispatcher D
  fresh w = record { world = w; later = []; done = []; undone = []; dirty = false; signals = [] }

  pub fresh-Tracks : (w : World D) → Tracks first (fresh w)
  fresh-Tracks w = record { here = refl; top = omega arith; below = tt; above = tt; exact = refl }

  any_done : (s : Dispatcher D) (l : List (Command D)) → s.done ≡ l → can_undo s ≡ ltb 0 (length l)
  unfolding can_undo
  any_done s [] e = ground arith
  any_done s (c ∷ cs) e = ground arith

  any_undone :
      (s : Dispatcher D) (l : List (Command D)) (n : ℕ)
      → s.undone ≡ l
      → can_redo s ≡ ltb n (n + length l)
  unfolding can_redo
  any_undone s [] n e = ground arith
  any_undone s (c ∷ cs) n e = ground arith

  observed :
      (v : Versions) (s : Dispatcher D)
      → Tracks v s
      → (s.dirty ≡ not (is_at v.saved v.position))
        × (can_undo s ≡ ltb 0 v.position)
        × (can_redo s ≡ ltb v.position v.newest)
  observed v s t = (
    rw (← t.here) t.exact,
    rw (← t.here) (any_done s s.done refl),
    rw (← t.here, ← t.top) (any_undone s s.undone (length s.done) refl),
  )

  -- After any calls of `execute` with visible commands that can be undone, `undo`, `redo` and
  -- `resetDirtyPoint` on a fresh dispatcher, `isDirty` is false exactly at the version that was saved
  -- last, and `canUndo` and `canRedo` say whether there is an older and a newer version.
  pub run-Versions :
      (w : World D) (os : List (Op D))
      → All IsRegular os
      → let s = run os (fresh w) in
        let v = spec_run os first in
        (s.dirty ≡ not (is_at v.saved v.position))
        × (can_undo s ≡ ltb 0 v.position)
        × (can_redo s ≡ ltb v.position v.newest)
  run-Versions w os h =
      observed (spec_run os first) (run os (fresh w))
        (run-Tracks os first (fresh w) h (fresh-Tracks w))
