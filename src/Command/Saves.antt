-- ===== src/Command/Saves.antt =====
-- Proofs about csapex_core/src/command/dispatcher.cpp: `resetDirtyPoint` marks the present
-- version as the saved one.
use csapex.Base.{
  ℕ, suc, ◌<◌, ◌≡◌, refl, List, [], ◌∷◌, true, false, Option, some, arith, length, ap, ◌∙◌,
}
use csapex.Command.{
  Command, Dispatcher, reset_dirty_point, clear_flags, mark_back, set_before_savepoint,
  set_after_savepoint,
}
use csapex.Command.Versions.{Versions, saves, spec_step, DoneFlags, UndoneFlags, Tracks}

module _ {ℓ} {D : Type ℓ} where
  length-clear_flags : (cs : List (Command D)) → length (clear_flags cs) ≡ length cs
  length-clear_flags [] = refl
  length-clear_flags (c ∷ cs) = ap suc (length-clear_flags cs)

  DoneFlags-clear :
      (k : ℕ) (cs : List (Command D)) (sv : Option ℕ)
      → length cs < k
      → DoneFlags sv cs
      → DoneFlags (some k) (clear_flags cs)
  DoneFlags-clear k [] sv h f = tt
  DoneFlags-clear k (c ∷ cs) sv h f = (
    ground (arith, length-clear_flags cs),
    ground (arith, length-clear_flags cs),
    f.2,
    DoneFlags-clear k cs sv (omega arith) f.3,
  )

  UndoneFlags-clear :
      (k n : ℕ) (cs : List (Command D)) (sv : Option ℕ)
      → k < n
      → UndoneFlags sv n cs
      → UndoneFlags (some k) n (clear_flags cs)
  UndoneFlags-clear k n [] sv h f = tt
  UndoneFlags-clear k n (c ∷ cs) sv h f =
      (ground arith, ground arith, f.2, UndoneFlags-clear k (suc n) cs sv (omega arith) f.3)

  -- The marks that `resetDirtyPoint` leaves.
  DoneFlags-mark :
      (cs : List (Command D)) (sv : Option ℕ)
      → DoneFlags sv cs
      → DoneFlags (some (length cs)) (mark_back (set_before_savepoint true) (clear_flags cs))
  DoneFlags-mark [] sv f = tt
  DoneFlags-mark (c ∷ cs) sv f = (
    ground (arith, length-clear_flags cs),
    ground (arith, length-clear_flags cs),
    f.2,
    DoneFlags-clear (suc (length cs)) cs sv (omega arith) f.3,
  )

  UndoneFlags-mark :
      (n : ℕ) (cs : List (Command D)) (sv : Option ℕ)
      → UndoneFlags sv n cs
      → UndoneFlags (some n) n (mark_back (set_after_savepoint true) (clear_flags cs))
  UndoneFlags-mark n [] sv f = tt
  UndoneFlags-mark n (c ∷ cs) sv f =
      (ground arith, ground arith, f.2, UndoneFlags-clear n (suc n) cs sv (omega arith) f.3)

  length-mark_back :
      (f : Command D → Command D) (cs : List (Command D)) → length (mark_back f cs) ≡ length cs
  length-mark_back f [] = refl
  length-mark_back f (c ∷ cs) = refl

  saves_fields :
      (s : Dispatcher D)
      → ((reset_dirty_point s).done ≡ mark_back (set_before_savepoint true) (clear_flags s.done))
        × ((reset_dirty_point s).undone
            ≡ mark_back (set_after_savepoint true) (clear_flags s.undone))
        × ((reset_dirty_point s).dirty ≡ false)
  unfolding reset_dirty_point
  saves_fields s = (refl, refl, refl)

  pub saves-Tracks :
      (v : Versions) (s : Dispatcher D)
      → Tracks v s
      → Tracks (spec_step {D = D} saves v) (reset_dirty_point s)
  saves-Tracks v s t =
      let (p, q, r) = saves_fields s in
      let size =
        length-mark_back (set_before_savepoint true) (clear_flags s.done)
        ∙ length-clear_flags s.done in
      let size' =
        length-mark_back (set_after_savepoint true) (clear_flags s.undone)
        ∙ length-clear_flags s.undone in
      record {
        here = rw (p, size) t.here;
        top = rw (p, q, size, size') t.top;
        below = rw (p, ← t.here) (DoneFlags-mark s.done v.saved t.below);
        above =
            rw (p, q, size, ← t.here) (UndoneFlags-mark (length s.done) s.undone v.saved t.above);
        exact = rw (p, r, size) (ground (arith, t.here));
      }
