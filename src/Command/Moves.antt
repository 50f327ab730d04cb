-- ===== src/Command/Moves.antt =====
-- Proofs about csapex_core/src/command/dispatcher.cpp: an edit, `undo` and `redo` keep
-- the marks in step with the versions.
use csapex.Base.{
  ℕ, suc, ◌+◌, ◌-◌, ◌≤◌, ◌≡◌, subst, List, [], ◌∷◌, Bool, true, not, Option, arith, if◌then◌else◌,
  ltb, length, ap,
}
use csapex.Command.{Command, Dispatcher, do_execute, undo, redo}
use csapex.Command.Versions.{
  Versions, keep_upto, edits, undoes, redoes, spec_step, IsEdit, DoneFlags, UndoneFlags, Tracks,
}

module _ {ℓ} {D : Type ℓ} where
  DoneFlags-keep :
      (sv : Option ℕ) (n : ℕ) (cs : List (Command D))
      → length cs ≤ n
      → DoneFlags sv cs
      → DoneFlags (keep_upto n sv) cs
  DoneFlags-keep sv n [] h f = tt
  DoneFlags-keep sv n (c ∷ cs) h f =
      (ground (arith, f.0), ground (arith, f.1), f.2, DoneFlags-keep sv n cs (omega arith) f.3)

  -- An edit lands on `done` under a mark that says whether it left a clean document.
  abbrev pub stamped : Command D → Bool → Command D
  stamped c d = record c { after_save_point = not d }

  pub do_execute_fields :
      (c : Command D) (s : Dispatcher D)
      → IsEdit c
      → ((do_execute c s).0.done ≡ stamped c s.dirty ∷ s.done)
        × ((do_execute c s).0.undone ≡ [])
        × ((do_execute c s).0.dirty ≡ true)
  unfolding do_execute
  do_execute_fields c s e = ground (arith, e.executes s.world)

  pub edits-Tracks :
      (v : Versions) (s : Dispatcher D) (c : Command D)
      → IsEdit c
      → Tracks v s
      → Tracks (spec_step (edits c) v) (do_execute c s).0
  edits-Tracks v s c e t =
      let (p, q, r) = do_execute_fields c s e in
      record {
        here = rw p (omega (arith, t.here));
        top = rw (p, q) (omega (arith, t.here));
        below = rw p (
          ground arith,
          ground arith,
          e.can_be_undone,
          DoneFlags-keep v.saved v.position s.done (omega (arith, t.here)) t.below,
        );
        above = rw q tt;
        exact = rw (p, r) (ground (arith, t.here));
      }

  pub undo_fields :
      (c : Command D) (cs : List (Command D)) (s : Dispatcher D)
      → s.done ≡ c ∷ cs
      → (c.do_undo s.world).1 ≡ true
      → ((undo s).0.done ≡ cs)
        × ((undo s).0.undone ≡ c ∷ s.undone)
        × ((undo s).0.dirty ≡ not c.after_save_point)
  unfolding undo
  undo_fields c cs s e u = ground arith

  undo_nothing : (s : Dispatcher D) → s.done ≡ [] → (undo s).0 ≡ s
  unfolding undo
  undo_nothing s e = ground arith

  pub undoes-Tracks :
      (v : Versions) (s : Dispatcher D) (l : List (Command D))
      → s.done ≡ l
      → Tracks v s
      → Tracks (spec_step {D = D} undoes v) (undo s).0
  undoes-Tracks v s [] e t =
      let at_zero : v.position - 1 ≡ v.position = omega (arith, ap length e, t.here) in
      rw (undo_nothing s e, at_zero) t
  undoes-Tracks v s (c ∷ cs) e t =
      let (after, before, ok, below) = subst (DoneFlags v.saved) e t.below in
      let (p, q, r) = undo_fields c cs s e (ok s.world) in
      let size : length s.done ≡ suc (length cs) = ap length e in
      let above = subst (λ n. UndoneFlags v.saved n s.undone) size t.above in
      record {
        here = rw p (omega (arith, t.here));
        top = rw (p, q) (omega (arith, t.top));
        below = rw p below;
        above = rw (p, q) (after, before, ok, above);
        exact = rw (p, r, after);
      }

  pub redo_fields :
      (c : Command D) (cs : List (Command D)) (s : Dispatcher D)
      → s.undone ≡ c ∷ cs
      → ((redo s).done ≡ c ∷ s.done)
        × ((redo s).undone ≡ cs)
        × ((redo s).dirty ≡ not c.before_save_point)
  unfolding redo
  redo_fields c cs s e = ground arith

  redo_nothing : (s : Dispatcher D) → s.undone ≡ [] → redo s ≡ s
  unfolding redo
  redo_nothing s e = ground arith

  pub redoes-Tracks :
      (v : Versions) (s : Dispatcher D) (l : List (Command D))
      → s.undone ≡ l
      → Tracks v s
      → Tracks (spec_step {D = D} redoes v) (redo s)
  redoes-Tracks v s [] e t =
      let newest : (if ltb v.position v.newest then v.position + 1 else v.position) ≡ v.position =
        ground (arith, ap length e, t.here, t.top) in
      rw (redo_nothing s e, newest) t
  redoes-Tracks v s (c ∷ cs) e t =
      let (after, before, ok, above) = subst (UndoneFlags v.saved (length s.done)) e t.above in
      let (p, q, r) = redo_fields c cs s e in
      let newer : (if ltb v.position v.newest then v.position + 1 else v.position)
          ≡ v.position + 1 =
        ground (arith, ap length e, t.here, t.top) in
      rw newer record {
        here = rw p (omega (arith, t.here));
        top = rw (p, q) (omega (arith, t.top, ap length e));
        below = rw p (after, before, ok, t.below);
        above = rw (p, q) above;
        exact = rw (p, r, before);
      }
