-- ===== src/Command/Tests.antt =====
-- Concrete commands on a document that is a number, for csapex_core/src/command.
use csapex.Base.{◌++◌, ℕ, ◌+◌, ◌-◌, ◌≡◌, refl, List, [], ◌∷◌, true, false, not, arith, ltb}
use csapex.Base.Result.{ok, failed, ◌>>=◌}
use csapex.Command.Meta.{Nested, add_nested, clear_nested, execute_and_lock}
use csapex.Command.{
  World, Command, Dispatcher, thrown, do_execute, undo, redo, can_undo, can_redo, flush_later,
  execute_all,
}
use csapex.Command.Meta.{
  Transactions, meta, IsExact, meta-IsExact, failed_twice, meta_undo_reports_success,
}
use csapex.Command.Versions.{Op, edits, undoes, redoes, saves, first, spec_run, run, is_at, IsEdit}
use csapex.Command.Savepoints.{fresh, run-Versions, run-Tracks, fresh-Tracks}
use csapex.Command.History.{
  IsReversible, Same, undo_times, redo_times, edit_all, redo_times-undo_times, undo_times-edit_all,
}
use csapex.Command.Outcomes.{unrecorded_change_reported_clean}

abbrev start : World ℕ
start = record { doc = 10; undo_later = [] }

abbrev add : ℕ → Command ℕ
add k = record {
  id = k;
  do_execute = λ w. (record w { doc = w.doc + k }, true);
  do_undo = λ w. (record w { doc = w.doc - k }, true);
  do_redo = λ w. (record w { doc = w.doc + k }, true);
  is_undoable = true;
  is_hidden = false;
  before_save_point = false;
  after_save_point = false;
}

abbrev stuck : Command ℕ
stuck = record (add 1) { id = 7; do_undo = λ w. (w, false) }

abbrev parameter : Command ℕ
parameter = record (add 5) { is_undoable = false }

add-IsEdit : (k : ℕ) → IsEdit (add k)
add-IsEdit k = record {
  executes = λ w. refl;
  can_be_undone = λ w. refl;
  undoable = refl;
  visible = refl;
  not_before = refl;
  not_after = refl;
}

add-IsReversible : (k : ℕ) → IsReversible (add k)
add-IsReversible k = record {
  edit = add-IsEdit k;
  undo_execute = λ w. ground arith;
  redo_execute = λ w. refl;
}

add-IsExact : (k : ℕ) → IsExact (add k)
add-IsExact k = record {
  executes = λ w. refl;
  undo_execute = λ w. ground arith;
  redo_execute = λ w. refl;
}

abbrev session : List (Op ℕ)
session = edits (add 1) ∷ edits (add 2) ∷ saves ∷ undoes ∷ redoes ∷ []

run-Versions_example :
    let s = run session (fresh start) in
    let v = spec_run session first in
    (s.dirty ≡ not (is_at v.saved v.position))
    × (can_undo s ≡ ltb 0 v.position)
    × (can_redo s ≡ ltb v.position v.newest)
run-Versions_example =
    run-Versions start session (add-IsEdit 1, (add-IsEdit 2, (tt, (tt, (tt, tt)))))

redo_times-undo_times_example :
    Same
      (redo_times 2 (undo_times 2 (edit_all (add 1 ∷ add 2 ∷ []) (fresh start))))
      (edit_all (add 1 ∷ add 2 ∷ []) (fresh start))
redo_times-undo_times_example =
    redo_times-undo_times (add 1 ∷ add 2 ∷ []) 2 (fresh start)
      (add-IsReversible 1, (add-IsReversible 2, tt)) (omega arith) tt

undo_times-edit_all_example :
    let t = undo_times 2 (edit_all (add 1 ∷ add 2 ∷ []) (fresh start)) in
    (t.world ≡ start) × (t.done ≡ [])
undo_times-edit_all_example =
    undo_times-edit_all (add 1 ∷ add 2 ∷ []) (fresh start)
      (add-IsReversible 1, (add-IsReversible 2, tt))

abbrev holding : Dispatcher ℕ
holding = record (fresh start) { done = stuck ∷ [] }

abbrev saved_once : Dispatcher ℕ
saved_once = run (edits (add 1) ∷ saves ∷ []) (fresh start)

unrecorded_change_reported_clean_example :
    ((do_execute parameter saved_once).0.dirty ≡ true)
    × ((do_execute parameter saved_once).0.world ≡ record start { doc = 16 })
    × ((redo (undo (do_execute parameter saved_once).0).0).dirty ≡ false)
unfolding run csapex.Command.Versions.step csapex.Command.reset_dirty_point do_execute
unrecorded_change_reported_clean_example =
    unrecorded_change_reported_clean (spec_run (edits (add 1) ∷ saves ∷ []) first) saved_once
      parameter (record (add 1) { after_save_point = false; before_save_point = true }) []
      (record { executes = λ w. refl; not_undoable = refl; visible = refl })
      (run-Tracks (edits (add 1) ∷ saves ∷ []) first (fresh start) (add-IsEdit 1, (tt, tt))
        (fresh-Tracks start))
      refl refl

abbrev no_transactions : Transactions ℕ
no_transactions = record { begin = λ w. w; finalize = λ w. w }

meta-IsExact_example : IsExact (meta no_transactions 9 false (add 1 ∷ add 2 ∷ []))
meta-IsExact_example =
    meta-IsExact no_transactions 9 (add 1 ∷ add 2 ∷ []) (add-IsExact 1, (add-IsExact 2, tt))

meta_undo_reports_success_example :
    let (w', success) = (meta no_transactions 9 false (stuck ∷ [])).do_undo start in
    (success ≡ true) × (w'.undo_later ≡ failed_twice (stuck ∷ []) start ++ [])
meta_undo_reports_success_example =
    meta_undo_reports_success no_transactions 9 (stuck ∷ []) start ((λ w. refl), tt)

abbrev no_commands : Nested ℕ
no_commands = record { nested = []; locked = false }

abbrev two_commands : Nested ℕ
two_commands = record { nested = add 1 ∷ add 2 ∷ []; locked = false }

added_in_order : add_nested (add 1) no_commands >>= add_nested (add 2) ≡ ok two_commands
unfolding add_nested
added_in_order = refl

cleared_unlocked : clear_nested two_commands ≡ ok no_commands
unfolding clear_nested
cleared_unlocked = refl

locked_after_execution :
    (t : Transactions ℕ)
    → add_nested (add 3) (execute_and_lock t 1 false two_commands start).0 ≡ failed
unfolding add_nested execute_and_lock
locked_after_execution t = refl
