-- ===== src/Command/History.antt =====
-- csapex_core/src/command/dispatcher.cpp: `undo` and `redo` move back and forth through the documents
-- that the commands made.
use csapex.Base.{
  ℕ, zero, suc, ◌+◌, ◌≤◌, ◌≡◌, refl, List, [], ◌∷◌, true, arith, length, All, sym, ap, ◌∙◌,
}
use csapex.Command.{World, Command, Dispatcher, do_execute, undo, redo}
use csapex.Command.Versions.{IsEdit}
use csapex.Command.Moves.{stamped, do_execute_fields}

module _ {ℓ} {D : Type ℓ} where
  pub undo_times : ℕ → Dispatcher D → Dispatcher D
  undo_times zero s = s
  undo_times (suc n) s = undo_times n (undo s).0

  pub redo_times : ℕ → Dispatcher D → Dispatcher D
  redo_times zero s = s
  redo_times (suc n) s = redo (redo_times n s)

  pub edit_all : List (Command D) → Dispatcher D → Dispatcher D
  edit_all [] s = s
  edit_all (c ∷ cs) s = edit_all cs (do_execute c s).0

  -- Undoing right after executing gives the world before, and redoing then gives the one after.
  pub record IsReversible (c : Command D) : Type ℓ where
    pub edit : IsEdit c
    pub undo_execute : (w : World D) → c.do_undo (c.do_execute w).0 ≡ (w, true)
    pub redo_execute : (w : World D) → c.do_redo w ≡ c.do_execute w

  -- The stack `done` leads back from world `w`, and forth again.
  abbrev pub Replays : World D → List (Command D) → Type ℓ
  Replays w [] = Unit
  Replays w (c ∷ cs) =
      (p : World D) × (c.do_undo w ≡ (p, true)) × ((c.do_redo p).0 ≡ w) × Replays p cs

  abbrev pub Same : Dispatcher D → Dispatcher D → Type ℓ
  Same s t = (s.world ≡ t.world) × (s.done ≡ t.done) × (s.undone ≡ t.undone)

  undo_world :
      (c : Command D) (cs : List (Command D)) (p : World D) (s : Dispatcher D)
      → s.done ≡ c ∷ cs
      → c.do_undo s.world ≡ (p, true)
      → ((undo s).0.world ≡ p) × ((undo s).0.done ≡ cs) × ((undo s).0.undone ≡ c ∷ s.undone)
  unfolding undo
  undo_world c cs p s e u = ground arith

  redo_world :
      (c : Command D) (cs : List (Command D)) (s : Dispatcher D)
      → s.undone ≡ c ∷ cs
      → ((redo s).world ≡ (c.do_redo s.world).0)
        × ((redo s).done ≡ c ∷ s.done)
        × ((redo s).undone ≡ cs)
  unfolding redo
  redo_world c cs s e = ground arith

  redo-undo_times :
      (n : ℕ) (s : Dispatcher D) (l : List (Command D))
      → s.done ≡ l
      → n ≤ length l
      → Replays s.world l
      → Same (redo_times n (undo_times n s)) s
  unfolding undo_times redo_times
  redo-undo_times zero s l e h r = (refl, refl, refl)
  redo-undo_times (suc n) s [] e h r = absurd (omega arith)
  redo-undo_times (suc n) s (c ∷ cs) e h (p, u, f, r) =
      let (w, d, m) = undo_world c cs p s e u in
      let t = redo_times n (undo_times n (undo s).0) in
      let (tw, td, tm) = redo-undo_times n (undo s).0 cs d (omega arith) (rw w r) in
      let (rw', rd, rm) = redo_world c s.undone t (tm ∙ m) in
      (rw' ∙ ap (λ x. (c.do_redo x).0) (tw ∙ w) ∙ f, rd ∙ ap (λ x. c ∷ x) (td ∙ d) ∙ sym e, rm)

  do_execute_world :
      (c : Command D) (s : Dispatcher D)
      → IsEdit c
      → (do_execute c s).0.world ≡ (c.do_execute s.world).0
  unfolding do_execute
  do_execute_world c s e = ground (arith, e.executes s.world)

  do_execute-Replays :
      (c : Command D) (s : Dispatcher D)
      → IsReversible c
      → Replays s.world s.done
      → Replays (do_execute c s).0.world (do_execute c s).0.done
  do_execute-Replays c s v r =
      rw ((do_execute_fields c s v.edit).0, do_execute_world c s v.edit)
        (s.world, v.undo_execute s.world, ap (λ x. x.0) (v.redo_execute s.world), r)

  edit_all-Replays :
      (cs : List (Command D)) (s : Dispatcher D)
      → All IsReversible cs
      → Replays s.world s.done
      → Replays (edit_all cs s).world (edit_all cs s).done
  unfolding edit_all
  edit_all-Replays [] s v r = r
  edit_all-Replays (c ∷ cs) s v r =
      edit_all-Replays cs (do_execute c s).0 v.1 (do_execute-Replays c s v.0 r)

  length-edit_all :
      (cs : List (Command D)) (s : Dispatcher D)
      → All IsReversible cs
      → length (edit_all cs s).done ≡ length cs + length s.done
  unfolding edit_all
  length-edit_all [] s v = omega arith
  length-edit_all (c ∷ cs) s v = omega (
    arith,
    length-edit_all cs (do_execute c s).0 v.1,
    ap length (do_execute_fields c s v.0.edit).0,
  )

  -- After reversible commands were executed, undoing at most as many calls as there are commands and
  -- redoing as many gives back the world and both stacks.
  pub redo_times-undo_times :
      (cs : List (Command D)) (n : ℕ) (s : Dispatcher D)
      → All IsReversible cs
      → n ≤ length cs
      → Replays s.world s.done
      → Same (redo_times n (undo_times n (edit_all cs s))) (edit_all cs s)
  redo_times-undo_times cs n s v h r =
      redo-undo_times n (edit_all cs s) (edit_all cs s).done refl
        (omega (arith, length-edit_all cs s v)) (edit_all-Replays cs s v r)

  undo_times_last : (n : ℕ) (s : Dispatcher D) → undo_times (suc n) s ≡ (undo (undo_times n s)).0
  unfolding undo_times
  undo_times_last zero s = refl
  undo_times_last (suc n) s = undo_times_last n (undo s).0

  -- Undoing as many reversible commands as were executed gives back the world and `done` from before.
  pub undo_times-edit_all :
      (cs : List (Command D)) (s : Dispatcher D)
      → All IsReversible cs
      → ((undo_times (length cs) (edit_all cs s)).world ≡ s.world)
        × ((undo_times (length cs) (edit_all cs s)).done ≡ s.done)
  unfolding edit_all undo_times
  undo_times-edit_all [] s v = (refl, refl)
  undo_times-edit_all (c ∷ cs) s v =
      let t = (do_execute c s).0 in
      let (w, d) = undo_times-edit_all cs t v.1 in
      let e = d ∙ (do_execute_fields c s v.0.edit).0 in
      let u = undo_times (length cs) (edit_all cs t) in
      let back : (stamped c s.dirty).do_undo u.world ≡ (s.world, true) =
        ap c.do_undo (w ∙ do_execute_world c s v.0.edit) ∙ v.0.undo_execute s.world in
      let (a, b, _) = undo_world (stamped c s.dirty) s.done s.world u e back in
      rw (undo_times_last (length cs) (edit_all cs t)) (a, b)
