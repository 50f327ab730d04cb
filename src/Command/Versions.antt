-- ===== src/Command/Versions.antt =====
-- What the dirty flag of csapex_core/src/command/dispatcher.cpp is for: to tell whether the document
-- is the version that was saved. The versions are the specification, and `Tracks` ties the stacks
-- and the marks on their commands to them.
use csapex.Base.{
  ℕ, suc, ◌+◌, ◌-◌, ◌≡◌, List, [], ◌∷◌, Bool, true, false, not, Option, none, some, if◌then◌else◌,
  ◌==◌, leb, ltb, length,
}
use csapex.Command.{World, Command, Dispatcher, do_execute, reset_dirty_point, undo, redo}

-- The abstract view: a position in a history of versions, and the version that was saved last,
-- unless an edit has discarded it.
pub record Versions : Type 0 where
  pub position : ℕ
  pub newest : ℕ
  pub saved : Option ℕ

-- Nothing has been edited yet.
abbrev pub first : Versions
first = record { position = 0; newest = 0; saved = some 0 }

abbrev pub is_at : Option ℕ → ℕ → Bool
is_at none n = false
is_at (some k) n = k == n

abbrev pub keep_upto : ℕ → Option ℕ → Option ℕ
keep_upto n none = none
keep_upto n (some k) = if leb k n then some k else none

pub data Op {ℓ} (D : Type ℓ) : Type ℓ where
  edits : Command D → Op D
  undoes redoes saves : Op D

module _ {ℓ} {D : Type ℓ} where
  abbrev pub spec_step : Op D → Versions → Versions
  spec_step (edits c) v = record {
    position = v.position + 1;
    newest = v.position + 1;
    saved = keep_upto v.position v.saved;
  }
  spec_step undoes v = record v { position = v.position - 1 }
  spec_step redoes v = record v {
    position = if ltb v.position v.newest then v.position + 1 else v.position;
  }
  spec_step saves v = record v { saved = some v.position }

  abbrev pub spec_run : List (Op D) → Versions → Versions
  spec_run [] v = v
  spec_run (o ∷ os) v = spec_run os (spec_step o v)

  unfoldable pub step : Op D → Dispatcher D → Dispatcher D
  step (edits c) s = (do_execute c s).0
  step undoes s = (undo s).0
  step redoes s = redo s
  step saves s = reset_dirty_point s

  unfoldable pub run : List (Op D) → Dispatcher D → Dispatcher D
  run [] s = s
  run (o ∷ os) s = run os (step o s)

  -- A fresh visible command whose execution and undoing succeed.
  pub record IsEdit (c : Command D) : Type ℓ where
    pub executes : (w : World D) → (c.do_execute w).1 ≡ true
    pub can_be_undone : (w : World D) → (c.do_undo w).1 ≡ true
    pub undoable : c.is_undoable ≡ true
    pub visible : c.is_hidden ≡ false
    pub not_before : c.before_save_point ≡ false
    pub not_after : c.after_save_point ≡ false

  abbrev pub IsRegular : Op D → Type ℓ
  IsRegular (edits c) = IsEdit c
  IsRegular _ = Unit

  -- The flags of the commands below the present version, the latest first.
  abbrev pub DoneFlags : Option ℕ → List (Command D) → Type ℓ
  DoneFlags sv [] = Unit
  DoneFlags sv (c ∷ cs) =
      (c.after_save_point ≡ is_at sv (length cs))
      × (c.before_save_point ≡ is_at sv (suc (length cs)))
      × ((w : World D) → (c.do_undo w).1 ≡ true)
      × DoneFlags sv cs

  -- Those above the present version `n`, the next first.
  abbrev pub UndoneFlags : Option ℕ → ℕ → List (Command D) → Type ℓ
  UndoneFlags sv n [] = Unit
  UndoneFlags sv n (c ∷ cs) =
      (c.after_save_point ≡ is_at sv n)
      × (c.before_save_point ≡ is_at sv (suc n))
      × ((w : World D) → (c.do_undo w).1 ≡ true)
      × UndoneFlags sv (suc n) cs

  pub record Tracks (v : Versions) (s : Dispatcher D) : Type ℓ where
    pub here : length s.done ≡ v.position
    pub top : length s.done + length s.undone ≡ v.newest
    pub below : DoneFlags v.saved s.done
    pub above : UndoneFlags v.saved (length s.done) s.undone
    pub exact : s.dirty ≡ not (is_at v.saved (length s.done))
