-- ===== src/Engine/Undo.antt =====
-- Undo and redo of the harmony edits of apps/daw_engine_main.cpp.
use unidaw.Base.{ℕ, ◌≡◌, ap, true, false, List, ◌∷◌, if◌then◌else◌}
use unidaw.Harmony.{HarmonyEvent}
use unidaw.Payload.{UiHarmonyDiffType}
use unidaw.Payload.Commands.{UiCommandPayload}
use unidaw.Edit.{UndoEntry}
use unidaw.Engine.{Engine, invert_undo_entry, push_undo}
use unidaw.Engine.HarmonyEdits.{
  announce, erase_event, erase_undo, add_or_update_harmony, remove_harmony,
}
use unidaw.Engine.Commands.{apply_undo_entry, undo_top, redo_top, undo, redo}

-- A replay that goes through.
pub undo_top_went :
    (e e' : Engine) (u : UndoEntry) (us : List UndoEntry)
    → e.undo_stack ≡ u ∷ us
    → apply_undo_entry u false (record e { undo_stack = us }) ≡ (true, e')
    → undo_top e ≡ record e' { redo_stack = invert_undo_entry u ∷ e'.redo_stack }
unfolding undo_top
undo_top_went e e' u us stack went =
    rw (stack, undo_top)
      (ap
        (λ out.
          if out.0
          then record (out.1) { redo_stack = invert_undo_entry u ∷ out.1.redo_stack }
          else out.1)
        went)

pub redo_top_went :
    (e e' : Engine) (u : UndoEntry) (us : List UndoEntry)
    → e.redo_stack ≡ u ∷ us
    → apply_undo_entry u false (record e { redo_stack = us }) ≡ (true, e')
    → redo_top e ≡ record e' { undo_stack = invert_undo_entry u ∷ e'.undo_stack }
unfolding redo_top
redo_top_went e e' u us stack went =
    rw (stack, redo_top)
      (ap
        (λ out.
          if out.0
          then record out.1 { undo_stack = invert_undo_entry u ∷ out.1.undo_stack }
          else out.1)
        went)

-- Undo restores the events and the undo stack of before an edit, and redo the events of after it.
abbrev pub UndoneRedone : Engine → Engine → UiCommandPayload → Type 0
UndoneRedone before edited q =
    ((undo q edited).harmony_events ≡ before.harmony_events)
    × ((undo q edited).undo_stack ≡ before.undo_stack)
    × ((redo q (undo q edited)).harmony_events ≡ edited.harmony_events)

-- The same from the engine that undo leaves.
abbrev Back : Engine → Engine → Engine → Type 0
Back before edited back =
    (back.harmony_events ≡ before.harmony_events)
    × (back.undo_stack ≡ before.undo_stack)
    × (back.clip_version ≡ before.clip_version)
    × ((redo_top back).harmony_events ≡ edited.harmony_events)

module _ (t r s : ℕ) (e : Engine) where
  written : Engine
  written = (add_or_update_harmony t r s true e).1

module _ (t : ℕ) (e : Engine) where
  abbrev erased : Engine
  erased = (remove_harmony t true e).1

  abbrev put_back_entry : HarmonyEvent → UndoEntry
  put_back_entry p = erase_undo p t

  -- The engine that a removal leaves, and what its undo leaves.
  without : HarmonyEvent → Engine
  without p = announce UiHarmonyDiffType.remove_event t 0 0 (
      push_undo (put_back_entry p)
        (record e { harmony_events = (erase_event e.harmony_events t).1 }))

  abbrev replayed : HarmonyEvent → Engine
  replayed p =
      (add_or_update_harmony t p.root p.scale_id false
        (record (without p) { undo_stack = e.undo_stack })).1

  abbrev undone : HarmonyEvent → Engine
  undone p = record (replayed p) {
    redo_stack = invert_undo_entry (put_back_entry p) ∷ (replayed p).redo_stack;
  }
