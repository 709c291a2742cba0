-- ===== src/Engine/HarmonyEdits.antt =====
-- apps/daw_engine_main.cpp: the edits of the harmony events, with their undo entries and diffs.
use unidaw.Base.{
  ℕ, Bool, true, false, List, Option, none, some, get_elem?, update_at, insert_at, erase_at,
  lower_bound, if◌then◌else◌, ◌==◌,
}
use unidaw.Base.Words.{add32}
use unidaw.Harmony.{HarmonyEvent, tick_of}
use unidaw.Payload.{UiHarmonyDiffType, no_harmony_diff}
use unidaw.Edit.{UndoType, UndoEntry, no_undo, lo32, hi32}
use unidaw.Engine.{Engine, push_undo, emit_harmony_diff}

abbrev pub new_event : (nanotick root scale_id : ℕ) → HarmonyEvent
new_event nanotick root scale_id = record {
  nanotick = nanotick;
  root = root;
  scale_id = scale_id;
  flags = 0;
}

-- The event at the tick that was changed, if there was one, and the events after the edit.
unfoldable pub write_event :
    List HarmonyEvent → (nanotick root scale_id : ℕ) → Option HarmonyEvent × List HarmonyEvent
write_event events nanotick root scale_id =
    let i = lower_bound tick_of events nanotick in
    let inserted = insert_at events i (new_event nanotick root scale_id) in
    elim (get_elem? events i) [
      | none ↦ (none, inserted)
      | some previous ↦
          if previous.nanotick == nanotick
          then (
            some previous,
            update_at events i (λ x. record x { root = root; scale_id = scale_id }),
          )
          else (none, inserted)
    ]

unfoldable pub erase_event : List HarmonyEvent → ℕ → Option HarmonyEvent × List HarmonyEvent
erase_event events nanotick =
    let i = lower_bound tick_of events nanotick in
    elim (get_elem? events i) [
      | none ↦ (none, events)
      | some found ↦
          if found.nanotick == nanotick then (some found, erase_at events i) else (none, events)
    ]

abbrev pub harmony_undo : Option HarmonyEvent → (nanotick root scale_id : ℕ) → UndoEntry
harmony_undo none nanotick root scale_id = record no_undo {
  type = UndoType.remove_harmony;
  nanotick = nanotick;
  harmony_root = root;
  harmony_scale_id = scale_id;
}
harmony_undo (some previous) nanotick root scale_id = record no_undo {
  type = UndoType.update_harmony;
  nanotick = nanotick;
  harmony_root = previous.root;
  harmony_scale_id = previous.scale_id;
  harmony_root2 = root;
  harmony_scale_id2 = scale_id;
}

abbrev pub erase_undo : HarmonyEvent → ℕ → UndoEntry
erase_undo event nanotick = record no_undo {
  type = UndoType.add_harmony;
  nanotick = nanotick;
  harmony_root = event.root;
  harmony_scale_id = event.scale_id;
}

abbrev pub written_as : Option HarmonyEvent → UiHarmonyDiffType
written_as none = UiHarmonyDiffType.add_event
written_as (some _) = UiHarmonyDiffType.update_event

-- The end of both edits: the timeline is dirty, and the next version goes out with the diff.
abbrev pub announce : UiHarmonyDiffType → (nanotick root scale_id : ℕ) → Engine → Engine
announce type nanotick root scale_id e =
    let next_version = add32 e.harmony_version 1 in
    emit_harmony_diff
      (record no_harmony_diff {
        diff_type = type;
        harmony_version = next_version;
        nanotick_lo = lo32 nanotick;
        nanotick_hi = hi32 nanotick;
        root = root;
        scale_id = scale_id;
      })
      (record e { harmony_dirty = true; harmony_version = next_version })

unfoldable pub add_or_update_harmony : (nanotick root scale_id : ℕ) → Bool → Engine → Bool × Engine
add_or_update_harmony nanotick root scale_id record_undo e =
    let (previous, events) = write_event e.harmony_events nanotick root scale_id in
    let e1 = record e { harmony_events = events } in
    let e2 =
      if record_undo then push_undo (harmony_undo previous nanotick root scale_id) e1 else e1 in
    (true, announce (written_as previous) nanotick root scale_id e2)

unfoldable pub remove_harmony : ℕ → Bool → Engine → Bool × Engine
remove_harmony nanotick record_undo e =
    let (removed, events) = erase_event e.harmony_events nanotick in
    elim removed [
      | none ↦ (false, e)
      | some event ↦
          let e1 = record e { harmony_events = events } in
          let e2 = if record_undo then push_undo (erase_undo event nanotick) e1 else e1 in
          (true, announce UiHarmonyDiffType.remove_event nanotick 0 0 e2)
    ]
