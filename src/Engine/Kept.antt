-- ===== src/Engine/Kept.antt =====
-- The edits of notes, chords and the timeline keep the engine sound.
use unidaw.Base.{
  ℕ, ◌≡◌, refl, Bool, true, false, Option, none, some, inl, inr, Option-cases, if◌then◌else◌,
}
use unidaw.Event.{ChordPayload}
use unidaw.Clip.{MusicalClip, RemovedChord, remove_chord_at, remove_chord_by_id}
use unidaw.Payload.{UiChordDiffType}
use unidaw.Edit.{UndoType, UndoEntry, ClipEditResult, add_note_to_clip, remove_note_from_clip}
use unidaw.Engine.{
  Engine, TrackRuntime, find_track, publish_clip, push_undo, emit_ui_diff, emit_chord_diff,
  emit_harmony_diff, send,
}
use unidaw.Engine.HarmonyEdits.{
  write_event, erase_event, harmony_undo, erase_undo, add_or_update_harmony, remove_harmony,
}
use unidaw.Engine.Notes.{
  push_some, finish_note, finish_chord, finish_removal, apply_add_note, apply_remove_note,
  allocate_chord_id, apply_add_chord, emit_remove_chord_diff, apply_remove_chord,
  apply_remove_chord_at, chord_of,
}
use unidaw.Engine.Timeline.{write_event-IsTimeline, erase_event-IsTimeline}
use unidaw.Engine.Clips.{
  IsTidy, add_note_to_clip-IsTidy, remove_note_from_clip-IsTidy, place_chord-IsTidy,
  remove_chord_at-IsTidy, remove_chord_by_id-IsTidy,
}
use unidaw.Engine.Sound.{IsSound, same-IsSound, found-TrackSound, publish_clip-IsSound}

push_undo-IsSound :
    (b : Bool) (u : UndoEntry) (e : Engine) → IsSound e → IsSound (if b then push_undo u e else e)
unfolding push_undo
push_undo-IsSound true u e s = same-IsSound refl refl refl refl s
push_undo-IsSound false u e s = s

push_some-IsSound : (u : Option UndoEntry) (e : Engine) → IsSound e → IsSound (push_some u e)
unfolding push_undo
push_some-IsSound none e s = s
push_some-IsSound (some u) e s = same-IsSound refl refl refl refl s

module _ (e : Engine) (s : IsSound e) (track : ℕ) where
  finish_note-IsSound :
      (r : TrackRuntime) (result : ClipEditResult) (clip : MusicalClip) (version : ℕ)
      → find_track e track ≡ some r
      → IsTidy clip
      → IsSound (finish_note track r result clip version e)
  unfolding emit_ui_diff send
  finish_note-IsSound r result clip version z h =
      let e' = record e { clip_version = version } in
      push_some-IsSound result.undo (emit_ui_diff result.diff (publish_clip track r clip e')) (
        same-IsSound {e = publish_clip track r clip e'} refl refl refl refl
          (publish_clip-IsSound e' track r clip z h (same-IsSound refl refl refl refl s)))

  pub apply_add_note-IsSound :
      (t d p v flags : ℕ) (rec : Bool) (id : Option ℕ)
      → IsSound (apply_add_note track t d p v flags rec id e).1
  unfolding apply_add_note
  apply_add_note-IsSound t d p v flags rec id = elim (Option-cases (find_track e track)) [
    | inl z ↦ rw (z, apply_add_note) s
    | inr (r, z) ↦
        rw (z, apply_add_note)
          (finish_note-IsSound r
            (add_note_to_clip r.track.clip track t d p v flags e.clip_version rec id).0 _ _ z
            (add_note_to_clip-IsTidy r.track.clip track t d p v flags e.clip_version rec id
              (found-TrackSound e track z s).tidy))
  ]

  pub apply_remove_note-IsSound :
      (t p flags : ℕ) (rec : Bool) → IsSound (apply_remove_note track t p flags rec e).1
  unfolding apply_remove_note
  apply_remove_note-IsSound t p flags rec = elim (Option-cases (find_track e track)) [
    | inl z ↦ rw (z, apply_remove_note) s
    | inr (r, z) ↦
        elim (Option-cases
          (remove_note_from_clip r.track.clip track t p flags e.clip_version rec).0) [
            | inl y ↦ rw (z, y, apply_remove_note) s
            | inr (done, y) ↦
                rw (z, y, apply_remove_note)
                  (finish_note-IsSound r done _ _ z (
                    remove_note_from_clip-IsTidy r.track.clip track t p flags e.clip_version rec
                      (found-TrackSound e track z s).tidy))
          ]
  ]

finish_chord-IsSound :
    (type : UiChordDiffType) (undo : UndoType) (track t : ℕ) (c : ChordPayload) (rec : Bool)
    (e : Engine)
    → IsSound e
    → IsSound (finish_chord type undo track t c rec e)
unfolding emit_chord_diff send
finish_chord-IsSound type undo track t c rec e s =
    push_undo-IsSound rec _ _ (same-IsSound {e = e} refl refl refl refl s)

module _ (e : Engine) (s : IsSound e) (track : ℕ) where
  pub apply_add_chord-IsSound :
      (t : ℕ) (c : ChordPayload) (rec : Bool) (id : Option ℕ)
      → IsSound (apply_add_chord track t c rec id e).1
  unfolding apply_add_chord
  apply_add_chord-IsSound t c rec id = elim (Option-cases (find_track e track)) [
    | inl z ↦ rw (z, apply_add_chord) s
    | inr (r, z) ↦
        rw (z, apply_add_chord)
          (finish_chord-IsSound _ _ track t
            (record c { chord_id = (allocate_chord_id e.next_chord_id id).0 }) rec _
            (publish_clip-IsSound _ track r _ z
              (place_chord-IsTidy r.track.clip t _ (found-TrackSound e track z s).tidy)
              (same-IsSound {e = e} refl refl refl refl s)))
  ]

  finish_removal-IsSound :
      (r : TrackRuntime) (out : Option RemovedChord × MusicalClip) (rec : Bool)
      → find_track e track ≡ some r
      → IsTidy out.1
      → IsSound (finish_removal track r out rec e).1
  unfolding emit_remove_chord_diff
  finish_removal-IsSound r (none, clip) rec z h = s
  finish_removal-IsSound r (some removed, clip) rec z h =
      finish_chord-IsSound _ _ track removed.nanotick (chord_of removed) rec _ (
        same-IsSound {e = publish_clip track r clip e} refl refl refl refl
          (publish_clip-IsSound e track r clip z h s))

  pub apply_remove_chord-IsSound :
      (id : ℕ) (rec : Bool) → IsSound (apply_remove_chord track id rec e).1
  unfolding apply_remove_chord
  apply_remove_chord-IsSound id rec = elim (Option-cases (find_track e track)) [
    | inl z ↦ rw (z, apply_remove_chord) s
    | inr (r, z) ↦
        rw (z, apply_remove_chord)
          (finish_removal-IsSound r (remove_chord_by_id r.track.clip id) rec z
            (remove_chord_by_id-IsTidy r.track.clip id (found-TrackSound e track z s).tidy))
  ]

  pub apply_remove_chord_at-IsSound :
      (t k : ℕ) (rec : Bool) → IsSound (apply_remove_chord_at track t k rec e).1
  unfolding apply_remove_chord_at
  apply_remove_chord_at-IsSound t k rec = elim (Option-cases (find_track e track)) [
    | inl z ↦ rw (z, apply_remove_chord_at) s
    | inr (r, z) ↦
        rw (z, apply_remove_chord_at)
          (finish_removal-IsSound r (remove_chord_at r.track.clip t k) rec z
            (remove_chord_at-IsTidy r.track.clip t k (found-TrackSound e track z s).tidy))
  ]

module _ (e : Engine) (s : IsSound e) (t : ℕ) where
  pub add_or_update_harmony-IsSound :
      (root scale : ℕ) (rec : Bool) → IsSound (add_or_update_harmony t root scale rec e).1
  unfolding add_or_update_harmony emit_harmony_diff send
  add_or_update_harmony-IsSound root scale rec =
      same-IsSound
        {e = if rec
          then push_undo (harmony_undo (write_event e.harmony_events t root scale).0 t root scale)
              e1
          else e1}
        refl refl refl refl
        (push_undo-IsSound rec _ e1 (record {
          timeline = write_event-IsTimeline t root scale e.harmony_events s.timeline;
          tracks = s.tracks;
          graph = s.graph;
          graph_published = s.graph_published;
        }))
    where
      e1 : Engine
      e1 = record e { harmony_events = (write_event e.harmony_events t root scale).1 }

  pub remove_harmony-IsSound : (rec : Bool) → IsSound (remove_harmony t rec e).1
  unfolding remove_harmony emit_harmony_diff send
  remove_harmony-IsSound rec = elim (Option-cases (erase_event e.harmony_events t).0) [
    | inl z ↦ rw (z, remove_harmony) s
    | inr (p, z) ↦
        rw (z, remove_harmony)
          (same-IsSound {e = if rec then push_undo (erase_undo p t) e1 else e1} refl refl refl refl
            (push_undo-IsSound rec _ e1 (record {
              timeline = erase_event-IsTimeline t e.harmony_events s.timeline;
              tracks = s.tracks;
              graph = s.graph;
              graph_published = s.graph_published;
            })))
  ]
    where
      e1 : Engine
      e1 = record e { harmony_events = (erase_event e.harmony_events t).1 }
