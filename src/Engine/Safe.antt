-- ===== src/Engine/Safe.antt =====
-- Every command of the UI keeps the engine sound.
use unidaw.Base.{ℕ, Option, All, List, [], ◌∷◌, Bool, if◌then◌else◌, true, false, refl, ◌==◌}
use unidaw.Engine.{Engine}
use unidaw.Engine.Commands
use unidaw.Engine.Commands.{
  guarded, asked_chord, delete_chord, do_delete_chord, toggle_play, request_clip_window,
}
use unidaw.Engine.Handle.{UiCommand, handle_ui_entry, run_commands}
use unidaw.Engine.Sound.{IsSound, same-IsSound}
use unidaw.Engine.Kept.{
  apply_add_note-IsSound, apply_remove_note-IsSound, apply_add_chord-IsSound,
  apply_remove_chord-IsSound, apply_remove_chord_at-IsSound, add_or_update_harmony-IsSound,
  remove_harmony-IsSound,
}
use unidaw.Engine.Replays.{
  Keeps, undo_top-IsSound, redo_top-IsSound, clip_guard-IsSound, harmony_guard-IsSound,
  guarded-IsSound,
}
use unidaw.Engine.Tracks.{
  set_track_harmony_quantize-IsSound, set_loop_range-IsSound, set_track_routing-IsSound,
  add_mod_link-IsSound, remove_mod_link-IsSound, set_mod_link_uid16-IsSound,
  set_mod_source_value-IsSound,
}
use unidaw.Engine.Devices.{
  chain_command-IsSound, set_euclidean-IsSound, set_automation_target-IsSound,
  open_plugin_editor-IsSound,
}
use unidaw.Engine.Patched.{
  add_node-IsSound, remove_node-IsSound, connect_nodes-IsSound, set_node_config-IsSound,
}

either : (b : Bool) (x y : Engine) → IsSound x → IsSound y → IsSound (if b then x else y)
either true x y h k = h
either false x y h k = k

-- Of all commands, LoadPluginOnTrack alone changes a chain and does not publish it.
unfoldable pub Publishes : UiCommand → Type 0
Publishes (UiCommand.load_plugin_on_track env p) = ⊥
Publishes _ = Unit

module _ (sort : ℕ → List (ℕ × ℕ) → Option (List ℕ)) (out_edges : List (ℕ × ℕ) → ℕ → List ℕ) where
  handle_ui_entry-IsSound : (c : UiCommand) → Publishes c → Keeps (handle_ui_entry sort out_edges c)
  unfolding handle_ui_entry Publishes Commands.write_note Commands.delete_note Commands.undo
      Commands.redo Commands.write_harmony Commands.delete_harmony Commands.write_chord delete_chord
      toggle_play request_clip_window
  handle_ui_entry-IsSound (UiCommand.write_note p) k e s =
      guarded-IsSound (Commands.require_clip_version p.base_version e) (Commands.do_write_note p)
        (clip_guard-IsSound e s p.base_version)
        (λ x h. apply_add_note-IsSound x h p.track_id _ _ _ _ _ _ _)
  handle_ui_entry-IsSound (UiCommand.delete_note p) k e s =
      guarded-IsSound (Commands.require_clip_version p.base_version e) (Commands.do_delete_note p)
        (clip_guard-IsSound e s p.base_version)
        (λ x h. apply_remove_note-IsSound x h p.track_id _ _ _ _)
  handle_ui_entry-IsSound (UiCommand.toggle_play p) k e s =
      same-IsSound {e = e} refl refl refl refl s
  handle_ui_entry-IsSound (UiCommand.undo p) k e s =
      guarded-IsSound (Commands.require_clip_version p.base_version e) Commands.undo_top
        (clip_guard-IsSound e s p.base_version) undo_top-IsSound
  handle_ui_entry-IsSound (UiCommand.redo p) k e s =
      guarded-IsSound (Commands.require_clip_version p.base_version e) Commands.redo_top
        (clip_guard-IsSound e s p.base_version) redo_top-IsSound
  handle_ui_entry-IsSound (UiCommand.write_harmony p) k e s =
      guarded-IsSound (Commands.require_harmony_version p.base_version e)
        (Commands.do_write_harmony p) (harmony_guard-IsSound e s p.base_version)
        (λ x h. add_or_update_harmony-IsSound x h _ _ _ _)
  handle_ui_entry-IsSound (UiCommand.delete_harmony p) k e s =
      guarded-IsSound (Commands.require_harmony_version p.base_version e)
        (Commands.do_delete_harmony p) (harmony_guard-IsSound e s p.base_version)
        (λ x h. remove_harmony-IsSound x h _ _)
  handle_ui_entry-IsSound (UiCommand.set_track_harmony_quantize p) k e s =
      set_track_harmony_quantize-IsSound p e s
  handle_ui_entry-IsSound (UiCommand.set_loop_range p) k e s = set_loop_range-IsSound p e s
  handle_ui_entry-IsSound (UiCommand.request_clip_window p) k e s =
      same-IsSound {e = e} refl refl refl refl s
  handle_ui_entry-IsSound (UiCommand.write_chord p) k e s =
      guarded-IsSound (Commands.require_clip_version p.base_version e) (Commands.do_write_chord p)
        (clip_guard-IsSound e s p.base_version)
        (λ x h. apply_add_chord-IsSound x h p.track_id _ (asked_chord p) _ _)
  handle_ui_entry-IsSound (UiCommand.delete_chord p) k e s =
      guarded-IsSound (Commands.require_clip_version p.base_version e) (Commands.do_delete_chord p)
        (clip_guard-IsSound e s p.base_version)
        (λ x h.
          either (p.spread == 0) _ _ (apply_remove_chord_at-IsSound x h p.track_id _ _ _)
            (apply_remove_chord-IsSound x h p.track_id _ _))
  handle_ui_entry-IsSound (UiCommand.set_track_routing p) k e s = set_track_routing-IsSound p e s
  handle_ui_entry-IsSound (UiCommand.add_mod_link p) k e s = add_mod_link-IsSound p e s
  handle_ui_entry-IsSound (UiCommand.remove_mod_link p) k e s = remove_mod_link-IsSound p e s
  handle_ui_entry-IsSound (UiCommand.set_mod_link_uid16 p) k e s = set_mod_link_uid16-IsSound p e s
  handle_ui_entry-IsSound (UiCommand.set_mod_source_value p) k e s =
      set_mod_source_value-IsSound p e s
  handle_ui_entry-IsSound (UiCommand.chain_command c p) k e s = chain_command-IsSound c p e s
  handle_ui_entry-IsSound (UiCommand.set_device_euclidean_config p) k e s =
      set_euclidean-IsSound p e s
  handle_ui_entry-IsSound (UiCommand.set_automation_target p) k e s =
      set_automation_target-IsSound p e s
  handle_ui_entry-IsSound (UiCommand.open_plugin_editor p) k e s = open_plugin_editor-IsSound p e s
  handle_ui_entry-IsSound (UiCommand.add_patcher_node p) k e s =
      add_node-IsSound sort out_edges p e s
  handle_ui_entry-IsSound (UiCommand.remove_patcher_node p) k e s =
      remove_node-IsSound sort out_edges p e s
  handle_ui_entry-IsSound (UiCommand.connect_patcher_nodes p) k e s =
      connect_nodes-IsSound sort out_edges p e s
  handle_ui_entry-IsSound (UiCommand.set_patcher_node_config p) k e s =
      set_node_config-IsSound sort out_edges p e s
  handle_ui_entry-IsSound (UiCommand.load_plugin_on_track env p) k e s = absurd k

  -- Any sequence of the UI's commands but LoadPluginOnTrack on an engine keeps the harmony events in
  -- strict order of their ticks without flags, the events of each clip in order and its cells with one
  -- note or chord at most, one instrument at most in each chain, the published snapshots of each track
  -- equal to what the track holds, and the patcher graph, and the one that is published, with distinct
  -- ids and edges that isValidEdge accepts. Nothing is assumed of the sort of the graph.
  pub run_commands-IsSound :
      (cs : List UiCommand) (e : Engine)
      → All Publishes cs
      → IsSound e
      → IsSound (run_commands sort out_edges cs e)
  unfolding run_commands
  run_commands-IsSound [] e k s = s
  run_commands-IsSound (c ∷ cs) e k s =
      run_commands-IsSound cs (handle_ui_entry sort out_edges c e) k.1
        (handle_ui_entry-IsSound c k.0 e s)
