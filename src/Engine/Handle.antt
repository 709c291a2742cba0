-- ===== src/Engine/Handle.antt =====
-- apps/daw_engine_main.cpp: the dispatch of handleUiEntry to the handlers, and a run of the UI's
-- commands.
use unidaw.Base.{ℕ, List, [], ◌∷◌, Option}
use unidaw.Payload.Commands.{
  UiCommandPayload, UiClipWindowCommandPayload, UiChordCommandPayload, UiTrackRoutingPayload,
  UiModLinkCommandPayload, UiModLinkUid16Payload, UiModSourceValuePayload,
  UiAutomationCommandPayload, UiDeviceEuclideanConfigPayload, UiPatcherGraphCommandPayload,
  UiPatcherNodeConfigPayload, UiChainCommandPayload,
}
use unidaw.Engine.{Engine}
use unidaw.Engine.Commands
use unidaw.Engine.Routes
use unidaw.Engine.Mods
use unidaw.Engine.Hosts
use unidaw.Engine.Chains
use unidaw.Engine.Chains.{ChainCommand}
use unidaw.Engine.Targets
use unidaw.Engine.Patcher
use unidaw.Engine.Loads
use unidaw.Engine.Loads.{Environment}

-- A command with its payload, as the type and the size of an entry select it, and with what the
-- environment answers meanwhile.
pub data UiCommand : Type 0 where
  write_note delete_note toggle_play undo redo : UiCommandPayload → UiCommand
  write_harmony delete_harmony : UiCommandPayload → UiCommand
  set_track_harmony_quantize set_loop_range : UiCommandPayload → UiCommand
  request_clip_window : UiClipWindowCommandPayload → UiCommand
  write_chord delete_chord : UiChordCommandPayload → UiCommand
  set_track_routing : UiTrackRoutingPayload → UiCommand
  add_mod_link remove_mod_link : UiModLinkCommandPayload → UiCommand
  set_mod_link_uid16 : UiModLinkUid16Payload → UiCommand
  set_mod_source_value : UiModSourceValuePayload → UiCommand
  chain_command : ChainCommand → UiChainCommandPayload → UiCommand
  set_device_euclidean_config : UiDeviceEuclideanConfigPayload → UiCommand
  set_automation_target : UiAutomationCommandPayload → UiCommand
  open_plugin_editor : UiCommandPayload → UiCommand
  add_patcher_node remove_patcher_node connect_patcher_nodes :
      UiPatcherGraphCommandPayload → UiCommand
  set_patcher_node_config : UiPatcherNodeConfigPayload → UiCommand
  load_plugin_on_track : Environment → UiCommandPayload → UiCommand

module _ (sort : ℕ → List (ℕ × ℕ) → Option (List ℕ)) (out_edges : List (ℕ × ℕ) → ℕ → List ℕ) where
  unfoldable pub handle_ui_entry : UiCommand → Engine → Engine
  handle_ui_entry (UiCommand.write_note p) e = Commands.write_note p e
  handle_ui_entry (UiCommand.delete_note p) e = Commands.delete_note p e
  handle_ui_entry (UiCommand.toggle_play p) e = Commands.toggle_play e
  handle_ui_entry (UiCommand.undo p) e = Commands.undo p e
  handle_ui_entry (UiCommand.redo p) e = Commands.redo p e
  handle_ui_entry (UiCommand.write_harmony p) e = Commands.write_harmony p e
  handle_ui_entry (UiCommand.delete_harmony p) e = Commands.delete_harmony p e
  handle_ui_entry (UiCommand.set_track_harmony_quantize p) e =
      Commands.set_track_harmony_quantize p e
  handle_ui_entry (UiCommand.set_loop_range p) e = Commands.set_loop_range p e
  handle_ui_entry (UiCommand.request_clip_window p) e = Commands.request_clip_window p e
  handle_ui_entry (UiCommand.write_chord p) e = Commands.write_chord p e
  handle_ui_entry (UiCommand.delete_chord p) e = Commands.delete_chord p e
  handle_ui_entry (UiCommand.set_track_routing p) e = Routes.set_track_routing p e
  handle_ui_entry (UiCommand.add_mod_link p) e = Mods.add_mod_link p e
  handle_ui_entry (UiCommand.remove_mod_link p) e = Mods.remove_mod_link p e
  handle_ui_entry (UiCommand.set_mod_link_uid16 p) e = Mods.set_mod_link_uid16 p e
  handle_ui_entry (UiCommand.set_mod_source_value p) e = Mods.set_mod_source_value p e
  handle_ui_entry (UiCommand.chain_command c p) e = Chains.chain_command c p e
  handle_ui_entry (UiCommand.set_device_euclidean_config p) e = Chains.set_euclidean p e
  handle_ui_entry (UiCommand.set_automation_target p) e = Targets.set_automation_target p e
  handle_ui_entry (UiCommand.open_plugin_editor p) e = Hosts.open_plugin_editor p e
  handle_ui_entry (UiCommand.add_patcher_node p) e = Patcher.add_node sort out_edges p e
  handle_ui_entry (UiCommand.remove_patcher_node p) e = Patcher.remove_node sort out_edges p e
  handle_ui_entry (UiCommand.connect_patcher_nodes p) e = Patcher.connect_nodes sort out_edges p e
  handle_ui_entry (UiCommand.set_patcher_node_config p) e = Patcher.set_node_config p e
  handle_ui_entry (UiCommand.load_plugin_on_track env p) e = Loads.load_plugin_on_track env p e

  unfoldable pub run_commands : List UiCommand → Engine → Engine
  run_commands [] e = e
  run_commands (c ∷ cs) e = run_commands cs (handle_ui_entry c e)
