-- ===== src/Engine/Hosts.antt =====
-- apps/daw_engine_main.cpp: the plugins that the host of a track runs, for the devices of its chain.
use unidaw.Base.{
  ℕ, suc, Bool, true, false, not, ◌&&◌, List, [], ◌∷◌, Option, none, some, ◌==◌, if◌then◌else◌,
  get_elem?,
}
use unidaw.Base.Words.{add32}
use unidaw.StateContainer.{eq_bytes}
use unidaw.Chain.{DeviceKind, Device, device_id_auto}
use unidaw.Payload.{UiDiffType}
use unidaw.Payload.Commands.{UiCommandPayload}
use unidaw.Payload.Tracks.{UiChainDiffPayload}
use unidaw.Engine.{
  Engine, TrackRuntime, UiMessage, HostCall, ScanStatus, PluginCacheEntry, send, find_track,
  put_track,
}

abbrev pub is_ok : ScanStatus → Bool
is_ok ScanStatus.ok = true
is_ok _ = false

abbrev pub is_empty {ℓ} : {A : Type ℓ} → List A → Bool
is_empty [] = true
is_empty (x ∷ xs) = false

unfoldable pub resolve_plugin_path : List PluginCacheEntry → ℕ → Option (List ℕ)
resolve_plugin_path entries plugin_index = elim (get_elem? entries plugin_index) [
  | none ↦ none
  | some entry ↦
      if not (is_ok entry.scan_status) && not (is_empty entry.error) then none else some entry.path
]

abbrev pub host_slot_index_direct : ℕ
host_slot_index_direct = 0xFFFFFFFE

abbrev pub front : List (List ℕ) → Option (List ℕ)
front [] = none
front (path ∷ paths) = some path

unfoldable pub resolve_device_plugin_path :
    List PluginCacheEntry → TrackRuntime → ℕ → Option (List ℕ)
resolve_device_plugin_path entries runtime host_slot_index =
    if host_slot_index == host_slot_index_direct
    then front runtime.plugin_paths
    else resolve_plugin_path entries host_slot_index

abbrev pub is_vst : DeviceKind → Bool
is_vst DeviceKind.vst_instrument = true
is_vst DeviceKind.vst_effect = true
is_vst _ = false

abbrev pub call_host : HostCall → Engine → Engine
call_host c e = record e { host_calls = c ∷ e.host_calls }

-- The loop of `applyHostBypassStates`, from `hostIndex` on.
unfoldable pub send_bypasses : (track_id host_index : ℕ) → List Device → Engine → Engine
send_bypasses track_id host_index [] e = e
send_bypasses track_id host_index (d ∷ ds) e =
    send_bypasses track_id (if is_vst d.kind then suc host_index else host_index) ds
      (if is_vst d.kind then call_host (HostCall.set_bypass track_id host_index d.bypass) e else e)

unfoldable pub apply_host_bypass_states : TrackRuntime → Engine → Engine
apply_host_bypass_states r e =
    if r.host_ready then send_bypasses r.track_id 0 r.track.chain.devices e else e

-- The paths of the plugins of the chain, where they are known.
unfoldable pub chain_paths : List PluginCacheEntry → TrackRuntime → List Device → List (List ℕ)
chain_paths entries r [] = []
chain_paths entries r (d ∷ ds) =
    let rest = chain_paths entries r ds in
    if is_vst d.kind
    then (elim (resolve_device_plugin_path entries r d.host_slot_index) [
      | none ↦ rest
      | some path ↦ path ∷ rest
    ])
    else rest

abbrev pub same_paths : List (List ℕ) → List (List ℕ) → Bool
same_paths [] [] = true
same_paths (p ∷ ps) (q ∷ qs) = eq_bytes p q && same_paths ps qs
same_paths _ _ = false

-- `track` is the position of the runtime. Other paths than those of before have the host restarted.
unfoldable pub rebuild_host_for_chain : ℕ → TrackRuntime → Engine → Engine
rebuild_host_for_chain track r e =
    let paths = chain_paths e.plugin_cache r r.track.chain.devices in
    if same_paths r.plugin_paths paths
    then apply_host_bypass_states r e
    else put_track track (record r { plugin_paths = paths; needs_restart = true }) e

abbrev pub kind_number : DeviceKind → ℕ
kind_number DeviceKind.patcher_event = 0
kind_number DeviceKind.patcher_instrument = 1
kind_number DeviceKind.patcher_audio = 2
kind_number DeviceKind.vst_instrument = 3
kind_number DeviceKind.vst_effect = 4
kind_number (DeviceKind.unnamed n) = n

abbrev pub chain_diff : (track_id version position : ℕ) → Device → UiChainDiffPayload
chain_diff track_id version position d = record {
  diff_type = UiDiffType.chain_snapshot;
  flags = 0;
  track_id = track_id;
  chain_version = version;
  device_id = d.id;
  device_kind = kind_number d.kind;
  position = position;
  patcher_node_id = d.patcher_node_id;
  host_slot_index = d.host_slot_index;
  capability_mask = d.capability_mask;
  bypass = if d.bypass then 1 else 0;
}

-- The message that a chain has no devices.
abbrev pub empty_chain_diff : (track_id version : ℕ) → UiChainDiffPayload
empty_chain_diff track_id version = record {
  diff_type = UiDiffType.chain_snapshot;
  flags = 0;
  track_id = track_id;
  chain_version = version;
  device_id = device_id_auto;
  device_kind = 0;
  position = 0;
  patcher_node_id = 0;
  host_slot_index = 0;
  capability_mask = 0;
  bypass = 0;
}

unfoldable pub emit_devices : (track_id version position : ℕ) → List Device → Engine → Engine
emit_devices track_id version position [] e = e
emit_devices track_id version position (d ∷ ds) e =
    emit_devices track_id version (suc position) ds
      (send (UiMessage.chain_diff (chain_diff track_id version position d)) e)

unfoldable pub emit_chain_snapshot : TrackRuntime → Engine → Engine
emit_chain_snapshot r e =
    let version = add32 e.chain_version 1 in
    let counted = record e { chain_version = version } in
    if not e.ui_open
    then e
    else if is_empty r.track.chain.devices
    then send (UiMessage.chain_diff (empty_chain_diff r.track_id version)) counted
    else emit_devices r.track_id version 0 r.track.chain.devices counted

-- The position among the plugins of the host of the first device that has the id and a known path.
unfoldable pub resolve_host_index :
    List PluginCacheEntry
    → TrackRuntime
    → (host_index target_device_id : ℕ) → List Device
    → Option ℕ
resolve_host_index entries r host_index target_device_id [] = none
resolve_host_index entries r host_index target_device_id (d ∷ ds) =
    let skipped = resolve_host_index entries r host_index target_device_id ds in
    let next = resolve_host_index entries r (suc host_index) target_device_id ds in
    if is_vst d.kind
    then (elim (resolve_device_plugin_path entries r d.host_slot_index) [
      | none ↦ skipped
      | some path ↦ if d.id == target_device_id then some host_index else next
    ])
    else skipped

-- The command OpenPluginEditor. A failure of the host is only logged.
unfoldable pub open_plugin_editor : UiCommandPayload → Engine → Engine
open_plugin_editor p e = elim (find_track e p.track_id) [
  | none ↦ e
  | some r ↦ elim (resolve_host_index e.plugin_cache r 0 p.value0 r.track.chain.devices) [
    | none ↦ e
    | some host_index ↦
        if r.host_ready then call_host (HostCall.open_editor r.track_id host_index) e else e
  ]
]
