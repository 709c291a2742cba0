-- ===== src/Engine/Chains.antt =====
-- apps/daw_engine_main.cpp: the commands for the devices of a track.
use unidaw.Base.{ℕ, ◌/◌, ◌%◌, Bool, true, false, not, ◌||◌, none, some, ◌==◌, if◌then◌else◌}
use unidaw.Abi.{PatcherEuclideanConfig, default_euclidean}
use unidaw.Chain.{
  DeviceKind, Device, TrackChain, add_device, remove_device_by_id, move_device_by_id,
  set_device_bypass, set_device_patcher_node_id, set_device_host_slot_index,
  set_device_euclidean_config,
}
use unidaw.Payload.{UiDiffType}
use unidaw.Payload.Commands.{UiChainCommandPayload, UiDeviceEuclideanConfigPayload}
use unidaw.Engine.{
  Engine, TrackRuntime, UiMessage, send, find_track, put_track, build_track_snapshot,
}
use unidaw.Engine.Hosts.{rebuild_host_for_chain, emit_chain_snapshot}

unfoldable pub emit_chain_error :
    (error_code track_id device_id device_kind insert_index : ℕ) → Engine → Engine
emit_chain_error error_code track_id device_id device_kind insert_index e =
    send
      (UiMessage.chain_error (record {
        diff_type = UiDiffType.chain_error;
        error_code = error_code;
        track_id = track_id;
        device_id = device_id;
        device_kind = device_kind;
        insert_index = insert_index;
      }))
      e

-- The cast of a number to DeviceKind, an enum of 8 bits.
abbrev pub device_kind : ℕ → DeviceKind
device_kind n =
    let k = n % 256 in
    if k == 0
    then DeviceKind.patcher_event
    else if k == 1
    then DeviceKind.patcher_instrument
    else if k == 2
    then DeviceKind.patcher_audio
    else if k == 3
    then DeviceKind.vst_instrument
    else if k == 4
    then DeviceKind.vst_effect
    else (DeviceKind.unnamed k)

-- ConsumesMidi is 1, ProducesMidi 2, ProcessesAudio 4.
abbrev pub capability_mask_for_kind : DeviceKind → ℕ
capability_mask_for_kind DeviceKind.patcher_event = 2
capability_mask_for_kind DeviceKind.patcher_instrument = 5
capability_mask_for_kind DeviceKind.patcher_audio = 4
capability_mask_for_kind DeviceKind.vst_instrument = 5
capability_mask_for_kind DeviceKind.vst_effect = 4
capability_mask_for_kind (DeviceKind.unnamed k) = 0

abbrev pub asked_device : UiChainCommandPayload → Device
asked_device p = record {
  id = p.device_id;
  kind = device_kind p.device_kind;
  capability_mask = capability_mask_for_kind (device_kind p.device_kind);
  patcher_node_id = p.patcher_node_id;
  host_slot_index = p.host_slot_index;
  bypass = not (p.bypass == 0);
  has_euclidean_config = false;
  euclidean_config = default_euclidean;
}

-- Runs a setter if its flag is set.
abbrev pub only_if : Bool → (TrackChain → Bool × TrackChain) → TrackChain → Bool × TrackChain
only_if true set chain = set chain
only_if false set chain = (false, chain)

-- UpdateDevice: each flag of the command asks for a setter.
unfoldable pub update_device : UiChainCommandPayload → TrackChain → Bool × TrackChain
update_device p chain =
    let bypassed =
      only_if (p.flags % 2 == 1) (λ c. set_device_bypass c p.device_id (not (p.bypass == 0)))
        chain in
    let wired =
      only_if (p.flags / 2 % 2 == 1)
        (λ c. set_device_patcher_node_id c p.device_id p.patcher_node_id) bypassed.1 in
    let slotted =
      only_if (p.flags / 4 % 2 == 1)
        (λ c. set_device_host_slot_index c p.device_id p.host_slot_index) wired.1 in
    (bypassed.0 || wired.0 || slotted.0, slotted.1)

pub data ChainCommand : Type 0 where
  add remove move update : ChainCommand

abbrev pub chain_edit : ChainCommand → UiChainCommandPayload → TrackChain → Bool × TrackChain
chain_edit ChainCommand.add p chain = add_device chain (asked_device p) p.insert_index
chain_edit ChainCommand.remove p chain = remove_device_by_id chain p.device_id
chain_edit ChainCommand.move p chain = move_device_by_id chain p.device_id p.insert_index
chain_edit ChainCommand.update p chain = update_device p chain

abbrev pub chain_error_code : ChainCommand → ℕ
chain_error_code ChainCommand.add = 1
chain_error_code ChainCommand.remove = 2
chain_error_code ChainCommand.move = 3
chain_error_code ChainCommand.update = 4

-- The track with another chain, and its snapshot.
abbrev pub with_chain : TrackRuntime → TrackChain → TrackRuntime
with_chain r chain =
    let track = record (r.track) { chain = chain } in
    record r { track = track; track_snapshot = build_track_snapshot track }

abbrev pub chain_done : ℕ → TrackRuntime → Engine → Engine
chain_done track r e = emit_chain_snapshot r (rebuild_host_for_chain track r (put_track track r e))

unfoldable pub chain_command : ChainCommand → UiChainCommandPayload → Engine → Engine
chain_command c p e = elim (find_track e p.track_id) [
  | none ↦ e
  | some r ↦
      let edited = chain_edit c p r.track.chain in
      if edited.0
      then chain_done p.track_id (with_chain r edited.1) e
      else (emit_chain_error (chain_error_code c) p.track_id p.device_id p.device_kind
          p.insert_index e)
]

abbrev pub asked_config : UiDeviceEuclideanConfigPayload → PatcherEuclideanConfig
asked_config p = record {
  steps = p.steps;
  hits = p.hits;
  offset = p.offset;
  duration_ticks = p.duration_ticks;
  degree = p.degree;
  octave_offset = p.octave_offset;
  velocity = p.velocity;
  base_octave = p.base_octave;
}

-- The command SetDeviceEuclideanConfig.
unfoldable pub set_euclidean : UiDeviceEuclideanConfigPayload → Engine → Engine
set_euclidean p e = elim (find_track e p.track_id) [
  | none ↦ e
  | some r ↦
      let edited = set_device_euclidean_config r.track.chain p.device_id (asked_config p) in
      if edited.0 then put_track p.track_id (with_chain r edited.1) e else e
]
