-- ===== src/Engine/Mirror.antt =====
-- How apps/daw_engine_main.cpp replays the parameters of a track to a host that was restarted. The
-- ring of the host is an argument; where the host has no shared memory its mask is 0.
use unidaw.Base.{
  ℕ, not, true, false, ◌&&◌, List, [], ◌∷◌, ◌++◌, Option, none, some, replicate, if◌then◌else◌,
  ◌==◌, leb,
}
use unidaw.Base.Words.{u32_max}
use unidaw.StableId.{byte_at}
use unidaw.Chain.{Device}
use unidaw.Ring.{EventEntry, EventRingView, ring_write}
use unidaw.Engine.{TrackRuntime, ParamMirrorEntry}
use unidaw.Engine.Hosts.{is_vst}

abbrev param_target_all : ℕ
param_target_all = u32_max

abbrev param_type : ℕ
param_type = 2

abbrev pub replay_complete_type : ℕ
replay_complete_type = 4

-- The loop over the devices leaves `hostIndex` at 0 and ends at the first VST device.
abbrev pub target_plugin_index : List Device → ℕ
target_plugin_index [] = param_target_all
target_plugin_index (d ∷ ds) = if is_vst d.kind then 0 else target_plugin_index ds

abbrev bytes_of : ℕ → List ℕ
bytes_of w = byte_at w 0 ∷ byte_at w 1 ∷ byte_at w 2 ∷ byte_at w 3 ∷ []

-- A ParamPayload of 40 bytes: the uid, the value, `interp`, the target and `reserved`.
abbrev pub param_payload : List ℕ → ℕ → ℕ → List ℕ
param_payload uid16 value target =
    uid16 ++ bytes_of value ++ bytes_of 0 ++ bytes_of target ++ replicate 12 0

unfoldable pub param_entry : ℕ → ℕ → List ℕ × ParamMirrorEntry → EventEntry
param_entry sample_time target (uid16, entry) = record {
  sample_time = sample_time;
  block_id = 0;
  type = param_type;
  size = 40;
  flags = 0;
  payload =
      param_payload uid16 entry.value (
        if entry.target_plugin_index == param_target_all
        then target
        else entry.target_plugin_index);
}

unfoldable pub gate_entry : ℕ → EventEntry
gate_entry sample_time = record {
  sample_time = if sample_time == 0 then 1 else sample_time;
  block_id = 0;
  type = replay_complete_type;
  size = 0;
  flags = 0;
  payload = replicate 40 0;
}

-- The results of `ringWrite` are not looked at.
abbrev pub write_entries : EventRingView → List EventEntry → EventRingView
write_entries ring [] = ring
write_entries ring (entry ∷ entries) = write_entries (ring_write ring entry).1 entries

abbrev pub param_entries : ℕ → ℕ → List (List ℕ × ParamMirrorEntry) → List EventEntry
param_entries sample_time target [] = []
param_entries sample_time target (p ∷ ps) =
    param_entry sample_time target p ∷ param_entries sample_time target ps

unfoldable pub write_mirror_params :
    EventRingView → TrackRuntime → (sample_time : ℕ) → EventRingView × TrackRuntime
write_mirror_params ring_std r sample_time = if ring_std.mask == 0 then (ring_std, r) else (
  write_entries ring_std (
      param_entries sample_time (target_plugin_index r.track.chain.devices) r.param_mirror
      ++ (gate_entry sample_time ∷ [])),
  record r { mirror_gate_sample_time = (gate_entry sample_time).sample_time },
)

-- What the producer thread does for a track that waits for its replay: `ack` is
-- `replayAckSampleTime` of the host's mailbox, if there is one.
unfoldable pub check_mirror : Option ℕ → TrackRuntime → TrackRuntime
check_mirror none r = r
check_mirror (some ack) r =
    if (r.host_ready && r.mirror_pending) && (r.mirror_primed && leb r.mirror_gate_sample_time ack)
    then record r { mirror_pending = false }
    else r

-- The first block of a host that is to be replayed to.
unfoldable pub prime_mirror :
    EventRingView → TrackRuntime → (sample_time : ℕ) → EventRingView × TrackRuntime
prime_mirror ring_std r sample_time =
    if r.mirror_pending && not r.mirror_primed
    then (let (ring, after) = write_mirror_params ring_std r sample_time in
        (ring, record after { mirror_primed = true }))
    else (ring_std, r)
