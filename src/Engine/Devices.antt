-- ===== src/Engine/Devices.antt =====
-- The commands for devices, hosts and automation keep the engine sound.
use unidaw.Base.{
  ℕ, suc, ◌/◌, ◌%◌, ◌≤◌, refl, Bool, true, false, not, List, [], ◌∷◌, inl, inr, Option-cases,
  Bool-cases, if◌then◌else◌, ◌==◌,
}
use unidaw.Chain.{Device, TrackChain, set_device_euclidean_config}
use unidaw.Chain.Instruments.{
  instruments, add_device-single, remove-single, move-single, set_device_bypass-single,
  set_device_patcher_node_id-single, set_device_host_slot_index-single,
  set_device_euclidean_config-single,
}
use unidaw.Payload.Commands.{
  UiCommandPayload, UiChainCommandPayload, UiDeviceEuclideanConfigPayload,
  UiAutomationCommandPayload,
}
use unidaw.Engine.{Engine, TrackRuntime, HostCall, find_track, build_track_snapshot}
use unidaw.Engine.Commands.{require_clip_version}
use unidaw.Engine.Hosts.{
  is_vst, is_empty, call_host, send_bypasses, apply_host_bypass_states, chain_paths, same_paths,
  rebuild_host_for_chain, emit_devices, emit_chain_snapshot, resolve_host_index, open_plugin_editor,
}
use unidaw.Engine.Chains.{
  ChainCommand, chain_edit, update_device, only_if, with_chain, chain_command, emit_chain_error,
  set_euclidean, asked_config, asked_device,
}
use unidaw.Engine.Targets.{retarget, do_set_automation_target, set_automation_target}
use unidaw.Engine.Sound.{TrackSound, IsSound, same-IsSound, found-TrackSound, put_track-IsSound}
use unidaw.Engine.Replays.{Keeps, clip_guard-IsSound, guarded-IsSound}
use unidaw.Engine.Tracks.{beside-TrackSound, send-IsSound}

send_bypasses-IsSound : (track i : ℕ) (ds : List Device) → Keeps (send_bypasses track i ds)
unfolding send_bypasses
send_bypasses-IsSound track i [] e s = s
send_bypasses-IsSound track i (d ∷ ds) e s =
    send_bypasses-IsSound track (if is_vst d.kind then suc i else i) ds _ (called (is_vst d.kind))
  where
    called :
        (b : Bool) → IsSound (if b then call_host (HostCall.set_bypass track i d.bypass) e else e)
    called true = same-IsSound {e = e} refl refl refl refl s
    called false = s

-- A track changes in what its plugins are, and the engine may call its host.
pub rebuild-IsSound :
    (track : ℕ) (r : TrackRuntime) → TrackSound r → Keeps (rebuild_host_for_chain track r)
unfolding rebuild_host_for_chain apply_host_bypass_states
rebuild-IsSound track r t e s =
    elim (Bool-cases
      (same_paths r.plugin_paths (chain_paths e.plugin_cache r r.track.chain.devices))) [
        | inl y ↦
            rw (y, rebuild_host_for_chain)
              (elim (Bool-cases r.host_ready) [
                | inl h ↦ rw (h, apply_host_bypass_states) (send_bypasses-IsSound _ _ _ e s)
                | inr h ↦ rw (h, apply_host_bypass_states) s
              ])
        | inr n ↦
            rw (n, rebuild_host_for_chain)
              (put_track-IsSound e track _
                (record {
                  tidy = t.tidy;
                  clip_published = t.clip_published;
                  state_published = t.state_published;
                  single = t.single;
                })
                s)
      ]

emit_devices-IsSound :
    (track version i : ℕ) (ds : List Device) → Keeps (emit_devices track version i ds)
unfolding emit_devices
emit_devices-IsSound track version i [] e s = s
emit_devices-IsSound track version i (d ∷ ds) e s =
    emit_devices-IsSound track version (suc i) ds _ (send-IsSound _ e s)

pub emit_chain_snapshot-IsSound : (r : TrackRuntime) → Keeps (emit_chain_snapshot r)
unfolding emit_chain_snapshot
emit_chain_snapshot-IsSound r e s = either (not e.ui_open) s (
    either (is_empty r.track.chain.devices)
      (send-IsSound _ _ (same-IsSound {e = e} refl refl refl refl s))
      (emit_devices-IsSound _ _ _ _ _ (same-IsSound {e = e} refl refl refl refl s)))
  where
    either : {x y : Engine} (b : Bool) → IsSound x → IsSound y → IsSound (if b then x else y)
    either true h k = h
    either false h k = k

only_if-single :
    (b : Bool) (set : TrackChain → Bool × TrackChain) (c : TrackChain)
    → instruments c ≤ 1
    → (instruments (set c).1 ≤ 1)
    → instruments (only_if b set c).1 ≤ 1
only_if-single true set c h k = k
only_if-single false set c h k = h

chain_edit-single :
    (c : ChainCommand) (p : UiChainCommandPayload) (chain : TrackChain)
    → instruments chain ≤ 1
    → instruments (chain_edit c p chain).1 ≤ 1
unfolding update_device
chain_edit-single ChainCommand.add p chain h =
    add_device-single chain (asked_device p) p.insert_index h
chain_edit-single ChainCommand.remove p chain h = remove-single chain p.device_id h
chain_edit-single ChainCommand.move p chain h = move-single chain p.device_id p.insert_index h
chain_edit-single ChainCommand.update p chain h =
    let a =
      only_if-single (p.flags % 2 == 1) _ chain h
        (set_device_bypass-single chain p.device_id h (not (p.bypass == 0))) in
    let b =
      only_if-single (p.flags / 2 % 2 == 1) _ _ a
        (set_device_patcher_node_id-single _ p.device_id a p.patcher_node_id) in
    only_if-single (p.flags / 4 % 2 == 1) _ _ b
      (set_device_host_slot_index-single _ p.device_id b p.host_slot_index)

with_chain-TrackSound :
    (r : TrackRuntime) (chain : TrackChain)
    → instruments chain ≤ 1
    → TrackSound r
    → TrackSound (with_chain r chain)
with_chain-TrackSound r chain h t = record {
  tidy = t.tidy;
  clip_published = t.clip_published;
  state_published = refl;
  single = h;
}

emit_chain_error-IsSound :
    (code track device kind i : ℕ) → Keeps (emit_chain_error code track device kind i)
unfolding emit_chain_error
emit_chain_error-IsSound code track device kind i = send-IsSound _

pub chain_command-IsSound :
    (c : ChainCommand) (p : UiChainCommandPayload) → Keeps (chain_command c p)
unfolding chain_command
chain_command-IsSound c p e s = elim (Option-cases (find_track e p.track_id)) [
  | inl z ↦ rw (z, chain_command) s
  | inr (r, z) ↦
      let single = chain_edit-single c p r.track.chain (found-TrackSound e p.track_id z s).single in
      let t =
        with_chain-TrackSound r (chain_edit c p r.track.chain).1 single
          (found-TrackSound e p.track_id z s) in
      elim (Bool-cases (chain_edit c p r.track.chain).0) [
        | inl y ↦
            rw (z, y, chain_command)
              (emit_chain_snapshot-IsSound _ _
                (rebuild-IsSound p.track_id _ t _ (put_track-IsSound e p.track_id _ t s)))
        | inr n ↦ rw (z, n, chain_command) (emit_chain_error-IsSound _ _ _ _ _ e s)
      ]
]

pub set_euclidean-IsSound : (p : UiDeviceEuclideanConfigPayload) → Keeps (set_euclidean p)
unfolding set_euclidean
set_euclidean-IsSound p e s = elim (Option-cases (find_track e p.track_id)) [
  | inl z ↦ rw (z, set_euclidean) s
  | inr (r, z) ↦
      elim (Bool-cases (set_device_euclidean_config r.track.chain p.device_id (asked_config p)).0) [
        | inl y ↦
            rw (z, y, set_euclidean)
              (put_track-IsSound e p.track_id _
                (with_chain-TrackSound r _
                  (set_device_euclidean_config-single r.track.chain p.device_id
                    (found-TrackSound e p.track_id z s).single (asked_config p))
                  (found-TrackSound e p.track_id z s))
                s)
        | inr n ↦ rw (z, n, set_euclidean) s
      ]
]

pub open_plugin_editor-IsSound : (p : UiCommandPayload) → Keeps (open_plugin_editor p)
unfolding open_plugin_editor
open_plugin_editor-IsSound p e s = elim (Option-cases (find_track e p.track_id)) [
  | inl z ↦ rw (z, open_plugin_editor) s
  | inr (r, z) ↦
      elim (Option-cases (resolve_host_index e.plugin_cache r 0 p.value0 r.track.chain.devices)) [
        | inl y ↦ rw (z, y, open_plugin_editor) s
        | inr (k, y) ↦ elim (Bool-cases r.host_ready) [
          | inl h ↦ rw (z, y, h, open_plugin_editor) (same-IsSound {e = e} refl refl refl refl s)
          | inr h ↦ rw (z, y, h, open_plugin_editor) s
        ]
      ]
]

do_set_automation_target-IsSound :
    (p : UiAutomationCommandPayload) → Keeps (do_set_automation_target p)
unfolding build_track_snapshot
do_set_automation_target-IsSound p e s = elim (Option-cases (find_track e p.track_id)) [
  | inl z ↦ rw (z, do_set_automation_target) s
  | inr (r, z) ↦
      elim (Option-cases (retarget p.uid16 p.target_plugin_index r.track.automation_clips)) [
        | inl y ↦ rw (z, y, do_set_automation_target) s
        | inr (clips, y) ↦
            rw (z, y, do_set_automation_target)
              (put_track-IsSound e p.track_id _
                (beside-TrackSound r (record (r.track) { automation_clips = clips }) refl refl
                  (found-TrackSound e p.track_id z s).single (found-TrackSound e p.track_id z s))
                s)
      ]
]

pub set_automation_target-IsSound :
    (p : UiAutomationCommandPayload) → Keeps (set_automation_target p)
unfolding set_automation_target
set_automation_target-IsSound p e s =
    guarded-IsSound (require_clip_version p.base_version e) (do_set_automation_target p)
      (clip_guard-IsSound e s p.base_version) (do_set_automation_target-IsSound p)
