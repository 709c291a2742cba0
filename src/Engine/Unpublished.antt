-- ===== src/Engine/Unpublished.antt =====
-- What LoadPluginOnTrack leaves unpublished.
use unidaw.Base.{
  ℕ, suc, ◌<◌, ◌≡◌, refl, ap, ◌∙◌, Bool, true, false, not, List, [], ◌∷◌, none, some, inl, inr,
  Bool-cases, if◌then◌else◌, leb, get_elem?, get_elem?-set_self, arith,
}
use unidaw.Base.Count.{count}
use unidaw.Chain.{
  DeviceKind, Device, is_instrument_kind, TrackChain, has_instrument, device_id_auto,
}
use unidaw.Chain.Instruments.{
  instrument, instruments, add_device-first, no_instrument-head, no_instruments,
}
use unidaw.Payload.Commands.{UiCommandPayload}
use unidaw.Engine.{
  Engine, TrackRuntime, build_track_snapshot, HostCall, find_track, put_track, send,
}
use unidaw.Engine.Hosts.{
  is_vst, is_empty, call_host, send_bypasses, apply_host_bypass_states, chain_paths, same_paths,
  rebuild_host_for_chain, emit_devices, emit_chain_snapshot, resolve_plugin_path,
}
use mathlib.Core.Option
use unidaw.Engine.Loads.{
  Environment, ui_max_tracks, wanted_paths, ensure_track, reslot, is_vst_instrument, vst_in_slot,
  instrument_chain, with_instrument, load_plugin_on_track, load_into,
  update_track_chain_for_instrument,
}

send_bypasses-tracks :
    (track i : ℕ) (ds : List Device) (e : Engine) → (send_bypasses track i ds e).tracks ≡ e.tracks
unfolding send_bypasses
send_bypasses-tracks track i [] e = refl
send_bypasses-tracks track i (d ∷ ds) e =
    send_bypasses-tracks track (if is_vst d.kind then suc i else i) ds _ ∙ called (is_vst d.kind)
  where
    called :
        (b : Bool)
        → (if b then call_host (HostCall.set_bypass track i d.bypass) e else e).tracks ≡ e.tracks
    called true = refl
    called false = refl

emit_devices-tracks :
    (track version i : ℕ) (ds : List Device) (e : Engine)
    → (emit_devices track version i ds e).tracks ≡ e.tracks
unfolding emit_devices send
emit_devices-tracks track version i [] e = refl
emit_devices-tracks track version i (d ∷ ds) e = emit_devices-tracks track version (suc i) ds _

emit_chain_snapshot-tracks :
    (r : TrackRuntime) (e : Engine) → (emit_chain_snapshot r e).tracks ≡ e.tracks
unfolding emit_chain_snapshot send
emit_chain_snapshot-tracks r e =
    either (not e.ui_open) _ _ refl
      (either (is_empty r.track.chain.devices) _ _ refl (emit_devices-tracks _ _ _ _ _))
  where
    either :
        (b : Bool) (x y : Engine)
        → x.tracks ≡ e.tracks
        → y.tracks ≡ e.tracks
        → (if b then x else y).tracks ≡ e.tracks
    either true x y h k = h
    either false x y h k = k

find-put_track :
    (i : ℕ) (r r' : TrackRuntime) (e : Engine)
    → find_track e i ≡ some r
    → find_track (put_track i r' e) i ≡ some r'
find-put_track i r r' e z = get_elem?-set_self e.tracks i r' z

-- After the chain changes, the track is there with the chain, and nothing else of it that is read here.
reslot-none : (slot : ℕ) (ds : List Device) → has_instrument ds ≡ false → reslot slot ds ≡ none
unfolding reslot
reslot-none slot [] h = refl
reslot-none slot (d ∷ ds) h =
    let parts = no_instrument-head d ds h in
    rw (not_vst d.kind parts.0, reslot) (ap (Option.map (◌∷◌ d)) (reslot-none slot ds parts.1))
  where
    not_vst : (k : DeviceKind) → is_instrument_kind k ≡ false → is_vst_instrument k ≡ false
    not_vst k h = ground arith

instrument_chain-instruments :
    (slot : ℕ) (c : TrackChain)
    → has_instrument c.devices ≡ false
    → instruments (instrument_chain slot c) ≡ 1
unfolding instrument_chain
instrument_chain-instruments slot c h =
    rw (reslot-none slot c.devices h, instrument_chain)
      (add_device-first c (vst_in_slot slot) device_id_auto refl refl h)

-- Rebuilding the host leaves the track in its place, with its chain and its snapshot.
rebuild-keeps :
    (i : ℕ) (r : TrackRuntime) (e : Engine)
    → find_track e i ≡ some r
    → (r' : TrackRuntime) × (find_track (rebuild_host_for_chain i r e) i ≡ some r')
      × (r'.track ≡ r.track)
      × (r'.track_snapshot ≡ r.track_snapshot)
unfolding rebuild_host_for_chain apply_host_bypass_states
rebuild-keeps i r e z =
    elim (Bool-cases
      (same_paths r.plugin_paths (chain_paths e.plugin_cache r r.track.chain.devices))) [
        | inl y ↦ (r, rw (y, rebuild_host_for_chain) (called r.host_ready), refl, refl)
        | inr n ↦
            (queued, rw (n, rebuild_host_for_chain) (find-put_track i r queued e z), refl, refl)
      ]
  where
    queued : TrackRuntime
    queued = record r {
      plugin_paths = chain_paths e.plugin_cache r r.track.chain.devices;
      needs_restart = true;
    }

    called :
        (b : Bool)
        → find_track (if b then send_bypasses r.track_id 0 r.track.chain.devices e else e) i
          ≡ some r
    called true =
        ap (λ ts. get_elem? ts i) (send_bypasses-tracks r.track_id 0 r.track.chain.devices e) ∙ z
    called false = z

-- LoadPluginOnTrack, on a track without instruments whose host runs the plugin already and whose
-- snapshot is published, leaves a chain with an instrument, but the published chain has none.
pub load_plugin_unpublished :
    (env : Environment) (p : UiCommandPayload) (e : Engine) (r : TrackRuntime) (path : List ℕ)
    → resolve_plugin_path e.plugin_cache p.plugin_index ≡ some path
    → p.track_id < ui_max_tracks
    → find_track e p.track_id ≡ some r
    → same_paths r.plugin_paths (wanted_paths path) ≡ true
    → has_instrument r.track.chain.devices ≡ false
    → r.track_snapshot ≡ build_track_snapshot r.track
    → (r' : TrackRuntime) × (find_track (load_plugin_on_track env p e) p.track_id ≡ some r')
      × (instruments r'.track.chain ≡ 1)
      × (count instrument r'.track_snapshot.chain_devices ≡ 0)
unfolding load_plugin_on_track ensure_track build_track_snapshot
load_plugin_unpublished env p e r path known small z same without published =
    let r1 = with_instrument p.plugin_index r in
    let kept =
      rebuild-keeps p.track_id r1 (put_track p.track_id r1 e)
        (find-put_track p.track_id r r1 e z) in
    (
      kept.0,
      ap (λ x. find_track x p.track_id) loaded
          ∙ ap (λ ts. get_elem? ts p.track_id)
              (emit_chain_snapshot-tracks r1
                (rebuild_host_for_chain p.track_id r1 (put_track p.track_id r1 e)))
          ∙ kept.1,
      ap (λ t. instruments t.chain) kept.2
          ∙ instrument_chain-instruments p.plugin_index r.track.chain without,
      ap (λ t. count instrument t.chain_devices) (kept.3 ∙ published)
          ∙ no_instruments r.track.chain.devices without,
    )
  where
    below : p.track_id < ui_max_tracks → leb ui_max_tracks p.track_id ≡ false
    below h = ground arith

    ensured : ensure_track env p.track_id path e ≡ (true, e)
    ensured = rw (below small, z, same, ensure_track) refl

    found :
        load_into p (true, e)
        ≡ emit_chain_snapshot
            (with_instrument p.plugin_index r)
            (update_track_chain_for_instrument p.track_id r p.plugin_index e)
    found = rw (z, load_into) refl

    loaded :
        load_plugin_on_track env p e
        ≡ emit_chain_snapshot
            (with_instrument p.plugin_index r)
            (update_track_chain_for_instrument p.track_id r p.plugin_index e)
    loaded = rw (known, load_plugin_on_track) (ap (load_into p) ensured) ∙ found
