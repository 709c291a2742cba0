-- ===== src/Engine/Slots.antt =====
-- The plugins that the host of a track runs, and the devices of its chain.
use mathlib.Core.List.{Memᴰ}
use unidaw.Base.{
  ℕ, suc, ◌+◌, ◌≡◌, ◌⊎◌, refl, ap, ◌∙◌, true, List, [], ◌∷◌, some, inl, inr, Option-cases,
  Bool-cases, ◌==◌, arith, get_elem?,
}
use unidaw.Chain.{Device}
use unidaw.Payload.Commands.{UiCommandPayload}
use unidaw.Engine.{Engine, TrackRuntime, HostCall, PluginCacheEntry, find_track}
use unidaw.Engine.Hosts.{
  is_vst, call_host, resolve_device_plugin_path, chain_paths, resolve_host_index,
  open_plugin_editor,
}

-- In the list of paths for a chain, the place `slot` is that of a device with the id.
pub record Plays (entries : List PluginCacheEntry) (r : TrackRuntime) (id : ℕ) (ds : List Device)
    (slot : ℕ) : Type 0 where
  pub device : Device
  pub path : List ℕ
  pub in_chain : Memᴰ device ds
  pub same_id : device.id ≡ id
  pub plugin : is_vst device.kind ≡ true
  pub known : resolve_device_plugin_path entries r device.host_slot_index ≡ some path
  pub listed : get_elem? (chain_paths entries r ds) slot ≡ some path

module _ (entries : List PluginCacheEntry) (r : TrackRuntime) (id : ℕ) where
  -- A device that is not listed, and one that is.
  unlisted :
      (d : Device) (ds : List Device) (j : ℕ)
      → chain_paths entries r (d ∷ ds) ≡ chain_paths entries r ds
      → Plays entries r id ds j
      → Plays entries r id (d ∷ ds) j
  unlisted d ds j e p = record {
    device = p.device;
    path = p.path;
    in_chain = Memᴰ.tail p.in_chain;
    same_id = p.same_id;
    plugin = p.plugin;
    known = p.known;
    listed = ap (λ paths. get_elem? paths j) e ∙ p.listed;
  }

  after_listed :
      (d : Device) (ds : List Device) (path : List ℕ) (j : ℕ)
      → chain_paths entries r (d ∷ ds) ≡ path ∷ chain_paths entries r ds
      → Plays entries r id ds j
      → Plays entries r id (d ∷ ds) (suc j)
  after_listed d ds path j e p = record {
    device = p.device;
    path = p.path;
    in_chain = Memᴰ.tail p.in_chain;
    same_id = p.same_id;
    plugin = p.plugin;
    known = p.known;
    listed = ap (λ paths. get_elem? paths (suc j)) e ∙ p.listed;
  }

  slot_found :
      (h k : ℕ) (ds : List Device)
      → resolve_host_index entries r h id ds ≡ some k
      → (j : ℕ) × (k ≡ h + j) × Plays entries r id ds j
  unfolding resolve_host_index chain_paths
  slot_found h k [] e = cc
  slot_found h k (d ∷ ds) e = elim (Bool-cases (is_vst d.kind)) [
    | inr n ↦
        let found = slot_found h k ds (rw (n, resolve_host_index) at e) in
        (found.0, found.1, unlisted d ds found.0 (rw (n, chain_paths)) found.2)
    | inl y ↦ elim (Option-cases (resolve_device_plugin_path entries r d.host_slot_index)) [
      | inl z ↦
          let found = slot_found h k ds (rw (y, z, resolve_host_index) at e) in
          (found.0, found.1, unlisted d ds found.0 (rw (y, z, chain_paths)) found.2)
      | inr (path, z) ↦ elim (Bool-cases (d.id == id)) [
        | inl same ↦ (
          0,
          first (rw (y, z, same, resolve_host_index) at e),
          record {
            device = d;
            path = path;
            in_chain = Memᴰ.head refl;
            same_id = ground arith;
            plugin = y;
            known = z;
            listed = rw (y, z, chain_paths);
          },
        )
        | inr other ↦
            let found = slot_found (suc h) k ds (rw (y, z, other, resolve_host_index) at e) in
            (
              suc found.0,
              omega (arith, found.1),
              after_listed d ds path found.0 (rw (y, z, chain_paths)) found.2,
            )
      ]
    ]
  ]
    where
      first : some h ≡ some k → k ≡ h + 0
      first q = ground arith

-- The command OpenPluginEditor does nothing, or asks the host of the track for the editor of one
-- plugin: the one at the place, among the known plugin paths of the chain's VST devices in their
-- order, of a VST device with the id that the command names.
pub open_plugin_editor_lem :
    (p : UiCommandPayload) (e : Engine)
    → (open_plugin_editor p e ≡ e)
      ⊎ ((r : TrackRuntime) × (slot : ℕ) × (find_track e p.track_id ≡ some r)
          × (open_plugin_editor p e ≡ call_host (HostCall.open_editor r.track_id slot) e)
          × Plays e.plugin_cache r p.value0 r.track.chain.devices slot)
unfolding open_plugin_editor
open_plugin_editor_lem p e = elim (Option-cases (find_track e p.track_id)) [
  | inl z ↦ inl (rw (z, open_plugin_editor))
  | inr (r, z) ↦
      elim (Option-cases (resolve_host_index e.plugin_cache r 0 p.value0 r.track.chain.devices)) [
        | inl y ↦ inl (rw (z, y, open_plugin_editor))
        | inr (k, y) ↦ elim (Bool-cases r.host_ready) [
          | inr h ↦ inl (rw (z, y, h, open_plugin_editor))
          | inl h ↦
              let found = slot_found e.plugin_cache r p.value0 0 k r.track.chain.devices y in
              inr (
                r,
                found.0,
                z,
                rw (z, y, h, open_plugin_editor)
                    (ap (λ j. call_host (HostCall.open_editor r.track_id j) e)
                      (omega (arith, found.1))),
                found.2,
              )
        ]
      ]
]
