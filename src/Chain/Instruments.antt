-- ===== src/Chain/Instruments.antt =====
-- There is one instrument at most in a chain, through every operation, whatever ids it has.
use unidaw.Base.{
  ℕ, ◌+◌, ◌≤◌, ◌≡◌, refl, ap, Bool, true, false, List, [], ◌∷◌, some, inl, inr, arith, ◌==◌, length,
  insert_at, any_of, Option-cases,
}
use unidaw.Base.Count.{one_if, count, count-insert_at, count-extract}
use unidaw.Abi.{PatcherEuclideanConfig}
use unidaw.Chain.{
  Device, TrackChain, is_instrument_kind, has_instrument, device_id_auto, has_id, insert_device,
  admit, add_device, next_device_id, take_device, remove_device_by_id, clamp_index,
  move_device_by_id, modified, modify, set_device_bypass, set_device_patcher_node_id,
  set_device_host_slot_index, set_device_euclidean_config,
}

abbrev pub instrument : Device → Bool
instrument d = is_instrument_kind d.kind

abbrev pub instruments : TrackChain → ℕ
instruments c = count instrument c.devices

pub any_of-count : (p : Device → Bool) (ds : List Device) → any_of p ds ≡ false → count p ds ≡ 0
unfolding count
any_of-count p [] h = refl
any_of-count p (d ∷ ds) h = ground (arith, any_of-count p ds)

pub count-insert_device :
    (p : Device → Bool) (c : TrackChain) (d : Device) (i : ℕ)
    → count p (insert_device c d i).devices ≡ one_if (p d) + count p c.devices
count-insert_device p c d i =
    ground
      (arith, count-insert_at p c.devices (length c.devices) d, count-insert_at p c.devices i d)

-- A change that keeps what a test looks at keeps the count.
pub count-modify :
    (p : Device → Bool) (f : Device → Device) (id : ℕ) (ds : List Device) {r : List Device}
    → ((d : Device) → p (f d) ≡ p d)
    → modify f id ds ≡ some r
    → count p r ≡ count p ds
unfolding modify count
count-modify p f id [] same e = cc
count-modify p f id (d ∷ ds) same e = elim (Option-cases (modify f id ds)) [
  | inl z ↦ ground (arith, z, same d)
  | inr (r, z) ↦ ground (arith, z, same d, count-modify p f id ds same z)
]

pub admit-single :
    (c : TrackChain) (d : Device) (i : ℕ) → instruments c ≤ 1 → instruments (admit c d i).1 ≤ 1
unfolding has_instrument
admit-single c d i h =
    ground (arith, count-insert_device instrument c d i, any_of-count instrument c.devices)

pub add_device-single :
    (c : TrackChain) (d : Device) (i : ℕ) → instruments c ≤ 1 → instruments (add_device c d i).1 ≤ 1
unfolding add_device
add_device-single c d i h =
    ground
      (arith, admit-single c (record d { id = next_device_id c.devices }) i h, admit-single c d i h)

pub taken-single :
    (c : TrackChain) (id : ℕ) {d : Device} {rest : List Device}
    → take_device c id ≡ some (d, rest)
    → instruments c ≤ 1
    → count instrument rest ≤ 1
taken-single c id e h = omega (arith, count-extract instrument (has_id id) c.devices e)

pub moved-single :
    (c : TrackChain) (id i : ℕ) {d : Device} {rest : List Device}
    → take_device c id ≡ some (d, rest)
    → instruments c ≤ 1
    → instruments (record { devices = insert_at rest i d }) ≤ 1
moved-single c id i {d} {rest} e h =
    omega
      (arith, count-extract instrument (has_id id) c.devices e, count-insert_at instrument rest i d)

pub remove-single :
    (c : TrackChain) (id : ℕ) → instruments c ≤ 1 → instruments (remove_device_by_id c id).1 ≤ 1
unfolding remove_device_by_id
remove-single c id h = elim (Option-cases (take_device c id)) [
  | inl z ↦ rw (z, remove_device_by_id) h
  | inr (r, z) ↦ rw (z, remove_device_by_id) (taken-single c id z h)
]

pub move-single :
    (c : TrackChain) (id i : ℕ) → instruments c ≤ 1 → instruments (move_device_by_id c id i).1 ≤ 1
unfolding move_device_by_id
move-single c id i h = elim (Option-cases (take_device c id)) [
  | inl z ↦ rw (z, move_device_by_id) h
  | inr (r, z) ↦ rw (z, move_device_by_id) (moved-single c id (clamp_index i (length r.1)) z h)
]

pub modified-single :
    (c : TrackChain) (f : Device → Device) (id : ℕ)
    → ((d : Device) → (f d).kind ≡ d.kind)
    → instruments c ≤ 1
    → instruments (modified f id c).1 ≤ 1
modified-single c f id kinds h = elim (Option-cases (modify f id c.devices)) [
  | inl z ↦ rw (z, modified) h
  | inr (r, z) ↦
      rw (z, modified)
        (omega (
          arith,
          h,
          count-modify instrument f id c.devices (λ d. ap is_instrument_kind (kinds d)) z,
        ))
]

-- The setters that UpdateDevice and SetDeviceEuclideanConfig call.
module _ (c : TrackChain) (id : ℕ) (h : instruments c ≤ 1) where
  pub set_device_bypass-single : (b : Bool) → instruments (set_device_bypass c id b).1 ≤ 1
  unfolding set_device_bypass
  set_device_bypass-single b = modified-single c _ id (λ d. refl) h

  pub set_device_patcher_node_id-single :
      (n : ℕ) → instruments (set_device_patcher_node_id c id n).1 ≤ 1
  unfolding set_device_patcher_node_id
  set_device_patcher_node_id-single n = modified-single c _ id (λ d. refl) h

  pub set_device_host_slot_index-single :
      (n : ℕ) → instruments (set_device_host_slot_index c id n).1 ≤ 1
  unfolding set_device_host_slot_index
  set_device_host_slot_index-single n = modified-single c _ id (λ d. refl) h

  pub set_device_euclidean_config-single :
      (config : PatcherEuclideanConfig)
      → instruments (set_device_euclidean_config c id config).1 ≤ 1
  unfolding set_device_euclidean_config
  set_device_euclidean_config-single config = modified-single c _ id (λ d. refl) h

-- An instrument that has no id yet is the first in its chain.
pub add_device-first :
    (c : TrackChain) (d : Device) (i : ℕ)
    → (d.id == device_id_auto) ≡ true
    → instrument d ≡ true
    → has_instrument c.devices ≡ false
    → instruments (add_device c d i).1 ≡ 1
unfolding add_device has_instrument
add_device-first c d i auto is_one none =
    let new = record d { id = next_device_id c.devices } in
    ground (arith, count-insert_device instrument c new i, any_of-count instrument c.devices none)

-- No VST instrument is in a chain without instruments.
pub no_instrument-head :
    (d : Device) (ds : List Device)
    → has_instrument (d ∷ ds) ≡ false
    → (instrument d ≡ false) × (has_instrument ds ≡ false)
unfolding has_instrument
no_instrument-head d ds h = ground arith

pub no_instruments : (ds : List Device) → has_instrument ds ≡ false → count instrument ds ≡ 0
unfolding has_instrument
no_instruments ds h = any_of-count instrument ds h
