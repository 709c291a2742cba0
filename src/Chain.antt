-- ===== src/Chain.antt =====
-- apps/device_chain.cpp: the devices of a track, in order.
pub mod Instruments
pub mod Valid
pub mod Update
mod Tests
use unidaw.Base.{
  ℕ, suc, ◌+◌, ◌-◌, max, Bool, true, false, ◌&&◌, ◌||◌, List, [], ◌∷◌, Option, none, some, ltb, leb,
  ◌==◌, if◌then◌else◌, length, insert_at, any_of, extract,
}
use unidaw.Base.Words.{add32, u32_max}
use unidaw.Abi.{PatcherEuclideanConfig, default_euclidean}

-- `unnamed` is a value that a cast to the enum gives and that it does not name.
pub data DeviceKind : Type 0 where
  patcher_event patcher_instrument patcher_audio vst_instrument vst_effect : DeviceKind
  unnamed : ℕ → DeviceKind

abbrev pub device_id_auto : ℕ
device_id_auto = 0xFFFFFFFF

pub record Device : Type 0 where
  pub id : ℕ
  pub kind : DeviceKind
  pub capability_mask : ℕ
  pub patcher_node_id : ℕ
  pub host_slot_index : ℕ
  pub bypass : Bool
  pub has_euclidean_config : Bool
  pub euclidean_config : PatcherEuclideanConfig

pub record TrackChain : Type 0 where
  pub devices : List Device

abbrev pub default_track_chain : TrackChain
default_track_chain = record { devices = [] }

abbrev pub is_instrument_kind : DeviceKind → Bool
is_instrument_kind DeviceKind.vst_instrument = true
is_instrument_kind DeviceKind.patcher_instrument = true
is_instrument_kind _ = false

unfoldable pub has_instrument : List Device → Bool
has_instrument devices = any_of (λ d. is_instrument_kind d.kind) devices

-- The loop of `nextDeviceId`, with `device.id + 1` wrapping.
pub next_from : ℕ → List Device → ℕ
next_from next [] = next
next_from next (d ∷ ds) = next_from (max next (add32 d.id 1)) ds

pub next_device_id : List Device → ℕ
unfolding next_from
next_device_id devices = next_from 0 devices

abbrev pub has_id : ℕ → Device → Bool
has_id id d = d.id == id

abbrev insert_device : TrackChain → Device → ℕ → TrackChain
insert_device chain device insert_index =
    if insert_index == device_id_auto || leb (length chain.devices) insert_index
    then record { devices = insert_at chain.devices (length chain.devices) device }
    else record { devices = insert_at chain.devices insert_index device }

-- The second half of `addDevice`, once the id is settled.
abbrev admit : TrackChain → Device → ℕ → Bool × TrackChain
admit chain device insert_index =
    if is_instrument_kind device.kind && has_instrument chain.devices
    then (false, chain)
    else (true, insert_device chain device insert_index)

pub add_device : TrackChain → Device → ℕ → Bool × TrackChain
unfolding has_instrument next_device_id
add_device chain device insert_index =
    if device.id == device_id_auto
    then admit chain (record device { id = next_device_id chain.devices }) insert_index
    else if any_of (has_id device.id) chain.devices
    then (false, chain)
    else admit chain device insert_index

-- `findDevice` and `erase(it)` in one.
abbrev pub take_device : TrackChain → ℕ → Option (Device × List Device)
take_device chain id = extract (has_id id) chain.devices

pub remove_device_by_id : TrackChain → ℕ → Bool × TrackChain
remove_device_by_id chain id = elim (take_device chain id) [
  | none ↦ (false, chain)
  | some (d, rest) ↦ (true, record { devices = rest })
]

-- The index is clamped to the size after the erasure.
abbrev pub clamp_index : ℕ → ℕ → ℕ
clamp_index insert_index size =
    let i = if insert_index == device_id_auto then size else insert_index in
    if ltb size i then size else i

pub move_device_by_id : TrackChain → ℕ → ℕ → Bool × TrackChain
move_device_by_id chain id insert_index = elim (take_device chain id) [
  | none ↦ (false, chain)
  | some (d, rest) ↦
      (true, record { devices = insert_at rest (clamp_index insert_index (length rest)) d })
]

-- What the setters do: change the first device of the id, or fail.
pub modify : (Device → Device) → ℕ → List Device → Option (List Device)
modify f id [] = none
modify f id (d ∷ ds) =
    let rest = modify f id ds in
    if has_id id d then some (f d ∷ ds) else elim rest [ none ↦ none | some r ↦ some (d ∷ r) ]

abbrev modified : (Device → Device) → ℕ → TrackChain → Bool × TrackChain
modified f id chain = elim (modify f id chain.devices) [
  | none ↦ (false, chain)
  | some ds ↦ (true, record { devices = ds })
]

pub set_device_bypass : TrackChain → ℕ → Bool → Bool × TrackChain
unfolding modify
set_device_bypass chain id bypass = modified (λ d. record d { bypass = bypass }) id chain

pub set_device_patcher_node_id : TrackChain → ℕ → ℕ → Bool × TrackChain
unfolding modify
set_device_patcher_node_id chain id node =
    modified (λ d. record d { patcher_node_id = node }) id chain

pub set_device_host_slot_index : TrackChain → ℕ → ℕ → Bool × TrackChain
unfolding modify
set_device_host_slot_index chain id slot =
    modified (λ d. record d { host_slot_index = slot }) id chain

pub set_device_euclidean_config : TrackChain → ℕ → PatcherEuclideanConfig → Bool × TrackChain
unfolding modify
set_device_euclidean_config chain id config =
    modified (λ d. record d { has_euclidean_config = true; euclidean_config = config }) id chain

pub clear_device_euclidean_config : TrackChain → ℕ → Bool × TrackChain
unfolding modify
clear_device_euclidean_config chain id =
    modified (λ d. record d { has_euclidean_config = false; euclidean_config = default_euclidean })
      id chain
