-- ===== src/Chain/Tests.antt =====
-- The device chain on a small chain, and at the end of the ids.
use unidaw.Base.{List, ◌++◌, length, ℕ, ◌-◌, ◌≤◌, ◌≡◌, refl, true, false, [], ◌∷◌, arith}
use unidaw.Base.Words.{u32_max}
use unidaw.Base.Count.{count}
use unidaw.Abi.{default_euclidean}
use unidaw.Chain.{
  DeviceKind, Device, TrackChain, device_id_auto, has_id, add_device, move_device_by_id,
}
use unidaw.Chain.Valid.{IsValid, Op, step, step-IsValid}
use unidaw.Chain.Update.{move_device_by_id_lem, add_device_collides}

abbrev device : ℕ → DeviceKind → Device
device id kind = record {
  id = id;
  kind = kind;
  capability_mask = 0;
  patcher_node_id = 0;
  host_slot_index = 0;
  bypass = false;
  has_euclidean_config = false;
  euclidean_config = default_euclidean;
}

abbrev synth : Device
synth = device 3 DeviceKind.vst_instrument

abbrev reverb : Device
reverb = device 5 DeviceKind.vst_effect

abbrev chain : TrackChain
chain = record { devices = synth ∷ reverb ∷ [] }

abbrev effect : ℕ → Device
effect id = device id DeviceKind.vst_effect

next_id :
    (add_device chain (effect device_id_auto) 0).1
    ≡ record { devices = effect 6 ∷ synth ∷ reverb ∷ [] }
unfolding add_device
next_id = refl

second_instrument_refused :
    add_device chain (device 9 DeviceKind.patcher_instrument) 0 ≡ (false, chain)
unfolding add_device
second_instrument_refused = refl

moved_past_the_end : (move_device_by_id chain 3 7).1 ≡ record { devices = reverb ∷ synth ∷ [] }
unfolding move_device_by_id
moved_past_the_end = refl

chain-IsValid : IsValid chain
unfolding count
chain-IsValid = record { distinct = λ id. ground arith; single = omega arith }

step-IsValid_example : IsValid (step chain (Op.add (effect device_id_auto) 1)).1
step-IsValid_example =
    step-IsValid chain (Op.add (effect device_id_auto) 1) (omega arith) chain-IsValid

move_device_by_id_lem_example :
    let out = move_device_by_id chain 5 0 in
    (out.0 ≡ true)
    × ((front : List Device) × (back : List Device) × (synth ∷ [] ≡ front ++ back)
        × (length front ≡ 0)
        × (out.1.devices ≡ front ++ (reverb ∷ back)))
move_device_by_id_lem_example =
    move_device_by_id_lem (synth ∷ []) [] reverb 5 0 ((λ e. omega arith), tt) refl (omega arith)

abbrev full : TrackChain
full = record { devices = effect (u32_max - 1) ∷ effect u32_max ∷ [] }

add_device_collides_example :
    2 ≤ count (has_id u32_max) (add_device full (effect device_id_auto) 0).1.devices
add_device_collides_example = add_device_collides full (effect device_id_auto) 0 refl refl refl refl
