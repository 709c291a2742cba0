-- ===== src/Chain/Valid.antt =====
-- Device ids are distinct and there is one instrument at most, through every operation.
use unidaw.Base.{
  ℕ, ◌≤◌, ◌<◌, ◌≡◌, refl, ap, max, Bool, List, [], ◌∷◌, some, inl, inr, arith, ◌==◌, length,
  insert_at, subst, All, Option-cases,
}
use unidaw.Base.Words.{add32, u32_max}
use unidaw.Base.Count.{count, count-insert_at, count-extract}
use unidaw.Abi.{PatcherEuclideanConfig}
use unidaw.Chain.Instruments.{
  instrument, instruments, any_of-count, count-insert_device, count-modify, admit-single,
  taken-single, moved-single,
}
use unidaw.Chain.{
  Device, TrackChain, is_instrument_kind, has_instrument, next_from, next_device_id, has_id, admit,
  add_device, take_device, remove_device_by_id, clamp_index, move_device_by_id, modified, modify,
  set_device_bypass, set_device_patcher_node_id, set_device_host_slot_index,
  set_device_euclidean_config, clear_device_euclidean_config,
}

pub record IsValid (c : TrackChain) : Type 0 where
  pub distinct : (id : ℕ) → count (has_id id) c.devices ≤ 1
  pub single : instruments c ≤ 1

-- No id is the last but none of the 32-bit words, so that adding 1 does not wrap.
abbrev pub Roomy : TrackChain → Type 0
Roomy c = All (λ d. d.id < u32_max) c.devices

pub next_from-le : (n : ℕ) (ds : List Device) → n ≤ next_from n ds
unfolding next_from
next_from-le n [] = omega arith
next_from-le n (d ∷ ds) = omega (arith, next_from-le (max n (add32 d.id 1)) ds)

-- The next id is above all, where none wraps, so no device has it.
next_from_fresh :
    (n m : ℕ) (ds : List Device)
    → All (λ d. d.id < u32_max) ds
    → next_from n ds ≤ m
    → count (has_id m) ds ≡ 0
unfolding next_from count
next_from_fresh n m [] h le = refl
next_from_fresh n m (d ∷ ds) h le = ground (
  arith,
  h.0,
  next_from-le (max n (add32 d.id 1)) ds,
  next_from_fresh (max n (add32 d.id 1)) m ds h.1 le,
)

admit-IsValid :
    (c : TrackChain) (d : Device) (i : ℕ)
    → IsValid c
    → count (has_id d.id) c.devices ≡ 0
    → IsValid (admit c d i).1
unfolding has_instrument
admit-IsValid c d i v fresh = record {
  distinct = λ id. ground (arith, count-insert_device (has_id id) c d i, v.distinct id, same id);
  single = admit-single c d i v.single;
}
  where
    same : (id : ℕ) → d.id ≡ id → count (has_id id) c.devices ≡ 0
    same id e = subst (λ x. count (has_id x) c.devices ≡ 0) e fresh

add_device-IsValid :
    (c : TrackChain) (d : Device) (i : ℕ) → Roomy c → IsValid c → IsValid (add_device c d i).1
unfolding add_device
add_device-IsValid c d i room v = ground (
  arith,
  admit-IsValid c (record d { id = next_device_id c.devices }) i v
      (next_from_fresh 0 (next_device_id c.devices) c.devices room (omega arith)),
  admit-IsValid c d i v,
  any_of-count (has_id d.id) c.devices,
)

-- One device taken out, and perhaps put back elsewhere.
taken-IsValid :
    (c : TrackChain) (id : ℕ) {d : Device} {rest : List Device}
    → take_device c id ≡ some (d, rest)
    → IsValid c
    → IsValid (record { devices = rest })
taken-IsValid c id e v = record {
  distinct = λ j. omega (arith, count-extract (has_id j) (has_id id) c.devices e, v.distinct j);
  single = taken-single c id e v.single;
}

moved-IsValid :
    (c : TrackChain) (id i : ℕ) {d : Device} {rest : List Device}
    → take_device c id ≡ some (d, rest)
    → IsValid c
    → IsValid (record { devices = insert_at rest i d })
moved-IsValid c id i {d} {rest} e v = record {
  distinct = λ j. omega (
    arith,
    count-extract (has_id j) (has_id id) c.devices e,
    count-insert_at (has_id j) rest i d,
    v.distinct j,
  );
  single = moved-single c id i e v.single;
}

remove-IsValid : (c : TrackChain) (id : ℕ) → IsValid c → IsValid (remove_device_by_id c id).1
unfolding remove_device_by_id
remove-IsValid c id v = elim (Option-cases (take_device c id)) [
  | inl z ↦ rw (z, remove_device_by_id) v
  | inr (r, z) ↦ rw (z, remove_device_by_id) (taken-IsValid c id z v)
]

move-IsValid : (c : TrackChain) (id i : ℕ) → IsValid c → IsValid (move_device_by_id c id i).1
unfolding move_device_by_id
move-IsValid c id i v = elim (Option-cases (take_device c id)) [
  | inl z ↦ rw (z, move_device_by_id) v
  | inr (r, z) ↦ rw (z, move_device_by_id) (moved-IsValid c id (clamp_index i (length r.1)) z v)
]

modified-IsValid :
    (c : TrackChain) (f : Device → Device) (id : ℕ)
    → ((d : Device) → (f d).id ≡ d.id)
    → ((d : Device) → (f d).kind ≡ d.kind)
    → IsValid c
    → IsValid (modified f id c).1
modified-IsValid c f id ids kinds v = elim (Option-cases (modify f id c.devices)) [
  | inl z ↦ rw (z, modified) v
  | inr (r, z) ↦
      rw (z, modified)
        (record {
          distinct = λ j. omega (
            arith,
            v.distinct j,
            count-modify (has_id j) f id c.devices (λ d. ap (λ x. x == j) (ids d)) z,
          );
          single = omega (
            arith,
            v.single,
            count-modify instrument f id c.devices (λ d. ap is_instrument_kind (kinds d)) z,
          );
        })
]

pub data Op : Type 0 where
  add : Device → (insert_index : ℕ) → Op
  remove : (id : ℕ) → Op
  move : (id insert_index : ℕ) → Op
  bypass : (id : ℕ) → Bool → Op
  patcher_node host_slot : (id value : ℕ) → Op
  euclidean : (id : ℕ) → PatcherEuclideanConfig → Op
  clear_euclidean : (id : ℕ) → Op

pub step : TrackChain → Op → Bool × TrackChain
step c (add d i) = add_device c d i
step c (remove id) = remove_device_by_id c id
step c (move id i) = move_device_by_id c id i
step c (bypass id b) = set_device_bypass c id b
step c (patcher_node id n) = set_device_patcher_node_id c id n
step c (host_slot id n) = set_device_host_slot_index c id n
step c (euclidean id config) = set_device_euclidean_config c id config
step c (clear_euclidean id) = clear_device_euclidean_config c id

-- In a chain without the id 2^32 - 1, every operation keeps the ids distinct and the instruments
-- at one, whether it succeeds or fails.
pub step-IsValid : (c : TrackChain) (op : Op) → Roomy c → IsValid c → IsValid (step c op).1
unfolding step set_device_bypass set_device_patcher_node_id set_device_host_slot_index
    set_device_euclidean_config clear_device_euclidean_config
step-IsValid c (add d i) room v = add_device-IsValid c d i room v
step-IsValid c (remove id) room v = remove-IsValid c id v
step-IsValid c (move id i) room v = move-IsValid c id i v
step-IsValid c (bypass id b) room v = modified-IsValid c _ id (λ d. refl) (λ d. refl) v
step-IsValid c (patcher_node id n) room v = modified-IsValid c _ id (λ d. refl) (λ d. refl) v
step-IsValid c (host_slot id n) room v = modified-IsValid c _ id (λ d. refl) (λ d. refl) v
step-IsValid c (euclidean id config) room v = modified-IsValid c _ id (λ d. refl) (λ d. refl) v
step-IsValid c (clear_euclidean id) room v = modified-IsValid c _ id (λ d. refl) (λ d. refl) v
