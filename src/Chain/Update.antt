-- ===== src/Chain/Update.antt =====
-- What each operation does to the devices that it names and to the others.
use mathlib.Core.Option
use unidaw.Base.{
  ◌-◌, zero, suc, ◌++◌, ◌≢◌, All, extract, min, insert_at, ℕ, ◌≤◌, ◌≡◌, refl, sym, ap, ◌∙◌, max,
  Bool, true, false, List, [], ◌∷◌, Option, none, some, inl, inr, arith, ◌==◌, if◌then◌else◌,
  length, any_of, Option-cases,
}
use unidaw.Base.Words.{add32, u32_max}
use unidaw.Base.Count.{count}
use unidaw.Abi.{PatcherEuclideanConfig, default_euclidean}
use unidaw.Chain.{
  Device, TrackChain, device_id_auto, next_from, next_device_id, has_id, is_instrument_kind,
  add_device, clamp_index, move_device_by_id, modify, modified, set_device_bypass,
  set_device_patcher_node_id, set_device_host_slot_index, set_device_euclidean_config,
  clear_device_euclidean_config,
}
use unidaw.Chain.Valid.{next_from-le}
use unidaw.Chain.Instruments.{count-insert_device}

abbrev is_some : {A : Type 0} → Option A → Bool
is_some none = false
is_some (some a) = true

-- The device of an id.
unfoldable pub find_device : ℕ → List Device → Option Device
find_device id [] = none
find_device id (d ∷ ds) = if has_id id d then some d else find_device id ds

-- A setter changes the device that it names, no other, and fails exactly where there is none.
find-modify :
    (f : Device → Device) (id j : ℕ) (ds : List Device) {r : List Device}
    → ((d : Device) → (f d).id ≡ d.id)
    → modify f id ds ≡ some r
    → find_device j r ≡ (if id == j then Option.map f (find_device j ds) else find_device j ds)
unfolding modify find_device
find-modify f id j [] ids e = cc
find-modify f id j (d ∷ ds) ids e = elim (Option-cases (modify f id ds)) [
  | inl z ↦ ground (arith, z, ids d)
  | inr (r, z) ↦ ground (arith, z, ids d, find-modify f id j ds ids z)
]

modify_found :
    (f : Device → Device) (id : ℕ) (ds : List Device)
    → is_some (modify f id ds) ≡ is_some (find_device id ds)
unfolding modify find_device
modify_found f id [] = refl
modify_found f id (d ∷ ds) = ground (arith, modify_found f id ds)

-- The answer, and the device of an id `j` afterwards, of a call that applies `f` to the device `id`.
abbrev Sets : TrackChain → (id j : ℕ) → (Device → Device) → Bool × TrackChain → Type 0
Sets c id j f out =
    (out.0 ≡ is_some (find_device id c.devices))
    × (find_device j out.1.devices
        ≡ (if id == j then Option.map f (find_device j c.devices) else find_device j c.devices))

modified-Sets :
    (c : TrackChain) (id j : ℕ) (f : Device → Device)
    → ((d : Device) → (f d).id ≡ d.id)
    → Sets c id j f (modified f id c)
unfolding find_device
modified-Sets c id j f ids = elim (Option-cases (modify f id c.devices)) [
  | inl z ↦ rw (z, modified) (ap is_some (sym z) ∙ modify_found f id c.devices, absent z)
  | inr (r, z) ↦
      rw (z, modified)
        ((ap is_some (sym z) ∙ modify_found f id c.devices), find-modify f id j c.devices ids z)
]
  where
    absent :
        modify f id c.devices ≡ none
        → find_device j c.devices
          ≡ (if id == j then Option.map f (find_device j c.devices) else find_device j c.devices)
    absent z = ground (arith, z, modify_found f id c.devices)

-- Each setter reports whether the chain has a device of the id, changes its own field of the first
-- such device, and leaves what is found under every other id.
setters_lem :
    (c : TrackChain) (id j node slot : ℕ) (b : Bool) (config : PatcherEuclideanConfig)
    → Sets c id j (λ d. record d { bypass = b }) (set_device_bypass c id b)
      × Sets c id j
          (λ d. record d { patcher_node_id = node })
          (set_device_patcher_node_id c id node)
      × Sets c id j
          (λ d. record d { host_slot_index = slot })
          (set_device_host_slot_index c id slot)
      × Sets c id j
          (λ d. record d { has_euclidean_config = true; euclidean_config = config })
          (set_device_euclidean_config c id config)
      × Sets c id j
          (λ d. record d { has_euclidean_config = false; euclidean_config = default_euclidean })
          (clear_device_euclidean_config c id)
unfolding set_device_bypass set_device_patcher_node_id set_device_host_slot_index
    set_device_euclidean_config clear_device_euclidean_config
setters_lem c id j node slot b config = (
  modified-Sets c id j _ (λ d. refl),
  modified-Sets c id j _ (λ d. refl),
  modified-Sets c id j _ (λ d. refl),
  modified-Sets c id j _ (λ d. refl),
  modified-Sets c id j _ (λ d. refl),
)

extract_here :
    (id : ℕ) (before after : List Device) (d : Device)
    → All (λ x. x.id ≢ id) before
    → d.id ≡ id
    → extract (has_id id) (before ++ (d ∷ after)) ≡ some (d, before ++ after)
extract_here id [] after d h e = ground arith
extract_here id (x ∷ before) after d h e = ground (arith, h.0, extract_here id before after d h.1 e)

-- An insertion at an index cuts the list there.
insert_at-cut :
    (xs : List Device) (i : ℕ) (d : Device)
    → i ≤ length xs
    → (front : List Device) × (back : List Device) × (xs ≡ front ++ back)
      × (length front ≡ i)
      × (insert_at xs i d ≡ front ++ (d ∷ back))
insert_at-cut xs zero d h = ([], xs, refl, refl, refl)
insert_at-cut [] (suc i) d h = absurd (omega arith)
insert_at-cut (x ∷ xs) (suc i) d h =
    let (front, back, whole, long, put) = insert_at-cut xs i d (omega arith) in
    (x ∷ front, back, ap (λ ys. x ∷ ys) whole, omega (arith, long), ap (λ ys. x ∷ ys) put)

-- Of a chain of at most 2^32 devices, a move takes the first device that has the id out from between
-- the others and puts it back among them, which keep their order: with as many before it as the
-- index says, or behind all of them where the index is past the end.
pub move_device_by_id_lem :
    (before after : List Device) (d : Device) (id insert_index : ℕ)
    → All (λ x. x.id ≢ id) before
    → d.id ≡ id
    → length (before ++ after) ≤ u32_max
    → let out = move_device_by_id (record { devices = before ++ (d ∷ after) }) id insert_index in
      (out.0 ≡ true)
      × ((front : List Device) × (back : List Device) × (before ++ after ≡ front ++ back)
          × (length front ≡ min insert_index (length (before ++ after)))
          × (out.1.devices ≡ front ++ (d ∷ back)))
unfolding move_device_by_id
move_device_by_id_lem before after d id insert_index h e few =
    rw (extract_here id before after d h e, move_device_by_id)
      (refl, (cut.0, cut.1, cut.2, cut.3 ∙ clamped (length (before ++ after)) few, cut.4))
  where
    clamped : (n : ℕ) → n ≤ u32_max → clamp_index insert_index n ≡ min insert_index n
    clamped n few = ground arith

    small : (n : ℕ) → clamp_index insert_index n ≤ n
    small n = ground arith

    rest : List Device
    rest = before ++ after

    cut :
        (front : List Device) × (back : List Device) × (rest ≡ front ++ back)
        × (length front ≡ clamp_index insert_index (length rest))
        × (insert_at rest (clamp_index insert_index (length rest)) d ≡ front ++ (d ∷ back))
    cut = insert_at-cut rest (clamp_index insert_index (length rest)) d (small (length rest))

next_from_all : (n : ℕ) (ds : List Device) → n ≤ u32_max → next_from n ds ≤ u32_max
unfolding next_from
next_from_all n [] h = h
next_from_all n (d ∷ ds) h = next_from_all (max n (add32 d.id 1)) ds (omega arith)

next_from_top :
    (n : ℕ) (ds : List Device) → any_of (has_id (u32_max - 1)) ds ≡ true → u32_max ≤ next_from n ds
unfolding next_from
next_from_top n [] h = cc
next_from_top n (d ∷ ds) h =
    ground (arith, next_from_top (max n (add32 d.id 1)) ds, next_from-le (max n (add32 d.id 1)) ds)

count_some : (p : Device → Bool) (ds : List Device) → any_of p ds ≡ true → 1 ≤ count p ds
unfolding count
count_some p [] h = cc
count_some p (d ∷ ds) h = ground (arith, count_some p ds)

-- The automatic id runs out: a chain that has the ids 2^32 - 2 and 2^32 - 1 gives the second of them
-- again to a device that is added for an automatic id and is no instrument, so that two devices share
-- it.
pub add_device_collides :
    (c : TrackChain) (d : Device) (insert_index : ℕ)
    → any_of (has_id (u32_max - 1)) c.devices ≡ true
    → any_of (has_id u32_max) c.devices ≡ true
    → d.id ≡ device_id_auto
    → is_instrument_kind d.kind ≡ false
    → 2 ≤ count (has_id u32_max) (add_device c d insert_index).1.devices
unfolding add_device
add_device_collides c d i before last auto plain = ground (
  arith,
  top,
  count-insert_device (has_id u32_max) c (record d { id = next_device_id c.devices }) i,
  count_some (has_id u32_max) c.devices last,
)
  where
    top : next_device_id c.devices ≡ u32_max
    top = omega (arith, next_from_top 0 c.devices before, next_from_all 0 c.devices (omega arith))
