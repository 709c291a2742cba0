-- ===== src/Engine/Mods.antt =====
-- apps/daw_engine_main.cpp: the commands for the modulation links and sources of a track.
use unidaw.Base.{
  ℕ, max, Bool, List, [], ◌∷◌, ◌++◌, Option, none, some, not, ◌&&◌, leb, ◌==◌, if◌then◌else◌,
  length, find_if, remove_if, any_of, replicate,
}
use mathlib.Core.Option
use unidaw.Base.Words.{add32}
use unidaw.Chain.{Device, has_id}
use unidaw.Modulation.{
  ModRate, ModSourceKind, ModTargetKind, ModSourceState, ModLink, mod_link_id_auto,
}
use unidaw.Payload.{UiDiffType}
use unidaw.Payload.Commands.{
  UiModLinkCommandPayload, UiModLinkUid16Payload, UiModSourceValuePayload,
}
use unidaw.Payload.Tracks.{UiModLinkDiffPayload, UiModLinkUid16DiffPayload}
use unidaw.Engine.ModFlags.{
  source_code, target_code, decode_source_kind, decode_target_kind, decode_rate, decode_enabled,
  encode_flags,
}
use unidaw.Engine.{
  Engine, TrackRuntime, UiMessage, send, find_track, put_track, build_track_snapshot,
}

unfoldable pub emit_mod_error : (error_code track_id link_id : ℕ) → Engine → Engine
emit_mod_error error_code track_id link_id e =
    send
      (UiMessage.mod_error (record {
        diff_type = UiDiffType.mod_error;
        error_code = error_code;
        track_id = track_id;
        link_id = link_id;
      }))
      e

-- The message of a link, and of the parameter that it drives.
abbrev link_diff : (track_id version : ℕ) → ModLink → UiModLinkDiffPayload
link_diff track_id version l = record {
  diff_type = UiDiffType.mod_snapshot;
  flags = encode_flags l;
  track_id = track_id;
  mod_version = version;
  link_id = l.link_id;
  source_device_id = l.source.device_id;
  source_id = l.source.source_id;
  target_device_id = l.target.device_id;
  target_id = l.target.target_id;
  depth = l.depth;
  bias = l.bias;
}

abbrev uid_diff : (track_id version : ℕ) → ModLink → UiModLinkUid16DiffPayload
uid_diff track_id version l = record {
  diff_type = UiDiffType.mod_link_uid16;
  flags = 0;
  track_id = track_id;
  mod_version = version;
  link_id = l.link_id;
  uid16 = l.target.uid16;
}

abbrev pub emit_link : (track_id version : ℕ) → ModLink → Engine → Engine
emit_link track_id version l e =
    let sent = send (UiMessage.mod_link_diff (link_diff track_id version l)) e in
    if target_code l.target.kind == target_code ModTargetKind.vst_param
    then send (UiMessage.mod_uid16_diff (uid_diff track_id version l)) sent
    else sent

unfoldable pub emit_links : (track_id version : ℕ) → List ModLink → Engine → Engine
emit_links track_id version [] e = e
emit_links track_id version (l ∷ ls) e =
    emit_links track_id version ls (emit_link track_id version l e)

unfoldable pub emit_mod_snapshot : TrackRuntime → Engine → Engine
emit_mod_snapshot runtime e =
    let version = add32 e.mod_version 1 in
    if e.ui_open
    then emit_links runtime.track_id version runtime.track.mod_registry.links
        (record e { mod_version = version })
    else e

-- The registry of a track changes, its snapshot is published, and the UI is told.
abbrev pub publish_links : ℕ → TrackRuntime → List ModLink → Engine → Engine
publish_links track_id r links e =
    let track = record (r.track) {
      mod_registry = record (r.track.mod_registry) { links = links };
    } in
    let r' = record r { track = track; track_snapshot = build_track_snapshot track } in
    emit_mod_snapshot r' (put_track track_id r' e)

abbrev pub find_device_pos : List Device → ℕ → Option ℕ
find_device_pos devices device_id = find_if (has_id device_id) devices

abbrev pub link_of_id : ℕ → ModLink → Bool
link_of_id id l = l.link_id == id

-- The id for a link that names none, with `link.linkId + 1` wrapping.
abbrev pub next_link_from : ℕ → List ModLink → ℕ
next_link_from next [] = next
next_link_from next (l ∷ ls) = next_link_from (max next (add32 l.link_id 1)) ls

-- The id that a new link gets, or none if the one that it asks for is taken.
unfoldable pub new_link_id : List ModLink → ℕ → Option ℕ
new_link_id links link_id =
    if link_id == mod_link_id_auto
    then some (next_link_from 1 links)
    else if any_of (link_of_id link_id) links
    then none
    else some link_id

abbrev pub new_link :
    UiModLinkCommandPayload → ℕ → ModSourceKind → ModTargetKind → ModRate → ModLink
new_link p id sk tk rate = record {
  link_id = id;
  source = record { device_id = p.source_device_id; source_id = p.source_id; kind = sk };
  target = record {
    device_id = p.target_device_id;
    target_id = p.target_id;
    kind = tk;
    uid16 = replicate 16 0;
  };
  depth = p.depth;
  bias = p.bias;
  rate = rate;
  enabled = decode_enabled p.flags;
}

-- The checks that AddModLink and RemoveModLink share: the kinds, the devices, their order. A check
-- that fails has its error code.
pub data LinkCheck : Type 0 where
  refused : ℕ → LinkCheck
  passed : ModSourceKind → ModTargetKind → ModRate → LinkCheck

unfoldable pub check_order : List Device → (source_device_id target_device_id : ℕ) → Option ℕ
check_order devices source_device_id target_device_id =
    elim (find_device_pos devices source_device_id) [
      | none ↦ some 4
      | some source_pos ↦ elim (find_device_pos devices target_device_id) [
        | none ↦ some 4
        | some target_pos ↦ if leb target_pos source_pos then some 5 else none
      ]
    ]

unfoldable pub check_kinds : ℕ → LinkCheck
check_kinds flags = elim (decode_source_kind flags) [
  | none ↦ LinkCheck.refused 3
  | some sk ↦ elim (decode_target_kind flags) [
    | none ↦ LinkCheck.refused 3
    | some tk ↦ elim (decode_rate flags) [
      | none ↦ LinkCheck.refused 3
      | some rate ↦ LinkCheck.passed sk tk rate
    ]
  ]
]

unfoldable pub check_link : UiModLinkCommandPayload → List Device → LinkCheck
check_link p devices = elim (check_kinds p.flags) [
  | LinkCheck.refused code ↦ LinkCheck.refused code
  | LinkCheck.passed sk tk rate ↦ elim (check_order devices p.source_device_id p.target_device_id) [
    | none ↦ LinkCheck.passed sk tk rate
    | some code ↦ LinkCheck.refused code
  ]
]

-- AddModLink once the checks have passed.
abbrev pub add_link :
    UiModLinkCommandPayload
    → TrackRuntime
    → ModSourceKind
    → ModTargetKind
    → ModRate
    → Engine
    → Engine
add_link p r sk tk rate e = elim (new_link_id r.track.mod_registry.links p.link_id) [
  | none ↦ emit_mod_error 6 p.track_id p.link_id e
  | some id ↦
      publish_links p.track_id r (r.track.mod_registry.links ++ (new_link p id sk tk rate ∷ [])) e
]

unfoldable pub add_mod_link : UiModLinkCommandPayload → Engine → Engine
add_mod_link p e = elim (find_track e p.track_id) [
  | none ↦ emit_mod_error 1 p.track_id p.link_id e
  | some r ↦ elim (check_link p r.track.chain.devices) [
    | LinkCheck.refused code ↦ emit_mod_error code p.track_id p.link_id e
    | LinkCheck.passed sk tk rate ↦ add_link p r sk tk rate e
  ]
]

-- RemoveModLink once the checks have passed: it succeeds if the sequence became shorter.
abbrev pub remove_link : UiModLinkCommandPayload → TrackRuntime → Engine → Engine
remove_link p r e =
    let links = remove_if (link_of_id p.link_id) r.track.mod_registry.links in
    if length links == length r.track.mod_registry.links
    then emit_mod_error 2 p.track_id p.link_id e
    else publish_links p.track_id r links e

unfoldable pub remove_mod_link : UiModLinkCommandPayload → Engine → Engine
remove_mod_link p e = elim (find_track e p.track_id) [
  | none ↦ emit_mod_error 1 p.track_id p.link_id e
  | some r ↦ elim (check_link p r.track.chain.devices) [
    | LinkCheck.refused code ↦ emit_mod_error code p.track_id p.link_id e
    | LinkCheck.passed sk tk rate ↦ remove_link p r e
  ]
]

-- The first link with the id gets the parameter's uid.
abbrev pub set_uid16 : ℕ → List ℕ → List ModLink → Option (List ModLink)
set_uid16 id uid16 [] = none
set_uid16 id uid16 (l ∷ ls) =
    if link_of_id id l
    then some (record l { target = record (l.target) { uid16 = uid16 } } ∷ ls)
    else Option.map (◌∷◌ l) (set_uid16 id uid16 ls)

unfoldable pub set_mod_link_uid16 : UiModLinkUid16Payload → Engine → Engine
set_mod_link_uid16 p e = elim (find_track e p.track_id) [
  | none ↦ emit_mod_error 1 p.track_id p.link_id e
  | some r ↦ elim (set_uid16 p.link_id p.uid16 r.track.mod_registry.links) [
    | none ↦ emit_mod_error 2 p.track_id p.link_id e
    | some links ↦ publish_links p.track_id r links e
  ]
]

abbrev is_source : (device_id source_id : ℕ) → ModSourceKind → ModSourceState → Bool
is_source device_id source_id kind s =
    s.ref.device_id == device_id
    && s.ref.source_id == source_id
    && source_code s.ref.kind == source_code kind

-- The first source of the reference gets the value, or a new one is added at the end.
abbrev pub set_source :
    (device_id source_id : ℕ) → ModSourceKind → ℕ → List ModSourceState → List ModSourceState
set_source device_id source_id kind value [] =
    record {
      ref = record { device_id = device_id; source_id = source_id; kind = kind };
      value = value;
    }
    ∷ []
set_source device_id source_id kind value (s ∷ ss) =
    if is_source device_id source_id kind s
    then record s { value = value } ∷ ss
    else s ∷ set_source device_id source_id kind value ss

unfoldable pub set_mod_source_value : UiModSourceValuePayload → Engine → Engine
set_mod_source_value p e = elim (find_track e p.track_id) [
  | none ↦ emit_mod_error 1 p.track_id 0 e
  | some r ↦ elim (decode_source_kind p.flags) [
    | none ↦ emit_mod_error 3 p.track_id 0 e
    | some kind ↦
        if not (any_of (has_id p.source_device_id) r.track.chain.devices)
        then emit_mod_error 4 p.track_id 0 e
        else (let registry = r.track.mod_registry in
            let sources = set_source p.source_device_id p.source_id kind p.value registry.sources in
            put_track p.track_id
              (record r {
                track = record (r.track) { mod_registry = record registry { sources = sources } };
              })
              e)
  ]
]
