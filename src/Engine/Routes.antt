-- ===== src/Engine/Routes.antt =====
-- apps/daw_engine_main.cpp: the command SetTrackRouting.
use unidaw.Base.{ℕ, ◌%◌, Bool, none, some, not, ◌&&◌, ◌||◌, ltb, leb, ◌==◌, if◌then◌else◌, length}
use unidaw.Base.Words.{add32}
use unidaw.Routing.{TrackRouteKind, TrackRouting}
use unidaw.Payload.{UiDiffType}
use unidaw.Payload.Commands.{UiTrackRoutingPayload}
use unidaw.Payload.Tracks.{UiTrackRoutingDiffPayload}
use unidaw.Engine.{Engine, TrackRuntime, UiMessage, send, find_track, put_track}

-- A route kind as its number, and the cast of a number that `validRouteKind` accepts.
abbrev pub kind_code : TrackRouteKind → ℕ
kind_code TrackRouteKind.none = 0
kind_code TrackRouteKind.master = 1
kind_code TrackRouteKind.track = 2
kind_code TrackRouteKind.external_input = 3

abbrev pub route_kind : ℕ → TrackRouteKind
route_kind n =
    if n == 0
    then TrackRouteKind.none
    else if n == 1
    then TrackRouteKind.master
    else if n == 2
    then TrackRouteKind.track
    else TrackRouteKind.external_input

abbrev pub valid_route_kind : ℕ → Bool
valid_route_kind kind = leb kind (kind_code TrackRouteKind.external_input)

abbrev pub validate_track_route : (count track_id kind target_track_id : ℕ) → Bool
validate_track_route count track_id kind target_track_id =
    not (kind == kind_code TrackRouteKind.track)
    || ltb target_track_id count && not (target_track_id == track_id)

unfoldable pub emit_routing_error : (error_code track_id : ℕ) → Engine → Engine
emit_routing_error error_code track_id e =
    send
      (UiMessage.routing_error (record {
        diff_type = UiDiffType.routing_error;
        error_code = error_code;
        track_id = track_id;
      }))
      e

-- The message that describes the routes of a track.
abbrev routing_diff : TrackRuntime → ℕ → UiTrackRoutingDiffPayload
routing_diff runtime version =
    let routing = runtime.track.routing in
    record {
      diff_type = UiDiffType.routing_snapshot;
      flags = if routing.pre_fader_send then 1 else 0;
      track_id = runtime.track_id;
      routing_version = version;
      midi_in_kind = kind_code routing.midi_in.kind;
      midi_out_kind = kind_code routing.midi_out.kind;
      audio_in_kind = kind_code routing.audio_in.kind;
      audio_out_kind = kind_code routing.audio_out.kind;
      midi_in_track_id = routing.midi_in.track_id;
      midi_out_track_id = routing.midi_out.track_id;
      audio_in_track_id = routing.audio_in.track_id;
      audio_out_track_id = routing.audio_out.track_id;
      midi_in_input_id = routing.midi_in.input_id;
      audio_in_input_id = routing.audio_in.input_id;
    }

-- The version counts only where the ring of the UI is there.
unfoldable pub emit_routing_snapshot : TrackRuntime → Engine → Engine
emit_routing_snapshot runtime e =
    let version = add32 e.routing_version 1 in
    record e {
      routing_version = if e.ui_open then version else e.routing_version;
      outbox = (send (UiMessage.routing_diff (routing_diff runtime version)) e).outbox;
    }

-- The fields that the command sets, the others as they were.
abbrev pub rerouted : UiTrackRoutingPayload → TrackRouting → TrackRouting
rerouted p routing = record {
  midi_in = record {
    kind = route_kind p.midi_in_kind;
    track_id = p.midi_in_track_id;
    input_id = p.midi_in_input_id;
  };
  midi_out = record (routing.midi_out) {
    kind = route_kind p.midi_out_kind;
    track_id = p.midi_out_track_id;
  };
  audio_in = record {
    kind = route_kind p.audio_in_kind;
    track_id = p.audio_in_track_id;
    input_id = p.audio_in_input_id;
  };
  audio_out = record (routing.audio_out) {
    kind = route_kind p.audio_out_kind;
    track_id = p.audio_out_track_id;
  };
  pre_fader_send = p.flags % 2 == 1;
}

abbrev pub valid_kinds : UiTrackRoutingPayload → Bool
valid_kinds p =
    valid_route_kind p.midi_in_kind
    && valid_route_kind p.midi_out_kind
    && valid_route_kind p.audio_in_kind
    && valid_route_kind p.audio_out_kind

abbrev pub valid_targets : UiTrackRoutingPayload → ℕ → Bool
valid_targets p count =
    validate_track_route count p.track_id p.midi_in_kind p.midi_in_track_id
    && validate_track_route count p.track_id p.midi_out_kind p.midi_out_track_id
    && validate_track_route count p.track_id p.audio_in_kind p.audio_in_track_id
    && validate_track_route count p.track_id p.audio_out_kind p.audio_out_track_id

-- The change to a track that was found and a command that was accepted.
abbrev pub reroute : UiTrackRoutingPayload → TrackRuntime → Engine → Engine
reroute p r e =
    let r' = record r { track = record (r.track) { routing = rerouted p r.track.routing } } in
    emit_routing_snapshot r' (put_track p.track_id r' e)

unfoldable pub set_track_routing : UiTrackRoutingPayload → Engine → Engine
set_track_routing p e = elim (find_track e p.track_id) [
  | none ↦ emit_routing_error 1 p.track_id e
  | some r ↦
      if not (valid_kinds p)
      then emit_routing_error 2 p.track_id e
      else if not (valid_targets p (length e.tracks))
      then emit_routing_error 3 p.track_id e
      else reroute p r e
]
