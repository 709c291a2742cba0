-- ===== src/Routing.antt =====
-- apps/track_routing.h: where a track takes its notes and its audio from, and where it sends them.
use unidaw.Base.{ℕ, Bool, true}

pub data TrackRouteKind : Type 0 where
  none master track external_input : TrackRouteKind

pub record TrackRoute : Type 0 where
  pub kind : TrackRouteKind
  pub track_id : ℕ
  pub input_id : ℕ

pub record TrackRouting : Type 0 where
  pub midi_in : TrackRoute
  pub midi_out : TrackRoute
  pub audio_in : TrackRoute
  pub audio_out : TrackRoute
  pub pre_fader_send : Bool

-- `TrackRoute{}`.
abbrev pub no_route : TrackRoute
no_route = record { kind = TrackRouteKind.none; track_id = 0; input_id = 0 }

abbrev pub default_track_routing : TrackRouting
default_track_routing = record {
  midi_in = no_route;
  midi_out = no_route;
  audio_in = no_route;
  audio_out = record no_route { kind = TrackRouteKind.master };
  pre_fader_send = true;
}
