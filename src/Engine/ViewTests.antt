-- ===== src/Engine/ViewTests.antt =====
-- A clip window, the harmony at a tick, and a replay of one parameter.
use unidaw.Base.{ℕ, ◌≡◌, refl, true, [], ◌∷◌, Option, none, some, map, replicate}
use unidaw.Snapshot.{UiClipWindowSnapshot}
use unidaw.Ring.{EventRingView, blank}
use unidaw.Engine.{Engine, TrackRuntime}
use unidaw.Engine.Views.{write_ui_clip_window_snapshot, get_harmony_at}
use unidaw.Engine.Mirror.{prime_mirror, check_mirror, write_mirror_params, gate_entry}
use unidaw.Engine.Tests.{engine}

abbrev asking : ℕ → Engine
asking track_id = record engine {
  clip_window_pending = some (record {
    track_id = track_id;
    request_id = 4;
    cursor_event_index = 0;
    window_start_nanotick = 0;
    window_end_nanotick = 100;
  });
}

abbrev page_flags : Option UiClipWindowSnapshot → ℕ
page_flags none = 0
page_flags (some page) = page.flags

no_track_resync : page_flags (write_ui_clip_window_snapshot none (asking 9)).0 ≡ 2
unfolding write_ui_clip_window_snapshot
no_track_resync = refl

request_taken : (write_ui_clip_window_snapshot none (asking 0)).1.clip_window_pending ≡ none
unfolding write_ui_clip_window_snapshot
request_taken = refl

default_harmony :
    get_harmony_at (record engine { harmony_events = [] }) 7
    ≡ some (record { nanotick = 0; root = 0; scale_id = 1; flags = 0 })
unfolding get_harmony_at
default_harmony = refl

abbrev ring : EventRingView
ring = record {
  header = some (record { capacity = 4; entry_size = 64; read_index = 0; write_index = 0 });
  entries = replicate 4 blank;
  mask = 3;
}

abbrev waiting : TrackRuntime → TrackRuntime
waiting r = record r {
  mirror_pending = true;
  param_mirror = (replicate 16 7, record { value = 1; target_plugin_index = 0 }) ∷ [];
}

-- At sample 0 the gate is 1.
gate_is_one :
    map (λ r. (prime_mirror ring (waiting r) 0).1.mirror_gate_sample_time) engine.tracks ≡ 1 ∷ []
unfolding prime_mirror write_mirror_params gate_entry
gate_is_one = refl

early_ack_waits :
    map
      (λ r. (check_mirror (some 0) (prime_mirror ring (waiting r) 0).1).mirror_pending)
      engine.tracks
    ≡ true ∷ []
unfolding check_mirror prime_mirror write_mirror_params gate_entry
early_ack_waits = refl
