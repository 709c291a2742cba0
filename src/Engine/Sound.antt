-- ===== src/Engine/Sound.antt =====
-- What every command of the UI keeps: the order of the timeline and the clips, the tracker grid, and
-- published snapshots that are those of the tracks, one instrument at most in a chain, and a patcher
-- graph that is one.
use unidaw.Base.{ℕ, ◌≤◌, ◌≡◌, refl, sym, subst, some, All, All-set, All-get}
use unidaw.Clip.{MusicalClip}
use unidaw.Chain.Instruments.{instruments}
use unidaw.Graph.Usable.{IsUsable}
use unidaw.Engine.Clips.{IsTidy}
use unidaw.Engine.{
  Engine, TrackRuntime, build_clip_snapshot, build_track_snapshot, find_track, put_track,
  publish_clip,
}
use unidaw.Engine.Timeline.{IsTimeline}

pub record TrackSound (r : TrackRuntime) : Type 0 where
  pub tidy : IsTidy r.track.clip
  pub clip_published : r.clip_snapshot.events ≡ r.track.clip.events
  pub state_published : r.track_snapshot ≡ build_track_snapshot r.track
  pub single : instruments r.track.chain ≤ 1

pub record IsSound (e : Engine) : Type 0 where
  pub timeline : IsTimeline e.harmony_events
  pub tracks : All TrackSound e.tracks
  pub graph : IsUsable e.patcher_graph_state.graph
  pub graph_published : IsUsable e.patcher_graph_snapshot

-- Only the timeline, the tracks and the patcher graph matter.
pub same-IsSound :
    {e e' : Engine}
    → e'.harmony_events ≡ e.harmony_events
    → e'.tracks ≡ e.tracks
    → e'.patcher_graph_state ≡ e.patcher_graph_state
    → e'.patcher_graph_snapshot ≡ e.patcher_graph_snapshot
    → IsSound e
    → IsSound e'
same-IsSound h t g p s = record {
  timeline = subst IsTimeline (sym h) s.timeline;
  tracks = subst (All TrackSound) (sym t) s.tracks;
  graph = subst (λ x. IsUsable x.graph) (sym g) s.graph;
  graph_published = subst IsUsable (sym p) s.graph_published;
}

pub found-TrackSound :
    (e : Engine) (i : ℕ) {r : TrackRuntime} → find_track e i ≡ some r → IsSound e → TrackSound r
found-TrackSound e i {r} z s = All-get TrackSound e.tracks i r z s.tracks

pub put_track-IsSound :
    (e : Engine) (i : ℕ) (r : TrackRuntime) → TrackSound r → IsSound e → IsSound (put_track i r e)
put_track-IsSound e i r t s = record {
  timeline = s.timeline;
  tracks = All-set TrackSound e.tracks i r t s.tracks;
  graph = s.graph;
  graph_published = s.graph_published;
}

-- The clip of a track that is found gives way to another.
pub publish_clip-IsSound :
    (e : Engine) (i : ℕ) (r : TrackRuntime) (clip : MusicalClip)
    → find_track e i ≡ some r
    → IsTidy clip
    → IsSound e
    → IsSound (publish_clip i r clip e)
unfolding publish_clip build_clip_snapshot build_track_snapshot
publish_clip-IsSound e i r clip z h s = same-IsSound {e = put_track i r' e} refl refl refl refl (
    put_track-IsSound e i r'
      (record {
        tidy = h;
        clip_published = refl;
        state_published = (found-TrackSound e i z s).state_published;
        single = (found-TrackSound e i z s).single;
      })
      s)
  where
    r' : TrackRuntime
    r' = record r {
      track = record (r.track) { clip = clip };
      clip_snapshot = build_clip_snapshot clip;
    }
