-- ===== src/Engine/Growth.antt =====
-- The loop of ensureTrack that adds tracks.
use unidaw.Base.{
  ℕ, zero, suc, ◌+◌, ◌≤◌, ◌<◌, ◌≡◌, sym, ◌∙◌, Bool, true, false, List, [], ◌∷◌, ◌++◌, none, some,
  inl, inr, Option-cases, Bool-cases, ltb, length, length-append, arith,
}
use mathlib.Core.List.{append-nil, append_assoc}
use unidaw.Engine.{Engine, TrackRuntime}
use unidaw.Engine.Loads.{Environment, ui_max_tracks, grow_fuel, setup_track_runtime, grow_tracks}

-- What the loop ends with: new tracks behind those of before, up to the id, or a host that did not
-- start.
pub record Grown (env : Environment) (id : ℕ) (path : List ℕ) (e : Engine) (out : Bool × Engine)
    : Type 0 where
  pub added : List TrackRuntime
  pub behind : out.1.tracks ≡ e.tracks ++ added
  pub bounded : length out.1.tracks ≤ ui_max_tracks
  pub there : out.0 ≡ true → id < length out.1.tracks
  pub failed :
      out.0 ≡ false
      → (k : ℕ) × (k ≤ id) × (setup_track_runtime env e.plugin_cache k path true true ≡ none)

module _ (env : Environment) (id : ℕ) (path : List ℕ) where
  already :
      (e : Engine)
      → length e.tracks ≤ ui_max_tracks
      → id < length e.tracks
      → Grown env id path e (true, e)
  already e few there = record {
    added = [];
    behind = sym (append-nil e.tracks);
    bounded = few;
    there = λ h. there;
    failed = λ h. cc;
  }

  stopped :
      (e : Engine)
      → length e.tracks ≤ ui_max_tracks
      → length e.tracks ≤ id
      → setup_track_runtime env e.plugin_cache (length e.tracks) path true true ≡ none
      → Grown env id path e (false, e)
  stopped e few short z = record {
    added = [];
    behind = sym (append-nil e.tracks);
    bounded = few;
    there = λ h. cc;
    failed = λ h. (length e.tracks, short, z);
  }

  one_more :
      (e : Engine) (r : TrackRuntime) (out : Bool × Engine)
      → Grown env id path (record e { tracks = e.tracks ++ (r ∷ []) }) out
      → Grown env id path e out
  one_more e r out g = record {
    added = r ∷ g.added;
    behind = g.behind ∙ append_assoc e.tracks (r ∷ []) g.added;
    bounded = g.bounded;
    there = g.there;
    failed = g.failed;
  }

  grow_far :
      (fuel : ℕ) (e : Engine)
      → id < ui_max_tracks
      → length e.tracks ≤ ui_max_tracks
      → suc id ≤ fuel + length e.tracks
      → (out : Bool × Engine) × (grow_tracks env id path (suc fuel) e ≡ some out)
        × Grown env id path e out
  unfolding grow_tracks
  grow_far zero e small few enough =
      ((true, e), rw (there (omega arith), grow_tracks), already e few (omega arith))
    where
      there : id < length e.tracks → ltb id (length e.tracks) ≡ true
      there h = ground arith
  grow_far (suc fuel) e small few enough = elim (Bool-cases (ltb id (length e.tracks))) [
    | inl y ↦ ((true, e), rw (y, grow_tracks), already e few (ground arith))
    | inr n ↦
        elim (Option-cases
          (setup_track_runtime env e.plugin_cache (length e.tracks) path true true)) [
            | inl z ↦ ((false, e), rw (n, z, grow_tracks), stopped e few (ground arith) z)
            | inr (r, z) ↦
                let e' : Engine = record e { tracks = e.tracks ++ (r ∷ []) } in
                let longer : length e'.tracks ≡ length e.tracks + 1 =
                  length-append e.tracks (r ∷ []) in
                let rest = grow_far fuel e' small (short n longer) (omega (arith, longer)) in
                (rest.0, rw (n, z, grow_tracks) rest.1, one_more e r rest.0 rest.2)
          ]
  ]
    where
      short :
          {m : ℕ} → ltb id (length e.tracks) ≡ false → m ≡ length e.tracks + 1 → m ≤ ui_max_tracks
      short n q = ground arith

  -- For an id below 8, and with 8 tracks at most, the loop of ensureTrack ends: nine tests of its
  -- condition are enough. It leaves the tracks of before with new ones behind them, 8 at most in all.
  -- It reports success only when there is a track of the id, and failure only when the host of a
  -- track up to the id did not start.
  pub ensure_track_ends :
      (e : Engine)
      → id < ui_max_tracks
      → length e.tracks ≤ ui_max_tracks
      → (out : Bool × Engine) × (grow_tracks env id path grow_fuel e ≡ some out)
        × Grown env id path e out
  ensure_track_ends e small few = grow_far ui_max_tracks e small few (omega arith)
