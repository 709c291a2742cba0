-- ===== src/Engine/Tracks.antt =====
-- The commands for the routes and the modulation of a track keep the engine sound.
use unidaw.Base.{
  ℕ, ◌≤◌, ◌≡◌, refl, sym, subst, ap, ◌∙◌, Bool, true, false, List, [], ◌∷◌, some, inl, inr,
  Option-cases, Bool-cases, if◌then◌else◌, length, ltb, ◌==◌, any_of, remove_if,
}
use unidaw.Payload.Commands.{
  UiCommandPayload, UiTrackRoutingPayload, UiModLinkCommandPayload, UiModLinkUid16Payload,
  UiModSourceValuePayload,
}
use unidaw.Chain.{has_id}
use unidaw.Chain.Instruments.{instruments}
use unidaw.Modulation.{ModLink}
use unidaw.Engine.{
  Engine, Track, TrackRuntime, find_track, put_track, build_track_snapshot, send, UiMessage,
}
use unidaw.Engine.Commands.{set_track_harmony_quantize, set_loop_range, join}
use unidaw.Engine.Routes.{
  emit_routing_error, emit_routing_snapshot, valid_kinds, valid_targets, rerouted, reroute,
  set_track_routing,
}
use unidaw.Engine.ModFlags.{decode_source_kind, target_code}
use unidaw.Engine.Mods.{
  emit_mod_error, emit_link, emit_links, emit_mod_snapshot, publish_links, LinkCheck, check_link,
  new_link_id, add_link, add_mod_link, link_of_id, remove_link, remove_mod_link, set_uid16,
  set_mod_link_uid16, set_mod_source_value,
}
use unidaw.Engine.Clips.{IsTidy}
use unidaw.Engine.Sound.{TrackSound, IsSound, same-IsSound, found-TrackSound, put_track-IsSound}
use unidaw.Engine.Replays.{Keeps}

pub set_track_harmony_quantize-IsSound :
    (p : UiCommandPayload) → Keeps (set_track_harmony_quantize p)
unfolding set_track_harmony_quantize build_track_snapshot
set_track_harmony_quantize-IsSound p e s = elim (Option-cases (find_track e p.track_id)) [
  | inl z ↦ rw (z, set_track_harmony_quantize) s
  | inr (r, z) ↦
      rw (z, set_track_harmony_quantize)
        (put_track-IsSound e p.track_id _
          (let t = found-TrackSound e p.track_id z s in
            record {
              tidy = t.tidy;
              clip_published = t.clip_published;
              state_published = refl;
              single = t.single;
            })
          s)
]

pub set_loop_range-IsSound : (p : UiCommandPayload) → Keeps (set_loop_range p)
unfolding set_loop_range
set_loop_range-IsSound p e s =
    elim (Bool-cases (
      ltb (join p.note_nanotick_lo p.note_nanotick_hi)
        (join p.note_duration_lo p.note_duration_hi))) [
          | inl y ↦ rw (y, set_loop_range) (same-IsSound {e = e} refl refl refl refl s)
          | inr n ↦ rw (n, set_loop_range) s
        ]

emit_routing_error-IsSound : (code track : ℕ) → Keeps (emit_routing_error code track)
unfolding emit_routing_error send
emit_routing_error-IsSound code track e s = same-IsSound {e = e} refl refl refl refl s

-- A track changes in what is neither its clip nor in its snapshots.
pub beside-TrackSound :
    (r : TrackRuntime) (track : Track)
    → track.clip ≡ r.track.clip
    → build_track_snapshot track ≡ build_track_snapshot r.track
    → instruments track.chain ≤ 1
    → TrackSound r
    → TrackSound (record r { track = track })
beside-TrackSound r track c b one t = record {
  tidy = subst IsTidy (sym c) t.tidy;
  clip_published = t.clip_published ∙ ap (λ x. x.events) (sym c);
  state_published = t.state_published ∙ sym b;
  single = one;
}

reroute-IsSound :
    (p : UiTrackRoutingPayload) (r : TrackRuntime) (e : Engine)
    → find_track e p.track_id ≡ some r
    → IsSound e
    → IsSound (reroute p r e)
unfolding emit_routing_snapshot send build_track_snapshot
reroute-IsSound p r e z s = same-IsSound {e = put_track p.track_id r' e} refl refl refl refl (
    put_track-IsSound e p.track_id r'
      (beside-TrackSound r r'.track refl refl (found-TrackSound e p.track_id z s).single
        (found-TrackSound e p.track_id z s))
      s)
  where
    r' : TrackRuntime
    r' = record r { track = record (r.track) { routing = rerouted p r.track.routing } }

pub set_track_routing-IsSound : (p : UiTrackRoutingPayload) → Keeps (set_track_routing p)
unfolding set_track_routing emit_routing_snapshot send
set_track_routing-IsSound p e s = elim (Option-cases (find_track e p.track_id)) [
  | inl z ↦ rw (z, set_track_routing) (emit_routing_error-IsSound _ _ e s)
  | inr (r, z) ↦ elim (Bool-cases (valid_kinds p)) [
    | inr k ↦ rw (z, k, set_track_routing) (emit_routing_error-IsSound _ _ e s)
    | inl k ↦ elim (Bool-cases (valid_targets p (length e.tracks))) [
      | inr v ↦ rw (z, k, v, set_track_routing) (emit_routing_error-IsSound _ _ e s)
      | inl v ↦ rw (z, k, v, set_track_routing) (reroute-IsSound p r e z s)
    ]
  ]
]

emit_mod_error-IsSound : (code track link : ℕ) → Keeps (emit_mod_error code track link)
unfolding emit_mod_error send
emit_mod_error-IsSound code track link e s = same-IsSound {e = e} refl refl refl refl s

pub send-IsSound : (m : UiMessage) → Keeps (send m)
unfolding send
send-IsSound m e s = same-IsSound {e = e} refl refl refl refl s

emit_links-IsSound : (track version : ℕ) (ls : List ModLink) → Keeps (emit_links track version ls)
unfolding emit_links
emit_links-IsSound track version [] e s = s
emit_links-IsSound track version (l ∷ ls) e s = emit_links-IsSound track version ls _ both
  where
    both : IsSound (emit_link track version l e)
    both = elim (Bool-cases (target_code l.target.kind == 0)) [
      | inl y ↦ rw y (send-IsSound _ _ (send-IsSound _ e s))
      | inr n ↦ rw n (send-IsSound _ e s)
    ]

emit_mod_snapshot-IsSound : (r : TrackRuntime) → Keeps (emit_mod_snapshot r)
unfolding emit_mod_snapshot
emit_mod_snapshot-IsSound r e s =
    either e.ui_open (emit_links-IsSound _ _ _ _ (same-IsSound {e = e} refl refl refl refl s))
  where
    either : {x : Engine} (b : Bool) → IsSound x → IsSound (if b then x else e)
    either true h = h
    either false h = s

publish_links-IsSound :
    (track : ℕ) (r : TrackRuntime) (links : List ModLink) (e : Engine)
    → find_track e track ≡ some r
    → IsSound e
    → IsSound (publish_links track r links e)
publish_links-IsSound track r links e z s = emit_mod_snapshot-IsSound _ _ (
    put_track-IsSound e track _
      (let t = found-TrackSound e track z s in
        record {
          tidy = t.tidy;
          clip_published = t.clip_published;
          state_published = refl;
          single = t.single;
        })
      s)

module _ (p : UiModLinkCommandPayload) (e : Engine) (s : IsSound e) where
  pub add_mod_link-IsSound : IsSound (add_mod_link p e)
  unfolding add_mod_link
  add_mod_link-IsSound = elim (Option-cases (find_track e p.track_id)) [
    | inl z ↦ rw (z, add_mod_link) (emit_mod_error-IsSound _ _ _ e s)
    | inr (r, z) ↦ rw (z, add_mod_link) (checked r z (check_link p r.track.chain.devices))
  ]
    where
      checked :
          (r : TrackRuntime)
          → find_track e p.track_id ≡ some r
          → (c : LinkCheck)
          → IsSound (elim c [
            | LinkCheck.refused code ↦ emit_mod_error code p.track_id p.link_id e
            | LinkCheck.passed sk tk rate ↦ add_link p r sk tk rate e
          ])
      checked r z (LinkCheck.refused code) = emit_mod_error-IsSound _ _ _ e s
      checked r z (LinkCheck.passed sk tk rate) =
          elim (Option-cases (new_link_id r.track.mod_registry.links p.link_id)) [
            | inl y ↦ rw (y, add_link) (emit_mod_error-IsSound _ _ _ e s)
            | inr (id, y) ↦ rw (y, add_link) (publish_links-IsSound p.track_id r _ e z s)
          ]

  pub remove_mod_link-IsSound : IsSound (remove_mod_link p e)
  unfolding remove_mod_link
  remove_mod_link-IsSound = elim (Option-cases (find_track e p.track_id)) [
    | inl z ↦ rw (z, remove_mod_link) (emit_mod_error-IsSound _ _ _ e s)
    | inr (r, z) ↦ rw (z, remove_mod_link) (checked r z (check_link p r.track.chain.devices))
  ]
    where
      checked :
          (r : TrackRuntime)
          → find_track e p.track_id ≡ some r
          → (c : LinkCheck)
          → IsSound (elim c [
            | LinkCheck.refused code ↦ emit_mod_error code p.track_id p.link_id e
            | LinkCheck.passed sk tk rate ↦ remove_link p r e
          ])
      checked r z (LinkCheck.refused code) = emit_mod_error-IsSound _ _ _ e s
      checked r z (LinkCheck.passed sk tk rate) =
          elim (Bool-cases (
            length (remove_if (link_of_id p.link_id) r.track.mod_registry.links)
            == length r.track.mod_registry.links)) [
              | inl y ↦ rw (y, remove_link) (emit_mod_error-IsSound _ _ _ e s)
              | inr n ↦ rw (n, remove_link) (publish_links-IsSound p.track_id r _ e z s)
            ]

pub set_mod_link_uid16-IsSound : (p : UiModLinkUid16Payload) → Keeps (set_mod_link_uid16 p)
unfolding set_mod_link_uid16
set_mod_link_uid16-IsSound p e s = elim (Option-cases (find_track e p.track_id)) [
  | inl z ↦ rw (z, set_mod_link_uid16) (emit_mod_error-IsSound _ _ _ e s)
  | inr (r, z) ↦ elim (Option-cases (set_uid16 p.link_id p.uid16 r.track.mod_registry.links)) [
    | inl y ↦ rw (z, y, set_mod_link_uid16) (emit_mod_error-IsSound _ _ _ e s)
    | inr (links, y) ↦
        rw (z, y, set_mod_link_uid16) (publish_links-IsSound p.track_id r links e z s)
  ]
]

pub set_mod_source_value-IsSound : (p : UiModSourceValuePayload) → Keeps (set_mod_source_value p)
unfolding set_mod_source_value build_track_snapshot
set_mod_source_value-IsSound p e s = elim (Option-cases (find_track e p.track_id)) [
  | inl z ↦ rw (z, set_mod_source_value) (emit_mod_error-IsSound _ _ _ e s)
  | inr (r, z) ↦ elim (Option-cases (decode_source_kind p.flags)) [
    | inl y ↦ rw (z, y, set_mod_source_value) (emit_mod_error-IsSound _ _ _ e s)
    | inr (kind, y) ↦ elim (Bool-cases (any_of (has_id p.source_device_id) r.track.chain.devices)) [
      | inr n ↦ rw (z, y, n, set_mod_source_value) (emit_mod_error-IsSound _ _ _ e s)
      | inl f ↦
          rw (z, y, f, set_mod_source_value)
            (put_track-IsSound e p.track_id _
              (beside-TrackSound r _ refl refl (found-TrackSound e p.track_id z s).single
                (found-TrackSound e p.track_id z s))
              s)
    ]
  ]
]
