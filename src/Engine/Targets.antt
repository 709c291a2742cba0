-- ===== src/Engine/Targets.antt =====
-- apps/daw_engine_main.cpp: the command SetAutomationTarget.
use unidaw.Base.{ℕ, List, [], ◌∷◌, Option, none, some, if◌then◌else◌}
use mathlib.Core.Option
use unidaw.StateContainer.{eq_bytes}
use unidaw.StableId.{hash_stable_id16}
use unidaw.Automation.{AutomationClip, set_target_plugin_index}
use unidaw.Payload.Commands.{UiAutomationCommandPayload}
use unidaw.Engine.{Engine, find_track, put_track}
use unidaw.Engine.Commands.{guarded, require_clip_version}

-- The first clip whose parameter has the uid is sent to another plugin.
unfoldable pub retarget :
    (uid16 : List ℕ) (target_plugin_index : ℕ) → List AutomationClip → Option (List AutomationClip)
retarget uid16 target_plugin_index [] = none
retarget uid16 target_plugin_index (c ∷ cs) =
    if eq_bytes (hash_stable_id16 c.param_id) uid16
    then some (set_target_plugin_index c target_plugin_index ∷ cs)
    else Option.map (◌∷◌ c) (retarget uid16 target_plugin_index cs)

abbrev pub do_set_automation_target : UiAutomationCommandPayload → Engine → Engine
do_set_automation_target p e = elim (find_track e p.track_id) [
  | none ↦ e
  | some r ↦ elim (retarget p.uid16 p.target_plugin_index r.track.automation_clips) [
    | none ↦ e
    | some clips ↦
        put_track p.track_id (record r { track = record (r.track) { automation_clips = clips } }) e
  ]
]

unfoldable pub set_automation_target : UiAutomationCommandPayload → Engine → Engine
set_automation_target p e =
    guarded (require_clip_version p.base_version e) (do_set_automation_target p)
