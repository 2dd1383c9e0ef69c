-- ===== src/Incident/Plans/Tests.antt =====
-- Two batches of plans, and the history of a closed incident.
use mathlib.Core.List.{Memᴰ}
use emergency_callup.Prelude.{
  ℕ, ◌+◌, ◌<◌, false, ◌&&◌, List, [], ◌∷◌, none, some, length, ◌≡◌, ◌⊎◌, refl, arith,
}
use emergency_callup.Prelude.Int.{ℤ, pos, ltb_ℤ}
use emergency_callup.Audit.{system}
use emergency_callup.Incident.Model.{
  Incident, IncidentStatus, active, closed, Checkpoint, TeamPlan, FixRow,
}
use emergency_callup.Incident.Tables.{Tables, area_by_id}
use emergency_callup.Incident.Store.{resolve_team_snapshot}
use emergency_callup.Tracker.Judge.Tests.{station}
use emergency_callup.Incident.Plans.{
  max_checkpoints, PlanError, too_many_checkpoints, database_error, TeamPlanInput, save_batch,
  get_plan, delete_old_fixes, in_closed, numbered, checkpoints_allowed,
}
use emergency_callup.Incident.Plans.Saved.{after, get_plan-save_batch, save_batch-errors, has_team}
use emergency_callup.Incident.Plans.Valid.{
  AllValid, save_batch-AllValid, resolve_team_snapshot-save_batch, delete_old_fixes-keeps,
}

abbrev gate : ℕ → Checkpoint ℤ
gate r = record { seq = 9; name = "gate"; lat = pos 37; lng = pos 127; addr = ""; radius_m = r }

abbrev input : ℕ → List (Checkpoint ℤ) → TeamPlanInput ℤ
input team_no checkpoints = record {
  team_no = team_no;
  mission = "search";
  area_id = 3;
  rally_lat = some (pos 37);
  rally_lng = some (pos 127);
  rally_addr = "";
  checkpoints = checkpoints;
}

abbrev batch : List (TeamPlanInput ℤ)
batch = input 3 (gate 0 ∷ gate 100 ∷ []) ∷ input 1 [] ∷ []

abbrev teams : List ℕ
teams = 1 ∷ 2 ∷ 3 ∷ 99 ∷ []

abbrev saved : List (TeamPlan ℤ)
saved = (save_batch false [] batch system (pos 5)).0

numbered_radii :
    (get_plan teams 3 saved).checkpoints
    ≡ record (gate 50) { seq = 1 } ∷ record (gate 100) { seq = 2 } ∷ []
unfolding get_plan save_batch
numbered_radii = refl

get_plan-save_batch_example :
    ((save_batch false [] batch system (pos 5)).1 ≡ none)
    × (get_plan teams 3 saved ≡ after system (pos 5) 3 batch (get_plan teams 3 []))
unfolding numbered checkpoints_allowed has_team
get_plan-save_batch_example =
    get_plan-save_batch teams [] batch system (pos 5) 3 (omega arith, refl, (omega arith, refl, tt))
      refl (omega arith) (omega arith)

-- A radius of 10 m: the whole batch is refused.
abbrev refused : List (TeamPlanInput ℤ)
refused = input 1 [] ∷ input 2 (gate 10 ∷ []) ∷ []

whole_batch : save_batch false saved refused system (pos 6) ≡ (saved, some database_error)
unfolding save_batch
whole_batch = refl

save_batch-errors_example :
    ((e : PlanError)
      → (save_batch false saved refused system (pos 6)).1 ≡ some e
      → (save_batch false saved refused system (pos 6)).0 ≡ saved)
    × ((x : TeamPlanInput ℤ)
        → Memᴰ x refused
        → max_checkpoints < length x.checkpoints
        → (save_batch false saved refused system (pos 6)).1 ≡ some too_many_checkpoints)
save_batch-errors_example = save_batch-errors false saved refused system (pos 6)

save_batch-AllValid_example : AllValid (save_batch false [] batch system (pos 5)).0
save_batch-AllValid_example = save_batch-AllValid false [] batch system (pos 5) tt

abbrev tables : Tables ℤ
tables = record {
  incidents = [];
  team_tasks = [];
  assignments = [];
  areas = station ∷ [];
  plans = saved;
  members = [];
  fixes = [];
  events = [];
}

abbrev moved : TeamPlanInput ℤ
moved = input 2 (gate 60 ∷ [])

resolve_team_snapshot-save_batch_example :
    resolve_team_snapshot
      (record tables { plans = (save_batch false saved (moved ∷ []) system (pos 7)).0 })
      2
      3
    ≡ some (record {
      rally_lat = pos 37;
      rally_lng = pos 127;
      checkpoints = numbered 1 moved.checkpoints;
    })
unfolding area_by_id save_batch
resolve_team_snapshot-save_batch_example =
    resolve_team_snapshot-save_batch tables moved (pos 37) (pos 127) system (pos 7) station
      (omega arith) (omega arith) refl refl refl refl

abbrev incident : ℕ → IncidentStatus → Incident
incident id status = record {
  id = id;
  type_text = "";
  message = "";
  status = status;
  version = 1;
  opened_by = system;
  opened_at = pos 0;
  closed_by = none;
  closed_at = pos 0;
}

abbrev incidents : List Incident
incidents = incident 1 closed ∷ incident 2 active ∷ []

abbrev fix : ℕ → ℕ → FixRow
fix id ts = record {
  incident_id = id;
  member_id = 1;
  ts = pos ts;
  lat5 = pos 0;
  lng5 = pos 0;
  acc = pos 0;
}

abbrev fixes : List FixRow
fixes = fix 1 3 ∷ fix 2 3 ∷ fix 1 8 ∷ []

pruned : delete_old_fixes (pos 5) incidents fixes ≡ (fix 2 3 ∷ fix 1 8 ∷ [], 1)
unfolding delete_old_fixes ltb_ℤ
pruned = refl

delete_old_fixes-keeps_example :
    let r = delete_old_fixes (pos 5) incidents fixes in
    (Memᴰ (fix 2 3) r.0
      → Memᴰ (fix 2 3) fixes × ((ltb_ℤ (pos 3) (pos 5) && in_closed 2 incidents) ≡ false))
    × (Memᴰ (fix 2 3) fixes
        → (ltb_ℤ (pos 3) (pos 5) ≡ false)
          ⊎ ((i : Incident) → Memᴰ i incidents → i.id ≡ 2 → i.status ≡ active)
        → Memᴰ (fix 2 3) r.0)
    × (length r.0 + r.1 ≡ length fixes)
delete_old_fixes-keeps_example = delete_old_fixes-keeps (pos 5) incidents fixes (fix 2 3)
