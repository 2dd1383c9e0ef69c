-- ===== src/Incident/Plans.antt =====
-- internal/incident/plan.go: the teams' pre-registered plans; and DeleteOldFixes of store.go. The tables
-- `team_plan` and `checkpoint` are one list: a plan with its checkpoints by ascending `seq`. The schema's
-- CHECK on a checkpoint's radius is modelled; `fails` says whether a statement fails for another reason
-- (the database, a foreign key). A failed transaction leaves the tables as they were.
pub mod Saved
pub mod Valid
mod Tests
use emergency_callup.Prelude.{
  ℕ, suc, ◌+◌, Bool, true, false, ◌&&◌, not, List, [], ◌∷◌, ◌++◌, Option, none, some, String, ltb,
  leb, ◌==◌, if◌then◌else◌, length,
}
use emergency_callup.Prelude.Int.{ℤ, pos, ltb_ℤ}
use emergency_callup.Audit.{Actor}
use emergency_callup.Incident.Model.{
  Incident, IncidentStatus, active, closed, Checkpoint, TeamPlan, FixRow,
}
use emergency_callup.Incident.Store.{plan_of}

abbrev pub max_checkpoints : ℕ
max_checkpoints = 10

pub data PlanError : Type 0 where
  too_many_checkpoints database_error : PlanError

pub record TeamPlanInput (F : Type 0) : Type 0 where
  pub team_no : ℕ
  pub mission : String
  pub area_id : ℕ
  pub rally_lat : Option F
  pub rally_lng : Option F
  pub rally_addr : String
  pub checkpoints : List (Checkpoint F)

-- `CHECK (radius_m BETWEEN 20 AND 500)`
unfoldable pub radius_allowed : ℕ → Bool
radius_allowed r = leb 20 r && leb r 500

unfoldable pub stored_radius : ℕ → ℕ
stored_radius r = if r == 0 then 50 else r

module _ {F : Type 0} where
  -- The loop over `in.Checkpoints`, from the number `seq`.
  unfoldable pub numbered : ℕ → List (Checkpoint F) → List (Checkpoint F)
  unfolding stored_radius
  numbered seq [] = []
  numbered seq (c ∷ rest) =
      record c { seq = seq; radius_m = stored_radius c.radius_m } ∷ numbered (suc seq) rest

  unfoldable pub checkpoints_allowed : List (Checkpoint F) → Bool
  unfolding radius_allowed
  checkpoints_allowed [] = true
  checkpoints_allowed (c ∷ rest) = radius_allowed c.radius_m && checkpoints_allowed rest

  unfoldable pub saved_plan : Actor → ℤ → TeamPlanInput F → TeamPlan F
  unfolding numbered
  saved_plan actor now input = record {
    team_no = input.team_no;
    mission = input.mission;
    area_id = input.area_id;
    rally_lat = input.rally_lat;
    rally_lng = input.rally_lng;
    rally_addr = input.rally_addr;
    checkpoints = numbered 1 input.checkpoints;
    updated_by = some actor;
    updated_at = now;
  }

  -- `INSERT ... ON CONFLICT(team_no) DO UPDATE`, with the team's checkpoints.
  unfoldable pub upsert_plan : TeamPlan F → List (TeamPlan F) → List (TeamPlan F)
  upsert_plan p [] = p ∷ []
  upsert_plan p (q ∷ rest) = if q.team_no == p.team_no then p ∷ rest else q ∷ upsert_plan p rest

  -- One turn of the loop: `none` if the schema refuses a checkpoint.
  unfoldable pub save_plan :
      Actor → ℤ → TeamPlanInput F → List (TeamPlan F) → Option (List (TeamPlan F))
  unfolding saved_plan upsert_plan checkpoints_allowed
  save_plan actor now input plans =
      let p = saved_plan actor now input in
      if checkpoints_allowed p.checkpoints then some (upsert_plan p plans) else none

  -- The transaction.
  unfoldable pub save_plans :
      Actor → ℤ → List (TeamPlanInput F) → Option (List (TeamPlan F)) → Option (List (TeamPlan F))
  unfolding save_plan
  save_plans actor now inputs none = none
  save_plans actor now [] (some plans) = some plans
  save_plans actor now (input ∷ rest) (some plans) =
      save_plans actor now rest (save_plan actor now input plans)

  unfoldable pub too_many : List (TeamPlanInput F) → Bool
  too_many [] = false
  too_many (input ∷ rest) =
      if ltb max_checkpoints (length input.checkpoints) then true else too_many rest

  unfoldable pub committed :
      List (TeamPlan F) → Option (List (TeamPlan F)) → List (TeamPlan F) × Option PlanError
  committed plans none = (plans, some database_error)
  committed plans (some saved) = (saved, none)

  -- `PlanStore.SaveBatch`.
  unfoldable pub save_batch :
      Bool
      → List (TeamPlan F)
      → List (TeamPlanInput F)
      → Actor
      → ℤ
      → List (TeamPlan F) × Option PlanError
  unfolding too_many save_plans committed
  save_batch fails plans inputs actor now =
      if too_many inputs
      then (plans, some too_many_checkpoints)
      else if fails
      then (plans, some database_error)
      else committed plans (save_plans actor now inputs (some plans))

  -- A team without a row of its own.
  unfoldable pub no_plan : ℕ → TeamPlan F
  no_plan team_no = record {
    team_no = team_no;
    mission = "";
    area_id = 0;
    rally_lat = none;
    rally_lng = none;
    rally_addr = "";
    checkpoints = [];
    updated_by = none;
    updated_at = pos 0;
  }

  unfoldable pub joined : ℕ → Option (TeamPlan F) → TeamPlan F
  unfolding no_plan
  joined team_no none = no_plan team_no
  joined team_no (some p) = p

  -- `PlanStore.List`, of the rows of `team`, by ascending number. The rows outside 1 to 10 are left out.
  unfoldable pub list_plans : List ℕ → List (TeamPlan F) → List (TeamPlan F)
  unfolding joined plan_of
  list_plans [] plans = []
  list_plans (team_no ∷ rest) plans =
      let others = list_plans rest plans in
      if leb 1 team_no && leb team_no 10
      then joined team_no (plan_of team_no plans) ∷ others
      else others

  -- `PlanStore.Get`.
  unfoldable pub get_plan : List ℕ → ℕ → List (TeamPlan F) → TeamPlan F
  unfolding joined list_plans plan_of
  get_plan teams team_no plans = joined team_no (plan_of team_no (list_plans teams plans))

-- `incident_id IN (SELECT id FROM incident WHERE status = 'closed')`
unfoldable pub is_closed : IncidentStatus → Bool
is_closed closed = true
is_closed active = false

unfoldable pub in_closed : ℕ → List Incident → Bool
unfolding is_closed
in_closed id [] = false
in_closed id (i ∷ rest) = if i.id == id && is_closed i.status then true else in_closed id rest

-- `Store.DeleteOldFixes`: the rows left, and how many were deleted.
unfoldable pub delete_old_fixes : ℤ → List Incident → List FixRow → List FixRow × ℕ
unfolding in_closed
delete_old_fixes cutoff incidents [] = ([], 0)
delete_old_fixes cutoff incidents (x ∷ rest) =
    let left = delete_old_fixes cutoff incidents rest in
    if ltb_ℤ x.ts cutoff && in_closed x.incident_id incidents
    then (left.0, suc left.1)
    else (x ∷ left.0, left.1)
