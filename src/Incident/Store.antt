-- ===== src/Incident/Store.antt =====
-- internal/incident/store.go: incidents, team tasks and assignments. A table is a list of rows; an
-- UPDATE by primary key is a change of the rows that it selects. `StoreFaults` says whether a statement
-- that writes fails (by an error of the database or a foreign key, which the model's tables do not
-- check); the transaction then leaves the tables as they were. Reads do not fail.
use emergency_callup.Prelude.{
  ℕ, ◌+◌, Bool, false, ◌&&◌, leb, List, [], ◌∷◌, Option, none, some, String, ◌==◌, if◌then◌else◌,
}
use emergency_callup.Prelude.Int.{ℤ, pos}
use emergency_callup.Audit.{Actor, record_event}
use emergency_callup.Area.Row.{Row}
use emergency_callup.Incident.Model.{notified, closed, Incident, Checkpoint, TeamPlan, Assignment}
use emergency_callup.Incident.Tables.{Tables, active_incident, incident_by_id, area_by_id}

pub data StoreError : Type 0 where
  no_active_incident incident_active team_task_not_found assignment_missing no_teams_requested :
      StoreError
  team_missing_values area_not_found database_error : StoreError

pub data Answer (A : Type 0) : Type 0 where
  ok : A → Answer A
  err : StoreError → Answer A

pub record TeamInput : Type 0 where
  pub no : ℕ
  pub mission : String
  pub area_id : ℕ

pub record MemberOverrideInput : Type 0 where
  pub member_id : ℕ
  pub mission : Option String
  pub area_id : Option ℕ

pub record TeamSnapshot (F : Type 0) : Type 0 where
  pub rally_lat : F
  pub rally_lng : F
  pub checkpoints : List (Checkpoint F)

pub record StoreFaults : Type 0 where
  pub write : Bool
  pub audit : Bool

-- `*p` or the default.
abbrev pub or_else : {A : Type 0} → Option A → A → A
or_else none a = a
or_else (some b) a = b

answer_incident : Option Incident → Answer Incident
answer_incident none = err no_active_incident
answer_incident (some i) = ok i

-- `UPDATE incident SET ... WHERE id=?`
unfoldable pub update_incident : ℕ → (Incident → Incident) → List Incident → List Incident
update_incident id change [] = []
update_incident id change (i ∷ rest) =
    (if i.id == id then change i else i) ∷ update_incident id change rest

-- `INSERT INTO assignment`, as `Open` and `AddMember` do.
unfoldable pub new_assignment : ℕ → ℕ → ℕ → Option String → Option ℕ → String → ℕ → Assignment
new_assignment incident_id member_id team_no mission area_id team_mission team_area = record {
  incident_id = incident_id;
  member_id = member_id;
  team_no = team_no;
  mission_override = mission;
  area_override_id = area_id;
  eff_mission = or_else mission team_mission;
  eff_area_id = or_else area_id team_area;
  mission_ver = 1;
  ack_ver = pos 1;
  state = notified;
  first_login_at = none;
  arrived_at = none;
  last_left_at = none;
  left_count = 0;
  last_lat5 = none;
  last_lng5 = none;
  last_acc = none;
  last_fix_at = none;
  suspect = false;
}

module _ {F : Type 0} where
  -- The row of `team_plan` with its checkpoints.
  unfoldable pub plan_of : ℕ → List (TeamPlan F) → Option (TeamPlan F)
  plan_of team_no [] = none
  plan_of team_no (p ∷ rest) = if p.team_no == team_no then some p else plan_of team_no rest

  -- `PlanStore.Get`, none standing for the empty plan that it makes up: it looks among the plans of
  -- `List`, which are those of the teams 1 to 10. A stored plan refers to a row of `team`.
  unfoldable pub listed_plan : ℕ → List (TeamPlan F) → Option (TeamPlan F)
  unfolding plan_of
  listed_plan team_no plans =
      let p = plan_of team_no plans in if leb 1 team_no && leb team_no 10 then p else none

  with_rally : TeamSnapshot F → Option F → Option F → TeamSnapshot F
  with_rally snap (some lat) (some lng) = record snap { rally_lat = lat; rally_lng = lng }
  with_rally snap _ _ = snap

  with_plan : TeamSnapshot F → ℕ → Option (TeamPlan F) → TeamSnapshot F
  unfolding with_rally
  with_plan snap area_id none = snap
  with_plan snap area_id (some p) =
      if p.area_id == area_id
      then record (with_rally snap p.rally_lat p.rally_lng) { checkpoints = p.checkpoints }
      else snap

  snapshot_in : Tables F → ℕ → ℕ → Option (Row F) → Option (TeamSnapshot F)
  unfolding with_plan listed_plan
  snapshot_in t team_no area_id none = none
  snapshot_in t team_no area_id (some ar) = some (
      with_plan (record { rally_lat = ar.nav_lat; rally_lng = ar.nav_lng; checkpoints = [] })
        area_id (listed_plan team_no t.plans))

  -- `none` if there is no such area.
  unfoldable pub resolve_team_snapshot : Tables F → ℕ → ℕ → Option (TeamSnapshot F)
  unfolding snapshot_in area_by_id with_plan listed_plan plan_of with_rally
  resolve_team_snapshot t team_no area_id =
      snapshot_in t team_no area_id (area_by_id area_id t.areas)

  -- `ErrNoActiveIncident` if there is none.
  unfoldable pub get_active : Tables F → Option Incident
  unfolding active_incident
  get_active t = active_incident t.incidents

  unfoldable pub audited : Tables F → StoreFaults → ℤ → String → Actor → ℕ → Option ℕ → Tables F
  unfolding record_event
  audited t faults now kind actor incident_id member_id = record t {
    events = record_event faults.audit t.events (record {
      ts = now;
      incident_id = some incident_id;
      actor = actor;
      kind = kind;
      member_id = member_id;
    });
  }

  unfoldable pub change_incident :
      StoreFaults
      → Tables F
      → (Incident → Incident)
      → String
      → Actor
      → ℤ
      → Option Incident
      → Tables F × Answer Incident
  unfolding update_incident incident_by_id answer_incident
  change_incident faults t change kind actor now none = (t, err no_active_incident)
  change_incident faults t change kind actor now (some i) =
      let incidents = update_incident i.id change t.incidents in
      if faults.write then (t, err database_error) else (
        audited (record t { incidents = incidents }) faults now kind actor i.id none,
        answer_incident (incident_by_id i.id incidents),
      )

  -- `Store.UpdateMeta`.
  unfoldable pub update_meta :
      StoreFaults
      → Tables F
      → Option String
      → Option String
      → Actor
      → ℤ
      → Tables F × Answer Incident
  unfolding change_incident get_active
  update_meta faults t type_text message actor now =
      change_incident faults t
        (λ i. record i {
          type_text = or_else type_text i.type_text;
          message = or_else message i.message;
          version = i.version + 1;
        })
        "incident_update" actor now (get_active t)

  -- `Store.Close`.
  unfoldable pub close_incident : StoreFaults → Tables F → Actor → ℤ → Tables F × Answer Incident
  unfolding change_incident get_active
  close_incident faults t actor now =
      change_incident faults t
        (λ i. record i { status = closed; closed_by = some actor; closed_at = now })
        "incident_close" actor now (get_active t)
