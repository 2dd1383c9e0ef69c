-- ===== src/Incident/Teams.antt =====
-- internal/incident/store.go: the operations on the teams and members of a running incident.
pub mod Effective
mod Tests
use emergency_callup.Prelude.{
  ℕ, ◌+◌, Bool, true, false, ◌&&◌, not, ◌||◌, List, [], ◌∷◌, ◌++◌, Option, none, some, String,
  str_eq, map, ltb, ◌==◌, if◌then◌else◌,
}
use emergency_callup.Prelude.Int.{ℤ, pos}
use emergency_callup.Prelude.Dict.{Dict, lookup, insert}
use emergency_callup.Audit.{Actor}
use emergency_callup.Incident.Model.{
  State, notified, moving, active, Incident, Checkpoint, TeamTask, PeacetimeMember, Assignment,
  has_arrived,
}
use emergency_callup.Incident.Tables.{Tables, is_row_of, assignment_of, update_assignment}
use emergency_callup.Incident.Store.{
  Answer, ok, err, incident_active, no_teams_requested, team_missing_values, area_not_found,
  database_error, team_task_not_found, assignment_missing, StoreFaults, TeamInput,
  MemberOverrideInput, TeamSnapshot, or_else, new_assignment, resolve_team_snapshot, get_active,
  audited,
}

-- `WHERE incident_id=? AND team_no=?`
unfoldable pub is_in_team : ℕ → ℕ → Assignment → Bool
is_in_team incident_id team_no a = a.incident_id == incident_id && a.team_no == team_no

-- The columns that a new mission and area change; the state goes back to MOVING and the arrival is
-- forgotten only if the area is another one and the member had arrived there.
unfoldable pub reassigned : String → ℕ → Assignment → Assignment
unfolding has_arrived
reassigned mission area_id a =
    let ver =
      if str_eq mission a.eff_mission && area_id == a.eff_area_id
      then a.mission_ver
      else a.mission_ver + 1 in
    let b = record a { eff_mission = mission; eff_area_id = area_id; mission_ver = ver } in
    if not (area_id == a.eff_area_id) && has_arrived a.state
    then record b { state = moving; arrived_at = none }
    else b

-- A personal override stands in the way of the team's value.
unfoldable pub team_value : {A : Type 0} → Option A → A → A → A
team_value none effective of_team = of_team
team_value (some own) effective of_team = effective

-- The body of the loop of `UpdateTeamTask`.
unfoldable pub follow_team : String → ℕ → Assignment → Assignment
unfolding team_value reassigned
follow_team mission area_id a =
    let new_mission = team_value a.mission_override a.eff_mission mission in
    let new_area = team_value a.area_override_id a.eff_area_id area_id in
    if str_eq new_mission a.eff_mission && new_area == a.eff_area_id
    then a
    else reassigned new_mission new_area a

unfoldable pub follow_all : ℕ → ℕ → String → ℕ → List Assignment → List Assignment
unfolding is_in_team
follow_all incident_id team_no mission area_id [] = []
follow_all incident_id team_no mission area_id (a ∷ rest) =
    (if is_in_team incident_id team_no a then follow_team mission area_id a else a)
    ∷ follow_all incident_id team_no mission area_id rest

-- `RefreshTeamPlan`: the members that follow the team's area are to look again.
bump_followers : ℕ → ℕ → List Assignment → List Assignment
unfolding is_in_team
bump_followers incident_id team_no [] = []
bump_followers incident_id team_no (a ∷ rest) =
    let others = bump_followers incident_id team_no rest in
    (if is_in_team incident_id team_no a
      then elim a.area_override_id [
        | none ↦ record a { mission_ver = a.mission_ver + 1 }
        | some own ↦ a
      ]
      else a)
    ∷ others

-- `UpdateMemberOverride` on the row, given the team's task.
unfoldable pub override_row : Option String → Option ℕ → String → ℕ → Assignment → Assignment
unfolding reassigned
override_row mission area_id team_mission team_area a =
    reassigned (or_else mission team_mission) (or_else area_id team_area)
      (record a { mission_override = mission; area_override_id = area_id })

module _ {F : Type 0} where
  is_task_of : ℕ → ℕ → TeamTask F → Bool
  is_task_of incident_id team_no t = t.incident_id == incident_id && t.team_no == team_no

  -- `GetTeamTask`
  team_task_of : ℕ → ℕ → List (TeamTask F) → Option (TeamTask F)
  unfolding is_task_of
  team_task_of incident_id team_no [] = none
  team_task_of incident_id team_no (t ∷ rest) =
      if is_task_of incident_id team_no t then some t else team_task_of incident_id team_no rest

  update_task : ℕ → ℕ → (TeamTask F → TeamTask F) → List (TeamTask F) → List (TeamTask F)
  unfolding is_task_of
  update_task incident_id team_no change [] = []
  update_task incident_id team_no change (t ∷ rest) =
      (if is_task_of incident_id team_no t then change t else t)
      ∷ update_task incident_id team_no change rest

  copy_plan : Actor → ℤ → TeamSnapshot F → TeamTask F → TeamTask F
  copy_plan actor now snap t = record t {
    version = t.version + 1;
    updated_by = actor;
    updated_at = now;
    rally_lat = snap.rally_lat;
    rally_lng = snap.rally_lng;
    checkpoints = snap.checkpoints;
  }

  update_team_with :
      StoreFaults
      → Tables F
      → ℕ
      → ℕ
      → String
      → ℕ
      → Actor
      → ℤ
      → Option (TeamSnapshot F)
      → Tables F × Answer Unit
  unfolding update_task copy_plan
  update_team_with faults t incident_id team_no mission area_id actor now none =
      (t, err area_not_found)
  update_team_with faults t incident_id team_no mission area_id actor now (some snap) =
      if faults.write then (t, err database_error) else (
        audited
            (record t {
              team_tasks =
                  update_task incident_id team_no
                    (λ task.
                      copy_plan actor now snap
                        (record task { mission = mission; area_id = area_id }))
                    t.team_tasks;
              assignments = follow_all incident_id team_no mission area_id t.assignments;
            })
            faults now "team_task_update" actor incident_id none,
        ok tt,
      )

  -- `Store.UpdateTeamTask`.
  pub update_team_task :
      StoreFaults → Tables F → ℕ → ℕ → String → ℕ → Actor → ℤ → Tables F × Answer Unit
  unfolding update_team_with
  update_team_task faults t incident_id team_no mission area_id actor now =
      update_team_with faults t incident_id team_no mission area_id actor now
        (resolve_team_snapshot t team_no area_id)

  override_with :
      StoreFaults
      → Tables F
      → ℕ
      → ℕ
      → Option String
      → Option ℕ
      → Actor
      → ℤ
      → Option (TeamTask F)
      → Tables F × Answer Unit
  override_with faults t incident_id member_id mission area_id actor now none =
      (t, err team_task_not_found)
  override_with faults t incident_id member_id mission area_id actor now (some team) =
      if faults.write then (t, err database_error) else (
        audited
            (record t {
              assignments =
                  update_assignment incident_id member_id
                    (override_row mission area_id team.mission team.area_id) t.assignments;
            })
            faults now "assignment_update" actor incident_id (some member_id),
        ok tt,
      )

  override_found :
      StoreFaults
      → Tables F
      → ℕ
      → ℕ
      → Option String
      → Option ℕ
      → Actor
      → ℤ
      → Option Assignment
      → Tables F × Answer Unit
  unfolding override_with team_task_of
  override_found faults t incident_id member_id mission area_id actor now none =
      (t, err assignment_missing)
  override_found faults t incident_id member_id mission area_id actor now (some a) =
      override_with faults t incident_id member_id mission area_id actor now
        (team_task_of incident_id a.team_no t.team_tasks)

  -- `Store.UpdateMemberOverride`.
  pub update_member_override :
      StoreFaults → Tables F → ℕ → ℕ → Option String → Option ℕ → Actor → ℤ → Tables F × Answer Unit
  unfolding override_found assignment_of
  update_member_override faults t incident_id member_id mission area_id actor now =
      override_found faults t incident_id member_id mission area_id actor now
        (assignment_of incident_id member_id t.assignments)

  add_with :
      StoreFaults
      → Tables F
      → ℕ
      → ℕ
      → ℕ
      → Option String
      → Option ℕ
      → Actor
      → ℤ
      → Option (TeamTask F)
      → Option Assignment
      → Tables F × Answer Unit
  add_with faults t incident_id member_id team_no mission area_id actor now none taken =
      (t, err team_task_not_found)
  add_with faults t incident_id member_id team_no mission area_id actor now (some team)
        (some taken) =
      (t, err database_error)
  add_with faults t incident_id member_id team_no mission area_id actor now (some team) none =
      if faults.write then (t, err database_error) else (
        audited
            (record t {
              assignments =
                  t.assignments
                  ++ new_assignment incident_id member_id team_no mission area_id team.mission
                      team.area_id
                    ∷ [];
            })
            faults now "assignment_add" actor incident_id (some member_id),
        ok tt,
      )

  -- `Store.AddMember`; the member's row is the primary key of the table.
  pub add_member :
      StoreFaults
      → Tables F
      → ℕ
      → ℕ
      → ℕ
      → Option String
      → Option ℕ
      → Actor
      → ℤ
      → Tables F × Answer Unit
  unfolding add_with team_task_of assignment_of
  add_member faults t incident_id member_id team_no mission area_id actor now =
      add_with faults t incident_id member_id team_no mission area_id actor now
        (team_task_of incident_id team_no t.team_tasks)
        (assignment_of incident_id member_id t.assignments)

  encoded : (List (Checkpoint F) → String) → List (Checkpoint F) → String
  encoded encode [] = ""
  encoded encode (c ∷ cs) = encode (c ∷ cs)

  refresh_with :
      (F → F → Bool)
      → (List (Checkpoint F) → String)
      → StoreFaults
      → Tables F
      → ℕ
      → ℕ
      → Actor
      → ℤ
      → TeamTask F
      → Option (TeamSnapshot F)
      → Tables F × Answer Bool
  unfolding encoded update_task copy_plan bump_followers
  refresh_with eq encode faults t incident_id team_no actor now task none = (t, err area_not_found)
  refresh_with eq encode faults t incident_id team_no actor now task (some snap) =
      if (eq snap.rally_lat task.rally_lat && eq snap.rally_lng task.rally_lng)
        && str_eq (encoded encode snap.checkpoints) (encoded encode task.checkpoints)
      then (t, ok false)
      else if faults.write
      then (t, err database_error)
      else (
        audited
            (record t {
              team_tasks = update_task incident_id team_no (copy_plan actor now snap) t.team_tasks;
              assignments = bump_followers incident_id team_no t.assignments;
            })
            faults now "team_task_update" actor incident_id none,
        ok true,
      )

  refresh_task :
      (F → F → Bool)
      → (List (Checkpoint F) → String)
      → StoreFaults
      → Tables F
      → ℕ
      → ℕ
      → Actor
      → ℤ
      → Option (TeamTask F)
      → Tables F × Answer Bool
  unfolding refresh_with
  refresh_task eq encode faults t incident_id team_no actor now none = (t, ok false)
  refresh_task eq encode faults t incident_id team_no actor now (some task) =
      refresh_with eq encode faults t incident_id team_no actor now task
        (resolve_team_snapshot t team_no task.area_id)

  -- `Store.RefreshTeamPlan`; `eq` is the equality of float64, `encode` is `json.Marshal`.
  pub refresh_team_plan :
      (F → F → Bool)
      → (List (Checkpoint F) → String)
      → StoreFaults
      → Tables F
      → ℕ
      → ℕ
      → Actor
      → ℤ
      → Tables F × Answer Bool
  unfolding refresh_task team_task_of
  refresh_team_plan eq encode faults t incident_id team_no actor now =
      refresh_task eq encode faults t incident_id team_no actor now
        (team_task_of incident_id team_no t.team_tasks)
