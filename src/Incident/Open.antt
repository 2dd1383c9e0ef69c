-- ===== src/Incident/Open.antt =====
-- internal/incident/store.go: `Store.Open`.
pub mod Single
mod Tests
use emergency_callup.Prelude.{
  ℕ, ◌+◌, Bool, true, false, ◌&&◌, ◌||◌, List, [], ◌∷◌, ◌++◌, Option, none, some, String, str_eq,
  ltb, ◌==◌, if◌then◌else◌,
}
use emergency_callup.Prelude.Int.{ℤ, pos}
use emergency_callup.Prelude.Dict.{Dict, lookup, insert}
use emergency_callup.Audit.{Actor}
use emergency_callup.Incident.Model.{active, Incident, TeamTask, PeacetimeMember, Assignment}
use emergency_callup.Incident.Tables.{Tables}
use emergency_callup.Incident.Store.{
  Answer, ok, err, incident_active, no_teams_requested, team_missing_values, area_not_found,
  database_error, StoreFaults, TeamInput, MemberOverrideInput, TeamSnapshot, new_assignment,
  resolve_team_snapshot, get_active, audited,
}

-- The rowid that SQLite gives to a new row: the largest so far and one more.
next_incident_id : List Incident → ℕ
next_incident_id [] = 1
next_incident_id (i ∷ rest) =
    let others = next_incident_id rest in if ltb i.id others then others else i.id + 1

lacks_values : List TeamInput → Bool
lacks_values [] = false
lacks_values (t ∷ rest) = (str_eq t.mission "" || t.area_id == 0) || lacks_values rest

has_team : ℕ → List TeamInput → Bool
has_team team_no [] = false
has_team team_no (t ∷ rest) = t.no == team_no || has_team team_no rest

-- The primary key of `team_task` would be taken.
has_team_twice : List TeamInput → Bool
unfolding has_team
has_team_twice [] = false
has_team_twice (t ∷ rest) = has_team t.no rest || has_team_twice rest

overrides_by_member : Dict MemberOverrideInput → List MemberOverrideInput → Dict MemberOverrideInput
overrides_by_member d [] = d
overrides_by_member d (o ∷ rest) = overrides_by_member (insert o.member_id o d) rest

override_mission : Option MemberOverrideInput → Option String
override_mission none = none
override_mission (some o) = o.mission

override_area : Option MemberOverrideInput → Option ℕ
override_area none = none
override_area (some o) = o.area_id

-- The assignments that one team of the new incident gets.
assign_members : ℕ → TeamInput → Dict MemberOverrideInput → List PeacetimeMember → List Assignment
unfolding override_mission override_area
assign_members incident_id team overrides [] = []
assign_members incident_id team overrides (m ∷ rest) =
    let others = assign_members incident_id team overrides rest in
    let o = lookup m.id overrides in
    if m.active && m.team_no == team.no
    then new_assignment incident_id m.id team.no (override_mission o) (override_area o) team.mission
        team.area_id
      ∷ others
    else others

open_assignments :
    ℕ → List TeamInput → Dict MemberOverrideInput → List PeacetimeMember → List Assignment
open_assignments incident_id [] overrides members = []
open_assignments incident_id (team ∷ rest) overrides members =
    assign_members incident_id team overrides members
    ++ open_assignments incident_id rest overrides members

new_incident : ℕ → String → String → Actor → ℤ → Incident
new_incident id type_text message actor now = record {
  id = id;
  type_text = type_text;
  message = message;
  status = active;
  version = 1;
  opened_by = actor;
  opened_at = now;
  closed_by = none;
  closed_at = pos 0;
}

is_some : Option Incident → Bool
is_some none = false
is_some (some i) = true

module _ {F : Type 0} where
  task_of : ℕ → TeamInput → Actor → ℤ → TeamSnapshot F → TeamTask F
  task_of incident_id team actor now snap = record {
    incident_id = incident_id;
    team_no = team.no;
    mission = team.mission;
    area_id = team.area_id;
    version = 1;
    updated_by = actor;
    updated_at = now;
    rally_lat = snap.rally_lat;
    rally_lng = snap.rally_lng;
    checkpoints = snap.checkpoints;
  }

  cons_task :
      Option (TeamSnapshot F)
      → (TeamSnapshot F → TeamTask F)
      → Option (List (TeamTask F))
      → Option (List (TeamTask F))
  cons_task (some snap) task (some rest) = some (task snap ∷ rest)
  cons_task _ task _ = none

  -- `none` if a team's area does not exist.
  open_tasks : Tables F → ℕ → Actor → ℤ → List TeamInput → Option (List (TeamTask F))
  unfolding cons_task task_of
  open_tasks t incident_id actor now [] = some []
  open_tasks t incident_id actor now (team ∷ rest) =
      cons_task (resolve_team_snapshot t team.no team.area_id) (task_of incident_id team actor now)
        (open_tasks t incident_id actor now rest)

  open_with :
      StoreFaults
      → Tables F
      → String
      → String
      → List TeamInput
      → List MemberOverrideInput
      → Actor
      → ℤ
      → ℕ
      → Option (List (TeamTask F))
      → Tables F × Answer Incident
  unfolding get_active is_some has_team_twice
  open_with faults t type_text message teams overrides actor now id none = (t, err area_not_found)
  open_with faults t type_text message teams overrides actor now id (some tasks) =
      if is_some (get_active t)
      then (t, err incident_active)
      else if has_team_twice teams || faults.write
      then (t, err database_error)
      else (
        audited
            (record t {
              incidents = t.incidents ++ new_incident id type_text message actor now ∷ [];
              team_tasks = t.team_tasks ++ tasks;
              assignments =
                  t.assignments
                  ++ open_assignments id teams (overrides_by_member [] overrides) t.members;
            })
            faults now "incident_open" actor id none,
        ok (new_incident id type_text message actor now),
      )

  -- `Store.Open`. The row that it reads back in the end is the one it has inserted.
  pub open_incident :
      StoreFaults
      → Tables F
      → String
      → String
      → List TeamInput
      → List MemberOverrideInput
      → Actor
      → ℤ
      → Tables F × Answer Incident
  unfolding lacks_values
  open_incident faults t type_text message [] overrides actor now = (t, err no_teams_requested)
  open_incident faults t type_text message (team ∷ rest) overrides actor now =
      let teams = team ∷ rest in
      let id = next_incident_id t.incidents in
      if lacks_values teams
      then (t, err team_missing_values)
      else open_with faults t type_text message teams overrides actor now id
          (open_tasks t id actor now teams)
