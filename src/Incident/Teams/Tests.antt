-- ===== src/Incident/Teams/Tests.antt =====
-- A team of two whose task changes.
use emergency_callup.Prelude.{
  ◌+◌, false, ◌&&◌, not, [], ◌∷◌, ◌≡◌, ◌≢◌, ◌⊎◌, refl, none, some, ◌==◌, if◌then◌else◌,
}
use emergency_callup.Prelude.Int.{ℤ, pos}
use emergency_callup.Audit.{Actor}
use emergency_callup.Incident.Model.{moving, has_arrived, Assignment}
use emergency_callup.Incident.Tables.{Tables}
use emergency_callup.Incident.Store.{StoreFaults, ok, new_assignment, resolve_team_snapshot}
use emergency_callup.Incident.Teams.{follow_team, update_team_task, update_team_with}
use emergency_callup.Incident.Teams.Effective.{
  AllFollow, mission_for, area_for, update_team_task-AllFollow, follow_team_changes,
}
use emergency_callup.Tracker.Judge.Tests.{station}

abbrev first : Assignment
first = new_assignment 1 7 2 none none "search" 9

abbrev second : Assignment
second = new_assignment 1 8 2 (some "guard") none "search" 9

abbrev tables : Tables ℤ
tables = record {
  incidents = [];
  team_tasks = [];
  assignments = first ∷ second ∷ [];
  areas = station ∷ [];
  plans = [];
  members = [];
  fixes = [];
  events = [];
}

abbrev calm : StoreFaults
calm = record { write = false; audit = false }

follow_before : AllFollow 1 2 "search" 9 tables.assignments
unfolding new_assignment
follow_before = ((λ h. (refl, refl)), ((λ h. (refl, refl)), tt))

succeeds : (update_team_task calm tables 1 2 "evacuate" 3 Actor.system (pos 5000)).1 ≡ ok tt
unfolding update_team_task update_team_with resolve_team_snapshot
succeeds = refl

update_team_task-AllFollow_example :
    AllFollow 1 2 "evacuate" 3
      (update_team_task calm tables 1 2 "evacuate" 3 Actor.system (pos 5000)).0.assignments
update_team_task-AllFollow_example =
    update_team_task-AllFollow calm tables 1 2 "search" "evacuate" 9 3 Actor.system (pos 5000)
      follow_before succeeds

follow_team_changes_example :
    (((mission_for "evacuate" second ≡ second.eff_mission)
        × (area_for 3 second ≡ second.eff_area_id))
      × (follow_team "evacuate" 3 second ≡ second))
    ⊎ (((mission_for "evacuate" second ≢ second.eff_mission)
          ⊎ (area_for 3 second ≢ second.eff_area_id))
        × ((follow_team "evacuate" 3 second).eff_mission ≡ mission_for "evacuate" second)
        × ((follow_team "evacuate" 3 second).eff_area_id ≡ area_for 3 second)
        × ((follow_team "evacuate" 3 second).mission_ver ≡ second.mission_ver + 1)
        × ((follow_team "evacuate" 3 second).state ≡ (
            if not (area_for 3 second == second.eff_area_id) && has_arrived second.state
            then moving
            else second.state))
        × ((follow_team "evacuate" 3 second).arrived_at ≡ (
            if not (area_for 3 second == second.eff_area_id) && has_arrived second.state
            then none
            else second.arrived_at)))
follow_team_changes_example = follow_team_changes "evacuate" 3 second
