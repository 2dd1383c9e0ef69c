-- ===== src/Incident/Open/Tests.antt =====
-- An incident that is opened, corrected and closed.
use emergency_callup.Prelude.{◌≤◌, arith, false, List, [], ◌∷◌, ◌≡◌, refl, none, some}
use emergency_callup.Prelude.Int.{ℤ, pos}
use emergency_callup.Audit.{Actor}
use emergency_callup.Incident.Model.{Incident, IncidentStatus}
use emergency_callup.Incident.Tables.{Tables, is_active}
use emergency_callup.Incident.Store.{StoreFaults, ok, close_incident}
use emergency_callup.Incident.Open.Single.{
  Operation, opening, correction, count_active, perform_all, single_incident,
}
use emergency_callup.Tracker.Judge.Tests.{station}

abbrev tables : Tables ℤ
tables = record {
  incidents = [];
  team_tasks = [];
  assignments = [];
  areas = station ∷ [];
  plans = [];
  members = [];
  fixes = [];
  events = [];
}

abbrev calm : StoreFaults
calm = record { write = false; audit = false }

abbrev day : List Operation
day =
    opening calm "fire" "gather" (record { no = 2; mission = "search"; area_id = 3 } ∷ []) []
      Actor.system (pos 5000)
    ∷ opening calm "flood" "gather" (record { no = 2; mission = "search"; area_id = 3 } ∷ []) []
        Actor.system (pos 6000)
    ∷ correction calm (some "forest fire") none Actor.system (pos 7000)
    ∷ []

single_incident_example : count_active (perform_all tables day).incidents ≤ 1
single_incident_example = single_incident tables day (ground arith)

abbrev fire : Incident
fire = record {
  id = 1;
  type_text = "fire";
  message = "gather";
  status = IncidentStatus.active;
  version = 1;
  opened_by = Actor.system;
  opened_at = pos 5000;
  closed_by = none;
  closed_at = pos 0;
}

abbrev burning : Tables ℤ
burning = record tables { incidents = fire ∷ [] }

one_burns : count_active burning.incidents ≤ 1
unfolding is_active
one_burns = ground arith

closes :
    (close_incident calm burning Actor.system (pos 9000)).1
    ≡ ok (record fire {
      status = IncidentStatus.closed;
      closed_by = some Actor.system;
      closed_at = pos 9000;
    })
unfolding close_incident
closes = refl
