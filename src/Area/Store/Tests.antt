-- ===== src/Area/Store/Tests.antt =====
-- A table of two areas, one of them used by the active incident.
use emergency_callup.Prelude.{
  ◌≤◌, true, false, List, [], ◌∷◌, none, ◌≡◌, ◌≢◌, refl, subst, arith, str_eq, eq_iff, Bool-cases,
  inl, inr,
}
use emergency_callup.Prelude.Int.{ℤ, pos, ltb_ℤ, leb_ℤ}
use emergency_callup.Floats.Fixed.{fixed}
use emergency_callup.Area.Geo.{Point, circle_bbox, validate_circle}
use emergency_callup.Area.Row.{Kind, Row, r_eq}
use emergency_callup.Audit.{system}
use emergency_callup.Incident.Model.{active}
use emergency_callup.Incident.Tables.{Tables, area_by_id}
use emergency_callup.Area.Store.{
  ok, next_id, upsert, in_use, err, area_in_use, Outcome, database_error,
}
use emergency_callup.Area.Store.Write.{Faults, update_circle, create_circle, circle_geometry}
use emergency_callup.Area.Store.Measured.{AllMeasured, perform_all-AllMeasured}
use emergency_callup.Area.Store.Created.{
  Shape, created, validation, geometry_for, ReadBack, created-ReadBack,
}
use emergency_callup.Area.Store.Change.{Changes, NamesDiffer, Keeps, active_named}
use emergency_callup.Area.Store.Refines.{
  Operation, circle_creation, polygon_creation, circle_update, circle_copy, deactivation,
  grid_creation, perform, perform_all, perform-Changes, perform_all-NamesDiffer, perform_all-Keeps,
}
use emergency_callup.Area.Store.Answers.{panics, perform_returns}
use emergency_callup.Tracker.Judge.Tests.{station}

abbrev depot : Row ℤ
depot = record station { id = 5; name = "depot" }

abbrev tables : Tables ℤ
tables = record {
  incidents =
      record {
        id = 1;
        type_text = "";
        message = "";
        status = active;
        version = 1;
        opened_by = system;
        opened_at = pos 0;
        closed_by = none;
        closed_at = pos 0;
      }
      ∷ [];
  team_tasks =
      record {
        incident_id = 1;
        team_no = 2;
        mission = "";
        area_id = 3;
        version = 1;
        updated_by = system;
        updated_at = pos 0;
        rally_lat = pos 0;
        rally_lng = pos 0;
        checkpoints = [];
      }
      ∷ [];
  assignments = [];
  areas = station ∷ depot ∷ [];
  plans = [];
  members = [];
  fixes = [];
  events = [];
}

abbrev here : Point ℤ
here = record { lat = pos 36000000; lng = pos 127000000 }

abbrev sound : Faults
sound = record { write = false; retire = false }

abbrev operations : List (Operation fixed)
operations =
    circle_update false 3 "moved" here (pos 100) none (pos 9)
    ∷ circle_copy sound 3 "station 2" here (pos 100) none (pos 9)
    ∷ circle_creation false "depot" here (pos 100) none (pos 9)
    ∷ deactivation false 5
    ∷ polygon_creation false "none" [] none (pos 9)
    ∷ []

used : (update_circle fixed false tables 3 "moved" here (pos 100) none (pos 9)).1 ≡ err area_in_use
unfolding update_circle
used = refl

perform-Changes_example :
    Changes
      (in_use tables)
      tables.areas
      (perform fixed tables (circle_copy sound 5 "depot 2" here (pos 100) none (pos 9)))
perform-Changes_example =
    perform-Changes fixed tables (circle_copy sound 5 "depot 2" here (pos 100) none (pos 9))

two_names : NamesDiffer tables.areas
unfolding active_named
two_names name = elim (Bool-cases (str_eq "station" name)) [
  | inl e ↦ subst (λ n. active_named n tables.areas ≤ 1) ((eq_iff "station" name).0 e) (omega arith)
  | inr e ↦ ground (arith, e)
]

perform_all-NamesDiffer_example : NamesDiffer (perform_all fixed tables operations)
perform_all-NamesDiffer_example = perform_all-NamesDiffer fixed tables operations two_names

perform_all-Keeps_example : Keeps 3 station (perform_all fixed tables operations)
unfolding in_use area_by_id
perform_all-Keeps_example =
    perform_all-Keeps fixed tables operations 3 station refl (station, refl, refl)

has_radius : (r : Row ℤ) → r.kind ≡ Kind.circle → r_eq fixed r ≢ none
unfolding r_eq
has_radius r e h = absurd (ground (arith, e, h))

perform_all-AllMeasured_example : AllMeasured fixed (perform_all fixed tables operations)
perform_all-AllMeasured_example =
    perform_all-AllMeasured fixed tables operations
      (has_radius station refl, (has_radius depot refl, tt))

perform_returns_example :
    panics fixed tables (grid_creation false "none" 100 [] none (pos 9)) ≡ false
perform_returns_example =
    perform_returns fixed tables (grid_creation false "none" 100 [] none (pos 9))

abbrev gate : Shape fixed
gate = Shape.circle here (pos 100)

abbrev added : List (Row ℤ) × Outcome (Row ℤ)
added = created fixed false tables.areas "gate" gate none (pos 9)

abbrev gate_row : Row ℤ
gate_row = record {
  id = 6;
  name = "gate";
  kind = Kind.circle;
  lat = here.lat;
  lng = here.lng;
  radius_m = pos 100;
  polygon = [];
  grid_size = 0;
  cells = [];
  nav_lat = here.lat;
  nav_lng = here.lng;
  bbox = circle_bbox fixed here (pos 100);
  active = true;
  created_at = pos 9;
}

gate_added : added.1 ≡ ok gate_row
unfolding create_circle validate_circle ltb_ℤ leb_ℤ area_by_id
gate_added = refl

created-ReadBack_example :
    (validation fixed gate ≡ none)
    × ReadBack fixed tables.areas "gate" (geometry_for fixed gate) none added.0 gate_row
created-ReadBack_example =
    created-ReadBack fixed false tables.areas "gate" gate none (pos 9) gate_row gate_added

-- The schema refuses what the validation would have let pass.
too_small :
    (upsert
      (pos 0)
      false
      tables.areas
      0
      "gate"
      (circle_geometry fixed here (pos 10))
      here
      station.bbox
      (pos 9)).1
    ≡ err database_error
unfolding upsert circle_geometry leb_ℤ
too_small = refl

sixth : next_id tables.areas ≡ 6
unfolding next_id
sixth = refl
