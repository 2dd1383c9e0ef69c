-- ===== src/Incident/Tables.antt =====
-- The tables that internal/incident and internal/tracker share, and the statements they run on them.
pub mod Rows
use emergency_callup.Prelude.{
  ℕ, Bool, true, false, ◌&&◌, List, [], ◌∷◌, Option, none, some, ◌==◌, if◌then◌else◌,
}
use emergency_callup.Prelude.Int.{ℤ, leb_ℤ}
use emergency_callup.Audit.{AuditRow}
use emergency_callup.Area.Row.{Row}
use emergency_callup.Incident.Model.{
  Incident, IncidentStatus, active, closed, TeamTask, TeamPlan, PeacetimeMember, Assignment, FixRow,
}

pub record Tables (F : Type 0) : Type 0 where
  pub incidents : List Incident
  pub team_tasks : List (TeamTask F)
  pub assignments : List Assignment
  pub areas : List (Row F)
  pub plans : List (TeamPlan F)
  pub members : List PeacetimeMember
  pub fixes : List FixRow
  pub events : List AuditRow

unfoldable pub is_active : IncidentStatus → Bool
is_active active = true
is_active closed = false

-- `SELECT ... FROM incident WHERE status = 'active'`
unfoldable pub active_incident : List Incident → Option Incident
unfolding is_active
active_incident [] = none
active_incident (i ∷ rest) = if is_active i.status then some i else active_incident rest

unfoldable pub incident_by_id : ℕ → List Incident → Option Incident
incident_by_id id [] = none
incident_by_id id (i ∷ rest) = if i.id == id then some i else incident_by_id id rest

-- `Store.GetByID` of internal/area.
unfoldable pub area_by_id : {F : Type 0} → ℕ → List (Row F) → Option (Row F)
area_by_id id [] = none
area_by_id id (r ∷ rest) = if r.id == id then some r else area_by_id id rest

-- `WHERE incident_id=? AND member_id=?`
unfoldable pub is_row_of : ℕ → ℕ → Assignment → Bool
is_row_of incident_id member_id a = a.incident_id == incident_id && a.member_id == member_id

unfoldable pub assignment_of : ℕ → ℕ → List Assignment → Option Assignment
unfolding is_row_of
assignment_of incident_id member_id [] = none
assignment_of incident_id member_id (a ∷ rest) =
    if is_row_of incident_id member_id a then some a else assignment_of incident_id member_id rest

-- `UPDATE assignment SET ... WHERE incident_id=? AND member_id=?`
unfoldable pub update_assignment :
    ℕ → ℕ → (Assignment → Assignment) → List Assignment → List Assignment
unfolding is_row_of
update_assignment incident_id member_id change [] = []
update_assignment incident_id member_id change (a ∷ rest) =
    (if is_row_of incident_id member_id a then change a else a)
    ∷ update_assignment incident_id member_id change rest

-- `WHERE incident_id=?`
unfoldable pub assignments_of : ℕ → List Assignment → List Assignment
assignments_of incident_id [] = []
assignments_of incident_id (a ∷ rest) =
    let others = assignments_of incident_id rest in
    if a.incident_id == incident_id then a ∷ others else others

-- `Store.LatestClosedIncidentForMember`: the joined rows by descending `closed_at`. Of several with
-- the same time the first is taken.
later_closed : Option Incident → Incident → Option Incident
later_closed none i = some i
later_closed (some best) i = if leb_ℤ i.closed_at best.closed_at then some best else some i

is_some : {A : Type 0} → Option A → Bool
is_some none = false
is_some (some a) = true

latest_closed_from : Option Incident → ℕ → List Assignment → List Incident → Option Incident
unfolding later_closed assignment_of is_active is_some
latest_closed_from best member_id assignments [] = best
latest_closed_from best member_id assignments (i ∷ rest) =
    latest_closed_from
      (if is_some (assignment_of i.id member_id assignments)
        then (if is_active i.status then best else later_closed best i)
        else best)
      member_id assignments rest

unfoldable pub latest_closed : ℕ → List Assignment → List Incident → Option Incident
unfolding latest_closed_from
latest_closed member_id assignments incidents =
    latest_closed_from none member_id assignments incidents
