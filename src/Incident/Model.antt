-- ===== src/Incident/Model.antt =====
-- internal/incident/model.go: assignment states, and the rows of the incident tables.
use emergency_callup.Prelude.{ℕ, Bool, true, false, List, Option, String}
use emergency_callup.Audit.{Actor}
use emergency_callup.Prelude.Int.{ℤ, pos, ltb_ℤ}

-- Assignment states.
pub data State : Type 0 where
  notified logged_in loc_denied moving arrived left : State

-- What the field API reports: an assignment state, or one of the three other values.
pub data Status : Type 0 where
  assigned : State → Status
  idle none_assigned closed : Status

pub data IncidentStatus : Type 0 where
  active closed : IncidentStatus

-- A row of `incident`; `closed_at` is 0 if it is not closed.
pub record Incident : Type 0 where
  pub id : ℕ
  pub type_text : String
  pub message : String
  pub status : IncidentStatus
  pub version : ℕ
  pub opened_by : Actor
  pub opened_at : ℤ
  pub closed_by : Option Actor
  pub closed_at : ℤ

pub record Checkpoint (F : Type 0) : Type 0 where
  pub seq : ℕ
  pub name : String
  pub lat : F
  pub lng : F
  pub addr : String
  pub radius_m : ℕ

-- A row of `team_task`, with the rally point and checkpoints copied from the plan.
pub record TeamTask (F : Type 0) : Type 0 where
  pub incident_id : ℕ
  pub team_no : ℕ
  pub mission : String
  pub area_id : ℕ
  pub version : ℕ
  pub updated_by : Actor
  pub updated_at : ℤ
  pub rally_lat : F
  pub rally_lng : F
  pub checkpoints : List (Checkpoint F)

-- A row of `team_plan` with its checkpoints; `area_id` 0 is none set.
pub record TeamPlan (F : Type 0) : Type 0 where
  pub team_no : ℕ
  pub mission : String
  pub area_id : ℕ
  pub rally_lat : Option F
  pub rally_lng : Option F
  pub rally_addr : String
  pub checkpoints : List (Checkpoint F)
  pub updated_by : Option Actor
  pub updated_at : ℤ

-- The columns of `member` that this package reads; team and area 0 are null.
pub record PeacetimeMember : Type 0 where
  pub id : ℕ
  pub name : String
  pub team_no : ℕ
  pub mission : String
  pub area_id : ℕ
  pub active : Bool

-- A row of `assignment`. Times are UTC milliseconds; an absent column is `none`.
pub record Assignment : Type 0 where
  pub incident_id : ℕ
  pub member_id : ℕ
  pub team_no : ℕ
  pub mission_override : Option String
  pub area_override_id : Option ℕ
  pub eff_mission : String
  pub eff_area_id : ℕ
  pub mission_ver : ℕ
  pub ack_ver : ℤ  -- the client sends it, so it may be negative
  pub state : State
  pub first_login_at : Option ℤ
  pub arrived_at : Option ℤ
  pub last_left_at : Option ℤ
  pub left_count : ℕ
  pub last_lat5 : Option ℤ
  pub last_lng5 : Option ℤ
  pub last_acc : Option ℤ
  pub last_fix_at : Option ℤ
  pub suspect : Bool

unfoldable pub ack_pending : Assignment → Bool
ack_pending a = ltb_ℤ a.ack_ver (pos a.mission_ver)

-- `state == StateNotified`
unfoldable pub is_notified : State → Bool
is_notified notified = true
is_notified _ = false

-- ARRIVED or LEFT: the states that an area change takes back to MOVING.
unfoldable pub has_arrived : State → Bool
has_arrived arrived = true
has_arrived left = true
has_arrived _ = false

-- A row of the history table `fix`.
pub record FixRow : Type 0 where
  pub incident_id : ℕ
  pub member_id : ℕ
  pub ts : ℤ
  pub lat5 : ℤ
  pub lng5 : ℤ
  pub acc : ℤ
