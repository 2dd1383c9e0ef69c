-- ===== src/Tracker/Judge.antt =====
-- internal/tracker/judge.go: fix validation, suspect detection, and the arrival and departure state
-- machine of one member. The proofs are in the modules below.
pub mod Steps
pub mod Reached
pub mod Owner
pub mod Dwell
pub mod Progress
pub mod Tests
use emergency_callup.Prelude.{
  ℕ, zero, suc, ◌+◌, Bool, true, false, not, ◌&&◌, ◌||◌, List, [], ◌∷◌, Option, none, some, String,
  leb, ◌==◌, if◌then◌else◌,
}
use emergency_callup.Prelude.Int.{ℤ, pos, ◌+ℤ◌, ◌-ℤ◌, ltb_ℤ, leb_ℤ, eq_ℤ}
use emergency_callup.Floats.{Floats}
use emergency_callup.Area.Geo.{Point, haversine, in_korea}
use emergency_callup.Area.Row.{Row, signed_distance}
use emergency_callup.Incident.Model.{
  State, notified, logged_in, loc_denied, moving, arrived, left, Assignment, is_notified,
  has_arrived,
}

pub record Fix (F : Type 0) : Type 0 where
  pub lat : F
  pub lng : F
  pub acc : ℤ  -- meters
  pub ts : ℤ  -- client-reported UTC ms

-- Accuracy at most 100 m, and a timestamp from 120 s before to 30 s after the server's clock.
unfoldable pub is_valid_fix : {F : Type 0} → Fix F → ℤ → Bool
is_valid_fix f server_now =
    if ltb_ℤ (pos 100) f.acc
    then false
    else if ltb_ℤ f.ts (server_now -ℤ pos 120000) || ltb_ℤ (server_now +ℤ pos 30000) f.ts
    then false
    else true

-- Times of 0 are unset.
pub record Live (F : Type 0) : Type 0 where
  pub incident_id : ℕ
  pub member_id : ℕ
  pub team_no : ℕ
  pub eff_area_id : ℕ
  pub eff_mission : String
  pub mission_ver : ℕ
  pub ack_ver : ℤ
  pub state : State
  pub first_login_at : ℤ
  pub arrived_at : ℤ
  pub last_left_at : ℤ
  pub left_count : ℕ
  pub last_lat5 : ℤ
  pub last_lng5 : ℤ
  pub last_acc : ℤ
  pub last_fix_at : ℤ
  pub suspect : Bool
  pub has_last_fix : Bool
  pub arrive_count : ℕ
  pub arrive_first_ts : ℤ
  pub leave_count : ℕ
  pub leave_first_ts : ℤ
  pub suspect_clear : ℕ
  pub has_last_valid : Bool
  pub last_valid_lat : F
  pub last_valid_lng : F
  pub last_valid_ts : ℤ
  pub dirty : Bool
  pub seq_at : ℕ

pub data Event : Type 0 where
  arrived_event left_event returned_event suspect_event : Event

abbrev or_zero : Option ℤ → ℤ
or_zero none = pos 0
or_zero (some t) = t

abbrev is_some : Option ℤ → Bool
is_some none = false
is_some (some t) = true

-- NOTIFIED -> LOGGED_IN on the first authenticated request.
unfoldable pub mark_logged_in : {F : Type 0} → Live F → ℤ → Live F
unfolding is_notified
mark_logged_in l now =
    if is_notified l.state
    then record l { state = logged_in; first_login_at = now; dirty = true }
    else if eq_ℤ l.first_login_at (pos 0)
    then record l { first_login_at = now; dirty = true }
    else l

denied_from : {F : Type 0} → State → Live F → Live F
denied_from notified l = record l { state = loc_denied; dirty = true }
denied_from logged_in l = record l { state = loc_denied; dirty = true }
denied_from _ l = l

unfoldable pub mark_loc_denied : {F : Type 0} → Live F → Live F
unfolding denied_from
mark_loc_denied l = denied_from l.state l

-- The result of `ApplyFix`, with the mutated row.
pub record Verdict (F : Type 0) : Type 0 where
  pub live : Live F
  pub transitioned : Bool
  pub events : List Event

-- A suspect flag is lifted by the second fix in a row that is not suspect itself.
unfoldable pub settle_suspect : {F : Type 0} → Live F → Live F
settle_suspect l =
    if l.suspect
    then (if leb 2 (l.suspect_clear + 1)
        then record l { suspect = false; suspect_clear = 0 }
        else record l { suspect_clear = l.suspect_clear + 1 })
    else l

-- NOTIFIED, LOGGED_IN and LOC_DENIED become MOVING.
unfoldable pub start_state : State → State
start_state notified = moving
start_state logged_in = moving
start_state loc_denied = moving
start_state s = s

unfoldable pub starts_moving : State → Bool
starts_moving notified = true
starts_moving logged_in = true
starts_moving loc_denied = true
starts_moving _ = false

-- The case MOVING, LEFT of the switch; `inside` is `sd <= 0`.
unfoldable pub judge_arrival : {F : Type 0} → Live F → Bool → ℤ → Event → Bool → Verdict F
judge_arrival l inside ts event transitioned =
    if inside
    then (if l.arrive_count == 0
        then record {
          live = record l { arrive_count = 1; arrive_first_ts = ts };
          transitioned = transitioned;
          events = [];
        }
        else if leb_ℤ (pos 10000) (ts -ℤ l.arrive_first_ts)
        then record {
          live = record l {
            state = arrived;
            arrived_at = l.arrive_first_ts;
            arrive_count = 0;
            leave_count = 0;
          };
          transitioned = true;
          events = event ∷ [];
        }
        else record {
          live = record l { arrive_count = l.arrive_count + 1 };
          transitioned = transitioned;
          events = [];
        })
    else record { live = record l { arrive_count = 0 }; transitioned = transitioned; events = [] }

-- The case ARRIVED of the switch; `away` is `sd > threshold`.
unfoldable pub judge_departure : {F : Type 0} → Live F → Bool → ℤ → Bool → Verdict F
judge_departure l away ts transitioned =
    if away
    then (if l.leave_count == 0
        then record {
          live = record l { leave_count = 1; leave_first_ts = ts };
          transitioned = transitioned;
          events = [];
        }
        else if leb_ℤ (pos 30000) (ts -ℤ l.leave_first_ts)
        then record {
          live = record l {
            state = left;
            last_left_at = ts;
            left_count = l.left_count + 1;
            leave_count = 0;
            arrive_count = 0;
          };
          transitioned = true;
          events = left_event ∷ [];
        }
        else record {
          live = record l { leave_count = l.leave_count + 1 };
          transitioned = transitioned;
          events = [];
        })
    else record { live = record l { leave_count = 0 }; transitioned = transitioned; events = [] }

-- The switch on the state after a possible start.
unfoldable pub judge_state : {F : Type 0} → State → Live F → Bool → Bool → ℤ → Bool → Verdict F
unfolding judge_arrival judge_departure
judge_state moving l inside away ts transitioned =
    judge_arrival l inside ts arrived_event transitioned
judge_state left l inside away ts transitioned =
    judge_arrival l inside ts returned_event transitioned
judge_state arrived l inside away ts transitioned = judge_departure l away ts transitioned
judge_state _ l inside away ts transitioned = record {
  live = l;
  transitioned = transitioned;
  events = [];
}

-- The part of `ApplyFix` for a fix that is valid and not suspect.
unfoldable pub judge : {F : Type 0} → Live F → Bool → Bool → ℤ → Verdict F
unfolding settle_suspect start_state starts_moving judge_state
judge l inside away ts =
    let settled = settle_suspect l in
    judge_state (start_state settled.state) (record settled { state = start_state settled.state })
      inside away ts (starts_moving settled.state)

pub flag_suspect : {F : Type 0} → Live F → Verdict F
flag_suspect l = record {
  live = record l { suspect = true; suspect_clear = 0 };
  transitioned = false;
  events = if l.suspect then [] else suspect_event ∷ [];
}

module _ (fl : Floats) where
  open fl use {F, mul, div, lt, le, of_int, lit, max, round_int}

  unfoldable pub to_lat5 : F → ℤ
  to_lat5 v = round_int (mul v (lit 100000 0))

  -- The update of `last_*`, made for every fix.
  abbrev pub store_position : Live F → Fix F → ℤ → Live F
  store_position l f now = record l {
    last_lat5 = to_lat5 f.lat;
    last_lng5 = to_lat5 f.lng;
    last_acc = f.acc;
    last_fix_at = now;
    has_last_fix = true;
    dirty = true;
  }

  abbrev pub point_of : Fix F → Point F
  point_of f = record { lat = f.lat; lng = f.lng }

  -- Out of Korea, or faster than 55 m/s since the fix before.
  unfoldable pub is_suspect : Live F → Fix F → Bool
  is_suspect l f =
      if in_korea fl (point_of f)
      then (if l.has_last_valid
          then (let dt_sec = div (of_int (f.ts -ℤ l.last_valid_ts)) (lit 1000 0) in
              if lt (of_int (pos 0)) dt_sec
              then (let dist =
                    haversine fl (record { lat = l.last_valid_lat; lng = l.last_valid_lng })
                      (point_of f) in
                  let speed = div dist dt_sec in lt (lit 55 0) speed)
              else false)
          else false)
      else true

  -- The fix becomes the reference point of the next one, suspect or not.
  abbrev pub remember : Live F → Fix F → Live F
  remember l f = record l {
    last_valid_lat = f.lat;
    last_valid_lng = f.lng;
    last_valid_ts = f.ts;
    has_last_valid = true;
  }

  -- `sd <= 0`
  unfoldable pub is_inside : Row F → Fix F → Bool
  is_inside ar f = le (signed_distance fl ar (point_of f)) (of_int (pos 0))

  -- `sd > math.Max(30, float64(f.Acc))`
  unfoldable pub is_away : Row F → Fix F → Bool
  is_away ar f = lt (max (of_int (pos 30)) (of_int f.acc)) (signed_distance fl ar (point_of f))

  unfoldable pub apply_fix : Live F → Fix F → Row F → ℤ → Verdict F
  apply_fix l f ar now =
      let stored = store_position l f now in
      if is_valid_fix f now
      then (if is_suspect stored f
          then flag_suspect (remember stored f)
          else judge (remember stored f) (is_inside ar f) (is_away ar f) f.ts)
      else record { live = stored; transitioned = false; events = [] }

  -- `NewLive`. The last valid position of a fresh row is not read while `has_last_valid` is false.
  unfoldable pub new_live : Assignment → Live F
  new_live a = record {
    incident_id = a.incident_id;
    member_id = a.member_id;
    team_no = a.team_no;
    eff_area_id = a.eff_area_id;
    eff_mission = a.eff_mission;
    mission_ver = a.mission_ver;
    ack_ver = a.ack_ver;
    state = a.state;
    first_login_at = or_zero a.first_login_at;
    arrived_at = or_zero a.arrived_at;
    last_left_at = or_zero a.last_left_at;
    left_count = a.left_count;
    last_lat5 = or_zero a.last_lat5;
    last_lng5 = or_zero a.last_lng5;
    last_acc = or_zero a.last_acc;
    last_fix_at = or_zero a.last_fix_at;
    suspect = a.suspect;
    has_last_fix = is_some a.last_lat5;
    arrive_count = 0;
    arrive_first_ts = pos 0;
    leave_count = 0;
    leave_first_ts = pos 0;
    suspect_clear = 0;
    has_last_valid = false;
    last_valid_lat = of_int (pos 0);
    last_valid_lng = of_int (pos 0);
    last_valid_ts = pos 0;
    dirty = false;
    seq_at = 0;
  }

-- `ApplyMissionChange`
pub apply_mission_change : {F : Type 0} → Live F → String → ℕ → ℕ → Live F
unfolding has_arrived
apply_mission_change l mission area_id ver =
    let changed = record l {
      eff_mission = mission;
      eff_area_id = area_id;
      mission_ver = ver;
      dirty = true;
    } in
    if not (area_id == l.eff_area_id) && has_arrived l.state
    then record changed { state = moving; arrived_at = pos 0; arrive_count = 0; leave_count = 0 }
    else changed
