-- ===== src/Tracker/Process/Tests.antt =====
-- One member's fix processed on a server that has the member and the area loaded.
use mathlib.Core.List.{Memᴰ}
use emergency_callup.Prelude.{ℕ, arith, true, false, [], ◌∷◌, none, some, ◌≡◌, ◌≢◌, refl}
use emergency_callup.Prelude.Int.{ℤ, pos, leb_ℤ, ltb_ℤ, eq_ℤ, ◌+ℤ◌, ◌-ℤ◌}
use emergency_callup.Prelude.Dict
use emergency_callup.Floats.Fixed.{fixed}
use emergency_callup.Area.Row.{r_eq, signed_distance}
use emergency_callup.Area.Geo.{signed_distance_circle, haversine, radians, in_korea}
use emergency_callup.Incident.Tables.{
  assignment_of, is_row_of, active_incident, is_active, area_by_id, assignments_of,
}
use emergency_callup.Incident.Model.{IncidentStatus}
use emergency_callup.Audit.{Actor}
use emergency_callup.Tracker.Judge.{
  Live, mark_logged_in, apply_fix, is_valid_fix, is_suspect, judge, judge_state, judge_arrival,
  judge_departure, start_state, starts_moving, settle_suspect, to_lat5, new_live, is_inside,
  is_away,
}
use emergency_callup.Tracker.Judge.Tests.{station, called, fix_at, idle_member}
use emergency_callup.Tracker.Interval.{new_load_monitor}
use emergency_callup.Tracker.Process.{
  Tracker, Faults, replied, failed, panicked, process_fix, process_live, sync_flush, judged_fix,
  record_events, unix_milli, sync, load_active, load_areas, to_snapshot, snapshot_since, bump,
}
use emergency_callup.Tracker.Process.Rows.{IsLoaded}
use emergency_callup.Tracker.Process.Loaded.{Request, after_fixes, load_active_no_panic}
use emergency_callup.Tracker.Process.Delta.{process_fix-snapshot_since}
use emergency_callup.Tracker.Process.Durable.{IsDurable, process_fix-IsDurable}

abbrev pub server : Tracker ℤ
server = record {
  tables = record {
    incidents = [];
    team_tasks = [];
    assignments = called ∷ [];
    areas = station ∷ [];
    plans = [];
    members = [];
    fixes = [];
    events = [];
  };
  live = (7, idle_member) ∷ [];
  area_cache = (3, station) ∷ [];
  incident_id = 1;
  inc_version = 1;
  seq = 0;
  load = new_load_monitor;
}

abbrev calm : Faults
calm = record {
  query_fails = false;
  update_fails = false;
  insert_fails = false;
  audit_fails = false;
}

member_of :
    (key : ℕ) (l : Live ℤ) → Dict.lookup key server.live ≡ some l → (key ≡ 7) × (l ≡ idle_member)
unfolding Dict.lookup
member_of key l h = ground (arith, h)

server-IsLoaded : IsLoaded fixed server
unfolding r_eq Dict.lookup new_live
server-IsLoaded = record {
  measured = λ key l h. let (k, e) = member_of key l h in rw e (station, _, refl, refl);
}

server-IsDurable : IsDurable server
unfolding assignment_of is_row_of new_live
server-IsDurable = record {
  at = λ key l h. let (k, e) = member_of key l h in rw (e, k) (refl, (called, refl, refl));
}

abbrev request : Request ℤ
request = record {
  member_id = 7;
  fix = fix_at (pos 36000000) (pos 1000000);
  now = pos 1000000000000;
  faults = calm;
}

abbrev ongoing : Tracker ℤ
ongoing = record server {
  tables = record server.tables {
    incidents =
        record {
          id = 1;
          type_text = "fire";
          message = "gather";
          status = IncidentStatus.active;
          version = 1;
          opened_by = Actor.system;
          opened_at = pos 0;
          closed_by = none;
          closed_at = pos 0;
        }
        ∷ [];
  };
  live = [];
  area_cache = [];
}

measured : r_eq fixed station ≢ none
unfolding r_eq
measured = λ e. ground (arith, e)

loads : (load_active fixed ongoing calm).1 ≡ true
unfolding load_active active_incident is_active area_by_id assignments_of load_areas
loads = refl

load_active_no_panic_example :
    let s = after_fixes fixed (load_active fixed ongoing calm).0 (request ∷ request ∷ []) in
    ((process_fix fixed s 7 (fix_at (pos 36000000) (pos 1000000)) (pos 1000000000000) calm).1
      ≢ panicked)
    × (sync fixed s 7 (pos 1000000000000) calm ≢ panicked)
load_active_no_panic_example =
    load_active_no_panic fixed ongoing calm (request ∷ request ∷ []) request (measured, tt) loads

reply_differs : {A : Type 0} (r : A) → replied r ≢ failed
reply_differs r = λ e. cc

answered :
    (process_fix fixed server 7 (fix_at (pos 36000000) (pos 1000000)) (pos 1000000000000) calm).1
    ≢ failed
unfolding process_fix process_live sync_flush judged_fix record_events unix_milli Dict.lookup r_eq
    apply_fix is_valid_fix is_suspect judge judge_state judge_arrival judge_departure start_state
    starts_moving settle_suspect is_inside is_away signed_distance signed_distance_circle haversine
    radians leb_ℤ ltb_ℤ eq_ℤ ◌+ℤ◌ ◌-ℤ◌ to_lat5 new_live in_korea mark_logged_in
answered = reply_differs _

process_fix-IsDurable_example :
    IsDurable
      (process_fix fixed server 7 (fix_at (pos 36000000) (pos 1000000)) (pos 1000000000000) calm).0
process_fix-IsDurable_example =
    process_fix-IsDurable fixed server 7 server-IsDurable (pos 1000000000000) calm
      (fix_at (pos 36000000) (pos 1000000)) server-IsLoaded answered

lives : Dict.lookup 7 server.live ≡ some idle_member
unfolding Dict.lookup
lives = refl

-- The row that the fix leaves.
abbrev row_after : Live ℤ
row_after =
    record (judged_fix fixed idle_member (fix_at (pos 36000000) (pos 1000000)) station
      (pos 1000000000000)).live { seq_at = 1; dirty = false }

leaves :
    Dict.lookup 7
      (process_fix fixed server 7
        (fix_at (pos 36000000) (pos 1000000))
        (pos 1000000000000)
        calm).0.live
    ≡ some row_after
unfolding process_fix process_live sync_flush judged_fix record_events unix_milli Dict.lookup r_eq
    apply_fix is_valid_fix is_suspect judge judge_state judge_arrival judge_departure start_state
    starts_moving settle_suspect is_inside is_away signed_distance signed_distance_circle haversine
    radians leb_ℤ ltb_ℤ eq_ℤ ◌+ℤ◌ ◌-ℤ◌ to_lat5 new_live in_korea mark_logged_in Dict.insert bump
leaves = refl

is_moved : row_after.state ≢ idle_member.state
unfolding process_fix process_live sync_flush judged_fix record_events unix_milli Dict.lookup r_eq
    apply_fix is_valid_fix is_suspect judge judge_state judge_arrival judge_departure start_state
    starts_moving settle_suspect is_inside is_away signed_distance signed_distance_circle haversine
    radians leb_ℤ ltb_ℤ eq_ℤ ◌+ℤ◌ ◌-ℤ◌ to_lat5 new_live in_korea mark_logged_in
is_moved = λ e. ground (arith, e)

process_fix-snapshot_since_example :
    ((process_fix fixed server 7
        (fix_at (pos 36000000) (pos 1000000))
        (pos 1000000000000)
        calm).0.seq
      ≡ 1)
    × Memᴰ (to_snapshot row_after) (
        snapshot_since 0
          (process_fix fixed server 7
            (fix_at (pos 36000000) (pos 1000000))
            (pos 1000000000000)
            calm).0.live)
process_fix-snapshot_since_example =
    process_fix-snapshot_since fixed server 7 idle_member row_after
      (fix_at (pos 36000000) (pos 1000000)) (pos 1000000000000) calm server-IsLoaded (omega arith)
      lives leaves is_moved
