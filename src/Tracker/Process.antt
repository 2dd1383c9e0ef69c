-- ===== src/Tracker/Process.antt =====
-- internal/tracker/tracker.go: the live rows of the active incident, the handling of a fix and of the
-- other requests of a member, and the batch writer. The proofs are in the modules below.
-- A request runs to its end before the next one starts. What a statement of the database does when
-- it fails is in `Faults`, an argument of every operation that writes.
pub mod Rows
pub mod Durable
pub mod Delta
pub mod Loaded
pub mod Tests
use emergency_callup.Prelude.{
  ℕ, zero, suc, ◌+◌, ◌*◌, ◌/◌, ◌%◌, ◌^◌, Bool, true, false, not, ◌&&◌, ◌||◌, List, [], ◌∷◌, ◌++◌,
  Option, none, some, String, ltb, ◌==◌, if◌then◌else◌,
}
use emergency_callup.Prelude.Int.{ℤ, pos, negsuc, ◌-ℤ◌, ltb_ℤ, leb_ℤ, eq_ℤ}
use emergency_callup.Prelude.Dict
use mathlib.Core.Option
use emergency_callup.Prelude.Dict.{Dict}
use emergency_callup.Floats.{Floats}
use emergency_callup.Audit.{AuditRow, member, record_event}
use emergency_callup.Area.Geo.{Point, haversine}
use emergency_callup.Area.Row.{Row, signed_distance, r_eq}
use emergency_callup.Incident.Model.{
  State, Status, assigned, idle, none_assigned, closed, Assignment, Incident, is_notified, FixRow,
}
use emergency_callup.Incident.Tables.{
  Tables, active_incident, area_by_id, assignments_of, update_assignment, latest_closed,
}
use emergency_callup.Tracker.Judge.{
  Fix, Live, Event, arrived_event, left_event, returned_event, suspect_event, Verdict,
  mark_logged_in, mark_loc_denied, apply_fix, new_live, point_of,
}
use emergency_callup.Tracker.Interval.{LoadMonitor, next_interval, overloaded}

pub record Tracker (F : Type 0) : Type 0 where
  pub tables : Tables F
  pub live : Dict (Live F)
  pub area_cache : Dict (Row F)
  pub incident_id : ℕ  -- 0 = none active
  pub inc_version : ℕ
  pub seq : ℕ  -- uint64
  pub load : LoadMonitor

-- Which statements of one operation fail.
pub record Faults : Type 0 where
  pub query_fails : Bool
  pub update_fails : Bool
  pub insert_fails : Bool
  pub audit_fails : Bool

pub record FixResult (F : Type 0) : Type 0 where
  pub status : Status
  pub iv : ℕ
  pub mv : ℕ
  pub d : F
  pub n : ℕ
  pub stop : Bool

-- `panicked`: a nil area row is dereferenced, or a polygon without points is measured. The code then has
-- changed the member's row and holds the lock for good; the model gives the tracker as it was before.
pub data Reply {ℓ} (A : Type ℓ) : Type ℓ where
  replied : A → Reply A
  failed : Reply A
  panicked : Reply A

-- `time.UnixMilli` of a time in nanoseconds, rounded down.
unfoldable pub unix_milli : ℤ → ℤ
unix_milli (pos n) = pos (n / 1000000)
unix_milli (negsuc n) = negsuc (n / 1000000)

-- `atomic.AddUint64(&t.seq, 1)`
unfoldable pub bump : ℕ → ℕ
bump seq = (seq + 1) % 2 ^ 64

unfoldable pub event_name : Event → String
event_name arrived_event = "arrived"
event_name left_event = "left"
event_name returned_event = "returned"
event_name suspect_event = "suspect_fix"

-- A time of 0 is written as null.
unfoldable pub nullable : ℤ → Option ℤ
nullable t = if eq_ℤ t (pos 0) then none else some t

-- The columns that `syncFlush` writes.
unfoldable pub flushed : {F : Type 0} → Live F → Assignment → Assignment
unfolding nullable
flushed l a = record a {
  state = l.state;
  first_login_at = nullable l.first_login_at;
  arrived_at = nullable l.arrived_at;
  last_left_at = nullable l.last_left_at;
  left_count = l.left_count;
  last_lat5 = some l.last_lat5;
  last_lng5 = some l.last_lng5;
  last_acc = some l.last_acc;
  last_fix_at = some l.last_fix_at;
  suspect = l.suspect;
}

unfoldable pub record_events : Bool → ℤ → ℕ → ℕ → List Event → List AuditRow → List AuditRow
unfolding event_name record_event
record_events fails ts incident_id member_id [] rows = rows
record_events fails ts incident_id member_id (e ∷ es) rows =
    record_events fails ts incident_id member_id es (
      record_event fails rows (record {
        ts = ts;
        incident_id = some incident_id;
        actor = member member_id;
        kind = event_name e;
        member_id = some member_id;
      }))

-- `syncFlush`: false is an error. The row loses its dirty mark only when all went well.
pub sync_flush : {F : Type 0} → Tracker F → ℕ → Live F → ℤ → List Event → Faults → Tracker F × Bool
unfolding flushed record_events
sync_flush t key l now events faults =
    let tb = t.tables in
    let updated = record tb {
      assignments = update_assignment t.incident_id l.member_id (flushed l) tb.assignments;
    } in
    let inserted = record updated {
      fixes =
          tb.fixes
          ++ record {
            incident_id = t.incident_id;
            member_id = l.member_id;
            ts = l.last_fix_at;
            lat5 = l.last_lat5;
            lng5 = l.last_lng5;
            acc = l.last_acc;
          }
            ∷ [];
      events =
          record_events faults.audit_fails (unix_milli now) t.incident_id l.member_id events
            tb.events;
    } in
    if faults.update_fails
    then (t, false)
    else if faults.insert_fails
    then (record t { tables = updated }, false)
    else (
      record t { tables = inserted; live = Dict.insert key (record l { dirty = false }) t.live },
      true,
    )

module _ (fl : Floats) where
  open fl use {F, add, mul, div, lt, le, of_int, lit, trunc_int}

  sign : F → F
  sign v = if lt v (of_int (pos 0)) then of_int (negsuc 0) else of_int (pos 1)

  pub round1 : F → F
  unfolding sign
  round1 v =
      div (of_int (trunc_int (add (mul v (of_int (pos 10))) (mul (sign v) (lit 5 1))))) (lit 10 0)

  from5 : ℤ → ℤ → Point F
  from5 lat5 lng5 = record {
    lat = div (of_int lat5) (lit 100000 0);
    lng = div (of_int lng5) (lit 100000 0);
  }

  pub haversine5 : ℤ → ℤ → ℤ → ℤ → F
  unfolding from5
  haversine5 lat5a lng5a lat5b lng5b = haversine fl (from5 lat5a lng5a) (from5 lat5b lng5b)

  plain_result : Status → ℕ → Bool → FixResult F
  plain_result status n stop = record {
    status = status;
    iv = 0;
    mv = 0;
    d = of_int (pos 0);
    n = n;
    stop = stop;
  }

  -- `notAssignedResult`; a failed query counts as no closed incident.
  pub not_assigned_result : Tracker F → ℕ → ℤ → Faults → FixResult F
  unfolding plain_result unix_milli
  not_assigned_result t member_id now faults =
      let closed_lately : Bool =
        elim (latest_closed member_id t.tables.assignments t.tables.incidents) [
          | none ↦ false
          | some i ↦ leb_ℤ (unix_milli now -ℤ i.closed_at) (pos 43200000)
        ] in
      if not (t.incident_id == 0)
      then plain_result none_assigned 60 false
      else if not faults.query_fails && closed_lately
      then plain_result closed 0 true
      else plain_result idle 60 false

  -- The result that a member of the incident gets, for the signed distance sd.
  pub result_of : Tracker F → Live F → F → F → ℤ → FixResult F
  result_of t l sd radius now = record {
    status = assigned l.state;
    iv = t.inc_version;
    mv = l.mission_ver;
    d = round1 sd;
    n = next_interval fl l.state sd radius (overloaded fl t.load now);
    stop = false;
  }

  -- The row after `MarkLoggedIn` and `ApplyFix`.
  pub judged_fix : Live F → Fix F → Row F → ℤ → Verdict F
  judged_fix l f ar now = apply_fix fl (mark_logged_in l (unix_milli now)) f ar (unix_milli now)

  pub moved_far : Live F → Live F → Bool
  moved_far before after =
      le (of_int (pos 10))
        (haversine5 before.last_lat5 before.last_lng5 after.last_lat5 after.last_lng5)

  -- The part of `ProcessFix` behind the lookups, for the row l under the member's key.
  pub process_live :
      Tracker F → ℕ → Live F → Fix F → Row F → F → ℤ → Faults → Tracker F × Reply (FixResult F)
  process_live t key l f ar radius now faults =
      let v = judged_fix l f ar now in
      let sd = signed_distance fl ar (point_of fl f) in
      let need_sync = v.transitioned || is_notified l.state in
      let far = not need_sync && l.has_last_fix && moved_far l v.live in
      let seen = need_sync || far || not l.has_last_fix in
      let seq' = if seen then bump t.seq else t.seq in
      let l' = if seen then record v.live { seq_at = bump t.seq } else v.live in
      let t' = record t { live = Dict.insert key l' t.live; seq = seq' } in
      let result = result_of t' l' sd radius now in
      if need_sync
      then (let (t'', done) = sync_flush t' key l' now v.events faults in
          if done then (t'', replied result) else (t'', failed))
      else (t', replied result)

  -- `ProcessFix`
  pub process_fix : Tracker F → ℕ → Fix F → ℤ → Faults → Tracker F × Reply (FixResult F)
  process_fix t member_id f now faults = elim (Dict.lookup member_id t.live) [
    | none ↦ (t, replied (not_assigned_result t member_id now faults))
    | some l ↦ elim (Dict.lookup l.eff_area_id t.area_cache) [
      | none ↦ (t, panicked)
      | some ar ↦ elim (r_eq fl ar) [
        | none ↦ (t, panicked)
        | some radius ↦ process_live t member_id l f ar radius now faults
      ]
    ]
  ]

  -- `Sync`: it changes nothing.
  pub sync : Tracker F → ℕ → ℤ → Faults → Reply (FixResult F)
  sync t member_id now faults = elim (Dict.lookup member_id t.live) [
    | none ↦ replied (not_assigned_result t member_id now faults)
    | some l ↦ elim (Dict.lookup l.eff_area_id t.area_cache) [
      | none ↦ panicked
      | some ar ↦ elim (r_eq fl ar) [
        | none ↦ panicked
        | some radius ↦
            let sd =
              if l.has_last_fix
              then signed_distance fl ar (from5 l.last_lat5 l.last_lng5)
              else add (mul radius (of_int (pos 10))) (of_int (pos 1000)) in
            replied (result_of t l sd radius now)
      ]
    ]
  ]

-- The end of the requests below: the mutated row goes back under its key, and then one UPDATE
-- changes the member's row of the table. False is an error of that statement.
pub write_row :
    {F : Type 0} → Tracker F → ℕ → Live F → (Assignment → Assignment) → Faults → Tracker F × Bool
write_row t key l change faults =
    let tb = t.tables in
    let t' = record t { live = Dict.insert key l t.live } in
    if faults.update_fails then (t', false) else (
      record t' {
        tables = record tb {
          assignments = update_assignment t.incident_id key change tb.assignments;
        };
      },
      true,
    )

-- `Tracker.MarkLoggedIn`
pub mark_member_logged_in : {F : Type 0} → Tracker F → ℕ → ℤ → Faults → Tracker F × Bool
mark_member_logged_in t member_id now faults = elim (Dict.lookup member_id t.live) [
  | none ↦ (t, true)
  | some l ↦
      let l' = record (mark_logged_in l (unix_milli now)) { seq_at = bump t.seq } in
      write_row (record t { seq = bump t.seq }) member_id l'
        (λ a. record a { state = l'.state; first_login_at = some l'.first_login_at }) faults
]

-- `Ack`
pub ack : {F : Type 0} → Tracker F → ℕ → ℤ → Faults → Tracker F × Bool
ack t member_id mv faults = elim (Dict.lookup member_id t.live) [
  | none ↦ (t, true)
  | some l ↦
      write_row t member_id
        (record l { ack_ver = if ltb_ℤ l.ack_ver mv then mv else l.ack_ver; dirty = true })
        (λ a. record a { ack_ver = mv }) faults
]

-- `ConsentDenied`
pub consent_denied : {F : Type 0} → Tracker F → ℕ → Faults → Tracker F × Bool
consent_denied t member_id faults = elim (Dict.lookup member_id t.live) [
  | none ↦ (t, true)
  | some l ↦
      let l' = mark_loc_denied l in
      write_row t member_id l' (λ a. record a { state = l'.state }) faults
]

-- The columns that `FlushDirty` writes.
unfoldable pub positioned : {F : Type 0} → Live F → Assignment → Assignment
positioned l a = record a {
  last_lat5 = some l.last_lat5;
  last_lng5 = some l.last_lng5;
  last_acc = some l.last_acc;
  last_fix_at = some l.last_fix_at;
  suspect = l.suspect;
}

pub clear_dirty : {F : Type 0} → Dict (Live F) → Dict (Live F)
clear_dirty [] = []
clear_dirty ((k, l) ∷ rest) = (k, record l { dirty = false }) ∷ clear_dirty rest

pub any_dirty : {F : Type 0} → Dict (Live F) → Bool
any_dirty [] = false
any_dirty ((k, l) ∷ rest) = l.dirty || any_dirty rest

pub write_dirty : {F : Type 0} → ℕ → Dict (Live F) → List Assignment → List Assignment
unfolding positioned
write_dirty incident_id [] rows = rows
write_dirty incident_id ((k, l) ∷ rest) rows =
    write_dirty incident_id rest
      (if l.dirty then update_assignment incident_id l.member_id (positioned l) rows else rows)

-- `FlushDirty`: one transaction, whose failure writes nothing. The marks are gone by then.
pub flush_dirty : {F : Type 0} → Tracker F → Faults → Tracker F × Bool
flush_dirty t faults =
    let tb = t.tables in
    let t' = record t { live = clear_dirty t.live } in
    if not (any_dirty t.live) || t.incident_id == 0
    then (t', true)
    else if faults.update_fails
    then (t', false)
    else (
      record t' {
        tables = record tb { assignments = write_dirty t.incident_id t.live tb.assignments };
      },
      true,
    )

module _ (fl : Floats) where
  open fl use {F}

  -- The rows of `newLive`, each marked as changed at `seq`.
  pub load_live : ℕ → List Assignment → Dict (Live F)
  load_live seq [] = []
  load_live seq (a ∷ rest) =
      Dict.insert a.member_id (record (new_live fl a) { seq_at = seq }) (load_live seq rest)

  -- The rows of `newAreaCache`; `none` where an area is missing.
  pub load_areas : List (Row F) → List Assignment → Option (Dict (Row F))
  load_areas areas [] = some []
  load_areas areas (a ∷ rest) = elim (area_by_id a.eff_area_id areas) [
    | none ↦ none
    | some row ↦ Option.map (Dict.insert a.eff_area_id row) (load_areas areas rest)
  ]

  -- `LoadActive`: false is an error, and then nothing has changed.
  unfoldable pub load_active : Tracker F → Faults → Tracker F × Bool
  load_active t faults =
      let none_active = record t { live = []; area_cache = []; incident_id = 0 } in
      let load = λ (i : Incident).
        let rows = assignments_of i.id t.tables.assignments in
        let result : Tracker F × Bool = elim (load_areas t.tables.areas rows) [
          | none ↦ (t, false)
          | some cache ↦ (
            record t {
              live = load_live (bump t.seq) rows;
              area_cache = cache;
              incident_id = i.id;
              inc_version = i.version;
              seq = bump t.seq;
            },
            true,
          )
        ] in
        result in
      let outcome : Tracker F × Bool = elim (active_incident t.tables.incidents) [
        | none ↦ (none_active, true)
        | some i ↦ load i
      ] in
      if faults.query_fails then (t, false) else outcome

pub record LiveSnapshot : Type 0 where
  pub member_id : ℕ
  pub team_no : ℕ
  pub state : State
  pub last_lat5 : ℤ
  pub last_lng5 : ℤ
  pub last_acc : ℤ
  pub last_fix_at : ℤ
  pub has_last_fix : Bool
  pub ack_pending : Bool
  pub suspect : Bool

unfoldable pub to_snapshot : {F : Type 0} → Live F → LiveSnapshot
to_snapshot l = record {
  member_id = l.member_id;
  team_no = l.team_no;
  state = l.state;
  last_lat5 = l.last_lat5;
  last_lng5 = l.last_lng5;
  last_acc = l.last_acc;
  last_fix_at = l.last_fix_at;
  has_last_fix = l.has_last_fix;
  ack_pending = ltb_ℤ l.ack_ver (pos l.mission_ver);
  suspect = l.suspect;
}

unfoldable pub snapshot_all : {F : Type 0} → Dict (Live F) → List LiveSnapshot
unfolding to_snapshot
snapshot_all [] = []
snapshot_all ((k, l) ∷ rest) = to_snapshot l ∷ snapshot_all rest

unfoldable pub snapshot_since : {F : Type 0} → ℕ → Dict (Live F) → List LiveSnapshot
unfolding to_snapshot
snapshot_since since [] = []
snapshot_since since ((k, l) ∷ rest) =
    let others = snapshot_since since rest in
    if ltb since l.seq_at then to_snapshot l ∷ others else others

unfoldable pub get_live : {F : Type 0} → Tracker F → ℕ → Option LiveSnapshot
unfolding to_snapshot
get_live t member_id = elim (Dict.lookup member_id t.live) [
  | none ↦ none
  | some l ↦ some (to_snapshot l)
]
