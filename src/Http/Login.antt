-- ===== src/Http/Login.antt =====
-- internal/httpapi/admin_auth.go: an administrator logs in. `now` is in nanoseconds. The comparison of
-- password and hash, which is bcrypt's, is an argument, and so is the random token of the session.
pub mod Grants
use emergency_callup.Prelude.{
  ℕ, ◌+◌, ◌/◌, Bool, true, false, ◌||◌, List, Option, none, some, String, str_eq, ltb,
  if◌then◌else◌,
}
use emergency_callup.Prelude.Int.{pos}
use emergency_callup.Audit
use emergency_callup.Audit.{AuditRow, record_event}
use emergency_callup.Auth.Admin.{AdminUser, find_by_login_id}
use emergency_callup.Auth.Limiter.{
  LoginLimiter, allow_ip, login_backoff, record_failure, record_success, second,
}
use emergency_callup.Auth.Session
use emergency_callup.Auth.Session.{SessionKind, create}

-- What the comparison answers.
pub data Comparison : Type 0 where
  matching differing hash_busy hash_failed : Comparison

pub record LoginRequest : Type 0 where
  pub id : String
  pub pw : String

pub record Logins : Type 0 where
  pub limiter : LoginLimiter
  pub admins : List AdminUser
  pub sessions : List Session.Session
  pub events : List AuditRow

-- Which statements fail.
pub record LoginFaults : Type 0 where
  pub query : Bool
  pub insert : Bool
  pub audit : Bool

-- The code of the error, after `rate` the seconds to wait; or the token of the cookie.
pub data LoginOutcome : Type 0 where
  rate : ℕ → LoginOutcome
  invalid server_error unauthorised busy : LoginOutcome
  logged_in : String → LoginOutcome

unfoldable pub audit_login : Bool → Logins → String → String → ℕ → Logins
unfolding record_event
audit_login fails s kind login_id now = record s {
  events = record_event fails s.events (record {
    ts = pos (now / 1000000);
    incident_id = none;
    actor = Audit.admin login_id;
    kind = kind;
    member_id = none;
  });
}

-- `fail`
unfoldable pub login_failed : LoginFaults → Logins → String → ℕ → Logins × LoginOutcome
unfolding record_failure audit_login
login_failed faults s login_id now = (
  audit_login faults.audit (record s { limiter = record_failure s.limiter login_id now })
      "login_fail" login_id now,
  unauthorised,
)

-- After `Sessions.Create`.
abbrev pub opened :
    LoginFaults
    → Logins
    → String
    → ℕ
    → List Session.Session × Session.Answer String
    → Logins × LoginOutcome
opened faults s login_id now (sessions, Session.err e) =
    (record s { sessions = sessions }, server_error)
opened faults s login_id now (sessions, Session.ok raw) = (
  audit_login faults.audit (record s { sessions = sessions }) "login_ok" login_id now,
  logged_in raw,
)

module _ (hash_token : String → String) (compare : String → String → Comparison) where
  -- After `Hasher.Verify`.
  unfoldable pub compared :
      LoginFaults → Logins → String → AdminUser → String → ℕ → Comparison → Logins × LoginOutcome
  unfolding login_failed create record_success
  compared faults s login_id u raw now hash_busy = (s, busy)
  compared faults s login_id u raw now hash_failed = (s, server_error)
  compared faults s login_id u raw now differing = login_failed faults s login_id now
  compared faults s login_id u raw now matching =
      opened faults (record s { limiter = record_success s.limiter login_id }) login_id now
        (create hash_token faults.insert s.sessions SessionKind.admin u.id (now / 1000000) raw)

  -- After `FindByLoginID`.
  unfoldable pub found_admin :
      LoginFaults → Logins → LoginRequest → String → ℕ → Option AdminUser → Logins × LoginOutcome
  unfolding login_failed compared
  found_admin faults s r raw now none = login_failed faults s r.id now
  found_admin faults s r raw now (some u) =
      if u.active
      then compared faults s r.id u raw now (compare u.pw_hash r.pw)
      else login_failed faults s r.id now

  -- From the decoded body on.
  unfoldable pub requested :
      LoginFaults → Logins → Option LoginRequest → String → ℕ → Logins × LoginOutcome
  unfolding login_backoff find_by_login_id found_admin
  requested faults s none raw now = (s, invalid)
  requested faults s (some r) raw now =
      let wait = login_backoff s.limiter r.id now in
      if str_eq r.id "" || str_eq r.pw ""
      then (s, invalid)
      else if ltb 0 wait
      then (s, rate (wait / second + 1))
      else if faults.query
      then (s, server_error)
      else found_admin faults s r raw now (find_by_login_id r.id s.admins)

  -- `handleAdminLogin`; the request is `none` if the body does not decode.
  unfoldable pub handle_admin_login :
      LoginFaults → Logins → String → Option LoginRequest → String → ℕ → Logins × LoginOutcome
  unfolding allow_ip requested
  handle_admin_login faults s ip request raw now =
      let r = allow_ip s.limiter ip now in
      if r.1
      then requested faults (record s { limiter = r.0 }) request raw now
      else (record s { limiter = r.0 }, rate 60)
