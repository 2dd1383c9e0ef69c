-- ===== src/Http/Tests.antt =====
-- An incident that is ended, a member who is deactivated, a password that is reset and a login.
use emergency_callup.Prelude.{
  ℕ, arith, true, false, [], ◌∷◌, none, some, ◌≡◌, refl, String, str_eq, if◌then◌else◌,
}
use emergency_callup.Prelude.Int.{ℤ, pos}
use emergency_callup.Audit.{Actor}
use emergency_callup.Floats.Fixed.{fixed}
use emergency_callup.Auth.Session.{Session, SessionKind, session_of, create}
use emergency_callup.Auth.Admin.{Role, find_by_login_id}
use emergency_callup.Auth.Limiter.{new_login_limiter, login_backoff, allow_ip}
use emergency_callup.Incident.Model.{IncidentStatus}
use emergency_callup.Incident.Store.{audited}
use emergency_callup.Roster.Members.{member_by_id}
use emergency_callup.Roster.Members.Passwords.{Issued}
use emergency_callup.Roster.Members.Tests.{plain, rows, refs, to_mobile}
use emergency_callup.Tracker.Process.Tests.{server}
use emergency_callup.Http.Close.{
  CloseFaults, Server, handle_incident_close, Over, handle_incident_close-Over,
}
use emergency_callup.Http.Login.{
  Comparison, matching, differing, LoginRequest, LoginOutcome, LoginFaults, Logins,
  handle_admin_login,
}
use emergency_callup.Http.Login.Grants.{Granted, handle_admin_login-Granted}
use emergency_callup.Http.Accounts.{
  Accounts, AccountFaults, handle_member_update, handle_member_password_reset,
}
use emergency_callup.Http.Accounts.Revoked.{
  LockedOut, NoneOf, handle_member_update-LockedOut, handle_member_password_reset-Issued,
}

abbrev session : ℕ → Session
session id = record {
  token_hash = "token";
  kind = SessionKind.member;
  subject_id = id;
  created_at = 1000;
  expires_at = 86401000;
  last_seen_at = 1000;
}

abbrev calm : CloseFaults
calm = record {
  closing = record { write = false; audit = false };
  expiry = false;
  loading = record {
    query_fails = false;
    update_fails = false;
    insert_fails = false;
    audit_fails = false;
  };
}

abbrev ongoing : Server ℤ
ongoing = record {
  tracker = record server {
    tables = record server.tables {
      incidents =
          record {
            id = 1;
            type_text = "fire";
            message = "gather";
            status = IncidentStatus.active;
            version = 1;
            opened_by = Actor.system;
            opened_at = pos 0;
            closed_by = none;
            closed_at = pos 0;
          }
          ∷ [];
    };
  };
  sessions = session 7 ∷ [];
}

handle_incident_close-Over_example :
    Over fixed (handle_incident_close fixed calm ongoing "kim" (some "상황종료") 2000).0 2000
unfolding handle_incident_close audited
handle_incident_close-Over_example =
    handle_incident_close-Over fixed calm ongoing "kim" (some "상황종료") 2000 1 (ground arith) refl

abbrev accounts : Accounts
accounts = record { members = rows; sessions = session 1 ∷ session 2 ∷ []; events = [] }

abbrev quiet : AccountFaults
quiet = record { activation = false; revocation = false; storing = false; audit = false }

-- The mobile number is taken.
handle_member_update-LockedOut_example :
    LockedOut 2
      (handle_member_update quiet refs accounts "kim"
        (some 2)
        (some (record { active = some false; columns = to_mobile "01011112222" }))
        (pos 5)).0
unfolding member_by_id
handle_member_update-LockedOut_example =
    handle_member_update-LockedOut quiet refs accounts "kim" 2 (to_mobile "01011112222") (pos 5) _
      refl refl refl

abbrev was_reset : Accounts
unfolding handle_member_password_reset
was_reset =
    (handle_member_password_reset plain quiet accounts "kim" (some 1) (pos 5) (some "again")).0

handle_member_password_reset-Issued_example :
    Issued plain rows 1 "again" was_reset.members × NoneOf 1 was_reset.sessions
unfolding handle_member_password_reset
handle_member_password_reset-Issued_example =
    handle_member_password_reset-Issued plain quiet accounts "kim" 1 (pos 5) (some "again") "again"
      refl

abbrev logins : Logins
logins = record {
  limiter = new_login_limiter;
  admins =
      record {
        id = 1;
        login_id = "kim";
        pw_hash = "secret";
        name = "";
        dept = "";
        role = Role.operator;
        active = true;
        created_at = pos 0;
      }
      ∷ [];
  sessions = session 7 ∷ [];
  events = [];
}

-- The hash is the password itself.
abbrev plainly : String → String → Comparison
plainly hash pw = if str_eq hash pw then matching else differing

abbrev steady : LoginFaults
steady = record { query = false; insert = false; audit = false }

abbrev typed : LoginRequest
typed = record { id = "kim"; pw = "secret" }

abbrev login : Logins × LoginOutcome
unfolding handle_admin_login
login =
    handle_admin_login (λ raw. raw) plainly steady logins "10.0.0.1" (some typed) "drawn" 5000000

handle_admin_login-Granted_example :
    ((allow_ip new_login_limiter "10.0.0.1" 5000000).1 ≡ true)
    × (r : LoginRequest) × (some typed ≡ some r)
    × (login_backoff new_login_limiter r.id 5000000 ≡ 0)
    × Granted (λ raw. raw) plainly logins r "drawn" 5000000 "drawn" login.0
unfolding handle_admin_login find_by_login_id new_login_limiter login_backoff allow_ip session_of
    create
handle_admin_login-Granted_example =
    handle_admin_login-Granted (λ raw. raw) plainly steady logins "10.0.0.1" (some typed) "drawn"
      5000000 "drawn" refl
