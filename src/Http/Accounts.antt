-- ===== src/Http/Accounts.antt =====
-- internal/httpapi/admin_setup.go: an administrator changes a member or resets his password. The decoded
-- body and id are arguments, `none` where they do not decode.
pub mod Revoked
use emergency_callup.Prelude.{ℕ, Bool, true, false, List, Option, none, some, String}
use emergency_callup.Prelude.Int.{ℤ}
use emergency_callup.Audit
use emergency_callup.Audit.{AuditRow, record_event}
use emergency_callup.Auth.Admin.{Library}
use emergency_callup.Auth.Session.{member, Session, revoke_all_for_subject}
use emergency_callup.Roster.Members
use emergency_callup.Roster.Members.{
  Member, RosterError, References, UpdateInput, set_active, update, password_reset,
}
use emergency_callup.Http.{Outcome, invalid, server_error, replied}

-- The tables that these requests change.
pub record Accounts : Type 0 where
  pub members : List Member
  pub sessions : List Session
  pub events : List AuditRow

-- Which statements of the request fail.
pub record AccountFaults : Type 0 where
  pub activation : Bool
  pub revocation : Bool
  pub storing : Bool
  pub audit : Bool

pub record MemberUpdateRequest : Type 0 where
  pub active : Option Bool
  pub columns : UpdateInput

unfoldable pub audit_member : Bool → Accounts → String → String → ℕ → ℤ → Accounts
unfolding record_event
audit_member fails s kind login_id id now = record s {
  events = record_event fails s.events (record {
    ts = now;
    incident_id = none;
    actor = Audit.admin login_id;
    kind = kind;
    member_id = some id;
  });
}

-- After `Members.Update`.
abbrev pub updated :
    AccountFaults
    → Accounts
    → String
    → ℕ
    → ℤ
    → List Member × Option RosterError
    → Accounts × Outcome Unit
updated faults s login_id id now (rows, some e) = (record s { members = rows }, server_error)
updated faults s login_id id now (rows, none) = (
  audit_member faults.audit (record s { members = rows }) "member_update" login_id id now,
  replied tt,
)

unfoldable pub update_columns :
    AccountFaults → References → Accounts → String → ℕ → UpdateInput → ℤ → Accounts × Outcome Unit
unfolding update audit_member
update_columns faults refs s login_id id input now =
    updated faults s login_id id now (update faults.storing refs s.members id input now)

-- After `Members.SetActive`, with the switch of the request.
unfoldable pub switched :
    AccountFaults
    → References
    → Accounts
    → String
    → ℕ
    → UpdateInput
    → ℤ
    → Bool
    → List Member × Option RosterError
    → Accounts × Outcome Unit
unfolding update_columns revoke_all_for_subject
switched faults refs s login_id id input now active (rows, some e) =
    (record s { members = rows }, server_error)
switched faults refs s login_id id input now true (rows, none) =
    update_columns faults refs (record s { members = rows }) login_id id input now
switched faults refs s login_id id input now false (rows, none) = elim faults.revocation [
  | true ↦ (record s { members = rows }, server_error)
  | false ↦
      update_columns faults refs
        (record s { members = rows; sessions = revoke_all_for_subject member id s.sessions })
        login_id id input now
]

unfoldable pub update_member_by :
    AccountFaults
    → References
    → Accounts
    → String
    → ℕ
    → UpdateInput
    → ℤ
    → Option Bool
    → Accounts × Outcome Unit
unfolding update_columns switched set_active
update_member_by faults refs s login_id id input now none =
    update_columns faults refs s login_id id input now
update_member_by faults refs s login_id id input now (some active) =
    switched faults refs s login_id id input now active
      (set_active faults.activation s.members id active now)

-- `handleMemberUpdate`.
unfoldable pub handle_member_update :
    AccountFaults
    → References
    → Accounts
    → String
    → Option ℕ
    → Option MemberUpdateRequest
    → ℤ
    → Accounts × Outcome Unit
unfolding update_member_by
handle_member_update faults refs s login_id none request now = (s, invalid)
handle_member_update faults refs s login_id (some id) none now = (s, invalid)
handle_member_update faults refs s login_id (some id) (some r) now =
    update_member_by faults refs s login_id id r.columns now r.active

-- After `Members.PasswordReset`.
unfoldable pub reset_answer :
    AccountFaults
    → Accounts
    → String
    → ℕ
    → ℤ
    → List Member × Members.Result String
    → Accounts × Outcome String
unfolding revoke_all_for_subject audit_member
reset_answer faults s login_id id now (rows, Members.err e) =
    (record s { members = rows }, server_error)
reset_answer faults s login_id id now (rows, Members.ok pw) = elim faults.revocation [
  | true ↦ (record s { members = rows }, server_error)
  | false ↦ (
    audit_member faults.audit
        (record s { members = rows; sessions = revoke_all_for_subject member id s.sessions })
        "password_reset" login_id id now,
    replied pw,
  )
]

-- `handleMemberPasswordReset`; `random` is the password that is drawn.
unfoldable pub handle_member_password_reset :
    Library
    → AccountFaults
    → Accounts
    → String
    → Option ℕ
    → ℤ
    → Option String
    → Accounts × Outcome String
unfolding reset_answer password_reset
handle_member_password_reset lib faults s login_id none now random = (s, invalid)
handle_member_password_reset lib faults s login_id (some id) now random =
    reset_answer faults s login_id id now (password_reset lib faults.storing s.members id random)
