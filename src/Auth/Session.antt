-- ===== src/Auth/Session.antt =====
-- internal/auth/session.go. Times are UTC milliseconds, not before 1970. SHA-256 and the random token
-- are arguments; so are the database errors that a query may answer with.
pub mod Life
pub mod Cutoff
pub mod Created
use emergency_callup.Prelude.{
  ℕ, ◌+◌, Bool, true, false, ◌&&◌, not, List, [], ◌∷◌, ◌++◌, Option, none, some, String, str_eq,
  ltb, leb, ◌==◌, if◌then◌else◌,
}

pub data SessionKind : Type 0 where
  admin member other : SessionKind

pub record Session : Type 0 where
  pub token_hash : String
  pub kind : SessionKind
  pub subject_id : ℕ
  pub created_at : ℕ
  pub expires_at : ℕ
  pub last_seen_at : ℕ

pub data SessionError : Type 0 where
  session_not_found session_expired unknown_session_kind database_error : SessionError

pub data Answer (A : Type 0) : Type 0 where
  ok : A → Answer A
  err : SessionError → Answer A

abbrev pub admin_session_ttl : ℕ
admin_session_ttl = 43200000

abbrev pub admin_idle_timeout : ℕ
admin_idle_timeout = 7200000

abbrev pub member_session_ttl : ℕ
member_session_ttl = 86400000

abbrev pub ttl_of : SessionKind → Option ℕ
ttl_of admin = some admin_session_ttl
ttl_of member = some member_session_ttl
ttl_of other = none

unfoldable pub is_kind : SessionKind → SessionKind → Bool
is_kind admin admin = true
is_kind member member = true
is_kind other other = true
is_kind _ _ = false

-- `WHERE token_hash = ?`
unfoldable pub session_of : String → List Session → Option Session
session_of hash [] = none
session_of hash (s ∷ rest) = if str_eq s.token_hash hash then some s else session_of hash rest

unfoldable pub revoke_by_hash : String → List Session → List Session
revoke_by_hash hash [] = []
revoke_by_hash hash (s ∷ rest) =
    let others = revoke_by_hash hash rest in if str_eq s.token_hash hash then others else s ∷ others

unfoldable pub touch : String → ℕ → List Session → List Session
touch hash now [] = []
touch hash now (s ∷ rest) =
    (if str_eq s.token_hash hash then record s { last_seen_at = now } else s) ∷ touch hash now rest

-- The token is the primary key of the table.
store_session :
    Bool → List Session → Session → String → Option Session → List Session × Answer String
store_session fails sessions s raw (some taken) = (sessions, err database_error)
store_session fails sessions s raw none =
    if fails then (sessions, err database_error) else (sessions ++ s ∷ [], ok raw)

create_with :
    (String → String)
    → Bool
    → List Session
    → SessionKind
    → ℕ
    → ℕ
    → String
    → Option ℕ
    → List Session × Answer String
unfolding session_of store_session
create_with hash_token fails sessions kind subject_id now raw none =
    (sessions, err unknown_session_kind)
create_with hash_token fails sessions kind subject_id now raw (some ttl) =
    store_session fails sessions
      (record {
        token_hash = hash_token raw;
        kind = kind;
        subject_id = subject_id;
        created_at = now;
        expires_at = now + ttl;
        last_seen_at = now;
      })
      raw (session_of (hash_token raw) sessions)

-- `Create`, with the token that `newRawToken` draws.
unfoldable pub create :
    (String → String)
    → Bool
    → List Session
    → SessionKind
    → ℕ
    → ℕ
    → String
    → List Session × Answer String
unfolding create_with store_session
create hash_token fails sessions kind subject_id now raw =
    create_with hash_token fails sessions kind subject_id now raw (ttl_of kind)

is_expired : Session → ℕ → Bool
is_expired s now = leb s.expires_at now

is_idle : Session → ℕ → Bool
unfolding is_kind
is_idle s now = is_kind s.kind admin && ltb (s.last_seen_at + admin_idle_timeout) now

-- Which statements fail; the error of the revocation is ignored, and the row then stays.
pub record SessionFaults : Type 0 where
  pub query : Bool
  pub revocation : Bool
  pub update : Bool

drop_session : SessionFaults → String → List Session → List Session
unfolding revoke_by_hash
drop_session faults hash sessions =
    if faults.revocation then sessions else revoke_by_hash hash sessions

judge_session :
    SessionFaults → List Session → String → ℕ → Option Session → List Session × Answer Session
unfolding is_expired is_idle drop_session touch
judge_session faults sessions hash now none = (sessions, err session_not_found)
judge_session faults sessions hash now (some s) =
    if is_expired s now
    then (drop_session faults hash sessions, err session_expired)
    else if is_idle s now
    then (drop_session faults hash sessions, err session_expired)
    else if faults.update
    then (sessions, err database_error)
    else (touch hash now sessions, ok (record s { last_seen_at = now }))

unfoldable pub validate :
    (String → String) → SessionFaults → List Session → String → ℕ → List Session × Answer Session
unfolding judge_session session_of is_expired is_idle drop_session
validate hash_token faults sessions raw now =
    if faults.query
    then (sessions, err database_error)
    else judge_session faults sessions (hash_token raw) now (session_of (hash_token raw) sessions)

unfoldable pub revoke : (String → String) → List Session → String → List Session
unfolding revoke_by_hash
revoke hash_token sessions raw = revoke_by_hash (hash_token raw) sessions

unfoldable pub revoke_all_for_subject : SessionKind → ℕ → List Session → List Session
unfolding is_kind
revoke_all_for_subject kind subject_id [] = []
revoke_all_for_subject kind subject_id (s ∷ rest) =
    let others = revoke_all_for_subject kind subject_id rest in
    if is_kind s.kind kind && s.subject_id == subject_id then others else s ∷ others

-- `MIN(expires_at, ?)` of the rows that outlive the cutoff.
unfoldable pub expire_member_sessions_by : ℕ → List Session → List Session
unfolding is_kind
expire_member_sessions_by cutoff [] = []
expire_member_sessions_by cutoff (s ∷ rest) =
    (if is_kind s.kind member && ltb cutoff s.expires_at
      then record s { expires_at = cutoff }
      else s)
    ∷ expire_member_sessions_by cutoff rest
