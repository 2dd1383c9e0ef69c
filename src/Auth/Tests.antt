-- ===== src/Auth/Tests.antt =====
-- Runs of the limiter, the sessions and the accounts, and the theorems at them.
use emergency_callup.Prelude.{
  ℕ, ◌+◌, ◌-◌, ◌≤◌, ◌<◌, arith, true, false, List, [], ◌∷◌, ◌++◌, length, String, ◌≡◌, ◌≢◌, ◌↔◌,
  refl, none, some,
}
use emergency_callup.Prelude.Int.{pos}
use emergency_callup.Auth.Limiter.{new_login_limiter, login_backoff}
use emergency_callup.Auth.Limiter.Backoff.{failing, wait_after, backoff_after_failures}
use emergency_callup.Auth.Limiter.Window.{allowed, Within, allowed_le_120}
use emergency_callup.Auth.Session
use emergency_callup.Auth.Session.{
  SessionKind, SessionFaults, validate, session_of, ttl_of, admin_idle_timeout,
  expire_member_sessions_by, create, touch, revoke_by_hash, is_kind,
}
use emergency_callup.Auth.Session.Life
use emergency_callup.Auth.Session.Life.{perform_all, validate_accepts_iff, accepted_within_lifetime}
use emergency_callup.Auth.Session.Cutoff.{member_session_ends_by_cutoff}
use emergency_callup.Auth.Admin.{AdminUser, Role, count_active_admins}
use emergency_callup.Auth.Admin.Last
use emergency_callup.Auth.Admin.Last.{active_admin_remains}

abbrev guesses : List ℕ
guesses = 1000 ∷ 2000 ∷ 3000 ∷ 4000 ∷ []

no_entry : new_login_limiter.by_login "kim" ≡ none
unfolding new_login_limiter
no_entry = refl

backoff_after_failures_example :
    login_backoff (failing new_login_limiter "kim" (guesses ++ 5000 ∷ [])) "kim" 6000
    ≡ (5000 + wait_after (length guesses + 1)) - 6000
backoff_after_failures_example =
    backoff_after_failures new_login_limiter "kim" guesses 5000 6000 no_entry (ground arith)

within : Within 1000 guesses
within = (
  (ground arith, ground arith),
  (
    (ground arith, ground arith),
    ((ground arith, ground arith), ((ground arith, ground arith), tt)),
  ),
)

allowed_le_120_example : allowed new_login_limiter "10.0.0.1" guesses ≤ 120
allowed_le_120_example = allowed_le_120 new_login_limiter "10.0.0.1" 1000 guesses within

-- A member logs in at 1000, with the token as its own hash.
abbrev hash_of : String → String
hash_of raw = raw

abbrev login : List Life.Operation
login = Life.creation false SessionKind.member 7 1000 "token" ∷ []

abbrev calm : SessionFaults
calm = record { query = false; revocation = false; update = false }

abbrev seen_at : ℕ → Session.Session
seen_at now = record {
  token_hash = "token";
  kind = SessionKind.member;
  subject_id = 7;
  created_at = 1000;
  expires_at = 86401000;
  last_seen_at = now;
}

validate_accepts_iff_example :
    ((validate hash_of calm (seen_at 1000 ∷ []) "token" 5000).1 ≡ Session.ok (seen_at 5000)) ↔ (
      (s : Session.Session) × ((session_of "token" (seen_at 1000 ∷ []) ≡ some s)
        × (((5000 < s.expires_at)
              × (s.kind ≡ SessionKind.admin → 5000 ≤ s.last_seen_at + admin_idle_timeout))
            × (seen_at 5000 ≡ record s { last_seen_at = 5000 }))))
validate_accepts_iff_example =
    validate_accepts_iff hash_of false (seen_at 1000 ∷ []) "token" 5000 (seen_at 5000)

accepted :
    (validate hash_of calm (perform_all hash_of [] login) "token" 5000).1
    ≡ Session.ok (seen_at 5000)
unfolding validate create
accepted = refl

accepted_within_lifetime_example :
    (ttl : ℕ) × ((ttl_of SessionKind.member ≡ some ttl) × (5000 < 1000 + ttl))
accepted_within_lifetime_example =
    accepted_within_lifetime hash_of login calm "token" 5000 (seen_at 5000) accepted

-- An administrator's session outlives the cutoff.
abbrev desk : ℕ → Session.Session
desk now = record {
  token_hash = "token";
  kind = SessionKind.admin;
  subject_id = 1;
  created_at = 1000;
  expires_at = 43201000;
  last_seen_at = now;
}

desk_accepted :
    (validate hash_of calm (expire_member_sessions_by 4000 (desk 1000 ∷ [])) "token" 5000).1
    ≡ Session.ok (desk 5000)
unfolding validate expire_member_sessions_by
desk_accepted = refl

member_session_ends_by_cutoff_example : SessionKind.admin ≢ SessionKind.member
member_session_ends_by_cutoff_example =
    member_session_ends_by_cutoff hash_of calm (desk 1000 ∷ []) 4000 "token" 5000 (desk 5000)
      (ground arith) desk_accepted

abbrev chief : AdminUser
chief = record {
  id = 1;
  login_id = "chief";
  pw_hash = "x";
  name = "Chief";
  dept = "";
  role = Role.admin;
  active = true;
  created_at = pos 0;
}

chief_counts : 1 ≤ count_active_admins (chief ∷ [])
unfolding count_active_admins
chief_counts = ground arith

active_admin_remains_example :
    1
    ≤ count_active_admins (
        Last.perform_all
          (chief ∷ [])
          (Last.activation false 1 false ∷ Last.new_role false 1 Role.operator ∷ []))
active_admin_remains_example =
    active_admin_remains (chief ∷ [])
      (Last.activation false 1 false ∷ Last.new_role false 1 Role.operator ∷ []) chief_counts
