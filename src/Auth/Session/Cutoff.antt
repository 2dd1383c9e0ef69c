-- ===== src/Auth/Session/Cutoff.antt =====
-- What `ExpireMemberSessionsBy` and `RevokeAllForSubject` leave.
use emergency_callup.Prelude.{
  ℕ, ◌≤◌, ◌&&◌, List, [], ◌∷◌, Option, none, some, String, ltb, if◌then◌else◌, ◌≡◌, refl, sym, ap,
  ◌∙◌, subst, arith, ◌≢◌,
}
use mathlib.Core.Option
use emergency_callup.Auth.Session.Life.{Passes, accepted-Passes}
use emergency_callup.Auth.Session.{
  SessionKind, admin, member, other, Session, is_kind, session_of, expire_member_sessions_by,
  validate, SessionFaults, ok,
}

-- The row as the cutoff leaves it.
abbrev cut : ℕ → Session → Session
cut cutoff s =
    if is_kind s.kind member && ltb cutoff s.expires_at then record s { expires_at = cutoff } else s

session_of-expire :
    (hash : String) (cutoff : ℕ) (xs : List Session)
    → session_of hash (expire_member_sessions_by cutoff xs)
      ≡ Option.map (cut cutoff) (session_of hash xs)
unfolding session_of expire_member_sessions_by
session_of-expire hash cutoff [] = refl
session_of-expire hash cutoff (x ∷ xs) = ground (arith, session_of-expire hash cutoff xs)

cut_short :
    (cutoff : ℕ) (x : Session)
    → (k : SessionKind) → x.kind ≡ k
    → (cut cutoff x).kind ≡ member
    → (cut cutoff x).expires_at ≤ cutoff
unfolding is_kind
cut_short cutoff x member e h = rw e (ground arith)
cut_short cutoff x admin e h = ground (arith, e, h)
cut_short cutoff x other e h = ground (arith, e, h)

at_cutoff :
    (cutoff : ℕ) (o : Option Session) (s : Session)
    → Option.map (cut cutoff) o ≡ some s
    → s.kind ≡ member
    → s.expires_at ≤ cutoff
at_cutoff cutoff none s h k = ground (arith, h)
at_cutoff cutoff (some x) s h k =
    let e : cut cutoff x ≡ s = ground (arith, h) in
    subst (λ (y : Session). y.expires_at ≤ cutoff) e
      (cut_short cutoff x x.kind refl (ap (λ (y : Session). y.kind) e ∙ k))

-- After `ExpireMemberSessionsBy`, whichever statements fail, no member's token is accepted from the
-- cutoff on.
pub member_session_ends_by_cutoff :
    (hash_token : String → String) (faults : SessionFaults) (sessions : List Session) (cutoff : ℕ)
    (raw : String) (now : ℕ) (answer : Session)
    → cutoff ≤ now
    → (validate hash_token faults (expire_member_sessions_by cutoff sessions) raw now).1 ≡ ok answer
    → answer.kind ≢ member
unfolding Passes
member_session_ends_by_cutoff hash_token faults sessions cutoff raw now answer late h is_member =
    let (s, (found, (passes, same))) =
      accepted-Passes hash_token faults (expire_member_sessions_by cutoff sessions) raw now answer
        h in
    ground (
      arith,
      late,
      passes.0,
      at_cutoff cutoff (session_of (hash_token raw) sessions) s
          (sym (session_of-expire (hash_token raw) cutoff sessions) ∙ found)
          (sym (ap (λ (a : Session). a.kind) same) ∙ is_member),
    )
