-- ===== src/Auth/Session/Created.antt =====
-- What `Create` leaves if it answers a token.
use emergency_callup.Prelude.{
  ℕ, ◌+◌, Bool, true, false, List, [], ◌∷◌, ◌++◌, Option, none, some, String, ◌≡◌, refl, arith,
}
use emergency_callup.Auth.Session.{
  SessionKind, Session, create, create_with, store_session, session_of, admin_session_ttl, ok,
}

-- The row of a new session of an administrator.
abbrev pub admin_session : String → ℕ → ℕ → Session
admin_session hash id now = record {
  token_hash = hash;
  kind = SessionKind.admin;
  subject_id = id;
  created_at = now;
  expires_at = now + admin_session_ttl;
  last_seen_at = now;
}

stored :
    (fails : Bool) (xs : List Session) (s : Session) (raw token : String) (o : Option Session)
    → (store_session fails xs s raw o).1 ≡ ok token
    → (token ≡ raw) × ((store_session fails xs s raw o).0 ≡ xs ++ s ∷ [])
unfolding store_session
stored fails xs s raw token (some taken) h = absurd (ground (arith, h))
stored true xs s raw token none h = absurd (ground (arith, h))
stored false xs s raw token none h = (ground (arith, h), refl)

pub created_one :
    (hash_token : String → String) (fails : Bool) (xs : List Session) (id now : ℕ)
    (raw token : String)
    → (create hash_token fails xs SessionKind.admin id now raw).1 ≡ ok token
    → (token ≡ raw)
      × ((create hash_token fails xs SessionKind.admin id now raw).0
          ≡ xs ++ admin_session (hash_token raw) id now ∷ [])
unfolding create create_with
created_one hash_token fails xs id now raw token =
    stored fails xs (admin_session (hash_token raw) id now) raw token
      (session_of (hash_token raw) xs)
