-- ===== src/Http/Login/Grants.antt =====
-- Who is logged in.
use emergency_callup.Prelude.{
  ℕ, ◌/◌, true, ◌||◌, List, [], ◌∷◌, ◌++◌, Option, none, some, String, str_eq, ltb, ◌≡◌, ◌≢◌, refl,
  ap, ◌∙◌, eq_iff, arith, Bool-cases, inl, inr,
}
use emergency_callup.Auth.Admin.{AdminUser, find_by_login_id}
use emergency_callup.Auth.Limiter.{LoginLimiter, allow_ip, login_backoff, record_success, set_key}
use emergency_callup.Auth.Session
use emergency_callup.Auth.Session.{SessionKind, create}
use emergency_callup.Auth.Session.Created.{admin_session, created_one}
use emergency_callup.Http.Login.{
  Comparison, matching, differing, hash_busy, hash_failed, LoginRequest, Logins, LoginFaults,
  logged_in, audit_login, login_failed, opened, compared, found_admin, requested,
  handle_admin_login,
}

module _ (hash_token : String → String) (compare : String → String → Comparison) where
  -- The account of the request is active, its password matches and no wait was left; the count of its
  -- failures is gone, and the one new session is the account's.
  abbrev pub Granted : Logins → LoginRequest → String → ℕ → String → Logins → Type 0
  Granted before r raw now token after =
      (u : AdminUser) × (find_by_login_id r.id before.admins ≡ some u)
      × (u.active ≡ true)
      × (compare u.pw_hash r.pw ≡ matching)
      × (token ≡ raw)
      × (after.limiter.by_login r.id ≡ none)
      × (after.sessions
          ≡ before.sessions ++ admin_session (hash_token raw) u.id (now / 1000000) ∷ [])

  opened-logged_in :
      (faults : LoginFaults) (s : Logins) (login_id : String) (now : ℕ) (token : String)
      (xs : List Session.Session) (a : Session.Answer String)
      → (opened faults s login_id now (xs, a)).1 ≡ logged_in token
      → (a ≡ Session.ok token)
        × ((opened faults s login_id now (xs, a)).0.limiter ≡ s.limiter)
        × ((opened faults s login_id now (xs, a)).0.sessions ≡ xs)
  unfolding audit_login
  opened-logged_in faults s login_id now token xs (Session.err e) h = absurd (ground (arith, h))
  opened-logged_in faults s login_id now token xs (Session.ok raw) h =
      (ground (arith, h), refl, refl)

  record_success-by_login :
      (l : LoginLimiter) (login_id : String) → (record_success l login_id).by_login login_id ≡ none
  unfolding record_success set_key
  record_success-by_login l login_id = rw ((eq_iff login_id login_id).1 refl) refl

  compared-Granted :
      (faults : LoginFaults) (s : Logins) (r : LoginRequest) (u : AdminUser) (raw : String)
      (now : ℕ) (token : String) (c : Comparison)
      → find_by_login_id r.id s.admins ≡ some u
      → u.active ≡ true
      → compare u.pw_hash r.pw ≡ c
      → (compared hash_token compare faults s r.id u raw now c).1 ≡ logged_in token
      → Granted s r raw now token (compared hash_token compare faults s r.id u raw now c).0
  unfolding compared login_failed
  compared-Granted faults s r u raw now token hash_busy found on e h = absurd (ground (arith, h))
  compared-Granted faults s r u raw now token hash_failed found on e h = absurd (ground (arith, h))
  compared-Granted faults s r u raw now token differing found on e h = absurd (ground (arith, h))
  compared-Granted faults s r u raw now token matching found on e h =
      let c =
        create hash_token faults.insert s.sessions SessionKind.admin u.id (now / 1000000) raw in
      let (answered, limited, stored) =
        opened-logged_in faults (record s { limiter = record_success s.limiter r.id }) r.id now
          token c.0 c.1 h in
      let (same, grown) =
        created_one hash_token faults.insert s.sessions u.id (now / 1000000) raw token answered in
      (
        u,
        found,
        on,
        e,
        same,
        ap (λ (l : LoginLimiter). l.by_login r.id) limited ∙ record_success-by_login s.limiter r.id,
        stored ∙ grown,
      )

  found_admin-Granted :
      (faults : LoginFaults) (s : Logins) (r : LoginRequest) (raw : String) (now : ℕ)
      (token : String) (o : Option AdminUser)
      → find_by_login_id r.id s.admins ≡ o
      → (found_admin hash_token compare faults s r raw now o).1 ≡ logged_in token
      → Granted s r raw now token (found_admin hash_token compare faults s r raw now o).0
  unfolding found_admin login_failed
  found_admin-Granted faults s r raw now token none found = λ h. absurd (ground (arith, h))
  found_admin-Granted faults s r raw now token (some u) found = elim (Bool-cases u.active) [
    | inr e ↦ rw e (λ h. absurd (ground (arith, h)))
    | inl e ↦
        rw e (compared-Granted faults s r u raw now token (compare u.pw_hash r.pw) found e refl)
  ]

  requested-Granted :
      (faults : LoginFaults) (s : Logins) (r : LoginRequest) (raw : String) (now : ℕ)
      (token : String)
      → (requested hash_token compare faults s (some r) raw now).1 ≡ logged_in token
      → (login_backoff s.limiter r.id now ≡ 0)
        × Granted s r raw now token (requested hash_token compare faults s (some r) raw now).0
  unfolding requested
  requested-Granted faults s r raw now token =
      elim (Bool-cases (str_eq r.id "" || str_eq r.pw "")) [
        | inl e ↦ rw e (λ h. absurd (ground (arith, h)))
        | inr e ↦ rw e (elim (Bool-cases (ltb 0 (login_backoff s.limiter r.id now))) [
          | inl w ↦ rw w (λ h. absurd (ground (arith, h)))
          | inr w ↦ rw w (elim (Bool-cases faults.query) [
            | inl q ↦ rw q (λ h. absurd (ground (arith, h)))
            | inr q ↦ rw q (λ h. (
              ground (arith, w),
              found_admin-Granted faults s r raw now token (find_by_login_id r.id s.admins) refl h,
            ))
          ])
        ])
      ]

  undecoded :
      (faults : LoginFaults) (s : Logins) (raw : String) (now : ℕ) (token : String)
      → (requested hash_token compare faults s none raw now).1 ≢ logged_in token
  unfolding requested
  undecoded faults s raw now token h = ground (arith, h)

  -- If a login is answered with a token, then the request has decoded, the address and the account had
  -- no wait left, the account is active and its password matches. The token is the one drawn, the
  -- account's failures are forgotten and just the session of this account is added.
  pub handle_admin_login-Granted :
      (faults : LoginFaults) (s : Logins) (ip : String) (request : Option LoginRequest)
      (raw : String) (now : ℕ) (token : String)
      → (handle_admin_login hash_token compare faults s ip request raw now).1 ≡ logged_in token
      → ((allow_ip s.limiter ip now).1 ≡ true)
        × (r : LoginRequest) × (request ≡ some r)
        × (login_backoff s.limiter r.id now ≡ 0)
        × Granted s r raw now token
            (handle_admin_login hash_token compare faults s ip request raw now).0
  unfolding handle_admin_login login_backoff allow_ip
  handle_admin_login-Granted faults s ip request raw now token =
      elim (Bool-cases (allow_ip s.limiter ip now).1) [
        | inr e ↦ rw e (λ h. absurd (ground (arith, h)))
        | inl e ↦ rw e (λ h.
            let (r, same, waited, granted) = decoded request h in (refl, r, same, waited, granted))
      ]
    where
      t : Logins
      t = record s { limiter = (allow_ip s.limiter ip now).0 }

      decoded :
          (o : Option LoginRequest)
          → (requested hash_token compare faults t o raw now).1 ≡ logged_in token
          → (r : LoginRequest) × (o ≡ some r)
            × (login_backoff s.limiter r.id now ≡ 0)
            × Granted s r raw now token (requested hash_token compare faults t o raw now).0
      decoded none h = absurd (undecoded faults t raw now token h)
      decoded (some r) h =
          let (waited, granted) = requested-Granted faults t r raw now token h in
          (r, refl, waited, granted)
