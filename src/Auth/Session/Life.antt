-- ===== src/Auth/Session/Life.antt =====
-- Which sessions are accepted, and until when.
use emergency_callup.Prelude.{
  ℕ, ◌+◌, ◌≤◌, ◌<◌, Bool, true, false, ◌&&◌, List, [], ◌∷◌, ◌++◌, Option, none, some, String,
  str_eq, ltb, if◌then◌else◌, ◌≡◌, refl, sym, ◌∙◌, ◌⊎◌, inl, inr, arith, Bool-cases, if_both,
  if_of_false, ◌↔◌, ◌==◌,
}
use emergency_callup.Auth.Session.{
  SessionKind, admin, member, other, Session, database_error, Answer, ok, err, ttl_of,
  admin_idle_timeout, is_kind, session_of, revoke_by_hash, touch, store_session, create_with,
  create, is_expired, is_idle, SessionFaults, drop_session, judge_session, validate, revoke,
  revoke_all_for_subject, expire_member_sessions_by,
}

-- The session expires no later than its kind's lifetime after it was created.
abbrev pub LivesNoLonger : Session → Type 0
LivesNoLonger s = (ttl : ℕ) × ((ttl_of s.kind ≡ some ttl) × (s.expires_at ≤ s.created_at + ttl))

abbrev pub AllBounded : List Session → Type 0
AllBounded [] = Unit
AllBounded (s ∷ rest) = LivesNoLonger s × AllBounded rest

All-append :
    (xs : List Session) (s : Session) → AllBounded xs → LivesNoLonger s → AllBounded (xs ++ s ∷ [])
All-append [] s _ p = (p, tt)
All-append (x ∷ xs) s (px, pxs) p = (px, All-append xs s pxs p)

All-revoke_by_hash :
    (hash : String) (xs : List Session) → AllBounded xs → AllBounded (revoke_by_hash hash xs)
unfolding revoke_by_hash
All-revoke_by_hash hash [] _ = tt
All-revoke_by_hash hash (x ∷ xs) (p, ps) =
    if_both AllBounded (str_eq x.token_hash hash) _ _ (All-revoke_by_hash hash xs ps)
      (p, All-revoke_by_hash hash xs ps)

All-touch :
    (hash : String) (now : ℕ) (xs : List Session) → AllBounded xs → AllBounded (touch hash now xs)
unfolding touch
All-touch hash now [] _ = tt
All-touch hash now (x ∷ xs) (p, ps) = (
  if_both LivesNoLonger (str_eq x.token_hash hash) (record x { last_seen_at = now }) x p p,
  All-touch hash now xs ps,
)

All-revoke_all :
    (kind : SessionKind) (id : ℕ) (xs : List Session)
    → AllBounded xs
    → AllBounded (revoke_all_for_subject kind id xs)
unfolding revoke_all_for_subject
All-revoke_all kind id [] _ = tt
All-revoke_all kind id (x ∷ xs) (p, ps) =
    if_both AllBounded (is_kind x.kind kind && x.subject_id == id) _ _
      (All-revoke_all kind id xs ps) (p, All-revoke_all kind id xs ps)

below :
    (s : Session) (cutoff : ℕ)
    → (is_kind s.kind member && ltb cutoff s.expires_at) ≡ true
    → cutoff < s.expires_at
below s cutoff h = ground arith

shortened :
    (cutoff : ℕ) (s : Session)
    → LivesNoLonger s
    → LivesNoLonger (
        if is_kind s.kind member && ltb cutoff s.expires_at
        then record s { expires_at = cutoff }
        else s)
shortened cutoff s (ttl, (is_ttl, bound)) =
    elim (Bool-cases (is_kind s.kind member && ltb cutoff s.expires_at)) [
      | inl h ↦ rw h (ttl, (is_ttl, ground (arith, bound, below s cutoff h)))
      | inr h ↦ rw h (ttl, (is_ttl, bound))
    ]

found_satisfies :
    (hash : String) (xs : List Session) (s : Session)
    → AllBounded xs
    → session_of hash xs ≡ some s
    → LivesNoLonger s
unfolding session_of
found_satisfies hash [] s _ h = ground arith
found_satisfies hash (x ∷ xs) s (p, ps) h = elim (Bool-cases (str_eq x.token_hash hash)) [
  | inl e ↦ ground (arith, p)
  | inr e ↦ found_satisfies hash xs s ps (sym (if_of_false _ _ e) ∙ h)
]

-- The operations of the store.
pub data Operation : Type 0 where
  creation : Bool → SessionKind → ℕ → ℕ → String → Operation
  validation : SessionFaults → String → ℕ → Operation
  revocation_of : String → Operation
  revocation_of_all : SessionKind → ℕ → Operation
  expiry : ℕ → Operation

module _ (hash_token : String → String) where
  abbrev pub perform : List Session → Operation → List Session
  perform sessions (creation fails kind id now raw) =
      (create hash_token fails sessions kind id now raw).0
  perform sessions (validation faults raw now) = (validate hash_token faults sessions raw now).0
  perform sessions (revocation_of raw) = revoke hash_token sessions raw
  perform sessions (revocation_of_all kind id) = revoke_all_for_subject kind id sessions
  perform sessions (expiry cutoff) = expire_member_sessions_by cutoff sessions

  abbrev pub perform_all : List Session → List Operation → List Session
  perform_all sessions [] = sessions
  perform_all sessions (o ∷ rest) = perform_all (perform sessions o) rest

  AllBounded-expire :
      (cutoff : ℕ) (xs : List Session)
      → AllBounded xs
      → AllBounded (expire_member_sessions_by cutoff xs)
  unfolding expire_member_sessions_by
  AllBounded-expire cutoff [] _ = tt
  AllBounded-expire cutoff (x ∷ xs) (p, ps) = (shortened cutoff x p, AllBounded-expire cutoff xs ps)

  AllBounded-store :
      (fails : Bool) (xs : List Session) (s : Session) (raw : String) (o : Option Session)
      → AllBounded xs
      → LivesNoLonger s
      → AllBounded (store_session fails xs s raw o).0
  unfolding store_session
  AllBounded-store fails xs s raw (some taken) ps p = ps
  AllBounded-store true xs s raw none ps p = ps
  AllBounded-store false xs s raw none ps p = All-append xs s ps p

  AllBounded-create :
      (fails : Bool) (kind : SessionKind) (id now : ℕ) (raw : String) (xs : List Session)
      → AllBounded xs
      → AllBounded (create hash_token fails xs kind id now raw).0
  unfolding create create_with
  AllBounded-create fails admin id now raw xs ps =
      AllBounded-store fails xs _ raw _ ps (_, (refl, ground arith))
  AllBounded-create fails member id now raw xs ps =
      AllBounded-store fails xs _ raw _ ps (_, (refl, ground arith))
  AllBounded-create fails other id now raw xs ps = ps

  AllBounded-drop :
      (faults : SessionFaults) (hash : String) (xs : List Session)
      → AllBounded xs
      → AllBounded (drop_session faults hash xs)
  unfolding drop_session
  AllBounded-drop faults hash xs ps =
      if_both AllBounded faults.revocation xs _ ps (All-revoke_by_hash hash xs ps)

  Bounded : List Session × Answer Session → Type 0
  Bounded r = AllBounded r.0

  AllBounded-judge :
      (faults : SessionFaults) (hash : String) (now : ℕ) (xs : List Session) (o : Option Session)
      → AllBounded xs
      → AllBounded (judge_session faults xs hash now o).0
  unfolding judge_session Bounded
  AllBounded-judge faults hash now xs none ps = ps
  AllBounded-judge faults hash now xs (some s) ps =
      if_both Bounded (is_expired s now) _ _ (AllBounded-drop faults hash xs ps) (
        if_both Bounded (is_idle s now) _ _ (AllBounded-drop faults hash xs ps)
          (if_both Bounded faults.update (xs, err database_error) _ ps (All-touch hash now xs ps)))

  AllBounded-validate :
      (faults : SessionFaults) (raw : String) (now : ℕ) (xs : List Session)
      → AllBounded xs
      → AllBounded (validate hash_token faults xs raw now).0
  unfolding validate Bounded
  AllBounded-validate faults raw now xs ps =
      if_both Bounded faults.query (xs, err database_error) _ ps
        (AllBounded-judge faults (hash_token raw) now xs (session_of (hash_token raw) xs) ps)

  AllBounded-perform :
      (xs : List Session) (o : Operation) → AllBounded xs → AllBounded (perform xs o)
  unfolding revoke
  AllBounded-perform xs (creation fails kind id now raw) ps =
      AllBounded-create fails kind id now raw xs ps
  AllBounded-perform xs (validation faults raw now) ps = AllBounded-validate faults raw now xs ps
  AllBounded-perform xs (revocation_of raw) ps = All-revoke_by_hash (hash_token raw) xs ps
  AllBounded-perform xs (revocation_of_all kind id) ps = All-revoke_all kind id xs ps
  AllBounded-perform xs (expiry cutoff) ps = AllBounded-expire cutoff xs ps

  AllBounded-perform_all :
      (xs : List Session) (os : List Operation) → AllBounded xs → AllBounded (perform_all xs os)
  AllBounded-perform_all xs [] ps = ps
  AllBounded-perform_all xs (o ∷ os) ps =
      AllBounded-perform_all (perform xs o) os (AllBounded-perform xs o ps)

  -- What an accepted row has passed.
  unfoldable pub Passes : ℕ → Session → Type 0
  Passes now s = (now < s.expires_at) × (s.kind ≡ admin → now ≤ s.last_seen_at + admin_idle_timeout)

  within_limits :
      (now : ℕ) (s : Session) → is_expired s now ≡ false → is_idle s now ≡ false → Passes now s
  unfolding Passes is_expired is_idle is_kind
  within_limits now s fresh busy = (ground (arith, fresh), λ e. ground (arith, busy, e))

  judged :
      (faults : SessionFaults) (hash : String) (now : ℕ) (xs : List Session) (o : Option Session)
      (answer : Session)
      → (judge_session faults xs hash now o).1 ≡ ok answer
      → (s : Session) × ((o ≡ some s) × (Passes now s × (answer ≡ record s { last_seen_at = now })))
  unfolding judge_session
  judged faults hash now xs none answer h = ground (arith, h)
  judged faults hash now xs (some s) answer h =
      (s, (refl, (within_limits now s (ground (arith, h)) (ground (arith, h)), ground (arith, h))))

  granted :
      (fails : Bool) (hash : String) (now : ℕ) (xs : List Session) (s : Session)
      → Passes now s
      → (judge_session
          (record { query = false; revocation = fails; update = false })
          xs
          hash
          now
          (some s)).1
        ≡ ok (record s { last_seen_at = now })
  unfolding judge_session Passes is_expired is_idle is_kind
  granted fails hash now xs s (fresh, busy) = elim (kind_cases s.kind) [
    | inl e ↦ ground (arith, fresh, busy e, e)
    | inr e ↦ rw e (ground (arith, fresh))
  ]
    where
      kind_cases : (k : SessionKind) → (k ≡ admin) ⊎ (is_kind k admin ≡ false)
      kind_cases admin = inl refl
      kind_cases member = inr refl
      kind_cases other = inr refl

  -- With no query or update failing, a token is accepted exactly if its row has not expired and, for an
  -- administrator, was seen at most two hours ago; the answer is that row, seen now.
  pub validate_accepts_iff :
      (revocation_fails : Bool) (sessions : List Session) (raw : String) (now : ℕ)
      (answer : Session)
      → ((validate hash_token
            (record { query = false; revocation = revocation_fails; update = false })
            sessions
            raw
            now).1
          ≡ ok answer)
        ↔ ((s : Session) × ((session_of (hash_token raw) sessions ≡ some s)
              × (((now < s.expires_at)
                    × (s.kind ≡ admin → now ≤ s.last_seen_at + admin_idle_timeout))
                  × (answer ≡ record s { last_seen_at = now }))))
  unfolding validate Passes
  validate_accepts_iff revocation_fails sessions raw now answer = (
    judged (record { query = false; revocation = revocation_fails; update = false })
        (hash_token raw) now sessions (session_of (hash_token raw) sessions) answer,
    λ accepted.
        let (s, (found, (passes, same))) = accepted in
        rw (found, same) (granted revocation_fails (hash_token raw) now sessions s passes),
  )

  pub accepted-Passes :
      (faults : SessionFaults) (xs : List Session) (raw : String) (now : ℕ) (answer : Session)
      → (validate hash_token faults xs raw now).1 ≡ ok answer
      → (s : Session) × ((session_of (hash_token raw) xs ≡ some s)
          × (Passes now s × (answer ≡ record s { last_seen_at = now })))
  unfolding validate
  accepted-Passes faults xs raw now answer h =
      judged faults (hash_token raw) now xs (session_of (hash_token raw) xs) answer
        (ground (arith, h))

  -- Whatever operations the store performs from empty and whichever statements fail, a token that is
  -- accepted belongs to a session younger than its kind's lifetime.
  pub accepted_within_lifetime :
      (operations : List Operation) (faults : SessionFaults) (raw : String) (now : ℕ)
      (answer : Session)
      → (validate hash_token faults (perform_all [] operations) raw now).1 ≡ ok answer
      → (ttl : ℕ) × ((ttl_of answer.kind ≡ some ttl) × (now < answer.created_at + ttl))
  unfolding Passes
  accepted_within_lifetime operations faults raw now answer h =
      let (s, (found, (passes, same))) =
        accepted-Passes faults (perform_all [] operations) raw now answer h in
      let (ttl, (is_ttl, bound)) =
        found_satisfies (hash_token raw) _ s (AllBounded-perform_all [] operations tt) found in
      (ttl, (rw same is_ttl, rw same (ground (arith, bound, passes.0))))
