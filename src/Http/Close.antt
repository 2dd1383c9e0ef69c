-- ===== src/Http/Close.antt =====
-- internal/httpapi/admin_incident.go: the end of the incident. The tracker and the stores use the one
-- database, the tables of which stand in the tracker's record. The backup hook is left out.
use emergency_callup.Prelude.{
  ℕ, ◌+◌, ◌≤◌, Bool, true, false, ◌&&◌, List, [], ◌∷◌, Option, none, some, String, str_eq, ltb,
  if◌then◌else◌, ◌≡◌, refl, arith, Bool-cases, inl, inr,
}
use emergency_callup.Prelude.Int.{pos}
use emergency_callup.Floats.{Floats}
use emergency_callup.Audit.{Actor}
use emergency_callup.Auth.Session.{member, Session, is_kind, expire_member_sessions_by}
use emergency_callup.Incident.Model.{Incident}
use emergency_callup.Incident.Store
use emergency_callup.Incident.Store.{StoreFaults, get_active, close_incident}
use emergency_callup.Incident.Open.Single.{count_active, close_leaves_none}
use emergency_callup.Tracker.Process.{Tracker, Faults, load_active}
use emergency_callup.Http.{Outcome, invalid, server_error, replied}

-- Which statements of the request fail.
pub record CloseFaults : Type 0 where
  pub closing : StoreFaults
  pub expiry : Bool
  pub loading : Faults

pub record Server (F : Type 0) : Type 0 where
  pub tracker : Tracker F
  pub sessions : List Session

-- No row of a member outlives the time.
abbrev pub EndsBy : ℕ → List Session → Type 0
EndsBy cutoff [] = Unit
EndsBy cutoff (s ∷ rest) =
    ((is_kind s.kind member && ltb cutoff s.expires_at) ≡ false) × EndsBy cutoff rest

expire-EndsBy :
    (cutoff : ℕ) (xs : List Session) → EndsBy cutoff (expire_member_sessions_by cutoff xs)
unfolding expire_member_sessions_by
expire-EndsBy cutoff [] = tt
expire-EndsBy cutoff (x ∷ xs) = (ground arith, expire-EndsBy cutoff xs)

module _ (fl : Floats) where
  open fl use {F}

  -- After `LoadActive`.
  abbrev pub loaded : List Session → ℕ → Tracker F × Bool → Server F × Outcome ℕ
  loaded sessions id (t, false) = (record { tracker = t; sessions = sessions }, server_error)
  loaded sessions id (t, true) = (record { tracker = t; sessions = sessions }, replied id)

  -- From `ExpireMemberSessionsBy` on.
  unfoldable pub expire_and_load :
      CloseFaults → Tracker F → List Session → ℕ → ℕ → Server F × Outcome ℕ
  unfolding load_active expire_member_sessions_by
  expire_and_load faults t sessions now id =
      if faults.expiry
      then (record { tracker = t; sessions = sessions }, server_error)
      else loaded (expire_member_sessions_by (now + 3600000) sessions) id
          (load_active fl t faults.loading)

  -- The answers of `Incidents.Close`.
  unfoldable pub closed_answer :
      CloseFaults → Tracker F → List Session → ℕ → Store.Answer Incident → Server F × Outcome ℕ
  unfolding expire_and_load
  closed_answer faults t sessions now (Store.ok i) = expire_and_load faults t sessions now i.id
  closed_answer faults t sessions now (Store.err Store.no_active_incident) =
      (record { tracker = t; sessions = sessions }, invalid)
  closed_answer faults t sessions now (Store.err e) =
      (record { tracker = t; sessions = sessions }, server_error)

  -- The request once the confirmation is right.
  unfoldable pub confirmed_close :
      CloseFaults → Tracker F → List Session → Actor → ℕ → Server F × Outcome ℕ
  unfolding closed_answer close_incident
  confirmed_close faults t sessions actor now =
      let r = close_incident faults.closing t.tables actor (pos now) in
      closed_answer faults (record t { tables = r.0 }) sessions now r.1

  -- `handleIncidentClose`; `confirm` is `none` if the body does not decode.
  unfoldable pub handle_incident_close :
      CloseFaults → Server F → String → Option String → ℕ → Server F × Outcome ℕ
  unfolding confirmed_close
  handle_incident_close faults server login_id none now = (server, invalid)
  handle_incident_close faults server login_id (some confirm) now =
      if str_eq confirm "상황종료"
      then confirmed_close faults server.tracker server.sessions (Actor.admin login_id) now
      else (server, invalid)

  -- No incident is active, the tracker has no rows and no area, and the members' sessions end within an hour.
  abbrev pub Over : Server F → ℕ → Type 0
  Over server now =
      (get_active server.tracker.tables ≡ none)
      × (server.tracker.live ≡ [])
      × (server.tracker.area_cache ≡ [])
      × (server.tracker.incident_id ≡ 0)
      × EndsBy (now + 3600000) server.sessions

  loaded-Over :
      (faults : Faults) (t : Tracker F) (sessions : List Session) (now id answer : ℕ)
      → get_active t.tables ≡ none
      → EndsBy (now + 3600000) sessions
      → (loaded sessions id (load_active fl t faults)).1 ≡ replied answer
      → Over (loaded sessions id (load_active fl t faults)).0 now
  unfolding load_active get_active
  loaded-Over faults t sessions now id answer gone ends h = elim (Bool-cases faults.query_fails) [
    | inl e ↦ absurd (ground (arith, e, h))
    | inr e ↦ rw (e, gone) (gone, refl, refl, refl, ends)
  ]

  expired-Over :
      (faults : CloseFaults) (t : Tracker F) (sessions : List Session) (now id answer : ℕ)
      → get_active t.tables ≡ none
      → (expire_and_load faults t sessions now id).1 ≡ replied answer
      → Over (expire_and_load faults t sessions now id).0 now
  unfolding expire_and_load
  expired-Over faults t sessions now id answer gone = elim (Bool-cases faults.expiry) [
    | inl e ↦ rw e (λ h. absurd (ground (arith, h)))
    | inr e ↦ rw e (
        loaded-Over faults.loading t (expire_member_sessions_by (now + 3600000) sessions) now id
          answer gone (expire-EndsBy (now + 3600000) sessions))
  ]

  answered-Over :
      (faults : CloseFaults) (t : Tracker F) (sessions : List Session) (now answer : ℕ)
      (a : Store.Answer Incident)
      → ((i : Incident) → a ≡ Store.ok i → get_active t.tables ≡ none)
      → (closed_answer faults t sessions now a).1 ≡ replied answer
      → Over (closed_answer faults t sessions now a).0 now
  unfolding closed_answer
  answered-Over faults t sessions now answer (Store.ok i) gone h =
      expired-Over faults t sessions now i.id answer (gone i refl) h
  answered-Over faults t sessions now answer (Store.err e) gone h = absurd (no_reply e h)
    where
      no_reply :
          (e : Store.StoreError)
          → (closed_answer faults t sessions now (Store.err e)).1 ≡ replied answer
          → ⊥
      no_reply Store.no_active_incident h = ground (arith, h)
      no_reply Store.incident_active h = ground (arith, h)
      no_reply Store.team_task_not_found h = ground (arith, h)
      no_reply Store.assignment_missing h = ground (arith, h)
      no_reply Store.no_teams_requested h = ground (arith, h)
      no_reply Store.team_missing_values h = ground (arith, h)
      no_reply Store.area_not_found h = ground (arith, h)
      no_reply Store.database_error h = ground (arith, h)

  -- If at most one incident is active and the end of the incident is answered without an error, then no
  -- incident is active, the tracker follows no member and no member's session outlives the next hour.
  pub handle_incident_close-Over :
      (faults : CloseFaults) (server : Server F) (login_id : String) (confirm : Option String)
      (now answer : ℕ)
      → count_active server.tracker.tables.incidents ≤ 1
      → (handle_incident_close faults server login_id confirm now).1 ≡ replied answer
      → Over (handle_incident_close faults server login_id confirm now).0 now
  unfolding handle_incident_close confirmed_close
  handle_incident_close-Over faults server login_id none now answer single =
      λ h. absurd (ground (arith, h))
  handle_incident_close-Over faults server login_id (some confirm) now answer single =
      elim (Bool-cases (str_eq confirm "상황종료")) [
        | inr e ↦ rw e (λ h. absurd (ground (arith, h)))
        | inl e ↦ rw e (
            let t = server.tracker in
            answered-Over faults
              (record t {
                tables =
                    (close_incident faults.closing t.tables (Actor.admin login_id) (pos now)).0;
              })
              server.sessions now answer
              (close_incident faults.closing t.tables (Actor.admin login_id) (pos now)).1
              (λ i.
                close_leaves_none faults.closing t.tables (Actor.admin login_id) (pos now) i
                  single))
      ]
