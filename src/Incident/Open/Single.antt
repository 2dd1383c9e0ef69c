-- ===== src/Incident/Open/Single.antt =====
-- How many incidents are active.
use emergency_callup.Prelude.{
  ℕ, ◌+◌, ◌≤◌, ◌||◌, List, [], ◌∷◌, ◌++◌, Option, none, some, String, if◌then◌else◌, ◌≡◌, refl, sym,
  ◌∙◌, arith, Bool-cases, Option-cases, if_both, subst, inl, inr, if_of_false,
}
use emergency_callup.Prelude.Int.{ℤ}
use emergency_callup.Audit.{Actor}
use emergency_callup.Incident.Model.{Incident, TeamTask, closed}
use emergency_callup.Incident.Tables.{Tables, is_active, active_incident}
use emergency_callup.Incident.Store.{
  Answer, ok, StoreFaults, TeamInput, MemberOverrideInput, get_active, audited, update_incident,
  change_incident, update_meta, close_incident,
}
use emergency_callup.Incident.Open.{
  next_incident_id, lacks_values, has_team_twice, new_incident, is_some, open_tasks, open_with,
  open_incident,
}

abbrev one : Incident → ℕ
one i = if is_active i.status then 1 else 0

abbrev pub count_active : List Incident → ℕ
count_active [] = 0
count_active (i ∷ rest) = one i + count_active rest

none_active : (is : List Incident) → active_incident is ≡ none → count_active is ≡ 0
unfolding active_incident
none_active [] h = refl
none_active (i ∷ is) h = ground (arith, h, none_active is)

active_of_none : (is : List Incident) → count_active is ≡ 0 → active_incident is ≡ none
unfolding active_incident
active_of_none [] h = refl
active_of_none (i ∷ is) h = ground (arith, h, active_of_none is)

count-append :
    (is : List Incident) (i : Incident) → count_active (is ++ i ∷ []) ≡ count_active is + one i
count-append [] i = ground arith
count-append (j ∷ is) i = ground (arith, count-append is i)

count-update :
    (id : ℕ) (change : Incident → Incident) (is : List Incident)
    → ((i : Incident) → one (change i) ≤ one i)
    → count_active (update_incident id change is) ≤ count_active is
unfolding update_incident
count-update id change [] less = ground arith
count-update id change (i ∷ is) less = ground (arith, less i, count-update id change is less)

-- A closed incident is no longer active.
ended : Actor → ℤ → Incident → Incident
ended actor now i = record i { status = closed; closed_by = some actor; closed_at = now }

ended_less : (actor : Actor) (now : ℤ) (x : Incident) → one (ended actor now x) ≤ one x
unfolding ended is_active
ended_less actor now x = ground arith

count-close :
    (actor : Actor) (now : ℤ) (is : List Incident) (i : Incident)
    → active_incident is ≡ some i
    → count_active (update_incident i.id (ended actor now) is) + 1 ≤ count_active is
unfolding active_incident update_incident ended is_active
count-close actor now [] i h = ground (arith, h)
count-close actor now (j ∷ is) i h = elim (Bool-cases (is_active j.status)) [
  | inl e ↦
      let same : j ≡ i = ground (arith, h, e) in
      let fewer = count-update j.id (ended actor now) is (ended_less actor now) in
      subst
        (λ (k : Incident).
          count_active (update_incident k.id (ended actor now) (j ∷ is)) + 1
          ≤ count_active (j ∷ is))
        same (ground (arith, fewer, e))
  | inr e ↦
      let fewer = count-close actor now is i (sym (if_of_false _ _ e) ∙ h) in
      ground (arith, fewer, e, ended_less actor now j)
]

-- What an administrator does to the incident as a whole.
pub data Operation : Type 0 where
  opening :
      StoreFaults
      → String
      → String
      → List TeamInput
      → List MemberOverrideInput
      → Actor
      → ℤ
      → Operation
  correction : StoreFaults → Option String → Option String → Actor → ℤ → Operation
  closure : StoreFaults → Actor → ℤ → Operation

module _ {F : Type 0} where
  Single : Tables F × Answer Incident → Type 0
  Single r = count_active r.0.incidents ≤ 1

  abbrev pub perform : Tables F → Operation → Tables F × Answer Incident
  perform t (opening faults type_text message teams overrides actor now) =
      open_incident faults t type_text message teams overrides actor now
  perform t (correction faults type_text message actor now) =
      update_meta faults t type_text message actor now
  perform t (closure faults actor now) = close_incident faults t actor now

  abbrev pub perform_all : Tables F → List Operation → Tables F
  perform_all t [] = t
  perform_all t (o ∷ rest) = perform_all (perform t o).0 rest

  change-Single :
      (faults : StoreFaults) (t : Tables F) (change : Incident → Incident) (kind : String)
      (actor : Actor) (now : ℤ) (o : Option Incident)
      → ((i : Incident) → one (change i) ≤ one i)
      → count_active t.incidents ≤ 1
      → Single (change_incident faults t change kind actor now o)
  unfolding change_incident Single audited
  change-Single faults t change kind actor now none less h = h
  change-Single faults t change kind actor now (some i) less h =
      if_both (λ (r : Tables F × Answer Incident). count_active r.0.incidents ≤ 1) faults.write _ _
        h (ground (arith, h, count-update i.id change t.incidents less))

  open-Single :
      (faults : StoreFaults) (t : Tables F) (type_text message : String) (teams : List TeamInput)
      (overrides : List MemberOverrideInput) (actor : Actor) (now : ℤ) (id : ℕ)
      (tasks : Option (List (TeamTask F)))
      → count_active t.incidents ≤ 1
      → Single (open_with faults t type_text message teams overrides actor now id tasks)
  unfolding open_with Single audited get_active is_some
  open-Single faults t type_text message teams overrides actor now id none h = h
  open-Single faults t type_text message teams overrides actor now id (some tasks) h =
      elim (Option-cases (active_incident t.incidents)) [
        | inr (i, found) ↦ rw found h
        | inl free ↦ rw free (
            if_both (λ (r : Tables F × Answer Incident). count_active r.0.incidents ≤ 1)
              (has_team_twice teams || faults.write) _ _ h
              (ground (
                arith,
                none_active t.incidents free,
                count-append t.incidents (new_incident id type_text message actor now),
              )))
      ]

  perform-Single :
      (t : Tables F) (o : Operation) → count_active t.incidents ≤ 1 → Single (perform t o)
  unfolding open_incident update_meta close_incident ended Single
  perform-Single t (opening faults type_text message [] overrides actor now) h = h
  perform-Single t (opening faults type_text message (team ∷ rest) overrides actor now) h =
      if_both (λ (r : Tables F × Answer Incident). count_active r.0.incidents ≤ 1)
        (lacks_values (team ∷ rest)) _ _ h
        (open-Single faults t type_text message (team ∷ rest) overrides actor now
          (next_incident_id t.incidents)
          (open_tasks t (next_incident_id t.incidents) actor now (team ∷ rest)) h)
  perform-Single t (correction faults type_text message actor now) h =
      change-Single faults t _ "incident_update" actor now (get_active t) (λ i. ground arith) h
  perform-Single t (closure faults actor now) h =
      change-Single faults t (ended actor now) "incident_close" actor now (get_active t)
        (ended_less actor now) h

  -- However incidents are opened, corrected and closed and whichever statements fail, at most one
  -- incident is active if at most one was at the start.
  pub single_incident :
      (t : Tables F) (operations : List Operation)
      → count_active t.incidents ≤ 1
      → count_active (perform_all t operations).incidents ≤ 1
  unfolding Single
  single_incident t [] h = h
  single_incident t (o ∷ rest) h = single_incident (perform t o).0 rest (perform-Single t o h)

  closed-get_active :
      (faults : StoreFaults) (t : Tables F) (actor : Actor) (now : ℤ) (answer : Incident)
      (i : Incident)
      → count_active t.incidents ≤ 1
      → get_active t ≡ some i
      → (change_incident faults t (ended actor now) "incident_close" actor now (some i)).1
        ≡ ok answer
      → get_active
          (change_incident faults t (ended actor now) "incident_close" actor now (some i)).0
        ≡ none
  unfolding change_incident get_active audited
  closed-get_active faults t actor now answer i h found fine = elim (Bool-cases faults.write) [
    | inl fails ↦ ground (arith, fails, fine)
    | inr works ↦
        let fewer = count-close actor now t.incidents i found in
        rw works (
          active_of_none (update_incident i.id (ended actor now) t.incidents)
            (ground (arith, fewer, h)))
  ]

  unopened-get_active :
      (faults : StoreFaults) (t : Tables F) (actor : Actor) (now : ℤ)
      → get_active t ≡ none
      → get_active (change_incident faults t (ended actor now) "incident_close" actor now none).0
        ≡ none
  unfolding change_incident
  unopened-get_active faults t actor now missing = missing

  -- If at most one incident is active and `Close` succeeds, none is active afterwards.
  pub close_leaves_none :
      (faults : StoreFaults) (t : Tables F) (actor : Actor) (now : ℤ) (answer : Incident)
      → count_active t.incidents ≤ 1
      → (close_incident faults t actor now).1 ≡ ok answer
      → get_active (close_incident faults t actor now).0 ≡ none
  unfolding close_incident ended
  close_leaves_none faults t actor now answer h = elim (Option-cases (get_active t)) [
    | inl missing ↦
        rw (missing, close_incident) (λ _. unopened-get_active faults t actor now missing)
    | inr (i, found) ↦
        rw (found, close_incident) (closed-get_active faults t actor now answer i h found)
  ]
