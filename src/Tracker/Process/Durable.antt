-- ===== src/Tracker/Process/Durable.antt =====
-- internal/tracker/tracker.go: the state column of the database follows the state in memory.
use emergency_callup.Prelude.{
  ℕ, true, false, ◌||◌, List, some, ◌≡◌, ◌≢◌, ◌⊎◌, inl, inr, refl, sym, ap, subst, ◌∙◌, arith, ◌==◌,
  Bool-cases, Option-cases, if_of_true, if_of_false, if◌then◌else◌,
}
use emergency_callup.Prelude.Int.{ℤ}
use emergency_callup.Prelude.Dict
use emergency_callup.Prelude.Dict.{Dict, lookup-insert, insert-insert}
use emergency_callup.Floats.{Floats}
use emergency_callup.Area.Row.{Row}
use emergency_callup.Incident.Model.{Assignment, is_notified}
use emergency_callup.Incident.Tables.{assignment_of, update_assignment}
use emergency_callup.Incident.Tables.Rows.{KeepsKey, assignment_of-update_assignment}
use emergency_callup.Tracker.Judge.{Fix, Live, Event, mark_logged_in}
use emergency_callup.Tracker.Judge.Steps.{apply_fix_quiet}
use emergency_callup.Tracker.Judge.Owner.{mark_logged_in-SameOwner, mark_loc_denied-SameOwner}
use emergency_callup.Tracker.Process.{
  Tracker, Faults, failed, bump, unix_milli, flushed, sync_flush, judged_fix, process_live,
  process_fix, write_row, mark_member_logged_in, ack, consent_denied,
}
use emergency_callup.Tracker.Process.Rows.{
  IsLoaded, marked, stored, need, v, process_live-state, process_fix_found, process_fix_missing,
  process_live-answered, marked_lem, judged_fix-SameOwner,
}

-- The row of every live member is stored, under the member's key and with the state in memory.
pub record IsDurable {F : Type 0} (t : Tracker F) : Type 0 where
  pub at :
      (key : ℕ) (l : Live F)
      → Dict.lookup key t.live ≡ some l
      → (l.member_id ≡ key)
        × ((a : Assignment) × (assignment_of t.incident_id key t.tables.assignments ≡ some a)
            × (a.state ≡ l.state))

module _ {F : Type 0} (t t' : Tracker F) (key : ℕ) (l l' : Live F) (d : IsDurable t)
    (found : Dict.lookup key t.live ≡ some l) (same : l'.member_id ≡ l.member_id)
    (incident : t'.incident_id ≡ t.incident_id) (rows : t'.live ≡ Dict.insert key l' t.live) where
  module _ (a' : Assignment) (state : a'.state ≡ l'.state)
      (table : (j : ℕ)
        → assignment_of t'.incident_id j t'.tables.assignments ≡ (
            if key == j then some a' else assignment_of t.incident_id j t.tables.assignments)) where
    by_key :
        (j : ℕ) (x : Live F)
        → ((key == j) ≡ true) ⊎ ((key == j) ≡ false)
        → (if key == j then some l' else Dict.lookup j t.live) ≡ some x
        → (x.member_id ≡ j)
          × ((a : Assignment) × ((if key == j
                  then some a'
                  else assignment_of t.incident_id j t.tables.assignments)
                ≡ some a)
              × (a.state ≡ x.state))
    by_key j x (inl here) e =
        let own : l.member_id ≡ key = (d.at key l found).0 in
        (ground arith, (a', rw here refl, ground arith))
    by_key j x (inr other) e =
        let (own, stored_row) = d.at j x (ground arith) in
        let (a, row, st) = stored_row in (own, (a, rw other row, st))

    -- The rule for a write under one key, in memory and in the table.
    write-IsDurable : IsDurable t'
    write-IsDurable = record {
      at = λ j x e.
          rw (table j) (by_key j x (Bool-cases (key == j)) (rw (rows, lookup-insert) at e));
    }

  -- A write of one row in memory and of its state in the table.
  written-IsDurable :
      (change : Assignment → Assignment)
      → KeepsKey change
      → ((a : Assignment) → (change a).state ≡ l'.state)
      → t'.tables.assignments ≡ update_assignment t.incident_id key change t.tables.assignments
      → IsDurable t'
  written-IsDurable change keeps state table =
      let (a, row, st) = (d.at key l found).1 in
      write-IsDurable (change a) (state a) λ j.
        rw (incident, table)
          (ground (
            arith,
            row,
            assignment_of-update_assignment t.incident_id key j change t.tables.assignments keeps,
          ))

  -- A write of one row in memory that leaves its state and the table alone.
  kept-IsDurable : l'.state ≡ l.state → t'.tables.assignments ≡ t.tables.assignments → IsDurable t'
  kept-IsDurable state table =
      let (a, row, st) = (d.at key l found).1 in
      write-IsDurable a (st ∙ sym state) λ j. rw (incident, table) (ground (arith, row))

  -- A write of one row in memory, and of columns of the table that leave the state as it is.
  columns-IsDurable :
      (change : Assignment → Assignment)
      → KeepsKey change
      → ((a : Assignment) → (change a).state ≡ a.state)
      → l'.state ≡ l.state
      → t'.tables.assignments ≡ update_assignment t.incident_id key change t.tables.assignments
      → IsDurable t'
  columns-IsDurable change keeps columns state table =
      let (a, row, st) = (d.at key l found).1 in
      write-IsDurable (change a) (columns a ∙ st ∙ sym state) λ j.
        rw (incident, table)
          (ground (
            arith,
            row,
            assignment_of-update_assignment t.incident_id key j change t.tables.assignments keeps,
          ))

write_row_done :
    {F : Type 0} (t : Tracker F) (key : ℕ) (l : Live F) (change : Assignment → Assignment)
    (faults : Faults)
    → (write_row t key l change faults).1 ≡ true
    → ((write_row t key l change faults).0.live ≡ Dict.insert key l t.live)
      × ((write_row t key l change faults).0.incident_id ≡ t.incident_id)
      × ((write_row t key l change faults).0.tables.assignments
          ≡ update_assignment t.incident_id key change t.tables.assignments)
unfolding write_row
write_row_done t key l change faults fine = ground arith

module _ {F : Type 0} (t : Tracker F) (key : ℕ) (d : IsDurable t) (faults : Faults) where
  -- A login, an acknowledgement and a denial that are answered without an error leave the database
  -- with the state in memory.
  pub mark_member_logged_in-IsDurable :
      (now : ℤ)
      → (mark_member_logged_in t key now faults).1 ≡ true
      → IsDurable (mark_member_logged_in t key now faults).0
  unfolding mark_member_logged_in
  mark_member_logged_in-IsDurable now = elim (Option-cases (Dict.lookup key t.live)) [
    | inl missing ↦ rw (missing, mark_member_logged_in) (λ _. d)
    | inr (l, found) ↦
        rw (found, mark_member_logged_in)
          (λ fine.
            let (rows, incident, table) =
              write_row_done (record t { seq = bump t.seq }) key _ _ faults fine in
            written-IsDurable t _ key l _ d found (mark_logged_in-SameOwner l (unix_milli now)).0
              incident rows _ (λ a. (refl, refl)) (λ a. refl) table)
  ]

  pub ack-IsDurable : (mv : ℤ) → (ack t key mv faults).1 ≡ true → IsDurable (ack t key mv faults).0
  unfolding ack
  ack-IsDurable mv = elim (Option-cases (Dict.lookup key t.live)) [
    | inl missing ↦ rw (missing, ack) (λ _. d)
    | inr (l, found) ↦
        rw (found, ack)
          (λ fine.
            let (rows, incident, table) = write_row_done t key _ _ faults fine in
            columns-IsDurable t _ key l _ d found refl incident rows _ (λ a. (refl, refl))
              (λ a. refl) refl table)
  ]

  pub consent_denied-IsDurable :
      (consent_denied t key faults).1 ≡ true → IsDurable (consent_denied t key faults).0
  unfolding consent_denied
  consent_denied-IsDurable = elim (Option-cases (Dict.lookup key t.live)) [
    | inl missing ↦ rw (missing, consent_denied) (λ _. d)
    | inr (l, found) ↦
        rw (found, consent_denied)
          (λ fine.
            let (rows, incident, table) = write_row_done t key _ _ faults fine in
            written-IsDurable t _ key l _ d found (mark_loc_denied-SameOwner l).0 incident rows _
              (λ a. (refl, refl)) (λ a. refl) table)
  ]

flushed-KeepsKey : {F : Type 0} (l : Live F) → KeepsKey (flushed l)
unfolding flushed
flushed-KeepsKey l a = (refl, refl)

state-flushed : {F : Type 0} (l : Live F) (a : Assignment) → (flushed l a).state ≡ l.state
unfolding flushed
state-flushed l a = refl

sync_flush_done :
    {F : Type 0} (t : Tracker F) (key : ℕ) (l : Live F) (now : ℤ) (events : List Event)
    (faults : Faults)
    → (sync_flush t key l now events faults).1 ≡ true
    → ((sync_flush t key l now events faults).0.live
        ≡ Dict.insert key (record l { dirty = false }) t.live)
      × ((sync_flush t key l now events faults).0.incident_id ≡ t.incident_id)
      × ((sync_flush t key l now events faults).0.tables.assignments
          ≡ update_assignment t.incident_id l.member_id (flushed l) t.tables.assignments)
unfolding sync_flush
sync_flush_done t key l now events faults fine = ground arith

mark_logged_in_later :
    {F : Type 0} (l : Live F) (now : ℤ)
    → is_notified l.state ≡ false
    → (mark_logged_in l now).state ≡ l.state
unfolding mark_logged_in
mark_logged_in_later l now h = ground arith

module _ (fl : Floats) where
  open fl use {F}

  pub judged_fix_quiet :
      (l : Live F) (f : Fix F) (ar : Row F) (now : ℤ)
      → ((judged_fix fl l f ar now).transitioned || is_notified l.state) ≡ false
      → (judged_fix fl l f ar now).live.state ≡ l.state
  unfolding judged_fix
  judged_fix_quiet l f ar now h =
      apply_fix_quiet fl (mark_logged_in l (unix_milli now)) f ar (unix_milli now) (ground arith)
      ∙ mark_logged_in_later l (unix_milli now) (ground arith)

  module _ (t : Tracker F) (key : ℕ) (d : IsDurable t) (now : ℤ) (faults : Faults) where
    process_live-IsDurable :
        (l : Live F) (f : Fix F) (ar : Row F) (radius : F)
        → Dict.lookup key t.live ≡ some l
        → (process_live fl t key l f ar radius now faults).1 ≢ failed
        → IsDurable (process_live fl t key l f ar radius now faults).0
    process_live-IsDurable l f ar radius found answered =
        elim (Bool-cases (need fl t key l f ar radius now faults)) [
          | inr quiet ↦ subst IsDurable (sym (step ∙ if_of_false _ _ quiet)) (
              kept-IsDurable t (stored fl t key l f ar radius now faults) key l row d found owner
                refl refl (marks.0 ∙ judged_fix_quiet l f ar now quiet) refl)
          | inl loud ↦
              let (rows, incident, table) =
                sync_flush_done (stored fl t key l f ar radius now faults) key row now _ faults
                  (process_live-answered fl t key l f ar radius now faults loud answered) in
              subst IsDurable (sym (step ∙ if_of_true _ _ loud)) (
                written-IsDurable t _ key l (record row { dirty = false }) d found owner incident
                  (rows ∙ insert-insert key _ _ t.live) (flushed row) (flushed-KeepsKey row)
                  (state-flushed row)
                  (table
                    ∙ ap
                        (λ (k : ℕ).
                          update_assignment t.incident_id k (flushed row) t.tables.assignments)
                        (owner ∙ (d.at key l found).0)))
        ]
      where
        row : Live F
        row = marked fl t key l f ar radius now faults

        step : (process_live fl t key l f ar radius now faults).0 ≡ (
            if need fl t key l f ar radius now faults
            then (sync_flush
                (stored fl t key l f ar radius now faults)
                key
                row
                now
                (v fl t key l f ar radius now faults).events
                faults).0
            else stored fl t key l f ar radius now faults)
        step = process_live-state fl t key l f ar radius now faults

        marks :
            (row.state ≡ (judged_fix fl l f ar now).live.state)
            × (row.member_id ≡ (judged_fix fl l f ar now).live.member_id)
            × (row.eff_area_id ≡ (judged_fix fl l f ar now).live.eff_area_id)
        marks = marked_lem fl t key l f ar radius now faults

        owner : row.member_id ≡ l.member_id
        owner = marks.1 ∙ (judged_fix-SameOwner fl l f ar now).0

    -- If the row of every live member is stored with the state that memory holds, and the area of every
    -- live member is loaded, the same is true of the stored rows after a fix that does not fail.
    pub process_fix-IsDurable :
        (f : Fix F)
        → IsLoaded fl t
        → (process_fix fl t key f now faults).1 ≢ failed
        → IsDurable (process_fix fl t key f now faults).0
    process_fix-IsDurable f loaded = elim (Option-cases (Dict.lookup key t.live)) [
      | inl missing ↦ rw (process_fix_missing fl t key now faults f missing) (λ _. d)
      | inr (l, found) ↦
          let (ar, radius, cached, known) = loaded.measured key l found in
          rw (process_fix_found fl t key now faults f l ar radius found cached known)
            (process_live-IsDurable l f ar radius found)
    ]
