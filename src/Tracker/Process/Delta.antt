-- ===== src/Tracker/Process/Delta.antt =====
-- internal/tracker/tracker.go: what the delta feed shows of a fix.
use mathlib.Core.List.{Memᴰ}
use mathlib.Core.List.Memᴰ.{head, tail}
use emergency_callup.Prelude.{
  ℕ, ◌+◌, ◌<◌, ◌^◌, ltb, [], ◌∷◌, sym, subst, ◌≢◌, true, false, some, ◌≡◌, ◌⊎◌, inl, inr, refl, ap,
  ◌∙◌, arith, ◌==◌, Bool-cases, if_of_true, if_of_false,
}
use emergency_callup.Prelude.Int.{ℤ}
use emergency_callup.Prelude.Dict
use emergency_callup.Prelude.Dict.{Dict, lookup-insert, insert-insert}
use emergency_callup.Floats.{Floats}
use emergency_callup.Area.Row.{Row}
use emergency_callup.Tracker.Judge.{Fix, Live}
use emergency_callup.Tracker.Process.{
  Tracker, Faults, Reply, FixResult, bump, process_live, process_fix, to_snapshot, snapshot_since,
}
use emergency_callup.Tracker.Process.Rows.{
  IsLoaded, v, need, marked, stored, process_live-state, sync_flush-live, sync_flush-rest,
  marked_lem, process_fix_found,
}
use emergency_callup.Tracker.Process.Durable.{judged_fix_quiet}

same_key : (key : ℕ) → (key == key) ≡ true
same_key key = ground arith

module _ (fl : Floats) where
  open fl use {F}

  -- The state is as it was, or row and tracker carry the next sequence number.
  abbrev IsMarked : Tracker F → Tracker F → Live F → Live F → Type 0
  IsMarked t t' l l' = (l'.state ≡ l.state) ⊎ ((l'.seq_at ≡ bump t.seq) × (t'.seq ≡ bump t.seq))

  module _ (t : Tracker F) (key : ℕ) (l : Live F) (f : Fix F) (ar : Row F) (radius : F) (now : ℤ)
      (faults : Faults) where
    marked_loud :
        need fl t key l f ar radius now faults ≡ true
        → (marked fl t key l f ar radius now faults).seq_at ≡ bump t.seq
    marked_loud loud = rw loud refl

    stored_loud :
        need fl t key l f ar radius now faults ≡ true
        → (stored fl t key l f ar radius now faults).seq ≡ bump t.seq
    stored_loud loud = rw loud refl

    process_live-IsMarked :
        (l' : Live F) × ((process_live fl t key l f ar radius now faults).0.live
          ≡ Dict.insert key l' t.live)
        × IsMarked t (process_live fl t key l f ar radius now faults).0 l l'
    process_live-IsMarked = elim (Bool-cases (need fl t key l f ar radius now faults)) [
      | inr quiet ↦ (
        marked fl t key l f ar radius now faults,
        ap (λ (s : Tracker F). s.live)
            (process_live-state fl t key l f ar radius now faults ∙ if_of_false _ _ quiet),
        inl (
            (marked_lem fl t key l f ar radius now faults).0
            ∙ judged_fix_quiet fl l f ar now quiet),
      )
      | inl loud ↦
          let seq_of =
            ap (λ (s : Tracker F). s.seq)
              (process_live-state fl t key l f ar radius now faults ∙ if_of_true _ _ loud)
            ∙ (sync_flush-rest (stored fl t key l f ar radius now faults) key
                (marked fl t key l f ar radius now faults) now
                (v fl t key l f ar radius now faults).events faults).2
            ∙ stored_loud loud in
          let m = marked fl t key l f ar radius now faults in
          let live_of =
            ap (λ (s : Tracker F). s.live)
              (process_live-state fl t key l f ar radius now faults ∙ if_of_true _ _ loud) in
          elim (sync_flush-live (stored fl t key l f ar radius now faults) key m now
            (v fl t key l f ar radius now faults).events faults) [
              | inl kept ↦ (m, live_of ∙ kept, inr (marked_loud loud, seq_of))
              | inr cleared ↦ (
                record m { dirty = false },
                live_of ∙ cleared ∙ insert-insert key (record m { dirty = false }) m t.live,
                inr (marked_loud loud, seq_of),
              )
            ]
    ]

  process_fix-IsMarked :
      (t : Tracker F) (key : ℕ) (l l' : Live F) (f : Fix F) (now : ℤ) (faults : Faults)
      → IsLoaded fl t
      → Dict.lookup key t.live ≡ some l
      → Dict.lookup key (process_fix fl t key f now faults).0.live ≡ some l'
      → IsMarked t (process_fix fl t key f now faults).0 l l'
  process_fix-IsMarked t key l l' f now faults loaded found after =
      let (ar, radius, cached, known) = loaded.measured key l found in
      let (x, rows, shown) = process_live-IsMarked t key l f ar radius now faults in
      let same = process_fix_found fl t key now faults f l ar radius found cached known in
      let is_x : Dict.lookup key (process_fix fl t key f now faults).0.live ≡ some x =
        ap (λ (r : Tracker F × Reply (FixResult F)). Dict.lookup key r.0.live) same
        ∙ ap (Dict.lookup key) rows
        ∙ lookup-insert key key x t.live
        ∙ if_of_true _ _ (same_key key) in
      let equal : x ≡ l' = ground (arith, sym is_x ∙ after) in
      subst (λ (y : Live F). IsMarked t (process_fix fl t key f now faults).0 l y) equal
        (rw same shown)

  bump_small : (seq : ℕ) → seq + 1 < 2 ^ 64 → bump seq ≡ seq + 1
  unfolding bump
  bump_small seq small = omega (arith, small)

  -- A row with a later number is in the delta.
  lookup-snapshot_since :
      (since key : ℕ) (d : Dict (Live F)) (l : Live F)
      → Dict.lookup key d ≡ some l
      → since < l.seq_at
      → Memᴰ (to_snapshot l) (snapshot_since since d)
  unfolding Dict.lookup snapshot_since
  lookup-snapshot_since since key [] l h late = absurd (ground (arith, h))
  lookup-snapshot_since since key ((k, x) ∷ rest) l h late = elim (Bool-cases (k == key)) [
    | inl e ↦
        let same : x ≡ l = ground (arith, e, h) in
        let shown : ltb since x.seq_at ≡ true = rw same (ground (arith, late)) in
        rw (shown, same) (head refl)
    | inr e ↦
        let later = lookup-snapshot_since since key rest l (ground (arith, e, h)) late in
        elim (Bool-cases (ltb since x.seq_at)) [ inl b ↦ rw b (tail later) | inr b ↦ rw b later ]
  ]

  -- If the area of every live member is loaded, a fix that changes the state of a live member raises the
  -- tracker's sequence number by one, and the delta since the earlier number shows the member's row, as
  -- long as the number does not wrap at 2^64.
  pub process_fix-snapshot_since :
      (t : Tracker F) (key : ℕ) (l l' : Live F) (f : Fix F) (now : ℤ) (faults : Faults)
      → IsLoaded fl t
      → t.seq + 1 < 2 ^ 64
      → Dict.lookup key t.live ≡ some l
      → Dict.lookup key (process_fix fl t key f now faults).0.live ≡ some l'
      → l'.state ≢ l.state
      → ((process_fix fl t key f now faults).0.seq ≡ t.seq + 1)
        × Memᴰ (to_snapshot l') (snapshot_since t.seq (process_fix fl t key f now faults).0.live)
  process_fix-snapshot_since t key l l' f now faults loaded small found after changed =
      elim (process_fix-IsMarked t key l l' f now faults loaded found after) [
        | inl same ↦ absurd (changed same)
        | inr (row, tracker) ↦
            let next = bump_small t.seq small in
            (
              tracker ∙ next,
              lookup-snapshot_since t.seq key (process_fix fl t key f now faults).0.live l' after
                  (rw (row, next) (omega arith)),
            )
      ]
