-- ===== src/Tracker/Process/Rows.antt =====
-- internal/tracker/tracker.go: what one request does to the live rows, and that no request panics.
use emergency_callup.Prelude.{
  ℕ, Bool, true, false, not, ◌&&◌, ◌||◌, List, none, some, ◌≡◌, ◌≢◌, ◌⊎◌, inl, inr, ◌∙◌, arith,
  ◌==◌, Bool-cases, Option-cases, if_of_true, if_of_false, ap, if◌then◌else◌,
}
use emergency_callup.Prelude.Int.{ℤ}
use emergency_callup.Prelude.Dict
use emergency_callup.Prelude.Dict.{Dict, lookup-insert, insert-insert}
use emergency_callup.Floats.{Floats}
use emergency_callup.Area.Row.{Row, r_eq}
use emergency_callup.Incident.Model.{is_notified}
use emergency_callup.Tracker.Judge.{Fix, Live, Event, Verdict, mark_logged_in}
use emergency_callup.Tracker.Judge.Owner.{SameOwner, mark_logged_in-SameOwner, apply_fix-SameOwner}
use emergency_callup.Tracker.Process.{
  Tracker, Faults, replied, failed, panicked, bump, unix_milli, sync_flush, judged_fix,
  process_live, process_fix, sync, moved_far, not_assigned_result,
}

module _ {F : Type 0} where
  pub sync_flush-live :
      (t : Tracker F) (key : ℕ) (l : Live F) (now : ℤ) (events : List Event) (faults : Faults)
      → ((sync_flush t key l now events faults).0.live ≡ t.live)
        ⊎ ((sync_flush t key l now events faults).0.live
            ≡ Dict.insert key (record l { dirty = false }) t.live)
  unfolding sync_flush
  sync_flush-live t key l now events faults = ground arith

  pub sync_flush-rest :
      (t : Tracker F) (key : ℕ) (l : Live F) (now : ℤ) (events : List Event) (faults : Faults)
      → ((sync_flush t key l now events faults).0.area_cache ≡ t.area_cache)
        × ((sync_flush t key l now events faults).0.incident_id ≡ t.incident_id)
        × ((sync_flush t key l now events faults).0.seq ≡ t.seq)
  unfolding sync_flush
  sync_flush-rest t key l now events faults = ground arith

module _ (fl : Floats) where
  open fl use {F}

  pub judged_fix-SameOwner :
      (l : Live F) (f : Fix F) (ar : Row F) (now : ℤ) → SameOwner (judged_fix fl l f ar now).live l
  unfolding judged_fix
  judged_fix-SameOwner l f ar now = ground (
    arith,
    apply_fix-SameOwner fl (mark_logged_in l (unix_milli now)) f ar (unix_milli now),
    mark_logged_in-SameOwner l (unix_milli now),
  )

  module _ (t : Tracker F) (key : ℕ) (l : Live F) (f : Fix F) (ar : Row F) (radius : F) (now : ℤ)
      (faults : Faults) where
    abbrev pub v : Verdict F
    v = judged_fix fl l f ar now

    abbrev pub need : Bool
    need = v.transitioned || is_notified l.state

    abbrev pub marked : Live F
    marked =
        if need || (not need && l.has_last_fix && moved_far fl l v.live) || not l.has_last_fix
        then record v.live { seq_at = bump t.seq }
        else v.live

    abbrev pub stored : Tracker F
    stored = record t {
      live = Dict.insert key marked t.live;
      seq =
          if need || (not need && l.has_last_fix && moved_far fl l v.live) || not l.has_last_fix
          then bump t.seq
          else t.seq;
    }

    -- The state after the request, and whether it has been answered.
    pub process_live-state :
        (process_live fl t key l f ar radius now faults).0
        ≡ (if need then (sync_flush stored key marked now v.events faults).0 else stored)
    unfolding process_live
    process_live-state = ground arith

    -- An answer to a request that writes through means that the write went well.
    pub process_live-answered :
        need ≡ true
        → (process_live fl t key l f ar radius now faults).1 ≢ failed
        → (sync_flush stored key marked now v.events faults).1 ≡ true
    unfolding process_live
    process_live-answered h a = ground arith

    pub marked_lem :
        (marked.state ≡ v.live.state)
        × (marked.member_id ≡ v.live.member_id)
        × (marked.eff_area_id ≡ v.live.eff_area_id)
    marked_lem = ground arith

    -- The member's row after the request: as judged, but for its marks.
    pub process_live-live :
        (l' : Live F) × ((process_live fl t key l f ar radius now faults).0.live
          ≡ Dict.insert key l' t.live)
        × (l'.state ≡ (judged_fix fl l f ar now).live.state)
        × SameOwner l' l
    process_live-live = elim (Bool-cases need) [
      | inr quiet ↦ (
        marked,
        ap (λ (s : Tracker F). s.live) (process_live-state ∙ if_of_false _ _ quiet),
        marked_lem.0,
        owner,
      )
      | inl loud ↦ elim (sync_flush-live stored key marked now v.events faults) [
        | inl kept ↦ (
          marked,
          ap (λ (s : Tracker F). s.live) (process_live-state ∙ if_of_true _ _ loud) ∙ kept,
          marked_lem.0,
          owner,
        )
        | inr cleared ↦ (
          record marked { dirty = false },
          ap (λ (s : Tracker F). s.live) (process_live-state ∙ if_of_true _ _ loud)
              ∙ cleared
              ∙ insert-insert key (record marked { dirty = false }) marked t.live,
          marked_lem.0,
          owner,
        )
      ]
    ]
      where
        owner : SameOwner marked l
        owner = (
          marked_lem.1 ∙ (judged_fix-SameOwner l f ar now).0,
          marked_lem.2 ∙ (judged_fix-SameOwner l f ar now).1,
        )

    pub process_live-rest :
        ((process_live fl t key l f ar radius now faults).0.area_cache ≡ t.area_cache)
        × ((process_live fl t key l f ar radius now faults).0.incident_id ≡ t.incident_id)
        × ((process_live fl t key l f ar radius now faults).1 ≢ panicked)
    unfolding process_live sync_flush
    process_live-rest = ground arith

  -- The area cache knows how far every member is from the area they are sent to.
  pub record IsLoaded (t : Tracker F) : Type 0 where
    pub measured :
        (key : ℕ) (l : Live F)
        → Dict.lookup key t.live ≡ some l
        → (ar : Row F) × (radius : F) × (Dict.lookup l.eff_area_id t.area_cache ≡ some ar)
          × (r_eq fl ar ≡ some radius)

  -- A write under one key, of a row sent to the same area, keeps the rows loaded.
  insert-IsLoaded :
      (t t' : Tracker F) (key : ℕ) (l l' : Live F)
      → IsLoaded t
      → Dict.lookup key t.live ≡ some l
      → l'.eff_area_id ≡ l.eff_area_id
      → t'.live ≡ Dict.insert key l' t.live
      → t'.area_cache ≡ t.area_cache
      → IsLoaded t'
  insert-IsLoaded t t' key l l' h found same rows cache = record {
    measured = λ j x e. rw cache (at j x (Bool-cases (key == j)) (rw (rows, lookup-insert) at e));
  }
    where
      at :
          (j : ℕ) (x : Live F)
          → ((key == j) ≡ true) ⊎ ((key == j) ≡ false)
          → (if key == j then some l' else Dict.lookup j t.live) ≡ some x
          → (ar : Row F) × (radius : F) × (Dict.lookup x.eff_area_id t.area_cache ≡ some ar)
            × (r_eq fl ar ≡ some radius)
      at j x (inl here) e =
          let is : x.eff_area_id ≡ l.eff_area_id = ground arith in rw is (h.measured key l found)
      at j x (inr other) e = h.measured j x (ground arith)

  module _ (t : Tracker F) (key : ℕ) (now : ℤ) (faults : Faults) where
    pub process_fix_found :
        (f : Fix F) (l : Live F) (ar : Row F) (radius : F)
        → Dict.lookup key t.live ≡ some l
        → Dict.lookup l.eff_area_id t.area_cache ≡ some ar
        → r_eq fl ar ≡ some radius
        → process_fix fl t key f now faults ≡ process_live fl t key l f ar radius now faults
    unfolding process_fix
    process_fix_found f l ar radius a b c = ground arith

    pub process_fix_missing :
        (f : Fix F)
        → Dict.lookup key t.live ≡ none
        → process_fix fl t key f now faults ≡ (t, replied (not_assigned_result fl t key now faults))
    unfolding process_fix
    process_fix_missing f missing = ground arith

    sync_no_panic : IsLoaded t → sync fl t key now faults ≢ panicked
    unfolding sync
    sync_no_panic h = elim (Option-cases (Dict.lookup key t.live)) [
      | inl missing ↦ λ e. ground arith
      | inr (l, found) ↦
          λ e. let (ar, radius, cached, known) = h.measured key l found in ground arith
    ]

    -- If the area of every live member is loaded and has an equivalent radius, neither a fix nor a sync
    -- panics, and that is still so after the fix. Loaded shows that a load brings this about.
    pub process_fix_no_panic :
        (f : Fix F)
        → IsLoaded t
        → ((process_fix fl t key f now faults).1 ≢ panicked)
          × (sync fl t key now faults ≢ panicked)
          × IsLoaded (process_fix fl t key f now faults).0
    process_fix_no_panic f h = elim (Option-cases (Dict.lookup key t.live)) [
      | inl missing ↦ rw (process_fix_missing f missing) ((λ e. cc), sync_no_panic h, h)
      | inr (l, found) ↦
          let (ar, radius, cached, known) = h.measured key l found in
          let (l', rows, _, owner) = process_live-live t key l f ar radius now faults in
          let (cache, _, calm) = process_live-rest t key l f ar radius now faults in
          rw (process_fix_found f l ar radius found cached known)
            (calm, sync_no_panic h, insert-IsLoaded t _ key l l' h found owner.1 rows cache)
    ]
