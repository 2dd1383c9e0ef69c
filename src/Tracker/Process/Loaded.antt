-- ===== src/Tracker/Process/Loaded.antt =====
-- internal/tracker/tracker.go: `LoadActive` loads the area of every member, so no later fix panics.
use emergency_callup.Prelude.{
  ℕ, true, List, [], ◌∷◌, none, some, ◌≡◌, ◌≢◌, refl, sym, ap, ◌∙◌, inl, inr, arith, ◌==◌, ==_iff,
  Bool-cases, Option-cases, if_of_true, if_of_false,
}
use emergency_callup.Prelude.Int.{ℤ}
use emergency_callup.Prelude.Dict
use emergency_callup.Prelude.Dict.{Dict, lookup-insert}
use emergency_callup.Floats.{Floats}
use emergency_callup.Area.Row.{Row, r_eq}
use emergency_callup.Area.Store.Measured.{AllMeasured}
use emergency_callup.Incident.Model.{Assignment}
use emergency_callup.Incident.Tables.{area_by_id, active_incident, assignments_of}
use emergency_callup.Tracker.Judge.{Fix, Live, new_live}
use emergency_callup.Tracker.Process.{
  Tracker, Faults, panicked, bump, process_fix, sync, load_live, load_areas, load_active,
}
use emergency_callup.Tracker.Process.Rows.{IsLoaded, process_fix_no_panic}

-- A fix as it comes in: whose it is, the fix, the clock, and what fails.
pub record Request (F : Type 0) : Type 0 where
  pub member_id : ℕ
  pub fix : Fix F
  pub now : ℤ
  pub faults : Faults

module _ (fl : Floats) where
  open fl use {F}

  has_radius :
      (id : ℕ) (areas : List (Row F)) (ar : Row F)
      → AllMeasured fl areas
      → area_by_id id areas ≡ some ar
      → r_eq fl ar ≢ none
  unfolding area_by_id
  has_radius id [] ar m h = absurd (ground (arith, h))
  has_radius id (x ∷ rest) ar (known, m) h = elim (Bool-cases (x.id == id)) [
    | inl b ↦ let same : x ≡ ar = ground (arith, b, h) in rw (sym same) known
    | inr b ↦ has_radius id rest ar m (ground (arith, b, h))
  ]

  radius_of :
      (id : ℕ) (areas : List (Row F)) (ar : Row F)
      → AllMeasured fl areas
      → area_by_id id areas ≡ some ar
      → (radius : F) × (r_eq fl ar ≡ some radius)
  radius_of id areas ar m h = elim (Option-cases (r_eq fl ar)) [
    | inl missing ↦ absurd (has_radius id areas ar m h missing)
    | inr known ↦ known
  ]

  -- The loaded area of a loaded row.
  abbrev Known : Dict (Row F) → ℕ → Type 0
  Known cache id =
      (ar : Row F) × (radius : F) × (Dict.lookup id cache ≡ some ar) × (r_eq fl ar ≡ some radius)

  insert-Known :
      (cache : Dict (Row F)) (key id : ℕ) (row : Row F) (radius : F)
      → r_eq fl row ≡ some radius
      → Known cache id
      → Known (Dict.insert key row cache) id
  insert-Known cache key id row radius known (ar, r, cached, measured) =
      elim (Bool-cases (key == id)) [
        | inl e ↦ (row, radius, lookup-insert key id row cache ∙ if_of_true _ _ e, known)
        | inr e ↦ (ar, r, lookup-insert key id row cache ∙ if_of_false _ _ e ∙ cached, measured)
      ]

  load_areas_cons :
      (areas : List (Row F)) (a : Assignment) (rest : List Assignment) (cache : Dict (Row F))
      → load_areas fl areas (a ∷ rest) ≡ some cache
      → (row : Row F) × (older : Dict (Row F)) × (area_by_id a.eff_area_id areas ≡ some row)
        × (load_areas fl areas rest ≡ some older)
        × (cache ≡ Dict.insert a.eff_area_id row older)
  unfolding load_areas
  load_areas_cons areas a rest cache = elim (Option-cases (area_by_id a.eff_area_id areas)) [
    | inl missing ↦ rw missing (λ h. absurd (ground (arith, h)))
    | inr (row, got) ↦ elim (Option-cases (load_areas fl areas rest)) [
      | inl failed ↦ rw (got, failed) (λ h. absurd (ground (arith, h)))
      | inr (older, e) ↦ rw (got, e) (λ h. (row, older, refl, refl, ground (arith, h)))
    ]
  ]

  loaded-Known :
      (areas : List (Row F)) (rows : List Assignment) (cache : Dict (Row F)) (seq key : ℕ)
      (l : Live F)
      → AllMeasured fl areas
      → load_areas fl areas rows ≡ some cache
      → Dict.lookup key (load_live fl seq rows) ≡ some l
      → Known cache l.eff_area_id
  unfolding load_live Dict.lookup new_live
  loaded-Known areas [] cache seq key l m h found = absurd (ground (arith, found))
  loaded-Known areas (a ∷ rest) cache seq key l m h found =
      let (row, older, got, loaded, grown) = load_areas_cons areas a rest cache h in
      let (radius, known) = radius_of a.eff_area_id areas row m got in
      let x : Live F = record (new_live fl a) { seq_at = seq } in
      let at = sym (lookup-insert a.member_id key x (load_live fl seq rest)) ∙ found in
      rw grown (elim (Bool-cases (a.member_id == key)) [
        | inl e ↦
            let same : x ≡ l = ground (arith, sym (if_of_true _ _ e) ∙ at) in
            let area : a.eff_area_id ≡ l.eff_area_id = ap (λ (y : Live F). y.eff_area_id) same in
            rw (sym area) (
              row,
              radius,
              lookup-insert a.eff_area_id a.eff_area_id row older
                  ∙ if_of_true _ _ ((==_iff a.eff_area_id a.eff_area_id).1 refl),
              known,
            )
        | inr e ↦
            insert-Known older a.eff_area_id l.eff_area_id row radius known
              (loaded-Known areas rest older seq key l m loaded (sym (if_of_false _ _ e) ∙ at))
      ])

  nothing : (key : ℕ) (l : Live F) → Dict.lookup key [] ≡ some l → ⊥
  unfolding Dict.lookup
  nothing key l found = ground (arith, found)

  -- A load that succeeds has the area of every member.
  load_active-IsLoaded :
      (t : Tracker F) (faults : Faults)
      → AllMeasured fl t.tables.areas
      → (load_active fl t faults).1 ≡ true
      → IsLoaded fl (load_active fl t faults).0
  unfolding load_active
  load_active-IsLoaded t faults m = elim (Bool-cases faults.query_fails) [
    | inl e ↦ rw e (λ h. absurd (ground (arith, h)))
    | inr e ↦ rw e (elim (Option-cases (active_incident t.tables.incidents)) [
      | inl missing ↦
          rw missing (λ _. record { measured = λ key l found. absurd (nothing key l found) })
      | inr (i, found) ↦
          rw found
            (elim (Option-cases
              (load_areas fl t.tables.areas (assignments_of i.id t.tables.assignments))) [
                | inl failed ↦ rw failed (λ h. absurd (ground (arith, h)))
                | inr (cache, e) ↦ rw e (λ _. record {
                  measured = λ key l.
                      loaded-Known t.tables.areas (assignments_of i.id t.tables.assignments) cache
                        (bump t.seq) key l m e;
                })
              ])
    ])
  ]

  -- The tracker after fixes, the first one first.
  abbrev pub after_fixes : Tracker F → List (Request F) → Tracker F
  after_fixes t [] = t
  after_fixes t (r ∷ later) =
      after_fixes (process_fix fl t r.member_id r.fix r.now r.faults).0 later

  after_fixes-IsLoaded :
      (t : Tracker F) (requests : List (Request F))
      → IsLoaded fl t
      → IsLoaded fl (after_fixes t requests)
  after_fixes-IsLoaded t [] loaded = loaded
  after_fixes-IsLoaded t (r ∷ later) loaded =
      after_fixes-IsLoaded (process_fix fl t r.member_id r.fix r.now r.faults).0 later
        (process_fix_no_panic fl t r.member_id r.now r.faults r.fix loaded).2

  -- If every stored area has an equivalent radius (is no polygon without points) and `LoadActive` has
  -- succeeded, then after any fixes of any members, whichever statements fail in them, neither a fix nor a
  -- sync panics.
  pub load_active_no_panic :
      (t : Tracker F) (faults : Faults) (requests : List (Request F)) (last : Request F)
      → AllMeasured fl t.tables.areas
      → (load_active fl t faults).1 ≡ true
      → let s = after_fixes (load_active fl t faults).0 requests in
        ((process_fix fl s last.member_id last.fix last.now last.faults).1 ≢ panicked)
        × (sync fl s last.member_id last.now last.faults ≢ panicked)
  load_active_no_panic t faults requests last m done =
      let s = after_fixes (load_active fl t faults).0 requests in
      let (calm, quiet, _) =
        process_fix_no_panic fl s last.member_id last.now last.faults last.fix (
          after_fixes-IsLoaded (load_active fl t faults).0 requests
            (load_active-IsLoaded t faults m done)) in
      (calm, quiet)
