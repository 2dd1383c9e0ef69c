-- ===== src/Area/Store/Change.antt =====
-- The changes that the table of areas goes through, as a step relation, and what they leave alone.
use emergency_callup.Prelude.{
  ℕ, ◌+◌, ◌≤◌, Bool, true, false, ◌&&◌, List, [], ◌∷◌, ◌++◌, none, some, String, str_eq, eq_iff,
  ◌==◌, ==_iff, if◌then◌else◌, ◌≡◌, refl, sym, ap, subst, ◌∙◌, inl, inr, arith, Bool-cases,
  Option-cases, if_of_false,
}
use emergency_callup.Area.Row.{Row}
use emergency_callup.Incident.Tables.{area_by_id}
use emergency_callup.Area.Store.{has_active, next_id, update_row, without_row, active_row, retired}

module _ {F : Type 0} where
  -- An update of all columns but the id and `active`, to the name given.
  pub record Edits (name : String) (change : Row F → Row F) : Type 0 where
    pub keeps_id : (r : Row F) → (change r).id ≡ r.id
    pub keeps_active : (r : Row F) → (change r).active ≡ r.active
    pub sets_name : (r : Row F) → (change r).name ≡ name

  -- One statement: a new row with an id of its own and a name that no active row has; an update of a row
  -- that the active incident does not use, to a name that no other active row has if the row is active; or
  -- the deactivation of a row.
  pub data Change (used : ℕ → Bool) : List (Row F) → List (Row F) → Type 0 where
    insertion :
        (rows : List (Row F)) (r : Row F)
        → has_active r.name rows ≡ false
        → r.id ≡ next_id rows
        → Change used rows (rows ++ r ∷ [])
    edit :
        (rows : List (Row F)) (id : ℕ) (name : String) (change : Row F → Row F)
        → used id ≡ false
        → Edits name change
        → (active_row (area_by_id id rows) && has_active name (without_row id rows)) ≡ false
        → Change used rows (update_row id change rows)
    retirement : (rows : List (Row F)) (id : ℕ) → Change used rows (update_row id retired rows)

  pub data Changes (used : ℕ → Bool) (rows : List (Row F)) : List (Row F) → Type 0 where
    here : Changes used rows rows
    next :
        {mid last : List (Row F)}
        → Changes used rows mid
        → Change used mid last
        → Changes used rows last

  -- How many active rows have a name.
  abbrev pub named : String → Row F → ℕ
  named name r = if r.active && str_eq r.name name then 1 else 0

  unfoldable pub active_named : String → List (Row F) → ℕ
  active_named name [] = 0
  active_named name (r ∷ rest) = named name r + active_named name rest

  not_named :
      (name : String) (rows : List (Row F))
      → has_active name rows ≡ false
      → active_named name rows ≡ 0
  unfolding has_active active_named
  not_named name [] h = refl
  not_named name (r ∷ rest) h = ground (arith, h, not_named name rest)

  active_named-append :
      (name : String) (rows : List (Row F)) (r : Row F)
      → active_named name (rows ++ r ∷ []) ≡ active_named name rows + named name r
  unfolding active_named
  active_named-append name [] r = omega arith
  active_named-append name (x ∷ rest) r = omega (arith, active_named-append name rest r)

  active_named-without_row :
      (name : String) (id : ℕ) (rows : List (Row F)) (r : Row F)
      → area_by_id id rows ≡ some r
      → active_named name rows ≡ active_named name (without_row id rows) + named name r
  unfolding active_named without_row area_by_id
  active_named-without_row name id [] r h = absurd (ground (arith, h))
  active_named-without_row name id (x ∷ rest) r h = elim (Bool-cases (x.id == id)) [
    | inl b ↦ let same : x ≡ r = ground (arith, h, b) in rw (b, same) (omega arith)
    | inr b ↦
        rw b (omega (arith, active_named-without_row name id rest r (sym (if_of_false _ _ b) ∙ h)))
  ]

  active_named-update_row :
      (name : String) (id : ℕ) (change : Row F → Row F) (rows : List (Row F)) (r : Row F)
      → area_by_id id rows ≡ some r
      → active_named name (update_row id change rows)
        ≡ active_named name (without_row id rows) + named name (change r)
  unfolding active_named without_row update_row area_by_id
  active_named-update_row name id change [] r h = absurd (ground (arith, h))
  active_named-update_row name id change (x ∷ rest) r h = elim (Bool-cases (x.id == id)) [
    | inl b ↦ let same : x ≡ r = ground (arith, h, b) in rw (b, same) (omega arith)
    | inr b ↦
        rw b (
          omega
            (arith, active_named-update_row name id change rest r (sym (if_of_false _ _ b) ∙ h)))
  ]

  update_row_missing :
      (id : ℕ) (change : Row F → Row F) (rows : List (Row F))
      → area_by_id id rows ≡ none
      → update_row id change rows ≡ rows
  unfolding area_by_id update_row
  update_row_missing id change [] h = refl
  update_row_missing id change (x ∷ rest) h = ground (arith, h, update_row_missing id change rest)

  abbrev pub NamesDiffer : List (Row F) → Type 0
  NamesDiffer rows = (name : String) → active_named name rows ≤ 1

  Change-NamesDiffer :
      {used : ℕ → Bool} {rows after : List (Row F)}
      → Change used rows after
      → NamesDiffer rows
      → NamesDiffer after
  unfolding active_row retired
  Change-NamesDiffer (insertion rows r free fresh) differ name =
      rw (active_named-append name rows r) (elim (Bool-cases (str_eq r.name name)) [
        | inl b ↦
            let none_named =
              subst (λ n. active_named n rows ≡ 0) ((eq_iff r.name name).0 b)
                (not_named r.name rows free) in
            ground (arith, none_named)
        | inr b ↦ ground (arith, b, differ name)
      ])
  Change-NamesDiffer (edit rows id new_name change unused edits free) differ name =
      elim (Option-cases (area_by_id id rows)) [
        | inl missing ↦ rw (update_row_missing id change rows missing) (differ name)
        | inr (r, h) ↦
            let before = active_named-without_row name id rows r h in
            rw
              (
                active_named-update_row name id change rows r h,
                edits.keeps_active r,
                edits.sets_name r,
              )
              (elim (Bool-cases (str_eq new_name name)) [
                | inl b ↦
                    let others : r.active ≡ true → active_named name (without_row id rows) ≡ 0 =
                      λ a.
                        subst (λ n. active_named n (without_row id rows) ≡ 0)
                          ((eq_iff new_name name).0 b)
                          (not_named new_name (without_row id rows) (ground (arith, h, free, a))) in
                    ground (arith, others, before, differ name)
                | inr b ↦ ground (arith, b, before, differ name)
              ])
      ]
  Change-NamesDiffer (retirement rows id) differ name = elim (Option-cases (area_by_id id rows)) [
    | inl missing ↦ rw (update_row_missing id retired rows missing) (differ name)
    | inr (r, h) ↦
        let before = active_named-without_row name id rows r h in
        rw (active_named-update_row name id retired rows r h) (ground (arith, before, differ name))
  ]

  pub Changes-NamesDiffer :
      {used : ℕ → Bool} {rows after : List (Row F)}
      → Changes used rows after
      → NamesDiffer rows
      → NamesDiffer after
  Changes-NamesDiffer here differ = differ
  Changes-NamesDiffer (next before step) differ =
      Change-NamesDiffer step (Changes-NamesDiffer before differ)

  -- All columns of a row but `active`.
  abbrev pub Keeps : ℕ → Row F → List (Row F) → Type 0
  Keeps id r rows =
      (s : Row F) × (area_by_id id rows ≡ some s)
      × (record s { active = true } ≡ record r { active = true })

  pub area_by_id-append :
      (id : ℕ) (rows more : List (Row F)) (r : Row F)
      → area_by_id id rows ≡ some r
      → area_by_id id (rows ++ more) ≡ some r
  unfolding area_by_id
  area_by_id-append id [] more r h = absurd (ground (arith, h))
  area_by_id-append id (x ∷ rest) more r h = ground (arith, h, area_by_id-append id rest more r)

  area_by_id-update_row :
      (id other : ℕ) (change : Row F → Row F) (rows : List (Row F))
      → (other == id) ≡ false
      → ((r : Row F) → (change r).id ≡ r.id)
      → area_by_id id (update_row other change rows) ≡ area_by_id id rows
  unfolding area_by_id update_row
  area_by_id-update_row id other change [] differ keeps = refl
  area_by_id-update_row id other change (x ∷ rest) differ keeps =
      ground (arith, differ, keeps x, area_by_id-update_row id other change rest differ keeps)

  area_by_id-updated :
      (id : ℕ) (change : Row F → Row F) (rows : List (Row F)) (r : Row F)
      → ((s : Row F) → (change s).id ≡ s.id)
      → area_by_id id rows ≡ some r
      → area_by_id id (update_row id change rows) ≡ some (change r)
  unfolding area_by_id update_row
  area_by_id-updated id change [] r keeps h = absurd (ground (arith, h))
  area_by_id-updated id change (x ∷ rest) r keeps h =
      ground (arith, h, keeps x, area_by_id-updated id change rest r keeps)

  Change-Keeps :
      {used : ℕ → Bool} {rows after : List (Row F)} (id : ℕ) (r : Row F)
      → used id ≡ true
      → Change used rows after
      → Keeps id r rows
      → Keeps id r after
  unfolding retired
  Change-Keeps id r in_use (insertion rows x free fresh) (s, h, same) =
      (s, area_by_id-append id rows (x ∷ []) s h, same)
  Change-Keeps {used = used} id r in_use (edit rows other name change unused edits free)
        (s, h, same) =
      (s, area_by_id-update_row id other change rows differ edits.keeps_id ∙ h, same)
    where
      differ : (other == id) ≡ false
      differ = elim (Bool-cases (other == id)) [
        | inl e ↦ absurd (ground (arith, sym (ap used ((==_iff other id).0 e)) ∙ unused, in_use))
        | inr e ↦ e
      ]
  Change-Keeps id r in_use (retirement rows other) (s, h, same) = elim (Bool-cases (other == id)) [
    | inl e ↦ (
      retired s,
      subst (λ n. area_by_id id (update_row n retired rows) ≡ some (retired s))
          (sym ((==_iff other id).0 e)) (area_by_id-updated id retired rows s (λ x. refl) h),
      same,
    )
    | inr e ↦ (s, area_by_id-update_row id other retired rows e (λ x. refl) ∙ h, same)
  ]

  pub Changes-Keeps :
      {used : ℕ → Bool} {rows after : List (Row F)} (id : ℕ) (r : Row F)
      → used id ≡ true
      → Changes used rows after
      → Keeps id r rows
      → Keeps id r after
  Changes-Keeps id r in_use here kept = kept
  Changes-Keeps id r in_use (next before step) kept =
      Change-Keeps id r in_use step (Changes-Keeps id r in_use before kept)

  pub joined :
      {used : ℕ → Bool} {rows mid after : List (Row F)}
      → Changes used rows mid
      → Changes used mid after
      → Changes used rows after
  joined c here = c
  joined c (next d step) = next (joined c d) step
