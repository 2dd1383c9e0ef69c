-- ===== src/Incident/Plans/Valid.antt =====
-- What the plans and the location history always satisfy, and what an incident copies from a plan.
use mathlib.Core.List.{Memᴰ}
use mathlib.Core.List.Memᴰ.{head, tail, cases_cons}
use emergency_callup.Prelude.{
  ℕ, suc, ◌+◌, ◌≤◌, ◌<◌, Bool, true, false, ◌&&◌, List, [], ◌∷◌, Option, none, some, ◌==◌, ==_iff,
  length, ◌≡◌, refl, sym, ap, subst, if_of_true, if_of_false, ◌∙◌, ◌⊎◌, inl, inr, arith, Bool-cases,
  Option-cases,
}
use emergency_callup.Prelude.Int.{ℤ, ltb_ℤ}
use emergency_callup.Audit.{Actor}
use emergency_callup.Area.Row.{Row}
use emergency_callup.Incident.Model.{Incident, active, Checkpoint, TeamPlan, FixRow}
use emergency_callup.Incident.Tables.{Tables, area_by_id}
use emergency_callup.Incident.Store.{plan_of, listed_plan, resolve_team_snapshot}
use emergency_callup.Incident.Plans.Saved.{save_plan-cases, plan_of-upsert_plan}
use emergency_callup.Incident.Plans.{
  max_checkpoints, TeamPlanInput, numbered, checkpoints_allowed, saved_plan, upsert_plan, save_plan,
  save_plans, too_many, committed, save_batch, is_closed, in_closed, delete_old_fixes,
}

module _ {F : Type 0} where
  abbrev pub IsNumbered : ℕ → List (Checkpoint F) → Type 0
  IsNumbered seq [] = Unit
  IsNumbered seq (c ∷ rest) = (c.seq ≡ seq) × IsNumbered (suc seq) rest

  -- A plan has at most 10 checkpoints, numbered from 1, with radii from 20 to 500 m.
  abbrev pub IsValidPlan : TeamPlan F → Type 0
  IsValidPlan p =
      (length p.checkpoints ≤ max_checkpoints)
      × IsNumbered 1 p.checkpoints
      × (checkpoints_allowed p.checkpoints ≡ true)

  abbrev pub AllValid : List (TeamPlan F) → Type 0
  AllValid [] = Unit
  AllValid (p ∷ rest) = IsValidPlan p × AllValid rest

  numbered-IsNumbered : (seq : ℕ) (cs : List (Checkpoint F)) → IsNumbered seq (numbered seq cs)
  unfolding numbered
  numbered-IsNumbered seq [] = tt
  numbered-IsNumbered seq (c ∷ rest) = (refl, numbered-IsNumbered (suc seq) rest)

  length-numbered : (seq : ℕ) (cs : List (Checkpoint F)) → length (numbered seq cs) ≡ length cs
  unfolding numbered
  length-numbered seq [] = refl
  length-numbered seq (c ∷ rest) = ground (arith, length-numbered (suc seq) rest)

  upsert_plan-AllValid :
      (p : TeamPlan F) (plans : List (TeamPlan F))
      → IsValidPlan p
      → AllValid plans
      → AllValid (upsert_plan p plans)
  unfolding upsert_plan
  upsert_plan-AllValid p [] v vs = (v, tt)
  upsert_plan-AllValid p (q ∷ plans) v (w, vs) = elim (Bool-cases (q.team_no == p.team_no)) [
    | inl b ↦ rw b (v, vs)
    | inr b ↦ rw b (w, upsert_plan-AllValid p plans v vs)
  ]

  save_plans-AllValid :
      (actor : Actor) (now : ℤ) (inputs : List (TeamPlanInput F)) (o : Option (List (TeamPlan F)))
      (saved : List (TeamPlan F))
      → too_many inputs ≡ false
      → ((plans : List (TeamPlan F)) → o ≡ some plans → AllValid plans)
      → save_plans actor now inputs o ≡ some saved
      → AllValid saved
  unfolding save_plans save_plan too_many
  save_plans-AllValid actor now [] none saved few valid h = absurd (ground (arith, h))
  save_plans-AllValid actor now (input ∷ rest) none saved few valid h = absurd (ground (arith, h))
  save_plans-AllValid actor now [] (some plans) saved few valid h = valid saved h
  save_plans-AllValid actor now (input ∷ rest) (some plans) saved few valid h =
      save_plans-AllValid actor now rest (save_plan actor now input plans) saved
        (ground (arith, few)) next h
    where
      short : length (numbered 1 input.checkpoints) ≤ max_checkpoints
      short = rw (length-numbered 1 input.checkpoints) (ground (arith, few))

      next : (l : List (TeamPlan F)) → save_plan actor now input plans ≡ some l → AllValid l
      next l e = elim (Bool-cases (checkpoints_allowed (numbered 1 input.checkpoints))) [
        | inl b ↦ subst AllValid (ground (arith, sym (if_of_true _ _ b) ∙ e)) (
            upsert_plan-AllValid (saved_plan actor now input) plans
              (short, numbered-IsNumbered 1 input.checkpoints, b) (valid plans refl))
        | inr b ↦ absurd (ground (arith, sym (if_of_false _ _ b) ∙ e))
      ]

  -- However a batch ends, if every stored plan has at most 10 checkpoints, numbered from 1 without a gap
  -- and with radii from 20 to 500 m, then every stored plan has afterwards.
  pub save_batch-AllValid :
      (fails : Bool) (plans : List (TeamPlan F)) (inputs : List (TeamPlanInput F)) (actor : Actor)
      (now : ℤ)
      → AllValid plans
      → AllValid (save_batch fails plans inputs actor now).0
  unfolding save_batch committed
  save_batch-AllValid true plans inputs actor now valid = elim (Bool-cases (too_many inputs)) [
    | inl b ↦ rw b valid
    | inr b ↦ rw b valid
  ]
  save_batch-AllValid false plans inputs actor now valid = elim (Bool-cases (too_many inputs)) [
    | inl b ↦ rw b valid
    | inr b ↦ rw b (elim (Option-cases (save_plans actor now inputs (some plans))) [
      | inl failed ↦ rw failed valid
      | inr (saved, done) ↦ rw done (
          save_plans-AllValid actor now inputs (some plans) saved b
            (λ l e. ground (arith, e, valid)) done)
    ])
  ]

  saved_of :
      (actor : Actor) (now : ℤ) (input : TeamPlanInput F) (plans : List (TeamPlan F))
      → (save_batch false plans (input ∷ []) actor now).1 ≡ none
      → (save_batch false plans (input ∷ []) actor now).0
        ≡ upsert_plan (saved_plan actor now input) plans
  unfolding save_batch committed save_plans
  saved_of actor now input plans done = elim (Bool-cases (too_many (input ∷ []))) [
    | inl b ↦ absurd (ground (arith, b, done))
    | inr b ↦ elim (save_plan-cases actor now input plans) [
      | inl e ↦
          let all : save_plans actor now (input ∷ []) (some plans) ≡ _ =
            ap (save_plans actor now []) e in
          rw (b, all) refl
      | inr e ↦
          let all : save_plans actor now (input ∷ []) (some plans) ≡ none =
            ap (save_plans actor now []) e in
          absurd (ground (arith, b, all, done))
    ]
  ]

  listed_plan_of :
      (n : ℕ) (plans : List (TeamPlan F)) → 1 ≤ n → n ≤ 10 → listed_plan n plans ≡ plan_of n plans
  unfolding listed_plan
  listed_plan_of n plans lo hi = ground (arith, lo, hi)

  copied_plan :
      (t : Tables F) (ar : Row F) (p : TeamPlan F) (lat lng : F) (n a : ℕ)
      → area_by_id a t.areas ≡ some ar
      → listed_plan n t.plans ≡ some p
      → p.area_id ≡ a
      → p.rally_lat ≡ some lat
      → p.rally_lng ≡ some lng
      → resolve_team_snapshot t n a
        ≡ some (record { rally_lat = lat; rally_lng = lng; checkpoints = p.checkpoints })
  unfolding resolve_team_snapshot
  copied_plan t ar p lat lng n a found planned same some_lat some_lng =
      ground (arith, found, planned, same, some_lat, some_lng)

  -- After the batch has saved the plan of one of the teams 1 to 10 with an area and a rally point, an
  -- incident that sends the team to this area copies from the plan the rally point, and the checkpoints
  -- that were given, numbered.
  pub resolve_team_snapshot-save_batch :
      (t : Tables F) (input : TeamPlanInput F) (lat lng : F) (actor : Actor) (now : ℤ) (ar : Row F)
      → 1 ≤ input.team_no
      → input.team_no ≤ 10
      → (save_batch false t.plans (input ∷ []) actor now).1 ≡ none
      → input.rally_lat ≡ some lat
      → input.rally_lng ≡ some lng
      → area_by_id input.area_id t.areas ≡ some ar
      → resolve_team_snapshot
          (record t { plans = (save_batch false t.plans (input ∷ []) actor now).0 })
          input.team_no
          input.area_id
        ≡ some (record {
          rally_lat = lat;
          rally_lng = lng;
          checkpoints = numbered 1 input.checkpoints;
        })
  unfolding saved_plan
  resolve_team_snapshot-save_batch t input lat lng actor now ar lo hi done some_lat some_lng found =
      copied_plan (record t { plans = (save_batch false t.plans (input ∷ []) actor now).0 }) ar
        (saved_plan actor now input) lat lng input.team_no input.area_id found stored refl some_lat
        some_lng
    where
      stored :
          listed_plan input.team_no (save_batch false t.plans (input ∷ []) actor now).0
          ≡ some (saved_plan actor now input)
      stored =
          listed_plan_of input.team_no (save_batch false t.plans (input ∷ []) actor now).0 lo hi
          ∙ ap (plan_of input.team_no) (saved_of actor now input t.plans done)
          ∙ plan_of-upsert_plan input.team_no (saved_plan actor now input) t.plans
          ∙ if_of_true _ _ ((==_iff input.team_no input.team_no).1 refl)

  -- The plan of a team above 10, even if it is stored, is never copied: the incident gets the area's own
  -- point and no checkpoints.
  pub resolve_team_snapshot_above :
      (t : Tables F) (n a : ℕ) (ar : Row F)
      → 10 < n
      → area_by_id a t.areas ≡ some ar
      → resolve_team_snapshot t n a
        ≡ some (record { rally_lat = ar.nav_lat; rally_lng = ar.nav_lng; checkpoints = [] })
  unfolding resolve_team_snapshot
  resolve_team_snapshot_above t n a ar above found = ground (arith, above, found)

all_active :
    (id : ℕ) (incidents : List Incident)
    → ((i : Incident) → Memᴰ i incidents → i.id ≡ id → i.status ≡ active)
    → in_closed id incidents ≡ false
unfolding in_closed is_closed
all_active id [] h = refl
all_active id (i ∷ rest) h =
    let later = all_active id rest (λ j m. h j (tail m)) in
    elim (Bool-cases (i.id == id)) [
      | inl b ↦ rw (b, h i (head refl) ((==_iff i.id id).0 b)) later
      | inr b ↦ rw b later
    ]

abbrev is_old : ℤ → List Incident → FixRow → Bool
is_old cutoff incidents z = ltb_ℤ z.ts cutoff && in_closed z.incident_id incidents

-- Deleting old rows of the location history leaves every row of an incident that is active and every row
-- from the cutoff on; it leaves no older row of a closed incident, adds none, and answers how many rows it
-- deleted.
pub delete_old_fixes-keeps :
    (cutoff : ℤ) (incidents : List Incident) (fixes : List FixRow) (x : FixRow)
    → let r = delete_old_fixes cutoff incidents fixes in
      (Memᴰ x r.0
        → Memᴰ x fixes × ((ltb_ℤ x.ts cutoff && in_closed x.incident_id incidents) ≡ false))
      × (Memᴰ x fixes
          → (ltb_ℤ x.ts cutoff ≡ false)
            ⊎ ((i : Incident) → Memᴰ i incidents → i.id ≡ x.incident_id → i.status ≡ active)
          → Memᴰ x r.0)
      × (length r.0 + r.1 ≡ length fixes)
unfolding delete_old_fixes
delete_old_fixes-keeps cutoff incidents [] x = (λ m. elim m [ ], λ m h. m, refl)
delete_old_fixes-keeps cutoff incidents (y ∷ fixes) x =
    let (left, kept, count) = delete_old_fixes-keeps cutoff incidents fixes x in
    elim (Bool-cases (is_old cutoff incidents y)) [
      | inl b ↦ rw b (
        λ m. let l = left m in (tail l.0, l.1),
        λ m h. elim (cases_cons m) [
          | inl same ↦ absurd (safe h (subst (λ z. is_old cutoff incidents z ≡ true) (sym same) b))
          | inr later ↦ kept later h
        ],
        omega (arith, count),
      )
      | inr b ↦ rw b (
        λ m. elim (cases_cons m) [
          | inl same ↦ (head same, subst (λ z. is_old cutoff incidents z ≡ false) (sym same) b)
          | inr later ↦ let l = left later in (tail l.0, l.1)
        ],
        λ m h. elim (cases_cons m) [ inl same ↦ head same | inr later ↦ tail (kept later h) ],
        omega (arith, count),
      )
    ]
  where
    safe :
        (ltb_ℤ x.ts cutoff ≡ false)
          ⊎ ((i : Incident) → Memᴰ i incidents → i.id ≡ x.incident_id → i.status ≡ active)
        → is_old cutoff incidents x ≡ true
        → ⊥
    safe (inl h) old = ground (arith, h, old)
    safe (inr h) old = ground (arith, all_active x.incident_id incidents h, old)
