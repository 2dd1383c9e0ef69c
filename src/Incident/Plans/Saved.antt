-- ===== src/Incident/Plans/Saved.antt =====
-- Reading the plans after a batch.
use mathlib.Core.List.{Memᴰ}
use mathlib.Core.List.Memᴰ.{cases_cons}
use emergency_callup.Prelude.{
  ℕ, ◌≤◌, ◌<◌, Bool, true, false, List, [], ◌∷◌, none, some, ◌==◌, ==_iff, if◌then◌else◌, length,
  ◌≡◌, refl, sym, ap, subst, if_of_true, if_of_false, ◌∙◌, ◌⊎◌, inl, inr, arith, Bool-cases,
  Option-cases,
}
use emergency_callup.Prelude.Int.{ℤ}
use emergency_callup.Audit.{Actor}
use emergency_callup.Incident.Model.{TeamPlan}
use emergency_callup.Incident.Store.{plan_of}
use emergency_callup.Incident.Plans.{
  max_checkpoints, PlanError, too_many_checkpoints, TeamPlanInput, numbered, checkpoints_allowed,
  saved_plan, upsert_plan, save_plan, save_plans, too_many, committed, save_batch, joined, no_plan,
  list_plans, get_plan,
}

unfoldable pub has_team : ℕ → List ℕ → Bool
has_team n [] = false
has_team n (x ∷ rest) = if x == n then true else has_team n rest

module _ {F : Type 0} where
  -- The plan of the last input for a team, else the one given.
  abbrev pub after : Actor → ℤ → ℕ → List (TeamPlanInput F) → TeamPlan F → TeamPlan F
  after actor now team_no [] p = p
  after actor now team_no (input ∷ rest) p =
      after actor now team_no rest
        (if input.team_no == team_no then saved_plan actor now input else p)

  pub plan_of-upsert_plan :
      (n : ℕ) (p : TeamPlan F) (plans : List (TeamPlan F))
      → plan_of n (upsert_plan p plans) ≡ (if p.team_no == n then some p else plan_of n plans)
  unfolding plan_of upsert_plan
  plan_of-upsert_plan n p [] = ground arith
  plan_of-upsert_plan n p (q ∷ plans) = ground (arith, plan_of-upsert_plan n p plans)

  save_plans-none :
      (actor : Actor) (now : ℤ) (inputs : List (TeamPlanInput F))
      → save_plans actor now inputs none ≡ none
  unfolding save_plans
  save_plans-none actor now [] = refl
  save_plans-none actor now (input ∷ rest) = refl

  pub save_plan-cases :
      (actor : Actor) (now : ℤ) (input : TeamPlanInput F) (plans : List (TeamPlan F))
      → (save_plan actor now input plans ≡ some (upsert_plan (saved_plan actor now input) plans))
        ⊎ (save_plan actor now input plans ≡ none)
  unfolding save_plan
  save_plan-cases actor now input plans =
      elim (Bool-cases (checkpoints_allowed (saved_plan actor now input).checkpoints)) [
        | inl b ↦ inl (if_of_true _ _ b)
        | inr b ↦ inr (if_of_false _ _ b)
      ]

  save_plans_lem :
      (actor : Actor) (now : ℤ) (n : ℕ) (inputs : List (TeamPlanInput F))
      (plans saved : List (TeamPlan F))
      → save_plans actor now inputs (some plans) ≡ some saved
      → joined n (plan_of n saved) ≡ after actor now n inputs (joined n (plan_of n plans))
  unfolding save_plans save_plan joined
  save_plans_lem actor now n [] plans saved h = ground (arith, h)
  save_plans_lem actor now n (input ∷ rest) plans saved h =
      elim (save_plan-cases actor now input plans) [
        | inl e ↦
            save_plans_lem actor now n rest (upsert_plan (saved_plan actor now input) plans) saved
              (sym (ap (save_plans actor now rest) e) ∙ h)
            ∙ ap (after actor now n rest)
                (joined_upsert (saved_plan actor now input) input.team_no refl)
        | inr e ↦ absurd (
            ground (
              arith,
              sym (save_plans-none actor now rest) ∙ sym (ap (save_plans actor now rest) e) ∙ h,
            ))
      ]
    where
      joined_upsert :
          (p : TeamPlan F) (m : ℕ)
          → m ≡ p.team_no
          → joined n (plan_of n (upsert_plan p plans))
            ≡ (if m == n then p else joined n (plan_of n plans))
      joined_upsert p m e = rw (plan_of-upsert_plan n p plans, e) (ground arith)

  plan_of_team_no :
      (n : ℕ) (plans : List (TeamPlan F)) (p : TeamPlan F)
      → plan_of n plans ≡ some p
      → p.team_no ≡ n
  unfolding plan_of
  plan_of_team_no n [] p h = absurd (ground (arith, h))
  plan_of_team_no n (q ∷ plans) p h = ground (arith, h, plan_of_team_no n plans p)

  joined_team_no : (n : ℕ) (plans : List (TeamPlan F)) → (joined n (plan_of n plans)).team_no ≡ n
  unfolding joined no_plan
  joined_team_no n plans = elim (Option-cases (plan_of n plans)) [
    | inl e ↦ rw e refl
    | inr (p, e) ↦ rw e (plan_of_team_no n plans p e)
  ]

  -- `Get` goes through `List`, which has an entry for each of the teams 1 to 10.
  get_plan_of_listed :
      (teams : List ℕ) (n : ℕ) (plans : List (TeamPlan F))
      → has_team n teams ≡ true
      → 1 ≤ n
      → n ≤ 10
      → get_plan teams n plans ≡ joined n (plan_of n plans)
  unfolding get_plan list_plans plan_of has_team
  get_plan_of_listed [] n plans h lo hi = absurd (ground (arith, h))
  get_plan_of_listed (x ∷ teams) n plans h lo hi = elim (Bool-cases (x == n)) [
    | inl e ↦ let same = (==_iff x n).0 e in ground (arith, same, joined_team_no x plans)
    | inr e ↦ ground (
      arith,
      e,
      joined_team_no x plans,
      get_plan_of_listed teams n plans (ground (arith, h, e)) lo hi,
    )
  ]

  -- What the batch does not refuse: at most 10 checkpoints, each with a radius of 20 to 500 m or none given.
  abbrev pub IsAcceptable : List (TeamPlanInput F) → Type 0
  IsAcceptable [] = Unit
  IsAcceptable (input ∷ rest) =
      (length input.checkpoints ≤ max_checkpoints)
      × (checkpoints_allowed (numbered 1 input.checkpoints) ≡ true)
      × IsAcceptable rest

  not_too_many : (inputs : List (TeamPlanInput F)) → IsAcceptable inputs → too_many inputs ≡ false
  unfolding too_many
  not_too_many [] a = refl
  not_too_many (input ∷ rest) (short, allowed, later) =
      ground (arith, short, not_too_many rest later)

  acceptable_saved :
      (actor : Actor) (now : ℤ) (inputs : List (TeamPlanInput F)) (plans : List (TeamPlan F))
      → IsAcceptable inputs
      → (saved : List (TeamPlan F)) × (save_plans actor now inputs (some plans) ≡ some saved)
  unfolding save_plans save_plan
  acceptable_saved actor now [] plans a = (plans, refl)
  acceptable_saved actor now (input ∷ rest) plans (short, allowed, later) =
      let r =
        acceptable_saved actor now rest (upsert_plan (saved_plan actor now input) plans) later in
      (r.0, ap (save_plans actor now rest) (if_of_true _ _ allowed) ∙ r.1)

  -- A batch in which every team has at most 10 checkpoints, each with a radius of 20 to 500 m or none,
  -- is saved if the database does not fail, and then `Get` of any of the teams 1 to 10 gives what the
  -- last input for this team says, its checkpoints numbered from 1 with 50 m for a radius not given; for
  -- a team without an input it gives what it gave before.
  pub get_plan-save_batch :
      (teams : List ℕ) (plans : List (TeamPlan F)) (inputs : List (TeamPlanInput F)) (actor : Actor)
      (now : ℤ) (n : ℕ)
      → IsAcceptable inputs
      → has_team n teams ≡ true
      → 1 ≤ n
      → n ≤ 10
      → ((save_batch false plans inputs actor now).1 ≡ none)
        × (get_plan teams n (save_batch false plans inputs actor now).0
            ≡ after actor now n inputs (get_plan teams n plans))
  unfolding save_batch committed
  get_plan-save_batch teams plans inputs actor now n acceptable listed lo hi =
      let r = acceptable_saved actor now inputs plans acceptable in
      rw (not_too_many inputs acceptable, r.1)
        (
          refl,
          get_plan_of_listed teams n r.0 listed lo hi
              ∙ save_plans_lem actor now n inputs plans r.0 r.1
              ∙ ap (after actor now n inputs) (sym (get_plan_of_listed teams n plans listed lo hi)),
        )

  -- Whatever fails, a batch that is answered with an error leaves the plans as they were; and one with
  -- more than 10 checkpoints for a team is answered with the error that says so.
  pub save_batch-errors :
      (fails : Bool) (plans : List (TeamPlan F)) (inputs : List (TeamPlanInput F)) (actor : Actor)
      (now : ℤ)
      → ((e : PlanError)
          → (save_batch fails plans inputs actor now).1 ≡ some e
          → (save_batch fails plans inputs actor now).0 ≡ plans)
        × ((input : TeamPlanInput F)
            → Memᴰ input inputs
            → max_checkpoints < length input.checkpoints
            → (save_batch fails plans inputs actor now).1 ≡ some too_many_checkpoints)
  unfolding save_batch committed
  save_batch-errors fails plans inputs actor now = (
    λ e h. elim (Option-cases (save_plans actor now inputs (some plans))) [
      | inl failed ↦ ground (arith, failed)
      | inr (saved, done) ↦ ground (arith, done, h)
    ],
    λ input m long. rw (too_many-mem input inputs m long) refl,
  )
    where
      too_many-mem :
          (input : TeamPlanInput F) (l : List (TeamPlanInput F))
          → Memᴰ input l
          → max_checkpoints < length input.checkpoints
          → too_many l ≡ true
      too_many-mem input [] m long = elim m [ ]
      too_many-mem input (x ∷ rest) m long = elim (cases_cons m) [
        | inl same ↦
            let longer =
              subst (λ (y : TeamPlanInput F). max_checkpoints < length y.checkpoints) same long in
            ground (arith, longer)
        | inr later ↦ ground (arith, too_many-mem input rest later long)
      ]
