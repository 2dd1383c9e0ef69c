-- ===== src/Tracker/Judge/Steps.antt =====
-- internal/tracker/judge.go: the state changes that one fix can make.
use emergency_callup.Prelude.{
  ℕ, ◌<◌, Bool, true, false, List, [], ◌∷◌, ◌≡◌, ◌≢◌, ◌↔◌, ◌⊎◌, inl, inr, refl, arith, Bool-cases,
  String,
}
use emergency_callup.Prelude.Int.{ℤ}
use emergency_callup.Floats.{Floats}
use emergency_callup.Area.Row.{Row}
use emergency_callup.Incident.Model.{State, notified, logged_in, loc_denied, moving, arrived, left}
use emergency_callup.Tracker.Judge.{
  Fix, Live, Event, arrived_event, left_event, returned_event, suspect_event, Verdict,
  mark_logged_in, mark_loc_denied, judge, flag_suspect, store_position, is_suspect, remember,
  is_inside, is_away, is_valid_fix, apply_fix, apply_mission_change,
}

-- Arrival is counted only on the way, departure only on the spot.
pub record IsCounting {F : Type 0} (l : Live F) : Type 0 where
  pub arriving : 0 < l.arrive_count → (l.state ≡ moving) ⊎ (l.state ≡ left)
  pub leaving : 0 < l.leave_count → l.state ≡ arrived

-- The moves of the state machine, each with the events that it records.
abbrev pub IsMove : State → State → List Event → Type 0
IsMove notified moving es = es ≡ []
IsMove logged_in moving es = es ≡ []
IsMove loc_denied moving es = es ≡ []
IsMove moving arrived es = es ≡ arrived_event ∷ []
IsMove left arrived es = es ≡ returned_event ∷ []
IsMove arrived left es = es ≡ left_event ∷ []
IsMove s t es = (t ≡ s) × ((es ≡ []) ⊎ (es ≡ suspect_event ∷ []))

module _ {F : Type 0} (l : Live F) (inside away : Bool) (ts : ℤ) where
  judge_moves_from :
      (s : State)
      → l.state ≡ s
      → IsCounting l
      → IsMove s (judge l inside away ts).live.state (judge l inside away ts).events
  unfolding judge
  judge_moves_from notified e c = ground arith
  judge_moves_from logged_in e c = ground arith
  judge_moves_from loc_denied e c = ground arith
  judge_moves_from moving e c = ground arith
  judge_moves_from arrived e c = ground arith
  judge_moves_from left e c = ground arith

  judge_transitioned_iff :
      ((judge l inside away ts).transitioned ≡ true)
      ↔ ((judge l inside away ts).live.state ≢ l.state)
  unfolding judge
  judge_transitioned_iff = ground arith

  judge_quiet :
      (judge l inside away ts).transitioned ≡ false → (judge l inside away ts).live.state ≡ l.state
  unfolding judge
  judge_quiet h = ground arith

  judge-IsCounting : IsCounting l → IsCounting (judge l inside away ts).live
  unfolding judge
  judge-IsCounting c = ground arith

module _ {F : Type 0} (l : Live F) (now : ℤ) where
  pub mark_logged_in-IsCounting : IsCounting l → IsCounting (mark_logged_in l now)
  unfolding mark_logged_in
  mark_logged_in-IsCounting c = ground arith

  pub mark_loc_denied-IsCounting : IsCounting l → IsCounting (mark_loc_denied l)
  unfolding mark_loc_denied
  mark_loc_denied-IsCounting c = ground arith

  pub apply_mission_change-IsCounting :
      (mission : String) (area_id ver : ℕ)
      → IsCounting l
      → IsCounting (apply_mission_change l mission area_id ver)
  unfolding apply_mission_change
  apply_mission_change-IsCounting mission area_id ver c = ground arith

-- The verdict leaves alone what the state machine keeps.
abbrev pub KeepsJudgement : {F : Type 0} → Live F → Verdict F → Type 0
KeepsJudgement l v =
    (v.transitioned ≡ false)
    × (v.live.state ≡ l.state)
    × (v.live.arrived_at ≡ l.arrived_at)
    × (v.live.last_left_at ≡ l.last_left_at)
    × (v.live.left_count ≡ l.left_count)
    × (v.live.arrive_count ≡ l.arrive_count)
    × (v.live.arrive_first_ts ≡ l.arrive_first_ts)
    × (v.live.leave_count ≡ l.leave_count)
    × (v.live.leave_first_ts ≡ l.leave_first_ts)

IsMove-stay : (s : State) (es : List Event) → (es ≡ []) ⊎ (es ≡ suspect_event ∷ []) → IsMove s s es
IsMove-stay notified es h = (refl, h)
IsMove-stay logged_in es h = (refl, h)
IsMove-stay loc_denied es h = (refl, h)
IsMove-stay moving es h = (refl, h)
IsMove-stay arrived es h = (refl, h)
IsMove-stay left es h = (refl, h)

module _ (fl : Floats) where
  open fl use {F}

  module _ (l : Live F) (f : Fix F) (ar : Row F) (now : ℤ) where
    -- The row as `ApplyFix` judges it.
    abbrev pub seen : Live F
    seen = remember fl (store_position fl l f now) f

    -- The three ways through `ApplyFix`, each with the tests that lead there.
    pub apply_fix_cases {ℓ} :
        (P : Verdict F → Type ℓ)
        → (is_valid_fix f now ≡ false
            → P (record { live = store_position fl l f now; transitioned = false; events = [] }))
        → (is_valid_fix f now ≡ true
            → is_suspect fl (store_position fl l f now) f ≡ true
            → P (flag_suspect seen))
        → (is_valid_fix f now ≡ true
            → is_suspect fl (store_position fl l f now) f ≡ false
            → P (judge seen (is_inside fl ar f) (is_away fl ar f) f.ts))
        → P (apply_fix fl l f ar now)
    unfolding apply_fix
    apply_fix_cases P invalid flagged judged = elim (Bool-cases (is_valid_fix f now)) [
      | inr v ↦ rw v (invalid v)
      | inl v ↦ elim (Bool-cases (is_suspect fl (store_position fl l f now) f)) [
        | inl s ↦ rw (v, s) (flagged v s)
        | inr s ↦ rw (v, s) (judged v s)
      ]
    ]

    -- If stays are counted only on the way and absences only on the spot, one fix makes at most one move
    -- of the state machine, and records that move's events.
    pub apply_fix_moves :
        IsCounting l
        → IsMove l.state (apply_fix fl l f ar now).live.state (apply_fix fl l f ar now).events
    unfolding flag_suspect
    apply_fix_moves c =
        apply_fix_cases (λ v. IsMove l.state v.live.state v.events)
          (λ v. IsMove-stay l.state [] (inl refl)) (λ v s. IsMove-stay l.state _ (ground arith))
          (λ v s.
            judge_moves_from seen (is_inside fl ar f) (is_away fl ar f) f.ts l.state refl
              (record { arriving = c.arriving; leaving = c.leaving }))

    -- A fix asks for a synchronous write exactly when it changes the state.
    pub apply_fix_transitioned_iff :
        ((apply_fix fl l f ar now).transitioned ≡ true)
        ↔ ((apply_fix fl l f ar now).live.state ≢ l.state)
    unfolding flag_suspect
    apply_fix_transitioned_iff =
        apply_fix_cases (λ v. (v.transitioned ≡ true) ↔ (v.live.state ≢ l.state))
          (λ v. ground arith) (λ v s. ground arith)
          (λ v s. judge_transitioned_iff seen (is_inside fl ar f) (is_away fl ar f) f.ts)

    pub apply_fix_quiet :
        (apply_fix fl l f ar now).transitioned ≡ false
        → (apply_fix fl l f ar now).live.state ≡ l.state
    unfolding flag_suspect
    apply_fix_quiet =
        apply_fix_cases (λ v. v.transitioned ≡ false → v.live.state ≡ l.state) (λ _ _. refl)
          (λ _ _ _. refl) (λ _ _. judge_quiet seen (is_inside fl ar f) (is_away fl ar f) f.ts)

    -- A fix keeps the invariant of the two counters: a stay is counted only of a member who is MOVING or
    -- LEFT, and an absence only of one who is ARRIVED.
    pub apply_fix-IsCounting : IsCounting l → IsCounting (apply_fix fl l f ar now).live
    unfolding flag_suspect
    apply_fix-IsCounting c =
        apply_fix_cases (λ v. IsCounting v.live)
          (λ v. record { arriving = c.arriving; leaving = c.leaving })
          (λ v s. record { arriving = c.arriving; leaving = c.leaving })
          (λ v s.
            judge-IsCounting seen (is_inside fl ar f) (is_away fl ar f) f.ts
              (record { arriving = c.arriving; leaving = c.leaving }))

    -- A fix that fails validation, or is itself suspect, leaves the state, the times of arrival and
    -- departure and every counter of the state machine as they were.
    pub apply_fix_unjudged :
        (is_valid_fix f now ≡ false) ⊎ (is_suspect fl (store_position fl l f now) f ≡ true)
        → KeepsJudgement l (apply_fix fl l f ar now)
    unfolding flag_suspect
    apply_fix_unjudged h =
        apply_fix_cases (KeepsJudgement l)
          (λ v. (refl, refl, refl, refl, refl, refl, refl, refl, refl))
          (λ v s. (refl, refl, refl, refl, refl, refl, refl, refl, refl))
          (λ v s. absurd (ground arith))
