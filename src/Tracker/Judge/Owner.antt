-- ===== src/Tracker/Judge/Owner.antt =====
-- internal/tracker/judge.go: whose row it is, and the area it is judged by, stay as they are.
use emergency_callup.Prelude.{Bool, ◌≡◌, refl, arith}
use emergency_callup.Prelude.Int.{ℤ}
use emergency_callup.Floats.{Floats}
use emergency_callup.Area.Row.{Row}
use emergency_callup.Tracker.Judge.{
  Fix, Live, mark_logged_in, mark_loc_denied, judge, flag_suspect, apply_fix, is_inside, is_away,
}
use emergency_callup.Tracker.Judge.Steps.{seen, apply_fix_cases}

-- Nothing that judges a fix changes whose row it is, or which area the member is sent to.
abbrev pub SameOwner : {F : Type 0} → Live F → Live F → Type 0
SameOwner a b = (a.member_id ≡ b.member_id) × (a.eff_area_id ≡ b.eff_area_id)

judge-SameOwner :
    {F : Type 0} (l : Live F) (inside away : Bool) (ts : ℤ)
    → SameOwner (judge l inside away ts).live l
unfolding judge
judge-SameOwner l inside away ts = ground arith

pub mark_logged_in-SameOwner :
    {F : Type 0} (l : Live F) (now : ℤ) → SameOwner (mark_logged_in l now) l
unfolding mark_logged_in
mark_logged_in-SameOwner l now = ground arith

pub mark_loc_denied-SameOwner : {F : Type 0} (l : Live F) → SameOwner (mark_loc_denied l) l
unfolding mark_loc_denied
mark_loc_denied-SameOwner l = ground arith

module _ (fl : Floats) where
  open fl use {F}

  pub apply_fix-SameOwner :
      (l : Live F) (f : Fix F) (ar : Row F) (now : ℤ) → SameOwner (apply_fix fl l f ar now).live l
  unfolding flag_suspect
  apply_fix-SameOwner l f ar now =
      apply_fix_cases fl l f ar now (λ v. SameOwner v.live l) (λ _. (refl, refl))
        (λ _ _. (refl, refl))
        (λ _ _. judge-SameOwner (seen fl l f ar now) (is_inside fl ar f) (is_away fl ar f) f.ts)
