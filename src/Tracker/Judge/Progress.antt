-- ===== src/Tracker/Judge/Progress.antt =====
-- internal/tracker/judge.go: what a stay inside and an absence lead to.
use emergency_callup.Prelude.{
  ℕ, ◌+◌, ◌<◌, Bool, true, false, List, [], ◌∷◌, ◌≡◌, ◌≢◌, ◌⊎◌, inl, inr, refl, ◌∙◌, arith,
}
use emergency_callup.Prelude.Int.{ℤ, pos, ◌-ℤ◌, leb_ℤ_iff, leb_ℤ, +ℤ_parts, -ℤ_parts}
use emergency_callup.Floats.{Floats}
use emergency_callup.Area.Row.{Row}
use emergency_callup.Incident.Model.{State, notified, logged_in, loc_denied, moving, arrived, left}
use emergency_callup.Tracker.Judge.{
  Fix, Live, Event, left_event, judge, flag_suspect, is_inside, is_away, is_valid_fix, apply_fix,
  store_position, is_suspect, starts_moving,
}
use emergency_callup.Tracker.Judge.Steps.{seen, apply_fix_cases}
use emergency_callup.Tracker.Judge.Dwell.{Apart}

Apart-leb_ℤ : (d a b : ℤ) → Apart d a b → leb_ℤ d (b -ℤ a) ≡ true
Apart-leb_ℤ d a b h = (leb_ℤ_iff d (b -ℤ a)).1 (omega (arith, -ℤ_parts b a, +ℤ_parts a d))

abbrev pub count_left : List Event → ℕ
count_left [] = 0
count_left (left_event ∷ es) = count_left es + 1
count_left (e ∷ es) = count_left es

on_the_way : (s : State) → s ≢ arrived → (starts_moving s ≡ true) ⊎ (s ≡ moving) ⊎ (s ≡ left)
unfolding starts_moving
on_the_way notified h = inl refl
on_the_way logged_in h = inl refl
on_the_way loc_denied h = inl refl
on_the_way moving h = inr (inl refl)
on_the_way arrived h = absurd (h refl)
on_the_way left h = inr (inr refl)

module _ {F : Type 0} (l : Live F) (inside away : Bool) (ts : ℤ) where
  judge_first_inside :
      (starts_moving l.state ≡ true) ⊎ (l.state ≡ moving) ⊎ (l.state ≡ left)
      → l.arrive_count ≡ 0
      → inside ≡ true
      → (0 < (judge l inside away ts).live.arrive_count)
        × ((judge l inside away ts).live.arrive_first_ts ≡ ts)
        × (((judge l inside away ts).live.state ≡ moving)
            ⊎ ((judge l inside away ts).live.state ≡ left))
  unfolding judge
  judge_first_inside h z i = ground arith

  judge_second_inside :
      (l.state ≡ moving) ⊎ (l.state ≡ left)
      → 0 < l.arrive_count
      → inside ≡ true
      → Apart (pos 10000) l.arrive_first_ts ts
      → ((judge l inside away ts).live.state ≡ arrived)
        × ((judge l inside away ts).live.arrived_at ≡ l.arrive_first_ts)
  unfolding judge
  judge_second_inside h c i d = ground (arith, Apart-leb_ℤ (pos 10000) l.arrive_first_ts ts)

  judge_counts_left :
      (judge l inside away ts).live.left_count
      ≡ l.left_count + count_left (judge l inside away ts).events
  unfolding judge
  judge_counts_left = ground arith

module _ (fl : Floats) where
  open fl use {F}

  -- A fix that is judged: valid, not suspect, and within the area.
  abbrev pub IsGoodInside : Live F → Fix F → Row F → ℤ → Type 0
  IsGoodInside l f ar now =
      (is_valid_fix f now ≡ true)
      × (is_suspect fl (store_position fl l f now) f ≡ false)
      × (is_inside fl ar f ≡ true)

  module _ (l : Live F) (f : Fix F) (ar : Row F) (now : ℤ) where
    judged :
        is_valid_fix f now ≡ true
        → is_suspect fl (store_position fl l f now) f ≡ false
        → apply_fix fl l f ar now
          ≡ judge (seen fl l f ar now) (is_inside fl ar f) (is_away fl ar f) f.ts
    unfolding apply_fix
    judged v s = rw (v, s)

    -- The number of departures grows by one with each recorded departure, and never otherwise.
    pub left_count_exact :
        (apply_fix fl l f ar now).live.left_count
        ≡ l.left_count + count_left (apply_fix fl l f ar now).events
    unfolding flag_suspect
    left_count_exact =
        apply_fix_cases fl l f ar now (λ v. v.live.left_count ≡ l.left_count + count_left v.events)
          (λ _. omega arith) (λ _ _. ground arith)
          (λ _ _. judge_counts_left (seen fl l f ar now) (is_inside fl ar f) (is_away fl ar f) f.ts)

  first_inside :
      (l : Live F) (f : Fix F) (ar : Row F) (now : ℤ)
      → l.state ≢ arrived
      → l.arrive_count ≡ 0
      → IsGoodInside l f ar now
      → (0 < (apply_fix fl l f ar now).live.arrive_count)
        × ((apply_fix fl l f ar now).live.arrive_first_ts ≡ f.ts)
        × (((apply_fix fl l f ar now).live.state ≡ moving)
            ⊎ ((apply_fix fl l f ar now).live.state ≡ left))
  first_inside l f ar now h z (v, s, i) = rw (judged l f ar now v s) (
      judge_first_inside (seen fl l f ar now) (is_inside fl ar f) (is_away fl ar f) f.ts
        (on_the_way l.state h) z i)

  second_inside :
      (l : Live F) (g : Fix F) (ar : Row F) (now : ℤ)
      → (l.state ≡ moving) ⊎ (l.state ≡ left)
      → 0 < l.arrive_count
      → IsGoodInside l g ar now
      → Apart (pos 10000) l.arrive_first_ts g.ts
      → ((apply_fix fl l g ar now).live.state ≡ arrived)
        × ((apply_fix fl l g ar now).live.arrived_at ≡ l.arrive_first_ts)
  second_inside l g ar now h c (v, s, i) d =
      rw (judged l g ar now v s) (
        judge_second_inside (seen fl l g ar now) (is_inside fl ar g) (is_away fl ar g) g.ts h c i d)

  -- Two judged fixes inside the area, one after the other and at least ten seconds apart, bring a
  -- member who was not ARRIVED, and of whom no stay was being counted, to ARRIVED, as of the first.
  pub two_fixes_arrive :
      (l : Live F) (f g : Fix F) (ar : Row F) (now later : ℤ)
      → l.state ≢ arrived
      → l.arrive_count ≡ 0
      → IsGoodInside l f ar now
      → IsGoodInside (apply_fix fl l f ar now).live g ar later
      → Apart (pos 10000) f.ts g.ts
      → ((apply_fix fl (apply_fix fl l f ar now).live g ar later).live.state ≡ arrived)
        × ((apply_fix fl (apply_fix fl l f ar now).live g ar later).live.arrived_at ≡ f.ts)
  two_fixes_arrive l f g ar now later h z good good' d =
      let (c, e, w) = first_inside l f ar now h z good in
      let (a, t) = second_inside (apply_fix fl l f ar now).live g ar later w c good' (rw e d) in
      (a, t ∙ e)
