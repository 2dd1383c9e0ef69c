-- ===== src/Tracker/Judge/Dwell.antt =====
-- internal/tracker/judge.go over whole histories of reports: what an arrival and a departure rest on.
use emergency_callup.Prelude.{
  ◌<◌, Bool, true, List, [], ◌∷◌, ◌≡◌, ◌≢◌, ◌⊎◌, inl, inr, refl, sym, arith,
}
use emergency_callup.Prelude.Int.{ℤ, pos, ◌+ℤ◌, ◌-ℤ◌, ◌≤ℤ◌, leb_ℤ_iff, leb_ℤ, +ℤ_parts, -ℤ_parts}
use emergency_callup.Floats.{Floats}
use emergency_callup.Area.Row.{Row}
use emergency_callup.Incident.Model.{arrived, left, Assignment}
use emergency_callup.Tracker.Judge.{
  Fix, Live, Verdict, judge, flag_suspect, is_inside, is_away, is_valid_fix, apply_fix, new_live,
}
use emergency_callup.Tracker.Judge.Steps.{seen, apply_fix_cases}

-- A fix and the server's clock when it came.
pub record Report (F : Type 0) : Type 0 where
  pub fix : Fix F
  pub now : ℤ

abbrev pub In : {A : Type 0} → A → List A → Type 0
In a [] = ⊥
In a (b ∷ bs) = (a ≡ b) ⊎ In a bs

-- `b - a` is at least `d`.
abbrev pub Apart : ℤ → ℤ → ℤ → Type 0
Apart d a b = a +ℤ d ≤ℤ b

leb_ℤ-Apart : (d a b : ℤ) → leb_ℤ d (b -ℤ a) ≡ true → Apart d a b
leb_ℤ-Apart d a b h =
    let e : d ≤ℤ b -ℤ a = (leb_ℤ_iff d (b -ℤ a)).0 h in omega (arith, -ℤ_parts b a, +ℤ_parts a d)

module _ {F : Type 0} (l : Live F) (inside away : Bool) (ts : ℤ) where
  -- A running count of fixes inside was running before with the same start, or starts here.
  judge_arriving :
      0 < (judge l inside away ts).live.arrive_count
      → ((0 < l.arrive_count) × ((judge l inside away ts).live.arrive_first_ts ≡ l.arrive_first_ts))
        ⊎ ((inside ≡ true) × ((judge l inside away ts).live.arrive_first_ts ≡ ts))
  unfolding judge
  judge_arriving h = ground arith

  judge_arrived :
      (judge l inside away ts).live.state ≡ arrived
      → ((l.state ≡ arrived) × ((judge l inside away ts).live.arrived_at ≡ l.arrived_at))
        ⊎ ((inside ≡ true)
            × (0 < l.arrive_count)
            × ((judge l inside away ts).live.arrived_at ≡ l.arrive_first_ts)
            × Apart (pos 10000) l.arrive_first_ts ts)
  unfolding judge
  judge_arrived h = ground (arith, leb_ℤ-Apart (pos 10000) l.arrive_first_ts ts)

  judge_leaving :
      0 < (judge l inside away ts).live.leave_count
      → ((0 < l.leave_count) × ((judge l inside away ts).live.leave_first_ts ≡ l.leave_first_ts))
        ⊎ ((away ≡ true) × ((judge l inside away ts).live.leave_first_ts ≡ ts))
  unfolding judge
  judge_leaving h = ground arith

  judge_left :
      (judge l inside away ts).live.state ≡ left
      → ((l.state ≡ left) × ((judge l inside away ts).live.last_left_at ≡ l.last_left_at))
        ⊎ ((away ≡ true)
            × (0 < l.leave_count)
            × ((judge l inside away ts).live.last_left_at ≡ ts)
            × Apart (pos 30000) l.leave_first_ts ts)
  unfolding judge
  judge_left h = ground (arith, leb_ℤ-Apart (pos 30000) l.leave_first_ts ts)

module _ (fl : Floats) (ar : Row fl.F) where
  open fl use {F}

  -- A valid fix within the area, and one further outside than the margin of departure.
  abbrev pub IsInsideReport : Report F → Type 0
  IsInsideReport r = (is_valid_fix r.fix r.now ≡ true) × (is_inside fl ar r.fix ≡ true)

  abbrev pub IsAwayReport : Report F → Type 0
  IsAwayReport r = (is_valid_fix r.fix r.now ≡ true) × (is_away fl ar r.fix ≡ true)

  -- A member's row after a history of reports, the newest first.
  unfoldable pub after : Live F → List (Report F) → Live F
  after l [] = l
  after l (r ∷ older) = (apply_fix fl (after l older) r.fix ar r.now).live

  -- Some report of the history that has P was made at the client's time t.
  abbrev MadeAt : (Report F → Type 0) → List (Report F) → ℤ → Type 0
  MadeAt P h t = (r : Report F) × In r h × P r × (r.fix.ts ≡ t)

  abbrev pub Dwelt : List (Report F) → ℤ → Type 0
  Dwelt h t =
      (a : Report F) × (b : Report F) × In a h
      × In b h
      × IsInsideReport a
      × IsInsideReport b
      × (a.fix.ts ≡ t)
      × Apart (pos 10000) a.fix.ts b.fix.ts

  abbrev pub Departed : List (Report F) → ℤ → Type 0
  Departed h t =
      (a : Report F) × (b : Report F) × In a h
      × In b h
      × IsAwayReport a
      × IsAwayReport b
      × (b.fix.ts ≡ t)
      × Apart (pos 30000) a.fix.ts b.fix.ts

  record Evidence (l : Live F) (h : List (Report F)) : Type 0 where
    arriving : 0 < l.arrive_count → MadeAt IsInsideReport h l.arrive_first_ts
    has_dwelt : l.state ≡ arrived → Dwelt h l.arrived_at
    leaving : 0 < l.leave_count → MadeAt IsAwayReport h l.leave_first_ts
    has_departed : l.state ≡ left → Departed h l.last_left_at

  module _ (r : Report F) (h : List (Report F)) where
    more_MadeAt : (P : Report F → Type 0) (t : ℤ) → MadeAt P h t → MadeAt P (r ∷ h) t
    more_MadeAt P t (a, i, p, e) = (a, inr i, p, e)

    more_Dwelt : (t : ℤ) → Dwelt h t → Dwelt (r ∷ h) t
    more_Dwelt t (a, b, i, j, p, q, e, d) = (a, b, inr i, inr j, p, q, e, d)

    more_Departed : (t : ℤ) → Departed h t → Departed (r ∷ h) t
    more_Departed t (a, b, i, j, p, q, e, d) = (a, b, inr i, inr j, p, q, e, d)

    module _ (l : Live F) where
      abbrev s : Live F
      s = seen fl l r.fix ar r.now

      abbrev v : Verdict F
      v = judge s (is_inside fl ar r.fix) (is_away fl ar r.fix) r.fix.ts

      judge-Evidence : is_valid_fix r.fix r.now ≡ true → Evidence l h → Evidence v.live (r ∷ h)
      judge-Evidence valid e = record {
        arriving = λ c.
            elim (judge_arriving s (is_inside fl ar r.fix) (is_away fl ar r.fix) r.fix.ts c) [
              | inl (was, same) ↦
                  rw same (more_MadeAt IsInsideReport l.arrive_first_ts (e.arriving was))
              | inr (here, same) ↦ (r, inl refl, (valid, here), sym same)
            ];
        has_dwelt = λ c.
            elim (judge_arrived s (is_inside fl ar r.fix) (is_away fl ar r.fix) r.fix.ts c) [
              | inl (was, same) ↦ rw same (more_Dwelt l.arrived_at (e.has_dwelt was))
              | inr (here, was, same, d) ↦ rw same (
                  let (a, i, p, q) = e.arriving was in
                  (a, r, inr i, inl refl, p, (valid, here), q, rw q d))
            ];
        leaving = λ c.
            elim (judge_leaving s (is_inside fl ar r.fix) (is_away fl ar r.fix) r.fix.ts c) [
              | inl (was, same) ↦
                  rw same (more_MadeAt IsAwayReport l.leave_first_ts (e.leaving was))
              | inr (here, same) ↦ (r, inl refl, (valid, here), sym same)
            ];
        has_departed = λ c.
            elim (judge_left s (is_inside fl ar r.fix) (is_away fl ar r.fix) r.fix.ts c) [
              | inl (was, same) ↦ rw same (more_Departed l.last_left_at (e.has_departed was))
              | inr (here, was, same, d) ↦ rw same (
                  let (a, i, p, q) = e.leaving was in
                  (a, r, inr i, inl refl, p, (valid, here), refl, rw q d))
            ];
      }

      kept-Evidence : Evidence l h → Evidence l (r ∷ h)
      kept-Evidence e = record {
        arriving = λ c. more_MadeAt IsInsideReport l.arrive_first_ts (e.arriving c);
        has_dwelt = λ c. more_Dwelt l.arrived_at (e.has_dwelt c);
        leaving = λ c. more_MadeAt IsAwayReport l.leave_first_ts (e.leaving c);
        has_departed = λ c. more_Departed l.last_left_at (e.has_departed c);
      }

      apply_fix-Evidence : Evidence l h → Evidence (apply_fix fl l r.fix ar r.now).live (r ∷ h)
      unfolding flag_suspect
      apply_fix-Evidence e =
          apply_fix_cases fl l r.fix ar r.now (λ v. Evidence v.live (r ∷ h))
            (λ _.
              let k = kept-Evidence e in
              record {
                arriving = k.arriving;
                has_dwelt = k.has_dwelt;
                leaving = k.leaving;
                has_departed = k.has_departed;
              })
            (λ _ _.
              let k = kept-Evidence e in
              record {
                arriving = k.arriving;
                has_dwelt = k.has_dwelt;
                leaving = k.leaving;
                has_departed = k.has_departed;
              })
            (λ valid _. judge-Evidence valid e)

  after-Evidence : (l : Live F) (h : List (Report F)) → Evidence l [] → Evidence (after l h) h
  unfolding after
  after-Evidence l [] e = e
  after-Evidence l (r ∷ older) e =
      apply_fix-Evidence r older (after l older) (after-Evidence l older e)

  start : (a : Assignment) → a.state ≢ arrived → a.state ≢ left → Evidence (new_live fl a) []
  unfolding new_live
  start a not_arrived not_left = record {
    arriving = λ c. absurd (omega arith);
    has_dwelt = λ c. absurd (not_arrived c);
    leaving = λ c. absurd (omega arith);
    has_departed = λ c. absurd (not_left c);
  }

  -- No arrival without a stay: if a member who was loaded in a state other than ARRIVED and LEFT is
  -- ARRIVED after a history of reports, two valid reports of that history lay inside the area, the
  -- first at the recorded time of arrival, and the second at least ten seconds later.
  pub arrival-Dwelt :
      (a : Assignment) (h : List (Report F))
      → a.state ≢ arrived
      → a.state ≢ left
      → (after (new_live fl a) h).state ≡ arrived
      → Dwelt h (after (new_live fl a) h).arrived_at
  arrival-Dwelt a h not_arrived not_left =
      (after-Evidence (new_live fl a) h (start a not_arrived not_left)).has_dwelt

  -- No departure without an absence: if a member who was loaded in a state other than ARRIVED and LEFT
  -- is LEFT after a history of reports, two valid reports of that history lay further outside the area
  -- than the margin, thirty seconds apart or more, the second at the recorded time of departure.
  pub departure-Departed :
      (a : Assignment) (h : List (Report F))
      → a.state ≢ arrived
      → a.state ≢ left
      → (after (new_live fl a) h).state ≡ left
      → Departed h (after (new_live fl a) h).last_left_at
  departure-Departed a h not_arrived not_left =
      (after-Evidence (new_live fl a) h (start a not_arrived not_left)).has_departed
