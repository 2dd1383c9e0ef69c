-- ===== src/Incident/Draft/Tests.antt =====
-- The draft of a small roster.
use mathlib.Core.List.{Memᴰ}
use mathlib.Core.List.Memᴰ.{head, tail, cases_cons, append_left, append_right}
use emergency_callup.Prelude.{
  ℕ, true, false, List, [], ◌∷◌, ◌++◌, none, String, ◌≡◌, inl, inr, refl, sym, ap, ◌∙◌, ◌==◌, ◌||◌,
  if◌then◌else◌,
}
use emergency_callup.Prelude.Int.{pos}
use emergency_callup.Incident.Model.{TeamPlan, PeacetimeMember}
use emergency_callup.Incident.Draft.{
  Vote, Ballot, area_key, mode, build_draft, Orders, is_listed, TeamDraft,
}
use emergency_callup.Incident.Draft.Counts.{IsMode}
use emergency_callup.Incident.Draft.Mode.{Visits, IdsDiffer, mode-IsMode, mode_unordered}
use emergency_callup.Incident.Draft.Members.{Gets, build_draft-Gets}

-- A range that starts with the second entry.
rotated : {A : Type 0} → List A → List A
rotated [] = []
rotated (x ∷ rest) = rest ++ x ∷ []

kept : {A : Type 0} → List A → List A
kept l = l

rotated-Visits : Visits area_key rotated
unfolding rotated
rotated-Visits [] e = (λ m. m, λ m. m)
rotated-Visits (x ∷ rest) e = (
  from rest,
  λ m. elim (cases_cons m) [
    | inl same ↦ append_right rest (head same)
    | inr later ↦ append_left _ later
  ],
)
  where
    from : (l : List (Vote ℕ)) → Memᴰ e (l ++ x ∷ []) → Memᴰ e (x ∷ l)
    from [] m = m
    from (y ∷ l) m = elim (cases_cons m) [
      | inl same ↦ tail (head same)
      | inr later ↦ elim (cases_cons (from l later)) [
        | inl same ↦ head same
        | inr old ↦ tail (tail old)
      ]
    ]

kept-Visits : Visits area_key kept
unfolding kept
kept-Visits votes e = (λ m. m, λ m. m)

-- Two votes each for the areas 7 and 5, and one member without an area.
abbrev ballots : List (Ballot ℕ)
ballots =
    record { id = 1; value = 7 }
    ∷ record { id = 2; value = 5 }
    ∷ record { id = 3; value = 5 }
    ∷ record { id = 4; value = 0 }
    ∷ record { id = 6; value = 7 }
    ∷ []

tie : mode area_key rotated ballots ≡ (7, false)
unfolding mode rotated
tie = refl

area_voted : ℕ → ℕ
area_voted id = if id == 1 || id == 6 then 7 else if id == 4 then 0 else 5

area_voted_lem : (a : Ballot ℕ) → Memᴰ a ballots → a.value ≡ area_voted a.id
unfolding area_voted
area_voted_lem a (head e) = rw e refl
area_voted_lem a (tail (head e)) = rw e refl
area_voted_lem a (tail (tail (head e))) = rw e refl
area_voted_lem a (tail (tail (tail (head e)))) = rw e refl
area_voted_lem a (tail (tail (tail (tail (head e))))) = rw e refl
area_voted_lem a (tail (tail (tail (tail (tail m))))) = elim m [ ]

ballots-IdsDiffer : IdsDiffer area_key ballots
ballots-IdsDiffer a b m k e = area_voted_lem a m ∙ ap area_voted e ∙ sym (area_voted_lem b k)

mode-IsMode_example : IsMode area_key ballots (mode area_key rotated ballots)
mode-IsMode_example = mode-IsMode area_key rotated rotated-Visits ballots

mode_unordered_example : mode area_key rotated ballots ≡ mode area_key kept ballots
mode_unordered_example =
    mode_unordered area_key rotated kept ballots rotated-Visits kept-Visits ballots-IdsDiffer

abbrev orders : Orders
orders = record { of_missions = kept; of_areas = rotated }

abbrev person : ℕ → ℕ → String → ℕ → PeacetimeMember
person id team_no mission area_id = record {
  id = id;
  name = "";
  team_no = team_no;
  mission = mission;
  area_id = area_id;
  active = true;
}

abbrev roster : List PeacetimeMember
roster =
    person 9 2 "watch" 4
    ∷ person 3 1 "search" 7
    ∷ person 5 1 "" 8
    ∷ person 4 1 "search" 7
    ∷ person 2 0 "search" 1
    ∷ []

-- Team 2 has a plan for its mission.
abbrev plans : List (TeamPlan ℕ)
plans =
    record {
      team_no = 2;
      mission = "guard";
      area_id = 0;
      rally_lat = none;
      rally_lng = none;
      rally_addr = "";
      checkpoints = [];
      updated_by = none;
      updated_at = pos 0;
    }
    ∷ []

preview :
    ((build_draft orders plans roster).overrides
      ≡ record { member_id = 5; name = ""; team_no = 1; mission = "search"; area_id = 8 }
        ∷ record { member_id = 9; name = ""; team_no = 2; mission = "watch"; area_id = 4 }
        ∷ [])
unfolding build_draft rotated kept
preview = refl

build_draft-Gets_example :
    (d : TeamDraft) × Memᴰ d (build_draft orders plans roster).teams
    × (d.team_no ≡ 1)
    × Gets (build_draft orders plans roster).overrides d (person 5 1 "" 8)
unfolding is_listed
build_draft-Gets_example =
    build_draft-Gets orders plans roster (person 5 1 "" 8) (tail (tail (head refl))) refl
