-- ===== src/Incident/Draft.antt =====
-- internal/incident/draft.go: the preview of a new incident, filled in from the peacetime values. Go
-- ranges over a map in an unspecified order, so the order is a parameter of `mode`.
pub mod Counts
pub mod Mode
pub mod Members
mod Tests
use emergency_callup.Prelude.{
  ℕ, suc, ◌+◌, Bool, true, false, ◌&&◌, ◌||◌, not, List, [], ◌∷◌, ◌++◌, Option, none, some, String,
  str_eq, eq_iff, ltb, ◌==◌, ==_iff, if◌then◌else◌, ◌≡◌, ◌↔◌, length,
}
use emergency_callup.Incident.Model.{TeamPlan, PeacetimeMember}

-- A column that a team votes on: the test of `map` keys, and the value that stands for none.
pub record Key (K : Type 0) : Type 0 where
  pub same : K → K → Bool
  pub same_iff : (a b : K) → (same a b ≡ true) ↔ (a ≡ b)
  pub unset : K

-- `""`.
abbrev pub mission_key : Key String
mission_key = record { same = str_eq; same_iff = eq_iff; unset = "" }

-- `0`.
abbrev pub area_key : Key ℕ
area_key = record { same = ◌==◌; same_iff = ==_iff; unset = 0 }

-- An entry of `counts` with that of `firstID`.
pub record Vote (K : Type 0) : Type 0 where
  pub value : K
  pub count : ℕ
  pub first_id : ℕ

-- What one member votes for.
pub record Ballot (K : Type 0) : Type 0 where
  pub id : ℕ
  pub value : K

module _ {K : Type 0} (key : Key K) where
  -- `firstID[v]` exists.
  unfoldable pub voted : K → List (Vote K) → Bool
  voted v [] = false
  voted v (e ∷ rest) = key.same e.value v || voted v rest

  -- `counts[v]++` of a key that is there.
  unfoldable pub bump : K → List (Vote K) → List (Vote K)
  bump v [] = []
  bump v (e ∷ rest) =
      (if key.same e.value v then record e { count = e.count + 1 } else e) ∷ bump v rest

  unfoldable pub cast : K → ℕ → List (Vote K) → List (Vote K)
  unfolding voted bump
  cast v id votes =
      if voted v votes
      then bump v votes
      else votes ++ record { value = v; count = 1; first_id = id } ∷ []

  unfoldable pub tally : List (Vote K) → List (Ballot K) → List (Vote K)
  unfolding cast
  tally votes [] = votes
  tally votes (b ∷ rest) =
      tally (if key.same b.value key.unset then votes else cast b.value b.id votes) rest

  -- The flag `any`.
  unfoldable pub any_set : List (Ballot K) → Bool
  any_set [] = false
  any_set (b ∷ rest) = not (key.same b.value key.unset) || any_set rest

  -- `none` is the start, where `bestCount` is -1.
  unfoldable pub beats : Vote K → Option (Vote K) → Bool
  beats e none = true
  beats e (some b) = ltb b.count e.count || (e.count == b.count && ltb e.first_id b.first_id)

  unfoldable pub pick : Option (Vote K) → List (Vote K) → Option (Vote K)
  unfolding beats
  pick best [] = best
  pick best (e ∷ rest) = pick (if beats e best then some e else best) rest

  unfoldable pub picked : Option (Vote K) → K
  picked none = key.unset
  picked (some e) = e.value

  -- The value, and whether no member has one. `order` is the order of the range over `counts`.
  unfoldable pub mode : (List (Vote K) → List (Vote K)) → List (Ballot K) → K × Bool
  unfolding any_set tally pick picked
  mode order ballots =
      if any_set ballots
      then (picked (pick none (order (tally [] ballots))), false)
      else (key.unset, true)

pub record TeamDraft : Type 0 where
  pub team_no : ℕ
  pub mission : String
  pub area_id : ℕ
  pub mission_incomplete : Bool
  pub area_incomplete : Bool
  pub member_count : ℕ
  pub from_plan : Bool

pub record MemberOverrideDraft : Type 0 where
  pub member_id : ℕ
  pub name : String
  pub team_no : ℕ
  pub mission : String
  pub area_id : ℕ

pub record Draft : Type 0 where
  pub teams : List TeamDraft
  pub overrides : List MemberOverrideDraft

-- `ORDER BY team_no, id`
unfoldable pub before : PeacetimeMember → PeacetimeMember → Bool
before a b = ltb a.team_no b.team_no || (a.team_no == b.team_no && ltb a.id b.id)

unfoldable pub insert_row : PeacetimeMember → List PeacetimeMember → List PeacetimeMember
unfolding before
insert_row m [] = m ∷ []
insert_row m (x ∷ rest) = if before m x then m ∷ x ∷ rest else x ∷ insert_row m rest

-- `WHERE active = 1 AND team_no IS NOT NULL`
unfoldable pub is_listed : PeacetimeMember → Bool
is_listed m = m.active && not (m.team_no == 0)

unfoldable pub listed_rows : List PeacetimeMember → List PeacetimeMember
unfolding insert_row before is_listed
listed_rows [] = []
listed_rows (m ∷ rest) = if is_listed m then insert_row m (listed_rows rest) else listed_rows rest

-- `byTeam[number]`
unfoldable pub rows_of : ℕ → List PeacetimeMember → List PeacetimeMember
rows_of number [] = []
rows_of number (m ∷ rest) =
    if m.team_no == number then m ∷ rows_of number rest else rows_of number rest

unfoldable pub has_number : ℕ → List ℕ → Bool
has_number number [] = false
has_number number (x ∷ rest) = x == number || has_number number rest

-- `teamOrder`
unfoldable pub team_order : List ℕ → List PeacetimeMember → List ℕ
unfolding has_number
team_order seen [] = seen
team_order seen (m ∷ rest) =
    team_order (if has_number m.team_no seen then seen else seen ++ m.team_no ∷ []) rest

unfoldable pub missions : List PeacetimeMember → List (Ballot String)
missions [] = []
missions (m ∷ rest) = record { id = m.id; value = m.mission } ∷ missions rest

unfoldable pub area_ids : List PeacetimeMember → List (Ballot ℕ)
area_ids [] = []
area_ids (m ∷ rest) = record { id = m.id; value = m.area_id } ∷ area_ids rest

-- The orders of the two ranges.
pub record Orders : Type 0 where
  pub of_missions : List (Vote String) → List (Vote String)
  pub of_areas : List (Vote ℕ) → List (Vote ℕ)

module _ {F : Type 0} where
  -- `planByTeam[number]`: a later plan replaces an earlier one.
  unfoldable pub plan_for : ℕ → Option (TeamPlan F) → List (TeamPlan F) → Option (TeamPlan F)
  plan_for number found [] = found
  plan_for number found (p ∷ rest) =
      plan_for number (if p.team_no == number then some p else found) rest

  unfoldable pub plan_mission : TeamPlan F → TeamDraft → TeamDraft
  plan_mission p d =
      if str_eq p.mission ""
      then d
      else record d { mission = p.mission; mission_incomplete = false; from_plan = true }

  unfoldable pub plan_area : TeamPlan F → TeamDraft → TeamDraft
  plan_area p d =
      if p.area_id == 0
      then d
      else record d { area_id = p.area_id; area_incomplete = false; from_plan = true }

  unfoldable pub apply_plan : Option (TeamPlan F) → TeamDraft → TeamDraft
  unfolding plan_mission plan_area
  apply_plan none d = d
  apply_plan (some p) d = plan_area p (plan_mission p d)

  unfoldable pub team_draft : Orders → List (TeamPlan F) → ℕ → List PeacetimeMember → TeamDraft
  unfolding apply_plan plan_for mode missions area_ids
  team_draft orders plans number members =
      let mission = mode mission_key orders.of_missions (missions members) in
      let area = mode area_key orders.of_areas (area_ids members) in
      apply_plan (plan_for number none plans) (record {
        team_no = number;
        mission = mission.0;
        area_id = area.0;
        mission_incomplete = mission.1;
        area_incomplete = area.1;
        member_count = length members;
        from_plan = false;
      })

-- `m.Mission != "" && m.Mission != defMission`, and the same of the area.
unfoldable pub differs : {K : Type 0} → Key K → K → K → Bool
differs key own default = not (key.same own key.unset) && not (key.same own default)

unfoldable pub override_of : TeamDraft → PeacetimeMember → Option MemberOverrideDraft
unfolding differs
override_of d m =
    let mission_differs = differs mission_key m.mission d.mission in
    let area_differs = differs area_key m.area_id d.area_id in
    if mission_differs || area_differs
    then some (record {
      member_id = m.id;
      name = m.name;
      team_no = d.team_no;
      mission = if mission_differs then m.mission else d.mission;
      area_id = if area_differs then m.area_id else d.area_id;
    })
    else none

unfoldable pub prepend :
    Option MemberOverrideDraft → List MemberOverrideDraft → List MemberOverrideDraft
prepend none rest = rest
prepend (some o) rest = o ∷ rest

unfoldable pub overrides_of : TeamDraft → List PeacetimeMember → List MemberOverrideDraft
unfolding override_of prepend differs
overrides_of d [] = []
overrides_of d (m ∷ rest) = prepend (override_of d m) (overrides_of d rest)

unfoldable pub team_drafts :
    {F : Type 0} → Orders → List (TeamPlan F) → List PeacetimeMember → List ℕ → Draft
unfolding team_draft rows_of overrides_of
team_drafts orders plans rows [] = record { teams = []; overrides = [] }
team_drafts orders plans rows (number ∷ rest) =
    let members = rows_of number rows in
    let d = team_draft orders plans number members in
    let later = team_drafts orders plans rows rest in
    record { teams = d ∷ later.teams; overrides = overrides_of d members ++ later.overrides }

-- `BuildDraft`, of the rows of `member`.
unfoldable pub build_draft :
    {F : Type 0} → Orders → List (TeamPlan F) → List PeacetimeMember → Draft
unfolding team_drafts listed_rows team_order
build_draft orders plans members =
    let rows = listed_rows members in team_drafts orders plans rows (team_order [] rows)
