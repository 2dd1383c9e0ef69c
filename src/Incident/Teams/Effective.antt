-- ===== src/Incident/Teams/Effective.antt =====
-- What an assignment's effective mission and area are, and when its version grows.
use emergency_callup.Prelude.{
  ℕ, ◌+◌, true, false, ◌&&◌, not, List, [], ◌∷◌, Option, none, some, String, str_eq, eq_iff, ◌==◌,
  if◌then◌else◌, ◌≡◌, ◌≢◌, refl, sym, ap, ◌∙◌, ◌⊎◌, inl, inr, arith, Bool-cases, if_both,
  if_of_true, if_of_false, subst,
}
use emergency_callup.Prelude.Int.{ℤ}
use emergency_callup.Audit.{Actor}
use emergency_callup.Incident.Model.{moving, has_arrived, Assignment}
use emergency_callup.Incident.Tables.{Tables}
use emergency_callup.Incident.Store.{
  ok, StoreFaults, TeamSnapshot, or_else, resolve_team_snapshot, audited,
}
use emergency_callup.Incident.Teams.{
  is_in_team, reassigned, team_value, follow_team, follow_all, update_team_task, update_team_with,
}

-- The personal override, or else the team's value.
abbrev pub Follows : String → ℕ → Assignment → Type 0
Follows mission area_id a =
    (a.eff_mission ≡ or_else a.mission_override mission)
    × (a.eff_area_id ≡ or_else a.area_override_id area_id)

-- Every row of the team is in that relation to the team's mission and area.
abbrev pub AllFollow : ℕ → ℕ → String → ℕ → List Assignment → Type 0
AllFollow incident_id team_no mission area_id [] = Unit
AllFollow incident_id team_no mission area_id (a ∷ rest) =
    (is_in_team incident_id team_no a ≡ true → Follows mission area_id a)
    × AllFollow incident_id team_no mission area_id rest

eq_of_str_eq : (s t : String) → str_eq s t ≡ true → s ≡ t
eq_of_str_eq s t h = (eq_iff s t).0 h

reassigned_values :
    (mission : String) (area_id : ℕ) (a : Assignment)
    → ((reassigned mission area_id a).eff_mission ≡ mission)
      × (((reassigned mission area_id a).eff_area_id ≡ area_id)
          × (((reassigned mission area_id a).mission_override ≡ a.mission_override)
              × ((reassigned mission area_id a).area_override_id ≡ a.area_override_id)))
unfolding reassigned
reassigned_values mission area_id a =
    if_both
      (λ (b : Assignment).
        (b.eff_mission ≡ mission)
        × ((b.eff_area_id ≡ area_id)
            × ((b.mission_override ≡ a.mission_override)
                × (b.area_override_id ≡ a.area_override_id))))
      (not (area_id == a.eff_area_id) && has_arrived a.state) _ _ (refl, (refl, (refl, refl)))
      (refl, (refl, (refl, refl)))

team_value_follows :
    {A : Type 0} (own : Option A) (effective old of_team : A)
    → effective ≡ or_else own old
    → team_value own effective of_team ≡ or_else own of_team
unfolding team_value
team_value_follows none effective old of_team h = refl
team_value_follows (some own) effective old of_team h = h

-- The row's new mission and area.
abbrev pub mission_for : String → Assignment → String
mission_for mission a = team_value a.mission_override a.eff_mission mission

abbrev pub area_for : ℕ → Assignment → ℕ
area_for area_id a = team_value a.area_override_id a.eff_area_id area_id

-- They are the row's already, and it stays as it is, or one of them is not, and the row is reassigned.
follow_team_cases :
    (mission : String) (area_id : ℕ) (a : Assignment)
    → (((mission_for mission a ≡ a.eff_mission) × (area_for area_id a ≡ a.eff_area_id))
        × (follow_team mission area_id a ≡ a))
      ⊎ (((str_eq (mission_for mission a) a.eff_mission && area_for area_id a == a.eff_area_id)
            ≡ false)
          × (follow_team mission area_id a
              ≡ reassigned (mission_for mission a) (area_for area_id a) a))
unfolding follow_team
follow_team_cases mission area_id a =
    elim (Bool-cases
      (str_eq (mission_for mission a) a.eff_mission && area_for area_id a == a.eff_area_id)) [
        | inl same ↦
            inl
              ((eq_of_str_eq _ _ (ground (arith, same)), ground (arith, same)), if_of_true _ _ same)
        | inr differs ↦ inr (differs, if_of_false _ _ differs)
      ]

follow_team-Follows :
    (old mission : String) (old_area area_id : ℕ) (a : Assignment)
    → Follows old old_area a
    → Follows mission area_id (follow_team mission area_id a)
follow_team-Follows old mission old_area area_id a (m, r) =
    let new_m = team_value_follows a.mission_override a.eff_mission old mission m in
    let new_r = team_value_follows a.area_override_id a.eff_area_id old_area area_id r in
    elim (follow_team_cases mission area_id a) [
      | inl ((same_m, same_r), e) ↦
          subst (Follows mission area_id) (sym e) (sym same_m ∙ new_m, sym same_r ∙ new_r)
      | inr (differs, e) ↦
          let (is_m, (is_r, (own_m, own_r))) =
            reassigned_values (mission_for mission a) (area_for area_id a) a in
          subst (Follows mission area_id) (sym e) (
            is_m ∙ new_m ∙ ap (λ (o : Option String). or_else o mission) (sym own_m),
            is_r ∙ new_r ∙ ap (λ (o : Option ℕ). or_else o area_id) (sym own_r),
          )
    ]

follow_all-AllFollow :
    (incident_id team_no : ℕ) (old mission : String) (old_area area_id : ℕ) (rows : List Assignment)
    → AllFollow incident_id team_no old old_area rows
    → AllFollow incident_id team_no mission area_id
        (follow_all incident_id team_no mission area_id rows)
unfolding follow_all
follow_all-AllFollow incident_id team_no old mission old_area area_id [] _ = tt
follow_all-AllFollow incident_id team_no old mission old_area area_id (a ∷ rest) (p, ps) = (
  elim (Bool-cases (is_in_team incident_id team_no a)) [
    | inl h ↦ λ _.
        subst (Follows mission area_id) (sym (if_of_true (follow_team mission area_id a) a h))
          (follow_team-Follows old mission old_area area_id a (p h))
    | inr h ↦ rw h (λ e. ground (arith, e, h))
  ],
  follow_all-AllFollow incident_id team_no old mission old_area area_id rest ps,
)

-- If every assignment of a team follows the team's mission and area or its own override, every one
-- follows the new mission and area, or its own override, once `UpdateTeamTask` has succeeded.
pub update_team_task-AllFollow :
    {F : Type 0} (faults : StoreFaults) (t : Tables F) (incident_id team_no : ℕ)
    (old mission : String) (old_area area_id : ℕ) (actor : Actor) (now : ℤ)
    → AllFollow incident_id team_no old old_area t.assignments
    → (update_team_task faults t incident_id team_no mission area_id actor now).1 ≡ ok tt
    → AllFollow incident_id team_no mission area_id
        (update_team_task faults t incident_id team_no mission area_id actor now).0.assignments
unfolding update_team_task update_team_with audited
update_team_task-AllFollow {F} faults t incident_id team_no old mission old_area area_id actor now
      all =
    go (resolve_team_snapshot t team_no area_id)
  where
    go :
        (o : Option (TeamSnapshot F))
        → (update_team_with faults t incident_id team_no mission area_id actor now o).1 ≡ ok tt
        → AllFollow incident_id team_no mission area_id
            (update_team_with faults t incident_id team_no mission area_id actor now
              o).0.assignments
    go none h = ground (arith, h)
    go (some snap) h = elim (Bool-cases faults.write) [
      | inl fails ↦ ground (arith, fails, h)
      | inr works ↦
          rw works (
            follow_all-AllFollow incident_id team_no old mission old_area area_id t.assignments all)
    ]

reassigned_changes :
    (mission : String) (area_id : ℕ) (a : Assignment)
    → (str_eq mission a.eff_mission && area_id == a.eff_area_id) ≡ false
    → ((reassigned mission area_id a).mission_ver ≡ a.mission_ver + 1)
      × (((reassigned mission area_id a).state
            ≡ (if not (area_id == a.eff_area_id) && has_arrived a.state then moving else a.state))
          × ((reassigned mission area_id a).arrived_at ≡ (
              if not (area_id == a.eff_area_id) && has_arrived a.state
              then none
              else a.arrived_at)))
unfolding reassigned
reassigned_changes mission area_id a differs =
    rw differs (elim (Bool-cases (not (area_id == a.eff_area_id) && has_arrived a.state)) [
      | inl h ↦ rw h (refl, (refl, refl))
      | inr h ↦ rw h (refl, (refl, refl))
    ])

-- One of two values is not the row's.
differing :
    (mission : String) (area_id : ℕ) (a : Assignment)
    → (str_eq mission a.eff_mission && area_id == a.eff_area_id) ≡ false
    → (mission ≢ a.eff_mission) ⊎ (area_id ≢ a.eff_area_id)
differing mission area_id a differs = elim (Bool-cases (str_eq mission a.eff_mission)) [
  | inl same ↦ inr (λ e. ground (arith, differs, same, e))
  | inr other ↦ inl (λ e. ground (arith, other, (eq_iff mission a.eff_mission).1 e))
]

-- `UpdateTeamTask` leaves a row of the team as it is if its effective mission and area stay the same;
-- otherwise, where one of them is another, it gives the row the new ones, adds one to the row's version,
-- and, exactly if the area is another one and the member was ARRIVED or LEFT, sets the state to MOVING
-- and clears the time of arrival.
pub follow_team_changes :
    (mission : String) (area_id : ℕ) (a : Assignment)
    → (((mission_for mission a ≡ a.eff_mission) × (area_for area_id a ≡ a.eff_area_id))
        × (follow_team mission area_id a ≡ a))
      ⊎ (((mission_for mission a ≢ a.eff_mission) ⊎ (area_for area_id a ≢ a.eff_area_id))
          × ((follow_team mission area_id a).eff_mission ≡ mission_for mission a)
          × ((follow_team mission area_id a).eff_area_id ≡ area_for area_id a)
          × ((follow_team mission area_id a).mission_ver ≡ a.mission_ver + 1)
          × ((follow_team mission area_id a).state ≡ (
              if not (area_for area_id a == a.eff_area_id) && has_arrived a.state
              then moving
              else a.state))
          × ((follow_team mission area_id a).arrived_at ≡ (
              if not (area_for area_id a == a.eff_area_id) && has_arrived a.state
              then none
              else a.arrived_at)))
follow_team_changes mission area_id a = elim (follow_team_cases mission area_id a) [
  | inl same ↦ inl same
  | inr (differs, e) ↦
      let (ver, (state, at)) =
        reassigned_changes (mission_for mission a) (area_for area_id a) a differs in
      let (is_m, (is_r, _)) = reassigned_values (mission_for mission a) (area_for area_id a) a in
      inr (
        rw e (
          differing (mission_for mission a) (area_for area_id a) a differs,
          is_m,
          is_r,
          ver,
          state,
          at,
        ))
]
