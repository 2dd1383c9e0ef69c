-- ===== src/Roster/Members/Tests.antt =====
-- A roster of two members.
use emergency_callup.Prelude.{
  ℕ, ◌≤◌, true, false, List, [], ◌∷◌, none, some, String, ◌≡◌, refl, subst, arith, inl, inr, str_eq,
  eq_iff, Bool-cases,
}
use emergency_callup.Prelude.Int.{pos}
use emergency_callup.Auth.Admin.{Library}
use emergency_callup.Roster.Members.{
  Member, NewInput, UpdateInput, References, update, mobile_taken,
}
use emergency_callup.Roster.Members.Unique.{
  AllDiffer, Operation, creation, editing, activation, reset, perform_all, perform_all-AllDiffer,
  count_of,
}

abbrev pub plain : Library
plain = record {
  to_lower = λ s. s;
  contains = λ s t. str_eq s t;
  byte_length = λ s. 8;
  hash = λ s. some s;
}

abbrev person : ℕ → String → String → Member
person id login_id mobile = record {
  id = id;
  login_id = login_id;
  pw_hash = "";
  pw_must_change = false;
  dept = "";
  name = "";
  office_tel = "";
  mobile = mobile;
  team_no = 1;
  mission = "";
  area_id = 0;
  note = "";
  active = true;
  created_at = pos 0;
  updated_at = pos 0;
}

abbrev pub rows : List Member
rows = person 1 "kim" "01011112222" ∷ person 2 "lee" "01033334444" ∷ []

abbrev pub refs : References
refs = record { teams = 1 ∷ 2 ∷ []; areas = [] }

abbrev input : ℕ → NewInput
input team_no = record {
  login_id = "park";
  dept = "";
  name = "park";
  office_tel = "";
  mobile = "01055556666";
  team_no = team_no;
  mission = "";
  area_id = 0;
  note = "";
}

abbrev pub to_mobile : String → UpdateInput
to_mobile mobile = record {
  dept = none;
  name = none;
  office_tel = none;
  mobile = some mobile;
  team_no = none;
  mission = none;
  area_id = none;
  note = none;
}

taken : update false refs rows 2 (to_mobile "01011112222") (pos 1) ≡ (rows, some mobile_taken)
unfolding update
taken = refl

two_differ : AllDiffer rows
unfolding count_of
two_differ v = (logins, phones)
  where
    logins : count_of (λ m. m.login_id) v rows ≤ 1
    logins = elim (Bool-cases (str_eq "kim" v)) [
      | inl e ↦
          subst (λ n. count_of (λ m. m.login_id) n rows ≤ 1) ((eq_iff "kim" v).0 e) (omega arith)
      | inr e ↦ ground (arith, e)
    ]

    phones : count_of (λ m. m.mobile) v rows ≤ 1
    phones = elim (Bool-cases (str_eq "01011112222" v)) [
      | inl e ↦
          subst (λ n. count_of (λ m. m.mobile) n rows ≤ 1) ((eq_iff "01011112222" v).0 e)
            (omega arith)
      | inr e ↦ ground (arith, e)
    ]

abbrev operations : List Operation
operations =
    creation plain false refs (input 2) (pos 1) (some "secret")
    ∷ editing false refs 2 (to_mobile "01055556666") (pos 2)
    ∷ activation false 1 false (pos 3)
    ∷ reset plain false 1 (some "again")
    ∷ []

perform_all-AllDiffer_example : AllDiffer (perform_all rows operations)
perform_all-AllDiffer_example = perform_all-AllDiffer rows operations two_differ
