-- ===== src/Roster/Members.antt =====
-- internal/roster/store.go: the table of members, kept by ascending id. The random password and its hash
-- are arguments (none is an error). Of the schema, the unique columns and the references to a team and an
-- area are modelled; `fails` says whether a statement fails for another reason. A column that is null is 0
-- or empty here, as it is read.
pub mod Unique
pub mod Passwords
pub mod Tests
use emergency_callup.Prelude.{
  ℕ, suc, ◌+◌, Bool, true, false, ◌&&◌, ◌||◌, not, List, [], ◌∷◌, ◌++◌, Option, none, some, String,
  str_eq, ltb, ◌==◌, if◌then◌else◌,
}
use emergency_callup.Prelude.Int.{ℤ}
use emergency_callup.Auth.Admin.{AdminError, Library, validate_password_policy}

pub record Member : Type 0 where
  pub id : ℕ
  pub login_id : String
  pub pw_hash : String
  pub pw_must_change : Bool
  pub dept : String
  pub name : String
  pub office_tel : String
  pub mobile : String
  pub team_no : ℕ
  pub mission : String
  pub area_id : ℕ
  pub note : String
  pub active : Bool
  pub created_at : ℤ
  pub updated_at : ℤ

pub data RosterError : Type 0 where
  not_found login_id_taken mobile_taken database_error hash_error random_error : RosterError
  policy : AdminError → RosterError

pub data Result (A : Type 0) : Type 0 where
  ok : A → Result A
  err : RosterError → Result A

pub record NewInput : Type 0 where
  pub login_id : String
  pub dept : String
  pub name : String
  pub office_tel : String
  pub mobile : String
  pub team_no : ℕ
  pub mission : String
  pub area_id : ℕ
  pub note : String

-- `none` leaves the column as it is.
pub record UpdateInput : Type 0 where
  pub dept : Option String
  pub name : Option String
  pub office_tel : Option String
  pub mobile : Option String
  pub team_no : Option ℕ
  pub mission : Option String
  pub area_id : Option ℕ
  pub note : Option String

-- The ids of the tables that a member refers to.
pub record References : Type 0 where
  pub teams : List ℕ
  pub areas : List ℕ

unfoldable pub has_id : ℕ → List ℕ → Bool
has_id id [] = false
has_id id (x ∷ rest) = x == id || has_id id rest

unfoldable pub member_by_id : ℕ → List Member → Option Member
member_by_id id [] = none
member_by_id id (m ∷ rest) = if m.id == id then some m else member_by_id id rest

unfoldable pub member_by_login_id : String → List Member → Option Member
member_by_login_id login_id [] = none
member_by_login_id login_id (m ∷ rest) =
    if str_eq m.login_id login_id then some m else member_by_login_id login_id rest

unfoldable pub member_by_mobile : String → List Member → Option Member
member_by_mobile mobile [] = none
member_by_mobile mobile (m ∷ rest) =
    if str_eq m.mobile mobile then some m else member_by_mobile mobile rest

unfoldable pub is_present : {A : Type 0} → Option A → Bool
is_present none = false
is_present (some a) = true

unfoldable pub max_member_id : List Member → ℕ
max_member_id [] = 0
max_member_id (m ∷ rest) = let top = max_member_id rest in if ltb top m.id then m.id else top

unfoldable pub update_member : ℕ → (Member → Member) → List Member → List Member
update_member id change [] = []
update_member id change (m ∷ rest) =
    if m.id == id then change m ∷ rest else m ∷ update_member id change rest

unfoldable pub without_member : ℕ → List Member → List Member
without_member id [] = []
without_member id (m ∷ rest) = if m.id == id then rest else m ∷ without_member id rest

-- `GetByID` gives an error if there is no row.
unfoldable pub read : Option Member → Result Member
read none = err not_found
read (some m) = ok m

-- An area of 0 is stored as null, a team of 0 is not.
unfoldable pub creation_refers : References → NewInput → Bool
unfolding has_id
creation_refers refs input =
    has_id input.team_no refs.teams && (input.area_id == 0 || has_id input.area_id refs.areas)

unfoldable pub new_member : ℕ → String → NewInput → ℤ → Member
new_member id hash input now = record {
  id = id;
  login_id = input.login_id;
  pw_hash = hash;
  pw_must_change = true;
  dept = input.dept;
  name = input.name;
  office_tel = input.office_tel;
  mobile = input.mobile;
  team_no = input.team_no;
  mission = input.mission;
  area_id = input.area_id;
  note = input.note;
  active = true;
  created_at = now;
  updated_at = now;
}

-- The `INSERT`, and `mapConstraintErr`. Of two columns that are taken the login id is reported.
unfoldable pub insert_member :
    Bool → References → List Member → NewInput → Member → List Member × Result Member
unfolding is_present member_by_login_id member_by_mobile creation_refers read member_by_id
insert_member fails refs rows input m =
    if fails
    then (rows, err database_error)
    else if is_present (member_by_login_id m.login_id rows)
    then (rows, err login_id_taken)
    else if is_present (member_by_mobile m.mobile rows)
    then (rows, err mobile_taken)
    else if creation_refers refs input
    then (rows ++ m ∷ [], read (member_by_id m.id (rows ++ m ∷ [])))
    else (rows, err database_error)

unfoldable pub with_password : String → Result Member → Result (Member × String)
with_password pw (ok m) = ok (m, pw)
with_password pw (err e) = err e

unfoldable pub hashed_create :
    Bool
    → References
    → List Member
    → NewInput
    → ℤ
    → String
    → Option String
    → List Member × Result (Member × String)
unfolding insert_member new_member max_member_id with_password
hashed_create fails refs rows input now pw none = (rows, err hash_error)
hashed_create fails refs rows input now pw (some hash) =
    let r =
      insert_member fails refs rows input (new_member (suc (max_member_id rows)) hash input now) in
    (r.0, with_password pw r.1)

-- `Store.Create`: the member, and the password in the clear.
unfoldable pub create :
    Library
    → Bool
    → References
    → List Member
    → NewInput
    → ℤ
    → Option String
    → List Member × Result (Member × String)
unfolding hashed_create
create lib fails refs rows input now none = (rows, err random_error)
create lib fails refs rows input now (some pw) =
    hashed_create fails refs rows input now pw (lib.hash pw)

abbrev or_kept : {A : Type 0} → Option A → A → A
or_kept none a = a
or_kept (some b) a = b

unfoldable pub edited : UpdateInput → ℤ → Member → Member
edited input now m = record m {
  dept = or_kept input.dept m.dept;
  name = or_kept input.name m.name;
  office_tel = or_kept input.office_tel m.office_tel;
  mobile = or_kept input.mobile m.mobile;
  team_no = or_kept input.team_no m.team_no;
  mission = or_kept input.mission m.mission;
  area_id = or_kept input.area_id m.area_id;
  note = or_kept input.note m.note;
  updated_at = now;
}

-- Here a team of 0 is stored as null too.
unfoldable pub edit_refers : References → Member → Bool
unfolding has_id
edit_refers refs m =
    (m.team_no == 0 || has_id m.team_no refs.teams)
    && (m.area_id == 0 || has_id m.area_id refs.areas)

unfoldable pub update_found :
    Bool
    → References
    → List Member
    → ℕ
    → UpdateInput
    → ℤ
    → Option Member
    → List Member × Option RosterError
unfolding edited is_present member_by_mobile edit_refers update_member without_member
update_found fails refs rows id input now none = (rows, some not_found)
update_found fails refs rows id input now (some m) =
    let n = edited input now m in
    if fails
    then (rows, some database_error)
    else if is_present (member_by_mobile n.mobile (without_member id rows))
    then (rows, some mobile_taken)
    else if edit_refers refs n
    then (update_member id (edited input now) rows, none)
    else (rows, some database_error)

-- `Store.Update`.
unfoldable pub update :
    Bool → References → List Member → ℕ → UpdateInput → ℤ → List Member × Option RosterError
unfolding update_found member_by_id
update fails refs rows id input now =
    update_found fails refs rows id input now (member_by_id id rows)

-- `UPDATE member SET ... WHERE id=?`, with the error if it affects no row.
unfoldable pub change_found :
    Bool → List Member → ℕ → (Member → Member) → Option Member → List Member × Option RosterError
unfolding update_member
change_found true rows id change o = (rows, some database_error)
change_found false rows id change none = (rows, some not_found)
change_found false rows id change (some m) = (update_member id change rows, none)

-- `Store.SetActive`.
unfoldable pub set_active : Bool → List Member → ℕ → Bool → ℤ → List Member × Option RosterError
unfolding change_found member_by_id
set_active fails rows id active now =
    change_found fails rows id (λ m. record m { active = active; updated_at = now })
      (member_by_id id rows)

abbrev pub with_hash : String → Bool → Member → Member
with_hash hash must_change m = record m { pw_hash = hash; pw_must_change = must_change }

-- `Store.storePassword`, of the hash: it does not ask whether it affects a row.
unfoldable pub store_hash :
    Bool → List Member → ℕ → Bool → Option String → List Member × Option RosterError
unfolding update_member
store_hash fails rows id must_change none = (rows, some hash_error)
store_hash fails rows id must_change (some hash) =
    if fails
    then (rows, some database_error)
    else (update_member id (with_hash hash must_change) rows, none)

unfoldable pub allowed_password :
    Library
    → Bool
    → List Member
    → ℕ
    → String
    → Bool
    → Option AdminError
    → List Member × Option RosterError
unfolding store_hash
allowed_password lib fails rows id pw must_change (some e) = (rows, some (policy e))
allowed_password lib fails rows id pw must_change none =
    store_hash fails rows id must_change (lib.hash pw)

unfoldable pub password_for :
    Library
    → Bool
    → List Member
    → ℕ
    → String
    → Bool
    → Option Member
    → List Member × Option RosterError
unfolding allowed_password
password_for lib fails rows id pw must_change none = (rows, some not_found)
password_for lib fails rows id pw must_change (some m) =
    allowed_password lib fails rows id pw must_change
      (validate_password_policy lib pw m.login_id m.mobile)

-- `Store.SetPassword`.
unfoldable pub set_password :
    Library → Bool → List Member → ℕ → String → Bool → List Member × Option RosterError
unfolding password_for member_by_id
set_password lib fails rows id pw must_change =
    password_for lib fails rows id pw must_change (member_by_id id rows)

unfoldable pub answered : String → List Member × Option RosterError → List Member × Result String
answered pw (rows, none) = (rows, ok pw)
answered pw (rows, some e) = (rows, err e)

unfoldable pub reset_hashed :
    Bool → List Member → ℕ → String → Option String → List Member × Result String
unfolding answered change_found member_by_id
reset_hashed fails rows id pw none = (rows, err hash_error)
reset_hashed fails rows id pw (some hash) =
    answered pw (change_found fails rows id (with_hash hash true) (member_by_id id rows))

-- `Store.PasswordReset`.
unfoldable pub password_reset :
    Library → Bool → List Member → ℕ → Option String → List Member × Result String
unfolding reset_hashed
password_reset lib fails rows id none = (rows, err random_error)
password_reset lib fails rows id (some pw) = reset_hashed fails rows id pw (lib.hash pw)
