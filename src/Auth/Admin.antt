-- ===== src/Auth/Admin.antt =====
-- internal/auth/admin.go and password.go: administrator accounts. bcrypt, and what the password policy
-- takes from `strings`, are parameters. The table's rows are kept in the order of their ids.
pub mod Last
use emergency_callup.Prelude.{
  ℕ, ◌+◌, Bool, true, false, ◌&&◌, not, List, [], ◌∷◌, ◌++◌, Option, none, some, String, str_eq,
  ltb, leb, ◌==◌, if◌then◌else◌,
}
use emergency_callup.Prelude.Int.{ℤ}

-- The column `role`, and any other text that a caller may pass.
pub data Role : Type 0 where
  admin operator : Role
  other : String → Role

pub record AdminUser : Type 0 where
  pub id : ℕ
  pub login_id : String
  pub pw_hash : String
  pub name : String
  pub dept : String
  pub role : Role
  pub active : Bool
  pub created_at : ℤ

pub data AdminError : Type 0 where
  admin_not_found login_id_taken last_active_admin invalid_role : AdminError
  password_too_short password_has_login_id password_has_mobile : AdminError
  hash_error database_error : AdminError

-- `strings.ToLower`, `strings.Contains`, `len` of a string in bytes, and `Hasher.Hash` (none is an error).
pub record Library : Type 0 where
  pub to_lower : String → String
  pub contains : String → String → Bool
  pub byte_length : String → ℕ
  pub hash : String → Option String

unfoldable pub is_admin : Role → Bool
is_admin admin = true
is_admin _ = false

unfoldable pub is_known : Role → Bool
is_known (other text) = false
is_known _ = true

unfoldable pub is_active_admin : AdminUser → Bool
unfolding is_admin
is_active_admin u = is_admin u.role && u.active

unfoldable pub count_active_admins : List AdminUser → ℕ
unfolding is_active_admin
count_active_admins [] = 0
count_active_admins (u ∷ rest) = (if is_active_admin u then 1 else 0) + count_active_admins rest

unfoldable pub find_by_id : ℕ → List AdminUser → Option AdminUser
find_by_id id [] = none
find_by_id id (u ∷ rest) = if u.id == id then some u else find_by_id id rest

unfoldable pub find_by_login_id : String → List AdminUser → Option AdminUser
find_by_login_id login_id [] = none
find_by_login_id login_id (u ∷ rest) =
    if str_eq u.login_id login_id then some u else find_by_login_id login_id rest

-- `UPDATE admin_user SET ... WHERE id = ?`; the id is the primary key.
unfoldable pub update_by_id : ℕ → (AdminUser → AdminUser) → List AdminUser → List AdminUser
update_by_id id change [] = []
update_by_id id change (u ∷ rest) =
    if u.id == id then change u ∷ rest else u ∷ update_by_id id change rest

next_id : List AdminUser → ℕ
next_id [] = 1
next_id (u ∷ rest) = let others = next_id rest in if ltb u.id others then others else u.id + 1

pub validate_password_policy : Library → String → String → String → Option AdminError
validate_password_policy lib password login_id mobile =
    if ltb (lib.byte_length password) 8
    then some password_too_short
    else if not (str_eq login_id "") && lib.contains (lib.to_lower password) (lib.to_lower login_id)
    then some password_has_login_id
    else if not (str_eq mobile "") && lib.contains password mobile
    then some password_has_mobile
    else none

insert_admin :
    Bool → List AdminUser → AdminUser → Option AdminUser → List AdminUser × Option AdminError
insert_admin fails admins u (some taken) = (admins, some login_id_taken)
insert_admin fails admins u none =
    if fails then (admins, some database_error) else (admins ++ u ∷ [], none)

create_hashed :
    Bool
    → List AdminUser
    → String
    → String
    → String
    → Role
    → ℤ
    → Option String
    → List AdminUser × Option AdminError
unfolding insert_admin next_id find_by_login_id
create_hashed fails admins login_id name dept role now none = (admins, some hash_error)
create_hashed fails admins login_id name dept role now (some pw_hash) =
    insert_admin fails admins
      (record {
        id = next_id admins;
        login_id = login_id;
        pw_hash = pw_hash;
        name = name;
        dept = dept;
        role = role;
        active = true;
        created_at = now;
      })
      (find_by_login_id login_id admins)

create_checked :
    Library
    → Bool
    → List AdminUser
    → String
    → String
    → String
    → String
    → Role
    → ℤ
    → Option AdminError
    → List AdminUser × Option AdminError
unfolding create_hashed
create_checked lib fails admins login_id password name dept role now (some e) = (admins, some e)
create_checked lib fails admins login_id password name dept role now none =
    create_hashed fails admins login_id name dept role now (lib.hash password)

-- `AdminStore.Create`. The answer here and below is the error, if any; `fails` is an error of the
-- statement that writes.
pub create :
    Library
    → Bool
    → List AdminUser
    → String
    → String
    → String
    → String
    → Role
    → ℤ
    → List AdminUser × Option AdminError
unfolding create_checked
create lib fails admins login_id password name dept role now =
    if not (is_known role)
    then (admins, some invalid_role)
    else create_checked lib fails admins login_id password name dept role now
        (validate_password_policy lib password login_id "")

write_admin :
    Bool → List AdminUser → ℕ → (AdminUser → AdminUser) → List AdminUser × Option AdminError
unfolding update_by_id
write_admin fails admins id change =
    if fails then (admins, some database_error) else (update_by_id id change admins, none)

deactivate : Bool → List AdminUser → ℕ → Option AdminUser → List AdminUser × Option AdminError
unfolding write_admin is_active_admin
deactivate fails admins id none = (admins, some admin_not_found)
deactivate fails admins id (some u) =
    if is_active_admin u && leb (count_active_admins admins) 1
    then (admins, some last_active_admin)
    else write_admin fails admins id (λ u. record u { active = false })

-- `AdminStore.SetActive`.
pub set_active : Bool → List AdminUser → ℕ → Bool → List AdminUser × Option AdminError
unfolding deactivate write_admin
set_active fails admins id true = write_admin fails admins id (λ u. record u { active = true })
set_active fails admins id false = deactivate fails admins id (find_by_id id admins)

store_password : Bool → List AdminUser → ℕ → Option String → List AdminUser × Option AdminError
unfolding write_admin
store_password fails admins id none = (admins, some hash_error)
store_password fails admins id (some h) =
    write_admin fails admins id (λ u. record u { pw_hash = h })

password_checked :
    Library
    → Bool
    → List AdminUser
    → ℕ
    → String
    → Option AdminError
    → List AdminUser × Option AdminError
unfolding store_password
password_checked lib fails admins id password (some e) = (admins, some e)
password_checked lib fails admins id password none =
    store_password fails admins id (lib.hash password)

password_for :
    Library
    → Bool
    → List AdminUser
    → ℕ
    → String
    → Option AdminUser
    → List AdminUser × Option AdminError
unfolding password_checked
password_for lib fails admins id password none = (admins, some admin_not_found)
password_for lib fails admins id password (some u) =
    password_checked lib fails admins id password
      (validate_password_policy lib password u.login_id "")

-- `AdminStore.SetPassword`.
pub set_password : Library → Bool → List AdminUser → ℕ → String → List AdminUser × Option AdminError
unfolding password_for
set_password lib fails admins id password =
    password_for lib fails admins id password (find_by_id id admins)

unfoldable pub is_operator : Role → Bool
is_operator operator = true
is_operator _ = false

role_for : Bool → List AdminUser → ℕ → Role → Option AdminUser → List AdminUser × Option AdminError
unfolding write_admin is_active_admin is_operator
role_for fails admins id role none = (admins, some admin_not_found)
role_for fails admins id role (some u) =
    if (is_active_admin u && is_operator role) && leb (count_active_admins admins) 1
    then (admins, some last_active_admin)
    else write_admin fails admins id (λ u. record u { role = role })

-- `AdminStore.UpdateRole`.
pub update_role : Bool → List AdminUser → ℕ → Role → List AdminUser × Option AdminError
unfolding role_for
update_role fails admins id role =
    if not (is_known role)
    then (admins, some invalid_role)
    else role_for fails admins id role (find_by_id id admins)
