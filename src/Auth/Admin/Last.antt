-- ===== src/Auth/Admin/Last.antt =====
-- An administrator that can log in remains.
use emergency_callup.Prelude.{
  ℕ, ◌+◌, ◌≤◌, Bool, true, false, ◌&&◌, List, [], ◌∷◌, ◌++◌, Option, none, some, String, leb, ◌==◌,
  if◌then◌else◌, ◌≡◌, refl, sym, ◌∙◌, subst, ◌⊎◌, inl, inr, arith, Bool-cases, Option-cases,
  if_both, if_of_false,
}
use emergency_callup.Prelude.Int.{ℤ}
use emergency_callup.Auth.Admin.{
  Role, admin, operator, other, AdminUser, AdminError, database_error, Library, is_admin, is_known,
  is_active_admin, count_active_admins, find_by_id, find_by_login_id, update_by_id, insert_admin,
  create_hashed, create_checked, create, write_admin, deactivate, set_active, store_password,
  password_checked, password_for, set_password, is_operator, role_for, update_role,
  validate_password_policy,
}

abbrev one : AdminUser → ℕ
one u = if is_active_admin u then 1 else 0

-- A change of one row moves the count by at most that row's part.
count-update_by_id :
    (id : ℕ) (change : AdminUser → AdminUser) (us : List AdminUser) (u : AdminUser)
    → find_by_id id us ≡ some u
    → count_active_admins (update_by_id id change us) + one u
      ≡ count_active_admins us + one (change u)
unfolding count_active_admins find_by_id update_by_id
count-update_by_id id change [] u h = ground (arith, h)
count-update_by_id id change (x ∷ us) u h = elim (Bool-cases (x.id == id)) [
  | inl e ↦
      let same : x ≡ u = ground (arith, h, e) in
      subst
        (λ (v : AdminUser).
          count_active_admins (update_by_id id change (x ∷ us)) + one v
          ≡ count_active_admins (x ∷ us) + one (change v))
        same (rw e (ground arith))
  | inr e ↦
      let later = count-update_by_id id change us u (sym (if_of_false _ _ e) ∙ h) in
      rw e (ground (arith, later))
]

update_by_id_missing :
    (id : ℕ) (change : AdminUser → AdminUser) (us : List AdminUser)
    → find_by_id id us ≡ none
    → update_by_id id change us ≡ us
unfolding find_by_id update_by_id
update_by_id_missing id change [] h = refl
update_by_id_missing id change (x ∷ us) h = ground (arith, h, update_by_id_missing id change us)

count-append :
    (us : List AdminUser) (u : AdminUser)
    → count_active_admins us ≤ count_active_admins (us ++ u ∷ [])
unfolding count_active_admins
count-append [] u = ground arith
count-append (x ∷ us) u = ground (arith, count-append us u)

one_le : (u : AdminUser) → one u ≤ 1
one_le u = ground arith

-- Someone who can administer is left if someone was.
Keeps : List AdminUser → List AdminUser × Option AdminError → Type 0
Keeps us r = 1 ≤ count_active_admins us → 1 ≤ count_active_admins r.0

write-Keeps :
    (fails : Bool) (us : List AdminUser) (id : ℕ) (change : AdminUser → AdminUser)
    → ((u : AdminUser)
        → find_by_id id us ≡ some u
        → (one u ≤ one (change u)) ⊎ (2 ≤ count_active_admins us))
    → Keeps us (write_admin fails us id change)
unfolding write_admin Keeps
write-Keeps fails us id change safe some_left =
    if_both (λ (r : List AdminUser × Option AdminError). 1 ≤ count_active_admins r.0) fails
      (us, some database_error) (update_by_id id change us, none) some_left
      (elim (Option-cases (find_by_id id us)) [
        | inl missing ↦ rw (update_by_id_missing id change us missing) some_left
        | inr (u, found) ↦
            let count = count-update_by_id id change us u found in
            let least = one_le u in
            elim (safe u found) [
              | inl more ↦ ground (arith, count, more, some_left)
              | inr two ↦ ground (arith, count, two, least)
            ]
      ])

-- Either the row counts for nothing, or two rows count.
guarded : (u : AdminUser) (n m : ℕ) → (is_active_admin u && leb n 1) ≡ false → (one u ≤ m) ⊎ (2 ≤ n)
guarded u n m h = ground (arith, h)

same_row :
    (id : ℕ) (us : List AdminUser) (u v : AdminUser)
    → find_by_id id us ≡ some u
    → find_by_id id us ≡ some v
    → u ≡ v
same_row id us u v h k = ground (arith, h, k)

deactivate-Keeps :
    (fails : Bool) (us : List AdminUser) (id : ℕ) (o : Option AdminUser)
    → find_by_id id us ≡ o
    → Keeps us (deactivate fails us id o)
unfolding deactivate Keeps
deactivate-Keeps fails us id none e = λ some_left. some_left
deactivate-Keeps fails us id (some u) e =
    elim (Bool-cases (is_active_admin u && leb (count_active_admins us) 1)) [
      | inl last ↦ rw last (λ some_left. some_left)
      | inr h ↦ rw h (
          write-Keeps fails us id _ (λ v found.
            subst
              (λ (w : AdminUser).
                (one w ≤ one (record w { active = false })) ⊎ (2 ≤ count_active_admins us))
              (same_row id us u v e found) (guarded u (count_active_admins us) _ h)))
    ]

activated : (u : AdminUser) → one u ≤ one (record u { active = true })
unfolding is_active_admin
activated u = ground arith

set_active-Keeps :
    (fails : Bool) (us : List AdminUser) (id : ℕ) (b : Bool) → Keeps us (set_active fails us id b)
unfolding set_active
set_active-Keeps fails us id true =
    write-Keeps fails us id (λ u. record u { active = true }) (λ u _. inl (activated u))
set_active-Keeps fails us id false = deactivate-Keeps fails us id (find_by_id id us) refl

-- A role that is not operator and is known is admin.
promoted :
    (u : AdminUser) (role : Role) (n : ℕ)
    → is_known role ≡ true
    → ((is_active_admin u && is_operator role) && leb n 1) ≡ false
    → (one u ≤ one (record u { role = role })) ⊎ (2 ≤ n)
unfolding is_active_admin is_operator is_known is_admin
promoted u admin n known h = ground arith
promoted u operator n known h = ground (arith, h)
promoted u (other text) n known h = ground (arith, known)

role_for-Keeps :
    (fails : Bool) (us : List AdminUser) (id : ℕ) (role : Role) (o : Option AdminUser)
    → is_known role ≡ true
    → find_by_id id us ≡ o
    → Keeps us (role_for fails us id role o)
unfolding role_for Keeps
role_for-Keeps fails us id role none known e = λ some_left. some_left
role_for-Keeps fails us id role (some u) known e =
    elim (Bool-cases ((is_active_admin u && is_operator role) && leb (count_active_admins us) 1)) [
      | inl last ↦ rw last (λ some_left. some_left)
      | inr h ↦ rw h (
          write-Keeps fails us id (λ u. record u { role = role })
            (λ v found.
              subst
                (λ (w : AdminUser).
                  (one w ≤ one (record w { role = role })) ⊎ (2 ≤ count_active_admins us))
                (same_row id us u v e found) (promoted u role (count_active_admins us) known h)))
    ]

update_role-Keeps :
    (fails : Bool) (us : List AdminUser) (id : ℕ) (role : Role)
    → Keeps us (update_role fails us id role)
unfolding update_role Keeps
update_role-Keeps fails us id role = elim (Bool-cases (is_known role)) [
  | inl known ↦ rw known (role_for-Keeps fails us id role (find_by_id id us) known refl)
  | inr unknown ↦ rw unknown (λ some_left. some_left)
]

store_password-Keeps :
    (fails : Bool) (us : List AdminUser) (id : ℕ) (o : Option String)
    → Keeps us (store_password fails us id o)
unfolding store_password Keeps is_active_admin
store_password-Keeps fails us id none = λ some_left. some_left
store_password-Keeps fails us id (some h) =
    write-Keeps fails us id (λ u. record u { pw_hash = h }) (λ u _. inl (ground arith))

password_for-Keeps :
    (lib : Library) (fails : Bool) (us : List AdminUser) (id : ℕ) (password : String)
    (o : Option AdminUser)
    → Keeps us (password_for lib fails us id password o)
unfolding password_for password_checked Keeps
password_for-Keeps lib fails us id password none = λ some_left. some_left
password_for-Keeps lib fails us id password (some u) =
    checked (validate_password_policy lib password u.login_id "")
  where
    checked : (o : Option AdminError) → Keeps us (password_checked lib fails us id password o)
    checked none = store_password-Keeps fails us id (lib.hash password)
    checked (some e) = λ some_left. some_left

-- The operations of the store.
pub data Operation : Type 0 where
  creation : Library → Bool → String → String → String → String → Role → ℤ → Operation
  activation : Bool → ℕ → Bool → Operation
  new_password : Library → Bool → ℕ → String → Operation
  new_role : Bool → ℕ → Role → Operation

abbrev pub perform : List AdminUser → Operation → List AdminUser × Option AdminError
perform us (creation lib fails login_id password name dept role now) =
    create lib fails us login_id password name dept role now
perform us (activation fails id b) = set_active fails us id b
perform us (new_password lib fails id password) = set_password lib fails us id password
perform us (new_role fails id role) = update_role fails us id role

abbrev pub perform_all : List AdminUser → List Operation → List AdminUser
perform_all us [] = us
perform_all us (o ∷ rest) = perform_all (perform us o).0 rest

insert-Keeps :
    (fails : Bool) (us : List AdminUser) (u : AdminUser) (o : Option AdminUser)
    → Keeps us (insert_admin fails us u o)
unfolding insert_admin Keeps
insert-Keeps fails us u (some taken) = λ some_left. some_left
insert-Keeps true us u none = λ some_left. some_left
insert-Keeps false us u none = λ some_left. ground (arith, some_left, count-append us u)

perform-Keeps : (us : List AdminUser) (o : Operation) → Keeps us (perform us o)
unfolding create create_checked create_hashed set_password Keeps
perform-Keeps us (creation lib fails login_id password name dept role now) =
    elim (Bool-cases (is_known role)) [
      | inl known ↦
          rw known (elim (Option-cases (validate_password_policy lib password login_id "")) [
            | inl fine ↦ rw fine (elim (Option-cases (lib.hash password)) [
              | inl broken ↦ rw broken (λ some_left. some_left)
              | inr (h, hashed) ↦ rw hashed (insert-Keeps fails us _ (find_by_login_id login_id us))
            ])
            | inr (e, bad) ↦ rw bad (λ some_left. some_left)
          ])
      | inr unknown ↦ rw unknown (λ some_left. some_left)
    ]
perform-Keeps us (activation fails id b) = set_active-Keeps fails us id b
perform-Keeps us (new_password lib fails id password) =
    password_for-Keeps lib fails us id password (find_by_id id us)
perform-Keeps us (new_role fails id role) = update_role-Keeps fails us id role

-- Whatever the store is asked to do and whichever statements fail, if some account is an active
-- administrator then one is afterwards.
pub active_admin_remains :
    (us : List AdminUser) (operations : List Operation)
    → 1 ≤ count_active_admins us
    → 1 ≤ count_active_admins (perform_all us operations)
unfolding Keeps
active_admin_remains us [] some_left = some_left
active_admin_remains us (o ∷ rest) some_left =
    active_admin_remains (perform us o).0 rest (perform-Keeps us o some_left)
