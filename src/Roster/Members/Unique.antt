-- ===== src/Roster/Members/Unique.antt =====
-- The login ids and the mobile numbers of the members differ.
use emergency_callup.Prelude.{
  ℕ, suc, ◌+◌, ◌≤◌, Bool, true, false, List, [], ◌∷◌, ◌++◌, Option, none, some, String, str_eq,
  eq_iff, ◌==◌, if◌then◌else◌, ◌≡◌, refl, sym, subst, ◌∙◌, inl, inr, arith, Bool-cases, if_of_false,
  if_both,
}
use emergency_callup.Prelude.Int.{ℤ}
use emergency_callup.Auth.Admin.{AdminError, Library, validate_password_policy}
use emergency_callup.Roster.Members.{
  Member, RosterError, NewInput, UpdateInput, References, Result, member_by_id, member_by_login_id,
  member_by_mobile, is_present, max_member_id, update_member, without_member, insert_member,
  new_member, hashed_create, create, creation_refers, edited, edit_refers, update_found, update,
  change_found, set_active, store_hash, allowed_password, password_for, set_password, answered,
  reset_hashed, password_reset, with_hash,
}

-- How many members have a value in a column.
abbrev pub one : (Member → String) → String → Member → ℕ
one column v m = if str_eq (column m) v then 1 else 0

unfoldable pub count_of : (Member → String) → String → List Member → ℕ
count_of column v [] = 0
count_of column v (m ∷ rest) = one column v m + count_of column v rest

abbrev pub login : Member → String
login m = m.login_id

abbrev pub phone : Member → String
phone m = m.mobile

-- No login id and no mobile number is of two members.
abbrev pub AllDiffer : List Member → Type 0
AllDiffer rows = (v : String) → (count_of login v rows ≤ 1) × (count_of phone v rows ≤ 1)

no_login :
    (v : String) (rows : List Member)
    → is_present (member_by_login_id v rows) ≡ false
    → count_of login v rows ≡ 0
unfolding is_present member_by_login_id count_of
no_login v [] h = refl
no_login v (m ∷ rest) h = ground (arith, h, no_login v rest)

no_phone :
    (v : String) (rows : List Member)
    → is_present (member_by_mobile v rows) ≡ false
    → count_of phone v rows ≡ 0
unfolding is_present member_by_mobile count_of
no_phone v [] h = refl
no_phone v (m ∷ rest) h = ground (arith, h, no_phone v rest)

module _ (column : Member → String) (v : String) where
  count_of-append :
      (rows : List Member) (m : Member)
      → count_of column v (rows ++ m ∷ []) ≡ count_of column v rows + one column v m
  unfolding count_of
  count_of-append [] m = omega arith
  count_of-append (x ∷ rest) m = omega (arith, count_of-append rest m)

  count_of-without_member :
      (id : ℕ) (rows : List Member) (m : Member)
      → member_by_id id rows ≡ some m
      → count_of column v rows ≡ count_of column v (without_member id rows) + one column v m
  unfolding count_of without_member member_by_id
  count_of-without_member id [] m h = absurd (ground (arith, h))
  count_of-without_member id (x ∷ rest) m h = elim (Bool-cases (x.id == id)) [
    | inl b ↦ let same : x ≡ m = ground (arith, h, b) in rw (b, same) (omega arith)
    | inr b ↦ rw b (omega (arith, count_of-without_member id rest m (sym (if_of_false _ _ b) ∙ h)))
  ]

  count_of-update_member :
      (id : ℕ) (change : Member → Member) (rows : List Member) (m : Member)
      → member_by_id id rows ≡ some m
      → count_of column v (update_member id change rows)
        ≡ count_of column v (without_member id rows) + one column v (change m)
  unfolding count_of without_member update_member member_by_id
  count_of-update_member id change [] m h = absurd (ground (arith, h))
  count_of-update_member id change (x ∷ rest) m h = elim (Bool-cases (x.id == id)) [
    | inl b ↦ let same : x ≡ m = ground (arith, h, b) in rw (b, same) (omega arith)
    | inr b ↦
        rw b (omega (arith, count_of-update_member id change rest m (sym (if_of_false _ _ b) ∙ h)))
  ]

  -- A change that leaves the column alone.
  count_of_kept :
      (id : ℕ) (change : Member → Member) (rows : List Member)
      → ((m : Member) → column (change m) ≡ column m)
      → count_of column v (update_member id change rows) ≡ count_of column v rows
  unfolding count_of update_member
  count_of_kept id change [] kept = refl
  count_of_kept id change (x ∷ rest) kept = elim (Bool-cases (x.id == id)) [
    | inl b ↦ rw (b, kept x) refl
    | inr b ↦ rw b (omega (arith, count_of_kept id change rest kept))
  ]

  -- A value that no other row has.
  count_of_free :
      (id : ℕ) (change : Member → Member) (rows : List Member) (m : Member)
      → member_by_id id rows ≡ some m
      → count_of column (column (change m)) (without_member id rows) ≡ 0
      → count_of column v rows ≤ 1
      → count_of column v (update_member id change rows) ≤ 1
  count_of_free id change rows m h free before =
      let old = count_of-without_member id rows m h in
      rw (count_of-update_member id change rows m h)
        (elim (Bool-cases (str_eq (column (change m)) v)) [
          | inl b ↦
              let none_other =
                subst (λ w. count_of column w (without_member id rows) ≡ 0)
                  ((eq_iff (column (change m)) v).0 b) free in
              ground (arith, none_other)
          | inr b ↦ ground (arith, b, old, before)
        ])

  count_of_new :
      (rows : List Member) (m : Member)
      → count_of column (column m) rows ≡ 0
      → count_of column v rows ≤ 1
      → count_of column v (rows ++ m ∷ []) ≤ 1
  count_of_new rows m free before =
      rw (count_of-append rows m) (elim (Bool-cases (str_eq (column m) v)) [
        | inl b ↦
            let none_other =
              subst (λ w. count_of column w rows ≡ 0) ((eq_iff (column m) v).0 b) free in
            ground (arith, none_other)
        | inr b ↦ ground (arith, b, before)
      ])

Stays : {A : Type 0} → List Member → List Member × A → Type 0
Stays rows r = AllDiffer rows → AllDiffer r.0

insert_member-Stays :
    (fails : Bool) (refs : References) (rows : List Member) (input : NewInput) (m : Member)
    → Stays rows (insert_member fails refs rows input m)
unfolding Stays insert_member
insert_member-Stays true refs rows input m differ = differ
insert_member-Stays false refs rows input m differ =
    elim (Bool-cases (is_present (member_by_login_id m.login_id rows))) [
      | inl b ↦ rw b differ
      | inr b ↦ rw b (elim (Bool-cases (is_present (member_by_mobile m.mobile rows))) [
        | inl c ↦ rw c differ
        | inr c ↦ rw c (
            if_both (λ (r : List Member × Result Member). AllDiffer r.0)
              (creation_refers refs input) _ _
              (λ v. (
                count_of_new login v rows m (no_login m.login_id rows b) (differ v).0,
                count_of_new phone v rows m (no_phone m.mobile rows c) (differ v).1,
              ))
              differ)
      ])
    ]

login-edited : (input : UpdateInput) (now : ℤ) (x : Member) → login (edited input now x) ≡ login x
unfolding edited
login-edited input now x = refl

update_found-Stays :
    (fails : Bool) (refs : References) (rows : List Member) (id : ℕ) (input : UpdateInput) (now : ℤ)
    (o : Option Member)
    → member_by_id id rows ≡ o
    → Stays rows (update_found fails refs rows id input now o)
unfolding Stays update_found
update_found-Stays fails refs rows id input now none h differ = differ
update_found-Stays true refs rows id input now (some m) h differ = differ
update_found-Stays false refs rows id input now (some m) h differ =
    elim (Bool-cases
      (is_present (member_by_mobile (edited input now m).mobile (without_member id rows)))) [
        | inl c ↦ rw c differ
        | inr c ↦ rw c (
            if_both (λ (r : List Member × Option RosterError). AllDiffer r.0)
              (edit_refers refs (edited input now m)) _ _
              (λ v. (
                rw (count_of_kept login v id (edited input now) rows (login-edited input now))
                    (differ v).0,
                count_of_free phone v id (edited input now) rows m h
                    (no_phone (edited input now m).mobile (without_member id rows) c) (differ v).1,
              ))
              differ)
      ]

-- A change of other columns.
kept-AllDiffer :
    (id : ℕ) (change : Member → Member) (rows : List Member)
    → ((m : Member) → login (change m) ≡ login m)
    → ((m : Member) → phone (change m) ≡ phone m)
    → AllDiffer rows
    → AllDiffer (update_member id change rows)
kept-AllDiffer id change rows logins phones differ v =
    rw (count_of_kept login v id change rows logins, count_of_kept phone v id change rows phones)
      (differ v)

change_found-Stays :
    (fails : Bool) (rows : List Member) (id : ℕ) (change : Member → Member) (o : Option Member)
    → ((m : Member) → login (change m) ≡ login m)
    → ((m : Member) → phone (change m) ≡ phone m)
    → Stays rows (change_found fails rows id change o)
unfolding Stays change_found
change_found-Stays true rows id change o logins phones differ = differ
change_found-Stays false rows id change none logins phones differ = differ
change_found-Stays false rows id change (some m) logins phones differ =
    kept-AllDiffer id change rows logins phones differ

store_hash-Stays :
    (fails : Bool) (rows : List Member) (id : ℕ) (must_change : Bool) (o : Option String)
    → Stays rows (store_hash fails rows id must_change o)
unfolding Stays store_hash
store_hash-Stays fails rows id must_change none differ = differ
store_hash-Stays true rows id must_change (some hash) differ = differ
store_hash-Stays false rows id must_change (some hash) differ =
    kept-AllDiffer id (with_hash hash must_change) rows (λ m. refl) (λ m. refl) differ

-- The operations of the store, with what they are given and what goes wrong in them.
pub data Operation : Type 0 where
  creation : Library → Bool → References → NewInput → ℤ → Option String → Operation
  editing : Bool → References → ℕ → UpdateInput → ℤ → Operation
  activation : Bool → ℕ → Bool → ℤ → Operation
  new_password : Library → Bool → ℕ → String → Bool → Operation
  reset : Library → Bool → ℕ → Option String → Operation

abbrev pub perform : List Member → Operation → List Member
perform rows (creation lib fails refs input now pw) = (create lib fails refs rows input now pw).0
perform rows (editing fails refs id input now) = (update fails refs rows id input now).0
perform rows (activation fails id active now) = (set_active fails rows id active now).0
perform rows (new_password lib fails id pw must_change) =
    (set_password lib fails rows id pw must_change).0
perform rows (reset lib fails id pw) = (password_reset lib fails rows id pw).0

hashed_create-Stays :
    (fails : Bool) (refs : References) (rows : List Member) (input : NewInput) (now : ℤ)
    (pw : String) (o : Option String)
    → Stays rows (hashed_create fails refs rows input now pw o)
unfolding Stays hashed_create
hashed_create-Stays fails refs rows input now pw none differ = differ
hashed_create-Stays fails refs rows input now pw (some hash) differ =
    insert_member-Stays fails refs rows input (new_member (suc (max_member_id rows)) hash input now)
      differ

password_for-Stays :
    (lib : Library) (fails : Bool) (rows : List Member) (id : ℕ) (pw : String) (must_change : Bool)
    (o : Option Member)
    → Stays rows (password_for lib fails rows id pw must_change o)
unfolding Stays password_for allowed_password
password_for-Stays lib fails rows id pw must_change none differ = differ
password_for-Stays lib fails rows id pw must_change (some m) differ =
    allowed (validate_password_policy lib pw m.login_id m.mobile)
  where
    allowed :
        (o : Option AdminError) → AllDiffer (allowed_password lib fails rows id pw must_change o).0
    allowed none = store_hash-Stays fails rows id must_change (lib.hash pw) differ
    allowed (some e) = differ

reset_hashed-Stays :
    (fails : Bool) (rows : List Member) (id : ℕ) (pw : String) (o : Option String)
    → Stays rows (reset_hashed fails rows id pw o)
unfolding Stays reset_hashed answered
reset_hashed-Stays fails rows id pw none differ = differ
reset_hashed-Stays fails rows id pw (some hash) differ =
    same_rows (change_found fails rows id (with_hash hash true) (member_by_id id rows)) (
      change_found-Stays fails rows id (with_hash hash true) (member_by_id id rows) (λ m. refl)
        (λ m. refl) differ)
  where
    same_rows : (r : List Member × Option RosterError) → AllDiffer r.0 → AllDiffer (answered pw r).0
    same_rows (after, none) d = d
    same_rows (after, some e) d = d

perform-Stays : (rows : List Member) (o : Operation) → AllDiffer rows → AllDiffer (perform rows o)
unfolding Stays create update set_active set_password password_reset
perform-Stays rows (creation lib fails refs input now none) differ = differ
perform-Stays rows (creation lib fails refs input now (some pw)) differ =
    hashed_create-Stays fails refs rows input now pw (lib.hash pw) differ
perform-Stays rows (editing fails refs id input now) differ =
    update_found-Stays fails refs rows id input now (member_by_id id rows) refl differ
perform-Stays rows (activation fails id active now) differ =
    change_found-Stays fails rows id _ (member_by_id id rows) (λ m. refl) (λ m. refl) differ
perform-Stays rows (new_password lib fails id pw must_change) differ =
    password_for-Stays lib fails rows id pw must_change (member_by_id id rows) differ
perform-Stays rows (reset lib fails id none) differ = differ
perform-Stays rows (reset lib fails id (some pw)) differ =
    reset_hashed-Stays fails rows id pw (lib.hash pw) differ

abbrev pub perform_all : List Member → List Operation → List Member
perform_all rows [] = rows
perform_all rows (o ∷ rest) = perform_all (perform rows o) rest

-- If no two members have the same login id or the same mobile number, then none have after any
-- operations on the roster, whatever goes wrong in them.
pub perform_all-AllDiffer :
    (rows : List Member) (operations : List Operation)
    → AllDiffer rows
    → AllDiffer (perform_all rows operations)
perform_all-AllDiffer rows [] differ = differ
perform_all-AllDiffer rows (o ∷ rest) differ =
    perform_all-AllDiffer (perform rows o) rest (perform-Stays rows o differ)
