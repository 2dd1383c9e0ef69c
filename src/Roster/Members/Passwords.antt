-- ===== src/Roster/Members/Passwords.antt =====
-- The passwords that the roster hands out.
use emergency_callup.Prelude.{
  ℕ, suc, Bool, true, false, List, [], ◌∷◌, Option, none, some, String, ◌≡◌, ◌≢◌, refl, sym, subst,
  arith,
}
use emergency_callup.Prelude.Int.{ℤ}
use emergency_callup.Auth.Admin.{Library}
use emergency_callup.Roster.Members.{
  Member, RosterError, NewInput, References, Result, ok, err, member_by_id, max_member_id,
  update_member, insert_member, new_member, with_password, hashed_create, create, creation_refers,
  change_found, with_hash, answered, reset_hashed, password_reset, has_id,
}

member_by_id-update_member :
    (id other : ℕ) (change : Member → Member) (rows : List Member)
    → ((m : Member) → (change m).id ≡ m.id)
    → (id ≡ other → ⊥)
    → member_by_id other (update_member id change rows) ≡ member_by_id other rows
unfolding member_by_id update_member
member_by_id-update_member id other change [] keeps differ = refl
member_by_id-update_member id other change (x ∷ rest) keeps differ =
    ground (arith, keeps x, differ, member_by_id-update_member id other change rest keeps differ)

pub member_by_id-updated :
    (id : ℕ) (change : Member → Member) (rows : List Member) (m : Member)
    → ((s : Member) → (change s).id ≡ s.id)
    → member_by_id id rows ≡ some m
    → member_by_id id (update_member id change rows) ≡ some (change m)
unfolding member_by_id update_member
member_by_id-updated id change [] m keeps h = absurd (ground (arith, h))
member_by_id-updated id change (x ∷ rest) m keeps h =
    ground (arith, h, keeps x, member_by_id-updated id change rest m keeps)

-- The member's password is the one given, to be changed at the next login; all else is as before.
abbrev pub Issued : Library → List Member → ℕ → String → List Member → Type 0
Issued lib before id pw after =
    (m : Member) × (hash : String) × (member_by_id id before ≡ some m)
    × (lib.hash pw ≡ some hash)
    × (member_by_id id after ≡ some (record m { pw_hash = hash; pw_must_change = true }))
    × ((other : ℕ) → (id ≡ other → ⊥) → member_by_id other after ≡ member_by_id other before)

changed-Issued :
    (lib : Library) (fails : Bool) (rows : List Member) (id : ℕ) (pw hash shown : String)
    (o : Option Member)
    → lib.hash pw ≡ some hash
    → member_by_id id rows ≡ o
    → (answered pw (change_found fails rows id (with_hash hash true) o)).1 ≡ ok shown
    → (shown ≡ pw)
      × Issued lib rows id pw (answered pw (change_found fails rows id (with_hash hash true) o)).0
unfolding answered change_found
changed-Issued lib true rows id pw hash shown none hashed h e = absurd (ground (arith, e))
changed-Issued lib true rows id pw hash shown (some m) hashed h e = absurd (ground (arith, e))
changed-Issued lib false rows id pw hash shown none hashed h e = absurd (ground (arith, e))
changed-Issued lib false rows id pw hash shown (some m) hashed h e = (
  ground (arith, e),
  (
    m,
    hash,
    h,
    hashed,
    member_by_id-updated id (with_hash hash true) rows m (λ s. refl) h,
    λ other differ.
        member_by_id-update_member id other (with_hash hash true) rows (λ s. refl) differ,
  ),
)

reset_hashed-Issued :
    (lib : Library) (fails : Bool) (rows : List Member) (id : ℕ) (pw shown : String)
    (o : Option String)
    → lib.hash pw ≡ o
    → (reset_hashed fails rows id pw o).1 ≡ ok shown
    → Issued lib rows id shown (reset_hashed fails rows id pw o).0
unfolding reset_hashed
reset_hashed-Issued lib fails rows id pw shown none e h = absurd (ground (arith, h))
reset_hashed-Issued lib fails rows id pw shown (some hash) e h =
    let r = changed-Issued lib fails rows id pw hash shown (member_by_id id rows) e refl h in
    subst
      (λ p.
        Issued lib rows id p
          (answered pw (change_found fails rows id (with_hash hash true) (member_by_id id rows))).0)
      (sym r.0) r.1

-- A reset that shows a password has stored the hash of just this password for the member, to be changed
-- at the next login, and has changed nothing else of this member and no other member.
pub password_reset-Issued :
    (lib : Library) (fails : Bool) (rows : List Member) (id : ℕ) (random : Option String)
    (shown : String)
    → (password_reset lib fails rows id random).1 ≡ ok shown
    → Issued lib rows id shown (password_reset lib fails rows id random).0
unfolding password_reset reset_hashed
password_reset-Issued lib fails rows id none shown h = absurd (ground (arith, h))
password_reset-Issued lib fails rows id (some pw) shown h =
    reset_hashed-Issued lib fails rows id pw shown (lib.hash pw) refl h

creation_refers_no_team :
    (refs : References) (input : NewInput)
    → input.team_no ≡ 0
    → has_id 0 refs.teams ≡ false
    → creation_refers refs input ≡ false
unfolding creation_refers
creation_refers_no_team refs input none_set no_zero = rw (none_set, no_zero) refl

insert_member_refused :
    (fails : Bool) (refs : References) (rows : List Member) (input : NewInput) (m : Member)
    → creation_refers refs input ≡ false
    → ((insert_member fails refs rows input m).0 ≡ rows)
      × ((x : Member) → (insert_member fails refs rows input m).1 ≢ ok x)
unfolding insert_member
insert_member_refused fails refs rows input m refers =
    rw refers (ground arith, λ x h. ground (arith, h))

with_password_err :
    (pw : String) (e : RosterError) (y : Member × String) → with_password pw (err e) ≢ ok y
unfolding with_password
with_password_err pw e y h = ground (arith, h)

hashed_create_refused :
    (fails : Bool) (refs : References) (rows : List Member) (input : NewInput) (now : ℤ)
    (pw : String) (o : Option String)
    → ((m : Member)
        → ((insert_member fails refs rows input m).0 ≡ rows)
          × ((x : Member) → (insert_member fails refs rows input m).1 ≢ ok x))
    → ((hashed_create fails refs rows input now pw o).0 ≡ rows)
      × ((r : Member × String) → (hashed_create fails refs rows input now pw o).1 ≢ ok r)
unfolding hashed_create
hashed_create_refused fails refs rows input now pw none inserted = (refl, λ r h. ground (arith, h))
hashed_create_refused fails refs rows input now pw (some hash) inserted =
    let r = inserted (new_member (suc (max_member_id rows)) hash input now) in
    (r.0, λ x h. not_ok _ r.1 x h)
  where
    not_ok :
        (r : Result Member)
        → ((x : Member) → r ≢ ok x)
        → (y : Member × String) → with_password pw r ≢ ok y
    not_ok (ok m) no_member y h = no_member m refl
    not_ok (err e) no_member y h = with_password_err pw e y h

-- The database never takes a new member without a team: the team 0, which stands for none, is stored as
-- it is, and no team has this number. Nothing is stored then.
pub create_without_team :
    (lib : Library) (fails : Bool) (refs : References) (rows : List Member) (input : NewInput)
    (now : ℤ) (random : Option String)
    → input.team_no ≡ 0
    → has_id 0 refs.teams ≡ false
    → ((create lib fails refs rows input now random).0 ≡ rows)
      × ((r : Member × String) → (create lib fails refs rows input now random).1 ≢ ok r)
unfolding create
create_without_team lib fails refs rows input now none none_set no_zero =
    (refl, λ r h. ground (arith, h))
create_without_team lib fails refs rows input now (some pw) none_set no_zero = hashed (lib.hash pw)
  where
    refers : creation_refers refs input ≡ false
    refers = creation_refers_no_team refs input none_set no_zero

    inserted :
        (m : Member)
        → ((insert_member fails refs rows input m).0 ≡ rows)
          × ((x : Member) → (insert_member fails refs rows input m).1 ≢ ok x)
    inserted m = insert_member_refused fails refs rows input m refers

    hashed :
        (o : Option String)
        → ((hashed_create fails refs rows input now pw o).0 ≡ rows)
          × ((r : Member × String) → (hashed_create fails refs rows input now pw o).1 ≢ ok r)
    hashed o = hashed_create_refused fails refs rows input now pw o inserted
