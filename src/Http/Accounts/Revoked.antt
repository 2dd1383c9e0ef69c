-- ===== src/Http/Accounts/Revoked.antt =====
-- What a deactivation and a reset of the password leave of a member's account.
use emergency_callup.Prelude.{
  ℕ, Bool, false, ◌&&◌, List, [], ◌∷◌, Option, none, some, String, ◌==◌, ◌≡◌, refl, arith,
  Bool-cases, inl, inr, if_both,
}
use emergency_callup.Prelude.Int.{ℤ}
use emergency_callup.Auth.Admin.{Library}
use emergency_callup.Auth.Session.{member, Session, is_kind, revoke_all_for_subject}
use emergency_callup.Roster.Members
use emergency_callup.Roster.Members.{
  Member, RosterError, References, UpdateInput, set_active, update, password_reset, member_by_id,
  update_member, edited, update_found, change_found, is_present, member_by_mobile, without_member,
  edit_refers,
}
use emergency_callup.Roster.Members.Passwords.{Issued, password_reset-Issued, member_by_id-updated}
use emergency_callup.Http.{replied}
use emergency_callup.Http.Accounts.{
  Accounts, AccountFaults, audit_member, updated, update_columns, switched, update_member_by,
  handle_member_update, reset_answer, handle_member_password_reset,
}

-- No session is one of the member.
abbrev pub NoneOf : ℕ → List Session → Type 0
NoneOf id [] = Unit
NoneOf id (s ∷ rest) = ((is_kind s.kind member && s.subject_id == id) ≡ false) × NoneOf id rest

revoke_all-NoneOf : (id : ℕ) (xs : List Session) → NoneOf id (revoke_all_for_subject member id xs)
unfolding revoke_all_for_subject
revoke_all-NoneOf id [] = tt
revoke_all-NoneOf id (x ∷ xs) = elim (Bool-cases (is_kind x.kind member && x.subject_id == id)) [
  | inl e ↦ rw e (revoke_all-NoneOf id xs)
  | inr e ↦ rw e (e, revoke_all-NoneOf id xs)
]

-- The member is there and not active.
abbrev pub Disabled : ℕ → List Member → Type 0
Disabled id rows = (m : Member) × (member_by_id id rows ≡ some m) × (m.active ≡ false)

-- The member is disabled and has no session.
abbrev pub LockedOut : ℕ → Accounts → Type 0
LockedOut id s = Disabled id s.members × NoneOf id s.sessions

update_found-Disabled :
    (fails : Bool) (refs : References) (rows : List Member) (id : ℕ) (input : UpdateInput) (now : ℤ)
    (m : Member)
    → member_by_id id rows ≡ some m
    → m.active ≡ false
    → Disabled id (update_found fails refs rows id input now (some m)).0
unfolding update_found edited
update_found-Disabled fails refs rows id input now m found off =
    if_both (λ (r : List Member × Option RosterError). Disabled id r.0) fails _ _ (m, found, off)
      (if_both (λ (r : List Member × Option RosterError). Disabled id r.0)
        (is_present (member_by_mobile (edited input now m).mobile (without_member id rows))) _ _
        (m, found, off)
        (if_both (λ (r : List Member × Option RosterError). Disabled id r.0)
          (edit_refers refs (edited input now m)) _ _
          (
            edited input now m,
            member_by_id-updated id (edited input now) rows m (λ s. refl) found,
            off,
          )
          (m, found, off)))

update-Disabled :
    (fails : Bool) (refs : References) (rows : List Member) (id : ℕ) (input : UpdateInput) (now : ℤ)
    → Disabled id rows
    → Disabled id (update fails refs rows id input now).0
unfolding update
update-Disabled fails refs rows id input now (m, found, off) =
    rw found (update_found-Disabled fails refs rows id input now m found off)

update_columns-LockedOut :
    (faults : AccountFaults) (refs : References) (s : Accounts) (login_id : String) (id : ℕ)
    (input : UpdateInput) (now : ℤ)
    → LockedOut id s
    → LockedOut id (update_columns faults refs s login_id id input now).0
unfolding update_columns audit_member
update_columns-LockedOut faults refs s login_id id input now (off, gone) =
    answered (update faults.storing refs s.members id input now)
      (update-Disabled faults.storing refs s.members id input now off)
  where
    answered :
        (r : List Member × Option RosterError)
        → Disabled id r.0
        → LockedOut id (updated faults s login_id id now r).0
    answered (rows, none) d = (d, gone)
    answered (rows, some e) d = (d, gone)

-- If the deactivation and the revocation find their statements working, a request to deactivate a member
-- of the roster leaves him inactive and without a session, also if the columns that it changes besides
-- are refused.
pub handle_member_update-LockedOut :
    (faults : AccountFaults) (refs : References) (s : Accounts) (login_id : String) (id : ℕ)
    (input : UpdateInput) (now : ℤ) (m : Member)
    → faults.activation ≡ false
    → faults.revocation ≡ false
    → member_by_id id s.members ≡ some m
    → LockedOut id
        (handle_member_update faults refs s login_id
          (some id)
          (some (record { active = some false; columns = input }))
          now).0
unfolding handle_member_update update_member_by set_active change_found switched
handle_member_update-LockedOut faults refs s login_id id input now m works revokes found =
    let off : Member → Member = λ x. record x { active = false; updated_at = now } in
    rw (works, found, revokes)
      (update_columns-LockedOut faults refs
        (record s {
          members = update_member id off s.members;
          sessions = revoke_all_for_subject member id s.sessions;
        })
        login_id id input now
        (
          (off m, member_by_id-updated id off s.members m (λ x. refl) found, refl),
          revoke_all-NoneOf id s.sessions,
        ))

reset_answer-Issued :
    (lib : Library) (faults : AccountFaults) (s : Accounts) (login_id : String) (id : ℕ) (now : ℤ)
    (shown : String) (rows : List Member) (a : Members.Result String)
    → ((pw : String) → a ≡ Members.ok pw → Issued lib s.members id pw rows)
    → (reset_answer faults s login_id id now (rows, a)).1 ≡ replied shown
    → Issued lib s.members id shown (reset_answer faults s login_id id now (rows, a)).0.members
      × NoneOf id (reset_answer faults s login_id id now (rows, a)).0.sessions
unfolding reset_answer audit_member
reset_answer-Issued lib faults s login_id id now shown rows (Members.err e) issued =
    λ h. absurd (ground (arith, h))
reset_answer-Issued lib faults s login_id id now shown rows (Members.ok pw) issued =
    elim (Bool-cases faults.revocation) [
      | inl e ↦ rw e (λ h. absurd (ground (arith, h)))
      | inr e ↦ rw e (λ h. (issued shown (ground (arith, h)), revoke_all-NoneOf id s.sessions))
    ]

-- If a reset is answered with a password, then the hash of just this password is stored for the member,
-- to be changed at the next login, no other member has changed, and no session of the member is left.
pub handle_member_password_reset-Issued :
    (lib : Library) (faults : AccountFaults) (s : Accounts) (login_id : String) (id : ℕ) (now : ℤ)
    (random : Option String) (shown : String)
    → (handle_member_password_reset lib faults s login_id (some id) now random).1 ≡ replied shown
    → Issued lib s.members id shown
        (handle_member_password_reset lib faults s login_id (some id) now random).0.members
      × NoneOf id
          (handle_member_password_reset lib faults s login_id (some id) now random).0.sessions
unfolding handle_member_password_reset
handle_member_password_reset-Issued lib faults s login_id id now random shown =
    reset_answer-Issued lib faults s login_id id now shown
      (password_reset lib faults.storing s.members id random).0
      (password_reset lib faults.storing s.members id random).1
      (λ pw. password_reset-Issued lib faults.storing s.members id random pw)
