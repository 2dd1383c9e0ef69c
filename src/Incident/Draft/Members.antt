-- ===== src/Incident/Draft/Members.antt =====
-- What the draft gives each member.
use mathlib.Core.List.{Memᴰ}
use mathlib.Core.List.Memᴰ.{head, tail, cases_cons, append_left, append_right}
use emergency_callup.Prelude.{
  ℕ, true, false, ◌||◌, List, [], ◌∷◌, Option, none, some, String, str_eq, ◌==◌, ==_iff,
  if◌then◌else◌, ◌≡◌, ◌⊎◌, inl, inr, refl, sym, ap, ◌∙◌, arith, Bool-cases, if_of_true,
}
use emergency_callup.Incident.Model.{TeamPlan, PeacetimeMember}
use emergency_callup.Incident.Draft.{
  Key, TeamDraft, MemberOverrideDraft, Orders, before, insert_row, is_listed, listed_rows, rows_of,
  has_number, team_order, plan_mission, plan_area, apply_plan, team_draft, differs, mission_key,
  area_key, override_of, prepend, overrides_of, team_drafts, build_draft,
}

insert_row-mem :
    (m x : PeacetimeMember) (l : List PeacetimeMember)
    → (m ≡ x) ⊎ Memᴰ m l
    → Memᴰ m (insert_row x l)
unfolding insert_row
insert_row-mem m x [] (inl same) = head same
insert_row-mem m x [] (inr r) = elim r [ ]
insert_row-mem m x (y ∷ l) h = elim (Bool-cases (before x y)) [
  | inl b ↦ rw b (elim h [ inl same ↦ head same | inr r ↦ tail r ])
  | inr b ↦ rw b (elim h [
    | inl same ↦ tail (insert_row-mem m x l (inl same))
    | inr r ↦ elim (cases_cons r) [
      | inl same ↦ head same
      | inr later ↦ tail (insert_row-mem m x l (inr later))
    ]
  ])
]

listed_rows-mem :
    (m : PeacetimeMember) (l : List PeacetimeMember)
    → is_listed m ≡ true
    → Memᴰ m l
    → Memᴰ m (listed_rows l)
unfolding listed_rows
listed_rows-mem m [] h r = elim r [ ]
listed_rows-mem m (x ∷ l) h r = elim (cases_cons r) [
  | inl same ↦ rw (sym (ap is_listed same) ∙ h) (insert_row-mem m x _ (inl same))
  | inr later ↦
      let found = listed_rows-mem m l h later in
      elim (Bool-cases (is_listed x)) [
        | inl b ↦ rw b (insert_row-mem m x _ (inr found))
        | inr b ↦ rw b found
      ]
]

rows_of-mem :
    (m : PeacetimeMember) (l : List PeacetimeMember) → Memᴰ m l → Memᴰ m (rows_of m.team_no l)
unfolding rows_of
rows_of-mem m [] r = elim r [ ]
rows_of-mem m (x ∷ l) r = elim (cases_cons r) [
  | inl same ↦
      rw ((==_iff x.team_no m.team_no).1 (sym (ap (λ (y : PeacetimeMember). y.team_no) same)))
        (head same)
  | inr later ↦
      let found = rows_of-mem m l later in
      elim (Bool-cases (x.team_no == m.team_no)) [ inl b ↦ rw b (tail found) | inr b ↦ rw b found ]
]

has_number-mem : (n : ℕ) (l : List ℕ) → has_number n l ≡ true → Memᴰ n l
unfolding has_number
has_number-mem n [] h = absurd (ground (arith, h))
has_number-mem n (x ∷ l) h = elim (Bool-cases (x == n)) [
  | inl b ↦ head (sym ((==_iff x n).0 b))
  | inr b ↦ tail (has_number-mem n l (ground (arith, h, b)))
]

team_order-seen :
    (n : ℕ) (seen : List ℕ) (l : List PeacetimeMember) → Memᴰ n seen → Memᴰ n (team_order seen l)
unfolding team_order
team_order-seen n seen [] h = h
team_order-seen n seen (x ∷ l) h = elim (Bool-cases (has_number x.team_no seen)) [
  | inl b ↦ rw b (team_order-seen n seen l h)
  | inr b ↦ rw b (team_order-seen n _ l (append_left _ h))
]

team_order-mem :
    (m : PeacetimeMember) (seen : List ℕ) (l : List PeacetimeMember)
    → Memᴰ m l
    → Memᴰ m.team_no (team_order seen l)
unfolding team_order
team_order-mem m seen [] r = elim r [ ]
team_order-mem m seen (x ∷ l) r = elim (cases_cons r) [
  | inl same ↦
      let number = ap (λ (y : PeacetimeMember). y.team_no) same in
      elim (Bool-cases (has_number x.team_no seen)) [
        | inl b ↦ rw b (team_order-seen _ seen l (rw number (has_number-mem _ seen b)))
        | inr b ↦ rw b (team_order-seen _ _ l (append_right seen (head number)))
      ]
  | inr later ↦ elim (Bool-cases (has_number x.team_no seen)) [
    | inl b ↦ rw b (team_order-mem m seen l later)
    | inr b ↦ rw b (team_order-mem m _ l later)
  ]
]

-- The values that a member is to have in a team: his own where he has one, else the team's.
abbrev pub wanted : TeamDraft → PeacetimeMember → String × ℕ
wanted d m = (
  if str_eq m.mission "" then d.mission else m.mission,
  if m.area_id == 0 then d.area_id else m.area_id,
)

-- The draft's values for him: the override with his id, or the team's if he wants just these.
abbrev pub Gets : List MemberOverrideDraft → TeamDraft → PeacetimeMember → Type 0
Gets overrides d m =
    (wanted d m ≡ (d.mission, d.area_id))
    ⊎ ((o : MemberOverrideDraft) × Memᴰ o overrides
        × (o.member_id ≡ m.id)
        × (o.team_no ≡ d.team_no)
        × ((o.mission, o.area_id) ≡ wanted d m))

ap2_pair : {A B : Type 0} {a c : A} {b d : B} → a ≡ c → b ≡ d → ◌≡◌ {A = A × B} (a, b) (c, d)
ap2_pair e f = rw (e, f) refl

module _ {K : Type 0} (key : Key K) (own default : K) where
  column_wanted :
      (if differs key own default then own else default)
      ≡ (if key.same own key.unset then default else own)
  unfolding differs
  column_wanted = elim (Bool-cases (key.same own default)) [
    | inl e ↦ ground (arith, (key.same_iff own default).0 e)
    | inr e ↦ ground (arith, e)
  ]

  column_same :
      differs key own default ≡ false → (if key.same own key.unset then default else own) ≡ default
  unfolding differs
  column_same h = elim (Bool-cases (key.same own default)) [
    | inl e ↦ ground (arith, (key.same_iff own default).0 e)
    | inr e ↦ ground (arith, e, h)
  ]

override_of-wanted :
    (d : TeamDraft) (m : PeacetimeMember)
    → ((override_of d m ≡ none) × (wanted d m ≡ (d.mission, d.area_id)))
      ⊎ ((o : MemberOverrideDraft) × (override_of d m ≡ some o)
          × (o.member_id ≡ m.id)
          × (o.team_no ≡ d.team_no)
          × ((o.mission, o.area_id) ≡ wanted d m))
unfolding override_of differs
override_of-wanted d m =
    let mission = differs mission_key m.mission d.mission in
    let area = differs area_key m.area_id d.area_id in
    elim (Bool-cases (mission || area)) [
      | inl b ↦ inr (
        _,
        if_of_true _ _ b,
        refl,
        refl,
        ap2_pair (column_wanted mission_key m.mission d.mission)
            (column_wanted area_key m.area_id d.area_id),
      )
      | inr b ↦ inl (
        rw b refl,
        ap2_pair (column_same mission_key m.mission d.mission (ground (arith, b)))
            (column_same area_key m.area_id d.area_id (ground (arith, b))),
      )
    ]

mem-prepend :
    (x : MemberOverrideDraft) (o : Option MemberOverrideDraft) (l : List MemberOverrideDraft)
    → Memᴰ x l
    → Memᴰ x (prepend o l)
unfolding prepend
mem-prepend x none l h = h
mem-prepend x (some y) l h = tail h

overrides_of-mem :
    (d : TeamDraft) (m : PeacetimeMember) (l : List PeacetimeMember) (o : MemberOverrideDraft)
    → Memᴰ m l
    → override_of d m ≡ some o
    → Memᴰ o (overrides_of d l)
unfolding overrides_of prepend
overrides_of-mem d m [] o r h = elim r [ ]
overrides_of-mem d m (x ∷ l) o r h = elim (cases_cons r) [
  | inl same ↦ rw (sym (ap (override_of d) same) ∙ h) (head refl)
  | inr later ↦ mem-prepend o _ _ (overrides_of-mem d m l o later h)
]

module _ {F : Type 0} (orders : Orders) (plans : List (TeamPlan F)) where
  team_draft-team_no :
      (n : ℕ) (rows : List PeacetimeMember) → (team_draft orders plans n rows).team_no ≡ n
  unfolding team_draft apply_plan plan_mission plan_area
  team_draft-team_no n rows = ground arith

  team_drafts-mem :
      (rows : List PeacetimeMember) (n : ℕ) (numbers : List ℕ)
      → Memᴰ n numbers
      → let d = team_draft orders plans n (rows_of n rows) in
        let all = team_drafts orders plans rows numbers in
        Memᴰ d all.teams
        × ((o : MemberOverrideDraft)
            → Memᴰ o (overrides_of d (rows_of n rows))
            → Memᴰ o all.overrides)
  unfolding team_drafts
  team_drafts-mem rows n [] r = elim r [ ]
  team_drafts-mem rows n (x ∷ numbers) r = elim (cases_cons r) [
    | inl same ↦ rw same (head refl, λ o m. append_left _ m)
    | inr later ↦
        let found = team_drafts-mem rows n numbers later in
        (tail found.0, λ o m. append_right _ (found.1 o m))
  ]

  -- Every active member with a team has his team in the draft, and the draft gives him his own
  -- peacetime mission and area, each where he has one and the team's default where he has none: by a
  -- personal override, unless these are the team's defaults.
  pub build_draft-Gets :
      (members : List PeacetimeMember) (m : PeacetimeMember)
      → Memᴰ m members
      → is_listed m ≡ true
      → (d : TeamDraft) × Memᴰ d (build_draft orders plans members).teams
        × (d.team_no ≡ m.team_no)
        × Gets (build_draft orders plans members).overrides d m
  unfolding build_draft team_draft
  build_draft-Gets members m r listed =
      let rows = listed_rows members in
      let row = listed_rows-mem m members listed r in
      let team =
        team_drafts-mem rows m.team_no (team_order [] rows) (team_order-mem m [] rows row) in
      let d = team_draft orders plans m.team_no (rows_of m.team_no rows) in
      (
        d,
        team.0,
        team_draft-team_no m.team_no (rows_of m.team_no rows),
        elim (override_of-wanted d m) [
          | inl (none_needed, same) ↦ inl same
          | inr (o, is_o, id, number, values) ↦ inr (
            o,
            team.1 o (overrides_of-mem d m _ o (rows_of-mem m rows row) is_o),
            id,
            number,
            values,
          )
        ],
      )
