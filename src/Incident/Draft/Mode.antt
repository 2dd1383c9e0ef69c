-- ===== src/Incident/Draft/Mode.antt =====
-- The vote on a peacetime value.
use mathlib.Core.List.{Memᴰ}
use mathlib.Core.List.Memᴰ.{head, tail, cases_cons}
use emergency_callup.Prelude.{
  ◌≤◌, ◌<◌, Bool, true, false, List, [], ◌∷◌, none, some, if◌then◌else◌, ◌≡◌, ◌≢◌, ◌⊎◌, ◌↔◌, inl,
  inr, refl, sym, ap, ◌∙◌, subst, arith, Bool-cases,
}
use emergency_callup.Incident.Draft.{Key, Vote, Ballot, tally, any_set, beats, pick, picked, mode}
use emergency_callup.Incident.Draft.Counts.{
  votes_for, first_voter, IsNoBetter, IsMode, IsCount, tally-Counts, empty-Counts,
}

module _ {K : Type 0} (key : Key K) where
  -- The range over a map visits exactly its entries.
  abbrev pub Visits : (List (Vote K) → List (Vote K)) → Type 0
  Visits order = (votes : List (Vote K)) (e : Vote K) → Memᴰ e (order votes) ↔ Memᴰ e votes

  -- The loop keeps an entry that `e` does not beat.
  abbrev Leads : Vote K → Vote K → Type 0
  Leads x e = (e.count < x.count) ⊎ ((e.count ≡ x.count) × (x.first_id ≤ e.first_id))

  Leads-trans : (x y z : Vote K) → Leads x y → Leads y z → Leads x z
  Leads-trans x y z h k = ground (arith, h, k)

  better-Leads :
      (b e : Vote K)
      → Leads (if beats key e (some b) then e else b) b
        × Leads (if beats key e (some b) then e else b) e
  unfolding beats
  better-Leads b e = ground arith

  abbrev better : Vote K → Vote K → Vote K
  better b e = if beats key e (some b) then e else b

  -- The entry that the loop ends with, if it stands at `b`.
  record Ends (b : Vote K) (votes : List (Vote K)) : Type 0 where
    last : Vote K
    is_picked : pick key (some b) votes ≡ some last
    is_entry : (last ≡ b) ⊎ Memᴰ last votes
    leads_start : Leads last b
    leads : (e : Vote K) → Memᴰ e votes → Leads last e

  pick-Ends : (b : Vote K) (votes : List (Vote K)) → Ends b votes
  unfolding pick
  pick-Ends b [] = record {
    last = b;
    is_picked = refl;
    is_entry = inl refl;
    leads_start = omega arith;
    leads = λ e m. elim m [ ];
  }
  pick-Ends b (e ∷ rest) =
      let c = better b e in
      let r = pick-Ends c rest in
      let both = better-Leads b e in
      record {
        last = r.last;
        is_picked = one_step (beats key e (some b)) ∙ r.is_picked;
        is_entry = elim r.is_entry [
          | inl same ↦ elim (Bool-cases (beats key e (some b))) [
            | inl s ↦ inr (head (same ∙ rw s refl))
            | inr s ↦ inl (same ∙ rw s refl)
          ]
          | inr m ↦ inr (tail m)
        ];
        leads_start = Leads-trans r.last c b r.leads_start both.0;
        leads = λ x m. elim (cases_cons m) [
          | inl same ↦ rw same (Leads-trans r.last c e r.leads_start both.1)
          | inr m ↦ r.leads x m
        ];
      }
    where
      one_step :
          (t : Bool)
          → pick key (if t then some e else some b) rest ≡ pick key (some (if t then e else b)) rest
      one_step true = refl
      one_step false = refl

  voter :
      (v : K) (bs : List (Ballot K))
      → 1 ≤ votes_for key v bs
      → (b : Ballot K) × Memᴰ b bs × (b.value ≡ v) × (b.id ≡ first_voter key v bs)
  unfolding votes_for first_voter
  voter v [] h = absurd (ground (arith, h))
  voter v (b ∷ rest) h = elim (Bool-cases (key.same b.value v)) [
    | inl s ↦ (b, head refl, (key.same_iff b.value v).0 s, rw s refl)
    | inr s ↦
        let later = voter v rest (ground (arith, h, s)) in
        (later.0, tail later.1, later.2, later.3 ∙ sym (rw s refl))
  ]

  none_set :
      (bs : List (Ballot K))
      → any_set key bs ≡ false
      → (b : Ballot K) → Memᴰ b bs
      → b.value ≡ key.unset
  unfolding any_set
  none_set [] h b m = elim m [ ]
  none_set (x ∷ rest) h b m = elim (cases_cons m) [
    | inl same ↦ rw same ((key.same_iff x.value key.unset).0 (ground (arith, h)))
    | inr later ↦ none_set rest (ground (arith, h)) b later
  ]

  some_set :
      (bs : List (Ballot K))
      → any_set key bs ≡ true
      → (v : K) × (v ≢ key.unset) × (1 ≤ votes_for key v bs)
  unfolding any_set votes_for
  some_set [] h = absurd (ground (arith, h))
  some_set (b ∷ rest) h = elim (Bool-cases (key.same b.value key.unset)) [
    | inl s ↦
        let later = some_set rest (ground (arith, h, s)) in
        (later.0, later.1, omega (arith, later.2))
    | inr s ↦ (
      b.value,
      (λ e. ground (arith, s, (key.same_iff b.value key.unset).1 e)),
      ground (arith, (key.same_iff b.value b.value).1 refl),
    )
  ]

  Counted : List (Ballot K) → List (Vote K) → Type 0
  Counted bs votes =
      (x : Vote K) × (pick key none votes ≡ some x)
      × IsCount key bs x
      × ((e : Vote K) → Memᴰ e votes → Leads x e)

  -- Some entry is picked if there is one.
  pick_some :
      (bs : List (Ballot K)) (votes : List (Vote K)) (e : Vote K)
      → ((x : Vote K) → Memᴰ x votes → IsCount key bs x)
      → Memᴰ e votes
      → Counted bs votes
  unfolding Counted pick beats
  pick_some bs [] e right m = elim m [ ]
  pick_some bs (x ∷ rest) e right m =
      let r = pick-Ends x rest in
      (
        r.last,
        r.is_picked,
        elim r.is_entry [
          | inl same ↦ subst (IsCount key bs) (sym same) (right x (head refl))
          | inr m ↦ right r.last (tail m)
        ],
        λ y m. elim (cases_cons m) [ inl same ↦ rw same r.leads_start | inr m ↦ r.leads y m ],
      )

  module _ (order : List (Vote K) → List (Vote K)) (visits : Visits order) where
    picked-IsMode :
        (bs : List (Ballot K))
        → any_set key bs ≡ true
        → IsMode key bs (picked key (pick key none (order (tally key [] bs))), false)
    unfolding IsCount IsNoBetter picked Counted
    picked-IsMode bs h =
        let votes = tally key [] bs in
        let c = tally-Counts key [] bs [] (empty-Counts key) in
        let some_v = some_set bs h in
        let entry = c.found some_v.0 some_v.1 some_v.2 in
        let r =
          pick_some bs (order votes) entry.0 (λ x m. c.right x ((visits votes x).0 m))
            ((visits votes entry.0).1 entry.1) in
        let x_right = r.2 in
        rw r.1 (
          x_right.0,
          x_right.3,
          λ w set votes_w.
              let e = c.found w set votes_w in
              let e_right = c.right e.0 e.1 in
              let leads = r.3 e.0 ((visits votes e.0).1 e.1) in
              subst (IsNoBetter key bs r.0.value) e.2
                (ground (arith, leads, x_right.1, x_right.2, e_right.1, e_right.2)),
        )

    -- Whatever the order of the range, if it visits exactly the entries: when some member has a value, the
    -- mode is a value that a member has, and any other value either has fewer members or has as many
    -- and its first member comes no earlier; when none has, it is the unset value, marked incomplete.
    pub mode-IsMode : (bs : List (Ballot K)) → IsMode key bs (mode key order bs)
    unfolding mode
    mode-IsMode bs = elim (Bool-cases (any_set key bs)) [
      | inl h ↦ rw h (picked-IsMode bs h)
      | inr h ↦ rw h (refl, none_set bs h)
    ]

  -- An id is of one member.
  abbrev pub IdsDiffer : List (Ballot K) → Type 0
  IdsDiffer bs = (a b : Ballot K) → Memᴰ a bs → Memᴰ b bs → a.id ≡ b.id → a.value ≡ b.value

  IsMode-unique :
      (bs : List (Ballot K)) (v w : K)
      → IdsDiffer bs
      → IsMode key bs (v, false)
      → IsMode key bs (w, false)
      → v ≡ w
  unfolding IsNoBetter
  IsMode-unique bs v w differ (v_set, v_votes, v_best) (w_set, w_votes, w_best) =
      let a = voter v bs v_votes in
      let b = voter w bs w_votes in
      sym a.2
      ∙ differ a.0 b.0 a.1 b.1
          (a.3 ∙ ground (arith, v_best w w_set w_votes, w_best v v_set v_votes) ∙ sym b.3)
      ∙ b.2

  -- Where every id is of one member, the mode does not depend on the order in which the range visits
  -- the entries.
  pub mode_unordered :
      (order other : List (Vote K) → List (Vote K)) (bs : List (Ballot K))
      → Visits order
      → Visits other
      → IdsDiffer bs
      → mode key order bs ≡ mode key other bs
  unfolding mode
  mode_unordered order other bs visits also differ = elim (Bool-cases (any_set key bs)) [
    | inl h ↦
        let same =
          IsMode-unique bs _ _ differ (picked-IsMode order visits bs h)
            (picked-IsMode other also bs h) in
        rw h (ap (λ v. (v, false)) same)
    | inr h ↦ rw h refl
  ]
