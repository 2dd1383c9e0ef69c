-- ===== src/Incident/Draft/Counts.antt =====
-- What the tally of the votes says of the ballots.
use mathlib.Core.List.{Memᴰ, append-nil, append_assoc}
use mathlib.Core.List.Memᴰ.{head, tail, cases_cons, append_left, append_right}
use emergency_callup.Prelude.{
  ℕ, ◌+◌, ◌≤◌, ◌<◌, Bool, true, false, List, [], ◌∷◌, ◌++◌, ◌==◌, if◌then◌else◌, ◌≡◌, ◌≢◌, ◌⊎◌, inl,
  inr, refl, sym, ap, ◌∙◌, subst, arith, Bool-cases,
}
use emergency_callup.Incident.Draft.{Key, Vote, Ballot, voted, bump, cast, tally}

module _ {K : Type 0} (key : Key K) where
  -- How many ballots are for a value, and the id of the first of them (0 if there is none).
  unfoldable pub votes_for : K → List (Ballot K) → ℕ
  votes_for v [] = 0
  votes_for v (b ∷ rest) = (if key.same b.value v then 1 else 0) + votes_for v rest

  unfoldable pub first_voter : K → List (Ballot K) → ℕ
  first_voter v [] = 0
  first_voter v (b ∷ rest) = if key.same b.value v then b.id else first_voter v rest

  -- `w` does not come before `v`: fewer members have it, or as many and its first comes later.
  unfoldable pub IsNoBetter : List (Ballot K) → K → K → Type 0
  unfolding votes_for first_voter
  IsNoBetter ballots v w =
      (votes_for w ballots < votes_for v ballots)
      ⊎ ((votes_for w ballots ≡ votes_for v ballots)
          × (first_voter v ballots ≤ first_voter w ballots))

  -- What `mode` should give, in terms of the ballots alone.
  abbrev pub IsMode : List (Ballot K) → K × Bool → Type 0
  IsMode ballots (v, true) =
      (v ≡ key.unset) × ((b : Ballot K) → Memᴰ b ballots → b.value ≡ key.unset)
  IsMode ballots (v, false) =
      (v ≢ key.unset)
      × (1 ≤ votes_for v ballots)
      × ((w : K) → w ≢ key.unset → 1 ≤ votes_for w ballots → IsNoBetter ballots v w)

  -- An entry says of its value what the ballots say.
  unfoldable pub IsCount : List (Ballot K) → Vote K → Type 0
  IsCount ballots e =
      (e.value ≢ key.unset)
      × (e.count ≡ votes_for e.value ballots)
      × (e.first_id ≡ first_voter e.value ballots)
      × (1 ≤ votes_for e.value ballots)

  -- All entries do, and every value voted for has one.
  pub record Counts (ballots : List (Ballot K)) (votes : List (Vote K)) : Type 0 where
    pub right : (e : Vote K) → Memᴰ e votes → IsCount ballots e
    pub found :
        (v : K)
        → v ≢ key.unset
        → 1 ≤ votes_for v ballots
        → (e : Vote K) × Memᴰ e votes × (e.value ≡ v)

  votes_for-append :
      (v : K) (bs : List (Ballot K)) (b : Ballot K)
      → votes_for v (bs ++ b ∷ []) ≡ votes_for v bs + (if key.same b.value v then 1 else 0)
  unfolding votes_for
  votes_for-append v [] b = ground arith
  votes_for-append v (x ∷ bs) b = ground (arith, votes_for-append v bs b)

  first_voter-append :
      (v : K) (bs : List (Ballot K)) (b : Ballot K)
      → first_voter v (bs ++ b ∷ []) ≡ (
          if ◌==◌ (votes_for v bs) 0
          then (if key.same b.value v then b.id else 0)
          else first_voter v bs)
  unfolding first_voter votes_for
  first_voter-append v [] b = ground arith
  first_voter-append v (x ∷ bs) b = ground (arith, first_voter-append v bs b)

  voted_entry :
      (v : K) (votes : List (Vote K))
      → voted key v votes ≡ true
      → (e : Vote K) × Memᴰ e votes × (e.value ≡ v)
  unfolding voted
  voted_entry v [] h = absurd (ground (arith, h))
  voted_entry v (e ∷ rest) h = elim (Bool-cases (key.same e.value v)) [
    | inl s ↦ (e, head refl, (key.same_iff e.value v).0 s)
    | inr s ↦
        let later = voted_entry v rest (ground (arith, h, s)) in (later.0, tail later.1, later.2)
  ]

  not_voted :
      (v : K) (votes : List (Vote K)) (e : Vote K)
      → voted key v votes ≡ false
      → Memᴰ e votes
      → key.same e.value v ≡ false
  unfolding voted
  not_voted v [] e h m = elim m [ ]
  not_voted v (x ∷ rest) e h m = elim (cases_cons m) [
    | inl same ↦ rw same (ground (arith, h))
    | inr later ↦ not_voted v rest e (ground (arith, h)) later
  ]

  abbrev bumped : K → Vote K → Vote K
  bumped v e = if key.same e.value v then record e { count = e.count + 1 } else e

  bump-mem :
      (v : K) (votes : List (Vote K)) (e : Vote K)
      → Memᴰ e (bump key v votes)
      → (x : Vote K) × Memᴰ x votes × (e ≡ bumped v x)
  unfolding bump
  bump-mem v [] e m = elim m [ ]
  bump-mem v (x ∷ rest) e m = elim (cases_cons m) [
    | inl same ↦ (x, head refl, same)
    | inr later ↦ let found = bump-mem v rest e later in (found.0, tail found.1, found.2)
  ]

  mem-bump :
      (v : K) (votes : List (Vote K)) (x : Vote K)
      → Memᴰ x votes
      → Memᴰ (bumped v x) (bump key v votes)
  unfolding bump
  mem-bump v [] x m = elim m [ ]
  mem-bump v (y ∷ rest) x m = elim (cases_cons m) [
    | inl same ↦ head (ap (bumped v) same)
    | inr later ↦ tail (mem-bump v rest x later)
  ]

  same_sym : (v w : K) → key.same v w ≡ key.same w v
  same_sym v w = elim (Bool-cases (key.same v w)) [
    | inl s ↦ s ∙ sym ((key.same_iff w v).1 (sym ((key.same_iff v w).0 s)))
    | inr s ↦ elim (Bool-cases (key.same w v)) [
      | inl t ↦ absurd (ground (arith, s, (key.same_iff v w).1 (sym ((key.same_iff w v).0 t))))
      | inr t ↦ s ∙ sym t
    ]
  ]

  same_refl : (v : K) → key.same v v ≡ true
  same_refl v = (key.same_iff v v).1 refl

  -- A ballot for another value changes nothing.
  other-IsCount :
      (bs : List (Ballot K)) (b : Ballot K) (e : Vote K)
      → key.same b.value e.value ≡ false
      → IsCount bs e
      → IsCount (bs ++ b ∷ []) e
  unfolding IsCount
  other-IsCount bs b e other (set, count, first, cast_for) =
      rw (votes_for-append e.value bs b, first_voter-append e.value bs b, other)
        (set, omega (arith, count), ground (arith, first, cast_for), omega (arith, cast_for))

  bumped-IsCount :
      (bs : List (Ballot K)) (b : Ballot K) (e : Vote K)
      → IsCount bs e
      → IsCount (bs ++ b ∷ []) (bumped b.value e)
  unfolding IsCount
  bumped-IsCount bs b e (set, count, first, cast_for) =
      elim (Bool-cases (key.same e.value b.value)) [
        | inl s ↦
            rw
              (
                s,
                votes_for-append e.value bs b,
                first_voter-append e.value bs b,
                sym (same_sym e.value b.value) ∙ s,
              )
              (set, omega (arith, count), ground (arith, first, cast_for), omega (arith, cast_for))
        | inr s ↦
            rw s (other-IsCount bs b e (same_sym b.value e.value ∙ s) (set, count, first, cast_for))
      ]

  new-IsCount :
      (bs : List (Ballot K)) (b : Ballot K)
      → b.value ≢ key.unset
      → votes_for b.value bs ≡ 0
      → IsCount (bs ++ b ∷ []) (record { value = b.value; count = 1; first_id = b.id })
  unfolding IsCount
  new-IsCount bs b set fresh =
      rw (votes_for-append b.value bs b, first_voter-append b.value bs b, fresh, same_refl b.value)
        (set, refl, refl, omega arith)

  -- A value with more ballots than before is that of the new one.
  found_before :
      (bs : List (Ballot K)) (b : Ballot K) (v : K)
      → key.same b.value v ≡ false
      → 1 ≤ votes_for v (bs ++ b ∷ [])
      → 1 ≤ votes_for v bs
  found_before bs b v other h = ground (arith, votes_for-append v bs b, other, h)

  skip-Counts :
      (bs : List (Ballot K)) (b : Ballot K) (votes : List (Vote K))
      → b.value ≡ key.unset
      → Counts bs votes
      → Counts (bs ++ b ∷ []) votes
  unfolding IsCount
  skip-Counts bs b votes unset c = record {
    right = λ e m. let r = c.right e m in other-IsCount bs b e (differs e.value r.0) r;
    found = λ v set h. c.found v set (found_before bs b v (differs v set) h);
  }
    where
      differs : (v : K) → v ≢ key.unset → key.same b.value v ≡ false
      differs v set = elim (Bool-cases (key.same b.value v)) [
        | inl s ↦ absurd (set (sym ((key.same_iff b.value v).0 s) ∙ unset))
        | inr s ↦ s
      ]

  bump-Counts :
      (bs : List (Ballot K)) (b : Ballot K) (votes : List (Vote K))
      → voted key b.value votes ≡ true
      → Counts bs votes
      → Counts (bs ++ b ∷ []) (bump key b.value votes)
  bump-Counts bs b votes old c = record {
    right = λ e m.
        let x = bump-mem b.value votes e m in
        subst (IsCount (bs ++ b ∷ [])) (sym x.2) (bumped-IsCount bs b x.0 (c.right x.0 x.1));
    found = λ v set h. elim (Bool-cases (key.same b.value v)) [
      | inl s ↦
          let e = voted_entry b.value votes old in
          (
            bumped b.value e.0,
            mem-bump b.value votes e.0 e.1,
            kept b.value e.0 ∙ e.2 ∙ (key.same_iff b.value v).0 s,
          )
      | inr s ↦
          let e = c.found v set (found_before bs b v s h) in
          (bumped b.value e.0, mem-bump b.value votes e.0 e.1, kept b.value e.0 ∙ e.2)
    ];
  }
    where
      kept : (v : K) (e : Vote K) → (bumped v e).value ≡ e.value
      kept v e = ground arith

  append-Counts :
      (bs : List (Ballot K)) (b : Ballot K) (votes : List (Vote K))
      → b.value ≢ key.unset
      → voted key b.value votes ≡ false
      → Counts bs votes
      → Counts (bs ++ b ∷ []) (votes ++ record { value = b.value; count = 1; first_id = b.id } ∷ [])
  append-Counts bs b votes set new c = record {
    right = λ e m. elim (in_append votes e m) [
      | inl old ↦
          other-IsCount bs b e (same_sym b.value e.value ∙ not_voted b.value votes e new old)
            (c.right e old)
      | inr same ↦ subst (IsCount (bs ++ b ∷ [])) (sym same) (new-IsCount bs b set fresh)
    ];
    found = λ v set h. elim (Bool-cases (key.same b.value v)) [
      | inl s ↦ (_, append_right votes (head refl), (key.same_iff b.value v).0 s)
      | inr s ↦ let e = c.found v set (found_before bs b v s h) in (e.0, append_left _ e.1, e.2)
    ];
  }
    where
      in_append :
          (l : List (Vote K)) (e : Vote K) {x : Vote K} → Memᴰ e (l ++ x ∷ []) → Memᴰ e l ⊎ (e ≡ x)
      in_append [] e m = elim (cases_cons m) [ inl s ↦ inr s | inr r ↦ elim r [ ] ]
      in_append (y ∷ l) e m = elim (cases_cons m) [
        | inl s ↦ inl (head s)
        | inr r ↦ elim (in_append l e r) [ inl o ↦ inl (tail o) | inr s ↦ inr s ]
      ]

      fresh : votes_for b.value bs ≡ 0
      fresh = elim (Bool-cases (votes_for b.value bs == 0)) [
        | inl z ↦ ground (arith, z)
        | inr n ↦
            let e = c.found b.value set (ground (arith, n)) in
            absurd (
              ground (
                arith,
                not_voted b.value votes e.0 new e.1,
                (key.same_iff e.0.value b.value).1 e.2,
              ))
      ]

  step-Counts :
      (bs : List (Ballot K)) (b : Ballot K) (votes : List (Vote K))
      → Counts bs votes
      → Counts
          (bs ++ b ∷ [])
          (if key.same b.value key.unset then votes else cast key b.value b.id votes)
  unfolding cast
  step-Counts bs b votes c = elim (Bool-cases (key.same b.value key.unset)) [
    | inl s ↦ rw s (skip-Counts bs b votes ((key.same_iff b.value key.unset).0 s) c)
    | inr s ↦ rw s (elim (Bool-cases (voted key b.value votes)) [
      | inl old ↦ rw old (bump-Counts bs b votes old c)
      | inr new ↦ rw new (
          append-Counts bs b votes (λ e. ground (arith, s, (key.same_iff b.value key.unset).1 e))
            new c)
    ])
  ]

  pub tally-Counts :
      (bs rest : List (Ballot K)) (votes : List (Vote K))
      → Counts bs votes
      → Counts (bs ++ rest) (tally key votes rest)
  unfolding tally
  tally-Counts bs [] votes c = subst (λ l. Counts l votes) (sym (append-nil bs)) c
  tally-Counts bs (b ∷ rest) votes c =
      subst (λ l. Counts l (tally key votes (b ∷ rest))) (append_assoc bs (b ∷ []) rest)
        (tally-Counts (bs ++ b ∷ []) rest _ (step-Counts bs b votes c))

  pub empty-Counts : Counts [] []
  unfolding votes_for
  empty-Counts = record { right = λ e m. elim m [ ]; found = λ v set h. absurd (ground (arith, h)) }
