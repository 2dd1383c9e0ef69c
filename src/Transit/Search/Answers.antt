-- ===== src/Transit/Search/Answers.antt =====
-- The times that the search answers are those of journeys with at most four rides.
use mathlib.Core.List.{Memᴰ}
use mathlib.Core.List.Memᴰ.{head, tail}
use emergency_callup.Prelude.{
  ℕ, zero, suc, ◌+◌, Bool, true, false, ◌&&◌, not, List, [], ◌∷◌, none, some, if◌then◌else◌, length,
  length-replicate, replicate, ◌≡◌, ◌≢◌, refl, sym, subst, ◌∙◌, ◌⊎◌, inl, inr, arith, Bool-cases,
  if_of_true, if_of_false,
}
use emergency_callup.Prelude.Int.{ℤ, pos, ltb_ℤ, leb_ℤ, eq_ℤ}
use emergency_callup.Floats.{Floats}
use emergency_callup.Area.Geo.{Point, haversine}
use emergency_callup.Transit.Network.{
  Stop, Pattern, Query, unreached, max_rides, limit, add32, near, walk_sec,
}
use emergency_callup.Transit.Search.{
  Labels, is_marked, best_at, improve, starts_of, access, scan_all, one_round, has_marks, rounds,
  first_labels, search, walked, seconds,
}
use emergency_callup.Transit.Search.Journeys.{
  Journey, on_foot, Journey-suc, Good, improve-Good, differ, best_at-replicate,
}
use emergency_callup.Transit.Search.Sound.{
  InRange, Before, scan_all-Good, relax_walk-Good, marked_reached, near-range,
}

le_self : (a : ℤ) → leb_ℤ a a ≡ true
unfolding leb_ℤ
le_self a = ground arith

and_left : (a b : Bool) → (not a && b) ≡ true → a ≡ false
and_left true b h = absurd (ground (arith, h))
and_left false b h = refl

not_some : {t : ℤ} → none ≢ some t
not_some h = ground (arith, h)

some_same : (v t : ℤ) → some v ≡ some t → v ≡ t
some_same v t h = ground (arith, h)

not_above : (a b : ℤ) → ltb_ℤ a b ≡ false → leb_ℤ b a ≡ true
unfolding ltb_ℤ leb_ℤ
not_above a b h = ground (arith, h)

above : (a b : ℤ) → ltb_ℤ a unreached ≡ true → b ≡ unreached → ltb_ℤ a b ≡ false → ⊥
above a b below e h = true_false _ (subst (λ x. ltb_ℤ a x ≡ true) (sym e) below) h
  where
    true_false : (x : Bool) → x ≡ true → x ≡ false → ⊥
    true_false x f g = ground (arith, f, g)

module _ (fl : Floats) where
  open fl use {F, le, of_int}

  module _ (stops : List (Stop F)) (q : Query F) (anchor : Point F) (pats : List Pattern) where
    Good-suc :
        (k : ℕ) (l : Labels)
        → Good fl stops q anchor pats k l
        → Good fl stops q anchor pats (suc k) l
    Good-suc k l g = record {
      sound = λ s on. Journey-suc fl stops q anchor pats (g.sound s on);
      low = g.low;
      long = g.long;
      reached = g.reached;
    }

    Good-add :
        (n k : ℕ) (l : Labels)
        → Good fl stops q anchor pats k l
        → Good fl stops q anchor pats (n + k) l
    Good-add zero k l g = subst (λ m. Good fl stops q anchor pats m l) (omega arith) g
    Good-add (suc n) k l g =
        subst (λ m. Good fl stops q anchor pats m l) (omega arith)
          (Good-suc (n + k) l (Good-add n k l g))

    access-Good :
        (calls : List (ℕ × F)) (l : Labels)
        → ((s : ℕ) (d : F)
            → Memᴰ (s, d) calls
            → Memᴰ (s, d) (near fl stops anchor (of_int (pos 800))))
        → Good fl stops q anchor pats 0 l
        → Good fl stops q anchor pats 0 (access fl stops q calls l)
    unfolding access
    access-Good [] l m g = g
    access-Good ((s, d) ∷ rest) l m g =
        let call = m s d (head refl) in
        access-Good rest (improve s (walk_sec fl q d) l) (λ x y n. m x y (tail n))
          (improve-Good fl stops q anchor pats 0 s (walk_sec fl q d) l g
            (near-range fl stops anchor (of_int (pos 800)) s d call) (on_foot 0 call))

    start : Labels
    start = record { best = replicate (length stops) unreached; marked = [] }

    start-Good : Good fl stops q anchor pats 0 start
    unfolding start is_marked
    start-Good = record {
      sound = λ s on. absurd (on (best_at-replicate (length stops) s));
      low = λ s. rw (best_at-replicate (length stops) s) (le_self unreached);
      long = length-replicate (length stops) unreached;
      reached = λ s m. absurd (ground (arith, m));
    }

    first_labels-Good : Good fl stops q anchor pats 0 (first_labels fl stops q anchor)
    unfolding first_labels start
    first_labels-Good =
        let l = access fl stops q (near fl stops anchor (of_int (pos 800))) start in
        let g =
          access-Good (near fl stops anchor (of_int (pos 800))) start (λ s d m. m) start-Good in
        relax_walk-Good fl stops q anchor pats 0 l.marked l
          (marked_reached fl stops q anchor pats 0 l g) g

    -- A travel time from the anchor to a point: on foot all the way, or by a journey to a stop within reach
    -- of the point and on foot from there.
    pub Reaches : Point F → ℤ → Type 0
    Reaches p t =
        ((le (haversine fl anchor p) (of_int (pos 4000)) ≡ true)
          × (t ≡ walk_sec fl q (haversine fl anchor p)))
        ⊎ ((s : ℕ) × (d : F) × (before : ℤ) × Memᴰ (s, d) (near fl stops p (of_int (pos 800)))
            × Journey fl stops q anchor pats max_rides s before
            × (t ≡ add32 before (walk_sec fl q d)))

    module _ (in_range : InRange fl stops q anchor pats) (order : List (ℕ × ℕ) → List (ℕ × ℕ)) where
      one_round-Good :
          (k : ℕ) (l : Labels)
          → Good fl stops q anchor pats k l
          → Good fl stops q anchor pats (suc k) (one_round fl stops q order pats l)
      unfolding one_round Before is_marked
      one_round-Good k l g =
          let entered : Labels = record { best = l.best; marked = [] } in
          let starts = order (starts_of pats l.marked []) in
          let after = scan_all fl stops q pats l.best starts entered in
          let scanned =
            scan_all-Good fl stops q anchor pats in_range k l.best starts entered g.sound (record {
              sound = λ s on. Journey-suc fl stops q anchor pats (g.sound s on);
              low = g.low;
              long = g.long;
              reached = λ s m. absurd (ground (arith, m));
            }) in
          relax_walk-Good fl stops q anchor pats (suc k) after.marked after
            (marked_reached fl stops q anchor pats (suc k) after scanned) scanned

      rounds-Good :
          (n k : ℕ) (l : Labels)
          → Good fl stops q anchor pats k l
          → Good fl stops q anchor pats (n + k) (rounds fl stops q n order pats l)
      unfolding rounds
      rounds-Good zero k l g = Good-add 0 k l g
      rounds-Good (suc n) k l g = elim (Bool-cases (has_marks l.marked)) [
        | inl b ↦ rw b (
            subst
              (λ m.
                Good fl stops q anchor pats m
                  (rounds fl stops q n order pats (one_round fl stops q order pats l)))
              (omega arith)
              (rounds-Good n (suc k) (one_round fl stops q order pats l) (one_round-Good k l g)))
        | inr b ↦ rw b (Good-add (suc n) k l g)
      ]

      search-Journey :
          (s : ℕ)
          → best_at (search fl stops q order anchor pats) s ≢ unreached
          → Journey fl stops q anchor pats max_rides s
              (best_at (search fl stops q order anchor pats) s)
      unfolding search
      search-Journey s on =
          (rounds-Good max_rides 0 (first_labels fl stops q anchor) first_labels-Good).sound s on

      Reaches-from_stop :
          (p : Point F) (s : ℕ) (d : F)
          → Memᴰ (s, d) (near fl stops p (of_int (pos 800)))
          → best_at (search fl stops q order anchor pats) s ≢ unreached
          → Reaches p (add32 (best_at (search fl stops q order anchor pats) s) (walk_sec fl q d))
      unfolding Reaches
      Reaches-from_stop p s d m on =
          inr (s, d, best_at (search fl stops q order anchor pats) s, m, search-Journey s on, refl)

      walked-Reaches :
          (p : Point F) (calls : List (ℕ × F)) (t : ℤ)
          → ((s : ℕ) (d : F) → Memᴰ (s, d) calls → Memᴰ (s, d) (near fl stops p (of_int (pos 800))))
          → (t ≡ unreached) ⊎ Reaches p t
          → (walked fl stops q (search fl stops q order anchor pats) calls t ≡ unreached)
            ⊎ Reaches p (walked fl stops q (search fl stops q order anchor pats) calls t)
      unfolding walked
      walked-Reaches p [] t m h = h
      walked-Reaches p ((s, d) ∷ rest) t m h =
          walked-Reaches p rest (if on && ltb_ℤ v t then v else t) (λ x y n. m x y (tail n))
            (elim (Bool-cases (on && ltb_ℤ v t)) [
              | inl b ↦ subst Timed (sym (if_of_true v t b)) (
                  inr (
                    Reaches-from_stop p s d (m s d (head refl))
                      (differ at_s unreached (and_left (eq_ℤ at_s unreached) (ltb_ℤ v t) b))))
              | inr b ↦ subst Timed (sym (if_of_false v t b)) h
            ])
        where
          Timed : ℤ → Type 0
          Timed x = (x ≡ unreached) ⊎ Reaches p x

          at_s : ℤ
          at_s = best_at (search fl stops q order anchor pats) s

          v : ℤ
          v = add32 at_s (walk_sec fl q d)

          on : Bool
          on = not (eq_ℤ at_s unreached)

      afoot-Reaches :
          (p : Point F)
          → let d = haversine fl anchor p in
            let t = if le d (of_int (pos 4000)) then walk_sec fl q d else unreached in
            (t ≡ unreached) ⊎ Reaches p t
      unfolding Reaches
      afoot-Reaches p = elim (Bool-cases (le (haversine fl anchor p) (of_int (pos 4000)))) [
        | inl b ↦ rw b (inr (inl (refl, refl)))
        | inr b ↦ rw b (inl refl)
      ]

      -- A travel time that is answered is within the limit of the query, and is the time of a way that there
      -- is: on foot all the way, or on foot to a stop, with at most four rides (with walks between
      -- stops near each other before, between and after them) to a stop near the point, and on foot from there;
      -- whatever the order of the range. The limit is below MaxInt32, and the patterns' places are stops.
      pub seconds-Reaches :
          (p : Point F) (t : ℤ)
          → ltb_ℤ (limit q) unreached ≡ true
          → seconds fl stops q anchor (search fl stops q order anchor pats) p ≡ some t
          → (leb_ℤ t (limit q) ≡ true) × Reaches p t
      unfolding seconds
      seconds-Reaches p t below h =
          let d = haversine fl anchor p in
          let afoot = if le d (of_int (pos 4000)) then walk_sec fl q d else unreached in
          let calls = near fl stops p (of_int (pos 800)) in
          let v = walked fl stops q (search fl stops q order anchor pats) calls afoot in
          elim (Bool-cases (ltb_ℤ (limit q) v)) [
            | inl b ↦ absurd (not_some (sym (if_of_true none (some v) b) ∙ h))
            | inr b ↦
                let same : v ≡ t = some_same v t (sym (if_of_false none (some v) b) ∙ h) in
                subst (λ x. (leb_ℤ x (limit q) ≡ true) × Reaches p x) same
                  (
                    not_above (limit q) v b,
                    elim (walked-Reaches p calls afoot (λ s e m. m) (afoot-Reaches p)) [
                      | inl u ↦ absurd (above (limit q) v below u b)
                      | inr r ↦ r
                    ],
                  )
          ]
