-- ===== src/Transit/Search/Sound.antt =====
-- The search keeps its labels sound, and answers times of journeys.
use mathlib.Core.List.{Memᴰ}
use mathlib.Core.List.Memᴰ.{head, tail, cases_cons}
use emergency_callup.Prelude.{
  ℕ, suc, ◌+◌, ◌<◌, Bool, true, false, List, [], ◌∷◌, ◌++◌, Option, none, some, ◌==◌, if◌then◌else◌,
  length, get_elem?, drop, ◌≡◌, ◌≢◌, refl, sym, ap, subst, ◌∙◌, ◌⊎◌, inl, inr, arith, Bool-cases,
  if_of_true, if_of_false,
}
use emergency_callup.Prelude.Int.{ℤ, ltb_ℤ, eq_ℤ, eq_ℤ_iff}
use emergency_callup.Floats.{Floats}
use emergency_callup.Area.Geo.{Point, haversine}
use emergency_callup.Transit.Network.{
  Stop, Pattern, Query, unreached, add32, near, walk, walk_sec, wait, hop,
}
use emergency_callup.Transit.Search.{
  Labels, is_marked, best_at, pattern_at, improve_limited, relax_edges, relax_walk, ridden, boarded,
  scan, scan_running, scan_pattern, scan_all,
}
use emergency_callup.Transit.Network.{bucket, within, near_cells, others_of, around, point_at}
use emergency_callup.Area.Grid.Cells.{Cell, eq_cell}
use emergency_callup.Area.Grid.{cell_of}
use emergency_callup.Transit.Search.Journeys.{
  Journey, transfer, alight, Aboard, board, ride, Good, Stays, improve_limited-Good, drop-cons,
  pattern_at-mem, differ,
}

pub irreflexive : (a : ℤ) → ltb_ℤ a a ≡ true → ⊥
unfolding ltb_ℤ
irreflexive a h = ground (arith, h)

mem_marked : (s : ℕ) (l : List ℕ) → Memᴰ s l → is_marked s l ≡ true
unfolding is_marked
mem_marked s [] m = elim m [ ]
mem_marked s (x ∷ rest) m = elim (cases_cons m) [
  | inl e ↦ ground (arith, e)
  | inr later ↦ ground (arith, mem_marked s rest later)
]

mem_if :
    {A : Type 0} (b : Bool) (x y : A) (l : List A)
    → Memᴰ x (if b then y ∷ l else l)
    → (x ≡ y) ⊎ Memᴰ x l
mem_if true x y l m = cases_cons m
mem_if false x y l m = inr m

module _ (fl : Floats) where
  open fl use {F, le, of_int}

  bucket-range :
      (c : Cell) (i s : ℕ) (stops : List (Stop F))
      → Memᴰ s (bucket fl i c stops)
      → s < i + length stops
  unfolding bucket
  bucket-range c i s [] m = elim m [ ]
  bucket-range c i s (x ∷ rest) m =
      elim (mem_if (eq_cell (cell_of fl 1000 x.p) c) s i (bucket fl (suc i) c rest) m) [
        | inl e ↦ omega (arith, e)
        | inr later ↦ omega (arith, bucket-range c (suc i) s rest later)
      ]

  within-range :
      (n : ℕ) (stops : List (Stop F)) (p : Point F) (r : F) (l : List ℕ) (s : ℕ) (d : F)
      → ((x : ℕ) → Memᴰ x l → x < n)
      → Memᴰ (s, d) (within fl stops p r l)
      → s < n
  unfolding within
  within-range n stops p r [] s d all m = elim m [ ]
  within-range n stops p r (x ∷ rest) s d all m =
      let e = haversine fl p (point_at fl stops x) in
      elim (mem_if (le e r) (s, d) (x, e) (within fl stops p r rest) m) [
        | inl same ↦ rw (ap (λ (y : ℕ × F). y.0) same) (all x (head refl))
        | inr later ↦ within-range n stops p r rest s d (λ y k. all y (tail k)) later
      ]

  mem_append : {A : Type 0} (x : A) (l k : List A) → Memᴰ x (l ++ k) → Memᴰ x l ⊎ Memᴰ x k
  mem_append x [] k m = inr m
  mem_append x (y ∷ l) k m = elim (cases_cons m) [
    | inl e ↦ inl (head e)
    | inr later ↦ elim (mem_append x l k later) [ inl a ↦ inl (tail a) | inr b ↦ inr b ]
  ]

  near_cells-range :
      (stops : List (Stop F)) (p : Point F) (r : F) (cells : List Cell) (s : ℕ) (d : F)
      → Memᴰ (s, d) (near_cells fl stops p r cells)
      → s < length stops
  unfolding near_cells
  near_cells-range stops p r [] s d m = elim m [ ]
  near_cells-range stops p r (c ∷ rest) s d m =
      elim (mem_append (s, d) (within fl stops p r (bucket fl 0 c stops))
        (near_cells fl stops p r rest) m) [
          | inl a ↦
              within-range (length stops) stops p r (bucket fl 0 c stops) s d
                (λ x k. omega (arith, bucket-range c 0 x stops k)) a
          | inr b ↦ near_cells-range stops p r rest s d b
        ]

  pub near-range :
      (stops : List (Stop F)) (p : Point F) (r : F) (s : ℕ) (d : F)
      → Memᴰ (s, d) (near fl stops p r)
      → s < length stops
  unfolding near
  near-range stops p r s d m = near_cells-range stops p r (around fl (cell_of fl 1000 p)) s d m

  others_of-mem :
      (i : ℕ) (l : List (ℕ × F)) (s : ℕ) (d : F) → Memᴰ (s, d) (others_of fl i l) → Memᴰ (s, d) l
  unfolding others_of
  others_of-mem i [] s d m = elim m [ ]
  others_of-mem i ((j, e) ∷ rest) s d m = elim (Bool-cases (j == i)) [
    | inl b ↦ tail (others_of-mem i rest s d (subst (Memᴰ (s, d)) (if_of_true _ _ b) m))
    | inr b ↦ elim (cases_cons (subst (Memᴰ (s, d)) (if_of_false _ _ b) m)) [
      | inl same ↦ head same
      | inr later ↦ tail (others_of-mem i rest s d later)
    ]
  ]

  walk-range :
      (stops : List (Stop F)) (i s : ℕ) (d : F) → Memᴰ (s, d) (walk fl stops i) → s < length stops
  unfolding walk
  walk-range stops i s d m = near-range stops _ _ s d (others_of-mem i _ s d m)

  module _ (stops : List (Stop F)) (q : Query F) (anchor : Point F) (pats : List Pattern) where
    -- The places of the patterns are those of stops.
    abbrev pub InRange : Type 0
    InRange =
        (p : Pattern) (i s : ℕ) → Memᴰ p pats → get_elem? p.stops i ≡ some s → s < length stops

    -- What a scan may rely on of the labels of the round before.
    unfoldable pub Before : ℕ → List ℤ → Type 0
    Before k prev =
        (s : ℕ) → best_at prev s ≢ unreached → Journey fl stops q anchor pats k s (best_at prev s)

    pub before_at :
        (k : ℕ) (prev : List ℤ)
        → Before k prev
        → (s : ℕ) → best_at prev s ≢ unreached
        → Journey fl stops q anchor pats k s (best_at prev s)
    unfolding Before
    before_at k prev before = before

    ridden_on :
        (p : Pattern) (i : ℕ) (time : ℤ)
        → time ≢ unreached
        → ridden fl stops q p i time ≡ add32 time (hop fl stops q p i)
    unfolding ridden
    ridden_on p i time on = elim (Bool-cases (eq_ℤ time unreached)) [
      | inl b ↦ absurd (on ((eq_ℤ_iff time unreached).0 b))
      | inr b ↦ rw b refl
    ]

    ridden_off :
        (p : Pattern) (i : ℕ) (time : ℤ) → time ≡ unreached → ridden fl stops q p i time ≡ unreached
    unfolding ridden
    ridden_off p i time off = rw ((eq_ℤ_iff time unreached).1 off) off

    boarded-cases :
        (prev : List ℤ) (w : ℤ) (s : ℕ) (time : ℤ)
        → (boarded fl stops q prev w s time ≡ time)
          ⊎ ((best_at prev s ≢ unreached)
              × (boarded fl stops q prev w s time ≡ add32 (best_at prev s) w))
    unfolding boarded
    boarded-cases prev w s time = elim (Bool-cases (eq_ℤ (best_at prev s) unreached)) [
      | inl b ↦ inl (rw b refl)
      | inr b ↦ elim (Bool-cases (ltb_ℤ (add32 (best_at prev s) w) time)) [
        | inl c ↦ inr (differ (best_at prev s) unreached b, rw (b, c) refl)
        | inr c ↦ inl (rw (b, c) refl)
      ]
    ]

    module _ (in_range : InRange) where
      scan-Good :
          (k : ℕ) (p : Pattern) (prev : List ℤ) (w : ℤ) (time : ℤ) (i : ℕ) (places : List ℕ)
          (l : Labels)
          → Memᴰ p pats
          → wait fl q p ≡ some w
          → Before k prev
          → places ≡ drop i p.stops
          → (time ≢ unreached → (j : ℕ) × (i ≡ suc j) × Aboard fl stops q anchor pats k p j time)
          → Good fl stops q anchor pats (suc k) l
          → Good fl stops q anchor pats (suc k) (scan fl stops q p prev w time i places l)
      unfolding scan
      scan-Good k p prev w time i [] l m runs before at_i aboard good = good
      scan-Good k p prev w time i (s ∷ places) l m runs before at_i aboard good =
          scan-Good k p prev w (boarded fl stops q prev w s here) (suc i) places
            (if eq_ℤ time unreached then l else improve_limited fl stops q s here l) m runs before
            place.1 (λ on. (i, refl, next on)) labels
        where
          place : (get_elem? p.stops i ≡ some s) × (places ≡ drop (suc i) p.stops)
          place = drop-cons i p.stops s places at_i

          here : ℤ
          here = ridden fl stops q p i time

          now_aboard : time ≢ unreached → Aboard fl stops q anchor pats k p i here
          now_aboard on =
              let (j, e, a) = aboard on in
              subst (Aboard fl stops q anchor pats k p i) (sym (ridden_on p i time on)) (
                subst (λ n. Aboard fl stops q anchor pats k p n (add32 time (hop fl stops q p n)))
                  (sym e) (ride a))

          next :
              boarded fl stops q prev w s here ≢ unreached
              → Aboard fl stops q anchor pats k p i (boarded fl stops q prev w s here)
          next on = elim (boarded-cases prev w s here) [
            | inl e ↦
                subst (Aboard fl stops q anchor pats k p i) (sym e)
                  (now_aboard (λ u. on (e ∙ ridden_off p i time u)))
            | inr (reached, e) ↦
                subst (Aboard fl stops q anchor pats k p i) (sym e)
                  (board (before_at k prev before s reached) m runs place.0)
          ]

          further : Labels
          further = improve_limited fl stops q s here l

          labels :
              Good fl stops q anchor pats
                (suc k)
                (if eq_ℤ time unreached then l else improve_limited fl stops q s here l)
          labels = elim (Bool-cases (eq_ℤ time unreached)) [
            | inl b ↦
                subst (Good fl stops q anchor pats (suc k)) (sym (if_of_true l further b)) good
            | inr b ↦
                subst (Good fl stops q anchor pats (suc k)) (sym (if_of_false l further b))
                  (improve_limited-Good fl stops q anchor pats (suc k) s here l good
                    (in_range p i s m place.0)
                    (alight (now_aboard (differ time unreached b)) place.0)).0
          ]

      scan_running-Good :
          (k : ℕ) (prev : List ℤ) (i : ℕ) (p : Pattern) (w : Option ℤ) (l : Labels)
          → Memᴰ p pats
          → wait fl q p ≡ w
          → Before k prev
          → Good fl stops q anchor pats (suc k) l
          → Good fl stops q anchor pats (suc k) (scan_running fl stops q prev i p w l)
      unfolding scan_running
      scan_running-Good k prev i p none l m e before good = good
      scan_running-Good k prev i p (some w) l m e before good =
          scan-Good k p prev w unreached i (drop i p.stops) l m e before refl
            (λ on. absurd (on refl)) good

      scan_pattern-Good :
          (k : ℕ) (prev : List ℤ) (i : ℕ) (o : Option Pattern) (l : Labels)
          → ((p : Pattern) → o ≡ some p → Memᴰ p pats)
          → Before k prev
          → Good fl stops q anchor pats (suc k) l
          → Good fl stops q anchor pats (suc k) (scan_pattern fl stops q prev i o l)
      unfolding scan_pattern
      scan_pattern-Good k prev i none l m before good = good
      scan_pattern-Good k prev i (some p) l m before good =
          scan_running-Good k prev i p (wait fl q p) l (m p refl) refl before good

      pub scan_all-Good :
          (k : ℕ) (prev : List ℤ) (starts : List (ℕ × ℕ)) (l : Labels)
          → Before k prev
          → Good fl stops q anchor pats (suc k) l
          → Good fl stops q anchor pats (suc k) (scan_all fl stops q pats prev starts l)
      unfolding scan_all
      scan_all-Good k prev [] l before good = good
      scan_all-Good k prev ((j, i) ∷ rest) l before good =
          scan_all-Good k prev rest (scan_pattern fl stops q prev i (pattern_at pats j) l) before (
            scan_pattern-Good k prev i (pattern_at pats j) l (λ p. pattern_at-mem pats j p) before
              good)

    pub below_differs : (a : ℤ) → ltb_ℤ a unreached ≡ true → a ≢ unreached
    below_differs a h e = below (subst (λ x. ltb_ℤ x unreached ≡ true) e h)
      where
        below : ltb_ℤ unreached unreached ≡ true → ⊥
        below k = irreflexive unreached k

    -- The edges of one stop that is reached.
    relax_edges-Good :
        (k s : ℕ) (edges : List (ℕ × F)) (l : Labels)
        → ((e : ℕ) (d : F) → Memᴰ (e, d) edges → Memᴰ (e, d) (walk fl stops s))
        → ltb_ℤ (best_at l.best s) unreached ≡ true
        → Good fl stops q anchor pats k l
        → Good fl stops q anchor pats k (relax_edges fl stops q s edges l)
          × Stays fl stops q anchor pats l (relax_edges fl stops q s edges l)
    unfolding relax_edges Stays
    relax_edges-Good k s [] l m reached good = (good, λ r h. h)
    relax_edges-Good k s ((e, d) ∷ rest) l m reached good =
        let edge = m e d (head refl) in
        let t = add32 (best_at l.best s) (walk_sec fl q d) in
        let step =
          improve_limited-Good fl stops q anchor pats k e t l good (walk-range stops s e d edge)
            (transfer (good.sound s (below_differs (best_at l.best s) reached)) edge) in
        let later =
          relax_edges-Good k s rest (improve_limited fl stops q e t l) (λ x y n. m x y (tail n))
            (step.1 s reached) step.0 in
        (later.0, λ r h. later.1 r (step.1 r h))

    pub relax_walk-Good :
        (k : ℕ) (from : List ℕ) (l : Labels)
        → ((s : ℕ) → Memᴰ s from → ltb_ℤ (best_at l.best s) unreached ≡ true)
        → Good fl stops q anchor pats k l
        → Good fl stops q anchor pats k (relax_walk fl stops q from l)
    unfolding relax_walk Stays
    relax_walk-Good k [] l reached good = good
    relax_walk-Good k (s ∷ rest) l reached good =
        let step =
          relax_edges-Good k s (walk fl stops s) l (λ e d m. m) (reached s (head refl)) good in
        relax_walk-Good k rest (relax_edges fl stops q s (walk fl stops s) l)
          (λ r m. step.1 r (reached r (tail m))) step.0

    pub marked_reached :
        (k : ℕ) (l : Labels)
        → Good fl stops q anchor pats k l
        → (s : ℕ) → Memᴰ s l.marked
        → ltb_ℤ (best_at l.best s) unreached ≡ true
    marked_reached k l good s m = good.reached s (mem_marked s l.marked m)
