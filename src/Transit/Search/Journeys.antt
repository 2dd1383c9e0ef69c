-- ===== src/Transit/Search/Journeys.antt =====
-- The times that the search answers are those of journeys.
use mathlib.Core.List.{Memᴰ}
use mathlib.Core.List.Memᴰ.{head, tail}
use emergency_callup.Prelude.{
  ℕ, zero, suc, ◌<◌, Bool, true, false, List, [], ◌∷◌, ◌++◌, some, ◌==◌, ==_iff, if◌then◌else◌,
  length, length-set, get_elem?, set, drop, replicate, ◌≡◌, ◌≢◌, refl, sym, ap, subst, ◌∙◌, ◌⊎◌,
  inl, inr, arith, Bool-cases, if_of_true, if_of_false,
}
use emergency_callup.Prelude.Int.{ℤ, pos, ltb_ℤ, leb_ℤ, eq_ℤ, eq_ℤ_iff}
use emergency_callup.Floats.{Floats}
use emergency_callup.Area.Geo.{Point}
use emergency_callup.Transit.Network.{
  Stop, Pattern, Query, unreached, limit, add32, near, walk, walk_sec, wait, hop,
}
use emergency_callup.Transit.Search.{
  Labels, is_marked, best_at, improve, pattern_at, improve_limited,
}

best_at-set_self : (best : List ℤ) (s : ℕ) (t : ℤ) → s < length best → best_at (set best s t) s ≡ t
unfolding best_at
best_at-set_self [] s t h = absurd (omega (arith, h))
best_at-set_self (x ∷ rest) zero t h = refl
best_at-set_self (x ∷ rest) (suc s) t h = best_at-set_self rest s t (omega (arith, h))

lt_le : (a b c : ℤ) → ltb_ℤ a b ≡ true → leb_ℤ b c ≡ true → (ltb_ℤ a c ≡ true) × (leb_ℤ a c ≡ true)
unfolding ltb_ℤ leb_ℤ
lt_le a b c h k = ground (arith, h, k)

is_marked-append :
    (r s : ℕ) (l : List ℕ)
    → (r == s) ≡ false
    → is_marked r (l ++ s ∷ []) ≡ true
    → is_marked r l ≡ true
unfolding is_marked
is_marked-append r s [] other h = ground (arith, other, h)
is_marked-append r s (x ∷ rest) other h = ground (arith, h, is_marked-append r s rest other)

marked_before :
    (r s : ℕ) (l : List ℕ)
    → (r == s) ≡ false
    → is_marked r (if is_marked s l then l else l ++ s ∷ []) ≡ true
    → is_marked r l ≡ true
marked_before r s l other h = elim (Bool-cases (is_marked s l)) [
  | inl b ↦ subst (λ x. is_marked r x ≡ true) (if_of_true l (l ++ s ∷ []) b) h
  | inr b ↦
      is_marked-append r s l other
        (subst (λ x. is_marked r x ≡ true) (if_of_false l (l ++ s ∷ []) b) h)
]

best_at-set :
    (best : List ℤ) (s : ℕ) (t : ℤ) (r : ℕ)
    → (best_at (set best s t) r ≡ best_at best r) ⊎ ((r ≡ s) × (best_at (set best s t) r ≡ t))
unfolding best_at
best_at-set [] s t r = inl refl
best_at-set (x ∷ rest) zero t zero = inr (refl, refl)
best_at-set (x ∷ rest) zero t (suc r) = inl refl
best_at-set (x ∷ rest) (suc s) t zero = inl refl
best_at-set (x ∷ rest) (suc s) t (suc r) = elim (best_at-set rest s t r) [
  | inl e ↦ inl e
  | inr (same, e) ↦ inr (ap suc same, e)
]

pub best_at-replicate : (n s : ℕ) → best_at (replicate n unreached) s ≡ unreached
unfolding best_at
best_at-replicate zero s = refl
best_at-replicate (suc n) zero = refl
best_at-replicate (suc n) (suc s) = best_at-replicate n s

pub drop-cons :
    (i : ℕ) (l : List ℕ) (s : ℕ) (rest : List ℕ)
    → s ∷ rest ≡ drop i l
    → (get_elem? l i ≡ some s) × (rest ≡ drop (suc i) l)
drop-cons zero [] s rest h = absurd (ground (arith, h))
drop-cons zero (x ∷ l) s rest h = (ground (arith, h), ground (arith, h))
drop-cons (suc i) [] s rest h = absurd (ground (arith, h))
drop-cons (suc i) (x ∷ l) s rest h = drop-cons i l s rest h

pub pattern_at-mem :
    (pats : List Pattern) (k : ℕ) (p : Pattern) → pattern_at pats k ≡ some p → Memᴰ p pats
unfolding pattern_at
pattern_at-mem [] k p h = absurd (ground (arith, h))
pattern_at-mem (x ∷ rest) zero p h = head (ground (arith, h))
pattern_at-mem (x ∷ rest) (suc k) p h = tail (pattern_at-mem rest k p h)

pub differ : (a b : ℤ) → eq_ℤ a b ≡ false → a ≢ b
differ a b h e = true_or_false (eq_ℤ a b) h ((eq_ℤ_iff a b).1 e)
  where
    true_or_false : (x : Bool) → x ≡ false → x ≡ true → ⊥
    true_or_false x f t = ground (arith, f, t)

module _ (fl : Floats) where
  open fl use {F, le, of_int}

  module _ (stops : List (Stop F)) (q : Query F) (anchor : Point F) (pats : List Pattern) where
    mutual
      -- A way from the anchor to a stop with at most a number of rides, and its seconds.
      pub data Journey : ℕ → ℕ → ℤ → Type 0 where
        on_foot :
            {s : ℕ} {d : F} (k : ℕ)
            → Memᴰ (s, d) (near fl stops anchor (of_int (pos 800)))
            → Journey k s (walk_sec fl q d)
        transfer :
            {k s e : ℕ} {t : ℤ} {d : F}
            → Journey k s t
            → Memᴰ (e, d) (walk fl stops s)
            → Journey k e (add32 t (walk_sec fl q d))
        alight :
            {k i s : ℕ} {p : Pattern} {t : ℤ}
            → Aboard k p i t
            → get_elem? p.stops i ≡ some s
            → Journey (suc k) s t

      -- On a vehicle of a running pattern, at a place of it.
      pub data Aboard : ℕ → Pattern → ℕ → ℤ → Type 0 where
        board :
            {k i s : ℕ} {p : Pattern} {t w : ℤ}
            → Journey k s t
            → Memᴰ p pats
            → wait fl q p ≡ some w
            → get_elem? p.stops i ≡ some s
            → Aboard k p i (add32 t w)
        ride :
            {k i : ℕ} {p : Pattern} {t : ℤ}
            → Aboard k p i t
            → Aboard k p (suc i) (add32 t (hop fl stops q p (suc i)))

    mutual
      pub Journey-suc : {k s : ℕ} {t : ℤ} → Journey k s t → Journey (suc k) s t
      Journey-suc (on_foot k m) = on_foot (suc k) m
      Journey-suc (transfer j m) = transfer (Journey-suc j) m
      Journey-suc (alight a h) = alight (Aboard-suc a) h

      Aboard-suc : {k i : ℕ} {p : Pattern} {t : ℤ} → Aboard k p i t → Aboard (suc k) p i t
      Aboard-suc (board j m w h) = board (Journey-suc j) m w h
      Aboard-suc (ride a) = ride (Aboard-suc a)

    -- The labels of the stops reached are times of journeys; no label is above MaxInt32; there is one for
    -- each stop; and the marked stops are reached.
    pub record Good (k : ℕ) (l : Labels) : Type 0 where
      pub sound : (s : ℕ) → best_at l.best s ≢ unreached → Journey k s (best_at l.best s)
      pub low : (s : ℕ) → leb_ℤ (best_at l.best s) unreached ≡ true
      pub long : length l.best ≡ length stops
      pub reached :
          (s : ℕ) → is_marked s l.marked ≡ true → ltb_ℤ (best_at l.best s) unreached ≡ true

    pub improve-Good :
        (k s : ℕ) (t : ℤ) (l : Labels)
        → Good k l
        → s < length stops
        → Journey k s t
        → Good k (improve s t l)
    unfolding improve
    improve-Good k s t l g there j = elim (Bool-cases (ltb_ℤ t (best_at l.best s))) [
      | inl b ↦ rw b (record {
        sound = λ r on. elim (best_at-set l.best s t r) [
          | inl e ↦ subst (Journey k r) (sym e) (g.sound r (λ u. on (e ∙ u)))
          | inr (same, e) ↦ subst (Journey k r) (sym e) (subst (λ x. Journey k x t) (sym same) j)
        ];
        low = λ r. elim (best_at-set l.best s t r) [
          | inl e ↦ rw e (g.low r)
          | inr (same, e) ↦ rw e (lt_le t (best_at l.best s) unreached b (g.low s)).1
        ];
        long = length-set l.best s t ∙ g.long;
        reached = λ r m. elim (best_at-set l.best s t r) [
          | inl e ↦ elim (Bool-cases (r == s)) [
            | inl same ↦
                rw ((==_iff r s).0 same, best_at-set_self l.best s t (omega (arith, there, g.long)))
                  (lt_le t (best_at l.best s) unreached b (g.low s)).0
            | inr other ↦ rw e (g.reached r (marked_before r s l.marked other m))
          ]
          | inr (same, e) ↦ rw e (lt_le t (best_at l.best s) unreached b (g.low s)).0
        ];
      })
      | inr b ↦ rw b g
    ]

    -- A stop that is reached stays so.
    unfoldable pub Stays : Labels → Labels → Type 0
    Stays l after =
        (s : ℕ)
        → ltb_ℤ (best_at l.best s) unreached ≡ true
        → ltb_ℤ (best_at after.best s) unreached ≡ true

    pub improve-Stays : (k s : ℕ) (t : ℤ) (l : Labels) → Good k l → Stays l (improve s t l)
    unfolding improve Stays
    improve-Stays k s t l g r h = elim (Bool-cases (ltb_ℤ t (best_at l.best s))) [
      | inl b ↦ rw b (elim (best_at-set l.best s t r) [
        | inl e ↦ rw e h
        | inr (same, e) ↦ rw e (lt_le t (best_at l.best s) unreached b (g.low s)).0
      ])
      | inr b ↦ rw b h
    ]

    pub improve_limited-Good :
        (k s : ℕ) (t : ℤ) (l : Labels)
        → Good k l
        → s < length stops
        → Journey k s t
        → Good k (improve_limited fl stops q s t l) × Stays l (improve_limited fl stops q s t l)
    unfolding improve_limited Stays
    improve_limited-Good k s t l g there j = elim (Bool-cases (leb_ℤ t (limit q))) [
      | inl b ↦ rw b (improve-Good k s t l g there j, improve-Stays k s t l g)
      | inr b ↦ rw b (g, λ r h. h)
    ]
