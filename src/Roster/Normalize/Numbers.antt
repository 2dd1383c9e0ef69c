-- ===== src/Roster/Normalize/Numbers.antt =====
-- Team numbers, as they are written and as they are read.
use emergency_callup.Prelude.{
  ℕ, zero, suc, ◌+◌, ◌/◌, ◌%◌, ◌^◌, ◌<◌, Bool, true, false, not, ◌&&◌, List, [], ◌∷◌, ◌++◌, some,
  ltb, if◌then◌else◌, ◌≡◌, refl, ap, ◌∙◌, arith, Bool-cases, if_of_false, inl, inr,
}
use emergency_callup.Roster.Normalize.{
  is_digit, all_digits, is_space, trim_start, keep_before, trim_end, trim_space, is_empty,
  trim_suffix, team_suffix, atoi, read_digits, normalize_team_no,
}
use emergency_callup.Roster.Normalize.Laws.{digits_only_of_digits}

-- The decimal digits of a number, before those given; `fuel` bounds their count.
unfoldable pub digits_of : ℕ → ℕ → List ℕ → List ℕ
digits_of zero n tail = tail
digits_of (suc fuel) n tail =
    let more = digits_of fuel (n / 10) ((48 + n % 10) ∷ tail) in
    if ltb n 10 then (48 + n) ∷ tail else more

unfoldable pub decimal : ℕ → List ℕ
unfolding digits_of
decimal n = digits_of (suc n) n []

digits_of-read_digits :
    (fuel n : ℕ) (tail : List ℕ)
    → n < fuel
    → read_digits 0 (digits_of fuel n tail) ≡ read_digits n tail
unfolding digits_of read_digits
digits_of-read_digits zero n tail h = absurd (omega (arith, h))
digits_of-read_digits (suc fuel) n tail h = elim (Bool-cases (ltb n 10)) [
  | inl b ↦ rw b (ap (λ k. read_digits k tail) (omega arith))
  | inr b ↦ rw b (
      digits_of-read_digits fuel (n / 10) ((48 + n % 10) ∷ tail) (ground (arith, h, b))
      ∙ ap (λ k. read_digits k tail) (omega arith))
]

digits_of-all_digits :
    (fuel n : ℕ) (tail : List ℕ)
    → all_digits tail ≡ true
    → all_digits (digits_of fuel n tail) ≡ true
unfolding digits_of all_digits is_digit
digits_of-all_digits zero n tail h = h
digits_of-all_digits (suc fuel) n tail h = elim (Bool-cases (ltb n 10)) [
  | inl b ↦ rw b (ground (arith, h, b))
  | inr b ↦ rw b (digits_of-all_digits fuel (n / 10) ((48 + n % 10) ∷ tail) (ground (arith, h)))
]

digits_of-is_empty :
    (fuel n : ℕ) (r : ℕ) (tail : List ℕ) → is_empty (digits_of fuel n (r ∷ tail)) ≡ false
unfolding digits_of is_empty
digits_of-is_empty zero n r tail = refl
digits_of-is_empty (suc fuel) n r tail = elim (Bool-cases (ltb n 10)) [
  | inl b ↦ rw b refl
  | inr b ↦ rw b (digits_of-is_empty fuel (n / 10) (48 + n % 10) (r ∷ tail))
]

decimal-all_digits : (n : ℕ) → all_digits (decimal n) ≡ true
unfolding decimal all_digits
decimal-all_digits n = digits_of-all_digits (suc n) n [] refl

decimal-is_empty : (n : ℕ) → is_empty (decimal n) ≡ false
unfolding decimal digits_of is_empty
decimal-is_empty n = elim (Bool-cases (ltb n 10)) [
  | inl b ↦ rw b refl
  | inr b ↦ rw b (digits_of-is_empty n (n / 10) (48 + n % 10) [])
]

-- None of the code points is a space.
unfoldable pub has_no_space : List ℕ → Bool
has_no_space [] = true
has_no_space (r ∷ rest) = not (is_space r) && has_no_space rest

keep_before-spaceless : (r : ℕ) (t : List ℕ) → is_space r ≡ false → keep_before r t ≡ r ∷ t
unfolding keep_before
keep_before-spaceless r [] h = rw h refl
keep_before-spaceless r (x ∷ t) h = refl

head-spaceless : (r : ℕ) (rest : List ℕ) → has_no_space (r ∷ rest) ≡ true → is_space r ≡ false
unfolding has_no_space
head-spaceless r rest h = and_false (is_space r) (has_no_space rest) h
  where
    and_false : (a b : Bool) → (not a && b) ≡ true → a ≡ false
    and_false true b e = absurd (ground (arith, e))
    and_false false b e = refl

tail-spaceless : (r : ℕ) (rest : List ℕ) → has_no_space (r ∷ rest) ≡ true → has_no_space rest ≡ true
unfolding has_no_space
tail-spaceless r rest h = and_right (is_space r) (has_no_space rest) h
  where
    and_right : (a b : Bool) → (not a && b) ≡ true → b ≡ true
    and_right true b e = absurd (ground (arith, e))
    and_right false b e = e

trim_end-nil : trim_end [] ≡ []
unfolding trim_end
trim_end-nil = refl

trim_end-cons : (r : ℕ) (rest : List ℕ) → trim_end (r ∷ rest) ≡ keep_before r (trim_end rest)
unfolding trim_end
trim_end-cons r rest = refl

trim_end-spaceless : (s : List ℕ) → has_no_space s ≡ true → trim_end s ≡ s
trim_end-spaceless [] h = trim_end-nil
trim_end-spaceless (r ∷ rest) h =
    trim_end-cons r rest
    ∙ ap (keep_before r) (trim_end-spaceless rest (tail-spaceless r rest h))
    ∙ keep_before-spaceless r rest (head-spaceless r rest h)

trim_start-spaceless : (s : List ℕ) → has_no_space s ≡ true → trim_start s ≡ s
unfolding trim_start
trim_start-spaceless [] h = refl
trim_start-spaceless (r ∷ rest) h =
    if_of_false (trim_start rest) (r ∷ rest) (head-spaceless r rest h)

trim_space-spaceless : (s : List ℕ) → has_no_space s ≡ true → trim_space s ≡ s
unfolding trim_space
trim_space-spaceless s h = ap trim_end (trim_start-spaceless s h) ∙ trim_end-spaceless s h

digits-spaceless : (d : List ℕ) → all_digits d ≡ true → has_no_space d ≡ true
unfolding all_digits has_no_space is_digit is_space
digits-spaceless [] h = refl
digits-spaceless (r ∷ rest) h = ground (arith, h, digits-spaceless rest)

suffix-spaceless :
    (d : List ℕ) → has_no_space d ≡ true → has_no_space (d ++ team_suffix ∷ []) ≡ true
unfolding has_no_space is_space
suffix-spaceless [] h = refl
suffix-spaceless (r ∷ rest) h = ground (arith, h, suffix-spaceless rest)

trim_suffix-digits : (d : List ℕ) → all_digits d ≡ true → trim_suffix team_suffix d ≡ d
unfolding all_digits trim_suffix is_digit
trim_suffix-digits [] h = refl
trim_suffix-digits (r ∷ []) h = ground (arith, h)
trim_suffix-digits (r ∷ x ∷ rest) h =
    ap (λ t. r ∷ t) (trim_suffix-digits (x ∷ rest) (ground (arith, h)))

trim_suffix-append : (d : List ℕ) → trim_suffix team_suffix (d ++ team_suffix ∷ []) ≡ d
unfolding trim_suffix
trim_suffix-append [] = refl
trim_suffix-append (r ∷ []) = refl
trim_suffix-append (r ∷ x ∷ rest) = ap (λ t. r ∷ t) (trim_suffix-append (x ∷ rest))

-- The steps of `normalize_team_no` on digits with or without the suffix.
reads_digits :
    (raw d : List ℕ)
    → has_no_space raw ≡ true
    → trim_suffix team_suffix raw ≡ d
    → all_digits d ≡ true
    → is_empty d ≡ false
    → normalize_team_no raw ≡ atoi d
unfolding normalize_team_no
reads_digits raw d spaceless cut digits full =
    rw
      (
        trim_space-spaceless raw spaceless,
        cut,
        trim_space-spaceless d (digits-spaceless d digits),
        digits_only_of_digits d digits,
      )
      (if_of_false _ _ full)

atoi-decimal : (n : ℕ) → n < 2 ^ 63 → atoi (decimal n) ≡ some n
unfolding atoi decimal read_digits
atoi-decimal n h = rw (digits_of-read_digits (suc n) n [] (omega arith)) (ground (arith, h))

zero_digit : (d : List ℕ) → all_digits d ≡ true → all_digits (48 ∷ d) ≡ true
unfolding all_digits is_digit
zero_digit d h = h

zero_full : (d : List ℕ) → is_empty (48 ∷ d) ≡ false
unfolding is_empty
zero_full d = refl

zero_read : (d : List ℕ) → atoi (48 ∷ d) ≡ atoi d
unfolding atoi read_digits
zero_read d = refl

-- A team number of at most 63 bits is read back from its decimal digits: as they are, with the counter of
-- teams behind them, and with a zero before them.
pub normalize_team_no-decimal :
    (n : ℕ)
    → n < 2 ^ 63
    → (normalize_team_no (decimal n) ≡ some n)
      × (normalize_team_no (decimal n ++ team_suffix ∷ []) ≡ some n)
      × (normalize_team_no (48 ∷ decimal n) ≡ some n)
normalize_team_no-decimal n h =
    let d = decimal n in
    let digits = decimal-all_digits n in
    let spaceless = digits-spaceless d digits in
    (
      reads_digits d d spaceless (trim_suffix-digits d digits) digits (decimal-is_empty n)
          ∙ atoi-decimal n h,
      reads_digits (d ++ team_suffix ∷ []) d (suffix-spaceless d spaceless) (trim_suffix-append d)
            digits (decimal-is_empty n)
          ∙ atoi-decimal n h,
      zero_first d digits ∙ atoi-decimal n h,
    )
  where
    zero_first : (d : List ℕ) → all_digits d ≡ true → normalize_team_no (48 ∷ d) ≡ atoi d
    zero_first d digits =
        reads_digits (48 ∷ d) (48 ∷ d) (digits-spaceless (48 ∷ d) (zero_digit d digits))
          (trim_suffix-digits (48 ∷ d) (zero_digit d digits)) (zero_digit d digits) (zero_full d)
        ∙ zero_read d
