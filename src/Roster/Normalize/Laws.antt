-- ===== src/Roster/Normalize/Laws.antt =====
-- What the normal forms are.
use emergency_callup.Prelude.{
  ℕ, ◌≤◌, Bool, true, false, not, ◌&&◌, List, [], ◌∷◌, some, ltb, ◌==◌, length, ◌≡◌, refl, sym, ap,
  subst, ◌∙◌, inl, inr, arith, Bool-cases, if_of_true, if_of_false,
}
use emergency_callup.Roster.Normalize.{
  digits_only, all_digits, starts_with, is_valid_mobile, validated, normalize_mobile, is_space,
  trim_start, keep_before, trim_end, trim_space, is_break, is_control, strip_control_chars,
  normalize_text,
}

pub digits_only_of_digits : (d : List ℕ) → all_digits d ≡ true → digits_only d ≡ d
unfolding all_digits digits_only
digits_only_of_digits [] h = refl
digits_only_of_digits (r ∷ rest) h = ground (arith, h, digits_only_of_digits rest)

validated-valid :
    (d e : List ℕ) (w v : Bool)
    → validated d w ≡ some (e, v)
    → (e ≡ d) × (v ≡ w) × (is_valid_mobile e ≡ true)
unfolding validated
validated-valid d e w v h = ground (arith, h)

valid_digits : (d : List ℕ) → is_valid_mobile d ≡ true → (length d ≡ 11) × (all_digits d ≡ true)
unfolding is_valid_mobile
valid_digits d h = ground (arith, h)

normalize_mobile_valid :
    (raw d : List ℕ) (w : Bool) → normalize_mobile raw ≡ some (d, w) → is_valid_mobile d ≡ true
unfolding normalize_mobile
normalize_mobile_valid raw d w h =
    elim (Bool-cases (length (digits_only raw) == 10 && starts_with 49 48 (digits_only raw))) [
      | inl b ↦ (validated-valid (48 ∷ digits_only raw) d true w (sym (if_of_true _ _ b) ∙ h)).2
      | inr b ↦ (validated-valid (digits_only raw) d false w (sym (if_of_false _ _ b) ∙ h)).2
    ]

-- A valid number is its own normal form, also if other characters stand between its digits.
of_valid :
    (raw d : List ℕ)
    → digits_only raw ≡ d
    → is_valid_mobile d ≡ true
    → normalize_mobile raw ≡ some (d, false)
unfolding normalize_mobile validated
of_valid raw d e valid = rw (e, valid) (ground (arith, (valid_digits d valid).0))

-- A number whose leading zero is missing.
of_shortened :
    (raw rest : List ℕ)
    → digits_only raw ≡ 49 ∷ 48 ∷ rest
    → is_valid_mobile (48 ∷ 49 ∷ 48 ∷ rest) ≡ true
    → normalize_mobile raw ≡ some (48 ∷ 49 ∷ 48 ∷ rest, true)
unfolding normalize_mobile validated starts_with
of_shortened raw rest e valid =
    rw (e, valid) (ground (arith, (valid_digits (48 ∷ 49 ∷ 48 ∷ rest) valid).0))

-- What is stored for a mobile number is `01` and nine more digits, and normalising it again gives it
-- without a warning.
pub normalize_mobile_again :
    (raw d : List ℕ) (warned : Bool)
    → normalize_mobile raw ≡ some (d, warned)
    → (is_valid_mobile d ≡ true) × (normalize_mobile d ≡ some (d, false))
normalize_mobile_again raw d warned h =
    let valid = normalize_mobile_valid raw d warned h in
    (valid, of_valid d d (digits_only_of_digits d (valid_digits d valid).1) valid)

-- A valid number is read back from any text whose digits are its own, without a warning; and, if it
-- starts with `010`, from any text whose digits are its own less the leading zero, with a warning.
pub normalize_mobile-reads :
    (raw d rest : List ℕ)
    → is_valid_mobile d ≡ true
    → (digits_only raw ≡ d → normalize_mobile raw ≡ some (d, false))
      × (d ≡ 48 ∷ 49 ∷ 48 ∷ rest
          → digits_only raw ≡ 49 ∷ 48 ∷ rest
          → normalize_mobile raw ≡ some (d, true))
normalize_mobile-reads raw d rest valid = (
  λ e. of_valid raw d e valid,
  λ same e.
      subst (λ x. normalize_mobile raw ≡ some (x, true)) (sym same)
        (of_shortened raw rest e (subst (λ x. is_valid_mobile x ≡ true) same valid)),
)

-- No control characters are left.
unfoldable pub is_clean : List ℕ → Bool
is_clean [] = true
is_clean (r ∷ rest) = not (is_break r) && not (is_control r) && is_clean rest

strip-is_clean : (s : List ℕ) → is_clean (strip_control_chars s) ≡ true
unfolding is_clean strip_control_chars is_break is_control
strip-is_clean [] = refl
strip-is_clean (r ∷ rest) = ground (arith, strip-is_clean rest)

strip_of_clean : (s : List ℕ) → is_clean s ≡ true → strip_control_chars s ≡ s
unfolding is_clean strip_control_chars
strip_of_clean [] h = refl
strip_of_clean (r ∷ rest) h = ground (arith, h, strip_of_clean rest)

trim_start-is_clean : (s : List ℕ) → is_clean s ≡ true → is_clean (trim_start s) ≡ true
unfolding is_clean trim_start
trim_start-is_clean [] h = refl
trim_start-is_clean (r ∷ rest) h = elim (Bool-cases (is_space r)) [
  | inl b ↦ rw b (trim_start-is_clean rest (ground (arith, h)))
  | inr b ↦ rw b h
]

keep_before-is_clean :
    (r : ℕ) (t : List ℕ)
    → is_clean (r ∷ []) ≡ true
    → is_clean t ≡ true
    → is_clean (keep_before r t) ≡ true
unfolding is_clean keep_before
keep_before-is_clean r [] h k = ground (arith, h)
keep_before-is_clean r (x ∷ t) h k = ground (arith, h, k)

trim_end-is_clean : (s : List ℕ) → is_clean s ≡ true → is_clean (trim_end s) ≡ true
unfolding is_clean trim_end
trim_end-is_clean [] h = refl
trim_end-is_clean (r ∷ rest) h =
    keep_before-is_clean r (trim_end rest) (ground (arith, h))
      (trim_end-is_clean rest (ground (arith, h)))

keep_before_again :
    (r : ℕ) (t : List ℕ) → trim_end t ≡ t → trim_end (keep_before r t) ≡ keep_before r t
unfolding trim_end keep_before
keep_before_again r [] h = elim (Bool-cases (is_space r)) [
  | inl b ↦ rw b refl
  | inr b ↦ rw b (rw b refl)
]
keep_before_again r (x ∷ t) h = ap (keep_before r) h

trim_end_again : (s : List ℕ) → trim_end (trim_end s) ≡ trim_end s
unfolding trim_end
trim_end_again [] = refl
trim_end_again (r ∷ rest) = keep_before_again r (trim_end rest) (trim_end_again rest)

keep_before_starts :
    (r : ℕ) (t : List ℕ) → is_space r ≡ false → trim_start (keep_before r t) ≡ keep_before r t
unfolding trim_start keep_before
keep_before_starts r [] h = rw h (rw h refl)
keep_before_starts r (x ∷ t) h = rw h refl

trim_space_starts : (s : List ℕ) → trim_start (trim_end (trim_start s)) ≡ trim_end (trim_start s)
unfolding trim_start trim_end
trim_space_starts [] = refl
trim_space_starts (r ∷ rest) = elim (Bool-cases (is_space r)) [
  | inl b ↦ rw b (trim_space_starts rest)
  | inr b ↦ rw b (keep_before_starts r (trim_end rest) b)
]

trim_space_again : (s : List ℕ) → trim_space (trim_space s) ≡ trim_space s
unfolding trim_space
trim_space_again s = ap trim_end (trim_space_starts s) ∙ trim_end_again (trim_start s)

-- What is stored for a text has at most the length allowed and no control characters, and normalising
-- it again under the same limit gives it back.
pub normalize_text_again :
    (raw : List ℕ) (max_len : ℕ) (s : List ℕ)
    → normalize_text raw max_len ≡ some s
    → (length s ≤ max_len) × (is_clean s ≡ true) × (normalize_text s max_len ≡ some s)
unfolding normalize_text
normalize_text_again raw max_len s h =
    let t = trim_space (strip_control_chars raw) in
    elim (Bool-cases (ltb max_len (length t))) [
      | inl b ↦ absurd (ground (arith, h, b))
      | inr b ↦
          let same : t ≡ s = ground (arith, h, b) in
          let clean : is_clean t ≡ true =
            trim_end-is_clean _
              (trim_start-is_clean (strip_control_chars raw) (strip-is_clean raw)) in
          let again : trim_space (strip_control_chars t) ≡ t =
            ap trim_space (strip_of_clean t clean) ∙ trim_space_again (strip_control_chars raw) in
          subst
            (λ x. (length x ≤ max_len) × (is_clean x ≡ true) × (normalize_text x max_len ≡ some x))
            same (ground (arith, b), clean, rw again (if_of_false _ _ b))
    ]
