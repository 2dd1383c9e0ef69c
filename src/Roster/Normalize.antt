-- ===== src/Roster/Normalize.antt =====
-- internal/roster/normalize.go: what is typed or imported, brought to the form that is stored. A string is
-- the list of its code points (a loop over a Go string gives these).
pub mod Laws
pub mod Numbers
mod Tests
use emergency_callup.Prelude.{
  ℕ, ◌+◌, ◌-◌, ◌*◌, ◌^◌, Bool, true, false, ◌&&◌, ◌||◌, List, [], ◌∷◌, Option, none, some, ltb, leb,
  ◌==◌, if◌then◌else◌, length,
}

-- `r >= '0' && r <= '9'`
unfoldable pub is_digit : ℕ → Bool
is_digit r = leb 48 r && leb r 57

unfoldable pub digits_only : List ℕ → List ℕ
unfolding is_digit
digits_only [] = []
digits_only (r ∷ rest) = let digits = digits_only rest in if is_digit r then r ∷ digits else digits

unfoldable pub all_digits : List ℕ → Bool
unfolding is_digit
all_digits [] = true
all_digits (r ∷ rest) = is_digit r && all_digits rest

-- A string begins with the two code points.
unfoldable pub starts_with : ℕ → ℕ → List ℕ → Bool
starts_with a b (x ∷ y ∷ rest) = x == a && y == b
starts_with a b _ = false

-- `01` and nine more digits.
unfoldable pub is_valid_mobile : List ℕ → Bool
unfolding starts_with all_digits
is_valid_mobile d = length d == 11 && starts_with 48 49 d && all_digits d

unfoldable pub validated : List ℕ → Bool → Option (List ℕ × Bool)
unfolding is_valid_mobile
validated d warned = if is_valid_mobile d then some (d, warned) else none

-- `none` is ErrMobileInvalid.
unfoldable pub normalize_mobile : List ℕ → Option (List ℕ × Bool)
unfolding digits_only starts_with validated
normalize_mobile raw =
    let d = digits_only raw in
    if length d == 10 && starts_with 49 48 d then validated (48 ∷ d) true else validated d false

-- `unicode.IsSpace`.
unfoldable pub is_space : ℕ → Bool
is_space r =
    (leb 9 r && leb r 13)
    || r == 32
    || r == 0x85
    || r == 0xa0
    || r == 0x1680
    || (leb 0x2000 r && leb r 0x200a)
    || r == 0x2028
    || r == 0x2029
    || r == 0x202f
    || r == 0x205f
    || r == 0x3000

unfoldable pub trim_start : List ℕ → List ℕ
unfolding is_space
trim_start [] = []
trim_start (r ∷ rest) = let trimmed = trim_start rest in if is_space r then trimmed else r ∷ rest

-- `x` in front of the rest, unless nothing is left after trimming it.
unfoldable pub keep_before : ℕ → List ℕ → List ℕ
unfolding is_space
keep_before r [] = if is_space r then [] else r ∷ []
keep_before r (x ∷ rest) = r ∷ x ∷ rest

unfoldable pub trim_end : List ℕ → List ℕ
unfolding keep_before
trim_end [] = []
trim_end (r ∷ rest) = keep_before r (trim_end rest)

-- `strings.TrimSpace`.
unfoldable pub trim_space : List ℕ → List ℕ
unfolding trim_start trim_end
trim_space s = trim_end (trim_start s)

unfoldable pub is_empty : List ℕ → Bool
is_empty [] = true
is_empty (r ∷ rest) = false

-- `none` is ErrOfficeTelLength.
unfoldable pub normalize_office_tel : List ℕ → Option (List ℕ)
unfolding trim_space is_empty digits_only
normalize_office_tel raw =
    if is_empty (trim_space raw)
    then some []
    else let d = digits_only raw in if length d == 4 then some d else none

-- The code point of the counter of teams.
abbrev pub team_suffix : ℕ
team_suffix = 0xc870

-- `strings.TrimSuffix` of one code point.
unfoldable pub trim_suffix : ℕ → List ℕ → List ℕ
trim_suffix suffix [] = []
trim_suffix suffix (r ∷ []) = if r == suffix then [] else r ∷ []
trim_suffix suffix (r ∷ x ∷ rest) = r ∷ trim_suffix suffix (x ∷ rest)

-- The number that digits are read as, after one that stands before them.
unfoldable pub read_digits : ℕ → List ℕ → ℕ
read_digits n [] = n
read_digits n (r ∷ rest) = read_digits (n * 10 + (r - 48)) rest

-- `strconv.Atoi` of digits: `none` is the error on a number that is no int64.
unfoldable pub atoi : List ℕ → Option ℕ
unfolding read_digits
atoi d = let n = read_digits 0 d in if ltb n (2 ^ 63) then some n else none

-- `none` is ErrTeamNoInvalid.
unfoldable pub normalize_team_no : List ℕ → Option ℕ
unfolding trim_space trim_suffix digits_only is_empty atoi
normalize_team_no raw =
    let d = digits_only (trim_space (trim_suffix team_suffix (trim_space raw))) in
    if is_empty d then none else atoi d

-- Tab, line feed and carriage return.
unfoldable pub is_break : ℕ → Bool
is_break r = r == 9 || r == 10 || r == 13

-- `r < 0x20 || (r >= 0x7f && r <= 0x9f)`
unfoldable pub is_control : ℕ → Bool
is_control r = ltb r 0x20 || (leb 0x7f r && leb r 0x9f)

unfoldable pub strip_control_chars : List ℕ → List ℕ
unfolding is_break is_control
strip_control_chars [] = []
strip_control_chars (r ∷ rest) =
    let stripped = strip_control_chars rest in
    if is_break r then 32 ∷ stripped else if is_control r then stripped else r ∷ stripped

-- `none` is the error of a text that is too long.
unfoldable pub normalize_text : List ℕ → ℕ → Option (List ℕ)
unfolding trim_space strip_control_chars
normalize_text raw max_len =
    let s = trim_space (strip_control_chars raw) in if ltb max_len (length s) then none else some s
