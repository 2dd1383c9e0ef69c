-- ===== src/Roster/Normalize/Tests.antt =====
-- Numbers and texts as they are typed.
use emergency_callup.Prelude.{ℕ, true, List, [], ◌∷◌, ◌++◌, none, some, ◌≡◌, refl, arith}
use emergency_callup.Roster.Normalize.{
  normalize_text, normalize_mobile, normalize_office_tel, normalize_team_no, team_suffix,
}
use emergency_callup.Roster.Normalize.Numbers.{decimal, normalize_team_no-decimal}

-- `1012345678`, as a sheet keeps the number.
abbrev shortened : List ℕ
shortened = 49 ∷ 48 ∷ 49 ∷ 50 ∷ 51 ∷ 52 ∷ 53 ∷ 54 ∷ 55 ∷ 56 ∷ []

abbrev mobile : List ℕ
mobile = 48 ∷ shortened

restored : normalize_mobile shortened ≡ some (mobile, true)
unfolding normalize_mobile
restored = refl

-- With a dash after the first three digits.
abbrev dashed : List ℕ
dashed = 49 ∷ 48 ∷ 45 ∷ 49 ∷ 50 ∷ 51 ∷ 52 ∷ 53 ∷ 54 ∷ 55 ∷ 56 ∷ []

read_dashed : normalize_mobile dashed ≡ some (mobile, true)
unfolding normalize_mobile
read_dashed = refl

-- Blank, tab, `a`, a control character, `b`, line feed.
abbrev typed : List ℕ
typed = 32 ∷ 9 ∷ 97 ∷ 1 ∷ 98 ∷ 10 ∷ []

abbrev kept : List ℕ
kept = 97 ∷ 98 ∷ []

cleaned : normalize_text typed 30 ≡ some kept
unfolding normalize_text
cleaned = refl

normalize_team_no-decimal_example :
    (normalize_team_no (decimal 12) ≡ some 12)
    × (normalize_team_no (decimal 12 ++ team_suffix ∷ []) ≡ some 12)
    × (normalize_team_no (48 ∷ decimal 12) ≡ some 12)
normalize_team_no-decimal_example = normalize_team_no-decimal 12 (omega arith)

too_short : normalize_office_tel (49 ∷ 50 ∷ 51 ∷ []) ≡ none
unfolding normalize_office_tel
too_short = refl
