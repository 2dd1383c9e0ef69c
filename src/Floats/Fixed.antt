-- ===== src/Floats/Fixed.antt =====
-- A concrete choice of `Floats` for the tests: decimal fractions of a millionth, on which sine, square
-- root and arc tangent are the identity of their first argument. No theorem depends on it.
use emergency_callup.Prelude.{ℕ, ◌+◌, ◌*◌, ◌/◌, ◌^◌, Bool, ltb, leb, ◌==◌, if◌then◌else◌}
use emergency_callup.Prelude.Int.{ℤ, pos, negsuc, pos_part, neg_part, sub_ℕ}
use emergency_callup.Floats.{Floats}

-- The sum of the parts, one of which is 0.
abbrev magnitude : ℤ → ℕ
magnitude a = pos_part a + neg_part a

abbrev sum : ℤ → ℤ → ℤ
sum a b = sub_ℕ (pos_part a + pos_part b) (neg_part a + neg_part b)

abbrev difference : ℤ → ℤ → ℤ
difference a b = sub_ℕ (pos_part a + neg_part b) (neg_part a + pos_part b)

abbrev is_below : ℤ → ℤ → Bool
is_below a b = ltb (pos_part a + neg_part b) (pos_part b + neg_part a)

abbrev pub is_at_most : ℤ → ℤ → Bool
is_at_most a b = leb (pos_part a + neg_part b) (pos_part b + neg_part a)

abbrev is_equal : ℤ → ℤ → Bool
is_equal a b = (pos_part a + neg_part b) == (pos_part b + neg_part a)

abbrev unit : ℕ
unit = 1000000

-- A magnitude with the sign of a product.
abbrev signed : ℤ → ℤ → ℕ → ℤ
signed (pos a) (pos b) n = pos n
signed (negsuc a) (negsuc b) n = pos n
signed (pos a) (negsuc b) n = sub_ℕ 0 n
signed (negsuc a) (pos b) n = sub_ℕ 0 n

abbrev pub fixed : Floats
fixed = record {
  F = ℤ;
  add = sum;
  sub = difference;
  mul = λ a b. signed a b ((magnitude a * magnitude b) / unit);
  div = λ a b. signed a b ((magnitude a * unit) / magnitude b);
  neg = λ a. difference (pos 0) a;
  lt = is_below;
  le = is_at_most;
  eq = is_equal;
  of_int = λ n. signed n (pos 1) (magnitude n * unit);
  lit = λ m e. pos ((m * unit) / (10 ^ e));
  pi = pos 3141593;
  inf = pos (10 ^ 30);
  is_inf = λ a. is_at_most (pos (10 ^ 30)) a;
  min = λ a b. if is_below b a then b else a;
  max = λ a b. if is_below a b then b else a;
  abs = λ a. pos (magnitude a);
  sqrt = λ a. a;
  sin = λ a. a;
  cos = λ a. pos 1000000;
  atan2 = λ a b. a;
  hypot = λ a b. pos (magnitude a + magnitude b);
  floor_int = λ a. signed a (pos 1) (magnitude a / unit);
  ceil_int = λ a. signed a (pos 1) (magnitude a / unit);
  round_int = λ a. signed a (pos 1) (magnitude a / unit);
  trunc_int = λ a. signed a (pos 1) (magnitude a / unit);
}
