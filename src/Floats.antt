-- ===== src/Floats.antt =====
-- Go's float64 and package math, which the repository calls and does not implement: the type, its
-- operations and its tests are a parameter of every module that computes with coordinates. No law
-- of IEEE arithmetic is assumed here; a theorem that needs one names it as a hypothesis.
pub mod Fixed
use emergency_callup.Prelude.{ℕ, Bool}
use emergency_callup.Prelude.Int.{ℤ}

pub record Floats : Type 1 where
  pub F : Type 0
  -- `x + y`, `x - y`, `x * y`, `x / y`, `-x`
  pub add : F → F → F
  pub sub : F → F → F
  pub mul : F → F → F
  pub div : F → F → F
  pub neg : F → F
  -- `x < y`, `x <= y`, `x == y`; `x > y` is `lt y x`
  pub lt : F → F → Bool
  pub le : F → F → Bool
  pub eq : F → F → Bool
  -- `float64(n)`, and the decimal literal m * 10^-e
  pub of_int : ℤ → F
  pub lit : ℕ → ℕ → F
  pub pi : F
  pub inf : F
  pub is_inf : F → Bool
  pub min : F → F → F
  pub max : F → F → F
  pub abs : F → F
  pub sqrt : F → F
  pub sin : F → F
  pub cos : F → F
  pub atan2 : F → F → F
  pub hypot : F → F → F
  -- `int64` of `math.Floor(x)`, of `math.Ceil(x)`, of `math.Round(x)`, and of x itself
  pub floor_int : F → ℤ
  pub ceil_int : F → ℤ
  pub round_int : F → ℤ
  pub trunc_int : F → ℤ
