-- ===== src/Auth/Limiter/Backoff.antt =====
-- How long a login has to wait after its failures.
use emergency_callup.Prelude.{
  ℕ, ◌+◌, ◌-◌, ◌*◌, ◌^◌, ◌≤◌, List, [], ◌∷◌, String, str_eq, eq_iff, ◌≡◌, refl, ◌∙◌, ap, arith,
  if_of_true, length, ◌++◌, Option, none, some, Bool-cases, ◌⊎◌, inl, inr, if_of_false, true, false,
  ltb, if◌then◌else◌,
}
use emergency_callup.Auth.Limiter.{
  LoginLimiter, backoff_for, backoff_of, login_backoff, record_failure, set_key, failures_of,
  remaining, second,
}

-- The failures of one login, in order, each with its time.
abbrev pub failing : LoginLimiter → String → List ℕ → LoginLimiter
failing l login_id [] = l
failing l login_id (t ∷ times) = failing (record_failure l login_id t) login_id times

str_eq_same : (s : String) → str_eq s s ≡ true
str_eq_same s = (eq_iff s s).1 refl

pub set_key_same :
    {V : Type 0} (key : String) (v : Option V) (m : String → Option V) → set_key key v m key ≡ v
unfolding set_key
set_key_same key v m = if_of_true v (m key) (str_eq_same key)

-- The entry of a login after its failures.
entry_of :
    (l : LoginLimiter) (login_id : String) (times : List ℕ) (t : ℕ)
    → (failing l login_id (times ++ t ∷ [])).by_login login_id
      ≡ some (record {
        failures = failures_of (l.by_login login_id) + length times + 1;
        last_failure = t;
      })
unfolding record_failure failures_of
entry_of l login_id [] t = set_key_same login_id _ l.by_login ∙ ground arith
entry_of l login_id (u ∷ times) t =
    rw (entry_of (record_failure l login_id u) login_id times t, set_key_same login_id)
      (ground arith)

small_or_large : (n : ℕ) → 5 ≤ n → (n ≡ 5) ⊎ (n ≡ 6) ⊎ (n ≡ 7) ⊎ (n ≡ 8) ⊎ (n ≡ 9) ⊎ (10 ≤ n)
small_or_large n h = ground arith

-- What n failures in a row make a login wait, from the last one: nothing for four or less, else 2^(n-4)
-- seconds and 60 at most.
abbrev pub wait_after : ℕ → ℕ
wait_after n = if ltb n 5 then 0 else (if ltb n 10 then 2 ^ (n - 4) else 60) * second

capped_of_large : (n : ℕ) → 10 ≤ n → (if ltb 6 (n - 4) then 6 else n - 4) ≡ 6
capped_of_large n h = ground arith

not_below : (n : ℕ) → 10 ≤ n → ltb n 10 ≡ false
not_below n h = ground arith

wait_value : (n : ℕ) → 5 ≤ n → backoff_for n ≡ (if ltb n 10 then 2 ^ (n - 4) else 60) * second
unfolding backoff_for
wait_value n h = elim (small_or_large n h) [
  | inl e ↦ rw e refl
  | inr (inl e) ↦ rw e refl
  | inr (inr (inl e)) ↦ rw e refl
  | inr (inr (inr (inl e))) ↦ rw e refl
  | inr (inr (inr (inr (inl e)))) ↦ rw e refl
  | inr (inr (inr (inr (inr large)))) ↦
      rw (capped_of_large n large, if_of_false (2 ^ (n - 4)) 60 (not_below n large)) refl
]

remaining_lem : (t wait now : ℕ) → remaining t wait now ≡ (t + wait) - now
unfolding remaining
remaining_lem t wait now = ground arith

at_least : (n : ℕ) → ltb n 5 ≡ false → 5 ≤ n
at_least n h = ground arith

nothing_left : (t now : ℕ) → t ≤ now → 0 ≡ (t + 0) - now
nothing_left t now h = ground arith

backoff_of_entry :
    (n t now : ℕ)
    → t ≤ now
    → backoff_of (some (record { failures = n; last_failure = t })) now ≡ (t + wait_after n) - now
unfolding backoff_of
backoff_of_entry n t now later = elim (Bool-cases (ltb n 5)) [
  | inl few ↦ rw few (nothing_left t now later)
  | inr many ↦ rw (many, wait_value n (at_least n many)) (remaining_lem t _ now)
]

-- A login without an entry that then fails n times, the last time at `t`, must wait from `t` on: nothing
-- if n is four or less, else 2^(n-4) seconds and 60 at most. What is left of that at `now` is answered.
pub backoff_after_failures :
    (l : LoginLimiter) (login_id : String) (times : List ℕ) (t now : ℕ)
    → l.by_login login_id ≡ none
    → t ≤ now
    → login_backoff (failing l login_id (times ++ t ∷ [])) login_id now
      ≡ (t + wait_after (length times + 1)) - now
unfolding login_backoff failures_of
backoff_after_failures l login_id times t now fresh later =
    rw (entry_of l login_id times t, fresh)
      (backoff_of_entry (failures_of none + length times + 1) t now later
        ∙ ap (λ (n : ℕ). (t + wait_after (n + 1)) - now) (ground arith))
