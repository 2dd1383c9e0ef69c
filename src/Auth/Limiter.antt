-- ===== src/Auth/Limiter.antt =====
-- internal/auth/ratelimit.go. Times are nanoseconds since 1970 and durations are nanoseconds; the
-- saturation of `Time.Sub` at 292 years is left out. A Go map is a function to Option.
pub mod Window
pub mod Backoff
use emergency_callup.Prelude.{
  ℕ, ◌+◌, ◌-◌, ◌*◌, ◌^◌, Bool, true, false, Option, none, some, String, str_eq, ltb, leb,
  if◌then◌else◌,
}

pub record LoginState : Type 0 where
  pub failures : ℕ
  pub last_failure : ℕ

pub record IpState : Type 0 where
  pub window_start : ℕ
  pub count : ℕ

pub record LoginLimiter : Type 0 where
  pub by_login : String → Option LoginState
  pub by_ip : String → Option IpState

unfoldable pub new_login_limiter : LoginLimiter
new_login_limiter = record { by_login = λ _. none; by_ip = λ _. none }

-- `m[key] = v`, and `delete(m, key)` where `v` is none.
unfoldable pub set_key : {V : Type 0} → String → Option V → (String → Option V) → String → Option V
set_key key v m other = if str_eq other key then v else m other

abbrev pub second : ℕ
second = 1000000000

abbrev pub minute : ℕ
minute = 60000000000

abbrev capped : ℕ → ℕ → ℕ
capped limit n = if ltb limit n then limit else n

-- Called for five failures and more, where the subtraction is exact.
unfoldable pub backoff_for : ℕ → ℕ
backoff_for failures = capped 60 (2 ^ capped 6 (failures - 4)) * second

-- Zero if `now` is `wait` or more after the last failure, else what is left of the wait.
unfoldable pub remaining : ℕ → ℕ → ℕ → ℕ
remaining last_failure wait now =
    if leb (last_failure + wait) now then 0 else (last_failure + wait) - now

unfoldable pub backoff_of : Option LoginState → ℕ → ℕ
unfolding remaining backoff_for
backoff_of none now = 0
backoff_of (some st) now =
    if ltb st.failures 5 then 0 else remaining st.last_failure (backoff_for st.failures) now

unfoldable pub login_backoff : LoginLimiter → String → ℕ → ℕ
unfolding backoff_of
login_backoff l login_id now = backoff_of (l.by_login login_id) now

failures_of : Option LoginState → ℕ
failures_of none = 0
failures_of (some st) = st.failures

unfoldable pub record_failure : LoginLimiter → String → ℕ → LoginLimiter
unfolding failures_of set_key
record_failure l login_id now = record l {
  by_login =
      set_key login_id
        (some (record { failures = failures_of (l.by_login login_id) + 1; last_failure = now }))
        l.by_login;
}

unfoldable pub record_success : LoginLimiter → String → LoginLimiter
unfolding set_key
record_success l login_id = record l { by_login = set_key login_id none l.by_login }

-- One address: its entry after the attempt, and whether the attempt is allowed.
unfoldable pub attempt : Option IpState → ℕ → IpState × Bool
attempt none now = (record { window_start = now; count = 1 }, true)
attempt (some st) now =
    if leb (st.window_start + minute) now
    then (record { window_start = now; count = 1 }, true)
    else (if leb 60 st.count then (st, false) else (record st { count = st.count + 1 }, true))

unfoldable pub allow_ip : LoginLimiter → String → ℕ → LoginLimiter × Bool
unfolding attempt set_key
allow_ip l ip now =
    let (st, allowed) = attempt (l.by_ip ip) now in
    (record l { by_ip = set_key ip (some st) l.by_ip }, allowed)
