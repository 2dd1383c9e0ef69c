-- ===== src/Auth/Limiter/Window.antt =====
-- How many attempts of one address are allowed.
use emergency_callup.Prelude.{
  ℕ, ◌+◌, ◌-◌, ◌≤◌, ◌<◌, List, [], ◌∷◌, String, Bool, ◌≡◌, refl, subst, arith, Option, none, some,
  leb, if◌then◌else◌,
}
use emergency_callup.Auth.Limiter.{LoginLimiter, IpState, attempt, allow_ip, minute}
use emergency_callup.Auth.Limiter.Backoff.{set_key_same}

-- How many of the attempts that an address makes at these times are allowed.
abbrev pub allowed : LoginLimiter → String → List ℕ → ℕ
allowed l ip [] = 0
allowed l ip (t ∷ times) =
    let (after, granted) = allow_ip l ip t in (if granted then 1 else 0) + allowed after ip times

-- All times lie within a minute from `s`.
abbrev pub Within : ℕ → List ℕ → Type 0
Within s [] = Unit
Within s (t ∷ times) = ((s ≤ t) × (t < s + minute)) × Within s times

-- What an address may still do in that minute.
budget : ℕ → Option IpState → ℕ
budget s none = 60
budget s (some st) = if leb s st.window_start then 60 - st.count else (60 - st.count) + 60

granted_of : IpState × Bool → ℕ
granted_of r = if r.1 then 1 else 0

attempt_spends :
    (s t : ℕ) (o : Option IpState)
    → s ≤ t
    → t < s + minute
    → granted_of (attempt o t) + budget s (some (attempt o t).0) ≤ budget s o
unfolding attempt budget granted_of
attempt_spends s t none lo hi = ground arith
attempt_spends s t (some st) lo hi = ground arith

attempt_of :
    (l : LoginLimiter) (ip : String) (t : ℕ) → (allow_ip l ip t).1 ≡ (attempt (l.by_ip ip) t).1
unfolding allow_ip
attempt_of l ip t = refl

entry_after :
    (l : LoginLimiter) (ip : String) (t : ℕ)
    → (allow_ip l ip t).0.by_ip ip ≡ some (attempt (l.by_ip ip) t).0
unfolding allow_ip
entry_after l ip t = set_key_same ip _ l.by_ip

allowed_le_budget :
    (l : LoginLimiter) (ip : String) (s : ℕ) (times : List ℕ)
    → Within s times
    → allowed l ip times ≤ budget s (l.by_ip ip)
unfolding granted_of
allowed_le_budget l ip s [] within = ground arith
allowed_le_budget l ip s (t ∷ times) ((lo, hi), within) =
    let later =
      subst (λ (o : Option IpState). allowed (allow_ip l ip t).0 ip times ≤ budget s o)
        (entry_after l ip t) (allowed_le_budget (allow_ip l ip t).0 ip s times within) in
    let spent = attempt_spends s t (l.by_ip ip) lo hi in
    rw (attempt_of l ip t) (ground (arith, later, spent))

budget_le_120 : (s : ℕ) (o : Option IpState) → budget s o ≤ 120
unfolding budget
budget_le_120 s none = ground arith
budget_le_120 s (some st) = ground arith

-- Whatever was recorded before, at most 120 of the attempts that an address makes within one minute
-- are allowed.
pub allowed_le_120 :
    (l : LoginLimiter) (ip : String) (s : ℕ) (times : List ℕ)
    → Within s times
    → allowed l ip times ≤ 120
allowed_le_120 l ip s times within =
    ground (arith, allowed_le_budget l ip s times within, budget_le_120 s (l.by_ip ip))
