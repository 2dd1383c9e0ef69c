-- ===== src/Tracker/Interval.antt =====
-- internal/tracker/interval.go: the report interval that the server asks for, and the load monitor.
use emergency_callup.Prelude.{
  ℕ, zero, suc, ◌+◌, ◌-◌, ◌*◌, ◌%◌, Bool, true, false, ◌&&◌, ◌||◌, List, [], ◌∷◌, leb, ltb, ◌==◌,
  length, get_or, set, take, replicate, if◌then◌else◌,
}
use emergency_callup.Prelude.Int.{ℤ, pos, negsuc, ◌-ℤ◌, ltb_ℤ, leb_ℤ}
use emergency_callup.Floats.{Floats}
use emergency_callup.Incident.Model.{State, arrived}

-- Nanoseconds.
pub record LoadMonitor : Type 0 where
  pub latencies : List ℤ
  pub next : ℕ
  pub filled : Bool
  pub req_times : List ℤ
  pub req_next : ℕ
  pub req_filled : Bool

abbrev pub latency_window_size : ℕ
latency_window_size = 200

abbrev pub req_time_window_size : ℕ
req_time_window_size = 300

-- The slots of a fresh monitor are overwritten before they are first read.
unfoldable pub new_load_monitor : LoadMonitor
new_load_monitor = record {
  latencies = replicate latency_window_size (pos 0);
  next = 0;
  filled = false;
  req_times = replicate req_time_window_size (pos 0);
  req_next = 0;
  req_filled = false;
}

unfoldable pub record_request : LoadMonitor → ℤ → ℤ → LoadMonitor
record_request m latency at =
    let next' = (m.next + 1) % latency_window_size in
    let req_next' = (m.req_next + 1) % req_time_window_size in
    record m {
      latencies = set m.latencies m.next latency;
      next = next';
      filled = m.filled || next' == 0;
      req_times = set m.req_times m.req_next at;
      req_next = req_next';
      req_filled = m.req_filled || req_next' == 0;
    }

-- The inner loop of `insertionSort`, at `j = k - 1`: v has to go to the right of the first value,
-- from the right, that is not greater.
pub shift : List ℤ → ℤ → ℕ → List ℤ
shift d v zero = set d 0 v
shift d v (suc j) =
    let moved = shift (set d (suc j) (get_or d j (pos 0))) v j in
    if ltb_ℤ v (get_or d j (pos 0)) then moved else set d (suc j) v

-- The outer loop, with the rounds left.
pub sort_from : ℕ → ℕ → List ℤ → List ℤ
unfolding shift
sort_from zero i d = d
sort_from (suc rounds) i d = sort_from rounds (i + 1) (shift d (get_or d i (pos 0)) i)

unfoldable pub insertion_sort : List ℤ → List ℤ
unfolding sort_from
insertion_sort d = sort_from (length d - 1) 1 d

-- The index is cut to the range of the list: below 0 to 0, past the end to the last.
pub percentile_index : ℕ → ℤ → ℕ
percentile_index n (negsuc k) = 0
percentile_index n (pos k) = if leb n k then n - 1 else k

-- The requests of the last second among the first `limit` slots.
pub count_recent : ℤ → List ℤ → ℕ
count_recent now [] = 0
count_recent now (at ∷ rest) =
    let later = count_recent now rest in
    if leb_ℤ (now -ℤ at) (pos 1000000000) then later + 1 else later

is_arrived : State → Bool
is_arrived arrived = true
is_arrived _ = false

module _ (fl : Floats) where
  open fl use {F, mul, neg, le, of_int, lit, max, abs, ceil_int}

  unfoldable pub next_interval : State → F → F → Bool → ℕ
  unfolding is_arrived
  next_interval state sd r_eq overloaded =
      let n =
        if is_arrived state && le sd (neg (lit 30 0))
        then 60
        else if le (abs sd) (max (mul (lit 2 0) r_eq) (lit 200 0))
        then 10
        else 15 in
      if overloaded then n * 2 else n

  -- `percentile(buf, p)`; its argument is not empty where it is called.
  pub percentile : List ℤ → F → ℤ
  percentile [] p = pos 0
  percentile (x ∷ xs) p =
      let sorted = insertion_sort (x ∷ xs) in
      get_or sorted
        (percentile_index (length sorted)
          (ceil_int (mul p (of_int (pos (length sorted)))) -ℤ pos 1))
        (pos 0)

  pub overloaded : LoadMonitor → ℤ → Bool
  overloaded m now =
      let n = if m.filled then latency_window_size else m.next in
      let slow =
        if leb 20 n
        then ltb_ℤ (pos 200000000) (percentile (take n m.latencies) (lit 95 2))
        else false in
      let limit = if m.req_filled then req_time_window_size else m.req_next in
      if slow then true else ltb 150 (count_recent now (take limit m.req_times))
