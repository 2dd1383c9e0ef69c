-- ===== src/Transit/Network.antt =====
-- internal/transit/network.go: the graph of routes. A list of indices that the code fills once is computed
-- from the stops where it is used. The indices of a pattern are those of stops, as `Store.Load` makes them
-- (on others the code panics, which is not modelled: a stop that is not there reads as the point 0, 0).
use emergency_callup.Prelude.{
  ℕ, suc, ◌-◌, ◌%◌, ◌^◌, ◌&&◌, ◌||◌, List, [], ◌∷◌, ◌++◌, Option, none, some, String, ltb, ◌==◌,
  if◌then◌else◌, get_or,
}
use emergency_callup.Prelude.Int.{ℤ, pos, negsuc, ◌+ℤ◌, ltb_ℤ, leb_ℤ, eq_ℤ}
use emergency_callup.Floats.{Floats}
use emergency_callup.Area.Geo.{Point, haversine}
use emergency_callup.Area.Grid.Cells.{Cell, eq_cell}
use emergency_callup.Area.Grid.{cell_of}

pub data Day : Type 0 where
  weekday saturday sunday : Day

pub record Stop (F : Type 0) : Type 0 where
  pub id : String
  pub name : String
  pub p : Point F
  pub kind : String

-- Minutes; -1 is an unknown departure, 0 an unknown headway. `run_sec` is none if it is nil.
pub record Pattern : Type 0 where
  pub route_id : String
  pub route_no : String
  pub kind : String
  pub first_min : ℤ
  pub last_min : ℤ
  pub headway : Day → ℤ
  pub stops : List ℕ
  pub run_sec : Option (List ℤ)

pub record Params (F : Type 0) : Type 0 where
  pub walk_kmh : F
  pub bus_kmh_peak : F
  pub bus_kmh_offpeak : F
  pub wait_factor : F
  pub default_headway : ℤ

pub record Query (F : Type 0) : Type 0 where
  pub day : Day
  pub clock_min : ℤ
  pub params : Params F
  pub limit_sec : ℤ

-- `int32(v)`: the low 32 bits as a signed number.
signed32 : ℕ → ℤ
signed32 w = if ltb w (2 ^ 31) then pos w else negsuc (2 ^ 32 - w - 1)

unfoldable pub int32 : ℤ → ℤ
unfolding signed32
int32 (pos n) = signed32 (n % 2 ^ 32)
int32 (negsuc n) = signed32 (2 ^ 32 - 1 - n % 2 ^ 32)

unfoldable pub add32 : ℤ → ℤ → ℤ
unfolding ◌+ℤ◌ int32
add32 a b = int32 (a +ℤ b)

-- `math.MaxInt32`.
unfoldable pub unreached : ℤ
unreached = pos (2 ^ 31 - 1)

abbrev pub max_rides : ℕ
max_rides = 4

unfoldable pub reverse : {A : Type 0} → List A → List A → List A
reverse done [] = done
reverse done (x ∷ rest) = reverse (x ∷ done) rest

-- `r.RunSec[i] = p.RunSec[m-i]`, the entry 0 left at 0.
reversed_runs : Option (List ℤ) → Option (List ℤ)
unfolding reverse
reversed_runs none = none
reversed_runs (some []) = some []
reversed_runs (some (t ∷ rest)) = some (pos 0 ∷ reverse [] rest)

-- The pattern in `Network.reversed`.
unfoldable pub reversed : Pattern → Pattern
unfolding reverse reversed_runs
reversed p = record p { stops = reverse [] p.stops; run_sec = reversed_runs p.run_sec }

-- `Query.limit`.
unfoldable pub limit : {F : Type 0} → Query F → ℤ
unfolding ltb_ℤ int32
limit q = if ltb_ℤ (pos 0) q.limit_sec then int32 q.limit_sec else pos 5400

module _ (fl : Floats) where
  open fl use {F, mul, div, le, of_int, lit, round_int}

  unfoldable pub point_at : List (Stop F) → ℕ → Point F
  point_at [] s = record { lat = of_int (pos 0); lng = of_int (pos 0) }
  point_at (x ∷ rest) s = let later = point_at rest (s - 1) in if s == 0 then x.p else later

  -- `n.buckets[c]`, the indices counted from `i`.
  unfoldable pub bucket : ℕ → Cell → List (Stop F) → List ℕ
  unfolding cell_of eq_cell
  bucket i c [] = []
  bucket i c (x ∷ rest) =
      let others = bucket (suc i) c rest in
      if eq_cell (cell_of fl 1000 x.p) c then i ∷ others else others

  unfoldable pub within : List (Stop F) → Point F → F → List ℕ → List (ℕ × F)
  unfolding point_at haversine
  within stops p radius [] = []
  within stops p radius (s ∷ rest) =
      let d = haversine fl p (point_at stops s) in
      let others = within stops p radius rest in if le d radius then (s, d) ∷ others else others

  unfoldable pub near_cells : List (Stop F) → Point F → F → List Cell → List (ℕ × F)
  unfolding within bucket
  near_cells stops p radius [] = []
  near_cells stops p radius (c ∷ rest) =
      within stops p radius (bucket 0 c stops) ++ near_cells stops p radius rest

  unfoldable pub around : Cell → List Cell
  unfolding ◌+ℤ◌
  around c =
      let at : ℤ → ℤ → Cell = λ di dj. record { i = c.i +ℤ di; j = c.j +ℤ dj } in
      let row : ℤ → List Cell = λ di. at di (negsuc 0) ∷ at di (pos 0) ∷ at di (pos 1) ∷ [] in
      row (negsuc 0) ++ row (pos 0) ++ row (pos 1)

  -- `Network.near`: the stops and distances that `fn` is called with.
  unfoldable pub near : List (Stop F) → Point F → F → List (ℕ × F)
  unfolding near_cells around cell_of
  near stops p radius = near_cells stops p radius (around (cell_of fl 1000 p))

  unfoldable pub others_of : ℕ → List (ℕ × F) → List (ℕ × F)
  others_of i [] = []
  others_of i ((j, d) ∷ rest) =
      let others = others_of i rest in if j == i then others else (j, d) ∷ others

  -- `n.walk[i]`.
  unfoldable pub walk : List (Stop F) → ℕ → List (ℕ × F)
  unfolding others_of near point_at
  walk stops i = others_of i (near stops (point_at stops i) (of_int (pos 400)))

  unfoldable pub walk_sec : Query F → F → ℤ
  unfolding int32
  walk_sec q dist_m =
      int32 (round_int (div (mul dist_m (lit 13 1)) (div q.params.walk_kmh (lit 36 1))))

  unfoldable pub bus_kmh : Query F → F
  unfolding ltb_ℤ leb_ℤ
  bus_kmh q =
      let c = q.clock_min in
      if (leb_ℤ (pos 420) c && ltb_ℤ c (pos 540)) || (leb_ℤ (pos 1020) c && ltb_ℤ c (pos 1140))
      then q.params.bus_kmh_peak
      else q.params.bus_kmh_offpeak

  -- `Query.wait`; none if the pattern is not running.
  unfoldable pub wait : Query F → Pattern → Option ℤ
  unfolding ltb_ℤ eq_ℤ int32
  wait q p =
      let first = if ltb_ℤ p.first_min (pos 0) then pos 330 else p.first_min in
      let last = if ltb_ℤ p.last_min (pos 0) then pos 1380 else p.last_min in
      let given = p.headway q.day in
      let headway = if eq_ℤ given (pos 0) then q.params.default_headway else given in
      if ltb_ℤ q.clock_min first || ltb_ℤ last q.clock_min
      then none
      else some
          (int32 (round_int (mul (mul (of_int headway) (of_int (pos 60))) q.params.wait_factor)))

  stored_run : Option (List ℤ) → ℕ → ℤ
  stored_run none i = pos 0
  stored_run (some runs) i = get_or runs i (pos 0)

  -- `Query.hop`: to the stop at place `i` of a pattern.
  unfoldable pub hop : List (Stop F) → Query F → Pattern → ℕ → ℤ
  unfolding stored_run point_at bus_kmh add32 int32 ltb_ℤ haversine
  hop stops q p i =
      let run = stored_run p.run_sec i in
      let from = point_at stops (get_or p.stops (i - 1) 0) in
      let to = point_at stops (get_or p.stops i 0) in
      let d = mul (haversine fl from to) (lit 13 1) in
      if ltb_ℤ (pos 0) run
      then int32 run
      else add32 (int32 (round_int (div d (div (bus_kmh q) (lit 36 1))))) (pos 20)
