-- ===== src/Transit/Search/Tests.antt =====
-- One line of three stops.
use mathlib.Core.List.Memᴰ.{head, tail}
use emergency_callup.Prelude.{
  ℕ, zero, suc, ◌+◌, ◌<◌, true, List, [], ◌∷◌, Option, some, get_elem?, ◌≡◌, refl, subst, arith,
}
use emergency_callup.Prelude.Int.{ℤ, pos, negsuc, ltb_ℤ, leb_ℤ}
use emergency_callup.Floats.Fixed.{fixed}
use emergency_callup.Area.Geo.{Point}
use emergency_callup.Transit.Network.{weekday, Stop, Pattern, Query, limit, unreached}
use emergency_callup.Transit.Search.{search, seconds}
use emergency_callup.Transit.Search.Sound.{InRange}
use emergency_callup.Transit.Search.Answers.{Reaches, seconds-Reaches}

abbrev point : ℕ → Point ℤ
point n = record { lat = pos (36000000 + n); lng = pos 127000000 }

abbrev stop : ℕ → Stop ℤ
stop n = record { id = ""; name = ""; p = point n; kind = "bus" }

abbrev stops : List (Stop ℤ)
stops = stop 0 ∷ stop 6000000 ∷ stop 12000000 ∷ []

abbrev line : Pattern
line = record {
  route_id = "1";
  route_no = "1";
  kind = "bus";
  first_min = negsuc 0;
  last_min = negsuc 0;
  headway = λ day. pos 10;
  stops = 0 ∷ 1 ∷ 2 ∷ [];
  run_sec = some (pos 0 ∷ pos 120 ∷ pos 180 ∷ []);
}

abbrev query : Query ℤ
query = record {
  day = weekday;
  clock_min = pos 600;
  params = record {
    walk_kmh = pos 4000000;
    bus_kmh_peak = pos 15000000;
    bus_kmh_offpeak = pos 20000000;
    wait_factor = pos 500000;
    default_headway = pos 20;
  };
  limit_sec = pos 0;
}

abbrev same : List (ℕ × ℕ) → List (ℕ × ℕ)
same l = l

abbrev labels : List ℤ
labels = search fixed stops query same (point 0) (line ∷ [])

abbrev answer : Option ℤ
answer = seconds fixed stops query (point 0) labels (point 12000000)

-- Five minutes of waiting, two and three of riding.
by_bus : seconds fixed stops query (point 0) labels (point 12000000) ≡ some (pos 600)
unfolding seconds search unreached
by_bus = refl

places_in_range : (i s : ℕ) → get_elem? line.stops i ≡ some s → s < 3
places_in_range zero s h = ground (arith, h)
places_in_range (suc zero) s h = ground (arith, h)
places_in_range (suc (suc zero)) s h = ground (arith, h)
places_in_range (suc (suc (suc i))) s h = absurd (ground (arith, h))

line_in_range : InRange fixed stops query (point 0) (line ∷ [])
line_in_range p i s (head e) h =
    places_in_range i s (subst (λ (x : Pattern). get_elem? x.stops i ≡ some s) e h)
line_in_range p i s (tail m) h = elim m [ ]

seconds-Reaches_example :
    (leb_ℤ (pos 600) (limit query) ≡ true)
    × Reaches fixed stops query (point 0) (line ∷ []) (point 12000000) (pos 600)
unfolding limit unreached ltb_ℤ
seconds-Reaches_example =
    seconds-Reaches fixed stops query (point 0) (line ∷ []) line_in_range same (point 12000000)
      (pos 600) refl by_bus
