-- ===== src/Transit/Search.antt =====
-- internal/transit/network.go: the search in rounds, and the travel times it answers. Go ranges over the map
-- of the patterns to scan in an unspecified order, so the order is a parameter.
pub mod Journeys
pub mod Sound
pub mod Answers
mod Tests
use emergency_callup.Prelude.{
  ℕ, zero, suc, ◌+◌, Bool, true, false, ◌&&◌, ◌||◌, not, List, [], ◌∷◌, ◌++◌, Option, none, some,
  ltb, ◌==◌, if◌then◌else◌, length, get_or, set, drop, replicate, map,
}
use emergency_callup.Prelude.Int.{ℤ, pos, ltb_ℤ, leb_ℤ, eq_ℤ}
use emergency_callup.Floats.{Floats}
use emergency_callup.Area.Geo.{Point, haversine}
use emergency_callup.Transit.Network.{
  Stop, Pattern, Query, unreached, max_rides, reversed, limit, add32, near, walk, walk_sec, wait,
  hop,
}

-- `best`, and `list`, whose members are the stops that are marked.
pub record Labels : Type 0 where
  pub best : List ℤ
  pub marked : List ℕ

unfoldable pub is_marked : ℕ → List ℕ → Bool
is_marked s [] = false
is_marked s (x ∷ rest) = x == s || is_marked s rest

unfoldable pub best_at : List ℤ → ℕ → ℤ
best_at best s = get_or best s unreached

-- `if t < best[s] { best[s] = t; mark(s) }`
unfoldable pub improve : ℕ → ℤ → Labels → Labels
unfolding is_marked best_at ltb_ℤ
improve s t l =
    if ltb_ℤ t (best_at l.best s)
    then record {
      best = set l.best s t;
      marked = if is_marked s l.marked then l.marked else l.marked ++ s ∷ [];
    }
    else l

-- The map `start`: a pattern and the first marked place in it.
unfoldable pub enter : ℕ → ℕ → List (ℕ × ℕ) → List (ℕ × ℕ)
enter k i [] = (k, i) ∷ []
enter k i ((j, first) ∷ rest) =
    if j == k then (k, if ltb i first then i else first) ∷ rest else (j, first) ∷ enter k i rest

-- The places of a stop in a pattern, from the place `i`, of the pattern `k` (`at[s]`).
enter_places : ℕ → ℕ → ℕ → List ℕ → List (ℕ × ℕ) → List (ℕ × ℕ)
unfolding enter
enter_places s k i [] starts = starts
enter_places s k i (x ∷ rest) starts =
    enter_places s k (suc i) rest (if x == s then enter k i starts else starts)

enter_patterns : ℕ → ℕ → List Pattern → List (ℕ × ℕ) → List (ℕ × ℕ)
unfolding enter_places
enter_patterns s k [] starts = starts
enter_patterns s k (p ∷ rest) starts =
    enter_patterns s (suc k) rest (enter_places s k 0 p.stops starts)

unfoldable pub starts_of : List Pattern → List ℕ → List (ℕ × ℕ) → List (ℕ × ℕ)
unfolding enter_patterns
starts_of pats [] starts = starts
starts_of pats (s ∷ rest) starts = starts_of pats rest (enter_patterns s 0 pats starts)

unfoldable pub pattern_at : List Pattern → ℕ → Option Pattern
pattern_at [] k = none
pattern_at (p ∷ rest) zero = some p
pattern_at (p ∷ rest) (suc k) = pattern_at rest k

unfoldable pub has_marks : List ℕ → Bool
has_marks [] = false
has_marks (s ∷ rest) = true

module _ (fl : Floats) where
  open fl use {F, le, of_int}

  module _ (stops : List (Stop F)) (q : Query F) where
    -- The calls of the function that `near` is given, at the start.
    unfoldable pub access : List (ℕ × F) → Labels → Labels
    unfolding improve walk_sec
    access [] l = l
    access ((s, d) ∷ rest) l = access rest (improve s (walk_sec fl q d) l)

    unfoldable pub improve_limited : ℕ → ℤ → Labels → Labels
    unfolding improve limit leb_ℤ
    improve_limited s t l = if leb_ℤ t (limit q) then improve s t l else l

    unfoldable pub relax_edges : ℕ → List (ℕ × F) → Labels → Labels
    unfolding improve_limited walk_sec best_at add32
    relax_edges s [] l = l
    relax_edges s ((e, d) ∷ rest) l =
        relax_edges s rest (improve_limited e (add32 (best_at l.best s) (walk_sec fl q d)) l)

    -- `Network.relaxWalk`.
    unfoldable pub relax_walk : List ℕ → Labels → Labels
    unfolding relax_edges walk
    relax_walk [] l = l
    relax_walk (s ∷ rest) l = relax_walk rest (relax_edges s (walk fl stops s) l)

    -- `ride` after the hop to the place `i`, and after boarding there.
    unfoldable pub ridden : Pattern → ℕ → ℤ → ℤ
    unfolding add32 hop eq_ℤ
    ridden p i ride = if eq_ℤ ride unreached then ride else add32 ride (hop fl stops q p i)

    unfoldable pub boarded : List ℤ → ℤ → ℕ → ℤ → ℤ
    unfolding add32 best_at eq_ℤ ltb_ℤ
    boarded prev w s ride =
        if not (eq_ℤ (best_at prev s) unreached) && ltb_ℤ (add32 (best_at prev s) w) ride
        then add32 (best_at prev s) w
        else ride

    -- The loop over the places of a pattern from `i`, at which the stops `places` are.
    unfoldable pub scan : Pattern → List ℤ → ℤ → ℤ → ℕ → List ℕ → Labels → Labels
    unfolding ridden boarded improve_limited eq_ℤ
    scan p prev w ride i [] l = l
    scan p prev w ride i (s ∷ places) l =
        let here = ridden p i ride in
        scan p prev w (boarded prev w s here) (suc i) places
          (if eq_ℤ ride unreached then l else improve_limited s here l)

    unfoldable pub scan_running : List ℤ → ℕ → Pattern → Option ℤ → Labels → Labels
    unfolding scan
    scan_running prev i p none l = l
    scan_running prev i p (some w) l = scan p prev w unreached i (drop i p.stops) l

    unfoldable pub scan_pattern : List ℤ → ℕ → Option Pattern → Labels → Labels
    unfolding scan_running wait
    scan_pattern prev i none l = l
    scan_pattern prev i (some p) l = scan_running prev i p (wait fl q p) l

    -- The range over `start`.
    unfoldable pub scan_all : List Pattern → List ℤ → List (ℕ × ℕ) → Labels → Labels
    unfolding scan_pattern pattern_at
    scan_all pats prev [] l = l
    scan_all pats prev ((k, i) ∷ rest) l =
        scan_all pats prev rest (scan_pattern prev i (pattern_at pats k) l)

    unfoldable pub one_round : (List (ℕ × ℕ) → List (ℕ × ℕ)) → List Pattern → Labels → Labels
    unfolding scan_all starts_of relax_walk
    one_round order pats l =
        let after =
          scan_all pats l.best (order (starts_of pats l.marked []))
            (record { best = l.best; marked = [] }) in
        relax_walk after.marked after

    unfoldable pub rounds : ℕ → (List (ℕ × ℕ) → List (ℕ × ℕ)) → List Pattern → Labels → Labels
    unfolding one_round has_marks
    rounds zero order pats l = l
    rounds (suc n) order pats l =
        let more = rounds n order pats (one_round order pats l) in
        if has_marks l.marked then more else l

    unfoldable pub first_labels : Point F → Labels
    unfolding access near relax_walk
    first_labels anchor =
        let l =
          access (near fl stops anchor (of_int (pos 800)))
            (record { best = replicate (length stops) unreached; marked = [] }) in
        relax_walk l.marked l

    -- `Network.search`.
    unfoldable pub search : (List (ℕ × ℕ) → List (ℕ × ℕ)) → Point F → List Pattern → List ℤ
    unfolding first_labels rounds
    search order anchor pats = (rounds max_rides order pats (first_labels anchor)).best

    -- `Network.From` and `Network.To`.
    unfoldable pub search_from : (List (ℕ × ℕ) → List (ℕ × ℕ)) → Point F → List Pattern → List ℤ
    unfolding search
    search_from order origin patterns = search order origin patterns

    unfoldable pub search_to : (List (ℕ × ℕ) → List (ℕ × ℕ)) → Point F → List Pattern → List ℤ
    unfolding search reversed
    search_to order target patterns = search order target (map reversed patterns)

    -- The calls of the function that `near` is given, at the end.
    unfoldable pub walked : List ℤ → List (ℕ × F) → ℤ → ℤ
    unfolding best_at add32 walk_sec eq_ℤ ltb_ℤ
    walked sec [] t = t
    walked sec ((s, d) ∷ rest) t =
        let v = add32 (best_at sec s) (walk_sec fl q d) in
        walked sec rest (if not (eq_ℤ (best_at sec s) unreached) && ltb_ℤ v t then v else t)

    -- `Result.Seconds`; none is -1.
    unfoldable pub seconds : Point F → List ℤ → Point F → Option ℤ
    unfolding walked near haversine walk_sec limit ltb_ℤ
    seconds anchor sec p =
        let d = haversine fl anchor p in
        let afoot = if le d (of_int (pos 4000)) then walk_sec fl q d else unreached in
        let t = walked sec (near fl stops p (of_int (pos 800))) afoot in
        if ltb_ℤ (limit q) t then none else some t
