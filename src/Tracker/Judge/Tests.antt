-- ===== src/Tracker/Judge/Tests.antt =====
-- Runs of the state machine on a circular area of 300 m around (36, 127), and the theorems at them.
use emergency_callup.Prelude.{ℕ, arith, true, false, List, [], ◌∷◌, none, ◌≡◌, ◌≢◌, inl, refl}
use emergency_callup.Prelude.Int.{ℤ, pos, leb_ℤ, ltb_ℤ, eq_ℤ, ◌+ℤ◌, ◌-ℤ◌}
use emergency_callup.Floats.Fixed.{fixed}
use emergency_callup.Area.Geo.{signed_distance_circle, haversine, radians, in_korea}
use emergency_callup.Area.Row.{Row, Kind, signed_distance}
use emergency_callup.Incident.Model.{notified, arrived, left, Assignment}
use emergency_callup.Tracker.Judge.{
  Fix, Live, apply_fix, is_valid_fix, is_suspect, judge, judge_state, judge_arrival,
  judge_departure, start_state, starts_moving, settle_suspect, to_lat5, new_live, is_inside,
  is_away,
}
use emergency_callup.Tracker.Judge.Steps.{IsMove, KeepsJudgement, apply_fix_unjudged}
use emergency_callup.Tracker.Judge.Reached.{loading, reached_moves}
use emergency_callup.Tracker.Judge.Dwell.{
  Report, Dwelt, Departed, after, Apart, arrival-Dwelt, departure-Departed,
}
use emergency_callup.Tracker.Judge.Progress.{IsGoodInside, two_fixes_arrive}

abbrev pub station : Row ℤ
station = record {
  id = 3;
  name = "station";
  kind = Kind.circle;
  lat = pos 36000000;
  lng = pos 127000000;
  radius_m = pos 300;
  polygon = [];
  grid_size = 0;
  cells = [];
  nav_lat = pos 36000000;
  nav_lng = pos 127000000;
  bbox = record {
    south = pos 35990000;
    west = pos 126990000;
    north = pos 36010000;
    east = pos 127010000;
  };
  active = true;
  created_at = pos 0;
}

abbrev pub called : Assignment
called = record {
  incident_id = 1;
  member_id = 7;
  team_no = 2;
  mission_override = none;
  area_override_id = none;
  eff_mission = "search";
  eff_area_id = 3;
  mission_ver = 1;
  ack_ver = pos 1;
  state = notified;
  first_login_at = none;
  arrived_at = none;
  last_left_at = none;
  left_count = 0;
  last_lat5 = none;
  last_lng5 = none;
  last_acc = none;
  last_fix_at = none;
  suspect = false;
}

abbrev pub fix_at : ℤ → ℤ → Fix ℤ
fix_at lat ts = record { lat = lat; lng = pos 127000000; acc = pos 10; ts = ts }

abbrev pub idle_member : Live ℤ
idle_member = new_live fixed called

abbrev report_at : ℤ → ℕ → Report ℤ
report_at lat ts = record { fix = fix_at lat (pos ts); now = pos ts }

-- Two reports in the area, twelve seconds apart; then two outside, a minute apart. The newest first.
abbrev stay : List (Report ℤ)
stay = report_at (pos 36000000) 1012000 ∷ report_at (pos 36000000) 1000000 ∷ []

abbrev trip : List (Report ℤ)
trip = report_at (pos 37000000) 1200000 ∷ report_at (pos 37000000) 1140000 ∷ stay

arrives : (after fixed station idle_member stay).state ≡ arrived
unfolding after apply_fix is_valid_fix is_suspect judge judge_state judge_arrival judge_departure
    start_state starts_moving settle_suspect is_inside is_away signed_distance
    signed_distance_circle haversine radians leb_ℤ ltb_ℤ eq_ℤ ◌+ℤ◌ ◌-ℤ◌ to_lat5 new_live in_korea
arrives = refl

departs : (after fixed station idle_member trip).state ≡ left
unfolding after apply_fix is_valid_fix is_suspect judge judge_state judge_arrival judge_departure
    start_state starts_moving settle_suspect is_inside is_away signed_distance
    signed_distance_circle haversine radians leb_ℤ ltb_ℤ eq_ℤ ◌+ℤ◌ ◌-ℤ◌ to_lat5 new_live in_korea
departs = refl

not_arrived : notified ≢ arrived
not_arrived = λ e. cc

not_left : notified ≢ left
not_left = λ e. cc

arrival-Dwelt_example : Dwelt fixed station stay (after fixed station idle_member stay).arrived_at
arrival-Dwelt_example = arrival-Dwelt fixed station called stay not_arrived not_left arrives

departure-Departed_example :
    Departed fixed station trip (after fixed station idle_member trip).last_left_at
departure-Departed_example =
    departure-Departed fixed station called trip not_arrived not_left departs

-- The member on the way, and the next fix.
abbrev on_site : Live ℤ
on_site =
    (apply_fix fixed idle_member (fix_at (pos 36000000) (pos 1000000)) station (pos 1000000)).live

first_is_good :
    IsGoodInside fixed idle_member (fix_at (pos 36000000) (pos 1000000)) station (pos 1000000)
unfolding apply_fix is_valid_fix is_suspect judge judge_state judge_arrival judge_departure
    start_state starts_moving settle_suspect is_inside is_away signed_distance
    signed_distance_circle haversine radians leb_ℤ ltb_ℤ eq_ℤ ◌+ℤ◌ ◌-ℤ◌ to_lat5 new_live in_korea
first_is_good = (refl, refl, refl)

second_is_good :
    IsGoodInside fixed on_site (fix_at (pos 36000000) (pos 1012000)) station (pos 1012000)
unfolding apply_fix is_valid_fix is_suspect judge judge_state judge_arrival judge_departure
    start_state starts_moving settle_suspect is_inside is_away signed_distance
    signed_distance_circle haversine radians leb_ℤ ltb_ℤ eq_ℤ ◌+ℤ◌ ◌-ℤ◌ to_lat5 new_live in_korea
second_is_good = (refl, refl, refl)

starts_uncounted : idle_member.arrive_count ≡ 0
unfolding new_live
starts_uncounted = refl

starts_elsewhere : idle_member.state ≢ arrived
unfolding new_live
starts_elsewhere = λ e. cc

ten_seconds : Apart (pos 10000) (pos 1000000) (pos 1012000)
unfolding ◌+ℤ◌
ten_seconds = ground arith

two_fixes_arrive_example :
    ((apply_fix fixed on_site
        (fix_at (pos 36000000) (pos 1012000))
        station
        (pos 1012000)).live.state
      ≡ arrived)
    × ((apply_fix fixed on_site
          (fix_at (pos 36000000) (pos 1012000))
          station
          (pos 1012000)).live.arrived_at
        ≡ pos 1000000)
two_fixes_arrive_example =
    two_fixes_arrive fixed idle_member (fix_at (pos 36000000) (pos 1000000))
      (fix_at (pos 36000000) (pos 1012000)) station (pos 1000000) (pos 1012000) starts_elsewhere
      starts_uncounted first_is_good second_is_good ten_seconds

reached_moves_example :
    IsMove idle_member.state on_site.state
      (apply_fix fixed idle_member
        (fix_at (pos 36000000) (pos 1000000))
        station
        (pos 1000000)).events
reached_moves_example =
    reached_moves fixed idle_member (fix_at (pos 36000000) (pos 1000000)) station (pos 1000000)
      (loading called)

-- A fix that is ten minutes old.
is_stale : is_valid_fix (fix_at (pos 36000000) (pos 1000000)) (pos 1600000) ≡ false
unfolding is_valid_fix ltb_ℤ ◌+ℤ◌ ◌-ℤ◌
is_stale = refl

apply_fix_unjudged_example :
    KeepsJudgement idle_member
      (apply_fix fixed idle_member (fix_at (pos 36000000) (pos 1000000)) station (pos 1600000))
apply_fix_unjudged_example =
    apply_fix_unjudged fixed idle_member (fix_at (pos 36000000) (pos 1000000)) station (pos 1600000)
      (inl is_stale)
