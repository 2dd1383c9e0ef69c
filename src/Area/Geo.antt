-- ===== src/Area/Geo.antt =====
-- internal/area/geo.go: points, distances, the box of Korea, and circles.
use emergency_callup.Prelude.{Bool, ◌&&◌, ◌||◌, if◌then◌else◌, Option, none, some}
use emergency_callup.Prelude.Int.{ℤ, pos, ltb_ℤ}
use emergency_callup.Floats.{Floats}

pub record Point (F : Type 0) : Type 0 where
  pub lat : F
  pub lng : F

pub record BBox (F : Type 0) : Type 0 where
  pub south : F
  pub west : F
  pub north : F
  pub east : F

pub data AreaError : Type 0 where
  center_outside radius_range polygon_point_count polygon_out_of_korea polygon_self_cross
        polygon_too_small grid_size_invalid grid_cell_count grid_out_of_korea grid_scan_too_large :
      AreaError

module _ (fl : Floats) where
  open fl use {F, add, sub, mul, div, lt, le, of_int, lit, pi, sqrt, sin, cos, atan2}

  unfoldable pub earth_radius_m : F
  earth_radius_m = of_int (pos 6371000)

  -- `v * math.Pi / 180`
  unfoldable pub radians : F → F
  radians v = div (mul v pi) (of_int (pos 180))

  unfoldable pub haversine : Point F → Point F → F
  unfolding earth_radius_m radians
  haversine a b =
      let lat1 = radians a.lat in
      let lat2 = radians b.lat in
      let d_lat = radians (sub b.lat a.lat) in
      let d_lng = radians (sub b.lng a.lng) in
      let two = of_int (pos 2) in
      let h =
        add (mul (sin (div d_lat two)) (sin (div d_lat two)))
          (mul (mul (mul (cos lat1) (cos lat2)) (sin (div d_lng two))) (sin (div d_lng two))) in
      let c = mul two (atan2 (sqrt h) (sqrt (sub (of_int (pos 1)) h))) in mul earth_radius_m c

  unfoldable pub in_korea : Point F → Bool
  in_korea p =
      le (of_int (pos 33)) p.lat
      && le p.lat (of_int (pos 39))
      && le (of_int (pos 124)) p.lng
      && le p.lng (of_int (pos 132))

  -- `projectMeters`: the x and the y of a point around a reference latitude.
  unfoldable pub project_meters : F → Point F → F × F
  unfolding earth_radius_m radians
  project_meters ref_lat p =
      let lat_rad = radians ref_lat in
      (mul (mul (radians p.lng) earth_radius_m) (cos lat_rad), mul (radians p.lat) earth_radius_m)

  unfoldable pub validate_circle : Point F → ℤ → Option AreaError
  unfolding in_korea
  validate_circle center radius_m =
      if in_korea center
      then (if ltb_ℤ radius_m (pos 50) || ltb_ℤ (pos 5000) radius_m
          then some radius_range
          else none)
      else some center_outside

  unfoldable pub circle_bbox : Point F → ℤ → BBox F
  unfolding radians
  circle_bbox center radius_m =
      let d_lat = div (of_int radius_m) (lit 111320 0) in
      let cos_raw = cos (radians center.lat) in
      let cos_lat = if lt cos_raw (lit 1 2) then lit 1 2 else cos_raw in
      let d_lng = div (of_int radius_m) (mul (lit 111320 0) cos_lat) in
      record {
        south = sub center.lat d_lat;
        west = sub center.lng d_lng;
        north = add center.lat d_lat;
        east = add center.lng d_lng;
      }

  unfoldable pub signed_distance_circle : Point F → ℤ → Point F → F
  unfolding haversine
  signed_distance_circle center radius_m p = sub (haversine p center) (of_int radius_m)
