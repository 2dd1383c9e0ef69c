-- ===== src/Area/Polygon.antt =====
-- internal/area/geo.go: polygons. A loop over `poly[i]`, `poly[(i+1)%n]` runs over `edges`.
use emergency_callup.Prelude.{
  ℕ, ◌+◌, ◌%◌, Bool, true, false, not, ◌&&◌, ◌||◌, List, [], ◌∷◌, Option, none, some, length, ltb,
  ◌==◌, if◌then◌else◌,
}
use emergency_callup.Prelude.Int.{pos}
use emergency_callup.Floats.{Floats}
use emergency_callup.Area.Geo.{
  Point, BBox, AreaError, polygon_point_count, polygon_out_of_korea, polygon_self_cross,
  polygon_too_small, in_korea, project_meters, haversine,
}

module _ {ℓ} {A : Type ℓ} where
  edges_from : A → List A → List (A × A)
  edges_from first [] = []
  edges_from first (a ∷ []) = (a, first) ∷ []
  edges_from first (a ∷ b ∷ rest) = (a, b) ∷ edges_from first (b ∷ rest)

  -- The pairs `(poly[i], poly[(i+1)%n])` for `i` from 0 to `n - 1`.
  unfoldable pub edges : List A → List (A × A)
  unfolding edges_from
  edges [] = []
  edges (a ∷ rest) = edges_from a (a ∷ rest)

  unfoldable pub last_or : A → List A → A
  last_or d [] = d
  last_or d (a ∷ rest) = last_or a rest

-- The `==` of two Booleans is negated by `!=`.
abbrev xor_bool : Bool → Bool → Bool
xor_bool true b = not b
xor_bool false b = b

module _ (fl : Floats) where
  open fl use {F, add, sub, mul, div, neg, lt, le, eq, of_int, lit, inf, min, max, abs, hypot}

  sum_lat : F → List (Point F) → F
  sum_lat acc [] = acc
  sum_lat acc (p ∷ rest) = sum_lat (add acc p.lat) rest

  sum_lng : F → List (Point F) → F
  sum_lng acc [] = acc
  sum_lng acc (p ∷ rest) = sum_lng (add acc p.lng) rest

  mean_lat : List (Point F) → F
  unfolding sum_lat
  mean_lat poly = div (sum_lat (of_int (pos 0)) poly) (of_int (pos (length poly)))

  unfoldable pub centroid : List (Point F) → Point F
  unfolding sum_lat sum_lng
  centroid poly =
      let n = of_int (pos (length poly)) in
      record {
        lat = div (sum_lat (of_int (pos 0)) poly) n;
        lng = div (sum_lng (of_int (pos 0)) poly) n;
      }

  shoelace : F → F → List (Point F × Point F) → F
  unfolding project_meters
  shoelace ref_lat sum [] = sum
  shoelace ref_lat sum ((p, q) ∷ rest) =
      let (x1, y1) = project_meters fl ref_lat p in
      let (x2, y2) = project_meters fl ref_lat q in
      shoelace ref_lat (add sum (sub (mul x1 y2) (mul x2 y1))) rest

  unfoldable pub polygon_area_m2 : List (Point F) → F
  unfolding shoelace mean_lat edges
  polygon_area_m2 poly =
      div (shoelace (mean_lat poly) (of_int (pos 0)) (edges poly)) (of_int (pos 2))

  -- One edge of the ray cast, from `pj` to `pi`.
  toggles : Point F → Point F → Point F → Bool
  toggles p pj pi =
      if xor_bool (lt p.lng pi.lng) (lt p.lng pj.lng)
      then (let lat_at_p =
            add pi.lat (mul (div (sub p.lng pi.lng) (sub pj.lng pi.lng)) (sub pj.lat pi.lat)) in
          lt p.lat lat_at_p)
      else false

  cast_ray : Point F → Bool → Point F → List (Point F) → Bool
  unfolding toggles
  cast_ray p inside pj [] = inside
  cast_ray p inside pj (pi ∷ rest) =
      cast_ray p (if toggles p pj pi then not inside else inside) pi rest

  unfoldable pub point_in_polygon : Point F → List (Point F) → Bool
  unfolding cast_ray last_or
  point_in_polygon p [] = false
  point_in_polygon p (a ∷ rest) = cast_ray p false (last_or a rest) (a ∷ rest)

  widen : BBox F → List (Point F) → BBox F
  widen b [] = b
  widen b (p ∷ rest) =
      widen
        (record {
          south = min b.south p.lat;
          west = min b.west p.lng;
          north = max b.north p.lat;
          east = max b.east p.lng;
        })
        rest

  -- `poly[0]` panics on no points: every caller has validated the polygon. `none` is the panic.
  unfoldable pub polygon_bbox : List (Point F) → Option (BBox F)
  unfolding widen
  polygon_bbox [] = none
  polygon_bbox (p ∷ rest) =
      some (widen (record { south = p.lat; west = p.lng; north = p.lat; east = p.lng }) rest)

  unfoldable pub dist_point_to_segment : F → F → F → F → F → F → F
  dist_point_to_segment px py ax ay bx by =
      let dx = sub bx ax in
      let dy = sub by ay in
      let len_sq = add (mul dx dx) (mul dy dy) in
      if eq len_sq (of_int (pos 0))
      then hypot (sub px ax) (sub py ay)
      else (let t_raw = div (add (mul (sub px ax) dx) (mul (sub py ay) dy)) len_sq in
          let t =
            if lt t_raw (of_int (pos 0))
            then of_int (pos 0)
            else if lt (of_int (pos 1)) t_raw
            then of_int (pos 1)
            else t_raw in
          hypot (sub px (add ax (mul t dx))) (sub py (add ay (mul t dy))))

  nearest_edge : F → F → F → F → List (Point F × Point F) → F
  unfolding project_meters dist_point_to_segment
  nearest_edge ref_lat px py min_dist [] = min_dist
  nearest_edge ref_lat px py min_dist ((a, b) ∷ rest) =
      let (ax, ay) = project_meters fl ref_lat a in
      let (bx, by) = project_meters fl ref_lat b in
      let d = dist_point_to_segment px py ax ay bx by in
      nearest_edge ref_lat px py (if lt d min_dist then d else min_dist) rest

  unfoldable pub signed_distance_polygon : List (Point F) → Point F → F
  unfolding nearest_edge mean_lat edges point_in_polygon project_meters
  signed_distance_polygon poly p =
      let ref_lat = mean_lat poly in
      let (px, py) = project_meters fl ref_lat p in
      let min_dist = nearest_edge ref_lat px py inf (edges poly) in
      if point_in_polygon p poly then neg min_dist else min_dist

  unfoldable pub orientation : Point F → Point F → Point F → ℕ
  orientation p q r =
      let val =
        sub (mul (sub q.lng p.lng) (sub r.lat q.lat)) (mul (sub q.lat p.lat) (sub r.lng q.lng)) in
      let eps = lit 1 12 in if lt eps val then 1 else if lt val (neg eps) then 2 else 0

  unfoldable pub on_segment : Point F → Point F → Point F → Bool
  on_segment p q r =
      le q.lat (max p.lat r.lat)
      && le (min p.lat r.lat) q.lat
      && le q.lng (max p.lng r.lng)
      && le (min p.lng r.lng) q.lng

  unfoldable pub segments_intersect : Point F → Point F → Point F → Point F → Bool
  unfolding orientation on_segment
  segments_intersect p1 p2 p3 p4 =
      let o1 = orientation p1 p2 p3 in
      let o2 = orientation p1 p2 p4 in
      let o3 = orientation p3 p4 p1 in
      let o4 = orientation p3 p4 p2 in
      if not (o1 == o2) && not (o3 == o4)
      then true
      else if o1 == 0 && on_segment p1 p3 p2
      then true
      else if o2 == 0 && on_segment p1 p4 p2
      then true
      else if o3 == 0 && on_segment p3 p1 p4
      then true
      else o4 == 0 && on_segment p3 p2 p4

  -- The inner loop: edge `i`, from a1 to a2, against the edges `j`, `j + 1`, ...
  edge_crosses : ℕ → ℕ → Point F × Point F → ℕ → List (Point F × Point F) → Bool
  unfolding segments_intersect
  edge_crosses n i a j [] = false
  edge_crosses n i a j (b ∷ rest) =
      let hit = segments_intersect a.0 a.1 b.0 b.1 in
      let skipped = j == i || j == ((i + 1) % n) || ((j + 1) % n) == i in
      if not skipped && hit then true else edge_crosses n i a (j + 1) rest

  crosses_from : ℕ → ℕ → List (Point F × Point F) → Bool
  unfolding edge_crosses
  crosses_from n i [] = false
  crosses_from n i (a ∷ rest) =
      if edge_crosses n i a (i + 1) rest then true else crosses_from n (i + 1) rest

  unfoldable pub self_intersects : List (Point F) → Bool
  unfolding crosses_from edges
  self_intersects poly =
      if ltb (length poly) 4 then false else crosses_from (length poly) 0 (edges poly)

  unfoldable pub all_in_korea : List (Point F) → Bool
  unfolding in_korea
  all_in_korea [] = true
  all_in_korea (p ∷ rest) = in_korea fl p && all_in_korea rest

  unfoldable pub validate_polygon : List (Point F) → Option AreaError
  unfolding all_in_korea self_intersects polygon_area_m2
  validate_polygon poly =
      if ltb (length poly) 3 || ltb 20 (length poly)
      then some polygon_point_count
      else if not (all_in_korea poly)
      then some polygon_out_of_korea
      else if self_intersects poly
      then some polygon_self_cross
      else if lt (abs (polygon_area_m2 poly)) (of_int (pos 1000))
      then some polygon_too_small
      else none

  farthest : Point F → F → List (Point F) → F
  unfolding haversine
  farthest center max_d [] = max_d
  farthest center max_d (p ∷ rest) =
      let d = haversine fl center p in farthest center (if lt max_d d then d else max_d) rest

  -- `none` is the panic of `polygon_bbox`.
  unfoldable pub r_eq_polygon : List (Point F) → Option F
  unfolding polygon_bbox farthest
  r_eq_polygon poly = elim (polygon_bbox poly) [
    | none ↦ none
    | some b ↦ some (
        farthest
          (record {
            lat = div (add b.south b.north) (of_int (pos 2));
            lng = div (add b.west b.east) (of_int (pos 2));
          })
          (of_int (pos 0)) poly)
  ]
