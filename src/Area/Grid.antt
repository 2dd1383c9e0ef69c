-- ===== src/Area/Grid.antt =====
-- internal/area/grid.go: the nationwide grid of square cells. The proofs are in the modules below.
pub mod Cells
pub mod Canonical
pub mod Center
pub mod Scan
mod Tests
use emergency_callup.Prelude.{
  ℕ, zero, suc, ◌+◌, Bool, true, false, not, ◌&&◌, ◌||◌, List, [], ◌∷◌, ◌++◌, Option, none, some,
  length, ltb, ◌==◌, if◌then◌else◌,
}
use emergency_callup.Prelude.Int.{ℤ, pos, negsuc, pos_part, ◌+ℤ◌, ◌-ℤ◌, ◌*ℤ◌, ltb_ℤ}
use emergency_callup.Floats.{Floats}
use emergency_callup.Area.Geo.{
  Point, BBox, AreaError, grid_size_invalid, grid_cell_count, grid_out_of_korea,
  grid_scan_too_large, in_korea, project_meters, haversine, circle_bbox,
}
use emergency_callup.Area.Polygon.{polygon_bbox, point_in_polygon}
use Cells.{Cell, has_cell, dedupe_sort_cells}

pub data Scanned {ℓ} (A : Type ℓ) : Type ℓ where
  ok : A → Scanned A
  err : AreaError → Scanned A

abbrev pub max_scan_cells : ℕ
max_scan_cells = 200000

unfoldable pub valid_grid_size : ℕ → Bool
valid_grid_size size = size == 100 || size == 250 || size == 500 || size == 1000

-- `for i := lo; i < lo + n; i++`
count_up : ℤ → ℕ → List ℤ
count_up lo zero = []
count_up lo (suc n) = lo ∷ count_up (lo +ℤ pos 1) n

-- The values of `i` in `for i := lo; i <= hi; i++`.
unfoldable pub range_incl : ℤ → ℤ → List ℤ
unfolding count_up
range_incl lo hi = count_up lo (pos_part (hi -ℤ lo +ℤ pos 1))

row_of : ℤ → List ℤ → List Cell
row_of i [] = []
row_of i (j ∷ js) = record { i = i; j = j } ∷ row_of i js

product : List ℤ → List ℤ → List Cell
unfolding row_of
product [] js = []
product (i ∷ is) js = row_of i js ++ product is js

-- The cells that the two nested loops from c0 to c1 visit, in order.
unfoldable pub candidates : Cell → Cell → List Cell
unfolding product range_incl
candidates c0 c1 = product (range_incl c0.i c1.i) (range_incl c0.j c1.j)

module _ (fl : Floats) where
  open fl use {
    F, add, sub, mul, div, neg, lt, le, of_int, lit, pi, inf, is_inf, min, max, sqrt, cos, hypot,
    floor_int,
  }

  grid_d_lat : ℕ → F
  grid_d_lat size = div (of_int (pos size)) (lit 111320 0)

  grid_d_lng : ℕ → F
  grid_d_lng size =
      div (of_int (pos size))
        (mul (lit 111320 0) (cos (div (mul (of_int (pos 36)) pi) (of_int (pos 180)))))

  unfoldable pub cell_of : ℕ → Point F → Cell
  unfolding grid_d_lat grid_d_lng
  cell_of size p = record {
    i = floor_int (div p.lng (grid_d_lng size));
    j = floor_int (div p.lat (grid_d_lat size));
  }

  unfoldable pub cell_bounds : ℕ → Cell → BBox F
  unfolding grid_d_lat grid_d_lng
  cell_bounds size c =
      let d_lat = grid_d_lat size in
      let d_lng = grid_d_lng size in
      let south = mul (of_int c.j) d_lat in
      let west = mul (of_int c.i) d_lng in
      record { south = south; west = west; north = add south d_lat; east = add west d_lng }

  unfoldable pub cell_center : ℕ → Cell → Point F
  unfolding grid_d_lat grid_d_lng
  cell_center size c = record {
    lat = mul (add (of_int c.j) (lit 5 1)) (grid_d_lat size);
    lng = mul (add (of_int c.i) (lit 5 1)) (grid_d_lng size);
  }

  all_centers_in_korea : ℕ → List Cell → Bool
  unfolding in_korea
  all_centers_in_korea size [] = true
  all_centers_in_korea size (c ∷ cs) =
      in_korea fl (cell_center size c) && all_centers_in_korea size cs

  unfoldable pub validate_grid : ℕ → List Cell → Option AreaError
  unfolding valid_grid_size all_centers_in_korea
  validate_grid size cells =
      if not (valid_grid_size size)
      then some grid_size_invalid
      else if ltb (length cells) 1 || ltb 2500 (length cells)
      then some grid_cell_count
      else if all_centers_in_korea size cells
      then none
      else some grid_out_of_korea

  cover : ℕ → BBox F → List Cell → BBox F
  unfolding cell_bounds
  cover size b [] = b
  cover size b (c ∷ cs) =
      let cb = cell_bounds size c in
      cover size
        (record {
          south = min b.south cb.south;
          west = min b.west cb.west;
          north = max b.north cb.north;
          east = max b.east cb.east;
        })
        cs

  -- `cells[0]` panics on no cells: `none`.
  unfoldable pub grid_bbox : ℕ → List Cell → Option (BBox F)
  unfolding cover
  grid_bbox size [] = none
  grid_bbox size (c ∷ cs) = some (cover size (cell_bounds size c) cs)

  center_sums : ℕ → F → F → List Cell → F × F
  center_sums size lat lng [] = (lat, lng)
  center_sums size lat lng (c ∷ cs) =
      let p = cell_center size c in center_sums size (add lat p.lat) (add lng p.lng) cs

  closest : ℕ → Point F → Cell → F → List Cell → Cell
  unfolding haversine
  closest size mean best best_d [] = best
  closest size mean best best_d (c ∷ cs) =
      let d = haversine fl mean (cell_center size c) in
      closest size mean (if lt d best_d then c else best) (if lt d best_d then d else best_d) cs

  -- The cell that `GridCenter` settles on; `none` is the panic of `cells[0]`.
  unfoldable pub center_cell : ℕ → List Cell → Option Cell
  unfolding center_sums closest
  center_cell size [] = none
  center_cell size (c ∷ cs) =
      let (lat, lng) = center_sums size (of_int (pos 0)) (of_int (pos 0)) (c ∷ cs) in
      let n = of_int (pos (length (c ∷ cs))) in
      some (closest size (record { lat = div lat n; lng = div lng n }) c inf (c ∷ cs))

  unfoldable pub grid_center : ℕ → List Cell → Option (Point F)
  unfolding center_cell
  grid_center size cells = elim (center_cell size cells) [
    | none ↦ none
    | some c ↦ some (cell_center size c)
  ]

  unfoldable pub dist_point_to_rect : F → F → F → F → F → F → F
  dist_point_to_rect px py x0 y0 x1 y1 =
      let dx = max (sub x0 px) (max (of_int (pos 0)) (sub px x1)) in
      let dy = max (sub y0 py) (max (of_int (pos 0)) (sub py y1)) in hypot dx dy

  -- The part of `SignedDistanceGrid` for a point inside the set: c is its cell, b the cell's box.
  inside_distance : ℕ → List Cell → Point F → Cell → F
  unfolding cell_bounds project_meters has_cell
  inside_distance size cells p c =
      let b = cell_bounds size c in
      let (px, py) = project_meters fl (of_int (pos 36)) p in
      let free = λ (di dj : ℤ). not (has_cell (record { i = c.i +ℤ di; j = c.j +ℤ dj }) cells) in
      let south_y =
        (project_meters fl (of_int (pos 36)) (record { lat = b.south; lng = p.lng })).1 in
      let north_y =
        (project_meters fl (of_int (pos 36)) (record { lat = b.north; lng = p.lng })).1 in
      let west_x = (project_meters fl (of_int (pos 36)) (record { lat = p.lat; lng = b.west })).0 in
      let east_x = (project_meters fl (of_int (pos 36)) (record { lat = p.lat; lng = b.east })).0 in
      let m1 = if free (pos 0) (negsuc 0) then min inf (sub py south_y) else inf in
      let m2 = if free (pos 0) (pos 1) then min m1 (sub north_y py) else m1 in
      let m3 = if free (negsuc 0) (pos 0) then min m2 (sub px west_x) else m2 in
      let m4 = if free (pos 1) (pos 0) then min m3 (sub east_x px) else m3 in
      if is_inf m4 then div (neg (of_int (pos size))) (of_int (pos 2)) else neg m4

  outside_distance : ℕ → F → F → F → List Cell → F
  unfolding cell_bounds project_meters dist_point_to_rect
  outside_distance size px py min_dist [] = min_dist
  outside_distance size px py min_dist (cc ∷ cs) =
      let b = cell_bounds size cc in
      let (x0, y0) = project_meters fl (of_int (pos 36)) (record { lat = b.south; lng = b.west }) in
      let (x1, y1) = project_meters fl (of_int (pos 36)) (record { lat = b.north; lng = b.east }) in
      let d = dist_point_to_rect px py x0 y0 x1 y1 in
      outside_distance size px py (if lt d min_dist then d else min_dist) cs

  unfoldable pub signed_distance_grid : ℕ → List Cell → Point F → F
  unfolding inside_distance outside_distance cell_of has_cell project_meters
  signed_distance_grid size cells p =
      let c = cell_of size p in
      let (px, py) = project_meters fl (of_int (pos 36)) p in
      if has_cell c cells
      then inside_distance size cells p c
      else outside_distance size px py inf cells

  -- The product is exact here; in Go it is an int64, which a box of an absurd size could make wrap.
  unfoldable pub cell_range : ℕ → BBox F → Scanned (Cell × Cell)
  unfolding cell_of
  cell_range size b =
      let c0 = cell_of size (record { lat = b.south; lng = b.west }) in
      let c1 = cell_of size (record { lat = b.north; lng = b.east }) in
      if ltb_ℤ (pos max_scan_cells) ((c1.i -ℤ c0.i +ℤ pos 1) *ℤ (c1.j -ℤ c0.j +ℤ pos 1))
      then err grid_scan_too_large
      else ok (c0, c1)

  keep_within : ℕ → Point F → ℤ → List Cell → List Cell
  unfolding haversine cell_center
  keep_within size center radius_m [] = []
  keep_within size center radius_m (c ∷ cs) =
      let rest = keep_within size center radius_m cs in
      if le (haversine fl center (cell_center size c)) (of_int radius_m) then c ∷ rest else rest

  pub cells_within_radius : ℕ → Point F → ℤ → Scanned (List Cell)
  cells_within_radius size center radius_m =
      elim (cell_range size (circle_bbox fl center radius_m)) [
        | err e ↦ err e
        | ok (c0, c1) ↦ ok (
            dedupe_sort_cells
              (cell_of size center ∷ keep_within size center radius_m (candidates c0 c1)))
      ]

  merge_box : Option (BBox F) → Option (BBox F) → Option (BBox F)
  merge_box none b = b
  merge_box (some a) none = some a
  merge_box (some a) (some b) = some (record {
    south = min a.south b.south;
    west = min a.west b.west;
    north = max a.north b.north;
    east = max a.east b.east;
  })

  -- The box of all rings with at least three points; `none` while there is none.
  ring_box : Option (BBox F) → List (List (Point F)) → Option (BBox F)
  unfolding polygon_bbox merge_box
  ring_box acc [] = acc
  ring_box acc (poly ∷ rest) = ring_box (merge_box acc (polygon_bbox fl poly)) rest

  in_some_ring : Point F → List (List (Point F)) → Bool
  unfolding point_in_polygon
  in_some_ring p [] = false
  in_some_ring p (poly ∷ rest) = point_in_polygon fl p poly || in_some_ring p rest

  keep_in_rings : ℕ → List (List (Point F)) → List Cell → List Cell
  unfolding in_some_ring cell_center
  keep_in_rings size polys [] = []
  keep_in_rings size polys (c ∷ cs) =
      let rest = keep_in_rings size polys cs in
      if in_some_ring (cell_center size c) polys then c ∷ rest else rest

  big_rings : List (List (Point F)) → List (List (Point F))
  big_rings [] = []
  big_rings (ring ∷ rest) =
      let kept = big_rings rest in if ltb (length ring) 3 then kept else ring ∷ kept

  unfoldable pub cells_in_rings : ℕ → List (List (Point F)) → Scanned (List Cell)
  unfolding big_rings ring_box cell_range keep_in_rings candidates
  cells_in_rings size rings =
      let polys = big_rings rings in
      elim (ring_box none polys) [
        | none ↦ ok []
        | some b ↦ elim (cell_range size b) [
          | err e ↦ err e
          | ok (c0, c1) ↦ ok (keep_in_rings size polys (candidates c0 c1))
        ]
      ]

  unfoldable pub r_eq_grid : ℕ → List Cell → F
  r_eq_grid size cells =
      sqrt
        (div (mul (mul (of_int (pos (length cells))) (of_int (pos size))) (of_int (pos size))) pi)
