-- ===== src/Area/Store/Write.antt =====
-- internal/area/store.go: the methods that create, update and copy areas of the three shapes.
use emergency_callup.Prelude.{ℕ, Bool, List, [], Option, none, some, String, if◌then◌else◌}
use emergency_callup.Prelude.Int.{ℤ, pos}
use emergency_callup.Floats.{Floats}
use emergency_callup.Area.Geo.{Point, BBox, AreaError, in_korea, validate_circle, circle_bbox}
use emergency_callup.Area.Polygon.{centroid, point_in_polygon, polygon_bbox, validate_polygon}
use emergency_callup.Area.Grid.Cells.{Cell, dedupe_sort_cells}
use emergency_callup.Area.Grid.{validate_grid, grid_bbox, grid_center}
use emergency_callup.Area.Row.{Kind, Row}
use emergency_callup.Incident.Tables.{Tables, area_by_id}
use emergency_callup.Area.Store.{
  invalid, not_found, nav_outside, nav_not_korea, area_in_use, database_error, Outcome, ok, err,
  panicked, Geometry, update_row, upsert, retired, in_use,
}

-- The statements that write: the insert or update, and the deactivation of a copied row.
pub record Faults : Type 0 where
  pub write : Bool
  pub retire : Bool

module _ (fl : Floats) where
  open fl use {F, of_int}

  -- What a null is read as.
  unfoldable pub zero : F
  zero = of_int (pos 0)

  unfoldable pub circle_geometry : Point F → ℤ → Geometry F
  unfolding zero
  circle_geometry center radius_m = record {
    kind = Kind.circle;
    lat = center.lat;
    lng = center.lng;
    radius_m = radius_m;
    polygon = [];
    grid_size = 0;
    cells = [];
  }

  unfoldable pub polygon_geometry : List (Point F) → Geometry F
  unfolding zero
  polygon_geometry poly = record {
    kind = Kind.polygon;
    lat = zero;
    lng = zero;
    radius_m = pos 0;
    polygon = poly;
    grid_size = 0;
    cells = [];
  }

  unfoldable pub grid_geometry : ℕ → List Cell → Geometry F
  unfolding zero
  grid_geometry size cells = record {
    kind = Kind.grid;
    lat = zero;
    lng = zero;
    radius_m = pos 0;
    polygon = [];
    grid_size = size;
    cells = cells;
  }

  unfoldable pub or_panic : {A : Type 0} → Option A → Outcome A
  or_panic none = panicked
  or_panic (some a) = ok a

  unfoldable pub default_nav : Kind → Geometry F → Outcome (Point F)
  unfolding or_panic
  default_nav Kind.circle g = ok (record { lat = g.lat; lng = g.lng })
  default_nav Kind.grid g = or_panic (grid_center fl g.grid_size g.cells)
  default_nav Kind.polygon g =
      let c = centroid fl g.polygon in
      if point_in_polygon fl c g.polygon then ok c else err nav_outside

  unfoldable pub resolve_nav : Geometry F → Option (Point F) → Outcome (Point F)
  unfolding default_nav
  resolve_nav g (some nav) = if in_korea fl nav then ok nav else err nav_not_korea
  resolve_nav g none = default_nav g.kind g

  -- The end that the six methods share: the box, then `upsert`.
  unfoldable pub boxed :
      Bool
      → List (Row F)
      → ℕ
      → String
      → Geometry F
      → ℤ
      → Option (BBox F)
      → Outcome (Point F)
      → List (Row F) × Outcome (Row F)
  unfolding upsert zero
  boxed fails rows id name g now bbox (err e) = (rows, err e)
  boxed fails rows id name g now bbox panicked = (rows, panicked)
  boxed fails rows id name g now none (ok nav) = (rows, panicked)
  boxed fails rows id name g now (some b) (ok nav) = upsert zero fails rows id name g nav b now

  unfoldable pub validated :
      Bool
      → List (Row F)
      → ℕ
      → String
      → Geometry F
      → ℤ
      → Option (BBox F)
      → Option (Point F)
      → Option AreaError
      → List (Row F) × Outcome (Row F)
  unfolding boxed resolve_nav
  validated fails rows id name g now bbox nav (some e) = (rows, err (invalid e))
  validated fails rows id name g now bbox nav none =
      boxed fails rows id name g now bbox (resolve_nav g nav)

  unfoldable pub store_circle :
      Bool
      → List (Row F)
      → ℕ
      → String
      → Point F
      → ℤ
      → Option (Point F)
      → ℤ
      → List (Row F) × Outcome (Row F)
  unfolding validated circle_geometry
  store_circle fails rows id name center radius_m nav now =
      validated fails rows id name (circle_geometry center radius_m) now
        (some (circle_bbox fl center radius_m)) nav (validate_circle fl center radius_m)

  unfoldable pub store_polygon :
      Bool
      → List (Row F)
      → ℕ
      → String
      → List (Point F)
      → Option (Point F)
      → ℤ
      → List (Row F) × Outcome (Row F)
  unfolding validated polygon_geometry
  store_polygon fails rows id name poly nav now =
      validated fails rows id name (polygon_geometry poly) now (polygon_bbox fl poly) nav
        (validate_polygon fl poly)

  unfoldable pub store_grid :
      Bool
      → List (Row F)
      → ℕ
      → String
      → ℕ
      → List Cell
      → Option (Point F)
      → ℤ
      → List (Row F) × Outcome (Row F)
  unfolding validated grid_geometry
  store_grid fails rows id name size cells nav now =
      validated fails rows id name (grid_geometry size cells) now (grid_bbox fl size cells) nav
        (validate_grid fl size cells)

  unfoldable pub create_circle :
      Bool
      → List (Row F)
      → String
      → Point F
      → ℤ
      → Option (Point F)
      → ℤ
      → List (Row F) × Outcome (Row F)
  unfolding store_circle
  create_circle fails rows name center radius_m nav now =
      store_circle fails rows 0 name center radius_m nav now

  unfoldable pub create_polygon :
      Bool
      → List (Row F)
      → String
      → List (Point F)
      → Option (Point F)
      → ℤ
      → List (Row F) × Outcome (Row F)
  unfolding store_polygon
  create_polygon fails rows name poly nav now = store_polygon fails rows 0 name poly nav now

  unfoldable pub create_grid :
      Bool
      → List (Row F)
      → String
      → ℕ
      → List Cell
      → Option (Point F)
      → ℤ
      → List (Row F) × Outcome (Row F)
  unfolding store_grid
  create_grid fails rows name size cells nav now =
      store_grid fails rows 0 name size (dedupe_sort_cells cells) nav now

  unfoldable pub update_circle :
      Bool
      → Tables F
      → ℕ
      → String
      → Point F
      → ℤ
      → Option (Point F)
      → ℤ
      → List (Row F) × Outcome (Row F)
  unfolding store_circle in_use
  update_circle fails t id name center radius_m nav now =
      if in_use t id
      then (t.areas, err area_in_use)
      else store_circle fails t.areas id name center radius_m nav now

  unfoldable pub update_polygon :
      Bool
      → Tables F
      → ℕ
      → String
      → List (Point F)
      → Option (Point F)
      → ℤ
      → List (Row F) × Outcome (Row F)
  unfolding store_polygon in_use
  update_polygon fails t id name poly nav now =
      if in_use t id
      then (t.areas, err area_in_use)
      else store_polygon fails t.areas id name poly nav now

  unfoldable pub update_grid :
      Bool
      → Tables F
      → ℕ
      → String
      → ℕ
      → List Cell
      → Option (Point F)
      → ℤ
      → List (Row F) × Outcome (Row F)
  unfolding store_grid in_use
  update_grid fails t id name size cells nav now =
      if in_use t id
      then (t.areas, err area_in_use)
      else store_grid fails t.areas id name size (dedupe_sort_cells cells) nav now

  -- The new row, and the deactivation of the source by a statement of its own.
  unfoldable pub retire_source :
      Bool → ℕ → List (Row F) × Outcome (Row F) → List (Row F) × Outcome (Row F)
  unfolding update_row retired
  retire_source fails source_id (rows, ok r) =
      if fails then (rows, err database_error) else (update_row source_id retired rows, ok r)
  retire_source fails source_id (rows, err e) = (rows, err e)
  retire_source fails source_id (rows, panicked) = (rows, panicked)

  unfoldable pub copied :
      Bool
      → List (Row F)
      → ℕ
      → List (Row F) × Outcome (Row F)
      → Option (Row F)
      → List (Row F) × Outcome (Row F)
  unfolding retire_source
  copied fails rows source_id created none = (rows, err not_found)
  copied fails rows source_id created (some source) = retire_source fails source_id created

  unfoldable pub copy_circle :
      Faults
      → List (Row F)
      → ℕ
      → String
      → Point F
      → ℤ
      → Option (Point F)
      → ℤ
      → List (Row F) × Outcome (Row F)
  unfolding copied create_circle
  copy_circle faults rows source_id name center radius_m nav now =
      copied faults.retire rows source_id
        (create_circle faults.write rows name center radius_m nav now) (area_by_id source_id rows)

  unfoldable pub copy_polygon :
      Faults
      → List (Row F)
      → ℕ
      → String
      → List (Point F)
      → Option (Point F)
      → ℤ
      → List (Row F) × Outcome (Row F)
  unfolding copied create_polygon
  copy_polygon faults rows source_id name poly nav now =
      copied faults.retire rows source_id (create_polygon faults.write rows name poly nav now)
        (area_by_id source_id rows)
