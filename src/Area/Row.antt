-- ===== src/Area/Row.antt =====
-- internal/area/store.go: a stored area, the distance to its boundary and its equivalent radius.
use emergency_callup.Prelude.{ℕ, Bool, List, Option, some, String}
use emergency_callup.Prelude.Int.{ℤ}
use emergency_callup.Floats.{Floats}
use emergency_callup.Area.Geo.{Point, BBox, signed_distance_circle}
use emergency_callup.Area.Polygon.{signed_distance_polygon, r_eq_polygon}
use emergency_callup.Area.Grid.Cells.{Cell}
use emergency_callup.Area.Grid.{signed_distance_grid, r_eq_grid}

-- The column `kind`: circle, polygon or grid.
pub data Kind : Type 0 where
  circle polygon grid : Kind

pub record Row (F : Type 0) : Type 0 where
  pub id : ℕ
  pub name : String
  pub kind : Kind
  pub lat : F
  pub lng : F
  pub radius_m : ℤ
  pub polygon : List (Point F)
  pub grid_size : ℕ
  pub cells : List Cell
  pub nav_lat : F
  pub nav_lng : F
  pub bbox : BBox F
  pub active : Bool
  pub created_at : ℤ

module _ (fl : Floats) where
  open fl use {F, of_int}

  distance_by : Kind → Row F → Point F → F
  distance_by Kind.circle r p =
      signed_distance_circle fl (record { lat = r.lat; lng = r.lng }) r.radius_m p
  distance_by Kind.grid r p = signed_distance_grid fl r.grid_size r.cells p
  distance_by Kind.polygon r p = signed_distance_polygon fl r.polygon p

  unfoldable pub signed_distance : Row F → Point F → F
  unfolding distance_by
  signed_distance r p = distance_by r.kind r p

  r_eq_by : Kind → Row F → Option F
  r_eq_by Kind.circle r = some (of_int r.radius_m)
  r_eq_by Kind.grid r = some (r_eq_grid fl r.grid_size r.cells)
  r_eq_by Kind.polygon r = r_eq_polygon fl r.polygon

  -- `none` is the panic of `REqPolygon` on a polygon without points.
  unfoldable pub r_eq : Row F → Option F
  unfolding r_eq_by
  r_eq r = r_eq_by r.kind r
