-- ===== src/Area.antt =====
-- internal/area: points, the three shapes of a mission area, and the signed distance to a boundary.
pub mod Geo
pub mod Polygon
pub mod Grid
pub mod Row
pub mod Store
