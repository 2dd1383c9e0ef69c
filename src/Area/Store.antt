-- ===== src/Area/Store.antt =====
-- internal/area/store.go: creating, updating, copying and deactivating areas. An operation takes the
-- tables that it reads and gives the rows of `area` after it, which are kept by ascending id and hold
-- the decoded columns (encoding/json decodes a column to what was encoded). A write fails by the unique
-- index on the names of active areas, by the CHECKs on radius and cell size, or when `fails` says so.
pub mod Write
pub mod Change
pub mod Refines
pub mod Answers
pub mod Created
pub mod Measured
mod Tests
use emergency_callup.Prelude.{
  ℕ, suc, ◌+◌, Bool, true, false, ◌&&◌, ◌||◌, not, List, [], ◌∷◌, ◌++◌, Option, none, some, String,
  str_eq, ltb, ◌==◌, if◌then◌else◌,
}
use emergency_callup.Prelude.Int.{ℤ, pos, leb_ℤ}
use emergency_callup.Floats.{Floats}
use emergency_callup.Area.Geo.{Point, BBox, AreaError, in_korea, validate_circle, circle_bbox}
use emergency_callup.Area.Polygon.{centroid, point_in_polygon, polygon_bbox, validate_polygon}
use emergency_callup.Area.Grid.Cells.{Cell, dedupe_sort_cells}
use emergency_callup.Area.Grid.{validate_grid, grid_bbox, grid_center}
use emergency_callup.Area.Row.{Kind, Row}
use emergency_callup.Incident.Model.{Incident, TeamTask, PeacetimeMember, Assignment}
use emergency_callup.Incident.Tables.{Tables, is_active, area_by_id}

pub data StoreError : Type 0 where
  invalid : AreaError → StoreError
  name_taken not_found nav_outside nav_not_korea area_in_use database_error : StoreError
  area_referenced : ℕ → StoreError

-- What a call ends with; a panic is a result of its own.
pub data Outcome (A : Type 0) : Type 0 where
  ok : A → Outcome A
  err : StoreError → Outcome A
  panicked : Outcome A

-- The columns that depend on the kind, those of the other kinds as they are read back.
pub record Geometry (F : Type 0) : Type 0 where
  pub kind : Kind
  pub lat : F
  pub lng : F
  pub radius_m : ℤ
  pub polygon : List (Point F)
  pub grid_size : ℕ
  pub cells : List Cell

unfoldable pub active_task : ℕ → List Incident → Bool
unfolding is_active
active_task incident_id [] = false
active_task incident_id (i ∷ rest) =
    (i.id == incident_id && is_active i.status) || active_task incident_id rest

-- The two selects of `inUseByActiveIncident`.
unfoldable pub assignments_use : ℕ → List Incident → List Assignment → Bool
unfolding active_task
assignments_use id incidents [] = false
assignments_use id incidents (a ∷ rest) =
    (a.eff_area_id == id && active_task a.incident_id incidents)
    || assignments_use id incidents rest

unfoldable pub references : ℕ → List PeacetimeMember → ℕ
references id [] = 0
references id (m ∷ rest) = (if m.area_id == id then 1 else 0) + references id rest

module _ {F : Type 0} where
  -- `area_active_name`, the unique index on the names of active areas.
  unfoldable pub has_active : String → List (Row F) → Bool
  has_active name [] = false
  has_active name (r ∷ rest) = (r.active && str_eq r.name name) || has_active name rest

  unfoldable pub max_id : List (Row F) → ℕ
  max_id [] = 0
  max_id (r ∷ rest) = let m = max_id rest in if ltb m r.id then r.id else m

  -- The id that the database gives a new row.
  unfoldable pub next_id : List (Row F) → ℕ
  unfolding max_id
  next_id rows = suc (max_id rows)

  -- `UPDATE area SET ... WHERE id=?`
  unfoldable pub update_row : ℕ → (Row F → Row F) → List (Row F) → List (Row F)
  update_row id change [] = []
  update_row id change (r ∷ rest) =
      if r.id == id then change r ∷ rest else r ∷ update_row id change rest

  unfoldable pub without_row : ℕ → List (Row F) → List (Row F)
  without_row id [] = []
  without_row id (r ∷ rest) = if r.id == id then rest else r ∷ without_row id rest

  unfoldable pub active_row : Option (Row F) → Bool
  active_row none = false
  active_row (some r) = r.active

  -- `Store.GetByID` gives an error if there is no row.
  unfoldable pub found : Option (Row F) → Outcome (Row F)
  found none = err not_found
  found (some r) = ok r

  unfoldable pub new_row : ℕ → String → Geometry F → Point F → BBox F → ℤ → Row F
  new_row id name g nav bbox now = record {
    id = id;
    name = name;
    kind = g.kind;
    lat = g.lat;
    lng = g.lng;
    radius_m = g.radius_m;
    polygon = g.polygon;
    grid_size = g.grid_size;
    cells = g.cells;
    nav_lat = nav.lat;
    nav_lng = nav.lng;
    bbox = bbox;
    active = true;
    created_at = now;
  }

  -- The update sets all columns but three.
  unfoldable pub replaced : String → Geometry F → Point F → BBox F → Row F → Row F
  unfolding new_row
  replaced name g nav bbox r = record (new_row r.id name g nav bbox r.created_at) {
    active = r.active;
  }

  unfoldable pub insert_area : Bool → List (Row F) → Row F → List (Row F) × Outcome (Row F)
  unfolding has_active found
  insert_area fails rows r =
      if fails
      then (rows, err database_error)
      else if has_active r.name rows
      then (rows, err name_taken)
      else (rows ++ r ∷ [], found (area_by_id r.id (rows ++ r ∷ [])))

  unfoldable pub update_area :
      Bool → List (Row F) → ℕ → String → (Row F → Row F) → List (Row F) × Outcome (Row F)
  unfolding has_active found update_row without_row active_row
  update_area fails rows id name change =
      let after = update_row id change rows in
      if fails
      then (rows, err database_error)
      else if active_row (area_by_id id rows) && has_active name (without_row id rows)
      then (rows, err name_taken)
      else (after, found (area_by_id id after))

  -- The switch on the kind: the columns of the other kinds are null, which is read back as zero and empty.
  unfoldable pub stored_by : Kind → F → Geometry F → Geometry F
  stored_by Kind.polygon zero g = record g {
    lat = zero;
    lng = zero;
    radius_m = pos 0;
    grid_size = 0;
    cells = [];
  }
  stored_by Kind.grid zero g = record g { lat = zero; lng = zero; radius_m = pos 0; polygon = [] }
  stored_by Kind.circle zero g = record g { polygon = []; grid_size = 0; cells = [] }

  unfoldable pub stored_geometry : F → Geometry F → Geometry F
  unfolding stored_by
  stored_geometry zero g = stored_by g.kind zero g

  -- `CHECK (radius_m BETWEEN 50 AND 5000)` and `CHECK (grid_size IN (100,250,500,1000))`, which a null
  -- passes.
  unfoldable pub allowed_by : Kind → Geometry F → Bool
  allowed_by Kind.polygon g = true
  allowed_by Kind.grid g =
      (g.grid_size == 100 || g.grid_size == 250) || (g.grid_size == 500 || g.grid_size == 1000)
  allowed_by Kind.circle g = leb_ℤ (pos 50) g.radius_m && leb_ℤ g.radius_m (pos 5000)

  unfoldable pub is_there : Option (Row F) → Bool
  is_there none = false
  is_there (some r) = true

  -- `Store.upsert`; `zero` is the number that a null is read as. An update of no row checks nothing.
  unfoldable pub upsert :
      F
      → Bool
      → List (Row F)
      → ℕ
      → String
      → Geometry F
      → Point F
      → BBox F
      → ℤ
      → List (Row F) × Outcome (Row F)
  unfolding insert_area update_area new_row replaced next_id stored_geometry allowed_by is_there
  upsert zero fails rows id name g nav bbox now =
      let s = stored_geometry zero g in
      let refused = not (allowed_by g.kind g) in
      if id == 0
      then insert_area (fails || refused) rows (new_row (next_id rows) name s nav bbox now)
      else update_area (fails || (is_there (area_by_id id rows) && refused)) rows id name
          (replaced name s nav bbox)

  unfoldable pub retired : Row F → Row F
  retired r = record r { active = false }

  unfoldable pub tasks_use : ℕ → List Incident → List (TeamTask F) → Bool
  unfolding active_task
  tasks_use id incidents [] = false
  tasks_use id incidents (t ∷ rest) =
      (t.area_id == id && active_task t.incident_id incidents) || tasks_use id incidents rest

  -- `Store.InUse`.
  unfoldable pub in_use : Tables F → ℕ → Bool
  unfolding tasks_use assignments_use
  in_use t id =
      tasks_use id t.incidents t.team_tasks || assignments_use id t.incidents t.assignments

  unfoldable pub update_found :
      Bool → List (Row F) → ℕ → Option (Row F) → List (Row F) × Outcome (Unit {0})
  unfolding update_row retired
  update_found true rows id o = (rows, err database_error)
  update_found false rows id none = (rows, err not_found)
  update_found false rows id (some r) = (update_row id retired rows, ok tt)

  unfoldable pub deactivate : Bool → Tables F → ℕ → List (Row F) × Outcome (Unit {0})
  unfolding in_use references update_found
  deactivate fails t id =
      if in_use t id
      then (t.areas, err area_in_use)
      else let n = references id t.members in
        if ltb 0 n
        then (t.areas, err (area_referenced n))
        else update_found fails t.areas id (area_by_id id t.areas)

  -- `Store.GetActiveByName`.
  unfoldable pub get_active_by_name : String → List (Row F) → Option (Row F)
  get_active_by_name name [] = none
  get_active_by_name name (r ∷ rest) =
      if r.active && str_eq r.name name then some r else get_active_by_name name rest
