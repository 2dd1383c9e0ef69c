-- ===== src/Area/Store/Created.antt =====
-- internal/area/store.go: what a created area is read back as.
use emergency_callup.Prelude.{
  ℕ, ◌<◌, Bool, true, false, ◌||◌, not, List, [], ◌∷◌, ◌++◌, Option, none, some, String, eq_iff,
  ==_iff, ◌≡◌, refl, sym, ap, ◌∙◌, inl, inr, arith, Bool-cases,
}
use emergency_callup.Prelude.Int.{ℤ}
use emergency_callup.Floats.{Floats}
use emergency_callup.Area.Geo.{Point, BBox, AreaError, validate_circle, circle_bbox}
use emergency_callup.Area.Polygon.{polygon_bbox, validate_polygon}
use emergency_callup.Area.Grid.Cells.{Cell, dedupe_sort_cells}
use emergency_callup.Area.Grid.{validate_grid, grid_bbox}
use emergency_callup.Area.Row.{Row}
use emergency_callup.Incident.Tables.{area_by_id}
use emergency_callup.Area.Store.{
  Outcome, ok, err, panicked, Geometry, has_active, max_id, next_id, found, insert_area, new_row,
  stored_geometry, allowed_by, upsert, get_active_by_name,
}
use emergency_callup.Area.Store.Write.{
  zero, circle_geometry, polygon_geometry, grid_geometry, resolve_nav, boxed, validated,
  store_circle, store_polygon, store_grid, create_circle, create_polygon, create_grid,
}

module _ {F : Type 0} where
  -- No row has an id above the largest.
  area_by_id-above : (id : ℕ) (rows : List (Row F)) → max_id rows < id → area_by_id id rows ≡ none
  unfolding max_id area_by_id
  area_by_id-above id [] h = refl
  area_by_id-above id (r ∷ rest) h = ground (arith, h, area_by_id-above id rest)

  get_active_by_name-append :
      (name : String) (rows : List (Row F)) (r : Row F)
      → has_active name rows ≡ false
      → r.name ≡ name
      → r.active ≡ true
      → get_active_by_name name (rows ++ r ∷ []) ≡ some r
  unfolding get_active_by_name has_active
  get_active_by_name-append name [] r free same active =
      rw (active, (eq_iff r.name name).1 same) refl
  get_active_by_name-append name (x ∷ rest) r free same active =
      ground (arith, free, get_active_by_name-append name rest r (ground (arith, free)) same active)

  found_last :
      (id : ℕ) (rows : List (Row F)) (r : Row F)
      → area_by_id id rows ≡ none
      → r.id ≡ id
      → area_by_id id (rows ++ r ∷ []) ≡ some r
  unfolding area_by_id
  found_last id [] r h same = rw ((==_iff r.id id).1 same) refl
  found_last id (x ∷ rest) r h same =
      ground (arith, h, found_last id rest r (ground (arith, h)) same)

  inserted :
      (fails : Bool) (rows : List (Row F)) (r x : Row F)
      → r.id ≡ next_id rows
      → (insert_area fails rows r).1 ≡ ok x
      → (x ≡ r) × (has_active r.name rows ≡ false) × ((insert_area fails rows r).0 ≡ rows ++ r ∷ [])
  unfolding insert_area found next_id
  inserted fails rows r x fresh = elim (Bool-cases fails) [
    | inl e ↦ rw e (λ h. absurd (ground (arith, h)))
    | inr e ↦ rw e (elim (Bool-cases (has_active r.name rows)) [
      | inl taken ↦ rw taken (λ h. absurd (ground (arith, h)))
      | inr free ↦
          let last =
            found_last r.id rows r (area_by_id-above r.id rows (rw fresh (omega arith))) refl in
          rw (free, last) (λ h. (ground (arith, h), refl, refl))
    ])
  ]

  -- The columns of the kind, as they are read.
  abbrev pub geometry_of : Row F → Geometry F
  geometry_of r = record {
    kind = r.kind;
    lat = r.lat;
    lng = r.lng;
    radius_m = r.radius_m;
    polygon = r.polygon;
    grid_size = r.grid_size;
    cells = r.cells;
  }

  abbrev pub nav_of : Row F → Point F
  nav_of r = record { lat = r.nav_lat; lng = r.nav_lng }

  -- The row is the one new row of the table, under an id that no area had, found by this id and by its
  -- name among the active areas.
  abbrev pub IsAdded : List (Row F) → List (Row F) → Row F → Type 0
  IsAdded before after r =
      (after ≡ before ++ r ∷ [])
      × (area_by_id r.id before ≡ none)
      × (area_by_id r.id after ≡ some r)
      × (get_active_by_name r.name after ≡ some r)

  inserted-IsAdded :
      (fails : Bool) (rows : List (Row F)) (r x : Row F)
      → r.id ≡ next_id rows
      → r.active ≡ true
      → (insert_area fails rows r).1 ≡ ok x
      → (x ≡ r) × IsAdded rows (insert_area fails rows r).0 x
  unfolding next_id
  inserted-IsAdded fails rows r x fresh active h =
      let (same, free, grown) = inserted fails rows r x fresh h in
      let unused = area_by_id-above r.id rows (rw fresh (omega arith)) in
      rw (same, grown)
        (
          refl,
          (
            refl,
            unused,
            found_last r.id rows r unused refl,
            get_active_by_name-append r.name rows r free refl active,
          ),
        )

module _ (fl : Floats) where
  open fl use {F}

  -- The area is added with this name, geometry and point, and is active.
  abbrev pub ReadBack :
      List (Row F) → String → Geometry F → Option (Point F) → List (Row F) → Row F → Type 0
  ReadBack before name g nav after r =
      (r.name ≡ name)
      × (geometry_of r ≡ g)
      × (resolve_nav fl g nav ≡ ok (nav_of r))
      × (r.active ≡ true)
      × IsAdded before after r

  boxed-ReadBack :
      (fails : Bool) (rows : List (Row F)) (name : String) (g : Geometry F) (now : ℤ)
      (bbox : Option (BBox F)) (nav : Option (Point F)) (resolved : Outcome (Point F)) (r : Row F)
      → stored_geometry (zero fl) g ≡ g
      → resolve_nav fl g nav ≡ resolved
      → (boxed fl fails rows 0 name g now bbox resolved).1 ≡ ok r
      → ReadBack rows name g nav (boxed fl fails rows 0 name g now bbox resolved).0 r
  unfolding boxed upsert new_row
  boxed-ReadBack fails rows name g now bbox nav (err e) r same at h = absurd (ground (arith, h))
  boxed-ReadBack fails rows name g now bbox nav panicked r same at h = absurd (ground (arith, h))
  boxed-ReadBack fails rows name g now none nav (ok p) r same at h = absurd (ground (arith, h))
  boxed-ReadBack fails rows name g now (some b) nav (ok p) r same at h =
      let (is_new, added) =
        inserted-IsAdded (fails || not (allowed_by g.kind g)) rows
          (new_row (next_id rows) name (stored_geometry (zero fl) g) p b now) r refl refl h in
      (
        ap (λ (x : Row F). x.name) is_new,
        ap geometry_of is_new ∙ same,
        at ∙ ap (λ (x : Row F). ok (nav_of x)) (sym is_new),
        ap (λ (x : Row F). x.active) is_new,
        added,
      )

  validated-ReadBack :
      (fails : Bool) (rows : List (Row F)) (name : String) (g : Geometry F) (now : ℤ)
      (bbox : Option (BBox F)) (nav : Option (Point F)) (valid : Option AreaError) (r : Row F)
      → stored_geometry (zero fl) g ≡ g
      → (validated fl fails rows 0 name g now bbox nav valid).1 ≡ ok r
      → (valid ≡ none)
        × ReadBack rows name g nav (validated fl fails rows 0 name g now bbox nav valid).0 r
  unfolding validated
  validated-ReadBack fails rows name g now bbox nav none r same h =
      (refl, boxed-ReadBack fails rows name g now bbox nav (resolve_nav fl g nav) r same refl h)
  validated-ReadBack fails rows name g now bbox nav (some e) r same h = absurd (ground (arith, h))

  -- The three shapes that an area is created of.
  pub data Shape : Type 0 where
    circle : Point F → ℤ → Shape
    polygon : List (Point F) → Shape
    grid : ℕ → List Cell → Shape

  abbrev pub created :
      Bool → List (Row F) → String → Shape → Option (Point F) → ℤ → List (Row F) × Outcome (Row F)
  created fails rows name (circle center radius_m) nav now =
      create_circle fl fails rows name center radius_m nav now
  created fails rows name (polygon poly) nav now = create_polygon fl fails rows name poly nav now
  created fails rows name (grid size cells) nav now =
      create_grid fl fails rows name size cells nav now

  -- What was asked for, the cells of a grid without repetitions and in order.
  abbrev pub geometry_for : Shape → Geometry F
  geometry_for (circle center radius_m) = circle_geometry fl center radius_m
  geometry_for (polygon poly) = polygon_geometry fl poly
  geometry_for (grid size cells) = grid_geometry fl size (dedupe_sort_cells cells)

  abbrev pub validation : Shape → Option AreaError
  validation (circle center radius_m) = validate_circle fl center radius_m
  validation (polygon poly) = validate_polygon fl poly
  validation (grid size cells) = validate_grid fl size (dedupe_sort_cells cells)

  -- If the creation of an area of any shape is answered with a row, then the shape is valid and the row
  -- has the name and the shape asked for, and the point resolved for it; it is active, and it is the one
  -- new row of the table, found by its id, which no area had, and by its name among the active areas.
  pub created-ReadBack :
      (fails : Bool) (rows : List (Row F)) (name : String) (shape : Shape) (nav : Option (Point F))
      (now : ℤ) (r : Row F)
      → (created fails rows name shape nav now).1 ≡ ok r
      → (validation shape ≡ none)
        × ReadBack rows name (geometry_for shape) nav (created fails rows name shape nav now).0 r
  unfolding create_circle create_polygon create_grid store_circle store_polygon store_grid
      stored_geometry circle_geometry polygon_geometry grid_geometry
  created-ReadBack fails rows name (circle center radius_m) nav now r =
      validated-ReadBack fails rows name (circle_geometry fl center radius_m) now
        (some (circle_bbox fl center radius_m)) nav (validate_circle fl center radius_m) r refl
  created-ReadBack fails rows name (polygon poly) nav now r =
      validated-ReadBack fails rows name (polygon_geometry fl poly) now (polygon_bbox fl poly) nav
        (validate_polygon fl poly) r refl
  created-ReadBack fails rows name (grid size cells) nav now r =
      validated-ReadBack fails rows name (grid_geometry fl size (dedupe_sort_cells cells)) now
        (grid_bbox fl size (dedupe_sort_cells cells)) nav
        (validate_grid fl size (dedupe_sort_cells cells)) r refl
