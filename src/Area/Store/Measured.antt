-- ===== src/Area/Store/Measured.antt =====
-- internal/area/store.go: every stored area has an equivalent radius, since a polygon without points is
-- never stored.
use emergency_callup.Prelude.{
  ℕ, Bool, true, false, ◌&&◌, ◌||◌, not, List, [], ◌∷◌, ◌++◌, Option, none, some, String, ltb, ◌==◌,
  ◌≡◌, ◌≢◌, refl, arith, if_both,
}
use emergency_callup.Prelude.Int.{ℤ}
use emergency_callup.Floats.{Floats}
use emergency_callup.Area.Geo.{Point, BBox, AreaError, validate_circle, circle_bbox}
use emergency_callup.Area.Polygon.{polygon_bbox, validate_polygon, r_eq_polygon}
use emergency_callup.Area.Grid.Cells.{Cell, dedupe_sort_cells}
use emergency_callup.Area.Grid.{validate_grid, grid_bbox}
use emergency_callup.Area.Row.{Row, Kind, r_eq}
use emergency_callup.Incident.Tables.{Tables, area_by_id}
use emergency_callup.Area.Store.{
  Outcome, ok, err, panicked, Geometry, has_active, next_id, update_row, without_row, active_row,
  insert_area, update_area, new_row, replaced, stored_geometry, allowed_by, is_there, upsert,
  retired, in_use, references, update_found, deactivate,
}
use emergency_callup.Area.Store.Write.{
  zero, circle_geometry, polygon_geometry, grid_geometry, resolve_nav, boxed, validated,
  store_circle, store_polygon, store_grid, create_circle, create_polygon, create_grid,
  update_circle, update_polygon, update_grid, retire_source, copied, copy_circle, copy_polygon,
}
use emergency_callup.Area.Store.Refines.{
  Operation, circle_creation, polygon_creation, grid_creation, circle_update, polygon_update,
  grid_update, circle_copy, polygon_copy, deactivation, perform, perform_all,
}

module _ (fl : Floats) where
  open fl use {F}

  -- Every area has an equivalent radius.
  abbrev pub AllMeasured : List (Row F) → Type 0
  AllMeasured [] = Unit
  AllMeasured (ar ∷ rest) = (r_eq fl ar ≢ none) × AllMeasured rest

  append-AllMeasured :
      (rows : List (Row F)) (r : Row F)
      → r_eq fl r ≢ none
      → AllMeasured rows
      → AllMeasured (rows ++ r ∷ [])
  append-AllMeasured [] r known m = (known, tt)
  append-AllMeasured (x ∷ rest) r known (k, m) = (k, append-AllMeasured rest r known m)

  update_row-AllMeasured :
      (id : ℕ) (change : Row F → Row F) (rows : List (Row F))
      → ((s : Row F) → r_eq fl s ≢ none → r_eq fl (change s) ≢ none)
      → AllMeasured rows
      → AllMeasured (update_row id change rows)
  unfolding update_row
  update_row-AllMeasured id change [] keeps m = tt
  update_row-AllMeasured id change (x ∷ rest) keeps (k, m) =
      if_both AllMeasured (x.id == id) _ _ (keeps x k, m)
        (k, update_row-AllMeasured id change rest keeps m)

  -- The rows after a call, whatever it answers.
  abbrev Leaves : {A : Type 0} → List (Row F) × A → Type 0
  Leaves r = AllMeasured r.0

  -- A row of this geometry has a radius.
  abbrev Measures : Geometry F → Type 0
  Measures g =
      (id : ℕ) (name : String) (nav : Point F) (b : BBox F) (now : ℤ) (is_active : Bool)
      → r_eq fl
          (record (new_row id name (stored_geometry (zero fl) g) nav b now) { active = is_active })
        ≢ none

  retired_keeps : (s : Row F) → r_eq fl s ≢ none → r_eq fl (retired s) ≢ none
  unfolding retired r_eq
  retired_keeps s known = rw (same s.kind refl) known
    where
      same : (k : Kind) → s.kind ≡ k → r_eq fl (retired s) ≡ r_eq fl s
      same Kind.circle e = rw e refl
      same Kind.polygon e = rw e refl
      same Kind.grid e = rw e refl

  upsert-Leaves :
      (fails : Bool) (rows : List (Row F)) (id : ℕ) (name : String) (g : Geometry F) (nav : Point F)
      (b : BBox F) (now : ℤ)
      → Measures g
      → AllMeasured rows
      → Leaves (upsert (zero fl) fails rows id name g nav b now)
  unfolding upsert insert_area update_area replaced r_eq new_row
  upsert-Leaves fails rows id name g nav b now known m =
      if_both (λ (r : List (Row F) × Outcome (Row F)). Leaves r) (id == 0) _ _
        (if_both (λ (r : List (Row F) × Outcome (Row F)). Leaves r)
          (fails || not (allowed_by g.kind g)) _ _ m
          (if_both (λ (r : List (Row F) × Outcome (Row F)). Leaves r) (has_active name rows) _ _ m
            (append-AllMeasured rows _ (known (next_id rows) name nav b now true) m)))
        (if_both (λ (r : List (Row F) × Outcome (Row F)). Leaves r)
          (fails || (is_there (area_by_id id rows) && not (allowed_by g.kind g))) _ _ m
          (if_both (λ (r : List (Row F) × Outcome (Row F)). Leaves r)
            (active_row (area_by_id id rows) && has_active name (without_row id rows)) _ _ m
            (update_row-AllMeasured id (replaced name (stored_geometry (zero fl) g) nav b) rows
              (λ s _. known s.id name nav b s.created_at s.active) m)))

  boxed-Leaves :
      (fails : Bool) (rows : List (Row F)) (id : ℕ) (name : String) (g : Geometry F) (now : ℤ)
      (bbox : Option (BBox F)) (nav : Outcome (Point F))
      → Measures g
      → AllMeasured rows
      → Leaves (boxed fl fails rows id name g now bbox nav)
  unfolding boxed
  boxed-Leaves fails rows id name g now bbox (err e) known m = m
  boxed-Leaves fails rows id name g now bbox panicked known m = m
  boxed-Leaves fails rows id name g now none (ok nav) known m = m
  boxed-Leaves fails rows id name g now (some b) (ok nav) known m =
      upsert-Leaves fails rows id name g nav b now known m

  validated-Leaves :
      (fails : Bool) (rows : List (Row F)) (id : ℕ) (name : String) (g : Geometry F) (now : ℤ)
      (bbox : Option (BBox F)) (nav : Option (Point F)) (valid : Option AreaError)
      → (valid ≡ none → Measures g)
      → AllMeasured rows
      → Leaves (validated fl fails rows id name g now bbox nav valid)
  unfolding validated
  validated-Leaves fails rows id name g now bbox nav (some e) known m = m
  validated-Leaves fails rows id name g now bbox nav none known m =
      boxed-Leaves fails rows id name g now bbox (resolve_nav fl g nav) (known refl) m

  circle-Measures : (c : Point F) (r : ℤ) → Measures (circle_geometry fl c r)
  unfolding new_row stored_geometry circle_geometry r_eq
  circle-Measures c r id name nav b now is_active h = ground (arith, h)

  grid-Measures : (size : ℕ) (cells : List Cell) → Measures (grid_geometry fl size cells)
  unfolding new_row stored_geometry grid_geometry r_eq
  grid-Measures size cells id name nav b now is_active h = ground (arith, h)

  -- A polygon that passes the validation has points.
  polygon-Measures :
      (poly : List (Point F))
      → validate_polygon fl poly ≡ none
      → Measures (polygon_geometry fl poly)
  unfolding new_row stored_geometry polygon_geometry r_eq r_eq_polygon polygon_bbox validate_polygon
  polygon-Measures [] valid id name nav b now is_active h = ground (arith, valid)
  polygon-Measures (p ∷ poly) valid id name nav b now is_active h = ground (arith, h)

  store_circle-Leaves :
      (f : Bool) (rows : List (Row F)) (id : ℕ) (name : String) (c : Point F) (r : ℤ)
      (nav : Option (Point F)) (now : ℤ)
      → AllMeasured rows
      → Leaves (store_circle fl f rows id name c r nav now)
  unfolding store_circle
  store_circle-Leaves f rows id name c r nav now =
      validated-Leaves f rows id name (circle_geometry fl c r) now (some (circle_bbox fl c r)) nav
        (validate_circle fl c r) (λ _. circle-Measures c r)

  store_polygon-Leaves :
      (f : Bool) (rows : List (Row F)) (id : ℕ) (name : String) (poly : List (Point F))
      (nav : Option (Point F)) (now : ℤ)
      → AllMeasured rows
      → Leaves (store_polygon fl f rows id name poly nav now)
  unfolding store_polygon
  store_polygon-Leaves f rows id name poly nav now =
      validated-Leaves f rows id name (polygon_geometry fl poly) now (polygon_bbox fl poly) nav
        (validate_polygon fl poly) (polygon-Measures poly)

  store_grid-Leaves :
      (f : Bool) (rows : List (Row F)) (id : ℕ) (name : String) (size : ℕ) (cells : List Cell)
      (nav : Option (Point F)) (now : ℤ)
      → AllMeasured rows
      → Leaves (store_grid fl f rows id name size cells nav now)
  unfolding store_grid
  store_grid-Leaves f rows id name size cells nav now =
      validated-Leaves f rows id name (grid_geometry fl size cells) now (grid_bbox fl size cells)
        nav (validate_grid fl size cells) (λ _. grid-Measures size cells)

  copied-Leaves :
      (f : Bool) (rows : List (Row F)) (id : ℕ) (r : List (Row F) × Outcome (Row F))
      (source : Option (Row F))
      → AllMeasured rows
      → Leaves r
      → Leaves (copied fl f rows id r source)
  unfolding copied retire_source
  copied-Leaves f rows id r none m c = m
  copied-Leaves f rows id (after, ok x) (some source) m c =
      if_both (λ (r : List (Row F) × Outcome (Row F)). Leaves r) f _ _ c
        (update_row-AllMeasured id retired after retired_keeps c)
  copied-Leaves f rows id (after, err e) (some source) m c = c
  copied-Leaves f rows id (after, panicked) (some source) m c = c

  update_found-Leaves :
      (f : Bool) (rows : List (Row F)) (id : ℕ) (o : Option (Row F))
      → AllMeasured rows
      → Leaves (update_found f rows id o)
  unfolding update_found
  update_found-Leaves true rows id o m = m
  update_found-Leaves false rows id none m = m
  update_found-Leaves false rows id (some r) m =
      update_row-AllMeasured id retired rows retired_keeps m

  perform-Leaves :
      (t : Tables F) (o : Operation fl) → AllMeasured t.areas → AllMeasured (perform fl t o)
  unfolding create_circle create_polygon create_grid update_circle update_polygon update_grid
      copy_circle copy_polygon deactivate
  perform-Leaves t (circle_creation f name c r nav now) m =
      store_circle-Leaves f t.areas 0 name c r nav now m
  perform-Leaves t (polygon_creation f name poly nav now) m =
      store_polygon-Leaves f t.areas 0 name poly nav now m
  perform-Leaves t (grid_creation f name size cells nav now) m =
      store_grid-Leaves f t.areas 0 name size (dedupe_sort_cells cells) nav now m
  perform-Leaves t (circle_update f id name c r nav now) m =
      if_both (λ (r : List (Row F) × Outcome (Row F)). Leaves r) (in_use t id) _ _ m
        (store_circle-Leaves f t.areas id name c r nav now m)
  perform-Leaves t (polygon_update f id name poly nav now) m =
      if_both (λ (r : List (Row F) × Outcome (Row F)). Leaves r) (in_use t id) _ _ m
        (store_polygon-Leaves f t.areas id name poly nav now m)
  perform-Leaves t (grid_update f id name size cells nav now) m =
      if_both (λ (r : List (Row F) × Outcome (Row F)). Leaves r) (in_use t id) _ _ m
        (store_grid-Leaves f t.areas id name size (dedupe_sort_cells cells) nav now m)
  perform-Leaves t (circle_copy f id name c r nav now) m =
      copied-Leaves f.retire t.areas id _ (area_by_id id t.areas) m
        (store_circle-Leaves f.write t.areas 0 name c r nav now m)
  perform-Leaves t (polygon_copy f id name poly nav now) m =
      copied-Leaves f.retire t.areas id _ (area_by_id id t.areas) m
        (store_polygon-Leaves f.write t.areas 0 name poly nav now m)
  perform-Leaves t (deactivation f id) m =
      if_both (λ (r : List (Row F) × Outcome (Unit {0})). Leaves r) (in_use t id) _ _ m
        (if_both (λ (r : List (Row F) × Outcome (Unit {0})). Leaves r)
          (ltb 0 (references id t.members)) _ _ m
          (update_found-Leaves f t.areas id (area_by_id id t.areas) m))

  -- If every stored area has an equivalent radius (is no polygon without points), then every one has after
  -- any operations on areas.
  pub perform_all-AllMeasured :
      (t : Tables F) (operations : List (Operation fl))
      → AllMeasured t.areas
      → AllMeasured (perform_all fl t operations)
  perform_all-AllMeasured t [] m = m
  perform_all-AllMeasured t (o ∷ rest) m =
      perform_all-AllMeasured (record t { areas = perform fl t o }) rest (perform-Leaves t o m)
