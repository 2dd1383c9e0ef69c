-- ===== src/Area/Store/Answers.antt =====
-- What the operations on areas answer.
use emergency_callup.Prelude.{
  ℕ, Bool, true, false, ◌&&◌, ◌||◌, not, List, [], ◌∷◌, Option, none, some, String, eq_iff, ltb,
  ◌==◌, ◌≡◌, ◌≢◌, refl, sym, ◌∙◌, inl, inr, arith, Bool-cases, Option-cases, if_of_false, if_both,
}
use emergency_callup.Prelude.Int.{ℤ}
use emergency_callup.Floats.{Floats}
use emergency_callup.Area.Geo.{Point, BBox, AreaError, in_korea, validate_circle, circle_bbox}
use emergency_callup.Area.Polygon.{centroid, point_in_polygon, polygon_bbox, validate_polygon}
use emergency_callup.Area.Grid.Cells.{Cell, dedupe_sort_cells}
use emergency_callup.Area.Grid.{valid_grid_size, validate_grid, grid_bbox, grid_center, center_cell}
use emergency_callup.Area.Row.{Row, Kind}
use emergency_callup.Incident.Tables.{Tables, area_by_id}
use emergency_callup.Area.Store.{
  StoreError, Outcome, ok, err, panicked, Geometry, has_active, without_row, active_row, found,
  insert_area, update_area, new_row, upsert, allowed_by, is_there, in_use, name_taken,
  database_error, deactivate, references, update_found,
}
use emergency_callup.Area.Store.Write.{
  zero, Faults, circle_geometry, polygon_geometry, grid_geometry, or_panic, default_nav,
  resolve_nav, boxed, validated, store_circle, store_polygon, store_grid, create_circle,
  create_polygon, create_grid, update_circle, update_polygon, update_grid, retire_source, copied,
  copy_circle, copy_polygon,
}
use emergency_callup.Area.Store.Refines.{
  Operation, circle_creation, polygon_creation, grid_creation, circle_update, polygon_update,
  grid_update, circle_copy, polygon_copy, deactivation,
}

abbrev is_panic : {A : Type 0} → Outcome A → Bool
is_panic panicked = true
is_panic _ = false

module _ (fl : Floats) where
  open fl use {F}

  abbrev Returns : List (Row F) × Outcome (Row F) → Type 0
  Returns r = is_panic r.1 ≡ false

  found-Returns : (o : Option (Row F)) → is_panic (found o) ≡ false
  unfolding found
  found-Returns none = refl
  found-Returns (some r) = refl

  upsert-Returns :
      (fails : Bool) (rows : List (Row F)) (id : ℕ) (name : String) (g : Geometry F) (nav : Point F)
      (b : BBox F) (now : ℤ)
      → Returns (upsert (zero fl) fails rows id name g nav b now)
  unfolding upsert insert_area update_area
  upsert-Returns fails rows id name g nav b now =
      if_both Returns (id == 0) _ _
        (if_both Returns (fails || not (allowed_by g.kind g)) _ _ refl
          (if_both Returns (has_active name rows) _ _ refl (found-Returns _)))
        (if_both Returns (fails || (is_there (area_by_id id rows) && not (allowed_by g.kind g))) _ _
          refl
          (if_both Returns
            (active_row (area_by_id id rows) && has_active name (without_row id rows)) _ _ refl
            (found-Returns _)))

  boxed-Returns :
      (fails : Bool) (rows : List (Row F)) (id : ℕ) (name : String) (g : Geometry F) (now : ℤ)
      (b : BBox F) (nav : Outcome (Point F))
      → is_panic nav ≡ false
      → Returns (boxed fl fails rows id name g now (some b) nav)
  unfolding boxed
  boxed-Returns fails rows id name g now b (ok nav) h =
      upsert-Returns fails rows id name g nav b now
  boxed-Returns fails rows id name g now b (err e) h = refl
  boxed-Returns fails rows id name g now b panicked h = absurd (ground (arith, h))

  resolve_nav-Returns :
      (g : Geometry F) (nav : Option (Point F))
      → is_panic (default_nav fl g.kind g) ≡ false
      → is_panic (resolve_nav fl g nav) ≡ false
  unfolding resolve_nav
  resolve_nav-Returns g none h = h
  resolve_nav-Returns g (some nav) h =
      if_both (λ (o : Outcome (Point F)). is_panic o ≡ false) (in_korea fl nav) _ _ refl refl

  validated-Returns :
      (f : Bool) (rows : List (Row F)) (id : ℕ) (name : String) (g : Geometry F) (now : ℤ)
      (b : BBox F) (nav : Option (Point F)) (valid : Option AreaError)
      → is_panic (default_nav fl g.kind g) ≡ false
      → Returns (validated fl f rows id name g now (some b) nav valid)
  unfolding validated
  validated-Returns f rows id name g now b nav none h =
      boxed-Returns f rows id name g now b (resolve_nav fl g nav) (resolve_nav-Returns g nav h)
  validated-Returns f rows id name g now b nav (some e) h = refl

  store_circle-Returns :
      (f : Bool) (rows : List (Row F)) (id : ℕ) (name : String) (c : Point F) (r : ℤ)
      (nav : Option (Point F)) (now : ℤ)
      → Returns (store_circle fl f rows id name c r nav now)
  unfolding store_circle default_nav circle_geometry
  store_circle-Returns f rows id name c r nav now =
      validated-Returns f rows id name (circle_geometry fl c r) now (circle_bbox fl c r) nav
        (validate_circle fl c r) refl

  polygon_nav_Returns :
      (poly : List (Point F))
      → is_panic (default_nav fl Kind.polygon (polygon_geometry fl poly)) ≡ false
  unfolding default_nav
  polygon_nav_Returns poly =
      if_both (λ (o : Outcome (Point F)). is_panic o ≡ false)
        (point_in_polygon fl (centroid fl (polygon_geometry fl poly).polygon)
          (polygon_geometry fl poly).polygon)
        _ _ refl refl

  store_polygon-Returns :
      (f : Bool) (rows : List (Row F)) (id : ℕ) (name : String) (poly : List (Point F))
      (nav : Option (Point F)) (now : ℤ)
      → Returns (store_polygon fl f rows id name poly nav now)
  unfolding store_polygon validated validate_polygon polygon_bbox polygon_geometry
  store_polygon-Returns f rows id name [] nav now = refl
  store_polygon-Returns f rows id name (p ∷ poly) nav now =
      validated-Returns f rows id name (polygon_geometry fl (p ∷ poly)) now _ nav
        (validate_polygon fl (p ∷ poly)) (polygon_nav_Returns (p ∷ poly))

  store_grid-Returns :
      (f : Bool) (rows : List (Row F)) (id : ℕ) (name : String) (size : ℕ) (cells : List Cell)
      (nav : Option (Point F)) (now : ℤ)
      → Returns (store_grid fl f rows id name size cells nav now)
  unfolding store_grid validated validate_grid grid_bbox grid_geometry default_nav grid_center
      or_panic center_cell
  store_grid-Returns f rows id name size [] nav now = elim (Bool-cases (valid_grid_size size)) [
    | inl b ↦ rw b refl
    | inr b ↦ rw b refl
  ]
  store_grid-Returns f rows id name size (c ∷ cells) nav now =
      validated-Returns f rows id name (grid_geometry fl size (c ∷ cells)) now _ nav
        (validate_grid fl size (c ∷ cells)) refl

  copied-Returns :
      (f : Bool) (rows : List (Row F)) (id : ℕ) (r : List (Row F) × Outcome (Row F))
      (o : Option (Row F))
      → Returns r
      → Returns (copied fl f rows id r o)
  unfolding copied retire_source
  copied-Returns f rows id r none h = refl
  copied-Returns f rows id (after, ok x) (some source) h = if_both Returns f _ _ refl refl
  copied-Returns f rows id (after, err e) (some source) h = refl
  copied-Returns f rows id (after, panicked) (some source) h = h

  -- Whether a call panics.
  abbrev pub panics : Tables F → Operation fl → Bool
  panics t (circle_creation f name c r nav now) =
      is_panic (create_circle fl f t.areas name c r nav now).1
  panics t (polygon_creation f name poly nav now) =
      is_panic (create_polygon fl f t.areas name poly nav now).1
  panics t (grid_creation f name size cells nav now) =
      is_panic (create_grid fl f t.areas name size cells nav now).1
  panics t (circle_update f id name c r nav now) =
      is_panic (update_circle fl f t id name c r nav now).1
  panics t (polygon_update f id name poly nav now) =
      is_panic (update_polygon fl f t id name poly nav now).1
  panics t (grid_update f id name size cells nav now) =
      is_panic (update_grid fl f t id name size cells nav now).1
  panics t (circle_copy f id name c r nav now) =
      is_panic (copy_circle fl f t.areas id name c r nav now).1
  panics t (polygon_copy f id name poly nav now) =
      is_panic (copy_polygon fl f t.areas id name poly nav now).1
  panics t (deactivation f id) = is_panic (deactivate f t id).1

  -- Whatever an operation on areas is given (no vertices, no cells), it does not panic: what takes the
  -- first vertex or the first cell runs only after the validation that refuses an empty list.
  pub perform_returns : (t : Tables F) (o : Operation fl) → panics t o ≡ false
  unfolding create_circle create_polygon create_grid update_circle update_polygon update_grid
      copy_circle copy_polygon deactivate
  perform_returns t (circle_creation f name c r nav now) =
      store_circle-Returns f t.areas 0 name c r nav now
  perform_returns t (polygon_creation f name poly nav now) =
      store_polygon-Returns f t.areas 0 name poly nav now
  perform_returns t (grid_creation f name size cells nav now) =
      store_grid-Returns f t.areas 0 name size (dedupe_sort_cells cells) nav now
  perform_returns t (circle_update f id name c r nav now) =
      if_both Returns (in_use t id) _ _ refl (store_circle-Returns f t.areas id name c r nav now)
  perform_returns t (polygon_update f id name poly nav now) =
      if_both Returns (in_use t id) _ _ refl (store_polygon-Returns f t.areas id name poly nav now)
  perform_returns t (grid_update f id name size cells nav now) =
      if_both Returns (in_use t id) _ _ refl
        (store_grid-Returns f t.areas id name size (dedupe_sort_cells cells) nav now)
  perform_returns t (circle_copy f id name c r nav now) =
      copied-Returns f.retire t.areas id _ (area_by_id id t.areas)
        (store_circle-Returns f.write t.areas 0 name c r nav now)
  perform_returns t (polygon_copy f id name poly nav now) =
      copied-Returns f.retire t.areas id _ (area_by_id id t.areas)
        (store_polygon-Returns f.write t.areas 0 name poly nav now)
  perform_returns t (deactivation f id) =
      if_both (λ (r : List (Row F) × Outcome (Unit {0})). is_panic r.1 ≡ false) (in_use t id) _ _
        refl
        (if_both (λ (r : List (Row F) × Outcome (Unit {0})). is_panic r.1 ≡ false)
          (ltb 0 (references id t.members)) _ _ refl
          (deactivated f t.areas id (area_by_id id t.areas)))
    where
      deactivated :
          (f : Bool) (rows : List (Row F)) (id : ℕ) (o : Option (Row F))
          → is_panic (update_found f rows id o).1 ≡ false
      deactivated true rows id o = refl
      deactivated false rows id none = refl
      deactivated false rows id (some r) = refl

  abbrev pub Refused : List (Row F) → List (Row F) × Outcome (Row F) → Type 0
  Refused rows r = (r.0 ≡ rows) × ((x : Row F) → r.1 ≢ ok x)

  refused : (rows : List (Row F)) (e : StoreError) → Refused rows (rows, err e)
  refused rows e = (refl, λ x h. ground (arith, h))

  active_has_name :
      (id : ℕ) (rows : List (Row F)) (r : Row F)
      → area_by_id id rows ≡ some r
      → r.active ≡ true
      → has_active r.name rows ≡ true
  unfolding area_by_id has_active
  active_has_name id [] r h active = absurd (ground (arith, h))
  active_has_name id (x ∷ rest) r h active = elim (Bool-cases (x.id == id)) [
    | inl b ↦
        let same : x ≡ r = ground (arith, h, b) in
        rw same (rw (active, (eq_iff r.name r.name).1 refl) refl)
    | inr b ↦ ground (arith, active_has_name id rest r (sym (if_of_false _ _ b) ∙ h) active)
  ]

  insert_taken :
      (f : Bool) (rows : List (Row F)) (r : Row F)
      → has_active r.name rows ≡ true
      → Refused rows (insert_area f rows r)
  unfolding insert_area
  insert_taken f rows r taken =
      rw taken
        (if_both (Refused rows) f _ _ (refused rows database_error) (refused rows name_taken))

  created_taken :
      (f : Bool) (rows : List (Row F)) (name : String) (g : Geometry F) (now : ℤ) (b : BBox F)
      (nav : Outcome (Point F))
      → has_active name rows ≡ true
      → is_panic nav ≡ false
      → Refused rows (boxed fl f rows 0 name g now (some b) nav)
  unfolding boxed upsert new_row
  created_taken f rows name g now b (ok nav) taken h = insert_taken _ rows _ taken
  created_taken f rows name g now b (err e) taken h = refused rows e
  created_taken f rows name g now b panicked taken h = absurd (ground (arith, h))

  -- A copy of an active area under the area's own name is always refused, and changes nothing: the copy
  -- is inserted while its source is still active.
  pub copy_circle-same_name :
      (faults : Faults) (rows : List (Row F)) (id : ℕ) (source : Row F) (center : Point F)
      (radius_m : ℤ) (nav : Option (Point F)) (now : ℤ)
      → area_by_id id rows ≡ some source
      → source.active ≡ true
      → Refused rows (copy_circle fl faults rows id source.name center radius_m nav now)
  unfolding copy_circle copied create_circle store_circle validated default_nav
  copy_circle-same_name faults rows id source center radius_m nav now h active = rw h (
      passed _ (elim (Option-cases (validate_circle fl center radius_m)) [
        | inl valid ↦ rw valid (
            created_taken faults.write rows source.name (circle_geometry fl center radius_m) now
              (circle_bbox fl center radius_m)
              (resolve_nav fl (circle_geometry fl center radius_m) nav)
              (active_has_name id rows source h active)
              (resolve_nav-Returns (circle_geometry fl center radius_m) nav circle_nav_Returns))
        | inr (e, invalid) ↦ rw invalid (refused rows _)
      ]))
    where
      circle_nav_Returns :
          is_panic (default_nav fl Kind.circle (circle_geometry fl center radius_m)) ≡ false
      circle_nav_Returns = refl

      passed :
          (r : List (Row F) × Outcome (Row F))
          → Refused rows r
          → Refused rows (retire_source fl faults.retire id r)
      passed (after, ok x) c = absurd (c.1 x refl)
      passed (after, err e) c = c
      passed (after, panicked) c = c
