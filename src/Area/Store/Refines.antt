-- ===== src/Area/Store/Refines.antt =====
-- The operations on areas as sequences of the changes, and what follows for any sequence of operations.
use emergency_callup.Prelude.{
  ℕ, Bool, true, false, ◌&&◌, List, [], ◌∷◌, Option, none, some, String, ltb, ◌==◌, if◌then◌else◌,
  ◌≡◌, refl, ◌⊎◌, inl, inr, arith, Bool-cases, if_both,
}
use emergency_callup.Prelude.Int.{ℤ}
use emergency_callup.Floats.{Floats}
use emergency_callup.Area.Geo.{Point, BBox, AreaError, validate_circle, circle_bbox}
use emergency_callup.Area.Polygon.{polygon_bbox, validate_polygon}
use emergency_callup.Area.Grid.Cells.{Cell, dedupe_sort_cells}
use emergency_callup.Area.Grid.{validate_grid, grid_bbox}
use emergency_callup.Area.Row.{Row}
use emergency_callup.Incident.Tables.{Tables, area_by_id}
use emergency_callup.Area.Store.{
  Outcome, ok, err, panicked, Geometry, has_active, next_id, without_row, active_row, insert_area,
  update_area, new_row, replaced, upsert, in_use, references, update_found, deactivate, area_in_use,
}
use emergency_callup.Area.Store.Write.{
  zero, Faults, circle_geometry, polygon_geometry, grid_geometry, resolve_nav, boxed, validated,
  store_circle, store_polygon, store_grid, create_circle, create_polygon, create_grid,
  update_circle, update_polygon, update_grid, retire_source, copied, copy_circle, copy_polygon,
}
use emergency_callup.Area.Store.Change.{
  Edits, insertion, edit, retirement, Changes, here, next, joined, NamesDiffer, Changes-NamesDiffer,
  Keeps, Changes-Keeps,
}

module _ {F : Type 0} where
  -- The rows after a call, whatever it answers.
  Stores : {A : Type 0} → (ℕ → Bool) → List (Row F) → List (Row F) × A → Type 0
  Stores used rows r = Changes used rows r.0

  insert_area-Stores :
      (used : ℕ → Bool) (fails : Bool) (rows : List (Row F)) (r : Row F)
      → r.id ≡ next_id rows
      → Stores used rows (insert_area fails rows r)
  unfolding Stores insert_area
  insert_area-Stores used fails rows r fresh = elim (Bool-cases (has_active r.name rows)) [
    | inl b ↦ rw b (if_both (λ (x : List (Row F) × _). Changes used rows x.0) fails _ _ here here)
    | inr b ↦ rw b (
        if_both (λ (x : List (Row F) × _). Changes used rows x.0) fails _ _ here
          (next here (insertion rows r b fresh)))
  ]

  update_area-Stores :
      (used : ℕ → Bool) (fails : Bool) (rows : List (Row F)) (id : ℕ) (name : String)
      (change : Row F → Row F)
      → used id ≡ false
      → Edits name change
      → Stores used rows (update_area fails rows id name change)
  unfolding Stores update_area
  update_area-Stores used fails rows id name change unused edits =
      elim (Bool-cases (active_row (area_by_id id rows) && has_active name (without_row id rows))) [
        | inl b ↦
            rw b (if_both (λ (x : List (Row F) × _). Changes used rows x.0) fails _ _ here here)
        | inr b ↦ rw b (
            if_both (λ (x : List (Row F) × _). Changes used rows x.0) fails _ _ here
              (next here (edit rows id name change unused edits b)))
      ]

  upsert-Stores :
      (used : ℕ → Bool) (zero : F) (fails : Bool) (rows : List (Row F)) (id : ℕ) (name : String)
      (g : Geometry F) (nav : Point F) (bbox : BBox F) (now : ℤ)
      → (id ≡ 0) ⊎ (used id ≡ false)
      → Stores used rows (upsert zero fails rows id name g nav bbox now)
  unfolding upsert new_row replaced
  upsert-Stores used zero fails rows id name g nav bbox now unused = elim (Bool-cases (id == 0)) [
    | inl b ↦ rw b (insert_area-Stores used _ rows _ refl)
    | inr b ↦ rw b (
        update_area-Stores used _ rows id name _ (ground (arith, unused, b))
          (record { keeps_id = λ r. refl; keeps_active = λ r. refl; sets_name = λ r. refl }))
  ]

  update_found-Stores :
      (used : ℕ → Bool) (fails : Bool) (rows : List (Row F)) (id : ℕ) (o : Option (Row F))
      → Stores used rows (update_found fails rows id o)
  unfolding Stores update_found
  update_found-Stores used true rows id o = here
  update_found-Stores used false rows id none = here
  update_found-Stores used false rows id (some r) = next here (retirement rows id)

  deactivate-Stores :
      (fails : Bool) (t : Tables F) (id : ℕ) → Stores (in_use t) t.areas (deactivate fails t id)
  unfolding Stores deactivate
  deactivate-Stores fails t id =
      if_both (λ (x : List (Row F) × _). Changes (in_use t) t.areas x.0) (in_use t id) _ _ here
        (if_both (λ (x : List (Row F) × _). Changes (in_use t) t.areas x.0)
          (ltb 0 (references id t.members)) _ _ here
          (update_found-Stores (in_use t) fails t.areas id (area_by_id id t.areas)))

module _ (fl : Floats) where
  open fl use {F}

  boxed-Stores :
      (used : ℕ → Bool) (fails : Bool) (rows : List (Row F)) (id : ℕ) (name : String)
      (g : Geometry F) (now : ℤ) (bbox : Option (BBox F)) (nav : Outcome (Point F))
      → (id ≡ 0) ⊎ (used id ≡ false)
      → Stores used rows (boxed fl fails rows id name g now bbox nav)
  unfolding boxed Stores
  boxed-Stores used fails rows id name g now bbox (err e) unused = here
  boxed-Stores used fails rows id name g now bbox panicked unused = here
  boxed-Stores used fails rows id name g now none (ok nav) unused = here
  boxed-Stores used fails rows id name g now (some b) (ok nav) unused =
      upsert-Stores used (zero fl) fails rows id name g nav b now unused

  validated-Stores :
      (used : ℕ → Bool) (fails : Bool) (rows : List (Row F)) (id : ℕ) (name : String)
      (g : Geometry F) (now : ℤ) (bbox : Option (BBox F)) (nav : Option (Point F))
      (valid : Option AreaError)
      → (id ≡ 0) ⊎ (used id ≡ false)
      → Stores used rows (validated fl fails rows id name g now bbox nav valid)
  unfolding validated Stores
  validated-Stores used fails rows id name g now bbox nav (some e) unused = here
  validated-Stores used fails rows id name g now bbox nav none unused =
      boxed-Stores used fails rows id name g now bbox (resolve_nav fl g nav) unused

  store_circle-Stores :
      (used : ℕ → Bool) (f : Bool) (rows : List (Row F)) (id : ℕ) (name : String) (c : Point F)
      (r : ℤ) (nav : Option (Point F)) (now : ℤ)
      → (id ≡ 0) ⊎ (used id ≡ false)
      → Stores used rows (store_circle fl f rows id name c r nav now)
  unfolding store_circle
  store_circle-Stores used f rows id name c r nav now =
      validated-Stores used f rows id name (circle_geometry fl c r) now (some (circle_bbox fl c r))
        nav (validate_circle fl c r)

  store_polygon-Stores :
      (used : ℕ → Bool) (f : Bool) (rows : List (Row F)) (id : ℕ) (name : String)
      (poly : List (Point F)) (nav : Option (Point F)) (now : ℤ)
      → (id ≡ 0) ⊎ (used id ≡ false)
      → Stores used rows (store_polygon fl f rows id name poly nav now)
  unfolding store_polygon
  store_polygon-Stores used f rows id name poly nav now =
      validated-Stores used f rows id name (polygon_geometry fl poly) now (polygon_bbox fl poly) nav
        (validate_polygon fl poly)

  store_grid-Stores :
      (used : ℕ → Bool) (f : Bool) (rows : List (Row F)) (id : ℕ) (name : String) (size : ℕ)
      (cells : List Cell) (nav : Option (Point F)) (now : ℤ)
      → (id ≡ 0) ⊎ (used id ≡ false)
      → Stores used rows (store_grid fl f rows id name size cells nav now)
  unfolding store_grid
  store_grid-Stores used f rows id name size cells nav now =
      validated-Stores used f rows id name (grid_geometry fl size cells) now
        (grid_bbox fl size cells) nav (validate_grid fl size cells)

  retire_source-Stores :
      (used : ℕ → Bool) (fails : Bool) (rows : List (Row F)) (id : ℕ)
      (r : List (Row F) × Outcome (Row F))
      → Stores used rows r
      → Stores used rows (retire_source fl fails id r)
  unfolding retire_source Stores
  retire_source-Stores used fails rows id (after, ok r) c =
      if_both (λ (x : List (Row F) × _). Changes used rows x.0) fails _ _ c
        (joined c (next here (retirement after id)))
  retire_source-Stores used fails rows id (after, err e) c = c
  retire_source-Stores used fails rows id (after, panicked) c = c

  copied-Stores :
      (used : ℕ → Bool) (fails : Bool) (rows : List (Row F)) (id : ℕ)
      (r : List (Row F) × Outcome (Row F)) (source : Option (Row F))
      → Stores used rows r
      → Stores used rows (copied fl fails rows id r source)
  unfolding copied Stores
  copied-Stores used fails rows id r none c = here
  copied-Stores used fails rows id r (some source) c = retire_source-Stores used fails rows id r c

  -- A call of one of the operations, with what goes wrong in it.
  pub data Operation : Type 0 where
    circle_creation : Bool → String → Point F → ℤ → Option (Point F) → ℤ → Operation
    polygon_creation : Bool → String → List (Point F) → Option (Point F) → ℤ → Operation
    grid_creation : Bool → String → ℕ → List Cell → Option (Point F) → ℤ → Operation
    circle_update : Bool → ℕ → String → Point F → ℤ → Option (Point F) → ℤ → Operation
    polygon_update : Bool → ℕ → String → List (Point F) → Option (Point F) → ℤ → Operation
    grid_update : Bool → ℕ → String → ℕ → List Cell → Option (Point F) → ℤ → Operation
    circle_copy : Faults → ℕ → String → Point F → ℤ → Option (Point F) → ℤ → Operation
    polygon_copy : Faults → ℕ → String → List (Point F) → Option (Point F) → ℤ → Operation
    deactivation : Bool → ℕ → Operation

  abbrev pub perform : Tables F → Operation → List (Row F)
  perform t (circle_creation f name c r nav now) = (create_circle fl f t.areas name c r nav now).0
  perform t (polygon_creation f name poly nav now) =
      (create_polygon fl f t.areas name poly nav now).0
  perform t (grid_creation f name size cells nav now) =
      (create_grid fl f t.areas name size cells nav now).0
  perform t (circle_update f id name c r nav now) = (update_circle fl f t id name c r nav now).0
  perform t (polygon_update f id name poly nav now) = (update_polygon fl f t id name poly nav now).0
  perform t (grid_update f id name size cells nav now) =
      (update_grid fl f t id name size cells nav now).0
  perform t (circle_copy f id name c r nav now) = (copy_circle fl f t.areas id name c r nav now).0
  perform t (polygon_copy f id name poly nav now) =
      (copy_polygon fl f t.areas id name poly nav now).0
  perform t (deactivation f id) = (deactivate f t id).0

  guarded-Stores :
      (t : Tables F) (id : ℕ) (e : Outcome (Row F)) (r : List (Row F) × Outcome (Row F))
      → (in_use t id ≡ false → Stores (in_use t) t.areas r)
      → Stores (in_use t) t.areas (if in_use t id then (t.areas, e) else r)
  unfolding Stores
  guarded-Stores t id e r stores = elim (Bool-cases (in_use t id)) [
    | inl b ↦ rw b here
    | inr b ↦ rw b (stores b)
  ]

  -- Whatever an operation on areas is given and whatever goes wrong in it, what it does to the table is a
  -- sequence of the statements that `Change` allows: an insert under a fresh id and a name that no active
  -- row has, an update of a row that the active incident does not use to a name free for it, or a
  -- deactivation.
  pub perform-Changes : (t : Tables F) (o : Operation) → Changes (in_use t) t.areas (perform t o)
  unfolding Stores create_circle create_polygon create_grid update_circle update_polygon update_grid
      copy_circle copy_polygon
  perform-Changes t (circle_creation f name c r nav now) =
      store_circle-Stores (in_use t) f t.areas 0 name c r nav now (inl refl)
  perform-Changes t (polygon_creation f name poly nav now) =
      store_polygon-Stores (in_use t) f t.areas 0 name poly nav now (inl refl)
  perform-Changes t (grid_creation f name size cells nav now) =
      store_grid-Stores (in_use t) f t.areas 0 name size (dedupe_sort_cells cells) nav now
        (inl refl)
  perform-Changes t (circle_update f id name c r nav now) =
      guarded-Stores t id (err area_in_use) (store_circle fl f t.areas id name c r nav now)
        (λ b. store_circle-Stores (in_use t) f t.areas id name c r nav now (inr b))
  perform-Changes t (polygon_update f id name poly nav now) =
      guarded-Stores t id (err area_in_use) (store_polygon fl f t.areas id name poly nav now)
        (λ b. store_polygon-Stores (in_use t) f t.areas id name poly nav now (inr b))
  perform-Changes t (grid_update f id name size cells nav now) =
      guarded-Stores t id (err area_in_use)
        (store_grid fl f t.areas id name size (dedupe_sort_cells cells) nav now)
        (λ b.
          store_grid-Stores (in_use t) f t.areas id name size (dedupe_sort_cells cells) nav now
            (inr b))
  perform-Changes t (circle_copy f id name c r nav now) =
      copied-Stores (in_use t) f.retire t.areas id
        (create_circle fl f.write t.areas name c r nav now) (area_by_id id t.areas)
        (store_circle-Stores (in_use t) f.write t.areas 0 name c r nav now (inl refl))
  perform-Changes t (polygon_copy f id name poly nav now) =
      copied-Stores (in_use t) f.retire t.areas id
        (create_polygon fl f.write t.areas name poly nav now) (area_by_id id t.areas)
        (store_polygon-Stores (in_use t) f.write t.areas 0 name poly nav now (inl refl))
  perform-Changes t (deactivation f id) = deactivate-Stores f t id

  abbrev pub perform_all : Tables F → List Operation → List (Row F)
  perform_all t [] = t.areas
  perform_all t (o ∷ rest) = perform_all (record t { areas = perform t o }) rest

  -- If no two active areas have the same name, then none have after any operations.
  pub perform_all-NamesDiffer :
      (t : Tables F) (operations : List Operation)
      → NamesDiffer t.areas
      → NamesDiffer (perform_all t operations)
  perform_all-NamesDiffer t [] differ = differ
  perform_all-NamesDiffer t (o ∷ rest) differ =
      perform_all-NamesDiffer (record t { areas = perform t o }) rest
        (Changes-NamesDiffer (perform-Changes t o) differ)

  -- An area that the active incident uses, by the task of a team or by a member's effective area, is
  -- still there after any operations on areas, with all its columns but `active` as they were.
  pub perform_all-Keeps :
      (t : Tables F) (operations : List Operation) (id : ℕ) (r : Row F)
      → in_use t id ≡ true
      → Keeps id r t.areas
      → Keeps id r (perform_all t operations)
  unfolding in_use
  perform_all-Keeps t [] id r used kept = kept
  perform_all-Keeps t (o ∷ rest) id r used kept =
      perform_all-Keeps (record t { areas = perform t o }) rest id r used
        (Changes-Keeps id r used (perform-Changes t o) kept)
