-- ===== src/Area/Grid/Center.antt =====
-- internal/area/grid.go, `GridCenter`: the default nav point of a grid area.
use emergency_callup.Prelude.{ℕ, true, List, [], ◌∷◌, ◌≡◌, refl, some, arith, if◌then◌else◌}
use emergency_callup.Floats.{Floats}
use emergency_callup.Area.Geo.{Point, haversine}
use emergency_callup.Area.Grid.Cells.{Cell, has_cell}
use emergency_callup.Area.Grid.Canonical.{eq_cell_iff}
use emergency_callup.Area.Grid.{center_cell, grid_center, cell_center, closest}

module _ (fl : Floats) where
  open fl use {F, lt}

  closest-has_cell :
      (size : ℕ) (mean : Point F) (best : Cell) (best_d : F) (cs all : List Cell)
      → has_cell best all ≡ true
      → ((x : Cell) → has_cell x cs ≡ true → has_cell x all ≡ true)
      → has_cell (closest fl size mean best best_d cs) all ≡ true
  unfolding closest has_cell
  closest-has_cell size mean best best_d [] all h sub = h
  closest-has_cell size mean best best_d (c ∷ cs) all h sub =
      closest-has_cell size mean (if lt d best_d then c else best)
        (if lt d best_d then d else best_d) cs all (ground (arith, sub c, eq_cell_iff c c, h))
        (λ x m. sub x (ground arith))
    where
      d : F
      d = haversine fl mean (cell_center fl size c)

  -- The center of a grid area is the center of one of its own cells, whatever the arithmetic does.
  pub grid_center_inside :
      (size : ℕ) (c : Cell) (cs : List Cell)
      → (d : Cell) × (has_cell d (c ∷ cs) ≡ true)
        × (grid_center fl size (c ∷ cs) ≡ some (cell_center fl size d))
  unfolding grid_center center_cell has_cell
  grid_center_inside size c cs = (
    _,
    closest-has_cell size _ c _ (c ∷ cs) (c ∷ cs) (ground (arith, eq_cell_iff c c)) (λ x m. m),
    refl,
  )
