-- ===== src/Area/Grid/Tests.antt =====
-- Selections of 100 m cells, and the theorems at them.
use emergency_callup.Prelude.{ℕ, arith, List, [], ◌∷◌, ◌≡◌, ◌↔◌, true, ◌⊎◌, refl}
use emergency_callup.Prelude.Int.{ℤ, pos, ltb_ℤ, eq_ℤ, ◌*ℤ◌, ◌+ℤ◌, ◌-ℤ◌}
use emergency_callup.Floats.Fixed.{fixed}
use emergency_callup.Area.Geo.{Point, BBox, circle_bbox}
use emergency_callup.Area.Grid.Cells.{Cell, has_cell, dedupe_sort_cells}
use emergency_callup.Area.Grid.{
  ok, candidates, keep_within, cell_of, cell_range, cells_within_radius,
}
use emergency_callup.Area.Grid.Canonical.{dedupe_sort_cells_canonical}
use emergency_callup.Area.Grid.Scan.{IsWithin, has_cell-cells_within_radius}

abbrev cell : ℕ → ℕ → Cell
cell a b = record { i = pos a; j = pos b }

abbrev clicked : List Cell
clicked = cell 5 2 ∷ cell 3 9 ∷ cell 5 2 ∷ []

abbrev redrawn : List Cell
redrawn = cell 3 9 ∷ cell 5 2 ∷ []

abbrev spot : Point ℤ
spot = record { lat = pos 36000000; lng = pos 127000000 }

same_cells : (x : Cell) → has_cell x clicked ≡ has_cell x redrawn
unfolding has_cell
same_cells x = ground arith

dedupe_sort_cells_canonical_example : dedupe_sort_cells clicked ≡ dedupe_sort_cells redrawn
dedupe_sort_cells_canonical_example = dedupe_sort_cells_canonical clicked redrawn same_cells

-- The box of a circle of 20 m.
abbrev box : BBox ℤ
box = circle_bbox fixed spot (pos 20)

in_range : cell_range fixed 100 box ≡ ok (cell 141425 40088, cell 141425 40089)
unfolding cell_range circle_bbox ltb_ℤ ◌*ℤ◌ ◌+ℤ◌ ◌-ℤ◌
in_range = refl

fills :
    cells_within_radius fixed 100 spot (pos 20) ≡ ok (cell 141425 40088 ∷ cell 141425 40089 ∷ [])
unfolding cells_within_radius cell_range circle_bbox ltb_ℤ ◌*ℤ◌ ◌+ℤ◌ ◌-ℤ◌ dedupe_sort_cells
    keep_within candidates eq_ℤ
fills = refl

has_cell-cells_within_radius_example :
    (has_cell (cell 141425 40088) (cell 141425 40088 ∷ cell 141425 40089 ∷ []) ≡ true) ↔ (
      (cell 141425 40088 ≡ cell_of fixed 100 spot)
      ⊎ IsWithin fixed 100 spot (pos 20) (cell 141425 40088))
has_cell-cells_within_radius_example =
    has_cell-cells_within_radius fixed 100 spot (pos 20) (cell 141425 40088)
      (cell 141425 40088 ∷ cell 141425 40089 ∷ []) fills
