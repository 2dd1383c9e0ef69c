-- ===== src/Area/Grid/Cells.antt =====
-- internal/area/grid.go: cells, sets of cells, and the canonical order in which they are stored.
use emergency_callup.Prelude.{Bool, false, ◌&&◌, ◌||◌, List, [], ◌∷◌, if◌then◌else◌}
use emergency_callup.Prelude.Int.{ℤ, eq_ℤ, ltb_ℤ}

pub record Cell : Type 0 where
  pub i : ℤ
  pub j : ℤ

unfoldable pub eq_cell : Cell → Cell → Bool
eq_cell a b = eq_ℤ a.i b.i && eq_ℤ a.j b.j

-- `set[c]`, for the set that holds the cells of a list.
unfoldable pub has_cell : Cell → List Cell → Bool
unfolding eq_cell
has_cell c [] = false
has_cell c (d ∷ ds) = eq_cell c d || has_cell c ds

-- The order by J, then by I.
unfoldable pub lt_cell : Cell → Cell → Bool
lt_cell a b = if eq_ℤ a.j b.j then ltb_ℤ a.i b.i else ltb_ℤ a.j b.j

-- The loop that drops a cell seen before; it keeps the first of equal cells.
unfoldable pub dedupe : List Cell → List Cell → List Cell
unfolding has_cell
dedupe seen [] = []
dedupe seen (c ∷ cs) =
    let skip = dedupe seen cs in
    let keep = c ∷ dedupe (c ∷ seen) cs in if has_cell c seen then skip else keep

unfoldable pub insert_cell : Cell → List Cell → List Cell
unfolding lt_cell
insert_cell c [] = c ∷ []
insert_cell c (d ∷ ds) = if lt_cell d c then d ∷ insert_cell c ds else c ∷ d ∷ ds

-- `sort.Slice` by the order above.
unfoldable pub sort_cells : List Cell → List Cell
unfolding insert_cell
sort_cells [] = []
sort_cells (c ∷ cs) = insert_cell c (sort_cells cs)

unfoldable pub dedupe_sort_cells : List Cell → List Cell
unfolding dedupe sort_cells
dedupe_sort_cells cells = sort_cells (dedupe [] cells)
