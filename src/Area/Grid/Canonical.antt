-- ===== src/Area/Grid/Canonical.antt =====
-- internal/area/grid.go, `DedupeSortCells`: what is stored depends on the set of cells alone.
use emergency_callup.Prelude.{
  true, false, not, ◌&&◌, ◌||◌, List, [], ◌∷◌, ◌≡◌, ◌↔◌, ◌⊎◌, inl, inr, refl, sym, ◌∙◌, arith,
  Bool-cases,
}
use emergency_callup.Prelude.Int.{◌<ℤ◌, eq_ℤ_iff, ltb_ℤ_iff, eq_of_parts}
use emergency_callup.Area.Grid.Cells.{
  Cell, eq_cell, has_cell, lt_cell, dedupe, insert_cell, sort_cells, dedupe_sort_cells,
}

pub eq_cell_iff : (a b : Cell) → (eq_cell a b ≡ true) ↔ (a ≡ b)
unfolding eq_cell
eq_cell_iff a b = ground (arith, eq_ℤ_iff a.i b.i, eq_ℤ_iff a.j b.j)

-- By J, then by I.
abbrev Precedes : Cell → Cell → Type 0
Precedes a b = (a.j <ℤ b.j) ⊎ (a.j ≡ b.j) × (a.i <ℤ b.i)

lt_cell_iff : (a b : Cell) → (lt_cell a b ≡ true) ↔ Precedes a b
unfolding lt_cell
lt_cell_iff a b = ground (arith, eq_ℤ_iff a.j b.j, ltb_ℤ_iff a.i b.i, ltb_ℤ_iff a.j b.j)

lt_cell_trans : (a b c : Cell) → lt_cell a b ≡ true → lt_cell b c ≡ true → lt_cell a c ≡ true
lt_cell_trans a b c h k = ground (arith, lt_cell_iff a b, lt_cell_iff b c, lt_cell_iff a c)

lt_cell_irrefl : (a : Cell) → lt_cell a a ≡ false
lt_cell_irrefl a = ground (arith, lt_cell_iff a a)

lt_cell_total : (a b : Cell) → lt_cell a b ≡ false → eq_cell b a ≡ false → lt_cell b a ≡ true
lt_cell_total a b h e = ground (
  arith,
  lt_cell_iff a b,
  lt_cell_iff b a,
  eq_cell_iff b a,
  eq_of_parts a.i b.i,
  eq_of_parts a.j b.j,
)

-- Every cell of the list comes after c.
abbrev Above : Cell → List Cell → Type 0
Above c [] = Unit
Above c (d ∷ ds) = (lt_cell c d ≡ true) × Above c ds

-- Strictly ascending, so without duplicates.
abbrev pub IsAscending : List Cell → Type 0
IsAscending [] = Unit
IsAscending (c ∷ cs) = Above c cs × IsAscending cs

abbrev Distinct : List Cell → Type 0
Distinct [] = Unit
Distinct (c ∷ cs) = (has_cell c cs ≡ false) × Distinct cs

has_cell-insert_cell :
    (x c : Cell) (ds : List Cell) → has_cell x (insert_cell c ds) ≡ (eq_cell x c || has_cell x ds)
unfolding has_cell insert_cell
has_cell-insert_cell x c [] = refl
has_cell-insert_cell x c (d ∷ ds) = ground (arith, has_cell-insert_cell x c ds)

has_cell-sort_cells : (x : Cell) (cs : List Cell) → has_cell x (sort_cells cs) ≡ has_cell x cs
unfolding has_cell sort_cells
has_cell-sort_cells x [] = refl
has_cell-sort_cells x (c ∷ cs) =
    ground (arith, has_cell-insert_cell x c (sort_cells cs), has_cell-sort_cells x cs)

has_cell-dedupe :
    (x : Cell) (seen cs : List Cell)
    → has_cell x (dedupe seen cs) ≡ (has_cell x cs && not (has_cell x seen))
unfolding has_cell dedupe
has_cell-dedupe x seen [] = refl
has_cell-dedupe x seen (c ∷ cs) =
    ground (arith, eq_cell_iff x c, has_cell-dedupe x seen cs, has_cell-dedupe x (c ∷ seen) cs)

Above-trans : (c d : Cell) (ds : List Cell) → lt_cell c d ≡ true → Above d ds → Above c ds
Above-trans c d [] h a = tt
Above-trans c d (e ∷ ds) h a = (lt_cell_trans c d e h a.0, Above-trans c d ds h a.1)

Above-insert_cell :
    (c d : Cell) (ds : List Cell) → lt_cell d c ≡ true → Above d ds → Above d (insert_cell c ds)
unfolding insert_cell
Above-insert_cell c d [] h a = (h, tt)
Above-insert_cell c d (e ∷ ds) h a = ground (arith, Above-insert_cell c d ds)

insert_cell-IsAscending :
    (c : Cell) (ds : List Cell)
    → has_cell c ds ≡ false
    → IsAscending ds
    → IsAscending (insert_cell c ds)
unfolding has_cell insert_cell
insert_cell-IsAscending c [] n s = (tt, tt)
insert_cell-IsAscending c (d ∷ ds) n s = ground (
  arith,
  lt_cell_total d c,
  Above-trans c d ds,
  Above-insert_cell c d ds,
  insert_cell-IsAscending c ds,
)

sort_cells-IsAscending : (cs : List Cell) → Distinct cs → IsAscending (sort_cells cs)
unfolding sort_cells
sort_cells-IsAscending [] d = tt
sort_cells-IsAscending (c ∷ cs) d =
    insert_cell-IsAscending c (sort_cells cs) (has_cell-sort_cells c cs ∙ d.0)
      (sort_cells-IsAscending cs d.1)

dedupe-Distinct : (seen cs : List Cell) → Distinct (dedupe seen cs)
unfolding dedupe has_cell
dedupe-Distinct seen [] = tt
dedupe-Distinct seen (c ∷ cs) = elim (Bool-cases (has_cell c seen)) [
  | inl old ↦ rw old (dedupe-Distinct seen cs)
  | inr new ↦ rw new (fresh, dedupe-Distinct (c ∷ seen) cs)
]
  where
    fresh : has_cell c (dedupe (c ∷ seen) cs) ≡ false
    fresh = ground (arith, has_cell-dedupe c (c ∷ seen) cs, eq_cell_iff c c)

-- Deduplicating and sorting a selection neither loses nor adds a cell.
pub has_cell-dedupe_sort_cells :
    (x : Cell) (cells : List Cell) → has_cell x (dedupe_sort_cells cells) ≡ has_cell x cells
unfolding dedupe_sort_cells has_cell
has_cell-dedupe_sort_cells x cells =
    ground (arith, has_cell-sort_cells x (dedupe [] cells), has_cell-dedupe x [] cells)

-- The deduplicated and sorted selection is strictly ascending by row and then by column, so it holds
-- no cell twice.
pub dedupe_sort_cells-IsAscending : (cells : List Cell) → IsAscending (dedupe_sort_cells cells)
unfolding dedupe_sort_cells
dedupe_sort_cells-IsAscending cells =
    sort_cells-IsAscending (dedupe [] cells) (dedupe-Distinct [] cells)

Above-has_cell :
    (c x : Cell) (ds : List Cell) → Above c ds → has_cell x ds ≡ true → lt_cell c x ≡ true
unfolding has_cell
Above-has_cell c x [] a h = cc
Above-has_cell c x (d ∷ ds) a h = ground (arith, eq_cell_iff x d, Above-has_cell c x ds)

heads_agree :
    (a b : Cell) (cs ds : List Cell)
    → Above a cs
    → Above b ds
    → (eq_cell a b || has_cell a ds) ≡ true
    → (eq_cell b a || has_cell b cs) ≡ true
    → a ≡ b
heads_agree a b cs ds above_a above_b h k = ground (
  arith,
  eq_cell_iff a b,
  eq_cell_iff b a,
  Above-has_cell b a ds,
  Above-has_cell a b cs,
  lt_cell_trans a b a,
  lt_cell_irrefl a,
)

-- Two ascending lists with the same cells are equal.
IsAscending-unique :
    (cs ds : List Cell)
    → IsAscending cs
    → IsAscending ds
    → ((x : Cell) → has_cell x cs ≡ has_cell x ds)
    → cs ≡ ds
unfolding has_cell
IsAscending-unique [] [] s t same = refl
IsAscending-unique [] (b ∷ ds) s t same = ground (arith, same b, eq_cell_iff b b)
IsAscending-unique (a ∷ cs) [] s t same = ground (arith, same a, eq_cell_iff a a)
IsAscending-unique (a ∷ cs) (b ∷ ds) s t same = cc (heads, IsAscending-unique cs ds s.1 t.1 tails)
  where
    heads : a ≡ b
    heads =
        heads_agree a b cs ds s.0 t.0 (ground (arith, same a, eq_cell_iff a a))
          (ground (arith, same b, eq_cell_iff b b))

    tails : (x : Cell) → has_cell x cs ≡ has_cell x ds
    tails x = ground (
      arith,
      same x,
      heads,
      Above-has_cell a x cs,
      Above-has_cell b x ds,
      eq_cell_iff x a,
      eq_cell_iff x b,
      lt_cell_irrefl x,
    )

-- Two selections that hold the same cells, in whatever order and with whatever repetitions, are
-- stored as the same list.
pub dedupe_sort_cells_canonical :
    (cs ds : List Cell)
    → ((x : Cell) → has_cell x cs ≡ has_cell x ds)
    → dedupe_sort_cells cs ≡ dedupe_sort_cells ds
dedupe_sort_cells_canonical cs ds same =
    IsAscending-unique (dedupe_sort_cells cs) (dedupe_sort_cells ds)
      (dedupe_sort_cells-IsAscending cs) (dedupe_sort_cells-IsAscending ds)
      λ x. has_cell-dedupe_sort_cells x cs ∙ same x ∙ sym (has_cell-dedupe_sort_cells x ds)
