-- ===== src/Area/Grid/Scan.antt =====
-- internal/area/grid.go, `cellRange` and `CellsWithinRadius`: what the fill helpers scan and keep.
use emergency_callup.Prelude.{
  ℕ, zero, suc, ◌*◌, ◌≤◌, Bool, true, false, ◌||◌, ◌&&◌, List, [], ◌∷◌, ◌++◌, ◌≡◌, ◌↔◌, refl, arith,
  length, length-append, ◌⊎◌, inl, inr, Bool-cases,
}
use emergency_callup.Prelude.Int.{
  ℤ, pos, negsuc, pos_part, parts_canonical, ◌+ℤ◌, ◌-ℤ◌, ◌*ℤ◌, ◌≤ℤ◌, ltb_ℤ, ltb_ℤ-false_iff, eq_ℤ,
  eq_ℤ_iff, +ℤ_parts, -ℤ_parts, int_laws, eq_of_parts,
}
use emergency_callup.Floats.{Floats}
use emergency_callup.Area.Geo.{Point, BBox, haversine, circle_bbox}
use emergency_callup.Area.Grid.Cells.{Cell, eq_cell, has_cell}
use emergency_callup.Area.Grid.Canonical.{eq_cell_iff, has_cell-dedupe_sort_cells}
use emergency_callup.Area.Grid.{
  ok, max_scan_cells, candidates, count_up, range_incl, row_of, product, cell_of, cell_center,
  cell_range, keep_within, cells_within_radius,
}

length-row_of : (i : ℤ) (js : List ℤ) → length (row_of i js) ≡ length js
unfolding row_of
length-row_of i [] = refl
length-row_of i (j ∷ js) = omega (arith, length-row_of i js)

length-product : (is js : List ℤ) → length (product is js) ≡ length is * length js
unfolding product
length-product [] js = omega arith
length-product (i ∷ is) js =
    grind
      (arith, length-append (row_of i js) (product is js), length-row_of i js, length-product is js)

length-count_up : (lo : ℤ) (n : ℕ) → length (count_up lo n) ≡ n
unfolding count_up
length-count_up lo zero = refl
length-count_up lo (suc n) = omega (arith, length-count_up (lo +ℤ pos 1) n)

length-candidates :
    (c0 c1 : Cell)
    → length (candidates c0 c1)
      ≡ pos_part (c1.i -ℤ c0.i +ℤ pos 1) * pos_part (c1.j -ℤ c0.j +ℤ pos 1)
unfolding candidates
length-candidates c0 c1 = rw length-product (
    cc (
      length-count_up c0.i (pos_part (c1.i -ℤ c0.i +ℤ pos 1)),
      length-count_up c0.j (pos_part (c1.j -ℤ c0.j +ℤ pos 1)),
    ))

-- A product is at least the product of the positive parts, unless one of them is 0.
pos_part-*ℤ : (a b : ℤ) → a *ℤ b ≤ℤ pos 200000 → pos_part a * pos_part b ≤ 200000
unfolding ◌*ℤ◌
pos_part-*ℤ (pos a) (pos b) h = ground arith
pos_part-*ℤ (pos a) (negsuc b) h = omega arith
pos_part-*ℤ (negsuc a) b h = omega arith

guard_bound :
    (c0 c1 : Cell)
    → ltb_ℤ (pos max_scan_cells) ((c1.i -ℤ c0.i +ℤ pos 1) *ℤ (c1.j -ℤ c0.j +ℤ pos 1)) ≡ false
    → length (candidates c0 c1) ≤ max_scan_cells
guard_bound c0 c1 h =
    rw length-candidates
      (pos_part-*ℤ (c1.i -ℤ c0.i +ℤ pos 1) (c1.j -ℤ c0.j +ℤ pos 1) ((ltb_ℤ-false_iff _ _).0 h))

has_ℤ : ℤ → List ℤ → Bool
has_ℤ x [] = false
has_ℤ x (y ∷ ys) = eq_ℤ x y || has_ℤ x ys

has_ℤ-count_up :
    (x lo : ℤ) (n : ℕ) → (has_ℤ x (count_up lo n) ≡ true) ↔ (lo ≤ℤ x) × (x +ℤ pos 1 ≤ℤ lo +ℤ pos n)
unfolding has_ℤ count_up
has_ℤ-count_up x lo zero = (λ h. cc, λ h. absurd (omega int_laws))
has_ℤ-count_up x lo (suc n) = ground (
  arith,
  eq_ℤ_iff x lo,
  eq_of_parts x lo,
  has_ℤ-count_up x (lo +ℤ pos 1) n,
  +ℤ_parts lo (pos 1),
  +ℤ_parts x (pos 1),
  +ℤ_parts (lo +ℤ pos 1) (pos n),
  +ℤ_parts lo (pos (suc n)),
)

has_ℤ-range_incl : (x lo hi : ℤ) → (has_ℤ x (range_incl lo hi) ≡ true) ↔ (lo ≤ℤ x) × (x ≤ℤ hi)
unfolding range_incl
has_ℤ-range_incl x lo hi =
    let n = pos_part (hi -ℤ lo +ℤ pos 1) in
    ground (
      arith,
      has_ℤ-count_up x lo n,
      -ℤ_parts hi lo,
      parts_canonical (hi -ℤ lo +ℤ pos 1),
      +ℤ_parts (hi -ℤ lo) (pos 1),
      +ℤ_parts x (pos 1),
      +ℤ_parts lo (pos n),
    )

has_cell-append :
    (x : Cell) (cs ds : List Cell) → has_cell x (cs ++ ds) ≡ (has_cell x cs || has_cell x ds)
unfolding has_cell
has_cell-append x [] ds = refl
has_cell-append x (c ∷ cs) ds = ground (arith, has_cell-append x cs ds)

has_cell-row_of :
    (x : Cell) (i : ℤ) (js : List ℤ) → has_cell x (row_of i js) ≡ (eq_ℤ x.i i && has_ℤ x.j js)
unfolding has_cell row_of has_ℤ
has_cell-row_of x i [] = ground arith
has_cell-row_of x i (j ∷ js) = ground (arith, has_cell-row_of x i js)

has_cell-product :
    (x : Cell) (is js : List ℤ) → has_cell x (product is js) ≡ (has_ℤ x.i is && has_ℤ x.j js)
unfolding product has_ℤ has_cell
has_cell-product x [] js = refl
has_cell-product x (i ∷ is) js = ground (
  arith,
  has_cell-append x (row_of i js) (product is js),
  has_cell-row_of x i js,
  has_cell-product x is js,
)

-- The loops visit every cell of the box, and no other.
pub has_cell-candidates :
    (x c0 c1 : Cell)
    → (has_cell x (candidates c0 c1) ≡ true)
      ↔ (c0.i ≤ℤ x.i) × (x.i ≤ℤ c1.i) × (c0.j ≤ℤ x.j) × (x.j ≤ℤ c1.j)
unfolding candidates
has_cell-candidates x c0 c1 = ground (
  arith,
  has_cell-product x (range_incl c0.i c1.i) (range_incl c0.j c1.j),
  has_ℤ-range_incl x.i c0.i c1.i,
  has_ℤ-range_incl x.j c0.j c1.j,
)

module _ (fl : Floats) where
  open fl use {F, le, of_int}

  -- When the range check passes, the nested loops look at no more than `maxScanCells` cells.
  pub cell_range_bounds_scan :
      (size : ℕ) (b : BBox F) (c0 c1 : Cell)
      → cell_range fl size b ≡ ok (c0, c1)
      → length (candidates c0 c1) ≤ max_scan_cells
  unfolding cell_range
  cell_range_bounds_scan size b c0 c1 h = ground (arith, guard_bound c0 c1)

  has_cell-keep_within :
      (size : ℕ) (center : Point F) (radius_m : ℤ) (x : Cell) (cs : List Cell)
      → has_cell x (keep_within fl size center radius_m cs)
        ≡ (has_cell x cs && le (haversine fl center (cell_center fl size x)) (of_int radius_m))
  unfolding keep_within has_cell
  has_cell-keep_within size center radius_m x [] = refl
  has_cell-keep_within size center radius_m x (c ∷ cs) =
      ground (arith, has_cell-keep_within size center radius_m x cs, eq_cell_iff x c)

  filled :
      (size : ℕ) (center : Point F) (radius_m : ℤ) (c0 c1 x : Cell) (result : List Cell)
      → cell_range fl size (circle_bbox fl center radius_m) ≡ ok (c0, c1)
      → cells_within_radius fl size center radius_m ≡ ok result
      → has_cell x result ≡ (
          eq_cell x (cell_of fl size center)
          || (has_cell x (candidates c0 c1)
              && le (haversine fl center (cell_center fl size x)) (of_int radius_m)))
  unfolding cells_within_radius has_cell
  filled size center radius_m c0 c1 x result h k = ground (
    arith,
    has_cell-dedupe_sort_cells x
        (cell_of fl size center ∷ keep_within fl size center radius_m (candidates c0 c1)),
    has_cell-keep_within size center radius_m x (candidates c0 c1),
  )

  -- The corners of the circle's box, as cells.
  abbrev pub south_west : ℕ → Point F → ℤ → Cell
  south_west size center radius_m =
      let b = circle_bbox fl center radius_m in
      cell_of fl size (record { lat = b.south; lng = b.west })

  abbrev pub north_east : ℕ → Point F → ℤ → Cell
  north_east size center radius_m =
      let b = circle_bbox fl center radius_m in
      cell_of fl size (record { lat = b.north; lng = b.east })

  -- The cell lies in the box of the two corners, and its own center within the radius.
  abbrev pub IsWithin : ℕ → Point F → ℤ → Cell → Type 0
  IsWithin size center radius_m x =
      let low = south_west size center radius_m in
      let high = north_east size center radius_m in
      (low.i ≤ℤ x.i)
      × (x.i ≤ℤ high.i)
      × (low.j ≤ℤ x.j)
      × (x.j ≤ℤ high.j)
      × (le (haversine fl center (cell_center fl size x)) (of_int radius_m) ≡ true)

  scanned_box :
      (size : ℕ) (center : Point F) (radius_m : ℤ) (result : List Cell)
      → cells_within_radius fl size center radius_m ≡ ok result
      → cell_range fl size (circle_bbox fl center radius_m)
        ≡ ok (south_west size center radius_m, north_east size center radius_m)
  unfolding cells_within_radius cell_range
  scanned_box size center radius_m result =
      let low = south_west size center radius_m in
      let high = north_east size center radius_m in
      elim (Bool-cases
        (ltb_ℤ (pos max_scan_cells) ((high.i -ℤ low.i +ℤ pos 1) *ℤ (high.j -ℤ low.j +ℤ pos 1)))) [
          | inl b ↦ rw b (λ h. absurd (ground (arith, h)))
          | inr b ↦ rw b (λ h. refl)
        ]

  -- A fill by radius that is answered holds the cell of the center and the cells between the corners of
  -- the circle's box whose own center lies within the radius, and no other cell.
  pub has_cell-cells_within_radius :
      (size : ℕ) (center : Point F) (radius_m : ℤ) (x : Cell) (result : List Cell)
      → cells_within_radius fl size center radius_m ≡ ok result
      → (has_cell x result ≡ true)
        ↔ ((x ≡ cell_of fl size center) ⊎ IsWithin size center radius_m x)
  has_cell-cells_within_radius size center radius_m x result h =
      let low = south_west size center radius_m in
      let high = north_east size center radius_m in
      ground (
        arith,
        filled size center radius_m low high x result (scanned_box size center radius_m result h) h,
        has_cell-candidates x low high,
        eq_cell_iff x (cell_of fl size center),
      )
