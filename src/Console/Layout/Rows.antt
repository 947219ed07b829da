-- ===== src/Console/Layout/Rows.antt =====
-- How many rows and columns the parts of the terminal have together.
use getsloth.Base.{
  ℕ, All, zero, suc, ◌+◌, ◌-◌, ◌*◌, ◌/◌, ◌%◌, ◌≤◌, ◌<◌, Bool, true, false, List, [], ◌∷◌, ◌≡◌,
  arith,
}
use native.Mathlib.Nat.{le-div_iff_mul-le, mod-add-div, mod-lt, div-mul-le_self, mul_comm}
use getsloth.Console.Charts.{larger, smaller}
use getsloth.Console.Layout.{
  console_min_panel_rows, panels_per_row, grid_row_count, card_widths, split_from, split_rows,
  main_rows, graph_split, cell_widths, console_min_height, invite_row_count, console_header_rows,
  console_card_rows, console_activity_rows,
}

abbrev pub sum : List ℕ → ℕ
sum [] = 0
sum (n ∷ ns) = n + sum ns

-- The rest of the loop gives away the larger parts that are left, and the smaller ones.
sum-split_from :
    (total parts i left : ℕ)
    → sum (split_from total parts i left)
      ≡ left * (total / parts) + smaller (total % parts - i) left
unfolding split_from
sum-split_from total parts i zero = ground arith
sum-split_from total parts i (suc left) = grind (arith, sum-split_from total parts (suc i) left)

-- In a terminal of any height, the parts of the graph view are as high as the terminal, or as the
-- minimum where the terminal is lower: the plot has at least 6 rows and the panels have at least 5.
pub graph_split_fills :
    (height : ℕ) (show_invite : Bool)
    → let (plot, panels) = graph_split (main_rows height show_invite) in
      (console_header_rows
          + console_card_rows
          + invite_row_count show_invite
          + plot
          + panels
          + console_activity_rows
        ≡ larger height (console_min_height show_invite))
      × (6 ≤ plot)
      × (5 ≤ panels)
unfolding graph_split main_rows console_min_height
graph_split_fills height true = ground arith
graph_split_fills height false = ground arith

sum-split_rows : (total parts : ℕ) → 0 < parts → sum (split_rows total parts) ≡ total
unfolding split_rows
sum-split_rows total parts some_parts =
    grind
      (arith, sum-split_from total parts 0 parts, mod-lt total some_parts, mod-add-div total parts)

sum-cell_widths :
    (width count left : ℕ)
    → sum (cell_widths width count (suc left))
      ≡ left * (width / count) + (width - width / count * (count - 1))
unfolding cell_widths
sum-cell_widths width count zero = grind arith
sum-cell_widths width count (suc left) = grind (arith, sum-cell_widths width count left)

-- The rows of the panels are exactly those that they have together, and the cells of a row of
-- panels fill its width.
pub panels_fill :
    (rows width parts count : ℕ)
    → 0 < parts
    → 0 < count
    → (sum (split_rows rows parts) ≡ rows) × (sum (cell_widths width count count) ≡ width)
panels_fill rows width parts zero some_parts some_cells = absurd (omega (arith, some_cells))
panels_fill rows width parts (suc count) some_parts some_cells = (
  sum-split_rows rows parts some_parts,
  grind (
    arith,
    sum-cell_widths width (suc count) count,
    div-mul-le_self width (suc count),
    mul_comm count (width / suc count),
  ),
)

pub split_from-AtLeast :
    (least total parts i left : ℕ)
    → least ≤ total / parts
    → All (λ n. least ≤ n) (split_from total parts i left)
unfolding split_from
split_from-AtLeast least total parts i zero le = tt
split_from-AtLeast least total parts i (suc left) le =
    (ground (arith, le), split_from-AtLeast least total parts (suc i) left le)

pub some_grid_rows :
    (per_row viewers rows : ℕ)
    → 0 < per_row
    → 0 < viewers
    → 5 ≤ rows
    → 0 < grid_row_count per_row viewers rows
unfolding grid_row_count
some_grid_rows per_row viewers rows some_cells some_viewers room =
    let one : 1 ≤ (viewers + per_row - 1) / per_row =
      (le-div_iff_mul-le some_cells).1 (omega (arith, some_viewers)) in
    ground (arith, one, room)

pub some_cells_in_row : (width viewers : ℕ) → 0 < viewers → 0 < panels_per_row width viewers
unfolding panels_per_row
some_cells_in_row width viewers some_viewers = ground (arith, some_viewers)

few_grid_rows : (per_row viewers rows : ℕ) → 5 * grid_row_count per_row viewers rows ≤ rows
unfolding grid_row_count
few_grid_rows per_row viewers rows = least ((viewers + per_row - 1) / per_row)
  where
    least : (n : ℕ) → 5 * smaller n (rows / console_min_panel_rows) ≤ rows
    least n = ground arith

pub high_panels :
    (per_row viewers rows : ℕ)
    → 0 < grid_row_count per_row viewers rows
    → 5 ≤ rows / grid_row_count per_row viewers rows
high_panels per_row viewers rows some_rows =
    (le-div_iff_mul-le some_rows).1 (few_grid_rows per_row viewers rows)

-- Every row and column of the terminal is given away by the graph view of a session with viewers.
-- Its parts are together as high as the terminal, or as the minimum where the terminal is lower;
-- the plot has at least 6 rows; the rows of panels have together exactly what the plot leaves, and
-- each has at least 5; the cells of a full row of panels fill the width, and so do the five cards.
panels_fill_terminal :
    (height width viewers : ℕ) (show_invite : Bool)
    → 0 < viewers
    → let (plot, rows) = graph_split (main_rows height show_invite) in
      let per_row = panels_per_row width viewers in
      let heights = split_rows rows (grid_row_count per_row viewers rows) in
      (console_header_rows
          + console_card_rows
          + invite_row_count show_invite
          + plot
          + rows
          + console_activity_rows
        ≡ larger height (console_min_height show_invite))
      × (6 ≤ plot)
      × (sum heights ≡ rows)
      × All (λ n. 5 ≤ n) heights
      × (sum (cell_widths width per_row per_row) ≡ width)
      × (sum (card_widths width) ≡ width)
unfolding split_rows card_widths
panels_fill_terminal height width viewers show_invite some_viewers =
    let rows = (graph_split (main_rows height show_invite)).1 in
    let per_row = panels_per_row width viewers in
    let grid = grid_row_count per_row viewers rows in
    let split = graph_split_fills height show_invite in
    let room : 5 ≤ rows = split.2 in
    let cells : 0 < per_row = some_cells_in_row width viewers some_viewers in
    let some_rows : 0 < grid = some_grid_rows per_row viewers rows cells some_viewers room in
    let filled = panels_fill rows width grid per_row some_rows cells in
    (
      split.0,
      split.1,
      filled.0,
      split_from-AtLeast 5 rows grid 0 grid (high_panels per_row viewers rows some_rows),
      filled.1,
      omega arith,
    )
