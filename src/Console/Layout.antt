-- ===== src/Console/Layout.antt =====
-- How cmd/getsloth/host_control_layout.go divides the terminal, and how it wraps text. Texts and
-- panels are not drawn: a panel is its rows and columns. Sizes are natural numbers, which the code
-- keeps above the minima that it clamps to.
pub mod Rows
pub mod Wrap
use getsloth.Base.{
  ℕ, zero, suc, ◌+◌, ◌-◌, ◌*◌, ◌/◌, ◌%◌, String, Bool, Option, none, some, List, [], ◌∷◌, ◌++◌,
  if◌then◌else◌, ltb, eqb, length, take, drop,
}
use getsloth.Console.Charts.{larger, smaller}

abbrev pub console_card_rows : ℕ
console_card_rows = 4

abbrev pub console_activity_rows : ℕ
console_activity_rows = 5

abbrev pub console_min_panel_rows : ℕ
console_min_panel_rows = 5

abbrev pub console_min_plot_rows : ℕ
console_min_plot_rows = 6

abbrev pub console_header_rows : ℕ
console_header_rows = 3

abbrev pub console_min_main_rows : ℕ
console_min_main_rows = console_min_plot_rows + console_min_panel_rows

-- The loop of `splitRows` from part `i` on, with `left` parts to go.
unfoldable pub split_from : ℕ → ℕ → ℕ → ℕ → List ℕ
split_from total parts i zero = []
split_from total parts i (suc left) =
    (if ltb i (total % parts) then total / parts + 1 else total / parts)
    ∷ split_from total parts (suc i) left

unfoldable pub split_rows : ℕ → ℕ → List ℕ
unfolding split_from
split_rows total parts = split_from total parts 0 parts

abbrev pub invite_row_count : Bool → ℕ
invite_row_count show_invite = if show_invite then 3 else 1

unfoldable pub console_min_height : Bool → ℕ
console_min_height show_invite =
    console_header_rows
    + console_card_rows
    + invite_row_count show_invite
    + console_activity_rows
    + console_min_main_rows

-- The rows that `renderHostControlConsole` gives the main part, for a terminal of a height.
unfoldable pub main_rows : ℕ → Bool → ℕ
unfolding console_min_height
main_rows height show_invite =
    larger height (console_min_height show_invite)
    - console_header_rows
    - console_card_rows
    - invite_row_count show_invite
    - console_activity_rows

-- `graphMain` with viewers: the rows of the plot and of the panels.
unfoldable pub graph_split : ℕ → ℕ × ℕ
graph_split rows =
    let plot = larger (rows * 55 / 100) console_min_plot_rows in
    if ltb (rows - plot) console_min_panel_rows
    then (rows - console_min_panel_rows, console_min_panel_rows)
    else (plot, rows - plot)

-- The columns of the cells of one row of `viewerPanels`, from the left.
unfoldable pub cell_widths : ℕ → ℕ → ℕ → List ℕ
cell_widths width count zero = []
cell_widths width count (suc left) =
    (if eqb left 0 then width - width / count * (count - 1) else width / count)
    ∷ cell_widths width count left

-- `perRow` and `gridRows` of `viewerPanels`.
unfoldable pub panels_per_row : ℕ → ℕ → ℕ
panels_per_row width viewers = smaller (larger (width / 36) 1) viewers

unfoldable pub grid_row_count : ℕ → ℕ → ℕ → ℕ
grid_row_count per_row viewers rows =
    smaller ((viewers + per_row - 1) / per_row) (rows / console_min_panel_rows)

-- The columns of the five cards of `renderStatCards`.
unfoldable pub card_widths : ℕ → List ℕ
card_widths width = let card = width / 5 in card ∷ card ∷ card ∷ card ∷ (width - card * 4) ∷ []

-- The loop of `hardWrap` on the bytes of a text, on fuel: each turn takes `width` bytes, so the
-- number of bytes is fuel enough.
unfoldable pub wrap_turns : ℕ → ℕ → List ℕ → List (List ℕ)
wrap_turns zero width text = text ∷ []
wrap_turns (suc fuel) width text =
    let rest = wrap_turns fuel width (drop width text) in
    if ltb width (length text)
    then (if ltb 0 width then take width text ∷ rest else text ∷ [])
    else text ∷ []

unfoldable pub hard_wrap : List ℕ → ℕ → List (List ℕ)
unfolding wrap_turns
hard_wrap text width = wrap_turns (length text) width text
