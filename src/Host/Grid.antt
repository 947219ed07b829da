-- ===== src/Host/Grid.antt =====
-- The host's own checks of a terminal size: `validGridSize` and `terminalGridSize` of
-- cmd/getsloth/pty.go, and the check of a `resize` in auth.go.
use getsloth.Base.{
  ℕ, Bool, true, not, ◌&&◌, ◌||◌, Option, none, some, ◌≡◌, refl, arith, ltb, leb, if◌then◌else◌,
}
use getsloth.Protocol.{default_cols, default_rows}
use getsloth.Relay.Session.{valid_terminal_size}

unfoldable pub valid_grid_size : ℕ → ℕ → Bool
valid_grid_size cols rows = leb 2 cols && leb 2 rows && leb cols 1000 && leb rows 500

-- The size of the host's terminal: what `term.GetSize` gives, `none` for an error.
unfoldable pub terminal_grid_size : Option (ℕ × ℕ) → ℕ × ℕ
unfolding valid_grid_size
terminal_grid_size none = (default_cols, default_rows)
terminal_grid_size (some (cols, rows)) =
    if not (valid_grid_size cols rows) then (default_cols, default_rows) else (cols, rows)

-- The host ignores a `resize` of this size.
unfoldable pub resize_refused : ℕ → ℕ → Bool
resize_refused cols rows = ltb cols 2 || ltb rows 2 || ltb 1000 cols || ltb 500 rows

-- The three checks of a size agree: what the host accepts as a grid, what it accepts in a `resize`,
-- and what the relay accepts.
grid_checks_agree :
    (cols rows : ℕ)
    → (valid_grid_size cols rows ≡ valid_terminal_size cols rows)
      × (resize_refused cols rows ≡ not (valid_terminal_size cols rows))
unfolding valid_grid_size valid_terminal_size resize_refused
grid_checks_agree cols rows = (refl, ground arith)

-- The size that the host reports of its terminal is one that the relay accepts, and is the
-- terminal's own when that is valid.
pub terminal_grid_size-valid :
    (size : Option (ℕ × ℕ))
    → (valid_terminal_size (terminal_grid_size size).0 (terminal_grid_size size).1 ≡ true)
unfolding terminal_grid_size valid_terminal_size
terminal_grid_size-valid none = refl
terminal_grid_size-valid (some (cols, rows)) = ground arith
