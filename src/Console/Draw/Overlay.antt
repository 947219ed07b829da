-- ===== src/Console/Draw/Overlay.antt =====
-- `renderOverlayChart` of cmd/getsloth/host_control_graph.go: the chart that all viewers share. Its
-- dots are a function of row and column, and the byte of a cell is the sum of the bits of its dots.
use getsloth.Base.{
  ℕ, zero, suc, ◌+◌, ◌-◌, ◌*◌, ◌/◌, ◌%◌, String, Bool, false, ◌&&◌, ◌||◌, Option, none, some, List,
  [], ◌∷◌, if◌then◌else◌, eqb, length,
}
use getsloth.Console.History.{Samples}
use getsloth.Console.Charts.{larger, smaller, dot_row}
use getsloth.Console.Canvas.{Tone, Canvas, ◌+++◌}
use getsloth.Console.Draw.{newest, grid_at}

-- The chart that all viewers share: which dots are set, and whose a cell is.
pub record Plot : Type 0 where
  pub dots : ℕ → ℕ → Bool
  pub owner : ℕ → ℕ → ℕ

-- The loop that sets `left` dots of column `x` from row `y` on.
unfoldable pub stroke : ℕ → ℕ → ℕ → ℕ → Plot → Plot
stroke index x y zero p = p
stroke index x y (suc left) p = stroke index x (y + 1) left (record {
  dots = λ row col. (eqb row y && eqb col x) || p.dots row col;
  owner = λ r col. if eqb r (y / 4) && eqb col (x / 2) then index else p.owner r col;
})

-- The samples of one viewer from column `x` on; `prev` is the row of the last dot, if the sample
-- before is known.
unfoldable pub plot_samples : ℕ → ℕ → ℕ → ℕ → Option ℕ → Samples → Plot → Plot
unfolding stroke
plot_samples index dots_h scale x prev [] p = p
plot_samples index dots_h scale x prev (none ∷ samples) p =
    plot_samples index dots_h scale (x + 1) none samples p
plot_samples index dots_h scale x prev (some ms ∷ samples) p =
    let y = dot_row dots_h scale ms in
    let lo : ℕ = elim prev [ none ↦ y | some q ↦ smaller q y ] in
    let hi : ℕ = elim prev [ none ↦ y | some q ↦ larger q y ] in
    plot_samples index dots_h scale (x + 1) (some y) samples (stroke index x lo (hi + 1 - lo) p)

-- The loop over the viewers, from the one of `index` on.
unfoldable pub plot_series : ℕ → ℕ → ℕ → ℕ → List Samples → Plot → Plot
unfolding plot_samples
plot_series index dots_w dots_h scale [] p = p
plot_series index dots_w dots_h scale (samples ∷ series) p =
    let kept = newest dots_w samples in
    plot_series (index + 1) dots_w dots_h scale series
      (plot_samples index dots_h scale (dots_w - length kept) none kept p)

-- `bits[r][c]`, by `brailleBits`.
unfoldable pub braille_bits : Plot → ℕ → ℕ → ℕ
braille_bits p r col =
    bit 0 0 1
    + bit 1 0 2
    + bit 2 0 4
    + bit 3 0 64
    + bit 0 1 8
    + bit 1 1 16
    + bit 2 1 32
    + bit 3 1 128
  where
    bit : ℕ → ℕ → ℕ → ℕ
    bit i j value = if p.dots (r * 4 + i) (col * 2 + j) then value else 0

module _ (c : Canvas) where
  unfoldable pub plot_cell : Plot → ℕ → ℕ → ℕ → String
  unfolding braille_bits grid_at
  plot_cell p rows r col =
      if eqb (braille_bits p r col) 0
      then grid_at c rows r
      else c.render (Tone.viewer (p.owner r col % 6))
          (c.text_of_rune (10240 + braille_bits p r col))

  unfoldable pub plot_cells : Plot → ℕ → ℕ → ℕ → ℕ → String
  unfolding plot_cell
  plot_cells p rows r col zero = ""
  plot_cells p rows r col (suc left) = plot_cell p rows r col +++ plot_cells p rows r (col + 1) left

  unfoldable pub plot_rows : Plot → ℕ → ℕ → ℕ → ℕ → List String
  unfolding plot_cells
  plot_rows p rows width r zero = []
  plot_rows p rows width r (suc left) =
      plot_cells p rows r 0 width ∷ plot_rows p rows width (r + 1) left

  unfoldable pub render_overlay_chart : List Samples → ℕ → ℕ → ℕ → List String
  unfolding plot_series plot_rows
  render_overlay_chart series width rows scale =
      let p =
        plot_series 0 (width * 2) (rows * 4) scale series
          (record { dots = λ row col. false; owner = λ r col. 0 }) in
      plot_rows p rows width 0 rows
