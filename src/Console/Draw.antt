-- ===== src/Console/Draw.antt =====
-- The charts of cmd/getsloth/host_control_graph.go as lines of text. An index beyond a list of glyphs
-- or of lines, where Go panics, gives the empty text here.
pub mod Overlay
use getsloth.Base.{
  ℕ, zero, suc, ◌+◌, ◌-◌, ◌*◌, ◌/◌, ◌%◌, String, Bool, true, false, ◌&&◌, ◌||◌, Option, none, some,
  get_or, List, [], ◌∷◌, ◌++◌, map, if◌then◌else◌, ltb, leb, eqb, ◌==◌, length, drop, get_elem?,
  lookup,
}
use getsloth.Protocol.{viewer_quality_unknown}
use getsloth.Host.Status.{Viewer}
use getsloth.Console.History.{Samples, History}
use getsloth.Console.Charts.{
  larger, smaller, bar_level, cap_row, cap_block, dot_row, signal_strength,
}
use getsloth.Console.Canvas.{Level, Tone, Canvas, ◌+++◌, repeat_text}

-- `chartGutter`
abbrev pub chart_gutter : ℕ
chart_gutter = 7

unfoldable pub chart_tone_for : ℕ → Level
chart_tone_for ms = if ltb ms 80 then Level.good else if ltb ms 200 then Level.warn else Level.bad

-- The glyphs of `chartBlocks`.
abbrev pub chart_blocks : List String
chart_blocks = " " ∷ "▁" ∷ "▂" ∷ "▃" ∷ "▄" ∷ "▅" ∷ "▆" ∷ "▇" ∷ "█" ∷ []

-- `viewerQuality`
unfoldable pub viewer_quality : Viewer → String
viewer_quality v = if v.quality == "" then viewer_quality_unknown else v.quality

-- The newest `width` samples.
abbrev pub newest : ℕ → Samples → Samples
newest width samples =
    if ltb width (length samples) then drop (length samples - width) samples else samples

module _ (c : Canvas) where
  -- What a chart shows in row `r` where there is nothing: a line of the grid in three of the rows.
  unfoldable pub grid_at : ℕ → ℕ → String
  grid_at rows r =
      if leb 3 rows && (eqb r 0 || eqb r (rows / 2) || eqb r (rows - 1))
      then c.render Tone.grid "┈"
      else " "

  -- One sample in row `r` of a chart of `rows` rows.
  unfoldable pub bar_cell : ℕ → ℕ → ℕ → Option ℕ → String
  unfolding grid_at chart_tone_for
  bar_cell rows scale r none =
      if eqb r (rows - 1) then c.render (Tone.line Level.bad) "×" else grid_at rows r
  bar_cell rows scale r (some ms) =
      let level = bar_level rows scale ms in
      let cap = cap_row rows level in
      if ltb r cap
      then grid_at rows r
      else if eqb r cap
      then c.render (Tone.line (chart_tone_for ms))
          (get_or (get_elem? chart_blocks (level - (rows - 1 - r) * 8)) "")
      else c.render (Tone.fill (chart_tone_for ms)) "█"

  unfoldable pub bar_cells : ℕ → ℕ → ℕ → Samples → String
  unfolding bar_cell
  bar_cells rows scale r [] = ""
  bar_cells rows scale r (sample ∷ samples) =
      bar_cell rows scale r sample +++ bar_cells rows scale r samples

  -- The loop over the rows, from row `r` on.
  unfoldable pub bar_rows : ℕ → ℕ → ℕ → Samples → ℕ → ℕ → List String
  unfolding bar_cells repeat_text
  bar_rows rows scale pad samples r zero = []
  bar_rows rows scale pad samples r (suc left) =
      (repeat_text (grid_at rows r) pad +++ bar_cells rows scale r samples)
      ∷ bar_rows rows scale pad samples (r + 1) left

  unfoldable pub render_rtt_chart : Samples → ℕ → ℕ → ℕ → List String
  unfolding bar_rows
  render_rtt_chart samples width rows scale =
      let width' = larger width 1 in
      let rows' = larger rows 1 in
      let kept = newest width' samples in bar_rows rows' scale (width' - length kept) kept 0 rows'

  -- The four bars, cut after as many as the strength is.
  abbrev split_bars : ℕ → String × String
  split_bars strength =
      if eqb strength 4
      then ("▂▄▆█", "")
      else if eqb strength 3
      then ("▂▄▆", "█")
      else if eqb strength 2
      then ("▂▄", "▆█")
      else ("▂", "▄▆█")

  unfoldable pub signal_bars : Option ℕ → String
  unfolding chart_tone_for
  signal_bars none = c.render Tone.muted "▂▄▆█"
  signal_bars (some rtt) =
      let (on, off) = split_bars (signal_strength rtt) in
      c.render (Tone.line (chart_tone_for rtt)) on +++ c.render Tone.muted off

  -- The label of row `r` of a body of `rows` rows.
  unfoldable pub axis_label : ℕ → ℕ → ℕ → String
  unfolding repeat_text
  axis_label scale rows r =
      if eqb r 0
      then c.decimal_4 scale +++ "ms "
      else if eqb r (rows - 1)
      then "   0ms "
      else if leb 3 rows && eqb r (rows / 2)
      then c.decimal_4 (scale / 2) +++ "ms "
      else repeat_text " " chart_gutter

  unfoldable pub label_rows : ℕ → ℕ → ℕ → List String → List String
  unfolding axis_label
  label_rows scale rows r [] = []
  label_rows scale rows r (l ∷ body) =
      (c.render Tone.muted (axis_label scale rows r) +++ l) ∷ label_rows scale rows (r + 1) body

  -- `len(left)` counts bytes, which are the columns of its ASCII.
  unfoldable pub with_time_axis : List String → ℕ → ℕ → ℕ → List String
  unfolding label_rows
  with_time_axis body scale seconds width =
      let left = "-" +++ c.decimal seconds +++ "s" in
      let gap = larger (width - chart_gutter - length (c.bytes_of left) - 3) 1 in
      label_rows scale (length body) 0 body
      ++ c.render Tone.muted
          (repeat_text " " chart_gutter +++ left +++ repeat_text " " gap +++ "now")
        ∷ []

-- The average of the samples that are `offset` from the newest.
unfoldable pub sample_back : ℕ → Samples → Option ℕ
sample_back offset samples =
    if leb (offset + 1) (length samples)
    then elim (get_elem? samples (length samples - 1 - offset)) [ none ↦ none | some s ↦ s ]
    else none

unfoldable pub sum_back : ℕ → History → List Viewer → ℕ × ℕ
unfolding sample_back
sum_back offset history [] = (0, 0)
sum_back offset history (v ∷ viewers) =
    let (sum, count) = sum_back offset history viewers in
    elim (sample_back offset (get_or (lookup v.id history) [])) [
      | none ↦ (sum, count)
      | some ms ↦ (ms + sum, count + 1)
    ]

-- The last `left` entries of `aggregateRTT`.
unfoldable pub aggregate_rtt : History → List Viewer → ℕ → Samples
unfolding sum_back
aggregate_rtt history viewers zero = []
aggregate_rtt history viewers (suc left) =
    let (sum, count) = sum_back left history viewers in
    (if ltb 0 count then some (sum / count) else none) ∷ aggregate_rtt history viewers left
