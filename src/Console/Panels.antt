-- ===== src/Console/Panels.antt =====
-- The panels of cmd/getsloth/host_control_layout.go, from the host's snapshot and the history. Go
-- panics on an index out of range: the result is then `none`. strings.Join and the rest of Canvas
-- is library code.
pub mod Table
use Prim.Native.Char.{Char}
use getsloth.Base.{
  ℕ, zero, suc, ◌+◌, ◌-◌, ◌*◌, ◌/◌, ◌%◌, String, Bool, true, false, Option, none, some, get_or,
  List, [], ◌∷◌, ◌++◌, map, if◌then◌else◌, ltb, leb, eqb, ◌==◌, length, take, drop, lookup, ◌>>=◌,
}
use getsloth.Host.Status.{Viewer, Snapshot, mode_label}
use getsloth.Console.History.{Samples, History}
use getsloth.Console.Charts.{larger, smaller, chart_scale, rtt_stats}
use getsloth.Console.Layout.{
  console_card_rows, console_activity_rows, console_min_plot_rows, split_rows, graph_split,
  panels_per_row, grid_row_count,
}
use getsloth.Console.Canvas.{Tone, Canvas, ◌+++◌, repeat_text, pad_to, titled_panel}
use getsloth.Console.Draw.{
  chart_gutter, chart_tone_for, viewer_quality, render_rtt_chart, signal_bars, with_time_axis,
  aggregate_rtt,
}
use getsloth.Console.Draw.Overlay.{render_overlay_chart}

abbrev pub join_text : String → List String → String
join_text between [] = ""
join_text between (s ∷ []) = s
join_text between (s ∷ t ∷ rest) = s +++ between +++ join_text between (t ∷ rest)

abbrev pub samples_of : History → Viewer → Samples
samples_of history v = get_or (lookup v.id history) []

-- `lines[n] = new`, `none` where the index is out of range.
unfoldable pub set_line : ℕ → String → List String → Option (List String)
set_line n new [] = none
set_line zero new (l ∷ lines) = some (new ∷ lines)
set_line (suc n) new (l ∷ lines) = set_line n new lines >>= λ rest. some (l ∷ rest)

abbrev pub first_line : List String → String
first_line [] = ""
first_line (l ∷ lines) = l

module _ (c : Canvas) where
  -- The loop of `truncateDashboardText`.
  unfoldable pub cut_text : ℕ → String → String → String
  cut_text width built String.[] = built
  cut_text width built (String.◌∷◌ r rest) =
      let one : String = String.◌∷◌ r String.[] in
      let later = cut_text width (built +++ one) rest in
      if ltb width (c.width_of (built +++ one +++ "…")) then built else later

  unfoldable pub truncate_dashboard_text : String → ℕ → String
  unfolding cut_text
  truncate_dashboard_text value width =
      if eqb width 0
      then value
      else if leb (c.width_of value) width
      then value
      else if leb width 1
      then "…"
      else cut_text width "" value +++ "…"

  abbrev pub viewer_color : ℕ → Tone
  viewer_color index = Tone.viewer (index % 6)

  abbrev pub milliseconds : ℕ → String
  milliseconds ms = c.decimal ms +++ "ms"

  -- The name cut to some columns, in capitals.
  abbrev pub short_name : Viewer → ℕ → String
  short_name v width = c.to_upper (truncate_dashboard_text v.name width)

  unfoldable pub legend_parts : ℕ → List Viewer → List String
  unfolding truncate_dashboard_text
  legend_parts index [] = []
  legend_parts index (v ∷ viewers) =
      (c.render (viewer_color index) "●" +++ " " +++ short_name v 14)
      ∷ legend_parts (index + 1) viewers

  unfoldable pub viewer_legend : List Viewer → String
  unfolding legend_parts
  viewer_legend viewers = join_text "  " (legend_parts 0 viewers)

  abbrev pub nobody_hint : String
  nobody_hint =
      repeat_text " " chart_gutter
      +++ c.render Tone.muted "scanning for viewers… their uplink graph appears here"

  unfoldable pub overlay_panel : Snapshot → History → ℕ → ℕ → Option (List String)
  unfolding render_overlay_chart with_time_axis set_line viewer_legend titled_panel
  overlay_panel snapshot history width outer_rows =
      let chart_rows = outer_rows - 3 in
      let chart_width = width - 4 - chart_gutter in
      let series = map (samples_of history) snapshot.viewers in
      let scale = chart_scale series in
      let body =
        with_time_axis c (render_overlay_chart c series chart_width chart_rows scale) scale
          (chart_width * 2) (width - 4) in
      let title = c.render Tone.accent "UPLINK RTT" in
      elim snapshot.viewers [
        | [] ↦ set_line (chart_rows / 2) nobody_hint body >>= λ hinted.
            some (titled_panel c title hinted width (outer_rows - 2))
        | v ∷ viewers ↦ some (
            titled_panel c (title +++ "  " +++ viewer_legend (v ∷ viewers)) body width
              (outer_rows - 2))
      ]

  unfoldable pub viewer_panel : Viewer → ℕ → Samples → ℕ → ℕ → List String
  unfolding truncate_dashboard_text signal_bars viewer_quality render_rtt_chart titled_panel
  viewer_panel v index samples width outer_rows =
      let role = if v.is_controller then c.render Tone.live " CTRL" else "" in
      let rtt : String = elim v.rtt_ms [ none ↦ "" | some ms ↦ "  " +++ milliseconds ms ] in
      let title =
        c.render (viewer_color index) "●"
        +++ " "
        +++ short_name v 16
        +++ role
        +++ rtt
        +++ " "
        +++ signal_bars c v.rtt_ms
        +++ " "
        +++ c.to_upper (viewer_quality v) in
      titled_panel c title
        (render_rtt_chart c samples (width - 4) (outer_rows - 2) (chart_scale (samples ∷ []))) width
        (outer_rows - 2)

  -- The cells of one row of panels, from the viewer of `index` on.
  unfoldable pub panel_cells : History → ℕ → ℕ → ℕ → ℕ → List Viewer → List (List String)
  unfolding viewer_panel
  panel_cells history width count height index [] = []
  panel_cells history width count height index (v ∷ []) =
      viewer_panel v index (samples_of history v) (width - width / count * (count - 1)) height ∷ []
  panel_cells history width count height index (v ∷ u ∷ viewers) =
      viewer_panel v index (samples_of history v) (width / count) height
      ∷ panel_cells history width count height (index + 1) (u ∷ viewers)

  -- The rows of panels, of the given heights, for the viewers from `index` on.
  unfoldable pub panel_grid : History → ℕ → ℕ → ℕ → List Viewer → List ℕ → List String
  unfolding panel_cells
  panel_grid history width per_row index viewers [] = []
  panel_grid history width per_row index [] (height ∷ heights) = []
  panel_grid history width per_row index (v ∷ viewers) (height ∷ heights) =
      let here = take per_row (v ∷ viewers) in
      c.join_horizontal (panel_cells history width (length here) height index here)
      ++ panel_grid history width per_row (index + per_row) (drop per_row (v ∷ viewers)) heights

  unfoldable pub viewer_panels : Snapshot → History → ℕ → ℕ → List String
  unfolding panel_grid panels_per_row grid_row_count split_rows
  viewer_panels snapshot history width rows =
      let count = length snapshot.viewers in
      let per_row = panels_per_row width count in
      let grid_rows = grid_row_count per_row count rows in
      panel_grid history width per_row 0
        (take (smaller count (per_row * grid_rows)) snapshot.viewers) (split_rows rows grid_rows)

  unfoldable pub graph_main : Snapshot → History → ℕ → ℕ → Option (List String)
  unfolding overlay_panel viewer_panels graph_split
  graph_main snapshot history width rows = elim snapshot.viewers [
    | [] ↦ overlay_panel snapshot history width rows
    | v ∷ viewers ↦
        let (plot, panels) = graph_split rows in
        overlay_panel snapshot history width plot >>= λ chart.
        some (chart ++ viewer_panels snapshot history width panels)
  ]
