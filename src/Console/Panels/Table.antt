-- ===== src/Console/Panels/Table.antt =====
-- `usersMain` of cmd/getsloth/host_control_layout.go: the table of viewers.
use getsloth.Base.{
  ℕ, ◌+◌, ◌-◌, String, Option, none, some, List, [], ◌∷◌, ◌++◌, if◌then◌else◌, leb, length, take,
  ◌>>=◌,
}
use getsloth.Host.Status.{Viewer, Snapshot}
use getsloth.Console.History.{History}
use getsloth.Console.Charts.{larger, smaller, chart_scale, rtt_stats}
use getsloth.Console.Layout.{console_min_plot_rows}
use getsloth.Console.Canvas.{Tone, Canvas, ◌+++◌, pad_to, titled_panel}
use getsloth.Console.Draw.{chart_tone_for, viewer_quality, render_rtt_chart, signal_bars}
use getsloth.Console.Panels.{
  samples_of, first_line, truncate_dashboard_text, viewer_color, milliseconds, short_name,
  overlay_panel,
}

module _ (c : Canvas) where
  unfoldable pub user_row : History → ℕ → ℕ → Viewer → String
  unfolding truncate_dashboard_text signal_bars viewer_quality render_rtt_chart pad_to
      chart_tone_for rtt_stats
  user_row history trend_width index v =
      let samples = samples_of history v in
      let role =
        if v.is_controller then c.render Tone.live "CTRL" else c.render Tone.muted "WATCH" in
      let rtt : String = elim v.rtt_ms [
        | none ↦ c.render Tone.muted "--"
        | some ms ↦ c.render (Tone.line (chart_tone_for ms)) (milliseconds c ms)
      ] in
      let stats : String = elim (rtt_stats samples) [
        | none ↦ c.render Tone.muted "--"
        | some (lo, avg, hi) ↦ c.decimal lo +++ "/" +++ c.decimal avg +++ "/" +++ c.decimal hi
      ] in
      let trend =
        first_line (render_rtt_chart c samples trend_width 1 (chart_scale (samples ∷ []))) in
      c.render (viewer_color c index) "●"
      +++ " "
      +++ pad_to c (short_name c v 16) 16
      +++ pad_to c role 10
      +++ pad_to c (signal_bars c v.rtt_ms) 6
      +++ pad_to c rtt 8
      +++ pad_to c (c.to_upper (viewer_quality v)) 9
      +++ pad_to c stats 14
      +++ (if leb 8 trend_width then trend else "")

  unfoldable pub user_rows : History → ℕ → ℕ → List Viewer → List String
  unfolding user_row
  user_rows history trend_width index [] = []
  user_rows history trend_width index (v ∷ viewers) =
      user_row history trend_width index v ∷ user_rows history trend_width (index + 1) viewers

  unfoldable pub table_head : String
  unfolding pad_to
  table_head = c.render Tone.muted (
      pad_to c "VIEWER" 18
      +++ pad_to c "ROLE" 10
      +++ pad_to c "SIG" 6
      +++ pad_to c "RTT" 8
      +++ pad_to c "QUALITY" 9
      +++ pad_to c "MIN/AVG/MAX" 14
      +++ "TREND")

  abbrev pub nobody_row : List Viewer → List String
  nobody_row [] =
      c.render Tone.muted "waiting for a viewer to join — share the invite with [i]" ∷ []
  nobody_row (v ∷ viewers) = []

  -- The lines of the table of `usersMain`.
  unfoldable pub user_table : Snapshot → History → ℕ → ℕ → List String
  unfolding user_rows table_head
  user_table snapshot history width rows =
      let shown = smaller (length snapshot.viewers) (rows - console_min_plot_rows - 3) in
      table_head
      ∷ (nobody_row snapshot.viewers
          ++ user_rows history (width - 4 - 65) 0 (take shown snapshot.viewers))

  unfoldable pub users_main : Snapshot → History → ℕ → ℕ → Option (List String)
  unfolding user_table overlay_panel titled_panel
  users_main snapshot history width rows =
      let lines = user_table snapshot history width rows in
      let table_outer = larger (length lines) 2 + 2 in
      let table =
        titled_panel c (c.render Tone.accent "LIVE VIEWERS") lines width (table_outer - 2) in
      overlay_panel c snapshot history width (rows - table_outer) >>= λ chart. some (table ++ chart)
