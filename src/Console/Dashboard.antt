-- ===== src/Console/Dashboard.antt =====
-- The whole screen of the console: `renderHostControlConsole` with its cards
-- (cmd/getsloth/host_control_layout.go). Whether the cursor blinks, which is read from the clock, is
-- an argument, and so are the lines of the code for the invitation.
use getsloth.Base.{
  ℕ, ◌+◌, ◌-◌, ◌/◌, String, Bool, true, Option, none, some, List, [], ◌∷◌, ◌++◌, map, if◌then◌else◌,
  ltb, eqb, ◌==◌, length, ◌>>=◌,
}
use getsloth.Host.Status.{Viewer, Snapshot, mode_label}
use getsloth.Console.History.{History}
use getsloth.Console.Charts.{larger, chart_scale}
use getsloth.Console.Layout.{
  console_header_rows, console_card_rows, console_activity_rows, console_min_height, main_rows,
  card_widths,
}
use getsloth.Console.Screen.{view_graph, view_join}
use getsloth.Console.Canvas.{Tone, Canvas, ◌+++◌, repeat_text, pad_to, titled_panel}
use getsloth.Console.Draw.{chart_tone_for, render_rtt_chart, aggregate_rtt}
use getsloth.Console.Panels.{join_text, first_line, graph_main}
use getsloth.Console.Panels.Table.{users_main}
use getsloth.Console.Join.{event_lines, join_main}

abbrev pub console_min_width : ℕ
console_min_width = 66

-- The loop of `renderStatCards`: the sum and the number of the known times, the worst and its name.
pub record Times : Type 0 where
  pub sum : ℕ
  pub known : ℕ
  pub worst : Option ℕ
  pub worst_name : String

unfoldable pub add_times : List Viewer → Times → Times
add_times [] t = t
add_times (v ∷ viewers) t = elim v.rtt_ms [
  | none ↦ add_times viewers t
  | some ms ↦
      let worse : Bool = elim t.worst [ none ↦ true | some w ↦ ltb w ms ] in
      add_times viewers (record {
        sum = t.sum + ms;
        known = t.known + 1;
        worst = if worse then some ms else t.worst;
        worst_name = if worse then v.name else t.worst_name;
      })
]

unfoldable pub times_of : List Viewer → Times
unfolding add_times
times_of viewers = add_times viewers (record { sum = 0; known = 0; worst = none; worst_name = "-" })

module _ (c : Canvas) where
  -- `renderHostControlKeybar`
  unfoldable pub keybar_text : Bool → String
  keybar_text show_invite = join_text (repeat_text " " 3) (
      (c.render Tone.key "[r]" +++ " RECLAIM")
      ∷ (c.render Tone.danger "[k]" +++ " KILL VIEWERS")
      ∷ (c.render Tone.key "[i]" +++ " " +++ (if show_invite then "HIDE" else "INVITE"))
      ∷ (c.render Tone.key "[c]" +++ " COPY")
      ∷ c.render Tone.muted "[q] CLOSE"
      ∷ [])

  abbrev pub live_text : Bool → String
  live_text live = if live then c.render Tone.live "● LIVE" else c.render Tone.muted "OFFLINE"

  unfoldable pub header_line : Bool → Bool → ℕ → String
  unfolding repeat_text
  header_line live blink width =
      let title =
        c.render Tone.accent "GETSLOTH // HOST CONTROL"
        +++ c.render Tone.live (if blink then "█" else " ") in
      title
      +++ repeat_text " " (larger (width - c.width_of title - c.width_of (live_text live)) 2)
      +++ live_text live

  abbrev pub tab_text : ℕ → ℕ → String → String
  tab_text view i label = c.render (if eqb i view then Tone.accent else Tone.muted) label

  unfoldable pub tab_bar : ℕ → String
  tab_bar view =
      join_text "   " (
        tab_text view 0 "[g] GRAPH" ∷ tab_text view 1 "[u] USERS" ∷ tab_text view 2 "[j] JOIN" ∷ [])
      +++ c.render Tone.muted "   [tab] switch view"

  abbrev pub rtt_text : Option ℕ → String
  rtt_text none = c.render Tone.muted "--"
  rtt_text (some ms) = c.render (Tone.line (chart_tone_for ms)) (c.decimal ms +++ "ms")

  -- The loop for the controller's name: the last viewer with the id gives it.
  unfoldable pub controller_name : String → String → List Viewer → String
  controller_name id name [] = name
  controller_name id name (v ∷ viewers) =
      controller_name id (if v.id == id then c.to_upper v.name else name) viewers

  -- The titles and the lines of the five cards, of `card` columns each.
  unfoldable pub card_texts : Snapshot → History → ℕ → List (String × List String)
  unfolding times_of controller_name render_rtt_chart aggregate_rtt mode_label chart_tone_for
  card_texts snapshot history card =
      let t = times_of snapshot.viewers in
      let average : Option ℕ = if ltb 0 t.known then some (t.sum / larger t.known 1) else none in
      let series = aggregate_rtt history snapshot.viewers (card - 4) in
      let controller =
        if snapshot.controller_role == "viewer"
        then controller_name snapshot.controller_id "VIEWER" snapshot.viewers
        else "HOST" in
      let link =
        if snapshot.live then c.render Tone.live "ONLINE" else c.render Tone.muted "OFFLINE" in
      (
        "VIEWERS",
        c.render Tone.accent (c.decimal (length snapshot.viewers))
            ∷ c.render Tone.muted (c.to_upper (mode_label snapshot.mode) +++ " mode")
            ∷ [],
      )
      ∷ (
        "AVG RTT",
        rtt_text average
            ∷ first_line (render_rtt_chart c series (card - 4) 1 (chart_scale (series ∷ [])))
            ∷ [],
      )
      ∷ ("WORST", rtt_text t.worst ∷ c.render Tone.muted (c.to_upper t.worst_name) ∷ [])
      ∷ ("CONTROL", c.render Tone.accent controller ∷ c.render Tone.muted "[r] reclaim" ∷ [])
      ∷ ("UPLINK", link ∷ c.render Tone.muted "relay" ∷ [])
      ∷ []

  unfoldable pub card_panels : List ℕ → List (String × List String) → List (List String)
  unfolding titled_panel
  card_panels [] cards = []
  card_panels (w ∷ widths) [] = []
  card_panels (w ∷ widths) ((title, lines) ∷ cards) =
      titled_panel c title lines w (console_card_rows - 2) ∷ card_panels widths cards

  unfoldable pub stat_cards : Snapshot → History → ℕ → List String
  unfolding card_texts card_panels card_widths
  stat_cards snapshot history width =
      c.join_horizontal (card_panels (card_widths width) (card_texts snapshot history (width / 5)))

  unfoldable pub activity_strip : Snapshot → ℕ → List String
  unfolding titled_panel event_lines
  activity_strip snapshot width =
      titled_panel c "ACTIVITY" (event_lines c snapshot.events) width (console_activity_rows - 2)

  unfoldable pub invite_lines : Snapshot → Bool → ℕ → List String
  unfolding pad_to
  invite_lines snapshot show_invite width =
      map (λ l. pad_to c l width)
        (if show_invite
          then ("url      " +++ snapshot.invite_url)
            ∷ ("password " +++ snapshot.password)
            ∷ c.render Tone.muted "Copied to clipboard • [i] to hide"
            ∷ []
          else c.render Tone.muted "INVITE link ready • [i] to copy/show" ∷ [])

  -- The parts of the screen between the bars and the activity, for the graph and the table.
  unfoldable pub main_part : Snapshot → History → ℕ → ℕ → ℕ → Option (List String)
  unfolding graph_main users_main
  main_part snapshot history width rows view =
      if eqb view view_graph
      then graph_main c snapshot history width rows
      else users_main c snapshot history width rows

  unfoldable pub render_host_control_console :
      Snapshot → History → List String → ℕ → ℕ → Bool → ℕ → Bool → Option (List String)
  unfolding header_line keybar_text tab_bar stat_cards invite_lines main_part activity_strip
      main_rows join_main console_min_height
  render_host_control_console snapshot history qr width height show_invite view blink =
      let width' = larger width console_min_width in
      let height' = larger height (console_min_height show_invite) in
      let bars : List String =
        header_line snapshot.live blink width' ∷ keybar_text show_invite ∷ tab_bar view ∷ [] in
      if eqb view view_join
      then (join_main c snapshot history qr width' (height' - console_header_rows) show_invite
          >>= λ main. some (bars ++ main))
      else (main_part snapshot history width' (main_rows height show_invite) view >>= λ main. some (
          bars
          ++ (stat_cards snapshot history width'
              ++ (invite_lines snapshot show_invite width'
                  ++ (main ++ activity_strip snapshot width')))))
