-- ===== src/Console/View.antt =====
-- `View` (cmd/getsloth/host_control_bubbletea.go): the screen of the console, and until the size of
-- the terminal is known `renderHostControlDashboard` (host_control_tui.go).
use getsloth.Base.{
  ℕ, ◌-◌, String, Bool, false, ◌||◌, Option, none, some, List, [], ◌∷◌, ◌++◌, ◌≡◌, ◌≢◌, refl, map,
  arith, if◌then◌else◌, ltb, leb, eqb, ◌==◌, length,
}
use getsloth.Protocol.{
  viewer_quality_unknown, viewer_quality_good, viewer_quality_laggy, viewer_quality_stalled,
}
use getsloth.Host.Status.{Viewer, Snapshot, mode_label}
use getsloth.Console.Charts.{larger}
use getsloth.Console.Screen.{view_join, Screen}
use getsloth.Console.Canvas.{Tone, Canvas, ◌+++◌, repeat_text}
use getsloth.Console.Panels.{truncate_dashboard_text}
use getsloth.Console.Join.{Memo, qr_lines, event_lines}
use getsloth.Console.Dashboard.{live_text, keybar_text, render_host_control_console}

-- The name of the viewer in control: the first one with the id.
unfoldable pub first_name : String → String → List Viewer → String
first_name id name [] = name
first_name id name (v ∷ viewers) =
    let rest = first_name id name viewers in if v.id == id then v.name else rest

module _ (c : Canvas) where
  unfoldable pub viewer_health_label : Viewer → String
  viewer_health_label v =
      let known =
        v.quality == viewer_quality_good
        || v.quality == viewer_quality_laggy
        || v.quality == viewer_quality_stalled in
      let rtt : String = elim v.rtt_ms [ none ↦ "—" | some ms ↦ c.decimal ms +++ "ms" ] in
      "relay RTT " +++ rtt +++ " · " +++ (if known then v.quality else viewer_quality_unknown)

  unfoldable pub fit_dashboard_lines : List String → ℕ → List String
  unfolding truncate_dashboard_text
  fit_dashboard_lines lines width = map (λ l. truncate_dashboard_text c l width) lines

  unfoldable pub viewer_lines : List Viewer → List String
  unfolding viewer_health_label truncate_dashboard_text
  viewer_lines [] = []
  viewer_lines (v ∷ viewers) =
      let marker = if v.is_controller then c.render Tone.live "●" else c.render Tone.muted "○" in
      let role = if v.is_controller then "controlling" else "watching" in
      (marker +++ " " +++ truncate_dashboard_text c v.name 28 +++ "  " +++ role)
      ∷ c.render Tone.muted ("    " +++ viewer_health_label v)
      ∷ viewer_lines viewers

  unfoldable pub session_lines : Snapshot → Bool → List String
  unfolding first_name mode_label
  session_lines snapshot show_invite =
      let controller =
        if snapshot.controller_role == "viewer"
        then first_name snapshot.controller_id "viewer" snapshot.viewers
        else "host" in
      c.render Tone.accent "SESSION"
      ∷ ("state       " +++ live_text c snapshot.live)
      ∷ ("mode        " +++ mode_label snapshot.mode)
      ∷ ("controller  " +++ controller)
      ∷ (if show_invite
          then ("url         " +++ snapshot.invite_url)
            ∷ ("password    " +++ snapshot.password)
            ∷ c.render Tone.muted "Copied to clipboard • [i] to hide"
            ∷ []
          else c.render Tone.muted "Invite link ready • [i] to copy/show" ∷ [])

  unfoldable pub render_host_control_dashboard : Snapshot → ℕ → Bool → List String
  unfolding repeat_text keybar_text session_lines viewer_lines event_lines fit_dashboard_lines
  render_host_control_dashboard snapshot width show_invite =
      let content = larger width 48 - 2 in
      let header = c.join_horizontal (
        (c.render Tone.accent "GETSLOTH // HOST CONTROL" ∷ [])
        ∷ (repeat_text " " (larger (content - 42) 2) ∷ [])
        ∷ (live_text c snapshot.live ∷ [])
        ∷ []) in
      let session = session_lines snapshot show_invite in
      let viewers =
        c.render Tone.accent "LIVE VIEWERS"
        ∷ ((if eqb (length snapshot.viewers) 0
              then c.render Tone.muted "waiting for a viewer to join" ∷ []
              else [])
            ++ viewer_lines snapshot.viewers) in
      let activity = c.render Tone.accent "ACTIVITY" ∷ event_lines c snapshot.events in
      let panel : ℕ → List String → List String =
        λ outer lines. c.boxed (outer - 2) (fit_dashboard_lines lines (outer - 4)) in
      let body =
        if leb 100 content
        then c.join_horizontal
            (panel 36 session ∷ (" " ∷ []) ∷ panel (content - 36 - 3) viewers ∷ [])
          ++ panel content activity
        else panel content session ++ (panel content viewers ++ panel content activity) in
      header ++ keybar_text c show_invite ∷ "" ∷ body

  -- The lines on the screen, and the memory of the drawn code.
  unfoldable pub view_screen :
      (String → Option String) → Screen → Memo → Bool → Memo × Option (List String)
  unfolding qr_lines render_host_control_console render_host_control_dashboard
  view_screen render_qr s memo blink =
      let (memo', qr) =
        if eqb s.view view_join then qr_lines c render_qr s.snapshot memo else (memo, []) in
      if ltb 0 s.height
      then (
        memo',
        render_host_control_console c s.snapshot s.history qr s.width s.height s.show_invite s.view
            blink,
      )
      else (memo, some (render_host_control_dashboard s.snapshot s.width s.show_invite))

  -- While the invitation is hidden, nothing that the console shows outside of the join view, at any
  -- size, depends on the password, on the link, or on the link with the password that the code is drawn
  -- for. In any view, the password and the link of the code being given apart, only the latter counts:
  -- the join view reveals the password through the code alone.
  pub hidden_password :
      (render_qr : String → Option String) (s : Screen) (memo : Memo) (blink : Bool)
      (password other link another code_link other_code : String)
      → let shown : String → String → String → ℕ → Memo × Option (List String) =
          λ secret url qr_url view.
            view_screen render_qr
              (record s {
                snapshot = record s.snapshot {
                  password = secret;
                  invite_url = url;
                  qr_invite_url = qr_url;
                };
                show_invite = false;
                view = view;
              })
              memo
              blink in
        (s.view ≢ view_join
          → shown password link code_link s.view ≡ shown other another other_code s.view)
        × (shown password link code_link s.view ≡ shown other link code_link s.view)
  unfolding view_screen
  hidden_password render_qr s memo blink password other link another code_link other_code = (
    λ ne. let elsewhere : eqb s.view view_join ≡ false = ground (arith, ne) in rw elsewhere refl,
    refl,
  )
