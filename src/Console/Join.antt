-- ===== src/Console/Join.antt =====
-- The join view of cmd/getsloth/host_control_layout.go: `wrapText`, `joinInfoLines`, `eventLines`,
-- `joinMain`, and `cachedQRCode` with its memory. What `renderQRCode` gives for a text is an
-- argument (Host/QrCode models its symbol), `none` for an error.
pub mod Cached
use Prim.Native.String.{len}
use getsloth.Base.{
  ℕ, ◌+◌, ◌-◌, ◌/◌, String, Bool, true, false, not, ◌&&◌, ◌||◌, Option, none, some, List, [], ◌∷◌,
  ◌++◌, map, if◌then◌else◌, ltb, leb, eqb, ◌==◌, length, ◌>>=◌,
}
use getsloth.Protocol.{session_mode_group}
use getsloth.Host.Status.{Viewer, Snapshot}
use getsloth.Console.History.{History}
use getsloth.Console.Layout.{
  console_header_rows, console_min_panel_rows, console_min_plot_rows, hard_wrap,
}
use getsloth.Console.Canvas.{Tone, Canvas, ◌+++◌, pad_to, titled_panel}
use getsloth.Console.Draw.{signal_bars}
use getsloth.Console.Panels.{overlay_panel, short_name, viewer_color, first_line}

-- The loop of `wrapText` from a current line on.
unfoldable pub wrap_words : ℕ → String → List String → List String
wrap_words width current [] = if current == "" then [] else current ∷ []
wrap_words width current (w ∷ words) =
    let full = not (current == "") && ltb width (len current + 1 + len w) in
    let next = if full then w else if current == "" then w else current +++ " " +++ w in
    let rest = wrap_words width next words in if full then current ∷ rest else rest

-- `qrMemo`
pub record Memo : Type 0 where
  pub data_text : String
  pub rendered : String

unfoldable pub cached_qr_code : (String → Option String) → String → Memo → Memo × Option String
cached_qr_code render url memo =
    if memo.data_text == url && not (memo.rendered == "")
    then (memo, some memo.rendered)
    else elim (render url) [
      | none ↦ (memo, none)
      | some text ↦ (record { data_text = url; rendered = text }, some text)
    ]

abbrev pub min_info_width : ℕ
min_info_width = 34

module _ (c : Canvas) where
  unfoldable pub wrap_text : String → ℕ → List String
  unfolding wrap_words
  wrap_text text width = wrap_words width "" (c.words text)

  unfoldable pub info_rows : ℕ → List Viewer → List String
  unfolding pad_to signal_bars
  info_rows index [] = []
  info_rows index (v ∷ viewers) =
      let role =
        if v.is_controller then c.render Tone.live "CTRL" else c.render Tone.muted "WATCH" in
      (c.render (viewer_color c index) "●"
        +++ " "
        +++ pad_to c (short_name c v 18) 19
        +++ pad_to c role 7
        +++ signal_bars c v.rtt_ms)
      ∷ info_rows (index + 1) viewers

  abbrev pub capacity_text : Snapshot → String
  capacity_text snapshot =
      if not (snapshot.mode == session_mode_group)
      then (if ltb 0 (length snapshot.viewers)
          then "REMOTE mode: one viewer at a time. The seat is taken right now, so a second viewer is refused until it frees up."
          else "REMOTE mode: one viewer at a time.")
      else "GROUP mode: any number of viewers can join, early or late."

  unfoldable pub join_info_lines : Snapshot → ℕ → Bool → List String
  unfolding wrap_text info_rows hard_wrap
  join_info_lines snapshot width show_invite =
      wrap_text (capacity_text snapshot) width
      ++ ""
        ∷ (wrap_text
              "1  Scan the QR with a phone camera. It carries the session key and password, so there is nothing to type."
              width
            ++ ""
              ∷ c.render Tone.accent "2  Or open this link and enter the password:"
              ∷ (map c.text_of (hard_wrap (c.bytes_of snapshot.invite_url) width)
                  ++ ""
                    ∷ ("password  "
                        +++ (if show_invite
                            then snapshot.password
                            else c.render Tone.muted "••••••••  [i] to reveal"))
                    ∷ c.render Tone.muted "[c] copies the link and password to your clipboard"
                    ∷ ""
                    ∷ c.render Tone.accent
                        ("IN THE SESSION NOW (" +++ c.decimal (length snapshot.viewers) +++ ")")
                    ∷ ((if eqb (length snapshot.viewers) 0
                          then c.render Tone.muted "nobody yet; the first scan shows up here" ∷ []
                          else [])
                        ++ info_rows 0 snapshot.viewers)))

  unfoldable pub event_lines : List String → List String
  event_lines [] = c.render Tone.muted "waiting for activity" ∷ []
  event_lines (e ∷ events) = map (λ event. "• " +++ event) (e ∷ events)

  -- `qrLines` of `joinMain`, with the memory.
  unfoldable pub qr_lines : (String → Option String) → Snapshot → Memo → Memo × List String
  unfolding cached_qr_code
  qr_lines render snapshot memo =
      let (memo', drawn) = cached_qr_code render snapshot.qr_invite_url memo in
      if snapshot.qr_invite_url == ""
      then (memo, [])
      else (memo', elim drawn [ none ↦ [] | some text ↦ c.lines_of text ])

  abbrev pub join_title : String
  join_title = c.render Tone.accent "JOIN"

  abbrev pub scan_title : String
  scan_title = c.render Tone.accent "SCAN TO JOIN"

  -- The rest of `joinMain` where the code fits: `qr_width` is the width of its first line.
  unfoldable pub join_left : Snapshot → List String → ℕ → ℕ → List String
  unfolding titled_panel event_lines
  join_left snapshot qr qr_width rows =
      let spare = rows - (length qr + 2) in
      if leb console_min_panel_rows spare
      then titled_panel c scan_title qr (qr_width + 4) (length qr)
        ++ titled_panel c (c.render Tone.accent "ACTIVITY") (event_lines snapshot.events)
            (qr_width + 4) (spare - 2)
      else if ltb 0 spare
      then titled_panel c scan_title (blank_lines (spare / 2) ++ qr) (qr_width + 4) (rows - 2)
      else titled_panel c scan_title qr (qr_width + 4) (length qr)
    where
      blank_lines : ℕ → List String
      blank_lines ℕ.zero = []
      blank_lines (ℕ.suc n) = "" ∷ blank_lines n

  unfoldable pub join_right : Snapshot → History → ℕ → ℕ → Bool → Option (List String)
  unfolding titled_panel overlay_panel join_info_lines
  join_right snapshot history width rows show_invite =
      let info = join_info_lines snapshot (width - 4) show_invite in
      let spare = rows - (length info + 2) in
      if leb console_min_plot_rows spare && ltb 0 (length snapshot.viewers)
      then (overlay_panel c snapshot history width spare >>= λ chart.
          some (titled_panel c join_title info width (length info) ++ chart))
      else some (titled_panel c join_title info width (rows - 2))

  unfoldable pub join_main : Snapshot → History → List String → ℕ → ℕ → Bool → Option (List String)
  unfolding join_left join_right
  join_main snapshot history qr width rows show_invite =
      let qr_width = if eqb (length qr) 0 then 0 else c.width_of (first_line qr) in
      let lines = join_info_lines snapshot (width - 4) show_invite in
      let needed = c.render Tone.danger (
        "QR needs "
        +++ c.decimal (qr_width + 4 + min_info_width)
        +++ " columns x "
        +++ c.decimal (length qr + 2 + console_header_rows)
        +++ " rows; enlarge the terminal to show it.") in
      if eqb (length qr) 0 || ltb rows (length qr + 2) || ltb width (qr_width + 4 + min_info_width)
      then some (
          titled_panel c join_title (if ltb 0 (length qr) then needed ∷ "" ∷ lines else lines) width
            (rows - 2))
      else (join_right snapshot history (width - qr_width - 4) rows show_invite >>= λ right.
          some (c.join_horizontal (join_left snapshot qr qr_width rows ∷ right ∷ [])))
