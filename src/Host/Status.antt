-- ===== src/Host/Status.antt =====
-- `hostSessionStatus` of cmd/getsloth/host_status.go: what the host process shows of its session.
-- A map's loop visits it in list order. fmt, sort and unicode are library code, and `Platform` is a
-- parameter. What is written to the terminal is the list `written`, the newest first.
pub mod Ops
pub mod Events
pub mod Roster
use Prim.Native.Char.{Char}
use Prim.Native.String.{◌++◌ as text_append, [] as empty_text, ◌∷◌ as text_cons}
use getsloth.Base.{
  ℕ, String, Bool, true, false, not, ◌&&◌, ◌||◌, Option, none, some, get_or, List, [], ◌∷◌, map,
  ◌==◌, if◌then◌else◌, eqb, ltb, length, take, Map, lookup, insert,
}
use getsloth.Protocol.{
  PresenceConnectionInfo, ControlChangedMsg, session_mode_group, viewer_quality_unknown,
}

pub record Health : Type 0 where
  pub rtt_ms : Option ℕ
  pub quality : String

-- `hostControlViewer`
pub record Viewer : Type 0 where
  pub id : String
  pub name : String
  pub is_controller : Bool
  pub rtt_ms : Option ℕ
  pub quality : String

-- `hostControlSnapshot`
pub record Snapshot : Type 0 where
  pub live : Bool
  pub mode : String
  pub invite_url : String
  pub qr_invite_url : String
  pub password : String
  pub controller_id : String
  pub controller_role : String
  pub viewers : List Viewer
  pub events : List String

-- `hostSessionStatus`
pub record Status : Type 0 where
  pub mode : String
  pub invite_url : String
  pub qr_invite_url : String
  pub password : String
  pub viewers : Map String
  pub health : Map Health
  pub events : List String
  pub active_writer_id : String
  pub active_writer_role : String
  pub live : Bool
  pub written : List String

pub record Platform : Type 0 where
  -- the verb %d of fmt
  pub decimal : ℕ → String
  -- unicode.IsControl
  pub is_control : Char → Bool
  -- sort.Strings, and sort.Slice by name
  pub sort_strings : List String → List String
  pub sort_viewers : List Viewer → List Viewer

abbrev pub max_host_control_events : ℕ
max_host_control_events = 8

infixr 5 ◌+++◌
abbrev pub ◌+++◌ : String → String → String
s +++ t = text_append s t

unfoldable pub mode_label : String → String
mode_label mode = if mode == session_mode_group then "Group" else "Remote"

unfoldable pub append_event : String → Status → Status
append_event event s =
    let events = event ∷ s.events in
    record s {
      events =
          if ltb max_host_control_events (length events)
          then take max_host_control_events events
          else events;
    }

unfoldable pub append_events : List String → Status → Status
unfolding append_event
append_events [] s = s
append_events (event ∷ events) s = append_events events (append_event event s)

-- Three names at most, with commas.
abbrev pub join_names : List String → String
join_names [] = ""
join_names (n ∷ []) = n
join_names (n ∷ m ∷ names) = n +++ ", " +++ join_names (m ∷ names)

unfoldable pub viewer_names : Map String → String
viewer_names [] = ""
viewer_names (v ∷ viewers) = " (" +++ join_names (take 3 (map (λ e. e.1) (v ∷ viewers))) +++ ")"

-- What `name == ""` stands for: a missing name reads as the given word.
abbrev pub named : String → String → String
named name word = if name == "" then word else name

module _ (p : Platform) where
  unfoldable pub safe_terminal_label : String → String
  safe_terminal_label empty_text = empty_text
  safe_terminal_label (text_cons c s) =
      let rest = safe_terminal_label s in if p.is_control c then rest else text_cons c rest

  unfoldable pub summary : Status → String
  unfolding mode_label viewer_names
  summary s =
      let live_label = if s.live then "LIVE" else "OFFLINE" in
      let count = length s.viewers in
      let viewer_label = if eqb count 1 then "viewer" else "viewers" in
      let controller =
        if s.active_writer_role == "viewer"
        then named (get_or (lookup s.active_writer_id s.viewers) "") "viewer" +++ " controls"
        else "host controls" in
      live_label
      +++ " · "
      +++ mode_label s.mode
      +++ " · "
      +++ p.decimal count
      +++ " "
      +++ viewer_label
      +++ viewer_names s.viewers
      +++ " · "
      +++ controller

  -- `renderTitleLocked`
  unfoldable pub render_title : Status → Status
  unfolding summary
  render_title s = record s {
    written = ("\u{1b}]0;getsloth • " +++ summary s +++ "\u{7}") ∷ s.written;
  }

  unfoldable pub print : Status → Status
  unfolding summary
  print s = record s { written = ("\r\ngetsloth: " +++ summary s +++ "\r\n") ∷ s.written }
