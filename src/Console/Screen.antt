-- ===== src/Console/Screen.antt =====
-- `hostControlTUI` of cmd/getsloth/host_control_bubbletea.go: the state of the console and its
-- `Update`. The library's loop that runs commands is the environment. What is drawn is not modelled.
pub mod Polls
pub mod Names
use Prim.Native.Char.{code}
use Prim.Native.String.{[] as empty_text, ◌∷◌ as text_cons}
use getsloth.Base.{
  ℕ, ◌+◌, ◌%◌, String, Bool, true, false, not, ◌&&◌, ◌||◌, Option, none, some, List, [], ◌∷◌, ◌==◌,
  if◌then◌else◌, eqb,
}
use getsloth.Host.Status.{Snapshot, ◌+++◌}
use getsloth.Console.History.{History, record_snapshot}
use getsloth.Console.Keybar.{key_action, Widths, keybar_buttons, keybar_regions, region_key}

-- `hostControlView`: graph, users, join
abbrev pub view_graph : ℕ
view_graph = 0

abbrev pub view_users : ℕ
view_users = 1

abbrev pub view_join : ℕ
view_join = 2

abbrev pub view_count : ℕ
view_count = 3

-- `hostControlTUI`
pub record Screen : Type 0 where
  pub snapshot : Snapshot
  pub width : ℕ
  pub height : ℕ
  pub show_invite : Bool
  pub view : ℕ
  pub history : History

-- A mouse event: whether it is a release and of the left button, and where.
pub record Mouse : Type 0 where
  pub release : Bool
  pub left : Bool
  pub x : ℕ
  pub y : ℕ

-- What reaches `Update`. A snapshot is `none` where the request failed; a key is its name.
pub data ScreenMsg : Type 0 where
  window_size : (width height : ℕ) → ScreenMsg
  snapshot_arrived : (snapshot : Option Snapshot) → ScreenMsg
  refresh : ScreenMsg
  key : (name : String) → ScreenMsg
  mouse : (m : Mouse) → ScreenMsg

-- A command of the console: wait a second, ask for a snapshot, ask for an action, copy a text, quit.
pub data Cmd : Type 0 where
  tick : Cmd
  ask_snapshot : Cmd
  ask_action : (action : String) → Cmd
  copy : (text : String) → Cmd
  quit : Cmd

abbrev pub keybar_row : ℕ
keybar_row = 1

unfoldable pub new_screen : Snapshot → Screen
new_screen s = record {
  snapshot = s;
  width = 80;
  height = 0;
  show_invite = false;
  view = view_graph;
  history = record_snapshot s [];
}

abbrev pub copy_invite : Snapshot → Cmd
copy_invite s = Cmd.copy (s.invite_url +++ "\n" +++ s.password)

unfoldable pub handle_control_key : ℕ → Screen → Screen × Option Cmd
handle_control_key byte s =
    let action = key_action byte in
    if action == "quit"
    then (s, some Cmd.quit)
    else if action == "reclaim" || action == "kill"
    then (s, some (Cmd.ask_action action))
    else if action == "snapshot"
    then (
      record s { show_invite = not s.show_invite },
      if not s.show_invite then some (copy_invite s.snapshot) else none,
    )
    else if action == "copy"
    then (s, some (copy_invite s.snapshot))
    else (s, none)

-- A key that is not one of the switch acts by the first byte of its name.
unfoldable pub first_byte_key : String → Screen → Screen × Option Cmd
unfolding handle_control_key
first_byte_key empty_text s = (s, none)
first_byte_key (text_cons c name) s = handle_control_key (code c) s

unfoldable pub handle_key : String → Screen → Screen × Option Cmd
unfolding first_byte_key
handle_key name s =
    if name == "tab"
    then (record s { view = (s.view + 1) % view_count }, none)
    else if name == "g" || name == "G"
    then (record s { view = view_graph }, none)
    else if name == "u" || name == "U"
    then (record s { view = view_users }, none)
    else if name == "j" || name == "J"
    then (record s { view = view_join }, none)
    else first_byte_key name s

unfoldable pub handle_mouse : Widths → Mouse → Screen → Screen × Option Cmd
unfolding handle_control_key
handle_mouse w m s =
    if not m.release || not m.left || not (eqb m.y keybar_row)
    then (s, none)
    else elim (region_key m.x (keybar_regions (keybar_buttons w s.show_invite))) [
      | none ↦ (s, none)
      | some k ↦ handle_control_key k s
    ]

unfoldable pub update_screen : Widths → ScreenMsg → Screen → Screen × Option Cmd
unfolding handle_key handle_mouse
update_screen w (ScreenMsg.window_size width height) s =
    (record s { width = width; height = height }, none)
update_screen w (ScreenMsg.snapshot_arrived none) s = (s, some Cmd.tick)
update_screen w (ScreenMsg.snapshot_arrived (some snapshot)) s =
    (record s { snapshot = snapshot; history = record_snapshot snapshot s.history }, some Cmd.tick)
update_screen w ScreenMsg.refresh s = (s, some Cmd.ask_snapshot)
update_screen w (ScreenMsg.key name) s = handle_key name s
update_screen w (ScreenMsg.mouse m) s = handle_mouse w m s
