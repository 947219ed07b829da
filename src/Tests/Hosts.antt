-- ===== src/Tests/Hosts.antt =====
-- The host process at concrete keystrokes, rosters and sessions.
use getsloth.Base.{
  map, ℕ, ◌≤◌, String, Bool, true, false, Option, none, some, List, [], ◌∷◌, ◌++◌, ◌≡◌, ◌≢◌, refl,
  arith, All, ◌↔◌, length, take, ◌==◌, lookup,
}
use getsloth.Protocol.{Msg, type_of, session_mode_remote}
use getsloth.Relay.Session.{
  World, send, authenticated_viewers, live_viewers, new_session, valid_terminal_size,
}
use getsloth.Relay.Connection.{new_connection}
use getsloth.Relay.Presence.{roster, broadcast_presence}
use getsloth.Relay.Control.{handle_input, handle_take_control, handle_viewer_disconnect, refusal}
use getsloth.Relay.Server.{handle_viewer_message}
use getsloth.Relay.Server.Steps.{step, handle_host_join, Env, Input, viewer_sends, run}
use getsloth.Relay.Server.Roles.{Proper}
use getsloth.Relay.Server.Life.{created}
use getsloth.Host.Keyboard.{
  Handlers, Key, type_keys, gated_writes, forwarded, commands, joined_keys, gated_writes-forwarded,
}
use getsloth.Host.Output.{output_write, output_write_complete, joined, max_output_chunk_bytes}
use getsloth.Host.Grid.{terminal_grid_size, terminal_grid_size-valid}
use getsloth.Host.Status.{Status, Platform, max_host_control_events}
use getsloth.Host.Status.Ops.{Op, new_status, apply_ops, update_presence}
use getsloth.Host.Status.Events.{events-full_log, full_log}
use getsloth.Host.Status.Roster.{host_sees_roster}
use getsloth.Host.Loop.{Loop, handle_relay_message}
use getsloth.Host.Follow.Late.{late_write_misleads}
use getsloth.Host.Follow.{deliver, flag_follows_writer, one_writer}
use getsloth.Tests.{Frame, frame, frames, open_world, at_time, apart}
use getsloth.Tests.Runs.{visit, visit-Proper, peers-fresh}

-- Sorting leaves the order alone, and numbers are not spelled out.
abbrev pub platform : Platform
platform = record {
  decimal = λ n. "n";
  is_control = λ c. false;
  sort_strings = λ names. names;
  sort_viewers = λ viewers. viewers;
}

abbrev handlers : Handlers
handlers = record { on_reclaim = true; on_status = true }

-- `l`, then the prefix; then its command, and `s`.
abbrev typed : List Key
typed = (108, true) ∷ (29, true) ∷ []

abbrev typed_next : List Key
typed_next = (114, true) ∷ (115, true) ∷ []

gated_writes-forwarded_example :
    let writes = typed ∷ typed_next ∷ [] in
    let (results, outcome) = gated_writes handlers false writes in
    (outcome.forward ≡ forwarded (joined_keys writes))
    × (outcome.actions ≡ commands handlers (joined_keys writes))
    × (results ≡ map (λ keys. some (length keys)) writes)
gated_writes-forwarded_example = gated_writes-forwarded handlers (typed ∷ typed_next ∷ [])

output_write_complete_example :
    let (count, chunks) = output_write (1 ∷ 2 ∷ 3 ∷ []) in
    (count ≡ 3)
    × (joined chunks ≡ 1 ∷ 2 ∷ 3 ∷ [])
    × All (λ c. (1 ≤ length c) × (length c ≤ max_output_chunk_bytes)) chunks
output_write_complete_example = output_write_complete (1 ∷ 2 ∷ 3 ∷ [])

terminal_grid_size-valid_example :
    valid_terminal_size (terminal_grid_size (some (1, 40))).0 (terminal_grid_size (some (1, 40))).1
    ≡ true
terminal_grid_size-valid_example = terminal_grid_size-valid (some (1, 40))

abbrev ops : List Op
ops =
    Op.invites "https://example.org" "swordfish"
    ∷ Op.chat "ann" "hello"
    ∷ Op.control
        (record { active_writer_id = "v1"; active_writer_role = "viewer"; cols = 80; rows = 24 })
    ∷ Op.kill_switch
    ∷ []

events-full_log_example :
    (apply_ops platform ops (new_status platform session_mode_remote)).events
    ≡ take max_host_control_events
        (full_log platform ops (new_status platform session_mode_remote) [])
events-full_log_example = events-full_log platform session_mode_remote ops

abbrev pub status : Status
status = record {
  mode = session_mode_remote;
  invite_url = "";
  qr_invite_url = "";
  password = "swordfish";
  viewers = ("v9", "old") ∷ [];
  health = [];
  events = [];
  active_writer_id = "v9";
  active_writer_role = "viewer";
  live = true;
  written = [];
}

host_sees_roster_example :
    (lookup "v1" (update_presence platform (roster open_world) status).viewers ≡ none)
    ↔ All (λ c. (open_world.conns c).id ≢ "v1") (live_viewers open_world)
host_sees_roster_example = host_sees_roster platform open_world status "v1"

abbrev nothing_decodes : String → Option (List ℕ)
nothing_decodes s = none

abbrev refuses : String → String → Bool
refuses key text = false

abbrev idle : Loop
idle = record { active = true; status = none }

flag_follows_writer_example :
    let r = run frames visit (created 0 "s" open_world) in
    (deliver nothing_decodes refuses platform 0 r.1 idle).0.active
    ≡ (r.0.session.active_writer_id == "host")
flag_follows_writer_example =
    flag_follows_writer frames 0 "s" open_world visit peers-fresh visit-Proper nothing_decodes
      refuses platform idle refl

-- A viewer takes control.
abbrev taking : List (Env × Input Frame)
taking = (at_time 20000000000, viewer_sends 1 "a" (frame "take_control" "")) ∷ []

taking-Proper : All (λ ei. Proper 0 ei.1) taking
taking-Proper = ((λ e. ground arith), tt)

one_writer_example :
    (type_keys handlers false ((108, false) ∷ (29, false) ∷ (120, false) ∷ [])).forward ≡ []
unfolding run new_session handle_input step handle_viewer_message handle_host_join
    handle_take_control new_connection valid_terminal_size deliver authenticated_viewers
    broadcast_presence handle_relay_message type_of
one_writer_example =
    one_writer frames 0 "s" open_world taking peers-fresh taking-Proper nothing_decodes refuses
      platform idle refl 1 "bHM=" handlers false ((108, false) ∷ (29, false) ∷ (120, false) ∷ [])
      (λ e. absurd (omega (arith, e))) refl (refl, (refl, (refl, tt)))

-- The first viewer is the writer, and leaves when the second takes control.
abbrev handed_over : World
handed_over = record open_world {
  session = record open_world.session { active_writer_id = "v1"; active_writer_role = "viewer" };
}

late_write_misleads_example :
    let (w₁, out₁) = handle_viewer_disconnect 7 1 handed_over in
    let (w₂, out₂) = handle_take_control 20000000000 2 (record { cols = 90; rows = 30 }) w₁ in
    ((deliver nothing_decodes refuses platform 0 (out₁ ++ out₂) idle).0.active ≡ false)
    × ((deliver nothing_decodes refuses platform 0 (out₂ ++ out₁) idle).0.active ≡ true)
    × (w₂.session.active_writer_id ≡ (handed_over.conns 2).id)
    × (handle_input 2 (some "bHM=") w₂
        ≡ send 0 (Msg.input_forward "bHM=" (handed_over.conns 2).id) ∷ [])
unfolding handle_viewer_disconnect refusal new_session new_connection valid_terminal_size
late_write_misleads_example =
    late_write_misleads nothing_decodes refuses platform 0 7 20000000000 1 2
      (record { cols = 90; rows = 30 }) "bHM=" handed_over idle refl refl (apart "v2" "host" refl)
      refl
