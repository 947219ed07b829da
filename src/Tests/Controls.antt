-- ===== src/Tests/Controls.antt =====
-- Requests to the host's control endpoint, and the host's override, in a concrete session.
use getsloth.Base.{
  String, true, Option, none, some, List, [], ◌∷◌, ◌++◌, map, ◌≡◌, ◌≢◌, refl, arith, All, values,
}
use getsloth.Protocol.{reason_process_exited}
use getsloth.Relay.Session.{farewell}
use getsloth.Host.Process.{Outgoing, Event, Stage, start_process, process_events}
use getsloth.Host.Process.Told.{Ended}
use getsloth.Host.Process.Ending.{panic_settles, cleanup_settles, command_ends_session}
use getsloth.Relay.Server.Steps.{Env, Input, step, run, viewer_sends, viewer_leaves}
use getsloth.Relay.Server.Roles.{Proper}
use getsloth.Host.Control.{HostMsg, HostSide, handle, session_actions, take_snapshot}
use getsloth.Host.Control.Reclaim.{Did, reclaim_overrides}
use getsloth.Host.Control.Endpoint.{Outcomes, start_endpoint, untouched, start_all_or_nothing}
use getsloth.Console.Client.{Got, request_snapshot, answered_by, request-handle}
use getsloth.Tests.{Frame, frame, frames, open_world, at_time}
use getsloth.Tests.Runs.{open_world-Roles}
use getsloth.Tests.Hosts.{platform, status}

abbrev quiet_session : HostSide
quiet_session = record { status = status; sent = []; printed = [] }

-- Writes to the relay succeed, but for the kill switch.
abbrev writes : HostMsg → Option String
writes HostMsg.take_control = none
writes HostMsg.kill_switch = some "broken pipe"

abbrev encode : HostMsg → Frame
encode HostMsg.take_control = frame "take_control" ""
encode HostMsg.kill_switch = frame "kill_switch" ""

abbrev contested : List (Env × Input Frame)
contested =
    (at_time 20000000001, viewer_sends 1 "a" (frame "take_control" ""))
    ∷ (at_time 20000000002, viewer_leaves 2)
    ∷ (at_time 21999999999, viewer_sends 1 "a" (frame "take_control" ""))
    ∷ []

contested-Proper : All (λ ei. Proper 0 ei.1) contested
contested-Proper = ((λ e. ground arith), ((λ e. ground arith), ((λ e. ground arith), tt)))

reclaim_overrides_example :
    let (s', _) =
      handle
        (take_snapshot platform)
        (session_actions platform writes)
        (some "reclaim")
        quiet_session in
    (run frames
      (map (λ msg. (at_time 20000000000, Input.host_sends (encode msg))) s'.sent ++ contested)
      open_world).0.session.active_writer_id
    ≡ "host"
reclaim_overrides_example =
    reclaim_overrides platform writes quiet_session frames encode (record { cols = 100; rows = 40 })
      0 (at_time 20000000000) open_world contested refl refl refl refl open_world-Roles
      contested-Proper
      ((omega arith, omega arith), ((omega arith, omega arith), ((omega arith, omega arith), tt)))

request-handle_example :
    let (s', response) =
      handle
        (take_snapshot platform)
        (session_actions platform writes)
        (some "kill")
        quiet_session in
    Got platform quiet_session s' (request_snapshot (answered_by response))
    × Did "kill" writes quiet_session s'
request-handle_example = request-handle platform writes "kill" quiet_session

abbrev refused_socket : Outcomes
refused_socket = record {
  make_directory = none;
  restrict_directory = none;
  listen = none;
  restrict_socket = some "operation not permitted";
  close_listener = none;
  remove = none;
}

start_all_or_nothing_example :
    let (m, err) = start_endpoint refused_socket true in
    (err ≡ none
      → m ≡ record {
        directory = true;
        private_directory = true;
        listener = true;
        private_socket = true;
      })
    × (err ≢ none
        → refused_socket.close_listener ≡ none
        → refused_socket.remove ≡ none
        → m ≡ untouched)
    × (m.listener ≡ true → refused_socket.close_listener ≡ none → err ≡ none)
    × (m.listener ≡ true → refused_socket.remove ≢ none → m.private_directory ≡ true)
start_all_or_nothing_example = start_all_or_nothing refused_socket true

abbrev on_wire : Outgoing → Frame
on_wire (Outgoing.action m) = encode m
on_wire (Outgoing.host_size cols rows) = frame "host_size" ""
on_wire (Outgoing.output chunk) = frame "output" chunk
on_wire (Outgoing.auth_response request_id accepted) = frame "auth_response" request_id
on_wire Outgoing.end_session = frame "end_session" ""

-- A reclaim, a new size, a panic kill with output between its message and its close, and the end of the
-- command before the kill is through.
abbrev before_end : List Event
before_end =
    Event.soft_reclaim
    ∷ Event.terminal_resized 90 30
    ∷ Event.panic_signal
    ∷ Event.panic_step
    ∷ Event.panic_step
    ∷ Event.output_read "aGk="
    ∷ []

abbrev after_end : List Event
after_end = Event.cleanup_step ∷ Event.output_read "bHM=" ∷ []

command_ends_session_example :
    let p =
      process_events platform
        ((before_end ++ Event.command_ends ∷ after_end) ++ (panic_settles ++ cleanup_settles))
        (start_process quiet_session true true) in
    let (w', out) =
      step frames
        (at_time 20000000000)
        (Input.host_sends (on_wire Outgoing.end_session))
        open_world in
    (p.stage ≡ Stage.finished)
    × Ended p
    × (w'.session.viewers ≡ [])
    × (w'.session.closed ≡ true)
    × (w'.session.done ≡ true)
    × (out ≡ farewell reason_process_exited (values open_world.session.viewers))
command_ends_session_example =
    command_ends_session platform quiet_session true before_end after_end frames on_wire
      (at_time 20000000000) open_world (tt, (tt, (tt, (tt, (tt, (tt, tt)))))) (tt, (tt, tt)) refl
