-- ===== src/Host/Process.antt =====
-- The host process from its connection on: `connectHost` (cmd/getsloth/relay_client.go), the links of
-- shareurl.go, and main.go with its signals and its cleanup. The sockets, the terminal and the wrapped
-- command are library code and the operating system: what they do arrives as events, in the order in
-- which the goroutines get to run. `safeConn.mu` makes a write one step, and a write to a closed or
-- lost connection is refused; the goroutine of the panic kill and the cleanup release it between
-- their writes, so each goes on step by step, and other goroutines write in between.
pub mod Told
pub mod Ending
use getsloth.Base.{
  ℕ, String, Bool, true, false, not, ◌&&◌, Option, none, some, List, [], ◌∷◌, ◌++◌, if◌then◌else◌,
  ◌==◌,
}
use getsloth.Host.Status.{Platform, ◌+++◌}
use getsloth.Host.Control.{
  HostMsg, HostSide, kill_viewers, reclaim_control, handle, session_actions, take_snapshot,
}

-- How far `connectHost` gets: the dial, the relay's answer and the write of the configuration. It
-- gives the session's id, and whether it closes the connection.
unfoldable pub connect_host : Bool → Option String → Bool → Option String × Bool
connect_host dialled created configured = if not dialled then (none, false) else elim created [
  | none ↦ (none, true)
  | some session_id ↦ if configured then (some session_id, false) else (none, true)
]

abbrev pub share_url : String → String → String → String
share_url web_base_url session_id pubkey =
    web_base_url +++ "/s/" +++ session_id +++ "#k=" +++ pubkey

-- `escape` is `url.QueryEscape`.
abbrev pub qr_share_url : (String → String) → String → String → String → String → String
qr_share_url escape web_base_url session_id pubkey password =
    web_base_url +++ "/s/" +++ session_id +++ "#k=" +++ pubkey +++ "&p=" +++ escape password

-- What the process writes to the relay after the configuration: main.go and `hostOutput`, `hostLoop`
-- with the verdicts.
pub data Outgoing : Type 0 where
  action : (m : HostMsg) → Outgoing
  host_size : (cols rows : ℕ) → Outgoing
  output : (chunk : String) → Outgoing
  auth_response : (request_id : String) (accepted : Bool) → Outgoing
  end_session : Outgoing

-- What the goroutine of the panic kill does next, until it is done or was stopped.
pub data Panic : Type 0 where
  waits : Panic
  kills_viewers : Panic
  tells_end : Panic
  closes : Panic
  kills_command : Panic
  done : Panic

-- What `cleanup` does next, from `run` on to the end: it stops the goroutine of the panic kill, or
-- waits until that is done, and then writes and closes.
pub data Stage : Type 0 where
  running : Stage
  stops_panic : Stage
  tells_end : Stage
  closes : Stage
  finished : Stage

-- `softSignals` is a subscription, `killed` is whether `panicKill` is closed, and `delivered` is what
-- has been written to the relay.
pub record Process : Type 0 where
  pub side : HostSide
  pub delivered : List Outgoing
  pub closed : Bool
  pub endpoint_open : Bool
  pub soft_signals : Bool
  pub panic : Panic
  pub stage : Stage
  pub killed : Bool

pub data Event : Type 0 where
  soft_reclaim : Event
  soft_kill_viewers : Event
  panic_signal : Event
  -- the goroutine of the panic kill goes on
  panic_step : Event
  -- a request to the control endpoint
  request : (name : String) → Event
  -- the host's key for a reclaim
  reclaim_key : Event
  terminal_resized : (cols rows : ℕ) → Event
  -- a chunk of the command's output, and the answer to a viewer's attempt
  output_read : (chunk : String) → Event
  attempt_checked : (request_id : String) (accepted : Bool) → Event
  connection_lost : Event
  -- `run` returns
  command_ends : Event
  -- `cleanup` goes on
  cleanup_step : Event

-- A session that has its relay, or none; without one there are no soft signals and no endpoint.
unfoldable pub start_process : HostSide → Bool → Bool → Process
start_process side connected endpoint = record {
  side = side;
  delivered = [];
  closed = not connected;
  endpoint_open = connected && endpoint;
  soft_signals = connected;
  panic = Panic.waits;
  stage = Stage.running;
  killed = false;
}

unfoldable pub write_json : Outgoing → Process → Process
write_json m p = record p { delivered = if p.closed then p.delivered else p.delivered ++ m ∷ [] }

abbrev pub write_error : Process → HostMsg → Option String
write_error p m = if p.closed then some "websocket: close sent" else none

abbrev pub panic_notice : String
panic_notice =
    "getsloth: PANIC KILL triggered - cutting off remote access, then terminating all session processes"

-- The signal arrives: the goroutine prints its notice.
unfoldable pub panic_kill : Process → Process
panic_kill p = elim p.panic [
  | waits ↦ record p {
    side = record p.side { printed = p.side.printed ++ panic_notice ∷ [] };
    panic = Panic.kills_viewers;
  }
  | kills_viewers ↦ p
  | tells_end ↦ p
  | closes ↦ p
  | kills_command ↦ p
  | done ↦ p
]

-- The next step of that goroutine.
unfoldable pub go_on_panic : Process → Process
unfolding write_json
go_on_panic p = elim p.panic [
  | waits ↦ p
  | kills_viewers ↦ record (write_json (Outgoing.action HostMsg.kill_switch) p) {
    panic = Panic.tells_end;
  }
  | tells_end ↦ record (write_json Outgoing.end_session p) { panic = Panic.closes }
  | closes ↦ record p { closed = true; panic = Panic.kills_command }
  | kills_command ↦ record p { killed = true; panic = Panic.done }
  | done ↦ p
]

-- `cleanup`, which the session's `defer` calls when the command has ended: first the endpoint and the
-- soft signals.
unfoldable pub cleanup : Process → Process
cleanup p = elim p.stage [
  | running ↦ record p { endpoint_open = false; soft_signals = false; stage = Stage.stops_panic }
  | stops_panic ↦ p
  | tells_end ↦ p
  | closes ↦ p
  | finished ↦ p
]

-- `close(panicStop)` and `<-panicDone`: a goroutine that has not begun ends, one that has is waited for.
unfoldable pub stop_panic : Process → Process
stop_panic p = elim p.panic [
  | waits ↦ record p { panic = Panic.done; stage = Stage.tells_end }
  | kills_viewers ↦ p
  | tells_end ↦ p
  | closes ↦ p
  | kills_command ↦ p
  | done ↦ record p { stage = Stage.tells_end }
]

-- The next step of `cleanup`.
unfoldable pub go_on_cleanup : Process → Process
unfolding write_json stop_panic
go_on_cleanup p = elim p.stage [
  | running ↦ p
  | stops_panic ↦ stop_panic p
  | tells_end ↦ record (write_json Outgoing.end_session p) { stage = Stage.closes }
  | closes ↦ record p { closed = true; stage = Stage.finished }
  | finished ↦ p
]

-- `reclaim` and `killViewers` of main.go.
unfoldable pub do_reclaim : Process → Process
unfolding write_json reclaim_control
do_reclaim p =
    write_json (Outgoing.action HostMsg.take_control)
      (record p { side = (reclaim_control (write_error p) p.side).0 })

module _ (platform : Platform) where
  unfoldable pub do_kill_viewers : Process → Process
  unfolding write_json kill_viewers
  do_kill_viewers p =
      write_json (Outgoing.action HostMsg.kill_switch)
        (record p { side = (kill_viewers platform (write_error p) p.side).0 })

  unfoldable pub on_request : String → Process → Process
  unfolding do_reclaim do_kill_viewers
  on_request name p =
      if name == "reclaim" then do_reclaim p else if name == "kill" then do_kill_viewers p else p

  unfoldable pub process_event : Event → Process → Process
  unfolding panic_kill go_on_panic cleanup go_on_cleanup on_request
  process_event soft_reclaim p = if p.soft_signals then do_reclaim p else p
  process_event soft_kill_viewers p = if p.soft_signals then do_kill_viewers p else p
  process_event panic_signal p = panic_kill p
  process_event panic_step p = go_on_panic p
  process_event (request name) p = if p.endpoint_open then on_request name p else p
  process_event reclaim_key p = do_reclaim p
  process_event (terminal_resized cols rows) p = write_json (Outgoing.host_size cols rows) p
  process_event (output_read chunk) p = write_json (Outgoing.output chunk) p
  process_event (attempt_checked request_id accepted) p =
      write_json (Outgoing.auth_response request_id accepted) p
  process_event connection_lost p = record p { closed = true }
  process_event command_ends p = cleanup p
  process_event cleanup_step p = go_on_cleanup p

  unfoldable pub process_events : List Event → Process → Process
  unfolding process_event
  process_events [] p = p
  process_events (e ∷ events) p = process_events events (process_event e p)
