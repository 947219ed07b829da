-- ===== src/Host/Process/Ending.antt =====
-- How the end of the host process reaches the relay.
use mathlib.Core.Path.{subst}
use getsloth.Base.{
  Bool, true, false, List, [], ◌∷◌, ◌++◌, ◌==◌, ◌≡◌, refl, ap, ◌∙◌, sym, All, All-append, some,
  values, inl, inr, if◌then◌else◌,
}
use getsloth.Protocol.{reason_process_exited}
use getsloth.Relay.Session.{World, teardown, farewell}
use getsloth.Relay.Server.{Decoder, handle_host_message, dispatch_host, dispatch_host_action}
use getsloth.Relay.Server.Steps.{Env, Input, step}
use getsloth.Host.Status.{Platform}
use getsloth.Host.Control.{HostMsg, HostSide, kill_viewers, reclaim_control}
use getsloth.Host.Process.{
  Process, Outgoing, Event, write_error, Panic, Stage, start_process, write_json, go_on_panic,
  stop_panic, go_on_cleanup, do_reclaim, do_kill_viewers, on_request, process_event, process_events,
}
use getsloth.Host.Process.Told.{Before, Between, Ended, State, at, write-State}
use getsloth.Host.Process.Told.Steps.{
  Begun, cleanup-Begun, cleanup-State, go_on_cleanup-Begun, go_on_cleanup-State, go_on_panic-State,
  go_on_panic-stage, panic_kill-State, panic_kill-stage,
}

abbrev pub IsLive : Event → Type 0
IsLive Event.connection_lost = ⊥
IsLive _ = Unit {0}

-- The steps that the two goroutines still need at most.
abbrev pub panic_settles : List Event
panic_settles = Event.panic_step ∷ Event.panic_step ∷ Event.panic_step ∷ Event.panic_step ∷ []

abbrev pub cleanup_settles : List Event
cleanup_settles = Event.cleanup_step ∷ Event.cleanup_step ∷ Event.cleanup_step ∷ []

module _ (platform : Platform) where
  if-State : (b : Bool) (p q : Process) → State p → State q → State (if b then p else q)
  if-State true p q s t = s
  if-State false p q s t = t

  reclaim-State : (p : Process) → State p → State (do_reclaim p)
  unfolding do_reclaim
  reclaim-State p s =
      write-State (Outgoing.action HostMsg.take_control)
        (record p { side = (reclaim_control (write_error p) p.side).0 }) tt s

  kill-State : (p : Process) → State p → State (do_kill_viewers platform p)
  unfolding do_kill_viewers
  kill-State p s =
      write-State (Outgoing.action HostMsg.kill_switch)
        (record p { side = (kill_viewers platform (write_error p) p.side).0 }) tt s

  event-State : (e : Event) (p : Process) → IsLive e → State p → State (process_event platform e p)
  unfolding process_event on_request
  event-State Event.soft_reclaim p live s = if-State p.soft_signals _ p (reclaim-State p s) s
  event-State Event.soft_kill_viewers p live s = if-State p.soft_signals _ p (kill-State p s) s
  event-State Event.panic_signal p live s = panic_kill-State p.panic p.stage p s
  event-State Event.panic_step p live s = go_on_panic-State p.panic p.stage p s
  event-State (Event.request name) p live s =
      if-State p.endpoint_open _ p
        (if-State (name == "reclaim") _ _ (reclaim-State p s)
          (if-State (name == "kill") _ p (kill-State p s) s))
        s
  event-State Event.reclaim_key p live s = reclaim-State p s
  event-State (Event.terminal_resized cols rows) p live s =
      write-State (Outgoing.host_size cols rows) p tt s
  event-State (Event.output_read chunk) p live s = write-State (Outgoing.output chunk) p tt s
  event-State (Event.attempt_checked request_id accepted) p live s =
      write-State (Outgoing.auth_response request_id accepted) p tt s
  event-State Event.connection_lost p live s = absurd live
  event-State Event.command_ends p live s = cleanup-State p.panic p.stage p s
  event-State Event.cleanup_step p live s = go_on_cleanup-State p.panic p.stage p s

  events-State :
      (events : List Event) (p : Process)
      → All IsLive events
      → State p
      → State (process_events platform events p)
  unfolding process_events
  events-State [] p live s = s
  events-State (e ∷ events) p live s =
      events-State events (process_event platform e p) live.1 (event-State e p live.0 s)

  started-State : (side : HostSide) (endpoint : Bool) → State (start_process side true endpoint)
  unfolding start_process
  started-State side endpoint = inl (refl, tt, tt)

  if-stage : (b : Bool) (p q : Process) → p.stage ≡ q.stage → (if b then p else q).stage ≡ q.stage
  if-stage true p q e = e
  if-stage false p q e = refl

  same-Begun : (s t : Stage) → t ≡ s → Begun s → Begun t
  same-Begun s t e b = subst Begun (sym e) b

  event-Begun : (e : Event) (p : Process) → Begun p.stage → Begun (process_event platform e p).stage
  unfolding process_event on_request do_reclaim do_kill_viewers write_json
  event-Begun Event.soft_reclaim p b =
      same-Begun p.stage _ (if-stage p.soft_signals (do_reclaim p) p refl) b
  event-Begun Event.soft_kill_viewers p b =
      same-Begun p.stage _ (if-stage p.soft_signals (do_kill_viewers platform p) p refl) b
  event-Begun Event.panic_signal p b = same-Begun p.stage _ (panic_kill-stage p.panic p) b
  event-Begun Event.panic_step p b = same-Begun p.stage _ (go_on_panic-stage p.panic p) b
  event-Begun (Event.request name) p b =
      let killed = if name == "kill" then do_kill_viewers platform p else p in
      same-Begun p.stage _
        (if-stage p.endpoint_open (if name == "reclaim" then do_reclaim p else killed) p (
          if-stage (name == "reclaim") (do_reclaim p) killed
            (sym (if-stage (name == "kill") (do_kill_viewers platform p) p refl))
          ∙ if-stage (name == "kill") (do_kill_viewers platform p) p refl))
        b
  event-Begun Event.reclaim_key p b = b
  event-Begun (Event.terminal_resized cols rows) p b = b
  event-Begun (Event.output_read chunk) p b = b
  event-Begun (Event.attempt_checked request_id accepted) p b = b
  event-Begun Event.connection_lost p b = b
  event-Begun Event.command_ends p b = cleanup-Begun p.stage p
  event-Begun Event.cleanup_step p b = go_on_cleanup-Begun p.stage p b

  events-Begun :
      (events : List Event) (p : Process)
      → Begun p.stage
      → Begun (process_events platform events p).stage
  unfolding process_events
  events-Begun [] p b = b
  events-Begun (e ∷ events) p b =
      events-Begun events (process_event platform e p) (event-Begun e p b)

  events-append :
      (es fs : List Event) (p : Process)
      → process_events platform (es ++ fs) p
        ≡ process_events platform fs (process_events platform es p)
  unfolding process_events
  events-append [] fs p = refl
  events-append (e ∷ es) fs p = events-append es fs (process_event platform e p)

  -- Once the panic kill is not under way, three steps of the cleanup are enough.
  AtRest : Panic → Type 0
  AtRest Panic.waits = Unit {0}
  AtRest Panic.done = Unit {0}
  AtRest _ = ⊥

  panic-AtRest :
      (q : Panic) (p : Process)
      → let p' = process_events platform panic_settles (record p { panic = q }) in
        AtRest p'.panic × (p'.stage ≡ p.stage)
  unfolding process_events process_event go_on_panic AtRest write_json
  panic-AtRest Panic.waits p = (tt, refl)
  panic-AtRest Panic.kills_viewers p = (tt, refl)
  panic-AtRest Panic.tells_end p = (tt, refl)
  panic-AtRest Panic.closes p = (tt, refl)
  panic-AtRest Panic.kills_command p = (tt, refl)
  panic-AtRest Panic.done p = (tt, refl)

  cleanup-finishes :
      (q : Panic) (s : Stage) (p : Process)
      → AtRest q
      → Begun s
      → (process_events platform cleanup_settles (at q s p)).stage ≡ Stage.finished
  unfolding process_events process_event go_on_cleanup stop_panic AtRest write_json
  cleanup-finishes q Stage.running p r b = absurd b
  cleanup-finishes Panic.waits Stage.stops_panic p r b = refl
  cleanup-finishes Panic.done Stage.stops_panic p r b = refl
  cleanup-finishes Panic.kills_viewers Stage.stops_panic p r b = absurd r
  cleanup-finishes Panic.tells_end Stage.stops_panic p r b = absurd r
  cleanup-finishes Panic.closes Stage.stops_panic p r b = absurd r
  cleanup-finishes Panic.kills_command Stage.stops_panic p r b = absurd r
  cleanup-finishes q Stage.tells_end p r b = refl
  cleanup-finishes q Stage.closes p r b = refl
  cleanup-finishes q Stage.finished p r b = refl

  settles :
      (p : Process)
      → Begun p.stage
      → (process_events platform (panic_settles ++ cleanup_settles) p).stage ≡ Stage.finished
  settles p b =
      let p' = process_events platform panic_settles p in
      let rest = panic-AtRest p.panic p in
      ap (λ r. r.stage) (events-append panic_settles cleanup_settles p)
      ∙ cleanup-finishes p'.panic p'.stage p' rest.0 (same-Begun p.stage p'.stage rest.1 b)

  finished-Ended : (p : Process) → p.stage ≡ Stage.finished → State p → Ended p
  finished-Ended p e (inl (live, quiet, b)) = absurd (subst (λ s. Before s p.panic) e b)
  finished-Ended p e (inr (inl (live, told, b))) = absurd (subst (λ s. Between s p.panic) e b)
  finished-Ended p e (inr (inr ended)) = ended

  ran-Begun :
      (before after : List Event) (p : Process)
      → Begun (process_events platform (before ++ Event.command_ends ∷ after) p).stage
  unfolding process_events process_event
  ran-Begun [] after p =
      events-Begun after (process_event platform Event.command_ends p) (cleanup-Begun p.stage p)
  ran-Begun (e ∷ before) after p = ran-Begun before after (process_event platform e p)

end_session-step :
    {Raw : Type 0} (d : Decoder Raw) (e : Env) (raw : Raw) (w : World)
    → d.envelope raw ≡ some "end_session"
    → step d e (Input.host_sends raw) w ≡ teardown reason_process_exited w
unfolding step handle_host_message dispatch_host dispatch_host_action
end_session-step d e raw w typed = rw (typed, handle_host_message) refl

-- However the session of a host goes, with its signals, keys, requests, output, verdicts and the steps
-- of a panic kill in any order, as long as its connection is not lost: once the wrapped command has
-- ended and, whatever happens meanwhile, the goroutines of the panic kill and of the cleanup have got to
-- run to their ends, the cleanup is finished, the connection is closed, and the relay has been told of
-- the end exactly once. Other messages can still follow that one before the close. Whatever the relay
-- has done until it reads it, the session is then closed and without viewers, and each viewer that was
-- left is told that the process has exited and has its connection closed.
pub command_ends_session :
    {Raw : Type 0} (platform : Platform) (side : HostSide) (endpoint : Bool)
    (before after : List Event) (d : Decoder Raw) (encode : Outgoing → Raw) (e : Env) (w : World)
    → All IsLive before
    → All IsLive after
    → d.envelope (encode Outgoing.end_session) ≡ some "end_session"
    → let p =
        process_events platform
          ((before ++ Event.command_ends ∷ after) ++ (panic_settles ++ cleanup_settles))
          (start_process side true endpoint) in
      let (w', out) = step d e (Input.host_sends (encode Outgoing.end_session)) w in
      (p.stage ≡ Stage.finished)
      × Ended p
      × (w'.session.viewers ≡ [])
      × (w'.session.closed ≡ true)
      × (w'.session.done ≡ true)
      × (out ≡ farewell reason_process_exited (values w.session.viewers))
unfolding teardown
command_ends_session platform side endpoint before after d encode e w live live' typed =
    let start = start_process side true endpoint in
    let ran = before ++ Event.command_ends ∷ after in
    let p = process_events platform ran start in
    let all = ran ++ (panic_settles ++ cleanup_settles) in
    let lives = All-append IsLive before (Event.command_ends ∷ after) live (tt, live') in
    let over : (process_events platform all start).stage ≡ Stage.finished =
      ap (λ r. r.stage) (events-append platform ran (panic_settles ++ cleanup_settles) start)
      ∙ settles platform p (ran-Begun platform before after start) in
    let torn = end_session-step d e (encode Outgoing.end_session) w typed in
    (
      over,
      finished-Ended platform (process_events platform all start) over (
          events-State platform all start
            (All-append IsLive ran (panic_settles ++ cleanup_settles) lives
              (tt, (tt, (tt, (tt, (tt, (tt, (tt, tt))))))))
            (started-State platform side endpoint)),
      ap (λ r. r.0.session.viewers) torn,
      ap (λ r. r.0.session.closed) torn,
      ap (λ r. r.0.session.done) torn,
      ap (λ r. r.1) torn,
    )
