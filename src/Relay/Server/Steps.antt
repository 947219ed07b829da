-- ===== src/Relay/Server/Steps.antt =====
-- The goroutines of one session as a sequence of steps: each takes `session.mu` for its handler, so
-- a run is a list of the handlers' inputs in the order in which they take it. A handler that takes the
-- lock twice, and what a handler writes after it has given the lock back, is together one step here:
-- the messages of a run are in the order of the handlers, in which they need not reach their readers.
use getsloth.Base.{ℕ, String, Option, some, List, [], ◌∷◌, ◌++◌, update, if◌then◌else◌}
use getsloth.Protocol.{
  err_session_not_found, close_session_not_found, reason_host_disconnected, Msg,
}
use getsloth.Relay.RateLimit.{clear_session}
use getsloth.Relay.Connection.{new_connection}
use getsloth.Relay.Session.{
  World, send, close, Reply, with_session, add_viewer, new_session, teardown,
}
use getsloth.Relay.Control.{handle_viewer_disconnect}
use getsloth.Relay.Probes.{check_viewer_health}
use getsloth.Relay.Server.{Decoder, handle_viewer_message, handle_host_message}

-- `handleViewer` up to its loop, for a session that is registered, at a new connection.
unfoldable pub handle_viewer_join : ℕ → String → World → Reply
handle_viewer_join conn id w =
    let (s, added) = add_viewer id conn w.session in
    let w' = record w { conns = update w.conns conn (new_connection id "viewer") } in
    if added then (with_session w' s, []) else (
      w',
      send conn (Msg.error err_session_not_found "session has ended")
          ∷ close conn close_session_not_found "session_not_found"
          ∷ [],
    )

-- `handleHost` up to its loop: the world of a session that is created at a new connection.
unfoldable pub handle_host_join : ℕ → String → World → Reply
unfolding new_session
handle_host_join conn session_id w = (
  record w {
    session = record (new_session session_id) { host = some conn };
    conns = update w.conns conn (new_connection "host" "host");
  },
  send conn (Msg.session_created session_id "host") ∷ [],
)

-- What `handleHost` does after its loop, but for the registry.
unfoldable pub handle_host_leave : World → Reply
unfolding teardown
handle_host_leave w =
    let (w', out) = teardown reason_host_disconnected w in
    (record w' { limiter = clear_session w.session.id w.limiter }, out)

pub data Input (Raw : Type 0) : Type 0 where
  viewer_joins : (conn : ℕ) (id : String) → Input Raw
  viewer_sends : (conn : ℕ) (addr : String) (raw : Raw) → Input Raw
  viewer_leaves : (conn : ℕ) → Input Raw
  host_sends : (raw : Raw) → Input Raw
  host_leaves : Input Raw
  health_tick : (configured : ℕ) (nonces : ℕ → Option String) → Input Raw

-- The clock and the random identifier that a step reads.
pub record Env : Type 0 where
  pub now : ℕ
  pub random : Option String

module _ {Raw : Type 0} (d : Decoder Raw) where
  unfoldable pub step : Env → Input Raw → World → Reply
  step e (viewer_joins conn id) w = handle_viewer_join conn id w
  step e (viewer_sends conn addr raw) w = handle_viewer_message d e.now e.random conn addr raw w
  step e (viewer_leaves conn) w = handle_viewer_disconnect e.now conn w
  step e (host_sends raw) w = handle_host_message d e.now e.random raw w
  step e host_leaves w = handle_host_leave w
  step e (health_tick configured nonces) w = check_viewer_health e.now configured nonces w

  unfoldable pub run : List (Env × Input Raw) → World → Reply
  run [] w = (w, [])
  run ((e, i) ∷ is) w =
      let (w₁, out₁) = step e i w in let (w₂, out₂) = run is w₁ in (w₂, out₁ ++ out₂)
