-- ===== src/Relay/Registry.antt =====
-- The server with all its sessions: `Registry` of internal/relay/session.go, and `handleHost` and
-- `handleViewer` of server.go up to and after their loops. A session is a number that stands for a
-- Go pointer: a goroutine keeps its session also after the registry has removed it. The HTTP upgrade
-- is not modelled, and the random ids are arguments.
pub mod Life
pub mod Apart
use getsloth.Base.{
  ℕ, String, Bool, Option, none, some, List, [], ◌∷◌, ◌++◌, if◌then◌else◌, Map, lookup, insert,
  delete, update,
}
use getsloth.Protocol.{Msg, err_session_not_found, close_bad_request, close_session_not_found}
use getsloth.Relay.RateLimit.{RateLimiter}
use getsloth.Relay.Connection.{Connection, new_connection}
use getsloth.Relay.Session.{World, Session, Event, send, close, Reply, new_session}
use getsloth.Relay.Server.{Decoder}
use getsloth.Relay.Server.Steps.{Env, Input, step, handle_host_join}

-- `Server`, with the heaps of sessions and connections.
pub record Server : Type 0 where
  pub registry : Map ℕ
  pub sessions : ℕ → Session
  pub conns : ℕ → Connection
  pub limiter : RateLimiter

-- `Registry.Get`
abbrev pub get_session : String → Server → Option ℕ
get_session id srv = lookup id srv.registry

-- `Registry.remove`
unfoldable pub remove_session : String → Server → Server
remove_session id srv = record srv { registry = delete id srv.registry }

abbrev pub world_of : ℕ → Server → World
world_of ptr srv = record { session = srv.sessions ptr; conns = srv.conns; limiter = srv.limiter }

abbrev pub with_world : ℕ → World → Server → Server
with_world ptr w srv = record srv {
  sessions = update srv.sessions ptr w.session;
  conns = w.conns;
  limiter = w.limiter;
}

-- What reaches the server: a host at a new connection, with the new session's pointer and whether
-- the first message to the host can be written; a viewer at a new connection; what a goroutine of a
-- session does, by the session's id and pointer; and the end of the host's loop.
pub data Arrival (Raw : Type 0) : Type 0 where
  host_connects : (conn ptr : ℕ) (writes : Bool) → Arrival Raw
  viewer_connects : (session_id : String) (conn : ℕ) → Arrival Raw
  inside : (ptr : ℕ) (i : Input Raw) → Arrival Raw
  host_gone : (session_id : String) (ptr : ℕ) → Arrival Raw

-- `Registry.Create` at a fresh pointer, and the start of `handleHost`.
unfoldable pub accept_host : Option String → ℕ → ℕ → Bool → Server → Server × List Event
unfolding remove_session
accept_host none conn ptr writes srv = (
  record srv { conns = update srv.conns conn (new_connection "host" "host") },
  close conn close_bad_request "could not create session" ∷ [],
)
accept_host (some id) conn ptr writes srv =
    let (w, out) = handle_host_join conn id (world_of ptr srv) in
    let srv' = record (with_world ptr w srv) { registry = insert id ptr srv.registry } in
    if writes then (srv', out) else (remove_session id srv', [])

abbrev pub session_unknown : ℕ → List Event
session_unknown conn =
    send conn (Msg.error err_session_not_found "no session with this id")
    ∷ close conn close_session_not_found "session_not_found"
    ∷ []

module _ {Raw : Type 0} (d : Decoder Raw) where
  unfoldable pub step_inside : Env → ℕ → Input Raw → Server → Server × List Event
  step_inside e ptr i srv =
      let (w, out) = step d e i (world_of ptr srv) in (with_world ptr w srv, out)

  -- The start of `handleViewer`; the random id is the environment's.
  unfoldable pub accept_viewer : Env → String → ℕ → Server → Server × List Event
  unfolding step_inside
  accept_viewer e session_id conn srv = elim (get_session session_id srv) [
    | none ↦ (
      record srv { conns = update srv.conns conn (new_connection "" "viewer") },
      session_unknown conn,
    )
    | some ptr ↦ elim e.random [
      | none ↦ (
        record srv { conns = update srv.conns conn (new_connection "" "viewer") },
        close conn close_bad_request "internal error" ∷ [],
      )
      | some viewer_id ↦ step_inside e ptr (Input.viewer_joins conn viewer_id) srv
    ]
  ]

  -- The end of `handleHost`.
  unfoldable pub leave_host : Env → String → ℕ → Server → Server × List Event
  unfolding step_inside remove_session
  leave_host e session_id ptr srv =
      let (srv', out) = step_inside e ptr Input.host_leaves srv in
      (remove_session session_id srv', out)

  unfoldable pub serve_one : Env → Arrival Raw → Server → Server × List Event
  unfolding accept_host accept_viewer leave_host
  serve_one e (Arrival.host_connects conn ptr writes) srv = accept_host e.random conn ptr writes srv
  serve_one e (Arrival.viewer_connects session_id conn) srv = accept_viewer e session_id conn srv
  serve_one e (Arrival.inside ptr i) srv = step_inside e ptr i srv
  serve_one e (Arrival.host_gone session_id ptr) srv = leave_host e session_id ptr srv

  unfoldable pub serve_all : List (Env × Arrival Raw) → Server → Server × List Event
  unfolding serve_one
  serve_all [] srv = (srv, [])
  serve_all ((e, a) ∷ later) srv =
      let (srv₁, out₁) = serve_one e a srv in
      let (srv₂, out₂) = serve_all later srv₁ in (srv₂, out₁ ++ out₂)
