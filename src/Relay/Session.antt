-- ===== src/Relay/Session.antt =====
-- internal/relay/session.go, and what the handlers of one session share: the session, the heap of
-- connections that its maps point into, and the rate limiter of the server. Each handler returns
-- the new world and the messages that it writes, in order. `session.mu` makes its change of the session
-- one step; the code writes most of the messages after it has given the lock back, and they stand here
-- with the step. A
-- connection is named by a number, as a Go pointer names it. Times are nanoseconds since the zero
-- `time.Time`, and a deadline of 0 is the zero time.
use getsloth.Base.{
  ℕ, ◌-◌, ◌*◌, String, Bool, true, false, not, ◌&&◌, ◌||◌, Option, none, some, List, [], ◌∷◌, ◌++◌,
  map, ◌==◌, ltb, leb, eqb, if◌then◌else◌, Map, insert, values, length, drop,
}
use getsloth.Protocol.{
  SessionConfigMsg, AuthResultMsg, Msg, session_mode_remote, session_mode_group, default_cols,
  default_rows, close_session_ended,
}
use getsloth.Relay.RateLimit.{RateLimiter, second}
use getsloth.Relay.Connection.{Connection}

abbrev pub host_lock_window : ℕ
host_lock_window = 2 * second

abbrev pub reconnect_window : ℕ
reconnect_window = 30 * second

abbrev pub max_output_backlog_chunks : ℕ
max_output_backlog_chunks = 256

pub record TokenRecord : Type 0 where
  pub connection_id : String
  pub expires_at : ℕ

pub record PendingAuth : Type 0 where
  pub viewer_id : String
  pub conn : ℕ
  pub remote_addr : String

-- `done` is the channel of that name, closed or not.
pub record Session : Type 0 where
  pub id : String
  pub host : Option ℕ
  pub viewers : Map ℕ
  pub done : Bool
  pub closed : Bool
  pub mode : String
  pub cols : ℕ
  pub rows : ℕ
  pub host_cols : ℕ
  pub host_rows : ℕ
  pub remote_viewer_id : String
  pub remote_slot_expiry : ℕ
  pub pending_auth : Map PendingAuth
  pub tokens : Map TokenRecord
  pub output_backlog : List String
  pub active_writer_id : String
  pub active_writer_role : String
  pub last_host_reclaim : ℕ

pub record World : Type 0 where
  pub session : Session
  pub conns : ℕ → Connection
  pub limiter : RateLimiter

-- `writeJSON` and `closeWithCode` on a connection.
pub data Event : Type 0 where
  send : (conn : ℕ) (msg : Msg) → Event
  close : (conn code : ℕ) (reason : String) → Event

abbrev pub Reply : Type 0
Reply = World × List Event

-- The session that `Registry.Create` makes, before the host's connection is stored in it.
unfoldable pub new_session : String → Session
new_session id = record {
  id = id;
  host = none;
  viewers = [];
  done = false;
  closed = false;
  mode = session_mode_remote;
  cols = default_cols;
  rows = default_rows;
  host_cols = default_cols;
  host_rows = default_rows;
  remote_viewer_id = "";
  remote_slot_expiry = 0;
  pending_auth = [];
  tokens = [];
  output_backlog = [];
  active_writer_id = "host";
  active_writer_role = "host";
  last_host_reclaim = 0;
}

abbrev pub with_session : World → Session → World
with_session w s = record w { session = s }

-- `addViewer`: the connection is refused once the session is closed.
unfoldable pub add_viewer : String → ℕ → Session → Session × Bool
add_viewer id c s =
    if s.closed then (s, false) else (record s { viewers = insert id c s.viewers }, true)

unfoldable pub valid_terminal_size : ℕ → ℕ → Bool
valid_terminal_size cols rows = leb 2 cols && leb 2 rows && leb cols 1000 && leb rows 500

unfoldable pub configure : SessionConfigMsg → Session → Session × Bool
configure m s =
    if not (m.mode == session_mode_remote) && not (m.mode == session_mode_group)
    then (s, false)
    else if not (valid_terminal_size m.host_cols m.host_rows)
    then (s, false)
    else (
      record s {
        mode = m.mode;
        cols = m.host_cols;
        rows = m.host_rows;
        host_cols = m.host_cols;
        host_rows = m.host_rows;
        output_backlog = [];
      },
      true,
    )

unfoldable pub auth_result_of : Session → String → String → AuthResultMsg
auth_result_of s token connection_id = record {
  accepted = true;
  token = token;
  connection_id = connection_id;
  code = "";
  retry_after_ms = 0;
  mode = s.mode;
  cols = s.cols;
  rows = s.rows;
  active_writer_id = s.active_writer_id;
  active_writer_role = s.active_writer_role;
}

abbrev pub to_all : Msg → List ℕ → List Event
to_all m = map (λ c. send c m)

abbrev pub to_host : Msg → Option ℕ → List Event
to_host m none = []
to_host m (some h) = send h m ∷ []

unfoldable pub authenticated_viewers : (ℕ → Connection) → Map ℕ → List ℕ
authenticated_viewers conns [] = []
authenticated_viewers conns ((id, c) ∷ viewers) =
    let rest = authenticated_viewers conns viewers in
    if (conns c).authenticated then c ∷ rest else rest

abbrev pub live_viewers : World → List ℕ
live_viewers w = authenticated_viewers w.conns w.session.viewers

abbrev pub farewell : String → List ℕ → List Event
farewell reason [] = []
farewell reason (c ∷ cs) =
    send c (Msg.session_ended reason)
    ∷ close c close_session_ended "session_ended"
    ∷ farewell reason cs

unfoldable pub teardown : String → World → Reply
teardown reason w = (
  with_session w (record s { viewers = []; closed = true; done = true }),
  farewell reason (values s.viewers),
)
  where
    s : Session
    s = w.session

-- `outputBacklog` after one more chunk.
unfoldable pub push_backlog : List String → String → List String
push_backlog backlog chunk =
    let grown = backlog ++ chunk ∷ [] in
    if ltb max_output_backlog_chunks (length grown)
    then drop (length grown - max_output_backlog_chunks) grown
    else grown

unfoldable pub broadcast_output : String → World → Reply
broadcast_output chunk w = (
  with_session w (record s { output_backlog = push_backlog s.output_backlog chunk }),
  to_all (Msg.output chunk) (live_viewers w),
)
  where
    s : Session
    s = w.session

unfoldable pub replay_output_to : ℕ → Session → List Event
replay_output_to c s = map (λ chunk. send c (Msg.output chunk)) s.output_backlog

-- The backlog after a change of the canonical grid to `cols` and `rows`.
abbrev pub backlog_at : ℕ → ℕ → Session → List String
backlog_at cols rows s =
    if not (eqb s.cols cols) || not (eqb s.rows rows) then [] else s.output_backlog
