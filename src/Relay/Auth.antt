-- ===== src/Relay/Auth.antt =====
-- internal/relay/auth.go, less the dispatch (Relay/Server). A random identifier is an argument,
-- `none` where `newRandomID` fails; so is the result of `json.Unmarshal`.
pub mod Slot
pub mod Resume
pub mod Revoked
use getsloth.Base.{
  ℕ, ◌/◌, String, Bool, true, false, not, ◌&&◌, ◌||◌, Option, none, some, get_or, List, [], ◌∷◌,
  ◌++◌, ◌==◌, ltb, leb, eqb, if◌then◌else◌, Map, lookup, insert, delete, update,
}
use getsloth.Protocol.{
  AuthMsg, AuthResponseMsg, AuthResultMsg, Msg, session_mode_remote, auth_code_failed,
  auth_code_rate_limited, auth_code_occupied,
}
use getsloth.Relay.RateLimit.{RateLimiter, try_reserve, release, record_failure, record_success}
use getsloth.Relay.Connection.{Connection, set_display_name, set_id, set_authenticated, millisecond}
use getsloth.Relay.Session.{
  World, Session, TokenRecord, PendingAuth, Event, send, Reply, with_session, auth_result_of,
  replay_output_to,
}
use getsloth.Relay.Presence.{broadcast_presence}

-- The reply to an attempt that fails: all but the code and the delay have their zero value.
abbrev pub auth_refused : String → ℕ → Msg
auth_refused code retry_after_ms = Msg.auth_result (record {
  accepted = false;
  token = "";
  connection_id = "";
  code = code;
  retry_after_ms = retry_after_ms;
  mode = "";
  cols = 0;
  rows = 0;
  active_writer_id = "";
  active_writer_role = "";
})

abbrev pub with_limiter : World → RateLimiter → World
with_limiter w r = record w { limiter = r }

abbrev pub with_conn : World → ℕ → Connection → World
with_conn w c conn = record w { conns = update w.conns c conn }

-- The part of `handleAuthAttempt` that runs with a reservation and a request id.
unfoldable pub forward_attempt : ℕ → String → AuthMsg → String → World → Reply
forward_attempt conn addr m request_id w = elim w.session.host [
  | none ↦ refused
  | some h ↦ if w.session.closed then refused else (
    with_session w (record s {
      pending_auth =
          insert request_id
            (record { viewer_id = (w.conns conn).id; conn = conn; remote_addr = addr })
            s.pending_auth;
    }),
    send h (Msg.auth_request request_id m.viewer_pubkey m.ciphertext) ∷ [],
  )
]
  where
    s : Session
    s = w.session

    refused : Reply
    refused = (
      with_limiter w (release s.id addr w.limiter),
      send conn (auth_refused auth_code_failed 0) ∷ [],
    )

abbrev pub name_conn : ℕ → String → World → World
name_conn conn name w =
    if name == "" then w else with_conn w conn (set_display_name name (w.conns conn))

-- The part of `handleAuthAttempt` that runs with a reservation.
unfoldable pub reserved_attempt : ℕ → String → Option AuthMsg → Option String → World → Reply
unfolding forward_attempt
reserved_attempt conn addr none request_id w =
    (with_limiter w (release w.session.id addr w.limiter), [])
reserved_attempt conn addr (some m) none w =
    let w' = name_conn conn m.display_name w in
    (with_limiter w' (release w.session.id addr w.limiter), [])
reserved_attempt conn addr (some m) (some request_id) w =
    forward_attempt conn addr m request_id (name_conn conn m.display_name w)

unfoldable pub handle_auth_attempt : ℕ → ℕ → String → Option AuthMsg → Option String → World → Reply
unfolding reserved_attempt
handle_auth_attempt now conn addr msg request_id w =
    let (limiter, reserved, retry_after) = try_reserve now w.session.id addr w.limiter in
    let w' = with_limiter w limiter in
    if (w.conns conn).authenticated
    then (w, [])
    else if not reserved
    then (w', send conn (auth_refused auth_code_rate_limited (retry_after / millisecond)) ∷ [])
    else reserved_attempt conn addr msg request_id w'

-- Whether the one place of a remote session is kept for another identity.
unfoldable pub slot_taken : ℕ → String → Session → Bool
slot_taken now viewer_id s =
    s.mode == session_mode_remote
    && not (s.remote_viewer_id == "")
    && not (s.remote_viewer_id == viewer_id)
    && (eqb s.remote_slot_expiry 0 || ltb now s.remote_slot_expiry)

-- In a remote session the identity takes the place, with no deadline.
unfoldable pub take_slot : String → Session → Session
take_slot viewer_id s =
    if s.mode == session_mode_remote
    then record s { remote_viewer_id = viewer_id; remote_slot_expiry = 0 }
    else s

unfoldable pub issue_token : String → String → Session → Session
issue_token token viewer_id s = record s {
  tokens = insert token (record { connection_id = viewer_id; expires_at = 0 }) s.tokens;
}

-- A connection becomes a participant: it gets the session's state and its recent output, and
-- everyone gets the new roster. `handleAuthResponse` and `handleResume` both end with these lines.
unfoldable pub admit : ℕ → String → String → World → Reply
admit conn token connection_id w =
    let w' = with_conn w conn (set_authenticated true (w.conns conn)) in
    (
      w',
      send conn (Msg.auth_result (auth_result_of w.session token connection_id))
          ∷ (replay_output_to conn w.session ++ broadcast_presence w'),
    )

-- The part of `handleAuthResponse` for an attempt that the host accepts, but for the limiter.
unfoldable pub accept_attempt : ℕ → PendingAuth → Option String → World → Reply
unfolding slot_taken take_slot issue_token admit
accept_attempt now p none w = (w, send p.conn (auth_refused auth_code_failed 0) ∷ [])
accept_attempt now p (some token) w =
    if slot_taken now p.viewer_id w.session
    then (w, send p.conn (auth_refused auth_code_occupied 0) ∷ [])
    else admit p.conn token p.viewer_id
        (with_session w (issue_token token p.viewer_id (take_slot p.viewer_id w.session)))

-- The limiter after a verdict; the deferred `release` comes last.
unfoldable pub settle : ℕ → Bool → String → String → RateLimiter → RateLimiter
settle now accepted session_id addr r =
    release session_id addr
      (if accepted then record_success session_id addr r else record_failure now session_id addr r)

unfoldable pub handle_auth_response : ℕ → AuthResponseMsg → Option String → World → Reply
unfolding accept_attempt settle
handle_auth_response now m token w = elim (lookup m.request_id w.session.pending_auth) [
  | none ↦ (w, [])
  | some p ↦
      let s = record w.session { pending_auth = delete m.request_id w.session.pending_auth } in
      let w' = record w {
        session = s;
        limiter = settle now m.accepted s.id p.remote_addr w.limiter;
      } in
      if m.accepted
      then accept_attempt now p token w'
      else (w', send p.conn (auth_refused auth_code_failed 0) ∷ [])
]

-- The token is past its deadline.
unfoldable pub token_expired : ℕ → TokenRecord → Bool
token_expired now r = not (eqb r.expires_at 0) && ltb r.expires_at now

unfoldable pub drop_token : String → TokenRecord → Session → Session
drop_token token r s =
    let s' = record s { tokens = delete token s.tokens } in
    if s.remote_viewer_id == r.connection_id
    then record s' { remote_viewer_id = ""; remote_slot_expiry = 0 }
    else s'

-- The connection takes over the identity of the token.
unfoldable pub adopt : ℕ → String → TokenRecord → World → World
unfolding take_slot
adopt conn token r w =
    let s = w.session in
    let c = w.conns conn in
    let viewers = insert r.connection_id conn (delete c.id s.viewers) in
    let s' = take_slot r.connection_id (record s {
      viewers = viewers;
      tokens = insert token (record r { expires_at = 0 }) s.tokens;
    }) in
    with_session (with_conn w conn (set_id r.connection_id c)) s'

unfoldable pub handle_resume : ℕ → ℕ → Option String → World → Reply
unfolding token_expired drop_token adopt admit
handle_resume now conn none w = (w, [])
handle_resume now conn (some token) w = elim (lookup token w.session.tokens) [
  | none ↦ (w, send conn (auth_refused auth_code_failed 0) ∷ [])
  | some r ↦
      if token_expired now r
      then (
        with_session w (drop_token token r w.session),
        send conn (auth_refused auth_code_failed 0) ∷ [],
      )
      else admit conn token r.connection_id (adopt conn token r w)
]
