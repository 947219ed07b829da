-- ===== src/Relay/Control.antt =====
-- internal/relay/control.go. A handler that decodes its message itself takes the result of
-- `json.Unmarshal`, `none` for an error.
use getsloth.Base.{
  ℕ, ◌+◌, ◌-◌, String, Bool, not, ◌&&◌, Option, none, some, List, [], ◌∷◌, ◌++◌, ◌==◌, ltb,
  if◌then◌else◌, Map, delete,
}
use getsloth.Protocol.{
  GridMsg, Msg, session_mode_remote, session_mode_group, err_read_only_session,
  err_not_active_writer, err_bad_request,
}
use getsloth.Relay.Session.{
  World, Session, TokenRecord, Event, send, Reply, with_session, to_all, to_host, live_viewers,
  valid_terminal_size, backlog_at, host_lock_window, reconnect_window,
}
use getsloth.Relay.Presence.{broadcast_presence}

abbrev pub read_only_error : Msg
read_only_error = Msg.error err_read_only_session "group sessions are host-controlled"

abbrev pub reclaimed_error : Msg
reclaimed_error = Msg.error err_not_active_writer "host recently reclaimed control"

abbrev pub bad_size_error : Msg
bad_size_error = Msg.error err_bad_request "take_control requires valid terminal dimensions"

abbrev pub not_writer_error : Msg
not_writer_error = Msg.error err_not_active_writer "not the active writer"

-- The checks on a viewer's request, in their order: the error, if there is one.
unfoldable pub refusal : ℕ → GridMsg → Session → Option Msg
refusal now request s =
    if s.mode == session_mode_group
    then some read_only_error
    else if ltb (now - s.last_host_reclaim) host_lock_window
    then some reclaimed_error
    else if not (valid_terminal_size request.cols request.rows)
    then some bad_size_error
    else none

-- Control and the grid move to a writer together.
unfoldable pub assign_writer : String → String → ℕ → ℕ → Session → Session
assign_writer id role cols rows s = record s {
  active_writer_id = id;
  active_writer_role = role;
  output_backlog = backlog_at cols rows s;
  cols = cols;
  rows = rows;
}

abbrev pub announce_control : World → List Event
announce_control w = to_host m w.session.host ++ to_all m (live_viewers w)
  where
    m : Msg
    m = Msg.control_changed (record {
      active_writer_id = w.session.active_writer_id;
      active_writer_role = w.session.active_writer_role;
      cols = w.session.cols;
      rows = w.session.rows;
    })

-- The part of `handleTakeControl` after the checks.
unfoldable pub grant_control : ℕ → Bool → String → GridMsg → World → Reply
unfolding assign_writer
grant_control now is_host id request w =
    let s = w.session in
    let s' =
      if is_host
      then assign_writer id "host" s.host_cols s.host_rows (record s { last_host_reclaim = now })
      else assign_writer id "viewer" request.cols request.rows s in
    let w' = with_session w s' in (w', announce_control w' ++ broadcast_presence w')

unfoldable pub handle_take_control : ℕ → ℕ → GridMsg → World → Reply
unfolding refusal grant_control
handle_take_control now conn request w =
    let id = (w.conns conn).id in
    let granted = grant_control now (id == "host") id request w in
    if id == "host"
    then granted
    else elim (refusal now request w.session) [ some e ↦ (w, send conn e ∷ []) | none ↦ granted ]

unfoldable pub handle_input : ℕ → Option String → World → List Event
handle_input conn msg w =
    if w.session.mode == session_mode_group
    then send conn read_only_error ∷ []
    else if not (w.session.active_writer_id == (w.conns conn).id)
    then send conn not_writer_error ∷ []
    else elim w.session.host [
      | none ↦ []
      | some h ↦ elim msg [
        | none ↦ []
        | some data64 ↦ send h (Msg.input_forward data64 (w.conns conn).id) ∷ []
      ]
    ]

-- A change of the canonical grid that leaves the writer alone.
unfoldable pub set_grid : ℕ → ℕ → Session → Session
set_grid cols rows s = record s {
  output_backlog = backlog_at cols rows s;
  cols = cols;
  rows = rows;
}

unfoldable pub resize_grid : ℕ → GridMsg → World → Reply
unfolding set_grid
resize_grid conn m w =
    if w.session.mode == session_mode_group
    then (w, send conn read_only_error ∷ [])
    else if not (w.session.active_writer_id == (w.conns conn).id)
    then (w, send conn not_writer_error ∷ [])
    else (
      with_session w (set_grid m.cols m.rows w.session),
      elim w.session.host [
        | none ↦ []
        | some h ↦
            send h (Msg.resize m.cols m.rows)
            ∷ to_all (Msg.terminal_size m.cols m.rows) (live_viewers w)
      ],
    )

unfoldable pub handle_resize : ℕ → Option GridMsg → World → Reply
unfolding resize_grid
handle_resize conn none w = (w, [])
handle_resize conn (some m) w =
    if not (valid_terminal_size m.cols m.rows) then (w, []) else resize_grid conn m w

unfoldable pub handle_host_size : GridMsg → World → Reply
unfolding set_grid
handle_host_size m w =
    let s = record w.session { host_cols = m.cols; host_rows = m.rows } in
    if not (valid_terminal_size m.cols m.rows)
    then (w, [])
    else if not (s.active_writer_role == "host")
    then (with_session w s, [])
    else (
      with_session w (set_grid m.cols m.rows s),
      to_all (Msg.terminal_size m.cols m.rows) (live_viewers w),
    )

-- The loop over the tokens: those of the identity get the deadline.
unfoldable pub expire_tokens : String → ℕ → Map TokenRecord → Map TokenRecord
expire_tokens id expires [] = []
expire_tokens id expires ((t, r) ∷ tokens) =
    (t, if r.connection_id == id then record r { expires_at = expires } else r)
    ∷ expire_tokens id expires tokens

-- What a disconnect of an authenticated connection leaves for a reconnect.
unfoldable pub reserve_identity : ℕ → String → Session → Session
unfolding expire_tokens
reserve_identity now id s =
    let expires = now + reconnect_window in
    record s {
      tokens = expire_tokens id expires s.tokens;
      remote_slot_expiry =
          if s.mode == session_mode_remote && s.remote_viewer_id == id
          then expires
          else s.remote_slot_expiry;
    }

unfoldable pub return_control : Session → Session
return_control s = record s {
  active_writer_id = "host";
  active_writer_role = "host";
  cols = s.host_cols;
  rows = s.host_rows;
  output_backlog = [];
}

unfoldable pub disconnect_session : ℕ → Bool → String → Session → Session
unfolding reserve_identity return_control
disconnect_session now authenticated id s =
    let s₁ = record s { viewers = delete id s.viewers } in
    let s₂ = if authenticated then reserve_identity now id s₁ else s₁ in
    if s.active_writer_id == id then return_control s₂ else s₂

unfoldable pub handle_viewer_disconnect : ℕ → ℕ → World → Reply
unfolding disconnect_session
handle_viewer_disconnect now conn w =
    let c = w.conns conn in
    let w' = with_session w (disconnect_session now c.authenticated c.id w.session) in
    (
      w',
      (if w.session.active_writer_id == c.id then announce_control w' else [])
          ++ broadcast_presence w',
    )
