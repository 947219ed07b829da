-- ===== src/Relay/Server/Apart/Handlers.antt =====
-- The handlers of control, chat, the kill switch and the session reach only their own session.
use getsloth.Base.{
  ℕ, String, Bool, true, false, not, Option, none, some, [], ◌∷◌, ◌++◌, refl, delete, All,
  All-append, All-delete, if◌then◌else◌, ◌==◌,
}
use getsloth.Protocol.{Msg, GridMsg, session_mode_group}
use getsloth.Relay.Session.{
  World, Session, send, Reply, with_session, to_all, live_viewers, teardown, broadcast_output,
  valid_terminal_size,
}
use getsloth.Relay.Presence.{broadcast_presence}
use getsloth.Relay.Control.{
  refusal, grant_control, assign_writer, announce_control, handle_take_control, handle_input,
  handle_resize, handle_host_size, handle_viewer_disconnect, disconnect_session, reserve_identity,
  return_control,
}
use getsloth.Relay.Chat.{handle_chat_message}
use getsloth.Relay.KillSwitch.{handle_kill_switch}
use getsloth.Relay.Server.Steps.{handle_host_leave}
use getsloth.Relay.Server.Apart.{
  Owns, ToMine, Contained, HostMine, if-Contained, if-ToMine, values-Mine, live-ToMine,
  everyone-ToMine, presence-ToMine, farewell-ToMine, kick-ToMine,
}

module _ (Mine : ℕ → Type 0) (w : World) where
  -- Control of a session is announced, and its roster shown, to its own connections.
  announced :
      (s : Session)
      → Owns Mine s
      → ToMine Mine (announce_control (with_session w s) ++ broadcast_presence (with_session w s))
  announced s o =
      All-append _ _ _ (everyone-ToMine Mine _ (with_session w s) o)
        (presence-ToMine Mine (with_session w s) o)

  pub grant-Contained :
      (now : ℕ) (is_host : Bool) (id : String) (m : GridMsg)
      → Owns Mine w.session
      → Contained Mine w (grant_control now is_host id m w)
  unfolding grant_control assign_writer
  grant-Contained now true id m o = (announced _ o, (λ c _. refl), o)
  grant-Contained now false id m o = (announced _ o, (λ c _. refl), o)

  refused-Contained :
      (conn : ℕ) (r : Option Msg) (granted : Reply)
      → Mine conn
      → Owns Mine w.session
      → Contained Mine w granted
      → Contained Mine w (elim r [ some e ↦ (w, send conn e ∷ []) | none ↦ granted ])
  refused-Contained conn none granted mine o g = g
  refused-Contained conn (some e) granted mine o g = ((mine, tt), (λ c _. refl), o)

  pub take_control-Contained :
      (now conn : ℕ) (m : GridMsg)
      → Mine conn
      → Owns Mine w.session
      → Contained Mine w (handle_take_control now conn m w)
  unfolding handle_take_control
  take_control-Contained now conn m mine o =
      let granted = grant-Contained now ((w.conns conn).id == "host") (w.conns conn).id m o in
      if-Contained Mine w ((w.conns conn).id == "host") _ _ granted
        (refused-Contained conn (refusal now m w.session) _ mine o granted)

  disconnect-Owns :
      (now : ℕ) (authenticated : Bool) (id : String)
      → Owns Mine w.session
      → Owns Mine (disconnect_session now authenticated id w.session)
  unfolding disconnect_session reserve_identity return_control
  disconnect-Owns now authenticated id o =
      let left = All-delete (λ e. Mine e.1) id w.session.viewers o.1 in
      chosen authenticated (w.session.active_writer_id == id) left
    where
      chosen :
          (b c : Bool)
          → All (λ e. Mine e.1) (delete id w.session.viewers)
          → Owns Mine (
              let s₁ = record w.session { viewers = delete id w.session.viewers } in
              let s₂ = if b then reserve_identity now id s₁ else s₁ in
              if c then return_control s₂ else s₂)
      chosen true true left = (o.0, left, o.2)
      chosen true false left = (o.0, left, o.2)
      chosen false true left = (o.0, left, o.2)
      chosen false false left = (o.0, left, o.2)

  pub disconnect-Contained :
      (now conn : ℕ) → Owns Mine w.session → Contained Mine w (handle_viewer_disconnect now conn w)
  unfolding handle_viewer_disconnect
  disconnect-Contained now conn o =
      let s = disconnect_session now (w.conns conn).authenticated (w.conns conn).id w.session in
      let o' = disconnect-Owns now (w.conns conn).authenticated (w.conns conn).id o in
      (
        All-append _ _ _
            (if-ToMine Mine (w.session.active_writer_id == (w.conns conn).id) _ _
              (everyone-ToMine Mine _ (with_session w s) o') tt)
            (presence-ToMine Mine (with_session w s) o'),
        (λ c _. refl),
        o',
      )

  pub input-Contained :
      (conn : ℕ) (m : Option String)
      → Mine conn
      → Owns Mine w.session
      → Contained Mine w (w, handle_input conn m w)
  unfolding handle_input
  input-Contained conn m mine o = (
    if-ToMine Mine (w.session.mode == session_mode_group) _ _ (mine, tt)
        (if-ToMine Mine (not (w.session.active_writer_id == (w.conns conn).id)) _ _ (mine, tt)
          (forwarded w.session.host m o.0)),
    (λ c _. refl),
    o,
  )
    where
      forwarded :
          (h : Option ℕ) (m : Option String)
          → HostMine Mine h
          → ToMine Mine (elim h [
            | none ↦ []
            | some c ↦ elim m [
              | none ↦ []
              | some data64 ↦ send c (Msg.input_forward data64 (w.conns conn).id) ∷ []
            ]
          ])
      forwarded none m p = tt
      forwarded (some c) none p = tt
      forwarded (some c) (some data64) p = (p, tt)

  pub resize-Contained :
      (conn : ℕ) (m : Option GridMsg)
      → Mine conn
      → Owns Mine w.session
      → Contained Mine w (handle_resize conn m w)
  unfolding handle_resize
  resize-Contained conn none mine o = (tt, (λ c _. refl), o)
  resize-Contained conn (some m) mine o =
      if-Contained Mine w (not (valid_terminal_size m.cols m.rows)) _ _ (tt, (λ c _. refl), o)
        (if-Contained Mine w (w.session.mode == session_mode_group) _ _
          ((mine, tt), (λ c _. refl), o)
          (if-Contained Mine w (not (w.session.active_writer_id == (w.conns conn).id)) _ _
            ((mine, tt), (λ c _. refl), o) (sized w.session.host o.0, (λ c _. refl), o)))
    where
      sized :
          (h : Option ℕ)
          → HostMine Mine h
          → ToMine Mine (elim h [
            | none ↦ []
            | some c ↦
                send c (Msg.resize m.cols m.rows)
                ∷ to_all (Msg.terminal_size m.cols m.rows) (live_viewers w)
          ])
      sized none p = tt
      sized (some c) p = (p, live-ToMine Mine _ w o)

  pub host_size-Contained :
      (m : GridMsg) → Owns Mine w.session → Contained Mine w (handle_host_size m w)
  unfolding handle_host_size
  host_size-Contained m o =
      if-Contained Mine w (not (valid_terminal_size m.cols m.rows)) _ _ (tt, (λ c _. refl), o)
        (if-Contained Mine w (not (w.session.active_writer_role == "host")) _ _
          (tt, (λ c _. refl), o) (live-ToMine Mine _ w o, (λ c _. refl), o))

  pub chat-Contained :
      (conn : ℕ) (m : Option String)
      → Owns Mine w.session
      → Contained Mine w (w, handle_chat_message conn m w)
  unfolding handle_chat_message
  chat-Contained conn none o = (tt, (λ c _. refl), o)
  chat-Contained conn (some text) o = (everyone-ToMine Mine _ w o, (λ c _. refl), o)

  pub kill-Contained : Owns Mine w.session → Contained Mine w (handle_kill_switch w)
  unfolding handle_kill_switch
  kill-Contained o = (
    All-append _ _ _ (kick-ToMine Mine _ (values-Mine Mine w.session.viewers o.1))
        (presence-ToMine Mine (handle_kill_switch w).0 (o.0, tt, tt)),
    (λ c _. refl),
    (o.0, tt, tt),
  )

  pub teardown-Contained :
      (reason : String) → Owns Mine w.session → Contained Mine w (teardown reason w)
  unfolding teardown
  teardown-Contained reason o = (
    farewell-ToMine Mine reason _ (values-Mine Mine w.session.viewers o.1),
    (λ c _. refl),
    (o.0, tt, o.2),
  )

  pub leave-Contained : Owns Mine w.session → Contained Mine w (handle_host_leave w)
  unfolding handle_host_leave
  leave-Contained o = teardown-Contained _ o

  pub output-Contained :
      (chunk : String) → Owns Mine w.session → Contained Mine w (broadcast_output chunk w)
  unfolding broadcast_output
  output-Contained chunk o = (live-ToMine Mine _ w o, (λ c _. refl), o)
