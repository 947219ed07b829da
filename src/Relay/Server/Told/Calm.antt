-- ===== src/Relay/Server/Told/Calm.antt =====
-- The handlers that say nothing of control and do not change the writer's role, and the two that
-- announce what they change.
use getsloth.Base.{
  ℕ, ◌-◌, String, Bool, true, false, not, Option, none, some, [], ◌∷◌, ◌++◌, ◌≡◌, refl, sym, ◌∙◌,
  arith, values, All, All-append, if◌then◌else◌, ◌==◌, ltb,
}
use getsloth.Protocol.{Msg, GridMsg, session_mode_group}
use getsloth.Relay.Connection.{record_health_pong}
use getsloth.Relay.Session.{
  World, Session, send, Reply, with_session, to_all, live_viewers, teardown, broadcast_output,
  host_lock_window, valid_terminal_size, add_viewer,
}
use getsloth.Relay.Presence.{broadcast_presence}
use getsloth.Relay.Control.{
  refusal, grant_control, assign_writer, announce_control, handle_take_control, handle_input,
  handle_resize, handle_host_size, handle_viewer_disconnect, disconnect_session,
}
use getsloth.Relay.Chat.{handle_chat_message}
use getsloth.Relay.KillSwitch.{handle_kill_switch}
use getsloth.Relay.Probes.{handle_pong}
use getsloth.Relay.Server.Steps.{handle_viewer_join, handle_host_leave}
use getsloth.Relay.Server.Told.{
  IsQuiet, IsQuietMsg, Told, Calm, Told-Calm, if-Calm, if-Told, if-IsQuiet, heard, heard-append,
  heard-quiet, heard-announce, to_all-IsQuiet, to_host-IsQuiet, presence-IsQuiet, farewell-IsQuiet,
  kick-IsQuiet,
}

abbrev QuietOption : Option Msg → Type 0
QuietOption none = Unit {0}
QuietOption (some e) = IsQuietMsg e

if-QuietOption :
    (b : Bool) (x y : Option Msg) → QuietOption x → QuietOption y → QuietOption (if b then x else y)
if-QuietOption true x y p q = p
if-QuietOption false x y p q = q

module _ (h : ℕ) (w : World) where
  -- A session that keeps its host is announced and shown to everyone.
  announced :
      (s : Session)
      → s.host ≡ some h
      → heard h
          (announce_control (with_session w s) ++ broadcast_presence (with_session w s))
          w.session.active_writer_role
        ≡ s.active_writer_role
  announced s e =
      heard-append h (announce_control (with_session w s)) (broadcast_presence (with_session w s)) _
      ∙ heard-quiet h (broadcast_presence (with_session w s)) _
          (presence-IsQuiet (with_session w s))
      ∙ heard-announce h (with_session w s) _ e

  grant-Told :
      (now : ℕ) (is_host : Bool) (id : String) (m : GridMsg)
      → w.session.host ≡ some h
      → Told h w (grant_control now is_host id m w)
  unfolding grant_control assign_writer
  grant-Told now true id m e = announced _ e
  grant-Told now false id m e = announced _ e

  refused-Told :
      (conn : ℕ) (o : Option Msg) (granted : Reply)
      → QuietOption o
      → Told h w granted
      → Told h w (elim o [ some e ↦ (w, send conn e ∷ []) | none ↦ granted ])
  refused-Told conn none granted q g = g
  refused-Told conn (some e) granted q g = Told-Calm h w (w, send conn e ∷ []) ((q, tt), refl)

  refusal-quiet : (now : ℕ) (m : GridMsg) → QuietOption (refusal now m w.session)
  unfolding refusal
  refusal-quiet now m = if-QuietOption (w.session.mode == session_mode_group) _ _ tt (
      if-QuietOption (ltb (now - w.session.last_host_reclaim) host_lock_window) _ _ tt
        (if-QuietOption (not (valid_terminal_size m.cols m.rows)) _ _ tt tt))

  pub take_control-Told :
      (now conn : ℕ) (m : GridMsg)
      → w.session.host ≡ some h
      → Told h w (handle_take_control now conn m w)
  unfolding handle_take_control
  take_control-Told now conn m e =
      let granted = grant-Told now ((w.conns conn).id == "host") (w.conns conn).id m e in
      if-Told h w ((w.conns conn).id == "host") _ _ granted
        (refused-Told conn (refusal now m w.session) _ (refusal-quiet now m) granted)

  -- Control that is given back is announced.
  given_back :
      (b : Bool) (s : Session)
      → s.host ≡ some h
      → (b ≡ false → s.active_writer_role ≡ w.session.active_writer_role)
      → heard h
          ((if b then announce_control (with_session w s) else [])
            ++ broadcast_presence (with_session w s))
          w.session.active_writer_role
        ≡ s.active_writer_role
  given_back true s e kept = announced s e
  given_back false s e kept =
      heard-quiet h (broadcast_presence (with_session w s)) _ (presence-IsQuiet (with_session w s))
      ∙ sym (kept refl)

  pub disconnect-Told :
      (now conn : ℕ) → w.session.host ≡ some h → Told h w (handle_viewer_disconnect now conn w)
  unfolding handle_viewer_disconnect
  disconnect-Told now conn e =
      let c = w.conns conn in
      given_back (w.session.active_writer_id == c.id)
        (disconnect_session now c.authenticated c.id w.session)
        (unfold disconnect_session in ground arith)
        (λ free. unfold disconnect_session in ground arith)

module _ (w : World) where
  pub input-Calm : (conn : ℕ) (m : Option String) → Calm w (w, handle_input conn m w)
  unfolding handle_input
  input-Calm conn m = (
    if-IsQuiet (w.session.mode == session_mode_group) _ _ (tt, tt)
        (if-IsQuiet (not (w.session.active_writer_id == (w.conns conn).id)) _ _ (tt, tt)
          (forwarded w.session.host m)),
    refl,
  )
    where
      forwarded :
          (o : Option ℕ) (m : Option String)
          → All IsQuiet (elim o [
            | none ↦ []
            | some c ↦ elim m [
              | none ↦ []
              | some data64 ↦ send c (Msg.input_forward data64 (w.conns conn).id) ∷ []
            ]
          ])
      forwarded none m = tt
      forwarded (some c) none = tt
      forwarded (some c) (some data64) = (tt, tt)

  pub resize-Calm : (conn : ℕ) (m : Option GridMsg) → Calm w (handle_resize conn m w)
  unfolding handle_resize
  resize-Calm conn none = (tt, refl)
  resize-Calm conn (some m) =
      if-Calm w (not (valid_terminal_size m.cols m.rows)) _ _ (tt, refl)
        (if-Calm w (w.session.mode == session_mode_group) _ _ ((tt, tt), refl)
          (if-Calm w (not (w.session.active_writer_id == (w.conns conn).id)) _ _ ((tt, tt), refl)
            (sized w.session.host, refl)))
    where
      sized :
          (o : Option ℕ)
          → All IsQuiet (elim o [
            | none ↦ []
            | some c ↦
                send c (Msg.resize m.cols m.rows)
                ∷ to_all (Msg.terminal_size m.cols m.rows) (live_viewers w)
          ])
      sized none = tt
      sized (some c) = (tt, to_all-IsQuiet _ (live_viewers w) tt)

  pub host_size-Calm : (m : GridMsg) → Calm w (handle_host_size m w)
  unfolding handle_host_size
  host_size-Calm m =
      if-Calm w (not (valid_terminal_size m.cols m.rows)) _ _ (tt, refl)
        (if-Calm w (not (w.session.active_writer_role == "host")) _ _ (tt, refl)
          (to_all-IsQuiet _ (live_viewers w) tt, refl))

  pub chat-Calm : (conn : ℕ) (m : Option String) → Calm w (w, handle_chat_message conn m w)
  unfolding handle_chat_message
  chat-Calm conn none = (tt, refl)
  chat-Calm conn (some text) = (
    All-append _ _ _ (to_host-IsQuiet _ w.session.host tt) (to_all-IsQuiet _ (live_viewers w) tt),
    refl,
  )

  pub kill-Calm : Calm w (handle_kill_switch w)
  unfolding handle_kill_switch
  kill-Calm =
      (All-append _ _ _ (kick-IsQuiet (values w.session.viewers)) (presence-IsQuiet _), refl)

  pub teardown-Calm : (reason : String) → Calm w (teardown reason w)
  unfolding teardown
  teardown-Calm reason = (farewell-IsQuiet reason (values w.session.viewers), refl)

  pub leave-Calm : Calm w (handle_host_leave w)
  unfolding handle_host_leave
  leave-Calm = teardown-Calm _

  pub output-Calm : (chunk : String) → Calm w (broadcast_output chunk w)
  unfolding broadcast_output
  output-Calm chunk = (to_all-IsQuiet _ (live_viewers w) tt, refl)

  pub join-Calm : (conn : ℕ) (id : String) → Calm w (handle_viewer_join conn id w)
  unfolding handle_viewer_join
  join-Calm conn id =
      if-Calm w (add_viewer id conn w.session).1 _ _ (tt, unfold add_viewer in ground arith)
        ((tt, (tt, tt)), refl)

  pub pong-Calm : (now conn : ℕ) (m : Option String) → Calm w (handle_pong now conn m w)
  unfolding handle_pong
  pong-Calm now conn none = (tt, refl)
  pong-Calm now conn (some nonce) =
      if-Calm w (nonce == "") _ _ (tt, refl)
        (if-Calm w (record_health_pong nonce now (w.conns conn)).1 _ _ (presence-IsQuiet _, refl)
          (tt, refl))
