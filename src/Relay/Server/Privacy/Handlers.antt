-- ===== src/Relay/Server/Privacy/Handlers.antt =====
-- Each handler writes only what its readers may see.
use getsloth.Base.{
  ℕ, ◌-◌, ltb, String, Bool, true, false, not, Option, none, some, List, [], ◌∷◌, ◌++◌, ◌≡◌, inl,
  inr, refl, ◌∙◌, arith, All, All-append, if◌then◌else◌, ◌==◌, values,
}
use getsloth.Protocol.{GridMsg, Msg, session_mode_group}
use getsloth.Relay.Session.{
  World, Event, send, Reply, with_session, to_all, live_viewers, host_lock_window,
  valid_terminal_size, Session, teardown, broadcast_output,
}
use getsloth.Relay.Presence.{broadcast_presence}
use getsloth.Relay.Control.{
  refusal, grant_control, handle_take_control, handle_input, handle_resize, handle_host_size,
  handle_viewer_disconnect, announce_control, disconnect_session,
}
use getsloth.Relay.Chat.{handle_chat_message}
use getsloth.Relay.KillSwitch.{handle_kill_switch}
use getsloth.Relay.Server.Privacy.{
  Public, Permitted, to_live, host_sent, farewell-All, kick-All, presence-All, announce-All,
}

-- What a reply sends is permitted in the world that it leaves.
abbrev pub Discreet : ℕ → Reply → Type 0
Discreet h r = All (Permitted h r.0.conns) r.1

pub if-Discreet :
    (h : ℕ) (b : Bool) (x y : Reply) → Discreet h x → Discreet h y → Discreet h (if b then x else y)
if-Discreet h true x y p q = p
if-Discreet h false x y p q = q

module _ (h : ℕ) (w : World) (host_is : w.session.host ≡ some h) where
  -- A change of the session that keeps its host is announced with the new roster.
  announced :
      (s : Session)
      → s.host ≡ w.session.host
      → All
          (Permitted h w.conns)
          (announce_control (with_session w s) ++ broadcast_presence (with_session w s))
  announced s e =
      All-append _ _ _ (announce-All h (with_session w s) (e ∙ host_is))
        (presence-All h (with_session w s) (e ∙ host_is))

  grant-Discreet :
      (now : ℕ) (is_host : Bool) (id : String) (m : GridMsg)
      → Discreet h (grant_control now is_host id m w)
  unfolding grant_control
  grant-Discreet now true id m = announced _ refl
  grant-Discreet now false id m = announced _ refl

  abbrev IsPublic : Option Msg → Type 0
  IsPublic none = Unit {0}
  IsPublic (some e) = Public e

  refused-Discreet :
      (conn : ℕ) (o : Option Msg) (granted : Reply)
      → IsPublic o
      → Discreet h granted
      → Discreet h (elim o [ some e ↦ (w, send conn e ∷ []) | none ↦ granted ])
  refused-Discreet conn none granted p g = g
  refused-Discreet conn (some e) granted p g = (inl p, tt)

  if-IsPublic :
      (b : Bool) (x y : Option Msg) → IsPublic x → IsPublic y → IsPublic (if b then x else y)
  if-IsPublic true x y p q = p
  if-IsPublic false x y p q = q

  refusal-IsPublic : (now : ℕ) (m : GridMsg) → IsPublic (refusal now m w.session)
  unfolding refusal
  refusal-IsPublic now m = if-IsPublic (w.session.mode == session_mode_group) _ _ tt (
      if-IsPublic (ltb (now - w.session.last_host_reclaim) host_lock_window) _ _ tt
        (if-IsPublic (not (valid_terminal_size m.cols m.rows)) _ _ tt tt))

  pub take_control-Discreet :
      (now conn : ℕ) (m : GridMsg) → Discreet h (handle_take_control now conn m w)
  unfolding handle_take_control
  take_control-Discreet now conn m =
      if-Discreet h ((w.conns conn).id == "host") _ _ (grant-Discreet now _ _ m) (
        refused-Discreet conn (refusal now m w.session) _ (refusal-IsPublic now m)
          (grant-Discreet now _ _ m))

  pub input-Discreet : (conn : ℕ) (m : Option String) → Discreet h (w, handle_input conn m w)
  unfolding handle_input
  input-Discreet conn m =
      events_if (w.session.mode == session_mode_group) _ _ (inl tt, tt)
        (events_if (not (w.session.active_writer_id == (w.conns conn).id)) _ _ (inl tt, tt)
          (forwarded w.session.host host_is m))
    where
      events_if :
          (b : Bool) (x y : List Event)
          → All (Permitted h w.conns) x
          → All (Permitted h w.conns) y
          → All (Permitted h w.conns) (if b then x else y)
      events_if true x y p q = p
      events_if false x y p q = q

      forwarded :
          (o : Option ℕ)
          → o ≡ some h
          → (m : Option String)
          → All (Permitted h w.conns) (elim o [
            | none ↦ []
            | some c ↦ elim m [
              | none ↦ []
              | some data64 ↦ send c (Msg.input_forward data64 (w.conns conn).id) ∷ []
            ]
          ])
      forwarded none e m = tt
      forwarded (some c) e none = tt
      forwarded (some c) e (some data64) = (inr (inl (cc)), tt)

  pub resize-Discreet : (conn : ℕ) (m : Option GridMsg) → Discreet h (handle_resize conn m w)
  unfolding handle_resize
  resize-Discreet conn none = tt
  resize-Discreet conn (some m) = if-Discreet h (not (valid_terminal_size m.cols m.rows)) _ _ tt (
      if-Discreet h (w.session.mode == session_mode_group) _ _ (inl tt, tt)
        (if-Discreet h (not (w.session.active_writer_id == (w.conns conn).id)) _ _ (inl tt, tt)
          (sized w.session.host host_is)))
    where
      sized :
          (o : Option ℕ)
          → o ≡ some h
          → All (Permitted h w.conns) (elim o [
            | none ↦ []
            | some c ↦
                send c (Msg.resize m.cols m.rows)
                ∷ to_all (Msg.terminal_size m.cols m.rows) (live_viewers w)
          ])
      sized none e = tt
      sized (some c) e = (inr (inl (cc)), to_live h w.conns _ tt w.session.viewers)

  pub host_size-Discreet : (m : GridMsg) → Discreet h (handle_host_size m w)
  unfolding handle_host_size
  host_size-Discreet m = if-Discreet h (not (valid_terminal_size m.cols m.rows)) _ _ tt (
      if-Discreet h (not (w.session.active_writer_role == "host")) _ _ tt
        (to_live h w.conns _ tt w.session.viewers))

  pub chat-Discreet : (conn : ℕ) (m : Option String) → Discreet h (w, handle_chat_message conn m w)
  unfolding handle_chat_message
  chat-Discreet conn none = tt
  chat-Discreet conn (some text) =
      All-append _ _ _ (host_sent h w.conns _ w.session.host host_is)
        (to_live h w.conns _ tt w.session.viewers)

  pub disconnect-Discreet : (now conn : ℕ) → Discreet h (handle_viewer_disconnect now conn w)
  unfolding handle_viewer_disconnect
  disconnect-Discreet now conn =
      let c = w.conns conn in
      let w' = with_session w (disconnect_session now c.authenticated c.id w.session) in
      let kept : w'.session.host ≡ some h = unfold disconnect_session in ground arith in
      All-append _ _ _
        (returned (w.session.active_writer_id == c.id) (announce_control w')
          (announce-All h w' kept))
        (presence-All h w' kept)
    where
      returned :
          (b : Bool) (x : List Event)
          → All (Permitted h w.conns) x
          → All (Permitted h w.conns) (if b then x else [])
      returned true x p = p
      returned false x p = tt

  pub kill-Discreet : Discreet h (handle_kill_switch w)
  unfolding handle_kill_switch
  kill-Discreet =
      All-append _ _ _ (kick-All h w.conns (values w.session.viewers)) (presence-All h _ host_is)

  pub teardown-Discreet : (reason : String) → Discreet h (teardown reason w)
  unfolding teardown
  teardown-Discreet reason = farewell-All h w.conns reason (values w.session.viewers)

  pub output-Discreet : (chunk : String) → Discreet h (broadcast_output chunk w)
  unfolding broadcast_output
  output-Discreet chunk = to_live h w.conns _ tt w.session.viewers
