-- ===== src/Host/Follow/Late.antt =====
-- Two messages on control that reach the host in the wrong order: internal/relay/control.go writes them
-- after it has given `session.mu` back, so the later handler can be the first to write.
use getsloth.Base.{
  ℕ, String, Bool, true, false, Option, none, some, List, [], ◌∷◌, ◌++◌, ◌≡◌, ◌≢◌, refl, sym, ap,
  ◌∙◌, arith, ◌==◌, eq_iff, if◌then◌else◌, ne→eq_false, eq→eq_true,
}
use getsloth.Protocol.{session_mode_group, Msg, GridMsg}
use getsloth.Relay.Session.{World, Session, Event, send, with_session}
use getsloth.Relay.Presence.{broadcast_presence}
use getsloth.Relay.Control.{
  refusal, grant_control, handle_take_control, handle_input, handle_viewer_disconnect,
  disconnect_session, announce_control, assign_writer,
}
use getsloth.Relay.Server.Told.{heard, heard-append, heard-announce, heard-quiet, presence-IsQuiet}
use getsloth.Host.Status.{Platform}
use getsloth.Host.Loop.{Loop}
use getsloth.Host.Follow.{deliver, deliver-heard}

announced :
    (h : ℕ) (w : World) (role : String)
    → w.session.host ≡ some h
    → heard h (announce_control w ++ broadcast_presence w) role ≡ w.session.active_writer_role
announced h w role host =
    heard-append h (announce_control w) (broadcast_presence w) role
    ∙ heard-quiet h (broadcast_presence w) _ (presence-IsQuiet w)
    ∙ heard-announce h w role host

left_session :
    (t : ℕ) (authenticated : Bool) (id : String) (s : Session)
    → s.active_writer_id ≡ id
    → let s' = disconnect_session t authenticated id s in
      (s'.active_writer_role ≡ "host") × (s'.host ≡ s.host)
unfolding disconnect_session
left_session t authenticated id s writer = ground (arith, eq_iff s.active_writer_id id)

if-heard :
    (h : ℕ) (b : Bool) (es fs : List Event) (role : String)
    → b ≡ true
    → heard h ((if b then es else []) ++ fs) role ≡ heard h (es ++ fs) role
if-heard h b es fs role e = rw e refl

left-heard :
    (h t gone : ℕ) (w : World) (role : String)
    → w.session.host ≡ some h
    → w.session.active_writer_id ≡ (w.conns gone).id
    → let (w', out) = handle_viewer_disconnect t gone w in
      (heard h out role ≡ "host") × (w'.session.host ≡ some h) × (w'.conns ≡ w.conns)
unfolding handle_viewer_disconnect
left-heard h t gone w role host writer =
    let c = w.conns gone in
    let left = left_session t c.authenticated c.id w.session writer in
    let w' = with_session w (disconnect_session t c.authenticated c.id w.session) in
    (
      if-heard h (w.session.active_writer_id == c.id) (announce_control w') (broadcast_presence w')
            role (eq→eq_true w.session.active_writer_id c.id writer)
          ∙ announced h w' role (left.1 ∙ host)
          ∙ left.0,
      left.1 ∙ host,
      refl,
    )

granted :
    (now taker : ℕ) (m : GridMsg) (w : World)
    → (w.conns taker).id ≢ "host"
    → refusal now m w.session ≡ none
    → let w' = with_session w (assign_writer (w.conns taker).id "viewer" m.cols m.rows w.session) in
      handle_take_control now taker m w ≡ (w', announce_control w' ++ broadcast_presence w')
unfolding handle_take_control grant_control
granted now taker m w stranger allowed =
    let id = (w.conns taker).id in
    let other = ne→eq_false id "host" stranger in
    asked (id == "host") other ∙ ap (λ b. grant_control now b id m w) other
  where
    asked :
        (b : Bool)
        → b ≡ false
        → (if b
            then grant_control now ((w.conns taker).id == "host") (w.conns taker).id m w
            else elim (refusal now m w.session) [
              | some e ↦ (w, send taker e ∷ [])
              | none ↦ grant_control now ((w.conns taker).id == "host") (w.conns taker).id m w
            ])
          ≡ grant_control now ((w.conns taker).id == "host") (w.conns taker).id m w
    asked b e = rw (e, allowed) refl

took :
    (h now taker : ℕ) (m : GridMsg) (w : World)
    → w.session.host ≡ some h
    → (w.conns taker).id ≢ "host"
    → refusal now m w.session ≡ none
    → let (w', out) = handle_take_control now taker m w in
      ((role : String) → heard h out role ≡ "viewer")
      × (w'.session.active_writer_id ≡ (w.conns taker).id)
      × (w'.session.host ≡ some h)
      × (w'.session.mode ≡ w.session.mode)
      × (w'.conns ≡ w.conns)
unfolding assign_writer
took h now taker m w host stranger allowed =
    let w' = with_session w (assign_writer (w.conns taker).id "viewer" m.cols m.rows w.session) in
    let same = granted now taker m w stranger allowed in
    (
      (λ role. ap (λ r. heard h r.1 role) same ∙ announced h w' role host),
      ap (λ r. r.0.session.active_writer_id) same,
      ap (λ r. r.0.session.host) same ∙ host,
      ap (λ r. r.0.session.mode) same,
      ap (λ r. r.0.conns) same,
    )

-- Input of the writer in a remote session is forwarded.
writer_input :
    (conn h : ℕ) (text : String) (w : World)
    → w.session.host ≡ some h
    → (w.session.mode == session_mode_group) ≡ false
    → w.session.active_writer_id ≡ (w.conns conn).id
    → handle_input conn (some text) w ≡ send h (Msg.input_forward text (w.conns conn).id) ∷ []
unfolding handle_input
writer_input conn h text w host remote writer =
    rw (remote, eq→eq_true w.session.active_writer_id (w.conns conn).id writer, host) refl

remote_mode :
    (now : ℕ) (m : GridMsg) (s : Session)
    → refusal now m s ≡ none
    → (s.mode == session_mode_group) ≡ false
unfolding refusal
remote_mode now m s allowed = ground arith

-- What the host believes before.
role_of : (active : Bool) → (role : String) × (active ≡ (role == "host"))
role_of true = ("host", refl)
role_of false = ("viewer", refl)

-- The writer leaves, and another viewer takes control at once: when the host reads what the relay wrote
-- for the two in the order of the handlers, its keyboard is off. When the two writes overtake each
-- other, its keyboard is on, although the viewer is the writer and what that viewer types is forwarded.
pub late_write_misleads :
    (decode : String → Option (List ℕ)) (verify : String → String → Bool) (p : Platform)
    (h t now gone taker : ℕ) (m : GridMsg) (text : String) (w : World) (l : Loop)
    → w.session.host ≡ some h
    → w.session.active_writer_id ≡ (w.conns gone).id
    → (w.conns taker).id ≢ "host"
    → refusal now m (handle_viewer_disconnect t gone w).0.session ≡ none
    → let (w₁, out₁) = handle_viewer_disconnect t gone w in
      let (w₂, out₂) = handle_take_control now taker m w₁ in
      ((deliver decode verify p h (out₁ ++ out₂) l).0.active ≡ false)
      × ((deliver decode verify p h (out₂ ++ out₁) l).0.active ≡ true)
      × (w₂.session.active_writer_id ≡ (w.conns taker).id)
      × (handle_input taker (some text) w₂
          ≡ send h (Msg.input_forward text (w.conns taker).id) ∷ [])
late_write_misleads decode verify p h t now gone taker m text w l host writer stranger allowed =
    let (role, starts) = role_of l.active in
    let r₁ = handle_viewer_disconnect t gone w in
    let r₂ = handle_take_control now taker m r₁.0 in
    let left = left-heard h t gone w (heard h r₂.1 role) host writer in
    let same : (r₁.0.conns taker).id ≡ (w.conns taker).id = ap (λ cs. (cs taker).id) left.2 in
    let taken = took h now taker m r₁.0 left.1 (λ e. stranger (sym same ∙ e)) allowed in
    let now_named : (r₂.0.conns taker).id ≡ (w.conns taker).id =
      ap (λ cs. (cs taker).id) taken.4 ∙ same in
    (
      deliver-heard decode verify p h (r₁.1 ++ r₂.1) l role starts
          ∙ ap (λ role. role == "host")
              (heard-append h r₁.1 r₂.1 role ∙ taken.0 (heard h r₁.1 role)),
      deliver-heard decode verify p h (r₂.1 ++ r₁.1) l role starts
          ∙ ap (λ role. role == "host") (heard-append h r₂.1 r₁.1 role ∙ left.0),
      taken.1 ∙ same,
      writer_input taker h text r₂.0 taken.2
            (ap (λ mode. mode == session_mode_group) taken.3
              ∙ remote_mode now m r₁.0.session allowed)
            (taken.1 ∙ sym (ap (λ cs. (cs taker).id) taken.4))
          ∙ ap (λ id. send h (Msg.input_forward text id) ∷ []) now_named,
    )
