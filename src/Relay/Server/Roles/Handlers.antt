-- ===== src/Relay/Server/Roles/Handlers.antt =====
-- The handlers of internal/relay but auth.go leave the roles as they are.
use getsloth.Base.{
  ℕ, ◌+◌, String, Bool, true, false, Option, none, some, [], ◌∷◌, ◌≡◌, inl, inr, refl, ◌∙◌, arith,
  ◌==◌, if◌then◌else◌, All, Map, Bool-cases,
}
use getsloth.Protocol.{GridMsg}
use getsloth.Relay.Connection.{begin_health_ping, expire_health_ping, record_health_pong}
use getsloth.Relay.Session.{World, Session, TokenRecord, reconnect_window}
use getsloth.Relay.Control.{
  handle_take_control, handle_resize, handle_host_size, handle_viewer_disconnect,
  disconnect_session, expire_tokens,
}
use getsloth.Relay.KillSwitch.{handle_kill_switch}
use getsloth.Relay.Probes.{Round, check_viewer, check_viewers, handle_pong}
use getsloth.Relay.Server.Roles.{IsViewer, Roles, Roles-frame, Roles-session}

expire_tokens-viewers :
    (id : String) (expires : ℕ) (m : Map TokenRecord)
    → All (λ e. IsViewer e.1.connection_id) m
    → All (λ e. IsViewer e.1.connection_id) (expire_tokens id expires m)
unfolding expire_tokens
expire_tokens-viewers id expires [] h = tt
expire_tokens-viewers id expires ((t, r) ∷ m) h = elim (Bool-cases (r.connection_id == id)) [
  | inl e ↦ rw e (h.0, expire_tokens-viewers id expires m h.1)
  | inr e ↦ rw e (h.0, expire_tokens-viewers id expires m h.1)
]

pub take_control-Roles :
    (h now conn : ℕ) (m : GridMsg) (w : World)
    → Roles h w
    → Roles h (handle_take_control now conn m w).0
unfolding handle_take_control
take_control-Roles h now conn m w r =
    Roles-frame h w (handle_take_control now conn m w).0 (λ c. ground arith) (ground arith)
      (ground arith) (ground arith) r

pub resize-Roles :
    (h conn : ℕ) (m : Option GridMsg) (w : World) → Roles h w → Roles h (handle_resize conn m w).0
unfolding handle_resize
resize-Roles h conn none w r = r
resize-Roles h conn (some m) w r =
    Roles-frame h w (handle_resize conn (some m) w).0 (λ c. ground arith) (ground arith)
      (ground arith) (ground arith) r

pub host_size-Roles :
    (h : ℕ) (m : GridMsg) (w : World) → Roles h w → Roles h (handle_host_size m w).0
unfolding handle_host_size
host_size-Roles h m w r =
    Roles-frame h w (handle_host_size m w).0 (λ c. ground arith) (ground arith) (ground arith)
      (ground arith) r

disconnect_session-tokens :
    (now : ℕ) (a : Bool) (id : String) (s : Session)
    → (disconnect_session now a id s).tokens
      ≡ (if a then expire_tokens id (now + reconnect_window) s.tokens else s.tokens)
unfolding disconnect_session
disconnect_session-tokens now a id s = ground arith

disconnect_session-viewers :
    (now : ℕ) (a : Bool) (id : String) (s : Session)
    → All (λ e. IsViewer e.1.connection_id) s.tokens
    → All (λ e. IsViewer e.1.connection_id) (disconnect_session now a id s).tokens
disconnect_session-viewers now true id s h =
    rw (disconnect_session-tokens now true id s) (expire_tokens-viewers id _ s.tokens h)
disconnect_session-viewers now false id s h = rw (disconnect_session-tokens now false id s) h

pub disconnect-Roles :
    (h now conn : ℕ) (w : World) → Roles h w → Roles h (handle_viewer_disconnect now conn w).0
unfolding handle_viewer_disconnect
disconnect-Roles h now conn w r =
    let c = w.conns conn in
    let same : (disconnect_session now c.authenticated c.id w.session).pending_auth
        ≡ w.session.pending_auth =
      unfold disconnect_session in ground arith in
    Roles-session h w (disconnect_session now c.authenticated c.id w.session)
      (unfold disconnect_session in ground arith)
      (disconnect_session-viewers now c.authenticated c.id w.session r.tokens) (rw same r.pending) r

pub kill-Roles : (h : ℕ) (w : World) → Roles h w → Roles h (handle_kill_switch w).0
unfolding handle_kill_switch
kill-Roles h w r = record {
  host_is = r.host_is;
  host_id = r.host_id;
  others = r.others;
  tokens = tt;
  pending = tt;
}

handle_pong-ids :
    (now conn : ℕ) (m : Option String) (w : World) (c : ℕ)
    → ((handle_pong now conn m w).0.conns c).id ≡ (w.conns c).id
unfolding handle_pong record_health_pong
handle_pong-ids now conn none w c = refl
handle_pong-ids now conn (some nonce) w c = ground arith

pub pong-Roles :
    (h now conn : ℕ) (m : Option String) (w : World)
    → Roles h w
    → Roles h (handle_pong now conn m w).0
unfolding handle_pong
pong-Roles h now conn none w r = r
pong-Roles h now conn (some nonce) w r =
    Roles-frame h w (handle_pong now conn (some nonce) w).0
      (handle_pong-ids now conn (some nonce) w) (ground arith) (ground arith) (ground arith) r

check_viewer-ids :
    (now timeout : ℕ) (nonce : Option String) (v : ℕ) (r : Round) (c : ℕ)
    → ((check_viewer now timeout nonce v r).conns c).id ≡ (r.conns c).id
unfolding check_viewer expire_health_ping begin_health_ping
check_viewer-ids now timeout none v r c = ground arith
check_viewer-ids now timeout (some nonce) v r c = ground arith

pub check_viewers-ids :
    (now timeout : ℕ) (nonces : ℕ → Option String) (m : Map ℕ) (r : Round) (c : ℕ)
    → ((check_viewers now timeout nonces m r).conns c).id ≡ (r.conns c).id
unfolding check_viewers
check_viewers-ids now timeout nonces [] r c = refl
check_viewers-ids now timeout nonces ((id, v) ∷ m) r c =
    check_viewers-ids now timeout nonces m _ c ∙ check_viewer-ids now timeout (nonces v) v r c
