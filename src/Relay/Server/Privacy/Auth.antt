-- ===== src/Relay/Server/Privacy/Auth.antt =====
-- The handlers of internal/relay/auth.go and health.go write only what their readers may see.
use getsloth.Base.{
  ℕ, String, Bool, true, false, not, Option, none, some, List, [], ◌∷◌, map, ◌≡◌, inl, inr, refl,
  arith, All, All-append, if◌then◌else◌, Option-cases, ◌==◌, update, lookup, eqb_refl, delete,
}
use getsloth.Protocol.{AuthMsg, AuthResponseMsg, Msg}
use getsloth.Relay.RateLimit.{try_reserve}
use getsloth.Relay.Connection.{Connection, set_authenticated, set_display_name}
use getsloth.Relay.Session.{World, send, with_session, replay_output_to, PendingAuth}
use getsloth.Relay.Auth.{
  handle_auth_attempt, reserved_attempt, forward_attempt, name_conn, handle_auth_response,
  accept_attempt, handle_resume, adopt, admit, settle, slot_taken, token_expired, take_slot,
  issue_token,
}
use getsloth.Relay.Server.Privacy.{Permitted, presence-All}
use getsloth.Relay.Server.Privacy.Handlers.{Discreet, if-Discreet}

module _ (h : ℕ) where
  forward_attempt-Discreet :
      (conn : ℕ) (addr : String) (m : AuthMsg) (request : String) (w : World)
      → w.session.host ≡ some h
      → Discreet h (forward_attempt conn addr m request w)
  unfolding forward_attempt
  forward_attempt-Discreet conn addr m request w e =
      rw (e, forward_attempt) (if-Discreet h w.session.closed _ _ (inl tt, tt) (inr (inl refl), tt))

  reserved_attempt-Discreet :
      (conn : ℕ) (addr : String) (m : Option AuthMsg) (random : Option String) (w : World)
      → w.session.host ≡ some h
      → Discreet h (reserved_attempt conn addr m random w)
  unfolding reserved_attempt
  reserved_attempt-Discreet conn addr none random w e = tt
  reserved_attempt-Discreet conn addr (some m) none w e = tt
  reserved_attempt-Discreet conn addr (some m) (some request) w e =
      forward_attempt-Discreet conn addr m request (name_conn conn m.display_name w)
        (named (m.display_name == ""))
    where
      named :
          (b : Bool)
          → (if b then w else record w {
            conns = update w.conns conn (set_display_name m.display_name (w.conns conn));
          }).session.host
            ≡ some h
      named true = e
      named false = e

  pub auth_attempt-Discreet :
      (now conn : ℕ) (addr : String) (m : Option AuthMsg) (random : Option String) (w : World)
      → w.session.host ≡ some h
      → Discreet h (handle_auth_attempt now conn addr m random w)
  unfolding handle_auth_attempt
  auth_attempt-Discreet now conn addr m random w e =
      let (limiter, reserved, retry_after) = try_reserve now w.session.id addr w.limiter in
      if-Discreet h (w.conns conn).authenticated _ _ tt (
        if-Discreet h (not reserved) _ _ (inl tt, tt)
          (reserved_attempt-Discreet conn addr m random (record w { limiter = limiter }) e))

  replay-All :
      (conn : ℕ) (conns : ℕ → Connection) (chunks : List String)
      → (conns conn).authenticated ≡ true
      → All (Permitted h conns) (map (λ chunk. send conn (Msg.output chunk)) chunks)
  replay-All conn conns [] a = tt
  replay-All conn conns (c ∷ cs) a = (inr (inr (tt, a)), replay-All conn conns cs a)

  admit-Discreet :
      (conn : ℕ) (token id : String) (w : World)
      → w.session.host ≡ some h
      → Discreet h (admit conn token id w)
  unfolding admit replay_output_to
  admit-Discreet conn token id w e =
      let w' = record w { conns = update w.conns conn (set_authenticated true (w.conns conn)) } in
      (
        inl tt,
        All-append _ _ _ (replay-All conn w'.conns w.session.output_backlog (rw (eqb_refl conn)))
            (presence-All h w' e),
      )

  accept-Discreet :
      (now : ℕ) (p : PendingAuth) (token : Option String) (w : World)
      → w.session.host ≡ some h
      → Discreet h (accept_attempt now p token w)
  unfolding accept_attempt
  accept-Discreet now p none w e = (inl tt, tt)
  accept-Discreet now p (some token) w e =
      if-Discreet h (slot_taken now p.viewer_id w.session) _ _ (inl tt, tt)
        (admit-Discreet p.conn token p.viewer_id
          (with_session w (issue_token token p.viewer_id (take_slot p.viewer_id w.session)))
          (unfold issue_token take_slot in ground arith))

  pub auth_response-Discreet :
      (now : ℕ) (m : AuthResponseMsg) (token : Option String) (w : World)
      → w.session.host ≡ some h
      → Discreet h (handle_auth_response now m token w)
  unfolding handle_auth_response
  auth_response-Discreet now m token w e =
      elim (Option-cases (lookup m.request_id w.session.pending_auth)) [
        | inl n ↦ rw (n, handle_auth_response) tt
        | inr (p, n) ↦
            rw (n, handle_auth_response)
              (if-Discreet h m.accepted _ _
                (accept-Discreet now p token
                  (record w {
                    session = record w.session {
                      pending_auth = delete m.request_id w.session.pending_auth;
                    };
                    limiter = settle now m.accepted w.session.id p.remote_addr w.limiter;
                  })
                  e)
                (inl tt, tt))
      ]

  pub resume-Discreet :
      (now conn : ℕ) (token : Option String) (w : World)
      → w.session.host ≡ some h
      → Discreet h (handle_resume now conn token w)
  unfolding handle_resume
  resume-Discreet now conn none w e = tt
  resume-Discreet now conn (some token) w e = elim (Option-cases (lookup token w.session.tokens)) [
    | inl n ↦ rw (n, handle_resume) (inl tt, tt)
    | inr (t, n) ↦
        rw (n, handle_resume)
          (if-Discreet h (token_expired now t) _ _ (inl tt, tt)
            (admit-Discreet conn token t.connection_id (adopt conn token t w)
              (unfold adopt take_slot in ground arith)))
  ]
