-- ===== src/Relay/Server/Apart/Auth.antt =====
-- The handlers of authentication, resume and health reach only their own session.
use mathlib.Core.Path.{subst}
use getsloth.Base.{
  map, ℕ, String, Bool, true, false, not, Option, none, some, List, [], ◌∷◌, ◌≡◌, ◌≢◌, refl, ◌∙◌,
  arith, All-append, All-insert, All-delete, All-lookup, if◌then◌else◌, ◌==◌, Option-cases, inl,
  inr, update, lookup, delete,
}
use getsloth.Protocol.{Msg, AuthMsg, AuthResponseMsg}
use getsloth.Relay.RateLimit.{try_reserve}
use getsloth.Relay.Connection.{Connection, set_display_name}
use getsloth.Relay.Session.{
  World, Session, send, Reply, with_session, PendingAuth, TokenRecord, replay_output_to,
}
use getsloth.Relay.Auth.{
  handle_auth_attempt, reserved_attempt, forward_attempt, name_conn, handle_auth_response,
  accept_attempt, handle_resume, drop_token, adopt, admit, settle, slot_taken, token_expired,
  take_slot, issue_token,
}
use getsloth.Relay.Server.Apart.{
  Owns, HostMine, ToMine, Spares, Contained, if-Contained, presence-ToMine,
}

module _ (Mine : ℕ → Type 0) where
  -- One of the session's own connections may change.
  pub update-Spares :
      (conn c : ℕ) (new : Connection) (conns : ℕ → Connection)
      → Mine conn
      → ¬ Mine c
      → update conns conn new c ≡ conns c
  update-Spares conn c new conns mine other = ground (arith, different)
    where
      different : c ≢ conn
      different e = other (rw e mine)

  name_conn-Spares :
      (conn : ℕ) (name : String) (w : World) → Mine conn → Spares Mine w (name_conn conn name w)
  name_conn-Spares conn name w mine c other = named (name == "")
    where
      named :
          (b : Bool)
          → (if b then w else record w {
            conns = update w.conns conn (set_display_name name (w.conns conn));
          }).conns
              c
            ≡ w.conns c
      named true = refl
      named false = update-Spares conn c _ w.conns mine other

  name_conn-session :
      (conn : ℕ) (name : String) (w : World) → (name_conn conn name w).session ≡ w.session
  name_conn-session conn name w = ground arith

  -- A reply to a world in which only own connections have changed.
  after-Contained :
      (w w' : World) (r : Reply) → Spares Mine w w' → Contained Mine w' r → Contained Mine w r
  after-Contained w w' r s c = (c.0, (λ i other. c.1 i other ∙ s i other), c.2)

  forward-Contained :
      (conn : ℕ) (addr : String) (m : AuthMsg) (request : String) (w : World)
      → Mine conn
      → Owns Mine w.session
      → Contained Mine w (forward_attempt conn addr m request w)
  unfolding forward_attempt
  forward-Contained conn addr m request w mine o = elim (Option-cases w.session.host) [
    | inl n ↦ rw (n, forward_attempt) ((mine, tt), (λ c _. refl), o)
    | inr (h, n) ↦
        rw (n, forward_attempt)
          (if-Contained Mine w w.session.closed _ _ ((mine, tt), (λ c _. refl), o)
            (
              (subst (HostMine Mine) n o.0, tt),
              (λ c _. refl),
              (o.0, o.1, All-insert (λ e. Mine e.1.conn) request _ w.session.pending_auth mine o.2),
            ))
  ]

  reserved-Contained :
      (conn : ℕ) (addr : String) (m : Option AuthMsg) (random : Option String) (w : World)
      → Mine conn
      → Owns Mine w.session
      → Contained Mine w (reserved_attempt conn addr m random w)
  unfolding reserved_attempt
  reserved-Contained conn addr none random w mine o = (tt, (λ c _. refl), o)
  reserved-Contained conn addr (some m) none w mine o = (
    tt,
    name_conn-Spares conn m.display_name w mine,
    rw (name_conn-session conn m.display_name w) o,
  )
  reserved-Contained conn addr (some m) (some request) w mine o =
      after-Contained w (name_conn conn m.display_name w)
        (forward_attempt conn addr m request (name_conn conn m.display_name w))
        (name_conn-Spares conn m.display_name w mine)
        (forward-Contained conn addr m request (name_conn conn m.display_name w) mine
          (rw (name_conn-session conn m.display_name w) o))

  pub auth_attempt-Contained :
      (now conn : ℕ) (addr : String) (m : Option AuthMsg) (random : Option String) (w : World)
      → Mine conn
      → Owns Mine w.session
      → Contained Mine w (handle_auth_attempt now conn addr m random w)
  unfolding handle_auth_attempt
  auth_attempt-Contained now conn addr m random w mine o =
      let (limiter, reserved, retry_after) = try_reserve now w.session.id addr w.limiter in
      if-Contained Mine w (w.conns conn).authenticated _ _ (tt, (λ c _. refl), o)
        (if-Contained Mine w (not reserved) _ _ ((mine, tt), (λ c _. refl), o)
          (reserved-Contained conn addr m random (record w { limiter = limiter }) mine o))

  replay-ToMine :
      (conn : ℕ) (chunks : List String)
      → Mine conn
      → ToMine Mine (map (λ chunk. send conn (Msg.output chunk)) chunks)
  replay-ToMine conn [] mine = tt
  replay-ToMine conn (chunk ∷ chunks) mine = (mine, replay-ToMine conn chunks mine)

  admit-Contained :
      (conn : ℕ) (token id : String) (w : World)
      → Mine conn
      → Owns Mine w.session
      → Contained Mine w (admit conn token id w)
  unfolding admit replay_output_to
  admit-Contained conn token id w mine o = (
    (
      mine,
      All-append _ _ _ (replay-ToMine conn w.session.output_backlog mine)
          (presence-ToMine Mine (admit conn token id w).0 o),
    ),
    (λ c other. update-Spares conn c _ w.conns mine other),
    o,
  )

  issue-Owns :
      (token id : String) (s : Session)
      → Owns Mine s
      → Owns Mine (issue_token token id (take_slot id s))
  unfolding issue_token take_slot
  issue-Owns token id s o = ground arith

  accept-Contained :
      (now : ℕ) (p : PendingAuth) (token : Option String) (w : World)
      → Mine p.conn
      → Owns Mine w.session
      → Contained Mine w (accept_attempt now p token w)
  unfolding accept_attempt
  accept-Contained now p none w mine o = ((mine, tt), (λ c _. refl), o)
  accept-Contained now p (some token) w mine o =
      let s = issue_token token p.viewer_id (take_slot p.viewer_id w.session) in
      if-Contained Mine w (slot_taken now p.viewer_id w.session) _ _ ((mine, tt), (λ c _. refl), o)
        (admit-Contained p.conn token p.viewer_id (with_session w s) mine
          (issue-Owns token p.viewer_id w.session o))

  pub auth_response-Contained :
      (now : ℕ) (m : AuthResponseMsg) (token : Option String) (w : World)
      → Owns Mine w.session
      → Contained Mine w (handle_auth_response now m token w)
  unfolding handle_auth_response
  auth_response-Contained now m token w o =
      elim (Option-cases (lookup m.request_id w.session.pending_auth)) [
        | inl n ↦ rw (n, handle_auth_response) (tt, (λ c _. refl), o)
        | inr (p, n) ↦
            let mine =
              All-lookup (λ e. Mine e.1.conn) m.request_id p w.session.pending_auth n o.2 in
            let o' : Owns Mine
                (record w.session { pending_auth = delete m.request_id w.session.pending_auth }) =
              (o.0, o.1, All-delete (λ e. Mine e.1.conn) m.request_id w.session.pending_auth o.2) in
            rw (n, handle_auth_response)
              (if-Contained Mine w m.accepted _ _
                (accept-Contained now p token
                  (record w {
                    session = record w.session {
                      pending_auth = delete m.request_id w.session.pending_auth;
                    };
                    limiter = settle now m.accepted w.session.id p.remote_addr w.limiter;
                  })
                  mine o')
                ((mine, tt), (λ c _. refl), o'))
      ]

  adopt-Owns :
      (conn : ℕ) (token : String) (t : TokenRecord) (w : World)
      → Mine conn
      → Owns Mine w.session
      → Owns Mine (adopt conn token t w).session
  unfolding adopt take_slot
  adopt-Owns conn token t w mine o =
      let viewers =
        All-insert (λ e. Mine e.1) t.connection_id conn _ mine
          (All-delete (λ e. Mine e.1) (w.conns conn).id w.session.viewers o.1) in
      ground arith

  pub resume-Contained :
      (now conn : ℕ) (token : Option String) (w : World)
      → Mine conn
      → Owns Mine w.session
      → Contained Mine w (handle_resume now conn token w)
  unfolding handle_resume
  resume-Contained now conn none w mine o = (tt, (λ c _. refl), o)
  resume-Contained now conn (some token) w mine o =
      elim (Option-cases (lookup token w.session.tokens)) [
        | inl n ↦ rw (n, handle_resume) ((mine, tt), (λ c _. refl), o)
        | inr (t, n) ↦
            rw (n, handle_resume)
              (if-Contained Mine w (token_expired now t) _ _
                ((mine, tt), (λ c _. refl), (unfold drop_token in ground arith))
                (after-Contained w (adopt conn token t w)
                  (admit conn token t.connection_id (adopt conn token t w))
                  (λ c other. unfold adopt in update-Spares conn c _ w.conns mine other)
                  (admit-Contained conn token t.connection_id (adopt conn token t w) mine
                    (adopt-Owns conn token t w mine o))))
      ]
