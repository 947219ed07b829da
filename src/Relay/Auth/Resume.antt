-- ===== src/Relay/Auth/Resume.antt =====
-- Reconnecting with a token: what a disconnect keeps for it, and what it does to a connection that
-- has taken the identity over already.
use getsloth.Base.{
  ℕ, ◌+◌, ◌≤◌, ◌<◌, String, true, false, none, some, [], ◌∷◌, ◌≡◌, ◌≢◌, inl, inr, refl, sym, ap,
  ◌∙◌, arith, ◌==◌, eq_iff, lookup, delete, Map, Bool-cases, lookup-delete_self, lookup-insert_self,
}
use getsloth.Protocol.{auth_code_failed}
use getsloth.Relay.Session.{World, TokenRecord, send, reconnect_window}
use getsloth.Relay.Control.{handle_viewer_disconnect, expire_tokens}
use getsloth.Relay.Auth.{auth_refused, handle_resume, token_expired}

lookup-expire_tokens :
    (token id : String) (expires : ℕ) (m : Map TokenRecord) (t : TokenRecord)
    → lookup token m ≡ some t
    → t.connection_id ≡ id
    → lookup token (expire_tokens id expires m) ≡ some (record t { expires_at = expires })
unfolding lookup expire_tokens
lookup-expire_tokens token id expires [] t e own = cc
lookup-expire_tokens token id expires ((k, r) ∷ m) t e own =
    ground (arith, eq_iff r.connection_id id, lookup-expire_tokens token id expires m t)

-- A valid token hands its identity to the connection that presents it.
resume_adopts :
    (now conn : ℕ) (token : String) (t : TokenRecord) (w : World)
    → lookup token w.session.tokens ≡ some t
    → token_expired now t ≡ false
    → let w' = (handle_resume now conn (some token) w).0 in
      (lookup t.connection_id w'.session.viewers ≡ some conn)
      × ((w'.conns conn).id ≡ t.connection_id)
      × ((w'.conns conn).authenticated ≡ true)
      × (w'.session.active_writer_id ≡ w.session.active_writer_id)
unfolding handle_resume
resume_adopts now conn token t w found valid =
    ground
      (arith, lookup-insert_self t.connection_id conn (delete (w.conns conn).id w.session.viewers))

-- A token past its deadline is refused, and forgotten.
resume_expired :
    (now conn : ℕ) (token : String) (t : TokenRecord) (w : World)
    → lookup token w.session.tokens ≡ some t
    → token_expired now t ≡ true
    → let (w', out) = handle_resume now conn (some token) w in
      (out ≡ send conn (auth_refused auth_code_failed 0) ∷ [])
      × (lookup token w'.session.tokens ≡ none)
      × (w'.conns ≡ w.conns)
      × (w'.session.viewers ≡ w.session.viewers)
unfolding handle_resume
resume_expired now conn token t w found over =
    ground (arith, lookup-delete_self token w.session.tokens)

-- A resume leaves every other connection as it was.
resume_others :
    (now conn other : ℕ) (token : String) (t : TokenRecord) (w : World)
    → conn ≢ other
    → lookup token w.session.tokens ≡ some t
    → token_expired now t ≡ false
    → ((handle_resume now conn (some token) w).0.conns other).id ≡ (w.conns other).id
unfolding handle_resume
resume_others now conn other token t w apart found valid = ground arith

disconnect_conns :
    (now conn : ℕ) (w : World) → (handle_viewer_disconnect now conn w).0.conns ≡ w.conns
unfolding handle_viewer_disconnect
disconnect_conns now conn w = refl

disconnect_viewers :
    (now conn : ℕ) (w : World)
    → lookup (w.conns conn).id (handle_viewer_disconnect now conn w).0.session.viewers ≡ none
unfolding handle_viewer_disconnect
disconnect_viewers now conn w =
    ground (arith, lookup-delete_self (w.conns conn).id w.session.viewers)

module _ (left now old conn : ℕ) (token : String) (t : TokenRecord) (w : World) where
  -- The world after the old connection of the identity is gone.
  abbrev pub gone : World
  gone = (handle_viewer_disconnect left old w).0

  kept :
      (w.conns old).authenticated ≡ true
      → (w.conns old).id ≡ t.connection_id
      → lookup token w.session.tokens ≡ some t
      → lookup token gone.session.tokens ≡ some (record t { expires_at = left + reconnect_window })
  unfolding handle_viewer_disconnect
  kept member own found = ground (
    arith,
    lookup-expire_tokens token (w.conns old).id (left + reconnect_window) w.session.tokens t found
        (sym own),
  )

  control_left :
      (w.conns old).id ≡ t.connection_id
      → t.connection_id ≢ "host"
      → gone.session.active_writer_id ≢ t.connection_id
  unfolding handle_viewer_disconnect
  control_left own viewer = elim (Bool-cases (w.session.active_writer_id == (w.conns old).id)) [
    | inl held ↦ ground (arith, eq_iff w.session.active_writer_id (w.conns old).id)
    | inr free ↦ ground (arith, eq_iff w.session.active_writer_id (w.conns old).id)
  ]

  -- A viewer that loses its connection at time `left` and presents its token on another one within
  -- 30 seconds is authenticated again under its old id, and is not the writer: the host is, if the
  -- viewer was.
  pub resume_in_time :
      (w.conns old).authenticated ≡ true
      → (w.conns old).id ≡ t.connection_id
      → lookup token w.session.tokens ≡ some t
      → t.connection_id ≢ "host"
      → now ≤ left + reconnect_window
      → let w' = (handle_resume now conn (some token) gone).0 in
        (lookup t.connection_id w'.session.viewers ≡ some conn)
        × ((w'.conns conn).id ≡ t.connection_id)
        × ((w'.conns conn).authenticated ≡ true)
        × (w'.session.active_writer_id ≢ t.connection_id)
  resume_in_time member own found viewer soon =
      let t' : TokenRecord = record t { expires_at = left + reconnect_window } in
      let adopted =
        resume_adopts now conn token t' gone (kept member own found)
          (unfold token_expired in ground arith) in
      (adopted.0, adopted.1, adopted.2, rw adopted.3 (control_left own viewer))

  -- After the 30 seconds the token is refused and forgotten, and no connection or viewer changes.
  pub resume_too_late :
      (w.conns old).authenticated ≡ true
      → (w.conns old).id ≡ t.connection_id
      → lookup token w.session.tokens ≡ some t
      → left + reconnect_window < now
      → let (w', out) = handle_resume now conn (some token) gone in
        (out ≡ send conn (auth_refused auth_code_failed 0) ∷ [])
        × (lookup token w'.session.tokens ≡ none)
        × (w'.conns ≡ gone.conns)
        × (w'.session.viewers ≡ gone.session.viewers)
  resume_too_late member own found late =
      resume_expired now conn token (record t { expires_at = left + reconnect_window }) gone
        (kept member own found) (unfold token_expired in ground arith)

  -- A viewer that resumes on a new connection before the relay has noticed that the old one is
  -- dead: the late disconnect of the old connection takes the identity out of the viewers' map, so
  -- the new connection stays authenticated under its id and gets no broadcast any more.
  pub stale_disconnect_evicts :
      conn ≢ old
      → (w.conns old).id ≡ t.connection_id
      → lookup token w.session.tokens ≡ some t
      → token_expired now t ≡ false
      → let resumed = (handle_resume now conn (some token) w).0 in
        let w' = (handle_viewer_disconnect left old resumed).0 in
        (lookup t.connection_id resumed.session.viewers ≡ some conn)
        × (lookup t.connection_id w'.session.viewers ≡ none)
        × ((w'.conns conn).id ≡ t.connection_id)
        × ((w'.conns conn).authenticated ≡ true)
  unfolding handle_viewer_disconnect
  stale_disconnect_evicts apart own found valid =
      let resumed = (handle_resume now conn (some token) w).0 in
      let adopted = resume_adopts now conn token t w found valid in
      (
        adopted.0,
        (rw
            (ap (λ i. lookup i (handle_viewer_disconnect left old resumed).0.session.viewers)
              (sym (resume_others now conn old token t w apart found valid ∙ own)))
            (disconnect_viewers left old resumed)),
        adopted.1,
        adopted.2,
      )
