-- ===== src/Relay/Auth/Slot.antt =====
-- The one place of a remote session: who holds it, and how it can be lost for good.
use getsloth.Base.{
  ℕ, ◌<◌, String, true, false, none, some, [], ◌∷◌, ◌≡◌, ◌≢◌, ◌⊎◌, inl, sym, ◌∙◌, arith, eq_iff,
  lookup, delete, lookup-delete_self, lookup-delete_ne,
}
use getsloth.Protocol.{AuthResponseMsg, session_mode_remote, auth_code_occupied}
use getsloth.Relay.Session.{World, PendingAuth, send}
use getsloth.Relay.Control.{handle_viewer_disconnect}
use getsloth.Relay.Auth.{auth_refused, handle_auth_response}

module _ (now : ℕ) (m : AuthResponseMsg) (token : String) (w : World) (p : PendingAuth) where
  -- While a remote session keeps its place for another identity, an attempt that the host accepts
  -- is answered with SESSION_OCCUPIED and nothing else: the session only forgets the attempt, and
  -- every connection stays as it was.
  pub occupied_refuses :
      w.session.mode ≡ session_mode_remote
      → w.session.remote_viewer_id ≢ ""
      → w.session.remote_viewer_id ≢ p.viewer_id
      → (w.session.remote_slot_expiry ≡ 0) ⊎ (now < w.session.remote_slot_expiry)
      → lookup m.request_id w.session.pending_auth ≡ some p
      → m.accepted ≡ true
      → let (w', out) = handle_auth_response now m (some token) w in
        (out ≡ send p.conn (auth_refused auth_code_occupied 0) ∷ [])
        × (w'.conns ≡ w.conns)
        × (w'.session
            ≡ record w.session { pending_auth = delete m.request_id w.session.pending_auth })
  unfolding handle_auth_response
  occupied_refuses remote held other kept found accepted = ground (
    arith,
    eq_iff w.session.mode session_mode_remote,
    eq_iff w.session.remote_viewer_id "",
    eq_iff w.session.remote_viewer_id p.viewer_id,
  )

  -- An attempt that the host accepts takes the free place of a remote session with no deadline.
  accepted_takes_slot :
      w.session.mode ≡ session_mode_remote
      → w.session.remote_viewer_id ≡ ""
      → lookup m.request_id w.session.pending_auth ≡ some p
      → m.accepted ≡ true
      → let s = (handle_auth_response now m (some token) w).0.session in
        (s.mode ≡ session_mode_remote)
        × (s.remote_viewer_id ≡ p.viewer_id)
        × (s.remote_slot_expiry ≡ 0)
        × (s.viewers ≡ w.session.viewers)
        × (s.pending_auth ≡ delete m.request_id w.session.pending_auth)
  unfolding handle_auth_response
  accepted_takes_slot remote free found accepted =
      ground
        (arith, eq_iff w.session.mode session_mode_remote, eq_iff w.session.remote_viewer_id "")

left_session :
    (t conn : ℕ) (w : World)
    → (w.conns conn).authenticated ≡ false
    → let s = (handle_viewer_disconnect t conn w).0.session in
      (s.mode ≡ w.session.mode)
      × (s.remote_viewer_id ≡ w.session.remote_viewer_id)
      × (s.pending_auth ≡ w.session.pending_auth)
      × (s.viewers ≡ delete (w.conns conn).id w.session.viewers)
unfolding handle_viewer_disconnect
left_session t conn w stranger = ground arith

-- A viewer that leaves a remote session before the host's verdict on its attempt: if the verdict is
-- then a yes, the place belongs to the viewer that is gone, with no deadline, and whenever the host
-- accepts an attempt of any other viewer, at whatever later time, it is answered SESSION_OCCUPIED.
pub ghost_keeps_slot :
    (t now later conn : ℕ) (m other : AuthResponseMsg) (token fresh : String) (p q : PendingAuth)
    (w : World)
    → w.session.mode ≡ session_mode_remote
    → w.session.remote_viewer_id ≡ ""
    → (w.conns conn).authenticated ≡ false
    → (w.conns conn).id ≡ p.viewer_id
    → p.viewer_id ≢ ""
    → lookup m.request_id w.session.pending_auth ≡ some p
    → m.accepted ≡ true
    → q.viewer_id ≢ p.viewer_id
    → other.accepted ≡ true
    → other.request_id ≢ m.request_id
    → lookup other.request_id w.session.pending_auth ≡ some q
    → let gone = (handle_viewer_disconnect t conn w).0 in
      let w' = (handle_auth_response now m (some token) gone).0 in
      (lookup p.viewer_id w'.session.viewers ≡ none)
      × (w'.session.remote_viewer_id ≡ p.viewer_id)
      × ((handle_auth_response later other (some fresh) w').1
          ≡ send q.conn (auth_refused auth_code_occupied 0) ∷ [])
ghost_keeps_slot t now later conn m other token fresh p q w remote free stranger named real found
      accepted different accepted' apart found' =
    let gone = (handle_viewer_disconnect t conn w).0 in
    let left = left_session t conn w stranger in
    let slot =
      accepted_takes_slot now m token gone p (left.0 ∙ remote) (left.1 ∙ free) (rw left.2 found)
        accepted in
    let w' = (handle_auth_response now m (some token) gone).0 in
    let still : lookup other.request_id w'.session.pending_auth ≡ some q =
      rw (slot.4, left.2)
        (lookup-delete_ne m.request_id other.request_id w.session.pending_auth (λ e. apart (sym e))
          ∙ found') in
    (
      rw (slot.3, left.3, named) (lookup-delete_self p.viewer_id w.session.viewers),
      slot.1,
      (occupied_refuses later other fresh w' q slot.0 (λ e. real (sym slot.1 ∙ e))
          (λ e. different (sym (sym slot.1 ∙ e))) (inl slot.2) still accepted').0,
    )
