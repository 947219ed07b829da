-- ===== src/Relay/Server/Told/Auth.antt =====
-- The handlers of internal/relay/auth.go and the health check say nothing of control.
use getsloth.Base.{
  ℕ, String, Bool, true, false, not, Option, none, some, [], ◌∷◌, ◌≡◌, refl, ◌∙◌, arith, ◌||◌, All,
  All-append, All-map_of, if◌then◌else◌, Option-cases, eqb, Map, inl, inr, update, lookup, delete,
}
use getsloth.Protocol.{Msg, AuthMsg, AuthResponseMsg}
use getsloth.Relay.RateLimit.{try_reserve}
use getsloth.Relay.Connection.{begin_health_ping, expire_health_ping, health_ping_timeout}
use getsloth.Relay.Session.{World, send, Reply, with_session, PendingAuth, replay_output_to}
use getsloth.Relay.Auth.{
  handle_auth_attempt, reserved_attempt, forward_attempt, name_conn, handle_auth_response,
  accept_attempt, handle_resume, drop_token, adopt, admit, settle, slot_taken, token_expired,
  take_slot, issue_token,
}
use getsloth.Relay.Presence.{broadcast_presence}
use getsloth.Relay.Probes.{Round, ping_viewer, check_viewer, check_viewers, check_viewer_health}
use getsloth.Relay.Server.Told.{IsQuiet, Calm, if-Calm, if-IsQuiet, presence-IsQuiet}

forward-Calm :
    (conn : ℕ) (addr : String) (m : AuthMsg) (request : String) (w : World)
    → Calm w (forward_attempt conn addr m request w)
unfolding forward_attempt
forward-Calm conn addr m request w = elim (Option-cases w.session.host) [
  | inl n ↦ rw (n, forward_attempt) ((tt, tt), refl)
  | inr (h, n) ↦
      rw (n, forward_attempt) (if-Calm w w.session.closed _ _ ((tt, tt), refl) ((tt, tt), refl))
]

name_conn-role :
    (conn : ℕ) (name : String) (w : World)
    → (name_conn conn name w).session.active_writer_role ≡ w.session.active_writer_role
name_conn-role conn name w = ground arith

-- A reply that is calm after the connection was named is calm.
named-Calm :
    (conn : ℕ) (name : String) (w : World) (r : Reply) → Calm (name_conn conn name w) r → Calm w r
named-Calm conn name w r c = (c.0, c.1 ∙ name_conn-role conn name w)

reserved-Calm :
    (conn : ℕ) (addr : String) (m : Option AuthMsg) (random : Option String) (w : World)
    → Calm w (reserved_attempt conn addr m random w)
unfolding reserved_attempt
reserved-Calm conn addr none random w = (tt, refl)
reserved-Calm conn addr (some m) none w = (tt, name_conn-role conn m.display_name w)
reserved-Calm conn addr (some m) (some request) w =
    named-Calm conn m.display_name w
      (forward_attempt conn addr m request (name_conn conn m.display_name w))
      (forward-Calm conn addr m request (name_conn conn m.display_name w))

pub auth_attempt-Calm :
    (now conn : ℕ) (addr : String) (m : Option AuthMsg) (random : Option String) (w : World)
    → Calm w (handle_auth_attempt now conn addr m random w)
unfolding handle_auth_attempt
auth_attempt-Calm now conn addr m random w =
    let (limiter, reserved, retry_after) = try_reserve now w.session.id addr w.limiter in
    if-Calm w (w.conns conn).authenticated _ _ (tt, refl)
      (if-Calm w (not reserved) _ _ ((tt, tt), refl)
        (reserved-Calm conn addr m random (record w { limiter = limiter })))

admit-Calm : (conn : ℕ) (token id : String) (w : World) → Calm w (admit conn token id w)
unfolding admit replay_output_to
admit-Calm conn token id w = (
  (
    tt,
    All-append IsQuiet _ _
        (All-map_of IsQuiet (λ chunk. send conn (Msg.output chunk)) w.session.output_backlog
          (λ _. tt))
        (presence-IsQuiet _),
  ),
  refl,
)

accept-Calm :
    (now : ℕ) (p : PendingAuth) (token : Option String) (w : World)
    → Calm w (accept_attempt now p token w)
unfolding accept_attempt
accept-Calm now p none w = ((tt, tt), refl)
accept-Calm now p (some token) w =
    let s = issue_token token p.viewer_id (take_slot p.viewer_id w.session) in
    let admitted = admit-Calm p.conn token p.viewer_id (with_session w s) in
    if-Calm w (slot_taken now p.viewer_id w.session) _ _ ((tt, tt), refl)
      (admitted.0, admitted.1 ∙ (unfold issue_token take_slot in ground arith))

pub auth_response-Calm :
    (now : ℕ) (m : AuthResponseMsg) (token : Option String) (w : World)
    → Calm w (handle_auth_response now m token w)
unfolding handle_auth_response
auth_response-Calm now m token w =
    elim (Option-cases (lookup m.request_id w.session.pending_auth)) [
      | inl n ↦ rw (n, handle_auth_response) (tt, refl)
      | inr (p, n) ↦
          rw (n, handle_auth_response)
            (if-Calm w m.accepted _ _
              (accept-Calm now p token (record w {
                session = record w.session {
                  pending_auth = delete m.request_id w.session.pending_auth;
                };
                limiter = settle now m.accepted w.session.id p.remote_addr w.limiter;
              }))
              ((tt, tt), refl))
    ]

pub resume-Calm :
    (now conn : ℕ) (token : Option String) (w : World) → Calm w (handle_resume now conn token w)
unfolding handle_resume
resume-Calm now conn none w = (tt, refl)
resume-Calm now conn (some token) w = elim (Option-cases (lookup token w.session.tokens)) [
  | inl n ↦ rw (n, handle_resume) ((tt, tt), refl)
  | inr (t, n) ↦
      let admitted = admit-Calm conn token t.connection_id (adopt conn token t w) in
      rw (n, handle_resume)
        (if-Calm w (token_expired now t) _ _ ((tt, tt), (unfold drop_token in ground arith))
          (admitted.0, admitted.1 ∙ (unfold adopt take_slot in ground arith)))
]

if-targets :
    (b : Bool) (x y : Round)
    → All IsQuiet x.targets
    → All IsQuiet y.targets
    → All IsQuiet (if b then x else y).targets
if-targets true x y p q = p
if-targets false x y p q = q

ping_viewer-IsQuiet :
    (now : ℕ) (nonce : Option String) (v : ℕ) (r : Round)
    → All IsQuiet r.targets
    → All IsQuiet (ping_viewer now nonce v r).targets
unfolding ping_viewer
ping_viewer-IsQuiet now none v r q = q
ping_viewer-IsQuiet now (some nonce) v r q =
    if-targets (begin_health_ping nonce now (r.conns v)).1 _ r
      (All-append IsQuiet r.targets _ q (tt, tt)) q

check_viewer-IsQuiet :
    (now timeout : ℕ) (nonce : Option String) (v : ℕ) (r : Round)
    → All IsQuiet r.targets
    → All IsQuiet (check_viewer now timeout nonce v r).targets
unfolding check_viewer
check_viewer-IsQuiet now timeout nonce v r q =
    let r' : Round = record {
      conns = update r.conns v (expire_health_ping now timeout (r.conns v)).0;
      targets = r.targets;
      changed = r.changed || (expire_health_ping now timeout (r.conns v)).1;
    } in
    if-targets (r.conns v).authenticated (ping_viewer now nonce v r') r
      (ping_viewer-IsQuiet now nonce v r' q) q

check_viewers-IsQuiet :
    (now timeout : ℕ) (nonces : ℕ → Option String) (m : Map ℕ) (r : Round)
    → All IsQuiet r.targets
    → All IsQuiet (check_viewers now timeout nonces m r).targets
unfolding check_viewers
check_viewers-IsQuiet now timeout nonces [] r q = q
check_viewers-IsQuiet now timeout nonces ((id, v) ∷ m) r q =
    check_viewers-IsQuiet now timeout nonces m (check_viewer now timeout (nonces v) v r)
      (check_viewer-IsQuiet now timeout (nonces v) v r q)

pub tick-Calm :
    (now configured : ℕ) (nonces : ℕ → Option String) (w : World)
    → Calm w (check_viewer_health now configured nonces w)
unfolding check_viewer_health
tick-Calm now configured nonces w =
    let timeout = if eqb configured 0 then health_ping_timeout else configured in
    let start : Round = record { conns = w.conns; targets = []; changed = false } in
    let r = check_viewers now timeout nonces w.session.viewers start in
    let w' = record w { conns = r.conns } in
    (
      All-append IsQuiet r.targets _
          (check_viewers-IsQuiet now timeout nonces w.session.viewers start tt)
          (if-IsQuiet r.changed (broadcast_presence w') [] (presence-IsQuiet w') tt),
      refl,
    )
