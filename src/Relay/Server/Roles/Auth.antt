-- ===== src/Relay/Server/Roles/Auth.antt =====
-- The handlers of internal/relay/auth.go give out viewers' ids only.
use getsloth.Base.{
  ℕ, String, Bool, true, false, Option, none, some, ◌≡◌, ◌≢◌, inl, inr, refl, arith, ◌==◌,
  if◌then◌else◌, All, All-insert, All-delete, All-lookup, lookup, insert, delete, Option-cases,
  Bool-cases,
}
use getsloth.Relay.RateLimit.{try_reserve}
use getsloth.Protocol.{session_mode_remote, AuthMsg, AuthResponseMsg}
use getsloth.Relay.Connection.{set_id}
use getsloth.Relay.Session.{World, Session, Reply, TokenRecord, PendingAuth}
use getsloth.Relay.Auth.{
  name_conn, forward_attempt, reserved_attempt, handle_auth_attempt, handle_auth_response,
  handle_resume, accept_attempt, adopt, admit, drop_token, token_expired, issue_token, take_slot,
  slot_taken, settle,
}
use getsloth.Relay.Server.Roles.{IsViewer, Roles, Roles-conn, Roles-session, Roles-limiter}

name_conn-Roles :
    (h conn : ℕ) (name : String) (w : World)
    → conn ≢ h
    → Roles h w
    → Roles h (name_conn conn name w)
name_conn-Roles h conn name w ne r = elim (Bool-cases (name == "")) [
  | inl e ↦ rw e r
  | inr e ↦ rw e (Roles-conn h conn _ w ne (r.others conn ne) r)
]

if-Roles :
    (h : ℕ) (b : Bool) (x y : Reply) → Roles h x.0 → Roles h y.0 → Roles h (if b then x else y).0
if-Roles h true x y p q = p
if-Roles h false x y p q = q

forward_attempt-Roles :
    (h conn : ℕ) (addr : String) (m : AuthMsg) (request : String) (w : World)
    → conn ≢ h
    → Roles h w
    → Roles h (forward_attempt conn addr m request w).0
unfolding forward_attempt
forward_attempt-Roles h conn addr m request w ne r =
    rw (r.host_is, forward_attempt)
      (if-Roles h w.session.closed _ _ (Roles-limiter h w _ r) (
        Roles-session h w _ refl r.tokens
          (All-insert _ request _ w.session.pending_auth (r.others conn ne, ne) r.pending) r))

reserved_attempt-Roles :
    (h conn : ℕ) (addr : String) (m : Option AuthMsg) (random : Option String) (w : World)
    → conn ≢ h
    → Roles h w
    → Roles h (reserved_attempt conn addr m random w).0
unfolding reserved_attempt
reserved_attempt-Roles h conn addr none random w ne r = Roles-limiter h w _ r
reserved_attempt-Roles h conn addr (some m) none w ne r =
    Roles-limiter h _ _ (name_conn-Roles h conn m.display_name w ne r)
reserved_attempt-Roles h conn addr (some m) (some request) w ne r =
    forward_attempt-Roles h conn addr m request _ ne (name_conn-Roles h conn m.display_name w ne r)

pub auth_attempt-Roles :
    (h now conn : ℕ) (addr : String) (m : Option AuthMsg) (random : Option String) (w : World)
    → conn ≢ h
    → Roles h w
    → Roles h (handle_auth_attempt now conn addr m random w).0
unfolding handle_auth_attempt
auth_attempt-Roles h now conn addr m random w ne r =
    let (limiter, reserved, retry_after) = try_reserve now w.session.id addr w.limiter in
    let w' = record w { limiter = limiter } in
    elim (Bool-cases (w.conns conn).authenticated) [
      | inl e ↦ rw (e, handle_auth_attempt) r
      | inr e ↦ elim (Bool-cases reserved) [
        | inl f ↦
            rw (e, f, handle_auth_attempt)
              (reserved_attempt-Roles h conn addr m random w' ne (Roles-limiter h w limiter r))
        | inr f ↦ rw (e, f, handle_auth_attempt) (Roles-limiter h w limiter r)
      ]
    ]

admit-Roles :
    (h conn : ℕ) (token id : String) (w : World)
    → conn ≢ h
    → Roles h w
    → Roles h (admit conn token id w).0
unfolding admit
admit-Roles h conn token id w ne r = Roles-conn h conn _ w ne (r.others conn ne) r

module _ (token viewer_id : String) (s : Session) where
  issued : Session
  issued = issue_token token viewer_id (take_slot viewer_id s)

  issued_host : issued.host ≡ s.host
  unfolding issued issue_token take_slot
  issued_host = ground arith

  issued_pending : issued.pending_auth ≡ s.pending_auth
  unfolding issued issue_token take_slot
  issued_pending = ground arith

  issued_same :
      issued.tokens ≡ insert token (record { connection_id = viewer_id; expires_at = 0 }) s.tokens
  unfolding issued issue_token take_slot
  issued_same = ground arith

  issued_tokens :
      IsViewer viewer_id
      → All (λ e. IsViewer e.1.connection_id) s.tokens
      → All (λ e. IsViewer e.1.connection_id) issued.tokens
  issued_tokens viewer h = rw issued_same (All-insert _ token _ s.tokens viewer h)

accept-Roles :
    (h now : ℕ) (p : PendingAuth) (token : Option String) (w : World)
    → IsViewer p.viewer_id
    → p.conn ≢ h
    → Roles h w
    → Roles h (accept_attempt now p token w).0
unfolding accept_attempt issued
accept-Roles h now p none w viewer ne r = r
accept-Roles h now p (some token) w viewer ne r =
    elim (Bool-cases (slot_taken now p.viewer_id w.session)) [
      | inl e ↦ rw (e, accept_attempt) r
      | inr e ↦
          rw (e, accept_attempt)
            (admit-Roles h p.conn token p.viewer_id _ ne (
              Roles-session h w _ (issued_host token p.viewer_id w.session)
                (issued_tokens token p.viewer_id w.session viewer r.tokens)
                (rw (issued_pending token p.viewer_id w.session) r.pending) r))
    ]

pub auth_response-Roles :
    (h now : ℕ) (m : AuthResponseMsg) (token : Option String) (w : World)
    → Roles h w
    → Roles h (handle_auth_response now m token w).0
unfolding handle_auth_response
auth_response-Roles h now m token w r =
    elim (Option-cases (lookup m.request_id w.session.pending_auth)) [
      | inl e ↦ rw (e, handle_auth_response) r
      | inr (p, e) ↦
          let (viewer, ne) = All-lookup _ m.request_id p w.session.pending_auth e r.pending in
          let rest =
            Roles-limiter h _ (settle now m.accepted w.session.id p.remote_addr w.limiter) (
              Roles-session h w
                (record w.session { pending_auth = delete m.request_id w.session.pending_auth })
                refl r.tokens (All-delete _ m.request_id w.session.pending_auth r.pending) r) in
          rw (e, handle_auth_response)
            (elim (Bool-cases m.accepted) [
              | inl f ↦ rw f (accept-Roles h now p token _ viewer ne (rw f at rest))
              | inr f ↦ rw f (rw f at rest)
            ])
    ]

drop_token-Roles :
    (h : ℕ) (token : String) (t : TokenRecord) (w : World)
    → Roles h w
    → Roles h (record w { session = drop_token token t w.session })
unfolding drop_token
drop_token-Roles h token t w r =
    let dropped = All-delete _ token w.session.tokens r.tokens in
    elim (Bool-cases (w.session.remote_viewer_id == t.connection_id)) [
      | inl e ↦ rw (e, drop_token) (Roles-session h w _ refl dropped r.pending r)
      | inr e ↦ rw (e, drop_token) (Roles-session h w _ refl dropped r.pending r)
    ]

adopt-Roles :
    (h conn : ℕ) (token : String) (t : TokenRecord) (w : World)
    → conn ≢ h
    → IsViewer t.connection_id
    → Roles h w
    → Roles h (adopt conn token t w)
unfolding adopt
adopt-Roles h conn token t w ne viewer r =
    let c = set_id t.connection_id (w.conns conn) in
    let tokens =
      All-insert _ token (record { connection_id = t.connection_id; expires_at = 0 })
        w.session.tokens viewer r.tokens in
    let named = Roles-conn h conn c w ne viewer r in
    elim (Bool-cases (w.session.mode == session_mode_remote)) [
      | inl e ↦ rw (e, adopt, take_slot) (Roles-session h _ _ refl tokens r.pending named)
      | inr e ↦ rw (e, adopt, take_slot) (Roles-session h _ _ refl tokens r.pending named)
    ]

pub resume-Roles :
    (h now conn : ℕ) (token : Option String) (w : World)
    → conn ≢ h
    → Roles h w
    → Roles h (handle_resume now conn token w).0
unfolding handle_resume
resume-Roles h now conn none w ne r = r
resume-Roles h now conn (some token) w ne r = elim (Option-cases (lookup token w.session.tokens)) [
  | inl e ↦ rw (e, handle_resume) r
  | inr (t, e) ↦
      rw (e, handle_resume)
        (elim (Bool-cases (token_expired now t)) [
          | inl f ↦ rw f (drop_token-Roles h token t w r)
          | inr f ↦ rw f (
              admit-Roles h conn token t.connection_id _ ne (
                adopt-Roles h conn token t w ne (All-lookup _ token t w.session.tokens e r.tokens)
                  r))
        ])
]
