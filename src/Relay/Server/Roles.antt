-- ===== src/Relay/Server/Roles.antt =====
-- Who is the host: the relay tells by the connection's id, so no viewer may ever get the id `host`.
pub mod Handlers
pub mod Auth
pub mod Run
use getsloth.Base.{
  ℕ, ◌+◌, String, Bool, true, false, not, ◌&&◌, Option, none, some, List, [], ◌∷◌, ◌≡◌, ◌≢◌, ◌⊎◌,
  inl, inr, refl, sym, ap, ◌∙◌, arith, ◌==◌, eq_iff, eqb, if◌then◌else◌, All, All-insert,
  All-delete, All-lookup, lookup, insert, delete, update, Map, Option-cases, Bool-cases,
}
use getsloth.Relay.RateLimit.{RateLimiter, try_reserve}
use getsloth.Protocol.{session_mode_remote, SessionConfigMsg, GridMsg, AuthMsg, AuthResponseMsg}
use getsloth.Relay.Connection.{
  Connection, set_id, new_connection, begin_health_ping, expire_health_ping, record_health_pong,
}
use getsloth.Relay.Session.{
  World, Session, Reply, TokenRecord, PendingAuth, reconnect_window, configure, add_viewer,
  teardown, broadcast_output,
}
use getsloth.Relay.Control.{
  handle_take_control, handle_resize, handle_host_size, handle_viewer_disconnect,
  disconnect_session, expire_tokens,
}
use getsloth.Relay.KillSwitch.{handle_kill_switch}
use getsloth.Relay.Auth.{
  name_conn, forward_attempt, reserved_attempt, handle_auth_attempt, handle_auth_response,
  handle_resume, accept_attempt, adopt, admit, drop_token, token_expired, issue_token, take_slot,
  slot_taken, settle,
}
use getsloth.Relay.Probes.{
  Round, ping_viewer, check_viewer, check_viewers, check_viewer_health, handle_pong,
}
use getsloth.Relay.Server.{Decoder, handle_viewer_message, handle_host_message}
use getsloth.Relay.Server.Cases.{viewer_message_cases, host_message_cases}
use getsloth.Relay.Server.Steps.{Env, Input, handle_viewer_join, step, run}

abbrev pub IsViewer : String → Type 0
IsViewer id = id ≢ "host"

-- The host's connection, and no other, has the id `host`, now and by any token or pending attempt.
pub record Roles (h : ℕ) (w : World) : Type 0 where
  pub host_is : w.session.host ≡ some h
  pub host_id : (w.conns h).id ≡ "host"
  pub others : (c : ℕ) → c ≢ h → IsViewer (w.conns c).id
  pub tokens : All (λ e. IsViewer e.1.connection_id) w.session.tokens
  pub pending : All (λ e. IsViewer e.1.viewer_id × (e.1.conn ≢ h)) w.session.pending_auth

-- An input that the server can produce: it gives new viewers random ids and connections of their
-- own.
abbrev pub Proper : {Raw : Type 0} → ℕ → Input Raw → Type 0
Proper h (Input.viewer_joins conn id) = (conn ≢ h) × IsViewer id
Proper h (Input.viewer_sends conn addr raw) = conn ≢ h
Proper h (Input.viewer_leaves conn) = conn ≢ h
Proper h _ = Unit {0}

pub Roles-frame :
    (h : ℕ) (w w' : World)
    → ((c : ℕ) → (w'.conns c).id ≡ (w.conns c).id)
    → w'.session.host ≡ w.session.host
    → w'.session.tokens ≡ w.session.tokens
    → w'.session.pending_auth ≡ w.session.pending_auth
    → Roles h w
    → Roles h w'
Roles-frame h w w' ids host tokens pending r = record {
  host_is = host ∙ r.host_is;
  host_id = ids h ∙ r.host_id;
  others = λ c ne e. r.others c ne (sym (ids c) ∙ e);
  tokens = rw tokens r.tokens;
  pending = rw pending r.pending;
}

-- A connection other than the host's gets another value, with a viewer's id.
pub ids-update :
    (h c : ℕ) (conns : ℕ → Connection) (v : Connection)
    → c ≢ h
    → IsViewer v.id
    → ((b : ℕ) → b ≢ h → IsViewer (conns b).id)
    → ((update conns c v h).id ≡ (conns h).id)
      × ((b : ℕ) → b ≢ h → IsViewer (update conns c v b).id)
ids-update h c conns v ne viewer others = (ground arith, λ b bh. go b bh (Bool-cases (eqb b c)))
  where
    go : (b : ℕ) → b ≢ h → (eqb b c ≡ true) ⊎ (eqb b c ≡ false) → IsViewer (update conns c v b).id
    go b bh (inl e) = rw e viewer
    go b bh (inr e) = rw e (others b bh)

pub Roles-conn :
    (h c : ℕ) (v : Connection) (w : World)
    → c ≢ h
    → IsViewer v.id
    → Roles h w
    → Roles h (record w { conns = update w.conns c v })
Roles-conn h c v w ne viewer r =
    let (at_h, others) = ids-update h c w.conns v ne viewer r.others in
    record {
      host_is = r.host_is;
      host_id = at_h ∙ r.host_id;
      others = others;
      tokens = r.tokens;
      pending = r.pending;
    }

pub Roles-session :
    (h : ℕ) (w : World) (s : Session)
    → s.host ≡ w.session.host
    → All (λ e. IsViewer e.1.connection_id) s.tokens
    → All (λ e. IsViewer e.1.viewer_id × (e.1.conn ≢ h)) s.pending_auth
    → Roles h w
    → Roles h (record w { session = s })
Roles-session h w s host tokens pending r = record {
  host_is = host ∙ r.host_is;
  host_id = r.host_id;
  others = r.others;
  tokens = tokens;
  pending = pending;
}

pub Roles-limiter :
    (h : ℕ) (w : World) (l : RateLimiter) → Roles h w → Roles h (record w { limiter = l })
Roles-limiter h w l r = record {
  host_is = r.host_is;
  host_id = r.host_id;
  others = r.others;
  tokens = r.tokens;
  pending = r.pending;
}
