-- ===== src/Relay/Server/Admission.antt =====
-- How a connection becomes authenticated: the relay never decides by itself.
use mathlib.Core.Path.{subst}
use getsloth.Base.{
  ℕ, String, true, false, Option, none, some, [], ◌≡◌, inl, inr, refl, arith, eqb, if◌then◌else◌,
  lookup, Option-cases,
}
use getsloth.Protocol.{GridMsg, AuthMsg, AuthResponseMsg}
use getsloth.Relay.Connection.{new_connection, health_ping_timeout, record_health_pong}
use getsloth.Relay.Session.{World, Reply, TokenRecord, PendingAuth, teardown, broadcast_output}
use getsloth.Relay.Control.{
  handle_take_control, handle_resize, handle_host_size, handle_viewer_disconnect,
}
use getsloth.Relay.KillSwitch.{handle_kill_switch}
use getsloth.Relay.Auth.{handle_auth_attempt, handle_auth_response, handle_resume, token_expired}
use getsloth.Relay.Probes.{check_viewer_health, handle_pong}
use getsloth.Relay.Server.{Decoder, handle_viewer_message, handle_host_message}
use getsloth.Relay.Server.Cases.{viewer_message_cases, host_message_cases}
use getsloth.Relay.Server.Steps.{Env, Input, handle_viewer_join, handle_host_leave, step}
use getsloth.Relay.Server.Privacy.Probes.{check_viewers-authenticated}

-- The same connections are authenticated as before.
abbrev SameMembers : World → Reply → Type 0
SameMembers w r = (c : ℕ) → (r.0.conns c).authenticated ≡ (w.conns c).authenticated

take_control-SameMembers :
    (now conn : ℕ) (m : GridMsg) (w : World) → SameMembers w (handle_take_control now conn m w)
unfolding handle_take_control
take_control-SameMembers now conn m w c = ground arith

resize-SameMembers :
    (conn : ℕ) (m : Option GridMsg) (w : World) → SameMembers w (handle_resize conn m w)
unfolding handle_resize
resize-SameMembers conn none w c = refl
resize-SameMembers conn (some m) w c = ground arith

host_size-SameMembers : (m : GridMsg) (w : World) → SameMembers w (handle_host_size m w)
unfolding handle_host_size
host_size-SameMembers m w c = ground arith

auth_attempt-SameMembers :
    (now conn : ℕ) (addr : String) (m : Option AuthMsg) (random : Option String) (w : World)
    → SameMembers w (handle_auth_attempt now conn addr m random w)
unfolding handle_auth_attempt
auth_attempt-SameMembers now conn addr none random w c = ground arith
auth_attempt-SameMembers now conn addr (some m) none w c = ground arith
auth_attempt-SameMembers now conn addr (some m) (some r) w c = ground arith

pong-SameMembers :
    (now conn : ℕ) (m : Option String) (w : World) → SameMembers w (handle_pong now conn m w)
unfolding handle_pong record_health_pong
pong-SameMembers now conn none w c = refl
pong-SameMembers now conn (some nonce) w c = ground arith

-- The host accepted the attempt of this connection.
abbrev pub HostAccepts : ℕ → AuthResponseMsg → World → Type 0
HostAccepts c m w =
    (m.accepted ≡ true)
    × ((p : PendingAuth) × (lookup m.request_id w.session.pending_auth ≡ some p) × (p.conn ≡ c))

-- The token is one that the session holds, and is not past its deadline.
abbrev pub Redeems : ℕ → Option String → World → Type 0
Redeems now none w = ⊥
Redeems now (some token) w =
    (t : TokenRecord) × (lookup token w.session.tokens ≡ some t) × (token_expired now t ≡ false)

auth_response-HostAccepts :
    (now : ℕ) (m : AuthResponseMsg) (token : Option String) (w : World) (c : ℕ)
    → (w.conns c).authenticated ≡ false
    → ((handle_auth_response now m token w).0.conns c).authenticated ≡ true
    → HostAccepts c m w
unfolding handle_auth_response
auth_response-HostAccepts now m none w c out in' = ground arith
auth_response-HostAccepts now m (some token) w c out in' =
    elim (Option-cases (lookup m.request_id w.session.pending_auth)) [
      | inl e ↦ absurd (ground arith)
      | inr (p, e) ↦ (ground arith, (p, e, ground arith))
    ]

resume-Redeems :
    (now conn : ℕ) (token : Option String) (w : World) (c : ℕ)
    → (w.conns c).authenticated ≡ false
    → ((handle_resume now conn token w).0.conns c).authenticated ≡ true
    → (c ≡ conn) × Redeems now token w
unfolding handle_resume
resume-Redeems now conn none w c out in' = absurd (ground arith)
resume-Redeems now conn (some token) w c out in' =
    elim (Option-cases (lookup token w.session.tokens)) [
      | inl e ↦ absurd (ground arith)
      | inr (t, e) ↦ (ground arith, (t, e, ground arith))
    ]

-- What made a connection a participant.
pub data Admitted {Raw : Type 0} (d : Decoder Raw) (e : Env) (w : World) (c : ℕ)
    : Input Raw → Type 0 where
  by_host :
      (raw : Raw) (m : AuthResponseMsg)
      → d.auth_response raw ≡ some m
      → HostAccepts c m w
      → Admitted d e w c (Input.host_sends raw)
  by_token :
      (addr : String) (raw : Raw)
      → Redeems e.now (d.resume_token raw) w
      → Admitted d e w c (Input.viewer_sends c addr raw)

module _ {Raw : Type 0} (d : Decoder Raw) where
  viewer_message-Redeems :
      (now : ℕ) (random : Option String) (conn : ℕ) (addr : String) (raw : Raw) (w : World) (c : ℕ)
      → (w.conns c).authenticated ≡ false
      → ((handle_viewer_message d now random conn addr raw w).0.conns c).authenticated ≡ true
      → (c ≡ conn) × Redeems now (d.resume_token raw) w
  viewer_message-Redeems now random conn addr raw w c out =
      viewer_message_cases d
        (λ r. (r.0.conns c).authenticated ≡ true → (c ≡ conn) × Redeems now (d.resume_token raw) w)
        now random conn addr raw w (λ in'. cc)
        (λ m in'. cc (auth_attempt-SameMembers now conn addr m random w c))
        (λ _ in'. resume-Redeems now conn (d.resume_token raw) w c out in') (λ _ in'. cc)
        λ _. record {
          ignored = λ in'. cc;
          pong = λ m in'. cc (pong-SameMembers now conn m w c);
          control = λ m in'. cc (take_control-SameMembers now conn m w c);
          input = λ m in'. cc;
          resize = λ m in'. cc (resize-SameMembers conn m w c);
          chat = λ m in'. cc;
        }

  host_message-HostAccepts :
      (now : ℕ) (random : Option String) (raw : Raw) (w : World) (c : ℕ)
      → (w.conns c).authenticated ≡ false
      → ((handle_host_message d now random raw w).0.conns c).authenticated ≡ true
      → (m : AuthResponseMsg) × (d.auth_response raw ≡ some m) × HostAccepts c m w
  unfolding teardown broadcast_output handle_kill_switch
  host_message-HostAccepts now random raw w c out =
      host_message_cases d
        (λ r.
          (r.0.conns c).authenticated ≡ true
          → (m : AuthResponseMsg) × (d.auth_response raw ≡ some m) × HostAccepts c m w)
        now random raw w (λ in'. cc) (λ m _ in'. cc) (λ m in'. cc (host_size-SameMembers m w c))
        (λ chunk in'. cc) (λ m e in'. (m, e, auth_response-HostAccepts now m random w c out in'))
        (record {
          ignored = λ in'. cc;
          control = λ a m _ in'. cc (take_control-SameMembers now a m w c);
          kill = λ in'. cc;
          end = λ in'. cc;
          chat = λ a m _ in'. cc;
        })

  join-outside :
      (conn : ℕ) (id : String) (w : World) (c : ℕ)
      → (w.conns c).authenticated ≡ false
      → ((handle_viewer_join conn id w).0.conns c).authenticated ≡ false
  unfolding handle_viewer_join new_connection
  join-outside conn id w c out = ground arith

  -- A connection that a step makes authenticated either had its attempt accepted by the host in
  -- this step, or itself redeemed in this step a token that the session holds and that is not past
  -- its deadline.
  pub step-Admitted :
      (e : Env) (i : Input Raw) (w : World) (c : ℕ)
      → (w.conns c).authenticated ≡ false
      → ((step d e i w).0.conns c).authenticated ≡ true
      → Admitted d e w c i
  unfolding step handle_host_leave teardown check_viewer_health handle_viewer_disconnect
  step-Admitted e (Input.viewer_joins conn id) w c out in' = cc (join-outside conn id w c out)
  step-Admitted e (Input.viewer_sends conn addr raw) w c out in' =
      let (same, token) = viewer_message-Redeems e.now e.random conn addr raw w c out in' in
      subst (λ a. Admitted d e w c (Input.viewer_sends a addr raw)) same (by_token addr raw token)
  step-Admitted e (Input.viewer_leaves conn) w c out in' = cc
  step-Admitted e (Input.host_sends raw) w c out in' =
      let (m, decoded, accepted) = host_message-HostAccepts e.now e.random raw w c out in' in
      by_host raw m decoded accepted
  step-Admitted e Input.host_leaves w c out in' = cc
  step-Admitted e (Input.health_tick timeout nonces) w c out in' = cc (
      check_viewers-authenticated 0 e.now (if eqb timeout 0 then health_ping_timeout else timeout)
        nonces w.session.viewers (record { conns = w.conns; targets = []; changed = false }) c)
