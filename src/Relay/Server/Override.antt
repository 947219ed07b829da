-- ===== src/Relay/Server/Override.antt =====
-- The host's override: what `take_control` from the host does, and what can follow it.
use getsloth.Base.{ℕ, ◌+◌, ◌≤◌, ◌<◌, Option, none, some, List, [], ◌∷◌, ap, ◌≡◌, refl, arith, All}
use getsloth.Protocol.{GridMsg}
use getsloth.Relay.Session.{World, host_lock_window}
use getsloth.Relay.Control.{handle_take_control, grant_control, assign_writer}
use getsloth.Relay.Server.{Decoder, handle_host_message, dispatch_host, dispatch_host_action}
use getsloth.Relay.Server.Steps.{Env, Input, step, run}
use getsloth.Relay.Server.Roles.{Roles, Proper}
use getsloth.Relay.Server.Roles.Run.{step-Roles}
use getsloth.Relay.Server.Machine.Laws.{host_keeps_control}

granted_to_host :
    (now h : ℕ) (m : GridMsg) (w : World)
    → (w.conns h).id ≡ "host"
    → let s = (handle_take_control now h m w).0.session in
      (s.active_writer_id ≡ "host") × (s.last_host_reclaim ≡ now)
unfolding handle_take_control grant_control assign_writer
granted_to_host now h m w own = rw own (refl, refl)

module _ {Raw : Type 0} (d : Decoder Raw) (h : ℕ) where
  take_control_arrives :
      (e : Env) (raw : Raw) (m : GridMsg) (w : World)
      → w.session.host ≡ some h
      → d.envelope raw ≡ some "take_control"
      → d.grid raw ≡ some m
      → step d e (Input.host_sends raw) w ≡ handle_take_control e.now h m w
  unfolding step handle_host_message dispatch_host dispatch_host_action
  take_control_arrives e raw m w host typed decoded =
      rw (typed, step, handle_host_message, decoded)
        (ap (λ (o : Option ℕ). elim o [ none ↦ (w, []) | some c ↦ handle_take_control e.now c m w ])
          host)

  -- Whatever the session's mode and whoever is the writer: when the host's `take_control` arrives,
  -- the host is the writer, and stays so in every run within the two seconds that follow.
  pub host_overrides :
      (e : Env) (raw : Raw) (m : GridMsg) (w : World) (is : List (Env × Input Raw))
      → Roles h w
      → d.envelope raw ≡ some "take_control"
      → d.grid raw ≡ some m
      → All (λ ei. Proper h ei.1) is
      → All (λ ei. (e.now ≤ ei.0.now) × (ei.0.now < e.now + host_lock_window)) is
      → (run d ((e, Input.host_sends raw) ∷ is) w).0.session.active_writer_id ≡ "host"
  unfolding run
  host_overrides e raw m w is roles typed decoded proper soon =
      let arrives = take_control_arrives e raw m w roles.host_is typed decoded in
      let granted = granted_to_host e.now h m w roles.host_id in
      let w' = (step d e (Input.host_sends raw) w).0 in
      host_keeps_control d h e.now is w' proper soon
        (step-Roles d h e (Input.host_sends raw) w tt roles) (rw arrives granted.0)
        (rw arrives (omega (arith, granted.1)))
