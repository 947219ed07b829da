-- ===== src/Relay/Connection/Health.antt =====
-- The life of a health probe: at most one is outstanding, and its pong is measured once.
use getsloth.Base.{
  ℕ, ◌-◌, ◌/◌, ◌≤◌, String, true, false, Option, none, some, ◌≡◌, ◌⊎◌, inl, inr, refl, arith, ◌==◌,
  ltb, leb, eq→eq_true, le→ltb_false, Bool-cases, ◌||◌, List, [], ◌∷◌,
}
use text.Mathlib.TextPositions.{eq_refl}
use getsloth.Protocol.{
  viewer_quality_unknown, viewer_quality_good, viewer_quality_laggy, viewer_quality_stalled,
}
use getsloth.Relay.Connection.{
  Connection, millisecond, begin_health_ping, record_health_pong, expire_health_ping,
  health_quality, health_snapshot, new_connection, health_good_limit, health_laggy_limit,
}

begin_health_ping_idle :
    (c : Connection) (nonce : String) (sent : ℕ)
    → c.health.pending_nonce ≡ ""
    → begin_health_ping nonce sent c ≡ (
      record c {
        health = record {
          pending_nonce = nonce;
          pending_at = sent;
          rtt_ms = c.health.rtt_ms;
          quality = c.health.quality;
        };
      },
      true,
    )
unfolding begin_health_ping
begin_health_ping_idle c nonce sent idle = rw (eq→eq_true c.health.pending_nonce "" idle)

health_quality_named : (rtt : ℕ) → (health_quality rtt == "") ≡ false
unfolding health_quality
health_quality_named rtt = elim (Bool-cases (leb rtt health_good_limit)) [
  | inl e ↦ rw e
  | inr e ↦ rw e (elim (Bool-cases (leb rtt health_laggy_limit)) [ inl f ↦ rw f | inr f ↦ rw f ])
]

-- A ping that is answered by its own nonce at a later time gives the elapsed whole milliseconds
-- and the quality of that interval, and leaves no probe outstanding; the identity and the
-- authentication stay.
record_health_pong-begin_health_ping :
    (c : Connection) (nonce : String) (sent received : ℕ)
    → c.health.pending_nonce ≡ ""
    → sent ≤ received
    → let (c', done) = record_health_pong nonce received (begin_health_ping nonce sent c).0 in
      (done ≡ true)
      × (health_snapshot c'
          ≡ (some ((received - sent) / millisecond), health_quality (received - sent)))
      × (c'.health.pending_nonce ≡ "")
      × (c'.id ≡ c.id)
      × (c'.authenticated ≡ c.authenticated)
unfolding record_health_pong health_snapshot
record_health_pong-begin_health_ping c nonce sent received idle later =
    rw (begin_health_ping_idle c nonce sent idle, eq_refl nonce, le→ltb_false received sent later)
      (rw (health_quality_named (received - sent)) (refl, refl, refl, refl, refl))

-- What a client is told: no reading, or a reading that its quality agrees with.
abbrev pub Agrees : Option ℕ → String → Type 0
Agrees none q = (q ≡ viewer_quality_unknown) ⊎ (q ≡ viewer_quality_stalled)
Agrees (some ms) q =
    ((q ≡ viewer_quality_good) × (ms ≤ 150))
    ⊎ ((q ≡ viewer_quality_laggy) × (150 ≤ ms) × (ms ≤ 500))
    ⊎ ((q ≡ viewer_quality_stalled) × (500 ≤ ms))

abbrev pub IsHonest : Connection → Type 0
IsHonest c = Agrees c.health.rtt_ms c.health.quality

-- The calls that touch the health of a connection.
pub data Probe : Type 0 where
  pings : (nonce : String) (sent_at : ℕ) → Probe
  pongs : (nonce : String) (received_at : ℕ) → Probe
  expires : (now timeout : ℕ) → Probe

unfoldable pub probe : Probe → Connection → Connection
probe (pings nonce t) c = (begin_health_ping nonce t c).0
probe (pongs nonce t) c = (record_health_pong nonce t c).0
probe (expires now timeout) c = (expire_health_ping now timeout c).0

unfoldable pub run_probes : List Probe → Connection → Connection
run_probes [] c = c
run_probes (p ∷ ps) c = run_probes ps (probe p c)

Agrees-health_quality : (rtt : ℕ) → Agrees (some (rtt / millisecond)) (health_quality rtt)
unfolding health_quality
Agrees-health_quality rtt = ground arith

probe-IsHonest : (p : Probe) (c : Connection) → IsHonest c → IsHonest (probe p c)
unfolding probe begin_health_ping record_health_pong expire_health_ping
probe-IsHonest (pings nonce t) c h = elim (Bool-cases (c.health.pending_nonce == "")) [
  | inl e ↦ rw (e, probe, begin_health_ping) h
  | inr e ↦ rw (e, probe, begin_health_ping) h
]
probe-IsHonest (pongs nonce t) c h = elim (Bool-cases (c.health.pending_nonce == nonce)) [
  | inl e ↦ elim (Bool-cases (ltb t c.health.pending_at)) [
    | inl early ↦ rw (e, early, probe, record_health_pong) h
    | inr late ↦
        rw (e, late, probe, record_health_pong) (Agrees-health_quality (t - c.health.pending_at))
  ]
  | inr e ↦ rw (e, probe, record_health_pong) h
]
probe-IsHonest (expires now timeout) c h =
    elim (Bool-cases (c.health.pending_nonce == "" || ltb (now - c.health.pending_at) timeout)) [
      | inl e ↦ rw (e, probe, expire_health_ping) h
      | inr e ↦ rw (e, probe, expire_health_ping) (inr refl)
    ]

run_probes-IsHonest : (ps : List Probe) (c : Connection) → IsHonest c → IsHonest (run_probes ps c)
unfolding run_probes
run_probes-IsHonest [] c h = h
run_probes-IsHonest (p ∷ ps) c h = run_probes-IsHonest ps (probe p c) (probe-IsHonest p c h)

Agrees-named : (r : Option ℕ) (q : String) → Agrees r q → (q == "") ≡ false
Agrees-named none q (inl e) = rw e
Agrees-named none q (inr e) = rw e
Agrees-named (some ms) q (inl h) = rw h.0
Agrees-named (some ms) q (inr (inl h)) = rw h.0
Agrees-named (some ms) q (inr (inr h)) = rw h.0

snapshot-Agrees : (c : Connection) → IsHonest c → Agrees (health_snapshot c).0 (health_snapshot c).1
unfolding health_snapshot
snapshot-Agrees c h = rw (Agrees-named c.health.rtt_ms c.health.quality h) h

-- After any pings, pongs and timeouts on a new connection, `healthSnapshot` reports a quality that
-- agrees with the reading beside it, or no reading and `unknown` or `stalled`.
pub health_snapshot-Agrees :
    (id role : String) (ps : List Probe)
    → let (rtt_ms, quality) = health_snapshot (run_probes ps (new_connection id role)) in
      Agrees rtt_ms quality
unfolding health_snapshot new_connection
health_snapshot-Agrees id role ps =
    snapshot-Agrees (run_probes ps (new_connection id role))
      (run_probes-IsHonest ps (new_connection id role) (inl refl))
