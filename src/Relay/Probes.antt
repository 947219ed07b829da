-- ===== src/Relay/Probes.antt =====
-- internal/relay/health.go: the rounds of health probes. The random nonce for each connection is an
-- argument, `none` where `newRandomID` fails.
use getsloth.Base.{
  ℕ, String, Bool, false, ◌||◌, Option, none, some, List, [], ◌∷◌, ◌++◌, ◌==◌, eqb, if◌then◌else◌,
  Map, update,
}
use getsloth.Protocol.{Msg}
use getsloth.Relay.Connection.{
  Connection, begin_health_ping, expire_health_ping, record_health_pong, health_ping_timeout,
}
use getsloth.Relay.Session.{World, Event, send, Reply}
use getsloth.Relay.Presence.{broadcast_presence}

-- What a round has done so far: the connections, the pings to send, and whether a viewer's
-- health changed.
pub record Round : Type 0 where
  pub conns : ℕ → Connection
  pub targets : List Event
  pub changed : Bool

-- The new ping of one viewer, unless a probe is outstanding.
unfoldable pub ping_viewer : ℕ → Option String → ℕ → Round → Round
ping_viewer now none c r = r
ping_viewer now (some nonce) c r =
    let (c', begun) = begin_health_ping nonce now (r.conns c) in
    if begun
    then record r {
      conns = update r.conns c c';
      targets = r.targets ++ send c (Msg.ping nonce) ∷ [];
    }
    else r

unfoldable pub check_viewer : ℕ → ℕ → Option String → ℕ → Round → Round
unfolding ping_viewer
check_viewer now timeout nonce c r =
    let (c', expired) = expire_health_ping now timeout (r.conns c) in
    let r' = record r { conns = update r.conns c c'; changed = r.changed || expired } in
    if (r.conns c).authenticated then ping_viewer now nonce c r' else r

unfoldable pub check_viewers : ℕ → ℕ → (ℕ → Option String) → Map ℕ → Round → Round
unfolding check_viewer
check_viewers now timeout nonces [] r = r
check_viewers now timeout nonces ((id, c) ∷ viewers) r =
    check_viewers now timeout nonces viewers (check_viewer now timeout (nonces c) c r)

-- A configured timeout of 0 stands for the default, as any that is not positive does.
unfoldable pub check_viewer_health : ℕ → ℕ → (ℕ → Option String) → World → Reply
unfolding check_viewers
check_viewer_health now configured nonces w =
    let timeout = if eqb configured 0 then health_ping_timeout else configured in
    let r =
      check_viewers now timeout nonces w.session.viewers
        (record { conns = w.conns; targets = []; changed = false }) in
    let w' = record w { conns = r.conns } in
    (w', r.targets ++ (if r.changed then broadcast_presence w' else []))

unfoldable pub handle_pong : ℕ → ℕ → Option String → World → Reply
handle_pong now conn none w = (w, [])
handle_pong now conn (some nonce) w =
    let (c, done) = record_health_pong nonce now (w.conns conn) in
    let w' = record w { conns = update w.conns conn c } in
    if nonce == "" then (w, []) else if done then (w', broadcast_presence w') else (w, [])
