-- ===== src/Relay/Server/Apart/Probes.antt =====
-- A new viewer, a pong and a round of health probes reach only their own session.
use getsloth.Base.{
  ℕ, String, Bool, true, false, ◌||◌, Option, none, some, [], ◌∷◌, refl, ◌∙◌, All, All-append,
  All-insert, if◌then◌else◌, eqb, ◌==◌, inl, inr, Map, update, Bool-cases,
}
use getsloth.Relay.Connection.{
  begin_health_ping, expire_health_ping, health_ping_timeout, record_health_pong, new_connection,
}
use getsloth.Relay.Session.{World, add_viewer}
use getsloth.Relay.Presence.{broadcast_presence}
use getsloth.Relay.Probes.{
  Round, ping_viewer, check_viewer, check_viewers, check_viewer_health, handle_pong,
}
use getsloth.Relay.Server.Steps.{handle_viewer_join}
use getsloth.Relay.Server.Apart.{
  Owns, ToMine, Spares, Contained, if-Contained, if-ToMine, presence-ToMine,
}
use getsloth.Relay.Server.Apart.Auth.{update-Spares}

module _ (Mine : ℕ → Type 0) where
  pub join-Contained :
      (conn : ℕ) (id : String) (w : World)
      → Mine conn
      → Owns Mine w.session
      → Contained Mine w (handle_viewer_join conn id w)
  unfolding handle_viewer_join add_viewer
  join-Contained conn id w mine o =
      let spared : Spares Mine w
          (record w { conns = update w.conns conn (new_connection id "viewer") }) =
        λ c other. update-Spares Mine conn c (new_connection id "viewer") w.conns mine other in
      elim (Bool-cases w.session.closed) [
        | inl e ↦ rw e ((mine, (mine, tt)), spared, o)
        | inr e ↦
            rw e (
              tt,
              spared,
              (o.0, All-insert (λ e. Mine e.1) id conn w.session.viewers mine o.1, o.2),
            )
      ]

  pub pong-Contained :
      (now conn : ℕ) (m : Option String) (w : World)
      → Mine conn
      → Owns Mine w.session
      → Contained Mine w (handle_pong now conn m w)
  unfolding handle_pong
  pong-Contained now conn none w mine o = (tt, (λ c _. refl), o)
  pong-Contained now conn (some nonce) w mine o =
      let done = record_health_pong nonce now (w.conns conn) in
      let w' : World = record w { conns = update w.conns conn done.0 } in
      if-Contained Mine w (nonce == "") _ _ (tt, (λ c _. refl), o)
        (if-Contained Mine w done.1 _ _
          (
            presence-ToMine Mine w' o,
            (λ c other. update-Spares Mine conn c done.0 w.conns mine other),
            o,
          )
          (tt, (λ c _. refl), o))

  module _ (w : World) where
    -- What a round has done so far reaches only the session.
    abbrev InReach : Round → Type 0
    InReach r = ToMine Mine r.targets × Spares Mine w (record w { conns = r.conns })

    if-InReach : (b : Bool) (x y : Round) → InReach x → InReach y → InReach (if b then x else y)
    if-InReach true x y p q = p
    if-InReach false x y p q = q

    ping_viewer-InReach :
        (now : ℕ) (nonce : Option String) (v : ℕ) (r : Round)
        → Mine v
        → InReach r
        → InReach (ping_viewer now nonce v r)
    unfolding ping_viewer
    ping_viewer-InReach now none v r mine q = q
    ping_viewer-InReach now (some nonce) v r mine q =
        let begun = begin_health_ping nonce now (r.conns v) in
        if-InReach begun.1 _ r
          (
            All-append _ r.targets _ q.0 (mine, tt),
            (λ c other. update-Spares Mine v c begun.0 r.conns mine other ∙ q.1 c other),
          )
          q

    check_viewer-InReach :
        (now timeout : ℕ) (nonce : Option String) (v : ℕ) (r : Round)
        → Mine v
        → InReach r
        → InReach (check_viewer now timeout nonce v r)
    unfolding check_viewer
    check_viewer-InReach now timeout nonce v r mine q =
        let expired = expire_health_ping now timeout (r.conns v) in
        let r' : Round = record {
          conns = update r.conns v expired.0;
          targets = r.targets;
          changed = r.changed || expired.1;
        } in
        if-InReach (r.conns v).authenticated (ping_viewer now nonce v r') r
          (ping_viewer-InReach now nonce v r' mine
            (q.0, (λ c other. update-Spares Mine v c expired.0 r.conns mine other ∙ q.1 c other)))
          q

    check_viewers-InReach :
        (now timeout : ℕ) (nonces : ℕ → Option String) (m : Map ℕ) (r : Round)
        → All (λ e. Mine e.1) m
        → InReach r
        → InReach (check_viewers now timeout nonces m r)
    unfolding check_viewers
    check_viewers-InReach now timeout nonces [] r mine q = q
    check_viewers-InReach now timeout nonces ((id, v) ∷ m) r mine q =
        check_viewers-InReach now timeout nonces m (check_viewer now timeout (nonces v) v r) mine.1
          (check_viewer-InReach now timeout (nonces v) v r mine.0 q)

    pub tick-Contained :
        (now configured : ℕ) (nonces : ℕ → Option String)
        → Owns Mine w.session
        → Contained Mine w (check_viewer_health now configured nonces w)
    unfolding check_viewer_health
    tick-Contained now configured nonces o =
        let timeout = if eqb configured 0 then health_ping_timeout else configured in
        let start : Round = record { conns = w.conns; targets = []; changed = false } in
        let r = check_viewers now timeout nonces w.session.viewers start in
        let w' : World = record w { conns = r.conns } in
        let q =
          check_viewers-InReach now timeout nonces w.session.viewers start o.1
            (tt, (λ c _. refl)) in
        (
          All-append _ r.targets _ q.0
              (if-ToMine Mine r.changed (broadcast_presence w') [] (presence-ToMine Mine w' o) tt),
          q.1,
          o,
        )
