-- ===== src/Relay/Server/Privacy/Probes.antt =====
-- The handlers of internal/relay/health.go write only what their readers may see.
use getsloth.Base.{
  ℕ, String, Bool, true, false, ◌||◌, Option, none, some, List, [], ◌∷◌, ◌≡◌, inr, refl, ◌∙◌, sym,
  arith, All, All-append, if◌then◌else◌, Map, ◌==◌, eqb, update,
}
use getsloth.Relay.Connection.{
  health_ping_timeout, Connection, record_health_pong, expire_health_ping, begin_health_ping,
}
use getsloth.Relay.Session.{World, Event}
use getsloth.Relay.Server.Privacy.{Permitted, presence-All}
use getsloth.Relay.Probes.{
  Round, ping_viewer, check_viewer, check_viewers, check_viewer_health, handle_pong,
}
use getsloth.Relay.Server.Privacy.Handlers.{Discreet, if-Discreet}

module _ (h : ℕ) where
  pub pong-Discreet :
      (now conn : ℕ) (m : Option String) (w : World)
      → w.session.host ≡ some h
      → Discreet h (handle_pong now conn m w)
  unfolding handle_pong
  pong-Discreet now conn none w e = tt
  pong-Discreet now conn (some nonce) w e =
      if-Discreet h (nonce == "") _ _ tt
        (if-Discreet h (record_health_pong nonce now (w.conns conn)).1 _ _ (presence-All h _ e) tt)

  -- The pings of a round go to authenticated viewers, and no probe changes who is one.
  check_viewer-authenticated :
      (now timeout : ℕ) (nonce : Option String) (v : ℕ) (r : Round) (c : ℕ)
      → ((check_viewer now timeout nonce v r).conns c).authenticated ≡ (r.conns c).authenticated
  unfolding check_viewer expire_health_ping begin_health_ping
  check_viewer-authenticated now timeout none v r c = ground arith
  check_viewer-authenticated now timeout (some nonce) v r c = ground arith

  -- `conns` is any heap with the same authenticated connections as the round's.
  module _ (conns : ℕ → Connection) where
    if-targets :
        (b : Bool) (x y : Round)
        → (b ≡ true → All (Permitted h conns) x.targets)
        → All (Permitted h conns) y.targets
        → All (Permitted h conns) (if b then x else y).targets
    if-targets true x y p q = p refl
    if-targets false x y p q = q

    ping_viewer-targets :
        (now : ℕ) (nonce : Option String) (v : ℕ) (r : Round)
        → (conns v).authenticated ≡ true
        → All (Permitted h conns) r.targets
        → All (Permitted h conns) (ping_viewer now nonce v r).targets
    unfolding ping_viewer
    ping_viewer-targets now none v r a t = t
    ping_viewer-targets now (some nonce) v r a t =
        if-targets (begin_health_ping nonce now (r.conns v)).1 _ r
          (λ _. All-append _ r.targets _ t (inr (inr (tt, a)), tt)) t

    check_viewer-targets :
        (now timeout : ℕ) (nonce : Option String) (v : ℕ) (r : Round)
        → (conns v).authenticated ≡ (r.conns v).authenticated
        → All (Permitted h conns) r.targets
        → All (Permitted h conns) (check_viewer now timeout nonce v r).targets
    unfolding check_viewer
    check_viewer-targets now timeout nonce v r same t =
        if-targets (r.conns v).authenticated _ r
          (λ a.
            ping_viewer-targets now nonce v
              (record {
                conns = update r.conns v (expire_health_ping now timeout (r.conns v)).0;
                targets = r.targets;
                changed = r.changed || (expire_health_ping now timeout (r.conns v)).1;
              })
              (same ∙ a) t)
          t

    check_viewers-targets :
        (now timeout : ℕ) (nonces : ℕ → Option String) (m : Map ℕ) (r : Round)
        → ((c : ℕ) → (conns c).authenticated ≡ (r.conns c).authenticated)
        → All (Permitted h conns) r.targets
        → All (Permitted h conns) (check_viewers now timeout nonces m r).targets
    unfolding check_viewers
    check_viewers-targets now timeout nonces [] r same t = t
    check_viewers-targets now timeout nonces ((id, v) ∷ m) r same t =
        check_viewers-targets now timeout nonces m (check_viewer now timeout (nonces v) v r)
          (λ c. same c ∙ sym (check_viewer-authenticated now timeout (nonces v) v r c))
          (check_viewer-targets now timeout (nonces v) v r (same v) t)

  pub check_viewers-authenticated :
      (now timeout : ℕ) (nonces : ℕ → Option String) (m : Map ℕ) (r : Round) (c : ℕ)
      → ((check_viewers now timeout nonces m r).conns c).authenticated ≡ (r.conns c).authenticated
  unfolding check_viewers
  check_viewers-authenticated now timeout nonces [] r c = refl
  check_viewers-authenticated now timeout nonces ((id, v) ∷ m) r c =
      check_viewers-authenticated now timeout nonces m _ c
      ∙ check_viewer-authenticated now timeout (nonces v) v r c

  pub tick-Discreet :
      (now configured : ℕ) (nonces : ℕ → Option String) (w : World)
      → w.session.host ≡ some h
      → Discreet h (check_viewer_health now configured nonces w)
  unfolding check_viewer_health
  tick-Discreet now configured nonces w e =
      let timeout = if eqb configured 0 then health_ping_timeout else configured in
      let start : Round = record { conns = w.conns; targets = []; changed = false } in
      let r = check_viewers now timeout nonces w.session.viewers start in
      All-append _ _ _
        (check_viewers-targets r.conns now timeout nonces w.session.viewers start
          (check_viewers-authenticated now timeout nonces w.session.viewers start) tt)
        (told r.conns _ r.changed (presence-All h (record w { conns = r.conns }) e))
    where
      told :
          (conns : ℕ → Connection) (x : List Event) (b : Bool)
          → All (Permitted h conns) x
          → All (Permitted h conns) (if b then x else [])
      told conns x true p = p
      told conns x false p = tt
