-- ===== src/Relay/Auth/Revoked.antt =====
-- What the kill switch takes away: the viewers, their tokens and the attempts that await a verdict.
use getsloth.Base.{
  ℕ, String, Bool, true, false, ◌||◌, Option, some, List, [], ◌∷◌, ◌++◌, ◌≡◌, refl, ap, ◌∙◌, none,
  arith, eqb, lookup, values,
}
use getsloth.Protocol.{AuthResponseMsg, Msg, auth_code_failed}
use getsloth.Relay.Session.{
  World, Event, send, close, to_all, to_host, live_viewers, authenticated_viewers,
}
use getsloth.Relay.Presence.{roster, broadcast_presence}
use getsloth.Relay.KillSwitch.{handle_kill_switch, kill_session, kick}
use getsloth.Relay.Auth.{handle_resume, handle_auth_response, auth_refused}

-- Whether a connection is closed by some of the events.
abbrev pub closes : ℕ → List Event → Bool
closes v [] = false
closes v (send c m ∷ es) = closes v es
closes v (close c code reason ∷ es) = eqb v c || closes v es

-- Whether a connection is one of some.
abbrev pub among : ℕ → List ℕ → Bool
among v [] = false
among v (c ∷ cs) = eqb v c || among v cs

closes-send : (v : ℕ) (m : Msg) (cs : List ℕ) → closes v (to_all m cs) ≡ false
closes-send v m [] = refl
closes-send v m (c ∷ cs) = closes-send v m cs

closes-host : (v : ℕ) (m : Msg) (host : Option ℕ) → closes v (to_host m host) ≡ false
closes-host v m none = refl
closes-host v m (some h) = refl

or_false : (b : Bool) → b || false ≡ b
or_false true = refl
or_false false = refl

closes-append : (v : ℕ) (es fs : List Event) → closes v (es ++ fs) ≡ closes v es || closes v fs
closes-append v [] fs = refl
closes-append v (send c m ∷ es) fs = closes-append v es fs
closes-append v (close c code reason ∷ es) fs = ground (arith, closes-append v es fs)

closes-presence : (v : ℕ) (w : World) → closes v (broadcast_presence w) ≡ false
unfolding broadcast_presence
closes-presence v w =
    closes-append v (to_host (Msg.presence (roster w)) w.session.host)
      (to_all (Msg.presence (roster w)) (live_viewers w))
    ∙ rw
        (
          closes-host v (Msg.presence (roster w)) w.session.host,
          closes-send v (Msg.presence (roster w)) (live_viewers w),
        )
        refl

closes-kick : (v : ℕ) (cs : List ℕ) → closes v (kick cs) ≡ among v cs
closes-kick v [] = refl
closes-kick v (c ∷ cs) = ap (λ b. eqb v c || b) (closes-kick v cs)

-- The kill switch closes exactly the connections of the viewers in the session's map of viewers, and
-- leaves nobody to broadcast to. Every other connection, also one of a viewer that an earlier resume
-- or disconnect took out of the map, stays open, and no connection loses its authentication. After it
-- no token is worth anything, whoever presents it, and a verdict of the host on an attempt from
-- before lets nobody in: each leaves the session as it is.
pub kill_switch_revokes :
    (w : World) (now conn v : ℕ) (token : String) (verdict : AuthResponseMsg)
    (random : Option String)
    → let (w', out) = handle_kill_switch w in
      (closes v out ≡ among v (values w.session.viewers))
      × (w'.conns ≡ w.conns)
      × (live_viewers w' ≡ [])
      × (handle_resume now conn (some token) w'
          ≡ (w', send conn (auth_refused auth_code_failed 0) ∷ []))
      × (handle_auth_response now verdict random w' ≡ (w', []))
unfolding handle_kill_switch kill_session handle_resume handle_auth_response lookup
    authenticated_viewers
kill_switch_revokes w now conn v token verdict random =
    let w' = (handle_kill_switch w).0 in
    (
      closes-append v (kick (values w.session.viewers)) (broadcast_presence w')
          ∙ rw (closes-kick v (values w.session.viewers), closes-presence v w')
              (or_false (among v (values w.session.viewers))),
      refl,
      refl,
      refl,
      refl,
    )
