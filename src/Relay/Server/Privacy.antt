-- ===== src/Relay/Server/Privacy.antt =====
-- Who may be sent what: a connection that has not authenticated sees no terminal output, chat,
-- roster, control or grid message, and no message for the host.
pub mod Handlers
pub mod Auth
pub mod Probes
pub mod Run
use getsloth.Base.{
  ℕ, String, Bool, true, false, Option, none, some, List, [], ◌∷◌, ◌++◌, map, ◌≡◌, ◌⊎◌, inl, inr,
  refl, All, All-append, if◌then◌else◌, Map, Bool-cases,
}
use getsloth.Protocol.{Msg}
use getsloth.Relay.Connection.{Connection}
use getsloth.Relay.Session.{
  World, Event, send, close, to_all, to_host, authenticated_viewers, live_viewers, farewell,
}
use getsloth.Relay.Presence.{roster, broadcast_presence}
use getsloth.Relay.Control.{announce_control}
use getsloth.Relay.KillSwitch.{kick}

-- The replies to a stranger, and the notices that a connection is closed.
abbrev pub Public : Msg → Type 0
Public (Msg.error code message) = Unit {0}
Public (Msg.auth_result r) = Unit {0}
Public (Msg.session_ended reason) = Unit {0}
Public (Msg.kicked reason) = Unit {0}
Public _ = ⊥

-- What every participant sees.
abbrev pub Shared : Msg → Type 0
Shared (Msg.output chunk) = Unit {0}
Shared (Msg.terminal_size cols rows) = Unit {0}
Shared (Msg.ping nonce) = Unit {0}
Shared (Msg.control_changed m) = Unit {0}
Shared (Msg.chat_message m) = Unit {0}
Shared (Msg.presence roster) = Unit {0}
Shared _ = ⊥

-- In the world after the step, the message may go to this connection.
abbrev pub Permitted : ℕ → (ℕ → Connection) → Event → Type 0
Permitted h conns (send c m) = Public m ⊎ (c ≡ h) ⊎ (Shared m × ((conns c).authenticated ≡ true))
Permitted h conns (close c code reason) = Unit {0}

authenticated_viewers-All :
    (conns : ℕ → Connection) (m : Map ℕ)
    → All (λ c. (conns c).authenticated ≡ true) (authenticated_viewers conns m)
unfolding authenticated_viewers
authenticated_viewers-All conns [] = tt
authenticated_viewers-All conns ((id, c) ∷ m) = elim (Bool-cases (conns c).authenticated) [
  | inl e ↦ rw (e, authenticated_viewers) (e, authenticated_viewers-All conns m)
  | inr e ↦ rw (e, authenticated_viewers) (authenticated_viewers-All conns m)
]

module _ (h : ℕ) (conns : ℕ → Connection) where
  sent_to-All :
      (m : Msg) (cs : List ℕ)
      → Shared m
      → All (λ c. (conns c).authenticated ≡ true) cs
      → All (Permitted h conns) (to_all m cs)
  sent_to-All m [] s a = tt
  sent_to-All m (c ∷ cs) s a = (inr (inr (s, a.0)), sent_to-All m cs s a.1)

  pub to_live :
      (m : Msg)
      → Shared m
      → (v : Map ℕ) → All (Permitted h conns) (to_all m (authenticated_viewers conns v))
  to_live m s v = sent_to-All m _ s (authenticated_viewers-All conns v)

  pub host_sent : (m : Msg) (o : Option ℕ) → o ≡ some h → All (Permitted h conns) (to_host m o)
  host_sent m none e = tt
  host_sent m (some c) e = (inr (inl (cc)), tt)

  pub farewell-All : (reason : String) (cs : List ℕ) → All (Permitted h conns) (farewell reason cs)
  farewell-All reason [] = tt
  farewell-All reason (c ∷ cs) = (inl tt, (tt, farewell-All reason cs))

  pub kick-All : (cs : List ℕ) → All (Permitted h conns) (kick cs)
  kick-All [] = tt
  kick-All (c ∷ cs) = (inl tt, (tt, kick-All cs))

pub presence-All :
    (h : ℕ) (w : World) → w.session.host ≡ some h → All (Permitted h w.conns) (broadcast_presence w)
unfolding broadcast_presence
presence-All h w e =
    All-append _ _ _ (host_sent h w.conns _ w.session.host e)
      (to_live h w.conns _ tt w.session.viewers)

pub announce-All :
    (h : ℕ) (w : World) → w.session.host ≡ some h → All (Permitted h w.conns) (announce_control w)
announce-All h w e =
    All-append _ _ _ (host_sent h w.conns _ w.session.host e)
      (to_live h w.conns _ tt w.session.viewers)
