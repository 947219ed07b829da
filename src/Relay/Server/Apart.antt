-- ===== src/Relay/Server/Apart.antt =====
-- What one session can reach: `Mine` says which connections belong to it, and a reply is contained
-- if it writes to those alone and leaves every other connection as it was.
pub mod Handlers
pub mod Auth
pub mod Probes
pub mod Run
use getsloth.Base.{
  ℕ, String, Bool, true, false, Option, none, some, List, [], ◌∷◌, ◌++◌, ◌≡◌, refl, ◌∙◌, arith, map,
  All, All-append, All-map_of, if◌then◌else◌, Map, values, insert, delete, All-insert, All-delete,
}
use getsloth.Protocol.{Msg}
use getsloth.Relay.Connection.{Connection}
use getsloth.Relay.Session.{
  World, Session, PendingAuth, Event, send, close, Reply, with_session, to_all, to_host,
  authenticated_viewers, live_viewers, farewell,
}
use getsloth.Relay.Presence.{broadcast_presence}
use getsloth.Relay.KillSwitch.{kick}

-- The connection that an event is written to.
abbrev pub target : Event → ℕ
target (send c m) = c
target (close c code reason) = c

module _ (Mine : ℕ → Type 0) where
  abbrev pub HostMine : Option ℕ → Type 0
  HostMine none = Unit {0}
  HostMine (some c) = Mine c

  -- The connections that a session keeps are its own.
  abbrev pub Owns : Session → Type 0
  Owns s = HostMine s.host × All (λ e. Mine e.1) s.viewers × All (λ e. Mine e.1.conn) s.pending_auth

  abbrev pub ToMine : List Event → Type 0
  ToMine = All (λ e. Mine (target e))

  -- Nobody else's connection changes.
  abbrev pub Spares : World → World → Type 0
  Spares w w' = (c : ℕ) → ¬ Mine c → w'.conns c ≡ w.conns c

  abbrev pub Contained : World → Reply → Type 0
  Contained w r = ToMine r.1 × Spares w r.0 × Owns r.0.session

  pub if-Contained :
      (w : World) (b : Bool) (x y : Reply)
      → Contained w x
      → Contained w y
      → Contained w (if b then x else y)
  if-Contained w true x y p q = p
  if-Contained w false x y p q = q

  pub if-ToMine : (b : Bool) (x y : List Event) → ToMine x → ToMine y → ToMine (if b then x else y)
  if-ToMine true x y p q = p
  if-ToMine false x y p q = q

  pub values-Mine : (m : Map ℕ) → All (λ e. Mine e.1) m → All Mine (values m)
  values-Mine [] p = tt
  values-Mine ((k, c) ∷ m) p = (p.0, values-Mine m p.1)

  viewers-Mine :
      (conns : ℕ → Connection) (m : Map ℕ)
      → All (λ e. Mine e.1) m
      → All Mine (authenticated_viewers conns m)
  unfolding authenticated_viewers
  viewers-Mine conns [] p = tt
  viewers-Mine conns ((k, c) ∷ m) p = kept (conns c).authenticated (viewers-Mine conns m p.1)
    where
      kept :
          (b : Bool)
          → All Mine (authenticated_viewers conns m)
          → All Mine
              (if b then c ∷ authenticated_viewers conns m else authenticated_viewers conns m)
      kept true q = (p.0, q)
      kept false q = q

  to_all-ToMine : (m : Msg) (cs : List ℕ) → All Mine cs → ToMine (to_all m cs)
  to_all-ToMine m [] p = tt
  to_all-ToMine m (c ∷ cs) p = (p.0, to_all-ToMine m cs p.1)

  pub live-ToMine : (m : Msg) (w : World) → Owns w.session → ToMine (to_all m (live_viewers w))
  live-ToMine m w o = to_all-ToMine m (live_viewers w) (viewers-Mine w.conns w.session.viewers o.1)

  pub to_host-ToMine : (m : Msg) (o : Option ℕ) → HostMine o → ToMine (to_host m o)
  to_host-ToMine m none p = tt
  to_host-ToMine m (some h) p = (p, tt)

  -- A message to the host and to every participant.
  pub everyone-ToMine :
      (m : Msg) (w : World)
      → Owns w.session
      → ToMine (to_host m w.session.host ++ to_all m (live_viewers w))
  everyone-ToMine m w o = All-append _ _ _ (to_host-ToMine m w.session.host o.0) (live-ToMine m w o)

  pub presence-ToMine : (w : World) → Owns w.session → ToMine (broadcast_presence w)
  unfolding broadcast_presence
  presence-ToMine w o = everyone-ToMine _ w o

  pub farewell-ToMine : (reason : String) (cs : List ℕ) → All Mine cs → ToMine (farewell reason cs)
  farewell-ToMine reason [] p = tt
  farewell-ToMine reason (c ∷ cs) p = (p.0, (p.0, farewell-ToMine reason cs p.1))

  pub kick-ToMine : (cs : List ℕ) → All Mine cs → ToMine (kick cs)
  kick-ToMine [] p = tt
  kick-ToMine (c ∷ cs) p = (p.0, (p.0, kick-ToMine cs p.1))
