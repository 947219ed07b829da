-- ===== src/Relay/Registry/Apart.antt =====
-- Sessions side by side on one server: what happens in one does not reach another. `owner` says to
-- which session a connection belongs.
use mathlib.Core.Path.{subst}
use getsloth.Base.{
  ℕ, String, Bool, true, false, Option, none, some, List, [], ◌∷◌, ◌≡◌, ◌≢◌, refl, sym, ◌∙◌, arith,
  All, All-append, update, Option-cases, Bool-cases, eqb, inl, inr,
}
use getsloth.Protocol.{close_bad_request}
use getsloth.Relay.Connection.{Connection, new_connection}
use getsloth.Relay.Session.{World, Event, close, new_session}
use getsloth.Relay.Server.{Decoder}
use getsloth.Relay.Server.Steps.{Env, Input, step, handle_host_join}
use getsloth.Relay.Server.Apart.{Owns, target, ToMine}
use getsloth.Relay.Server.Apart.Auth.{update-Spares}
use getsloth.Relay.Server.Apart.Run.{Local, step-Contained}
use getsloth.Relay.Registry.{
  Server, Arrival, get_session, world_of, with_world, remove_session, accept_host, step_inside,
  accept_viewer, leave_host, serve_one, serve_all, session_unknown,
}

module _ (owner : ℕ → ℕ) where
  abbrev pub Of : ℕ → ℕ → Type 0
  Of ptr c = owner c ≡ ptr

  -- Every session keeps only connections of its own.
  abbrev pub Sorted : Server → Type 0
  Sorted srv = (ptr : ℕ) → Owns (Of ptr) (srv.sessions ptr)

  -- The session that an arrival is for.
  abbrev pub place : {Raw : Type 0} → Arrival Raw → ℕ
  place (Arrival.host_connects conn ptr writes) = ptr
  place (Arrival.viewer_connects session_id conn) = owner conn
  place (Arrival.inside ptr i) = ptr
  place (Arrival.host_gone session_id ptr) = ptr

  -- Only the session `ptr` and its connections change, and only they are written to.
  abbrev pub Within : ℕ → Server → Server × List Event → Type 0
  Within ptr srv r =
      ((q : ℕ) → q ≢ ptr → r.0.sessions q ≡ srv.sessions q)
      × ((c : ℕ) → owner c ≢ ptr → r.0.conns c ≡ srv.conns c)
      × ToMine (Of ptr) r.1
      × Sorted r.0

  module _ {Raw : Type 0} (d : Decoder Raw) where
    -- The arrival's connection belongs to the session that it is for.
    abbrev pub Placed : Arrival Raw → Server → Type 0
    Placed (Arrival.host_connects conn ptr writes) srv = owner conn ≡ ptr
    Placed (Arrival.viewer_connects session_id conn) srv =
        (ptr : ℕ) → get_session session_id srv ≡ some ptr → owner conn ≡ ptr
    Placed (Arrival.inside ptr i) srv = Local d (Of ptr) i
    Placed (Arrival.host_gone session_id ptr) srv = Unit {0}

    abbrev pub AllPlaced : List (Env × Arrival Raw) → Server → Type 0
    AllPlaced [] srv = Unit {0}
    AllPlaced ((e, a) ∷ later) srv = Placed a srv × AllPlaced later (serve_one d e a srv).0

    -- A session of the server replaced by one that owns its connections.
    with_world-Sorted :
        (ptr : ℕ) (w : World) (srv : Server)
        → Owns (Of ptr) w.session
        → Sorted srv
        → Sorted (with_world ptr w srv)
    with_world-Sorted ptr w srv o s q = elim (Bool-cases (eqb q ptr)) [
      | inl e ↦ rw e (subst (λ i. Owns (Of i) w.session) (ground arith) o)
      | inr e ↦ rw e (s q)
    ]

    inside-Within :
        (e : Env) (ptr : ℕ) (i : Input Raw) (srv : Server)
        → Local d (Of ptr) i
        → Sorted srv
        → Within ptr srv (step_inside d e ptr i srv)
    unfolding step_inside
    inside-Within e ptr i srv local s =
        let c = step-Contained d (Of ptr) e i (world_of ptr srv) local (s ptr) in
        (
          (λ q ne. ground arith),
          c.1,
          c.0,
          with_world-Sorted ptr (step d e i (world_of ptr srv)).0 srv c.2 s,
        )

    spared :
        (conn c ptr : ℕ) (new : Connection) (conns : ℕ → Connection)
        → owner conn ≡ ptr
        → owner c ≢ ptr
        → update conns conn new c ≡ conns c
    spared conn c ptr new conns own other = update-Spares (Of ptr) conn c new conns own other

    -- A connection that is refused.
    refused-Within :
        (conn ptr : ℕ) (new : Connection) (out : List Event) (srv : Server)
        → owner conn ≡ ptr
        → ToMine (Of ptr) out
        → Sorted srv
        → Within ptr srv (record srv { conns = update srv.conns conn new }, out)
    refused-Within conn ptr new out srv own to s =
        ((λ q _. refl), (λ c other. spared conn c ptr new srv.conns own other), to, s)

    host-Within :
        (random : Option String) (conn ptr : ℕ) (writes : Bool) (srv : Server)
        → owner conn ≡ ptr
        → Sorted srv
        → Within ptr srv (accept_host random conn ptr writes srv)
    unfolding accept_host remove_session handle_host_join new_session
    host-Within none conn ptr writes srv own s =
        refused-Within conn ptr (new_connection "host" "host")
          (close conn close_bad_request "could not create session" ∷ []) srv own (own, tt) s
    host-Within (some id) conn ptr writes srv own s = joined writes
      where
        w : World
        w = (handle_host_join conn id (world_of ptr srv)).0

        sorted : Sorted (with_world ptr w srv)
        sorted = with_world-Sorted ptr w srv (own, tt, tt) s

        joined : (b : Bool) → Within ptr srv (accept_host (some id) conn ptr b srv)
        joined true = (
          (λ q ne. ground arith),
          (λ c other. spared conn c ptr (new_connection "host" "host") srv.conns own other),
          (own, tt),
          sorted,
        )
        joined false = (
          (λ q ne. ground arith),
          (λ c other. spared conn c ptr (new_connection "host" "host") srv.conns own other),
          tt,
          sorted,
        )

    viewer-Within :
        (e : Env) (session_id : String) (conn : ℕ) (srv : Server)
        → Placed (Arrival.viewer_connects session_id conn) srv
        → Sorted srv
        → Within (owner conn) srv (accept_viewer d e session_id conn srv)
    unfolding accept_viewer
    viewer-Within e session_id conn srv placed s =
        elim (Option-cases (get_session session_id srv)) [
          | inl f ↦
              rw (f, accept_viewer)
                (refused-Within conn (owner conn) (new_connection "" "viewer")
                  (session_unknown conn) srv refl (refl, (refl, tt)) s)
          | inr (ptr, f) ↦ elim (Option-cases e.random) [
            | inl g ↦
                rw (f, g, accept_viewer)
                  (refused-Within conn (owner conn) (new_connection "" "viewer")
                    (close conn close_bad_request "internal error" ∷ []) srv refl (refl, tt) s)
            | inr (viewer_id, g) ↦
                rw (f, g, accept_viewer)
                  (subst
                    (λ p.
                      Within (owner conn) srv
                        (step_inside d e p (Input.viewer_joins conn viewer_id) srv))
                    (placed ptr f)
                    (inside-Within e (owner conn) (Input.viewer_joins conn viewer_id) srv refl s))
          ]
        ]

    pub serve_one-Within :
        (e : Env) (a : Arrival Raw) (srv : Server)
        → Placed a srv
        → Sorted srv
        → Within (place a) srv (serve_one d e a srv)
    unfolding serve_one leave_host remove_session
    serve_one-Within e (Arrival.host_connects conn ptr writes) srv placed s =
        host-Within e.random conn ptr writes srv placed s
    serve_one-Within e (Arrival.viewer_connects session_id conn) srv placed s =
        viewer-Within e session_id conn srv placed s
    serve_one-Within e (Arrival.inside ptr i) srv placed s = inside-Within e ptr i srv placed s
    serve_one-Within e (Arrival.host_gone session_id ptr) srv placed s =
        inside-Within e ptr Input.host_leaves srv tt s

    elsewhere :
        (ptr at : ℕ) (out : List Event)
        → at ≢ ptr
        → ToMine (Of at) out
        → All (λ e. owner (target e) ≢ ptr) out
    elsewhere ptr at [] ne to = tt
    elsewhere ptr at (e ∷ out) ne to = ((λ f. ne (sym to.0 ∙ f)), elsewhere ptr at out ne to.1)

    -- Sessions do not reach each other. While everything that arrives is for other sessions than
    -- `ptr`, and each connection is used in the session that it belongs to, the session and all its
    -- connections stay as they are and nothing is written to any of them; and every session still
    -- keeps only connections of its own.
    pub sessions_apart :
        (ptr : ℕ) (later : List (Env × Arrival Raw)) (srv : Server)
        → AllPlaced later srv
        → Sorted srv
        → All (λ ea. place ea.1 ≢ ptr) later
        → let (srv', out) = serve_all d later srv in
          (srv'.sessions ptr ≡ srv.sessions ptr)
          × ((c : ℕ) → owner c ≡ ptr → srv'.conns c ≡ srv.conns c)
          × All (λ e. owner (target e) ≢ ptr) out
          × Sorted srv'
    unfolding serve_all
    sessions_apart ptr [] srv placed s others = (refl, (λ c _. refl), tt, s)
    sessions_apart ptr ((e, a) ∷ later) srv placed s others =
        let one = serve_one-Within e a srv placed.0 s in
        let rest = sessions_apart ptr later (serve_one d e a srv).0 placed.1 one.3 others.1 in
        (
          rest.0 ∙ one.0 ptr (λ f. others.0 (sym f)),
          (λ c own. rest.1 c own ∙ one.1 c (λ f. others.0 (sym f ∙ own))),
          All-append _ _ _ (elsewhere ptr (place a) _ others.0 one.2) rest.2,
          rest.3,
        )
