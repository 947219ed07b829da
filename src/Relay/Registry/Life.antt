-- ===== src/Relay/Registry/Life.antt =====
-- When a session can be found by its id.
use getsloth.Base.{
  ℕ, String, Bool, true, false, Option, none, some, List, [], ◌∷◌, ◌≡◌, ◌≢◌, refl, ap, ◌∙◌, All,
  insert, lookup-insert_ne, lookup-delete_ne, lookup-delete_self, lookup-insert_self, Option-cases,
  inl, inr,
}
use getsloth.Relay.Server.{Decoder}
use getsloth.Relay.Server.Steps.{Env}
use getsloth.Relay.Registry.{
  Server, Arrival, get_session, remove_session, accept_host, step_inside, accept_viewer, leave_host,
  serve_one, serve_all, session_unknown,
}

-- The arrival neither creates a session with this id nor ends the one that has it.
abbrev pub LeavesAlone : {Raw : Type 0} → String → Env × Arrival Raw → Type 0
LeavesAlone id (e, Arrival.host_connects conn ptr writes) = e.random ≢ some id
LeavesAlone id (e, Arrival.host_gone session_id ptr) = session_id ≢ id
LeavesAlone id (e, _) = Unit {0}

module _ {Raw : Type 0} (d : Decoder Raw) (id : String) where
  accept_host-alone :
      (random : Option String) (conn ptr : ℕ) (writes : Bool) (srv : Server)
      → random ≢ some id
      → get_session id (accept_host random conn ptr writes srv).0 ≡ get_session id srv
  unfolding accept_host remove_session
  accept_host-alone none conn ptr writes srv other = refl
  accept_host-alone (some new) conn ptr true srv other =
      lookup-insert_ne new id ptr srv.registry (λ e. other (ap some e))
  accept_host-alone (some new) conn ptr false srv other =
      lookup-delete_ne new id (insert new ptr srv.registry) (λ e. other (ap some e))
      ∙ lookup-insert_ne new id ptr srv.registry (λ e. other (ap some e))

  serve_one-alone :
      (e : Env) (a : Arrival Raw) (srv : Server)
      → LeavesAlone id (e, a)
      → get_session id (serve_one d e a srv).0 ≡ get_session id srv
  unfolding serve_one step_inside leave_host remove_session accept_viewer
  serve_one-alone e (Arrival.host_connects conn ptr writes) srv alone =
      accept_host-alone e.random conn ptr writes srv alone
  serve_one-alone e (Arrival.viewer_connects session_id conn) srv alone =
      elim (Option-cases (get_session session_id srv)) [
        | inl f ↦ rw (f, accept_viewer) refl
        | inr (ptr, f) ↦ elim (Option-cases e.random) [
          | inl g ↦ rw (f, g, accept_viewer) refl
          | inr (viewer_id, g) ↦ rw (f, g, accept_viewer) refl
        ]
      ]
  serve_one-alone e (Arrival.inside ptr i) srv alone = refl
  serve_one-alone e (Arrival.host_gone session_id ptr) srv alone =
      lookup-delete_ne session_id id srv.registry alone

  serve_all-alone :
      (later : List (Env × Arrival Raw)) (srv : Server)
      → All (LeavesAlone id) later
      → get_session id (serve_all d later srv).0 ≡ get_session id srv
  unfolding serve_all
  serve_all-alone [] srv alone = refl
  serve_all-alone ((e, a) ∷ later) srv alone =
      serve_all-alone later (serve_one d e a srv).0 alone.1 ∙ serve_one-alone e a srv alone.0

  created_is_found :
      (e : Env) (conn ptr : ℕ) (later : List (Env × Arrival Raw)) (srv : Server)
      → e.random ≡ some id
      → All (LeavesAlone id) later
      → get_session id
          (serve_all d later (serve_one d e (Arrival.host_connects conn ptr true) srv).0).0
        ≡ some ptr
  unfolding serve_one accept_host
  created_is_found e conn ptr later srv named alone =
      serve_all-alone later _ alone
      ∙ ap (λ random. get_session id (accept_host random conn ptr true srv).0) named
      ∙ lookup-insert_self id ptr srv.registry

  gone_is_not_found :
      (e e' : Env) (ptr conn : ℕ) (later : List (Env × Arrival Raw)) (srv : Server)
      → All (LeavesAlone id) later
      → let srv' = (serve_all d later (serve_one d e (Arrival.host_gone id ptr) srv).0).0 in
        let (srv'', out) = serve_one d e' (Arrival.viewer_connects id conn) srv' in
        (out ≡ session_unknown conn) × (srv''.sessions ≡ srv'.sessions)
  unfolding serve_one leave_host remove_session accept_viewer
  gone_is_not_found e e' ptr conn later srv alone =
      let srv₁ = (serve_one d e (Arrival.host_gone id ptr) srv).0 in
      let absent : get_session id (serve_all d later srv₁).0 ≡ none =
        serve_all-alone later srv₁ alone ∙ lookup-delete_self id srv.registry in
      rw (absent, accept_viewer) (refl, refl)

  -- A session that a host creates is found by its id whatever else reaches the server, as long as
  -- its host stays and no other session gets the id. Once the host is gone it is never found again:
  -- a viewer that comes with the id is told so, its connection is closed, and no session changes.
  pub found_until_gone :
      (created gone visited : Env) (host_conn ptr conn : ℕ)
      (before after : List (Env × Arrival Raw)) (srv : Server)
      → created.random ≡ some id
      → All (LeavesAlone id) before
      → All (LeavesAlone id) after
      → let opened =
          (serve_all d before
            (serve_one d created (Arrival.host_connects host_conn ptr true) srv).0).0 in
        let ended = (serve_all d after (serve_one d gone (Arrival.host_gone id ptr) opened).0).0 in
        let (final, out) = serve_one d visited (Arrival.viewer_connects id conn) ended in
        (get_session id opened ≡ some ptr)
        × (out ≡ session_unknown conn)
        × (final.sessions ≡ ended.sessions)
  found_until_gone created gone visited host_conn ptr conn before after srv named alone alone' =
      let opened =
        (serve_all d before
          (serve_one d created (Arrival.host_connects host_conn ptr true) srv).0).0 in
      let unknown = gone_is_not_found gone visited ptr conn after opened alone' in
      (created_is_found created host_conn ptr before srv named alone, unknown.0, unknown.1)
