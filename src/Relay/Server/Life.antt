-- ===== src/Relay/Server/Life.antt =====
-- A session from its creation on: the invariants of the other modules hold of every session that a
-- host makes, without assuming any of them.
use getsloth.Base.{ℕ, String, List, ◌≢◌, refl, inl, arith, All}
use getsloth.Relay.Connection.{new_connection}
use getsloth.Relay.Session.{World, new_session, valid_terminal_size}
use getsloth.Relay.Server.{Decoder}
use getsloth.Relay.Server.Steps.{Env, Input, handle_host_join, run}
use getsloth.Relay.Server.Grid.{HasGrid, run-HasGrid}
use getsloth.Relay.Server.Roles.{IsViewer, Roles, Proper}
use getsloth.Relay.Server.Roles.Run.{run-Roles}
use getsloth.Relay.Server.Machine.{machine}
use getsloth.Relay.Server.Machine.Laws.{IsOwned, run-IsOwned}

module _ (h : ℕ) (session_id : String) (w : World) where
  abbrev pub created : World
  created = (handle_host_join h session_id w).0

  pub created-Roles : ((c : ℕ) → c ≢ h → IsViewer (w.conns c).id) → Roles h created
  unfolding handle_host_join new_session new_connection
  created-Roles fresh = record {
    host_is = refl;
    host_id = ground arith;
    others = λ c away. ground (arith, fresh c away);
    tokens = tt;
    pending = tt;
  }

  created-HasGrid : HasGrid created.session
  unfolding handle_host_join new_session valid_terminal_size
  created-HasGrid = record { current = refl; local = refl; known = inl refl }

  created-IsOwned : IsOwned (machine created.session)
  unfolding handle_host_join new_session
  created-IsOwned = record {
    by_role = λ _. refl;
    by_writer = λ _. refl;
    cols_own = λ _. refl;
    rows_own = λ _. refl;
  }

  -- A session that a host creates keeps its three invariants in every run in which new viewers get
  -- random ids and connections of their own: only the host is called `host`, the grids and the mode
  -- are valid, and the writer's role and grid agree with the writer.
  pub created_stays_sound :
      {Raw : Type 0} (d : Decoder Raw) (is : List (Env × Input Raw))
      → ((c : ℕ) → c ≢ h → IsViewer (w.conns c).id)
      → All (λ ei. Proper h ei.1) is
      → let w' = (run d is created).0 in
        Roles h w' × HasGrid w'.session × IsOwned (machine w'.session)
  created_stays_sound d is fresh proper = (
    run-Roles d h is created proper (created-Roles fresh),
    run-HasGrid d is created created-HasGrid,
    run-IsOwned d h is created proper (created-Roles fresh) created-IsOwned,
  )
