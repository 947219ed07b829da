-- ===== src/Tests/Runs.antt =====
-- Sessions in which a viewer joins, authenticates, takes control, types and leaves.
use getsloth.Base.{
  some, ℕ, ◌≤◌, String, Bool, true, get_or, ap, List, [], ◌∷◌, ◌++◌, map, length, ◌≡◌, ◌≢◌, ◌⊎◌,
  inl, inr, refl, arith, lookup, All, Bool-cases, eqb,
}
use getsloth.Protocol.{Msg, AuthResultMsg, session_mode_remote, session_mode_group}
use getsloth.Relay.Connection.{new_connection}
use getsloth.Relay.Session.{
  World, Event, broadcast_output, auth_result_of, send, new_session, valid_terminal_size,
  max_output_backlog_chunks,
}
use getsloth.Relay.Presence.{broadcast_presence}
use getsloth.Relay.Control.{
  handle_viewer_disconnect, disconnect_session, reserve_identity, expire_tokens,
}
use getsloth.Relay.Auth.{
  admit, handle_auth_response, handle_resume, token_expired, adopt, take_slot,
}
use getsloth.Relay.Server.{handle_host_message, dispatch_host}
use getsloth.Relay.Server.Steps.{Env, Input, viewer_sends, viewer_leaves, host_sends, step, run}
use getsloth.Relay.Server.Grid.{HasGrid, grid_bounds}
use getsloth.Relay.Server.Roles.{IsViewer, Roles, Proper}
use getsloth.Relay.Server.Machine.{machine, Move, Configured}
use getsloth.Relay.Server.Machine.Refines.{IsConfig, step-Move}
use getsloth.Relay.Server.Machine.Laws.{IsOwned, group_host_writes, host_keeps_control}
use getsloth.Relay.Server.Privacy.{Permitted}
use getsloth.Relay.Server.Privacy.Run.{step-Discreet}
use getsloth.Relay.Server.Life.{created, created_stays_sound}
use getsloth.Relay.Server.Backlog.{recent}
use getsloth.Relay.Server.Backlog.Run.{Logged}
use getsloth.Relay.Server.Backlog.Entrance.{Entrance, enter, viewer_catches_up}
use getsloth.Relay.Server.Admission.{Admitted, step-Admitted}
use getsloth.Tests.{
  Frame, frame, frames, open_session, open_world, world_of, waiting_world, peers, at_time, apart,
}

abbrev pub visit : List (Env × Input Frame)
visit =
    (at_time 20000000000, viewer_sends 1 "a" (frame "take_control" ""))
    ∷ (at_time 20000000001, viewer_sends 1 "a" (frame "input" "bHM="))
    ∷ (at_time 20000000002, host_sends (frame "output" "aGk="))
    ∷ (at_time 20000000003, host_sends (frame "take_control" ""))
    ∷ (at_time 20000000004, viewer_sends 2 "b" (frame "take_control" ""))
    ∷ (at_time 20000000005, viewer_leaves 1)
    ∷ []

pub visit-Proper : All (λ ei. Proper 0 ei.1) visit
visit-Proper = (
  (λ e. ground arith),
  ((λ e. ground arith), (tt, (tt, ((λ e. ground arith), ((λ e. ground arith), tt))))),
)

peers-IsViewer : (joined : Bool) (c : ℕ) → c ≢ 0 → IsViewer (peers joined c).id
unfolding new_connection
peers-IsViewer joined c away = elim (Bool-cases (eqb c 0)) [
  | inl e ↦ absurd (away (ground arith))
  | inr e ↦ elim (Bool-cases (eqb c 1)) [
    | inl f ↦ rw (e, f) (apart "v1" "host" refl)
    | inr f ↦ rw (e, f) (apart "v2" "host" refl)
  ]
]

pub open_world-Roles : Roles 0 open_world
unfolding new_session new_connection
open_world-Roles = record {
  host_is = refl;
  host_id = refl;
  others = peers-IsViewer true;
  tokens = (apart "v1" "host" refl, tt);
  pending = tt;
}

abbrev group_world : World
group_world = world_of (record open_session { mode = session_mode_group })

group_world-Roles : Roles 0 group_world
unfolding new_session new_connection
group_world-Roles = record {
  host_is = refl;
  host_id = refl;
  others = peers-IsViewer true;
  tokens = (apart "v1" "host" refl, tt);
  pending = tt;
}

abbrev reclaimed_world : World
reclaimed_world = world_of (record open_session { last_host_reclaim = 20000000000 })

reclaimed_world-Roles : Roles 0 reclaimed_world
unfolding new_session new_connection
reclaimed_world-Roles = record {
  host_is = refl;
  host_id = refl;
  others = peers-IsViewer true;
  tokens = (apart "v1" "host" refl, tt);
  pending = tt;
}

open_world-HasGrid : HasGrid open_world.session
unfolding new_session valid_terminal_size
open_world-HasGrid = record { current = refl; local = refl; known = inl refl }

step-Move_example :
    let i = viewer_sends 1 "a" (frame "take_control" "") in
    Move 20000000000
      (machine open_session)
      (machine (step frames (at_time 20000000000) i open_world).0.session)
    ⊎ (IsConfig frames 0 i
        × Configured
            (machine open_session)
            (machine (step frames (at_time 20000000000) i open_world).0.session))
step-Move_example =
    step-Move frames 0 (at_time 20000000000) (viewer_sends 1 "a" (frame "take_control" ""))
      open_world (λ e. ground arith) open_world-Roles

group_host_writes_example : (run frames visit group_world).0.session.active_writer_id ≡ "host"
unfolding new_session
group_host_writes_example =
    group_host_writes frames 0 visit group_world visit-Proper
      (
        (λ e. e),
        (
          (λ e. e),
          (
            (λ e. apart "output" "session_config" refl (ap (λ o. get_or o "") e)),
            (
              (λ e. apart "take_control" "session_config" refl (ap (λ o. get_or o "") e)),
              ((λ e. e), ((λ e. e), tt)),
            ),
          ),
        ),
      )
      group_world-Roles refl refl

host_keeps_control_example : (run frames visit reclaimed_world).0.session.active_writer_id ≡ "host"
unfolding new_session
host_keeps_control_example =
    host_keeps_control frames 0 20000000000 visit reclaimed_world visit-Proper
      (
        (omega arith, omega arith),
        (
          (omega arith, omega arith),
          (
            (omega arith, omega arith),
            (
              (omega arith, omega arith),
              ((omega arith, omega arith), ((omega arith, omega arith), tt)),
            ),
          ),
        ),
      )
      reclaimed_world-Roles refl (omega arith)

step-Discreet_example :
    let r = step frames (at_time 5) (host_sends (frame "output" "aGk=")) open_world in
    All (Permitted 0 r.0.conns) r.1
unfolding new_session
step-Discreet_example =
    step-Discreet frames 0 (at_time 5) (host_sends (frame "output" "aGk=")) open_world refl

step-Admitted_example :
    Admitted frames (at_time 5) waiting_world 1 (host_sends (frame "auth_response" "r1"))
unfolding new_session new_connection lookup step handle_host_message handle_auth_response
step-Admitted_example =
    step-Admitted frames (at_time 5) (host_sends (frame "auth_response" "r1")) waiting_world 1 refl
      refl

pub peers-fresh : (c : ℕ) → c ≢ 0 → IsViewer (open_world.conns c).id
peers-fresh = peers-IsViewer true

created_stays_sound_example :
    let w' = (run frames visit (created 0 "s" open_world)).0 in
    Roles 0 w' × HasGrid w'.session × IsOwned (machine w'.session)
created_stays_sound_example =
    created_stays_sound 0 "s" open_world frames visit peers-fresh visit-Proper

abbrev shown : List (Env × Input Frame)
shown =
    (at_time 1, host_sends (frame "output" "aGk="))
    ∷ (at_time 2, viewer_leaves 2)
    ∷ (at_time 3, host_sends (frame "output" "bHM="))
    ∷ []

abbrev shown_world : World
shown_world = (run frames shown open_world).0

-- What the result says to a viewer that resumes.
abbrev welcome : AuthResultMsg
welcome = record {
  accepted = true;
  token = "t1";
  connection_id = "v1";
  code = "";
  retry_after_ms = 0;
  mode = "remote";
  cols = 80;
  rows = 24;
  active_writer_id = "host";
  active_writer_role = "host";
}

abbrev after_welcome : List Event → List Event
after_welcome [] = []
after_welcome (e ∷ es) = es

viewer_catches_up_example :
    let r = enter 9 (Entrance.resume 1 (some "t1")) shown_world in
    (log : List String) × Logged frames shown open_world [] log
    × (after_welcome r.1
        ≡ map (λ chunk. send 1 (Msg.output chunk)) (recent log) ++ broadcast_presence r.0)
    × (length (recent log) ≤ max_output_backlog_chunks)
unfolding run step new_session handle_resume admit token_expired adopt take_slot new_connection
    handle_host_message dispatch_host broadcast_output handle_viewer_disconnect disconnect_session
    reserve_identity expire_tokens auth_result_of lookup
viewer_catches_up_example =
    viewer_catches_up frames shown open_world 9 (Entrance.resume 1 (some "t1")) 1 welcome
      (after_welcome (enter 9 (Entrance.resume 1 (some "t1")) shown_world).1) refl refl refl

grid_bounds_example :
    let s = (run frames visit open_world).0.session in
    ((2 ≤ s.cols) × (s.cols ≤ 1000) × (2 ≤ s.rows) × (s.rows ≤ 500))
    × ((2 ≤ s.host_cols) × (s.host_cols ≤ 1000) × (2 ≤ s.host_rows) × (s.host_rows ≤ 500))
    × ((s.mode ≡ session_mode_remote) ⊎ (s.mode ≡ session_mode_group))
grid_bounds_example = grid_bounds frames visit open_world open_world-HasGrid
