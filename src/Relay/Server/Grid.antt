-- ===== src/Relay/Server/Grid.antt =====
-- The canonical grid and the mode stay well formed over every run.
use getsloth.Base.{
  ℕ, ◌≤◌, String, true, Option, none, some, List, [], ◌∷◌, ◌≡◌, ◌⊎◌, inl, refl, arith, eq_iff,
}
use getsloth.Protocol.{
  AuthMsg, AuthResponseMsg, GridMsg, SessionConfigMsg, session_mode_remote, session_mode_group,
}
use getsloth.Relay.Session.{
  World, Session, Reply, new_session, configure, valid_terminal_size, add_viewer, teardown,
  broadcast_output,
}
use getsloth.Relay.Control.{
  handle_take_control, handle_resize, handle_host_size, handle_viewer_disconnect,
}
use getsloth.Relay.KillSwitch.{handle_kill_switch}
use getsloth.Relay.Auth.{handle_auth_attempt, handle_auth_response, handle_resume}
use getsloth.Relay.Probes.{check_viewer_health, handle_pong}
use getsloth.Relay.Server.{Decoder, handle_viewer_message, handle_host_message}
use getsloth.Relay.Server.Cases.{viewer_message_cases, host_message_cases}
use getsloth.Relay.Server.Steps.{Env, Input, handle_viewer_join, handle_host_leave, step, run}

pub record HasGrid (s : Session) : Type 0 where
  pub current : valid_terminal_size s.cols s.rows ≡ true
  pub local : valid_terminal_size s.host_cols s.host_rows ≡ true
  pub known : (s.mode ≡ session_mode_remote) ⊎ (s.mode ≡ session_mode_group)

new_session-HasGrid : (id : String) → HasGrid (new_session id)
unfolding new_session valid_terminal_size
new_session-HasGrid id = record { current = refl; local = refl; known = inl refl }

configure-HasGrid : (m : SessionConfigMsg) (s : Session) → HasGrid s → HasGrid (configure m s).0
unfolding configure
configure-HasGrid m s h =
    ground (arith, eq_iff m.mode session_mode_remote, eq_iff m.mode session_mode_group)

take_control-HasGrid :
    (now conn : ℕ) (m : GridMsg) (w : World)
    → HasGrid w.session
    → HasGrid (handle_take_control now conn m w).0.session
unfolding handle_take_control
take_control-HasGrid now conn m w h = ground arith

resize-HasGrid :
    (conn : ℕ) (m : Option GridMsg) (w : World)
    → HasGrid w.session
    → HasGrid (handle_resize conn m w).0.session
unfolding handle_resize
resize-HasGrid conn none w h = h
resize-HasGrid conn (some m) w h = ground arith

host_size-HasGrid :
    (m : GridMsg) (w : World) → HasGrid w.session → HasGrid (handle_host_size m w).0.session
unfolding handle_host_size
host_size-HasGrid m w h = ground arith

disconnect-HasGrid :
    (now conn : ℕ) (w : World)
    → HasGrid w.session
    → HasGrid (handle_viewer_disconnect now conn w).0.session
unfolding handle_viewer_disconnect
disconnect-HasGrid now conn w h = ground arith

kill-HasGrid : (w : World) → HasGrid w.session → HasGrid (handle_kill_switch w).0.session
unfolding handle_kill_switch
kill-HasGrid w h = ground arith

auth_attempt-HasGrid :
    (now conn : ℕ) (addr : String) (m : Option AuthMsg) (r : Option String) (w : World)
    → HasGrid w.session
    → HasGrid (handle_auth_attempt now conn addr m r w).0.session
unfolding handle_auth_attempt
auth_attempt-HasGrid now conn addr none r w h = ground arith
auth_attempt-HasGrid now conn addr (some m) none w h = ground arith
auth_attempt-HasGrid now conn addr (some m) (some r) w h = ground arith

auth_response-HasGrid :
    (now : ℕ) (m : AuthResponseMsg) (r : Option String) (w : World)
    → HasGrid w.session
    → HasGrid (handle_auth_response now m r w).0.session
unfolding handle_auth_response
auth_response-HasGrid now m r w h = ground arith

resume-HasGrid :
    (now conn : ℕ) (m : Option String) (w : World)
    → HasGrid w.session
    → HasGrid (handle_resume now conn m w).0.session
unfolding handle_resume
resume-HasGrid now conn m w h = ground arith

pong-HasGrid :
    (now conn : ℕ) (m : Option String) (w : World)
    → HasGrid w.session
    → HasGrid (handle_pong now conn m w).0.session
unfolding handle_pong
pong-HasGrid now conn none w h = h
pong-HasGrid now conn (some nonce) w h = ground arith

size_bounds :
    (cols rows : ℕ)
    → valid_terminal_size cols rows ≡ true
    → (2 ≤ cols) × (cols ≤ 1000) × (2 ≤ rows) × (rows ≤ 500)
unfolding valid_terminal_size
size_bounds cols rows h = ground arith

module _ {Raw : Type 0} (d : Decoder Raw) where
  abbrev Keeps : Reply → Type 0
  Keeps r = HasGrid r.0.session

  viewer_message-HasGrid :
      (now : ℕ) (random : Option String) (conn : ℕ) (addr : String) (raw : Raw) (w : World)
      → HasGrid w.session
      → HasGrid (handle_viewer_message d now random conn addr raw w).0.session
  viewer_message-HasGrid now random conn addr raw w h =
      viewer_message_cases d Keeps now random conn addr raw w h
        (λ m. auth_attempt-HasGrid now conn addr m random w h)
        (λ _. resume-HasGrid now conn (d.resume_token raw) w h) (λ _. h)
        λ _. record {
          ignored = h;
          pong = λ m. pong-HasGrid now conn m w h;
          control = λ m. take_control-HasGrid now conn m w h;
          input = λ m. h;
          resize = λ m. resize-HasGrid conn m w h;
          chat = λ m. h;
        }

  host_message-HasGrid :
      (now : ℕ) (random : Option String) (raw : Raw) (w : World)
      → HasGrid w.session
      → HasGrid (handle_host_message d now random raw w).0.session
  unfolding teardown broadcast_output
  host_message-HasGrid now random raw w h =
      host_message_cases d Keeps now random raw w h (λ m _. configure-HasGrid m w.session h)
        (λ m. host_size-HasGrid m w h) (λ chunk. ground arith)
        (λ m _. auth_response-HasGrid now m random w h)
        (record {
          ignored = h;
          control = λ c m _. take_control-HasGrid now c m w h;
          kill = kill-HasGrid w h;
          end = ground arith;
          chat = λ c m _. h;
        })

  step-HasGrid :
      (e : Env) (i : Input Raw) (w : World) → HasGrid w.session → HasGrid (step d e i w).0.session
  unfolding step handle_host_leave teardown check_viewer_health handle_viewer_join add_viewer
  step-HasGrid e (Input.viewer_joins conn id) w h = ground arith
  step-HasGrid e (Input.viewer_sends conn addr raw) w h =
      viewer_message-HasGrid e.now e.random conn addr raw w h
  step-HasGrid e (Input.viewer_leaves conn) w h = disconnect-HasGrid e.now conn w h
  step-HasGrid e (Input.host_sends raw) w h = host_message-HasGrid e.now e.random raw w h
  step-HasGrid e Input.host_leaves w h = ground arith
  step-HasGrid e (Input.health_tick configured nonces) w h = h

  pub run-HasGrid :
      (is : List (Env × Input Raw)) (w : World) → HasGrid w.session → HasGrid (run d is w).0.session
  unfolding run
  run-HasGrid [] w h = h
  run-HasGrid ((e, i) ∷ is) w h = run-HasGrid is (step d e i w).0 (step-HasGrid e i w h)

  -- Whatever host and viewers send, in any order, a session that starts well formed keeps a grid of
  -- 2 to 1000 columns and 2 to 500 rows, a grid of the host within the same bounds to fall back
  -- on, and one of the two modes.
  pub grid_bounds :
      (is : List (Env × Input Raw)) (w : World)
      → HasGrid w.session
      → let s = (run d is w).0.session in
        ((2 ≤ s.cols) × (s.cols ≤ 1000) × (2 ≤ s.rows) × (s.rows ≤ 500))
        × ((2 ≤ s.host_cols) × (s.host_cols ≤ 1000) × (2 ≤ s.host_rows) × (s.host_rows ≤ 500))
        × ((s.mode ≡ session_mode_remote) ⊎ (s.mode ≡ session_mode_group))
  grid_bounds is w h =
      let k = run-HasGrid is w h in (size_bounds _ _ k.current, size_bounds _ _ k.local, k.known)
