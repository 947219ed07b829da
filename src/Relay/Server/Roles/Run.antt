-- ===== src/Relay/Server/Roles/Run.antt =====
-- The roles hold over every run.
use getsloth.Base.{ℕ, String, Option, List, [], ◌∷◌, ◌≢◌, refl, arith, All, update}
use getsloth.Protocol.{SessionConfigMsg}
use getsloth.Relay.Connection.{new_connection}
use getsloth.Relay.Session.{World, Reply, configure, add_viewer, teardown, broadcast_output}
use getsloth.Relay.Probes.{check_viewer_health}
use getsloth.Relay.Server.{Decoder, handle_viewer_message, handle_host_message}
use getsloth.Relay.Server.Cases.{viewer_message_cases, host_message_cases}
use getsloth.Relay.Server.Steps.{Env, Input, handle_viewer_join, handle_host_leave, step, run}
use getsloth.Relay.Server.Roles.{IsViewer, Roles, Proper, Roles-frame, Roles-conn}
use getsloth.Relay.Server.Roles.Handlers.{
  take_control-Roles, resize-Roles, host_size-Roles, disconnect-Roles, kill-Roles, pong-Roles,
  check_viewers-ids,
}
use getsloth.Relay.Server.Roles.Auth.{auth_attempt-Roles, auth_response-Roles, resume-Roles}

module _ {Raw : Type 0} (d : Decoder Raw) (h : ℕ) where
  abbrev Keeps : Reply → Type 0
  Keeps r = Roles h r.0

  viewer_message-Roles :
      (now : ℕ) (random : Option String) (conn : ℕ) (addr : String) (raw : Raw) (w : World)
      → conn ≢ h
      → Roles h w
      → Roles h (handle_viewer_message d now random conn addr raw w).0
  viewer_message-Roles now random conn addr raw w ne r =
      viewer_message_cases d Keeps now random conn addr raw w r
        (λ m. auth_attempt-Roles h now conn addr m random w ne r)
        (λ _. resume-Roles h now conn (d.resume_token raw) w ne r) (λ _. r)
        λ _. record {
          ignored = r;
          pong = λ m. pong-Roles h now conn m w r;
          control = λ m. take_control-Roles h now conn m w r;
          input = λ m. r;
          resize = λ m. resize-Roles h conn m w r;
          chat = λ m. r;
        }

  host_message-Roles :
      (now : ℕ) (random : Option String) (raw : Raw) (w : World)
      → Roles h w
      → Roles h (handle_host_message d now random raw w).0
  unfolding teardown broadcast_output
  host_message-Roles now random raw w r =
      host_message_cases d Keeps now random raw w r (λ m _. configured m)
        (λ m. host_size-Roles h m w r) (λ chunk. Roles-frame h w _ (λ c. refl) refl refl refl r)
        (λ m _. auth_response-Roles h now m random w r)
        (record {
          ignored = r;
          control = λ c m _. take_control-Roles h now c m w r;
          kill = kill-Roles h w r;
          end = Roles-frame h w _ (λ c. refl) refl refl refl r;
          chat = λ c m _. r;
        })
    where
      configured :
          (m : SessionConfigMsg) → Roles h (record w { session = (configure m w.session).0 })
      configured m =
          Roles-frame h w _ (λ c. refl) (unfold configure in ground arith)
            (unfold configure in ground arith) (unfold configure in ground arith) r

  join-Roles :
      (conn : ℕ) (id : String) (w : World)
      → conn ≢ h
      → IsViewer id
      → Roles h w
      → Roles h (handle_viewer_join conn id w).0
  unfolding handle_viewer_join add_viewer new_connection
  join-Roles conn id w ne viewer r =
      Roles-frame h (record w { conns = update w.conns conn (new_connection id "viewer") })
        (handle_viewer_join conn id w).0 (λ c. ground arith) (ground arith) (ground arith)
        (ground arith) (Roles-conn h conn (new_connection id "viewer") w ne viewer r)

  pub step-Roles :
      (e : Env) (i : Input Raw) (w : World) → Proper h i → Roles h w → Roles h (step d e i w).0
  unfolding step handle_host_leave teardown check_viewer_health
  step-Roles e (Input.viewer_joins conn id) w p r = join-Roles conn id w p.0 p.1 r
  step-Roles e (Input.viewer_sends conn addr raw) w p r =
      viewer_message-Roles e.now e.random conn addr raw w p r
  step-Roles e (Input.viewer_leaves conn) w p r = disconnect-Roles h e.now conn w r
  step-Roles e (Input.host_sends raw) w p r = host_message-Roles e.now e.random raw w r
  step-Roles e Input.host_leaves w p r = Roles-frame h w _ (λ c. refl) refl refl refl r
  step-Roles e (Input.health_tick configured nonces) w p r =
      Roles-frame h w _ (λ c. check_viewers-ids e.now _ nonces w.session.viewers _ c) refl refl refl
        r

  -- In every run in which new viewers get random ids and connections of their own, no connection
  -- but the host's is ever called `host`, by its id, by a token that it could resume, or by an
  -- attempt that awaits a verdict.
  pub run-Roles :
      (is : List (Env × Input Raw)) (w : World)
      → All (λ ei. Proper h ei.1) is
      → Roles h w
      → Roles h (run d is w).0
  unfolding run
  run-Roles [] w p r = r
  run-Roles ((e, i) ∷ is) w p r = run-Roles is (step d e i w).0 p.1 (step-Roles e i w p.0 r)
