-- ===== src/Relay/Server/Told/Run.antt =====
-- What the host is told of the writer's role, over whole runs.
use getsloth.Base.{ℕ, String, Option, some, List, [], ◌∷◌, ◌≡◌, refl, sym, ap, ◌∙◌, arith, All}
use getsloth.Protocol.{SessionConfigMsg, reason_process_exited}
use getsloth.Relay.Control.{handle_input, handle_resize, handle_host_size}
use getsloth.Relay.Chat.{handle_chat_message}
use getsloth.Relay.KillSwitch.{handle_kill_switch}
use getsloth.Relay.Auth.{handle_auth_attempt, handle_auth_response, handle_resume}
use getsloth.Relay.Probes.{handle_pong, check_viewer_health}
use getsloth.Relay.Session.{World, configure, teardown, broadcast_output}
use getsloth.Relay.Server.{Decoder, handle_viewer_message, handle_host_message}
use getsloth.Relay.Server.Cases.{viewer_message_cases, host_message_cases}
use getsloth.Relay.Server.Steps.{Env, Input, step, run, handle_viewer_join, handle_host_leave}
use getsloth.Relay.Server.Roles.{Roles, Proper}
use getsloth.Relay.Server.Roles.Run.{step-Roles}
use getsloth.Relay.Server.Told.{Told, Told-Calm, heard, heard-append}
use getsloth.Relay.Server.Told.Calm.{
  take_control-Told, disconnect-Told, input-Calm, resize-Calm, host_size-Calm, chat-Calm, kill-Calm,
  teardown-Calm, leave-Calm, output-Calm, join-Calm, pong-Calm,
}
use getsloth.Relay.Server.Told.Auth.{auth_attempt-Calm, auth_response-Calm, resume-Calm, tick-Calm}

module _ {Raw : Type 0} (d : Decoder Raw) (h : ℕ) where
  viewer_message-Told :
      (now : ℕ) (random : Option String) (conn : ℕ) (addr : String) (raw : Raw) (w : World)
      → w.session.host ≡ some h
      → Told h w (handle_viewer_message d now random conn addr raw w)
  viewer_message-Told now random conn addr raw w e =
      viewer_message_cases d (Told h w) now random conn addr raw w refl
        (λ m.
          Told-Calm h w (handle_auth_attempt now conn addr m random w)
            (auth_attempt-Calm now conn addr m random w))
        (λ _.
          Told-Calm h w (handle_resume now conn (d.resume_token raw) w)
            (resume-Calm now conn (d.resume_token raw) w))
        (λ _. refl)
        λ _. record {
          ignored = refl;
          pong = λ m. Told-Calm h w (handle_pong now conn m w) (pong-Calm w now conn m);
          control = λ m. take_control-Told h w now conn m e;
          input = λ m. Told-Calm h w (w, handle_input conn m w) (input-Calm w conn m);
          resize = λ m. Told-Calm h w (handle_resize conn m w) (resize-Calm w conn m);
          chat = λ m. Told-Calm h w (w, handle_chat_message conn m w) (chat-Calm w conn m);
        }

  configure-role :
      (m : SessionConfigMsg) (w : World)
      → (configure m w.session).0.active_writer_role ≡ w.session.active_writer_role
  unfolding configure
  configure-role m w = ground arith

  host_message-Told :
      (now : ℕ) (random : Option String) (raw : Raw) (w : World)
      → w.session.host ≡ some h
      → Told h w (handle_host_message d now random raw w)
  host_message-Told now random raw w e =
      host_message_cases d (Told h w) now random raw w refl (λ m _. sym (configure-role m w))
        (λ m. Told-Calm h w (handle_host_size m w) (host_size-Calm w m))
        (λ chunk. Told-Calm h w (broadcast_output chunk w) (output-Calm w chunk))
        (λ m _.
          Told-Calm h w (handle_auth_response now m random w) (auth_response-Calm now m random w))
        (record {
          ignored = refl;
          control = λ c m _. take_control-Told h w now c m e;
          kill = Told-Calm h w (handle_kill_switch w) (kill-Calm w);
          end =
              Told-Calm h w (teardown reason_process_exited w)
                (teardown-Calm w reason_process_exited);
          chat = λ c m _. Told-Calm h w (w, handle_chat_message c m w) (chat-Calm w c m);
        })

  step-Told :
      (e : Env) (i : Input Raw) (w : World) → w.session.host ≡ some h → Told h w (step d e i w)
  unfolding step
  step-Told e (Input.viewer_joins conn id) w p =
      Told-Calm h w (handle_viewer_join conn id w) (join-Calm w conn id)
  step-Told e (Input.viewer_sends conn addr raw) w p =
      viewer_message-Told e.now e.random conn addr raw w p
  step-Told e (Input.viewer_leaves conn) w p = disconnect-Told h w e.now conn p
  step-Told e (Input.host_sends raw) w p = host_message-Told e.now e.random raw w p
  step-Told e Input.host_leaves w p = Told-Calm h w (handle_host_leave w) (leave-Calm w)
  step-Told e (Input.health_tick configured nonces) w p =
      Told-Calm h w (check_viewer_health e.now configured nonces w)
        (tick-Calm e.now configured nonces w)

  pub run-Told :
      (is : List (Env × Input Raw)) (w : World)
      → All (λ ei. Proper h ei.1) is
      → Roles h w
      → Told h w (run d is w)
  unfolding run
  run-Told [] w p r = refl
  run-Told ((e, i) ∷ is) w p r =
      let w' = (step d e i w).0 in
      heard-append h (step d e i w).1 (run d is w').1 _
      ∙ ap (heard h (run d is w').1) (step-Told e i w r.host_is)
      ∙ run-Told is w' p.1 (step-Roles d h e i w p.0 r)
