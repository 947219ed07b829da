-- ===== src/Relay/Server/Apart/Run.antt =====
-- Every step of a session reaches only the session's own connections.
use getsloth.Base.{ℕ, String, Option, refl, arith}
use mathlib.Core.Path.{subst}
use getsloth.Protocol.{SessionConfigMsg, reason_process_exited}
use getsloth.Relay.Session.{World, Session, configure}
use getsloth.Relay.Server.{Decoder, handle_viewer_message, handle_host_message}
use getsloth.Relay.Server.Cases.{viewer_message_cases, host_message_cases}
use getsloth.Relay.Server.Steps.{Env, Input, step}
use getsloth.Relay.Server.Apart.{Owns, HostMine, Contained}
use getsloth.Relay.Server.Apart.Handlers.{
  take_control-Contained, disconnect-Contained, input-Contained, resize-Contained,
  host_size-Contained, chat-Contained, kill-Contained, teardown-Contained, leave-Contained,
  output-Contained,
}
use getsloth.Relay.Server.Apart.Auth.{
  auth_attempt-Contained, auth_response-Contained, resume-Contained,
}
use getsloth.Relay.Server.Apart.Probes.{join-Contained, pong-Contained, tick-Contained}

module _ {Raw : Type 0} (d : Decoder Raw) (Mine : ℕ → Type 0) where
  -- The connection of an input, if it has one, is the session's own.
  abbrev pub Local : Input Raw → Type 0
  Local (Input.viewer_joins conn id) = Mine conn
  Local (Input.viewer_sends conn addr raw) = Mine conn
  Local (Input.viewer_leaves conn) = Mine conn
  Local _ = Unit {0}

  viewer_message-Contained :
      (now : ℕ) (random : Option String) (conn : ℕ) (addr : String) (raw : Raw) (w : World)
      → Mine conn
      → Owns Mine w.session
      → Contained Mine w (handle_viewer_message d now random conn addr raw w)
  viewer_message-Contained now random conn addr raw w mine o =
      viewer_message_cases d (Contained Mine w) now random conn addr raw w (tt, (λ c _. refl), o)
        (λ m. auth_attempt-Contained Mine now conn addr m random w mine o)
        (λ _. resume-Contained Mine now conn (d.resume_token raw) w mine o)
        (λ _. ((mine, tt), (λ c _. refl), o))
        λ _. record {
          ignored = (tt, (λ c _. refl), o);
          pong = λ m. pong-Contained Mine now conn m w mine o;
          control = λ m. take_control-Contained Mine w now conn m mine o;
          input = λ m. input-Contained Mine w conn m mine o;
          resize = λ m. resize-Contained Mine w conn m mine o;
          chat = λ m. chat-Contained Mine w conn m o;
        }

  configure-Owns : (m : SessionConfigMsg) (s : Session) → Owns Mine s → Owns Mine (configure m s).0
  unfolding configure
  configure-Owns m s o = ground arith

  host_message-Contained :
      (now : ℕ) (random : Option String) (raw : Raw) (w : World)
      → Owns Mine w.session
      → Contained Mine w (handle_host_message d now random raw w)
  host_message-Contained now random raw w o =
      host_message_cases d (Contained Mine w) now random raw w (tt, (λ c _. refl), o)
        (λ m _. (tt, (λ c _. refl), configure-Owns m w.session o))
        (λ m. host_size-Contained Mine w m o) (λ chunk. output-Contained Mine w chunk o)
        (λ m _. auth_response-Contained Mine now m random w o)
        (record {
          ignored = (tt, (λ c _. refl), o);
          control = λ h m e. take_control-Contained Mine w now h m (subst (HostMine Mine) e o.0) o;
          kill = kill-Contained Mine w o;
          end = teardown-Contained Mine w reason_process_exited o;
          chat = λ h m _. chat-Contained Mine w h m o;
        })

  pub step-Contained :
      (e : Env) (i : Input Raw) (w : World)
      → Local i
      → Owns Mine w.session
      → Contained Mine w (step d e i w)
  unfolding step
  step-Contained e (Input.viewer_joins conn id) w mine o = join-Contained Mine conn id w mine o
  step-Contained e (Input.viewer_sends conn addr raw) w mine o =
      viewer_message-Contained e.now e.random conn addr raw w mine o
  step-Contained e (Input.viewer_leaves conn) w mine o = disconnect-Contained Mine w e.now conn o
  step-Contained e (Input.host_sends raw) w mine o = host_message-Contained e.now e.random raw w o
  step-Contained e Input.host_leaves w mine o = leave-Contained Mine w o
  step-Contained e (Input.health_tick configured nonces) w mine o =
      tick-Contained Mine w e.now configured nonces o
