-- ===== src/Relay/Server/Privacy/Run.antt =====
-- Every message of every run goes to a connection that may see it.
use getsloth.Base.{ℕ, String, Option, some, ◌≡◌, inl, All}
use getsloth.Relay.Session.{World, add_viewer}
use getsloth.Relay.Server.{Decoder, handle_viewer_message, handle_host_message}
use getsloth.Relay.Server.Cases.{viewer_message_cases, host_message_cases}
use getsloth.Relay.Server.Steps.{Env, Input, handle_viewer_join, handle_host_leave, step}
use getsloth.Relay.Server.Privacy.{Permitted}
use getsloth.Relay.Server.Privacy.Handlers.{
  Discreet, if-Discreet, take_control-Discreet, input-Discreet, resize-Discreet, host_size-Discreet,
  chat-Discreet, disconnect-Discreet, kill-Discreet, teardown-Discreet, output-Discreet,
}
use getsloth.Relay.Server.Privacy.Auth.{
  auth_attempt-Discreet, auth_response-Discreet, resume-Discreet,
}
use getsloth.Relay.Server.Privacy.Probes.{pong-Discreet, tick-Discreet}

module _ {Raw : Type 0} (d : Decoder Raw) (h : ℕ) where
  viewer_message-Discreet :
      (now : ℕ) (random : Option String) (conn : ℕ) (addr : String) (raw : Raw) (w : World)
      → w.session.host ≡ some h
      → Discreet h (handle_viewer_message d now random conn addr raw w)
  viewer_message-Discreet now random conn addr raw w e =
      viewer_message_cases d (Discreet h) now random conn addr raw w tt
        (λ m. auth_attempt-Discreet h now conn addr m random w e)
        (λ _. resume-Discreet h now conn (d.resume_token raw) w e) (λ _. (inl tt, tt))
        λ _. record {
          ignored = tt;
          pong = λ m. pong-Discreet h now conn m w e;
          control = λ m. take_control-Discreet h w e now conn m;
          input = λ m. input-Discreet h w e conn m;
          resize = λ m. resize-Discreet h w e conn m;
          chat = λ m. chat-Discreet h w e conn m;
        }

  host_message-Discreet :
      (now : ℕ) (random : Option String) (raw : Raw) (w : World)
      → w.session.host ≡ some h
      → Discreet h (handle_host_message d now random raw w)
  host_message-Discreet now random raw w e =
      host_message_cases d (Discreet h) now random raw w tt (λ m _. tt)
        (λ m. host_size-Discreet h w e m) (λ chunk. output-Discreet h w e chunk)
        (λ m _. auth_response-Discreet h now m random w e)
        (record {
          ignored = tt;
          control = λ c m _. take_control-Discreet h w e now c m;
          kill = kill-Discreet h w e;
          end = teardown-Discreet h w e _;
          chat = λ c m _. chat-Discreet h w e c m;
        })

  join-Discreet : (conn : ℕ) (id : String) (w : World) → Discreet h (handle_viewer_join conn id w)
  unfolding handle_viewer_join
  join-Discreet conn id w = if-Discreet h (add_viewer id conn w.session).1 _ _ tt (inl tt, (tt, tt))

  -- In one step, terminal output, chat, the roster, and control and grid messages go only to the
  -- host and to connections that are authenticated when the step is done; attempts to
  -- authenticate and input go only to the host.
  pub step-Discreet :
      (e : Env) (i : Input Raw) (w : World)
      → w.session.host ≡ some h
      → All (Permitted h (step d e i w).0.conns) (step d e i w).1
  unfolding step handle_host_leave
  step-Discreet e (Input.viewer_joins conn id) w p = join-Discreet conn id w
  step-Discreet e (Input.viewer_sends conn addr raw) w p =
      viewer_message-Discreet e.now e.random conn addr raw w p
  step-Discreet e (Input.viewer_leaves conn) w p = disconnect-Discreet h w p e.now conn
  step-Discreet e (Input.host_sends raw) w p = host_message-Discreet e.now e.random raw w p
  step-Discreet e Input.host_leaves w p = teardown-Discreet h w p _
  step-Discreet e (Input.health_tick configured nonces) w p =
      tick-Discreet h e.now configured nonces w p
