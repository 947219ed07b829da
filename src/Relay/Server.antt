-- ===== src/Relay/Server.antt =====
-- internal/relay/server.go and `handleViewerMessage` of auth.go: which handler a message reaches.
-- encoding/json is not modelled: `Decoder` is a parameter, what `json.Unmarshal` gives for the
-- envelope's type and for each message, `none` for an error.
pub mod Cases
pub mod Steps
pub mod Grid
pub mod Roles
pub mod Machine
pub mod Privacy
pub mod Admission
pub mod Life
pub mod Told
pub mod Override
pub mod Kicked
pub mod Apart
pub mod Backlog
use getsloth.Base.{
  ℕ, String, Bool, true, false, not, Option, none, some, List, [], ◌∷◌, ◌++◌, ◌==◌, if◌then◌else◌,
  Map, insert, delete, lookup, update,
}
use getsloth.Protocol.{
  SessionConfigMsg, AuthMsg, AuthResponseMsg, GridMsg, Msg, err_unauthorized, err_session_not_found,
  reason_host_disconnected, reason_process_exited, close_session_not_found,
}
use getsloth.Relay.RateLimit.{clear_session}
use getsloth.Relay.Connection.{Connection, new_connection}
use getsloth.Relay.Session.{
  World, Session, Event, send, close, Reply, with_session, configure, teardown, broadcast_output,
  add_viewer, new_session,
}
use getsloth.Relay.Control.{
  handle_take_control, handle_input, handle_resize, handle_host_size, handle_viewer_disconnect,
}
use getsloth.Relay.Chat.{handle_chat_message}
use getsloth.Relay.KillSwitch.{handle_kill_switch}
use getsloth.Relay.Auth.{handle_auth_attempt, handle_auth_response, handle_resume}
use getsloth.Relay.Probes.{handle_pong, check_viewer_health}

pub record Decoder (Raw : Type 0) : Type 0 where
  pub envelope : Raw → Option String
  pub auth : Raw → Option AuthMsg
  pub resume_token : Raw → Option String
  pub pong_nonce : Raw → Option String
  pub grid : Raw → Option GridMsg
  pub input_data : Raw → Option String
  pub chat_text : Raw → Option String
  pub session_config : Raw → Option SessionConfigMsg
  pub output_data : Raw → Option String
  pub auth_response : Raw → Option AuthResponseMsg

abbrev pub unauthorized_error : Msg
unauthorized_error = Msg.error err_unauthorized "not authenticated"

module _ {Raw : Type 0} (d : Decoder Raw) where
  -- The inner switch, for an authenticated connection.
  unfoldable pub handle_member_message : ℕ → ℕ → String → Raw → World → Reply
  handle_member_message now conn type raw w =
      if type == "pong"
      then handle_pong now conn (d.pong_nonce raw) w
      else if type == "take_control"
      then elim (d.grid raw) [ none ↦ (w, []) | some m ↦ handle_take_control now conn m w ]
      else if type == "input"
      then (w, handle_input conn (d.input_data raw) w)
      else if type == "resize"
      then handle_resize conn (d.grid raw) w
      else if type == "chat_message"
      then (w, handle_chat_message conn (d.chat_text raw) w)
      else (w, [])

  unfoldable pub handle_viewer_message : ℕ → Option String → ℕ → String → Raw → World → Reply
  unfolding handle_member_message
  handle_viewer_message now random conn addr raw w = elim (d.envelope raw) [
    | none ↦ (w, [])
    | some type ↦
        if type == "auth"
        then handle_auth_attempt now conn addr (d.auth raw) random w
        else if type == "resume"
        then handle_resume now conn (d.resume_token raw) w
        else if not (w.conns conn).authenticated
        then (w, send conn unauthorized_error ∷ [])
        else handle_member_message now conn type raw w
  ]

  -- The second half of the host's switch: what the host asks for.
  unfoldable pub dispatch_host_action : ℕ → String → Raw → World → Reply
  dispatch_host_action now type raw w =
      if type == "take_control"
      then elim (d.grid raw) [
        | none ↦ (w, [])
        | some m ↦ elim w.session.host [ none ↦ (w, []) | some h ↦ handle_take_control now h m w ]
      ]
      else if type == "kill_switch"
      then handle_kill_switch w
      else if type == "end_session"
      then teardown reason_process_exited w
      else if type == "chat_message"
      then elim w.session.host [
        | none ↦ (w, [])
        | some h ↦ (w, handle_chat_message h (d.chat_text raw) w)
      ]
      else (w, [])

  -- A host's message of the given type.
  unfoldable pub dispatch_host : ℕ → Option String → String → Raw → World → Reply
  unfolding dispatch_host_action
  dispatch_host now random type raw w =
      if type == "session_config"
      then elim (d.session_config raw) [
        | none ↦ (w, [])
        | some m ↦ (with_session w (configure m w.session).0, [])
      ]
      else if type == "host_size"
      then elim (d.grid raw) [ none ↦ (w, []) | some m ↦ handle_host_size m w ]
      else if type == "output"
      then elim (d.output_data raw) [ none ↦ (w, []) | some chunk ↦ broadcast_output chunk w ]
      else if type == "auth_response"
      then elim (d.auth_response raw) [
        | none ↦ (w, [])
        | some m ↦ handle_auth_response now m random w
      ]
      else dispatch_host_action now type raw w

  unfoldable pub handle_host_message : ℕ → Option String → Raw → World → Reply
  unfolding dispatch_host
  handle_host_message now random raw w = elim (d.envelope raw) [
    | none ↦ (w, [])
    | some type ↦ dispatch_host now random type raw w
  ]
