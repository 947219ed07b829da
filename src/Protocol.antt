-- ===== src/Protocol.antt =====
-- internal/protocol/message.go: the messages between host, relay and viewers. A Go message type is
-- a record here, or a constructor of `Msg` where only its fields are sent. Column and row counts
-- are natural numbers: a negative count that JSON can carry fails the same size test as 0.
use getsloth.Base.{ℕ, String, Bool, Option, List}

abbrev pub protocol_version : ℕ
protocol_version = 1

abbrev pub session_mode_remote : String
session_mode_remote = "remote"

abbrev pub session_mode_group : String
session_mode_group = "group"

abbrev pub default_cols : ℕ
default_cols = 80

abbrev pub default_rows : ℕ
default_rows = 24

abbrev pub viewer_quality_unknown : String
viewer_quality_unknown = "unknown"

abbrev pub viewer_quality_good : String
viewer_quality_good = "good"

abbrev pub viewer_quality_laggy : String
viewer_quality_laggy = "laggy"

abbrev pub viewer_quality_stalled : String
viewer_quality_stalled = "stalled"

abbrev pub reason_host_disconnected : String
reason_host_disconnected = "host_disconnected"

abbrev pub reason_process_exited : String
reason_process_exited = "process_exited"

abbrev pub reason_kill_switch : String
reason_kill_switch = "kill_switch"

-- The codes of `ErrorMsg` that the relay sends.
abbrev pub err_session_not_found : String
err_session_not_found = "SESSION_NOT_FOUND"

abbrev pub err_unauthorized : String
err_unauthorized = "UNAUTHORIZED"

abbrev pub err_not_active_writer : String
err_not_active_writer = "NOT_ACTIVE_WRITER"

abbrev pub err_read_only_session : String
err_read_only_session = "READ_ONLY_SESSION"

abbrev pub err_bad_request : String
err_bad_request = "BAD_REQUEST"

abbrev pub auth_code_failed : String
auth_code_failed = "AUTH_FAILED"

abbrev pub auth_code_rate_limited : String
auth_code_rate_limited = "RATE_LIMITED"

abbrev pub auth_code_occupied : String
auth_code_occupied = "SESSION_OCCUPIED"

abbrev pub close_session_ended : ℕ
close_session_ended = 4000

abbrev pub close_kicked : ℕ
close_kicked = 4001

abbrev pub close_bad_request : ℕ
close_bad_request = 4002

abbrev pub close_session_not_found : ℕ
close_session_not_found = 4003

-- What clients send to the relay.
pub record SessionConfigMsg : Type 0 where
  pub mode : String
  pub host_cols : ℕ
  pub host_rows : ℕ

pub record AuthMsg : Type 0 where
  pub viewer_pubkey : String
  pub ciphertext : String
  pub display_name : String

pub record AuthResponseMsg : Type 0 where
  pub request_id : String
  pub accepted : Bool

-- `ResizeMsg`, `HostSizeMsg` and `TakeControlMsg` have the same fields.
pub record GridMsg : Type 0 where
  pub cols : ℕ
  pub rows : ℕ

-- What the relay sends.
pub record AuthResultMsg : Type 0 where
  pub accepted : Bool
  pub token : String
  pub connection_id : String
  pub code : String
  pub retry_after_ms : ℕ
  pub mode : String
  pub cols : ℕ
  pub rows : ℕ
  pub active_writer_id : String
  pub active_writer_role : String

pub record ControlChangedMsg : Type 0 where
  pub active_writer_id : String
  pub active_writer_role : String
  pub cols : ℕ
  pub rows : ℕ

pub record ChatBroadcastMsg : Type 0 where
  pub sender_id : String
  pub sender_role : String
  pub sender_display_name : String
  pub text : String

pub record PresenceConnectionInfo : Type 0 where
  pub id : String
  pub role : String
  pub display_name : String
  pub is_active_writer : Bool
  pub rtt_ms : Option ℕ
  pub quality : String

pub data Msg : Type 0 where
  session_created : (session_id connection_id : String) → Msg
  session_ended : (reason : String) → Msg
  error : (code message : String) → Msg
  output : (data_base64 : String) → Msg
  auth_request : (request_id viewer_pubkey ciphertext : String) → Msg
  auth_result : AuthResultMsg → Msg
  input_forward : (data_base64 sender_id : String) → Msg
  resize : (cols rows : ℕ) → Msg
  terminal_size : (cols rows : ℕ) → Msg
  ping : (nonce : String) → Msg
  control_changed : ControlChangedMsg → Msg
  kicked : (reason : String) → Msg
  chat_message : ChatBroadcastMsg → Msg
  presence : List PresenceConnectionInfo → Msg

-- The `type` field of the envelope.
unfoldable pub type_of : Msg → String
type_of (session_created _ _) = "session_created"
type_of (session_ended _) = "session_ended"
type_of (error _ _) = "error"
type_of (output _) = "output"
type_of (auth_request _ _ _) = "auth_request"
type_of (auth_result _) = "auth_result"
type_of (input_forward _ _) = "input"
type_of (resize _ _) = "resize"
type_of (terminal_size _ _) = "terminal_size"
type_of (ping _) = "ping"
type_of (control_changed _) = "control_changed"
type_of (kicked _) = "kicked"
type_of (chat_message _) = "chat_message"
type_of (presence _) = "presence"

pub record Envelope : Type 0 where
  pub v : ℕ
  pub type : String

-- `NewEnvelope` at the type of a message.
unfoldable pub new_envelope : Msg → Envelope
unfolding type_of
new_envelope m = record { v = protocol_version; type = type_of m }
