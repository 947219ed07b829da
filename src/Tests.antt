-- ===== src/Tests.antt =====
-- Concrete sessions, and each theorem with hypotheses at one of them.
pub mod Limits
pub mod Slots
pub mod Runs
pub mod Secrets
pub mod Hosts
pub mod Consoles
pub mod Controls
pub mod Screens
pub mod Launches
pub mod Kills
pub mod Servers
pub mod Canvases
use getsloth.Base.{
  ℕ, String, Bool, true, false, Option, none, some, List, [], ◌∷◌, eqb, if◌then◌else◌, ◌≡◌, ◌≢◌,
  ◌==◌, eq_iff, arith, refl,
}
use getsloth.Protocol.{
  SessionConfigMsg, AuthMsg, AuthResponseMsg, GridMsg, session_mode_remote, session_mode_group,
}
use getsloth.Relay.Connection.{Connection, new_connection, set_authenticated}
use getsloth.Relay.Session.{World, Session, TokenRecord, PendingAuth, new_session}
use getsloth.Relay.Server.{Decoder}
use getsloth.Relay.Server.Steps.{Env}

-- A decoded frame: its type, and the fields that the messages have.
pub record Frame : Type 0 where
  pub type : String
  pub text : String
  pub cols : ℕ
  pub rows : ℕ
  pub accepted : Bool

abbrev pub frame : String → String → Frame
frame type text = record { type = type; text = text; cols = 100; rows = 40; accepted = true }

abbrev pub frames : Decoder Frame
frames = record {
  envelope = λ f. some f.type;
  auth = λ f. some (record { viewer_pubkey = f.text; ciphertext = f.text; display_name = "ann" });
  resume_token = λ f. some f.text;
  pong_nonce = λ f. some f.text;
  grid = λ f. some (record { cols = f.cols; rows = f.rows });
  input_data = λ f. some f.text;
  chat_text = λ f. some f.text;
  session_config = λ f. some (record { mode = f.text; host_cols = f.cols; host_rows = f.rows });
  output_data = λ f. some f.text;
  auth_response = λ f. some (record { request_id = f.text; accepted = f.accepted });
}

-- The host is connection 0, two viewers are 1 and 2.
abbrev pub peers : Bool → ℕ → Connection
peers joined c =
    if eqb c 0
    then set_authenticated true (new_connection "host" "host")
    else set_authenticated joined (new_connection (if eqb c 1 then "v1" else "v2") "viewer")

abbrev pub token_of_one : TokenRecord
token_of_one = record { connection_id = "v1"; expires_at = 0 }

abbrev pub attempt_of_one : PendingAuth
attempt_of_one = record { viewer_id = "v1"; conn = 1; remote_addr = "10.0.0.1:4000" }

abbrev pub attempt_of_two : PendingAuth
attempt_of_two = record { viewer_id = "v2"; conn = 2; remote_addr = "10.0.0.2:4000" }

abbrev pub answer_to : String → AuthResponseMsg
answer_to request = record { request_id = request; accepted = true }

abbrev pub world_of : Session → World
world_of s = record { session = s; conns = peers true; limiter = [] }

abbrev pub open_session : Session
open_session = record (new_session "s") {
  host = some 0;
  viewers = ("v1", 1) ∷ ("v2", 2) ∷ [];
  tokens = ("t1", token_of_one) ∷ [];
}

abbrev pub open_world : World
open_world = world_of open_session

-- Both viewers await a verdict.
abbrev pub waiting_world : World
waiting_world =
    record (world_of (record open_session {
      tokens = [];
      pending_auth = ("r1", attempt_of_one) ∷ ("r2", attempt_of_two) ∷ [];
    })) { conns = peers false }

abbrev pub at_time : ℕ → Env
at_time now = record { now = now; random = some "fresh" }

pub apart : (a b : String) → (a == b) ≡ false → a ≢ b
apart a b differ = ground (arith, eq_iff a b)
