-- ===== src/Host/Loop.antt =====
-- `runHostMessageLoop` of cmd/getsloth/auth.go: what the host process does with each message of the
-- relay. encoding/json and base64 are parameters, and so is the password check (Host/Secret).
use getsloth.Base.{ℕ, String, Bool, Option, none, some, List, [], ◌∷◌, ◌++◌, ◌==◌, if◌then◌else◌}
use getsloth.Protocol.{ControlChangedMsg, PresenceConnectionInfo, GridMsg, ChatBroadcastMsg}
use getsloth.Host.Grid.{valid_grid_size, resize_refused}
use getsloth.Host.Status.{Status, Platform}
use getsloth.Host.Status.Ops.{update_control, update_presence, note_chat, set_disconnected}

pub record AuthRequest : Type 0 where
  pub request_id : String
  pub viewer_pubkey : String
  pub ciphertext : String

-- What `json.Unmarshal` gives for the envelope's type and for each message, and base64.
pub record Wire (Raw : Type 0) : Type 0 where
  pub envelope : Raw → Option String
  pub auth_request : Raw → Option AuthRequest
  pub control_changed : Raw → Option ControlChangedMsg
  pub presence : Raw → Option (List PresenceConnectionInfo)
  pub input : Raw → Option String
  pub resize : Raw → Option GridMsg
  pub chat_message : Raw → Option ChatBroadcastMsg
  pub decode : String → Option (List ℕ)

-- What the loop does outside: the terminal's size, input to the shell, and answers to the relay.
pub data Effect : Type 0 where
  sets_size : (cols rows : ℕ) → Effect
  types : (bytes : List ℕ) → Effect
  answers : (request_id : String) (accepted : Bool) → Effect

-- `isActiveWriter`, and the status, which may be missing.
pub record Loop : Type 0 where
  pub active : Bool
  pub status : Option Status

abbrev pub Turn : Type 0
Turn = Loop × List Effect

abbrev pub with_status : (Status → Status) → Option Status → Option Status
with_status f none = none
with_status f (some s) = some (f s)

abbrev pub chat_sender : ChatBroadcastMsg → String
chat_sender m =
    if m.sender_display_name == ""
    then (if m.sender_role == "host" then "you" else "viewer")
    else m.sender_display_name

module _ {Raw : Type 0} (wire : Wire Raw) (verify : String → String → Bool) (p : Platform) where
  unfoldable pub on_auth_request : Option AuthRequest → Loop → Turn
  on_auth_request none l = (l, [])
  on_auth_request (some r) l =
      (l, Effect.answers r.request_id (verify r.viewer_pubkey r.ciphertext) ∷ [])

  unfoldable pub on_control_changed : Option ControlChangedMsg → Loop → Turn
  on_control_changed none l = (l, [])
  on_control_changed (some m) l = (
    record {
      active = m.active_writer_role == "host";
      status = with_status (update_control p m) l.status;
    },
    if valid_grid_size m.cols m.rows then Effect.sets_size m.cols m.rows ∷ [] else [],
  )

  unfoldable pub on_input : Option String → Loop → Turn
  on_input none l = (l, [])
  on_input (some text) l = elim (wire.decode text) [
    | none ↦ (l, [])
    | some bytes ↦ (l, Effect.types bytes ∷ [])
  ]

  unfoldable pub on_resize : Option GridMsg → Loop → Turn
  on_resize none l = (l, [])
  on_resize (some m) l =
      (l, if resize_refused m.cols m.rows then [] else Effect.sets_size m.cols m.rows ∷ [])

  unfoldable pub on_presence : Option (List PresenceConnectionInfo) → Loop → Turn
  on_presence none l = (l, [])
  on_presence (some cs) l = (record l { status = with_status (update_presence p cs) l.status }, [])

  unfoldable pub on_chat : Option ChatBroadcastMsg → Loop → Turn
  on_chat none l = (l, [])
  on_chat (some m) l =
      (record l { status = with_status (note_chat p (chat_sender m) m.text) l.status }, [])

  unfoldable pub dispatch_relay : String → Raw → Loop → Turn
  unfolding on_auth_request on_control_changed on_input on_resize on_presence on_chat
  dispatch_relay type raw l =
      if type == "auth_request"
      then on_auth_request (wire.auth_request raw) l
      else if type == "control_changed"
      then on_control_changed (wire.control_changed raw) l
      else if type == "presence"
      then on_presence (wire.presence raw) l
      else if type == "input"
      then on_input (wire.input raw) l
      else if type == "resize"
      then on_resize (wire.resize raw) l
      else if type == "chat_message"
      then on_chat (wire.chat_message raw) l
      else (l, [])

  unfoldable pub handle_relay_message : Raw → Loop → Turn
  unfolding dispatch_relay
  handle_relay_message raw l = elim (wire.envelope raw) [
    | none ↦ (l, [])
    | some type ↦ dispatch_relay type raw l
  ]

  -- All messages until the connection closes, which sets the status.
  unfoldable pub run_loop : List Raw → Loop → Turn
  unfolding handle_relay_message
  run_loop [] l = (record l { status = with_status (set_disconnected p) l.status }, [])
  run_loop (raw ∷ raws) l =
      let (l₁, effects₁) = handle_relay_message raw l in
      let (l₂, effects₂) = run_loop raws l₁ in (l₂, effects₁ ++ effects₂)
