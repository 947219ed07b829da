-- ===== src/Host/Control.antt =====
-- The host's control endpoint: cmd/getsloth/host_control_server.go, with the functions `reclaim` and
-- `killViewers` that main.go gives it. The socket is not modelled: a request is what
-- `json.NewDecoder` gives, `none` for an error, and a response is what is encoded.
pub mod Endpoint
pub mod Reclaim
use getsloth.Base.{
  String, Bool, Option, none, some, get_or, List, [], ◌∷◌, ◌++◌, ◌==◌, ◌||◌, if◌then◌else◌,
}
use getsloth.Host.Status.{Platform, Snapshot, Status}
use getsloth.Host.Status.Ops.{note_kill_switch, snapshot}

-- `hostControlResponse`
pub record Response : Type 0 where
  pub snapshot : Option Snapshot
  pub error : String

-- A `func() error` is a function of the state of the host process: `none` for a nil error, else the
-- error's text.
abbrev pub Func : Type 0 → Type 0
Func S = S → S × Option String

-- `hostControlActions`; `none` for a nil function.
pub record Actions (S : Type 0) : Type 0 where
  pub reclaim : Option (Func S)
  pub kill : Option (Func S)

abbrev pub unavailable : String
unavailable = "host control action is unavailable"

abbrev pub unknown_action : String
unknown_action = "unknown host control action"

-- What `setActions` replaces is the whole of it.
abbrev pub no_actions : {S : Type 0} → Actions S
no_actions = record { reclaim = none; kill = none }

module _ {S : Type 0} where
  abbrev pub call_action : Option (Func S) → Func S
  call_action none s = (s, some unavailable)
  call_action (some f) s = f s

  unfoldable pub invoke : Actions S → String → Func S
  invoke actions action s =
      if action == "reclaim"
      then call_action actions.reclaim s
      else if action == "kill"
      then call_action actions.kill s
      else (s, some unavailable)

module _ {S : Type 0} (take_snapshot : S → Snapshot) where
  unfoldable pub respond : S → String → Response
  respond s error =
      if error == ""
      then record { snapshot = some (take_snapshot s); error = "" }
      else record { snapshot = none; error = error }

  -- The request's action, and the response; nothing is written back when the request is malformed.
  unfoldable pub handle : Actions S → Option String → S → S × Option Response
  unfolding respond invoke
  handle actions none s = (s, none)
  handle actions (some action) s =
      if action == "snapshot"
      then (s, some (respond s ""))
      else if action == "reclaim" || action == "kill"
      then (let (s', error) = invoke actions action s in (s', some (respond s' (get_or error ""))))
      else (s, some (respond s unknown_action))

  -- The requests of a session, one after the other.
  unfoldable pub serve : Actions S → List (Option String) → S → S × List (Option Response)
  unfolding handle
  serve actions [] s = (s, [])
  serve actions (request ∷ requests) s =
      let (s', response) = handle actions request s in
      let (s'', responses) = serve actions requests s' in (s'', response ∷ responses)

-- What the host's own actions send to the relay.
pub data HostMsg : Type 0 where
  take_control : HostMsg
  kill_switch : HostMsg

-- What the two functions change: the status, what has been sent, and what has been printed.
pub record HostSide : Type 0 where
  pub status : Status
  pub sent : List HostMsg
  pub printed : List String

abbrev pub kill_notice : String
kill_notice = "getsloth: kill switch triggered - all viewers disconnected, session still live"

-- `fails` is what the write to the relay gives.
unfoldable pub reclaim_control : (HostMsg → Option String) → Func HostSide
reclaim_control fails s = elim (fails HostMsg.take_control) [
  | none ↦ (record s { sent = s.sent ++ HostMsg.take_control ∷ [] }, none)
  | some e ↦ (s, some e)
]

unfoldable pub kill_viewers : Platform → (HostMsg → Option String) → Func HostSide
kill_viewers p fails s = elim (fails HostMsg.kill_switch) [
  | none ↦ (
    record {
      status = note_kill_switch p s.status;
      sent = s.sent ++ HostMsg.kill_switch ∷ [];
      printed = s.printed ++ kill_notice ∷ [];
    },
    none,
  )
  | some e ↦ (s, some e)
]

-- The actions that main.go sets.
unfoldable pub session_actions : Platform → (HostMsg → Option String) → Actions HostSide
unfolding reclaim_control kill_viewers
session_actions p fails = record {
  reclaim = some (reclaim_control fails);
  kill = some (kill_viewers p fails);
}

abbrev pub take_snapshot : Platform → HostSide → Snapshot
take_snapshot p s = snapshot p s.status
