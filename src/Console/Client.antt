-- ===== src/Console/Client.antt =====
-- The console's side of a request: host_control_console.go and `requestHostControlSnapshot` of
-- host_control_bubbletea.go in cmd/getsloth. The connection is library code: a `Line` is what its
-- calls give, and the dashboard is a parameter.
use getsloth.Base.{
  ℕ, String, Bool, true, false, not, ◌&&◌, Option, none, some, List, [], ◌∷◌, ◌≡◌, ◌≢◌, refl, arith,
  ◌==◌, if◌then◌else◌, eq_iff, Bool-cases, inl, inr,
}
use getsloth.Host.Status.{Platform, Snapshot, ◌+++◌}
use getsloth.Host.Control.{Response, HostSide, HostMsg, handle, session_actions, take_snapshot}
use getsloth.Host.Control.Reclaim.{Answers, Did, handle-Answers}

-- What dialling, encoding the request and decoding the response give: an error's text, or none, and
-- a response or an error's text.
pub data Decoded : Type 0 where
  broken : (err : String) → Decoded
  arrived : (response : Response) → Decoded

pub record Line : Type 0 where
  pub dial : Option String
  pub encode : Option String
  pub decode : Decoded

pub data Requested : Type 0 where
  failed : (err : String) → Requested
  got : (snapshot : Snapshot) → Requested

abbrev pub no_status : String
no_status = "host returned no session status"

-- What a decoded response says.
unfoldable pub read_response : Response → Requested
read_response r =
    if not (r.error == "")
    then Requested.failed r.error
    else elim r.snapshot [ none ↦ Requested.failed no_status | some s ↦ Requested.got s ]

-- `requestHostControlSnapshot`
unfoldable pub request_snapshot : Line → Requested
unfolding read_response
request_snapshot line = elim line.dial [
  | some e ↦ Requested.failed e
  | none ↦ elim line.encode [
    | some e ↦ Requested.failed e
    | none ↦ elim line.decode [
      | Decoded.broken e ↦ Requested.failed e
      | Decoded.arrived r ↦ read_response r
    ]
  ]
]

-- `hostControlArguments`: the socket's path, the action, and whether to watch.
pub record Arguments : Type 0 where
  pub socket_path : String
  pub action : String
  pub watch : Bool

abbrev socket_given : String → String → Bool
socket_given flag path = flag == "--socket" && not (path == "")

unfoldable pub host_control_arguments : List String → Option Arguments
host_control_arguments (flag ∷ path ∷ []) =
    if socket_given flag path
    then some (record { socket_path = path; action = "snapshot"; watch = false })
    else none
host_control_arguments (flag ∷ path ∷ mode ∷ []) =
    if socket_given flag path && mode == "--watch"
    then some (record { socket_path = path; action = "snapshot"; watch = true })
    else none
host_control_arguments (flag ∷ path ∷ mode ∷ action ∷ []) =
    if socket_given flag path && mode == "--action" && not (action == "")
    then some (record { socket_path = path; action = action; watch = false })
    else none
host_control_arguments _ = none

abbrev usage : String
usage = "getsloth control: usage: getsloth control --socket <path> [--watch|--action reclaim|kill]"

abbrev complain : String → String → List String × ℕ
complain what e = (("getsloth control: " +++ what +++ e) ∷ [], 1)

-- The lines that the command prints before the exit code.
unfoldable pub print_response : (Snapshot → String) → Response → List String × ℕ
print_response dashboard r =
    if not (r.error == "")
    then complain "" r.error
    else elim r.snapshot [ none ↦ complain "" no_status | some s ↦ (dashboard s ∷ [], 0) ]

-- `runHostControlConsole` without `--watch`, over one connection; `line` is the connection to a
-- socket, asked for an action.
unfoldable pub run_request : (Snapshot → String) → Line → List String × ℕ
unfolding print_response
run_request dashboard line = elim line.dial [
  | some e ↦ complain "connect to host session: " e
  | none ↦ elim line.encode [
    | some e ↦ complain "request host status: " e
    | none ↦ elim line.decode [
      | Decoded.broken e ↦ complain "read host status: " e
      | Decoded.arrived r ↦ print_response dashboard r
    ]
  ]
]

-- `watchHostControlConsole`: `shows` runs the terminal user interface on the first snapshot, and
-- gives the text of its error.
unfoldable pub watch_console : (Snapshot → Option String) → Line → List String × ℕ
watch_console shows line = elim line.dial [
  | some e ↦ complain "connect to host session: " e
  | none ↦ elim line.encode [
    | some e ↦ complain "request host status: " e
    | none ↦ elim line.decode [
      | Decoded.broken e ↦ complain "read host status: " e
      | Decoded.arrived r ↦ if not (r.error == "") then complain "" r.error else elim r.snapshot [
        | none ↦ complain "" no_status
        | some s ↦ elim (shows s) [ some e ↦ complain "run terminal UI: " e | none ↦ ([], 0) ]
      ]
    ]
  ]
]

unfoldable pub run_host_control_console :
    (Snapshot → String)
    → (Snapshot → Option String)
    → (String → String → Line)
    → List String
    → List String × ℕ
unfolding run_request watch_console host_control_arguments
run_host_control_console dashboard shows connect args = elim (host_control_arguments args) [
  | none ↦ (usage ∷ [], 2)
  | some a ↦
      if a.watch
      then watch_console shows (connect a.socket_path a.action)
      else run_request dashboard (connect a.socket_path a.action)
]

-- The connection to a host's endpoint that works, for the response to a request.
abbrev pub answered_by : Option Response → Line
answered_by none = record { dial = none; encode = none; decode = Decoded.broken "EOF" }
answered_by (some r) = record { dial = none; encode = none; decode = Decoded.arrived r }

-- Either the snapshot after the action arrives, or an error, and then the host is as it was.
abbrev pub Got : Platform → HostSide → HostSide → Requested → Type 0
Got p s s' (Requested.got snap) = snap ≡ take_snapshot p s'
Got p s s' (Requested.failed e) = s' ≡ s

read-Answers :
    (p : Platform) (s s' : HostSide) (o : Option Response)
    → Answers p s s' o
    → Got p s s' (request_snapshot (answered_by o))
unfolding request_snapshot read_response
read-Answers p s s' none a = absurd a
read-Answers p s s' (some r) a = elim (Bool-cases (r.error == "")) [
  | inl e ↦
      let none_wrong : r.error ≡ "" = (eq_iff r.error "").0 e in
      rw (e, a.0 none_wrong, read_response) refl
  | inr e ↦
      let wrong : r.error ≢ "" = ground (arith, e, eq_iff r.error "") in
      rw (e, read_response) (a.1 wrong).1
]

-- Over a connection that works, a request of the console gives the host's snapshot after the
-- action, or an error, and with an error the host is as it was before; and at most one message goes
-- to the relay, the one that the request names.
pub request-handle :
    (p : Platform) (fails : HostMsg → Option String) (action : String) (s : HostSide)
    → let (s', response) = handle (take_snapshot p) (session_actions p fails) (some action) s in
      Got p s s' (request_snapshot (answered_by response)) × Did action fails s s'
request-handle p fails action s =
    let both = handle-Answers p fails action s in (read-Answers p s _ _ both.0, both.1)
