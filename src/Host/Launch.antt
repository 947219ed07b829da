-- ===== src/Host/Launch.antt =====
-- The command line of cmd/getsloth/main.go and session_mode_tui.go. The environment, the terminal and
-- the random numbers are arguments. Arguments begin with the program's own name.
use getsloth.Base.{
  ℕ, String, Bool, true, false, not, ◌||◌, Option, none, some, List, [], ◌∷◌, ◌≡◌, refl, arith,
  ◌==◌, if◌then◌else◌, drop, eq_iff, Bool-cases, inl, inr,
}
use getsloth.Protocol.{session_mode_remote, session_mode_group}
use getsloth.Host.Password.{generate_password, default_password_length}

abbrev is_mode_flag : String → Bool
is_mode_flag flag = flag == "--group" || flag == "--remote"

abbrev flag_mode : String → String
flag_mode flag = if flag == "--group" then session_mode_group else session_mode_remote

-- The mode, and the arguments from `commandStart` on.
unfoldable pub split_mode : List String → String × List String
split_mode [] = (session_mode_remote, [])
split_mode (flag ∷ args) =
    if is_mode_flag flag then (flag_mode flag, args) else (session_mode_remote, flag ∷ args)

unfoldable pub skip_separator : List String → List String
skip_separator [] = []
skip_separator (first ∷ args) = if first == "--" then args else first ∷ args

abbrev or_shell : String → List String → List String
or_shell shell [] = shell ∷ []
or_shell shell (c ∷ command) = c ∷ command

-- `launchFromArgs`: the mode and the command, with the default shell for none.
unfoldable pub launch_from_args : String → List String → String × List String
unfolding split_mode skip_separator
launch_from_args shell args =
    let (mode, rest) = split_mode (drop 1 args) in (mode, or_shell shell (skip_separator rest))

unfoldable pub host_control_command_args : List String → Option (List String)
host_control_command_args (program ∷ first ∷ args) = if first == "control" then some args else none
host_control_command_args _ = none

unfoldable pub wants_help : List String → Bool
wants_help (program ∷ flag ∷ []) = flag == "--help" || flag == "-h"
wants_help _ = false

unfoldable pub wants_version : List String → Bool
wants_version (program ∷ flag ∷ []) = flag == "--version" || flag == "-v"
wants_version _ = false

unfoldable pub has_explicit_session_mode : List String → Bool
has_explicit_session_mode (program ∷ flag ∷ args) = flag == "--remote" || flag == "--group"
has_explicit_session_mode _ = false

-- The variables and the files that `main.go` looks at; a variable that is not set is empty.
pub record Surroundings : Type 0 where
  pub no_tui : String
  pub term : String
  pub password : String
  pub relay_url : String
  pub web_url : String
  pub shell : String
  -- both files are there, and are terminals
  pub interactive : Bool

unfoldable pub default_shell : Surroundings → String
default_shell e = if not (e.shell == "") then e.shell else "/bin/sh"

unfoldable pub should_prompt_for_session_mode : Surroundings → List String → Bool
unfolding has_explicit_session_mode
should_prompt_for_session_mode e args =
    if has_explicit_session_mode args || e.no_tui == "1" || e.term == "dumb"
    then false
    else e.interactive

unfoldable pub relay_url_of : Surroundings → String
relay_url_of e = if e.relay_url == "" then "wss://relay.getsloth.dev" else e.relay_url

unfoldable pub web_url_of : Surroundings → String
web_url_of e = if e.web_url == "" then "https://getsloth.dev" else e.web_url

unfoldable pub choose_password : Surroundings → (ℕ → Option ℕ) → Option String
choose_password e draws =
    if e.password == "" then generate_password draws default_password_length else some e.password

-- What the picker gives: an error, a cancellation, or a mode.
pub data Picked : Type 0 where
  pick_failed : Picked
  cancelled : Picked
  picked : (mode : String) → Picked

-- What a run of the program comes to before it connects: the console, a text and an exit code, or a
-- session.
pub data Plan : Type 0 where
  console : (args : List String) → Plan
  help : Plan
  version : Plan
  exits : (code : ℕ) → Plan
  session : (mode : String) (command : List String) (relay_url web_url password : String) → Plan

-- `runCLIWithLauncher` up to `connectHost`.
unfoldable pub start_session : Surroundings → (ℕ → Option ℕ) → String → List String → Plan
unfolding relay_url_of web_url_of choose_password
start_session e draws mode command = elim (choose_password e draws) [
  | none ↦ Plan.exits 1
  | some password ↦ Plan.session mode command (relay_url_of e) (web_url_of e) password
]

unfoldable pub run_cli : Surroundings → (ℕ → Option ℕ) → Picked → List String → Plan
unfolding host_control_command_args wants_help wants_version launch_from_args
    should_prompt_for_session_mode default_shell start_session
run_cli e draws pick args = elim (host_control_command_args args) [
  | some control_args ↦ Plan.console control_args
  | none ↦
      if wants_help args
      then Plan.help
      else if wants_version args
      then Plan.version
      else (let (mode, command) = launch_from_args (default_shell e) args in
          if should_prompt_for_session_mode e args
          then elim pick [
            | Picked.pick_failed ↦ Plan.exits 1
            | Picked.cancelled ↦ Plan.exits 0
            | Picked.picked selected ↦ start_session e draws selected command
          ]
          else start_session e draws mode command)
]

-- Behind a mode flag and `--`, a command reaches the session as it is written, whatever its words
-- are, and no picker is shown.
pub separator_protects :
    (e : Surroundings) (draws : ℕ → Option ℕ) (pick : Picked) (program flag first : String)
    (more : List String)
    → is_mode_flag flag ≡ true
    → run_cli e draws pick (program ∷ flag ∷ "--" ∷ first ∷ more)
      ≡ start_session e draws (flag_mode flag) (first ∷ more)
unfolding run_cli host_control_command_args wants_help wants_version launch_from_args
    should_prompt_for_session_mode has_explicit_session_mode split_mode skip_separator
separator_protects e draws pick program flag first more named =
    elim (Bool-cases (flag == "--group")) [
      | inl g ↦ let same : flag ≡ "--group" = (eq_iff flag "--group").0 g in rw same refl
      | inr g ↦
          let same : flag ≡ "--remote" = ground (arith, named, g, eq_iff flag "--remote") in
          rw same refl
    ]
