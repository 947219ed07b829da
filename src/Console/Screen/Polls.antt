-- ===== src/Console/Screen/Polls.antt =====
-- How often the console asks the host: the loop of requests that `Update` keeps alive, and what each
-- key adds to it.
use Prim.Native.Char.{code}
use Prim.Native.String.{[] as empty_text, ◌∷◌ as text_cons}
use mathlib.Core.Path.{subst}
use getsloth.Base.{
  ℕ, zero, suc, ◌+◌, String, Bool, true, false, not, ◌||◌, Option, none, some, List, [], ◌∷◌, ◌++◌,
  ◌≡◌, inl, inr, refl, ap, ◌∙◌, arith, if◌then◌else◌, eqb, Option-cases,
}
use getsloth.Host.Status.{Snapshot}
use getsloth.Console.Keybar.{Widths, keybar_buttons, keybar_regions, region_key}
use getsloth.Console.Screen.{
  Screen, ScreenMsg, Cmd, Mouse, handle_control_key, first_byte_key, handle_key, handle_mouse,
  update_screen, keybar_row,
}

-- The console with the commands that have not completed yet.
pub record Running : Type 0 where
  pub screen : Screen
  pub pending : List Cmd

-- What happens: a message from the terminal, or the completion of the pending command with a
-- number, with what the host answered where it asked.
pub data Happening : Type 0 where
  resizes : (width height : ℕ) → Happening
  presses : (name : String) → Happening
  clicks : (m : Mouse) → Happening
  completes : (index : ℕ) (answer : Option Snapshot) → Happening

-- The message of a completed command.
abbrev pub message_of : Cmd → Option Snapshot → Option ScreenMsg
message_of Cmd.tick answer = some ScreenMsg.refresh
message_of Cmd.ask_snapshot answer = some (ScreenMsg.snapshot_arrived answer)
message_of (Cmd.ask_action action) answer = some (ScreenMsg.snapshot_arrived answer)
message_of (Cmd.copy text) answer = none
message_of Cmd.quit answer = none

-- The command with a number, and the others.
unfoldable pub take_out : ℕ → List Cmd → Option (Cmd × List Cmd)
take_out i [] = none
take_out zero (c ∷ cs) = some (c, cs)
take_out (suc i) (c ∷ cs) = elim (take_out i cs) [
  | none ↦ none
  | some (found, others) ↦ some (found, c ∷ others)
]

abbrev started : Option Cmd → List Cmd
started none = []
started (some c) = c ∷ []

module _ (w : Widths) where
  unfoldable pub feed : ScreenMsg → Screen → List Cmd → Running
  feed m s pending =
      let (s', cmd) = update_screen w m s in
      record { screen = s'; pending = started cmd ++ pending }

  unfoldable pub happen : Happening → Running → Running
  unfolding feed take_out
  happen (Happening.resizes width height) r =
      feed (ScreenMsg.window_size width height) r.screen r.pending
  happen (Happening.presses name) r = feed (ScreenMsg.key name) r.screen r.pending
  happen (Happening.clicks m) r = feed (ScreenMsg.mouse m) r.screen r.pending
  happen (Happening.completes i answer) r = elim (take_out i r.pending) [
    | none ↦ r
    | some (c, others) ↦ elim (message_of c answer) [
      | none ↦ record r { pending = others }
      | some m ↦ feed m r.screen others
    ]
  ]

  unfoldable pub happen_all : List Happening → Running → Running
  unfolding happen
  happen_all [] r = r
  happen_all (e ∷ es) r = happen_all es (happen e r)

-- Whether a command is a turn of a loop of requests.
abbrev pub polls_one : Cmd → ℕ
polls_one Cmd.tick = 1
polls_one Cmd.ask_snapshot = 1
polls_one (Cmd.ask_action action) = 1
polls_one _ = 0

abbrev pub polls : List Cmd → ℕ
polls [] = 0
polls (c ∷ cs) = polls_one c + polls cs

-- The commands that ask for an action, among those that start.
abbrev pub asks : Option Cmd → ℕ
asks (some (Cmd.ask_action action)) = 1
asks _ = 0

-- How many actions a happening asks for: only keys and clicks do.
module _ (w : Widths) where
  abbrev pub asked : Happening → Screen → ℕ
  asked (Happening.presses name) s = asks (handle_key name s).1
  asked (Happening.clicks m) s = asks (handle_mouse w m s).1
  asked _ s = 0

  abbrev pub asked_in : List Happening → Running → ℕ
  asked_in [] r = 0
  asked_in (e ∷ es) r = asked e r.screen + asked_in es (happen w e r)

-- Taking out a command takes out its poll.
abbrev Parted : List Cmd → Option (Cmd × List Cmd) → Type 0
Parted cs none = Unit {0}
Parted cs (some (c, others)) = polls cs ≡ polls_one c + polls others

take_out-Parted : (i : ℕ) (cs : List Cmd) → Parted cs (take_out i cs)
unfolding take_out
take_out-Parted i [] = tt
take_out-Parted zero (c ∷ cs) = refl
take_out-Parted (suc i) (c ∷ cs) = elim (Option-cases (take_out i cs)) [
  | inl e ↦ rw (e, take_out) tt
  | inr ((found, others), e) ↦
      let h : polls cs ≡ polls_one found + polls others =
        subst (Parted cs) e (take_out-Parted i cs) in
      rw (e, take_out) (omega (arith, h))
]

-- A command of a key or a click polls only when it asks for an action.
abbrev IsFair : Screen × Option Cmd → Type 0
IsFair r = polls (started r.1) ≡ asks r.1

if-IsFair :
    (b : Bool) (x y : Screen × Option Cmd) → IsFair x → IsFair y → IsFair (if b then x else y)
if-IsFair true x y f g = f
if-IsFair false x y f g = g

control_key-IsFair : (byte : ℕ) (s : Screen) → IsFair (handle_control_key byte s)
unfolding handle_control_key
control_key-IsFair byte s = ground arith

first_byte-IsFair : (name : String) (s : Screen) → IsFair (first_byte_key name s)
unfolding first_byte_key
first_byte-IsFair empty_text s = refl
first_byte-IsFair (text_cons c name) s = control_key-IsFair (code c) s

key-IsFair : (name : String) (s : Screen) → IsFair (handle_key name s)
unfolding handle_key
key-IsFair name s = ground (arith, first_byte-IsFair name s)

mouse-IsFair : (w : Widths) (m : Mouse) (s : Screen) → IsFair (handle_mouse w m s)
unfolding handle_mouse
mouse-IsFair w m s =
    if-IsFair (not m.release || not m.left || not (eqb m.y keybar_row)) (s, none)
      (elim (region_key m.x (keybar_regions (keybar_buttons w s.show_invite))) [
        | none ↦ (s, none)
        | some k ↦ handle_control_key k s
      ])
      refl (found (region_key m.x (keybar_regions (keybar_buttons w s.show_invite))))
  where
    found : (o : Option ℕ) → IsFair (elim o [ none ↦ (s, none) | some k ↦ handle_control_key k s ])
    found none = refl
    found (some k) = control_key-IsFair k s

module _ (w : Widths) where
  started-append :
      (cmd : Option Cmd) (cs : List Cmd)
      → polls (started cmd ++ cs) ≡ polls (started cmd) + polls cs
  started-append none cs = omega arith
  started-append (some c) cs = omega arith

  completed :
      (c : Cmd) (others : List Cmd) (answer : Option Snapshot) (r : Running)
      → polls
          (elim (message_of c answer) as (λ _. Running) [
            | none ↦ record r { pending = others }
            | some m ↦ feed w m r.screen others
          ]).pending
        ≡ polls_one c + polls others
  unfolding feed update_screen
  completed Cmd.tick others answer r = refl
  completed Cmd.ask_snapshot others none r = refl
  completed Cmd.ask_snapshot others (some t) r = refl
  completed (Cmd.ask_action action) others none r = refl
  completed (Cmd.ask_action action) others (some t) r = refl
  completed (Cmd.copy text) others answer r = omega arith
  completed Cmd.quit others answer r = omega arith

  happen-polls :
      (e : Happening) (r : Running)
      → polls (happen w e r).pending ≡ asked w e r.screen + polls r.pending
  unfolding happen feed update_screen
  happen-polls (Happening.resizes width height) r = omega arith
  happen-polls (Happening.presses name) r =
      started-append (handle_key name r.screen).1 r.pending
      ∙ ap (λ n. n + polls r.pending) (key-IsFair name r.screen)
  happen-polls (Happening.clicks m) r =
      started-append (handle_mouse w m r.screen).1 r.pending
      ∙ ap (λ n. n + polls r.pending) (mouse-IsFair w m r.screen)
  happen-polls (Happening.completes i answer) r = elim (Option-cases (take_out i r.pending)) [
    | inl e ↦ rw (e, happen) (omega arith)
    | inr ((c, others), e) ↦
        let parted : polls r.pending ≡ polls_one c + polls others =
          subst (Parted r.pending) e (take_out-Parted i r.pending) in
        rw (e, happen) (omega (arith, completed c others answer r, parted))
  ]

  -- However the console runs, the loops that ask the host for snapshots are those at the start and
  -- one more for each action that was asked for: none of them ends.
  pub polls_add_up :
      (es : List Happening) (r : Running)
      → polls (happen_all w es r).pending ≡ asked_in w es r + polls r.pending
  unfolding happen_all
  polls_add_up [] r = omega arith
  polls_add_up (e ∷ es) r = omega (arith, polls_add_up es (happen w e r), happen-polls e r)
