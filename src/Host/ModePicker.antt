-- ===== src/Host/ModePicker.antt =====
-- `sessionModePicker` of cmd/getsloth/session_mode_tui.go: its state and `Update`, run on messages
-- until Bubble Tea hands it the one that ends the program. `tea.Quit` only asks for that message, so
-- keys that are typed ahead can come before it. What is drawn is not modelled. A size is a natural number: a negative one is
-- ignored, as 0 is.
use mathlib.Core.Path.{subst}
use getsloth.Base.{
  ◌&&◌, eq_iff, arith, ap, sym, ◌∙◌, ℕ, ◌+◌, ◌-◌, String, Bool, true, false, not, ◌||◌, List, [],
  ◌∷◌, ◌≡◌, inl, inr, refl, ◌==◌, if◌then◌else◌, ltb, eqb, Bool-cases,
}
use getsloth.Protocol.{session_mode_remote, session_mode_group}

pub record Picker : Type 0 where
  pub selected : ℕ
  pub width : ℕ
  pub height : ℕ
  pub confirmed : Bool
  pub cancelled : Bool

pub data PickerMsg : Type 0 where
  resized : (width height : ℕ) → PickerMsg
  typed : (key : String) → PickerMsg
  -- `tea.QuitMsg`, which the library keeps to itself
  quit : PickerMsg

-- `len(sessionModeOptions)`
abbrev pub option_count : ℕ
option_count = 2

unfoldable pub new_session_mode_picker : ℕ → Picker
new_session_mode_picker width = record {
  selected = 0;
  width = if eqb width 0 then 80 else width;
  height = 0;
  confirmed = false;
  cancelled = false;
}

-- The picker after a message, and whether it asks to quit.
unfoldable pub press_key : String → Picker → Picker × Bool
press_key key m =
    if key == "up" || key == "k"
    then (record m { selected = m.selected - 1 }, false)
    else if key == "down" || key == "j"
    then (
      record m {
        selected =
            if ltb (m.selected + 1) (option_count - 1) then m.selected + 1 else option_count - 1;
      },
      false,
    )
    else if key == "enter"
    then (record m { confirmed = true }, true)
    else if key == "esc" || key == "q" || key == "ctrl+c"
    then (record m { cancelled = true }, true)
    else (m, false)

unfoldable pub update_picker : PickerMsg → Picker → Picker × Bool
unfolding press_key
update_picker (PickerMsg.resized width height) m = (
  record m {
    width = if ltb 0 width then width else m.width;
    height = if ltb 0 height then height else m.height;
  },
  false,
)
update_picker (PickerMsg.typed key) m = press_key key m
update_picker PickerMsg.quit m = (m, false)

-- The model when the program ends, with the messages in the order in which they are delivered.
unfoldable pub run_picker : List PickerMsg → Picker → Picker
unfolding update_picker
run_picker [] m = m
run_picker (PickerMsg.quit ∷ msgs) m = m
run_picker (PickerMsg.typed key ∷ msgs) m =
    run_picker msgs (update_picker (PickerMsg.typed key) m).0
run_picker (PickerMsg.resized width height ∷ msgs) m =
    run_picker msgs (update_picker (PickerMsg.resized width height) m).0

unfoldable pub selected_mode : Picker → String
selected_mode m =
    if eqb m.selected 0
    then session_mode_remote
    else if eqb m.selected 1
    then session_mode_group
    else session_mode_remote

-- `chooseSessionMode`: the mode, and whether one was chosen.
unfoldable pub choose_session_mode : List PickerMsg → String × Bool
unfolding run_picker selected_mode new_session_mode_picker
choose_session_mode msgs =
    let m = run_picker msgs (new_session_mode_picker 80) in
    if not m.confirmed || m.cancelled then ("", false) else (selected_mode m, true)

-- The same by the keys alone: those that are delivered before the end, whether one of them is
-- `enter`, whether one cancels, and what the last arrow points to.
abbrev pub keys_of : List PickerMsg → List String
keys_of [] = []
keys_of (PickerMsg.quit ∷ msgs) = []
keys_of (PickerMsg.typed key ∷ msgs) = key ∷ keys_of msgs
keys_of (PickerMsg.resized width height ∷ msgs) = keys_of msgs

abbrev pub is_cancel : String → Bool
is_cancel key = key == "esc" || key == "q" || key == "ctrl+c"

abbrev pub any_key : (String → Bool) → List String → Bool
any_key f [] = false
any_key f (key ∷ keys) = f key || any_key f keys

abbrev pub last_arrow : Bool → List String → Bool
last_arrow group [] = group
last_arrow group (key ∷ keys) =
    last_arrow
      (if key == "up" || key == "k"
        then false
        else if key == "down" || key == "j"
        then true
        else group)
      keys

abbrev pub choice : List String → String × Bool
choice keys =
    if any_key (λ key. key == "enter") keys && not (any_key is_cancel keys)
    then ((if last_arrow false keys then session_mode_group else session_mode_remote), true)
    else ("", false)

-- The state of the picker: the option that is on, and the two flags.
abbrev Stands : Bool → Bool → Bool → Picker → Type 0
Stands group confirmed cancelled m =
    (m.selected ≡ (if group then 1 else 0)) × (m.confirmed ≡ confirmed) × (m.cancelled ≡ cancelled)

press-Stands :
    (group confirmed cancelled : Bool) (m : Picker)
    → Stands group confirmed cancelled m
    → (key : String)
    → Stands
        (last_arrow group (key ∷ []))
        (key == "enter" || confirmed)
        (is_cancel key || cancelled)
        (press_key key m).0
unfolding press_key
press-Stands group confirmed cancelled m s key =
    at "up" (ground (arith, s.0), s.1, s.2)
      (λ up.
        at "k" (ground (arith, s.0), s.1, s.2)
          (λ k.
            at "down" (ground (arith, s.0), s.1, s.2)
              (λ down.
                at "j" (ground (arith, s.0), s.1, s.2)
                  (λ j.
                    at "enter" (s.0, refl, s.2)
                      (λ enter.
                        at "esc" (s.0, s.1, refl)
                          (λ esc.
                            at "q" (s.0, s.1, refl)
                              (λ q.
                                at "ctrl+c" (s.0, s.1, refl)
                                  (λ ctrl_c.
                                    rw (up, k, down, j, enter, esc, q, ctrl_c, press_key) s))))))))
  where
    After : String → Type 0
    After k =
        Stands (last_arrow group (k ∷ [])) (k == "enter" || confirmed) (is_cancel k || cancelled)
          (press_key k m).0

    at : (name : String) → After name → ((key == name) ≡ false → After key) → After key
    at name here otherwise = elim (Bool-cases (key == name)) [
      | inl e ↦ subst After (sym ((eq_iff key name).0 e)) here
      | inr e ↦ otherwise e
    ]

-- The answer for a picker's state.
abbrev answer : Bool → Bool → Bool → String × Bool
answer group confirmed cancelled =
    if confirmed && not cancelled
    then ((if group then session_mode_group else session_mode_remote), true)
    else ("", false)

abbrev result : Picker → String × Bool
result m = if not m.confirmed || m.cancelled then ("", false) else (selected_mode m, true)

result-answer :
    (group confirmed cancelled : Bool) (m : Picker)
    → Stands group confirmed cancelled m
    → result m ≡ answer group confirmed cancelled
unfolding selected_mode
result-answer true true true m s = rw (s.1, s.2) refl
result-answer true true false m s = rw (s.0, s.1, s.2) refl
result-answer true false cancelled m s = rw s.1 refl
result-answer false true true m s = rw (s.1, s.2) refl
result-answer false true false m s = rw (s.0, s.1, s.2) refl
result-answer false false cancelled m s = rw s.1 refl

or_left_comm : (a b c : Bool) → a || (b || c) ≡ (b || a) || c
or_left_comm true true c = refl
or_left_comm true false c = refl
or_left_comm false true c = refl
or_left_comm false false c = refl

or_false : (a : Bool) → a || false ≡ a
or_false true = refl
or_false false = refl

run-answer :
    (msgs : List PickerMsg) (group confirmed cancelled : Bool) (m : Picker)
    → Stands group confirmed cancelled m
    → result (run_picker msgs m)
      ≡ answer
          (last_arrow group (keys_of msgs))
          (any_key (λ key. key == "enter") (keys_of msgs) || confirmed)
          (any_key is_cancel (keys_of msgs) || cancelled)
unfolding run_picker update_picker
run-answer [] group confirmed cancelled m s = result-answer group confirmed cancelled m s
run-answer (PickerMsg.quit ∷ msgs) group confirmed cancelled m s =
    result-answer group confirmed cancelled m s
run-answer (PickerMsg.resized width height ∷ msgs) group confirmed cancelled m s =
    run-answer msgs group confirmed cancelled _ s
run-answer (PickerMsg.typed key ∷ msgs) group confirmed cancelled m s =
    let keys = keys_of msgs in
    run-answer msgs (last_arrow group (key ∷ [])) (key == "enter" || confirmed)
      (is_cancel key || cancelled) (press_key key m).0
      (press-Stands group confirmed cancelled m s key)
    ∙ ap
        (λ b.
          answer (last_arrow group (key ∷ keys)) b
            (any_key is_cancel keys || (is_cancel key || cancelled)))
        (or_left_comm (any_key (λ k. k == "enter") keys) (key == "enter") confirmed)
    ∙ ap
        (λ b.
          answer (last_arrow group (key ∷ keys))
            ((key == "enter" || any_key (λ k. k == "enter") keys) || confirmed) b)
        (or_left_comm (any_key is_cancel keys) (is_cancel key) cancelled)

-- Whatever is typed and however the terminal changes its size, and however late the library ends the
-- program: the picker gives a mode exactly when one of the keys that it is handed is `enter` and none
-- of them cancels, and it is the mode that the last arrow of them all points to, the remote mode when
-- there is none. So keys after `enter` that come before the end still count.
pub choose_session_mode-choice :
    (msgs : List PickerMsg) → choose_session_mode msgs ≡ choice (keys_of msgs)
unfolding choose_session_mode new_session_mode_picker
choose_session_mode-choice msgs =
    let keys = keys_of msgs in
    run-answer msgs false false false (new_session_mode_picker 80) (refl, refl, refl)
    ∙ ap (λ b. answer (last_arrow false keys) b (any_key is_cancel keys || false))
        (or_false (any_key (λ k. k == "enter") keys))
    ∙ ap (λ b. answer (last_arrow false keys) (any_key (λ k. k == "enter") keys) b)
        (or_false (any_key is_cancel keys))
