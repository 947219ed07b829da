-- ===== src/Console/Screen/Names.antt =====
-- Keys with longer names: `Update` looks only at the first byte of a name that its switch does not
-- have.
use Prim.Native.Char.{Char, code}
use Prim.Native.String.{[] as empty_text, ◌∷◌ as text_cons}
use getsloth.Base.{ℕ, String, false, some, ◌≡◌, ◌≢◌, refl, sym, ap, ◌∙◌, arith, ◌==◌, ne→eq_false}
use getsloth.Console.Keybar.{key_action}
use getsloth.Console.Screen.{Screen, Cmd, handle_control_key, first_byte_key, handle_key}

abbrev first_code : String → ℕ
first_code empty_text = 0
first_code (text_cons c s) = code c

not_named :
    (c : Char) (rest name : String)
    → code c ≡ 114
    → first_code name ≢ 114
    → (text_cons c rest == name) ≡ false
not_named c rest name r other =
    ne→eq_false (text_cons c rest) name (λ e. other (sym (ap first_code e) ∙ r))

-- Every key whose name begins with `r` reclaims control, also one that is not the letter, like the
-- arrow key `right`.
pub any_r_reclaims :
    (c : Char) (rest : String) (s : Screen)
    → code c ≡ 114
    → handle_key (text_cons c rest) s ≡ (s, some (Cmd.ask_action "reclaim"))
unfolding handle_key first_byte_key handle_control_key key_action
any_r_reclaims c rest s r =
    rw
      (
        not_named c rest "tab" r (λ e. absurd (omega (arith, e))),
        not_named c rest "g" r (λ e. absurd (omega (arith, e))),
        not_named c rest "G" r (λ e. absurd (omega (arith, e))),
        not_named c rest "u" r (λ e. absurd (omega (arith, e))),
        not_named c rest "U" r (λ e. absurd (omega (arith, e))),
        not_named c rest "j" r (λ e. absurd (omega (arith, e))),
        not_named c rest "J" r (λ e. absurd (omega (arith, e))),
        r,
      )
      refl
