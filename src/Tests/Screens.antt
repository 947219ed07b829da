-- ===== src/Tests/Screens.antt =====
-- The console's key bar, its requests and its layout at concrete values.
use Prim.Native.Char.{Char, char}
use Prim.Native.String.{◌∷◌ as text_cons}
use getsloth.Base.{◌+◌, true, none, some, List, [], ◌∷◌, ◌≡◌, refl}
use getsloth.Console.Keybar.{
  Widths, keybar_buttons, keybar_regions, region_key, render_keybar, drawn_at, region_key-drawn_at,
}
use getsloth.Console.Screen.{Cmd, new_screen, handle_key}
use getsloth.Console.Screen.Polls.{Running, Happening, happen_all, polls, asked_in, polls_add_up}
use getsloth.Console.Screen.Names.{any_r_reclaims}
use getsloth.Tests.Consoles.{snapshot_of}

abbrev widths : Widths
widths = record { reclaim = 11; kill = 16; invite = 10; hide = 8; copy = 8; close = 9 }

region_key-drawn_at_example :
    region_key 15 (keybar_regions (keybar_buttons widths true))
    ≡ drawn_at (render_keybar (keybar_buttons widths true)) 15
region_key-drawn_at_example = region_key-drawn_at 15 (keybar_buttons widths true)

abbrev opened : Running
opened = record { screen = new_screen (snapshot_of []); pending = Cmd.ask_snapshot ∷ [] }

abbrev pressed : List Happening
pressed =
    Happening.presses "r"
    ∷ Happening.completes 0 (some (snapshot_of []))
    ∷ Happening.clicks (record { release = true; left = true; x = 15; y = 1 })
    ∷ Happening.completes 1 none
    ∷ []

polls_add_up_example :
    polls (happen_all widths pressed opened).pending ≡ asked_in widths pressed opened + 1
polls_add_up_example = polls_add_up widths pressed opened

abbrev letter_r : Char
letter_r = char 114 tt

any_r_reclaims_example :
    handle_key (text_cons letter_r "ight") (new_screen (snapshot_of []))
    ≡ (new_screen (snapshot_of []), some (Cmd.ask_action "reclaim"))
any_r_reclaims_example = any_r_reclaims letter_r "ight" (new_screen (snapshot_of [])) refl
