-- ===== src/Console/Keybar.antt =====
-- The key bar of cmd/getsloth/host_control_tui.go and the keys of host_control_console.go. A key is
-- the number of its byte. `lipgloss.Width` is library code: a button comes with the width that it
-- gives for the rendered text.
use getsloth.Base.{
  ℕ, zero, suc, ◌+◌, ◌-◌, ◌<◌, String, Bool, true, false, ◌&&◌, ◌||◌, Option, none, some, List, [],
  ◌∷◌, ◌++◌, ◌≡◌, refl, sym, ap, ◌∙◌, arith, if◌then◌else◌, ltb, leb, eqb, Bool-cases, inl, inr,
}

-- `hostControlKeyAction`
unfoldable pub key_action : ℕ → String
key_action key =
    if eqb key 114 || eqb key 82
    then "reclaim"
    else if eqb key 107 || eqb key 75
    then "kill"
    else if eqb key 113 || eqb key 81
    then "quit"
    else if eqb key 105 || eqb key 73
    then "snapshot"
    else if eqb key 99 || eqb key 67
    then "copy"
    else ""

-- A button of `hostControlKeybarButtons`: its key and the columns that it takes.
pub record Button : Type 0 where
  pub key : ℕ
  pub width : ℕ

-- The columns of the five buttons, in their order, the third one's by `showInvite`.
pub record Widths : Type 0 where
  pub reclaim : ℕ
  pub kill : ℕ
  pub invite : ℕ
  pub hide : ℕ
  pub copy : ℕ
  pub close : ℕ

abbrev pub keybar_buttons : Widths → Bool → List Button
keybar_buttons w show_invite =
    record { key = 114; width = w.reclaim }
    ∷ record { key = 107; width = w.kill }
    ∷ record { key = 105; width = if show_invite then w.hide else w.invite }
    ∷ record { key = 99; width = w.copy }
    ∷ record { key = 113; width = w.close }
    ∷ []

abbrev pub keybar_gap : ℕ
keybar_gap = 3

-- `hostControlButtonRegion`
pub record Region : Type 0 where
  pub key : ℕ
  pub start_col : ℕ
  pub end_col : ℕ

-- The loop of `hostControlKeybarRegions` after the first button.
unfoldable pub later_regions : ℕ → List Button → List Region
later_regions col [] = []
later_regions col (b ∷ bs) =
    record { key = b.key; start_col = col + keybar_gap; end_col = col + keybar_gap + b.width }
    ∷ later_regions (col + keybar_gap + b.width) bs

unfoldable pub keybar_regions : List Button → List Region
unfolding later_regions
keybar_regions [] = []
keybar_regions (b ∷ bs) =
    record { key = b.key; start_col = 0; end_col = 0 + b.width } ∷ later_regions (0 + b.width) bs

-- The search of `Update` for the region of a click.
unfoldable pub region_key : ℕ → List Region → Option ℕ
region_key x [] = none
region_key x (r ∷ rs) =
    let rest = region_key x rs in if leb r.start_col x && ltb x r.end_col then some r.key else rest

-- A row of the screen as `renderHostControlKeybar` draws it: in each column the button drawn there,
-- or none for a blank of the gap.
abbrev pub cells : ℕ → Option ℕ → List (Option ℕ)
cells zero what = []
cells (suc n) what = what ∷ cells n what

unfoldable pub render_later : List Button → List (Option ℕ)
render_later [] = []
render_later (b ∷ bs) = cells keybar_gap none ++ cells b.width (some b.key) ++ render_later bs

unfoldable pub render_keybar : List Button → List (Option ℕ)
unfolding render_later
render_keybar [] = []
render_keybar (b ∷ bs) = cells b.width (some b.key) ++ render_later bs

-- What is drawn in a column, none also beyond the end of the row.
abbrev pub drawn_at : List (Option ℕ) → ℕ → Option ℕ
drawn_at [] x = none
drawn_at (c ∷ cs) zero = c
drawn_at (c ∷ cs) (suc x) = drawn_at cs x

drawn-cells_left :
    (n x : ℕ) (what : Option ℕ) (rest : List (Option ℕ))
    → x < n
    → drawn_at (cells n what ++ rest) x ≡ what
drawn-cells_left zero x what rest lt = absurd (omega (arith, lt))
drawn-cells_left (suc n) zero what rest lt = refl
drawn-cells_left (suc n) (suc x) what rest lt = drawn-cells_left n x what rest (omega (arith, lt))

drawn-cells_right :
    (n x : ℕ) (what : Option ℕ) (rest : List (Option ℕ))
    → drawn_at (cells n what ++ rest) (n + x) ≡ drawn_at rest x
drawn-cells_right zero x what rest = let same : 0 + x ≡ x = omega arith in ap (drawn_at rest) same
drawn-cells_right (suc n) x what rest =
    let same : suc n + x ≡ suc (n + x) = omega arith in
    ap (drawn_at (what ∷ cells n what ++ rest)) same ∙ drawn-cells_right n x what rest

before_regions :
    (x col : ℕ) (bs : List Button)
    → x < col + keybar_gap
    → region_key x (later_regions col bs) ≡ none
unfolding region_key later_regions
before_regions x col [] lt = refl
before_regions x col (b ∷ bs) lt =
    ground (arith, before_regions x (col + keybar_gap + b.width) bs (omega (arith, lt)))

-- The column `z` of the part that begins with the button at `start`.
button_drawn :
    (z start : ℕ) (b : Button) (bs : List Button)
    → ((y : ℕ)
        → region_key (start + b.width + y) (later_regions (start + b.width) bs)
          ≡ drawn_at (render_later bs) y)
    → region_key (start + z) (
        record { key = b.key; start_col = start; end_col = start + b.width }
        ∷ later_regions (start + b.width) bs)
      ≡ drawn_at (cells b.width (some b.key) ++ render_later bs) z
unfolding region_key
button_drawn z start b bs later = elim (Bool-cases (ltb z b.width)) [
  | inl e ↦
      let lt : z < b.width = ground (arith, e) in
      let inside : (leb start (start + z) && ltb (start + z) (start + b.width)) ≡ true =
        ground arith in
      rw inside (sym (drawn-cells_left b.width z (some b.key) (render_later bs) lt))
  | inr e ↦
      let past : z ≡ b.width + (z - b.width) = ground (arith, e) in
      let outside : (leb start (start + z) && ltb (start + z) (start + b.width)) ≡ false =
        ground (arith, e) in
      let shifted : start + z ≡ start + b.width + (z - b.width) = omega (arith, past) in
      rw outside (
        ap (λ x. region_key x (later_regions (start + b.width) bs)) shifted
        ∙ later (z - b.width)
        ∙ sym (drawn-cells_right b.width (z - b.width) (some b.key) (render_later bs))
        ∙ ap (drawn_at (cells b.width (some b.key) ++ render_later bs)) (sym past))
]

-- A column `y` past the button that ends at `col`.
later_drawn :
    (y col : ℕ) (bs : List Button)
    → region_key (col + y) (later_regions col bs) ≡ drawn_at (render_later bs) y
unfolding region_key later_regions render_later
later_drawn y col [] = refl
later_drawn y col (b ∷ bs) = elim (Bool-cases (ltb y keybar_gap)) [
  | inl e ↦
      let lt : y < keybar_gap = ground (arith, e) in
      before_regions (col + y) col (b ∷ bs) (omega (arith, lt))
      ∙ sym (drawn-cells_left keybar_gap y none (cells b.width (some b.key) ++ render_later bs) lt)
  | inr e ↦
      let past : y ≡ keybar_gap + (y - keybar_gap) = ground (arith, e) in
      let shifted : col + y ≡ col + keybar_gap + (y - keybar_gap) = omega (arith, past) in
      let drawn = cells b.width (some b.key) ++ render_later bs in
      ap (λ x. region_key x (later_regions col (b ∷ bs))) shifted
      ∙ button_drawn (y - keybar_gap) (col + keybar_gap) b bs
          (λ z. later_drawn z (col + keybar_gap + b.width) bs)
      ∙ sym (drawn-cells_right keybar_gap (y - keybar_gap) none drawn)
      ∙ ap (drawn_at (cells keybar_gap none ++ drawn)) (sym past)
]

-- A click on a column of the key bar finds the key of the button that is drawn in that column, and
-- no key in a gap or beyond the last button.
pub region_key-drawn_at :
    (x : ℕ) (bs : List Button) → region_key x (keybar_regions bs) ≡ drawn_at (render_keybar bs) x
unfolding keybar_regions render_keybar region_key
region_key-drawn_at x [] = refl
region_key-drawn_at x (b ∷ bs) =
    let same : x ≡ 0 + x = omega arith in
    ap (λ y. region_key y (keybar_regions (b ∷ bs))) same
    ∙ button_drawn x 0 b bs (λ z. later_drawn z (0 + b.width) bs)
