-- ===== src/Console/Canvas.antt =====
-- Panels of cmd/getsloth/host_control_layout.go: `titledPanel` and `padTo`. A picture is its lines,
-- which the code joins by line ends. lipgloss, ansi, fmt and strings.ToUpper are library code:
-- `Canvas` is a parameter. Sizes are natural numbers; the
-- callers keep them at 7 or more, where no difference of the code is negative.
use Prim.Native.String.{◌++◌ as text_append}
use getsloth.Base.{ℕ, zero, suc, ◌-◌, String, List, [], ◌∷◌, ◌++◌, if◌then◌else◌, ltb}
use getsloth.Console.Charts.{larger}

-- The three colours of `chartToneFor`.
pub data Level : Type 0 where
  good : Level
  warn : Level
  bad : Level

-- The styles that texts are drawn in.
pub data Tone : Type 0 where
  accent : Tone
  live : Tone
  muted : Tone
  danger : Tone
  key : Tone
  border : Tone
  grid : Tone
  line : Level → Tone
  fill : Level → Tone
  viewer : (color : ℕ) → Tone

pub record Canvas : Type 0 where
  -- `lipgloss.Style.Render`, `lipgloss.Width` and `ansi.Truncate`
  pub render : Tone → String → String
  pub width_of : String → ℕ
  pub truncate : String → ℕ → String → String
  -- `lipgloss.JoinHorizontal` at the top
  pub join_horizontal : List (List String) → List String
  pub to_upper : String → String
  -- the verbs %d and %4d of fmt
  pub decimal : ℕ → String
  pub decimal_4 : ℕ → String
  -- `strings.Fields`
  pub words : String → List String
  -- `strings.Split(strings.TrimRight(s, "\n"), "\n")`
  pub lines_of : String → List String
  -- the panel of `controlPanel` at a width
  pub boxed : ℕ → List String → List String
  -- a text from its bytes and back, and from one code point
  pub bytes_of : String → List ℕ
  pub text_of : List ℕ → String
  pub text_of_rune : ℕ → String

infixr 5 ◌+++◌
abbrev pub ◌+++◌ : String → String → String
s +++ t = text_append s t

-- `strings.Repeat`
unfoldable pub repeat_text : String → ℕ → String
repeat_text s zero = ""
repeat_text s (suc n) = s +++ repeat_text s n

module _ (c : Canvas) where
  unfoldable pub pad_to : String → ℕ → String
  unfolding repeat_text
  pad_to s width =
      let gap = width - c.width_of s in
      if ltb 0 gap then s +++ repeat_text " " gap else c.truncate s width ""

  -- The loop of `titledPanel`: the rows inside, the missing ones empty.
  unfoldable pub panel_rows : ℕ → ℕ → List String → List String
  unfolding pad_to
  panel_rows inner zero lines = []
  panel_rows inner (suc left) [] =
      (c.render Tone.border "│" +++ " " +++ pad_to "" inner +++ " " +++ c.render Tone.border "│")
      ∷ panel_rows inner left []
  panel_rows inner (suc left) (l ∷ lines) =
      (c.render Tone.border "│" +++ " " +++ pad_to l inner +++ " " +++ c.render Tone.border "│")
      ∷ panel_rows inner left lines

  unfoldable pub titled_panel : String → List String → ℕ → ℕ → List String
  unfolding panel_rows
  titled_panel title lines width inner_rows =
      let cut = c.truncate title (larger (width - 6) 1) "…" in
      let dashes = width - 5 - c.width_of cut in
      (c.render Tone.border "┌─ "
        +++ cut
        +++ c.render Tone.border (" " +++ repeat_text "─" dashes +++ "┐"))
      ∷ (panel_rows (width - 4) inner_rows lines
          ++ c.render Tone.border ("└" +++ repeat_text "─" (width - 2) +++ "┘") ∷ [])
