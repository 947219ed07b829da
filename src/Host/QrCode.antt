-- ===== src/Host/QrCode.antt =====
-- cmd/getsloth/qrcode.go: the quiet zone and the rendering without colours. The symbol itself comes
-- from library code: a matrix is its rows, `true` for a dark module. Go panics on a matrix without
-- rows and on a row that is shorter than the one above it: `half_block_line` and `first_width` give light
-- modules and no width there, and the theorems are on matrices whose rows are equally long.
pub mod Scan
use mathlib.Core.Path.{subst}
use getsloth.Base.{
  ℕ, zero, suc, ◌+◌, ◌*◌, Bool, true, false, ◌&&◌, List, [], ◌∷◌, ◌++◌, map, ◌≡◌, refl, sym, ap,
  ◌∙◌, arith, length, take, drop, All, if◌then◌else◌, append_assoc, length-append,
}

abbrev pub Row : Type 0
Row = List Bool

abbrev pub quiet_zone_modules : ℕ
quiet_zone_modules = 1

-- `n` equal things
abbrev pub repeat : {A : Type 0} → ℕ → A → List A
repeat zero x = []
repeat (suc n) x = x ∷ repeat n x

abbrev pub first_width : List Row → ℕ
first_width [] = 0
first_width (row ∷ rows) = length row

-- A row with light modules at both ends.
unfoldable pub pad_row : ℕ → Row → Row
pad_row margin row = repeat margin false ++ (row ++ repeat margin false)

-- `padQuietZone`
unfoldable pub pad_quiet_zone : List Row → ℕ → List Row
unfolding pad_row
pad_quiet_zone bits margin =
    let light = repeat (first_width bits + margin * 2) false in
    repeat margin light ++ (map (pad_row margin) bits ++ repeat margin light)

-- The four characters: full block, upper half, lower half, blank.
pub data Glyph : Type 0 where
  full : Glyph
  upper : Glyph
  lower : Glyph
  blank : Glyph

abbrev pub glyph_of : Bool → Bool → Glyph
glyph_of top bottom =
    if top && bottom
    then Glyph.full
    else if top
    then Glyph.upper
    else if bottom
    then Glyph.lower
    else Glyph.blank

-- One line of the text, of two rows of modules.
unfoldable pub half_block_line : Row → Row → List Glyph
half_block_line [] bottoms = []
half_block_line (top ∷ tops) [] = glyph_of top false ∷ half_block_line tops []
half_block_line (top ∷ tops) (bottom ∷ bottoms) = glyph_of top bottom ∷ half_block_line tops bottoms

-- `renderPlainHalfBlocks`, the lines without their ends; the last row of an odd number stands over
-- light modules.
unfoldable pub render_plain_half_blocks : List Row → List (List Glyph)
unfolding half_block_line
render_plain_half_blocks [] = []
render_plain_half_blocks (top ∷ []) = half_block_line top [] ∷ []
render_plain_half_blocks (top ∷ bottom ∷ rows) =
    half_block_line top bottom ∷ render_plain_half_blocks rows

-- `renderQRCodeWithRenderer` for a terminal without colours, from the library's matrix on.
unfoldable pub render_symbol : List Row → List (List Glyph)
unfolding pad_quiet_zone render_plain_half_blocks
render_symbol bits = render_plain_half_blocks (pad_quiet_zone bits quiet_zone_modules)
