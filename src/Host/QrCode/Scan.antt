-- ===== src/Host/QrCode/Scan.antt =====
-- What a scanner sees of the QR code that is drawn without colours.
use mathlib.Core.Path.{subst}
use getsloth.Base.{
  ℕ, zero, suc, ◌+◌, ◌*◌, Bool, true, false, List, [], ◌∷◌, ◌++◌, map, ◌≡◌, refl, sym, ap, ◌∙◌,
  arith, length, take, drop, All, append_assoc, length-append,
}
use getsloth.Host.QrCode.{
  Row, repeat, pad_row, pad_quiet_zone, Glyph, glyph_of, half_block_line, render_plain_half_blocks,
}

-- What a scanner sees.
abbrev pub top_of : Glyph → Bool
top_of Glyph.full = true
top_of Glyph.upper = true
top_of Glyph.lower = false
top_of Glyph.blank = false

abbrev pub bottom_of : Glyph → Bool
bottom_of Glyph.full = true
bottom_of Glyph.upper = false
bottom_of Glyph.lower = true
bottom_of Glyph.blank = false

abbrev pub scan : List (List Glyph) → List Row
scan [] = []
scan (line ∷ lines) = map top_of line ∷ map bottom_of line ∷ scan lines

-- A matrix with an even number of rows.
abbrev pub evened : List Row → List Row
evened [] = []
evened (top ∷ []) = top ∷ repeat (length top) false ∷ []
evened (top ∷ bottom ∷ rows) = top ∷ bottom ∷ evened rows

abbrev pub IsWide : ℕ → List Row → Type 0
IsWide n rows = All (λ row. length row ≡ n) rows

glyph-halves :
    (top bottom : Bool)
    → (top_of (glyph_of top bottom) ≡ top) × (bottom_of (glyph_of top bottom) ≡ bottom)
glyph-halves true true = (refl, refl)
glyph-halves true false = (refl, refl)
glyph-halves false true = (refl, refl)
glyph-halves false false = (refl, refl)

line-top : (tops bottoms : Row) → map top_of (half_block_line tops bottoms) ≡ tops
unfolding half_block_line
line-top [] bottoms = refl
line-top (top ∷ tops) [] = rw ((glyph-halves top false).0, line-top tops []) refl
line-top (top ∷ tops) (bottom ∷ bottoms) =
    rw ((glyph-halves top bottom).0, line-top tops bottoms) refl

line-bottom :
    (tops bottoms : Row)
    → length bottoms ≡ length tops
    → map bottom_of (half_block_line tops bottoms) ≡ bottoms
unfolding half_block_line
line-bottom [] [] same = refl
line-bottom [] (bottom ∷ bottoms) same = absurd (omega (arith, same))
line-bottom (top ∷ tops) [] same = absurd (omega (arith, same))
line-bottom (top ∷ tops) (bottom ∷ bottoms) same =
    rw ((glyph-halves top bottom).1, line-bottom tops bottoms (omega (arith, same))) refl

line-light : (tops : Row) → map bottom_of (half_block_line tops []) ≡ repeat (length tops) false
unfolding half_block_line
line-light [] = refl
line-light (top ∷ tops) = rw ((glyph-halves top false).1, line-light tops) refl

-- The text without colours holds the whole matrix: the halves of its characters, read row by row,
-- are the modules, with one light row more where the number of rows is odd.
scan-render :
    (n : ℕ) (rows : List Row) → IsWide n rows → scan (render_plain_half_blocks rows) ≡ evened rows
unfolding render_plain_half_blocks
scan-render n [] wide = refl
scan-render n (top ∷ []) wide = rw (line-top top [], line-light top) refl
scan-render n (top ∷ bottom ∷ rows) wide =
    rw
      (
        line-top top bottom,
        line-bottom top bottom (omega (arith, wide.0, wide.1.0)),
        scan-render n rows wide.1.1,
      )
      refl

length-repeat : {A : Type 0} (n : ℕ) (x : A) → length (repeat n x) ≡ n
length-repeat zero x = refl
length-repeat (suc n) x = ap suc (length-repeat n x)

repeat-IsWide : (m n : ℕ) → IsWide n (repeat m (repeat n false))
repeat-IsWide zero n = tt
repeat-IsWide (suc m) n = (length-repeat n false, repeat-IsWide m n)

IsWide-append : (n : ℕ) (xs ys : List Row) → IsWide n xs → IsWide n ys → IsWide n (xs ++ ys)
IsWide-append n [] ys wide also = also
IsWide-append n (row ∷ xs) ys wide also = (wide.0, IsWide-append n xs ys wide.1 also)

length-pad_row : (margin : ℕ) (row : Row) → length (pad_row margin row) ≡ length row + margin * 2
unfolding pad_row
length-pad_row margin row = omega (
  arith,
  length-append (repeat margin false) (row ++ repeat margin false),
  length-append row (repeat margin false),
  length-repeat margin false,
)

length-map : {A B : Type 0} (f : A → B) (xs : List A) → length (map f xs) ≡ length xs
length-map f [] = refl
length-map f (x ∷ xs) = ap suc (length-map f xs)

padded-IsWide :
    (margin n : ℕ) (rows : List Row)
    → IsWide n rows
    → IsWide (n + margin * 2) (map (pad_row margin) rows)
unfolding pad_row
padded-IsWide margin n [] wide = tt
padded-IsWide margin n (row ∷ rows) wide = (
  length-pad_row margin row ∙ ap (λ k. k + margin * 2) wide.0,
  padded-IsWide margin n rows wide.1,
)

-- The matrix inside a margin, of a number of rows and a width.
abbrev pub crop : ℕ → ℕ → ℕ → List Row → List Row
crop margin height width rows =
    map (λ row. take width (drop margin row)) (take height (drop margin rows))

drop-repeat : {A : Type 0} (n : ℕ) (x : A) (ys : List A) → drop n (repeat n x ++ ys) ≡ ys
drop-repeat zero x ys = refl
drop-repeat (suc n) x ys = drop-repeat n x ys

take-left : {A : Type 0} (xs ys : List A) → take (length xs) (xs ++ ys) ≡ xs
take-left [] ys = refl
take-left (x ∷ xs) ys = ap (λ zs. x ∷ zs) (take-left xs ys)

crop_rows :
    (margin n : ℕ) (rows : List Row)
    → IsWide n rows
    → map (λ row. take n (drop margin row)) (map (pad_row margin) rows) ≡ rows
unfolding pad_row
crop_rows margin n [] wide = refl
crop_rows margin n (row ∷ rows) wide =
    let inner : drop margin (pad_row margin row) ≡ row ++ repeat margin false =
      drop-repeat margin false (row ++ repeat margin false) in
    rw
      (
        inner,
        ap (λ k. take k (row ++ repeat margin false)) (sym wide.0)
            ∙ take-left row (repeat margin false),
        crop_rows margin n rows wide.1,
      )
      refl

-- An added row stands at the end.
evened-extra : (rows : List Row) → (extra : List Row) × (evened rows ≡ rows ++ extra)
evened-extra [] = ([], refl)
evened-extra (top ∷ []) = (repeat (length top) false ∷ [], refl)
evened-extra (top ∷ bottom ∷ rows) =
    let (extra, e) = evened-extra rows in (extra, ap (λ zs. top ∷ bottom ∷ zs) e)

pad_quiet_zone-IsWide :
    (margin n : ℕ) (first : Row) (rows : List Row)
    → IsWide n (first ∷ rows)
    → IsWide (n + margin * 2) (pad_quiet_zone (first ∷ rows) margin)
unfolding pad_quiet_zone
pad_quiet_zone-IsWide margin n first rows wide =
    let border : IsWide (n + margin * 2)
        (repeat margin (repeat (length first + margin * 2) false)) =
      subst (λ k. IsWide (n + margin * 2) (repeat margin (repeat (k + margin * 2) false)))
        (sym wide.0) (repeat-IsWide margin (n + margin * 2)) in
    IsWide-append (n + margin * 2) _ _ border (
      IsWide-append (n + margin * 2) (map (pad_row margin) (first ∷ rows)) _
        (padded-IsWide margin n (first ∷ rows) wide) border)

crop-pad :
    (margin n : ℕ) (first : Row) (rows extra : List Row)
    → IsWide n (first ∷ rows)
    → crop margin (length (first ∷ rows)) n (pad_quiet_zone (first ∷ rows) margin ++ extra)
      ≡ first ∷ rows
unfolding pad_quiet_zone
crop-pad margin n first rows extra wide =
    let light = repeat (length first + margin * 2) false in
    let bits = first ∷ rows in
    let inside = map (pad_row margin) bits in
    let after = repeat margin light ++ extra in
    let split : pad_quiet_zone bits margin ++ extra ≡ repeat margin light ++ (inside ++ after) =
      append_assoc (repeat margin light) (inside ++ repeat margin light) extra
      ∙ ap (λ zs. repeat margin light ++ zs) (append_assoc inside (repeat margin light) extra) in
    let taken : take (length bits) (inside ++ after) ≡ inside =
      ap (λ k. take k (inside ++ after)) (sym (length-map (pad_row margin) bits))
      ∙ take-left inside after in
    ap (λ zs. crop margin (length bits) n zs) split
    ∙ ap (λ zs. map (λ row. take n (drop margin row)) (take (length bits) zs))
        (drop-repeat margin light (inside ++ after))
    ∙ ap (map (λ row. take n (drop margin row))) taken
    ∙ crop_rows margin n bits wide

-- What is drawn of a symbol with its quiet zone is the symbol: for every matrix with a row and with
-- rows of one length, the halves of the characters, read row by row, are the matrix with its
-- margin, and inside the margin stands the matrix.
pub crop-scan :
    (margin n : ℕ) (first : Row) (rows : List Row)
    → IsWide n (first ∷ rows)
    → let drawn = render_plain_half_blocks (pad_quiet_zone (first ∷ rows) margin) in
      (scan drawn ≡ evened (pad_quiet_zone (first ∷ rows) margin))
      × (crop margin (length (first ∷ rows)) n (scan drawn) ≡ first ∷ rows)
crop-scan margin n first rows wide =
    let padded = pad_quiet_zone (first ∷ rows) margin in
    let seen =
      scan-render (n + margin * 2) padded (pad_quiet_zone-IsWide margin n first rows wide) in
    let (extra, e) = evened-extra padded in
    (
      seen,
      ap (crop margin (length (first ∷ rows)) n) (seen ∙ e)
          ∙ crop-pad margin n first rows extra wide,
    )
