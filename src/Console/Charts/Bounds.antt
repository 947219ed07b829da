-- ===== src/Console/Charts/Bounds.antt =====
-- Where the scale, the bars and the dots of a chart lie.
use getsloth.Base.{
  ℕ, ◌+◌, ◌-◌, ◌*◌, ◌/◌, ◌%◌, ◌≤◌, ◌<◌, Option, none, some, List, [], ◌∷◌, ◌≡◌, arith, All,
}
use getsloth.Console.History.{Samples}
use getsloth.Console.Charts.{
  min_chart_scale_ms, larger, smaller, highest, highest_of, chart_scale, bar_level, cap_row,
  cap_block, dot_row,
}

abbrev pub AtMost : ℕ → Option ℕ → Type 0
AtMost top none = Unit {0}
AtMost top (some ms) = ms ≤ top

AtMost-mono :
    (a b : ℕ) (samples : Samples) → a ≤ b → All (AtMost a) samples → All (AtMost b) samples
AtMost-mono a b [] le h = tt
AtMost-mono a b (none ∷ samples) le h = (tt, AtMost-mono a b samples le h.1)
AtMost-mono a b (some ms ∷ samples) le h = (omega (arith, h.0), AtMost-mono a b samples le h.1)

highest-le : (scale : ℕ) (samples : Samples) → scale ≤ highest scale samples
unfolding highest
highest-le scale [] = omega arith
highest-le scale (none ∷ samples) = highest-le scale samples
highest-le scale (some ms ∷ samples) = ground (arith, highest-le (larger scale ms) samples)

highest-AtMost : (scale : ℕ) (samples : Samples) → All (AtMost (highest scale samples)) samples
unfolding highest
highest-AtMost scale [] = tt
highest-AtMost scale (none ∷ samples) = (tt, highest-AtMost scale samples)
highest-AtMost scale (some ms ∷ samples) =
    (ground (arith, highest-le (larger scale ms) samples), highest-AtMost (larger scale ms) samples)

highest_of-le : (scale : ℕ) (series : List Samples) → scale ≤ highest_of scale series
unfolding highest_of
highest_of-le scale [] = omega arith
highest_of-le scale (samples ∷ series) =
    omega (arith, highest-le scale samples, highest_of-le (highest scale samples) series)

highest_of-AtMost :
    (scale : ℕ) (series : List Samples)
    → All (λ samples. All (AtMost (highest_of scale series)) samples) series
unfolding highest_of
highest_of-AtMost scale [] = tt
highest_of-AtMost scale (samples ∷ series) = (
  AtMost-mono _ _ samples (highest_of-le (highest scale samples) series)
      (highest-AtMost scale samples),
  highest_of-AtMost (highest scale samples) series,
)

AtMost-series :
    (a b : ℕ) (series : List Samples)
    → a ≤ b
    → All (λ samples. All (AtMost a) samples) series
    → All (λ samples. All (AtMost b) samples) series
AtMost-series a b [] le h = tt
AtMost-series a b (samples ∷ series) le h =
    (AtMost-mono a b samples le h.0, AtMost-series a b series le h.1)

-- The scale of a chart is a multiple of 5 from 25 on that no sample of its series exceeds.
chart_scale-AtMost :
    (series : List Samples)
    → All (λ samples. All (AtMost (chart_scale series)) samples) series
      × (25 ≤ chart_scale series)
      × (chart_scale series % 5 ≡ 0)
unfolding chart_scale
chart_scale-AtMost series = (
  AtMost-series (highest_of min_chart_scale_ms series) _ series (omega arith)
      (highest_of-AtMost min_chart_scale_ms series),
  omega (arith, highest_of-le min_chart_scale_ms series),
  omega arith,
)

bar_level-bounds :
    (rows scale ms : ℕ)
    → 0 < rows
    → (1 ≤ bar_level rows scale ms) × (bar_level rows scale ms ≤ rows * 8)
unfolding bar_level
bar_level-bounds rows scale ms some_rows = clamped ((ms * (rows * 8) + scale - 1) / scale)
  where
    clamped :
        (n : ℕ)
        → (1 ≤ smaller (larger n 1) (rows * 8)) × (smaller (larger n 1) (rows * 8) ≤ rows * 8)
    clamped n = ground arith

cap_in_frame :
    (rows level : ℕ)
    → 1 ≤ level
    → level ≤ rows * 8
    → (cap_row rows level < rows) × ((1 ≤ cap_block rows level) × (cap_block rows level ≤ 8))
unfolding cap_block cap_row
cap_in_frame rows level low high = (omega arith, (omega arith, omega arith))

-- A bar is between one eighth of a row and the whole chart high, its cap is a row of the chart, and
-- the cap's glyph is one of the eight that are not blank.
pub bar_in_frame :
    (rows scale ms : ℕ)
    → 0 < rows
    → let level = bar_level rows scale ms in
      ((1 ≤ level) × (level ≤ rows * 8))
      × (cap_row rows level < rows)
      × ((1 ≤ cap_block rows level) × (cap_block rows level ≤ 8))
bar_in_frame rows scale ms some_rows =
    let bounds = bar_level-bounds rows scale ms some_rows in
    let cap = cap_in_frame rows (bar_level rows scale ms) bounds.0 bounds.1 in
    (bounds, cap.0, cap.1)

-- A dot of the overlaid chart lies in a cell of the chart.
dot_in_frame : (rows scale ms : ℕ) → 0 < rows → dot_row (rows * 4) scale ms / 4 < rows
unfolding dot_row
dot_in_frame rows scale ms some_rows = ground arith
