-- ===== src/Console/Charts.antt =====
-- The arithmetic of the charts in cmd/getsloth/host_control_graph.go: scales, statistics, and where
-- a sample is drawn. Colours and glyphs are not modelled; a sample is `none` for an unknown time.
pub mod Bounds
pub mod Stats
use getsloth.Base.{
  ℕ, zero, suc, ◌+◌, ◌-◌, ◌*◌, ◌/◌, ◌%◌, ◌≤◌, ◌<◌, Bool, true, false, not, Option, none, some,
  get_or, List, [], ◌∷◌, ◌≡◌, ◌≢◌, refl, arith, if◌then◌else◌, ltb, leb, eqb, length, All,
  Bool-cases, inl, inr, get_elem?, lookup, map,
}
use getsloth.Console.History.{Samples, History}
use getsloth.Host.Status.{Viewer}

abbrev pub min_chart_scale_ms : ℕ
min_chart_scale_ms = 25

-- `max` and `min` of Go
abbrev pub larger : ℕ → ℕ → ℕ
larger a b = if ltb a b then b else a

abbrev pub smaller : ℕ → ℕ → ℕ
smaller a b = if ltb b a then b else a

unfoldable pub highest : ℕ → Samples → ℕ
highest scale [] = scale
highest scale (none ∷ samples) = highest scale samples
highest scale (some ms ∷ samples) = highest (larger scale ms) samples

unfoldable pub highest_of : ℕ → List Samples → ℕ
unfolding highest
highest_of scale [] = scale
highest_of scale (samples ∷ series) = highest_of (highest scale samples) series

unfoldable pub chart_scale : List Samples → ℕ
unfolding highest_of
chart_scale series = (highest_of min_chart_scale_ms series + 4) / 5 * 5

-- The loop of `rttStats`: minimum, maximum, sum and count so far.
pub record Tally : Type 0 where
  pub min_ms : ℕ
  pub max_ms : ℕ
  pub sum : ℕ
  pub count : ℕ

unfoldable pub tally : Samples → Tally → Tally
tally [] t = t
tally (none ∷ samples) t = tally samples t
tally (some ms ∷ samples) t = tally samples (record {
  min_ms = if eqb t.count 0 then ms else smaller t.min_ms ms;
  max_ms = larger t.max_ms ms;
  sum = t.sum + ms;
  count = t.count + 1;
})

-- Minimum, average and maximum, `none` where no time is known.
unfoldable pub rtt_stats : Samples → Option (ℕ × ℕ × ℕ)
unfolding tally
rtt_stats samples =
    let t = tally samples (record { min_ms = 0; max_ms = 0; sum = 0; count = 0 }) in
    if eqb t.count 0 then none else some (t.min_ms, t.sum / t.count, t.max_ms)

-- The eighths of a row that a bar is high: at least one, at most the whole chart.
unfoldable pub bar_level : ℕ → ℕ → ℕ → ℕ
bar_level rows scale ms = smaller (larger ((ms * (rows * 8) + scale - 1) / scale) 1) (rows * 8)

-- The row of the bar's cap, counted from the top.
unfoldable pub cap_row : ℕ → ℕ → ℕ
cap_row rows level = rows - 1 - (level - 1) / 8

-- Which of the nine glyphs of `chartBlocks` the cap is.
unfoldable pub cap_block : ℕ → ℕ → ℕ
unfolding cap_row
cap_block rows level = level - (rows - 1 - cap_row rows level) * 8

-- The dot row of a sample in the overlaid chart.
unfoldable pub dot_row : ℕ → ℕ → ℕ → ℕ
dot_row dots scale ms = smaller (dots - 1 - ms * (dots - 1) / scale) (dots - 1)

unfoldable pub signal_strength : ℕ → ℕ
signal_strength rtt =
    if ltb rtt 50 then 4 else if ltb rtt 100 then 3 else if ltb rtt 200 then 2 else 1
