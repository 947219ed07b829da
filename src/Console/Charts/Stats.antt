-- ===== src/Console/Charts/Stats.antt =====
-- `rttStats`: the minimum, the average and the maximum of the known samples.
use native.Mathlib.Nat.{mul-le-mul_right, le-div_iff_mul-le, div-le_of_le-mul}
use getsloth.Base.{
  ℕ, ◌+◌, ◌*◌, ◌≤◌, ◌<◌, Option, none, some, [], ◌∷◌, ◌≡◌, refl, arith, ◌⊎◌, inl, inr,
  if◌then◌else◌, eqb, All, Bool-cases,
}
use getsloth.Console.History.{Samples}
use getsloth.Console.Charts.{larger, smaller, Tally, tally, rtt_stats}

abbrev pub Within : ℕ → ℕ → Option ℕ → Type 0
Within lo hi none = Unit {0}
Within lo hi (some ms) = (lo ≤ ms) × (ms ≤ hi)

-- The sum lies between the count's multiples of the extremes.
record IsFair (t : Tally) : Type 0 where
  low : t.min_ms * t.count ≤ t.sum
  high : t.sum ≤ t.max_ms * t.count

abbrev next : ℕ → Tally → Tally
next ms t = record {
  min_ms = if eqb t.count 0 then ms else smaller t.min_ms ms;
  max_ms = larger t.max_ms ms;
  sum = t.sum + ms;
  count = t.count + 1;
}

next-min :
    (ms : ℕ) (t : Tally)
    → ((next ms t).min_ms ≤ ms) × ((t.count ≡ 0) ⊎ ((next ms t).min_ms ≤ t.min_ms))
next-min ms t = elim (Bool-cases (eqb t.count 0)) [
  | inl e ↦ (ground arith, inl (ground arith))
  | inr e ↦ (ground arith, inr (ground arith))
]

next-max : (ms : ℕ) (t : Tally) → (ms ≤ (next ms t).max_ms) × (t.max_ms ≤ (next ms t).max_ms)
next-max ms t = ground arith

low_sum : (m k c s ms : ℕ) → m * c ≤ s → k ≤ ms → (c ≡ 0) ⊎ (k ≤ m) → k * (c + 1) ≤ s + ms
low_sum m k c s ms low le (inl e) = rw e (omega arith)
low_sum m k c s ms low le (inr h) = omega (arith, mul-le-mul_right c h)

high_sum : (m k c s ms : ℕ) → s ≤ m * c → ms ≤ k → m ≤ k → s + ms ≤ k * (c + 1)
high_sum m k c s ms high le h = omega (arith, mul-le-mul_right c h)

next-IsFair : (ms : ℕ) (t : Tally) → IsFair t → IsFair (next ms t)
next-IsFair ms t f = record {
  low =
      low_sum t.min_ms (next ms t).min_ms t.count t.sum ms f.low (next-min ms t).0
        (next-min ms t).1;
  high =
      high_sum t.max_ms (next ms t).max_ms t.count t.sum ms f.high (next-max ms t).0
        (next-max ms t).1;
}

tally-IsFair : (samples : Samples) (t : Tally) → IsFair t → IsFair (tally samples t)
unfolding tally
tally-IsFair [] t f = f
tally-IsFair (none ∷ samples) t f = tally-IsFair samples t f
tally-IsFair (some ms ∷ samples) t f = tally-IsFair samples (next ms t) (next-IsFair ms t f)

tally-min : (samples : Samples) (t : Tally) → (t.count ≡ 0) ⊎ ((tally samples t).min_ms ≤ t.min_ms)
unfolding tally
tally-min [] t = inr (omega arith)
tally-min (none ∷ samples) t = tally-min samples t
tally-min (some ms ∷ samples) t = elim ((next-min ms t).1) [
  | inl e ↦ inl e
  | inr h ↦ elim (tally-min samples (next ms t)) [
    | inl e ↦ absurd (omega (arith, e))
    | inr k ↦ inr (omega (arith, h, k))
  ]
]

tally-max : (samples : Samples) (t : Tally) → t.max_ms ≤ (tally samples t).max_ms
unfolding tally
tally-max [] t = omega arith
tally-max (none ∷ samples) t = tally-max samples t
tally-max (some ms ∷ samples) t = omega (arith, (next-max ms t).1, tally-max samples (next ms t))

tally-Within :
    (samples : Samples) (t : Tally)
    → All (Within (tally samples t).min_ms (tally samples t).max_ms) samples
unfolding tally
tally-Within [] t = tt
tally-Within (none ∷ samples) t = (tt, tally-Within samples t)
tally-Within (some ms ∷ samples) t = (
  (
    elim (tally-min samples (next ms t)) [
      | inl e ↦ absurd (omega (arith, e))
      | inr k ↦ omega (arith, k, (next-min ms t).0)
    ],
    omega (arith, (next-max ms t).0, tally-max samples (next ms t)),
  ),
  tally-Within samples (next ms t),
)

tally-count : (samples : Samples) (t : Tally) → t.count ≤ (tally samples t).count
unfolding tally
tally-count [] t = omega arith
tally-count (none ∷ samples) t = tally-count samples t
tally-count (some ms ∷ samples) t = omega (arith, tally-count samples (next ms t))

tally-unknown :
    (samples : Samples) (t : Tally) → (tally samples t).count ≡ 0 → All (λ s. s ≡ none) samples
unfolding tally
tally-unknown [] t e = tt
tally-unknown (none ∷ samples) t e = (refl, tally-unknown samples t e)
tally-unknown (some ms ∷ samples) t e = absurd (omega (arith, tally-count samples (next ms t), e))

-- What the answer says of the samples.
abbrev pub Describes : Samples → Option (ℕ × ℕ × ℕ) → Type 0
Describes samples none = All (λ s. s ≡ none) samples
Describes samples (some (lo, avg, hi)) = (lo ≤ avg) × (avg ≤ hi) × All (Within lo hi) samples

abbrev start : Tally
start = record { min_ms = 0; max_ms = 0; sum = 0; count = 0 }

-- `rttStats` has no answer only where no time is known; otherwise the average lies between the
-- minimum and the maximum, and so does every known sample.
rtt_stats-Describes : (samples : Samples) → Describes samples (rtt_stats samples)
unfolding rtt_stats
rtt_stats-Describes samples =
    let t = tally samples start in
    let fair = tally-IsFair samples start (record { low = omega arith; high = omega arith }) in
    elim (Bool-cases (eqb t.count 0)) [
      | inl e ↦ rw (e, rtt_stats) (tally-unknown samples start (ground arith))
      | inr e ↦
          let counted : 0 < t.count = ground arith in
          rw (e, rtt_stats)
            (
              (le-div_iff_mul-le counted).1 fair.low,
              div-le_of_le-mul t.count (omega (arith, fair.high)),
              tally-Within samples start,
            )
    ]
