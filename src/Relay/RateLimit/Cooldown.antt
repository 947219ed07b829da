-- ===== src/Relay/RateLimit/Cooldown.antt =====
-- The cooldown after failed attempts: what a caller sees of one pair's failures.
use getsloth.Base.{
  ℕ, suc, ◌+◌, ◌-◌, ◌≤◌, String, Bool, true, false, List, [], ◌∷◌, ◌≡◌, refl, ◌∙◌, inl, inr, arith,
  All, lookup, lookup-insert_self, Option-cases, ltb, leb, if◌then◌else◌,
}
use getsloth.Relay.RateLimit.{
  RateEntry, RateLimiter, rate_limit_key, rate_limit_cooldown, max_concurrent_auth_attempts,
  reserve_entry, try_reserve, release_entry, release, fail_entry, record_failure, success_entry,
  record_success, Call, reserves, releases, fails_at, succeeds, call, entry_of,
}

module _ (s a : String) where
  -- The calls of one pair.
  unfoldable pub run_pair : List Call → RateLimiter → RateLimiter
  run_pair [] r = r
  run_pair (c ∷ cs) r = run_pair cs (call s a c r)

-- How a call bears on the failures of its pair.
abbrev pub failures : List Call → ℕ
failures [] = 0
failures (fails_at now ∷ cs) = suc (failures cs)
failures (c ∷ cs) = failures cs

abbrev pub NoSuccess : Call → Type 0
NoSuccess succeeds = ⊥
NoSuccess _ = Unit {0}

-- Neither a success nor a verdict: only attempts and releases.
abbrev pub IsQuiet : Call → Type 0
IsQuiet (reserves now) = Unit {0}
IsQuiet releases = Unit {0}
IsQuiet _ = ⊥

module _ (s a : String) (r : RateLimiter) where
  abbrev k : String
  k = rate_limit_key s a

  fails-call :
      (c : Call)
      → NoSuccess c
      → (entry_of (call s a c r) k).fails ≡ (entry_of r k).fails + failures (c ∷ [])
  unfolding call try_reserve release record_failure reserve_entry release_entry fail_entry
  fails-call (reserves now) h =
      ground (arith, lookup-insert_self k (reserve_entry now (entry_of r k)).0 r)
  fails-call releases h = elim (Option-cases (lookup k r)) [
    | inl e ↦ rw (e, release) (rw e (omega arith))
    | inr (v, e) ↦ ground (arith, e, lookup-insert_self k (release_entry v) r)
  ]
  fails-call (fails_at now) h =
      ground (arith, lookup-insert_self k (fail_entry now (entry_of r k)) r)
  fails-call succeeds h = absurd h

  quiet-call :
      (c : Call)
      → IsQuiet c
      → (entry_of (call s a c r) k).blocked_until ≡ (entry_of r k).blocked_until
  unfolding call try_reserve release reserve_entry release_entry
  quiet-call (reserves now) h =
      ground (arith, lookup-insert_self k (reserve_entry now (entry_of r k)).0 r)
  quiet-call releases h = elim (Option-cases (lookup k r)) [
    | inl e ↦ ground (arith, e)
    | inr (v, e) ↦ ground (arith, e, lookup-insert_self k (release_entry v) r)
  ]
  quiet-call (fails_at now) h = absurd h
  quiet-call succeeds h = absurd h

  blocked_until-record_failure :
      (now : ℕ)
      → 4 ≤ (entry_of r k).fails
      → (entry_of (record_failure now s a r) k).blocked_until ≡ now + rate_limit_cooldown
  unfolding record_failure fail_entry
  blocked_until-record_failure now h =
      ground (arith, lookup-insert_self k (fail_entry now (entry_of r k)) r)

module _ (s a : String) where
  fails-run_pair :
      (cs : List Call) (r : RateLimiter)
      → All NoSuccess cs
      → (entry_of (run_pair s a cs r) (rate_limit_key s a)).fails
        ≡ (entry_of r (rate_limit_key s a)).fails + failures cs
  unfolding run_pair
  fails-run_pair [] r h = omega arith
  fails-run_pair (fails_at now ∷ cs) r h = omega (
    arith,
    fails-call s a r (fails_at now) h.0,
    fails-run_pair cs (call s a (fails_at now) r) h.1,
  )
  fails-run_pair (c ∷ cs) r h =
      omega (arith, fails-call s a r c h.0, fails-run_pair cs (call s a c r) h.1)

  quiet-run_pair :
      (cs : List Call) (r : RateLimiter)
      → All IsQuiet cs
      → (entry_of (run_pair s a cs r) (rate_limit_key s a)).blocked_until
        ≡ (entry_of r (rate_limit_key s a)).blocked_until
  unfolding run_pair
  quiet-run_pair [] r h = refl
  quiet-run_pair (c ∷ cs) r h = quiet-run_pair cs (call s a c r) h.1 ∙ quiet-call s a r c h.0

-- What an attempt gets while a cooldown runs until `deadline`, and after it.
abbrev pub answer : ℕ → ℕ → ℕ → Bool × ℕ
answer now deadline pending =
    if ltb now deadline
    then (false, deadline - now)
    else if leb max_concurrent_auth_attempts pending
    then (false, rate_limit_cooldown)
    else (true, 0)

-- What `tryReserve` returns, without the limiter.
abbrev pub reservation : ℕ → String → String → RateLimiter → Bool × ℕ
reservation now s a r = ((try_reserve now s a r).1, (try_reserve now s a r).2)

reservation-answer :
    (now : ℕ) (s a : String) (r : RateLimiter)
    → reservation now s a r
      ≡ answer now
          (entry_of r (rate_limit_key s a)).blocked_until
          (entry_of r (rate_limit_key s a)).pending
unfolding try_reserve reserve_entry
reservation-answer now s a r = ground arith

module _ (s a : String) where
  -- After four or more failures with no success, one more failure at time `t` starts a cooldown:
  -- until 60 seconds after `t` each attempt is refused with the time that is left, whatever
  -- attempts and releases come in between, and from then on only the cap on attempts in flight
  -- refuses one.
  pub cooldown_after_failures :
      (before after : List Call) (t now : ℕ) (r : RateLimiter)
      → All NoSuccess before
      → 4 ≤ failures before
      → All IsQuiet after
      → let r' = run_pair s a after (record_failure t s a (run_pair s a before r)) in
        reservation now s a r'
        ≡ answer now (t + rate_limit_cooldown) (entry_of r' (rate_limit_key s a)).pending
  cooldown_after_failures before after t now r h four quiet =
      let r₁ = run_pair s a before r in
      let r₂ = record_failure t s a r₁ in
      let until =
        quiet-run_pair s a after r₂ quiet
        ∙ blocked_until-record_failure s a r₁ t (omega (arith, fails-run_pair s a before r h)) in
      rw (reservation-answer now s a (run_pair s a after r₂), until)

  -- Fewer failures start no cooldown.
  abbrev IsOpen : ℕ → RateEntry → Type 0
  IsOpen n e = (e.fails ≤ n) × (e.blocked_until ≡ 0)

  IsOpen-call :
      (n : ℕ) (c : Call) (r : RateLimiter)
      → n + failures (c ∷ []) ≤ 4
      → IsOpen n (entry_of r (rate_limit_key s a))
      → IsOpen (n + failures (c ∷ [])) (entry_of (call s a c r) (rate_limit_key s a))
  unfolding call try_reserve release record_failure record_success reserve_entry release_entry
      fail_entry success_entry
  IsOpen-call n (reserves now) r m h =
      let k = rate_limit_key s a in
      ground (arith, lookup-insert_self k (reserve_entry now (entry_of r k)).0 r)
  IsOpen-call n releases r m h = elim (Option-cases (lookup (rate_limit_key s a) r)) [
    | inl e ↦ ground (arith, e)
    | inr (v, e) ↦ ground (arith, e, lookup-insert_self (rate_limit_key s a) (release_entry v) r)
  ]
  IsOpen-call n (fails_at now) r m h =
      let k = rate_limit_key s a in
      ground (arith, lookup-insert_self k (fail_entry now (entry_of r k)) r)
  IsOpen-call n succeeds r m h = elim (Option-cases (lookup (rate_limit_key s a) r)) [
    | inl e ↦ ground (arith, e)
    | inr (v, e) ↦ ground (arith, e, lookup-insert_self (rate_limit_key s a) (success_entry v) r)
  ]

  IsOpen-run_pair :
      (cs : List Call) (n : ℕ) (r : RateLimiter)
      → n + failures cs ≤ 4
      → IsOpen n (entry_of r (rate_limit_key s a))
      → (entry_of (run_pair s a cs r) (rate_limit_key s a)).blocked_until ≡ 0
  unfolding run_pair
  IsOpen-run_pair [] n r m h = h.1
  IsOpen-run_pair (fails_at now ∷ cs) n r m h =
      IsOpen-run_pair cs (n + 1) _ (omega arith) (IsOpen-call n (fails_at now) r (omega arith) h)
  IsOpen-run_pair (reserves now ∷ cs) n r m h =
      IsOpen-run_pair cs (n + 0) _ (omega arith) (IsOpen-call n (reserves now) r (omega arith) h)
  IsOpen-run_pair (releases ∷ cs) n r m h =
      IsOpen-run_pair cs (n + 0) _ (omega arith) (IsOpen-call n releases r (omega arith) h)
  IsOpen-run_pair (succeeds ∷ cs) n r m h =
      IsOpen-run_pair cs (n + 0) _ (omega arith) (IsOpen-call n succeeds r (omega arith) h)

  -- A pair that has failed at most four times since the limiter was made is refused only while
  -- three of its attempts are in flight.
  no_cooldown_before_five :
      (cs : List Call) (now : ℕ)
      → failures cs ≤ 4
      → let e = entry_of (run_pair s a cs []) (rate_limit_key s a) in
        reservation now s a (run_pair s a cs []) ≡ (
          if leb max_concurrent_auth_attempts e.pending
          then (false, rate_limit_cooldown)
          else (true, 0))
  no_cooldown_before_five cs now m =
      let open_entry =
        IsOpen-run_pair cs 0 [] (omega arith) (unfold lookup in (omega arith, refl)) in
      ground (arith, reservation-answer now s a (run_pair s a cs []), open_entry)
