-- ===== src/Relay/RateLimit/Slots.antt =====
-- The cap on attempts that await a verdict.
use getsloth.Base.{
  ℕ, ◌+◌, ◌≤◌, String, true, List, [], ◌∷◌, ◌≡◌, inl, inr, arith, All, All-insert, All-lookup,
  lookup, insert, lookup-insert_self, Option-cases,
}
use getsloth.Relay.RateLimit.{
  RateEntry, RateLimiter, rate_limit_key, max_concurrent_auth_attempts, reserve_entry, try_reserve,
  release_entry, release, fail_entry, record_failure, success_entry, record_success, Call, reserves,
  releases, fails_at, succeeds, call, entry_of,
}

-- No pair has more than three attempts in flight.
abbrev pub IsCapped : RateLimiter → Type 0
IsCapped = All (λ (e : String × RateEntry). e.1.pending ≤ max_concurrent_auth_attempts)

entry_of-pending :
    (k : String) (r : RateLimiter)
    → IsCapped r
    → (entry_of r k).pending ≤ max_concurrent_auth_attempts
entry_of-pending k r h = elim (Option-cases (lookup k r)) [
  | inl e ↦ rw e (omega arith)
  | inr (v, e) ↦ rw e (All-lookup _ k v r e h)
]

call-IsCapped : (s a : String) (c : Call) (r : RateLimiter) → IsCapped r → IsCapped (call s a c r)
unfolding call try_reserve release record_failure record_success
call-IsCapped s a (reserves now) r h =
    All-insert _ _ _ r
      (unfold reserve_entry in ground (arith, entry_of-pending (rate_limit_key s a) r h)) h
call-IsCapped s a releases r h = elim (Option-cases (lookup (rate_limit_key s a) r)) [
  | inl e ↦ rw (e, release) h
  | inr (v, e) ↦
      rw (e, release)
        (All-insert _ _ _ r (unfold release_entry in ground (arith, All-lookup _ _ v r e h)) h)
]
call-IsCapped s a (fails_at now) r h =
    All-insert _ _ _ r
      (unfold fail_entry in ground (arith, entry_of-pending (rate_limit_key s a) r h)) h
call-IsCapped s a succeeds r h = elim (Option-cases (lookup (rate_limit_key s a) r)) [
  | inl e ↦ rw (e, record_success) h
  | inr (v, e) ↦
      rw (e, record_success)
        (All-insert _ _ _ r (unfold success_entry in ground (arith, All-lookup _ _ v r e h)) h)
]

-- The calls of any number of sessions and addresses, in the order in which they take the lock.
unfoldable pub run : List (String × String × Call) → RateLimiter → RateLimiter
run [] r = r
run ((s, a, c) ∷ cs) r = run cs (call s a c r)

-- Whatever calls are made, for whatever pairs and at whatever times, each pair has at most three
-- attempts in flight.
pub run-IsCapped :
    (cs : List (String × String × Call)) (r : RateLimiter) → IsCapped r → IsCapped (run cs r)
unfolding run
run-IsCapped [] r h = h
run-IsCapped ((s, a, c) ∷ cs) r h = run-IsCapped cs (call s a c r) (call-IsCapped s a c r h)

-- A granted reservation takes one slot, and the `release` that follows it gives the slot back,
-- with the failures and the cooldown as they were.
pub release-try_reserve :
    (now : ℕ) (s a : String) (r : RateLimiter)
    → (try_reserve now s a r).1 ≡ true
    → let k = rate_limit_key s a in
      ((entry_of (try_reserve now s a r).0 k).pending ≡ (entry_of r k).pending + 1)
      × (entry_of (release s a (try_reserve now s a r).0) k ≡ entry_of r k)
unfolding try_reserve release reserve_entry release_entry
release-try_reserve now s a r h =
    let k = rate_limit_key s a in
    let e = record (entry_of r k) { pending = (entry_of r k).pending + 1 } in
    ground (arith, lookup-insert_self k e r, lookup-insert_self k (entry_of r k) (insert k e r))
