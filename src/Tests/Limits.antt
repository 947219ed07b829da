-- ===== src/Tests/Limits.antt =====
-- The rate limiter and the health probes at concrete calls.
use Prim.Native.Char.{Char}
use Prim.Native.String.{◌∷◌ as cons, [] as nil}
use getsloth.Base.{
  ◌+◌, ◌-◌, ◌*◌, String, false, none, List, [], ◌∷◌, ◌≡◌, refl, ap, arith, lookup, insert,
}
use getsloth.Relay.RateLimit.{
  second, RateLimiter, rate_limit_key, rate_limit_cooldown, entry_of, reserve_entry, fail_entry,
  release_entry, try_reserve, release, record_failure, Call, reserves, releases, fails_at, call,
  clear_session,
}
use getsloth.Relay.RateLimit.Key.{NoBar}
use getsloth.Relay.RateLimit.Clear.{lookup-clear_session}
use getsloth.Relay.RateLimit.Cooldown.{run_pair, reservation, cooldown_after_failures}
use getsloth.Relay.RateLimit.Slots.{IsCapped, run, run-IsCapped, release-try_reserve}
use getsloth.Relay.Connection.{millisecond, new_connection, health_snapshot}
use getsloth.Relay.Connection.Health.{Agrees, pings, pongs, run_probes, health_snapshot-Agrees}
use getsloth.Tests.{apart}

abbrev four_failures : List Call
four_failures = fails_at 1 ∷ fails_at 2 ∷ reserves 2 ∷ fails_at 3 ∷ releases ∷ fails_at 4 ∷ []

abbrev two_entries : RateLimiter
two_entries =
    ("s|a", record { fails = 2; blocked_until = 0; pending = 1 })
    ∷ ("t|a", record { fails = 1; blocked_until = 0; pending = 0 })
    ∷ []

abbrev single : Char → String
single c = cons c nil

NoBar-s : NoBar "s"
NoBar-s = ((λ e. apart "s" "|" refl (ap single e)), tt)

lookup-clear_session_example :
    lookup (rate_limit_key "s" "a") (clear_session "s" two_entries) ≡ none
lookup-clear_session_example = lookup-clear_session "s" "s" "a" two_entries NoBar-s NoBar-s

cooldown_after_failures_example :
    reservation 7 "s" "a" (
      run_pair "s" "a"
        (reserves 6 ∷ [])
        (record_failure 5 "s" "a" (run_pair "s" "a" four_failures [])))
    ≡ (false, rate_limit_cooldown - 2)
unfolding run_pair call try_reserve reserve_entry record_failure lookup insert release
    rate_limit_key fail_entry release_entry
cooldown_after_failures_example =
    cooldown_after_failures "s" "a" four_failures (reserves 6 ∷ []) 5 7 []
      (tt, (tt, (tt, (tt, (tt, (tt, tt)))))) (omega arith) (tt, tt)

run-IsCapped_example :
    IsCapped (
      run (("s", "a", reserves 1) ∷ ("s", "a", reserves 2) ∷ ("t", "a", releases) ∷ []) two_entries)
run-IsCapped_example =
    run-IsCapped (("s", "a", reserves 1) ∷ ("s", "a", reserves 2) ∷ ("t", "a", releases) ∷ [])
      two_entries (omega arith, (omega arith, tt))

release-try_reserve_example :
    let k = rate_limit_key "s" "a" in
    ((entry_of (try_reserve 9 "s" "a" two_entries).0 k).pending
      ≡ (entry_of two_entries k).pending + 1)
    × (entry_of (release "s" "a" (try_reserve 9 "s" "a" two_entries).0) k ≡ entry_of two_entries k)
unfolding try_reserve reserve_entry lookup rate_limit_key
release-try_reserve_example = release-try_reserve 9 "s" "a" two_entries refl

health_snapshot-Agrees_example :
    let (rtt_ms, quality) = health_snapshot (
      run_probes
        (pings "n" 0 ∷ pongs "n" (90 * millisecond) ∷ pings "m" second ∷ [])
        (new_connection "v1" "viewer")) in
    Agrees rtt_ms quality
health_snapshot-Agrees_example =
    health_snapshot-Agrees "v1" "viewer"
      (pings "n" 0 ∷ pongs "n" (90 * millisecond) ∷ pings "m" second ∷ [])
