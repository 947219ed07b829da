-- ===== src/Relay/RateLimit.antt =====
-- internal/relay/ratelimit.go. Times are nanoseconds since the zero `time.Time`, so 0 is the zero
-- time; `time.Until(t)` is positive exactly where `t - now` on the natural numbers is. The clock is
-- an argument of each call. The mutex makes each operation one step.
pub mod Key
pub mod Clear
pub mod Cooldown
pub mod Slots
use Prim.Native.String.{◌++◌ as str_append}
use text.Mathlib.Text.{starts_with}
use getsloth.Base.{
  ℕ, ◌+◌, ◌-◌, ◌*◌, String, Bool, true, false, Option, none, some, get_or, List, [], ◌∷◌, ltb, leb,
  if◌then◌else◌, Map, lookup, insert,
}

abbrev pub second : ℕ
second = 1000000000

abbrev pub rate_limit_max_attempts : ℕ
rate_limit_max_attempts = 5

abbrev pub rate_limit_cooldown : ℕ
rate_limit_cooldown = 60 * second

abbrev pub max_concurrent_auth_attempts : ℕ
max_concurrent_auth_attempts = 3

pub record RateEntry : Type 0 where
  pub fails : ℕ
  pub blocked_until : ℕ
  pub pending : ℕ

abbrev pub new_entry : RateEntry
new_entry = record { fails = 0; blocked_until = 0; pending = 0 }

abbrev pub RateLimiter : Type 0
RateLimiter = Map RateEntry

abbrev pub new_rate_limiter : RateLimiter
new_rate_limiter = []

unfoldable pub rate_limit_key : String → String → String
rate_limit_key session_id remote_addr = str_append session_id (str_append "|" remote_addr)

-- `r.entries[k]`, or the fresh entry that the code stores when there is none.
abbrev pub entry_of : RateLimiter → String → RateEntry
entry_of r k = get_or (lookup k r) new_entry

-- Whether the pair is in its cooldown, and for how long.
unfoldable pub blocked : ℕ → String → String → RateLimiter → Bool × ℕ
blocked now session_id remote_addr r = elim (lookup (rate_limit_key session_id remote_addr) r) [
  | none ↦ (false, 0)
  | some e ↦
      let remaining = e.blocked_until - now in
      if ltb 0 remaining then (true, remaining) else (false, 0)
]

-- The verdict of `try_reserve` on one entry, and the entry after it.
unfoldable pub reserve_entry : ℕ → RateEntry → RateEntry × Bool × ℕ
reserve_entry now e =
    let remaining = e.blocked_until - now in
    if ltb 0 remaining
    then (e, false, remaining)
    else if leb max_concurrent_auth_attempts e.pending
    then (e, false, rate_limit_cooldown)
    else (record e { pending = e.pending + 1 }, true, 0)

unfoldable pub try_reserve : ℕ → String → String → RateLimiter → RateLimiter × Bool × ℕ
try_reserve now session_id remote_addr r =
    let k = rate_limit_key session_id remote_addr in
    let (e, reserved, retry_after) = reserve_entry now (entry_of r k) in
    (insert k e r, reserved, retry_after)

unfoldable pub release_entry : RateEntry → RateEntry
release_entry e = if ltb 0 e.pending then record e { pending = e.pending - 1 } else e

unfoldable pub release : String → String → RateLimiter → RateLimiter
release session_id remote_addr r =
    let k = rate_limit_key session_id remote_addr in
    elim (lookup k r) [ none ↦ r | some e ↦ insert k (release_entry e) r ]

unfoldable pub fail_entry : ℕ → RateEntry → RateEntry
fail_entry now e =
    let failed = record e { fails = e.fails + 1 } in
    if leb rate_limit_max_attempts (e.fails + 1)
    then record failed { blocked_until = now + rate_limit_cooldown }
    else failed

unfoldable pub record_failure : ℕ → String → String → RateLimiter → RateLimiter
record_failure now session_id remote_addr r =
    let k = rate_limit_key session_id remote_addr in insert k (fail_entry now (entry_of r k)) r

unfoldable pub success_entry : RateEntry → RateEntry
success_entry e = record e { fails = 0; blocked_until = 0 }

unfoldable pub record_success : String → String → RateLimiter → RateLimiter
record_success session_id remote_addr r =
    let k = rate_limit_key session_id remote_addr in
    elim (lookup k r) [ none ↦ r | some e ↦ insert k (success_entry e) r ]

-- The loop of `clearSession` over the entries.
unfoldable pub clear_prefix : String → RateLimiter → RateLimiter
clear_prefix prefix [] = []
clear_prefix prefix ((k, e) ∷ r) =
    let rest = clear_prefix prefix r in if starts_with k prefix then rest else (k, e) ∷ rest

unfoldable pub clear_session : String → RateLimiter → RateLimiter
clear_session session_id r = clear_prefix (str_append session_id "|") r

-- The calls that the relay's handlers make, with the clock of each.
pub data Call : Type 0 where
  reserves : (now : ℕ) → Call
  releases : Call
  fails_at : (now : ℕ) → Call
  succeeds : Call

unfoldable pub call : String → String → Call → RateLimiter → RateLimiter
call s a (reserves now) r = (try_reserve now s a r).0
call s a releases r = release s a r
call s a (fails_at now) r = record_failure now s a r
call s a succeeds r = record_success s a r
