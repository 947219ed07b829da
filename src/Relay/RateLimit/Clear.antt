-- ===== src/Relay/RateLimit/Clear.antt =====
-- `clearSession` finds the entries of its own session, and no others.
use Prim.Native.String.{◌++◌}
use text.Mathlib.Text.{starts_with}
use getsloth.Base.{
  String, none, [], ◌∷◌, ◌≡◌, inl, inr, ◌==◌, eq_iff, if◌then◌else◌, lookup, Bool-cases,
}
use getsloth.Relay.RateLimit.{RateLimiter, rate_limit_key, clear_prefix, clear_session}
use getsloth.Relay.RateLimit.Key.{NoBar, key_prefix}

lookup-clear_prefix :
    (p k : String) (r : RateLimiter)
    → lookup k (clear_prefix p r) ≡ (if starts_with k p then none else lookup k r)
unfolding lookup clear_prefix
lookup-clear_prefix p k [] = elim (Bool-cases (starts_with k p)) [ inl e ↦ rw e | inr e ↦ rw e ]
lookup-clear_prefix p k ((i, e) ∷ r) = elim (Bool-cases (i == k)) [
  | inl same ↦
      let ik = (eq_iff i k).0 same in
      elim (Bool-cases (starts_with i p)) [
        | inl q ↦ rw q (rw (lookup-clear_prefix p k r) (rw (rw ik at q)))
        | inr q ↦ rw (q, same) (rw (rw ik at q))
      ]
  | inr other ↦ elim (Bool-cases (starts_with i p)) [
    | inl q ↦ rw (q, other) (lookup-clear_prefix p k r)
    | inr q ↦ rw (q, other) (lookup-clear_prefix p k r)
  ]
]

-- `clearSession` removes every entry of its session, and no entry of another one.
pub lookup-clear_session :
    (s t b : String) (r : RateLimiter)
    → NoBar s
    → NoBar t
    → lookup (rate_limit_key t b) (clear_session s r)
      ≡ (if s == t then none else lookup (rate_limit_key t b) r)
unfolding clear_session
lookup-clear_session s t b r hs ht =
    rw (lookup-clear_prefix (s ++ "|") (rate_limit_key t b) r, key_prefix s t b hs ht)
