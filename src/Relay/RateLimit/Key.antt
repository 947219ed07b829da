-- ===== src/Relay/RateLimit/Key.antt =====
-- The keys of the limiter's map: a session id holds no `|`, so no two pairs share a key, and
-- `clearSession` finds the entries of its own session only.
use Prim.Native.Char.{Char}
use Prim.Native.String.{[], ◌∷◌, ◌++◌}
use text.Mathlib.TextLemmas.{
  append_assoc, cons-append, nil-append, head-eq_of_cons-eq, tail-eq_of_cons-eq,
}
use text.Mathlib.TextEquality.{starts_with_iff}
use text.Mathlib.TextPositions.{starts_with-append}
use text.Mathlib.Text.{starts_with}
use getsloth.Base.{
  String, ◌≡◌, ◌≢◌, inl, inr, refl, sym, ap, ◌∙◌, ◌==◌, eq_iff, lookup, lookup-insert_ne,
  Bool-cases, Option-cases, eq→eq_true,
}
use getsloth.Relay.RateLimit.{
  RateLimiter, rate_limit_key, Call, reserves, releases, fails_at, succeeds, call, try_reserve,
  release, record_failure, record_success,
}

abbrev bar : Char
bar = "|"

abbrev pub NoBar : String → Type 0
NoBar [] = Unit {0}
NoBar (c ∷ s) = (c ≢ bar) × NoBar s

split : (s t a b : String) → NoBar s → NoBar t → s ++ (bar ∷ a) ≡ t ++ (bar ∷ b) → (s ≡ t) × (a ≡ b)
split [] [] a b hs ht e =
    (refl, tail-eq_of_cons-eq (sym (nil-append (bar ∷ a)) ∙ e ∙ nil-append (bar ∷ b)))
split [] (d ∷ t) a b hs ht e =
    absurd (ht.0 (sym (head-eq_of_cons-eq (sym (nil-append (bar ∷ a)) ∙ e ∙ cons-append d t _))))
split (c ∷ s) [] a b hs ht e =
    absurd (hs.0 (head-eq_of_cons-eq (sym (cons-append c s _) ∙ e ∙ nil-append (bar ∷ b))))
split (c ∷ s) (d ∷ t) a b hs ht e =
    let f = sym (cons-append c s (bar ∷ a)) ∙ e ∙ cons-append d t (bar ∷ b) in
    let (st, ab) = split s t a b hs.1 ht.1 (tail-eq_of_cons-eq f) in
    (λ i. head-eq_of_cons-eq f i ∷ st i, ab)

bar-append : (a : String) → "|" ++ a ≡ bar ∷ a
bar-append a = cons-append bar [] a ∙ ap (◌∷◌ bar) (nil-append a)

-- Two pairs with one key are the same pair, where the session ids hold no `|`.
rate_limit_key-inj :
    (s t a b : String)
    → NoBar s
    → NoBar t
    → rate_limit_key s a ≡ rate_limit_key t b
    → (s ≡ t) × (a ≡ b)
unfolding rate_limit_key
rate_limit_key-inj s t a b hs ht e =
    split s t a b hs ht (ap (◌++◌ s) (sym (bar-append a)) ∙ e ∙ ap (◌++◌ t) (bar-append b))

-- A call for one pair leaves the entry of any other pair alone.
lookup-call_ne :
    (s t a b : String) (c : Call) (r : RateLimiter)
    → rate_limit_key s a ≢ rate_limit_key t b
    → lookup (rate_limit_key t b) (call s a c r) ≡ lookup (rate_limit_key t b) r
unfolding call try_reserve release record_failure record_success
lookup-call_ne s t a b (reserves now) r h = lookup-insert_ne _ _ _ r h
lookup-call_ne s t a b releases r h = elim (Option-cases (lookup (rate_limit_key s a) r)) [
  | inl e ↦ rw (e, release)
  | inr (v, e) ↦ rw (e, release) (lookup-insert_ne _ _ _ r h)
]
lookup-call_ne s t a b (fails_at now) r h = lookup-insert_ne _ _ _ r h
lookup-call_ne s t a b succeeds r h = elim (Option-cases (lookup (rate_limit_key s a) r)) [
  | inl e ↦ rw (e, record_success)
  | inr (v, e) ↦ rw (e, record_success) (lookup-insert_ne _ _ _ r h)
]

pub key_prefix :
    (s t b : String) → NoBar s → NoBar t → starts_with (rate_limit_key t b) (s ++ "|") ≡ (s == t)
unfolding rate_limit_key
key_prefix s t b hs ht = elim (Bool-cases (s == t)) [
  | inl same ↦
      rw (same, (eq_iff s t).0 same, ← append_assoc t "|" b) (starts_with-append (t ++ "|") b)
  | inr other ↦ elim (Bool-cases (starts_with (t ++ ("|" ++ b)) (s ++ "|"))) [
    | inl q ↦
        let (u, e) = (starts_with_iff _ _).0 q in
        let st =
          rate_limit_key-inj s t u b hs ht
            (unfold rate_limit_key in sym (append_assoc s "|" u) ∙ e) in
        absurd (cc (sym other, eq→eq_true s t st.0))
    | inr q ↦ rw (other, q)
  ]
]
