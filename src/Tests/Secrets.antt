-- ===== src/Tests/Secrets.antt =====
-- A password check in which the library calls are instantiated by functions that satisfy what the
-- host relies on.
use Prim.Native.Char.{code}
use Prim.Native.String.{[] as empty_text, ◌∷◌ as text_cons, count}
use text.Mathlib.TextEquality.{Char-path}
use getsloth.Base.{
  ℕ, String, Bool, true, false, ◌&&◌, Option, none, some, ap, sym, ◌∙◌, [], ◌∷◌, ◌++◌, ◌≡◌, refl,
  ◌↔◌, arith, length, take, drop, eqb, if◌then◌else◌, Bool-cases, inl, inr, ◌==◌,
}
use getsloth.Host.Password.{generate_password, generate_password-Spelt, Spelt, Fair}
use getsloth.Host.Secret.{
  Bytes, Crypto, Lawful, Attempt, take-append, drop-append, additional_data, verify_password,
  verify_password-Attempt,
}

abbrev codes : String → Bytes
codes empty_text = []
codes (text_cons c s) = code c ∷ codes s

abbrev head_or : ℕ → Bytes → ℕ
head_or n [] = n
head_or n (b ∷ bs) = b

abbrev tail_of : Bytes → Bytes
tail_of [] = []
tail_of (b ∷ bs) = bs

codes-inj : (s t : String) → codes s ≡ codes t → s ≡ t
codes-inj empty_text empty_text e = refl
codes-inj empty_text (text_cons d t) e = absurd (omega (arith, ap length e))
codes-inj (text_cons c s) empty_text e = absurd (omega (arith, ap length e))
codes-inj (text_cons c s) (text_cons d t) e =
    rw (Char-path c d (ap (head_or 0) e), codes-inj s t (ap tail_of e)) refl

abbrev same_bytes : Bytes → Bytes → Bool
same_bytes [] [] = true
same_bytes [] (y ∷ ys) = false
same_bytes (x ∷ xs) [] = false
same_bytes (x ∷ xs) (y ∷ ys) = eqb x y && same_bytes xs ys

same_bytes_sound : (xs ys : Bytes) → same_bytes xs ys ≡ true → xs ≡ ys
same_bytes_sound [] [] e = refl
same_bytes_sound [] (y ∷ ys) e = absurd (ground (arith, e))
same_bytes_sound (x ∷ xs) [] e = absurd (ground (arith, e))
same_bytes_sound (x ∷ xs) (y ∷ ys) e =
    let heads : x ≡ y = ground (arith, e) in
    let tails : same_bytes xs ys ≡ true = ground (arith, e) in
    rw (heads, same_bytes_sound xs ys tails) refl

same_bytes_refl : (xs : Bytes) → same_bytes xs xs ≡ true
same_bytes_refl [] = refl
same_bytes_refl (x ∷ xs) = ground (arith, same_bytes_refl xs)

same_bytes_iff : (xs ys : Bytes) → (same_bytes xs ys ≡ true) ↔ (xs ≡ ys)
same_bytes_iff xs ys =
    (same_bytes_sound xs ys, (λ e. ap (same_bytes xs) (sym e) ∙ same_bytes_refl xs))

-- A sealed text is the length of its additional data, that data and the text itself.
abbrev sealed_bytes : Unit {0} → Bytes → Bytes → Bytes → Bytes
sealed_bytes key nonce plain aad = length aad ∷ aad ++ plain

abbrev opened_bytes : Unit {0} → Bytes → Bytes → Bytes → Option Bytes
opened_bytes key nonce [] aad = none
opened_bytes key nonce (n ∷ blob) aad =
    if same_bytes (take n blob) aad then some (drop n blob) else none

abbrev own_session : String
own_session = "s1"

abbrev other_session : String
other_session = "s2"

abbrev secret : String
secret = "swordfish"

abbrev public_text : String
public_text = "BA=="

abbrev sealed_text : String
sealed_text = "AAA="

abbrev decoded : String → Option Bytes
decoded s =
    if s == public_text
    then some (4 ∷ [])
    else some (7 ∷ sealed_bytes tt [] (codes secret) (codes (additional_data own_session)))

abbrev library : Crypto (Unit {0}) (Unit {0}) (Unit {0}) (Unit {0})
library = record {
  decode = decoded;
  bytes_of = codes;
  new_public_key = λ bytes. some tt;
  ecdh = λ priv viewer. some tt;
  derive = λ shared info. some (codes info);
  new_gcm = λ key. some tt;
  nonce_size = 1;
  gcm_open = opened_bytes;
  constant_time_compare = same_bytes;
}

unfoldable library-Lawful : Lawful library
library-Lawful = record {
  seal = sealed_bytes;
  compare_iff = same_bytes_iff;
  open_seal = λ c nonce plain aad.
      rw (take-append aad plain, same_bytes_refl aad, drop-append aad plain) refl;
  open_other = λ c nonce plain aad other differ. elim (Bool-cases (same_bytes aad other)) [
    | inl e ↦ absurd (differ (same_bytes_sound aad other e))
    | inr e ↦ rw (take-append aad plain, e) refl
  ];
  bytes_of_inj = codes-inj;
}

attempt : Attempt library library-Lawful tt public_text sealed_text own_session secret
unfolding library-Lawful
attempt = record {
  pub_bytes = 4 ∷ [];
  viewer_pub = tt;
  shared = tt;
  aes_key = codes "getsloth-v1-auth";
  cipher = tt;
  nonce = 7 ∷ [];
  decodes = refl;
  parses = refl;
  agrees = refl;
  derives = refl;
  has_cipher = refl;
  sized = refl;
  sealed = refl;
}

verify_password-Attempt_example :
    (verify_password library tt other_session public_text sealed_text secret ≡ true)
    ↔ ((other_session ≡ own_session) × (secret ≡ secret))
verify_password-Attempt_example =
    verify_password-Attempt library library-Lawful tt public_text sealed_text own_session secret
      attempt other_session secret

-- Always the fourth character.
abbrev fourth : ℕ → Option ℕ
fourth i = some 3

fourth-Fair : Fair fourth
fourth-Fair i = (3, refl, omega arith)

generate_password-Spelt_example :
    (s : String) × (generate_password fourth 10 ≡ some s) × (count s ≡ 10) × Spelt fourth 0 s
generate_password-Spelt_example = generate_password-Spelt fourth 10 fourth-Fair
