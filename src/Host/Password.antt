-- ===== src/Host/Password.antt =====
-- `generatePassword` of cmd/getsloth/password.go. `rand.Int` is library code: `draws i` is the number
-- that it gives in turn `i` of the loop, `none` for an error.
use Prim.Native.Char.{Char, code}
use Prim.Native.String.{[] as empty_text, ◌∷◌ as text_cons, char_at, len, count}
use text.Mathlib.TextLemmas.{length-cons}
use getsloth.Base.{
  ℕ, zero, suc, ◌<◌, String, Bool, true, ◌&&◌, Option, some, ◌>>=◌, ◌≡◌, ◌⊎◌, refl, sym, ap, ◌∙◌,
  arith, if◌then◌else◌, eqb, inl, inr,
}

abbrev pub password_alphabet : String
password_alphabet = "abcdefghijkmnpqrstuvwxyzACDEFGHJKLMNPQRTUVWXY34679"

abbrev pub default_password_length : ℕ
default_password_length = 10

-- The loop over `i`, with `left` characters to go.
unfoldable pub fill_password : (ℕ → Option ℕ) → ℕ → ℕ → Option String
fill_password draws i zero = some ""
fill_password draws i (suc left) = do
  n ← draws i
  rest ← fill_password draws (suc i) left
  some (text_cons (char_at password_alphabet n) rest)

unfoldable pub generate_password : (ℕ → Option ℕ) → ℕ → Option String
unfolding fill_password
generate_password draws size = fill_password draws 0 size

-- `rand.Int` succeeds in every turn, with a number below the size of the alphabet.
abbrev pub Fair : (ℕ → Option ℕ) → Type 0
Fair draws = (i : ℕ) → (n : ℕ) × (draws i ≡ some n) × (n < len password_alphabet)

-- Where a character stands in the alphabet.
abbrev index_in : String → Char → ℕ
index_in empty_text c = 0
index_in (text_cons d s) c =
    let rest = index_in s c in if eqb (code c) (code d) then 0 else suc rest

abbrev all_below : (ℕ → Bool) → ℕ → Bool
all_below f zero = true
all_below f (suc n) = f n && all_below f n

all_below_sound : (f : ℕ → Bool) (m n : ℕ) → all_below f m ≡ true → n < m → f n ≡ true
all_below_sound f zero n e lt = absurd (omega (arith, lt))
all_below_sound f (suc m) n e lt = elim (last_or_below) [
  | inl same ↦ rw same (ground (arith, e))
  | inr below ↦ all_below_sound f m n (ground (arith, e)) below
]
  where
    last_or_below : (n ≡ m) ⊎ (n < m)
    last_or_below = ground (arith, lt)

-- No character occurs twice.
found :
    (n : ℕ)
    → n < len password_alphabet
    → index_in password_alphabet (char_at password_alphabet n) ≡ n
found n lt = ground (
  arith,
  all_below_sound (λ k. eqb (index_in password_alphabet (char_at password_alphabet k)) k) 50 n refl
      lt,
)

-- The characters of a text from turn `i` on: each is the one that its turn's number stands for, and
-- the number can be read off it.
abbrev pub Spelt : (ℕ → Option ℕ) → ℕ → String → Type 0
Spelt draws i empty_text = Unit {0}
Spelt draws i (text_cons c s) =
    (draws i ≡ some (index_in password_alphabet c))
    × (char_at password_alphabet (index_in password_alphabet c) ≡ c)
    × Spelt draws (suc i) s

fill_password-Spelt :
    (draws : ℕ → Option ℕ) (i left : ℕ)
    → Fair draws
    → (s : String) × (fill_password draws i left ≡ some s) × (count s ≡ left) × Spelt draws i s
unfolding fill_password
fill_password-Spelt draws i zero fair = ("", refl, refl, tt)
fill_password-Spelt draws i (suc left) fair =
    let (n, drawn, lt) = fair i in
    let (s, filled, sized, spelt) = fill_password-Spelt draws (suc i) left fair in
    let at = found n lt in
    (
      text_cons (char_at password_alphabet n) s,
      rw (drawn, filled) refl,
      length-cons (char_at password_alphabet n) s ∙ ap suc sized,
      (drawn ∙ ap some (sym at), ap (char_at password_alphabet) at, spelt),
    )

-- When the random numbers can be had, `generatePassword` gives a password of the length asked for,
-- in which the characters are those of the alphabet that the numbers stand for. The numbers can be
-- read off the password, so that no password is likelier than another.
pub generate_password-Spelt :
    (draws : ℕ → Option ℕ) (size : ℕ)
    → Fair draws
    → (s : String) × (generate_password draws size ≡ some s) × (count s ≡ size) × Spelt draws 0 s
unfolding generate_password
generate_password-Spelt draws size fair = fill_password-Spelt draws 0 size fair
