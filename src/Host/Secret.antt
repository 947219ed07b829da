-- ===== src/Host/Secret.antt =====
-- internal/hostauth/hostauth.go: the check of a viewer's password. The curve, the key derivation, the
-- cipher and base64 are library code: `Crypto` is a parameter, and `Lawful` says what the host relies
-- on. Bytes are natural numbers. An error of
-- `decrypt` is `none`: its text is never looked at.
use Prim.Native.String.{◌++◌ as str_append}
use text.Mathlib.TextLemmas.{append_inj}
use getsloth.Base.{
  ℕ, String, Bool, true, false, Option, none, some, ◌>>=◌, List, [], ◌∷◌, ◌++◌, ◌≡◌, ◌≢◌, refl, ◌↔◌,
  sym, ◌∙◌, arith, length, take, drop, ltb, if◌then◌else◌, Bool-cases, inl, inr, le→ltb_false, ap,
  length-append, ◌==◌, eq_iff,
}

abbrev pub Bytes : Type 0
Bytes = List ℕ

pub record Crypto (Private Public Shared Cipher : Type 0) : Type 0 where
  -- base64.StdEncoding
  pub decode : String → Option Bytes
  -- []byte(s)
  pub bytes_of : String → Bytes
  -- ecdh.P256().NewPublicKey and PrivateKey.ECDH
  pub new_public_key : Bytes → Option Public
  pub ecdh : Private → Public → Option Shared
  -- hkdf.New with SHA-256, no salt and the info, read for 32 bytes
  pub derive : Shared → String → Option Bytes
  -- aes.NewCipher and cipher.NewGCM
  pub new_gcm : Bytes → Option Cipher
  pub nonce_size : ℕ
  -- gcm.Open with nonce, ciphertext and additional data
  pub gcm_open : Cipher → Bytes → Bytes → Bytes → Option Bytes
  -- subtle.ConstantTimeCompare, `true` for 1
  pub constant_time_compare : Bytes → Bytes → Bool

abbrev pub hkdf_info : String
hkdf_info = "getsloth-v1-auth"

abbrev pub additional_data : String → String
additional_data session_id = str_append "getsloth-auth-v1:" session_id

module _ {Private Public Shared Cipher : Type 0} (lib : Crypto Private Public Shared Cipher) where
  -- The part of `decrypt` that has the cipher and the decoded ciphertext.
  unfoldable pub open_blob : Cipher → Bytes → String → Option Bytes
  open_blob cipher blob session_id =
      if ltb (length blob) lib.nonce_size
      then none
      else lib.gcm_open cipher (take lib.nonce_size blob) (drop lib.nonce_size blob)
          (lib.bytes_of (additional_data session_id))

  unfoldable pub decrypt : Private → String → String → String → Option Bytes
  unfolding open_blob
  decrypt priv session_id viewer_pubkey ciphertext = do
    pub_bytes ← lib.decode viewer_pubkey
    viewer_pub ← lib.new_public_key pub_bytes
    shared ← lib.ecdh priv viewer_pub
    aes_key ← lib.derive shared hkdf_info
    blob ← lib.decode ciphertext
    cipher ← lib.new_gcm aes_key
    open_blob cipher blob session_id

  unfoldable pub verify_password : Private → String → String → String → String → Bool
  unfolding decrypt
  verify_password priv session_id viewer_pubkey ciphertext actual =
      elim (decrypt priv session_id viewer_pubkey ciphertext) [
        | none ↦ false
        | some attempt ↦ lib.constant_time_compare attempt (lib.bytes_of actual)
      ]

-- What the host relies on: the comparison is equality, `seal` on the viewer's side is undone by
-- `gcm.Open` under the same additional data and refused under any other, and texts are told apart
-- by their bytes.
pub record Lawful {Private Public Shared Cipher : Type 0}
    (lib : Crypto Private Public Shared Cipher) : Type 0 where
  pub seal : Cipher → Bytes → Bytes → Bytes → Bytes
  pub compare_iff : (a b : Bytes) → (lib.constant_time_compare a b ≡ true) ↔ (a ≡ b)
  pub open_seal :
      (c : Cipher) (nonce plain aad : Bytes)
      → lib.gcm_open c nonce (seal c nonce plain aad) aad ≡ some plain
  pub open_other :
      (c : Cipher) (nonce plain aad other : Bytes)
      → aad ≢ other
      → lib.gcm_open c nonce (seal c nonce plain aad) other ≡ none
  pub bytes_of_inj : (s t : String) → lib.bytes_of s ≡ lib.bytes_of t → s ≡ t

-- A viewer's attempt to enter a session with a password, as docs/protocol.md has it build one: both
-- sides arrive at the cipher, and the blob is the nonce before the sealed password.
pub record Attempt {Private Public Shared Cipher : Type 0}
    (lib : Crypto Private Public Shared Cipher) (law : Lawful lib) (priv : Private)
    (viewer_pubkey ciphertext session_id password : String) : Type 0 where
  pub pub_bytes : Bytes
  pub viewer_pub : Public
  pub shared : Shared
  pub aes_key : Bytes
  pub cipher : Cipher
  pub nonce : Bytes
  pub decodes : lib.decode viewer_pubkey ≡ some pub_bytes
  pub parses : lib.new_public_key pub_bytes ≡ some viewer_pub
  pub agrees : lib.ecdh priv viewer_pub ≡ some shared
  pub derives : lib.derive shared hkdf_info ≡ some aes_key
  pub has_cipher : lib.new_gcm aes_key ≡ some cipher
  pub sized : length nonce ≡ lib.nonce_size
  pub sealed :
      lib.decode ciphertext
      ≡ some (
          nonce
          ++ law.seal cipher nonce
              (lib.bytes_of password)
              (lib.bytes_of (additional_data session_id)))

pub take-append : (xs ys : Bytes) → take (length xs) (xs ++ ys) ≡ xs
take-append [] ys = refl
take-append (x ∷ xs) ys = rw (take-append xs ys)

pub drop-append : (xs ys : Bytes) → drop (length xs) (xs ++ ys) ≡ ys
drop-append [] ys = refl
drop-append (x ∷ xs) ys = drop-append xs ys

additional_data-inj : (s t : String) → additional_data s ≡ additional_data t → s ≡ t
additional_data-inj s t e = (append_inj e refl).1

module _ {Private Public Shared Cipher : Type 0} (lib : Crypto Private Public Shared Cipher)
    (law : Lawful lib) (priv : Private) (viewer_pubkey ciphertext from password : String)
    (a : Attempt lib law priv viewer_pubkey ciphertext from password) where
  abbrev sealed_password : Bytes
  sealed_password =
      law.seal a.cipher a.nonce (lib.bytes_of password) (lib.bytes_of (additional_data from))

  open_blob-sealed :
      (session_id : String)
      → open_blob lib a.cipher (a.nonce ++ sealed_password) session_id
        ≡ lib.gcm_open a.cipher a.nonce sealed_password (lib.bytes_of (additional_data session_id))
  unfolding open_blob
  open_blob-sealed session_id = rw (
    ← a.sized,
    le→ltb_false (length (a.nonce ++ sealed_password)) (length a.nonce)
        (omega (arith, length-append a.nonce sealed_password)),
    take-append a.nonce sealed_password,
    drop-append a.nonce sealed_password,
  )

  decrypt-Attempt :
      (session_id : String)
      → decrypt lib priv session_id viewer_pubkey ciphertext
        ≡ lib.gcm_open a.cipher a.nonce sealed_password (lib.bytes_of (additional_data session_id))
  unfolding decrypt
  decrypt-Attempt session_id =
      rw (a.decodes, a.parses, a.agrees, a.derives, a.sealed, a.has_cipher)
        (open_blob-sealed session_id)

  opened_here : decrypt lib priv from viewer_pubkey ciphertext ≡ some (lib.bytes_of password)
  opened_here = decrypt-Attempt from ∙ law.open_seal _ _ _ _

  opened_elsewhere :
      (session_id : String)
      → session_id ≢ from
      → decrypt lib priv session_id viewer_pubkey ciphertext ≡ none
  opened_elsewhere session_id other =
      decrypt-Attempt session_id
      ∙ law.open_other _ _ _ _ _
          (λ e. other (sym (additional_data-inj from session_id (law.bytes_of_inj _ _ e))))

  -- The host accepts an attempt exactly when it was made for this session and with this password:
  -- neither another password nor an attempt recorded in another session is accepted.
  pub verify_password-Attempt :
      (session_id actual : String)
      → (verify_password lib priv session_id viewer_pubkey ciphertext actual ≡ true)
        ↔ ((session_id ≡ from) × (password ≡ actual))
  unfolding verify_password
  verify_password-Attempt session_id actual = elim (Bool-cases (session_id == from)) [
    | inl e ↦
        let here = (eq_iff session_id from).0 e in
        let same = law.compare_iff (lib.bytes_of password) (lib.bytes_of actual) in
        rw (here, verify_password, opened_here)
          (
            (λ ok. (refl, law.bytes_of_inj _ _ (same.0 ok))),
            (λ both. same.1 (ap lib.bytes_of both.1)),
          )
    | inr e ↦
        rw
          (
            verify_password,
            opened_elsewhere session_id (λ q. ground (arith, eq_iff session_id from)),
          )
          ((λ ok. ground arith), (λ both. ground (arith, eq_iff session_id from)))
  ]
