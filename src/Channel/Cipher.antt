-- ===== src/Channel/Cipher.antt =====
-- `cipher_state` of src/net/secure_channel.h and secure_channel.cpp: a key and a nonce that counts the
-- messages. The authenticated cipher of the vendored library, which the code calls through
-- src/common/crypto.h, is a parameter.
pub mod Order
use eos_reimagined.Base.{
  ℕ, ◌+◌, ◌-◌, ◌*◌, ◌/◌, ◌%◌, ◌^◌, ◌≡◌, Bool, true, false, not, ◌||◌, Option, none, some, List, [],
  ◌∷◌, ◌++◌, length, take, drop, ltb, ◌==◌, if◌then◌else◌,
}

-- `aead_encrypt` gives the body and the tag, `aead_decrypt` the plain text if the tag verifies. What
-- the code relies on: the body is as long as the plain text, a tag has 16 bytes, and what was
-- encrypted is decrypted under the same key, nonce and associated data.
pub record Aead : Type 0 where
  pub aead_encrypt : List ℕ → List ℕ → List ℕ → List ℕ → List ℕ × List ℕ
  pub aead_decrypt : List ℕ → List ℕ → List ℕ → List ℕ → List ℕ → Option (List ℕ)
  pub body_length :
      (key nonce ad plain : List ℕ) → length (aead_encrypt key nonce ad plain).0 ≡ length plain
  pub tag_length : (key nonce ad plain : List ℕ) → length (aead_encrypt key nonce ad plain).1 ≡ 16
  pub decrypts :
      (key nonce ad plain : List ℕ)
      → let (body, tag) = aead_encrypt key nonce ad plain in
        aead_decrypt key nonce tag ad body ≡ some plain

pub record CipherState : Type 0 where
  pub key : List ℕ
  pub nonce : ℕ
  pub has_key : Bool

abbrev tag_len : ℕ
tag_len = 16

-- The nonce that Noise reserves.
abbrev pub reserved_nonce : ℕ
reserved_nonce = 2 ^ 64 - 1

unfoldable pub init_key : List ℕ → CipherState
init_key key = record { key = key; nonce = 0; has_key = true }

-- 32 bytes of zeros.
abbrev pub blank_key : List ℕ
blank_key =
    0 ∷ 0 ∷ 0 ∷ 0 ∷ 0 ∷ 0 ∷ 0 ∷ 0 ∷ 0 ∷ 0 ∷ 0 ∷ 0 ∷ 0 ∷ 0 ∷ 0 ∷ 0 ∷ 0 ∷ 0 ∷ 0 ∷ 0 ∷ 0 ∷ 0 ∷ 0 ∷ 0
    ∷ 0 ∷ 0 ∷ 0 ∷ 0 ∷ 0 ∷ 0 ∷ 0 ∷ 0 ∷ []

abbrev pub new_cipher : CipherState
new_cipher = record { key = blank_key; nonce = 0; has_key = false }

pub wipe : CipherState → CipherState
wipe s = new_cipher

-- Four zeros, and the nonce in 8 bytes, the lowest first.
pub build_nonce : ℕ → List ℕ
build_nonce n =
    0
    ∷ 0
    ∷ 0
    ∷ 0
    ∷ n % 256
    ∷ n / 2 ^ 8 % 256
    ∷ n / 2 ^ 16 % 256
    ∷ n / 2 ^ 24 % 256
    ∷ n / 2 ^ 32 % 256
    ∷ n / 2 ^ 40 % 256
    ∷ n / 2 ^ 48 % 256
    ∷ n / 2 ^ 56 % 256
    ∷ []

abbrev next_nonce : CipherState → CipherState
next_nonce s = record s { nonce = (s.nonce + 1) % 2 ^ 64 }

module _ (aead : Aead) where
  -- The bytes that are written, the tag behind the body, or `none` where the code returns false.
  unfoldable pub encrypt : CipherState → List ℕ → List ℕ → Option (List ℕ) × CipherState
  unfolding build_nonce
  encrypt s ad plain =
      let (body, tag) = aead.aead_encrypt s.key (build_nonce s.nonce) ad plain in
      if not s.has_key
      then (some plain, s)
      else if s.nonce == reserved_nonce
      then (none, s)
      else (some (body ++ tag), next_nonce s)

  opened : CipherState → Option (List ℕ) → Option (List ℕ) × CipherState
  opened s none = (none, s)
  opened s (some plain) = (some plain, next_nonce s)

  unfoldable pub decrypt : CipherState → List ℕ → List ℕ → Option (List ℕ) × CipherState
  unfolding opened build_nonce
  decrypt s ad cipher =
      let body = length cipher - tag_len in
      if not s.has_key
      then (some cipher, s)
      else if s.nonce == reserved_nonce || ltb (length cipher) tag_len
      then (none, s)
      else opened s
          (aead.aead_decrypt s.key (build_nonce s.nonce) (drop body cipher) ad (take body cipher))

  -- Messages that one side encrypts in turn, each with its associated data, up to the first that fails.
  sealed : List ℕ → Option (List ℕ) → List (List ℕ × List ℕ) → List (List ℕ × List ℕ)
  sealed ad none rest = []
  sealed ad (some cipher) rest = (ad, cipher) ∷ rest

  pub encrypt_all : CipherState → List (List ℕ × List ℕ) → List (List ℕ × List ℕ)
  unfolding sealed
  encrypt_all s [] = []
  encrypt_all s ((ad, plain) ∷ ms) =
      let (cipher, s') = encrypt s ad plain in sealed ad cipher (encrypt_all s' ms)

  -- The same, decrypted.
  pub decrypt_all : CipherState → List (List ℕ × List ℕ) → List (List ℕ × List ℕ)
  unfolding sealed
  decrypt_all s [] = []
  decrypt_all s ((ad, cipher) ∷ ms) =
      let (plain, s') = decrypt s ad cipher in sealed ad plain (decrypt_all s' ms)
