-- ===== src/Channel/Handshake.antt =====
-- `noise_handshake` of src/net/secure_channel.h and secure_channel.cpp. What a call leaves of the state
-- is modelled where it fails, too. Wiping is left out, and a message that is read is its unread suffix.
pub mod Tokens
pub mod Messages
pub mod Agreement
pub mod Split
use eos_reimagined.Base.{
  ℕ, zero, suc, ◌+◌, ◌-◌, ◌%◌, ◌^◌, ◌≡◌, Bool, true, false, not, ◌&&◌, ◌||◌, Option, none, some,
  List, [], ◌∷◌, ◌++◌, length, take, drop, ltb, ◌==◌, if◌then◌else◌,
}
use eos_reimagined.Base.Attempt.{Attempt, ◌>>=◌, pure, fail}
use eos_reimagined.ByteBuffer.{Text}
use eos_reimagined.Crypto.Sha256.{sha256}
use eos_reimagined.Crypto.Keys.{hkdf_sha256}
use eos_reimagined.Crypto.Encoder.{canonical_encoder, field}
use eos_reimagined.Channel.Cipher.{
  Aead, CipherState, blank_key, new_cipher, init_key, encrypt, decrypt,
}

-- The vendored curve: `crypto_x25519_public_key` and `crypto_x25519`. What the code relies on: a public
-- key has 32 bytes, and two ends compute the same secret.
pub record Curve : Type 0 where
  pub public_key : List ℕ → List ℕ
  pub crypto_x25519 : List ℕ → List ℕ → List ℕ
  pub public_length : (secret : List ℕ) → length (public_key secret) ≡ 32
  pub agrees : (a b : List ℕ) → crypto_x25519 a (public_key b) ≡ crypto_x25519 b (public_key a)

-- `crypto_verify32` against zeros.
all_zero : List ℕ → Bool
all_zero [] = true
all_zero (x ∷ xs) = x == 0 && all_zero xs

-- A low-order public key gives the zero secret, which is refused.
unfoldable pub x25519_shared : Curve → List ℕ → List ℕ → Option (List ℕ)
unfolding all_zero
x25519_shared curve secret peer_public =
    let shared = curve.crypto_x25519 secret peer_public in
    if all_zero shared then none else some shared

-- "Noise_XX_25519_ChaChaPoly_SHA256"
abbrev protocol_name : Text
protocol_name =
    78 ∷ 111 ∷ 105 ∷ 115 ∷ 101 ∷ 95 ∷ 88 ∷ 88 ∷ 95 ∷ 50 ∷ 53 ∷ 53 ∷ 49 ∷ 57 ∷ 95 ∷ 67 ∷ 104 ∷ 97
    ∷ 67 ∷ 104 ∷ 97 ∷ 80 ∷ 111 ∷ 108 ∷ 121 ∷ 95 ∷ 83 ∷ 72 ∷ 65 ∷ 50 ∷ 53 ∷ 54 ∷ []

-- "eosr-udp-subkey-v1"
abbrev udp_subkey_domain : Text
udp_subkey_domain =
    101 ∷ 111 ∷ 115 ∷ 114 ∷ 45 ∷ 117 ∷ 100 ∷ 112 ∷ 45 ∷ 115 ∷ 117 ∷ 98 ∷ 107 ∷ 101 ∷ 121 ∷ 45 ∷ 118
    ∷ 49 ∷ []

abbrev pub dh_len : ℕ
dh_len = 32

abbrev tag_len : ℕ
tag_len = 16

abbrev max_noise_message : ℕ
max_noise_message = 65535

pub data Token : Type 0 where
  tok_e : Token
  tok_s : Token
  tok_ee : Token
  tok_es : Token
  tok_se : Token

unfoldable pub xx_message : ℕ → List Token
xx_message zero = tok_e ∷ []
xx_message (suc zero) = tok_e ∷ tok_ee ∷ tok_s ∷ tok_es ∷ []
xx_message (suc (suc zero)) = tok_s ∷ tok_se ∷ []
xx_message other = []

-- The members that Noise calls the symmetric state.
pub record Symmetric : Type 0 where
  pub ck : List ℕ
  pub h : List ℕ
  pub cs : CipherState

pub record Handshake : Type 0 where
  pub symmetric : Symmetric
  pub initiator : Bool
  pub s_priv : List ℕ
  pub s_pub : List ℕ
  pub e_priv : List ℕ
  pub e_pub : List ℕ
  pub have_e : Bool
  pub remote_static : List ℕ
  pub have_rs : Bool
  pub re : List ℕ
  pub have_re : Bool
  pub fixed_ephemeral : Bool
  pub fixed_e_priv : List ℕ
  pub message_index : ℕ
  pub done : Bool
  pub split_done : Bool
  pub handshake_hash : List ℕ

unfoldable pub mix_hash : List ℕ → Symmetric → Symmetric
mix_hash bytes y = record y { h = sha256 (y.h ++ bytes) }

keyed_by : Symmetric → List (List ℕ) → Option Symmetric
keyed_by y (k1 ∷ k2 ∷ []) = some (record y { ck = k1; cs = init_key k2 })
keyed_by y other = none

unfoldable pub mix_key : List ℕ → Symmetric → Option Symmetric
unfolding keyed_by
mix_key ikm y = keyed_by y (hkdf_sha256 y.ck ikm 2)

unfoldable pub noise_handshake : Bool → List ℕ → List ℕ → List ℕ → Handshake
unfolding mix_hash
noise_handshake initiator static_priv static_pub prologue = record {
  symmetric = mix_hash prologue (record { ck = protocol_name; h = protocol_name; cs = new_cipher });
  initiator = initiator;
  s_priv = static_priv;
  s_pub = static_pub;
  e_priv = blank_key;
  e_pub = blank_key;
  have_e = false;
  remote_static = blank_key;
  have_rs = false;
  re = blank_key;
  have_re = false;
  fixed_ephemeral = false;
  fixed_e_priv = blank_key;
  message_index = 0;
  done = false;
  split_done = false;
  handshake_hash = blank_key;
}

unfoldable pub set_fixed_ephemeral : List ℕ → Handshake → Handshake
set_fixed_ephemeral ephemeral_priv n = record n {
  fixed_e_priv = ephemeral_priv;
  fixed_ephemeral = true;
}

-- Does this side write the message at `index`?
unfoldable pub we_write : Bool → ℕ → Bool
we_write initiator index = if index % 2 == 0 then initiator else not initiator

-- The size that `write_message` reckons for the tokens, and whether the cipher has a key behind them.
token_size : List Token → ℕ → Bool → ℕ × Bool
token_size [] size keyed = (size, keyed)
token_size (tok_e ∷ ts) size keyed = token_size ts (size + dh_len) keyed
token_size (tok_s ∷ ts) size keyed =
    token_size ts (size + dh_len + (if keyed then tag_len else 0)) keyed
token_size (tok_ee ∷ ts) size keyed = token_size ts size true
token_size (tok_es ∷ ts) size keyed = token_size ts size true
token_size (tok_se ∷ ts) size keyed = token_size ts size true

message_size : List Token → Bool → ℕ → ℕ
unfolding token_size
message_size ts has_key payload_len =
    let (size, keyed) = token_size ts 0 has_key in
    size + payload_len + (if keyed then tag_len else 0)

module _ (aead : Aead) where
  hashed : Symmetric → Option (List ℕ) × CipherState → Option (List ℕ) × Symmetric
  hashed y (none, cs) = (none, record y { cs = cs })
  hashed y (some cipher, cs) = (some cipher, mix_hash cipher (record y { cs = cs }))

  unfoldable pub encrypt_and_hash : List ℕ → Attempt Symmetric (List ℕ)
  unfolding hashed mix_hash
  encrypt_and_hash plain y = hashed y (encrypt aead y.cs y.h plain)

  hashed_cipher : List ℕ → Symmetric → Option (List ℕ) × CipherState → Option (List ℕ) × Symmetric
  hashed_cipher cipher y (none, cs) = (none, record y { cs = cs })
  hashed_cipher cipher y (some plain, cs) = (some plain, mix_hash cipher (record y { cs = cs }))

  unfoldable pub decrypt_and_hash : List ℕ → Attempt Symmetric (List ℕ)
  unfolding hashed_cipher mix_hash
  decrypt_and_hash cipher y =
      let extra = if y.cs.has_key then tag_len else 0 in
      if ltb (length cipher) extra
      then (none, y)
      else hashed_cipher cipher y (decrypt aead y.cs y.h cipher)

-- A call on the symmetric state within the handshake.
in_symmetric : {A : Type 0} → Handshake → Option A × Symmetric → Option A × Handshake
in_symmetric n (r, y) = (r, record n { symmetric = y })

unfoldable pub on_symmetric : {A : Type 0} → Attempt Symmetric A → Attempt Handshake A
unfolding in_symmetric
on_symmetric p n = in_symmetric n (p n.symmetric)

unfoldable pub hash_in : List ℕ → Handshake → Handshake
unfolding mix_hash
hash_in bytes n = record n { symmetric = mix_hash bytes n.symmetric }

module _ (aead : Aead) (curve : Curve) where
  with_ephemeral : List ℕ → Handshake → Handshake
  with_ephemeral secret n = record n {
    e_priv = secret;
    e_pub = curve.public_key secret;
    have_e = true;
  }

  -- `random` is what `platform::random_bytes` gives, `none` where it fails.
  from_random : Option (List ℕ) → Handshake → Option (Unit {0}) × Handshake
  unfolding with_ephemeral
  from_random none n = (none, n)
  from_random (some secret) n = (some tt, with_ephemeral secret n)

  unfoldable pub ensure_ephemeral : Option (List ℕ) → Handshake → Option (Unit {0}) × Handshake
  unfolding with_ephemeral from_random
  ensure_ephemeral random n =
      if n.have_e
      then (some tt, n)
      else if n.fixed_ephemeral
      then (some tt, with_ephemeral n.fixed_e_priv n)
      else from_random random n

  keyed : Handshake → Option Symmetric → Option (Unit {0}) × Handshake
  keyed n none = (none, n)
  keyed n (some y) = (some tt, record n { symmetric = y })

  mixed : Handshake → Option (List ℕ) → Option (Unit {0}) × Handshake
  unfolding keyed
  mixed n none = (none, n)
  mixed n (some secret) = keyed n (mix_key secret n.symmetric)

  -- `dh` and `mix_key` of a token, the same for both ends.
  unfoldable pub mix_token : Token → Handshake → Option (Unit {0}) × Handshake
  unfolding mixed keyed
  mix_token tok_ee n = mixed n (x25519_shared curve n.e_priv n.re)
  mix_token tok_es n = mixed n (
      x25519_shared curve (if n.initiator then n.e_priv else n.s_priv)
        (if n.initiator then n.remote_static else n.re))
  mix_token tok_se n = mixed n (
      x25519_shared curve (if n.initiator then n.s_priv else n.e_priv)
        (if n.initiator then n.re else n.remote_static))
  mix_token other n = (some tt, n)

  appended_e : List ℕ → Attempt Handshake (List ℕ)
  appended_e out n = (some (out ++ n.e_pub), hash_in n.e_pub n)

  unfoldable pub write_token : Option (List ℕ) → List ℕ → Token → Attempt Handshake (List ℕ)
  unfolding appended_e hash_in
  write_token random out tok_e = do _ ← ensure_ephemeral random; appended_e out
  write_token random out tok_s =
      λ n. (do enc ← on_symmetric (encrypt_and_hash aead n.s_pub); pure (out ++ enc)) n
  write_token random out token = do _ ← mix_token token; pure out

  unfoldable pub write_tokens : Option (List ℕ) → List ℕ → List Token → Attempt Handshake (List ℕ)
  write_tokens random out [] = pure out
  write_tokens random out (t ∷ ts) = do out' ← write_token random out t; write_tokens random out' ts

  -- Behind the payload: the third message ends the handshake.
  unfoldable pub advance : Handshake → Handshake
  advance n =
      if n.message_index == 2
      then record n {
        done = true;
        handshake_hash = n.symmetric.h;
        message_index = n.message_index + 1;
      }
      else record n { message_index = n.message_index + 1 }

  unfoldable pub advanced : List ℕ → Attempt Handshake (List ℕ)
  advanced out n = (some out, advance n)

  unfoldable pub write_body : Option (List ℕ) → List ℕ → List Token → Attempt Handshake (List ℕ)
  unfolding advanced advance
  write_body random payload tokens = do
    out ← write_tokens random [] tokens
    enc ← on_symmetric (encrypt_and_hash aead payload)
    advanced (out ++ enc)

  unfoldable pub write_message : Option (List ℕ) → List ℕ → Attempt Handshake (List ℕ)
  unfolding write_body advanced message_size token_size
  write_message random payload n =
      let tokens = xx_message n.message_index in
      if n.done || not (we_write n.initiator n.message_index)
      then (none, n)
      else if ltb max_noise_message (message_size tokens n.symmetric.cs.has_key (length payload))
      then (none, n)
      else write_body random payload tokens n

  -- `tok_e` and `tok_s` of `read_message` on the unread bytes; they give what is left unread.
  unfoldable pub read_e : List ℕ → Attempt Handshake (List ℕ)
  unfolding hash_in
  read_e message n =
      let re = take dh_len message in
      if ltb (length message) dh_len
      then (none, n)
      else (some (drop dh_len message), hash_in re (record n { re = re; have_re = true }))

  keep_static : List ℕ → List ℕ → Attempt Handshake (List ℕ)
  keep_static rest rs n =
      if not (length rs == dh_len)
      then (none, n)
      else (some rest, record n { remote_static = rs; have_rs = true })

  unfoldable pub read_s : List ℕ → Attempt Handshake (List ℕ)
  unfolding keep_static
  read_s message n =
      let slen = if n.symmetric.cs.has_key then dh_len + tag_len else dh_len in
      if ltb (length message) slen
      then (none, n)
      else (do
        rs ← on_symmetric (decrypt_and_hash aead (take slen message))
        keep_static (drop slen message) rs)
          n

  unfoldable pub read_token : List ℕ → Token → Attempt Handshake (List ℕ)
  read_token message tok_e = read_e message
  read_token message tok_s = read_s message
  read_token message token = do _ ← mix_token token; pure message

  unfoldable pub read_tokens : List ℕ → List Token → Attempt Handshake (List ℕ)
  read_tokens message [] = pure message
  read_tokens message (t ∷ ts) = do rest ← read_token message t; read_tokens rest ts

  unfoldable pub read_body : List ℕ → List Token → Attempt Handshake (List ℕ)
  unfolding advanced advance
  read_body message tokens = do
    rest ← read_tokens message tokens
    payload ← on_symmetric (decrypt_and_hash aead rest)
    advanced payload

  unfoldable pub read_message : List ℕ → Attempt Handshake (List ℕ)
  unfolding read_body advanced
  read_message message n =
      if n.done || we_write n.initiator n.message_index || ltb max_noise_message (length message)
      then (none, n)
      else read_body message (xx_message n.message_index) n

-- The keys that `split` hands out.
pub record SplitKeys : Type 0 where
  pub send : CipherState
  pub recv : CipherState
  pub udp_send : List ℕ
  pub udp_recv : List ℕ

orient : Bool → List ℕ → List ℕ → List ℕ → List ℕ → SplitKeys
orient initiator k1 k2 u1 u2 =
    if initiator
    then record { send = init_key k1; recv = init_key k2; udp_send = u1; udp_recv = u2 }
    else record { send = init_key k2; recv = init_key k1; udp_send = u2; udp_recv = u1 }

split_keys : Bool → List (List ℕ) → List (List ℕ) → Option SplitKeys
unfolding orient
split_keys initiator (u1 ∷ u2 ∷ []) (k1 ∷ k2 ∷ []) = some (orient initiator k1 k2 u1 u2)
split_keys initiator udp out = none

split_over : Handshake → Option SplitKeys → Option SplitKeys × Handshake
split_over n none = (none, n)
split_over n (some keys) = (some keys, record n { split_done = true })

unfoldable pub split : Attempt Handshake SplitKeys
unfolding split_keys orient split_over
split n =
    if not n.done || n.split_done
    then (none, n)
    else split_over n (
        split_keys n.initiator
          (hkdf_sha256 n.symmetric.ck (field udp_subkey_domain canonical_encoder) 2)
          (hkdf_sha256 n.symmetric.ck [] 2))

transport_of : Option SplitKeys × Handshake → Option (CipherState × CipherState) × Handshake
transport_of (none, n) = (none, n)
transport_of (some keys, n) = (some (keys.send, keys.recv), n)

-- `split` for a caller without a datagram path.
unfoldable pub split_transport : Attempt Handshake (CipherState × CipherState)
unfolding transport_of
split_transport n = transport_of (split n)
