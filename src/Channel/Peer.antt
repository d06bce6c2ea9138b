-- ===== src/Channel/Peer.antt =====
-- `peer_channel` of src/net/peer_channel.h and peer_channel.cpp. Noise runs over the connection until
-- the peer is authenticated; then frames and datagrams are sealed under the keys of the handshake.
-- `random` is what the platform gives for the ephemeral secret. The reply of a step that failed, which
-- no caller reads, is left out.
pub mod Labels
pub mod Established
pub mod Datagrams
pub mod Frames
pub mod Ready
use eos_reimagined.Base.{
  ℕ, zero, suc, ◌+◌, ◌-◌, ◌*◌, ◌/◌, ◌%◌, ◌^◌, Bool, true, false, not, ◌||◌, Option, none, some,
  List, [], ◌∷◌, ◌++◌, length, take, drop, ltb, ◌==◌, if◌then◌else◌,
}
use eos_reimagined.Base.Attempt.{Attempt, ◌>>=◌, pure}
use eos_reimagined.ByteBuffer.{Text}
use eos_reimagined.Crypto.Sha256.{sha256}
use eos_reimagined.Crypto.Encoder.{canonical_encoder, field, field_u64, raw_u8}
use eos_reimagined.Channel.Cipher.{new_cipher, blank_key, Aead, CipherState, encrypt, decrypt}
use eos_reimagined.Channel.Replay.{ReplayWindow, fresh, accept}
use eos_reimagined.Channel.Handshake.{
  Curve, Handshake, SplitKeys, noise_handshake, write_message, read_message, split,
}

-- "eosr-noise-v1"
abbrev prologue_domain : Text
prologue_domain = 101 ∷ 111 ∷ 115 ∷ 114 ∷ 45 ∷ 110 ∷ 111 ∷ 105 ∷ 115 ∷ 101 ∷ 45 ∷ 118 ∷ 49 ∷ []

-- "eosr-udp-tag-v1"
abbrev udp_tag_domain : Text
udp_tag_domain =
    101 ∷ 111 ∷ 115 ∷ 114 ∷ 45 ∷ 117 ∷ 100 ∷ 112 ∷ 45 ∷ 116 ∷ 97 ∷ 103 ∷ 45 ∷ 118 ∷ 49 ∷ []

abbrev wire_protocol_version : ℕ
wire_protocol_version = 2

abbrev aead_tag_len : ℕ
aead_tag_len = 16

-- The first four bytes of a digest, the highest first.
first_word : List ℕ → ℕ
first_word (a ∷ b ∷ c ∷ d ∷ rest) = a * 2 ^ 24 + b * 2 ^ 16 + c * 2 ^ 8 + d
first_word digest = 0

pub tag_of_key : List ℕ → ℕ
unfolding first_word
tag_of_key key = first_word (sha256 (field key (field udp_tag_domain canonical_encoder)))

unfoldable pub datagram_ad : Text → Text → ℕ → List ℕ
datagram_ad sender_id dest_id seq =
    field_u64 seq (field dest_id (field sender_id canonical_encoder))

pub build_datagram_nonce : ℕ → List ℕ
build_datagram_nonce seq =
    0
    ∷ 0
    ∷ 0
    ∷ 0
    ∷ seq % 256
    ∷ seq / 2 ^ 8 % 256
    ∷ seq / 2 ^ 16 % 256
    ∷ seq / 2 ^ 24 % 256
    ∷ seq / 2 ^ 32 % 256
    ∷ seq / 2 ^ 40 % 256
    ∷ seq / 2 ^ 48 % 256
    ∷ seq / 2 ^ 56 % 256
    ∷ []

-- By the index of the message.
unfoldable pub handshake_message_size : ℕ → ℕ
handshake_message_size zero = 32
handshake_message_size (suc zero) = 96
handshake_message_size other = 64

abbrev handshake_message_count : ℕ
handshake_message_count = 3

unfoldable pub we_write : Bool → ℕ → Bool
we_write initiator index = if index % 2 == 0 then initiator else not initiator

unfoldable pub mesh_prologue : Text → Text → Text → List ℕ
mesh_prologue product_id sandbox_id deployment_id = field deployment_id (
    field sandbox_id
      (field product_id (raw_u8 wire_protocol_version (field prologue_domain canonical_encoder))))

pub data Step : Type 0 where
  step_continue : Step
  step_done : Step

pub record PeerChannel : Type 0 where
  pub handshake : Option Handshake
  pub send : CipherState
  pub recv : CipherState
  pub remote_static : List ℕ
  pub udp_send : List ℕ
  pub udp_recv : List ℕ
  pub udp_send_tag : ℕ
  pub udp_recv_tag : ℕ
  pub udp_seq : ℕ
  pub udp_replay : ReplayWindow
  pub initiator : Bool
  pub established : Bool
  pub message_index : ℕ

unfoldable pub peer_channel : Bool → List ℕ → List ℕ → List ℕ → PeerChannel
peer_channel initiator static_priv static_pub prologue = record {
  handshake = some (noise_handshake initiator static_priv static_pub prologue);
  send = new_cipher;
  recv = new_cipher;
  remote_static = blank_key;
  udp_send = blank_key;
  udp_recv = blank_key;
  udp_send_tag = 0;
  udp_recv_tag = 0;
  udp_seq = 0;
  udp_replay = fresh;
  initiator = initiator;
  established = false;
  message_index = 0;
}

in_handshake : {A : Type 0} → PeerChannel → Option A × Handshake → Option A × PeerChannel
in_handshake c (r, n) = (r, record c { handshake = some n })

call_handshake :
    {A : Type 0} → Attempt Handshake A → PeerChannel → Option Handshake → Option A × PeerChannel
unfolding in_handshake
call_handshake p c none = (none, c)
call_handshake p c (some n) = in_handshake c (p n)

-- A call of `handshake_`, which fails where there is none any more.
unfoldable pub on_handshake : {A : Type 0} → Attempt Handshake A → Attempt PeerChannel A
unfolding call_handshake in_handshake
on_handshake p c = call_handshake p c c.handshake

-- `message_index_++` behind a message.
unfoldable pub counted : List ℕ → Attempt PeerChannel (List ℕ)
counted message c = (some message, record c { message_index = c.message_index + 1 })

module _ (aead : Aead) (curve : Curve) where
  unfoldable pub written : Option (List ℕ) → Attempt PeerChannel (List ℕ)
  unfolding on_handshake counted
  written random = do message ← on_handshake (write_message aead curve random []); counted message

  unfoldable pub peer_open : Option (List ℕ) → Attempt PeerChannel (List ℕ)
  unfolding written
  peer_open random c =
      if not c.initiator || not (c.message_index == 0) then (none, c) else written random c

  -- The reply, if this side writes the next message.
  unfoldable pub answer : Option (List ℕ) → Attempt PeerChannel (List ℕ)
  unfolding written
  answer random c =
      if ltb c.message_index handshake_message_count then written random c else (some [], c)

-- Both transports are keyed, and the handshake is let go.
unfoldable pub establish : List ℕ → SplitKeys → Attempt PeerChannel (Step × List ℕ)
establish reply keys c = (
  some (step_done, reply),
  record c {
    send = keys.send;
    recv = keys.recv;
    udp_send = keys.udp_send;
    udp_recv = keys.udp_recv;
    udp_send_tag = tag_of_key keys.udp_send;
    udp_recv_tag = tag_of_key keys.udp_recv;
    handshake = none;
    established = true;
  },
)

-- Behind the messages: the peer is authenticated once the handshake is done.
finished : List ℕ → PeerChannel → Option Handshake → Option (Step × List ℕ) × PeerChannel
unfolding on_handshake establish
finished reply c none = (none, c)
finished reply c (some n) =
    if not n.done
    then (some (step_continue, reply), c)
    else if not n.have_rs
    then (none, c)
    else (do keys ← on_handshake split; establish reply keys)
        (record c { remote_static = n.remote_static })

unfoldable pub finish : List ℕ → Attempt PeerChannel (Step × List ℕ)
unfolding finished
finish reply c = finished reply c c.handshake

module _ (aead : Aead) (curve : Curve) where
  unfoldable pub consumed : Option (List ℕ) → List ℕ → Attempt PeerChannel (Step × List ℕ)
  unfolding on_handshake counted answer finish
  consumed random message = do
    payload ← on_handshake (read_message aead curve message)
    _ ← counted payload
    reply ← answer aead curve random
    finish reply

  -- `none` is `step_failed`.
  unfoldable pub read_handshake : Option (List ℕ) → List ℕ → Attempt PeerChannel (Step × List ℕ)
  unfolding consumed
  read_handshake random message c =
      if c.established || not (ltb c.message_index handshake_message_count)
      then (none, c)
      else if we_write c.initiator c.message_index
      then (none, c)
      else if not (length message == handshake_message_size c.message_index)
      then (none, c)
      else consumed random message c

sealed_by : PeerChannel → Option (List ℕ) × CipherState → Option (List ℕ) × PeerChannel
sealed_by c (r, s) = (r, record c { send = s })

unsealed_by : PeerChannel → Option (List ℕ) × CipherState → Option (List ℕ) × PeerChannel
unsealed_by c (r, s) = (r, record c { recv = s })

module _ (aead : Aead) where
  unfoldable pub seal : List ℕ → List ℕ → Attempt PeerChannel (List ℕ)
  unfolding sealed_by
  seal plain ad c =
      if not c.established then (none, c) else sealed_by c (encrypt aead c.send ad plain)

  unfoldable pub unseal : List ℕ → List ℕ → Attempt PeerChannel (List ℕ)
  unfolding unsealed_by
  unseal cipher ad c =
      if not c.established || ltb (length cipher) aead_tag_len
      then (none, c)
      else unsealed_by c (decrypt aead c.recv ad cipher)

  -- The sequence and the sealed bytes.
  unfoldable pub seal_datagram : Text → Text → List ℕ → Attempt PeerChannel (ℕ × List ℕ)
  seal_datagram sender_id dest_id plain c =
      let seq = c.udp_seq in
      let (body, tag) =
        aead.aead_encrypt c.udp_send (build_datagram_nonce seq) (datagram_ad sender_id dest_id seq)
          plain in
      if not c.established || seq == 2 ^ 64 - 1
      then (none, c)
      else (some (seq, body ++ tag), record c { udp_seq = seq + 1 })

  -- The window is spent on a datagram that authenticated.
  accepted : ℕ → PeerChannel → Option (List ℕ) → Option (List ℕ) × PeerChannel
  accepted seq c none = (none, c)
  accepted seq c (some plain) =
      let (ok, w) = accept c.udp_replay seq in
      (if ok then some plain else none, record c { udp_replay = w })

  unfoldable pub open_datagram : Text → Text → ℕ → List ℕ → Attempt PeerChannel (List ℕ)
  unfolding accepted
  open_datagram sender_id dest_id seq cipher c =
      let body = length cipher - aead_tag_len in
      if not c.established || ltb (length cipher) aead_tag_len
      then (none, c)
      else accepted seq c (
          aead.aead_decrypt c.udp_recv (build_datagram_nonce seq) (drop body cipher)
            (datagram_ad sender_id dest_id seq) (take body cipher))
