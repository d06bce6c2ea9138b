-- ===== src/Router.antt =====
-- The stream path of src/net/message_router.h and message_router.cpp: how an envelope is sealed into a
-- frame for a peer (`seal_frame`), and what `drain_peers` does with the bytes that a peer's connection
-- has given. Sockets are not modelled: what was read stands in the buffer already.
pub mod Stream
pub mod Datagrams
pub mod Listeners
use eos_reimagined.Base.{
  ℕ, zero, suc, ◌+◌, ◌*◌, ◌/◌, ◌%◌, ◌^◌, Bool, true, false, not, ◌&&◌, ◌||◌, Option, none, some,
  List, [], ◌∷◌, ◌++◌, length, ltb, ◌==◌, if◌then◌else◌,
}
use eos_reimagined.Base.Attempt.{Attempt, ◌>>=◌, pure, fail}
pub use eos_reimagined.Base.Texts.{same_text}
use eos_reimagined.ByteBuffer.{Text}
use eos_reimagined.Frame.{
  max_message_size, FrameState, frame_none, frame_refused, frame_ready, take_frame,
}
use eos_reimagined.Wire.Peer.{
  NetEnvelope, NetAdvertise, serialize_net_envelope, deserialize_net_envelope,
  deserialize_net_advertise,
}
use eos_reimagined.Channel.Cipher.{Aead}
use eos_reimagined.Channel.Peer.{PeerChannel, seal, unseal}

pub write_be32 : ℕ → List ℕ
write_be32 value =
    value / 2 ^ 24 % 2 ^ 8 ∷ value / 2 ^ 16 % 2 ^ 8 ∷ value / 2 ^ 8 % 2 ^ 8 ∷ value % 2 ^ 8 ∷ []

-- `message_type::net_advertise`.
abbrev pub net_advertise : ℕ
net_advertise = 40

-- Who we are.
pub record Router : Type 0 where
  pub product_user_id : Text
  pub game_id : Text

-- `peer`, less the socket and the outbox.
pub record Peer : Type 0 where
  pub buffer : List ℕ
  pub channel : PeerChannel
  pub epic_id : Text
  pub datagram_port : ℕ
  pub last_seen : ℕ

pub data DropReason : Type 0 where
  frame_too_large : DropReason
  authentication_failed : DropReason

module _ (aead : Aead) where
  unfoldable pub seal_frame : List ℕ → Attempt PeerChannel (List ℕ)
  unfolding write_be32
  seal_frame plain c =
      let sealed_len = length plain + 16 in
      let prefix = write_be32 (sealed_len % 2 ^ 32) in
      if ltb max_message_size sealed_len
      then (none, c)
      else (do sealed ← seal aead plain prefix; pure (prefix ++ sealed)) c

  -- The bytes that envelopes sent in turn to one peer put behind each other in its outbox.
  unfoldable pub send_all : List NetEnvelope → Attempt PeerChannel (List ℕ)
  unfolding seal_frame
  send_all [] = pure []
  send_all (msg ∷ msgs) = do
    framed ← seal_frame (serialize_net_envelope msg [])
    rest ← send_all msgs
    pure (framed ++ rest)

-- A port of zero, or a payload that is no advertisement, teaches nothing.
learned : Option NetAdvertise × List ℕ → Peer → Peer
learned (none, rest) entry = entry
learned (some infos, rest) entry =
    if infos.udp_port == 0 then entry else record entry { datagram_port = infos.udp_port }

unfoldable pub learn_datagram_port : NetEnvelope → Peer → Peer
unfolding learned
learn_datagram_port msg entry = learned (deserialize_net_advertise msg.payload) entry

is_empty : Text → Bool
is_empty [] = true
is_empty (c ∷ cs) = false

unfoldable pub accept_inbound : Router → NetEnvelope → Bool
unfolding is_empty
accept_inbound router msg =
    if not (is_empty msg.game_id) && not (same_text msg.game_id router.game_id)
    then false
    else if not (is_empty msg.dest_id) && not (same_text msg.dest_id router.product_user_id)
    then false
    else true

-- What a pass over a peer gives: the messages to dispatch, why the peer is to be dropped, if it is, and
-- its entry.
abbrev pub Pass : Type 0
Pass = List NetEnvelope × Option DropReason × Peer

module _ (aead : Aead) (router : Router) (id : Text) (now : ℕ) where
  -- An envelope that opened: it is from the key that opened it, whatever it says.
  attributed : (Peer → Pass) → Peer → NetEnvelope → Pass
  attributed again entry msg =
      let from = record msg { source_id = id } in
      let seen = record entry { last_seen = now } in
      let (messages, dropped, left) = again seen in
      if from.type_tag == net_advertise
      then again (learn_datagram_port from seen)
      else if accept_inbound router from
      then (from ∷ messages, dropped, left)
      else again seen

  readable : (Peer → Pass) → Peer → Option NetEnvelope × List ℕ → Pass
  unfolding attributed
  readable again entry (none, rest) = again entry
  readable again entry (some msg, rest) = attributed again entry msg

  unsealed : (Peer → Pass) → Peer → Option (List ℕ) × PeerChannel → Pass
  unfolding readable attributed
  unsealed again entry (none, channel) =
      ([], some authentication_failed, record entry { channel = channel })
  unsealed again entry (some plain, channel) =
      readable again (record entry { channel = channel }) (deserialize_net_envelope plain)

  framed_round : (Peer → Pass) → Peer → FrameState × List ℕ → Pass
  unfolding unsealed readable attributed write_be32
  framed_round again entry (frame_none, rest) = ([], none, record entry { buffer = rest })
  framed_round again entry (frame_refused, rest) =
      ([], some frame_too_large, record entry { buffer = rest })
  framed_round again entry (frame_ready sealed, rest) =
      unsealed again (record entry { buffer = rest })
        (unseal aead sealed (write_be32 (length sealed % 2 ^ 32)) entry.channel)

  -- The loop over the buffer. A frame takes four bytes at least.
  unfoldable pub drain_rounds : ℕ → Peer → Pass
  unfolding framed_round unsealed readable attributed write_be32
  drain_rounds zero entry = ([], none, entry)
  drain_rounds (suc fuel) entry = framed_round (drain_rounds fuel) entry (take_frame entry.buffer)

  unfoldable pub drain_peer : Peer → Pass
  unfolding drain_rounds
  drain_peer entry = drain_rounds (length entry.buffer + 1) entry
