-- ===== src/Router/Stream.antt =====
-- Envelopes that one router seals for a peer, and what the peer's router takes from its buffer.
use native.Mathlib.Nat.{mod-eq_of_lt}
use eos_reimagined.Base.{
  ℕ, zero, suc, ◌+◌, ◌%◌, ◌^◌, ◌≤◌, ◌<◌, ◌≡◌, refl, ap, ◌∙◌, true, false, none, some, List, [], ◌∷◌,
  ◌++◌, append-nil, length, length-append, map, ltb, le→ltb_false, ◌==◌, arith, All,
}
use eos_reimagined.Base.Attempt.{◌>>=◌, proceed, pure}
use eos_reimagined.ByteBuffer.{Text}
use eos_reimagined.Frame.{max_message_size, frame_ready, take_frame, frame_message}
use eos_reimagined.Frame.Stream.{take_frame-frame}
use eos_reimagined.Wire.Peer.{NetEnvelope, serialize_net_envelope, deserialize_net_envelope}
use eos_reimagined.Wire.Peer.RoundTrip.{IsEnvelope, net_envelope_roundtrip}
use eos_reimagined.Channel.Cipher.{Aead, reserved_nonce}
use eos_reimagined.Channel.Peer.{PeerChannel, seal, unseal}
use eos_reimagined.Channel.Peer.Established.{Crossed}
use eos_reimagined.Channel.Peer.Frames.{unseal-seal}
use eos_reimagined.Router.{
  Router, Peer, write_be32, net_advertise, accept_inbound, seal_frame, send_all, attributed,
  readable, unsealed, framed_round, drain_rounds, drain_peer,
}

-- An envelope that fits into a frame and is for the router's owner and his game.
pub record IsFor (router : Router) (id : Text) (msg : NetEnvelope) : Type 0 where
  pub envelope : IsEnvelope msg
  pub small : length (serialize_net_envelope msg []) + 16 ≤ max_message_size
  pub ordinary : (msg.type_tag == net_advertise) ≡ false
  pub ours : accept_inbound router (record msg { source_id = id }) ≡ true

read-written :
    (msg : NetEnvelope)
    → IsEnvelope msg
    → deserialize_net_envelope (serialize_net_envelope msg []) ≡ (some msg, [])
read-written msg h = rw append-nil at (net_envelope_roundtrip msg [] h)

module _ (aead : Aead) where
  -- A sealed frame is the frame of what `seal` gives.
  seal_frame-seal :
      (c c' : PeerChannel) (plain sealed : List ℕ)
      → length plain + 16 ≤ max_message_size
      → length sealed ≡ length plain + 16
      → seal aead plain (write_be32 (length plain + 16)) c ≡ (some sealed, c')
      → seal_frame aead plain c ≡ (some (frame_message sealed), c')
  unfolding seal_frame frame_message write_be32 ◌>>=◌ proceed pure
  seal_frame-seal c c' plain sealed small size e =
      let room : ltb max_message_size (length plain + 16) ≡ false =
        le→ltb_false (length plain + 16) max_message_size small in
      let low : (length plain + 16) % 2 ^ 32 ≡ length plain + 16 =
        mod-eq_of_lt (omega (arith, small)) in
      simp (room, low, e, size) refl

  module _ (router : Router) (id : Text) (now : ℕ) where
    -- A frame that opens to an envelope for us, at the front of the buffer.
    drain_rounds-frame :
        (fuel : ℕ) (entry : Peer) (d' : PeerChannel) (sealed rest : List ℕ) (msg : NetEnvelope)
        → entry.buffer ≡ frame_message sealed ++ rest
        → length sealed ≡ length (serialize_net_envelope msg []) + 16
        → unseal aead sealed
            (write_be32 (length (serialize_net_envelope msg []) + 16))
            entry.channel
          ≡ (some (serialize_net_envelope msg []), d')
        → IsFor router id msg
        → let (messages, dropped, left) =
            drain_rounds aead router id now fuel
              (record entry { buffer = rest; channel = d'; last_seen = now }) in
          drain_rounds aead router id now (suc fuel) entry
          ≡ (record msg { source_id = id } ∷ messages, dropped, left)
    unfolding drain_rounds framed_round unsealed readable attributed
    drain_rounds-frame fuel entry d' sealed rest msg front size opens for =
        let small = for.small in
        let taken : take_frame entry.buffer ≡ (frame_ready sealed, rest) =
          ap take_frame front ∙ take_frame-frame sealed rest (omega (arith, size, small)) in
        let low : length sealed % 2 ^ 32 ≡ length (serialize_net_envelope msg []) + 16 =
          mod-eq_of_lt (omega (arith, size, small)) ∙ size in
        simp (taken, low, opens, read-written msg for.envelope, for.ordinary, for.ours) refl

-- An envelope, from the key that opened it.
abbrev pub attribute : Text → NetEnvelope → NetEnvelope
attribute id msg = record msg { source_id = id }

-- The bytes of envelopes that are sent by `c`, and what a peer's entry makes of them, in at least as
-- many rounds as there are envelopes and one.
record Carries (aead : Aead) (router : Router) (id : Text) (now : ℕ) (c : PeerChannel)
    (entry : Peer) (msgs : List NetEnvelope) : Type 0 where
  bytes : List ℕ
  c' : PeerChannel
  left : Peer
  sends : send_all aead msgs c ≡ (some bytes, c')
  bulk : length msgs ≤ length bytes
  drains :
      (fuel : ℕ)
      → length msgs < fuel
      → drain_rounds aead router id now fuel (record entry { buffer = bytes })
        ≡ (map (attribute id) msgs, none, left)
  emptied : left.buffer ≡ []
  crossed : Crossed c' left.channel

module _ (aead : Aead) (router : Router) (id : Text) (now : ℕ) where
  -- One more envelope in front.
  frame_then :
      (c1 : PeerChannel) (entry : Peer) (d1 : PeerChannel) (sealed : List ℕ) (msg : NetEnvelope)
      (msgs : List NetEnvelope)
      (more : Carries aead router id now c1 (record entry { channel = d1; last_seen = now }) msgs)
      → length sealed ≡ length (serialize_net_envelope msg []) + 16
      → unseal aead sealed (write_be32 (length (serialize_net_envelope msg []) + 16)) entry.channel
        ≡ (some (serialize_net_envelope msg []), d1)
      → IsFor router id msg
      → (fuel : ℕ) → suc (length msgs) < fuel
      → drain_rounds aead router id now fuel
          (record entry { buffer = frame_message sealed ++ more.bytes })
        ≡ (attribute id msg ∷ map (attribute id) msgs, none, more.left)
  frame_then c1 entry d1 sealed msg msgs more size opens for zero h = absurd (omega (arith, h))
  frame_then c1 entry d1 sealed msg msgs more size opens for (suc fuel) h =
      let first =
        drain_rounds-frame aead router id now fuel
          (record entry { buffer = frame_message sealed ++ more.bytes }) d1 sealed more.bytes msg
          refl size opens for in
      first ∙ rw (more.drains fuel (omega (arith, h))) refl

  carries :
      (msgs : List NetEnvelope) (c : PeerChannel) (entry : Peer)
      → Crossed c entry.channel
      → c.send.has_key ≡ true
      → c.send.nonce + length msgs ≤ reserved_nonce
      → All (IsFor router id) msgs
      → Carries aead router id now c entry msgs
  unfolding send_all ◌>>=◌ proceed pure drain_rounds framed_round take_frame
  carries [] c entry crossed keyed room all = record {
    bytes = [];
    c' = c;
    left = record entry { buffer = [] };
    sends = refl;
    bulk = omega arith;
    drains = no_rounds;
    emptied = refl;
    crossed = crossed;
  }
    where
      no_rounds :
          (fuel : ℕ)
          → 0 < fuel
          → drain_rounds aead router id now fuel (record entry { buffer = [] })
            ≡ ([], none, record entry { buffer = [] })
      no_rounds zero h = absurd (omega (arith, h))
      no_rounds (suc fuel) h = refl
  carries (msg ∷ msgs) c entry crossed keyed room (for, all) =
      let plain = serialize_net_envelope msg [] in
      let (sealed, c1, d1, sent, opens, crossed1, keyed1, counted, size) =
        unseal-seal aead c entry.channel (write_be32 (length plain + 16)) plain crossed keyed
          (omega (arith, room)) in
      let entry1 = record entry { channel = d1; last_seen = now } in
      let more = carries msgs c1 entry1 crossed1 keyed1 (omega (arith, room, counted)) all in
      let front : 1 ≤ length (frame_message sealed) = unfold frame_message in omega arith in
      let framed = seal_frame-seal aead c c1 plain sealed for.small size sent in
      record {
        bytes = frame_message sealed ++ more.bytes;
        c' = more.c';
        left = more.left;
        sends = simp (framed, more.sends) refl;
        bulk = omega (arith, more.bulk, front, length-append (frame_message sealed) more.bytes);
        drains = frame_then c1 entry d1 sealed msg msgs more size opens for;
        emptied = more.emptied;
        crossed = more.crossed;
      }

-- Envelopes for the owner of `router` and his game, each within a frame and none an advertisement:
-- what a channel with crossed keys and a keyed cipher seals of them in turn, as far as its nonce has
-- room, is taken from the buffer of the peer's entry in the same order, once, each attributed to the
-- peer whose key opened it. The peer is not dropped, nothing is left in the buffer, and the keys
-- stay crossed.
pub envelopes_arrive :
    (aead : Aead) (router : Router) (id : Text) (now : ℕ) (msgs : List NetEnvelope)
    (c : PeerChannel) (entry : Peer)
    → Crossed c entry.channel
    → c.send.has_key ≡ true
    → c.send.nonce + length msgs ≤ reserved_nonce
    → All (IsFor router id) msgs
    → (bytes : List ℕ) × (c' : PeerChannel) × (left : Peer) × (send_all aead msgs c
        ≡ (some bytes, c'))
      × (drain_peer aead router id now (record entry { buffer = bytes })
          ≡ (map (attribute id) msgs, none, left))
      × (left.buffer ≡ [])
      × Crossed c' left.channel
unfolding drain_peer
envelopes_arrive aead router id now msgs c entry crossed keyed room all =
    let k = carries aead router id now msgs c entry crossed keyed room all in
    (
      k.bytes,
      k.c',
      k.left,
      k.sends,
      k.drains (length k.bytes + 1) (omega (arith, k.bulk)),
      k.emptied,
      k.crossed,
    )
