-- ===== src/Router/Datagrams.antt =====
-- The datagram path of the router: `send_datagram` and `handle_datagram`, over its table of peers. A
-- datagram is a byte, the tag that says whose it is, its sequence, and what is sealed.
pub mod Delivery
use eos_reimagined.Base.{
  ℕ, zero, suc, ◌+◌, ◌*◌, ◌/◌, ◌%◌, ◌^◌, Bool, true, false, not, ◌&&◌, ◌||◌, Option, none, some,
  List, [], ◌∷◌, ◌++◌, length, drop, ltb, ◌==◌, if◌then◌else◌, bit_or,
}
use eos_reimagined.Base.Int.{ℤ, pos}
use eos_reimagined.ByteBuffer.{Text}
use eos_reimagined.Frame.{body_length}
use eos_reimagined.Wire.Peer.{NetEnvelope}
use eos_reimagined.Channel.Cipher.{Aead}
use eos_reimagined.Channel.Peer.{PeerChannel, seal_datagram, open_datagram}
use eos_reimagined.Router.{Router, Peer, same_text, write_be32}

pub write_be64 : ℕ → List ℕ
write_be64 value =
    value / 2 ^ 56 % 2 ^ 8
    ∷ value / 2 ^ 48 % 2 ^ 8
    ∷ value / 2 ^ 40 % 2 ^ 8
    ∷ value / 2 ^ 32 % 2 ^ 8
    ∷ value / 2 ^ 24 % 2 ^ 8
    ∷ value / 2 ^ 16 % 2 ^ 8
    ∷ value / 2 ^ 8 % 2 ^ 8
    ∷ value % 2 ^ 8
    ∷ []

pub read_be32 : List ℕ → ℕ
unfolding body_length
read_be32 (a ∷ b ∷ c ∷ d ∷ rest) = body_length a b c d
read_be32 short = 0

-- The loop over the bytes, `n` of them.
read_be : ℕ → ℕ → List ℕ → ℕ
read_be zero value bytes = value
read_be (suc n) value [] = value
read_be (suc n) value (b ∷ bytes) = read_be n (bit_or (value * 2 ^ 8 % 2 ^ 64) b) bytes

pub read_be64 : List ℕ → ℕ
unfolding read_be
read_be64 bytes = read_be 8 0 bytes

abbrev datagram_p2p : ℕ
datagram_p2p = 2

-- `message_type::p2p_data`.
abbrev pub p2p_data : ℕ
p2p_data = 22

abbrev datagram_header_len : ℕ
datagram_header_len = 13

-- The router with its table of peers, in the order of their ids.
pub record Mesh : Type 0 where
  pub router : Router
  pub running : Bool
  pub peers : List (Text × Peer)
  pub datagrams_sent : ℕ
  pub datagrams_received : ℕ

module _ (aead : Aead) where
  -- The bytes that go out, and the entry behind them.
  sealed_for : Peer → Option (ℕ × List ℕ) × PeerChannel → Option (List ℕ) × Peer
  sealed_for entry (none, channel) = (none, record entry { channel = channel })
  sealed_for entry (some (seq, sealed), channel) = (
    some (datagram_p2p ∷ [] ++ (write_be32 entry.channel.udp_send_tag ++ write_be64 seq) ++ sealed),
    record entry { channel = channel },
  )

  send_by : Text → Text → List ℕ → List (Text × Peer) → Option (List ℕ) × List (Text × Peer)
  unfolding sealed_for write_be64
  send_by own peer_id payload [] = (none, [])
  send_by own peer_id payload ((id, entry) ∷ peers) =
      let (later, kept) = send_by own peer_id payload peers in
      let (sent, entry') =
        sealed_for entry (seal_datagram aead own peer_id payload entry.channel) in
      if not (same_text id peer_id)
      then (later, (id, entry) ∷ kept)
      else if entry.datagram_port == 0
      then (none, (id, entry) ∷ peers)
      else (sent, (id, entry') ∷ peers)

  socket_takes : Bool → Mesh → Option (List ℕ) × List (Text × Peer) → Option (List ℕ) × Mesh
  socket_takes taken mesh (none, peers) = (none, record mesh { peers = peers })
  socket_takes taken mesh (some datagram, peers) =
      if taken
      then (
        some datagram,
        record mesh { peers = peers; datagrams_sent = (mesh.datagrams_sent + 1) % 2 ^ 64 },
      )
      else (none, record mesh { peers = peers })

  -- `taken` says whether the socket takes the datagram.
  unfoldable pub send_datagram : Bool → Text → List ℕ → Mesh → Option (List ℕ) × Mesh
  unfolding socket_takes send_by sealed_for
  send_datagram taken peer_id payload mesh =
      if not mesh.running
      then (none, mesh)
      else socket_takes taken mesh (send_by mesh.router.product_user_id peer_id payload mesh.peers)

  -- The message that is dispatched, and the entry behind it.
  opened_from : Router → Text → ℕ → Peer → Option (List ℕ) × PeerChannel → Option NetEnvelope × Peer
  opened_from router id now entry (none, channel) = (none, record entry { channel = channel })
  opened_from router id now entry (some plain, channel) = (
    some (record {
      type_tag = p2p_data;
      source_id = id;
      dest_id = router.product_user_id;
      game_id = router.game_id;
      timestamp = pos 0;
      payload = plain;
    }),
    record entry { channel = channel; last_seen = now },
  )

  -- By the first peer with the tag.
  open_by :
      Router → ℕ → ℕ → ℕ → List ℕ → List (Text × Peer) → Option NetEnvelope × List (Text × Peer)
  unfolding opened_from
  open_by router now tag seq cipher [] = (none, [])
  open_by router now tag seq cipher ((id, entry) ∷ peers) =
      let (later, kept) = open_by router now tag seq cipher peers in
      let (msg, entry') =
        opened_from router id now entry
          (open_datagram aead id router.product_user_id seq cipher entry.channel) in
      if entry.channel.udp_recv_tag == tag
      then (msg, (id, entry') ∷ peers)
      else (later, (id, entry) ∷ kept)

  count_received : Mesh → Option NetEnvelope × List (Text × Peer) → Option NetEnvelope × Mesh
  count_received mesh (none, peers) = (none, record mesh { peers = peers })
  count_received mesh (some msg, peers) = (
    some msg,
    record mesh { peers = peers; datagrams_received = (mesh.datagrams_received + 1) % 2 ^ 64 },
  )

  unfoldable pub handle_datagram : ℕ → List ℕ → Mesh → Option NetEnvelope × Mesh
  unfolding count_received open_by opened_from read_be32 read_be64
  handle_datagram now bytes mesh =
      let tag = read_be32 (drop 1 bytes) in
      let seq = read_be64 (drop 5 bytes) in
      if ltb (length bytes) (datagram_header_len + 16)
      then (none, mesh)
      else count_received mesh
          (open_by mesh.router now tag seq (drop datagram_header_len bytes) mesh.peers)
