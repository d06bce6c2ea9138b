-- ===== src/P2p/Exchange/Heard.antt =====
-- What the messages of an exchange do on the other side.
use eos_reimagined.Base.{
  ℕ, zero, suc, ◌+◌, ◌%◌, ◌^◌, ◌≤◌, ◌<◌, Bool, true, false, none, some, List, [], ◌∷◌, ◌++◌, length,
  map, ◌≡◌, refl, ◌∙◌, sym, ap, arith, append_assoc, append-nil, All, ◌==◌,
}
use eos_reimagined.Base.Int.{pos}
use eos_reimagined.Base.Texts.{same_text, same_text_refl, is_empty}
use eos_reimagined.Base.Dict.{find}
use eos_reimagined.ByteBuffer.{Text}
use eos_reimagined.Wire.Peer.{NetEnvelope, P2pData, serialize_p2p_data, deserialize_p2p_data}
use eos_reimagined.Wire.Peer.RoundTrip.{IsP2pData, p2p_data_roundtrip}
use eos_reimagined.Eos.{Settings}
use eos_reimagined.P2p.{
  Network, SocketId, socket_name_of, socket_id_is_valid, socket_name_is_valid, bounded_text,
  ReceivedPacket, connection_pending, connection_open, Connection, ConnectionKey, connection_key,
  P2p, opened, p2p_envelope, p2p_payload, incoming_queued_bytes, p2p_connect_request,
  p2p_connect_response, p2p_data,
}
use eos_reimagined.P2p.Packets.{exceeds}
use eos_reimagined.P2p.Inbound.{
  on_network_message, on_decoded, on_payload, malformed, on_data, data_on, data_entry, arrives,
  requested, on_request, on_response, response_entry,
}
use eos_reimagined.P2p.Exchange.Held.{Packet, IsPacket}

length-bounded_text : (n : ℕ) (bytes : List ℕ) → length (bounded_text n bytes) ≤ n
unfolding bounded_text
length-bounded_text zero bytes = omega arith
length-bounded_text (suc n) [] = omega arith
length-bounded_text (suc n) (b ∷ bytes) = ground (arith, length-bounded_text n bytes)

-- What a message of ours network.
abbrev pub message_of : Text → ℕ → List ℕ → P2pData
message_of name channel packet = record {
  socket_name = name;
  channel = pos channel;
  packet = packet;
}

module _ (from to : Settings) (network : Network) (socket : SocketId)
    (valid : socket_id_is_valid (some socket) ≡ true)
    (apart : same_text from.product_user_id to.product_user_id ≡ false)
    (named : is_empty from.product_user_id ≡ false) where
  abbrev name : Text
  name = socket_name_of socket

  abbrev key : ConnectionKey
  key = (from.product_user_id, name)

  unfoldable pub mail : ℕ → ℕ → List ℕ → NetEnvelope
  mail type channel packet =
      p2p_envelope from network type to.product_user_id
        (p2p_payload from network name channel packet)

  valid_name : socket_name_is_valid name ≡ true
  unfolding socket_id_is_valid
  valid_name = ground (arith, valid)

  read_payload :
      (channel : ℕ) (packet : List ℕ)
      → channel < 256
      → length packet ≤ 1170
      → deserialize_p2p_data (p2p_payload from network name channel packet)
        ≡ (some (message_of name channel packet), [])
  unfolding p2p_payload
  read_payload channel packet hc hp =
      let body = serialize_p2p_data (message_of name channel packet) [] in
      let fits : IsP2pData (message_of name channel packet) =
        unfold socket_name_of in omega (arith, hc, hp, length-bounded_text 33 socket.socket_name) in
      ap deserialize_p2p_data (sym (append-nil body))
      ∙ p2p_data_roundtrip (message_of name channel packet) [] fits

  -- A message of ours passes the other side's checks.
  pub hear_mail :
      (type channel : ℕ) (packet : List ℕ) (p : P2p)
      → (type == 42) ≡ false
      → (type == 41) ≡ false
      → channel < 256
      → length packet ≤ 1170
      → on_network_message to network (mail type channel packet) p
        ≡ on_payload to network type key (message_of name channel packet) p
  unfolding on_network_message mail p2p_envelope on_decoded
  hear_mail type channel packet p gone come hc hp =
      rw
        (
          gone,
          come,
          named,
          apart,
          same_text_refl to.product_user_id,
          read_payload channel packet hc hp,
          on_decoded,
          valid_name,
        )
        (ground arith)

  -- A request from a peer that has no connection with us.
  pub hear_request :
      (p : P2p)
      → find key p.connections ≡ none
      → (on_network_message to network (mail p2p_connect_request 0 []) p).1 ≡ requested key p
  unfolding on_payload on_request
  hear_request p e =
      ap (λ (t : Bool × P2p). t.1)
        (hear_mail p2p_connect_request 0 [] p refl refl (omega arith) (omega arith))
      ∙ rw (e, on_request)

  -- The answer to our request: what was held goes out.
  pub hear_response :
      (entry : Connection) (p : P2p)
      → find key p.connections ≡ some entry
      → entry.state ≡ connection_pending
      → (on_network_message to network (mail p2p_connect_response 0 []) p).1
        ≡ opened to network key entry p
  unfolding on_payload on_response opened
  hear_response entry p e pending =
      ap (λ (t : Bool × P2p). t.1)
        (hear_mail p2p_connect_response 0 [] p refl refl (omega arith) (omega arith))
      ∙ rw (e, on_response) (rw (pending, response_entry))

  unfoldable pub packet_mail : Packet → NetEnvelope
  packet_mail packet = mail p2p_data packet.0 packet.1

  unfoldable pub received_of : Packet → ReceivedPacket
  received_of packet = record {
    peer = from.product_user_id;
    socket = name;
    channel = packet.0;
    packet = packet.1;
  }

  well_formed :
      (packet : Packet) → IsPacket packet → malformed (message_of name packet.0 packet.1) ≡ false
  unfolding malformed
  well_formed packet h = ground arith

  room_for :
      (packet : Packet) (p : P2p)
      → p.incoming_queue_max_bytes ≡ 0
      → arrives key packet.0 packet.1 p
        ≡ record p { receive_queue = p.receive_queue ++ received_of packet ∷ [] }
  unfolding arrives received_of
  room_for packet p free =
      let total = (incoming_queued_bytes p + length packet.1) % 2 ^ 64 in
      let room : exceeds p.incoming_queue_max_bytes total ≡ false =
        unfold exceeds in ground (arith, free) in
      rw room

  -- A packet on an open connection, the queue being unlimited.
  hear_packet :
      (packet : Packet) (entry : Connection) (p : P2p)
      → IsPacket packet
      → find key p.connections ≡ some entry
      → entry.state ≡ connection_open
      → p.incoming_queue_max_bytes ≡ 0
      → (on_network_message to network (packet_mail packet) p).1
        ≡ record p { receive_queue = p.receive_queue ++ received_of packet ∷ [] }
  unfolding packet_mail on_payload on_data data_on
  hear_packet packet entry p h e op free =
      let low : packet.0 % 2 ^ 8 ≡ packet.0 = omega arith in
      ap (λ (t : Bool × P2p). t.1)
        (hear_mail p2p_data packet.0 packet.1 p refl refl (omega arith) (omega arith))
      ∙ rw (well_formed packet h, e, data_on) (rw (op, data_entry, low) (room_for packet p free))

  unfoldable pub hear_each : List Packet → P2p → P2p
  hear_each [] p = p
  hear_each (packet ∷ packets) p =
      hear_each packets (on_network_message to network (packet_mail packet) p).1

  pub hear_each_lem :
      (packets : List Packet) (entry : Connection) (p : P2p)
      → All IsPacket packets
      → find key p.connections ≡ some entry
      → entry.state ≡ connection_open
      → p.incoming_queue_max_bytes ≡ 0
      → (hear_each packets p).receive_queue ≡ p.receive_queue ++ map received_of packets
  unfolding hear_each
  hear_each_lem [] entry p all e op free = sym (append-nil p.receive_queue)
  hear_each_lem (packet ∷ packets) entry p all e op free =
      rw (hear_each, hear_packet packet entry p all.0 e op free)
        (hear_each_lem packets entry
            (record p { receive_queue = p.receive_queue ++ received_of packet ∷ [] }) all.1 e op
            free
          ∙ append_assoc p.receive_queue (received_of packet ∷ []) (map received_of packets))
