-- ===== src/P2p/Inbound.antt =====
-- `sdk_p2p::on_network_message` of src/interfaces/p2p.cpp: what a message from a peer, or the mesh's word
-- that a peer has gone, does to the connections and to the queue. Nothing in an envelope is trusted.
use mathlib.Core.List.{foldl}
use eos_reimagined.Base.{
  ℕ, ◌+◌, ◌-◌, ◌%◌, ◌^◌, Bool, true, false, not, ◌&&◌, ◌||◌, Option, none, some, List, [], ◌∷◌,
  ◌++◌, length, ltb, ◌==◌, if◌then◌else◌,
}
use eos_reimagined.Base.Int.{ℤ, pos, leb_ℤ, negsuc}
use eos_reimagined.Base.Texts.{same_text, is_empty}
use eos_reimagined.Base.Dict.{find, put, remove}
use eos_reimagined.ByteBuffer.{Text}
use eos_reimagined.Wire.Peer.{NetEnvelope, P2pData, deserialize_p2p_data}
use eos_reimagined.Eos.{Settings}
use eos_reimagined.P2p.{
  Network, socket_name_is_valid, connection_pending, connection_open, connection_requested,
  Connection, ConnectionKey, connection_key, P2p, request, interrupted, closed, unknown,
  closed_by_peer, flush_packets, queue_event, send_p2p, opened, picked, unpicked,
  incoming_queued_bytes, p2p_connect_request, p2p_connect_response, p2p_data, p2p_connection_close,
  peer_connected, peer_disconnected, max_packet_size,
}
use eos_reimagined.P2p.Packets.{new_connection, exceeds}
use eos_reimagined.P2p.Connections.{with_peer}

-- `static_cast<u8>` of a channel.
abbrev channel_of : ℤ → ℕ
channel_of (pos n) = n % 2 ^ 8
channel_of (negsuc n) = (2 ^ 8 - 1) - n % 2 ^ 8

unfoldable pub interrupt : P2p → ConnectionKey → P2p
interrupt p key = queue_event interrupted key unknown p

-- The peer may come back, so its connections are interrupted.
unfoldable pub peer_gone : Text → P2p → P2p
unfolding interrupt
peer_gone peer p =
    let test = with_peer peer [] in
    let p' = foldl interrupt p (picked test p.connections) in
    flush_packets peer [] (record p' { connections = unpicked test p.connections })

-- A peer that has no connection with us wants one.
unfoldable pub requested : ConnectionKey → P2p → P2p
requested key p =
    queue_event request key unknown
      (record p { connections = put key (new_connection connection_requested) p.connections })

-- A packet on an open connection is turned away where the queue has no room.
unfoldable pub arrives : ConnectionKey → ℕ → List ℕ → P2p → P2p
unfolding exceeds
arrives key channel packet p =
    let held = incoming_queued_bytes p in
    if exceeds p.incoming_queue_max_bytes ((held + length packet) % 2 ^ 64)
    then record p {
      overflows =
          p.overflows
          ++ record {
            channel = channel;
            size_bytes = length packet % 2 ^ 32;
            queue_size_bytes = held;
            queue_max_bytes = p.incoming_queue_max_bytes;
          }
            ∷ [];
    }
    else record p {
      receive_queue =
          p.receive_queue
          ++ record { peer = key.0; socket = key.1; channel = channel; packet = packet } ∷ [];
    }

unfoldable pub data_entry : ConnectionKey → Connection → ℕ → List ℕ → P2p → P2p
unfolding arrives
data_entry key entry channel packet p = elim entry.state [
  | connection_open ↦ arrives key channel packet p
  | connection_pending ↦ p
  | connection_requested ↦ p
]

unfoldable pub data_on : ConnectionKey → Option Connection → P2pData → P2p → P2p
unfolding data_entry requested
data_on key none msg p = requested key p
data_on key (some entry) msg p = data_entry key entry (channel_of msg.channel) msg.packet p

-- A channel that is wider than the API's, or a packet that is too long.
unfoldable pub malformed : P2pData → Bool
malformed msg =
    not (leb_ℤ (pos 0) msg.channel && leb_ℤ msg.channel (pos 255))
    || ltb max_packet_size (length msg.packet)

unfoldable pub on_data : ConnectionKey → P2pData → P2p → P2p
unfolding data_on malformed
on_data key msg p = if malformed msg then p else data_on key (find key p.connections) msg p

unfoldable pub on_close : ConnectionKey → Option Connection → P2p → P2p
on_close key none p = p
on_close key (some entry) p =
    queue_event closed key closed_by_peer
      (flush_packets key.0 key.1 (record p { connections = remove key p.connections }))

module _ (own : Settings) (network : Network) where
  unfoldable pub confirm : ConnectionKey → P2p → P2p
  confirm key p = send_p2p own network p2p_connect_response key 0 [] true p

  unfoldable pub request_entry : ConnectionKey → Connection → P2p → P2p
  unfolding confirm
  request_entry key entry p = elim entry.state [
    | connection_pending ↦ opened own network key entry (confirm key p)
    | connection_open ↦ confirm key p
    | connection_requested ↦ p
  ]

  unfoldable pub on_request : ConnectionKey → Option Connection → P2p → P2p
  unfolding request_entry requested
  on_request key none p = requested key p
  on_request key (some entry) p = request_entry key entry p

  unfoldable pub response_entry : ConnectionKey → Connection → P2p → P2p
  response_entry key entry p = elim entry.state [
    | connection_pending ↦ opened own network key entry p
    | connection_open ↦ p
    | connection_requested ↦ p
  ]

  unfoldable pub on_response : ConnectionKey → Option Connection → P2p → P2p
  unfolding response_entry
  on_response key none p = p
  on_response key (some entry) p = response_entry key entry p

  -- By the tag; `true` says that the message is handled.
  unfoldable pub on_payload : ℕ → ConnectionKey → P2pData → P2p → Bool × P2p
  unfolding on_data on_request on_response on_close
  on_payload type key msg p =
      if type == p2p_data
      then (true, on_data key msg p)
      else if type == p2p_connect_request
      then (true, on_request key (find key p.connections) p)
      else if type == p2p_connect_response
      then (true, on_response key (find key p.connections) p)
      else if type == p2p_connection_close
      then (true, on_close key (find key p.connections) p)
      else (false, p)

  unfoldable pub on_decoded : NetEnvelope → Option P2pData × List ℕ → P2p → Bool × P2p
  unfolding on_payload
  on_decoded message (none, rest) p = (true, p)
  on_decoded message (some msg, rest) p =
      if not (socket_name_is_valid msg.socket_name)
      then (true, p)
      else on_payload message.type_tag (message.source_id, msg.socket_name) msg p

  unfoldable pub on_network_message : NetEnvelope → P2p → Bool × P2p
  unfolding on_decoded peer_gone
  on_network_message message p =
      if message.type_tag == peer_disconnected
      then (true, peer_gone message.source_id p)
      else if message.type_tag == peer_connected
      then (true, p)
      else if is_empty message.source_id || same_text message.source_id own.product_user_id
      then (true, p)
      else if not (is_empty message.dest_id) && not (same_text message.dest_id own.product_user_id)
      then (true, p)
      else on_decoded message (deserialize_p2p_data message.payload) p
