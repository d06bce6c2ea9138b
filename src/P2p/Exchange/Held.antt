-- ===== src/P2p/Exchange/Held.antt =====
-- What is sent before the peer agrees is held, in order, behind one request.
use eos_reimagined.Base.{
  ℕ, ◌≤◌, ◌<◌, true, false, none, some, List, [], ◌∷◌, ◌++◌, length, take, ltb, map, ◌≡◌, refl, ◌∙◌,
  ap, arith, append_assoc, append-nil, All,
}
use eos_reimagined.Base.Int.{pos}
use eos_reimagined.Base.Texts.{same_text_refl}
use eos_reimagined.Base.Dict.{find, put, modify, find-put_self, find-modify}
use eos_reimagined.ByteBuffer.{Text}
use eos_reimagined.Eos.{Settings, success}
use eos_reimagined.P2p.{
  Network, SocketId, socket_name_of, socket_id_is_valid, connection_pending, DelayedPacket,
  Connection, ConnectionKey, connection_key, Outgoing, envelope, P2p, send_p2p, outgoing,
  p2p_envelope, p2p_payload, p2p_connect_request,
}
use eos_reimagined.P2p.Packets.{
  SendPacketOptions, send_packet, send_for, send_on, send_through, hold, exceeds, is_open,
  packet_must_arrive, declines_connection, new_connection, socket_of, is_null,
}

-- A packet that the game sends: its channel and its bytes.
abbrev pub Packet : Type 0
Packet = ℕ × List ℕ

abbrev pub delayed_of : Packet → DelayedPacket
delayed_of packet = record { packet = packet.1; channel = packet.0; reliable = true }

-- The options of a reliable packet that may wait.
abbrev pub reliably : Text → Text → SocketId → Packet → SendPacketOptions
reliably us peer socket packet = record {
  api_version = pos 3;
  local_user = some us;
  remote_user = some peer;
  socket_id = some socket;
  channel = packet.0;
  data_length_bytes = length packet.1;
  packet = some packet.1;
  allow_delayed_delivery = true;
  reliability = 2;
  disable_auto_accept = false;
}

abbrev pub IsPacket : Packet → Type 0
IsPacket packet = (packet.0 < 256) × (length packet.1 ≤ 1170)

take_all : {A : Type 0} (xs : List A) → take (length xs) xs ≡ xs
take_all [] = refl
take_all (x ∷ xs) = ap (◌∷◌ x) (take_all xs)

abbrev pub pending_with : List DelayedPacket → Connection
pending_with delayed = record { state = connection_pending; delayed = delayed }

module _ (own : Settings) (network : Network) (peer : Text) (socket : SocketId)
    (valid : socket_id_is_valid (some socket) ≡ true) where
  abbrev key : ConnectionKey
  key = (peer, socket_name_of socket)

  unfoldable pub send_each : List Packet → P2p → P2p
  send_each [] p = p
  send_each (packet ∷ packets) p =
      send_each packets
        (send_packet own network (some (reliably own.product_user_id peer socket packet)) p).1

  -- Past the checks.
  send_packet-send_on :
      (packet : Packet) (p : P2p)
      → IsPacket packet
      → send_packet own network (some (reliably own.product_user_id peer socket packet)) p
        ≡ send_on own network
            (reliably own.product_user_id peer socket packet)
            key
            (find key p.connections)
            p
  unfolding send_packet send_for is_null socket_of
  send_packet-send_on packet p h =
      let short : ltb 1170 (length packet.1) ≡ false = ground arith in
      rw (valid, same_text_refl own.product_user_id, short) (ground arith)

  hold_lem :
      (packet : Packet) (delayed : List DelayedPacket) (p : P2p)
      → p.outgoing_queue_max_bytes ≡ 0
      → send_through own network
          (reliably own.product_user_id peer socket packet)
          key
          (pending_with delayed)
          p
        ≡ (
          success,
          record p {
            connections =
                modify key (pending_with (delayed ++ delayed_of packet ∷ [])) p.connections;
          },
        )
  unfolding send_through hold exceeds is_open packet_must_arrive
  hold_lem packet delayed p h = rw (h, take_all packet.1)

  -- While the peer has not agreed.
  send_more :
      (packet : Packet) (delayed : List DelayedPacket) (p : P2p)
      → IsPacket packet
      → p.outgoing_queue_max_bytes ≡ 0
      → find key p.connections ≡ some (pending_with delayed)
      → send_packet own network (some (reliably own.product_user_id peer socket packet)) p ≡ (
        success,
        record p {
          connections = modify key (pending_with (delayed ++ delayed_of packet ∷ [])) p.connections;
        },
      )
  unfolding send_on
  send_more packet delayed p h free e =
      send_packet-send_on packet p h ∙ rw (e, send_on) (hold_lem packet delayed p free)

  request_sent : P2p → P2p
  request_sent p =
      send_p2p own network p2p_connect_request key 0 [] true
        (record p { connections = put key (new_connection connection_pending) p.connections })

  -- The first packet asks for the connection.
  send_first :
      (packet : Packet) (p : P2p)
      → IsPacket packet
      → p.outgoing_queue_max_bytes ≡ 0
      → find key p.connections ≡ none
      → send_packet own network (some (reliably own.product_user_id peer socket packet)) p ≡ (
        success,
        record (request_sent p) {
          connections =
              modify key (pending_with (delayed_of packet ∷ [])) (request_sent p).connections;
        },
      )
  unfolding send_on declines_connection request_sent send_p2p
  send_first packet p h free e =
      send_packet-send_on packet p h ∙ rw (e, send_on) (hold_lem packet [] (request_sent p) free)

  -- The packets that are held, and what was sent.
  pub record IsWaiting (delayed : List DelayedPacket) (sent : List Outgoing) (p : P2p)
      : Type 0 where
    pub holds : find key p.connections ≡ some (pending_with delayed)
    pub asked : p.sent ≡ sent
    pub unlimited : p.outgoing_queue_max_bytes ≡ 0

  held_more :
      (packets : List Packet) (delayed : List DelayedPacket) (sent : List Outgoing) (p : P2p)
      → All IsPacket packets
      → IsWaiting delayed sent p
      → IsWaiting (delayed ++ map delayed_of packets) sent (send_each packets p)
  unfolding send_each
  held_more [] delayed sent p all w = rw (append-nil delayed) w
  held_more (packet ∷ packets) delayed sent p all w =
      let more = delayed ++ delayed_of packet ∷ [] in
      rw (send_more packet delayed p all.0 w.unlimited w.holds) (
        rw (← append_assoc delayed (delayed_of packet ∷ []) (map delayed_of packets)) (
          held_more packets more sent _ all.1 (record {
            holds = rw (
              find-modify key key (pending_with more) (pending_with delayed) p.connections w.holds,
              connection_key.same_refl key,
            );
            asked = w.asked;
            unlimited = w.unlimited;
          })))

  unfoldable pub request_out : Outgoing
  request_out =
      envelope
        (p2p_envelope own network p2p_connect_request peer (p2p_payload own network key.1 0 []))

  -- Packets for a peer that has no connection with us.
  pub send_each-IsWaiting :
      (packet : Packet) (packets : List Packet) (p : P2p)
      → IsPacket packet
      → All IsPacket packets
      → p.outgoing_queue_max_bytes ≡ 0
      → find key p.connections ≡ none
      → IsWaiting
          (map delayed_of (packet ∷ packets))
          (p.sent ++ request_out ∷ [])
          (send_each (packet ∷ packets) p)
  unfolding send_each request_out
  send_each-IsWaiting packet packets p h all free e = rw (send_first packet p h free e) (
      held_more packets (delayed_of packet ∷ []) _ _ all (
        unfold request_sent send_p2p outgoing in
        record {
          holds =
              let fresh = put key (new_connection connection_pending) p.connections in
              rw (
                find-modify key key (pending_with (delayed_of packet ∷ []))
                    (new_connection connection_pending) fresh
                    (find-put_self key (new_connection connection_pending) p.connections),
                connection_key.same_refl key,
              );
          asked = refl;
          unlimited = free;
        }))
