-- ===== src/P2p/Limits.antt =====
-- The queues of `sdk_p2p` (src/interfaces/p2p.cpp) stay within the limits that the game sets.
mod Sizes
mod Steps
mod Growth
pub use Steps.{Within}
use mathlib.Core.List.{foldl}
use mathlib.Core.Path.{subst, subst₂}
use eos_reimagined.Base.{
  ℕ, ◌+◌, ◌%◌, ◌^◌, ◌≤◌, ◌<◌, Bool, true, false, not, ◌&&◌, ◌||◌, Option, none, some, List, [], ◌∷◌,
  ◌++◌, All, ◌==◌, ◌≡◌, refl, ◌∙◌, sym, ap, arith, if◌then◌else◌, Bool-cases, Option-cases, ◌⊎◌,
  inl, inr, All-append, take, length, length-take, ltb,
}
use eos_reimagined.Base.Texts.{Key, is_empty, same_text, same_text_refl, same_text_sound}
use eos_reimagined.Base.Dict.{find, put, remove, find-put, find-put_self, find-remove}
use eos_reimagined.ByteBuffer.{Text}
use eos_reimagined.Wire.Peer.{NetEnvelope, P2pData, deserialize_p2p_data}
use eos_reimagined.Base.Int.{ℤ, pos}
use eos_reimagined.Eos.{Settings, EosResult, is_user, version_is_supported}
use eos_reimagined.P2p.{
  Network, socket_name_is_valid, socket_id_is_valid, Connection, ConnectionKey, Connections,
  connection_key, ConnectionState, connection_open, connection_pending, connection_requested,
  DelayedPacket, ReceivedPacket, key_of, Outgoing, P2p, EventKind, established, ClosedReason,
  unknown, queue_event, concerns, flush_queue, flush_packets, send_p2p, send_held, flush_delayed,
  opened, picked, unpicked, emu_deinit, p2p_connect_request, p2p_connect_response, p2p_data,
  incoming_queued_bytes, outgoing_queued_bytes, sdk_p2p, max_packet_size, p2p_connection_close,
  peer_connected, peer_disconnected,
}
use eos_reimagined.P2p.Packets.{
  SendPacketOptions, is_null, send_packet, discard_in, is_open, socket_of, hold, send_through,
  send_on, send_for, new_connection, ClearPacketQueueOptions, clear_packet_queue, discard_delayed,
  receive_packet, ReceivePacketOptions, next_packet, hand_over, on_channel, set_packet_queue_size,
  requested_channel_of, ReceivePacketOptions, bytes_of, packet_must_arrive, declines_connection,
  exceeds,
}
use eos_reimagined.P2p.Connections.{
  ConnectionOptions, no_socket, ask, agree, accept_entry, accept_on, accept_for, accept_connection,
  close_with, close_for, close_connection, close_on, close_connections, with_peer, on_socket,
  say_closed, say_closed_flush,
}
use eos_reimagined.P2p.Inbound.{
  peer_gone, interrupt, requested, arrives, data_entry, data_on, malformed, on_data, confirm,
  request_entry, on_request, response_entry, on_response, on_close, on_payload, on_decoded,
  on_network_message,
}
use Steps.{
  Less, Less-refl, Less-trans, Within-Less, send_p2p-Less, put-Less, accept_for-Less,
  close_for-Less, close_on-Less, on_request-Less, on_response-Less, on_close-Less, peer_gone-Less,
  flush-Less, requested-Less,
}
use Growth.{send_packet-Within, on_network_message-Within}
use Sizes.{
  held_bytes, delayed_bytes, waiting_bytes, queued_from-held_bytes, outgoing_from-waiting_bytes,
  held_bytes-append, delayed_bytes-append, held_bytes-flush_queue, held_bytes-next_packet,
  waiting_bytes-unpicked, waiting_bytes-remove, waiting_bytes-discard_in, waiting_bytes-put,
  waiting_bytes-modify, waiting_bytes-modify_less,
}
use eos_reimagined.P2p.Tables.{find-unpicked, All-flush_queue}
use eos_reimagined.P2p.Calls.{
  Delivers, P2pCall, call_send, call_receive, call_clear, call_limits, call_accept, call_close,
  call_close_all, call_message, call_deinit, called, called_all,
}

-- A call that may set the limits.
abbrev pub sets_limits : P2pCall → Bool
sets_limits (call_limits version incoming outgoing) = true
sets_limits other = false

module _ (own : Settings) where
  close_connection-Less :
      (network : Network) (o : Option ConnectionOptions) (p : P2p)
      → Less p (close_connection own network o p).1
  unfolding close_connection
  close_connection-Less network none p = Less-refl p
  close_connection-Less network (some o) p =
      elim (Bool-cases (
        not (version_is_supported o.api_version (pos 1))
        || not (no_socket o.socket_id) && not (socket_id_is_valid o.socket_id))) [
          | inl bad ↦ rw bad (Less-refl p)
          | inr valid ↦ rw valid (close_for-Less own network o o.remote_user p)
        ]

  close_connections-Less :
      (network : Network) (o : Option ConnectionOptions) (p : P2p)
      → Less p (close_connections own network o p).1
  unfolding close_connections
  close_connections-Less network none p = Less-refl p
  close_connections-Less network (some o) p =
      elim (Bool-cases (
        not (version_is_supported o.api_version (pos 1)) || not (socket_id_is_valid o.socket_id))) [
          | inl bad ↦ rw bad (Less-refl p)
          | inr valid ↦ rw valid (elim (Bool-cases (is_user own.product_user_id o.local_user)) [
            | inr other ↦ rw other (Less-refl p)
            | inl us ↦ rw us (close_on-Less own network (socket_of o.socket_id) p)
          ])
        ]

  accept_connection-Less :
      (network : Network) (o : Option ConnectionOptions) (p : P2p)
      → Less p (accept_connection own network o p).1
  unfolding accept_connection
  accept_connection-Less network none p = Less-refl p
  accept_connection-Less network (some o) p =
      elim (Bool-cases (
        not (version_is_supported o.api_version (pos 1)) || not (socket_id_is_valid o.socket_id))) [
          | inl bad ↦ rw bad (Less-refl p)
          | inr valid ↦ rw valid (accept_for-Less own network o o.remote_user p)
        ]

  hand_over-Less :
      (room : ℕ) (p : P2p) (next : Option ReceivedPacket × List ReceivedPacket)
      → held_bytes next.1 ≤ held_bytes p.receive_queue
      → Less p (hand_over room p next).2
  unfolding hand_over
  hand_over-Less room p (none, queue) h = Less-refl p
  hand_over-Less room p (some packet, queue) h = omega arith

  receive_packet-Less :
      (o : Option ReceivePacketOptions) (p : P2p)
      → Less p (receive_packet own.product_user_id o p).2
  unfolding receive_packet
  receive_packet-Less none p = Less-refl p
  receive_packet-Less (some o) p = elim (Bool-cases (version_is_supported o.api_version (pos 2))) [
    | inr bad ↦ rw bad (Less-refl p)
    | inl valid ↦ rw valid (elim (Bool-cases (is_user own.product_user_id o.local_user)) [
      | inr other ↦ rw other (Less-refl p)
      | inl us ↦ rw us (
          hand_over-Less o.max_data_size_bytes p _
            (held_bytes-next_packet (requested_channel_of o) p.receive_queue))
    ])
  ]

  clear_packet_queue-Less :
      (o : Option ClearPacketQueueOptions) (p : P2p)
      → Less p (clear_packet_queue own.product_user_id o p).1
  unfolding clear_packet_queue discard_delayed flush_packets
  clear_packet_queue-Less none p = Less-refl p
  clear_packet_queue-Less (some o) p =
      elim (Bool-cases (version_is_supported o.api_version (pos 1))) [
        | inr bad ↦ rw bad (Less-refl p)
        | inl valid ↦ rw valid (elim (Bool-cases (is_user own.product_user_id o.local_user)) [
          | inr other ↦ rw other (Less-refl p)
          | inl us ↦
              let peer = bytes_of o.remote_user in
              let socket = socket_of o.socket_id in
              rw us (
                omega (
                  arith,
                  held_bytes-flush_queue peer socket p.receive_queue,
                  waiting_bytes-discard_in peer socket p.connections,
                ))
        ])
      ]

module _ (own : Settings) (incoming outgoing : ℕ) (room_in : 0 < incoming)
    (fits_in : incoming + 1170 < 2 ^ 64) (room_out : 0 < outgoing)
    (fits_out : outgoing + 1170 < 2 ^ 64) where
  called-Within :
      (c : P2pCall) (p : P2p)
      → Within incoming outgoing p
      → sets_limits c ≡ false
      → Within incoming outgoing (called own c p)
  unfolding called emu_deinit
  called-Within (call_send network o) p h f =
      send_packet-Within own incoming outgoing room_in fits_in room_out fits_out network o p h
  called-Within (call_receive o) p h f = Within-Less p _ h (receive_packet-Less own o p)
  called-Within (call_clear o) p h f = Within-Less p _ h (clear_packet_queue-Less own o p)
  called-Within (call_limits version i o) p h f = absurd (cc f)
  called-Within (call_accept network o) p h f =
      Within-Less p _ h (accept_connection-Less own network o p)
  called-Within (call_close network o) p h f =
      Within-Less p _ h (close_connection-Less own network o p)
  called-Within (call_close_all network o) p h f =
      Within-Less p _ h (close_connections-Less own network o p)
  called-Within (call_message network m) p h f =
      on_network_message-Within own incoming outgoing room_in fits_in room_out fits_out network m p
        h
  called-Within call_deinit p h f = omega arith

  called_all-Within :
      (cs : List P2pCall) (p : P2p)
      → Within incoming outgoing p
      → All (λ c. sets_limits c ≡ false) cs
      → Within incoming outgoing (called_all own cs p)
  unfolding called_all
  called_all-Within [] p h all = h
  called_all-Within (c ∷ cs) p h all =
      called_all-Within cs (called own c p) (called-Within c p h all.0) all.1

  -- On a new interface on which limits are set that are not 0 (unlimited) and leave room for a packet in a
  -- u64, after any calls and messages that set no others, if the router drops no peer over what is
  -- sent in these: the packets that wait for the game hold no more
  -- bytes than the incoming limit, and those that are held for peers which have not agreed no more than
  -- the outgoing limit.
  pub queue_limits_hold :
      (cs : List P2pCall)
      → All (λ c. sets_limits c ≡ false) cs
      → All Delivers cs
      → Within incoming outgoing
          (called_all own cs (set_packet_queue_size (pos 1) incoming outgoing sdk_p2p).1)
  unfolding set_packet_queue_size
  queue_limits_hold cs all delivers =
      called_all-Within cs (set_packet_queue_size (pos 1) incoming outgoing sdk_p2p).1 (omega arith)
        all
