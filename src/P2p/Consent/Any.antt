-- ===== src/P2p/Consent/Any.antt =====
-- Any call keeps what is said of the connections and of the queue, once those who it shows to ask are
-- counted.
use eos_reimagined.Base.{
  ℕ, Bool, true, false, not, ◌&&◌, ◌||◌, Option, none, some, List, [], ◌∷◌, All, ◌==◌, ◌≡◌, refl,
  arith, Bool-cases, inl, inr, ltb,
}
use eos_reimagined.Base.Texts.{is_empty, same_text, same_text_refl}
use eos_reimagined.Base.Dict.{find}
use eos_reimagined.ByteBuffer.{Text}
use eos_reimagined.Wire.Peer.{NetEnvelope, P2pData, deserialize_p2p_data}
use eos_reimagined.Base.Int.{ℤ, pos}
use eos_reimagined.Eos.{Settings, is_user, version_is_supported}
use eos_reimagined.P2p.{
  Network, socket_name_is_valid, socket_id_is_valid, ConnectionKey, connection_key, ReceivedPacket,
  P2p, flush_packets, emu_deinit, p2p_connect_request, p2p_connect_response, p2p_data,
  max_packet_size, p2p_connection_close, peer_connected, peer_disconnected,
}
use eos_reimagined.P2p.Packets.{
  SendPacketOptions, is_null, send_packet, socket_of, send_for, ClearPacketQueueOptions,
  clear_packet_queue, discard_delayed, receive_packet, ReceivePacketOptions, next_packet, hand_over,
  on_channel, set_packet_queue_size, requested_channel_of, ReceivePacketOptions, bytes_of,
}
use eos_reimagined.P2p.Connections.{
  ConnectionOptions, no_socket, accept_for, accept_connection, close_for, close_connection,
  close_connections,
}
use eos_reimagined.P2p.Inbound.{requested, on_payload, on_decoded, on_network_message}
use eos_reimagined.P2p.Calls.{
  P2pCall, call_send, call_receive, call_clear, call_limits, call_accept, call_close,
  call_close_all, call_message, call_deinit, called,
}
use eos_reimagined.P2p.Consent.Keeps.{
  Fine, send_on-Fine, accept_on-Fine, on_data-Fine, on_request-Fine, on_response-Fine,
}
use eos_reimagined.P2p.Consent.Closings.{
  peer_gone-Fine, close_with-Fine, close_on-Fine, on_close-Fine,
}
use eos_reimagined.P2p.Consent.Steps.{
  same_user, names_socket, local_yes, remote_yes, Openly, kept-Openly, discard-Agreed,
  discard-Stays, stay_open,
}

module _ (own : Settings) (l r : ConnectionKey → Bool) where
  -- The game asks with its own id, for a peer and a socket.
  asked_as :
      (local_user remote : Option Text) (peer socket : Text)
      → is_user own.product_user_id local_user ≡ true
      → remote ≡ some peer
      → (is_user own.product_user_id local_user && same_user peer remote && same_text socket socket)
        ≡ true
  unfolding same_user
  asked_as local_user remote peer socket h e =
      rw e (ground (arith, h, same_text_refl peer, same_text_refl socket))

  send_for-Fine :
      (network : Network) (o : SendPacketOptions) (remote : Option Text) (p : P2p)
      → Fine l r p
      → o.remote_user ≡ remote
      → ((key : ConnectionKey)
          → local_yes own key (call_send network (some o)) ≡ true
          → l key ≡ true)
      → Fine l r (send_for own network o remote p).1
  unfolding send_for local_yes
  send_for-Fine network o none p h e k = h
  send_for-Fine network o (some peer) p h e k =
      elim (Bool-cases (is_user own.product_user_id o.local_user)) [
        | inr other ↦ rw other h
        | inl us ↦ rw us (elim (Bool-cases (ltb max_packet_size o.data_length_bytes)) [
          | inl long ↦ rw long h
          | inr short ↦ rw short (
              send_on-Fine own network l r o _ p h (
                k (peer, socket_of o.socket_id)
                  (asked_as o.local_user o.remote_user peer (socket_of o.socket_id) us e)))
        ])
      ]

  accept_for-Fine :
      (network : Network) (o : ConnectionOptions) (remote : Option Text) (p : P2p)
      → Fine l r p
      → o.remote_user ≡ remote
      → ((key : ConnectionKey)
          → local_yes own key (call_accept network (some o)) ≡ true
          → l key ≡ true)
      → Fine l r (accept_for own network o remote p).1
  unfolding accept_for local_yes
  accept_for-Fine network o none p h e k = h
  accept_for-Fine network o (some peer) p h e k =
      elim (Bool-cases (is_user own.product_user_id o.local_user)) [
        | inr other ↦ rw other h
        | inl us ↦ rw us (
            accept_on-Fine own network l r _ p h (
              k (peer, socket_of o.socket_id)
                (asked_as o.local_user o.remote_user peer (socket_of o.socket_id) us e)))
      ]

  close_for-Fine :
      (network : Network) (o : ConnectionOptions) (remote : Option Text) (p : P2p)
      → Fine l r p
      → Fine l r (close_for own network o remote p).1
  unfolding close_for
  close_for-Fine network o none p h = h
  close_for-Fine network o (some peer) p h =
      elim (Bool-cases (is_user own.product_user_id o.local_user)) [
        | inr other ↦ rw other h
        | inl us ↦ rw us (close_with-Fine l r own network peer (socket_of o.socket_id) p h)
      ]

  next_packet-All :
      (P : ReceivedPacket → Type 0) (requested : Option ℕ) (queue : List ReceivedPacket)
      → All P queue
      → All P (next_packet requested queue).1
  unfolding next_packet
  next_packet-All P requested [] all = tt
  next_packet-All P requested (packet ∷ queue) all =
      elim (Bool-cases (on_channel requested packet)) [
        | inl found ↦ rw found all.1
        | inr later ↦ rw later (all.0, next_packet-All P requested queue all.1)
      ]

  hand_over-Fine :
      (room : ℕ) (p : P2p) (next : Option ReceivedPacket × List ReceivedPacket)
      → Fine l r p
      → All (Openly p.connections) next.1
      → Fine l r (hand_over room p next).2
  unfolding hand_over
  hand_over-Fine room p (none, queue) h all = h
  hand_over-Fine room p (some packet, queue) h all = record { agreed = h.agreed; queued = all }

  cleared-Fine :
      (peer socket : Text) (p : P2p)
      → Fine l r p
      → Fine l r (discard_delayed peer socket (flush_packets peer socket p))
  unfolding discard_delayed flush_packets
  cleared-Fine peer socket p h = record {
    agreed = discard-Agreed l r peer socket p.connections h.agreed;
    queued =
        stay_open p.connections _ _ (discard-Stays peer socket p.connections)
          (kept-Openly peer socket p.connections p.receive_queue h.queued);
  }

  -- A peer's message, by its tag.
  on_payload-Fine :
      (network : Network) (type : ℕ) (key : ConnectionKey) (msg : P2pData) (p : P2p)
      → Fine l r p
      → ((type == p2p_connect_request || type == p2p_connect_response || type == p2p_data) ≡ true
          → r key ≡ true)
      → Fine l r (on_payload own network type key msg p).1
  unfolding on_payload
  on_payload-Fine network type key msg p h k = elim (Bool-cases (type == p2p_data)) [
    | inl e ↦ rw e (on_data-Fine own network l r key msg p h (k (ground (arith, e))))
    | inr n ↦ rw n (elim (Bool-cases (type == p2p_connect_request)) [
      | inl e ↦ rw e (on_request-Fine own network l r key p h (k (ground (arith, e))))
      | inr n' ↦ rw n' (elim (Bool-cases (type == p2p_connect_response)) [
        | inl e ↦ rw e (on_response-Fine own network l r key p h (k (ground (arith, e))))
        | inr n'' ↦ rw n'' (elim (Bool-cases (type == p2p_connection_close)) [
          | inl e ↦ rw e (on_close-Fine l r key _ p h)
          | inr other ↦ rw other h
        ])
      ])
    ])
  ]

  on_decoded-Fine :
      (network : Network) (message : NetEnvelope) (read : Option P2pData × List ℕ) (p : P2p)
      → Fine l r p
      → deserialize_p2p_data message.payload ≡ read
      → same_text message.source_id own.product_user_id ≡ false
      → ((key : ConnectionKey)
          → remote_yes own key (call_message network message) ≡ true
          → r key ≡ true)
      → Fine l r (on_decoded own network message read p).1
  unfolding on_decoded remote_yes
  on_decoded-Fine network message (none, rest) p h e other k = h
  on_decoded-Fine network message (some msg, rest) p h e other k =
      elim (Bool-cases (socket_name_is_valid msg.socket_name)) [
        | inr bad ↦ rw bad h
        | inl valid ↦ rw valid (
            on_payload-Fine network message.type_tag (message.source_id, msg.socket_name) msg p h
              (λ t. k (message.source_id, msg.socket_name) (heard t)))
      ]
    where
      heard :
          (message.type_tag == p2p_connect_request
              || message.type_tag == p2p_connect_response
              || message.type_tag == p2p_data)
            ≡ true
          → remote_yes own (message.source_id, msg.socket_name) (call_message network message)
            ≡ true
      heard t =
          rw (e, names_socket)
            (ground
              (arith, t, other, same_text_refl message.source_id, same_text_refl msg.socket_name))

  on_network_message-Fine :
      (network : Network) (message : NetEnvelope) (p : P2p)
      → Fine l r p
      → ((key : ConnectionKey)
          → remote_yes own key (call_message network message) ≡ true
          → r key ≡ true)
      → Fine l r (on_network_message own network message p).1
  unfolding on_network_message
  on_network_message-Fine network message p h k =
      elim (Bool-cases (message.type_tag == peer_disconnected)) [
        | inl gone ↦ rw gone (peer_gone-Fine l r message.source_id p h)
        | inr a ↦ rw a (elim (Bool-cases (message.type_tag == peer_connected)) [
          | inl come ↦ rw come h
          | inr b ↦
              rw b
                (elim (Bool-cases
                  (is_empty message.source_id || same_text message.source_id own.product_user_id)) [
                    | inl us ↦ rw us h
                    | inr c ↦
                        rw c
                          (elim (Bool-cases (
                            not (is_empty message.dest_id)
                            && not (same_text message.dest_id own.product_user_id))) [
                              | inl astray ↦ rw astray h
                              | inr d ↦
                                  rw d (
                                    on_decoded-Fine network message _ p h refl (ground (arith, c))
                                      k)
                            ])
                  ])
        ])
      ]

  send_packet-Fine :
      (network : Network) (o : Option SendPacketOptions) (p : P2p)
      → Fine l r p
      → ((key : ConnectionKey) → local_yes own key (call_send network o) ≡ true → l key ≡ true)
      → Fine l r (send_packet own network o p).1
  unfolding send_packet
  send_packet-Fine network none p h k = h
  send_packet-Fine network (some o) p h k =
      elim (Bool-cases (
        not (version_is_supported o.api_version (pos 3))
        || not (socket_id_is_valid o.socket_id)
        || ltb 0 o.data_length_bytes && is_null o.packet)) [
          | inl bad ↦ rw bad h
          | inr valid ↦ rw valid (send_for-Fine network o o.remote_user p h refl k)
        ]

  accept_connection-Fine :
      (network : Network) (o : Option ConnectionOptions) (p : P2p)
      → Fine l r p
      → ((key : ConnectionKey) → local_yes own key (call_accept network o) ≡ true → l key ≡ true)
      → Fine l r (accept_connection own network o p).1
  unfolding accept_connection
  accept_connection-Fine network none p h k = h
  accept_connection-Fine network (some o) p h k =
      elim (Bool-cases (
        not (version_is_supported o.api_version (pos 1)) || not (socket_id_is_valid o.socket_id))) [
          | inl bad ↦ rw bad h
          | inr valid ↦ rw valid (accept_for-Fine network o o.remote_user p h refl k)
        ]

  close_connection-Fine :
      (network : Network) (o : Option ConnectionOptions) (p : P2p)
      → Fine l r p
      → Fine l r (close_connection own network o p).1
  unfolding close_connection
  close_connection-Fine network none p h = h
  close_connection-Fine network (some o) p h =
      elim (Bool-cases (
        not (version_is_supported o.api_version (pos 1))
        || not (no_socket o.socket_id) && not (socket_id_is_valid o.socket_id))) [
          | inl bad ↦ rw bad h
          | inr valid ↦ rw valid (close_for-Fine network o o.remote_user p h)
        ]

  close_connections-Fine :
      (network : Network) (o : Option ConnectionOptions) (p : P2p)
      → Fine l r p
      → Fine l r (close_connections own network o p).1
  unfolding close_connections
  close_connections-Fine network none p h = h
  close_connections-Fine network (some o) p h =
      elim (Bool-cases (
        not (version_is_supported o.api_version (pos 1)) || not (socket_id_is_valid o.socket_id))) [
          | inl bad ↦ rw bad h
          | inr valid ↦ rw valid (elim (Bool-cases (is_user own.product_user_id o.local_user)) [
            | inr other ↦ rw other h
            | inl us ↦ rw us (close_on-Fine own network (socket_of o.socket_id) l r p h)
          ])
        ]

  receive_packet-Fine :
      (o : Option ReceivePacketOptions) (p : P2p)
      → Fine l r p
      → Fine l r (receive_packet own.product_user_id o p).2
  unfolding receive_packet
  receive_packet-Fine none p h = h
  receive_packet-Fine (some o) p h =
      elim (Bool-cases (version_is_supported o.api_version (pos 2))) [
        | inr bad ↦ rw bad h
        | inl valid ↦ rw valid (elim (Bool-cases (is_user own.product_user_id o.local_user)) [
          | inr other ↦ rw other h
          | inl us ↦ rw us (
              hand_over-Fine o.max_data_size_bytes p _ h (
                next_packet-All (Openly p.connections) (requested_channel_of o) p.receive_queue
                  h.queued))
        ])
      ]

  clear_packet_queue-Fine :
      (o : Option ClearPacketQueueOptions) (p : P2p)
      → Fine l r p
      → Fine l r (clear_packet_queue own.product_user_id o p).1
  unfolding clear_packet_queue
  clear_packet_queue-Fine none p h = h
  clear_packet_queue-Fine (some o) p h =
      elim (Bool-cases (version_is_supported o.api_version (pos 1))) [
        | inr bad ↦ rw bad h
        | inl valid ↦ rw valid (elim (Bool-cases (is_user own.product_user_id o.local_user)) [
          | inr other ↦ rw other h
          | inl us ↦ rw us (cleared-Fine (bytes_of o.remote_user) (socket_of o.socket_id) p h)
        ])
      ]

  set_packet_queue_size-Fine :
      (version : ℤ) (incoming outgoing : ℕ) (p : P2p)
      → Fine l r p
      → Fine l r (set_packet_queue_size version incoming outgoing p).1
  unfolding set_packet_queue_size
  set_packet_queue_size-Fine version incoming outgoing p h =
      elim (Bool-cases (version_is_supported version (pos 1))) [
        | inr bad ↦ rw bad h
        | inl valid ↦ rw valid h
      ]

  pub called-Fine :
      (c : P2pCall) (p : P2p)
      → Fine l r p
      → ((key : ConnectionKey) → local_yes own key c ≡ true → l key ≡ true)
      → ((key : ConnectionKey) → remote_yes own key c ≡ true → r key ≡ true)
      → Fine l r (called own c p)
  unfolding called emu_deinit find
  called-Fine (call_send network o) p h kl kr = send_packet-Fine network o p h kl
  called-Fine (call_receive o) p h kl kr = receive_packet-Fine o p h
  called-Fine (call_clear o) p h kl kr = clear_packet_queue-Fine o p h
  called-Fine (call_limits version incoming outgoing) p h kl kr =
      set_packet_queue_size-Fine version incoming outgoing p h
  called-Fine (call_accept network o) p h kl kr = accept_connection-Fine network o p h kl
  called-Fine (call_close network o) p h kl kr = close_connection-Fine network o p h
  called-Fine (call_close_all network o) p h kl kr = close_connections-Fine network o p h
  called-Fine (call_message network m) p h kl kr = on_network_message-Fine network m p h kr
  called-Fine call_deinit p h kl kr = record { agreed = λ key. tt; queued = tt }
