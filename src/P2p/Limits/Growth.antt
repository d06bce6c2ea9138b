-- ===== src/P2p/Limits/Growth.antt =====
-- The calls of `sdk_p2p` that add to a queue keep it within the game's limit.
use eos_reimagined.Base.{
  ℕ, ◌+◌, ◌%◌, ◌^◌, ◌≤◌, ◌<◌, true, false, not, ◌&&◌, ◌||◌, Option, none, some, List, [], ◌∷◌, ◌++◌,
  ◌==◌, ◌≡◌, refl, arith, Bool-cases, Option-cases, ◌⊎◌, inl, inr, length, length-take, ltb,
}
use eos_reimagined.Base.Texts.{is_empty, same_text}
use eos_reimagined.Base.Dict.{find, put, find-put_self}
use eos_reimagined.ByteBuffer.{Text}
use eos_reimagined.Wire.Peer.{NetEnvelope, P2pData}
use eos_reimagined.Base.Int.{pos}
use eos_reimagined.Eos.{Settings, is_user, version_is_supported}
use eos_reimagined.P2p.{
  Network, socket_name_is_valid, socket_id_is_valid, Connection, ConnectionKey, connection_key,
  ConnectionState, connection_open, connection_pending, connection_requested, DelayedPacket, P2p,
  send_p2p, p2p_connect_request, p2p_connect_response, p2p_data, incoming_queued_bytes,
  outgoing_queued_bytes, max_packet_size, p2p_connection_close, peer_connected, peer_disconnected,
}
use eos_reimagined.P2p.Packets.{
  SendPacketOptions, is_null, send_packet, is_open, hold, send_through, send_on, send_for,
  new_connection, bytes_of, declines_connection, exceeds,
}
use eos_reimagined.P2p.Inbound.{
  arrives, data_entry, data_on, malformed, on_data, on_payload, on_decoded, on_network_message,
}
use eos_reimagined.P2p.Limits.Steps.{
  Within, Within-Less, send_p2p-Less, put-Less, on_request-Less, on_response-Less, on_close-Less,
  peer_gone-Less, requested-Less,
}
use eos_reimagined.P2p.Limits.Sizes.{
  queued_from-held_bytes, outgoing_from-waiting_bytes, held_bytes-append, delayed_bytes-append,
  waiting_bytes-modify,
}

module _ (own : Settings) (incoming outgoing : ℕ) (room_in : 0 < incoming)
    (fits_in : incoming + 1170 < 2 ^ 64) (room_out : 0 < outgoing)
    (fits_out : outgoing + 1170 < 2 ^ 64) where
  hold-Within :
      (network : Network) (key : ConnectionKey) (entry : Connection) (waiting : DelayedPacket)
      (p : P2p)
      → Within incoming outgoing p
      → length waiting.packet ≤ 1170
      → find key p.connections ≡ some entry
      → Within incoming outgoing (hold own network key entry waiting p).1
  unfolding hold exceeds outgoing_queued_bytes
  hold-Within network key entry waiting p h short e =
      let total = (outgoing_queued_bytes p + length waiting.packet) % 2 ^ 64 in
      elim (Bool-cases (exceeds p.outgoing_queue_max_bytes total)) [
        | inl full ↦ rw full h
        | inr fits ↦ rw fits (
            omega (
              arith,
              under p.outgoing_queue_max_bytes total fits,
              outgoing_from-waiting_bytes 0 p.connections (omega arith),
              delayed_bytes-append entry.delayed (waiting ∷ []),
              waiting_bytes-modify key (record entry { delayed = entry.delayed ++ waiting ∷ [] })
                  entry p.connections e,
              h.outgoing_limit,
              h.waiting,
              h.held,
              h.incoming_limit,
            ))
      ]
    where
      under : (max total : ℕ) → exceeds max total ≡ false → (max ≡ 0) ⊎ (total ≤ max)
      under max total f = ground (arith, f)

  send_through-Within :
      (network : Network) (o : SendPacketOptions) (key : ConnectionKey) (entry : Connection)
      (p : P2p)
      → Within incoming outgoing p
      → o.data_length_bytes ≤ 1170
      → find key p.connections ≡ some entry
      → Within incoming outgoing (send_through own network o key entry p).1
  unfolding send_through
  send_through-Within network o key entry p h short e = elim (Bool-cases (is_open entry.state)) [
    | inl now ↦ rw now (Within-Less p _ h (send_p2p-Less own network p2p_data key _ _ _ p))
    | inr later ↦ rw later (elim (Bool-cases (not o.allow_delayed_delivery)) [
      | inl dropped ↦ rw dropped h
      | inr held ↦ rw held (
          hold-Within network key entry _ p h
            (omega (arith, length-take o.data_length_bytes (bytes_of o.packet))) e)
    ])
  ]

  send_on-Within :
      (network : Network) (o : SendPacketOptions) (key : ConnectionKey) (p : P2p)
      → Within incoming outgoing p
      → o.data_length_bytes ≤ 1170
      → Within incoming outgoing (send_on own network o key (find key p.connections) p).1
  unfolding send_on
  send_on-Within network o key p h short = elim (Option-cases (find key p.connections)) [
    | inr (entry, e) ↦ rw (e, send_on) (send_through-Within network o key entry p h short e)
    | inl e ↦
        rw (e, send_on)
          (elim (Bool-cases (declines_connection o)) [
            | inl declined ↦ rw declined h
            | inr wanted ↦
                let q = record p {
                  connections = put key (new_connection connection_pending) p.connections;
                } in
                rw wanted (
                  send_through-Within network o key (new_connection connection_pending) _
                    (Within-Less q _
                      (Within-Less p q h (put-Less own network key connection_pending p))
                      (send_p2p-Less own network p2p_connect_request key 0 [] true q))
                    short (unfold send_p2p in find-put_self key _ p.connections))
          ])
  ]

  send_for-Within :
      (network : Network) (o : SendPacketOptions) (remote : Option Text) (p : P2p)
      → Within incoming outgoing p
      → Within incoming outgoing (send_for own network o remote p).1
  unfolding send_for
  send_for-Within network o none p h = h
  send_for-Within network o (some peer) p h =
      elim (Bool-cases (is_user own.product_user_id o.local_user)) [
        | inr other ↦ rw other h
        | inl us ↦ rw us (elim (Bool-cases (ltb max_packet_size o.data_length_bytes)) [
          | inl long ↦ rw long h
          | inr short ↦ rw short (send_on-Within network o _ p h (ground (arith, short)))
        ])
      ]

  arrives-Within :
      (key : ConnectionKey) (channel : ℕ) (packet : List ℕ) (p : P2p)
      → Within incoming outgoing p
      → length packet ≤ 1170
      → Within incoming outgoing (arrives key channel packet p)
  unfolding arrives exceeds incoming_queued_bytes
  arrives-Within key channel packet p h short =
      let total = (incoming_queued_bytes p + length packet) % 2 ^ 64 in
      elim (Bool-cases (exceeds p.incoming_queue_max_bytes total)) [
        | inl full ↦ rw full (omega arith)
        | inr fits ↦ rw fits (
            omega (
              arith,
              under p.incoming_queue_max_bytes total fits,
              queued_from-held_bytes 0 p.receive_queue (omega arith),
              held_bytes-append p.receive_queue (
                  record { peer = key.0; socket = key.1; channel = channel; packet = packet } ∷ []),
              h.outgoing_limit,
              h.waiting,
              h.held,
              h.incoming_limit,
            ))
      ]
    where
      under : (max total : ℕ) → exceeds max total ≡ false → (max ≡ 0) ⊎ (total ≤ max)
      under max total f = ground (arith, f)

  data_entry-Within :
      (key : ConnectionKey) (entry : Connection) (s : ConnectionState) (channel : ℕ)
      (packet : List ℕ) (p : P2p)
      → entry.state ≡ s
      → Within incoming outgoing p
      → length packet ≤ 1170
      → Within incoming outgoing (data_entry key entry channel packet p)
  unfolding data_entry
  data_entry-Within key entry connection_open channel packet p e h short =
      rw (e, data_entry) (arrives-Within key channel packet p h short)
  data_entry-Within key entry connection_pending channel packet p e h short = rw (e, data_entry) h
  data_entry-Within key entry connection_requested channel packet p e h short = rw (e, data_entry) h

  abbrev quiet : Network
  quiet = record { carries = λ s t b. false; drops = λ s e. false }

  data_on-Within :
      (key : ConnectionKey) (o : Option Connection) (msg : P2pData) (p : P2p)
      → Within incoming outgoing p
      → length msg.packet ≤ 1170
      → Within incoming outgoing (data_on key o msg p)
  unfolding data_on
  data_on-Within key none msg p h short = Within-Less p _ h (requested-Less own quiet key p)
  data_on-Within key (some entry) msg p h short =
      data_entry-Within key entry entry.state _ msg.packet p refl h short

  on_data-Within :
      (key : ConnectionKey) (msg : P2pData) (p : P2p)
      → Within incoming outgoing p
      → Within incoming outgoing (on_data key msg p)
  unfolding on_data
  on_data-Within key msg p h = elim (Bool-cases (malformed msg)) [
    | inl bad ↦ rw bad h
    | inr fit ↦ rw fit (data_on-Within key _ msg p h (unfold malformed in ground (arith, fit)))
  ]

  on_payload-Within :
      (network : Network) (type : ℕ) (key : ConnectionKey) (msg : P2pData) (p : P2p)
      → Within incoming outgoing p
      → Within incoming outgoing (on_payload own network type key msg p).1
  unfolding on_payload
  on_payload-Within network type key msg p h = elim (Bool-cases (type == p2p_data)) [
    | inl e ↦ rw e (on_data-Within key msg p h)
    | inr n ↦ rw n (elim (Bool-cases (type == p2p_connect_request)) [
      | inl e ↦ rw e (Within-Less p _ h (on_request-Less own network key _ p))
      | inr n' ↦ rw n' (elim (Bool-cases (type == p2p_connect_response)) [
        | inl e ↦ rw e (Within-Less p _ h (on_response-Less own network key _ p))
        | inr n'' ↦ rw n'' (elim (Bool-cases (type == p2p_connection_close)) [
          | inl e ↦ rw e (Within-Less p _ h (on_close-Less key _ p))
          | inr other ↦ rw other h
        ])
      ])
    ])
  ]

  on_decoded-Within :
      (network : Network) (message : NetEnvelope) (read : Option P2pData × List ℕ) (p : P2p)
      → Within incoming outgoing p
      → Within incoming outgoing (on_decoded own network message read p).1
  unfolding on_decoded
  on_decoded-Within network message (none, rest) p h = h
  on_decoded-Within network message (some msg, rest) p h =
      elim (Bool-cases (socket_name_is_valid msg.socket_name)) [
        | inr bad ↦ rw bad h
        | inl valid ↦ rw valid (on_payload-Within network message.type_tag _ msg p h)
      ]

  pub on_network_message-Within :
      (network : Network) (message : NetEnvelope) (p : P2p)
      → Within incoming outgoing p
      → Within incoming outgoing (on_network_message own network message p).1
  unfolding on_network_message
  on_network_message-Within network message p h =
      elim (Bool-cases (message.type_tag == peer_disconnected)) [
        | inl gone ↦ rw gone (Within-Less p _ h (peer_gone-Less message.source_id p))
        | inr a ↦ rw a (elim (Bool-cases (message.type_tag == peer_connected)) [
          | inl come ↦ rw come h
          | inr b ↦
              rw b
                (elim (Bool-cases
                  (is_empty message.source_id || same_text message.source_id own.product_user_id)) [
                    | inl us ↦ rw us h
                    | inr c ↦
                        rw c
                          (elim (Bool-cases (
                            not (is_empty message.dest_id)
                            && not (same_text message.dest_id own.product_user_id))) [
                              | inl astray ↦ rw astray h
                              | inr d ↦ rw d (on_decoded-Within network message _ p h)
                            ])
                  ])
        ])
      ]

  pub send_packet-Within :
      (network : Network) (o : Option SendPacketOptions) (p : P2p)
      → Within incoming outgoing p
      → Within incoming outgoing (send_packet own network o p).1
  unfolding send_packet
  send_packet-Within network none p h = h
  send_packet-Within network (some o) p h =
      elim (Bool-cases (
        not (version_is_supported o.api_version (pos 3))
        || not (socket_id_is_valid o.socket_id)
        || ltb 0 o.data_length_bytes && is_null o.packet)) [
          | inl bad ↦ rw bad h
          | inr valid ↦ rw valid (send_for-Within network o o.remote_user p h)
        ]
