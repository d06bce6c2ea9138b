-- ===== src/P2p/Consent/Keeps.antt =====
-- The calls of `sdk_p2p` one by one.
use mathlib.Core.Path.{subst}
use eos_reimagined.Base.{
  ℕ, ◌+◌, ◌%◌, ◌^◌, Bool, true, not, none, some, List, [], ◌≡◌, refl, Bool-cases, Option-cases, inl,
  inr, All-append, length,
}
use eos_reimagined.Base.Dict.{find, modify, find-modify, put, find-put, find-put_self}
use eos_reimagined.Wire.Peer.{P2pData}
use eos_reimagined.Eos.{Settings}
use eos_reimagined.P2p.{
  Network, Connection, ConnectionKey, connection_key, ConnectionState, connection_open,
  connection_pending, connection_requested, DelayedPacket, P2p, queue_event, send_p2p, opened,
  incoming_queued_bytes, outgoing_queued_bytes,
}
use eos_reimagined.P2p.Packets.{
  SendPacketOptions, is_open, hold, send_through, send_on, new_connection, declines_connection,
  exceeds,
}
use eos_reimagined.P2p.Connections.{ask, agree, accept_entry, accept_on}
use eos_reimagined.P2p.Inbound.{
  requested, arrives, data_entry, data_on, malformed, on_data, confirm, request_entry, on_request,
  response_entry, on_response,
}
use eos_reimagined.P2p.Tables.{opened-connections, opened-receive_queue}
use eos_reimagined.P2p.Consent.Steps.{Backed, Openly, IsConsented, set-IsConsented}

abbrev pub Fine : (ConnectionKey → Bool) → (ConnectionKey → Bool) → P2p → Type 0
Fine l r p = IsConsented l r p.connections p.receive_queue

module _ (own : Settings) (network : Network) (l r : ConnectionKey → Bool) where
  entry-Backed :
      (key : ConnectionKey) (entry : Connection) (p : P2p)
      → Fine l r p
      → find key p.connections ≡ some entry
      → Backed (l key) (r key) entry.state
  entry-Backed key entry p h e = rw e at (h.agreed key)

  -- A new state for the connection under a key.
  set_state :
      (key : ConnectionKey) (entry new : Connection) (p : P2p)
      → Fine l r p
      → find key p.connections ≡ some entry
      → Backed (l key) (r key) new.state
      → (is_open entry.state ≡ true → is_open new.state ≡ true)
      → IsConsented l r (modify key new p.connections) p.receive_queue
  set_state key entry new p h e b k =
      set-IsConsented l r key new p.connections _ p.receive_queue
        (λ other. find-modify key other new entry p.connections e) b (λ o. k (rw e at o)) h

  -- A connection for a key that has none.
  new_state :
      (key : ConnectionKey) (new : Connection) (p : P2p)
      → Fine l r p
      → find key p.connections ≡ none
      → Backed (l key) (r key) new.state
      → IsConsented l r (put key new p.connections) p.receive_queue
  new_state key new p h e b =
      set-IsConsented l r key new p.connections _ p.receive_queue
        (λ other. find-put key other new p.connections) b (λ o. absurd (cc (rw e at o))) h

  opened-Fine :
      (key : ConnectionKey) (entry : Connection) (p : P2p)
      → Fine l r p
      → find key p.connections ≡ some entry
      → (l key ≡ true) × (r key ≡ true)
      → Fine l r (opened own network key entry p)
  unfolding is_open
  opened-Fine key entry p h e b =
      rw (opened-connections own network key entry p, opened-receive_queue own network key entry p)
        (set_state key entry (record { state = connection_open; delayed = [] }) p h e b (λ _. refl))

  hold-Fine :
      (key : ConnectionKey) (entry : Connection) (waiting : DelayedPacket) (p : P2p)
      → Fine l r p
      → find key p.connections ≡ some entry
      → Fine l r (hold own network key entry waiting p).1
  unfolding hold
  hold-Fine key entry waiting p h e =
      let total = (outgoing_queued_bytes p + length waiting.packet) % 2 ^ 64 in
      elim (Bool-cases (exceeds p.outgoing_queue_max_bytes total)) [
        | inl full ↦ rw full h
        | inr room ↦ rw room (set_state key entry _ p h e (entry-Backed key entry p h e) (λ k. k))
      ]

  send_through-Fine :
      (o : SendPacketOptions) (key : ConnectionKey) (entry : Connection) (p : P2p)
      → Fine l r p
      → find key p.connections ≡ some entry
      → Fine l r (send_through own network o key entry p).1
  unfolding send_through send_p2p
  send_through-Fine o key entry p h e = elim (Bool-cases (is_open entry.state)) [
    | inl now ↦ rw now h
    | inr later ↦ rw later (elim (Bool-cases (not o.allow_delayed_delivery)) [
      | inl dropped ↦ rw dropped h
      | inr held ↦ rw held (hold-Fine key entry _ p h e)
    ])
  ]

  pub send_on-Fine :
      (o : SendPacketOptions) (key : ConnectionKey) (p : P2p)
      → Fine l r p
      → l key ≡ true
      → Fine l r (send_on own network o key (find key p.connections) p).1
  unfolding send_on send_p2p
  send_on-Fine o key p h yes' = elim (Option-cases (find key p.connections)) [
    | inl e ↦
        rw (e, send_on)
          (elim (Bool-cases (declines_connection o)) [
            | inl declined ↦ rw declined h
            | inr wanted ↦ rw wanted (
                send_through-Fine o key (new_connection connection_pending) _
                  (new_state key (new_connection connection_pending) p h e yes')
                  (find-put_self key _ p.connections))
          ])
    | inr (entry, e) ↦ rw (e, send_on) (send_through-Fine o key entry p h e)
  ]

  accept_entry-Fine :
      (key : ConnectionKey) (entry : Connection) (s : ConnectionState) (p : P2p)
      → entry.state ≡ s
      → Fine l r p
      → find key p.connections ≡ some entry
      → l key ≡ true
      → Fine l r (accept_entry own network key entry p)
  unfolding accept_entry ask agree send_p2p
  accept_entry-Fine key entry connection_open p se h e asked = rw (se, accept_entry) h
  accept_entry-Fine key entry connection_pending p se h e asked = rw (se, accept_entry) h
  accept_entry-Fine key entry connection_requested p se h e asked =
      rw (se, accept_entry)
        (opened-Fine key entry _ h e
          (asked, subst (Backed (l key) (r key)) se (entry-Backed key entry p h e)))

  pub accept_on-Fine :
      (key : ConnectionKey) (p : P2p)
      → Fine l r p
      → l key ≡ true
      → Fine l r (accept_on own network key (find key p.connections) p)
  unfolding accept_on ask send_p2p
  accept_on-Fine key p h asked = elim (Option-cases (find key p.connections)) [
    | inl e ↦ rw (e, accept_on) (new_state key (new_connection connection_pending) p h e asked)
    | inr (entry, e) ↦ rw (e, accept_on) (accept_entry-Fine key entry entry.state p refl h e asked)
  ]

  requested-Fine :
      (key : ConnectionKey) (p : P2p)
      → Fine l r p
      → find key p.connections ≡ none
      → r key ≡ true
      → Fine l r (requested key p)
  unfolding requested queue_event
  requested-Fine key p h e asked = new_state key (new_connection connection_requested) p h e asked

  arrives-Fine :
      (key : ConnectionKey) (entry : Connection) (channel : ℕ) (packet : List ℕ) (p : P2p)
      → Fine l r p
      → find key p.connections ≡ some entry
      → entry.state ≡ connection_open
      → Fine l r (arrives key channel packet p)
  unfolding arrives is_open
  arrives-Fine key entry channel packet p h e se =
      let total = (incoming_queued_bytes p + length packet) % 2 ^ 64 in
      elim (Bool-cases (exceeds p.incoming_queue_max_bytes total)) [
        | inl full ↦ rw full h
        | inr room ↦ rw room (record {
          agreed = h.agreed;
          queued =
              All-append (Openly p.connections) p.receive_queue _ h.queued
                ((rw e (rw (se, is_open))), tt);
        })
      ]

  data_entry-Fine :
      (key : ConnectionKey) (entry : Connection) (s : ConnectionState) (channel : ℕ)
      (packet : List ℕ) (p : P2p)
      → entry.state ≡ s
      → Fine l r p
      → find key p.connections ≡ some entry
      → Fine l r (data_entry key entry channel packet p)
  unfolding data_entry
  data_entry-Fine key entry connection_open channel packet p se h e =
      rw (se, data_entry) (arrives-Fine key entry channel packet p h e se)
  data_entry-Fine key entry connection_pending channel packet p se h e = rw (se, data_entry) h
  data_entry-Fine key entry connection_requested channel packet p se h e = rw (se, data_entry) h

  pub on_data-Fine :
      (key : ConnectionKey) (msg : P2pData) (p : P2p)
      → Fine l r p
      → r key ≡ true
      → Fine l r (on_data key msg p)
  unfolding on_data data_on
  on_data-Fine key msg p h asked = elim (Bool-cases (malformed msg)) [
    | inl bad ↦ rw bad h
    | inr fit ↦ rw fit (elim (Option-cases (find key p.connections)) [
      | inl e ↦ rw (e, data_on) (requested-Fine key p h e asked)
      | inr (entry, e) ↦ rw (e, data_on) (data_entry-Fine key entry entry.state _ _ p refl h e)
    ])
  ]

  request_entry-Fine :
      (key : ConnectionKey) (entry : Connection) (s : ConnectionState) (p : P2p)
      → entry.state ≡ s
      → Fine l r p
      → find key p.connections ≡ some entry
      → r key ≡ true
      → Fine l r (request_entry own network key entry p)
  unfolding request_entry confirm send_p2p
  request_entry-Fine key entry connection_open p se h e asked = rw (se, request_entry) h
  request_entry-Fine key entry connection_requested p se h e asked = rw (se, request_entry) h
  request_entry-Fine key entry connection_pending p se h e asked =
      rw (se, request_entry)
        (opened-Fine key entry _ h e
          (subst (Backed (l key) (r key)) se (entry-Backed key entry p h e), asked))

  pub on_request-Fine :
      (key : ConnectionKey) (p : P2p)
      → Fine l r p
      → r key ≡ true
      → Fine l r (on_request own network key (find key p.connections) p)
  unfolding on_request
  on_request-Fine key p h asked = elim (Option-cases (find key p.connections)) [
    | inl e ↦ rw (e, on_request) (requested-Fine key p h e asked)
    | inr (entry, e) ↦
        rw (e, on_request) (request_entry-Fine key entry entry.state p refl h e asked)
  ]

  response_entry-Fine :
      (key : ConnectionKey) (entry : Connection) (s : ConnectionState) (p : P2p)
      → entry.state ≡ s
      → Fine l r p
      → find key p.connections ≡ some entry
      → r key ≡ true
      → Fine l r (response_entry own network key entry p)
  unfolding response_entry
  response_entry-Fine key entry connection_open p se h e asked = rw (se, response_entry) h
  response_entry-Fine key entry connection_requested p se h e asked = rw (se, response_entry) h
  response_entry-Fine key entry connection_pending p se h e asked =
      rw (se, response_entry)
        (opened-Fine key entry p h e
          (subst (Backed (l key) (r key)) se (entry-Backed key entry p h e), asked))

  pub on_response-Fine :
      (key : ConnectionKey) (p : P2p)
      → Fine l r p
      → r key ≡ true
      → Fine l r (on_response own network key (find key p.connections) p)
  unfolding on_response
  on_response-Fine key p h asked = elim (Option-cases (find key p.connections)) [
    | inl e ↦ rw (e, on_response) h
    | inr (entry, e) ↦
        rw (e, on_response) (response_entry-Fine key entry entry.state p refl h e asked)
  ]
