-- ===== src/P2p/Limits/Steps.antt =====
-- Each call but one that sets the limits keeps the queues within them.
use mathlib.Core.List.{foldl}
use eos_reimagined.Base.{
  ℕ, ◌≤◌, Bool, true, Option, none, some, List, [], ◌∷◌, ◌≡◌, refl, arith, Bool-cases, inl, inr,
}
use eos_reimagined.Base.Dict.{put}
use eos_reimagined.ByteBuffer.{Text}
use eos_reimagined.Eos.{Settings, is_user}
use eos_reimagined.P2p.{
  Network, Connection, ConnectionKey, connection_key, ConnectionState, connection_open,
  connection_pending, connection_requested, DelayedPacket, P2p, established, unknown, queue_event,
  flush_packets, send_p2p, send_held, flush_delayed, opened, picked, p2p_data,
}
use eos_reimagined.P2p.Packets.{new_connection}
use eos_reimagined.P2p.Connections.{
  ConnectionOptions, ask, agree, accept_entry, accept_on, accept_for, close_with, close_for,
  close_on, with_peer, on_socket, say_closed, say_closed_flush,
}
use eos_reimagined.P2p.Inbound.{
  peer_gone, interrupt, requested, confirm, request_entry, on_request, response_entry, on_response,
  on_close,
}
use eos_reimagined.P2p.Limits.Sizes.{
  held_bytes, waiting_bytes, held_bytes-flush_queue, waiting_bytes-unpicked, waiting_bytes-remove,
  waiting_bytes-put, waiting_bytes-modify_less,
}

-- Nothing more is held, and the limits are as before.
pub record Less (p q : P2p) : Type 0 where
  pub same_incoming : q.incoming_queue_max_bytes ≡ p.incoming_queue_max_bytes
  pub same_outgoing : q.outgoing_queue_max_bytes ≡ p.outgoing_queue_max_bytes
  pub holds : held_bytes q.receive_queue ≤ held_bytes p.receive_queue
  pub waits : waiting_bytes q.connections ≤ waiting_bytes p.connections

pub Less-refl : (p : P2p) → Less p p
Less-refl p = omega arith

pub Less-trans : (p q s : P2p) → Less p q → Less q s → Less p s
Less-trans p q s h k = omega arith

pub foldl-Less :
    (step : P2p → ConnectionKey → P2p)
    → ((p : P2p) (key : ConnectionKey) → Less p (step p key))
    → (keys : List ConnectionKey) (p : P2p) → Less p (foldl step p keys)
foldl-Less step k [] p = Less-refl p
foldl-Less step k (key ∷ keys) p =
    Less-trans p (step p key) _ (k p key) (foldl-Less step k keys (step p key))

-- The queues are within limits which leave room in the `u64` for a packet.
pub record Within (incoming outgoing : ℕ) (p : P2p) : Type 0 where
  pub incoming_limit : p.incoming_queue_max_bytes ≡ incoming
  pub outgoing_limit : p.outgoing_queue_max_bytes ≡ outgoing
  pub held : held_bytes p.receive_queue ≤ incoming
  pub waiting : waiting_bytes p.connections ≤ outgoing

pub Within-Less :
    {incoming outgoing : ℕ} (p q : P2p)
    → Within incoming outgoing p
    → Less p q
    → Within incoming outgoing q
Within-Less p q h k = omega arith

module _ (own : Settings) (network : Network) where
  pub send_p2p-Less :
      (type : ℕ) (key : ConnectionKey) (channel : ℕ) (packet : List ℕ) (reliable : Bool) (p : P2p)
      → Less p (send_p2p own network type key channel packet reliable p)
  unfolding send_p2p
  send_p2p-Less type key channel packet reliable p = omega arith

  pub send_held-Less :
      (key : ConnectionKey) (held : List DelayedPacket) (p : P2p)
      → Less p (send_held own network key held p)
  unfolding send_held
  send_held-Less key [] p = Less-refl p
  send_held-Less key (packet ∷ held) p =
      Less-trans p _ _ (send_p2p-Less p2p_data key packet.channel packet.packet packet.reliable p)
        (send_held-Less key held _)

  pub opened-Less :
      (key : ConnectionKey) (entry : Connection) (p : P2p) → Less p (opened own network key entry p)
  unfolding opened flush_delayed queue_event
  opened-Less key entry p =
      let q = queue_event established key unknown p in
      let s = send_held own network key entry.delayed q in
      let less : Less q s = send_held-Less key entry.delayed q in
      omega (
        arith,
        less.same_incoming,
        less.same_outgoing,
        less.holds,
        less.waits,
        waiting_bytes-modify_less key (record { state = connection_open; delayed = [] })
            s.connections refl,
      )

  pub put-Less :
      (key : ConnectionKey) (s : ConnectionState) (p : P2p)
      → Less p (record p { connections = put key (new_connection s) p.connections })
  put-Less key s p = omega (arith, waiting_bytes-put key (new_connection s) p.connections)

  pub accept_entry-Less :
      (key : ConnectionKey) (entry : Connection) (s : ConnectionState) (p : P2p)
      → entry.state ≡ s
      → Less p (accept_entry own network key entry p)
  unfolding accept_entry ask agree
  accept_entry-Less key entry connection_open p e = rw (e, accept_entry) (Less-refl p)
  accept_entry-Less key entry connection_pending p e =
      rw (e, accept_entry) (send_p2p-Less _ key 0 [] true p)
  accept_entry-Less key entry connection_requested p e =
      rw (e, accept_entry)
        (Less-trans p _ _ (send_p2p-Less _ key 0 [] true p) (opened-Less key entry _))

  pub accept_on-Less :
      (key : ConnectionKey) (o : Option Connection) (p : P2p)
      → Less p (accept_on own network key o p)
  unfolding accept_on ask
  accept_on-Less key (some entry) p = accept_entry-Less key entry entry.state p refl
  accept_on-Less key none p =
      Less-trans p _ _ (put-Less key connection_pending p) (send_p2p-Less _ key 0 [] true _)

  pub accept_for-Less :
      (o : ConnectionOptions) (remote : Option Text) (p : P2p)
      → Less p (accept_for own network o remote p).1
  unfolding accept_for
  accept_for-Less o none p = Less-refl p
  accept_for-Less o (some peer) p = elim (Bool-cases (is_user own.product_user_id o.local_user)) [
    | inr other ↦ rw other (Less-refl p)
    | inl us ↦ rw us (accept_on-Less _ _ p)
  ]

  pub close_with-Less :
      (peer socket : Text) (p : P2p) → Less p (close_with own network peer socket p)
  unfolding close_with flush_packets say_closed queue_event send_p2p
  close_with-Less peer socket p =
      let test = with_peer peer socket in
      let q = foldl (say_closed own network) p (picked test p.connections) in
      let less : Less p q =
        foldl-Less (say_closed own network) (λ s key. omega arith) (picked test p.connections) p in
      omega (
        arith,
        less.same_incoming,
        less.same_outgoing,
        less.holds,
        held_bytes-flush_queue peer socket q.receive_queue,
        waiting_bytes-unpicked test p.connections,
      )

  pub close_for-Less :
      (o : ConnectionOptions) (remote : Option Text) (p : P2p)
      → Less p (close_for own network o remote p).1
  unfolding close_for
  close_for-Less o none p = Less-refl p
  close_for-Less o (some peer) p = elim (Bool-cases (is_user own.product_user_id o.local_user)) [
    | inr other ↦ rw other (Less-refl p)
    | inl us ↦ rw us (close_with-Less peer _ p)
  ]

  pub flush-Less : (peer socket : Text) (p : P2p) → Less p (flush_packets peer socket p)
  unfolding flush_packets
  flush-Less peer socket p = omega (arith, held_bytes-flush_queue peer socket p.receive_queue)

  pub close_on-Less : (socket : Text) (p : P2p) → Less p (close_on own network socket p)
  unfolding close_on say_closed_flush say_closed queue_event send_p2p flush_packets
  close_on-Less socket p =
      let test = on_socket socket in
      let q = foldl (say_closed_flush own network socket) p (picked test p.connections) in
      let less : Less p q =
        foldl-Less (say_closed_flush own network socket)
          (λ s key. omega (arith, held_bytes-flush_queue key.0 socket s.receive_queue))
          (picked test p.connections) p in
      omega (
        arith,
        less.same_incoming,
        less.same_outgoing,
        less.holds,
        waiting_bytes-unpicked test p.connections,
      )

  pub request_entry-Less :
      (key : ConnectionKey) (entry : Connection) (s : ConnectionState) (p : P2p)
      → entry.state ≡ s
      → Less p (request_entry own network key entry p)
  unfolding request_entry confirm
  request_entry-Less key entry connection_open p e =
      rw (e, request_entry) (send_p2p-Less _ key 0 [] true p)
  request_entry-Less key entry connection_requested p e = rw (e, request_entry) (Less-refl p)
  request_entry-Less key entry connection_pending p e =
      rw (e, request_entry)
        (Less-trans p _ _ (send_p2p-Less _ key 0 [] true p) (opened-Less key entry _))

  pub requested-Less : (key : ConnectionKey) (p : P2p) → Less p (requested key p)
  unfolding requested queue_event
  requested-Less key p =
      omega (arith, waiting_bytes-put key (new_connection connection_requested) p.connections)

  pub on_request-Less :
      (key : ConnectionKey) (o : Option Connection) (p : P2p)
      → Less p (on_request own network key o p)
  unfolding on_request
  on_request-Less key none p = requested-Less key p
  on_request-Less key (some entry) p = request_entry-Less key entry entry.state p refl

  pub response_entry-Less :
      (key : ConnectionKey) (entry : Connection) (s : ConnectionState) (p : P2p)
      → entry.state ≡ s
      → Less p (response_entry own network key entry p)
  unfolding response_entry
  response_entry-Less key entry connection_open p e = rw (e, response_entry) (Less-refl p)
  response_entry-Less key entry connection_requested p e = rw (e, response_entry) (Less-refl p)
  response_entry-Less key entry connection_pending p e =
      rw (e, response_entry) (opened-Less key entry p)

  pub on_response-Less :
      (key : ConnectionKey) (o : Option Connection) (p : P2p)
      → Less p (on_response own network key o p)
  unfolding on_response
  on_response-Less key none p = Less-refl p
  on_response-Less key (some entry) p = response_entry-Less key entry entry.state p refl

pub on_close-Less :
    (key : ConnectionKey) (o : Option Connection) (p : P2p) → Less p (on_close key o p)
unfolding on_close queue_event flush_packets
on_close-Less key none p = Less-refl p
on_close-Less key (some entry) p = omega (
  arith,
  held_bytes-flush_queue key.0 key.1 p.receive_queue,
  waiting_bytes-remove key p.connections,
)

pub peer_gone-Less : (peer : Text) (p : P2p) → Less p (peer_gone peer p)
unfolding peer_gone flush_packets interrupt queue_event
peer_gone-Less peer p =
    let test = with_peer peer [] in
    let q = foldl interrupt p (picked test p.connections) in
    let less : Less p q =
      foldl-Less interrupt (λ s key. omega arith) (picked test p.connections) p in
    omega (
      arith,
      less.same_incoming,
      less.same_outgoing,
      less.holds,
      held_bytes-flush_queue peer [] q.receive_queue,
      waiting_bytes-unpicked test p.connections,
    )
