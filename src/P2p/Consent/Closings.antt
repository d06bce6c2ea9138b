-- ===== src/P2p/Consent/Closings.antt =====
-- The closing of connections, and any call.
use mathlib.Core.List.{foldl}
use eos_reimagined.Base.{
  Bool, true, false, ◌||◌, Option, none, some, List, [], ◌∷◌, All, ◌≡◌, refl, ◌∙◌, sym, arith,
  Bool-cases, inl, inr,
}
use eos_reimagined.Base.Texts.{same_text_refl, same_text_sound}
use eos_reimagined.Base.Dict.{find, remove, find-remove}
use eos_reimagined.ByteBuffer.{Text}
use eos_reimagined.Eos.{Settings}
use eos_reimagined.P2p.{
  Network, Connection, ConnectionKey, Connections, connection_key, ReceivedPacket, key_of, P2p,
  queue_event, concerns, flush_packets, send_p2p, picked, unpicked,
}
use eos_reimagined.P2p.Connections.{
  close_with, close_on, with_peer, on_socket, say_closed, say_closed_flush,
}
use eos_reimagined.P2p.Inbound.{peer_gone, interrupt, on_close}
use eos_reimagined.P2p.Tables.{find-unpicked, All-flush_queue}
use eos_reimagined.P2p.Consent.Keeps.{Fine}
use eos_reimagined.P2p.Consent.Steps.{
  Openly, has_open, unpicked-Openly, unpicked-Agreed, remove-Agreed,
}

-- What a step on each of some keys leaves alone.
foldl_same :
    {A : Type 0} (part : P2p → A) (step : P2p → ConnectionKey → P2p)
    → ((p : P2p) (key : ConnectionKey) → part (step p key) ≡ part p)
    → (keys : List ConnectionKey) (p : P2p) → part (foldl step p keys) ≡ part p
foldl_same part step k [] p = refl
foldl_same part step k (key ∷ keys) p = foldl_same part step k keys (step p key) ∙ k p key

with_peer→concerns :
    (peer socket : Text) (key : ConnectionKey)
    → with_peer peer socket key ≡ true
    → concerns peer socket key ≡ true
unfolding with_peer concerns
with_peer→concerns peer socket key h = ground (arith, h)

among : ConnectionKey → List ConnectionKey → Bool
among key [] = false
among key (k ∷ keys) = connection_key.same k key || among key keys

among-picked :
    (test : ConnectionKey → Bool) (key : ConnectionKey) (m : Connections)
    → has_open (find key m) ≡ true
    → test key ≡ true
    → among key (picked test m) ≡ true
unfolding among picked find
among-picked test key [] h t = absurd (cc h)
among-picked test key ((k, entry) ∷ rest) h t =
    ground (arith, connection_key.same_sound k key, among-picked test key rest, h, t)

module _ (l r : ConnectionKey → Bool) where
  pub peer_gone-Fine : (peer : Text) (p : P2p) → Fine l r p → Fine l r (peer_gone peer p)
  unfolding peer_gone flush_packets interrupt queue_event
  peer_gone-Fine peer p h =
      let test = with_peer peer [] in
      let same =
        foldl_same (λ q. q.receive_queue) interrupt (λ q key. refl) (picked test p.connections) p in
      rw same (record {
        agreed = unpicked-Agreed l r test p.connections h.agreed;
        queued =
            unpicked-Openly test peer [] p.connections (with_peer→concerns peer []) p.receive_queue
              h.queued;
      })

  module _ (own : Settings) (network : Network) where
    pub close_with-Fine :
        (peer socket : Text) (p : P2p)
        → Fine l r p
        → Fine l r (close_with own network peer socket p)
    unfolding close_with flush_packets say_closed queue_event send_p2p
    close_with-Fine peer socket p h =
        let test = with_peer peer socket in
        let same =
          foldl_same (λ q. q.receive_queue) (say_closed own network) (λ q key. refl)
            (picked test p.connections) p in
        rw same (record {
          agreed = unpicked-Agreed l r test p.connections h.agreed;
          queued =
              unpicked-Openly test peer socket p.connections (with_peer→concerns peer socket)
                p.receive_queue h.queued;
        })

picked_all :
    (test : ConnectionKey → Bool) (m : Connections) → All (λ k. test k ≡ true) (picked test m)
unfolding picked
picked_all test [] = tt
picked_all test ((key, entry) ∷ rest) = elim (Bool-cases (test key)) [
  | inl e ↦ rw e (e, picked_all test rest)
  | inr n ↦ rw n (picked_all test rest)
]

same→concerns :
    (k key : ConnectionKey) (socket : Text)
    → on_socket socket k ≡ true
    → connection_key.same k key ≡ true
    → concerns k.0 socket key ≡ true
unfolding on_socket concerns
same→concerns k key socket h e = ground (
  arith,
  h,
  connection_key.same_sound k key,
  same_text_refl key.0,
  same_text_sound k.1 socket,
  same_text_refl socket,
)

module _ (own : Settings) (network : Network) (socket : Text) where
  -- A flush only takes packets away.
  flushes-All :
      (P : ReceivedPacket → Type 0) (keys : List ConnectionKey) (p : P2p)
      → All P p.receive_queue
      → All P (foldl (say_closed_flush own network socket) p keys).receive_queue
  unfolding say_closed_flush say_closed flush_packets queue_event send_p2p
  flushes-All P [] p all = all
  flushes-All P (key ∷ keys) p all =
      flushes-All P keys _
        (All-flush_queue P P key.0 socket (λ packet stays h. h) p.receive_queue all)

  -- No packet of a connection that was closed is left.
  flushes_apart :
      (keys : List ConnectionKey) (p : P2p)
      → All (λ k. on_socket socket k ≡ true) keys
      → All
          (λ packet. among (key_of packet) keys ≡ false)
          (foldl (say_closed_flush own network socket) p keys).receive_queue
  unfolding among say_closed_flush say_closed flush_packets queue_event send_p2p
  flushes_apart [] p all = always p.receive_queue
    where
      always : (queue : List ReceivedPacket) → All (λ packet. ◌≡◌ {A = Bool} false false) queue
      always [] = tt
      always (packet ∷ queue) = (refl, always queue)
  flushes_apart (key ∷ keys) p all =
      both (foldl (say_closed_flush own network socket) _ keys).receive_queue
        (flushes-All (λ packet. connection_key.same key (key_of packet) ≡ false) keys _
          (All-flush_queue Anything (λ packet. connection_key.same key (key_of packet) ≡ false)
            key.0 socket (λ packet stays h. apart packet stays) p.receive_queue
            (anything p.receive_queue)))
        (flushes_apart keys _ all.1)
    where
      Anything : ReceivedPacket → Type 0
      Anything packet = Unit {0}

      anything : (queue : List ReceivedPacket) → All Anything queue
      anything [] = tt
      anything (packet ∷ queue) = (tt, anything queue)

      apart :
          (packet : ReceivedPacket)
          → concerns key.0 socket (key_of packet) ≡ false
          → connection_key.same key (key_of packet) ≡ false
      apart packet stays = elim (Bool-cases (connection_key.same key (key_of packet))) [
        | inl e ↦ absurd (cc (sym stays ∙ same→concerns key (key_of packet) socket all.0 e))
        | inr n ↦ n
      ]

      both :
          (queue : List ReceivedPacket)
          → All (λ packet. connection_key.same key (key_of packet) ≡ false) queue
          → All (λ packet. among (key_of packet) keys ≡ false) queue
          → All (λ packet. among (key_of packet) (key ∷ keys) ≡ false) queue
      both [] a b = tt
      both (packet ∷ queue) a b = (ground (arith, a.0, b.0), both queue a.1 b.1)

  left-Openly :
      (m : Connections) (queue : List ReceivedPacket)
      → All (Openly m) queue
      → All (λ packet. among (key_of packet) (picked (on_socket socket) m) ≡ false) queue
      → All (Openly (unpicked (on_socket socket) m)) queue
  left-Openly m [] a b = tt
  left-Openly m (packet ∷ queue) a b = (
    rw (find-unpicked (on_socket socket) (key_of packet) m)
        (elim (Bool-cases (on_socket socket (key_of packet))) [
          | inl e ↦ absurd (cc (sym b.0 ∙ among-picked (on_socket socket) (key_of packet) m a.0 e))
          | inr n ↦ rw n a.0
        ]),
    left-Openly m queue a.1 b.1,
  )

  pub close_on-Fine :
      (l r : ConnectionKey → Bool) (p : P2p) → Fine l r p → Fine l r (close_on own network socket p)
  unfolding close_on
  close_on-Fine l r p h =
      let keys = picked (on_socket socket) p.connections in
      record {
        agreed = unpicked-Agreed l r (on_socket socket) p.connections h.agreed;
        queued =
            left-Openly p.connections _ (flushes-All (Openly p.connections) keys p h.queued)
              (flushes_apart keys p (picked_all (on_socket socket) p.connections));
      }

removed-Openly :
    (key : ConnectionKey) (m : Connections) (packet : ReceivedPacket)
    → concerns key.0 key.1 (key_of packet) ≡ false
    → Openly m packet
    → Openly (remove key m) packet
unfolding concerns
removed-Openly key m packet stays h =
    rw (find-remove key (key_of packet) m)
      (elim (Bool-cases (connection_key.same key (key_of packet))) [
        | inl e ↦ absurd (
            ground (
              arith,
              stays,
              connection_key.same_sound key (key_of packet) e,
              same_text_refl packet.peer,
              same_text_refl packet.socket,
            ))
        | inr n ↦ rw n h
      ])

pub on_close-Fine :
    (l r : ConnectionKey → Bool) (key : ConnectionKey) (o : Option Connection) (p : P2p)
    → Fine l r p
    → Fine l r (on_close key o p)
unfolding on_close queue_event flush_packets
on_close-Fine l r key none p h = h
on_close-Fine l r key (some entry) p h = record {
  agreed = remove-Agreed l r key p.connections h.agreed;
  queued =
      All-flush_queue (Openly p.connections) (Openly (remove key p.connections)) key.0 key.1
        (removed-Openly key p.connections) p.receive_queue h.queued;
}
