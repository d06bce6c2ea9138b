-- ===== src/P2p/Tables.antt =====
-- What the parts of `sdk_p2p` do to the table of connections and to the queue of received packets.
use mathlib.Core.Option
use eos_reimagined.Base.{
  Bool, false, none, List, [], ◌∷◌, All, ◌≡◌, refl, arith, if◌then◌else◌, Bool-cases, inl, inr,
}
use eos_reimagined.Base.Dict.{find, modify}
use eos_reimagined.ByteBuffer.{Text}
use eos_reimagined.Eos.{Settings}
use eos_reimagined.P2p.{
  Network, Connection, ConnectionKey, Connections, connection_key, connection_open, DelayedPacket,
  ReceivedPacket, key_of, P2p, concerns, flush_queue, send_held, opened, unpicked,
}
use eos_reimagined.P2p.Packets.{discard_in}

-- The connection that stays under a key.
pub find-unpicked :
    (test : ConnectionKey → Bool) (key : ConnectionKey) (m : Connections)
    → find key (unpicked test m) ≡ (if test key then none else find key m)
unfolding find unpicked
find-unpicked test key [] = ground arith
find-unpicked test key ((k, entry) ∷ rest) =
    ground (arith, find-unpicked test key rest, connection_key.same_sound k key)

-- A connection without what it held.
abbrev pub emptied : Connection → Connection
emptied entry = record entry { delayed = [] }

pub find-discard_in :
    (peer socket : Text) (key : ConnectionKey) (m : Connections)
    → find key (discard_in peer socket m)
      ≡ (if concerns peer socket key then Option.map emptied (find key m) else find key m)
unfolding find discard_in
find-discard_in peer socket key [] = ground arith
find-discard_in peer socket key ((k, entry) ∷ rest) =
    ground (arith, find-discard_in peer socket key rest, connection_key.same_sound k key)

-- What is said of every packet stays true of those that are left by a flush.
module _ (P Q : ReceivedPacket → Type 0) (peer socket : Text) where
  pub All-flush_queue :
      ((packet : ReceivedPacket)
        → concerns peer socket (key_of packet) ≡ false
        → P packet
        → Q packet)
      → (queue : List ReceivedPacket) → All P queue
      → All Q (flush_queue peer socket queue)
  unfolding flush_queue
  All-flush_queue h [] all = tt
  All-flush_queue h (packet ∷ queue) all =
      let rest = All-flush_queue h queue all.1 in
      elim (Bool-cases (concerns peer socket (key_of packet))) [
        | inl gone ↦ rw gone rest
        | inr stays ↦ rw stays (h packet stays all.0, rest)
      ]

-- Sending what was held changes nothing but what is sent.
module _ (own : Settings) (network : Network) (key : ConnectionKey) where
  pub send_held-same :
      (held : List DelayedPacket) (p : P2p)
      → ((send_held own network key held p).connections ≡ p.connections)
        × ((send_held own network key held p).receive_queue ≡ p.receive_queue)
  unfolding send_held
  send_held-same [] p = (refl, refl)
  send_held-same (packet ∷ held) p = send_held-same held _

  pub opened-connections :
      (entry : Connection) (p : P2p)
      → (opened own network key entry p).connections
        ≡ modify key (record { state = connection_open; delayed = [] }) p.connections
  unfolding opened
  opened-connections entry p = rw ((send_held-same entry.delayed _).0)

  pub opened-receive_queue :
      (entry : Connection) (p : P2p)
      → (opened own network key entry p).receive_queue ≡ p.receive_queue
  unfolding opened
  opened-receive_queue entry p = (send_held-same entry.delayed _).1
