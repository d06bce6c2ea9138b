-- ===== src/P2p/Limits/Sizes.antt =====
-- How many bytes the queues hold, without the wrap-around of the code's `u64`, and what each part does to it.
use eos_reimagined.Base.{
  ℕ, ◌+◌, ◌%◌, ◌^◌, ◌≤◌, ◌<◌, Bool, Option, some, List, [], ◌∷◌, ◌++◌, length, ◌≡◌, ap, arith,
  Bool-cases, inl, inr,
}
use eos_reimagined.Base.Dict.{find, put, modify, remove}
use eos_reimagined.ByteBuffer.{Text}
use eos_reimagined.P2p.{
  Connection, ConnectionKey, Connections, connection_key, DelayedPacket, ReceivedPacket,
  flush_queue, unpicked, queued_from, delayed_from, outgoing_from,
}
use eos_reimagined.P2p.Packets.{discard_in, next_packet}

abbrev pub held_bytes : List ReceivedPacket → ℕ
held_bytes [] = 0
held_bytes (packet ∷ queue) = length packet.packet + held_bytes queue

abbrev pub delayed_bytes : List DelayedPacket → ℕ
delayed_bytes [] = 0
delayed_bytes (packet ∷ more) = length packet.packet + delayed_bytes more

abbrev pub waiting_bytes : Connections → ℕ
waiting_bytes [] = 0
waiting_bytes ((key, entry) ∷ rest) = delayed_bytes entry.delayed + waiting_bytes rest

-- The code's sums are these, as a `u64`.
pub queued_from-held_bytes :
    (total : ℕ) (queue : List ReceivedPacket)
    → total < 2 ^ 64
    → queued_from total queue ≡ (total + held_bytes queue) % 2 ^ 64
unfolding queued_from
queued_from-held_bytes total [] h = omega arith
queued_from-held_bytes total (packet ∷ queue) h =
    omega
      (arith, queued_from-held_bytes ((total + length packet.packet) % 2 ^ 64) queue (omega arith))

pub delayed_from-delayed_bytes :
    (total : ℕ) (delayed : List DelayedPacket)
    → total < 2 ^ 64
    → delayed_from total delayed ≡ (total + delayed_bytes delayed) % 2 ^ 64
unfolding delayed_from
delayed_from-delayed_bytes total [] h = omega arith
delayed_from-delayed_bytes total (packet ∷ more) h =
    omega (
      arith,
      delayed_from-delayed_bytes ((total + length packet.packet) % 2 ^ 64) more (omega arith),
    )

pub outgoing_from-waiting_bytes :
    (total : ℕ) (m : Connections)
    → total < 2 ^ 64
    → outgoing_from total m ≡ (total + waiting_bytes m) % 2 ^ 64
unfolding outgoing_from
outgoing_from-waiting_bytes total [] h = omega arith
outgoing_from-waiting_bytes total ((key, entry) ∷ rest) h =
    let first = delayed_from-delayed_bytes total entry.delayed h in
    omega (
      arith,
      first,
      outgoing_from-waiting_bytes (delayed_from total entry.delayed) rest (omega (arith, first)),
    )

pub held_bytes-append :
    (xs ys : List ReceivedPacket) → held_bytes (xs ++ ys) ≡ held_bytes xs + held_bytes ys
held_bytes-append [] ys = omega arith
held_bytes-append (x ∷ xs) ys = omega (arith, held_bytes-append xs ys)

pub delayed_bytes-append :
    (xs ys : List DelayedPacket) → delayed_bytes (xs ++ ys) ≡ delayed_bytes xs + delayed_bytes ys
delayed_bytes-append [] ys = omega arith
delayed_bytes-append (x ∷ xs) ys = omega (arith, delayed_bytes-append xs ys)

pub held_bytes-flush_queue :
    (peer socket : Text) (queue : List ReceivedPacket)
    → held_bytes (flush_queue peer socket queue) ≤ held_bytes queue
unfolding flush_queue
held_bytes-flush_queue peer socket [] = omega arith
held_bytes-flush_queue peer socket (packet ∷ queue) =
    ground (arith, held_bytes-flush_queue peer socket queue)

pub held_bytes-next_packet :
    (requested : Option ℕ) (queue : List ReceivedPacket)
    → held_bytes (next_packet requested queue).1 ≤ held_bytes queue
unfolding next_packet
held_bytes-next_packet requested [] = omega arith
held_bytes-next_packet requested (packet ∷ queue) =
    ground (arith, held_bytes-next_packet requested queue)

pub waiting_bytes-unpicked :
    (test : ConnectionKey → Bool) (m : Connections)
    → waiting_bytes (unpicked test m) ≤ waiting_bytes m
unfolding unpicked
waiting_bytes-unpicked test [] = omega arith
waiting_bytes-unpicked test ((key, entry) ∷ rest) = ground (arith, waiting_bytes-unpicked test rest)

pub waiting_bytes-remove :
    (at : ConnectionKey) (m : Connections) → waiting_bytes (remove at m) ≤ waiting_bytes m
unfolding remove
waiting_bytes-remove at [] = omega arith
waiting_bytes-remove at ((key, entry) ∷ rest) = ground (arith, waiting_bytes-remove at rest)

pub waiting_bytes-discard_in :
    (peer socket : Text) (m : Connections)
    → waiting_bytes (discard_in peer socket m) ≤ waiting_bytes m
unfolding discard_in
waiting_bytes-discard_in peer socket [] = omega arith
waiting_bytes-discard_in peer socket ((key, entry) ∷ rest) =
    ground (arith, waiting_bytes-discard_in peer socket rest)

pub waiting_bytes-put :
    (at : ConnectionKey) (new : Connection) (m : Connections)
    → waiting_bytes (put at new m) ≤ waiting_bytes m + delayed_bytes new.delayed
unfolding put
waiting_bytes-put at new [] = omega arith
waiting_bytes-put at new ((key, entry) ∷ rest) = ground (arith, waiting_bytes-put at new rest)

pub waiting_bytes-modify :
    (at : ConnectionKey) (new old : Connection) (m : Connections)
    → find at m ≡ some old
    → waiting_bytes (modify at new m) + delayed_bytes old.delayed
      ≡ waiting_bytes m + delayed_bytes new.delayed
unfolding modify find
waiting_bytes-modify at new old [] h = absurd cc
waiting_bytes-modify at new old ((key, entry) ∷ rest) h =
    elim (Bool-cases (connection_key.same key at)) [
      | inl e ↦ let same : entry ≡ old = ground (arith, e, h) in rw (e, ← same) (omega arith)
      | inr n ↦ rw n (omega (arith, waiting_bytes-modify at new old rest (ground (arith, n, h))))
    ]

pub waiting_bytes-modify_less :
    (at : ConnectionKey) (new : Connection) (m : Connections)
    → new.delayed ≡ []
    → waiting_bytes (modify at new m) ≤ waiting_bytes m
unfolding modify
waiting_bytes-modify_less at new [] h = omega arith
waiting_bytes-modify_less at new ((key, entry) ∷ rest) h =
    let none' : delayed_bytes new.delayed ≡ 0 = ap delayed_bytes h in
    ground (arith, waiting_bytes-modify_less at new rest h, none')
