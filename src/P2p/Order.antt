-- ===== src/P2p/Order.antt =====
-- `receive_packet` of src/interfaces/p2p.cpp called until nothing is found.
use mathlib.Core.Path.{subst}
use eos_reimagined.Base.{
  ℕ, zero, suc, ◌≤◌, ◌<◌, ◌%◌, ◌^◌, Option, none, some, List, [], ◌∷◌, length, take, ltb, map, ◌≡◌,
  ◌==◌, refl, sym, ◌∙◌, ap, arith, if◌then◌else◌, Bool-cases, inl, inr, All,
}
use eos_reimagined.Base.Int.{pos}
use eos_reimagined.Base.Texts.{same_text_refl}
use eos_reimagined.ByteBuffer.{Text}
use eos_reimagined.Eos.{EosResult}
use eos_reimagined.P2p.{ReceivedPacket, P2p}
use eos_reimagined.P2p.Packets.{
  ReceivePacketOptions, Delivered, receive_packet, next_packet, hand_over, on_channel,
}

-- The packets on a channel, or all if none is asked for, and the others, each in order.
pub packets_on : Option ℕ → List ReceivedPacket → List ReceivedPacket
packets_on none queue = queue
packets_on (some channel) [] = []
packets_on (some channel) (packet ∷ queue) =
    let more = packets_on (some channel) queue in
    if packet.channel == channel then packet ∷ more else more

pub packets_off : Option ℕ → List ReceivedPacket → List ReceivedPacket
packets_off none queue = []
packets_off (some channel) [] = []
packets_off (some channel) (packet ∷ queue) =
    let more = packets_off (some channel) queue in
    if packet.channel == channel then more else packet ∷ more

-- The test of the code picks them.
packets_on-cons :
    (requested : Option ℕ) (packet : ReceivedPacket) (queue : List ReceivedPacket)
    → packets_on requested (packet ∷ queue) ≡ (
        if on_channel requested packet
        then packet ∷ packets_on requested queue
        else packets_on requested queue)
unfolding packets_on on_channel
packets_on-cons none packet queue = refl
packets_on-cons (some channel) packet queue = refl

packets_off-cons :
    (requested : Option ℕ) (packet : ReceivedPacket) (queue : List ReceivedPacket)
    → packets_off requested (packet ∷ queue) ≡ (
        if on_channel requested packet
        then packets_off requested queue
        else packet ∷ packets_off requested queue)
unfolding packets_off on_channel
packets_off-cons none packet queue = refl
packets_off-cons (some channel) packet queue = refl

packets_on-empty : (requested : Option ℕ) → packets_on requested [] ≡ []
unfolding packets_on
packets_on-empty none = refl
packets_on-empty (some channel) = refl

packets_off-empty : (requested : Option ℕ) → packets_off requested [] ≡ []
unfolding packets_off
packets_off-empty none = refl
packets_off-empty (some channel) = refl

abbrev pub whole : ReceivedPacket → Delivered
whole packet = record {
  peer = packet.peer;
  socket = packet.socket;
  channel = packet.channel;
  packet = packet.packet;
  bytes_written = length packet.packet;
}

abbrev pub asking : Text → ℕ → Option ℕ → ReceivePacketOptions
asking own room requested = record {
  api_version = pos 2;
  local_user = some own;
  max_data_size_bytes = room;
  requested_channel = requested;
}

module _ (own : Text) (room : ℕ) (requested : Option ℕ) where
  -- A call that finds nothing ends the loop.
  gathered : List Delivered × P2p → EosResult × Option Delivered × P2p → List Delivered × P2p
  gathered (more, left) (code, none, p) = ([], p)
  gathered (more, left) (code, some packet, p) = (packet ∷ more, left)

  pub receive_until : ℕ → P2p → List Delivered × P2p
  receive_until zero p = ([], p)
  receive_until (suc rounds) p =
      let answer = receive_packet own (some (asking own room requested)) p in
      gathered (receive_until rounds answer.2) answer

  abbrev Small : ReceivedPacket → Type 0
  Small packet = (length packet.packet ≤ room) × (length packet.packet < 2 ^ 32)

  no_more :
      (queue : List ReceivedPacket)
      → (next_packet requested queue).0 ≡ none
      → (packets_on requested queue ≡ []) × (packets_off requested queue ≡ queue)
  unfolding next_packet
  no_more [] h = (packets_on-empty requested, packets_off-empty requested)
  no_more (packet ∷ queue) h = elim (Bool-cases (on_channel requested packet)) [
    | inl e ↦ absurd (cc (rw e at h))
    | inr n ↦
        let rest = no_more queue (rw n at h) in
        rw (packets_on-cons requested packet queue, packets_off-cons requested packet queue, n)
          (rest.0, ap (◌∷◌ packet) rest.1)
  ]

  found_next :
      (queue : List ReceivedPacket) (packet : ReceivedPacket)
      → (next_packet requested queue).0 ≡ some packet
      → (packets_on requested queue ≡ packet ∷ packets_on requested (next_packet requested queue).1)
        × (packets_off requested queue ≡ packets_off requested (next_packet requested queue).1)
        × (length queue ≡ suc (length (next_packet requested queue).1))
  unfolding next_packet
  found_next [] packet h = absurd (cc h)
  found_next (first ∷ queue) packet h = elim (Bool-cases (on_channel requested first)) [
    | inl e ↦
        let same : first ≡ packet = ground (arith, rw e at h) in
        rw (packets_on-cons requested first queue, packets_off-cons requested first queue, e)
          (ap (λ (f : ReceivedPacket). f ∷ packets_on requested queue) same, refl, refl)
    | inr n ↦
        let rest = found_next queue packet (rw n at h) in
        let after = (next_packet requested queue).1 in
        rw (packets_on-cons requested first queue, packets_off-cons requested first queue, n)
          (
            rest.0 ∙ ap (◌∷◌ packet) (sym (packets_on-cons requested first after ∙ rw n refl)),
            ap (◌∷◌ first) rest.1 ∙ sym (packets_off-cons requested first after ∙ rw n refl),
            omega (arith, rest.2),
          )
  ]

  found_Small :
      (P : ReceivedPacket → Type 0) (queue : List ReceivedPacket) (packet : ReceivedPacket)
      → (next_packet requested queue).0 ≡ some packet
      → All P queue
      → P packet × All P (next_packet requested queue).1
  unfolding next_packet
  found_Small P [] packet h all = absurd (cc h)
  found_Small P (first ∷ queue) packet h all = elim (Bool-cases (on_channel requested first)) [
    | inl e ↦
        let same : first ≡ packet = ground (arith, rw e at h) in rw e (subst P same all.0, all.1)
    | inr n ↦
        let rest = found_Small P queue packet (rw n at h) all.1 in rw n (rest.0, (all.0, rest.1))
  ]

  take_all : {A : Type 0} (xs : List A) → take (length xs) xs ≡ xs
  take_all [] = refl
  take_all (x ∷ xs) = ap (◌∷◌ x) (take_all xs)

  handed :
      (p : P2p)
      → receive_packet own (some (asking own room requested)) p
        ≡ hand_over room p (next_packet requested p.receive_queue)
  unfolding receive_packet
  handed p = rw (same_text_refl own)

  handed_whole :
      (p : P2p) (packet : ReceivedPacket) (rest : List ReceivedPacket)
      → Small packet
      → hand_over room p (some packet, rest)
        ≡ (EosResult.success, some (whole packet), record p { receive_queue = rest })
  unfolding hand_over
  handed_whole p packet rest h =
      let copied : (if ltb (length packet.packet) room then length packet.packet else room)
          ≡ length packet.packet =
        ground arith in
      let short : length packet.packet % 2 ^ 32 ≡ length packet.packet = omega arith in
      rw (copied, take_all packet.packet, short)

  -- Calls of the local user (of version 2) with room for every packet that waits, each shorter than
  -- 2 ^ 32 bytes, more calls than packets, until nothing is found: they give each packet on the channel that is asked for (or all, if none is) once, in
  -- the order in which they came, whole; the packets on other channels stay, in order, and nothing else
  -- changes.
  pub receive_until_lem :
      (rounds : ℕ) (p : P2p)
      → length p.receive_queue < rounds
      → All Small p.receive_queue
      → receive_until rounds p ≡ (
        map whole (packets_on requested p.receive_queue),
        record p { receive_queue = packets_off requested p.receive_queue },
      )
  unfolding receive_until gathered
  receive_until_lem zero p h all = absurd (omega (arith, h))
  receive_until_lem (suc rounds) p h all =
      rw (handed p)
        (by_next (receive_until_lem rounds) (next_packet requested p.receive_queue) refl)
    where
      Gives : P2p → List Delivered × P2p → Type 0
      Gives q given = given ≡ (
        map whole (packets_on requested q.receive_queue),
        record q { receive_queue = packets_off requested q.receive_queue },
      )

      by_next :
          ((q : P2p)
            → length q.receive_queue < rounds
            → All Small q.receive_queue
            → Gives q (receive_until rounds q))
          → (next : Option ReceivedPacket × List ReceivedPacket)
          → next_packet requested p.receive_queue ≡ next
          → Gives p
              (gathered (receive_until rounds (hand_over room p next).2) (hand_over room p next))
      by_next ih (none, rest) e =
          let none_left =
            no_more p.receive_queue
              (ap (λ (t : Option ReceivedPacket × List ReceivedPacket). t.0) e) in
          unfold hand_over in rw (none_left.0, none_left.1)
      by_next ih (some packet, rest) e =
          let at : (next_packet requested p.receive_queue).0 ≡ some packet =
            ap (λ (t : Option ReceivedPacket × List ReceivedPacket). t.0) e in
          let tail : (next_packet requested p.receive_queue).1 ≡ rest =
            ap (λ (t : Option ReceivedPacket × List ReceivedPacket). t.1) e in
          let found = found_next p.receive_queue packet at in
          let small = found_Small Small p.receive_queue packet at all in
          let shorter : length rest < rounds = omega (arith, h, found.2, ap length tail) in
          rw (
            handed_whole p packet rest small.0,
            ih (record p { receive_queue = rest }) shorter (rw tail at (small.1)),
            found.0,
            found.1,
            tail,
          )
