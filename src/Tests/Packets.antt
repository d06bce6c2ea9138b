-- ===== src/Tests/Packets.antt =====
-- Two games that send packets to each other.
use eos_reimagined.Base.{ℕ, ◌≡◌, refl, true, false, some, List, [], ◌∷◌, arith, All, map}
use eos_reimagined.Base.Int.{pos}
use eos_reimagined.Base.Dict.{find}
use eos_reimagined.Eos.{Settings}
use eos_reimagined.P2p.{
  Network, SocketId, socket_id_is_valid, P2p, sdk_p2p, key_of, connection_key, ReceivedPacket,
  p2p_data, p2p_connect_response,
}
use eos_reimagined.P2p.Calls.{Delivers, IsCarried, P2pCall, call_send, call_message, called_all}
use eos_reimagined.P2p.Packets.{set_packet_queue_size}
use eos_reimagined.P2p.Connections.{ConnectionOptions}
use eos_reimagined.P2p.Exchange.{reliably}
use eos_reimagined.P2p.Exchange.Heard.{mail}
use eos_reimagined.P2p.Consent.{has_open, local_yes, remote_yes, any_call, packets_consented}
use eos_reimagined.P2p.Limits.{Within, queue_limits_hold}
use eos_reimagined.P2p.Order.{receive_until, whole, packets_on, packets_off, receive_until_lem}

abbrev ann : Settings
ann = record { product_user_id = b'a' ∷ []; product_id = b'g' ∷ [] }

abbrev bob : Settings
bob = record { product_user_id = b'b' ∷ []; product_id = b'g' ∷ [] }

abbrev no_datagrams : Network
no_datagrams = record { carries = λ sent peer payload. false; drops = λ sent message. false }

abbrev voice : SocketId
voice = record { api_version = pos 1; socket_name = b'v' ∷ b'o' ∷ 0 ∷ [] }

voice_valid : socket_id_is_valid (some voice) ≡ true
unfolding socket_id_is_valid
voice_valid = refl

-- Two packets, on the channels 3 and 4.
abbrev first_packet : ℕ × List ℕ
first_packet = (3, 10 ∷ 11 ∷ [])

abbrev second_packet : ℕ × List ℕ
second_packet = (4, 12 ∷ [])

abbrev bob_accepts : ConnectionOptions
bob_accepts = record {
  api_version = pos 1;
  local_user = some bob.product_user_id;
  remote_user = some ann.product_user_id;
  socket_id = some voice;
}

-- `ann` sends two packets, `bob` agrees, and sends one himself, which `ann` does not look at.
abbrev calls : List P2pCall
calls =
    call_send no_datagrams
      (some (reliably ann.product_user_id bob.product_user_id voice first_packet))
    ∷ call_send no_datagrams
        (some (reliably ann.product_user_id bob.product_user_id voice second_packet))
    ∷ call_message no_datagrams
        (mail bob ann no_datagrams voice voice_valid refl refl p2p_connect_response 0 [])
    ∷ call_message no_datagrams
        (mail bob ann no_datagrams voice voice_valid refl refl p2p_data 7 (1 ∷ 2 ∷ []))
    ∷ []

no_drop : IsCarried no_datagrams
no_drop sent message = refl

calls_delivered : All Delivers calls
calls_delivered = (no_drop, (no_drop, (no_drop, (no_drop, tt))))

packets_consented_example :
    let p = called_all ann calls sdk_p2p in
    All
      (λ packet.
        (has_open (find (key_of packet) p.connections) ≡ true)
        × (any_call (local_yes ann (key_of packet)) calls ≡ true)
        × (any_call (remote_yes ann (key_of packet)) calls ≡ true))
      p.receive_queue
packets_consented_example = packets_consented ann calls calls_delivered

queue_limits_hold_example :
    Within 4000 4000 (called_all ann calls (set_packet_queue_size (pos 1) 4000 4000 sdk_p2p).1)
queue_limits_hold_example =
    queue_limits_hold ann 4000 4000 (omega arith) (omega arith) (omega arith) (omega arith) calls
      (refl, (refl, (refl, (refl, tt)))) calls_delivered

-- Two packets on channel 3 with one on channel 4 between them.
abbrev queue : List ReceivedPacket
queue =
    record { peer = bob.product_user_id; socket = b'v' ∷ []; channel = 3; packet = 1 ∷ [] }
    ∷ record { peer = bob.product_user_id; socket = b'v' ∷ []; channel = 4; packet = 2 ∷ [] }
    ∷ record { peer = bob.product_user_id; socket = b'v' ∷ []; channel = 3; packet = 3 ∷ [] }
    ∷ []

abbrev loaded : P2p
loaded = record sdk_p2p { receive_queue = queue }

receive_until_example : receive_until ann.product_user_id 64 (some 3) 4 loaded ≡ (
  map whole (packets_on (some 3) queue),
  record loaded { receive_queue = packets_off (some 3) queue },
)
receive_until_example =
    receive_until_lem ann.product_user_id 64 (some 3) 4 loaded (omega arith) (omega arith)
