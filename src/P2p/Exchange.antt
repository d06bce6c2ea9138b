-- ===== src/P2p/Exchange.antt =====
-- Two interfaces that open a connection by the game's sending on one side and its accepting on the other:
-- what was sent before the peer agreed reaches the other game, in order. The mesh network the envelopes.
mod Held
pub mod Heard
pub use Held.{Packet, IsPacket, reliably, send_each}
use eos_reimagined.Base.{
  ℕ, zero, suc, ◌≤◌, ◌<◌, Bool, true, false, not, ◌&&◌, ◌||◌, Option, some, [], length, ltb, ◌≡◌,
  arith, if◌then◌else◌, ◌==◌,
}
use eos_reimagined.Base.Int.{ℤ, pos}
use eos_reimagined.Base.Texts.{same_text, is_empty}
use eos_reimagined.Base.Dict.{modify}
use eos_reimagined.ByteBuffer.{Text}
use eos_reimagined.Wire.Peer.{NetEnvelope}
use eos_reimagined.Eos.{Settings, EosResult, success}
use eos_reimagined.P2p.{
  Network, SocketId, socket_name_of, socket_id_is_valid, ReceivedPacket, connection_pending,
  DelayedPacket, Connection, ConnectionKey, Outgoing, envelope, P2p, p2p_connect_request,
  p2p_connect_response, p2p_data,
}
use eos_reimagined.P2p.Connections.{ConnectionOptions, accept_connection}
use eos_reimagined.P2p.Inbound.{on_network_message}
use eos_reimagined.P2p.Tables.{opened-connections, opened-receive_queue}
use Heard.{mail, packet_mail}
use Held.{IsWaiting}

-- What holds of two sides that have not met: the ids differ and are not empty.
module _ (a b : Settings) (by_a by_b : Network) (socket : SocketId)
    (valid : socket_id_is_valid (some socket) ≡ true)
    (apart : same_text a.product_user_id b.product_user_id ≡ false)
    (apart' : same_text b.product_user_id a.product_user_id ≡ false)
    (named : is_empty a.product_user_id ≡ false) (named' : is_empty b.product_user_id ≡ false) where
  abbrev to_b : ConnectionKey
  to_b = (b.product_user_id, socket_name_of socket)

  abbrev to_a : ConnectionKey
  to_a = (a.product_user_id, socket_name_of socket)

  -- The game on the other side accepts.
  abbrev accepting : ConnectionOptions
  accepting = record {
    api_version = pos 1;
    local_user = some b.product_user_id;
    remote_user = some a.product_user_id;
    socket_id = some socket;
  }

  -- The envelopes that pass: the request, the answer, and a packet.
  abbrev request : NetEnvelope
  request = mail a b by_b socket valid apart named p2p_connect_request 0 []

  abbrev response : NetEnvelope
  response = mail b a by_a socket valid apart' named' p2p_connect_response 0 []

  abbrev packet_envelope : Packet → Outgoing
  packet_envelope packet = envelope (packet_mail a b by_b socket valid apart named packet)

  -- The side that accepts.
  abbrev after_accept : P2p → P2p
  after_accept q =
      (accept_connection b by_b (some accepting) (on_network_message b by_b request q).1).1

  abbrev after_response : P2p → P2p
  after_response p = (on_network_message a by_a response p).1
