-- ===== src/P2p/Calls.antt =====
-- Any use of a `sdk_p2p`: calls of the game, messages of the mesh, and the shutting down. Each step has its
-- own answers of the router.
use eos_reimagined.Base.{ℕ, false, Option, List, [], ◌∷◌, ◌≡◌}
use eos_reimagined.Base.Int.{ℤ}
use eos_reimagined.Wire.Peer.{NetEnvelope}
use eos_reimagined.Eos.{Settings}
use eos_reimagined.P2p.{Network, Outgoing, P2p, emu_deinit}
use eos_reimagined.P2p.Packets.{
  SendPacketOptions, ReceivePacketOptions, ClearPacketQueueOptions, send_packet, receive_packet,
  clear_packet_queue, set_packet_queue_size,
}
use eos_reimagined.P2p.Connections.{
  ConnectionOptions, accept_connection, close_connection, close_connections,
}
use eos_reimagined.P2p.Inbound.{on_network_message}

pub data P2pCall : Type 0 where
  call_send : Network → Option SendPacketOptions → P2pCall
  call_receive : Option ReceivePacketOptions → P2pCall
  call_clear : Option ClearPacketQueueOptions → P2pCall
  call_limits : ℤ → ℕ → ℕ → P2pCall
  call_accept : Network → Option ConnectionOptions → P2pCall
  call_close : Network → Option ConnectionOptions → P2pCall
  call_close_all : Network → Option ConnectionOptions → P2pCall
  call_message : Network → NetEnvelope → P2pCall
  call_deinit : P2pCall

-- The router drops no peer over what is sent in the call.
abbrev pub IsCarried : Network → Type 0
IsCarried network =
    (sent : List Outgoing) (message : NetEnvelope) → network.drops sent message ≡ false

abbrev pub Delivers : P2pCall → Type 0
Delivers (call_send network o) = IsCarried network
Delivers (call_receive o) = Unit {0}
Delivers (call_clear o) = Unit {0}
Delivers (call_limits version incoming outgoing) = Unit {0}
Delivers (call_accept network o) = IsCarried network
Delivers (call_close network o) = IsCarried network
Delivers (call_close_all network o) = IsCarried network
Delivers (call_message network m) = IsCarried network
Delivers call_deinit = Unit {0}

module _ (own : Settings) where
  unfoldable pub called : P2pCall → P2p → P2p
  called (call_send network o) p = (send_packet own network o p).1
  called (call_receive o) p = (receive_packet own.product_user_id o p).2
  called (call_clear o) p = (clear_packet_queue own.product_user_id o p).1
  called (call_limits version incoming outgoing) p =
      (set_packet_queue_size version incoming outgoing p).1
  called (call_accept network o) p = (accept_connection own network o p).1
  called (call_close network o) p = (close_connection own network o p).1
  called (call_close_all network o) p = (close_connections own network o p).1
  called (call_message network m) p = (on_network_message own network m p).1
  called call_deinit p = emu_deinit p

  unfoldable pub called_all : List P2pCall → P2p → P2p
  unfolding called
  called_all [] p = p
  called_all (c ∷ cs) p = called_all cs (called c p)
