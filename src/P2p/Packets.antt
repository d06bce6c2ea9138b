-- ===== src/P2p/Packets.antt =====
-- Packets of `sdk_p2p` (src/interfaces/p2p.cpp): `send_packet`, `receive_packet`, and the queues that
-- hold what is not sent or received yet.
use eos_reimagined.Base.{
  ℕ, ◌+◌, ◌%◌, ◌^◌, Bool, true, false, not, ◌&&◌, ◌||◌, Option, none, some, List, [], ◌∷◌, ◌++◌,
  length, take, ltb, ◌==◌, if◌then◌else◌,
}
use eos_reimagined.Base.Int.{ℤ, pos, leb_ℤ}
use eos_reimagined.Base.Dict.{find, put, modify}
use eos_reimagined.ByteBuffer.{Text}
use eos_reimagined.Eos.{
  EosResult, success, no_connection, invalid_user, invalid_parameters, limit_exceeded, not_found,
  incompatible_version, Settings, version_is_supported, is_user,
}
use eos_reimagined.P2p.{
  Network, SocketId, socket_name_of, socket_id_is_valid, ReceivedPacket, ConnectionState,
  connection_pending, connection_open, connection_requested, DelayedPacket, Connection,
  ConnectionKey, Connections, connection_key, P2p, concerns, flush_packets, incoming_queued_bytes,
  outgoing_queued_bytes, send_p2p, p2p_connect_request, p2p_data, max_packet_size,
  max_queue_size_unlimited,
}

-- `EOS_P2P_SendPacketOptions`. What a shorter struct of an older version lacks is not read.
pub record SendPacketOptions : Type 0 where
  pub api_version : ℤ
  pub local_user : Option Text
  pub remote_user : Option Text
  pub socket_id : Option SocketId
  pub channel : ℕ
  pub data_length_bytes : ℕ
  pub packet : Option (List ℕ)
  pub allow_delayed_delivery : Bool
  pub reliability : ℕ
  pub disable_auto_accept : Bool

-- `EOS_PR_UnreliableUnordered` is 0.
unfoldable pub packet_must_arrive : SendPacketOptions → Bool
packet_must_arrive o = if leb_ℤ (pos 2) o.api_version then not (o.reliability == 0) else true

unfoldable pub declines_connection : SendPacketOptions → Bool
declines_connection o = leb_ℤ (pos 3) o.api_version && o.disable_auto_accept

unfoldable pub is_null : Option (List ℕ) → Bool
is_null none = true
is_null (some bytes) = false

abbrev pub bytes_of : Option (List ℕ) → List ℕ
bytes_of none = []
bytes_of (some bytes) = bytes

unfoldable pub socket_of : Option SocketId → Text
socket_of none = []
socket_of (some socket) = socket_name_of socket

-- The limit is that of the game, which an unlimited queue does not have.
unfoldable pub exceeds : ℕ → ℕ → Bool
exceeds max total = not (max == max_queue_size_unlimited) && ltb max total

unfoldable pub is_open : ConnectionState → Bool
is_open connection_open = true
is_open connection_pending = false
is_open connection_requested = false

abbrev pub new_connection : ConnectionState → Connection
new_connection state = record { state = state; delayed = [] }

module _ (own : Settings) (network : Network) where
  -- A packet for a connection that is not open is held if the game wants that, and the queue has room.
  unfoldable pub hold : ConnectionKey → Connection → DelayedPacket → P2p → EosResult × P2p
  unfolding exceeds
  hold key entry waiting p =
      let total = (outgoing_queued_bytes p + length waiting.packet) % 2 ^ 64 in
      if exceeds p.outgoing_queue_max_bytes total then (limit_exceeded, p) else (
        success,
        record p {
          connections =
              modify key (record entry { delayed = entry.delayed ++ waiting ∷ [] }) p.connections;
        },
      )

  unfoldable pub send_through :
      SendPacketOptions → ConnectionKey → Connection → P2p → EosResult × P2p
  unfolding hold is_open packet_must_arrive
  send_through o key entry p =
      let packet = take o.data_length_bytes (bytes_of o.packet) in
      let reliable = packet_must_arrive o in
      if is_open entry.state
      then (success, send_p2p own network p2p_data key o.channel packet reliable p)
      else if not o.allow_delayed_delivery
      then (success, p)
      else hold key entry (record { packet = packet; channel = o.channel; reliable = reliable }) p

  unfoldable pub send_on :
      SendPacketOptions → ConnectionKey → Option Connection → P2p → EosResult × P2p
  unfolding send_through declines_connection
  send_on o key (some entry) p = send_through o key entry p
  send_on o key none p =
      if declines_connection o
      then (no_connection, p)
      else let entry = new_connection connection_pending in
        send_through o key entry (
          send_p2p own network p2p_connect_request key 0 [] true
            (record p { connections = put key entry p.connections }))

  unfoldable pub send_for : SendPacketOptions → Option Text → P2p → EosResult × P2p
  unfolding send_on socket_of
  send_for o none p = (invalid_user, p)
  send_for o (some remote) p =
      let key : ConnectionKey = (remote, socket_of o.socket_id) in
      if not (is_user own.product_user_id o.local_user)
      then (invalid_user, p)
      else if ltb max_packet_size o.data_length_bytes
      then (limit_exceeded, p)
      else send_on o key (find key p.connections) p

  unfoldable pub send_packet : Option SendPacketOptions → P2p → EosResult × P2p
  unfolding send_for is_null socket_id_is_valid
  send_packet none p = (invalid_parameters, p)
  send_packet (some o) p =
      if not (version_is_supported o.api_version (pos 3))
        || not (socket_id_is_valid o.socket_id)
        || ltb 0 o.data_length_bytes && is_null o.packet
      then (invalid_parameters, p)
      else send_for o o.remote_user p

-- `EOS_P2P_GetNextReceivedPacketSizeOptions`; of `EOS_P2P_ReceivePacketOptions` also the size of the
-- buffer.
pub record ReceivePacketOptions : Type 0 where
  pub api_version : ℤ
  pub local_user : Option Text
  pub max_data_size_bytes : ℕ
  pub requested_channel : Option ℕ

-- A channel that the struct is too old to name is not read.
abbrev pub requested_channel_of : ReceivePacketOptions → Option ℕ
requested_channel_of o = if leb_ℤ (pos 2) o.api_version then o.requested_channel else none

unfoldable pub on_channel : Option ℕ → ReceivedPacket → Bool
on_channel none packet = true
on_channel (some channel) packet = packet.channel == channel

-- The first packet on the channel, and the queue without it.
unfoldable pub next_packet :
    Option ℕ → List ReceivedPacket → Option ReceivedPacket × List ReceivedPacket
unfolding on_channel
next_packet requested [] = (none, [])
next_packet requested (packet ∷ queue) =
    let (found, rest) = next_packet requested queue in
    if on_channel requested packet then (some packet, queue) else (found, packet ∷ rest)

unfoldable pub first_size : Option ℕ → List ReceivedPacket → Option ℕ
unfolding on_channel
first_size requested [] = none
first_size requested (packet ∷ queue) =
    let later = first_size requested queue in
    if on_channel requested packet then some (length packet.packet % 2 ^ 32) else later

-- What the caller's out parameters are set to.
pub record Delivered : Type 0 where
  pub peer : Text
  pub socket : Text
  pub channel : ℕ
  pub packet : List ℕ
  pub bytes_written : ℕ

unfoldable pub size_answer : Option ℕ → EosResult × Option ℕ
size_answer none = (not_found, none)
size_answer (some size) = (success, some size)

-- The out parameters of both calls are not null.
unfoldable pub get_next_received_packet_size :
    Text → Option ReceivePacketOptions → P2p → EosResult × Option ℕ
unfolding size_answer first_size
get_next_received_packet_size own none p = (invalid_parameters, none)
get_next_received_packet_size own (some o) p =
    if not (version_is_supported o.api_version (pos 2))
    then (invalid_parameters, none)
    else if not (is_user own o.local_user)
    then (invalid_user, none)
    else size_answer (first_size (requested_channel_of o) p.receive_queue)

unfoldable pub hand_over :
    ℕ → P2p → Option ReceivedPacket × List ReceivedPacket → EosResult × Option Delivered × P2p
hand_over room p (none, queue) = (not_found, none, p)
hand_over room p (some packet, queue) =
    let copied = if ltb (length packet.packet) room then length packet.packet else room in
    (
      success,
      some (record {
        peer = packet.peer;
        socket = packet.socket;
        channel = packet.channel;
        packet = take copied packet.packet;
        bytes_written = copied % 2 ^ 32;
      }),
      record p { receive_queue = queue },
    )

unfoldable pub receive_packet :
    Text → Option ReceivePacketOptions → P2p → EosResult × Option Delivered × P2p
unfolding hand_over next_packet
receive_packet own none p = (invalid_parameters, none, p)
receive_packet own (some o) p =
    if not (version_is_supported o.api_version (pos 2))
    then (invalid_parameters, none, p)
    else if not (is_user own o.local_user)
    then (invalid_user, none, p)
    else hand_over o.max_data_size_bytes p (next_packet (requested_channel_of o) p.receive_queue)

-- `EOS_P2P_ClearPacketQueueOptions`
pub record ClearPacketQueueOptions : Type 0 where
  pub api_version : ℤ
  pub local_user : Option Text
  pub remote_user : Option Text
  pub socket_id : Option SocketId

unfoldable pub discard_in : Text → Text → Connections → Connections
discard_in peer socket [] = []
discard_in peer socket ((key, entry) ∷ rest) =
    let more = discard_in peer socket rest in
    if concerns peer socket key
    then (key, record entry { delayed = [] }) ∷ more
    else (key, entry) ∷ more

unfoldable pub discard_delayed : Text → Text → P2p → P2p
unfolding discard_in
discard_delayed peer socket p = record p { connections = discard_in peer socket p.connections }

unfoldable pub clear_packet_queue : Text → Option ClearPacketQueueOptions → P2p → EosResult × P2p
unfolding discard_delayed socket_of
clear_packet_queue own none p = (invalid_parameters, p)
clear_packet_queue own (some o) p =
    let peer = bytes_of o.remote_user in
    let socket = socket_of o.socket_id in
    if not (version_is_supported o.api_version (pos 1))
    then (incompatible_version, p)
    else if not (is_user own o.local_user)
    then (invalid_user, p)
    else (success, discard_delayed peer socket (flush_packets peer socket p))

-- `EOS_P2P_PacketQueueInfo`
pub record PacketQueueInfo : Type 0 where
  pub incoming_max_size : ℕ
  pub incoming_current_size : ℕ
  pub incoming_current_count : ℕ
  pub outgoing_max_size : ℕ
  pub outgoing_current_size : ℕ
  pub outgoing_current_count : ℕ

unfoldable pub outgoing_count : Connections → ℕ
outgoing_count [] = 0
outgoing_count ((key, entry) ∷ rest) = length entry.delayed + outgoing_count rest

unfoldable pub get_packet_queue_info : P2p → PacketQueueInfo
unfolding outgoing_count
get_packet_queue_info p = record {
  incoming_max_size = p.incoming_queue_max_bytes;
  incoming_current_size = incoming_queued_bytes p;
  incoming_current_count = length p.receive_queue;
  outgoing_max_size = p.outgoing_queue_max_bytes;
  outgoing_current_size = outgoing_queued_bytes p;
  outgoing_current_count = outgoing_count p.connections;
}

-- `set_packet_queue_size` of options that are not null.
unfoldable pub set_packet_queue_size : ℤ → ℕ → ℕ → P2p → EosResult × P2p
set_packet_queue_size version incoming outgoing p =
    if not (version_is_supported version (pos 1)) then (invalid_parameters, p) else (
      success,
      record p { incoming_queue_max_bytes = incoming; outgoing_queue_max_bytes = outgoing },
    )
