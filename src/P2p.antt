-- ===== src/P2p.antt =====
-- `sdk_p2p` of src/interfaces/p2p.h and p2p.cpp: its state, what it hands to the router, and the parts
-- that its methods share. `Packets` has the sending and receiving of packets, `Connections` how a
-- connection is opened and closed, `Inbound` what a peer's message does, and `Options` the rest.
-- A connection is a peer and a socket name. What went to the router stands in `sent`, in order; a
-- datagram that the router does not carry leaves nothing there. Null pointers are `none`.
mod Keys
pub mod Packets
pub mod Connections
pub mod Inbound
pub mod Calls
pub mod Tables
pub mod Consent
pub mod Limits
pub mod Exchange
pub mod Order
use eos_reimagined.Base.{
  ℕ, zero, suc, ◌+◌, ◌-◌, ◌%◌, ◌^◌, Bool, true, false, not, ◌&&◌, ◌||◌, Option, none, some, List,
  [], ◌∷◌, ◌++◌, length, ltb, leb, ◌==◌, if◌then◌else◌, refl,
}
use eos_reimagined.Base.Assoc.{Assoc}
use eos_reimagined.Base.Int.{ℤ, pos, eq_ℤ}
use eos_reimagined.Base.Texts.{Key, same_text, text_less, is_empty}
use eos_reimagined.Base.Dict.{Dict, modify}
use eos_reimagined.ByteBuffer.{Text}
use eos_reimagined.Eos.{Settings, version_is_supported}
use Keys.{same_key, same_key_refl, same_key_sound}
use eos_reimagined.Wire.Peer.{NetEnvelope, P2pData, serialize_p2p_data}

-- Tags of `message_type`.
abbrev pub p2p_connect_request : ℕ
p2p_connect_request = 20

abbrev pub p2p_connect_response : ℕ
p2p_connect_response = 21

abbrev pub p2p_data : ℕ
p2p_data = 22

abbrev pub p2p_connection_close : ℕ
p2p_connection_close = 24

abbrev pub peer_connected : ℕ
peer_connected = 41

abbrev pub peer_disconnected : ℕ
peer_disconnected = 42

abbrev pub max_packet_size : ℕ
max_packet_size = 1170

abbrev pub socket_name_size : ℕ
socket_name_size = 33

abbrev pub max_queue_size_unlimited : ℕ
max_queue_size_unlimited = 0

-- `EOS_P2P_SocketId`, with the bytes of its buffer.
pub record SocketId : Type 0 where
  pub api_version : ℤ
  pub socket_name : List ℕ

-- The bytes before the first NUL, `max_length` at most.
unfoldable pub bounded_text : ℕ → List ℕ → Text
bounded_text zero bytes = []
bounded_text (suc max_length) [] = []
bounded_text (suc max_length) (b ∷ bytes) =
    let more = bounded_text max_length bytes in if b == 0 then [] else b ∷ more

-- The bytes that a name may hold.
unfoldable pub name_byte : ℕ → Bool
name_byte c =
    leb b'A' c && leb c b'Z'
    || leb b'a' c && leb c b'z'
    || leb b'0' c && leb c b'9'
    || c == b'-'
    || c == b'_'
    || c == b' '
    || c == b'+'
    || c == b'='
    || c == b'.'

unfoldable pub all_name_bytes : Text → Bool
all_name_bytes [] = true
all_name_bytes (c ∷ cs) = name_byte c && all_name_bytes cs

unfoldable pub socket_name_is_valid : Text → Bool
unfolding all_name_bytes name_byte
socket_name_is_valid name =
    if is_empty name || ltb (socket_name_size - 1) (length name) then false else all_name_bytes name

unfoldable pub socket_name_of : SocketId → Text
unfolding bounded_text
socket_name_of socket = bounded_text socket_name_size socket.socket_name

unfoldable pub socket_id_is_valid : Option SocketId → Bool
unfolding socket_name_is_valid socket_name_of
socket_id_is_valid none = false
socket_id_is_valid (some socket) =
    eq_ℤ socket.api_version (pos 1) && socket_name_is_valid (socket_name_of socket)

pub record ReceivedPacket : Type 0 where
  pub peer : Text
  pub socket : Text
  pub channel : ℕ
  pub packet : List ℕ

pub data ConnectionState : Type 0 where
  connection_requested : ConnectionState
  connection_pending : ConnectionState
  connection_open : ConnectionState

pub record DelayedPacket : Type 0 where
  pub packet : List ℕ
  pub channel : ℕ
  pub reliable : Bool

pub record Connection : Type 0 where
  pub state : ConnectionState
  pub delayed : List DelayedPacket

-- The peer and the socket.
abbrev pub ConnectionKey : Type 0
ConnectionKey = Text × Text

instance abbrev pub connection_key : Key ConnectionKey
connection_key = record {
  same = same_key;
  less =
      λ a b. let earlier = same_text a.0 b.0 && text_less a.1 b.1 in text_less a.0 b.0 || earlier;
  same_refl = same_key_refl;
  same_sound = same_key_sound;
}

abbrev pub Connections : Type 0
Connections = Dict ConnectionKey Connection

pub data EventKind : Type 0 where
  request : EventKind
  established : EventKind
  interrupted : EventKind
  closed : EventKind

-- Those of `EOS_EConnectionClosedReason` that are used.
pub data ClosedReason : Type 0 where
  unknown : ClosedReason
  closed_by_local_user : ClosedReason
  closed_by_peer : ClosedReason

pub record PendingEvent : Type 0 where
  pub kind : EventKind
  pub key : ConnectionKey
  pub reason : ClosedReason

pub record OverflowPacket : Type 0 where
  pub channel : ℕ
  pub size_bytes : ℕ
  pub queue_size_bytes : ℕ
  pub queue_max_bytes : ℕ

-- What is handed to the router: `send_datagram` to a peer, and `send`.
pub data Outgoing : Type 0 where
  datagram : Text → List ℕ → Outgoing
  envelope : NetEnvelope → Outgoing

-- `broken` says that the router has dropped a peer over a send. It then calls `on_network_message` with
-- `peer_disconnected` in the middle of the call that sends, which erases the connections of that peer, and
-- most callers go on with an erased one. The call is not followed there: a broken state is outside
-- the model.
pub record P2p : Type 0 where
  pub receive_queue : List ReceivedPacket
  pub connections : Connections
  pub pending_events : List PendingEvent
  pub overflows : List OverflowPacket
  pub nat_queried : Bool
  pub relay_control : ℕ
  pub port : ℕ
  pub additional_ports : ℕ
  pub incoming_queue_max_bytes : ℕ
  pub outgoing_queue_max_bytes : ℕ
  pub sent : List Outgoing
  pub broken : Bool

-- What the router answers, by what it was given before: whether `send_datagram` takes a datagram, and
-- whether `send` drops the peer because the envelope cannot be sent.
pub record Network : Type 0 where
  pub carries : List Outgoing → Text → List ℕ → Bool
  pub drops : List Outgoing → NetEnvelope → Bool

-- The constructor; `EOS_RC_AllowRelays` is 1.
abbrev pub sdk_p2p : P2p
sdk_p2p = record {
  receive_queue = [];
  connections = [];
  pending_events = [];
  overflows = [];
  nat_queried = false;
  relay_control = 1;
  port = 7777;
  additional_ports = 99;
  incoming_queue_max_bytes = max_queue_size_unlimited;
  outgoing_queue_max_bytes = max_queue_size_unlimited;
  sent = [];
  broken = false;
}

unfoldable pub queue_event : EventKind → ConnectionKey → ClosedReason → P2p → P2p
queue_event kind key reason p = record p {
  pending_events = p.pending_events ++ record { kind = kind; key = key; reason = reason } ∷ [];
}

-- An empty peer or socket means every one.
unfoldable pub concerns : Text → Text → ConnectionKey → Bool
concerns peer socket key =
    (is_empty peer || same_text key.0 peer) && (is_empty socket || same_text key.1 socket)

abbrev pub key_of : ReceivedPacket → ConnectionKey
key_of packet = (packet.peer, packet.socket)

unfoldable pub flush_queue : Text → Text → List ReceivedPacket → List ReceivedPacket
unfolding concerns
flush_queue peer socket [] = []
flush_queue peer socket (packet ∷ queue) =
    let rest = flush_queue peer socket queue in
    if concerns peer socket (key_of packet) then rest else packet ∷ rest

unfoldable pub flush_packets : Text → Text → P2p → P2p
unfolding flush_queue
flush_packets peer socket p = record p { receive_queue = flush_queue peer socket p.receive_queue }

-- The bytes that a list of packets holds, as a `u64`.
unfoldable pub queued_from : ℕ → List ReceivedPacket → ℕ
queued_from total [] = total
queued_from total (packet ∷ queue) = queued_from ((total + length packet.packet) % 2 ^ 64) queue

unfoldable pub incoming_queued_bytes : P2p → ℕ
unfolding queued_from
incoming_queued_bytes p = queued_from 0 p.receive_queue

unfoldable pub delayed_from : ℕ → List DelayedPacket → ℕ
delayed_from total [] = total
delayed_from total (held ∷ more) = delayed_from ((total + length held.packet) % 2 ^ 64) more

unfoldable pub outgoing_from : ℕ → Connections → ℕ
unfolding delayed_from
outgoing_from total [] = total
outgoing_from total ((key, entry) ∷ rest) = outgoing_from (delayed_from total entry.delayed) rest

unfoldable pub outgoing_queued_bytes : P2p → ℕ
unfolding outgoing_from
outgoing_queued_bytes p = outgoing_from 0 p.connections

unfoldable pub drops_over : Network → List Outgoing → Outgoing → Bool
drops_over network sent (datagram peer payload) = false
drops_over network sent (envelope message) = network.drops sent message

module _ (own : Settings) (network : Network) where
  -- The payload of a P2P message.
  unfoldable pub p2p_payload : Text → ℕ → List ℕ → List ℕ
  p2p_payload socket channel packet =
      serialize_p2p_data (record { socket_name = socket; channel = pos channel; packet = packet })
        []

  unfoldable pub p2p_envelope : ℕ → Text → List ℕ → NetEnvelope
  p2p_envelope type peer payload = record {
    type_tag = type;
    source_id = own.product_user_id;
    dest_id = peer;
    game_id = own.product_id;
    timestamp = pos 0;
    payload = payload;
  }

  -- A packet that need not arrive goes as a datagram if the router carries it.
  unfoldable pub outgoing : ℕ → ConnectionKey → ℕ → List ℕ → Bool → List Outgoing → Outgoing
  unfolding p2p_payload p2p_envelope
  outgoing type (peer, socket) channel packet reliable sent =
      let payload = p2p_payload socket channel packet in
      if not reliable && type == p2p_data && network.carries sent peer payload
      then datagram peer payload
      else envelope (p2p_envelope type peer payload)

  unfoldable pub send_p2p : ℕ → ConnectionKey → ℕ → List ℕ → Bool → P2p → P2p
  unfolding outgoing drops_over
  send_p2p type key channel packet reliable p =
      let out = outgoing type key channel packet reliable p.sent in
      record p { sent = p.sent ++ out ∷ []; broken = p.broken || drops_over network p.sent out }

  unfoldable pub send_held : ConnectionKey → List DelayedPacket → P2p → P2p
  unfolding send_p2p
  send_held key [] p = p
  send_held key (held ∷ more) p =
      send_held key more (send_p2p p2p_data key held.channel held.packet held.reliable p)

  -- `entry` is the connection under `key`.
  unfoldable pub flush_delayed : ConnectionKey → Connection → P2p → P2p
  unfolding send_held
  flush_delayed key entry p =
      let p' = send_held key entry.delayed p in
      record p' { connections = modify key (record entry { delayed = [] }) p'.connections }

  -- A connection that both sides have agreed to.
  unfoldable pub opened : ConnectionKey → Connection → P2p → P2p
  unfolding flush_delayed queue_event
  opened key entry p =
      flush_delayed key (record entry { state = connection_open })
        (queue_event established key unknown p)

-- The connections that a test picks, and those that stay, in order.
unfoldable pub picked : (ConnectionKey → Bool) → Connections → List ConnectionKey
picked test [] = []
picked test ((key, entry) ∷ rest) =
    let more = picked test rest in if test key then key ∷ more else more

unfoldable pub unpicked : (ConnectionKey → Bool) → Connections → Connections
unpicked test [] = []
unpicked test ((key, entry) ∷ rest) =
    let more = unpicked test rest in if test key then more else (key, entry) ∷ more

-- Of `emu_deinit` on a registered interface: the state that it clears.
unfoldable pub emu_deinit : P2p → P2p
emu_deinit p = record p {
  receive_queue = [];
  connections = [];
  pending_events = [];
  overflows = [];
}
