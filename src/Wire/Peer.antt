-- ===== src/Wire/Peer.antt =====
-- The envelope, and the messages of discovery, of a peer's identity and of the P2P data path.
pub mod RoundTrip
use eos_reimagined.Base.{ℕ, ◌^◌, ◌-◌, ◌<◌, ◌&&◌, List, length, All, ◌==◌, if◌then◌else◌}
use eos_reimagined.Base.Int.{ℤ, pos, negsuc, IsI32, IsI64, to_i32, leb_ℤ}
use eos_reimagined.ByteBuffer.{
  Text, Writer, Reader, ◌⨾◌, ◌>>=◌, pure, fail, put_u8, put_u16, put_svar, put_bytes, put_string,
  get_u8, get_u16, get_svar, get_bytes, get_string,
}
use eos_reimagined.Wire.Lists.{IsShort}

abbrev pub wire_protocol_version : ℕ
wire_protocol_version = 2

pub record NetEnvelope : Type 0 where
  pub type_tag : ℕ
  pub source_id : Text
  pub dest_id : Text
  pub game_id : Text
  pub timestamp : ℤ
  pub payload : List ℕ

pub record NetAdvertise : Type 0 where
  pub product_user_id : Text
  pub game_id : Text
  pub tcp_port : ℕ
  pub udp_port : ℕ

pub record EmuInfos : Type 0 where
  pub emulator : Text
  pub appid : Text
  pub country : Text
  pub language : Text
  pub username : Text

pub record ConnectInfos : Type 0 where
  pub product_user_id : Text
  pub display_name : Text

pub record P2pData : Type 0 where
  pub socket_name : Text
  pub channel : ℤ
  pub packet : List ℕ

unfoldable pub serialize_net_envelope : NetEnvelope → Writer
serialize_net_envelope msg =
    put_u8 wire_protocol_version
    ⨾ put_u16 msg.type_tag
    ⨾ put_string msg.source_id
    ⨾ put_string msg.dest_id
    ⨾ put_string msg.game_id
    ⨾ put_svar msg.timestamp
    ⨾ put_bytes msg.payload

read_envelope_body : Reader NetEnvelope
read_envelope_body = do
  type_tag ← get_u16
  source_id ← get_string
  dest_id ← get_string
  game_id ← get_string
  timestamp ← get_svar
  payload ← get_bytes
  pure (record {
    type_tag = type_tag;
    source_id = source_id;
    dest_id = dest_id;
    game_id = game_id;
    timestamp = timestamp;
    payload = payload;
  })

pub deserialize_net_envelope : Reader NetEnvelope
unfolding read_envelope_body
deserialize_net_envelope = do
  version ← get_u8
  if version == wire_protocol_version then read_envelope_body else fail

pub serialize_emu_infos : EmuInfos → Writer
serialize_emu_infos msg =
    put_string msg.emulator
    ⨾ put_string msg.appid
    ⨾ put_string msg.country
    ⨾ put_string msg.language
    ⨾ put_string msg.username

pub deserialize_emu_infos : Reader EmuInfos
deserialize_emu_infos = do
  emulator ← get_string
  appid ← get_string
  country ← get_string
  language ← get_string
  username ← get_string
  pure (record {
    emulator = emulator;
    appid = appid;
    country = country;
    language = language;
    username = username;
  })

pub serialize_net_advertise : NetAdvertise → Writer
serialize_net_advertise msg =
    put_string msg.product_user_id
    ⨾ put_string msg.game_id
    ⨾ put_u16 msg.tcp_port
    ⨾ put_u16 msg.udp_port

pub deserialize_net_advertise : Reader NetAdvertise
deserialize_net_advertise = do
  product_user_id ← get_string
  game_id ← get_string
  tcp_port ← get_u16
  udp_port ← get_u16
  pure (record {
    product_user_id = product_user_id;
    game_id = game_id;
    tcp_port = tcp_port;
    udp_port = udp_port;
  })

pub serialize_connect_infos : ConnectInfos → Writer
serialize_connect_infos msg = put_string msg.product_user_id ⨾ put_string msg.display_name

pub deserialize_connect_infos : Reader ConnectInfos
deserialize_connect_infos = do
  product_user_id ← get_string
  display_name ← get_string
  pure (record { product_user_id = product_user_id; display_name = display_name })

pub serialize_p2p_data : P2pData → Writer
serialize_p2p_data msg = put_string msg.socket_name ⨾ put_svar msg.channel ⨾ put_bytes msg.packet

-- `numeric_limits<i32>::min()` and `max()`
abbrev pub i32_min : ℤ
i32_min = negsuc (2 ^ 31 - 1)

abbrev pub i32_max : ℤ
i32_max = pos (2 ^ 31 - 1)

pub deserialize_p2p_data : Reader P2pData
deserialize_p2p_data = do
  socket_name ← get_string
  channel ← get_svar
  if leb_ℤ i32_min channel && leb_ℤ channel i32_max
      then (do
        packet ← get_bytes
        pure (record { socket_name = socket_name; channel = to_i32 channel; packet = packet }))
      else fail
