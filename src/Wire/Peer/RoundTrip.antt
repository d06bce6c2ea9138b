-- ===== src/Wire/Peer/RoundTrip.antt =====
-- The messages of `Peer` survive the wire.
use native.Mathlib.Decide.{dec_lt}
use eos_reimagined.Base.{
  ℕ, ◌^◌, ◌<◌, ◌≡◌, some, none, List, ◌++◌, [], ◌∷◌, arith, true, false, Bool, append_assoc,
  if◌then◌else◌, ◌==◌, ◌&&◌,
}
use eos_reimagined.Base.Int.{ℤ, pos, negsuc, IsI32, IsI64, IsI32-IsI64, to_i32_self, leb_ℤ}
use eos_reimagined.ByteBuffer.{
  Reader, fail, get_u8, ◌>>=◌, ◌⨾◌, get_u16, get_string, get_svar, get_bytes,
}
use eos_reimagined.ByteBuffer.Codec.{
  Codec, Codec-then, Codec-last, Codec-read, Codec-truncated, IsStable, IsStable-bind,
  IsStable-pure,
}
use eos_reimagined.ByteBuffer.Words.{u8-Codec, u16-Codec, get_u8-IsStable, get_u16-IsStable}
use eos_reimagined.ByteBuffer.Varint.{svar-Codec, get_svar-IsStable}
use eos_reimagined.ByteBuffer.Fields.{
  string-Codec, bytes-Codec, get_string-IsStable, get_bytes-IsStable,
}
use eos_reimagined.Wire.Lists.{IsShort}
use eos_reimagined.Wire.Peer.{
  NetEnvelope, NetAdvertise, EmuInfos, ConnectInfos, P2pData, serialize_net_envelope,
  deserialize_net_envelope, serialize_emu_infos, deserialize_emu_infos, serialize_net_advertise,
  deserialize_net_advertise, serialize_connect_infos, deserialize_connect_infos, serialize_p2p_data,
  deserialize_p2p_data, read_envelope_body, i32_min, i32_max,
}

-- What the C++ types guarantee of the fields.
pub record IsEnvelope (m : NetEnvelope) : Type 0 where
  pub type_tag : m.type_tag < 2 ^ 16
  pub source_id : IsShort m.source_id
  pub dest_id : IsShort m.dest_id
  pub game_id : IsShort m.game_id
  pub timestamp : IsI64 m.timestamp
  pub payload : IsShort m.payload

pub record IsEmuInfos (m : EmuInfos) : Type 0 where
  pub emulator : IsShort m.emulator
  pub appid : IsShort m.appid
  pub country : IsShort m.country
  pub language : IsShort m.language
  pub username : IsShort m.username

pub emu_infos-Codec :
    (m : EmuInfos) → IsEmuInfos m → Codec (serialize_emu_infos m) deserialize_emu_infos m
unfolding serialize_emu_infos deserialize_emu_infos
emu_infos-Codec m h = Codec-then _ (string-Codec m.emulator h.emulator) (
    Codec-then _ (string-Codec m.appid h.appid) (
      Codec-then _ (string-Codec m.country h.country) (
        Codec-then _ (string-Codec m.language h.language)
          (Codec-last _ (string-Codec m.username h.username)))))

pub net_envelope-Codec :
    (m : NetEnvelope) → IsEnvelope m → Codec (serialize_net_envelope m) deserialize_net_envelope m
unfolding serialize_net_envelope deserialize_net_envelope
net_envelope-Codec m h = Codec-then _ (u8-Codec 2) (
    Codec-then _ (u16-Codec m.type_tag h.type_tag) (
      Codec-then _ (string-Codec m.source_id h.source_id) (
        Codec-then _ (string-Codec m.dest_id h.dest_id) (
          Codec-then _ (string-Codec m.game_id h.game_id) (
            Codec-then _ (svar-Codec m.timestamp h.timestamp)
              (Codec-last _ (bytes-Codec m.payload h.payload)))))))

pub record IsAdvertise (m : NetAdvertise) : Type 0 where
  pub product_user_id : IsShort m.product_user_id
  pub game_id : IsShort m.game_id
  pub tcp_port : m.tcp_port < 2 ^ 16
  pub udp_port : m.udp_port < 2 ^ 16

pub net_advertise-Codec :
    (m : NetAdvertise)
    → IsAdvertise m
    → Codec (serialize_net_advertise m) deserialize_net_advertise m
unfolding serialize_net_advertise deserialize_net_advertise
net_advertise-Codec m h = Codec-then _ (string-Codec m.product_user_id h.product_user_id) (
    Codec-then _ (string-Codec m.game_id h.game_id) (
      Codec-then _ (u16-Codec m.tcp_port h.tcp_port)
        (Codec-last _ (u16-Codec m.udp_port h.udp_port))))

pub record IsConnectInfos (m : ConnectInfos) : Type 0 where
  pub product_user_id : IsShort m.product_user_id
  pub display_name : IsShort m.display_name

pub connect_infos-Codec :
    (m : ConnectInfos)
    → IsConnectInfos m
    → Codec (serialize_connect_infos m) deserialize_connect_infos m
unfolding serialize_connect_infos deserialize_connect_infos
connect_infos-Codec m h =
    Codec-then _ (string-Codec m.product_user_id h.product_user_id)
      (Codec-last _ (string-Codec m.display_name h.display_name))

pub record IsP2pData (m : P2pData) : Type 0 where
  pub socket_name : IsShort m.socket_name
  pub channel : IsI32 m.channel
  pub packet : IsShort m.packet

-- The range test of the reader passes exactly the values of an i32.
IsI32-test : (z : ℤ) → IsI32 z → (leb_ℤ i32_min z && leb_ℤ z i32_max) ≡ true
IsI32-test (pos n) h = ground arith
IsI32-test (negsuc n) h = ground arith

pub p2p_data-Codec :
    (m : P2pData) → IsP2pData m → Codec (serialize_p2p_data m) deserialize_p2p_data m
unfolding serialize_p2p_data deserialize_p2p_data
p2p_data-Codec m h = Codec-then _ (string-Codec m.socket_name h.socket_name) (
    Codec-then _ (svar-Codec m.channel (IsI32-IsI64 m.channel h.channel)) (
      rw (IsI32-test m.channel h.channel, to_i32_self m.channel h.channel)
        (Codec-last _ (bytes-Codec m.packet h.packet))))

-- An envelope whose fields are in the range of their C++ types is read back as it was written, and
-- the reader stops behind it, whatever follows.
pub net_envelope_roundtrip :
    (m : NetEnvelope) (rest : List ℕ)
    → IsEnvelope m
    → deserialize_net_envelope (serialize_net_envelope m [] ++ rest) ≡ (some m, rest)
net_envelope_roundtrip m rest h = Codec-read (net_envelope-Codec m h) rest

fail-IsStable : {A : Type 0} → IsStable (fail {A = A})
unfolding fail
fail-IsStable s more a rest e = absurd (cc e)

envelope_body-IsStable : IsStable read_envelope_body
unfolding read_envelope_body
envelope_body-IsStable = IsStable-bind get_u16 _ get_u16-IsStable λ a.
    IsStable-bind get_string _ get_string-IsStable λ b.
      IsStable-bind get_string _ get_string-IsStable λ c.
        IsStable-bind get_string _ get_string-IsStable λ d.
          IsStable-bind get_svar _ get_svar-IsStable
            λ e. IsStable-bind get_bytes _ get_bytes-IsStable λ f. IsStable-pure _

if-IsStable :
    {A : Type 0} (b : Bool) (p q : Reader A)
    → IsStable p
    → IsStable q
    → IsStable (if b then p else q)
if-IsStable true p q hp hq = hp
if-IsStable false p q hp hq = hq

net_envelope-IsStable : IsStable deserialize_net_envelope
unfolding deserialize_net_envelope
net_envelope-IsStable =
    IsStable-bind get_u8 _ get_u8-IsStable
      λ v. if-IsStable (v == 2) _ _ envelope_body-IsStable fail-IsStable

-- Of a written envelope whose fields are in the range of their C++ types, no proper prefix is read.
pub net_envelope_truncated :
    (m : NetEnvelope) (front : List ℕ) (x : ℕ) (back : List ℕ)
    → IsEnvelope m
    → serialize_net_envelope m [] ≡ front ++ x ∷ back
    → (deserialize_net_envelope front).0 ≡ none
net_envelope_truncated m front x back h e =
    Codec-truncated (net_envelope-Codec m h) net_envelope-IsStable front x back e

-- The messages of identity and discovery, fields in range, are read back as they were written, and the
-- reader stops behind them.
pub peer_infos_roundtrip :
    (emu : EmuInfos) (advert : NetAdvertise) (user : ConnectInfos) (rest : List ℕ)
    → IsEmuInfos emu
    → IsAdvertise advert
    → IsConnectInfos user
    → (deserialize_emu_infos (serialize_emu_infos emu [] ++ rest) ≡ (some emu, rest))
      × (deserialize_net_advertise (serialize_net_advertise advert [] ++ rest)
          ≡ (some advert, rest))
      × (deserialize_connect_infos (serialize_connect_infos user [] ++ rest) ≡ (some user, rest))
peer_infos_roundtrip emu advert user rest he ha hu = (
  Codec-read (emu_infos-Codec emu he) rest,
  Codec-read (net_advertise-Codec advert ha) rest,
  Codec-read (connect_infos-Codec user hu) rest,
)

-- A P2P message, fields in range, is read back as it was written, and the reader stops behind it.
pub p2p_data_roundtrip :
    (m : P2pData) (rest : List ℕ)
    → IsP2pData m
    → deserialize_p2p_data (serialize_p2p_data m [] ++ rest) ≡ (some m, rest)
p2p_data_roundtrip m rest h = Codec-read (p2p_data-Codec m h) rest

not_i32-test : (z : ℤ) → (IsI32 z → ⊥) → (leb_ℤ i32_min z && leb_ℤ z i32_max) ≡ false
not_i32-test (pos n) h = elim (dec_lt n (2 ^ 31)) [
  | yes small ↦ absurd (h small)
  | no big ↦ ground arith
]
not_i32-test (negsuc n) h = elim (dec_lt n (2 ^ 31)) [
  | yes small ↦ absurd (h small)
  | no big ↦ ground arith
]

-- A P2P message whose channel is an i64 but no i32, its name and packet shorter than 2 ^ 64, is
-- refused, whatever follows it.
pub p2p_channel_refused :
    (m : P2pData) (rest : List ℕ)
    → IsShort m.socket_name
    → IsShort m.packet
    → IsI64 m.channel
    → ¬ IsI32 m.channel
    → (deserialize_p2p_data (serialize_p2p_data m [] ++ rest)).0 ≡ none
unfolding deserialize_p2p_data serialize_p2p_data ◌⨾◌ ◌>>=◌ fail
p2p_channel_refused m rest hs hp hi hn =
    let name = string-Codec m.socket_name hs in
    let channel = svar-Codec m.channel hi in
    let packet = bytes-Codec m.packet hp in
    rw (name.writes [], channel.writes name.bytes, packet.writes (name.bytes ++ channel.bytes))
      (rw
        (
          append_assoc (name.bytes ++ channel.bytes) packet.bytes rest,
          append_assoc name.bytes channel.bytes (packet.bytes ++ rest),
        )
        (rw (
          name.reads (channel.bytes ++ (packet.bytes ++ rest)),
          channel.reads (packet.bytes ++ rest),
          not_i32-test m.channel hn,
        )))
