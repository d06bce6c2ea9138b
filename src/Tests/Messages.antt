-- ===== src/Tests/Messages.antt =====
-- Messages at which the conditions of the round trips hold.
use eos_reimagined.Base.{ℕ, ◌≤◌, ◌≡◌, refl, none, some, [], ◌∷◌, ◌++◌, length, arith}
use eos_reimagined.Base.Int.{negsuc}
use eos_reimagined.ByteBuffer.{
  ◌⨾◌, ◌>>=◌, pure, get_var, get_u8, put_u8, put_u16, put_string, put_svar, zig_zag, put_bytes,
  put_var,
}
use eos_reimagined.Wire.Lists.{read_list, read_list_count, check_count, read_each, read_list_capped}
use eos_reimagined.Wire.Peer.{NetEnvelope, serialize_net_envelope, deserialize_net_envelope}
use eos_reimagined.Wire.Peer.RoundTrip.{IsEnvelope, net_envelope_roundtrip, net_envelope_truncated}

abbrev envelope : NetEnvelope
envelope = record {
  type_tag = 259;
  source_id = b'a' ∷ [];
  dest_id = [];
  game_id = b'g' ∷ [];
  timestamp = negsuc 4;
  payload = 1 ∷ 2 ∷ [];
}

envelope-IsEnvelope : IsEnvelope envelope
envelope-IsEnvelope = record {
  type_tag = omega arith;
  source_id = omega arith;
  dest_id = omega arith;
  game_id = omega arith;
  timestamp = omega arith;
  payload = omega arith;
}

net_envelope_roundtrip_example :
    deserialize_net_envelope (serialize_net_envelope envelope [] ++ 9 ∷ [])
    ≡ (some envelope, 9 ∷ [])
net_envelope_roundtrip_example = net_envelope_roundtrip envelope (9 ∷ []) envelope-IsEnvelope

net_envelope_truncated_example :
    (deserialize_net_envelope (2 ∷ 3 ∷ 1 ∷ 1 ∷ b'a' ∷ 0 ∷ 1 ∷ b'g' ∷ 9 ∷ 2 ∷ 1 ∷ [])).0 ≡ none
unfolding serialize_net_envelope ◌⨾◌ put_u8 put_u16 put_string put_svar zig_zag put_bytes put_var
net_envelope_truncated_example =
    net_envelope_truncated envelope (2 ∷ 3 ∷ 1 ∷ 1 ∷ b'a' ∷ 0 ∷ 1 ∷ b'g' ∷ 9 ∷ 2 ∷ 1 ∷ []) 2 []
      envelope-IsEnvelope refl

read_list_capped_example : length {A = ℕ} (7 ∷ 8 ∷ []) ≤ 64
unfolding read_list get_var get_u8 ◌>>=◌ read_list_count check_count read_each pure
read_list_capped_example =
    read_list_capped 64 get_u8 (2 ∷ 7 ∷ 8 ∷ 9 ∷ []) (7 ∷ 8 ∷ []) (9 ∷ []) refl
