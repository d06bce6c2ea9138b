-- ===== src/Tests/Rooms.antt =====
-- Sessions, lobbies and presence at which the conditions of the round trips hold.
use eos_reimagined.Base.{◌≡◌, true, false, some, [], ◌∷◌, ◌++◌, arith}
use eos_reimagined.Base.Int.{pos, negsuc}
use eos_reimagined.Wire.Attribute.{SessionAttribute, SearchParameter}
use eos_reimagined.Wire.Attribute.RoundTrip.{IsAttribute, IsParameter}
use eos_reimagined.Wire.Session.{SessionInfos, serialize_session_infos, deserialize_session_infos}
use eos_reimagined.Wire.Session.RoundTrip.{IsSession, sent_session, session_infos_roundtrip}
use eos_reimagined.Wire.Lobby.{
  LobbyMember, LobbyInfos, serialize_lobby_infos, deserialize_lobby_infos,
}
use eos_reimagined.Wire.Lobby.RoundTrip.{IsMember, IsLobby, sent_lobby, lobby_infos_roundtrip}
use eos_reimagined.Wire.Presence.{PresenceInfo}

-- An attribute of each kind of value; the values that its type does not name are reset on the way.
abbrev rank : SessionAttribute
rank = record {
  key = b'r' ∷ [];
  value_type = pos 1;
  as_bool = true;
  as_int64 = negsuc 11;
  as_double = 5;
  as_string = [];
  advertisement = pos 0;
}

rank-IsAttribute : IsAttribute rank
rank-IsAttribute = record {
  key = omega arith;
  value_type = omega arith;
  as_int64 = omega arith;
  as_double = omega arith;
  as_string = omega arith;
  advertisement = omega arith;
}

abbrev filter : SearchParameter
filter = record { attribute = rank; comparison_op = pos 2 }

filter-IsParameter : IsParameter filter
filter-IsParameter = record { attribute = rank-IsAttribute; comparison_op = omega arith }

abbrev session : SessionInfos
session = record {
  session_id = b's' ∷ [];
  owner_id = [];
  bucket_id = [];
  host_address = [];
  max_players = 8;
  open_slots = 7;
  permission_level = pos 0;
  state = pos 2;
  allow_join_in_progress = true;
  invites_allowed = false;
  sanctions_enabled = false;
  registered_players = (b'p' ∷ []) ∷ [];
  attributes = rank ∷ [];
}

session-IsSession : IsSession session
session-IsSession = record {
  session_id = omega arith;
  owner_id = omega arith;
  bucket_id = omega arith;
  host_address = omega arith;
  max_players = omega arith;
  open_slots = omega arith;
  permission_level = omega arith;
  state = omega arith;
  registered_players = (omega arith, tt);
  few_players = omega arith;
  attributes = (rank-IsAttribute, tt);
  few_attributes = omega arith;
}

session_infos_roundtrip_example :
    deserialize_session_infos (serialize_session_infos session [] ++ 9 ∷ [])
    ≡ (some (sent_session session), 9 ∷ [])
session_infos_roundtrip_example = session_infos_roundtrip session (9 ∷ []) session-IsSession

abbrev member : LobbyMember
member = record { user_id = b'm' ∷ []; platform = pos 3; attributes = rank ∷ [] }

member-IsMember : IsMember member
member-IsMember = record {
  user_id = omega arith;
  platform = omega arith;
  attributes = (rank-IsAttribute, tt);
  few_attributes = omega arith;
}

abbrev lobby : LobbyInfos
lobby = record {
  lobby_id = b'l' ∷ [];
  owner_id = b'm' ∷ [];
  bucket_id = [];
  permission_level = pos 1;
  max_members = 4;
  available_slots = 3;
  allow_invites = true;
  allow_host_migration = true;
  allow_join_by_id = false;
  rtc_enabled = false;
  attributes = rank ∷ [];
  members = member ∷ [];
}

lobby-IsLobby : IsLobby lobby
lobby-IsLobby = record {
  lobby_id = omega arith;
  owner_id = omega arith;
  bucket_id = omega arith;
  permission_level = omega arith;
  max_members = omega arith;
  available_slots = omega arith;
  attributes = (rank-IsAttribute, tt);
  few_attributes = omega arith;
  members = (member-IsMember, tt);
  few_members = omega arith;
}

lobby_infos_roundtrip_example :
    deserialize_lobby_infos (serialize_lobby_infos lobby [] ++ 9 ∷ [])
    ≡ (some (sent_lobby lobby), 9 ∷ [])
lobby_infos_roundtrip_example = lobby_infos_roundtrip lobby (9 ∷ []) lobby-IsLobby

abbrev presence : PresenceInfo
presence = record {
  epic_id = b'e' ∷ [];
  status = pos 1;
  product_id = [];
  product_version = [];
  platform = [];
  rich_text = b't' ∷ [];
  product_name = [];
  integrated_platform = [];
  join_info = [];
  records = record { key = b'k' ∷ []; value = [] } ∷ [];
}
