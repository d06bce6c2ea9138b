-- ===== src/Wire/Lobby.antt =====
-- The messages of lobbies.
pub mod RoundTrip
use eos_reimagined.Base.{ℕ, Bool, List}
use eos_reimagined.Base.Int.{ℤ, to_i32}
use eos_reimagined.ByteBuffer.{
  Text, Writer, Reader, ◌⨾◌, ◌>>=◌, pure, put_u32, put_svar, put_bool, put_string, get_u32,
  get_svar, get_bool, get_string,
}
use eos_reimagined.Wire.Lists.{put_list, read_list, max_lobby_members, max_search_results}
use eos_reimagined.Wire.Attribute.{
  SessionAttribute, SearchParameter, write_attributes, read_attributes, put_parameters,
  read_parameters,
}

pub record LobbyMember : Type 0 where
  pub user_id : Text
  pub platform : ℤ
  pub attributes : List SessionAttribute

pub record LobbyInfos : Type 0 where
  pub lobby_id : Text
  pub owner_id : Text
  pub bucket_id : Text
  pub permission_level : ℤ
  pub max_members : ℕ
  pub available_slots : ℕ
  pub allow_invites : Bool
  pub allow_host_migration : Bool
  pub allow_join_by_id : Bool
  pub rtc_enabled : Bool
  pub attributes : List SessionAttribute
  pub members : List LobbyMember

pub record LobbySearch : Type 0 where
  pub search_id : Text
  pub lobby_id : Text
  pub target_user_id : Text
  pub max_results : ℕ
  pub parameters : List SearchParameter

pub record LobbySearchResponse : Type 0 where
  pub search_id : Text
  pub lobbies : List LobbyInfos

pub record LobbyJoinRequest : Type 0 where
  pub lobby_id : Text
  pub by_id : Bool
  pub member : LobbyMember

pub record LobbyJoinResponse : Type 0 where
  pub lobby_id : Text
  pub player_id : Text
  pub reason : ℤ

pub record LobbyMemberUpdate : Type 0 where
  pub lobby_id : Text
  pub member : LobbyMember

pub record LobbyDestroy : Type 0 where
  pub lobby_id : Text
  pub reason : ℤ

write_member : LobbyMember → Writer
write_member member =
    put_string member.user_id ⨾ put_svar member.platform ⨾ write_attributes member.attributes

read_member : Reader LobbyMember
read_member = do
  user_id ← get_string
  platform ← get_svar
  attributes ← read_attributes
  pure (record { user_id = user_id; platform = to_i32 platform; attributes = attributes })

pub serialize_lobby_infos : LobbyInfos → Writer
serialize_lobby_infos msg =
    put_string msg.lobby_id
    ⨾ put_string msg.owner_id
    ⨾ put_string msg.bucket_id
    ⨾ put_svar msg.permission_level
    ⨾ put_u32 msg.max_members
    ⨾ put_u32 msg.available_slots
    ⨾ put_bool msg.allow_invites
    ⨾ put_bool msg.allow_host_migration
    ⨾ put_bool msg.allow_join_by_id
    ⨾ put_bool msg.rtc_enabled
    ⨾ write_attributes msg.attributes
    ⨾ put_list write_member msg.members

pub deserialize_lobby_infos : Reader LobbyInfos
deserialize_lobby_infos = do
  lobby_id ← get_string
  owner_id ← get_string
  bucket_id ← get_string
  permission_level ← get_svar
  max_members ← get_u32
  available_slots ← get_u32
  allow_invites ← get_bool
  allow_host_migration ← get_bool
  allow_join_by_id ← get_bool
  rtc_enabled ← get_bool
  attributes ← read_attributes
  members ← read_list max_lobby_members read_member
  pure (record {
    lobby_id = lobby_id;
    owner_id = owner_id;
    bucket_id = bucket_id;
    permission_level = to_i32 permission_level;
    max_members = max_members;
    available_slots = available_slots;
    allow_invites = allow_invites;
    allow_host_migration = allow_host_migration;
    allow_join_by_id = allow_join_by_id;
    rtc_enabled = rtc_enabled;
    attributes = attributes;
    members = members;
  })

pub serialize_lobby_search : LobbySearch → Writer
serialize_lobby_search msg =
    put_string msg.search_id
    ⨾ put_string msg.lobby_id
    ⨾ put_string msg.target_user_id
    ⨾ put_u32 msg.max_results
    ⨾ put_parameters msg.parameters

pub deserialize_lobby_search : Reader LobbySearch
deserialize_lobby_search = do
  search_id ← get_string
  lobby_id ← get_string
  target_user_id ← get_string
  max_results ← get_u32
  parameters ← read_parameters
  pure (record {
    search_id = search_id;
    lobby_id = lobby_id;
    target_user_id = target_user_id;
    max_results = max_results;
    parameters = parameters;
  })

pub serialize_lobby_search_response : LobbySearchResponse → Writer
serialize_lobby_search_response msg =
    put_string msg.search_id ⨾ put_list serialize_lobby_infos msg.lobbies

pub deserialize_lobby_search_response : Reader LobbySearchResponse
deserialize_lobby_search_response = do
  search_id ← get_string
  lobbies ← read_list max_search_results deserialize_lobby_infos
  pure (record { search_id = search_id; lobbies = lobbies })

pub serialize_lobby_join_request : LobbyJoinRequest → Writer
serialize_lobby_join_request msg =
    put_string msg.lobby_id ⨾ put_bool msg.by_id ⨾ write_member msg.member

pub deserialize_lobby_join_request : Reader LobbyJoinRequest
deserialize_lobby_join_request = do
  lobby_id ← get_string
  by_id ← get_bool
  member ← read_member
  pure (record { lobby_id = lobby_id; by_id = by_id; member = member })

pub serialize_lobby_join_response : LobbyJoinResponse → Writer
serialize_lobby_join_response msg =
    put_string msg.lobby_id ⨾ put_string msg.player_id ⨾ put_svar msg.reason

pub deserialize_lobby_join_response : Reader LobbyJoinResponse
deserialize_lobby_join_response = do
  lobby_id ← get_string
  player_id ← get_string
  reason ← get_svar
  pure (record { lobby_id = lobby_id; player_id = player_id; reason = to_i32 reason })

pub serialize_lobby_member_update : LobbyMemberUpdate → Writer
serialize_lobby_member_update msg = put_string msg.lobby_id ⨾ write_member msg.member

pub deserialize_lobby_member_update : Reader LobbyMemberUpdate
deserialize_lobby_member_update = do
  lobby_id ← get_string
  member ← read_member
  pure (record { lobby_id = lobby_id; member = member })

pub serialize_lobby_destroy : LobbyDestroy → Writer
serialize_lobby_destroy msg = put_string msg.lobby_id ⨾ put_svar msg.reason

pub deserialize_lobby_destroy : Reader LobbyDestroy
deserialize_lobby_destroy = do
  lobby_id ← get_string
  reason ← get_svar
  pure (record { lobby_id = lobby_id; reason = to_i32 reason })
