-- ===== src/Wire/Session.antt =====
-- The messages of sessions.
pub mod RoundTrip
use eos_reimagined.Base.{ℕ, Bool, List}
use eos_reimagined.Base.Int.{ℤ, to_i32}
use eos_reimagined.ByteBuffer.{
  Text, Writer, Reader, ◌⨾◌, ◌>>=◌, pure, put_u32, put_svar, put_bool, put_string, get_u32,
  get_svar, get_bool, get_string,
}
use eos_reimagined.Wire.Lists.{put_list, read_list, max_players_in_list, max_search_results}
use eos_reimagined.Wire.Attribute.{
  SessionAttribute, SearchParameter, write_attributes, read_attributes, put_parameters,
  read_parameters,
}

pub record SessionInfos : Type 0 where
  pub session_id : Text
  pub owner_id : Text
  pub bucket_id : Text
  pub host_address : Text
  pub max_players : ℕ
  pub open_slots : ℕ
  pub permission_level : ℤ
  pub state : ℤ
  pub allow_join_in_progress : Bool
  pub invites_allowed : Bool
  pub sanctions_enabled : Bool
  pub registered_players : List Text
  pub attributes : List SessionAttribute

pub record SessionSearch : Type 0 where
  pub search_id : Text
  pub session_id : Text
  pub target_user_id : Text
  pub max_results : ℕ
  pub parameters : List SearchParameter

pub record SessionSearchResponse : Type 0 where
  pub search_id : Text
  pub sessions : List SessionInfos

pub record SessionJoinRequest : Type 0 where
  pub session_id : Text

pub record SessionJoinResponse : Type 0 where
  pub session_id : Text
  pub player_id : Text
  pub reason : ℤ

pub record SessionDestroy : Type 0 where
  pub session_id : Text

pub record SessionMembers : Type 0 where
  pub session_id : Text
  pub player_ids : List Text

pub serialize_session_infos : SessionInfos → Writer
serialize_session_infos msg =
    put_string msg.session_id
    ⨾ put_string msg.owner_id
    ⨾ put_string msg.bucket_id
    ⨾ put_string msg.host_address
    ⨾ put_u32 msg.max_players
    ⨾ put_u32 msg.open_slots
    ⨾ put_svar msg.permission_level
    ⨾ put_svar msg.state
    ⨾ put_bool msg.allow_join_in_progress
    ⨾ put_bool msg.invites_allowed
    ⨾ put_bool msg.sanctions_enabled
    ⨾ put_list put_string msg.registered_players
    ⨾ write_attributes msg.attributes

pub deserialize_session_infos : Reader SessionInfos
deserialize_session_infos = do
  session_id ← get_string
  owner_id ← get_string
  bucket_id ← get_string
  host_address ← get_string
  max_players ← get_u32
  open_slots ← get_u32
  permission_level ← get_svar
  state ← get_svar
  allow_join_in_progress ← get_bool
  invites_allowed ← get_bool
  sanctions_enabled ← get_bool
  registered_players ← read_list max_players_in_list get_string
  attributes ← read_attributes
  pure (record {
    session_id = session_id;
    owner_id = owner_id;
    bucket_id = bucket_id;
    host_address = host_address;
    max_players = max_players;
    open_slots = open_slots;
    permission_level = to_i32 permission_level;
    state = to_i32 state;
    allow_join_in_progress = allow_join_in_progress;
    invites_allowed = invites_allowed;
    sanctions_enabled = sanctions_enabled;
    registered_players = registered_players;
    attributes = attributes;
  })

pub serialize_session_search : SessionSearch → Writer
serialize_session_search msg =
    put_string msg.search_id
    ⨾ put_string msg.session_id
    ⨾ put_string msg.target_user_id
    ⨾ put_u32 msg.max_results
    ⨾ put_parameters msg.parameters

pub deserialize_session_search : Reader SessionSearch
deserialize_session_search = do
  search_id ← get_string
  session_id ← get_string
  target_user_id ← get_string
  max_results ← get_u32
  parameters ← read_parameters
  pure (record {
    search_id = search_id;
    session_id = session_id;
    target_user_id = target_user_id;
    max_results = max_results;
    parameters = parameters;
  })

pub serialize_session_search_response : SessionSearchResponse → Writer
serialize_session_search_response msg =
    put_string msg.search_id ⨾ put_list serialize_session_infos msg.sessions

pub deserialize_session_search_response : Reader SessionSearchResponse
deserialize_session_search_response = do
  search_id ← get_string
  sessions ← read_list max_search_results deserialize_session_infos
  pure (record { search_id = search_id; sessions = sessions })

pub serialize_session_join_request : SessionJoinRequest → Writer
serialize_session_join_request msg = put_string msg.session_id

pub deserialize_session_join_request : Reader SessionJoinRequest
deserialize_session_join_request = do
  session_id ← get_string
  pure (record { session_id = session_id })

pub serialize_session_join_response : SessionJoinResponse → Writer
serialize_session_join_response msg =
    put_string msg.session_id ⨾ put_string msg.player_id ⨾ put_svar msg.reason

pub deserialize_session_join_response : Reader SessionJoinResponse
deserialize_session_join_response = do
  session_id ← get_string
  player_id ← get_string
  reason ← get_svar
  pure (record { session_id = session_id; player_id = player_id; reason = to_i32 reason })

pub serialize_session_destroy : SessionDestroy → Writer
serialize_session_destroy msg = put_string msg.session_id

pub deserialize_session_destroy : Reader SessionDestroy
deserialize_session_destroy = do session_id ← get_string; pure (record { session_id = session_id })

pub serialize_session_members : SessionMembers → Writer
serialize_session_members msg = put_string msg.session_id ⨾ put_list put_string msg.player_ids

pub deserialize_session_members : Reader SessionMembers
deserialize_session_members = do
  session_id ← get_string
  player_ids ← read_list max_players_in_list get_string
  pure (record { session_id = session_id; player_ids = player_ids })
