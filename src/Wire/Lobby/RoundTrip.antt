-- ===== src/Wire/Lobby/RoundTrip.antt =====
-- The messages of lobbies survive the wire.
use eos_reimagined.Base.{some, ◌++◌, ℕ, ◌^◌, ◌≤◌, ◌<◌, ◌≡◌, List, [], ◌∷◌, map, arith, All, length}
use eos_reimagined.Base.Int.{IsI32, IsI32-IsI64, to_i32_self}
use eos_reimagined.ByteBuffer.Codec.{Codec, Codec-read, Codec-then, Codec-last, Codec-cast}
use eos_reimagined.ByteBuffer.Words.{u32-Codec}
use eos_reimagined.ByteBuffer.Varint.{svar-Codec}
use eos_reimagined.ByteBuffer.Fields.{string-Codec, bool-Codec}
use eos_reimagined.Wire.Lists.{IsShort, Sent, list-Codec}
use eos_reimagined.Wire.Attribute.RoundTrip.{
  IsAttribute, IsParameter, sent_attribute, sent_parameter, attributes-Codec, parameters-Codec,
}
use eos_reimagined.Wire.Lobby.{
  LobbyMember, LobbyInfos, LobbySearch, LobbySearchResponse, LobbyJoinRequest, LobbyJoinResponse,
  LobbyMemberUpdate, LobbyDestroy, write_member, read_member, serialize_lobby_infos,
  deserialize_lobby_infos, serialize_lobby_search, deserialize_lobby_search,
  serialize_lobby_search_response, deserialize_lobby_search_response, serialize_lobby_join_request,
  deserialize_lobby_join_request, serialize_lobby_join_response, deserialize_lobby_join_response,
  serialize_lobby_member_update, deserialize_lobby_member_update, serialize_lobby_destroy,
  deserialize_lobby_destroy,
}

pub record IsMember (m : LobbyMember) : Type 0 where
  pub user_id : IsShort m.user_id
  pub platform : IsI32 m.platform
  pub attributes : All IsAttribute m.attributes
  pub few_attributes : length m.attributes ≤ 64

abbrev pub sent_member : LobbyMember → LobbyMember
sent_member m = record m { attributes = map sent_attribute m.attributes }

member-Codec : (m : LobbyMember) → IsMember m → Codec (write_member m) read_member (sent_member m)
unfolding write_member read_member
member-Codec m h = Codec-then _ (string-Codec m.user_id h.user_id) (
    Codec-then _ (svar-Codec m.platform (IsI32-IsI64 _ h.platform)) (
      Codec-cast _ (λ i. record (sent_member m) { platform = to_i32_self m.platform h.platform i })
        (attributes-Codec m.attributes h.attributes h.few_attributes)))

members-Sent :
    (xs : List LobbyMember)
    → All IsMember xs
    → Sent write_member read_member xs (map sent_member xs)
members-Sent [] h = tt
members-Sent (x ∷ xs) h = (member-Codec x h.0, members-Sent xs h.1)

-- What the C++ types guarantee of the fields, and the caps on the lists.
pub record IsLobby (m : LobbyInfos) : Type 0 where
  pub lobby_id : IsShort m.lobby_id
  pub owner_id : IsShort m.owner_id
  pub bucket_id : IsShort m.bucket_id
  pub permission_level : IsI32 m.permission_level
  pub max_members : m.max_members < 2 ^ 32
  pub available_slots : m.available_slots < 2 ^ 32
  pub attributes : All IsAttribute m.attributes
  pub few_attributes : length m.attributes ≤ 64
  pub members : All IsMember m.members
  pub few_members : length m.members ≤ 64

abbrev pub sent_lobby : LobbyInfos → LobbyInfos
sent_lobby m = record m {
  attributes = map sent_attribute m.attributes;
  members = map sent_member m.members;
}

pub lobby_infos-Codec :
    (m : LobbyInfos)
    → IsLobby m
    → Codec (serialize_lobby_infos m) deserialize_lobby_infos (sent_lobby m)
unfolding serialize_lobby_infos deserialize_lobby_infos
lobby_infos-Codec m h = Codec-then _ (string-Codec m.lobby_id h.lobby_id) (
    Codec-then _ (string-Codec m.owner_id h.owner_id) (
      Codec-then _ (string-Codec m.bucket_id h.bucket_id) (
        Codec-then _ (svar-Codec m.permission_level (IsI32-IsI64 _ h.permission_level)) (
          Codec-then _ (u32-Codec m.max_members h.max_members) (
            Codec-then _ (u32-Codec m.available_slots h.available_slots) (
              Codec-then _ (bool-Codec m.allow_invites) (
                Codec-then _ (bool-Codec m.allow_host_migration) (
                  Codec-then _ (bool-Codec m.allow_join_by_id) (
                    Codec-then _ (bool-Codec m.rtc_enabled) (
                      Codec-then _ (attributes-Codec m.attributes h.attributes h.few_attributes) (
                        Codec-cast _
                          (λ i. record (sent_lobby m) {
                            permission_level = to_i32_self m.permission_level h.permission_level i;
                          })
                          (list-Codec _ _ 64 m.members _ (members-Sent m.members h.members)
                            h.few_members (omega arith)))))))))))))

pub record IsSearch (m : LobbySearch) : Type 0 where
  pub search_id : IsShort m.search_id
  pub lobby_id : IsShort m.lobby_id
  pub target_user_id : IsShort m.target_user_id
  pub max_results : m.max_results < 2 ^ 32
  pub parameters : All IsParameter m.parameters
  pub few_parameters : length m.parameters ≤ 64

abbrev pub sent_search : LobbySearch → LobbySearch
sent_search m = record m { parameters = map sent_parameter m.parameters }

pub lobby_search-Codec :
    (m : LobbySearch)
    → IsSearch m
    → Codec (serialize_lobby_search m) deserialize_lobby_search (sent_search m)
unfolding serialize_lobby_search deserialize_lobby_search
lobby_search-Codec m h = Codec-then _ (string-Codec m.search_id h.search_id) (
    Codec-then _ (string-Codec m.lobby_id h.lobby_id) (
      Codec-then _ (string-Codec m.target_user_id h.target_user_id) (
        Codec-then _ (u32-Codec m.max_results h.max_results)
          (Codec-last _ (parameters-Codec m.parameters h.parameters h.few_parameters)))))

lobbies-Sent :
    (xs : List LobbyInfos)
    → All IsLobby xs
    → Sent serialize_lobby_infos deserialize_lobby_infos xs (map sent_lobby xs)
lobbies-Sent [] h = tt
lobbies-Sent (x ∷ xs) h = (lobby_infos-Codec x h.0, lobbies-Sent xs h.1)

pub record IsResponse (m : LobbySearchResponse) : Type 0 where
  pub search_id : IsShort m.search_id
  pub lobbies : All IsLobby m.lobbies
  pub few_lobbies : length m.lobbies ≤ 200

abbrev pub sent_response : LobbySearchResponse → LobbySearchResponse
sent_response m = record m { lobbies = map sent_lobby m.lobbies }

pub lobby_search_response-Codec :
    (m : LobbySearchResponse)
    → IsResponse m
    → Codec (serialize_lobby_search_response m) deserialize_lobby_search_response (sent_response m)
unfolding serialize_lobby_search_response deserialize_lobby_search_response
lobby_search_response-Codec m h = Codec-then _ (string-Codec m.search_id h.search_id) (
    Codec-last _ (
      list-Codec _ _ 200 m.lobbies _ (lobbies-Sent m.lobbies h.lobbies) h.few_lobbies
        (omega arith)))

pub record IsJoinRequest (m : LobbyJoinRequest) : Type 0 where
  pub lobby_id : IsShort m.lobby_id
  pub member : IsMember m.member

abbrev pub sent_join_request : LobbyJoinRequest → LobbyJoinRequest
sent_join_request m = record m { member = sent_member m.member }

pub lobby_join_request-Codec :
    (m : LobbyJoinRequest)
    → IsJoinRequest m
    → Codec (serialize_lobby_join_request m) deserialize_lobby_join_request (sent_join_request m)
unfolding serialize_lobby_join_request deserialize_lobby_join_request
lobby_join_request-Codec m h =
    Codec-then _ (string-Codec m.lobby_id h.lobby_id)
      (Codec-then _ (bool-Codec m.by_id) (Codec-last _ (member-Codec m.member h.member)))

pub record IsJoinResponse (m : LobbyJoinResponse) : Type 0 where
  pub lobby_id : IsShort m.lobby_id
  pub player_id : IsShort m.player_id
  pub reason : IsI32 m.reason

pub lobby_join_response-Codec :
    (m : LobbyJoinResponse)
    → IsJoinResponse m
    → Codec (serialize_lobby_join_response m) deserialize_lobby_join_response m
unfolding serialize_lobby_join_response deserialize_lobby_join_response
lobby_join_response-Codec m h = Codec-then _ (string-Codec m.lobby_id h.lobby_id) (
    Codec-then _ (string-Codec m.player_id h.player_id) (
      Codec-cast _ (λ i. record m { reason = to_i32_self m.reason h.reason i })
        (svar-Codec m.reason (IsI32-IsI64 _ h.reason))))

pub record IsMemberUpdate (m : LobbyMemberUpdate) : Type 0 where
  pub lobby_id : IsShort m.lobby_id
  pub member : IsMember m.member

abbrev pub sent_member_update : LobbyMemberUpdate → LobbyMemberUpdate
sent_member_update m = record m { member = sent_member m.member }

pub lobby_member_update-Codec :
    (m : LobbyMemberUpdate)
    → IsMemberUpdate m
    → Codec (serialize_lobby_member_update m) deserialize_lobby_member_update (sent_member_update m)
unfolding serialize_lobby_member_update deserialize_lobby_member_update
lobby_member_update-Codec m h =
    Codec-then _ (string-Codec m.lobby_id h.lobby_id)
      (Codec-last _ (member-Codec m.member h.member))

pub record IsDestroy (m : LobbyDestroy) : Type 0 where
  pub lobby_id : IsShort m.lobby_id
  pub reason : IsI32 m.reason

pub lobby_destroy-Codec :
    (m : LobbyDestroy) → IsDestroy m → Codec (serialize_lobby_destroy m) deserialize_lobby_destroy m
unfolding serialize_lobby_destroy deserialize_lobby_destroy
lobby_destroy-Codec m h = Codec-then _ (string-Codec m.lobby_id h.lobby_id) (
    Codec-cast _ (λ i. record m { reason = to_i32_self m.reason h.reason i })
      (svar-Codec m.reason (IsI32-IsI64 _ h.reason)))

-- A lobby, fields in range and lists within the caps, is read back with its members, and the reader
-- stops behind it; of each attribute the value of its type is kept, and the other values are reset.
pub lobby_infos_roundtrip :
    (m : LobbyInfos) (rest : List ℕ)
    → IsLobby m
    → deserialize_lobby_infos (serialize_lobby_infos m [] ++ rest) ≡ (some (sent_lobby m), rest)
lobby_infos_roundtrip m rest h = Codec-read (lobby_infos-Codec m h) rest

-- A search and its response, fields in range and lists within the caps, are read back up to the
-- attribute values that are not of the attribute's type, and the reader stops behind them.
pub lobby_search_roundtrip :
    (q : LobbySearch) (r : LobbySearchResponse) (rest : List ℕ)
    → IsSearch q
    → IsResponse r
    → (deserialize_lobby_search (serialize_lobby_search q [] ++ rest)
        ≡ (some (sent_search q), rest))
      × (deserialize_lobby_search_response (serialize_lobby_search_response r [] ++ rest)
          ≡ (some (sent_response r), rest))
lobby_search_roundtrip q r rest hq hr =
    (Codec-read (lobby_search-Codec q hq) rest, Codec-read (lobby_search_response-Codec r hr) rest)

-- The messages that change a lobby's members, fields in range and lists within the caps, are read back
-- up to the attribute values that are not of the attribute's type, and the reader stops behind them.
pub lobby_members_roundtrip :
    (q : LobbyJoinRequest) (r : LobbyJoinResponse) (u : LobbyMemberUpdate) (d : LobbyDestroy)
    (rest : List ℕ)
    → IsJoinRequest q
    → IsJoinResponse r
    → IsMemberUpdate u
    → IsDestroy d
    → (deserialize_lobby_join_request (serialize_lobby_join_request q [] ++ rest)
        ≡ (some (sent_join_request q), rest))
      × (deserialize_lobby_join_response (serialize_lobby_join_response r [] ++ rest)
          ≡ (some r, rest))
      × (deserialize_lobby_member_update (serialize_lobby_member_update u [] ++ rest)
          ≡ (some (sent_member_update u), rest))
      × (deserialize_lobby_destroy (serialize_lobby_destroy d [] ++ rest) ≡ (some d, rest))
lobby_members_roundtrip q r u d rest hq hr hu hd = (
  Codec-read (lobby_join_request-Codec q hq) rest,
  Codec-read (lobby_join_response-Codec r hr) rest,
  Codec-read (lobby_member_update-Codec u hu) rest,
  Codec-read (lobby_destroy-Codec d hd) rest,
)
