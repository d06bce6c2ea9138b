-- ===== src/Wire/Session/RoundTrip.antt =====
-- The messages of sessions survive the wire.
use eos_reimagined.Base.{some, ◌++◌, ℕ, ◌^◌, ◌≤◌, ◌<◌, ◌≡◌, List, [], ◌∷◌, map, arith, All, length}
use eos_reimagined.Base.Int.{IsI32, IsI32-IsI64, to_i32_self}
use eos_reimagined.ByteBuffer.Codec.{Codec, Codec-read, Codec-then, Codec-last, Codec-cast}
use eos_reimagined.ByteBuffer.Words.{u32-Codec}
use eos_reimagined.ByteBuffer.Varint.{svar-Codec}
use eos_reimagined.ByteBuffer.Fields.{string-Codec, bool-Codec}
use eos_reimagined.Wire.Lists.{IsShort, Sent, list-Codec, players-Codec}
use eos_reimagined.Wire.Attribute.RoundTrip.{
  IsAttribute, IsParameter, sent_attribute, sent_parameter, attributes-Codec, parameters-Codec,
}
use eos_reimagined.Wire.Session.{
  SessionInfos, SessionSearch, SessionSearchResponse, SessionJoinRequest, SessionJoinResponse,
  SessionDestroy, SessionMembers, serialize_session_infos, deserialize_session_infos,
  serialize_session_search, deserialize_session_search, serialize_session_search_response,
  deserialize_session_search_response, serialize_session_join_request,
  deserialize_session_join_request, serialize_session_join_response,
  deserialize_session_join_response, serialize_session_destroy, deserialize_session_destroy,
  serialize_session_members, deserialize_session_members,
}

-- What the C++ types guarantee of the fields, and the caps on the lists.
pub record IsSession (m : SessionInfos) : Type 0 where
  pub session_id : IsShort m.session_id
  pub owner_id : IsShort m.owner_id
  pub bucket_id : IsShort m.bucket_id
  pub host_address : IsShort m.host_address
  pub max_players : m.max_players < 2 ^ 32
  pub open_slots : m.open_slots < 2 ^ 32
  pub permission_level : IsI32 m.permission_level
  pub state : IsI32 m.state
  pub registered_players : All IsShort m.registered_players
  pub few_players : length m.registered_players ≤ 1000
  pub attributes : All IsAttribute m.attributes
  pub few_attributes : length m.attributes ≤ 64

abbrev pub sent_session : SessionInfos → SessionInfos
sent_session m = record m { attributes = map sent_attribute m.attributes }

pub session_infos-Codec :
    (m : SessionInfos)
    → IsSession m
    → Codec (serialize_session_infos m) deserialize_session_infos (sent_session m)
unfolding serialize_session_infos deserialize_session_infos
session_infos-Codec m h = Codec-then _ (string-Codec m.session_id h.session_id) (
    Codec-then _ (string-Codec m.owner_id h.owner_id) (
      Codec-then _ (string-Codec m.bucket_id h.bucket_id) (
        Codec-then _ (string-Codec m.host_address h.host_address) (
          Codec-then _ (u32-Codec m.max_players h.max_players) (
            Codec-then _ (u32-Codec m.open_slots h.open_slots) (
              Codec-then _ (svar-Codec m.permission_level (IsI32-IsI64 _ h.permission_level)) (
                Codec-then _ (svar-Codec m.state (IsI32-IsI64 _ h.state)) (
                  Codec-then _ (bool-Codec m.allow_join_in_progress) (
                    Codec-then _ (bool-Codec m.invites_allowed) (
                      Codec-then _ (bool-Codec m.sanctions_enabled) (
                        Codec-then _
                          (players-Codec m.registered_players h.registered_players h.few_players)
                          (Codec-cast _
                            (λ i. record (sent_session m) {
                              permission_level =
                                  to_i32_self m.permission_level h.permission_level i;
                              state = to_i32_self m.state h.state i;
                            })
                            (attributes-Codec m.attributes h.attributes
                              h.few_attributes)))))))))))))

pub record IsSearch (m : SessionSearch) : Type 0 where
  pub search_id : IsShort m.search_id
  pub session_id : IsShort m.session_id
  pub target_user_id : IsShort m.target_user_id
  pub max_results : m.max_results < 2 ^ 32
  pub parameters : All IsParameter m.parameters
  pub few_parameters : length m.parameters ≤ 64

abbrev pub sent_search : SessionSearch → SessionSearch
sent_search m = record m { parameters = map sent_parameter m.parameters }

pub session_search-Codec :
    (m : SessionSearch)
    → IsSearch m
    → Codec (serialize_session_search m) deserialize_session_search (sent_search m)
unfolding serialize_session_search deserialize_session_search
session_search-Codec m h = Codec-then _ (string-Codec m.search_id h.search_id) (
    Codec-then _ (string-Codec m.session_id h.session_id) (
      Codec-then _ (string-Codec m.target_user_id h.target_user_id) (
        Codec-then _ (u32-Codec m.max_results h.max_results)
          (Codec-last _ (parameters-Codec m.parameters h.parameters h.few_parameters)))))

sessions-Sent :
    (xs : List SessionInfos)
    → All IsSession xs
    → Sent serialize_session_infos deserialize_session_infos xs (map sent_session xs)
sessions-Sent [] h = tt
sessions-Sent (x ∷ xs) h = (session_infos-Codec x h.0, sessions-Sent xs h.1)

pub record IsResponse (m : SessionSearchResponse) : Type 0 where
  pub search_id : IsShort m.search_id
  pub sessions : All IsSession m.sessions
  pub few_sessions : length m.sessions ≤ 200

abbrev pub sent_response : SessionSearchResponse → SessionSearchResponse
sent_response m = record m { sessions = map sent_session m.sessions }

pub session_search_response-Codec :
    (m : SessionSearchResponse)
    → IsResponse m
    → Codec
        (serialize_session_search_response m)
        deserialize_session_search_response
        (sent_response m)
unfolding serialize_session_search_response deserialize_session_search_response
session_search_response-Codec m h = Codec-then _ (string-Codec m.search_id h.search_id) (
    Codec-last _ (
      list-Codec _ _ 200 m.sessions _ (sessions-Sent m.sessions h.sessions) h.few_sessions
        (omega arith)))

pub session_join_request-Codec :
    (m : SessionJoinRequest)
    → IsShort m.session_id
    → Codec (serialize_session_join_request m) deserialize_session_join_request m
unfolding serialize_session_join_request deserialize_session_join_request
session_join_request-Codec m h = Codec-last _ (string-Codec m.session_id h)

pub session_destroy-Codec :
    (m : SessionDestroy)
    → IsShort m.session_id
    → Codec (serialize_session_destroy m) deserialize_session_destroy m
unfolding serialize_session_destroy deserialize_session_destroy
session_destroy-Codec m h = Codec-last _ (string-Codec m.session_id h)

pub record IsJoinResponse (m : SessionJoinResponse) : Type 0 where
  pub session_id : IsShort m.session_id
  pub player_id : IsShort m.player_id
  pub reason : IsI32 m.reason

pub session_join_response-Codec :
    (m : SessionJoinResponse)
    → IsJoinResponse m
    → Codec (serialize_session_join_response m) deserialize_session_join_response m
unfolding serialize_session_join_response deserialize_session_join_response
session_join_response-Codec m h = Codec-then _ (string-Codec m.session_id h.session_id) (
    Codec-then _ (string-Codec m.player_id h.player_id) (
      Codec-cast _ (λ i. record m { reason = to_i32_self m.reason h.reason i })
        (svar-Codec m.reason (IsI32-IsI64 _ h.reason))))

pub record IsMembers (m : SessionMembers) : Type 0 where
  pub session_id : IsShort m.session_id
  pub player_ids : All IsShort m.player_ids
  pub few_players : length m.player_ids ≤ 1000

pub session_members-Codec :
    (m : SessionMembers)
    → IsMembers m
    → Codec (serialize_session_members m) deserialize_session_members m
unfolding serialize_session_members deserialize_session_members
session_members-Codec m h =
    Codec-then _ (string-Codec m.session_id h.session_id)
      (Codec-last _ (players-Codec m.player_ids h.player_ids h.few_players))

-- A session, fields in range and lists within the caps, is read back, and the reader stops behind it;
-- of each attribute the value of its type is kept, and the values of the other types are reset.
pub session_infos_roundtrip :
    (m : SessionInfos) (rest : List ℕ)
    → IsSession m
    → deserialize_session_infos (serialize_session_infos m [] ++ rest)
      ≡ (some (sent_session m), rest)
session_infos_roundtrip m rest h = Codec-read (session_infos-Codec m h) rest

-- A search and its response, fields in range and lists within the caps, are read back up to the
-- attribute values that are not of the attribute's type, and the reader stops behind them.
pub session_search_roundtrip :
    (q : SessionSearch) (r : SessionSearchResponse) (rest : List ℕ)
    → IsSearch q
    → IsResponse r
    → (deserialize_session_search (serialize_session_search q [] ++ rest)
        ≡ (some (sent_search q), rest))
      × (deserialize_session_search_response (serialize_session_search_response r [] ++ rest)
          ≡ (some (sent_response r), rest))
session_search_roundtrip q r rest hq hr = (
  Codec-read (session_search-Codec q hq) rest,
  Codec-read (session_search_response-Codec r hr) rest,
)

-- The messages that change the players of a session, fields in range and the list within the cap, are
-- read back as they were written, and the reader stops behind them.
pub session_players_roundtrip :
    (q : SessionJoinRequest) (r : SessionJoinResponse) (d : SessionDestroy) (p : SessionMembers)
    (rest : List ℕ)
    → IsShort q.session_id
    → IsJoinResponse r
    → IsShort d.session_id
    → IsMembers p
    → (deserialize_session_join_request (serialize_session_join_request q [] ++ rest)
        ≡ (some q, rest))
      × (deserialize_session_join_response (serialize_session_join_response r [] ++ rest)
          ≡ (some r, rest))
      × (deserialize_session_destroy (serialize_session_destroy d [] ++ rest) ≡ (some d, rest))
      × (deserialize_session_members (serialize_session_members p [] ++ rest) ≡ (some p, rest))
session_players_roundtrip q r d p rest hq hr hd hp = (
  Codec-read (session_join_request-Codec q hq) rest,
  Codec-read (session_join_response-Codec r hr) rest,
  Codec-read (session_destroy-Codec d hd) rest,
  Codec-read (session_members-Codec p hp) rest,
)
