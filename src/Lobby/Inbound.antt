-- ===== src/Lobby/Inbound.antt =====
-- `sdk_lobby::on_network_message` of src/interfaces/lobby.cpp: who may change a lobby that we host, and
-- whose word counts for one that we are in. `known` is what `sdk_connect`
-- answers for a peer.
pub mod Joins
pub mod Gone
pub mod Updates
use mathlib.Core.Option
use eos_reimagined.Base.{
  ℕ, Bool, true, false, not, ◌&&◌, ◌||◌, Option, none, some, List, [], ◌∷◌, ◌++◌, length, leb, ◌==◌,
  if◌then◌else◌,
}
use eos_reimagined.Base.Assoc.{Assoc}
use eos_reimagined.Base.Int.{ℤ, pos, eq_ℤ}
use eos_reimagined.Base.Texts.{same_text, is_empty, text_key}
use eos_reimagined.Base.Dict.{Dict, find, remove}
use eos_reimagined.ByteBuffer.{Text}
use eos_reimagined.Eos.{Settings}
use eos_reimagined.Wire.Attribute.{SessionAttribute}
use eos_reimagined.Wire.Peer.{NetEnvelope}
use eos_reimagined.Wire.Lobby.{
  LobbyMember, LobbyInfos, LobbySearch, LobbySearchResponse, serialize_lobby_search_response,
  deserialize_lobby_search, deserialize_lobby_search_response, LobbyDestroy, LobbyJoinRequest,
  LobbyJoinResponse, LobbyMemberUpdate, serialize_lobby_join_response, deserialize_lobby_infos,
  deserialize_lobby_join_request, deserialize_lobby_join_response, deserialize_lobby_member_update,
  deserialize_lobby_destroy,
}
use eos_reimagined.Lobby.Search.{same_double, find_answers, take_answer}
use eos_reimagined.Lobby.{
  is_some, LocalState, Lobby, Lobbies, PendingJoin, hosting, joining, joined, is_hosting, fire,
  find_member, erase_member, recounted, heir_of, send_to, broadcast_lobby, store, member_status,
  member_update, lobby_update, lms_joined, lms_left, lms_disconnected, lms_promoted, lms_closed,
  lobby_join_request, lobby_join_response, lobby_infos, lobby_leave, lobby_member_update,
  lobby_destroy, lobby_search, lobby_search_response,
}
use eos_reimagined.Lobby.Inbound.Joins.{on_join_request, on_join_response}
use eos_reimagined.Lobby.Inbound.Gone.{keys_of, on_peer_gone}
use eos_reimagined.Lobby.Inbound.Updates.{on_infos, on_leave, on_member_update, on_destroy}

abbrev peer_disconnected : ℕ
peer_disconnected = 42

module _ (own : Settings) (known : Text → Bool) where
  unfoldable pub on_search : Text → LobbySearch → Lobbies → Lobbies
  on_search source query s =
      send_to own source lobby_search_response
        (serialize_lobby_search_response
          (record { search_id = query.search_id; lobbies = find_answers query s.lobbies }) [])
        s

  -- The answer goes to each search of ours that waits for it.
  unfoldable pub on_search_response : Text → LobbySearchResponse → Assoc ℕ → Lobbies → Lobbies
  on_search_response source answer [] s = s
  on_search_response source answer ((ticket, handle) ∷ finds) s =
      on_search_response source answer finds
        (record s { searches = take_answer source answer handle s.searches })

  -- By the tag, of a message that could be read; `none` is one that could not.
  unfoldable pub read_or : {A : Type 0} → Option A × List ℕ → (A → Lobbies) → Lobbies → Lobbies
  read_or (none, rest) k s = s
  read_or (some msg, rest) k s = k msg

  unfoldable pub on_tag : NetEnvelope → Lobbies → Bool × Lobbies
  unfolding on_search on_search_response on_join_request on_join_response on_infos on_leave
      on_member_update on_destroy read_or
  on_tag message s =
      let source = message.source_id in
      let type = message.type_tag in
      if type == lobby_search
      then (
        true,
        read_or (deserialize_lobby_search message.payload) (λ msg. on_search source msg s) s,
      )
      else if type == lobby_search_response
      then (
        true,
        read_or (deserialize_lobby_search_response message.payload)
            (λ msg. on_search_response source msg s.pending_finds s) s,
      )
      else if type == lobby_join_request
      then (
        true,
        read_or (deserialize_lobby_join_request message.payload)
            (λ msg. on_join_request own known source msg (find msg.lobby_id s.lobbies) s) s,
      )
      else if type == lobby_join_response
      then (
        true,
        read_or (deserialize_lobby_join_response message.payload)
            (λ msg. on_join_response own known source msg (find msg.lobby_id s.lobbies) s) s,
      )
      else if type == lobby_infos
      then (
        true,
        read_or (deserialize_lobby_infos message.payload)
            (λ msg. on_infos own known source msg (find msg.lobby_id s.lobbies) s) s,
      )
      else if type == lobby_leave
      then (
        true,
        read_or (deserialize_lobby_member_update message.payload)
            (λ msg. on_leave own known source msg (find msg.lobby_id s.lobbies) s) s,
      )
      else if type == lobby_member_update
      then (
        true,
        read_or (deserialize_lobby_member_update message.payload)
            (λ msg. on_member_update own known source msg (find msg.lobby_id s.lobbies) s) s,
      )
      else if type == lobby_destroy
      then (
        true,
        read_or (deserialize_lobby_destroy message.payload)
            (λ msg. on_destroy own known source msg (find msg.lobby_id s.lobbies) s) s,
      )
      else (false, s)

  unfoldable pub on_network_message : NetEnvelope → Lobbies → Bool × Lobbies
  unfolding on_peer_gone on_tag
  on_network_message message s =
      if is_empty message.source_id || same_text message.source_id own.product_user_id
      then (true, s)
      else if message.type_tag == peer_disconnected
      then (true, on_peer_gone own known message.source_id (keys_of s.lobbies) s)
      else if not (same_text message.game_id own.product_id)
      then (true, s)
      else on_tag message s
