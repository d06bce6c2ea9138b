-- ===== src/Lobby.antt =====
-- `sdk_lobby` of src/interfaces/lobby.h and lobby.cpp: the lobbies that we host and those that we are in.
-- `Search` has the matching of lobbies and `Inbound` the messages of other peers; the other modules have
-- the theorems. What went to the router
-- stands in `sent` and the notifications that fired in `fired`, each in order. Listeners are assumed not
-- to call the interface from within a notification.
pub mod Search
pub mod Inbound
pub mod Effects
pub mod Keeps
pub mod Owner
pub mod Roster
pub mod Host
pub mod Heir
use eos_reimagined.Base.{
  ℕ, ◌-◌, ◌%◌, ◌^◌, Bool, true, false, not, ◌||◌, Option, none, some, List, [], ◌∷◌, ◌++◌, length,
  ltb, if◌then◌else◌,
}
use eos_reimagined.Base.Assoc.{Assoc}
use eos_reimagined.Base.Int.{ℤ, pos}
use eos_reimagined.Base.Texts.{same_text, text_less, is_empty, text_key}
use eos_reimagined.Base.Dict.{Dict, put}
use eos_reimagined.ByteBuffer.{Text}
use eos_reimagined.Eos.{Settings}
use eos_reimagined.Wire.Peer.{NetEnvelope}
use eos_reimagined.Wire.Lobby.{LobbyMember, LobbyInfos, LobbySearch, serialize_lobby_infos}

-- Tags of `message_type`.
abbrev pub lobby_search : ℕ
lobby_search = 60

abbrev pub lobby_search_response : ℕ
lobby_search_response = 61

abbrev pub lobby_join_request : ℕ
lobby_join_request = 62

abbrev pub lobby_join_response : ℕ
lobby_join_response = 63

abbrev pub lobby_infos : ℕ
lobby_infos = 64

abbrev pub lobby_leave : ℕ
lobby_leave = 65

abbrev pub lobby_member_update : ℕ
lobby_member_update = 66

abbrev pub lobby_destroy : ℕ
lobby_destroy = 67

pub data LocalState : Type 0 where
  hosting : LocalState
  joining : LocalState
  joined : LocalState

pub record Lobby : Type 0 where
  pub infos : LobbyInfos
  pub local_user : Text
  pub local_state : LocalState

-- `EOS_ELobbyMemberStatus` by its number.
abbrev pub lms_joined : ℤ
lms_joined = pos 0

abbrev pub lms_left : ℤ
lms_left = pos 1

abbrev pub lms_disconnected : ℤ
lms_disconnected = pos 2

abbrev pub lms_promoted : ℤ
lms_promoted = pos 4

abbrev pub lms_closed : ℤ
lms_closed = pos 5

-- The notifications: of a member's status, of its attributes, and of the lobby.
pub data LobbyEvent : Type 0 where
  member_status : Text → Text → ℤ → LobbyEvent
  member_update : Text → Text → LobbyEvent
  lobby_update : Text → LobbyEvent

-- A join that waits for the host: `code` is set, and `done`, when it answers.
pub record PendingJoin : Type 0 where
  pub lobby_id : Text
  pub code : ℤ
  pub done : Bool

pub record SearchObject : Type 0 where
  pub query : LobbySearch
  pub results : List LobbyInfos
  pub max_results : ℕ
  pub searching : Bool
  pub awaiting : List Text

-- The searches are by their handles; a completion that waits is a number, as its address.
-- `drops` is the router's: whether it drops the peer because an envelope cannot be sent, by what it was
-- given before. It then calls `on_network_message` with `peer_disconnected` in the middle of the call that
-- sends. `broken` says that this has happened; the call is not followed there, and a broken state is
-- outside the model.
pub record Lobbies : Type 0 where
  pub lobbies : Dict Text Lobby
  pub searches : Assoc SearchObject
  pub pending_finds : Assoc ℕ
  pub pending_joins : Assoc PendingJoin
  pub drops : List NetEnvelope → NetEnvelope → Bool
  pub sent : List NetEnvelope
  pub broken : Bool
  pub fired : List LobbyEvent

unfoldable pub is_hosting : LocalState → Bool
is_hosting hosting = true
is_hosting joining = false
is_hosting joined = false

unfoldable pub is_some {ℓ} : {A : Type ℓ} → Option A → Bool
is_some none = false
is_some (some x) = true

unfoldable pub fire : LobbyEvent → Lobbies → Lobbies
fire event s = record s { fired = s.fired ++ event ∷ [] }

unfoldable pub find_member : Text → List LobbyMember → Option LobbyMember
find_member user [] = none
find_member user (member ∷ members) =
    let later = find_member user members in
    if same_text member.user_id user then some member else later

-- The first entry of a user is taken out.
unfoldable pub erase_member : Text → List LobbyMember → List LobbyMember
erase_member user [] = []
erase_member user (member ∷ members) =
    let others = erase_member user members in
    if same_text member.user_id user then members else member ∷ others

unfoldable pub open_slots_of : LobbyInfos → ℕ
open_slots_of infos =
    let count = length infos.members in
    if ltb count infos.max_members then infos.max_members - count % 2 ^ 32 else 0

-- The infos with their slots counted again.
unfoldable pub recounted : LobbyInfos → LobbyInfos
unfolding open_slots_of
recounted infos = record infos { available_slots = open_slots_of infos }

-- The heir: the least id of those who stay, and none if nobody does.
unfoldable pub elect_from : Text → List LobbyMember → Text → Text
elect_from chosen [] leaving = chosen
elect_from chosen (member ∷ members) leaving =
    elect_from
      (if same_text member.user_id leaving
        then chosen
        else if is_empty chosen || text_less member.user_id chosen
        then member.user_id
        else chosen)
      members leaving

unfoldable pub elect_owner : List LobbyMember → Text → Text
unfolding elect_from
elect_owner members leaving = elect_from [] members leaving

unfoldable pub heir_of : LobbyInfos → List LobbyMember → Text → Text
unfolding elect_owner
heir_of infos members leaving =
    if infos.allow_host_migration then elect_owner members leaving else []

module _ (own : Settings) where
  unfoldable pub send_to : Text → ℕ → List ℕ → Lobbies → Lobbies
  send_to peer type payload s =
      let message : NetEnvelope = record {
        type_tag = type;
        source_id = own.product_user_id;
        dest_id = peer;
        game_id = own.product_id;
        timestamp = pos 0;
        payload = payload;
      } in
      record s { sent = s.sent ++ message ∷ []; broken = s.broken || s.drops s.sent message }

  unfoldable pub broadcast_to_members : List LobbyMember → ℕ → List ℕ → Text → Lobbies → Lobbies
  unfolding send_to
  broadcast_to_members [] type payload except s = s
  broadcast_to_members (member ∷ members) type payload except s =
      broadcast_to_members members type payload except (
        if same_text member.user_id own.product_user_id || same_text member.user_id except
        then s
        else send_to member.user_id type payload s)

  unfoldable pub broadcast_lobby : LobbyInfos → Lobbies → Lobbies
  unfolding broadcast_to_members
  broadcast_lobby infos s =
      broadcast_to_members infos.members lobby_infos (serialize_lobby_infos infos []) [] s

  -- The lobby under an id is set.
  unfoldable pub store : Text → Lobby → Lobbies → Lobbies
  store id entry s = record s { lobbies = put id entry s.lobbies }
