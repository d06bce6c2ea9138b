-- ===== src/Lobby/Inbound/Updates.antt =====
-- What owners and members say of a lobby, in `sdk_lobby::on_network_message` of
-- src/interfaces/lobby.cpp.
use eos_reimagined.Base.{
  Bool, true, false, not, ◌&&◌, ◌||◌, Option, none, some, List, [], ◌∷◌, if◌then◌else◌,
}
use eos_reimagined.Base.Int.{pos, eq_ℤ}
use eos_reimagined.Base.Texts.{same_text, is_empty, text_key}
use eos_reimagined.Base.Dict.{remove}
use eos_reimagined.ByteBuffer.{Text}
use eos_reimagined.Eos.{Settings}
use eos_reimagined.Wire.Attribute.{SessionAttribute}
use eos_reimagined.Wire.Lobby.{LobbyMember, LobbyInfos, LobbyDestroy, LobbyMemberUpdate}
use eos_reimagined.Lobby.Search.{same_double}
use eos_reimagined.Lobby.{
  is_some, Lobby, Lobbies, hosting, joined, is_hosting, fire, find_member, erase_member, recounted,
  broadcast_lobby, store, member_status, member_update, lobby_update, lms_joined, lms_left,
  lms_promoted,
}

unfoldable pub same_bool : Bool → Bool → Bool
same_bool true b = b
same_bool false b = not b

-- The value that counts, by the type.
unfoldable pub same_value : SessionAttribute → SessionAttribute → Bool
unfolding same_bool same_double
same_value x y =
    if eq_ℤ x.value_type (pos 0)
    then same_bool x.as_bool y.as_bool
    else if eq_ℤ x.value_type (pos 1)
    then eq_ℤ x.as_int64 y.as_int64
    else if eq_ℤ x.value_type (pos 2)
    then same_double x.as_double y.as_double
    else same_text x.as_string y.as_string

unfoldable pub same_attributes : List SessionAttribute → List SessionAttribute → Bool
unfolding same_value
same_attributes [] [] = true
same_attributes (x ∷ xs) (y ∷ ys) =
    let rest = same_attributes xs ys in
    same_text x.key y.key && eq_ℤ x.value_type y.value_type && same_value x y && rest
same_attributes xs ys = false

-- Who has come or changed, and who has left.
unfoldable pub fire_arrivals : Text → List LobbyMember → List LobbyMember → Lobbies → Lobbies
unfolding same_attributes
fire_arrivals id before [] s = s
fire_arrivals id before (member ∷ members) s =
    fire_arrivals id before members (elim (find_member member.user_id before) [
      | none ↦ fire (member_status id member.user_id lms_joined) s
      | some was ↦
          if same_attributes was.attributes member.attributes
          then s
          else fire (member_update id member.user_id) s
    ])

unfoldable pub fire_departures : Text → List LobbyMember → List LobbyMember → Lobbies → Lobbies
fire_departures id after [] s = s
fire_departures id after (member ∷ members) s = fire_departures id after members (
    if is_some (find_member member.user_id after)
    then s
    else fire (member_status id member.user_id lms_left) s)

-- The first entry of a user gets other attributes.
unfoldable pub set_attributes : Text → List SessionAttribute → List LobbyMember → List LobbyMember
set_attributes user attributes [] = []
set_attributes user attributes (member ∷ members) =
    let others = set_attributes user attributes members in
    if same_text member.user_id user
    then record member { attributes = attributes } ∷ members
    else member ∷ others

module _ (own : Settings) (known : Text → Bool) where
  -- The owner's word on a lobby that we are in.
  unfoldable pub on_infos : Text → LobbyInfos → Option Lobby → Lobbies → Lobbies
  unfolding fire_arrivals fire_departures
  on_infos source infos none s = s
  on_infos source infos (some entry) s =
      let before = entry.infos in
      let id = infos.lobby_id in
      let state = if same_text infos.owner_id own.product_user_id then hosting else joined in
      let diffed = fire_departures id infos.members before.members (
        fire_arrivals id before.members infos.members
          (store own id (record entry { infos = infos; local_state = state }) s)) in
      if is_hosting entry.local_state
      then s
      else if not (same_text source entry.infos.owner_id)
      then s
      else fire (lobby_update id) (
          if not (is_empty infos.owner_id) && not (same_text infos.owner_id before.owner_id)
          then fire (member_status id infos.owner_id lms_promoted) diffed
          else diffed)

  -- A member takes itself out of a lobby that we host.
  unfoldable pub on_leave : Text → LobbyMemberUpdate → Option Lobby → Lobbies → Lobbies
  unfolding is_some
  on_leave source notice none s = s
  on_leave source notice (some entry) s =
      let infos =
        recounted (record entry.infos { members = erase_member source entry.infos.members }) in
      if not (is_hosting entry.local_state)
      then s
      else if is_some (find_member source entry.infos.members)
      then fire (member_status infos.lobby_id source lms_left)
          (broadcast_lobby own infos (store own notice.lobby_id (record entry { infos = infos }) s))
      else s

  unfoldable pub on_member_update : Text → LobbyMemberUpdate → Option Lobby → Lobbies → Lobbies
  unfolding is_some set_attributes
  on_member_update source notice none s = s
  on_member_update source notice (some entry) s =
      let infos = record entry.infos {
        members = set_attributes source notice.member.attributes entry.infos.members;
      } in
      if not (is_hosting entry.local_state)
      then s
      else if is_some (find_member source entry.infos.members)
      then broadcast_lobby own infos (store own notice.lobby_id (record entry { infos = infos }) s)
      else s

  unfoldable pub on_destroy : Text → LobbyDestroy → Option Lobby → Lobbies → Lobbies
  on_destroy source notice none s = s
  on_destroy source notice (some entry) s =
      if is_hosting entry.local_state || not (same_text entry.infos.owner_id source)
      then s
      else fire (member_status notice.lobby_id own.product_user_id notice.reason)
          (record s { lobbies = remove notice.lobby_id s.lobbies })
