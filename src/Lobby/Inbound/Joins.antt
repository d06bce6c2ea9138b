-- ===== src/Lobby/Inbound/Joins.antt =====
-- Joins, in `sdk_lobby::on_network_message` of src/interfaces/lobby.cpp: what a host answers to a request,
-- and what its answer does.
use mathlib.Core.Option
use eos_reimagined.Base.{
  Bool, true, false, not, ◌&&◌, Option, none, some, [], ◌∷◌, ◌++◌, length, leb, if◌then◌else◌,
}
use eos_reimagined.Base.Assoc.{Assoc}
use eos_reimagined.Base.Int.{ℤ, pos, eq_ℤ}
use eos_reimagined.Base.Texts.{same_text, is_empty, text_key}
use eos_reimagined.Base.Dict.{remove}
use eos_reimagined.ByteBuffer.{Text}
use eos_reimagined.Eos.{Settings}
use eos_reimagined.Wire.Lobby.{
  LobbyInfos, LobbyJoinRequest, LobbyJoinResponse, serialize_lobby_join_response,
}
use eos_reimagined.Lobby.{
  is_some, LocalState, Lobby, Lobbies, PendingJoin, hosting, joining, joined, is_hosting, fire,
  find_member, recounted, send_to, broadcast_lobby, store, member_status, lms_joined,
  lobby_join_response,
}

-- Codes of `EOS_EResult`.
abbrev pub eos_success : ℤ
eos_success = pos 0

abbrev pub lobby_not_owner : ℤ
lobby_not_owner = pos 9000

abbrev pub lobby_too_many_players : ℤ
lobby_too_many_players = pos 9004

abbrev pub lobby_not_allowed : ℤ
lobby_not_allowed = pos 9016

unfoldable pub is_joining : LocalState → Bool
is_joining joining = true
is_joining hosting = false
is_joining joined = false

-- `it->first->result_code = code; set_done(true)` for the first join of a lobby that waits, if any does.
unfoldable pub answer_join : Text → ℤ → Assoc PendingJoin → Option (Assoc PendingJoin)
answer_join id code [] = none
answer_join id code ((ticket, pending) ∷ rest) =
    let later =
      Option.map (λ (more : Assoc PendingJoin). (ticket, pending) ∷ more)
        (answer_join id code rest) in
    if same_text pending.lobby_id id
    then some ((ticket, record pending { code = code; done = true }) ∷ rest)
    else later

module _ (own : Settings) (known : Text → Bool) where
  -- The host's verdict, and the roster behind it.
  unfoldable pub admit : Text → LobbyJoinRequest → LobbyInfos → ℤ × LobbyInfos
  unfolding is_some
  admit source request infos =
      if not (known source)
      then (lobby_not_owner, infos)
      else if request.by_id && not infos.allow_join_by_id
      then (lobby_not_allowed, infos)
      else if is_some (find_member source infos.members)
      then (eos_success, infos)
      else if leb infos.max_members (length infos.members)
      then (lobby_too_many_players, infos)
      else (
        eos_success,
        recounted (record infos {
          members = infos.members ++ record request.member { user_id = source } ∷ [];
        }),
      )

  unfoldable pub answered : Text → Text → Lobby → ℤ × LobbyInfos → Lobbies → Lobbies
  answered id source entry (reason, infos) s =
      let told =
        send_to own source lobby_join_response
          (serialize_lobby_join_response
            (record { lobby_id = id; player_id = source; reason = reason }) [])
          (store own id (record entry { infos = infos }) s) in
      if eq_ℤ reason eos_success
      then fire (member_status infos.lobby_id source lms_joined) (broadcast_lobby own infos told)
      else told

  unfoldable pub on_join_request : Text → LobbyJoinRequest → Option Lobby → Lobbies → Lobbies
  unfolding admit answered
  on_join_request source request none s = s
  on_join_request source request (some entry) s =
      if not (is_hosting entry.local_state)
      then s
      else answered request.lobby_id source entry (admit source request entry.infos) s

  unfoldable pub heard_verdict :
      Text → LobbyJoinResponse → Lobby → Option (Assoc PendingJoin) → Lobbies → Lobbies
  unfolding is_joining
  heard_verdict source answer entry none s = s
  heard_verdict source answer entry (some pending) s =
      let s' = record s { pending_joins = pending } in
      if eq_ℤ answer.reason eos_success
      then store own answer.lobby_id
          (record entry { infos = record entry.infos { owner_id = source }; local_state = joined })
          s'
      else if is_joining entry.local_state
      then record s' { lobbies = remove answer.lobby_id s.lobbies }
      else s'

  unfoldable pub on_join_response : Text → LobbyJoinResponse → Option Lobby → Lobbies → Lobbies
  unfolding heard_verdict answer_join
  on_join_response source answer none s = s
  on_join_response source answer (some entry) s =
      let owner = entry.infos.owner_id in
      if not (is_empty owner) && not (same_text owner source)
      then s
      else if not (same_text answer.player_id own.product_user_id)
      then s
      else heard_verdict source answer entry
          (answer_join answer.lobby_id answer.reason s.pending_joins) s
