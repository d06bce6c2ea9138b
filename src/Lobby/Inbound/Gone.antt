-- ===== src/Lobby/Inbound/Gone.antt =====
-- Peers that are gone, in `sdk_lobby::on_network_message` of src/interfaces/lobby.cpp.
use eos_reimagined.Base.{Bool, not, ◌&&◌, Option, none, some, List, [], ◌∷◌, if◌then◌else◌}
use eos_reimagined.Base.Texts.{same_text, is_empty, text_key}
use eos_reimagined.Base.Dict.{Dict, find, remove}
use eos_reimagined.ByteBuffer.{Text}
use eos_reimagined.Eos.{Settings}
use eos_reimagined.Lobby.{
  is_some, Lobby, Lobbies, hosting, joined, is_hosting, fire, find_member, erase_member, recounted,
  heir_of, broadcast_lobby, store, member_status, lobby_update, lms_disconnected, lms_promoted,
  lms_closed,
}

unfoldable pub keys_of : Dict Text Lobby → List Text
keys_of [] = []
keys_of ((id, entry) ∷ rest) = id ∷ keys_of rest

module _ (own : Settings) (known : Text → Bool) where
  -- The owner of a lobby that we are in has gone: an heir takes it over, or it closes.
  unfoldable pub owner_gone : Text → Text → Lobby → Lobbies → Lobbies
  owner_gone id source entry s =
      let members = erase_member source entry.infos.members in
      let heir = heir_of entry.infos members source in
      let infos = recounted (record entry.infos { members = members; owner_id = heir }) in
      if is_empty heir
      then fire (member_status id source lms_closed) (record s { lobbies = remove id s.lobbies })
      else fire (lobby_update id) (
          fire (member_status id heir lms_promoted) (
            if same_text heir own.product_user_id
            then broadcast_lobby own infos
                (store own id (record entry { infos = infos; local_state = hosting }) s)
            else store own id (record entry { infos = infos; local_state = joined }) s))

  -- A member of a lobby that we host has gone.
  unfoldable pub member_gone : Text → Text → Lobby → Lobbies → Lobbies
  member_gone id source entry s =
      let infos =
        recounted (record entry.infos { members = erase_member source entry.infos.members }) in
      fire (member_status id source lms_disconnected)
        (broadcast_lobby own infos (store own id (record entry { infos = infos }) s))

  unfoldable pub gone_from : Text → Text → Option Lobby → Lobbies → Lobbies
  unfolding owner_gone member_gone is_some
  gone_from id source none s = s
  gone_from id source (some entry) s =
      if not (is_hosting entry.local_state) && same_text entry.infos.owner_id source
      then owner_gone id source entry s
      else if is_hosting entry.local_state && is_some (find_member source entry.infos.members)
      then member_gone id source entry s
      else s

  -- The loop over a snapshot of the ids, each looked up again.
  unfoldable pub on_peer_gone : Text → List Text → Lobbies → Lobbies
  unfolding gone_from
  on_peer_gone source [] s = s
  on_peer_gone source (id ∷ ids) s =
      on_peer_gone source ids (gone_from id source (find id s.lobbies) s)
