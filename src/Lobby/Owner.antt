-- ===== src/Lobby/Owner.antt =====
-- Whose word counts for a lobby that we are in.
use eos_reimagined.Base.{List, Bool, false, some, ◌≡◌, ◌≢◌, refl, ◌∙◌, sym, ap}
use eos_reimagined.Base.Texts.{same_text, is_empty, text_key}
use eos_reimagined.Base.Dict.{find}
use eos_reimagined.ByteBuffer.{Text}
use eos_reimagined.Eos.{Settings}
use eos_reimagined.Wire.Peer.{NetEnvelope}
use eos_reimagined.Lobby.{Lobby, Lobbies, is_hosting}
use eos_reimagined.Lobby.Inbound.Joins.{on_join_request, on_join_response}
use eos_reimagined.Lobby.Inbound.Gone.{gone_from}
use eos_reimagined.Lobby.Inbound.Updates.{on_infos, on_leave, on_member_update, on_destroy}
use eos_reimagined.Lobby.Inbound.{on_network_message}
use eos_reimagined.Lobby.Keeps.{Holds, Cases, message-Holds}
use eos_reimagined.Lobby.Effects.{other_text}

-- A lobby that we do not host, with an owner who is not the sender.
module _ (own : Settings) (known : Text → Bool) (source id : Text) (entry : Lobby)
    (guest : is_hosting entry.local_state ≡ false) (owned : is_empty entry.infos.owner_id ≡ false)
    (other : entry.infos.owner_id ≢ source) where
  not_owner : same_text entry.infos.owner_id source ≡ false
  not_owner = other_text entry.infos.owner_id source other

  not_sender : same_text source entry.infos.owner_id ≡ false
  not_sender = other_text source entry.infos.owner_id (λ e. other (sym e))

  guest_cases : Cases own known source id (λ e. e ≡ entry)
  unfolding on_destroy on_leave on_member_update on_join_request on_join_response on_infos gone_from
  guest_cases = record {
    at_destroy = λ notice e s h same eq. rw (eq, guest, not_owner) h;
    at_leave = λ notice e s h same eq. rw (eq, guest) h;
    at_member_update = λ notice e s h same eq. rw (eq, guest) h;
    at_join_request = λ request e s h same eq. rw (eq, guest) h;
    at_join_response = λ answer e s h same eq. rw (eq, owned, not_owner) h;
    at_infos = λ infos e s h same eq. rw (eq, guest, not_sender) h;
    at_gone = λ k e s h same eq. rw (eq, guest, not_owner) h;
  }

-- A lobby that we are in and do not host, whose owner is known, stays as it is whatever a peer other
-- than that owner sends, and when such a peer is gone, if the router drops no peer over what we send on
-- this message.
pub only_owner_speaks :
    (own : Settings) (known : Text → Bool) (message : NetEnvelope) (id : Text) (entry : Lobby)
    (s : Lobbies)
    → find id s.lobbies ≡ some entry
    → is_hosting entry.local_state ≡ false
    → is_empty entry.infos.owner_id ≡ false
    → entry.infos.owner_id ≢ message.source_id
    → ((sent : List NetEnvelope) (m : NetEnvelope) → s.drops sent m ≡ false)
    → find id (on_network_message own known message s).1.lobbies ≡ some entry
unfolding Holds
only_owner_speaks own known message id entry s at guest owned other carried =
    let (kept, found, same) =
      message-Holds own known message.source_id id (λ e. e ≡ entry)
        (guest_cases own known message.source_id id entry guest owned other) message s
        (entry, at, refl) refl in
    found ∙ ap some same
