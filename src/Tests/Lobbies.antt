-- ===== src/Tests/Lobbies.antt =====
-- A lobby of `ann`, as she and her guests have it.
use eos_reimagined.Base.{ℕ, ◌≡◌, ◌≢◌, refl, true, false, some, List, [], ◌∷◌, arith}
use eos_reimagined.Base.Int.{pos}
use eos_reimagined.Base.Texts.{text_key}
use eos_reimagined.Base.Dict.{find}
use eos_reimagined.ByteBuffer.{Text}
use eos_reimagined.Eos.{Settings}
use eos_reimagined.Wire.Peer.{NetEnvelope}
use eos_reimagined.Wire.Lobby.{
  LobbyMember, LobbyInfos, serialize_lobby_join_request, serialize_lobby_destroy,
}
use eos_reimagined.Lobby.{
  LocalState, Lobby, Lobbies, hosting, joined, is_hosting, is_some, find_member, elect_owner,
  lobby_destroy, lobby_join_request,
}
use eos_reimagined.Lobby.Inbound.{on_network_message}
use eos_reimagined.Lobby.Owner.{only_owner_speaks}
use eos_reimagined.Lobby.Roster.{stands_in, no_twice}
use eos_reimagined.Lobby.Host.{IsHost, hosted_roster_holds}
use eos_reimagined.Lobby.Heir.{heirs_agree}

abbrev ann : Text
ann = b'a' ∷ []

abbrev bob : Text
bob = b'b' ∷ []

abbrev eve : Text
eve = b'e' ∷ []

abbrev den : Text
den = b'd' ∷ []

abbrev game_of : Text → Settings
game_of user = record { product_user_id = user; product_id = b'g' ∷ [] }

abbrev guest : Text → LobbyMember
guest user = record { user_id = user; platform = pos 0; attributes = [] }

abbrev den_infos : List LobbyMember → ℕ → LobbyInfos
den_infos members slots = record {
  lobby_id = den;
  owner_id = ann;
  bucket_id = [];
  permission_level = pos 0;
  max_members = 3;
  available_slots = slots;
  allow_invites = true;
  allow_host_migration = true;
  allow_join_by_id = true;
  rtc_enabled = false;
  attributes = [];
  members = members;
}

abbrev den_of : LocalState → Lobby
den_of state = record {
  infos = den_infos (guest ann ∷ guest bob ∷ []) 1;
  local_user = bob;
  local_state = state;
}

abbrev with_den : LocalState → Lobbies
with_den state = record {
  lobbies = (den, den_of state) ∷ [];
  searches = [];
  pending_finds = [];
  pending_joins = [];
  drops = λ sent message. false;
  sent = [];
  broken = false;
  fired = [];
}

abbrev letter : Text → ℕ → List ℕ → NetEnvelope
letter source type payload = record {
  type_tag = type;
  source_id = source;
  dest_id = bob;
  game_id = b'g' ∷ [];
  timestamp = pos 0;
  payload = payload;
}

-- `eve` would close the lobby of `ann` for `bob`.
abbrev closed_by_eve : NetEnvelope
closed_by_eve =
    letter eve lobby_destroy
      (serialize_lobby_destroy (record { lobby_id = den; reason = pos 5 }) [])

-- `eve` asks `ann` for a place.
abbrev eve_asks : NetEnvelope
eve_asks =
    letter eve lobby_join_request (
      serialize_lobby_join_request (record { lobby_id = den; by_id = false; member = guest eve })
        [])

den_found : (state : LocalState) → find den (with_den state).lobbies ≡ some (den_of state)
unfolding find
den_found state = refl

is_hosting-joined : is_hosting joined ≡ false
unfolding is_hosting
is_hosting-joined = refl

is_hosting-hosting : is_hosting hosting ≡ true
unfolding is_hosting
is_hosting-hosting = refl

strangers_differ : ann ≢ eve
strangers_differ e = ground arith

no_twice-guests : no_twice (guest ann ∷ guest bob ∷ []) ≡ true
unfolding no_twice find_member
no_twice-guests = refl

only_owner_speaks_example :
    find den
      (on_network_message (game_of bob) (λ peer. true) closed_by_eve (with_den joined)).1.lobbies
    ≡ some (den_of joined)
only_owner_speaks_example =
    only_owner_speaks (game_of bob) (λ peer. true) closed_by_eve den (den_of joined)
      (with_den joined) (den_found joined) is_hosting-joined refl strangers_differ
      (λ sent message. refl)

hosted_roster_holds_example :
    IsHost
      (game_of ann)
      den
      3
      (on_network_message (game_of ann) (λ peer. true) eve_asks (with_den hosting)).1
hosted_roster_holds_example =
    hosted_roster_holds (game_of ann) (λ peer. true) eve_asks den 3 (with_den hosting)
      (ground arith) refl
      (den_of hosting, den_found hosting, (is_hosting-hosting, refl, refl, refl, no_twice-guests))

-- The same guests in two orders, one of them twice.
abbrev roster : List LobbyMember
roster = guest ann ∷ guest eve ∷ guest bob ∷ []

abbrev other_roster : List LobbyMember
other_roster = guest bob ∷ guest ann ∷ guest eve ∷ guest bob ∷ []

rosters_alike : (user : Text) → stands_in user roster ≡ stands_in user other_roster
unfolding stands_in is_some find_member
rosters_alike user = ground arith

no_blank : stands_in [] roster ≡ false
unfolding stands_in find_member
no_blank = refl

heirs_agree_example : elect_owner roster ann ≡ elect_owner other_roster ann
heirs_agree_example = heirs_agree roster other_roster ann no_blank rosters_alike
