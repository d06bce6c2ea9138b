-- ===== src/Lobby/Roster.antt =====
-- The members of a lobby: nobody stands in a roster twice, and the open places are what the others leave.
use eos_reimagined.Base.{
  ◌+◌, ◌^◌, ◌≤◌, ◌<◌, Bool, true, false, not, ◌&&◌, List, [], ◌∷◌, ◌++◌, length, ◌≡◌, refl, arith,
}
use eos_reimagined.Base.Texts.{same_text, same_text_refl, same_text_sound}
use eos_reimagined.ByteBuffer.{Text}
use eos_reimagined.Wire.Attribute.{SessionAttribute}
use eos_reimagined.Wire.Lobby.{LobbyMember, LobbyInfos}
use eos_reimagined.Lobby.{find_member, erase_member, open_slots_of, recounted}
use eos_reimagined.Lobby.Inbound.Updates.{set_attributes}
use eos_reimagined.Lobby.{is_some}

unfoldable pub stands_in : Text → List LobbyMember → Bool
unfolding is_some
stands_in user members = is_some (find_member user members)

unfoldable pub no_twice : List LobbyMember → Bool
unfolding stands_in
no_twice [] = true
no_twice (member ∷ members) = not (stands_in member.user_id members) && no_twice members

pub length-erase_member :
    (user : Text) (members : List LobbyMember)
    → stands_in user members ≡ true
    → length (erase_member user members) + 1 ≡ length members
unfolding stands_in is_some find_member erase_member
length-erase_member user [] h = absurd cc
length-erase_member user (member ∷ members) h = ground (arith, h, length-erase_member user members)

pub stands_in-erase_member :
    (user other : Text) (members : List LobbyMember)
    → stands_in other members ≡ false
    → stands_in other (erase_member user members) ≡ false
unfolding stands_in is_some find_member erase_member
stands_in-erase_member user other [] h = h
stands_in-erase_member user other (member ∷ members) h =
    ground (arith, h, stands_in-erase_member user other members)

pub no_twice-erase_member :
    (user : Text) (members : List LobbyMember)
    → no_twice members ≡ true
    → no_twice (erase_member user members) ≡ true
unfolding no_twice erase_member
no_twice-erase_member user [] h = h
no_twice-erase_member user (member ∷ members) h = ground (
  arith,
  h,
  no_twice-erase_member user members,
  stands_in-erase_member user member.user_id members,
)

pub stands_in-append :
    (other : Text) (members : List LobbyMember) (new : LobbyMember)
    → stands_in other members ≡ false
    → same_text new.user_id other ≡ false
    → stands_in other (members ++ new ∷ []) ≡ false
unfolding stands_in is_some find_member
stands_in-append other [] new h n = ground (arith, n)
stands_in-append other (member ∷ members) new h n =
    ground (arith, h, n, stands_in-append other members new)

pub no_twice-append :
    (members : List LobbyMember) (new : LobbyMember)
    → no_twice members ≡ true
    → stands_in new.user_id members ≡ false
    → no_twice (members ++ new ∷ []) ≡ true
unfolding no_twice stands_in is_some find_member
no_twice-append [] new h n = refl
no_twice-append (member ∷ members) new h n = ground (
  arith,
  h,
  n,
  no_twice-append members new,
  stands_in-append member.user_id members new,
  same_text_sound new.user_id member.user_id,
  same_text_refl member.user_id,
)

pub length-set_attributes :
    (user : Text) (attributes : List SessionAttribute) (members : List LobbyMember)
    → length (set_attributes user attributes members) ≡ length members
unfolding set_attributes
length-set_attributes user attributes [] = refl
length-set_attributes user attributes (member ∷ members) =
    ground (arith, length-set_attributes user attributes members)

pub stands_in-set_attributes :
    (user other : Text) (attributes : List SessionAttribute) (members : List LobbyMember)
    → stands_in other (set_attributes user attributes members) ≡ stands_in other members
unfolding set_attributes stands_in is_some find_member
stands_in-set_attributes user other attributes [] = refl
stands_in-set_attributes user other attributes (member ∷ members) =
    ground (arith, stands_in-set_attributes user other attributes members)

pub no_twice-set_attributes :
    (user : Text) (attributes : List SessionAttribute) (members : List LobbyMember)
    → no_twice (set_attributes user attributes members) ≡ no_twice members
unfolding set_attributes no_twice
no_twice-set_attributes user attributes [] = refl
no_twice-set_attributes user attributes (member ∷ members) = ground (
  arith,
  no_twice-set_attributes user attributes members,
  stands_in-set_attributes user member.user_id attributes members,
)

pub slots-recounted :
    (infos : LobbyInfos)
    → infos.max_members < 2 ^ 32
    → length infos.members ≤ infos.max_members
    → length infos.members + (recounted infos).available_slots ≡ infos.max_members
unfolding recounted open_slots_of
slots-recounted infos small fits = ground (arith, small, fits)
