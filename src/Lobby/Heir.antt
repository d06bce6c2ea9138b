-- ===== src/Lobby/Heir.antt =====
-- The heir of a lobby: what every member elects by itself, in `sdk_lobby::elect_owner`.
use eos_reimagined.Base.{
  Bool, true, false, not, ◌&&◌, ◌||◌, List, [], ◌∷◌, ◌≡◌, ◌≢◌, inl, inr, refl, ◌∙◌, sym, ap, arith,
  if◌then◌else◌, Bool-cases,
}
use eos_reimagined.Base.Texts.{
  same_text, text_less, is_empty, same_text_refl, same_text_sound, text_less_irrefl, not_less_trans,
  text_less_asym, text_less_antisym,
}
use eos_reimagined.ByteBuffer.{Text}
use eos_reimagined.Wire.Lobby.{LobbyMember}
use eos_reimagined.Lobby.{find_member, elect_from, elect_owner}
use eos_reimagined.Lobby.{is_some}
use eos_reimagined.Lobby.Roster.{stands_in}

-- One step of the election.
abbrev choice : Text → Text → Text → Text
choice leaving chosen user =
    if same_text user leaving
    then chosen
    else if is_empty chosen || text_less user chosen
    then user
    else chosen

module _ (leaving : Text) where
  choice-nonempty :
      (chosen user : Text)
      → is_empty chosen ≡ false
      → is_empty user ≡ false
      → is_empty (choice leaving chosen user) ≡ false
  choice-nonempty chosen user h k = ground (arith, h, k)

  choice-least :
      (chosen user : Text)
      → is_empty chosen ≡ false
      → text_less chosen (choice leaving chosen user) ≡ false
  choice-least chosen user h =
      ground (arith, h, text_less_irrefl chosen, text_less_asym user chosen)

  choice-user :
      (chosen user : Text)
      → same_text user leaving ≡ false
      → is_empty user ≡ false
      → (text_less user (choice leaving chosen user) ≡ false)
        × (is_empty (choice leaving chosen user) ≡ false)
  choice-user chosen user h k = (ground (arith, h, k, text_less_irrefl user), ground (arith, h, k))

  empty_text : (user : Text) → same_text user [] ≡ is_empty user
  empty_text [] = refl
  empty_text (c ∷ user) = refl

  named_parts :
      (member : LobbyMember) (members : List LobbyMember)
      → stands_in [] (member ∷ members) ≡ false
      → (is_empty member.user_id ≡ false) × (stands_in [] members ≡ false)
  unfolding stands_in is_some find_member
  named_parts member members h = (ground (arith, h, empty_text member.user_id), ground (arith, h))

  elect_from-nonempty :
      (chosen : Text) (members : List LobbyMember)
      → is_empty chosen ≡ false
      → stands_in [] members ≡ false
      → is_empty (elect_from chosen members leaving) ≡ false
  unfolding elect_from
  elect_from-nonempty chosen [] h named = h
  elect_from-nonempty chosen (member ∷ members) h named =
      let (user, rest) = named_parts member members named in
      elect_from-nonempty (choice leaving chosen member.user_id) members
        (choice-nonempty chosen member.user_id h user) rest

  elect_from-least :
      (chosen : Text) (members : List LobbyMember)
      → is_empty chosen ≡ false
      → stands_in [] members ≡ false
      → text_less chosen (elect_from chosen members leaving) ≡ false
  unfolding elect_from
  elect_from-least chosen [] h named = text_less_irrefl chosen
  elect_from-least chosen (member ∷ members) h named =
      let (user, rest) = named_parts member members named in
      let next = choice leaving chosen member.user_id in
      not_less_trans chosen next (elect_from next members leaving)
        (choice-least chosen member.user_id h)
        (elect_from-least next members (choice-nonempty chosen member.user_id h user) rest)

  nobody : (user : Text) → stands_in user [] ≢ true
  unfolding stands_in is_some find_member
  nobody user h = absurd cc

  stands_later :
      (user : Text) (member : LobbyMember) (members : List LobbyMember)
      → same_text member.user_id user ≡ false
      → stands_in user (member ∷ members) ≡ true
      → stands_in user members ≡ true
  unfolding stands_in is_some find_member
  stands_later user member members n h = ground (arith, n, h)

  -- Everybody who stays is at least the heir.
  elect_from-member :
      (chosen user : Text) (members : List LobbyMember)
      → stands_in [] members ≡ false
      → stands_in user members ≡ true
      → same_text user leaving ≡ false
      → (text_less user (elect_from chosen members leaving) ≡ false)
        × (is_empty (elect_from chosen members leaving) ≡ false)
  unfolding elect_from
  elect_from-member chosen user [] named there stays = absurd (nobody user there)
  elect_from-member chosen user (member ∷ members) named there stays =
      let (full, rest) = named_parts member members named in
      let next = choice leaving chosen member.user_id in
      elim (Bool-cases (same_text member.user_id user)) [
        | inl same ↦
            let at : member.user_id ≡ user = same_text_sound member.user_id user same in
            let (least, nonempty) =
              choice-user chosen member.user_id (ap (λ t. same_text t leaving) at ∙ stays) full in
            (
              not_less_trans user next (elect_from next members leaving)
                  (ap (λ t. text_less t next) (sym at) ∙ least)
                  (elect_from-least next members nonempty rest),
              elect_from-nonempty next members nonempty rest,
            )
        | inr n ↦
            elect_from-member next user members rest (stands_later user member members n there)
              stays
      ]

  -- A user is the choice so far, or one who stays.
  abbrev is_candidate : Text → Text → List LobbyMember → Bool
  is_candidate chosen user members =
      same_text user chosen || stands_in user members && not (same_text user leaving)

  choice-is_candidate :
      (chosen user : Text) (member : LobbyMember) (members : List LobbyMember)
      → is_candidate (choice leaving chosen member.user_id) user members ≡ true
      → is_candidate chosen user (member ∷ members) ≡ true
  unfolding stands_in is_some find_member
  choice-is_candidate chosen user member members h =
      ground (arith, h, same_text_sound user member.user_id, same_text_refl member.user_id)

  elect_from-is_candidate :
      (chosen : Text) (members : List LobbyMember)
      → is_candidate chosen (elect_from chosen members leaving) members ≡ true
  unfolding elect_from
  elect_from-is_candidate chosen [] = ground (arith, same_text_refl chosen)
  elect_from-is_candidate chosen (member ∷ members) =
      choice-is_candidate chosen _ member members
        (elect_from-is_candidate (choice leaving chosen member.user_id) members)

  elect_owner-stays :
      (members : List LobbyMember)
      → is_empty (elect_owner members leaving) ≡ false
      → (stands_in (elect_owner members leaving) members ≡ true)
        × (same_text (elect_owner members leaving) leaving ≡ false)
  unfolding elect_owner
  elect_owner-stays members full =
      let candidate = elect_from-is_candidate [] members in
      let empty = empty_text (elect_from [] members leaving) in
      (ground (arith, candidate, empty, full), ground (arith, candidate, empty, full))

  elect_owner-least :
      (user : Text) (members : List LobbyMember)
      → stands_in [] members ≡ false
      → stands_in user members ≡ true
      → same_text user leaving ≡ false
      → (text_less user (elect_owner members leaving) ≡ false)
        × (is_empty (elect_owner members leaving) ≡ false)
  unfolding elect_owner
  elect_owner-least user members named there stays =
      elect_from-member [] user members named there stays

  -- Whoever is elected of one roster is at least the one of the other.
  heir_least :
      (members others : List LobbyMember)
      → stands_in [] members ≡ false
      → ((user : Text) → stands_in user members ≡ stands_in user others)
      → is_empty (elect_owner others leaving) ≡ false
      → (text_less (elect_owner others leaving) (elect_owner members leaving) ≡ false)
        × (is_empty (elect_owner members leaving) ≡ false)
  heir_least members others named alike full =
      let (there, stays) = elect_owner-stays others full in
      elect_owner-least (elect_owner others leaving) members named
        (alike (elect_owner others leaving) ∙ there) stays

empty_only : (s : Text) → is_empty s ≡ true → s ≡ []
empty_only [] h = refl
empty_only (c ∷ s) h = absurd cc

-- Two members whose rosters list the same ids, none of them empty, elect the same heir, in whatever
-- order and however often the rosters list them.
pub heirs_agree :
    (members others : List LobbyMember) (leaving : Text)
    → stands_in [] members ≡ false
    → ((user : Text) → stands_in user members ≡ stands_in user others)
    → elect_owner members leaving ≡ elect_owner others leaving
heirs_agree members others leaving named alike =
    let here = elect_owner members leaving in
    let there = elect_owner others leaving in
    let from_there = heir_least leaving members others named alike in
    let from_here =
      heir_least leaving others members (sym (alike []) ∙ named) (λ user. sym (alike user)) in
    elim (Bool-cases (is_empty here)) [
      | inl none_here ↦ elim (Bool-cases (is_empty there)) [
        | inl none_there ↦ empty_only here none_here ∙ sym (empty_only there none_there)
        | inr full ↦ absurd (clash (is_empty here) none_here (from_there full).1)
      ]
      | inr full ↦
          same_text_sound here there
            (text_less_antisym here there (from_here full).0 (from_there (from_here full).1).0)
    ]
  where
    clash : (b : Bool) → b ≡ true → b ≢ false
    clash b h k = absurd cc
