-- ===== src/Lobby/Host.antt =====
-- A lobby that we host, under whatever other peers send.
use eos_reimagined.Base.{
  ℕ, ◌+◌, ◌<◌, ◌^◌, Bool, true, false, some, List, [], ◌∷◌, ◌++◌, length, ◌≡◌, ◌≢◌, refl, ◌∙◌,
  arith, leb, if◌then◌else◌, Bool-cases, inl, inr,
}
use eos_reimagined.Base.Int.{ℤ}
use eos_reimagined.Base.Texts.{same_text, same_text_refl, same_text_sound, is_empty, text_key}
use eos_reimagined.Base.Dict.{find}
use eos_reimagined.ByteBuffer.{Text}
use eos_reimagined.Eos.{Settings}
use eos_reimagined.Wire.Attribute.{SessionAttribute}
use eos_reimagined.Wire.Peer.{NetEnvelope}
use eos_reimagined.Wire.Lobby.{LobbyMember, LobbyInfos, LobbyJoinRequest}
use eos_reimagined.Lobby.{
  Lobby, Lobbies, LobbyEvent, is_hosting, fire, erase_member, recounted, broadcast_lobby, store,
}
use eos_reimagined.Lobby.Inbound.Joins.{admit, answered, on_join_request, on_join_response}
use eos_reimagined.Lobby.Inbound.Gone.{member_gone, gone_from}
use eos_reimagined.Lobby.Inbound.Updates.{
  on_infos, on_leave, set_attributes, on_member_update, on_destroy,
}
use eos_reimagined.Lobby.Inbound.{on_network_message}
use eos_reimagined.Lobby.Keeps.{
  Holds, Cases, message-Holds, broadcast-Holds, fired-Holds, sent-Holds, if-Holds,
  stored_here-Holds,
}
use eos_reimagined.Lobby.Effects.{other_text}
use eos_reimagined.Lobby.Roster.{
  stands_in, no_twice, length-erase_member, no_twice-erase_member, no_twice-append,
  length-set_attributes, no_twice-set_attributes, slots-recounted,
}

-- We host the lobby and own it; each user stands in it once; the members and the open slots together are
-- its places.
abbrev pub IsSeated : Settings → ℕ → Lobby → Type 0
IsSeated own max entry =
    (is_hosting entry.local_state ≡ true)
    × (entry.infos.owner_id ≡ own.product_user_id)
    × (entry.infos.max_members ≡ max)
    × (length entry.infos.members + entry.infos.available_slots ≡ max)
    × (no_twice entry.infos.members ≡ true)

abbrev pub IsHost : Settings → Text → ℕ → Lobbies → Type 0
IsHost own id max s = (entry : Lobby) × (find id s.lobbies ≡ some entry) × IsSeated own max entry

by_test :
    {A : Type 0} (P : A → Type 0) (b : Bool) (x y : A)
    → (b ≡ true → P x)
    → (b ≡ false → P y)
    → P (if b then x else y)
by_test P true x y h h' = h refl
by_test P false x y h h' = h' refl

module _ (own : Settings) (known : Text → Bool) (source id : Text) (max : ℕ) (small : max < 2 ^ 32)
    (named : is_empty own.product_user_id ≡ false) (other : own.product_user_id ≢ source) where
  abbrev Seated : Lobby → Type 0
  Seated entry = IsSeated own max entry

  abbrev Hosts : Lobbies → Type 0
  Hosts s = Holds own known source id Seated s

  ruleset hosts_rules = (if-Holds, fired-Holds, sent-Holds, broadcast-Holds)

  -- A member fewer.
  without_member :
      (e : Lobby)
      → Seated e
      → stands_in source e.infos.members ≡ true
      → Seated (record e {
        infos = recounted (record e.infos { members = erase_member source e.infos.members });
      })
  unfolding recounted
  without_member e (hosts, owns, places, full, once) there =
      let fewer = length-erase_member source e.infos.members there in
      (
        hosts,
        owns,
        places,
        slots-recounted (record e.infos { members = erase_member source e.infos.members })
              (ground (arith, small, places)) (ground (arith, fewer, full, places))
            ∙ places,
        no_twice-erase_member source e.infos.members once,
      )

  length-snoc :
      (members : List LobbyMember) (new : LobbyMember)
      → length (members ++ new ∷ []) ≡ length members + 1
  length-snoc [] new = refl
  length-snoc (member ∷ members) new = ground (arith, length-snoc members new)

  -- A member more, where there is room.
  with_member :
      (e : Lobby) (new : LobbyMember)
      → Seated e
      → stands_in new.user_id e.infos.members ≡ false
      → leb e.infos.max_members (length e.infos.members) ≡ false
      → Seated (record e {
        infos = recounted (record e.infos { members = e.infos.members ++ new ∷ [] });
      })
  unfolding recounted
  with_member e new (hosts, owns, places, full, once) absent room = (
    hosts,
    owns,
    places,
    slots-recounted (record e.infos { members = e.infos.members ++ new ∷ [] })
          (ground (arith, small, places)) (ground (arith, room, length-snoc e.infos.members new))
        ∙ places,
    no_twice-append e.infos.members new once absent,
  )

  updated_member :
      (e : Lobby) (attributes : List SessionAttribute)
      → Seated e
      → Seated (record e {
        infos = record e.infos { members = set_attributes source attributes e.infos.members };
      })
  updated_member e attributes (hosts, owns, places, full, once) = (
    hosts,
    owns,
    places,
    rw (length-set_attributes source attributes e.infos.members) full,
    no_twice-set_attributes source attributes e.infos.members ∙ once,
  )

  Takes : Lobby → ℤ × LobbyInfos → Type 0
  Takes e verdict = Seated (record e { infos = verdict.1 })

  refused-Takes : (e : Lobby) (reason : ℤ) → Seated e → Takes e (reason, e.infos)
  unfolding Takes
  refused-Takes e reason seated = seated

  admitted-Takes :
      (e : Lobby) (reason : ℤ) (new : LobbyMember)
      → Seated e
      → stands_in new.user_id e.infos.members ≡ false
      → leb e.infos.max_members (length e.infos.members) ≡ false
      → Takes e (reason, recounted (record e.infos { members = e.infos.members ++ new ∷ [] }))
  unfolding Takes
  admitted-Takes e reason new seated absent room = with_member e new seated absent room

  if-Takes :
      (e : Lobby) (b : Bool) (x y : ℤ × LobbyInfos)
      → (b ≡ true → Takes e x)
      → (b ≡ false → Takes e y)
      → Takes e (if b then x else y)
  if-Takes e b x y h h' = by_test (Takes e) b x y h h'

  admit-Takes :
      (e : Lobby) (request : LobbyJoinRequest)
      → Seated e
      → Takes e (admit own known source request e.infos)
  unfolding admit stands_in
  admit-Takes e request seated = search (if-Takes, refused-Takes, admitted-Takes) depth 12

  answered-Hosts :
      (k : Text) (e : Lobby) (verdict : ℤ × LobbyInfos) (s : Lobbies)
      → Hosts (store own k (record e { infos = verdict.1 }) s)
      → Hosts (answered own known k source e verdict s)
  unfolding answered
  answered-Hosts k e (reason, infos) s h = search hosts_rules

  -- A member that goes is taken out, and the others are told.
  fewer-Hosts :
      (k : Text) (e : Lobby) (event : LobbyEvent) (s : Lobbies)
      → Hosts s
      → same_text k id ≡ true
      → Seated e
      → let infos = recounted (record e.infos { members = erase_member source e.infos.members }) in
        Hosts (
          if stands_in source e.infos.members
          then fire event (broadcast_lobby own infos (store own k (record e { infos = infos }) s))
          else s)
  fewer-Hosts k e event s h same seated =
      let infos = recounted (record e.infos { members = erase_member source e.infos.members }) in
      by_test Hosts (stands_in source e.infos.members) _ s
        (λ there.
          let stored : Hosts (store own k (record e { infos = infos }) s) =
            stored_here-Holds own known source id Seated k (record e { infos = infos }) s same
              (without_member e seated there) in
          search hosts_rules)
        (λ absent. h)

  host_cases : Cases own known source id Seated
  unfolding on_destroy on_leave on_member_update on_join_request on_join_response on_infos gone_from
      member_gone stands_in Takes
  host_cases = record {
    at_destroy = λ notice e s h same seated. rw seated.0 h;
    at_leave =
        λ notice e s h same seated. rw seated.0 (fewer-Hosts notice.lobby_id e _ s h same seated);
    at_member_update = λ notice e s h same seated.
        let entry = record e {
          infos = record e.infos {
            members = set_attributes source notice.member.attributes e.infos.members;
          };
        } in
        let stored : Hosts (store own notice.lobby_id entry s) =
          stored_here-Holds own known source id Seated notice.lobby_id entry s same
            (updated_member e notice.member.attributes seated) in
        rw seated.0 (search hosts_rules);
    at_join_request = λ request e s h same seated.
        let verdict = admit own known source request e.infos in
        rw seated.0 (
          answered-Hosts request.lobby_id e verdict s (
            stored_here-Holds own known source id Seated request.lobby_id
              (record e { infos = verdict.1 }) s same (admit-Takes e request seated)));
    at_join_response = λ answer e s h same seated.
        rw (seated.1, named, other_text own.product_user_id source other) h;
    at_infos = λ infos e s h same seated. rw seated.0 h;
    at_gone = λ k e s h same seated. rw seated.0 (fewer-Hosts k e _ s h same seated);
  }

-- A message that bears our own id is not heard.
own-on_network_message :
    (own : Settings) (known : Text → Bool) (message : NetEnvelope) (s : Lobbies)
    → is_empty own.product_user_id ≡ false
    → message.source_id ≡ own.product_user_id
    → (on_network_message own known message s).1 ≡ s
unfolding on_network_message
own-on_network_message own known message s named e =
    rw (e, named, same_text_refl own.product_user_id) refl

-- If we host and own a lobby of fewer than 2 ^ 32 places, nobody stands in it twice, and its members and
-- open slots together are its places, then all of this is so after any message, and the places are
-- as many, if our own id is not empty.
pub hosted_roster_holds :
    (own : Settings) (known : Text → Bool) (message : NetEnvelope) (id : Text) (max : ℕ)
    (s : Lobbies)
    → max < 2 ^ 32
    → is_empty own.product_user_id ≡ false
    → IsHost own id max s
    → IsHost own id max (on_network_message own known message s).1
unfolding Holds
hosted_roster_holds own known message id max s small named h =
    elim (Bool-cases (same_text message.source_id own.product_user_id)) [
      | inl same ↦
          rw
            (own-on_network_message own known message s named
              (same_text_sound message.source_id own.product_user_id same))
            h
      | inr n ↦
          message-Holds own known message.source_id id (IsSeated own max)
            (host_cases own known message.source_id id max small named
              (λ e. absurd (ground (arith, n, e, same_text_refl own.product_user_id))))
            message s h refl
    ]
