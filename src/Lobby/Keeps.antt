-- ===== src/Lobby/Keeps.antt =====
-- What a message of another peer keeps of one lobby: only the cases that are about this lobby are left to
-- prove.
use mathlib.Core.Path.{subst}
use eos_reimagined.Base.{
  ℕ, Bool, true, false, Option, none, some, List, [], ◌∷◌, ◌≡◌, refl, ◌∙◌, sym, ap, if◌then◌else◌,
  Bool-cases, inl, inr,
}
use eos_reimagined.Base.Assoc.{Assoc}
use eos_reimagined.Base.Int.{ℤ}
use eos_reimagined.Base.Texts.{same_text, same_text_sound, text_key}
use eos_reimagined.Base.Dict.{find, remove, find-put}
use eos_reimagined.ByteBuffer.{Text}
use eos_reimagined.Eos.{Settings}
use eos_reimagined.Wire.Peer.{NetEnvelope}
use eos_reimagined.Wire.Lobby.{
  LobbyMember, LobbyInfos, LobbySearch, LobbyDestroy, LobbyJoinRequest, LobbyJoinResponse,
  LobbyMemberUpdate, LobbySearchResponse,
}
use eos_reimagined.Lobby.{
  Lobby, Lobbies, LobbyEvent, PendingJoin, fire, broadcast_lobby, send_to, store,
}
use eos_reimagined.Lobby.Inbound.Joins.{answered, on_join_request, heard_verdict, on_join_response}
use eos_reimagined.Lobby.Inbound.Gone.{owner_gone, member_gone, gone_from, on_peer_gone, keys_of}
use eos_reimagined.Lobby.Inbound.Updates.{
  fire_arrivals, fire_departures, on_infos, on_leave, on_member_update, on_destroy,
}
use eos_reimagined.Lobby.Inbound.{
  on_search, on_search_response, read_or, on_tag, on_network_message,
}
use eos_reimagined.Lobby.Effects.{
  lobbies-broadcast_lobby, lobbies-fire_arrivals, lobbies-fire_departures, find-put_other,
  find-remove_other,
}

-- There is a lobby under `id`, and it is as `Q` says.
module _ (own : Settings) (known : Text → Bool) (source id : Text) (Q : Lobby → Type 0) where
  unfoldable pub Holds : Lobbies → Type 0
  Holds s = (entry : Lobby) × (find id s.lobbies ≡ some entry) × Q entry

  -- A message is about no lobby, about this one, or about another.
  by_lookup :
      (k : Text) (next : Option Lobby → Lobbies) (s : Lobbies)
      → Holds s
      → Holds (next none)
      → ((e : Lobby) → same_text k id ≡ true → Q e → Holds (next (some e)))
      → ((e : Lobby) → same_text k id ≡ false → Holds (next (some e)))
      → Holds (next (find k s.lobbies))
  unfolding Holds
  by_lookup k next s (entry, at, good) absent this another = elim (Bool-cases (same_text k id)) [
    | inl same ↦
        subst (λ o. Holds (next o))
          (sym (ap (λ t. find t s.lobbies) (same_text_sound k id same) ∙ at)) (this entry same good)
    | inr n ↦ by_option n (find k s.lobbies)
  ]
    where
      by_option : same_text k id ≡ false → (o : Option Lobby) → Holds (next o)
      by_option n none = absent
      by_option n (some e) = another e n

  stored-Holds :
      (k : Text) (e : Lobby) (s : Lobbies)
      → same_text k id ≡ false
      → Holds s
      → Holds (store own k e s)
  unfolding Holds store
  stored-Holds k e s n (entry, at, good) = (entry, find-put_other k id e s.lobbies n ∙ at, good)

  -- The lobby itself is set again.
  pub stored_here-Holds :
      (k : Text) (e : Lobby) (s : Lobbies) → same_text k id ≡ true → Q e → Holds (store own k e s)
  unfolding Holds store
  stored_here-Holds k e s same good = (e, find-put k id e s.lobbies ∙ rw same refl, good)

  removed-Holds :
      (k : Text) (s : Lobbies)
      → same_text k id ≡ false
      → Holds s
      → Holds (record s { lobbies = remove k s.lobbies })
  unfolding Holds
  removed-Holds k s n (entry, at, good) = (entry, find-remove_other k id s.lobbies n ∙ at, good)

  pub broadcast-Holds :
      (infos : LobbyInfos) (s : Lobbies) → Holds s → Holds (broadcast_lobby own infos s)
  unfolding Holds
  broadcast-Holds infos s h = rw (lobbies-broadcast_lobby own infos s) h

  pub if-Holds : (b : Bool) (s s' : Lobbies) → Holds s → Holds s' → Holds (if b then s else s')
  if-Holds true s s' h h' = h
  if-Holds false s s' h h' = h'

  pub fired-Holds : (event : LobbyEvent) (s : Lobbies) → Holds s → Holds (fire event s)
  unfolding Holds fire
  fired-Holds event s h = h

  pub sent-Holds :
      (peer : Text) (type : ℕ) (payload : List ℕ) (s : Lobbies)
      → Holds s
      → Holds (send_to own peer type payload s)
  unfolding Holds send_to
  sent-Holds peer type payload s h = h

  ruleset holds_rules =
      (if-Holds, fired-Holds, sent-Holds, stored-Holds, removed-Holds, broadcast-Holds)

  -- What a message leaves of this lobby.
  pub record Cases : Type 0 where
    pub at_destroy :
        (notice : LobbyDestroy) (e : Lobby) (s : Lobbies)
        → Holds s
        → same_text notice.lobby_id id ≡ true
        → Q e
        → Holds (on_destroy own known source notice (some e) s)
    pub at_leave :
        (notice : LobbyMemberUpdate) (e : Lobby) (s : Lobbies)
        → Holds s
        → same_text notice.lobby_id id ≡ true
        → Q e
        → Holds (on_leave own known source notice (some e) s)
    pub at_member_update :
        (notice : LobbyMemberUpdate) (e : Lobby) (s : Lobbies)
        → Holds s
        → same_text notice.lobby_id id ≡ true
        → Q e
        → Holds (on_member_update own known source notice (some e) s)
    pub at_join_request :
        (request : LobbyJoinRequest) (e : Lobby) (s : Lobbies)
        → Holds s
        → same_text request.lobby_id id ≡ true
        → Q e
        → Holds (on_join_request own known source request (some e) s)
    pub at_join_response :
        (answer : LobbyJoinResponse) (e : Lobby) (s : Lobbies)
        → Holds s
        → same_text answer.lobby_id id ≡ true
        → Q e
        → Holds (on_join_response own known source answer (some e) s)
    pub at_infos :
        (infos : LobbyInfos) (e : Lobby) (s : Lobbies)
        → Holds s
        → same_text infos.lobby_id id ≡ true
        → Q e
        → Holds (on_infos own known source infos (some e) s)
    pub at_gone :
        (k : Text) (e : Lobby) (s : Lobbies)
        → Holds s
        → same_text k id ≡ true
        → Q e
        → Holds (gone_from own known k source (some e) s)

  on_destroy-Holds :
      Cases
      → (notice : LobbyDestroy) (s : Lobbies) → Holds s
      → Holds (on_destroy own known source notice (find notice.lobby_id s.lobbies) s)
  unfolding on_destroy
  on_destroy-Holds cases notice s h =
      by_lookup notice.lobby_id (λ o. on_destroy own known source notice o s) s h h
        (λ e. cases.at_destroy notice e s h) (λ e n. search holds_rules)

  on_leave-Holds :
      Cases
      → (notice : LobbyMemberUpdate) (s : Lobbies) → Holds s
      → Holds (on_leave own known source notice (find notice.lobby_id s.lobbies) s)
  unfolding on_leave
  on_leave-Holds cases notice s h =
      by_lookup notice.lobby_id (λ o. on_leave own known source notice o s) s h h
        (λ e. cases.at_leave notice e s h) (λ e n. search holds_rules)

  on_member_update-Holds :
      Cases
      → (notice : LobbyMemberUpdate) (s : Lobbies) → Holds s
      → Holds (on_member_update own known source notice (find notice.lobby_id s.lobbies) s)
  unfolding on_member_update
  on_member_update-Holds cases notice s h =
      by_lookup notice.lobby_id (λ o. on_member_update own known source notice o s) s h h
        (λ e. cases.at_member_update notice e s h) (λ e n. search holds_rules)

  answered-Holds :
      (k : Text) (e : Lobby) (verdict : ℤ × LobbyInfos) (s : Lobbies)
      → same_text k id ≡ false
      → Holds s
      → Holds (answered own known k source e verdict s)
  unfolding answered
  answered-Holds k e (reason, infos) s n h = search holds_rules

  on_join_request-Holds :
      Cases
      → (request : LobbyJoinRequest) (s : Lobbies) → Holds s
      → Holds (on_join_request own known source request (find request.lobby_id s.lobbies) s)
  unfolding on_join_request
  on_join_request-Holds cases request s h =
      by_lookup request.lobby_id (λ o. on_join_request own known source request o s) s h h
        (λ e. cases.at_join_request request e s h) (λ e n. search (if-Holds, answered-Holds))

  heard_verdict-Holds :
      (answer : LobbyJoinResponse) (e : Lobby) (o : Option (Assoc PendingJoin)) (s : Lobbies)
      → same_text answer.lobby_id id ≡ false
      → Holds s
      → Holds (heard_verdict own known source answer e o s)
  unfolding heard_verdict Holds store
  heard_verdict-Holds answer e none s n h = h
  heard_verdict-Holds answer e (some pending) s n h =
      if-Holds _ _ _ (stored-Holds answer.lobby_id _ s n h)
        (if-Holds _ _ _ (removed-Holds answer.lobby_id s n h) h)

  on_join_response-Holds :
      Cases
      → (answer : LobbyJoinResponse) (s : Lobbies) → Holds s
      → Holds (on_join_response own known source answer (find answer.lobby_id s.lobbies) s)
  unfolding on_join_response
  on_join_response-Holds cases answer s h =
      by_lookup answer.lobby_id (λ o. on_join_response own known source answer o s) s h h
        (λ e. cases.at_join_response answer e s h) (λ e n. search (if-Holds, heard_verdict-Holds))

  diffed-Holds :
      (k : Text) (before after : List LobbyMember) (s : Lobbies)
      → Holds s
      → Holds (fire_departures k after before (fire_arrivals k before after s))
  unfolding Holds
  diffed-Holds k before after s h =
      rw
        (
          lobbies-fire_departures k after before (fire_arrivals k before after s),
          lobbies-fire_arrivals k before after s,
        )
        h

  on_infos-Holds :
      Cases
      → (infos : LobbyInfos) (s : Lobbies) → Holds s
      → Holds (on_infos own known source infos (find infos.lobby_id s.lobbies) s)
  unfolding on_infos
  on_infos-Holds cases infos s h =
      by_lookup infos.lobby_id (λ o. on_infos own known source infos o s) s h h
        (λ e. cases.at_infos infos e s h)
        (λ e n. search (if-Holds, fired-Holds, diffed-Holds, stored-Holds) depth 9)

  on_search_response-Holds :
      (answer : LobbySearchResponse) (finds : Assoc ℕ) (s : Lobbies)
      → Holds s
      → Holds (on_search_response own known source answer finds s)
  unfolding on_search_response Holds
  on_search_response-Holds answer [] s h = h
  on_search_response-Holds answer ((ticket, handle) ∷ finds) s h =
      on_search_response-Holds answer finds _ h

  gone_from-Holds :
      Cases
      → (k : Text) (s : Lobbies) → Holds s
      → Holds (gone_from own known k source (find k s.lobbies) s)
  unfolding gone_from owner_gone member_gone
  gone_from-Holds cases k s h =
      by_lookup k (λ o. gone_from own known k source o s) s h h (λ e. cases.at_gone k e s h)
        (λ e n. search holds_rules depth 9)

  on_peer_gone-Holds :
      Cases
      → (ids : List Text) (s : Lobbies) → Holds s
      → Holds (on_peer_gone own known source ids s)
  unfolding on_peer_gone
  on_peer_gone-Holds cases [] s h = h
  on_peer_gone-Holds cases (k ∷ ids) s h =
      on_peer_gone-Holds cases ids _ (gone_from-Holds cases k s h)

  read_or-Holds :
      {A : Type 0} (o : Option A × List ℕ) (next : A → Lobbies) (s : Lobbies)
      → Holds s
      → ((a : A) → Holds (next a))
      → Holds (read_or own known o next s)
  unfolding read_or
  read_or-Holds (none, rest) next s h each = h
  read_or-Holds (some a, rest) next s h each = each a

  if-second :
      (b : Bool) (x y : Bool × Lobbies) → Holds x.1 → Holds y.1 → Holds (if b then x else y).1
  if-second true x y h h' = h
  if-second false x y h h' = h'

  on_search-Holds :
      (query : LobbySearch) (s : Lobbies) → Holds s → Holds (on_search own known source query s)
  unfolding on_search
  on_search-Holds query s h = search holds_rules

  on_tag-Holds :
      Cases
      → (message : NetEnvelope) (s : Lobbies) → Holds s
      → message.source_id ≡ source
      → Holds (on_tag own known message s).1
  unfolding on_tag
  on_tag-Holds cases message s h from = rw from (
      search
        (
          h, cases, if-second, read_or-Holds, on_search-Holds, on_search_response-Holds,
          on_join_request-Holds, on_join_response-Holds, on_infos-Holds, on_leave-Holds,
          on_member_update-Holds, on_destroy-Holds,
        )
        depth 14)

  pub message-Holds :
      Cases
      → (message : NetEnvelope) (s : Lobbies) → Holds s
      → message.source_id ≡ source
      → Holds (on_network_message own known message s).1
  unfolding on_network_message
  message-Holds cases message s h from =
      let gone : Holds (on_peer_gone own known message.source_id (keys_of s.lobbies) s) =
        rw from (on_peer_gone-Holds cases (keys_of s.lobbies) s h) in
      search (if-second, on_tag-Holds) depth 9
