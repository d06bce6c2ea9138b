-- ===== src/Lobby/Effects.antt =====
-- What the lobby interface sends and fires leaves the lobbies as they are, and a change of one lobby
-- leaves the others.
use eos_reimagined.Base.{
  ℕ, false, ◌||◌, List, [], ◌∷◌, ◌≡◌, ◌≢◌, refl, ◌∙◌, arith, Bool-cases, inl, inr,
}
use eos_reimagined.Base.Texts.{same_text, same_text_sound, text_key}
use eos_reimagined.Base.Dict.{Dict, find, put, remove, find-put, find-remove}
use eos_reimagined.ByteBuffer.{Text}
use eos_reimagined.Eos.{Settings}
use eos_reimagined.Wire.Lobby.{LobbyMember, LobbyInfos}
use eos_reimagined.Lobby.{Lobby, Lobbies, fire, broadcast_to_members, broadcast_lobby, send_to}
use eos_reimagined.Lobby.Inbound.Updates.{fire_arrivals, fire_departures}

-- What is sent and what fires leaves the lobbies alone.
module _ (own : Settings) where
  pub lobbies-broadcast_to_members :
      (members : List LobbyMember) (type : ℕ) (payload : List ℕ) (except : Text) (s : Lobbies)
      → (broadcast_to_members own members type payload except s).lobbies ≡ s.lobbies
  unfolding broadcast_to_members send_to
  lobbies-broadcast_to_members [] type payload except s = refl
  lobbies-broadcast_to_members (member ∷ members) type payload except s =
      lobbies-broadcast_to_members members type payload except _
      ∙ elim (Bool-cases
          (same_text member.user_id own.product_user_id || same_text member.user_id except)) [
            | inl e ↦ rw e
            | inr n ↦ rw n
          ]

  pub lobbies-broadcast_lobby :
      (infos : LobbyInfos) (s : Lobbies) → (broadcast_lobby own infos s).lobbies ≡ s.lobbies
  unfolding broadcast_lobby
  lobbies-broadcast_lobby infos s = lobbies-broadcast_to_members infos.members _ _ _ s

pub lobbies-fire_arrivals :
    (id : Text) (before members : List LobbyMember) (s : Lobbies)
    → (fire_arrivals id before members s).lobbies ≡ s.lobbies
unfolding fire_arrivals fire
lobbies-fire_arrivals id before [] s = refl
lobbies-fire_arrivals id before (member ∷ members) s =
    lobbies-fire_arrivals id before members _ ∙ ground arith

pub lobbies-fire_departures :
    (id : Text) (after members : List LobbyMember) (s : Lobbies)
    → (fire_departures id after members s).lobbies ≡ s.lobbies
unfolding fire_departures fire
lobbies-fire_departures id after [] s = refl
lobbies-fire_departures id after (member ∷ members) s =
    lobbies-fire_departures id after members _ ∙ ground arith

pub other_text : (s t : Text) → s ≢ t → same_text s t ≡ false
other_text s t apart = elim (Bool-cases (same_text s t)) [
  | inl e ↦ absurd (apart (same_text_sound s t e))
  | inr n ↦ n
]

-- Another lobby is set or removed.
pub find-put_other :
    (k id : Text) (new : Lobby) (m : Dict Text Lobby)
    → same_text k id ≡ false
    → find id (put k new m) ≡ find id m
find-put_other k id new m e = rw (find-put k id new m, e)

pub find-remove_other :
    (k id : Text) (m : Dict Text Lobby) → same_text k id ≡ false → find id (remove k m) ≡ find id m
find-remove_other k id m e = rw (find-remove k id m, e)
