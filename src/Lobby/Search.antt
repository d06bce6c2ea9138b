-- ===== src/Lobby/Search.antt =====
-- Which lobbies a search finds: `lobby_matches` of src/interfaces/lobby.cpp, and what an answer adds to a
-- search of ours.
use eos_reimagined.Base.{
  ℕ, ◌-◌, ◌*◌, ◌%◌, ◌^◌, Bool, true, false, not, ◌&&◌, ◌||◌, Option, none, some, List, [], ◌∷◌,
  ◌++◌, length, ltb, leb, ◌==◌, if◌then◌else◌,
}
use eos_reimagined.Base.Assoc.{Assoc}
use eos_reimagined.Base.Int.{ℤ, pos, negsuc, eq_ℤ, leb_ℤ}
use eos_reimagined.Base.Texts.{same_text, text_less, is_empty}
use eos_reimagined.Base.Dict.{Dict}
use eos_reimagined.ByteBuffer.{Text}
use eos_reimagined.Wire.Attribute.{SessionAttribute, SearchParameter}
use eos_reimagined.Wire.Lobby.{LobbyMember, LobbyInfos, LobbySearch, LobbySearchResponse}
use eos_reimagined.Lobby.{Lobby, SearchObject, is_hosting, open_slots_of}

-- A double by its bit pattern: whether it is a NaN, and its place in the order of the others.
is_nan : ℕ → Bool
is_nan bits = ltb (2047 * 2 ^ 52) (bits % 2 ^ 63)

double_order : ℕ → ℤ
double_order bits =
    let magnitude = bits % 2 ^ 63 in
    if ltb bits (2 ^ 63) || magnitude == 0 then pos magnitude else negsuc (magnitude - 1)

are_ordered : ℕ → ℕ → Bool
unfolding is_nan
are_ordered a b = not (is_nan a) && not (is_nan b)

unfoldable pub same_double : ℕ → ℕ → Bool
unfolding are_ordered double_order
same_double a b = are_ordered a b && eq_ℤ (double_order a) (double_order b)

double_at_most : ℕ → ℕ → Bool
unfolding are_ordered double_order
double_at_most a b = are_ordered a b && leb_ℤ (double_order a) (double_order b)

-- `compare_ordered` by `==` and `<=` of the two values and of the two values the other way round; the
-- operations behind these never match.
compare_ordered : Bool → Bool → Bool → ℤ → Bool
compare_ordered same at_most at_least op =
    if eq_ℤ op (pos 0)
    then same
    else if eq_ℤ op (pos 1)
    then not same
    else if eq_ℤ op (pos 2)
    then at_least && not same
    else if eq_ℤ op (pos 3)
    then at_least
    else if eq_ℤ op (pos 4)
    then at_most && not same
    else if eq_ℤ op (pos 5)
    then at_most
    else false

compare_int64 : ℤ → ℤ → ℤ → Bool
unfolding compare_ordered
compare_int64 mine theirs op =
    compare_ordered (eq_ℤ mine theirs) (leb_ℤ mine theirs) (leb_ℤ theirs mine) op

compare_double : ℕ → ℕ → ℤ → Bool
unfolding compare_ordered double_at_most same_double
compare_double mine theirs op =
    compare_ordered (same_double mine theirs) (double_at_most mine theirs)
      (double_at_most theirs mine) op

compare_string : Text → Text → ℤ → Bool
unfolding compare_ordered
compare_string mine theirs op =
    compare_ordered (same_text mine theirs) (not (text_less theirs mine))
      (not (text_less mine theirs)) op

abbrev bool_int64 : Bool → ℤ
bool_int64 true = pos 1
bool_int64 false = pos 0

unfoldable pub compare_attribute : SessionAttribute → SessionAttribute → ℤ → Bool
unfolding compare_int64 compare_double compare_string
compare_attribute mine theirs op =
    if not (eq_ℤ mine.value_type theirs.value_type)
    then false
    else if eq_ℤ mine.value_type (pos 0)
    then compare_int64 (bool_int64 mine.as_bool) (bool_int64 theirs.as_bool) op
    else if eq_ℤ mine.value_type (pos 1)
    then compare_int64 mine.as_int64 theirs.as_int64 op
    else if eq_ℤ mine.value_type (pos 2)
    then compare_double mine.as_double theirs.as_double op
    else compare_string mine.as_string theirs.as_string op

unfoldable pub find_attribute : Text → List SessionAttribute → Option SessionAttribute
find_attribute key [] = none
find_attribute key (attribute ∷ attributes) =
    let later = find_attribute key attributes in
    if same_text attribute.key key then some attribute else later

-- `EOS_LOBBY_SEARCH_BUCKET_ID`, `EOS_LOBBY_SEARCH_MINCURRENTMEMBERS` and
-- `EOS_LOBBY_SEARCH_MINSLOTSAVAILABLE`.
abbrev key_bucket : Text
key_bucket = b'b' ∷ b'u' ∷ b'c' ∷ b'k' ∷ b'e' ∷ b't' ∷ []

abbrev key_min_members : Text
key_min_members =
    b'm' ∷ b'i' ∷ b'n' ∷ b'c' ∷ b'u' ∷ b'r' ∷ b'r' ∷ b'e' ∷ b'n' ∷ b't' ∷ b'm' ∷ b'e' ∷ b'm' ∷ b'b'
    ∷ b'e' ∷ b'r' ∷ b's' ∷ []

abbrev key_min_slots : Text
key_min_slots =
    b'm' ∷ b'i' ∷ b'n' ∷ b's' ∷ b'l' ∷ b'o' ∷ b't' ∷ b's' ∷ b'a' ∷ b'v' ∷ b'a' ∷ b'i' ∷ b'l' ∷ b'a'
    ∷ b'b' ∷ b'l' ∷ b'e' ∷ []

-- These keys ask for a count that is at least so much.
counted : ℕ → SearchParameter → Bool
unfolding compare_int64
counted count parameter =
    let op = parameter.comparison_op in
    eq_ℤ parameter.attribute.value_type (pos 1)
    && compare_int64 (pos count) parameter.attribute.as_int64
        (if eq_ℤ op (pos 0) then pos 3 else op)

matches_attribute : Option SessionAttribute → SearchParameter → Bool
unfolding compare_attribute
matches_attribute none parameter = false
matches_attribute (some mine) parameter =
    compare_attribute mine parameter.attribute parameter.comparison_op

unfoldable pub matches_parameter : LobbyInfos → SearchParameter → Bool
unfolding counted matches_attribute compare_string
matches_parameter infos parameter =
    let key = parameter.attribute.key in
    if same_text key key_bucket
    then eq_ℤ parameter.attribute.value_type (pos 3)
      && compare_string infos.bucket_id parameter.attribute.as_string parameter.comparison_op
    else if same_text key key_min_members
    then counted (length infos.members) parameter
    else if same_text key key_min_slots
    then counted (open_slots_of infos) parameter
    else matches_attribute (find_attribute key infos.attributes) parameter

unfoldable pub matches_all : LobbyInfos → List SearchParameter → Bool
unfolding matches_parameter
matches_all infos [] = true
matches_all infos (parameter ∷ parameters) =
    matches_parameter infos parameter && matches_all infos parameters

has_member : Text → List LobbyMember → Bool
has_member user [] = false
has_member user (member ∷ members) = same_text member.user_id user || has_member user members

-- `EOS_LPL_PUBLICADVERTISED` is 0.
unfoldable pub lobby_matches : LobbyInfos → LobbySearch → Bool
unfolding matches_all has_member
lobby_matches infos query =
    let by_id = not (is_empty query.lobby_id) in
    let by_user = not (is_empty query.target_user_id) in
    if by_id && not (same_text infos.lobby_id query.lobby_id)
    then false
    else if by_user && not (has_member query.target_user_id infos.members)
    then false
    else if not by_id && not by_user && not (eq_ℤ infos.permission_level (pos 0))
    then false
    else matches_all infos query.parameters

-- The lobbies that we host and that match.
unfoldable pub find_answers : LobbySearch → Dict Text Lobby → List LobbyInfos
unfolding lobby_matches
find_answers query [] = []
find_answers query ((id, entry) ∷ rest) =
    let more = find_answers query rest in
    if is_hosting entry.local_state && lobby_matches entry.infos query
    then entry.infos ∷ more
    else more

unfoldable pub is_awaited : Text → List Text → Bool
is_awaited peer [] = false
is_awaited peer (p ∷ peers) = same_text p peer || is_awaited peer peers

unfoldable pub no_longer : Text → List Text → List Text
no_longer peer [] = []
no_longer peer (p ∷ peers) =
    let others = no_longer peer peers in if same_text p peer then others else p ∷ others

-- Of an answer only what its sender hosts counts, as far as there is room for results.
unfoldable pub take_results :
    Text → LobbySearch → ℕ → List LobbyInfos → List LobbyInfos → List LobbyInfos
unfolding lobby_matches
take_results source query max results [] = results
take_results source query max results (infos ∷ more) =
    let results' =
      if same_text infos.owner_id source && lobby_matches infos query
      then results ++ infos ∷ []
      else results in
    let rest = take_results source query max results' more in
    if leb max (length results) then results else rest

take_in : Text → LobbySearchResponse → SearchObject → SearchObject
unfolding take_results is_awaited no_longer
take_in source answer search =
    if not search.searching || not (same_text search.query.search_id answer.search_id)
    then search
    else if not (is_awaited source search.awaiting)
    then search
    else record search {
      awaiting = no_longer source search.awaiting;
      results = take_results source search.query search.max_results search.results answer.lobbies;
    }

-- The search under a handle, if it is still there.
unfoldable pub take_answer :
    Text → LobbySearchResponse → ℕ → Assoc SearchObject → Assoc SearchObject
unfolding take_in
take_answer source answer handle [] = []
take_answer source answer handle ((h, search) ∷ rest) =
    let others = take_answer source answer handle rest in
    if h == handle then (h, take_in source answer search) ∷ rest else (h, search) ∷ others
