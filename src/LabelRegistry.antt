-- ===== src/LabelRegistry.antt =====
-- `label_registry` of src/core/label_registry.h and label_registry.cpp: the labels that stand in a trace
-- for handles and ids. A bucket's tokens are in the order of `std::map`, and the kinds are numbers.
pub mod Labels
pub mod Unique
use eos_reimagined.Base.{
  ℕ, zero, suc, ◌+◌, ◌%◌, ◌^◌, Bool, true, false, ◌&&◌, Option, none, some, List, [], ◌∷◌, ◌++◌,
  length, ltb, leb, ◌==◌, if◌then◌else◌,
}
use eos_reimagined.Base.Assoc.{Assoc, lookup, insert}
use eos_reimagined.Base.Decimal.{decimal}
use eos_reimagined.ByteBuffer.{Text}

-- By the number of the kind, in the order of `label_kind`.
abbrev kind_prefix : ℕ → Text
kind_prefix zero = b'p' ∷ b'u' ∷ b'i' ∷ b'd' ∷ []
kind_prefix (suc zero) = b'e' ∷ b'a' ∷ b'i' ∷ b'd' ∷ []
kind_prefix (suc (suc zero)) = b'a' ∷ b'c' ∷ b'c' ∷ b'o' ∷ b'u' ∷ b'n' ∷ b't' ∷ []
kind_prefix (suc (suc (suc zero))) = b's' ∷ b'e' ∷ b's' ∷ b's' ∷ b'i' ∷ b'o' ∷ b'n' ∷ []
kind_prefix (suc (suc (suc (suc zero)))) = b'l' ∷ b'o' ∷ b'b' ∷ b'b' ∷ b'y' ∷ []
kind_prefix (suc (suc (suc (suc (suc zero))))) = b's' ∷ b'o' ∷ b'c' ∷ b'k' ∷ b'e' ∷ b't' ∷ []
kind_prefix (suc (suc (suc (suc (suc (suc zero)))))) = b'h' ∷ b'a' ∷ b'n' ∷ b'd' ∷ b'l' ∷ b'e' ∷ []
kind_prefix (suc (suc (suc (suc (suc (suc (suc zero))))))) = b'n' ∷ b'o' ∷ b't' ∷ b'i' ∷ b'f' ∷ []
kind_prefix other = b'h' ∷ b'a' ∷ b'n' ∷ b'd' ∷ b'l' ∷ b'e' ∷ []

-- `==` and `<` of strings.
same_token : Text → Text → Bool
same_token [] [] = true
same_token (x ∷ xs) (y ∷ ys) = x == y && same_token xs ys
same_token xs ys = false

token_less : Text → Text → Bool
token_less xs [] = false
token_less [] (y ∷ ys) = true
token_less (x ∷ xs) (y ∷ ys) = let later = token_less xs ys in if x == y then later else ltb x y

pub record Entry : Type 0 where
  pub text : Text
  pub last_seen : ℕ

abbrev pub Tokens : Type 0
Tokens = List (Text × Entry)

pub record Bucket : Type 0 where
  pub tokens : Tokens
  pub next_index : ℕ

pub record LabelRegistry : Type 0 where
  pub buckets : Assoc Bucket
  pub max_per_kind : ℕ
  pub clock : ℕ

unfoldable pub label_registry : ℕ → LabelRegistry
label_registry max_per_kind = record {
  buckets = [];
  max_per_kind = if ltb 0 max_per_kind then max_per_kind else 1;
  clock = 0;
}

find_token : Text → Tokens → Option Entry
find_token token [] = none
find_token token ((key, entry) ∷ rest) =
    let later = find_token token rest in if same_token key token then some entry else later

-- A token that is held is seen at `now`.
touch : Text → ℕ → Tokens → Tokens
touch token now [] = []
touch token now ((key, entry) ∷ rest) =
    let later = touch token now rest in
    if same_token key token
    then (key, record entry { last_seen = now }) ∷ rest
    else (key, entry) ∷ later

-- When the coldest one was seen: the first of the tokens, or one behind it that is colder.
coldest : ℕ → Tokens → ℕ
coldest seen [] = seen
coldest seen ((key, entry) ∷ rest) =
    coldest (if ltb entry.last_seen seen then entry.last_seen else seen) rest

-- The first one that was seen then goes.
erase_seen : ℕ → Tokens → Tokens
erase_seen seen [] = []
erase_seen seen ((key, entry) ∷ rest) =
    let later = erase_seen seen rest in
    if entry.last_seen == seen then rest else (key, entry) ∷ later

evict : Tokens → Tokens
unfolding coldest erase_seen
evict [] = []
evict ((key, entry) ∷ rest) = erase_seen (coldest entry.last_seen rest) ((key, entry) ∷ rest)

insert_token : Text → Entry → Tokens → Tokens
insert_token token new [] = (token, new) ∷ []
insert_token token new ((key, entry) ∷ rest) =
    let later = insert_token token new rest in
    if token_less key token then (key, entry) ∷ later else (token, new) ∷ (key, entry) ∷ rest

-- `std::to_string` behind the prefix.
label_text : ℕ → ℕ → Text
label_text kind index = kind_prefix kind ++ b'#' ∷ decimal index

-- A token that is not held: at the cap the coldest one is dropped first.
mint : ℕ → ℕ → ℕ → Text → Bucket → Text × Bucket
unfolding evict coldest erase_seen insert_token label_text
mint kind cap now token b =
    let room = if leb cap (length b.tokens) then evict b.tokens else b.tokens in
    let text = label_text kind b.next_index in
    (
      text,
      record {
        tokens = insert_token token (record { text = text; last_seen = now }) room;
        next_index = (b.next_index + 1) % 2 ^ 32;
      },
    )

label_in : ℕ → ℕ → ℕ → Text → Bucket → Option Entry → Text × Bucket
unfolding touch mint
label_in kind cap now token b (some entry) =
    (entry.text, record b { tokens = touch token now b.tokens })
label_in kind cap now token b none = mint kind cap now token b

pub bucket_for : Option Bucket → Bucket
bucket_for none = record { tokens = []; next_index = 0 }
bucket_for (some b) = b

stored : LabelRegistry → ℕ → Text × Bucket → Text × LabelRegistry
stored r kind (text, b) =
    (text, record r { buckets = insert kind b r.buckets; clock = (r.clock + 1) % 2 ^ 64 })

-- The label, and the registry behind the call.
unfoldable pub label : ℕ → Text → LabelRegistry → Text × LabelRegistry
unfolding stored label_in touch mint bucket_for find_token same_token token_less evict coldest
    erase_seen insert_token label_text
label kind [] r = ([], r)
label kind (c ∷ cs) r =
    let token = c ∷ cs in
    let b = bucket_for (lookup kind r.buckets) in
    stored r kind
      (label_in kind r.max_per_kind ((r.clock + 1) % 2 ^ 64) token b (find_token token b.tokens))

unfoldable pub clear_labels : LabelRegistry → LabelRegistry
clear_labels r = record r { buckets = []; clock = 0 }

-- How many tokens of a kind are held.
unfoldable pub label_count : ℕ → LabelRegistry → ℕ
unfolding bucket_for
label_count kind r = length (bucket_for (lookup kind r.buckets)).tokens
