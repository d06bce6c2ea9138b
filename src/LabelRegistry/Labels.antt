-- ===== src/LabelRegistry/Labels.antt =====
-- The bound on what a registry holds.
use eos_reimagined.Base.{
  ℕ, suc, ◌+◌, ◌%◌, ◌^◌, ◌≤◌, ◌<◌, ◌≡◌, refl, Bool, true, false, ◌||◌, Option, none, some, List, [],
  ◌∷◌, length, leb, ◌==◌, if◌then◌else◌, arith, Bool-cases, inl, inr,
}
use eos_reimagined.Base.Assoc.{Assoc, lookup, insert, lookup-insert}
use eos_reimagined.ByteBuffer.{Text}
use eos_reimagined.LabelRegistry.{
  Entry, Tokens, Bucket, LabelRegistry, label_registry, find_token, touch, coldest, erase_seen,
  evict, insert_token, mint, label_text, label_in, bucket_for, stored, label, clear_labels,
  label_count,
}

length-touch : (token : Text) (now : ℕ) (ts : Tokens) → length (touch token now ts) ≡ length ts
unfolding touch
length-touch token now [] = refl
length-touch token now ((key, entry) ∷ rest) = ground (arith, length-touch token now rest)

length-insert_token :
    (token : Text) (new : Entry) (ts : Tokens)
    → length (insert_token token new ts) ≡ suc (length ts)
unfolding insert_token
length-insert_token token new [] = refl
length-insert_token token new ((key, entry) ∷ rest) =
    ground (arith, length-insert_token token new rest)

-- Was a token seen then?
held : ℕ → Tokens → Bool
held seen [] = false
held seen ((key, entry) ∷ rest) = entry.last_seen == seen || held seen rest

coldest-held :
    (seen : ℕ) (ts : Tokens) → (coldest seen ts == seen || held (coldest seen ts) ts) ≡ true
unfolding coldest held
coldest-held seen [] = ground arith
coldest-held seen ((key, entry) ∷ rest) =
    ground (arith, coldest-held seen rest, coldest-held entry.last_seen rest)

length-erase_seen :
    (seen : ℕ) (ts : Tokens) → held seen ts ≡ true → length (erase_seen seen ts) + 1 ≡ length ts
unfolding erase_seen held
length-erase_seen seen [] h = absurd cc
length-erase_seen seen ((key, entry) ∷ rest) h = ground (arith, length-erase_seen seen rest, h)

length-evict : (ts : Tokens) → 1 ≤ length ts → length (evict ts) + 1 ≡ length ts
unfolding evict held
length-evict [] h = absurd (omega (arith, h))
length-evict ((key, entry) ∷ rest) h =
    length-erase_seen (coldest entry.last_seen rest) ((key, entry) ∷ rest)
      (ground (arith, coldest-held entry.last_seen rest))

-- A bucket within the cap stays within it.
label_in_bounded :
    (kind cap now : ℕ) (token : Text) (b : Bucket) (found : Option Entry)
    → 1 ≤ cap
    → length b.tokens ≤ cap
    → length (label_in kind cap now token b found).1.tokens ≤ cap
unfolding label_in mint
label_in_bounded kind cap now token b (some entry) one h =
    omega (arith, h, length-touch token now b.tokens)
label_in_bounded kind cap now token b none one h =
    let new : Entry = record { text = label_text kind b.next_index; last_seen = now } in
    elim (Bool-cases (leb cap (length b.tokens))) [
      | inl full ↦
          let evicted = length-evict b.tokens (ground (arith, full, one)) in
          rw full (omega (arith, h, evicted, length-insert_token token new (evict b.tokens)))
      | inr room ↦
          let less : length b.tokens < cap = ground (arith, room) in
          rw room (omega (arith, less, length-insert_token token new b.tokens))
    ]

-- No kind holds more than the cap.
IsBounded : LabelRegistry → Type 0
IsBounded r = (1 ≤ r.max_per_kind) × ((kind : ℕ) → label_count kind r ≤ r.max_per_kind)

pub bucket_for-insert :
    (kind other : ℕ) (b : Bucket) (m : Assoc Bucket)
    → bucket_for (lookup other (insert kind b m))
      ≡ (if kind == other then b else bucket_for (lookup other m))
unfolding bucket_for
bucket_for-insert kind other b m = elim (Bool-cases (kind == other)) [
  | inl here ↦ rw (lookup-insert kind other b m, here) refl
  | inr there ↦ rw (lookup-insert kind other b m, there) refl
]

label-IsBounded :
    (kind : ℕ) (token : Text) (r : LabelRegistry) → IsBounded r → IsBounded (label kind token r).1
unfolding label stored IsBounded label_count
label-IsBounded kind [] r bounded = bounded
label-IsBounded kind (c ∷ cs) r (one, most) =
    let token = c ∷ cs in
    let b = bucket_for (lookup kind r.buckets) in
    let now = (r.clock + 1) % 2 ^ 64 in
    let found = find_token token b.tokens in
    let b' = (label_in kind r.max_per_kind now token b found).1 in
    let within = label_in_bounded kind r.max_per_kind now token b found one (most kind) in
    (
      one,
      λ other. elim (Bool-cases (kind == other)) [
        | inl here ↦ rw (bucket_for-insert kind other b' r.buckets, here) within
        | inr there ↦ rw (bucket_for-insert kind other b' r.buckets, there) (most other)
      ],
    )

-- Calls in turn.
pub data LabelCall : Type 0 where
  call_label : ℕ → Text → LabelCall
  call_clear : LabelCall

unfoldable pub labelled_all : List LabelCall → LabelRegistry → LabelRegistry
labelled_all [] r = r
labelled_all (call_label kind token ∷ cs) r = labelled_all cs (label kind token r).1
labelled_all (call_clear ∷ cs) r = labelled_all cs (clear_labels r)

labelled_all-IsBounded :
    (cs : List LabelCall) (r : LabelRegistry) → IsBounded r → IsBounded (labelled_all cs r)
unfolding labelled_all IsBounded
labelled_all-IsBounded [] r bounded = bounded
labelled_all-IsBounded (call_label kind token ∷ cs) r bounded =
    labelled_all-IsBounded cs (label kind token r).1 (label-IsBounded kind token r bounded)
labelled_all-IsBounded (call_clear ∷ cs) r (one, most) =
    labelled_all-IsBounded cs (clear_labels r)
      (unfold IsBounded label_count clear_labels bucket_for lookup in (one, λ kind. omega arith))

labelled_all_cap :
    (cs : List LabelCall) (r : LabelRegistry) → (labelled_all cs r).max_per_kind ≡ r.max_per_kind
unfolding labelled_all label stored clear_labels
labelled_all_cap [] r = refl
labelled_all_cap (call_label kind [] ∷ cs) r = labelled_all_cap cs r
labelled_all_cap (call_label kind (c ∷ token) ∷ cs) r =
    labelled_all_cap cs (label kind (c ∷ token) r).1
labelled_all_cap (call_clear ∷ cs) r = labelled_all_cap cs (clear_labels r)

-- After any calls on a new registry with a cap that is not zero, no kind holds more tokens than the cap.
pub label_count_bounded :
    (max_per_kind : ℕ) (cs : List LabelCall) (kind : ℕ)
    → 1 ≤ max_per_kind
    → label_count kind (labelled_all cs (label_registry max_per_kind)) ≤ max_per_kind
unfolding IsBounded
label_count_bounded max_per_kind cs kind one =
    let r = label_registry max_per_kind in
    let cap : r.max_per_kind ≡ max_per_kind = unfold label_registry in ground (arith, one) in
    let start : IsBounded r =
      unfold IsBounded label_registry label_count bucket_for lookup in
      ((ground (arith, one)), λ k. omega arith) in
    let most = (labelled_all-IsBounded cs r start).1 kind in
    omega (arith, most, labelled_all_cap cs r, cap)
