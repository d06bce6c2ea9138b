-- ===== src/LabelRegistry/Unique.antt =====
-- No two tokens that are held share a label.
use mathlib.Core.Path.{subst}
use eos_reimagined.Base.{
  ℕ, ◌+◌, ◌%◌, ◌^◌, ◌≤◌, ◌<◌, ◌≡◌, refl, sym, ap, ◌∙◌, true, Option, none, some, List, [], ◌∷◌,
  length, leb, ◌==◌, if◌then◌else◌, arith, Bool-cases, inl, inr,
}
use eos_reimagined.Base.Assoc.{lookup}
use eos_reimagined.Base.Decimal.{decimal, decimal_value, decimal_value-decimal}
use eos_reimagined.ByteBuffer.{Text}
use eos_reimagined.Crypto.Encoder.Injective.{append_cancel}
use eos_reimagined.LabelRegistry.Labels.{
  bucket_for-insert, LabelCall, call_label, call_clear, labelled_all,
}
use eos_reimagined.LabelRegistry.{
  Entry, Tokens, Bucket, LabelRegistry, label_registry, kind_prefix, same_token, find_token, touch,
  erase_seen, evict, insert_token, mint, label_text, label_in, bucket_for, stored, label,
  clear_labels,
}

same_token_sound : (s t : Text) → same_token s t ≡ true → s ≡ t
unfolding same_token
same_token_sound [] [] h = refl
same_token_sound [] (y ∷ t) h = absurd cc
same_token_sound (x ∷ s) [] h = absurd cc
same_token_sound (x ∷ s) (y ∷ t) h =
    let heads : x ≡ y = ground (arith, h) in
    let tails : s ≡ t = same_token_sound s t (ground (arith, h)) in λ i. heads i ∷ tails i

-- Labels of one kind with different numbers differ.
label_text_injective : (kind i j : ℕ) → label_text kind i ≡ label_text kind j → i ≡ j
unfolding label_text
label_text_injective kind i j e =
    let (same, rest) = append_cancel (kind_prefix kind) (kind_prefix kind) _ _ refl e in
    let digits : decimal i ≡ decimal j = cc in
    sym (decimal_value-decimal i) ∙ (ap decimal_value digits ∙ decimal_value-decimal j)

-- How often a label stands among the tokens.
pub times : Text → Tokens → ℕ
times t [] = 0
times t ((key, entry) ∷ rest) = (if same_token entry.text t then 1 else 0) + times t rest

times-touch : (t token : Text) (now : ℕ) (ts : Tokens) → times t (touch token now ts) ≡ times t ts
unfolding times touch
times-touch t token now [] = refl
times-touch t token now ((key, entry) ∷ rest) = ground (arith, times-touch t token now rest)

times-insert_token :
    (t token : Text) (new : Entry) (ts : Tokens)
    → times t (insert_token token new ts) ≡ (if same_token new.text t then 1 else 0) + times t ts
unfolding times insert_token
times-insert_token t token new [] = refl
times-insert_token t token new ((key, entry) ∷ rest) =
    ground (arith, times-insert_token t token new rest)

times-erase_seen : (t : Text) (seen : ℕ) (ts : Tokens) → times t (erase_seen seen ts) ≤ times t ts
unfolding times erase_seen
times-erase_seen t seen [] = omega arith
times-erase_seen t seen ((key, entry) ∷ rest) = ground (arith, times-erase_seen t seen rest)

times-evict : (t : Text) (ts : Tokens) → times t (evict ts) ≤ times t ts
unfolding evict
times-evict t [] = omega arith
times-evict t ((key, entry) ∷ rest) = times-erase_seen t _ ((key, entry) ∷ rest)

-- In a bucket: no label stands twice, and none whose number is still to come stands at all.
record IsUnique (kind : ℕ) (b : Bucket) : Type 0 where
  once : (t : Text) → times t b.tokens ≤ 1
  ahead : (i : ℕ) → b.next_index ≤ i → times (label_text kind i) b.tokens ≡ 0

room_for : ℕ → Tokens → Tokens
room_for cap ts = if leb cap (length ts) then evict ts else ts

times-room_for : (t : Text) (cap : ℕ) (ts : Tokens) → times t (room_for cap ts) ≤ times t ts
unfolding room_for
times-room_for t cap ts = elim (Bool-cases (leb cap (length ts))) [
  | inl full ↦ rw full (times-evict t ts)
  | inr room ↦ rw room (omega arith)
]

-- A label that is minted.
mint-IsUnique :
    (kind cap now : ℕ) (token : Text) (b : Bucket)
    → b.next_index + 1 < 2 ^ 32
    → IsUnique kind b
    → IsUnique kind (mint kind cap now token b).1
unfolding mint room_for
mint-IsUnique kind cap now token b few unique =
    let text = label_text kind b.next_index in
    let new : Entry = record { text = text; last_seen = now } in
    let room = room_for cap b.tokens in
    record {
      once = λ t. elim (Bool-cases (same_token text t)) [
        | inl same ↦
            let named : text ≡ t = same_token_sound text t same in
            let none_yet : times t b.tokens ≡ 0 =
              rw (← named) (unique.ahead b.next_index (omega arith)) in
            ground (
              arith,
              same,
              times-insert_token t token new room,
              times-room_for t cap b.tokens,
              none_yet,
            )
        | inr other ↦ ground (
          arith,
          other,
          times-insert_token t token new room,
          times-room_for t cap b.tokens,
          unique.once t,
        )
      ];
      ahead = λ i le. elim (Bool-cases (same_token text (label_text kind i))) [
        | inl same ↦
            let clash : b.next_index ≡ i =
              label_text_injective kind b.next_index i (same_token_sound text _ same) in
            absurd (omega (arith, clash, le, few))
        | inr other ↦
            let later : b.next_index ≤ i = omega (arith, le, few) in
            ground (
              arith,
              other,
              times-insert_token (label_text kind i) token new room,
              times-room_for (label_text kind i) cap b.tokens,
              unique.ahead i later,
            )
      ];
    }

label_in-IsUnique :
    (kind cap now : ℕ) (token : Text) (b : Bucket) (found : Option Entry)
    → b.next_index + 1 < 2 ^ 32
    → IsUnique kind b
    → IsUnique kind (label_in kind cap now token b found).1
unfolding label_in
label_in-IsUnique kind cap now token b none few unique =
    mint-IsUnique kind cap now token b few unique
label_in-IsUnique kind cap now token b (some entry) few unique = record {
  once = λ t. omega (arith, times-touch t token now b.tokens, unique.once t);
  ahead = λ i le. times-touch (label_text kind i) token now b.tokens ∙ unique.ahead i le;
}

-- In a registry: every bucket is unique, and none has counted more than the calls so far.
record AllUnique (calls : ℕ) (r : LabelRegistry) : Type 0 where
  unique : (kind : ℕ) → IsUnique kind (bucket_for (lookup kind r.buckets))
  counted : (kind : ℕ) → (bucket_for (lookup kind r.buckets)).next_index ≤ calls

label_in_counted :
    (kind cap now : ℕ) (token : Text) (b : Bucket) (found : Option Entry)
    → b.next_index + 1 < 2 ^ 32
    → (label_in kind cap now token b found).1.next_index ≤ b.next_index + 1
unfolding label_in mint
label_in_counted kind cap now token b none few = omega (arith, few)
label_in_counted kind cap now token b (some entry) few = omega arith

label-AllUnique :
    (calls kind : ℕ) (token : Text) (r : LabelRegistry)
    → calls + 1 < 2 ^ 32
    → AllUnique calls r
    → AllUnique (calls + 1) (label kind token r).1
unfolding label stored
label-AllUnique calls kind [] r few all = record {
  unique = all.unique;
  counted = λ k. omega (arith, all.counted k);
}
label-AllUnique calls kind (c ∷ cs) r few all =
    let token = c ∷ cs in
    let b = bucket_for (lookup kind r.buckets) in
    let now = (r.clock + 1) % 2 ^ 64 in
    let found = find_token token b.tokens in
    let b' = (label_in kind r.max_per_kind now token b found).1 in
    let few_here : b.next_index + 1 < 2 ^ 32 = omega (arith, few, all.counted kind) in
    let still =
      label_in-IsUnique kind r.max_per_kind now token b found few_here (all.unique kind) in
    let more = label_in_counted kind r.max_per_kind now token b found few_here in
    record {
      unique = λ other. elim (Bool-cases (kind == other)) [
        | inl here ↦
            let same : kind ≡ other = ground (arith, here) in
            rw (bucket_for-insert kind other b' r.buckets, here)
              (subst (λ x. IsUnique x b') same still)
        | inr there ↦ rw (bucket_for-insert kind other b' r.buckets, there) (all.unique other)
      ];
      counted = λ other. elim (Bool-cases (kind == other)) [
        | inl here ↦
            rw (bucket_for-insert kind other b' r.buckets, here)
              (omega (arith, more, all.counted kind))
        | inr there ↦
            rw (bucket_for-insert kind other b' r.buckets, there) (omega (arith, all.counted other))
      ];
    }

cleared-AllUnique : (calls : ℕ) (r : LabelRegistry) → r.buckets ≡ [] → AllUnique calls r
unfolding times bucket_for lookup
cleared-AllUnique calls r empty = record {
  unique = λ kind. rw empty (record { once = λ t. omega arith; ahead = λ i le. refl });
  counted = λ kind. rw empty (omega arith);
}

labelled_all-AllUnique :
    (cs : List LabelCall) (calls : ℕ) (r : LabelRegistry)
    → calls + length cs < 2 ^ 32
    → AllUnique calls r
    → AllUnique (calls + length cs) (labelled_all cs r)
unfolding labelled_all clear_labels
labelled_all-AllUnique [] calls r few all = record {
  unique = all.unique;
  counted = λ k. omega (arith, all.counted k);
}
labelled_all-AllUnique (call_label kind token ∷ cs) calls r few all =
    let next = label-AllUnique calls kind token r (omega (arith, few)) all in
    let rest =
      labelled_all-AllUnique cs (calls + 1) (label kind token r).1 (omega (arith, few)) next in
    record { unique = rest.unique; counted = λ k. omega (arith, rest.counted k) }
labelled_all-AllUnique (call_clear ∷ cs) calls r few all =
    let next = cleared-AllUnique (calls + 1) (clear_labels r) refl in
    let rest = labelled_all-AllUnique cs (calls + 1) (clear_labels r) (omega (arith, few)) next in
    record { unique = rest.unique; counted = λ k. omega (arith, rest.counted k) }

-- After fewer than 2^32 calls on a new registry, a text is the label of at most one of the tokens of a
-- kind that are held.
pub labels_unique :
    (max_per_kind : ℕ) (cs : List LabelCall) (kind : ℕ) (t : Text)
    → length cs < 2 ^ 32
    → let r = labelled_all cs (label_registry max_per_kind) in
      times t (bucket_for (lookup kind r.buckets)).tokens ≤ 1
labels_unique max_per_kind cs kind t few =
    let r = label_registry max_per_kind in
    let start = cleared-AllUnique 0 r (unfold label_registry in refl) in
    ((labelled_all-AllUnique cs 0 r (omega (arith, few)) start).unique kind).once t
