-- ===== src/JsonWriter/Cap.antt =====
-- The cap on the serialized output.
use eos_reimagined.Base.{
  ℕ, zero, suc, ◌+◌, ◌≤◌, ◌<◌, ◌≡◌, refl, inl, inr, Bool, true, false, not, ◌&&◌, List, [], ◌∷◌,
  length, length-append, arith, ltb, ◌==◌, Bool-cases, if◌then◌else◌,
}
use eos_reimagined.Base.Int.{ℤ}
use eos_reimagined.ByteBuffer.{Text}
use eos_reimagined.JsonWriter.{
  JsonWriter, Level, json_writer, write_key, key_at, ok, append, if_reserved, reserve, and_return,
  set_levels, pre_value, pre_value_at, write_pieces, write_string, begin_container,
  mark_root_if_top, close, end_object, end_object_at, end_array, end_array_at, invalid,
  begin_object, begin_array, value_int, value_uint, value_bool, value_null, key, value_string,
  value_text, is_empty,
}

-- The cap that the header promises, up to `n` bytes.
pub record Within (n max : ℕ) (w : JsonWriter) : Type 0 where
  pub same : w.max_bytes ≡ max
  pub fits : length w.out ≤ max + n

module _ (n max : ℕ) (capped : 1 ≤ max) where
  append-Within :
      (bytes : Text) (next : JsonWriter → JsonWriter) (w : JsonWriter)
      → ((v : JsonWriter) → Within n max v → Within n max (next v))
      → Within n max w
      → Within n max (append bytes next w)
  unfolding append reserve if_reserved
  append-Within bytes next w h i =
      let over = not (w.max_bytes == 0) && ltb w.max_bytes (length w.out + length bytes) in
      elim (Bool-cases w.valid) [
        | inr bad ↦ simp bad i
        | inl good ↦ elim (Bool-cases over) [
          | inl big ↦ simp (good, big) (record { same = i.same; fits = i.fits })
          | inr small ↦
              simp (good, small)
                (h _ (record {
                  same = i.same;
                  fits = ground (arith, i.same, i.fits, length-append w.out bytes);
                }))
        ]
      ]

  set_levels-Within :
      (ls : List Level) (w : JsonWriter) → Within n max w → Within n max (set_levels ls w)
  unfolding set_levels
  set_levels-Within ls w i = record { same = i.same; fits = i.fits }

  if-Within :
      (b : Bool) (v w : JsonWriter)
      → Within n max v
      → Within n max w
      → Within n max (if b then v else w)
  if-Within true v w i j = i
  if-Within false v w i j = j

  invalid-Within : (w : JsonWriter) → Within n max w → Within n max (invalid w)
  invalid-Within w i = record { same = i.same; fits = i.fits }

  pre_value_at-Within :
      (ls : List Level) (w : JsonWriter) → Within n max w → Within n max (pre_value_at ls w)
  unfolding pre_value_at
  pre_value_at-Within [] w i = if-Within _ _ _ (invalid-Within w i) i
  pre_value_at-Within (l ∷ ls) w i =
      if-Within _ _ _
        (if-Within _ _ _ (invalid-Within w i) (record { same = i.same; fits = i.fits }))
        (if-Within _ _ _ (append-Within _ _ w (set_levels-Within _) i) (set_levels-Within _ w i))

  pre_value-Within : (w : JsonWriter) → Within n max w → Within n max (pre_value w)
  unfolding pre_value
  pre_value-Within w i = if-Within _ _ _ i (pre_value_at-Within w.levels w i)

  write_pieces-Within :
      (fuel : ℕ) (s : Text) (next : JsonWriter → JsonWriter) (w : JsonWriter)
      → ((v : JsonWriter) → Within n max v → Within n max (next v))
      → Within n max w
      → Within n max (write_pieces fuel s next w)
  unfolding write_pieces
  write_pieces-Within zero s next w h i = h w i
  write_pieces-Within (suc fuel) [] next w h i = h w i
  write_pieces-Within (suc fuel) (c ∷ s) next w h i =
      append-Within _ _ w (λ v j. write_pieces-Within fuel _ next v h j) i

  write_string-Within :
      (s : Text) (w : JsonWriter) → Within n max w → Within n max (write_string s w)
  unfolding write_string
  write_string-Within s w i =
      append-Within _ _ w
        (λ v j.
          write_pieces-Within (length s) s (append (b'"' ∷ []) and_return) v
            (λ u k. append-Within (b'"' ∷ []) and_return u (λ t l. l) k) j)
        i

  mark_root-Within : (w : JsonWriter) → Within n max w → Within n max (mark_root_if_top w)
  unfolding mark_root_if_top
  mark_root-Within w i = if-Within _ _ _ (record { same = i.same; fits = i.fits }) i

  begin_container-Within :
      (b : Bool) (bracket : ℕ) (w : JsonWriter)
      → Within n max w
      → Within n max (begin_container b bracket w)
  unfolding begin_container
  begin_container-Within b bracket w i =
      append-Within _ _ _ (λ v j. set_levels-Within _ v j) (pre_value-Within w i)

  write_key-Within :
      (name : Text) (l : Level) (ls : List Level) (w : JsonWriter)
      → Within n max w
      → Within n max (write_key name l ls w)
  unfolding write_key
  write_key-Within name l ls w i =
      append-Within _ _ _ (λ v j. record { same = j.same; fits = j.fits })
        (write_string-Within name _ (set_levels-Within _ w i))

  key_at-Within :
      (ls : List Level) (name : Text) (w : JsonWriter)
      → Within n max w
      → Within n max (key_at ls name w)
  unfolding key_at
  key_at-Within [] name w i = invalid-Within w i
  key_at-Within (l ∷ ls) name w i = if-Within _ _ _ (invalid-Within w i) (
      if-Within _ _ _ (append-Within _ _ w (write_key-Within name l ls) i)
        (write_key-Within name l ls w i))

  key-Within : (name : Text) (w : JsonWriter) → Within n max w → Within n max (key name w)
  unfolding key
  key-Within name w i = if-Within _ _ _ i (key_at-Within w.levels name w i)

  value_string-Within :
      (s : Text) (w : JsonWriter) → Within n max w → Within n max (value_string s w)
  unfolding value_string
  value_string-Within s w i =
      let j = pre_value-Within w i in
      if-Within _ _ _ j (mark_root-Within _ (write_string-Within s _ j))

  value_text-Within : (s : Text) (w : JsonWriter) → Within n max w → Within n max (value_text s w)
  unfolding value_text
  value_text-Within s w i = append-Within _ _ _ mark_root-Within (pre_value-Within w i)

Within-more : {n k max : ℕ} {w : JsonWriter} → n ≤ k → Within n max w → Within k max w
Within-more le i = record { same = i.same; fits = omega (arith, i.fits) }

close-Within :
    (n max bracket : ℕ) (ls : List Level) (w : JsonWriter)
    → 1 ≤ max
    → Within n max w
    → Within (suc n) max (close bracket ls w)
unfolding close
close-Within n max bracket ls w h i =
    mark_root-Within (suc n) max h _
      (record { same = i.same; fits = omega (arith, i.fits, length-append w.out (bracket ∷ [])) })

end_object-Within :
    (n max : ℕ) (w : JsonWriter) → 1 ≤ max → Within n max w → Within (suc n) max (end_object w)
unfolding end_object end_object_at
end_object-Within n max w h i =
    if-Within (suc n) max h _ _ _ (Within-more (omega arith) i) (go w.levels)
  where
    go : (ls : List Level) → Within (suc n) max (end_object_at ls w)
    go [] = invalid-Within (suc n) max h w (Within-more (omega arith) i)
    go (l ∷ ls) =
        if-Within (suc n) max h _ _ _ (invalid-Within (suc n) max h w (Within-more (omega arith) i))
          (close-Within n max b'}' ls w h i)

end_array-Within :
    (n max : ℕ) (w : JsonWriter) → 1 ≤ max → Within n max w → Within (suc n) max (end_array w)
unfolding end_array end_array_at
end_array-Within n max w h i =
    if-Within (suc n) max h _ _ _ (Within-more (omega arith) i) (go w.levels)
  where
    go : (ls : List Level) → Within (suc n) max (end_array_at ls w)
    go [] = invalid-Within (suc n) max h w (Within-more (omega arith) i)
    go (l ∷ ls) =
        if-Within (suc n) max h _ _ _ (invalid-Within (suc n) max h w (Within-more (omega arith) i))
          (close-Within n max b']' ls w h i)

-- The calls of a writer; a field call is a key and a value.
pub data Call : Type 0 where
  begins_object : Call
  ends_object : Call
  begins_array : Call
  ends_array : Call
  keys : Text → Call
  strings : Text → Call
  ints : ℤ → Call
  uints : ℕ → Call
  bools : Bool → Call
  nulls : Call

pub call : Call → JsonWriter → JsonWriter
call begins_object w = begin_object w
call ends_object w = end_object w
call begins_array w = begin_array w
call ends_array w = end_array w
call (keys name) w = key name w
call (strings s) w = value_string s w
call (ints z) w = value_int z w
call (uints n) w = value_uint n w
call (bools b) w = value_bool b w
call nulls w = value_null w

pub calls : List Call → JsonWriter → JsonWriter
unfolding call
calls [] w = w
calls (c ∷ cs) w = calls cs (call c w)

is_end : Call → ℕ
is_end ends_object = 1
is_end ends_array = 1
is_end other = 0

pub ends : List Call → ℕ
unfolding is_end
ends [] = 0
ends (c ∷ cs) = is_end c + ends cs

call-Within :
    (n max : ℕ) (c : Call) (w : JsonWriter)
    → 1 ≤ max
    → Within n max w
    → Within (is_end c + n) max (call c w)
unfolding call is_end value_int value_uint value_bool value_null
call-Within n max ends_object w h i = Within-more (omega arith) (end_object-Within n max w h i)
call-Within n max ends_array w h i = Within-more (omega arith) (end_array-Within n max w h i)
call-Within n max begins_object w h i =
    Within-more (omega arith) (begin_container-Within n max h true b'{' w i)
call-Within n max begins_array w h i =
    Within-more (omega arith) (begin_container-Within n max h false b'[' w i)
call-Within n max (keys name) w h i = Within-more (omega arith) (key-Within n max h name w i)
call-Within n max (strings s) w h i = Within-more (omega arith) (value_string-Within n max h s w i)
call-Within n max (ints z) w h i = Within-more (omega arith) (value_text-Within n max h _ w i)
call-Within n max (uints k) w h i = Within-more (omega arith) (value_text-Within n max h _ w i)
call-Within n max (bools b) w h i = Within-more (omega arith) (value_text-Within n max h _ w i)
call-Within n max nulls w h i = Within-more (omega arith) (value_text-Within n max h _ w i)

calls-Within :
    (n max : ℕ) (cs : List Call) (w : JsonWriter)
    → 1 ≤ max
    → Within n max w
    → Within (ends cs + n) max (calls cs w)
unfolding calls ends
calls-Within n max [] w h i = Within-more (omega arith) i
calls-Within n max (c ∷ cs) w h i =
    Within-more (omega arith)
      (calls-Within (is_end c + n) max cs (call c w) h (call-Within n max c w h i))

-- Whatever is called on a new writer with a cap of a byte or more, the output is within the cap and one byte for each
-- call of `end_object` or `end_array`.
pub calls_within_cap :
    (max : ℕ) (cs : List Call) → 1 ≤ max → length (calls cs (json_writer max)).out ≤ max + ends cs
calls_within_cap max cs h =
    let i =
      calls-Within 0 max cs (json_writer max) h (record { same = refl; fits = omega arith }) in
    omega (arith, i.fits)

-- A writer that is full but for the closing bracket of its only object goes beyond its cap by closing
-- it, and `ok` still says that the document is whole and within the cap.
pub end_object_overruns :
    (w : JsonWriter) (current : Level)
    → w.valid ≡ true
    → w.levels ≡ current ∷ []
    → current.is_object ≡ true
    → w.after_key ≡ false
    → length w.out ≡ w.max_bytes
    → (ok (end_object w) ≡ true) × ((end_object w).max_bytes < length (end_object w).out)
unfolding end_object end_object_at close ok mark_root_if_top is_empty
end_object_overruns w current v l o k full =
    simp (v, l, o, k) (refl, omega (arith, length-append w.out (b'}' ∷ []), full))
