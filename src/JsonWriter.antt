-- ===== src/JsonWriter.antt =====
-- src/common/json_writer.h and json_writer.cpp: the streaming serializer. `levels` has the innermost
-- container first, and text is its bytes. A loop that is left by `return` is written with what comes
-- behind it as an argument. The sizes that `reserve` adds are those of strings in memory, so their sum
-- is a `size_t`.
pub mod Utf8
pub mod Document
pub mod Cap
use eos_reimagined.Base.{
  ℕ, zero, suc, ◌+◌, Bool, true, false, not, ◌&&◌, ◌||◌, List, [], ◌∷◌, ◌++◌, length, ltb, leb,
  ◌==◌, if◌then◌else◌,
}
use eos_reimagined.Base.Int.{ℤ, pos, negsuc}
use eos_reimagined.Base.Decimal.{decimal}
use eos_reimagined.ByteBuffer.{Text}
use eos_reimagined.JsonWriter.Utf8.{next_piece}

pub record Level : Type 0 where
  pub is_object : Bool
  pub first : Bool

pub record JsonWriter : Type 0 where
  pub out : Text
  pub levels : List Level
  pub max_bytes : ℕ
  pub after_key : Bool
  pub valid : Bool
  pub root_done : Bool

abbrev pub json_writer : ℕ → JsonWriter
json_writer max_bytes = record {
  out = [];
  levels = [];
  max_bytes = max_bytes;
  after_key = false;
  valid = true;
  root_done = false;
}

pub is_empty : {A : Type 0} → List A → Bool
is_empty [] = true
is_empty (x ∷ xs) = false

unfoldable pub ok : JsonWriter → Bool
unfolding is_empty
ok w = w.valid && w.root_done && is_empty w.levels

abbrev pub invalid : JsonWriter → JsonWriter
invalid w = record w { valid = false }

unfoldable pub reserve : ℕ → JsonWriter → Bool × JsonWriter
reserve n w =
    if not w.valid
    then (false, w)
    else if not (w.max_bytes == 0) && ltb w.max_bytes (length w.out + n)
    then (false, invalid w)
    else (true, w)

-- `if (!reserve(n)) { return; }`, and what comes behind it.
unfoldable pub if_reserved : (JsonWriter → JsonWriter) → Bool × JsonWriter → JsonWriter
if_reserved next (false, w) = w
if_reserved next (true, w) = next w

-- Bytes that are reserved and appended, and what comes behind them.
unfoldable pub append : Text → (JsonWriter → JsonWriter) → JsonWriter → JsonWriter
append bytes next w =
    if_reserved (λ r. next (record r { out = r.out ++ bytes })) (reserve (length bytes) w)

abbrev pub and_return : JsonWriter → JsonWriter
and_return w = w

pub set_levels : List Level → JsonWriter → JsonWriter
set_levels levels w = record w { levels = levels }

pub pre_value_at : List Level → JsonWriter → JsonWriter
unfolding set_levels is_empty
pre_value_at [] w = if w.root_done || not (is_empty w.out) then invalid w else w
pre_value_at (current ∷ outer) w =
    if current.is_object
    then (if not w.after_key then invalid w else record w { after_key = false })
    else if not current.first
    then append (b',' ∷ []) (set_levels (record current { first = false } ∷ outer)) w
    else set_levels (record current { first = false } ∷ outer) w

unfoldable pub pre_value : JsonWriter → JsonWriter
unfolding pre_value_at
pre_value w = if not w.valid then w else pre_value_at w.levels w

-- The loop over the bytes of a string, and what comes behind it. Each round takes one byte at least, so
-- as many rounds as bytes are enough.
pub write_pieces : ℕ → Text → (JsonWriter → JsonWriter) → JsonWriter → JsonWriter
write_pieces zero value next w = next w
write_pieces (suc fuel) [] next w = next w
write_pieces (suc fuel) (c ∷ value) next w =
    let (piece, rest) = next_piece c value in append piece (write_pieces fuel rest next) w

unfoldable pub write_string : Text → JsonWriter → JsonWriter
unfolding write_pieces
write_string value w =
    append (b'"' ∷ []) (write_pieces (length value) value (append (b'"' ∷ []) and_return)) w

-- `begin_object` and `begin_array`, by the bracket.
unfoldable pub begin_container : Bool → ℕ → JsonWriter → JsonWriter
unfolding set_levels
begin_container is_object bracket w =
    append (bracket ∷ [])
      (λ r. set_levels (record { is_object = is_object; first = true } ∷ r.levels) r) (pre_value w)

abbrev pub begin_object : JsonWriter → JsonWriter
begin_object w = begin_container true b'{' w

abbrev pub begin_array : JsonWriter → JsonWriter
begin_array w = begin_container false b'[' w

unfoldable pub mark_root_if_top : JsonWriter → JsonWriter
unfolding is_empty
mark_root_if_top w = if is_empty w.levels then record w { root_done = true } else w

-- The closing bracket is appended without `reserve`.
close : ℕ → List Level → JsonWriter → JsonWriter
close bracket outer w = mark_root_if_top (record w { out = w.out ++ bracket ∷ []; levels = outer })

end_object_at : List Level → JsonWriter → JsonWriter
unfolding close
end_object_at [] w = invalid w
end_object_at (current ∷ outer) w =
    if not current.is_object || w.after_key then invalid w else close b'}' outer w

end_array_at : List Level → JsonWriter → JsonWriter
unfolding close
end_array_at [] w = invalid w
end_array_at (current ∷ outer) w = if current.is_object then invalid w else close b']' outer w

unfoldable pub end_object : JsonWriter → JsonWriter
unfolding end_object_at close
end_object w = if not w.valid then w else end_object_at w.levels w

unfoldable pub end_array : JsonWriter → JsonWriter
unfolding end_array_at close
end_array w = if not w.valid then w else end_array_at w.levels w

-- `key` from the separator on.
write_key : Text → Level → List Level → JsonWriter → JsonWriter
unfolding set_levels
write_key name current outer w =
    append (b':' ∷ []) (λ r. record r { after_key = true })
      (write_string name (set_levels (record current { first = false } ∷ outer) w))

key_at : List Level → Text → JsonWriter → JsonWriter
unfolding write_key set_levels
key_at [] name w = invalid w
key_at (current ∷ outer) name w =
    if not current.is_object || w.after_key
    then invalid w
    else if not current.first
    then append (b',' ∷ []) (write_key name current outer) w
    else write_key name current outer w

unfoldable pub key : Text → JsonWriter → JsonWriter
unfolding key_at write_key set_levels
key name w = if not w.valid then w else key_at w.levels name w

-- `value_string` marks the root even where `write_string` has made the writer invalid.
unfoldable pub value_string : Text → JsonWriter → JsonWriter
value_string value w =
    let p = pre_value w in if not p.valid then p else mark_root_if_top (write_string value p)

-- `value_int` and the other scalars, by their text.
unfoldable pub value_text : Text → JsonWriter → JsonWriter
value_text text w = append text mark_root_if_top (pre_value w)

-- `std::to_string` of an i64.
unfoldable pub signed_decimal : ℤ → Text
signed_decimal (pos n) = decimal n
signed_decimal (negsuc n) = b'-' ∷ decimal (suc n)

unfoldable pub value_int : ℤ → JsonWriter → JsonWriter
value_int value w = value_text (signed_decimal value) w

unfoldable pub value_uint : ℕ → JsonWriter → JsonWriter
value_uint value w = value_text (decimal value) w

abbrev pub true_text : Text
true_text = 116 ∷ 114 ∷ 117 ∷ 101 ∷ []

abbrev pub false_text : Text
false_text = 102 ∷ 97 ∷ 108 ∷ 115 ∷ 101 ∷ []

abbrev pub null_text : Text
null_text = 110 ∷ 117 ∷ 108 ∷ 108 ∷ []

unfoldable pub value_bool : Bool → JsonWriter → JsonWriter
value_bool value w = value_text (if value then true_text else false_text) w

unfoldable pub value_null : JsonWriter → JsonWriter
value_null w = value_text null_text w

unfoldable pub field_string : Text → Text → JsonWriter → JsonWriter
field_string name value w = value_string value (key name w)

unfoldable pub field_int : Text → ℤ → JsonWriter → JsonWriter
field_int name value w = value_int value (key name w)

unfoldable pub field_uint : Text → ℕ → JsonWriter → JsonWriter
field_uint name value w = value_uint value (key name w)

unfoldable pub field_bool : Text → Bool → JsonWriter → JsonWriter
field_bool name value w = value_bool value (key name w)

unfoldable pub field_null : Text → JsonWriter → JsonWriter
field_null name w = value_null (key name w)
