-- ===== src/JsonWriter/Document.antt =====
-- The calls that write a document, against the text of the document.
pub mod Strings
pub mod Grammar
use eos_reimagined.Base.{
  ℕ, zero, suc, ◌≡◌, refl, ap, ◌∙◌, Bool, true, false, List, [], ◌∷◌, ◌++◌, append_assoc,
  append-nil, length, if◌then◌else◌,
}
use eos_reimagined.Base.Int.{ℤ}
use eos_reimagined.Base.Decimal.{decimal}
use eos_reimagined.ByteBuffer.{Text}
use eos_reimagined.JsonWriter.Utf8.{next_piece}
use eos_reimagined.JsonWriter.{
  JsonWriter, Level, json_writer, write_key, key_at, ok, append, if_reserved, reserve, and_return,
  set_levels, pre_value, write_pieces, write_string, begin_object, begin_array, begin_container,
  mark_root_if_top, end_object, end_array, key, value_string, value_text, value_int, value_uint,
  value_bool, value_null, signed_decimal, true_text, false_text, null_text,
}

mutual
  pub data Json : Type 0 where
    null : Json
    bool : Bool → Json
    int : ℤ → Json
    uint : ℕ → Json
    string : Text → Json
    array : Items → Json
    object : Fields → Json

  pub data Items : Type 0 where
    no_item : Items
    item : Json → Items → Items

  pub data Fields : Type 0 where
    no_field : Fields
    field : Text → Json → Fields → Fields

-- The text of a document, with nothing of the writer's state.
escaped : ℕ → Text → Text
escaped zero s = []
escaped (suc fuel) [] = []
escaped (suc fuel) (c ∷ s) = let (piece, rest) = next_piece c s in piece ++ escaped fuel rest

pub quoted : Text → Text
unfolding escaped
quoted s = b'"' ∷ escaped (length s) s ++ b'"' ∷ []

pub comma : Bool → Text
comma true = []
comma false = b',' ∷ []

mutual
  pub render : Json → Text
  render null = null_text
  render (bool b) = if b then true_text else false_text
  render (int z) = signed_decimal z
  render (uint n) = decimal n
  render (string s) = quoted s
  render (array items) = b'[' ∷ render_items true items ++ b']' ∷ []
  render (object fields) = b'{' ∷ render_fields true fields ++ b'}' ∷ []

  pub render_items : Bool → Items → Text
  render_items first no_item = []
  render_items first (item j items) = comma first ++ render j ++ render_items false items

  pub render_fields : Bool → Fields → Text
  render_fields first no_field = []
  render_fields first (field name j fields) =
      comma first ++ quoted name ++ b':' ∷ render j ++ render_fields false fields

-- The calls that write it.
mutual
  pub write_json : Json → JsonWriter → JsonWriter
  write_json null w = value_null w
  write_json (bool b) w = value_bool b w
  write_json (int z) w = value_int z w
  write_json (uint n) w = value_uint n w
  write_json (string s) w = value_string s w
  write_json (array items) w = end_array (write_items items (begin_array w))
  write_json (object fields) w = end_object (write_fields fields (begin_object w))

  pub write_items : Items → JsonWriter → JsonWriter
  write_items no_item w = w
  write_items (item j items) w = write_items items (write_json j w)

  pub write_fields : Fields → JsonWriter → JsonWriter
  write_fields no_field w = w
  write_fields (field name j fields) w = write_fields fields (write_json j (key name w))

-- A valid writer without a cap, between a value and the next call.
abbrev at : Text → List Level → Bool → Bool → JsonWriter
at out levels after root = record {
  out = out;
  levels = levels;
  max_bytes = 0;
  after_key = after;
  valid = true;
  root_done = root;
}

append-at :
    (bytes : Text) (next : JsonWriter → JsonWriter) (o : Text) (ls : List Level) (k r : Bool)
    → append bytes next (at o ls k r) ≡ next (at (o ++ bytes) ls k r)
unfolding append reserve if_reserved
append-at bytes next o ls k r = refl

write_pieces-at :
    (fuel : ℕ) (s : Text) (next : JsonWriter → JsonWriter) (o : Text) (ls : List Level) (k r : Bool)
    → write_pieces fuel s next (at o ls k r) ≡ next (at (o ++ escaped fuel s) ls k r)
unfolding write_pieces escaped
write_pieces-at zero s next o ls k r = rw append-nil
write_pieces-at (suc fuel) [] next o ls k r = rw append-nil
write_pieces-at (suc fuel) (c ∷ s) next o ls k r =
    let (piece, rest) = next_piece c s in
    append-at piece (write_pieces fuel rest next) o ls k r
    ∙ (write_pieces-at fuel rest next (o ++ piece) ls k r
        ∙ rw (append_assoc o piece (escaped fuel rest)))

write_string-at :
    (s o : Text) (ls : List Level) (k r : Bool)
    → write_string s (at o ls k r) ≡ at (o ++ quoted s) ls k r
unfolding write_string quoted
write_string-at s o ls k r =
    append-at (b'"' ∷ []) _ o ls k r
    ∙ (write_pieces-at (length s) s _ (o ++ b'"' ∷ []) ls k r
        ∙ (append-at (b'"' ∷ []) and_return _ ls k r ∙ ap (λ t. at t ls k r) (simp append_assoc)))

abbrev finish : Text → List Level → Bool → JsonWriter
finish o [] r = at o [] false true
finish o (l ∷ ls) r = at o (l ∷ ls) false r

mark_root-at :
    (o : Text) (ls : List Level) (r : Bool) → mark_root_if_top (at o ls false r) ≡ finish o ls r
unfolding mark_root_if_top
mark_root-at o [] r = refl
mark_root-at o (l ∷ ls) r = refl

value_text-at :
    (text : Text) (w : JsonWriter) (o : Text) (ls : List Level) (r : Bool)
    → pre_value w ≡ at o ls false r
    → value_text text w ≡ finish (o ++ text) ls r
unfolding value_text
value_text-at text w o ls r e =
    rw e (append-at text mark_root_if_top o ls false r ∙ mark_root-at (o ++ text) ls r)

value_string-at :
    (s : Text) (w : JsonWriter) (o : Text) (ls : List Level) (r : Bool)
    → pre_value w ≡ at o ls false r
    → value_string s w ≡ finish (o ++ quoted s) ls r
unfolding value_string
value_string-at s w o ls r e =
    rw (e, write_string-at s o ls false r) (mark_root-at (o ++ quoted s) ls r)

begin-at :
    (b : Bool) (bracket : ℕ) (w : JsonWriter) (o : Text) (ls : List Level) (r : Bool)
    → pre_value w ≡ at o ls false r
    → begin_container b bracket w
      ≡ at (o ++ bracket ∷ []) (record { is_object = b; first = true } ∷ ls) false r
unfolding begin_container
begin-at b bracket w o ls r e = rw e (append-at (bracket ∷ []) _ o ls false r)

end_array-at :
    (f : Bool) (o : Text) (ls : List Level) (r : Bool)
    → end_array (at o (record { is_object = false; first = f } ∷ ls) false r)
      ≡ finish (o ++ b']' ∷ []) ls r
unfolding end_array
end_array-at f o ls r = mark_root-at (o ++ b']' ∷ []) ls r

end_object-at :
    (f : Bool) (o : Text) (ls : List Level) (r : Bool)
    → end_object (at o (record { is_object = true; first = f } ∷ ls) false r)
      ≡ finish (o ++ b'}' ∷ []) ls r
unfolding end_object
end_object-at f o ls r = mark_root-at (o ++ b'}' ∷ []) ls r

abbrev in_array : Bool → Level
in_array f = record { is_object = false; first = f }

abbrev in_object : Bool → Level
in_object f = record { is_object = true; first = f }

pre_item-at :
    (f : Bool) (o : Text) (ls : List Level) (r : Bool)
    → pre_value (at o (in_array f ∷ ls) false r) ≡ at (o ++ comma f) (in_array false ∷ ls) false r
unfolding pre_value comma set_levels
pre_item-at true o ls r = rw append-nil
pre_item-at false o ls r = append-at (b',' ∷ []) _ o (in_array false ∷ ls) false r

write_key-at :
    (name : Text) (f : Bool) (o : Text) (ls ms : List Level) (r : Bool)
    → write_key name (in_object f) ls (at o ms false r)
      ≡ at ((o ++ quoted name) ++ b':' ∷ []) (in_object false ∷ ls) true r
unfolding write_key set_levels
write_key-at name f o ls ms r =
    rw (write_string-at name o (in_object false ∷ ls) false r)
      (append-at (b':' ∷ []) _ (o ++ quoted name) (in_object false ∷ ls) false r)

key-at :
    (name : Text) (f : Bool) (o : Text) (ls : List Level) (r : Bool)
    → key name (at o (in_object f ∷ ls) false r)
      ≡ at (((o ++ comma f) ++ quoted name) ++ b':' ∷ []) (in_object false ∷ ls) true r
unfolding key key_at comma
key-at name true o ls r = rw append-nil (write_key-at name true o ls (in_object true ∷ ls) r)
key-at name false o ls r =
    append-at (b',' ∷ []) _ o (in_object false ∷ ls) false r
    ∙ write_key-at name false (o ++ b',' ∷ []) ls (in_object false ∷ ls) r

pre_field-at :
    (o : Text) (ls : List Level) (r : Bool)
    → pre_value (at o (in_object false ∷ ls) true r) ≡ at o (in_object false ∷ ls) false r
unfolding pre_value
pre_field-at o ls r = refl

mutual
  unfolding write_json write_items write_fields render render_items render_fields value_null
      value_bool value_int value_uint

  write_json-at :
      (j : Json) (w : JsonWriter) (o : Text) (ls : List Level) (r : Bool)
      → pre_value w ≡ at o ls false r
      → write_json j w ≡ finish (o ++ render j) ls r
  write_json-at null w o ls r e = value_text-at _ w o ls r e
  write_json-at (bool b) w o ls r e = value_text-at _ w o ls r e
  write_json-at (int z) w o ls r e = value_text-at _ w o ls r e
  write_json-at (uint n) w o ls r e = value_text-at _ w o ls r e
  write_json-at (string s) w o ls r e = value_string-at s w o ls r e
  write_json-at (array items) w o ls r e =
      let (f, done) = write_items-at items true (o ++ b'[' ∷ []) ls r in
      rw (begin-at false b'[' w o ls r e, done)
        (end_array-at f _ ls r ∙ ap (λ t. finish t ls r) (simp append_assoc))
  write_json-at (object fields) w o ls r e =
      let (f, done) = write_fields-at fields true (o ++ b'{' ∷ []) ls r in
      rw (begin-at true b'{' w o ls r e, done)
        (end_object-at f _ ls r ∙ ap (λ t. finish t ls r) (simp append_assoc))

  write_items-at :
      (items : Items) (f : Bool) (o : Text) (ls : List Level) (r : Bool)
      → (f' : Bool) × (write_items items (at o (in_array f ∷ ls) false r)
          ≡ at (o ++ render_items f items) (in_array f' ∷ ls) false r)
  write_items-at no_item f o ls r = (f, rw append-nil)
  write_items-at (item j items) f o ls r =
      let first = write_json-at j _ _ (in_array false ∷ ls) r (pre_item-at f o ls r) in
      let (f', done) = write_items-at items false ((o ++ comma f) ++ render j) ls r in
      (f', rw first (done ∙ ap (λ t. at t (in_array f' ∷ ls) false r) (simp append_assoc)))

  write_fields-at :
      (fields : Fields) (f : Bool) (o : Text) (ls : List Level) (r : Bool)
      → (f' : Bool) × (write_fields fields (at o (in_object f ∷ ls) false r)
          ≡ at (o ++ render_fields f fields) (in_object f' ∷ ls) false r)
  write_fields-at no_field f o ls r = (f, rw append-nil)
  write_fields-at (field name j fields) f o ls r =
      let named = ((o ++ comma f) ++ quoted name) ++ b':' ∷ [] in
      let value = write_json-at j _ named (in_object false ∷ ls) r (pre_field-at named ls r) in
      let (f', done) = write_fields-at fields false (named ++ render j) ls r in
      (
        f',
        rw (key-at name f o ls r, value)
            (done ∙ ap (λ t. at t (in_object f' ∷ ls) false r) (simp append_assoc)),
      )

-- On a new writer without a cap, the calls that write a document leave the text of that document, and
-- `ok` says that it is whole.
pub write_json-render :
    (j : Json) → let w = write_json j (json_writer 0) in (w.out ≡ render j) × (ok w ≡ true)
write_json-render j =
    let done : write_json j (json_writer 0) ≡ at (render j) [] false true =
      write_json-at j (json_writer 0) [] [] false (unfold pre_value in refl) in
    rw done (refl, unfold ok in refl)
