-- ===== src/Wire/Attribute.antt =====
-- Session and lobby attributes, and the conditions that a search puts on them.
pub mod RoundTrip
use eos_reimagined.Base.{ℕ, ◌||◌, ◌^◌, Bool, false, [], List, not, if◌then◌else◌}
use eos_reimagined.Base.Int.{ℤ, pos, to_i32, leb_ℤ, eq_ℤ}
use eos_reimagined.ByteBuffer.{
  Text, Writer, Reader, ◌⨾◌, ◌>>=◌, pure, fail, put_svar, put_bool, put_f64, put_string, get_svar,
  get_bool, get_f64, get_string,
}
use eos_reimagined.Wire.Lists.{put_list, read_list, max_attributes_in_list, max_search_parameters}

-- `EOS_EAttributeType` on the wire.
abbrev pub attribute_bool : ℤ
attribute_bool = pos 0

abbrev pub attribute_int64 : ℤ
attribute_int64 = pos 1

abbrev pub attribute_double : ℤ
attribute_double = pos 2

abbrev pub attribute_string : ℤ
attribute_string = pos 3

-- `as_double` is the bit pattern of the double.
pub record SessionAttribute : Type 0 where
  pub key : Text
  pub value_type : ℤ
  pub as_bool : Bool
  pub as_int64 : ℤ
  pub as_double : ℕ
  pub as_string : Text
  pub advertisement : ℤ

-- Only the value that the type names is on the wire.
pub put_value : ℤ → SessionAttribute → Writer
put_value value_type msg =
    if eq_ℤ value_type attribute_bool
    then put_bool msg.as_bool
    else if eq_ℤ value_type attribute_int64
    then put_svar msg.as_int64
    else if eq_ℤ value_type attribute_double
    then put_f64 msg.as_double
    else put_string msg.as_string

unfoldable pub serialize_session_attribute : SessionAttribute → Writer
serialize_session_attribute msg =
    put_string msg.key
    ⨾ put_svar msg.value_type
    ⨾ put_svar msg.advertisement
    ⨾ put_value msg.value_type msg

-- A default-constructed attribute with its first three fields read.
abbrev pub blank : Text → ℤ → ℤ → SessionAttribute
blank key value_type advertisement = record {
  key = key;
  value_type = value_type;
  as_bool = false;
  as_int64 = pos 0;
  as_double = 0;
  as_string = [];
  advertisement = advertisement;
}

pub get_value : ℤ → SessionAttribute → Reader SessionAttribute
get_value value_type msg =
    if eq_ℤ value_type attribute_bool
    then (do x ← get_bool; pure (record msg { as_bool = x }))
    else if eq_ℤ value_type attribute_int64
    then (do x ← get_svar; pure (record msg { as_int64 = x }))
    else if eq_ℤ value_type attribute_double
    then (do x ← get_f64; pure (record msg { as_double = x }))
    else (do x ← get_string; pure (record msg { as_string = x }))

unfoldable pub deserialize_session_attribute : Reader SessionAttribute
deserialize_session_attribute = do
  key ← get_string
  value_type ← get_svar
  advertisement ← get_svar
  if not (leb_ℤ attribute_bool value_type) || not (leb_ℤ value_type attribute_string)
      then fail
      else get_value (to_i32 value_type) (blank key (to_i32 value_type) (to_i32 advertisement))

unfoldable pub write_attributes : List SessionAttribute → Writer
write_attributes attrs = put_list serialize_session_attribute attrs

unfoldable pub read_attributes : Reader (List SessionAttribute)
read_attributes = read_list max_attributes_in_list deserialize_session_attribute

pub record SearchParameter : Type 0 where
  pub attribute : SessionAttribute
  pub comparison_op : ℤ

-- One round of the loop over `parameters` in the two search messages.
pub put_parameter : SearchParameter → Writer
put_parameter p = serialize_session_attribute p.attribute ⨾ put_svar p.comparison_op

pub get_parameter : Reader SearchParameter
get_parameter = do
  attribute ← deserialize_session_attribute
  comparison_op ← get_svar
  pure (record { attribute = attribute; comparison_op = to_i32 comparison_op })

unfoldable pub put_parameters : List SearchParameter → Writer
unfolding put_parameter
put_parameters ps = put_list put_parameter ps

unfoldable pub read_parameters : Reader (List SearchParameter)
unfolding get_parameter
read_parameters = read_list max_search_parameters get_parameter
