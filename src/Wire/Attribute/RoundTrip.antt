-- ===== src/Wire/Attribute/RoundTrip.antt =====
-- An attribute survives the wire, but for the values that its type does not name.
use eos_reimagined.Base.{
  zero, suc, ◌^◌, ◌≤◌, ◌<◌, ◌≡◌, false, ◌||◌, not, List, [], ◌∷◌, map, arith, All, length,
  if◌then◌else◌,
}
use eos_reimagined.Base.Int.{ℤ, pos, negsuc, IsI32, IsI64, IsI32-IsI64, to_i32_self, leb_ℤ, eq_ℤ}
use eos_reimagined.ByteBuffer.Codec.{Codec, Codec-then, Codec-last, Codec-cast}
use eos_reimagined.ByteBuffer.Varint.{svar-Codec}
use eos_reimagined.ByteBuffer.Fields.{string-Codec, bool-Codec, f64-Codec}
use eos_reimagined.Wire.Lists.{IsShort, Sent, list-Codec}
use eos_reimagined.Wire.Attribute.{
  SessionAttribute, SearchParameter, blank, put_value, get_value, serialize_session_attribute,
  deserialize_session_attribute, write_attributes, read_attributes, put_parameter, get_parameter,
  put_parameters, read_parameters, attribute_bool, attribute_int64, attribute_double,
  attribute_string,
}

abbrev pub IsAttributeType : ℤ → Type 0
IsAttributeType (pos k) = k ≤ 3
IsAttributeType (negsuc k) = ⊥

pub record IsAttribute (a : SessionAttribute) : Type 0 where
  pub key : IsShort a.key
  pub value_type : IsAttributeType a.value_type
  pub as_int64 : IsI64 a.as_int64
  pub as_double : a.as_double < 2 ^ 64
  pub as_string : IsShort a.as_string
  pub advertisement : IsI32 a.advertisement

-- What arrives of an attribute: the values that its type does not name are the default ones.
abbrev sent_value : ℤ → SessionAttribute → SessionAttribute
sent_value value_type a =
    let b = blank a.key a.value_type a.advertisement in
    if eq_ℤ value_type attribute_bool
    then record b { as_bool = a.as_bool }
    else if eq_ℤ value_type attribute_int64
    then record b { as_int64 = a.as_int64 }
    else if eq_ℤ value_type attribute_double
    then record b { as_double = a.as_double }
    else record b { as_string = a.as_string }

abbrev pub sent_attribute : SessionAttribute → SessionAttribute
sent_attribute a = sent_value a.value_type a

value-Codec :
    (t : ℤ) (a : SessionAttribute)
    → IsAttributeType t
    → IsAttribute a
    → Codec
        (put_value t a)
        (get_value t (blank a.key a.value_type a.advertisement))
        (sent_value t a)
unfolding put_value get_value
value-Codec (pos zero) a k h = Codec-last _ (bool-Codec a.as_bool)
value-Codec (pos (suc zero)) a k h = Codec-last _ (svar-Codec a.as_int64 h.as_int64)
value-Codec (pos (suc (suc zero))) a k h = Codec-last _ (f64-Codec a.as_double h.as_double)
value-Codec (pos (suc (suc (suc zero)))) a k h = Codec-last _ (string-Codec a.as_string h.as_string)
value-Codec (pos (suc (suc (suc (suc n))))) a k h = absurd (omega arith)
value-Codec (negsuc n) a k h = absurd k

IsAttributeType-IsI32 : (t : ℤ) → IsAttributeType t → IsI32 t
IsAttributeType-IsI32 (pos n) k = omega arith
IsAttributeType-IsI32 (negsuc n) k = absurd k

IsAttributeType-test :
    (t : ℤ)
    → IsAttributeType t
    → (not (leb_ℤ attribute_bool t) || not (leb_ℤ t attribute_string)) ≡ false
IsAttributeType-test (pos n) k = ground arith
IsAttributeType-test (negsuc n) k = absurd k

pub attribute-Codec :
    (a : SessionAttribute)
    → IsAttribute a
    → Codec (serialize_session_attribute a) deserialize_session_attribute (sent_attribute a)
unfolding serialize_session_attribute deserialize_session_attribute
attribute-Codec a h =
    let t = a.value_type in
    let small = IsAttributeType-IsI32 t h.value_type in
    Codec-then _ (string-Codec a.key h.key) (
      Codec-then _ (svar-Codec t (IsI32-IsI64 t small)) (
        Codec-then _ (svar-Codec a.advertisement (IsI32-IsI64 _ h.advertisement)) (
          rw
            (
              IsAttributeType-test t h.value_type,
              to_i32_self t small,
              to_i32_self a.advertisement h.advertisement,
            )
            (value-Codec t a h.value_type h))))

attributes-Sent :
    (xs : List SessionAttribute)
    → All IsAttribute xs
    → Sent serialize_session_attribute deserialize_session_attribute xs (map sent_attribute xs)
attributes-Sent [] h = tt
attributes-Sent (x ∷ xs) h = (attribute-Codec x h.0, attributes-Sent xs h.1)

pub attributes-Codec :
    (xs : List SessionAttribute)
    → All IsAttribute xs
    → length xs ≤ 64
    → Codec (write_attributes xs) read_attributes (map sent_attribute xs)
unfolding write_attributes read_attributes
attributes-Codec xs h fits =
    list-Codec _ _ 64 xs (map sent_attribute xs) (attributes-Sent xs h) fits (omega arith)

pub record IsParameter (p : SearchParameter) : Type 0 where
  pub attribute : IsAttribute p.attribute
  pub comparison_op : IsI32 p.comparison_op

abbrev pub sent_parameter : SearchParameter → SearchParameter
sent_parameter p = record p { attribute = sent_attribute p.attribute }

parameter-Codec :
    (p : SearchParameter) → IsParameter p → Codec (put_parameter p) get_parameter (sent_parameter p)
unfolding put_parameter get_parameter
parameter-Codec p h = Codec-then _ (attribute-Codec p.attribute h.attribute) (
    Codec-cast _
      (λ i. record (sent_parameter p) {
        comparison_op = to_i32_self p.comparison_op h.comparison_op i;
      })
      (svar-Codec p.comparison_op (IsI32-IsI64 _ h.comparison_op)))

parameters-Sent :
    (xs : List SearchParameter)
    → All IsParameter xs
    → Sent put_parameter get_parameter xs (map sent_parameter xs)
parameters-Sent [] h = tt
parameters-Sent (x ∷ xs) h = (parameter-Codec x h.0, parameters-Sent xs h.1)

pub parameters-Codec :
    (xs : List SearchParameter)
    → All IsParameter xs
    → length xs ≤ 64
    → Codec (put_parameters xs) read_parameters (map sent_parameter xs)
unfolding put_parameters read_parameters
parameters-Codec xs h fits =
    list-Codec _ _ 64 xs (map sent_parameter xs) (parameters-Sent xs h) fits (omega arith)
