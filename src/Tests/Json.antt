-- ===== src/Tests/Json.antt =====
-- The JSON writer at concrete documents.
use eos_reimagined.Base.{◌+◌, ◌≤◌, ◌<◌, ◌≡◌, refl, true, false, [], ◌∷◌, length, arith}
use eos_reimagined.Base.Int.{negsuc}
use eos_reimagined.JsonWriter.{JsonWriter, json_writer, ok, end_object}
use eos_reimagined.JsonWriter.Document.{
  Json, null, bool, int, string, array, object, no_item, item, no_field, field,
}
use eos_reimagined.JsonWriter.Cap.{
  begins_object, ends_object, calls, ends, calls_within_cap, end_object_overruns,
}

-- `{"a":[null,-2,true],"\"":"b\n"}`
abbrev document : Json
document = object (
    field (b'a' ∷ []) (array (item null (item (int (negsuc 1)) (item (bool true) no_item))))
      (field (b'"' ∷ []) (string (b'b' ∷ 10 ∷ [])) no_field))

calls_within_cap_example :
    length (calls (begins_object ∷ ends_object ∷ []) (json_writer 1)).out
    ≤ 1 + ends (begins_object ∷ ends_object ∷ [])
calls_within_cap_example = calls_within_cap 1 (begins_object ∷ ends_object ∷ []) (omega arith)

-- `{` in a writer of one byte.
abbrev opened : JsonWriter
opened = record {
  out = b'{' ∷ [];
  levels = record { is_object = true; first = true } ∷ [];
  max_bytes = 1;
  after_key = false;
  valid = true;
  root_done = false;
}

end_object_overruns_example :
    (ok (end_object opened) ≡ true)
    × ((end_object opened).max_bytes < length (end_object opened).out)
end_object_overruns_example =
    end_object_overruns opened (record { is_object = true; first = true }) refl refl refl refl refl
