-- ===== src/Wire/Presence/RoundTrip.antt =====
-- The presence messages survive the wire.
use eos_reimagined.Base.{ℕ, some, ◌++◌, ◌≤◌, ◌≡◌, List, [], ◌∷◌, arith, All, length}
use eos_reimagined.Base.Int.{IsI32, IsI32-IsI64, to_i32_self}
use eos_reimagined.ByteBuffer.Codec.{Codec, Codec-read, Codec-then, Codec-last, Codec-cast}
use eos_reimagined.ByteBuffer.Varint.{svar-Codec}
use eos_reimagined.ByteBuffer.Fields.{string-Codec}
use eos_reimagined.Wire.Lists.{IsShort, Sent, list-Codec}
use eos_reimagined.Wire.Presence.{
  PresenceDataRecord, PresenceInfo, PresenceRequest, put_record, get_record,
  serialize_presence_info, deserialize_presence_info, serialize_presence_request,
  deserialize_presence_request,
}

pub record IsDataRecord (r : PresenceDataRecord) : Type 0 where
  pub key : IsShort r.key
  pub value : IsShort r.value

-- What the C++ types guarantee of the fields, and the cap on the records.
pub record IsPresence (m : PresenceInfo) : Type 0 where
  pub epic_id : IsShort m.epic_id
  pub status : IsI32 m.status
  pub product_id : IsShort m.product_id
  pub product_version : IsShort m.product_version
  pub platform : IsShort m.platform
  pub rich_text : IsShort m.rich_text
  pub product_name : IsShort m.product_name
  pub integrated_platform : IsShort m.integrated_platform
  pub join_info : IsShort m.join_info
  pub records : All IsDataRecord m.records
  pub few_records : length m.records ≤ 32

record-Codec : (r : PresenceDataRecord) → IsDataRecord r → Codec (put_record r) get_record r
unfolding put_record get_record
record-Codec r h =
    Codec-then _ (string-Codec r.key h.key) (Codec-last _ (string-Codec r.value h.value))

records-Sent :
    (rs : List PresenceDataRecord) → All IsDataRecord rs → Sent put_record get_record rs rs
records-Sent [] h = tt
records-Sent (r ∷ rs) h = (record-Codec r h.0, records-Sent rs h.1)

pub presence_info-Codec :
    (m : PresenceInfo)
    → IsPresence m
    → Codec (serialize_presence_info m) deserialize_presence_info m
unfolding serialize_presence_info deserialize_presence_info
presence_info-Codec m h = Codec-then _ (string-Codec m.epic_id h.epic_id) (
    Codec-then _ (svar-Codec m.status (IsI32-IsI64 _ h.status)) (
      Codec-then _ (string-Codec m.product_id h.product_id) (
        Codec-then _ (string-Codec m.product_version h.product_version) (
          Codec-then _ (string-Codec m.platform h.platform) (
            Codec-then _ (string-Codec m.rich_text h.rich_text) (
              Codec-then _ (string-Codec m.product_name h.product_name) (
                Codec-then _ (string-Codec m.integrated_platform h.integrated_platform) (
                  Codec-then _ (string-Codec m.join_info h.join_info) (
                    Codec-cast _ (λ i. record m { status = to_i32_self m.status h.status i })
                      (list-Codec _ _ 32 m.records m.records (records-Sent m.records h.records)
                        h.few_records (omega arith)))))))))))

pub presence_request-Codec :
    (m : PresenceRequest)
    → IsShort m.target_epic_id
    → Codec (serialize_presence_request m) deserialize_presence_request m
unfolding serialize_presence_request deserialize_presence_request
presence_request-Codec m h = Codec-last _ (string-Codec m.target_epic_id h)

-- The presence messages, fields in range and records within the cap, are read back as they were
-- written, and the reader stops behind them.
pub presence_roundtrip :
    (m : PresenceInfo) (q : PresenceRequest) (rest : List ℕ)
    → IsPresence m
    → IsShort q.target_epic_id
    → (deserialize_presence_info (serialize_presence_info m [] ++ rest) ≡ (some m, rest))
      × (deserialize_presence_request (serialize_presence_request q [] ++ rest) ≡ (some q, rest))
presence_roundtrip m q rest hm hq =
    (Codec-read (presence_info-Codec m hm) rest, Codec-read (presence_request-Codec q hq) rest)
