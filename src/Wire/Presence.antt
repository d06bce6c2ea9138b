-- ===== src/Wire/Presence.antt =====
-- The rich-presence messages.
pub mod RoundTrip
use eos_reimagined.Base.{List}
use eos_reimagined.Base.Int.{ℤ, to_i32}
use eos_reimagined.ByteBuffer.{
  Text, Writer, Reader, ◌⨾◌, ◌>>=◌, pure, put_svar, put_string, get_svar, get_string,
}
use eos_reimagined.Wire.Lists.{put_list, read_list, max_data_records}

pub record PresenceDataRecord : Type 0 where
  pub key : Text
  pub value : Text

pub record PresenceInfo : Type 0 where
  pub epic_id : Text
  pub status : ℤ
  pub product_id : Text
  pub product_version : Text
  pub platform : Text
  pub rich_text : Text
  pub product_name : Text
  pub integrated_platform : Text
  pub join_info : Text
  pub records : List PresenceDataRecord

pub record PresenceRequest : Type 0 where
  pub target_epic_id : Text

-- One round of the loops over `records`.
put_record : PresenceDataRecord → Writer
put_record r = put_string r.key ⨾ put_string r.value

get_record : Reader PresenceDataRecord
get_record = do key ← get_string; value ← get_string; pure (record { key = key; value = value })

pub serialize_presence_info : PresenceInfo → Writer
serialize_presence_info msg =
    put_string msg.epic_id
    ⨾ put_svar msg.status
    ⨾ put_string msg.product_id
    ⨾ put_string msg.product_version
    ⨾ put_string msg.platform
    ⨾ put_string msg.rich_text
    ⨾ put_string msg.product_name
    ⨾ put_string msg.integrated_platform
    ⨾ put_string msg.join_info
    ⨾ put_list put_record msg.records

pub deserialize_presence_info : Reader PresenceInfo
deserialize_presence_info = do
  epic_id ← get_string
  status ← get_svar
  product_id ← get_string
  product_version ← get_string
  platform ← get_string
  rich_text ← get_string
  product_name ← get_string
  integrated_platform ← get_string
  join_info ← get_string
  records ← read_list max_data_records get_record
  pure (record {
    epic_id = epic_id;
    status = to_i32 status;
    product_id = product_id;
    product_version = product_version;
    platform = platform;
    rich_text = rich_text;
    product_name = product_name;
    integrated_platform = integrated_platform;
    join_info = join_info;
    records = records;
  })

pub serialize_presence_request : PresenceRequest → Writer
serialize_presence_request msg = put_string msg.target_epic_id

pub deserialize_presence_request : Reader PresenceRequest
deserialize_presence_request = do
  target_epic_id ← get_string
  pure (record { target_epic_id = target_epic_id })
