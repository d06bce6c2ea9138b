-- ===== src/Eos.antt =====
-- What the interfaces of include/eos share: the codes of `EOS_EResult` that they answer with, API
-- versions, and who the local user is (src/core/settings.h).
use eos_reimagined.Base.{Bool, ◌&&◌, Option, none, some}
use eos_reimagined.Base.Int.{ℤ, pos, leb_ℤ}
use eos_reimagined.Base.Texts.{same_text}
use eos_reimagined.ByteBuffer.{Text}

pub data EosResult : Type 0 where
  success : EosResult
  no_connection : EosResult
  invalid_user : EosResult
  invalid_parameters : EosResult
  limit_exceeded : EosResult
  not_found : EosResult
  incompatible_version : EosResult

pub record Settings : Type 0 where
  pub product_user_id : Text
  pub product_id : Text

-- An `ApiVersion` that the library knows.
abbrev pub version_is_supported : ℤ → ℤ → Bool
version_is_supported version latest = leb_ℤ (pos 1) version && leb_ℤ version latest

-- A null pointer is no user.
abbrev pub is_user : Text → Option Text → Bool
is_user own none = Bool.false
is_user own (some user) = same_text user own
