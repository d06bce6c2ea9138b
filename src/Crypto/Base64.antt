-- ===== src/Crypto/Base64.antt =====
-- `base64url_encode` of src/common/crypto.cpp.
use eos_reimagined.Base.{
  ℕ, ◌+◌, ◌-◌, ◌*◌, ◌/◌, ◌%◌, ◌^◌, bit_or, List, [], ◌∷◌, ltb, if◌then◌else◌, ◌==◌,
}
use eos_reimagined.ByteBuffer.{Text}

-- The entry of `base64url_table`.
pub sextet : ℕ → ℕ
sextet n =
    if ltb n 26
    then b'A' + n
    else if ltb n 52
    then b'a' + (n - 26)
    else if ltb n 62
    then b'0' + (n - 52)
    else if n == 62
    then b'-'
    else b'_'

unfoldable pub base64url_encode : List ℕ → Text
unfolding sextet
base64url_encode [] = []
base64url_encode (a ∷ []) =
    let n = a * 2 ^ 16 in sextet (n / 2 ^ 18 % 64) ∷ sextet (n / 2 ^ 12 % 64) ∷ []
base64url_encode (a ∷ b ∷ []) =
    let n = bit_or (a * 2 ^ 16) (b * 2 ^ 8) in
    sextet (n / 2 ^ 18 % 64) ∷ sextet (n / 2 ^ 12 % 64) ∷ sextet (n / 2 ^ 6 % 64) ∷ []
base64url_encode (a ∷ b ∷ c ∷ bytes) =
    let n = bit_or (bit_or (a * 2 ^ 16) (b * 2 ^ 8)) c in
    sextet (n / 2 ^ 18 % 64)
    ∷ sextet (n / 2 ^ 12 % 64)
    ∷ sextet (n / 2 ^ 6 % 64)
    ∷ sextet (n % 64)
    ∷ base64url_encode bytes
