-- ===== src/Crypto/Encoder.antt =====
-- `canonical_encoder` of src/common/crypto.cpp: what is hashed is made of fields, each with its length.
pub mod Injective
use eos_reimagined.Base.{ℕ, ◌*◌, ◌/◌, ◌%◌, ◌^◌, List, [], ◌∷◌, ◌++◌, length}
use eos_reimagined.ByteBuffer.{Text}

abbrev pub canonical_encoder : List ℕ
canonical_encoder = []

pub length_prefix : ℕ → List ℕ
length_prefix n = n / 2 ^ 24 % 2 ^ 8 ∷ n / 2 ^ 16 % 2 ^ 8 ∷ n / 2 ^ 8 % 2 ^ 8 ∷ n % 2 ^ 8 ∷ []

-- Each method appends to the buffer, which comes last.
unfoldable pub field : List ℕ → List ℕ → List ℕ
unfolding length_prefix
field bytes buffer = buffer ++ length_prefix (length bytes % 2 ^ 32) ++ bytes

unfoldable pub field_u32 : ℕ → List ℕ → List ℕ
unfolding length_prefix
field_u32 value buffer = field (length_prefix value) buffer

pub u64_bytes : ℕ → List ℕ
u64_bytes n =
    n / 2 ^ 56 % 2 ^ 8
    ∷ n / 2 ^ 48 % 2 ^ 8
    ∷ n / 2 ^ 40 % 2 ^ 8
    ∷ n / 2 ^ 32 % 2 ^ 8
    ∷ n / 2 ^ 24 % 2 ^ 8
    ∷ n / 2 ^ 16 % 2 ^ 8
    ∷ n / 2 ^ 8 % 2 ^ 8
    ∷ n % 2 ^ 8
    ∷ []

unfoldable pub field_u64 : ℕ → List ℕ → List ℕ
unfolding u64_bytes
field_u64 value buffer = field (u64_bytes value) buffer

unfoldable pub raw_u8 : ℕ → List ℕ → List ℕ
raw_u8 value buffer = buffer ++ value ∷ []
