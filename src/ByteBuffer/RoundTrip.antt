-- ===== src/ByteBuffer/RoundTrip.antt =====
-- What a `byte_writer` wrote, a `byte_reader` reads back.
use eos_reimagined.Base.{ℕ, ◌^◌, ◌<◌, ◌≡◌, Bool, none, some, List, [], ◌∷◌, ◌++◌, length}
use eos_reimagined.Base.Int.{ℤ, IsI64}
use eos_reimagined.ByteBuffer.{
  put_u8, put_u16, put_u32, put_u64, put_var, put_svar, put_bool, put_f64, put_bytes, put_string,
  get_u8, get_u16, get_u32, get_u64, get_var, get_svar, get_bool, get_f64, get_bytes, get_string,
}
use eos_reimagined.ByteBuffer.Codec.{Codec-read, Codec-truncated}
use eos_reimagined.ByteBuffer.Words.{u8-Codec, u16-Codec, u32-Codec, u64-Codec}
use eos_reimagined.ByteBuffer.Varint.{var-Codec, svar-Codec}
use eos_reimagined.ByteBuffer.Fields.{
  bool-Codec, f64-Codec, bytes-Codec, string-Codec, get_string-IsStable,
}

-- A byte, and a word of each wider fixed width that fits it, written little-endian, is read back, and what follows is left.
pub words_roundtrip :
    (a b c d : ℕ) (rest : List ℕ)
    → b < 2 ^ 16
    → c < 2 ^ 32
    → d < 2 ^ 64
    → (get_u8 (put_u8 a [] ++ rest) ≡ (some a, rest))
      × (get_u16 (put_u16 b [] ++ rest) ≡ (some b, rest))
      × (get_u32 (put_u32 c [] ++ rest) ≡ (some c, rest))
      × (get_u64 (put_u64 d [] ++ rest) ≡ (some d, rest))
words_roundtrip a b c d rest hb hc hd = (
  Codec-read (u8-Codec a) rest,
  Codec-read (u16-Codec b hb) rest,
  Codec-read (u32-Codec c hc) rest,
  Codec-read (u64-Codec d hd) rest,
)

-- Every u64 written as LEB128 is read back, and what follows is left.
pub get_var-put_var :
    (v : ℕ) (rest : List ℕ) → v < 2 ^ 64 → get_var (put_var v [] ++ rest) ≡ (some v, rest)
get_var-put_var v rest h = Codec-read (var-Codec v h) rest

-- Every i64, negative or not, survives the zig-zag, and what follows is left.
pub get_svar-put_svar :
    (z : ℤ) (rest : List ℕ) → IsI64 z → get_svar (put_svar z [] ++ rest) ≡ (some z, rest)
get_svar-put_svar z rest h = Codec-read (svar-Codec z h) rest

-- A Boolean, a double's 64 bits, and a byte block and a string shorter than 2 ^ 64 are read back, and
-- what follows is left.
pub fields_roundtrip :
    (b : Bool) (bits : ℕ) (xs ys rest : List ℕ)
    → bits < 2 ^ 64
    → length xs < 2 ^ 64
    → length ys < 2 ^ 64
    → (get_bool (put_bool b [] ++ rest) ≡ (some b, rest))
      × (get_f64 (put_f64 bits [] ++ rest) ≡ (some bits, rest))
      × (get_bytes (put_bytes xs [] ++ rest) ≡ (some xs, rest))
      × (get_string (put_string ys [] ++ rest) ≡ (some ys, rest))
fields_roundtrip b bits xs ys rest hf hx hy = (
  Codec-read (bool-Codec b) rest,
  Codec-read (f64-Codec bits hf) rest,
  Codec-read (bytes-Codec xs hx) rest,
  Codec-read (string-Codec ys hy) rest,
)

-- A written string, shorter than 2 ^ 64, that is cut short anywhere, in its length or in its bytes, is refused.
pub get_string_truncated :
    (xs front : List ℕ) (x : ℕ) (back : List ℕ)
    → length xs < 2 ^ 64
    → put_string xs [] ≡ front ++ x ∷ back
    → (get_string front).0 ≡ none
get_string_truncated xs front x back h e =
    Codec-truncated (string-Codec xs h) get_string-IsStable front x back e
