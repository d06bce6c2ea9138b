-- ===== src/ByteBuffer.antt =====
-- src/common/byte_buffer.h and byte_buffer.cpp: the little-endian wire format of the mesh.
-- A `byte_writer` is the buffer `buf_`; each put is a function from the buffer to the buffer. A
-- `byte_reader` is the bytes from `pos_` on, so `remaining()` is their length and `at_end()` says
-- that there are none; a getter returns `none` for false, beside the cursor that it leaves. A byte
-- is a number below 256, a `std::string` is its bytes, and a double is its IEEE-754 bit pattern.
pub mod Codec
pub mod Words
pub mod Varint
pub mod Fields
pub mod RoundTrip
pub mod Bounds
use mathlib.Core.Logic.{dite}
use mathlib.Core.WellFounded.{Acc}
use native.Mathlib.Decide.{dec_le}
use eos_reimagined.Base.{
  ℕ, zero, suc, ◌+◌, ◌-◌, ◌*◌, ◌/◌, ◌%◌, ◌^◌, ◌≤◌, ◌<◌, bit_and, bit_or, bit_xor, Bool, true, false,
  not, ◌&&◌, Option, none, some, List, [], ◌∷◌, ◌++◌, arith, length, take, drop, ltb, ◌==◌,
  if◌then◌else◌,
}
use eos_reimagined.Base.Int.{ℤ, to_u64, to_i64, is_negative}
use eos_reimagined.Base.Wf.{lt_wf}

-- The bytes of a `std::string`.
abbrev pub Text : Type 0
Text = List ℕ

abbrev pub Writer : Type 0
Writer = List ℕ → List ℕ

abbrev pub Reader : Type 0 → Type 0
Reader A = List ℕ → Option A × List ℕ

-- One statement of a `serialize` after another.
infixr 5 ◌⨾◌
unfoldable pub ◌⨾◌ : Writer → Writer → Writer
◌⨾◌ v w buf = w (v buf)

-- `g1(...) && g2(...)`: the first getter that fails ends the chain, and the cursor stays there.
module _ {A B : Type 0} where
  pub continue : (A → Reader B) → Option A × List ℕ → Option B × List ℕ
  continue f (none, s) = (none, s)
  continue f (some a, s) = f a s

  infixl 5 ◌>>=◌
  unfoldable pub ◌>>=◌ : Reader A → (A → Reader B) → Reader B
  unfolding continue
  ◌>>=◌ p f s = continue f (p s)

module _ {A : Type 0} where
  unfoldable pub pure : A → Reader A
  pure a s = (some a, s)

  unfoldable pub fail : Reader A
  fail s = (none, s)

unfoldable pub put_u8 : ℕ → Writer
put_u8 value buf = buf ++ value ∷ []

-- The loop of `put_u16`, `put_u32` and `put_u64`, from byte `i` on with `n` bytes left.
pub put_word_loop : ℕ → ℕ → ℕ → Writer
put_word_loop zero i value buf = buf
put_word_loop (suc n) i value buf =
    put_word_loop n (i + 1) value (buf ++ (value / 2 ^ (i * 8) % 2 ^ 8) ∷ [])

unfoldable pub put_u16 : ℕ → Writer
unfolding put_word_loop
put_u16 value = put_word_loop 2 0 value

unfoldable pub put_u32 : ℕ → Writer
unfolding put_word_loop
put_u32 value = put_word_loop 4 0 value

unfoldable pub put_u64 : ℕ → Writer
unfolding put_word_loop
put_u64 value = put_word_loop 8 0 value

pub var_shrinks : (value : ℕ) → 128 ≤ value → value / 2 ^ 7 < value
var_shrinks value h = omega arith

pub put_var_loop : List ℕ → (value : ℕ) → Acc ◌<◌ value → List ℕ
put_var_loop buf value (Acc.intro _ smaller) =
    dite (dec_le 0x80 value)
      (λ more.
        put_var_loop (buf ++ bit_or (value % 2 ^ 8) 0x80 ∷ []) (value / 2 ^ 7)
          (smaller (value / 2 ^ 7) (var_shrinks value more)))
      (λ _. buf ++ (value % 2 ^ 8) ∷ [])

unfoldable pub put_var : ℕ → Writer
unfolding put_var_loop lt_wf dec_le
put_var value buf = put_var_loop buf value (lt_wf.apply value)

-- The zig-zag image of an `i64`.
unfoldable pub zig_zag : ℤ → ℕ
zig_zag value =
    let magnitude = to_u64 value * 2 % 2 ^ 64 in
    let sign_fill = if is_negative value then 2 ^ 64 - 1 else 0 in bit_xor magnitude sign_fill

unfoldable pub put_svar : ℤ → Writer
put_svar value = put_var (zig_zag value)

unfoldable pub put_bool : Bool → Writer
put_bool value buf = buf ++ (if value then 1 else 0) ∷ []

unfoldable pub put_f64 : ℕ → Writer
put_f64 bits = put_u64 bits

unfoldable pub put_bytes : List ℕ → Writer
put_bytes bytes buf = put_var (length bytes) buf ++ bytes

unfoldable pub put_string : List ℕ → Writer
put_string value buf = put_var (length value) buf ++ value

unfoldable pub get_u8 : Reader ℕ
get_u8 [] = (none, [])
get_u8 (b ∷ s) = (some b, s)

-- The loop of `get_u16`, `get_u32` and `get_u64` in a word of `bits` bits, from byte `i` on with `n`
-- bytes left.
pub get_word_loop : ℕ → ℕ → ℕ → ℕ → List ℕ → ℕ
get_word_loop bits zero i value s = value
get_word_loop bits (suc n) i value [] = value
get_word_loop bits (suc n) i value (b ∷ s) =
    get_word_loop bits n (i + 1) (bit_or value (b * 2 ^ (i * 8) % 2 ^ bits)) s

unfoldable pub get_u16 : Reader ℕ
unfolding get_word_loop
get_u16 s = if ltb (length s) 2 then (none, s) else (some (get_word_loop 16 2 0 0 s), drop 2 s)

unfoldable pub get_u32 : Reader ℕ
unfolding get_word_loop
get_u32 s = if ltb (length s) 4 then (none, s) else (some (get_word_loop 32 4 0 0 s), drop 4 s)

unfoldable pub get_u64 : Reader ℕ
unfolding get_word_loop
get_u64 s = if ltb (length s) 8 then (none, s) else (some (get_word_loop 64 8 0 0 s), drop 8 s)

-- The loop of `get_var`: the value and what is left, or `none` where the code returns false.
pub get_var_loop : List ℕ → ℕ → ℕ → Option (ℕ × List ℕ)
get_var_loop [] value shift = none
get_var_loop (byte ∷ s) value shift =
    let value' = bit_or value (bit_and byte 0x7f * 2 ^ shift % 2 ^ 64) in
    let more = get_var_loop s value' (shift + 7) in
    if ltb shift 64
    then (if shift == 63 && ltb 1 (bit_and byte 0x7f)
        then none
        else if bit_and byte 0x80 == 0
        then some (value', s)
        else more)
    else none

-- On failure `pos_ = start`.
pub or_rewind : {A : Type 0} → List ℕ → Option (A × List ℕ) → Option A × List ℕ
or_rewind start none = (none, start)
or_rewind start (some (a, s)) = (some a, s)

unfoldable pub get_var : Reader ℕ
unfolding get_var_loop or_rewind
get_var s = or_rewind s (get_var_loop s 0 0)

-- The `i64` that a zig-zag image stands for.
unfoldable pub zag_zig : ℕ → ℤ
zag_zig zig =
    let sign_fill = (2 ^ 64 - 1 - bit_and zig 1 + 1) % 2 ^ 64 in
    to_i64 (bit_xor (zig / 2) sign_fill)

unfoldable pub get_svar : Reader ℤ
get_svar = do zig ← get_var; pure (zag_zig zig)

unfoldable pub get_bool : Reader Bool
get_bool = do value ← get_u8; pure (not (value == 0))

unfoldable pub get_f64 : Reader ℕ
get_f64 = do bits ← get_u64; pure bits

-- The bytes behind a length, or back to `start`.
pub get_block : List ℕ → Option ℕ × List ℕ → Option (List ℕ) × List ℕ
get_block start (none, s) = (none, s)
get_block start (some len, s) =
    if ltb (length s) len then (none, start) else (some (take len s), drop len s)

unfoldable pub get_bytes : Reader (List ℕ)
get_bytes s = get_block s (get_var s)

unfoldable pub get_string : Reader (List ℕ)
get_string s = get_block s (get_var s)
