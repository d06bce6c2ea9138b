-- ===== src/JsonWriter/Utf8.antt =====
-- What `write_string` of src/common/json_writer.cpp appends for the bytes at the front of a string:
-- `append_u_escape`, `decode_utf8` and the branches of the loop.
pub mod Length
pub mod Spelling
use eos_reimagined.Base.{
  ℕ, zero, suc, ◌+◌, ◌-◌, ◌*◌, ◌/◌, ◌%◌, ◌^◌, bit_or, Bool, not, ◌&&◌, ◌||◌, Option, none, some, [],
  ◌∷◌, length, take, drop, ltb, leb, ◌==◌, if◌then◌else◌,
}
use eos_reimagined.ByteBuffer.{Text}

-- The entry of `hex_digits`.
hex_digit : ℕ → ℕ
hex_digit n = if ltb n 10 then 48 + n else 87 + n

append_u_escape : ℕ → Text
unfolding hex_digit
append_u_escape codepoint =
    92
    ∷ 117
    ∷ hex_digit (codepoint / 2 ^ 12 % 16)
    ∷ hex_digit (codepoint / 2 ^ 8 % 16)
    ∷ hex_digit (codepoint / 2 ^ 4 % 16)
    ∷ hex_digit (codepoint % 16)
    ∷ []

-- The codepoint after `n` continuation bytes.
continuation : ℕ → ℕ → Text → Option ℕ
continuation zero codepoint s = some codepoint
continuation (suc n) codepoint [] = none
continuation (suc n) codepoint (cont ∷ s) =
    let rest = continuation n (bit_or (codepoint * 2 ^ 6 % 2 ^ 32) (cont % 2 ^ 6)) s in
    if not (cont / 2 ^ 6 == 2) then none else rest

in_range : ℕ → Option ℕ → Option ℕ
in_range len none = none
in_range len (some codepoint) =
    if (len == 2 && ltb codepoint 128)
      || (len == 3 && ltb codepoint 2048)
      || (len == 4 && ltb codepoint 65536)
      || ltb 1114111 codepoint
      || (leb 55296 codepoint && leb codepoint 57343)
    then none
    else some len

multibyte : ℕ → ℕ → Text → Option ℕ
unfolding continuation in_range
multibyte len codepoint s =
    let found = continuation (len - 1) codepoint s in
    if ltb (1 + length s) len then none else in_range len found

-- The length of the sequence that starts with `lead` and goes on in `s`, if it is valid.
pub decode_utf8 : ℕ → Text → Option ℕ
unfolding multibyte continuation in_range
decode_utf8 lead s =
    if ltb lead 128
    then some 1
    else if lead / 2 ^ 5 == 6
    then multibyte 2 (lead % 2 ^ 5) s
    else if lead / 2 ^ 4 == 14
    then multibyte 3 (lead % 2 ^ 4) s
    else if lead / 2 ^ 3 == 30
    then multibyte 4 (lead % 2 ^ 3) s
    else none

has_short_escape : ℕ → Bool
has_short_escape c = c == 34 || c == 92 || c == 10 || c == 13 || c == 9 || c == 8 || c == 12

short_escape : ℕ → ℕ
short_escape c =
    if c == 34
    then 34
    else if c == 92
    then 92
    else if c == 10
    then 110
    else if c == 13
    then 114
    else if c == 9
    then 116
    else if c == 8
    then 98
    else 102

utf8_piece : ℕ → Text → Option ℕ → Text × Text
utf8_piece c value none = (239 ∷ 191 ∷ 189 ∷ [], value)
utf8_piece c value (some len) = (take len (c ∷ value), drop len (c ∷ value))

-- The bytes that one round appends, and what is left of the string.
pub next_piece : ℕ → Text → Text × Text
unfolding append_u_escape hex_digit decode_utf8 multibyte continuation in_range has_short_escape
    short_escape utf8_piece
next_piece c value =
    if has_short_escape c
    then (92 ∷ short_escape c ∷ [], value)
    else if ltb c 32
    then (append_u_escape c, value)
    else if ltb c 128
    then (c ∷ [], value)
    else utf8_piece c value (decode_utf8 c value)
