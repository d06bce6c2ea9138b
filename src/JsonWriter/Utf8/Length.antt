-- ===== src/JsonWriter/Utf8/Length.antt =====
-- What one round of `write_string` takes: a byte at least.
use eos_reimagined.Base.{
  ℕ, ◌+◌, ◌-◌, ◌%◌, ◌^◌, ◌≤◌, ◌≡◌, refl, Bool, true, false, Option, none, some, ◌∷◌, length,
  length-drop, arith, ltb, Bool-cases, inl, inr, if◌then◌else◌,
}
use eos_reimagined.ByteBuffer.{Text}
use eos_reimagined.JsonWriter.Utf8.{
  next_piece, decode_utf8, multibyte, in_range, utf8_piece, continuation, has_short_escape,
}

in_range_len : (len n : ℕ) (found : Option ℕ) → in_range len found ≡ some n → n ≡ len
unfolding in_range
in_range_len len n none e = absurd (cc e)
in_range_len len n (some codepoint) e = ground arith

multibyte_len : (len codepoint n : ℕ) (s : Text) → multibyte len codepoint s ≡ some n → n ≡ len
unfolding multibyte
multibyte_len len codepoint n s e = go (ltb (1 + length s) len) e
  where
    go :
        (b : Bool)
        → (if b then none else in_range len (continuation (len - 1) codepoint s)) ≡ some n
        → n ≡ len
    go true e' = absurd (cc e')
    go false e' = in_range_len len n _ e'

-- A sequence that is decoded has a byte at least.
decode_utf8-positive : (c n : ℕ) (s : Text) → decode_utf8 c s ≡ some n → 1 ≤ n
unfolding decode_utf8
decode_utf8-positive c n s e = ground (
  arith,
  multibyte_len 2 (c % 2 ^ 5) n s,
  multibyte_len 3 (c % 2 ^ 4) n s,
  multibyte_len 4 (c % 2 ^ 3) n s,
)

utf8_piece_shorter :
    (c : ℕ) (s : Text) (found : Option ℕ)
    → decode_utf8 c s ≡ found
    → length (utf8_piece c s found).1 ≤ length s
unfolding utf8_piece
utf8_piece_shorter c s none e = omega arith
utf8_piece_shorter c s (some n) e =
    omega (arith, length-drop n (c ∷ s), decode_utf8-positive c n s e)

pub next_piece_shorter : (c : ℕ) (s : Text) → length (next_piece c s).1 ≤ length s
unfolding next_piece
next_piece_shorter c s = elim (Bool-cases (has_short_escape c)) [
  | inl short ↦ rw short (omega arith)
  | inr long ↦ rw long (ground (arith, utf8_piece_shorter c s (decode_utf8 c s) refl))
]
