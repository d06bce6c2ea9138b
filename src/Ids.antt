-- ===== src/Ids.antt =====
-- `id_string_is_valid` of src/common/ids.cpp and ids.h.
use eos_reimagined.Base.{
  ℕ, Bool, true, false, not, ◌&&◌, ◌||◌, ◌≡◌, refl, [], ◌∷◌, length, leb, ◌==◌, if◌then◌else◌,
  arith,
}
use eos_reimagined.ByteBuffer.{Text}

abbrev id_hex_length : ℕ
id_hex_length = 32

pub is_hex_char : ℕ → Bool
is_hex_char c =
    (leb b'0' c && leb c b'9') || (leb b'a' c && leb c b'f') || (leb b'A' c && leb c b'F')

-- The loop, with `all_zero`.
check_chars : Bool → Text → Bool
check_chars all_zero [] = not all_zero
check_chars all_zero (c ∷ cs) =
    let zero_so_far = if not (c == b'0') then false else all_zero in
    let rest = check_chars zero_so_far cs in if not (is_hex_char c) then false else rest

pub id_string_is_valid : Text → Bool
unfolding check_chars
id_string_is_valid id_str =
    if not (length id_str == id_hex_length) then false else check_chars true id_str

-- The specification, on all characters at once.
abbrev pub every : (ℕ → Bool) → Text → Bool
every p [] = true
every p (c ∷ cs) = p c && every p cs

check_chars-eq-every :
    (z : Bool) (cs : Text)
    → check_chars z cs ≡ (every is_hex_char cs && not (z && every (λ c. c == b'0') cs))
unfolding check_chars
check_chars-eq-every true [] = refl
check_chars-eq-every false [] = refl
check_chars-eq-every z (c ∷ cs) =
    ground (arith, check_chars-eq-every true cs, check_chars-eq-every false cs)

-- An id is valid exactly when it has 32 characters, all of them are hexadecimal digits, and not all of
-- them are zeros.
pub id_string_is_valid-eq-every :
    (id_str : Text)
    → id_string_is_valid id_str
      ≡ ((length id_str == 32) && every is_hex_char id_str && not (every (λ c. c == b'0') id_str))
unfolding id_string_is_valid
id_string_is_valid-eq-every id_str = ground (arith, check_chars-eq-every true id_str)
