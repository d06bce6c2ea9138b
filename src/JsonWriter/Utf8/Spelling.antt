-- ===== src/JsonWriter/Utf8/Spelling.antt =====
-- How JSON spells a string, and that the loop of `write_string` spells it so.
use mathlib.Core.Path.{subst}
use eos_reimagined.Base.{
  ℕ, ◌+◌, ◌-◌, ◌/◌, ◌%◌, ◌^◌, ◌≤◌, ◌<◌, ◌≡◌, ◌≢◌, refl, sym, ap, ◌∙◌, true, false, Option, none,
  some, [], ◌∷◌, ◌++◌, take, drop, arith, ltb, ◌==◌, Bool-cases, inl, inr, if◌then◌else◌,
}
use eos_reimagined.ByteBuffer.{Text}
use eos_reimagined.JsonWriter.Utf8.{
  next_piece, decode_utf8, utf8_piece, has_short_escape, short_escape, append_u_escape, hex_digit,
}

-- A hexadecimal digit.
pub hex : ℕ → ℕ
hex n = if ltb n 10 then b'0' + n else b'a' + (n - 10)

-- A quote, a backslash and a control character are escaped; other ASCII stands for itself, as does a
-- sequence that is valid UTF-8 to `decode_utf8`; another byte becomes U+FFFD.
pub data Spells : Text → Text → Type 0 where
  ended : Spells [] []
  quote : {s t : Text} → Spells s t → Spells (b'"' ∷ s) (b'\\' ∷ b'"' ∷ t)
  backslash : {s t : Text} → Spells s t → Spells (b'\\' ∷ s) (b'\\' ∷ b'\\' ∷ t)
  new_line : {s t : Text} → Spells s t → Spells (10 ∷ s) (b'\\' ∷ b'n' ∷ t)
  carriage_return : {s t : Text} → Spells s t → Spells (13 ∷ s) (b'\\' ∷ b'r' ∷ t)
  tab : {s t : Text} → Spells s t → Spells (9 ∷ s) (b'\\' ∷ b't' ∷ t)
  backspace : {s t : Text} → Spells s t → Spells (8 ∷ s) (b'\\' ∷ b'b' ∷ t)
  form_feed : {s t : Text} → Spells s t → Spells (12 ∷ s) (b'\\' ∷ b'f' ∷ t)
  control :
      {s t : Text} (c : ℕ)
      → c < 32
      → Spells s t
      → Spells (c ∷ s) (b'\\' ∷ b'u' ∷ b'0' ∷ b'0' ∷ hex (c / 16) ∷ hex (c % 16) ∷ t)
  plain :
      {s t : Text} (c : ℕ)
      → 32 ≤ c
      → c < 128
      → c ≢ b'"'
      → c ≢ b'\\'
      → Spells s t
      → Spells (c ∷ s) (c ∷ t)
  sequence :
      {t : Text} (c n : ℕ) (s : Text)
      → 128 ≤ c
      → decode_utf8 c s ≡ some n
      → Spells (drop n (c ∷ s)) t
      → Spells (c ∷ s) (take n (c ∷ s) ++ t)
  replaced :
      {t : Text} (c : ℕ) (s : Text)
      → 128 ≤ c
      → decode_utf8 c s ≡ none
      → Spells s t
      → Spells (c ∷ s) (239 ∷ 191 ∷ 189 ∷ t)

abbrev Step : ℕ → Text → Text → Type 0
Step c s t = Spells (next_piece c s).1 t → Spells (c ∷ s) ((next_piece c s).0 ++ t)

hex_digit_lem : (n : ℕ) → hex_digit n ≡ hex n
unfolding hex_digit hex
hex_digit_lem n = ground arith

is_code : (c k : ℕ) (s t : Text) → Step k s t → (c == k) ≡ true → Step c s t
is_code c k s t step e = subst (λ (x : ℕ). Step x s t) (ground (arith, e)) step

step_short : (c : ℕ) (s t : Text) → has_short_escape c ≡ true → Step c s t
unfolding next_piece has_short_escape short_escape
step_short c s t e = elim (Bool-cases (c == 34)) [
  | inl y ↦ is_code c 34 s t (λ h. quote h) y
  | inr n1 ↦ elim (Bool-cases (c == 92)) [
    | inl y ↦ is_code c 92 s t (λ h. backslash h) y
    | inr n2 ↦ elim (Bool-cases (c == 10)) [
      | inl y ↦ is_code c 10 s t (λ h. new_line h) y
      | inr n3 ↦ elim (Bool-cases (c == 13)) [
        | inl y ↦ is_code c 13 s t (λ h. carriage_return h) y
        | inr n4 ↦ elim (Bool-cases (c == 9)) [
          | inl y ↦ is_code c 9 s t (λ h. tab h) y
          | inr n5 ↦ elim (Bool-cases (c == 8)) [
            | inl y ↦ is_code c 8 s t (λ h. backspace h) y
            | inr n6 ↦
                is_code c 12 s t (λ h. form_feed h) (ground (arith, e, n1, n2, n3, n4, n5, n6))
          ]
        ]
      ]
    ]
  ]
]

escape_lem :
    (c : ℕ)
    → c < 32
    → append_u_escape c ≡ b'\\' ∷ b'u' ∷ b'0' ∷ b'0' ∷ hex (c / 16) ∷ hex (c % 16) ∷ []
unfolding append_u_escape
escape_lem c h =
    let top : c / 2 ^ 12 % 16 ≡ 0 = omega (arith, h) in
    let next : c / 2 ^ 8 % 16 ≡ 0 = omega (arith, h) in
    let third : c / 2 ^ 4 % 16 ≡ c / 16 = omega (arith, h) in
    let first_digit : hex_digit (c / 2 ^ 12 % 16) ≡ b'0' = ap hex_digit top in
    let second_digit : hex_digit (c / 2 ^ 8 % 16) ≡ b'0' = ap hex_digit next in
    let third_digit = ap hex_digit third ∙ hex_digit_lem (c / 16) in
    let last_digit = hex_digit_lem (c % 16) in
    λ i. b'\\' ∷ b'u' ∷ first_digit i ∷ second_digit i ∷ third_digit i ∷ last_digit i ∷ []

step_utf8 :
    (c : ℕ) (s t : Text) (found : Option ℕ)
    → 128 ≤ c
    → decode_utf8 c s ≡ found
    → Spells (utf8_piece c s found).1 t
    → Spells (c ∷ s) ((utf8_piece c s found).0 ++ t)
unfolding utf8_piece
step_utf8 c s t none big e h = replaced c s big e h
step_utf8 c s t (some n) big e h = sequence c n s big e h

not_quote : {c : ℕ} → has_short_escape c ≡ false → c ≢ b'"'
unfolding has_short_escape
not_quote long e = ground (arith, long, e)

not_backslash : {c : ℕ} → has_short_escape c ≡ false → c ≢ b'\\'
unfolding has_short_escape
not_backslash long e = ground (arith, long, e)

low_piece :
    (c : ℕ) (s : Text)
    → has_short_escape c ≡ false
    → ltb c 32 ≡ true
    → next_piece c s ≡ (append_u_escape c, s)
unfolding next_piece
low_piece c s long low = rw (long, low) refl

ascii_piece :
    (c : ℕ) (s : Text)
    → has_short_escape c ≡ false
    → ltb c 32 ≡ false
    → ltb c 128 ≡ true
    → next_piece c s ≡ (c ∷ [], s)
unfolding next_piece
ascii_piece c s long high ascii = rw (long, high, ascii) refl

big_piece :
    (c : ℕ) (s : Text)
    → has_short_escape c ≡ false
    → ltb c 32 ≡ false
    → ltb c 128 ≡ false
    → next_piece c s ≡ utf8_piece c s (decode_utf8 c s)
unfolding next_piece
big_piece c s long high big = rw (long, high, big) refl

-- What a round appends spells what it takes.
pub step_spells : (c : ℕ) (s t : Text) → Step c s t
step_spells c s t = elim (Bool-cases (has_short_escape c)) [
  | inl short ↦ step_short c s t short
  | inr long ↦ elim (Bool-cases (ltb c 32)) [
    | inl low ↦
        let small : c < 32 = ground (arith, low) in
        by_piece (low_piece c s long low ∙ ap (λ e. (e, s)) (escape_lem c small))
          (λ h. control c small h)
    | inr high ↦ elim (Bool-cases (ltb c 128)) [
      | inl ascii ↦ by_piece (ascii_piece c s long high ascii) (λ h.
          plain c (ground (arith, high)) (ground (arith, ascii)) (not_quote long)
            (not_backslash long) h)
      | inr big ↦
          by_piece (big_piece c s long high big)
            (step_utf8 c s t (decode_utf8 c s) (ground (arith, big)) refl)
    ]
  ]
]
  where
    by_piece :
        {p : Text × Text}
        → next_piece c s ≡ p
        → (Spells p.1 t → Spells (c ∷ s) (p.0 ++ t))
        → Step c s t
    by_piece e step =
        subst (λ (q : Text × Text). Spells q.1 t → Spells (c ∷ s) (q.0 ++ t)) (sym e) step
