-- ===== src/ByteBuffer/Words.antt =====
-- The fixed-width integers of byte_buffer.cpp, as a loop over their bytes.
use native.Mathlib.Nat.{pow-le-pow_right, one-le-pow, mod-lt, mod-eq_of_lt, mul-le-mul_right}
use native.Mathlib.Numerals.{towards_suc}
use eos_reimagined.Base.{
  ℕ, zero, suc, ◌+◌, ◌*◌, ◌/◌, ◌%◌, ◌^◌, ◌≤◌, ◌<◌, bit_or, ◌≡◌, refl, ◌∙◌, List, [], ◌∷◌, ◌++◌,
  append_assoc, append-nil, arith, length, length-append, drop-append,
}
use eos_reimagined.Base.Bits.{bit_or_disjoint, mod-mul}
use eos_reimagined.ByteBuffer.{
  put_u8, put_u16, put_u32, put_u64, put_word_loop, get_word_loop, get_u8, get_u16, get_u32,
  get_u64,
}
use eos_reimagined.ByteBuffer.Codec.{Codec, IsStable}

-- The bytes `i`, ..., `i + n - 1` of a word, lowest first.
abbrev word_bytes : ℕ → ℕ → ℕ → List ℕ
word_bytes zero i v = []
word_bytes (suc n) i v = (v / 2 ^ (i * 8) % 2 ^ 8) ∷ word_bytes n (i + 1) v

put_word_loop-word_bytes :
    (n i v : ℕ) (buf : List ℕ) → put_word_loop n i v buf ≡ buf ++ word_bytes n i v
unfolding put_word_loop
put_word_loop-word_bytes zero i v buf = rw append-nil
put_word_loop-word_bytes (suc n) i v buf =
    put_word_loop-word_bytes n (i + 1) v _ ∙ append_assoc buf _ (word_bytes n (i + 1) v)

pow_eight : (i : ℕ) → 2 ^ ((i + 1) * 8) ≡ 256 * 2 ^ (i * 8)
pow_eight i = let e : (i + 1) * 8 ≡ i * 8 + 8 = omega arith in rw e (simp towards_suc (omega arith))

-- One round of the reading loop puts byte `i` on top of the bytes below it.
or_byte :
    (bits i v : ℕ)
    → (i + 1) * 8 ≤ bits
    → bit_or (v % 2 ^ (i * 8)) (v / 2 ^ (i * 8) % 2 ^ 8 * 2 ^ (i * 8) % 2 ^ bits)
      ≡ v % 2 ^ ((i + 1) * 8)
or_byte bits i v h =
    let p = 2 ^ (i * 8) in
    let d = v / p % 256 in
    let pos : 0 < p = one-le-pow (i * 8) 2 (omega arith) in
    let digit : suc d * p ≤ 256 * p = mul-le-mul_right p (mod-lt (v / p) (omega arith)) in
    let wide : 2 ^ ((i + 1) * 8) ≤ 2 ^ bits = pow-le-pow_right (omega arith) h in
    let fits : d * p % 2 ^ bits ≡ d * p = mod-eq_of_lt (omega (arith, pow_eight i)) in
    rw (
      fits,
      bit_or_disjoint (i * 8) (v % p) d (mod-lt v pos),
      pow_eight i,
      mod-mul p 256 v pos (omega arith),
    )

get_word_loop-word_bytes :
    (bits n i v : ℕ) (rest : List ℕ)
    → (i + n) * 8 ≤ bits
    → get_word_loop bits n i (v % 2 ^ (i * 8)) (word_bytes n i v ++ rest) ≡ v % 2 ^ ((i + n) * 8)
unfolding get_word_loop
get_word_loop-word_bytes bits zero i v rest h = let e : i + zero ≡ i = omega arith in rw e
get_word_loop-word_bytes bits (suc n) i v rest h =
    let e : i + suc n ≡ i + 1 + n = omega arith in
    rw (or_byte bits i v (omega arith), e)
      (get_word_loop-word_bytes bits n (i + 1) v rest (omega arith))

pub u8-Codec : (v : ℕ) → Codec (put_u8 v) get_u8 v
unfolding put_u8 get_u8
u8-Codec v = record {
  bytes = v ∷ [];
  writes = λ buf. refl;
  reads = λ rest. refl;
  nonempty = omega arith;
}

pub u16-Codec : (v : ℕ) → v < 2 ^ 16 → Codec (put_u16 v) get_u16 v
unfolding put_u16 get_u16
u16-Codec v h = record {
  bytes = word_bytes 2 0 v;
  writes = put_word_loop-word_bytes 2 0 v;
  reads = λ rest. ground (arith, get_word_loop-word_bytes 16 2 0 v rest, mod-eq_of_lt h);
  nonempty = omega arith;
}

pub u32-Codec : (v : ℕ) → v < 2 ^ 32 → Codec (put_u32 v) get_u32 v
unfolding put_u32 get_u32
u32-Codec v h = record {
  bytes = word_bytes 4 0 v;
  writes = put_word_loop-word_bytes 4 0 v;
  reads = λ rest. ground (arith, get_word_loop-word_bytes 32 4 0 v rest, mod-eq_of_lt h);
  nonempty = omega arith;
}

pub u64-Codec : (v : ℕ) → v < 2 ^ 64 → Codec (put_u64 v) get_u64 v
unfolding put_u64 get_u64
u64-Codec v h = record {
  bytes = word_bytes 8 0 v;
  writes = put_word_loop-word_bytes 8 0 v;
  reads = λ rest. ground (arith, get_word_loop-word_bytes 64 8 0 v rest, mod-eq_of_lt h);
  nonempty = omega arith;
}

get_word_loop-append :
    (bits n i value : ℕ) (s more : List ℕ)
    → n ≤ length s
    → get_word_loop bits n i value (s ++ more) ≡ get_word_loop bits n i value s
unfolding get_word_loop
get_word_loop-append bits zero i value s more h = refl
get_word_loop-append bits (suc n) i value [] more h = absurd (omega arith)
get_word_loop-append bits (suc n) i value (b ∷ s) more h =
    get_word_loop-append bits n (i + 1) _ s more (omega arith)

pub get_u8-IsStable : IsStable get_u8
unfolding get_u8
get_u8-IsStable [] more a rest e = cc
get_u8-IsStable (b ∷ s) more a rest e = ground arith

pub get_u16-IsStable : IsStable get_u16
unfolding get_u16
get_u16-IsStable s more a rest e =
    ground (arith, length-append s more, get_word_loop-append 16 2 0 0 s more, drop-append 2 s more)

pub get_u32-IsStable : IsStable get_u32
unfolding get_u32
get_u32-IsStable s more a rest e =
    ground (arith, length-append s more, get_word_loop-append 32 4 0 0 s more, drop-append 4 s more)

pub get_u64-IsStable : IsStable get_u64
unfolding get_u64
get_u64-IsStable s more a rest e =
    ground (arith, length-append s more, get_word_loop-append 64 8 0 0 s more, drop-append 8 s more)
