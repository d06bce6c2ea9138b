-- ===== src/Crypto/Sha256.antt =====
-- `sha256` of src/common/crypto.cpp. Words are below 2 ^ 32, and additions wrap.
pub mod Digest
use eos_reimagined.Base.{
  ℕ, zero, suc, ◌+◌, ◌-◌, ◌*◌, ◌/◌, ◌%◌, ◌^◌, bit_and, bit_or, bit_xor, List, [], ◌∷◌, ◌++◌, length,
  take, drop, ◌==◌, if◌then◌else◌,
}

abbrev sha256_block_size : ℕ
sha256_block_size = 64

rotr : ℕ → ℕ → ℕ
rotr value bits = bit_or (value / 2 ^ bits) (value * 2 ^ (32 - bits) % 2 ^ 32)

-- `w[i]`, read inside the array only.
word_at : List ℕ → ℕ → ℕ
word_at [] i = 0
word_at (x ∷ xs) zero = x
word_at (x ∷ xs) (suc i) = word_at xs i

round_constants : List ℕ
round_constants =
    0x428a2f98 ∷ 0x71374491 ∷ 0xb5c0fbcf ∷ 0xe9b5dba5 ∷ 0x3956c25b ∷ 0x59f111f1 ∷ 0x923f82a4
    ∷ 0xab1c5ed5 ∷ 0xd807aa98 ∷ 0x12835b01 ∷ 0x243185be ∷ 0x550c7dc3 ∷ 0x72be5d74 ∷ 0x80deb1fe
    ∷ 0x9bdc06a7 ∷ 0xc19bf174 ∷ 0xe49b69c1 ∷ 0xefbe4786 ∷ 0x0fc19dc6 ∷ 0x240ca1cc ∷ 0x2de92c6f
    ∷ 0x4a7484aa ∷ 0x5cb0a9dc ∷ 0x76f988da ∷ 0x983e5152 ∷ 0xa831c66d ∷ 0xb00327c8 ∷ 0xbf597fc7
    ∷ 0xc6e00bf3 ∷ 0xd5a79147 ∷ 0x06ca6351 ∷ 0x14292967 ∷ 0x27b70a85 ∷ 0x2e1b2138 ∷ 0x4d2c6dfc
    ∷ 0x53380d13 ∷ 0x650a7354 ∷ 0x766a0abb ∷ 0x81c2c92e ∷ 0x92722c85 ∷ 0xa2bfe8a1 ∷ 0xa81a664b
    ∷ 0xc24b8b70 ∷ 0xc76c51a3 ∷ 0xd192e819 ∷ 0xd6990624 ∷ 0xf40e3585 ∷ 0x106aa070 ∷ 0x19a4c116
    ∷ 0x1e376c08 ∷ 0x2748774c ∷ 0x34b0bcb5 ∷ 0x391c0cb3 ∷ 0x4ed8aa4a ∷ 0x5b9cca4f ∷ 0x682e6ff3
    ∷ 0x748f82ee ∷ 0x78a5636f ∷ 0x84c87814 ∷ 0x8cc70208 ∷ 0x90befffa ∷ 0xa4506ceb ∷ 0xbef9a3f7
    ∷ 0xc67178f2 ∷ []

-- A big-endian word, and the loop over the first 16 of a block.
word_of : ℕ → ℕ → ℕ → ℕ → ℕ
word_of a b c d =
    bit_or (bit_or (bit_or (a * 2 ^ 24 % 2 ^ 32) (b * 2 ^ 16 % 2 ^ 32)) (c * 2 ^ 8 % 2 ^ 32)) d

block_words : ℕ → List ℕ → List ℕ
block_words zero block = []
block_words (suc n) (a ∷ b ∷ c ∷ d ∷ block) = word_of a b c d ∷ block_words n block
block_words (suc n) short = []

next_word : List ℕ → ℕ → ℕ
unfolding rotr word_at
next_word w i =
    let w15 = word_at w (i - 15) in
    let w2 = word_at w (i - 2) in
    let s0 = bit_xor (bit_xor (rotr w15 7) (rotr w15 18)) (w15 / 2 ^ 3) in
    let s1 = bit_xor (bit_xor (rotr w2 17) (rotr w2 19)) (w2 / 2 ^ 10) in
    (word_at w (i - 16) + s0 + word_at w (i - 7) + s1) % 2 ^ 32

-- The loop that fills `w[i]` up to 64, with `n` rounds left.
schedule : ℕ → ℕ → List ℕ → List ℕ
unfolding next_word
schedule zero i w = w
schedule (suc n) i w = schedule n (i + 1) (w ++ next_word w i ∷ [])

pub record Words : Type 0 where
  pub a : ℕ
  pub b : ℕ
  pub c : ℕ
  pub d : ℕ
  pub e : ℕ
  pub f : ℕ
  pub g : ℕ
  pub h : ℕ

compress_round : ℕ → ℕ → Words → Words
unfolding rotr
compress_round k w s =
    let s1 = bit_xor (bit_xor (rotr s.e 6) (rotr s.e 11)) (rotr s.e 25) in
    let ch = bit_xor (bit_and s.e s.f) (bit_and (bit_xor s.e (2 ^ 32 - 1)) s.g) in
    let t1 = (s.h + s1 + ch + k + w) % 2 ^ 32 in
    let s0 = bit_xor (bit_xor (rotr s.a 2) (rotr s.a 13)) (rotr s.a 22) in
    let maj = bit_xor (bit_xor (bit_and s.a s.b) (bit_and s.a s.c)) (bit_and s.b s.c) in
    let t2 = (s0 + maj) % 2 ^ 32 in
    record {
      a = (t1 + t2) % 2 ^ 32;
      b = s.a;
      c = s.b;
      d = s.c;
      e = (s.d + t1) % 2 ^ 32;
      f = s.e;
      g = s.f;
      h = s.g;
    }

compress_rounds : List ℕ → List ℕ → Words → Words
unfolding compress_round
compress_rounds [] ws s = s
compress_rounds (k ∷ ks) [] s = s
compress_rounds (k ∷ ks) (w ∷ ws) s = compress_rounds ks ws (compress_round k w s)

add_words : Words → Words → Words
add_words s t = record {
  a = (s.a + t.a) % 2 ^ 32;
  b = (s.b + t.b) % 2 ^ 32;
  c = (s.c + t.c) % 2 ^ 32;
  d = (s.d + t.d) % 2 ^ 32;
  e = (s.e + t.e) % 2 ^ 32;
  f = (s.f + t.f) % 2 ^ 32;
  g = (s.g + t.g) % 2 ^ 32;
  h = (s.h + t.h) % 2 ^ 32;
}

sha256_compress : Words → List ℕ → Words
unfolding add_words compress_rounds round_constants schedule block_words word_of
sha256_compress state block =
    add_words state (compress_rounds round_constants (schedule 48 16 (block_words 16 block)) state)

initial_state : Words
initial_state = record {
  a = 0x6a09e667;
  b = 0xbb67ae85;
  c = 0x3c6ef372;
  d = 0xa54ff53a;
  e = 0x510e527f;
  f = 0x9b05688c;
  g = 0x1f83d9ab;
  h = 0x5be0cd19;
}

-- The loop that appends zeros until the length is 56 modulo 64, which 63 rounds reach.
pub pad_zeros : ℕ → List ℕ → List ℕ
pad_zeros zero message = message
pad_zeros (suc fuel) message =
    let padded = pad_zeros fuel (message ++ 0 ∷ []) in
    if length message % sha256_block_size == 56 then message else padded

big_endian_u64 : ℕ → List ℕ
big_endian_u64 n =
    n / 2 ^ 56 % 2 ^ 8
    ∷ n / 2 ^ 48 % 2 ^ 8
    ∷ n / 2 ^ 40 % 2 ^ 8
    ∷ n / 2 ^ 32 % 2 ^ 8
    ∷ n / 2 ^ 24 % 2 ^ 8
    ∷ n / 2 ^ 16 % 2 ^ 8
    ∷ n / 2 ^ 8 % 2 ^ 8
    ∷ n % 2 ^ 8
    ∷ []

pub pad : List ℕ → List ℕ
unfolding pad_zeros big_endian_u64
pad bytes = pad_zeros 63 (bytes ++ 0x80 ∷ []) ++ big_endian_u64 (length bytes * 8 % 2 ^ 64)

-- The loop over the blocks, `n` of them.
compress_blocks : ℕ → List ℕ → Words → Words
unfolding sha256_compress
compress_blocks zero message state = state
compress_blocks (suc n) message state =
    compress_blocks n (drop sha256_block_size message)
      (sha256_compress state (take sha256_block_size message))

word_bytes : ℕ → List ℕ
word_bytes w = w / 2 ^ 24 % 2 ^ 8 ∷ w / 2 ^ 16 % 2 ^ 8 ∷ w / 2 ^ 8 % 2 ^ 8 ∷ w % 2 ^ 8 ∷ []

digest_of : Words → List ℕ
unfolding word_bytes
digest_of s =
    word_bytes s.a
    ++ word_bytes s.b
    ++ word_bytes s.c
    ++ word_bytes s.d
    ++ word_bytes s.e
    ++ word_bytes s.f
    ++ word_bytes s.g
    ++ word_bytes s.h

unfoldable pub sha256 : List ℕ → List ℕ
unfolding digest_of word_bytes compress_blocks pad initial_state
sha256 bytes =
    let message = pad bytes in
    digest_of (compress_blocks (length message / sha256_block_size) message initial_state)
