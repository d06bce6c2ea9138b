-- ===== src/Crypto/Sha256/Digest.antt =====
-- The padding ends at a block, and a digest has 32 bytes.
use eos_reimagined.Base.{
  ℕ, zero, suc, ◌+◌, ◌-◌, ◌*◌, ◌^◌, ◌%◌, ◌≤◌, ◌≡◌, refl, arith, List, [], ◌∷◌, ◌++◌, length,
  length-append,
}
use eos_reimagined.Crypto.Sha256.{pad_zeros, pad, sha256, digest_of, word_bytes, big_endian_u64}

pad_zeros-length :
    (fuel : ℕ) (message : List ℕ)
    → (56 + 64 - length message % 64) % 64 ≤ fuel
    → length (pad_zeros fuel message) % 64 ≡ 56
unfolding pad_zeros
pad_zeros-length zero message h = omega (arith, h)
pad_zeros-length (suc fuel) message h =
    let more = length-append message (0 ∷ []) in
    ground (arith, h, more, pad_zeros-length fuel (message ++ 0 ∷ []))

-- A padded message is whole blocks.
pub length-pad : (bytes : List ℕ) → length (pad bytes) % 64 ≡ 0
unfolding pad big_endian_u64
length-pad bytes =
    let body = bytes ++ 0x80 ∷ [] in
    omega (
      arith,
      pad_zeros-length 63 body (omega arith),
      length-append (pad_zeros 63 body) (big_endian_u64 (length bytes * 8 % 2 ^ 64)),
    )

pub length-sha256 : (bytes : List ℕ) → length (sha256 bytes) ≡ 32
unfolding sha256 digest_of word_bytes
length-sha256 bytes = refl
