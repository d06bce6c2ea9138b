-- ===== src/Crypto/Keys.antt =====
-- `hmac_sha256` and `hkdf_sha256` of src/common/crypto.cpp.
pub mod Outputs
use eos_reimagined.Base.{
  ℕ, zero, suc, ◌+◌, ◌-◌, bit_xor, List, [], ◌∷◌, ◌++◌, map, length, ltb, ◌||◌, if◌then◌else◌,
}
use eos_reimagined.Crypto.Sha256.{sha256}

zero_fill : ℕ → List ℕ
zero_fill zero = []
zero_fill (suc n) = 0 ∷ zero_fill n

-- The key in a block of zeros, hashed first if it is longer than the block.
block_key : List ℕ → List ℕ
unfolding zero_fill
block_key key =
    let k = if ltb 64 (length key) then sha256 key else key in k ++ zero_fill (64 - length k)

unfoldable pub hmac_sha256 : List ℕ → List ℕ → List ℕ
unfolding block_key zero_fill
hmac_sha256 key message =
    let inner = map (bit_xor 0x36) (block_key key) ++ message in
    sha256 (map (bit_xor 0x5c) (block_key key) ++ sha256 inner)

-- The outputs from the counter `i` on, `n` of them.
expand : ℕ → ℕ → List ℕ → List ℕ → List (List ℕ)
expand zero i prk previous = []
expand (suc n) i prk previous =
    let block = hmac_sha256 prk (previous ++ (i + 1) ∷ []) in block ∷ expand n (i + 1) prk block

unfoldable pub hkdf_sha256 : List ℕ → List ℕ → ℕ → List (List ℕ)
unfolding expand
hkdf_sha256 salt ikm num_outputs =
    if ltb num_outputs 1 || ltb 3 num_outputs
    then []
    else expand num_outputs 0 (hmac_sha256 salt ikm) []
