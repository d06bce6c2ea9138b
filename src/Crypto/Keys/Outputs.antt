-- ===== src/Crypto/Keys/Outputs.antt =====
-- What `hkdf_sha256` gives: as many keys as were asked for, of 32 bytes each.
use eos_reimagined.Base.{
  ℕ, zero, suc, ◌+◌, ◌≤◌, ◌≡◌, refl, arith, List, [], ◌∷◌, length, All, ltb, false,
}
use eos_reimagined.Crypto.Sha256.Digest.{length-sha256}
use eos_reimagined.Crypto.Keys.{hmac_sha256, expand, hkdf_sha256}

pub length-hmac_sha256 : (key message : List ℕ) → length (hmac_sha256 key message) ≡ 32
unfolding hmac_sha256
length-hmac_sha256 key message = length-sha256 _

length-expand : (n i : ℕ) (prk previous : List ℕ) → length (expand n i prk previous) ≡ n
unfolding expand
length-expand zero i prk previous = refl
length-expand (suc n) i prk previous = omega (arith, length-expand n (i + 1) prk _)

expand_keys : (n i : ℕ) (prk previous : List ℕ) → All (λ k. length k ≡ 32) (expand n i prk previous)
unfolding expand
expand_keys zero i prk previous = tt
expand_keys (suc n) i prk previous = (length-hmac_sha256 prk _, expand_keys n (i + 1) prk _)

-- One to three keys are given as they were asked for, each of 32 bytes.
pub hkdf_sha256_keys :
    (salt ikm : List ℕ) (n : ℕ)
    → 1 ≤ n
    → n ≤ 3
    → (length (hkdf_sha256 salt ikm n) ≡ n) × All (λ k. length k ≡ 32) (hkdf_sha256 salt ikm n)
unfolding hkdf_sha256
hkdf_sha256_keys salt ikm n h k =
    let low : ltb n 1 ≡ false = ground arith in
    let high : ltb 3 n ≡ false = ground arith in
    rw (low, high)
      (length-expand n 0 (hmac_sha256 salt ikm) [], expand_keys n 0 (hmac_sha256 salt ikm) [])

-- Two keys, as the handshake asks for them.
pub hkdf_two :
    (salt ikm : List ℕ)
    → (first : List ℕ) × (second : List ℕ) × (hkdf_sha256 salt ikm 2 ≡ first ∷ second ∷ [])
unfolding hkdf_sha256 expand
hkdf_two salt ikm = (_, _, refl)
