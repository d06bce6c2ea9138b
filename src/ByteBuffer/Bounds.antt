-- ===== src/ByteBuffer/Bounds.antt =====
-- `get_var` on any input: what it returns and how much it takes.
use native.Mathlib.Nat.{mod-eq_of_lt, mul-le-mul_right, pow-le-pow_right}
use native.Mathlib.Decide.{dec_lt}
use eos_reimagined.Base.{
  ℕ, suc, ◌+◌, ◌*◌, ◌%◌, ◌^◌, ◌≤◌, ◌<◌, bit_and, bit_or, ◌≡◌, some, List, [], ◌∷◌, arith, length,
  All,
}
use eos_reimagined.Base.Bits.{bit_or_disjoint, low_seven, seven_more}
use eos_reimagined.ByteBuffer.{get_var, get_var_loop}

abbrev pub IsByte : ℕ → Type 0
IsByte b = b < 256

-- The value after one more group is the sum, and fits the bits read so far.
next_value :
    (g acc shift : ℕ)
    → g < 128
    → acc < 2 ^ shift
    → shift ≤ 56
    → let value = bit_or acc (g * 2 ^ shift % 2 ^ 64) in
      (value < 2 ^ (shift + 7)) × (value < 2 ^ 63)
next_value g acc shift hg ha hs =
    let group : suc g * 2 ^ shift ≤ 128 * 2 ^ shift = mul-le-mul_right (2 ^ shift) hg in
    let room : 2 ^ (shift + 7) ≤ 2 ^ 63 =
      pow-le-pow_right {n = 2} (omega arith) {i = shift + 7} {j = 63} (omega arith) in
    let e : g * 2 ^ shift % 2 ^ 64 ≡ g * 2 ^ shift =
      mod-eq_of_lt (omega (arith, seven_more shift)) in
    rw (e, bit_or_disjoint shift acc g ha)
      (omega (arith, seven_more shift), omega (arith, seven_more shift))

last_value : (g acc : ℕ) → g < 2 → acc < 2 ^ 63 → bit_or acc (g * 2 ^ 63 % 2 ^ 64) < 2 ^ 64
last_value g acc hg ha =
    let e : g * 2 ^ 63 % 2 ^ 64 ≡ g * 2 ^ 63 = omega arith in
    rw (e, bit_or_disjoint 63 acc g ha) (omega arith)

-- The tenth byte is the last one, and has one payload bit.
last_round :
    (b : ℕ) (s : List ℕ) (acc shift v : ℕ) (rest : List ℕ)
    → shift ≡ 63
    → acc < 2 ^ 63
    → get_var_loop (b ∷ s) acc shift ≡ some (v, rest)
    → (v < 2 ^ 64) × (length rest ≡ length s)
unfolding get_var_loop
last_round b [] acc shift v rest top ha e = ground (arith, last_value (bit_and b 0x7f) acc)
last_round b (c ∷ s) acc shift v rest top ha e = ground (arith, last_value (bit_and b 0x7f) acc)

get_var_loop_bounds :
    (s : List ℕ) (acc shift j v : ℕ) (rest : List ℕ)
    → All IsByte s
    → shift ≡ 7 * j
    → j ≤ 9
    → acc < 2 ^ shift
    → get_var_loop s acc shift ≡ some (v, rest)
    → (v < 2 ^ 64) × (length rest < length s) × (length s + j ≤ length rest + 10)
unfolding get_var_loop
get_var_loop_bounds [] acc shift j v rest hb hs hj ha e = cc
get_var_loop_bounds (b ∷ s) acc shift j v rest hb hs hj ha e = elim (dec_lt j 9) [
  | yes early ↦
      let g = bit_and b 0x7f in
      let small : g < 128 = omega (arith, low_seven b hb.0) in
      let value = bit_or acc (g * 2 ^ shift % 2 ^ 64) in
      let (next, fits) = next_value g acc shift small ha (omega arith) in
      ground (
        arith,
        get_var_loop_bounds s value (shift + 7) (j + 1) v rest hb.1 (omega arith) (omega arith)
            next,
      )
  | no late ↦
      let top : shift ≡ 63 = omega arith in
      omega (arith, last_round b s acc shift v rest top (rw top at ha) e)
]

-- On any bytes, a successful `get_var` returns a u64 and takes from 1 to 10 bytes.
pub get_var_bounds :
    (s : List ℕ) (v : ℕ) (rest : List ℕ)
    → All IsByte s
    → get_var s ≡ (some v, rest)
    → (v < 2 ^ 64) × (length rest < length s) × (length s ≤ length rest + 10)
unfolding get_var
get_var_bounds s v rest hb e = ground (arith, get_var_loop_bounds s 0 0 0 v rest hb)
