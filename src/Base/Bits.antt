-- ===== src/Base/Bits.antt =====
-- `|`, `&` and `^` on words as arithmetic: digit by digit at every width, and by tables on a byte.
use Prim.Native.Nat.{ℕ, zero, suc, ◌+◌, ◌-◌, ◌*◌, ◌/◌, ◌%◌, ◌^◌, ◌≤◌, ◌<◌, min, max}
use Prim.Native.Nat.{bit_and, bit_or, bit_xor, digits, bitwise, differ}
use Prim.Native.Nat.{bit_and-bitwise, bit_or-bitwise, bit_xor-bitwise}
use mathlib.Core.Path.{◌≡◌, refl, sym, ap, ◌∙◌}
use mathlib.Core.Bool.{Bool, true, false}
use mathlib.Core.Logic.{ite}
use native.Mathlib.Nat.{
  le_refl, pow-suc, one-le-pow, mod-lt, mod-eq_of_lt, div-add-mod', mul-add-mod_self_right,
  mul-le-mul_right,
}
use native.Mathlib.Numerals.{towards_suc}
use native.Mathlib.Decide.{ℕ_discrete}
use native.Mathlib.Omega.{arith}
use eos_reimagined.Base.Tests.{◌==◌, if◌then◌else◌}

-- Two functions agree below `n`, by evaluation.
module _ (f g : ℕ → ℕ) where
  agree_below : ℕ → Bool
  unfolding ℕ_discrete
  agree_below zero = true
  agree_below (suc n) = ite (ℕ_discrete (f n) (g n)) (agree_below n) false

  agree_below→eq : (n : ℕ) → agree_below n ≡ true → (i : ℕ) → i < n → f i ≡ g i
  unfolding agree_below
  agree_below→eq zero e i h = absurd (omega arith)
  agree_below→eq (suc n) e i h = ground (arith, agree_below→eq n (ground arith) i)

pub low_seven : (b : ℕ) → b < 256 → bit_and b 0x7f ≡ b % 128
unfolding agree_below
low_seven = agree_below→eq _ _ 256 refl

pub top_bit : (b : ℕ) → b < 256 → bit_and b 0x80 ≡ b / 128 * 128
unfolding agree_below
top_bit = agree_below→eq _ _ 256 refl

pub set_top_bit : (b : ℕ) → b < 256 → bit_or b 0x80 ≡ b % 128 + 128
unfolding agree_below
set_top_bit = agree_below→eq _ _ 256 refl

-- The library's recursion on the binary digits does not depend on its fuel.
module _ (pad : ℕ → ℕ) (op : ℕ → ℕ → ℕ) where
  only_second : (u y : ℕ) → digits pad op u 0 y ≡ pad y
  only_second zero y = refl
  only_second (suc u) y = refl

  settled : (x y u v : ℕ) → x ≤ v → x ≤ u → digits pad op v x y ≡ digits pad op u x y
  settled zero y u v hv hu = only_second v y ∙ sym (only_second u y)
  settled (suc x) y zero v hv hu = absurd (omega (arith, hu))
  settled (suc x) y (suc u) zero hv hu = absurd (omega (arith, hv))
  settled (suc x) y (suc u) (suc v) hv hu =
      let half = suc x / 2 in
      let same : digits pad op v half (y / 2) ≡ digits pad op u half (y / 2) =
        settled half (y / 2) u v (omega arith) (omega arith) in
      rw same

  by_digit :
      (x y : ℕ)
      → let half = suc x / 2 in
        bitwise pad op (suc x) y ≡ op (suc x % 2) (y % 2) + 2 * bitwise pad op half (y / 2)
  by_digit x y =
      let half = suc x / 2 in omega (arith, settled half (y / 2) half x (omega arith) (le_refl _))

-- Each operation by the lowest digit.
pub bit_xor_step : (x y : ℕ) → bit_xor x y ≡ differ (x % 2) (y % 2) + 2 * bit_xor (x / 2) (y / 2)
bit_xor_step zero y = simp bit_xor-bitwise (omega arith)
bit_xor_step (suc x) y = simp bit_xor-bitwise (by_digit (λ d. d) differ x y)

pub bit_or_step : (x y : ℕ) → bit_or x y ≡ max (x % 2) (y % 2) + 2 * bit_or (x / 2) (y / 2)
bit_or_step zero y = simp bit_or-bitwise (omega arith)
bit_or_step (suc x) y = simp bit_or-bitwise (by_digit (λ d. d) max x y)

pub bit_and_step : (x y : ℕ) → bit_and x y ≡ min (x % 2) (y % 2) + 2 * bit_and (x / 2) (y / 2)
bit_and_step zero y = simp bit_and-bitwise (omega arith)
bit_and_step (suc x) y = simp bit_and-bitwise (by_digit (λ d. 0) min x y)

pub seven_more : (k : ℕ) → 2 ^ k * 128 ≡ 2 ^ (k + 7)
seven_more k = simp towards_suc (omega arith)

zero-bit_or : (b : ℕ) → bit_or 0 b ≡ b
zero-bit_or b = bit_or-bitwise 0 b

doubled : (x n : ℕ) → (x * 2 ^ n) * 2 ≡ x * 2 ^ suc n
doubled x n = let more = ap (λ (e : ℕ). x * e) (pow-suc 2 n) in omega (arith, more)

-- `r | (q << k)` is a sum when `r` fits `k` bits.
pub bit_or_disjoint : (k r q : ℕ) → r < 2 ^ k → bit_or r (q * 2 ^ k) ≡ r + q * 2 ^ k
bit_or_disjoint zero r q h = ground (arith, zero-bit_or q)
bit_or_disjoint (suc k) r q h =
    ground
      (arith, bit_or_step r (q * 2 ^ suc k), doubled q k, pow-suc 2 k, bit_or_disjoint k (r / 2) q)

bit_or-zero : (k x : ℕ) → x < 2 ^ k → bit_or x 0 ≡ x
bit_or-zero zero x h = ground arith
bit_or-zero (suc k) x h = ground (arith, bit_or_step x 0, pow-suc 2 k, bit_or-zero k (x / 2))

-- `(q << k) | r`, with the high part first, for words of `n + k` bits.
pub bit_or_above : (n k q r : ℕ) → q < 2 ^ n → r < 2 ^ k → bit_or (q * 2 ^ k) r ≡ q * 2 ^ k + r
bit_or_above n zero q r hq h = ground (arith, bit_or-zero n q)
bit_or_above n (suc k) q r hq h =
    ground
      (arith, bit_or_step (q * 2 ^ suc k) r, doubled q k, pow-suc 2 k, bit_or_above n k q (r / 2))

differ-zero : (d : ℕ) → differ d 0 ≡ d
differ-zero zero = refl
differ-zero (suc d) = refl

pub bit_xor-zero : (k x : ℕ) → x < 2 ^ k → bit_xor x 0 ≡ x
bit_xor-zero zero x h = ground arith
bit_xor-zero (suc k) x h =
    ground (arith, bit_xor_step x 0, pow-suc 2 k, bit_xor-zero k (x / 2), differ-zero (x % 2))

differ-one : (d : ℕ) → d < 2 → differ d 1 ≡ 1 - d
differ-one zero h = refl
differ-one (suc zero) h = refl
differ-one (suc (suc d)) h = absurd (omega arith)

-- `^` with `k` ones is the complement of a `k` bit word.
pub bit_xor_ones : (k x : ℕ) → x < 2 ^ k → bit_xor x (2 ^ k - 1) ≡ 2 ^ k - 1 - x
bit_xor_ones zero x h = ground (arith)
bit_xor_ones (suc k) x h = ground (
  arith,
  bit_xor_step x (2 ^ suc k - 1),
  pow-suc 2 k,
  one-le-pow k 2,
  bit_xor_ones k (x / 2),
  differ-one (x % 2),
)

-- The bit of `x` at place `k`.
abbrev pub bit_at : ℕ → ℕ → ℕ
bit_at x zero = x % 2
bit_at x (suc k) = bit_at (x / 2) k

pub bit_at-lt : (k x : ℕ) → bit_at x k < 2
bit_at-lt zero x = omega arith
bit_at-lt (suc k) x = bit_at-lt k (x / 2)

pub bit_at-bit_or : (k x y : ℕ) → bit_at (bit_or x y) k ≡ max (bit_at x k) (bit_at y k)
bit_at-bit_or zero x y = omega (arith, bit_or_step x y)
bit_at-bit_or (suc k) x y =
    let e : bit_or x y / 2 ≡ bit_or (x / 2) (y / 2) = omega (arith, bit_or_step x y) in
    rw e (bit_at-bit_or k (x / 2) (y / 2))

no_bits : (bound x : ℕ) → x < bound → bit_and x 0 ≡ 0
no_bits zero x h = absurd (omega (arith, h))
no_bits (suc bound) zero h = refl
no_bits (suc bound) (suc x) h =
    let rest = no_bits bound (suc x / 2) (omega arith) in
    omega (arith, rest, bit_and_step (suc x) 0)

-- `x & (1 << k)` is not 0 exactly when the bit at `k` is 1.
pub bit_and_single : (k x : ℕ) → bit_and x (2 ^ k) ≡ bit_at x k * 2 ^ k
bit_and_single zero x = omega (arith, bit_and_step x 1, no_bits (suc (x / 2)) (x / 2) (omega arith))
bit_and_single (suc k) x = ground (
  arith,
  bit_and_step x (2 ^ suc k),
  pow-suc 2 k,
  doubled (bit_at (x / 2) k) k,
  bit_and_single k (x / 2),
)

pub bit_at-zero : (k : ℕ) → bit_at 0 k ≡ 0
bit_at-zero zero = refl
bit_at-zero (suc k) = bit_at-zero k

-- Shifting up by `s` clears the `s` low places and moves the others.
pub bit_at-shift_low : (s k x : ℕ) → k < s → bit_at (x * 2 ^ s) k ≡ 0
bit_at-shift_low zero k x h = absurd (omega arith)
bit_at-shift_low (suc s) zero x h = omega (arith, doubled x s)
bit_at-shift_low (suc s) (suc k) x h =
    let e : x * 2 ^ suc s / 2 ≡ x * 2 ^ s = omega (arith, doubled x s) in
    rw e (bit_at-shift_low s k x (omega arith))

pub bit_at-shift_high : (s k x : ℕ) → s ≤ k → bit_at (x * 2 ^ s) k ≡ bit_at x (k - s)
bit_at-shift_high zero k x h =
    let e : x * 2 ^ 0 ≡ x = omega arith in let d : k - 0 ≡ k = omega arith in rw (e, d)
bit_at-shift_high (suc s) zero x h = absurd (omega arith)
bit_at-shift_high (suc s) (suc k) x h =
    let e : x * 2 ^ suc s / 2 ≡ x * 2 ^ s = omega (arith, doubled x s) in
    let d : suc k - suc s ≡ k - s = omega arith in rw (e, d) (bit_at-shift_high s k x (omega arith))

-- A digit in base `c` above the digits below `m`.
pub mod-mul : (m c x : ℕ) → 0 < m → 0 < c → x % (c * m) ≡ x % m + x / m % c * m
mod-mul m c x hm hc =
    let q = x / m / c in
    let d = x / m % c in
    let r = x % m + d * m in
    let low : x % m < m = mod-lt x hm in
    let digit : suc d * m ≤ c * m = mul-le-mul_right m (mod-lt (x / m) hc) in
    let e : x ≡ q * (c * m) + r =
      omega (arith, div-add-mod' x m, ap (λ (t : ℕ). t * m) (div-add-mod' (x / m) c)) in
    ap (λ (t : ℕ). t % (c * m)) e
    ∙ (mul-add-mod_self_right q (c * m) r ∙ mod-eq_of_lt {n = r} (omega arith))

-- `x % 2 ^ (n + 1)` by its lowest bit and the rest.
mod-two-pow_step : (n x : ℕ) → (x % 2 ^ suc n / 2 ≡ x / 2 % 2 ^ n) × (x % 2 ^ suc n % 2 ≡ x % 2)
mod-two-pow_step n x =
    rw (pow-suc 2 n)
      (omega (arith, mod-mul 2 (2 ^ n) x (omega arith) (one-le-pow n 2 (omega arith))))

-- Cutting a word to `n` bits keeps the bits below `n`.
pub bit_at-mod : (n k x : ℕ) → k < n → bit_at (x % 2 ^ n) k ≡ bit_at x k
bit_at-mod zero k x h = absurd (omega arith)
bit_at-mod (suc n) zero x h = (mod-two-pow_step n x).1
bit_at-mod (suc n) (suc k) x h =
    rw ((mod-two-pow_step n x).0) (bit_at-mod n k (x / 2) (omega arith))

-- A single bit.
pub bit_at-single : (k j : ℕ) → bit_at (2 ^ k) j ≡ (if j == k then 1 else 0)
bit_at-single zero zero = refl
bit_at-single zero (suc j) = bit_at-zero j ∙ ground arith
bit_at-single (suc k) zero = ground (arith, pow-suc 2 k)
bit_at-single (suc k) (suc j) =
    let e : 2 ^ suc k / 2 ≡ 2 ^ k = omega (arith, pow-suc 2 k) in
    rw e (bit_at-single k j ∙ ground arith)
