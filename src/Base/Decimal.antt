-- ===== src/Base/Decimal.antt =====
-- `std::to_string` of a natural number.
use Prim.Native.Nat.{ℕ, zero, suc, ◌+◌, ◌-◌, ◌*◌, ◌/◌, ◌%◌, ◌<◌, ◌≤◌}
use mathlib.Core.Path.{◌≡◌, refl}
use mathlib.Core.Logic.{inl, inr}
use native.Mathlib.Omega.{arith}
use mathlib.Core.Bool.{Bool, true, false, not}
use mathlib.Core.List.{List, [], ◌∷◌, ◌++◌}
use eos_reimagined.Base.Lists.{All, All-append}
use eos_reimagined.Base.Tests.{ltb, ◌==◌, Bool-cases}

-- The digits of `n` in ASCII; the fuel is more than the number of digits.
decimal_loop : ℕ → ℕ → List ℕ
decimal_loop zero n = []
decimal_loop (suc fuel) n = elim (ltb n 10) [
  | true ↦ (b'0' + n) ∷ []
  | false ↦ decimal_loop fuel (n / 10) ++ (b'0' + n % 10) ∷ []
]

unfoldable pub decimal : ℕ → List ℕ
unfolding decimal_loop
decimal n = decimal_loop (suc n) n

-- The number that digits stand for.
value_from : ℕ → List ℕ → ℕ
value_from acc [] = acc
value_from acc (d ∷ ds) = value_from (acc * 10 + (d - b'0')) ds

pub decimal_value : List ℕ → ℕ
unfolding value_from
decimal_value ds = value_from 0 ds

value_from-append :
    (acc : ℕ) (ds : List ℕ) (d : ℕ)
    → value_from acc (ds ++ d ∷ []) ≡ value_from acc ds * 10 + (d - b'0')
unfolding value_from
value_from-append acc [] d = refl
value_from-append acc (x ∷ ds) d = value_from-append (acc * 10 + (x - b'0')) ds d

decimal_loop_one : (fuel n : ℕ) → ltb n 10 ≡ true → decimal_loop (suc fuel) n ≡ (b'0' + n) ∷ []
unfolding decimal_loop
decimal_loop_one fuel n h = rw (decimal_loop, h) refl

decimal_loop_more :
    (fuel n : ℕ)
    → ltb n 10 ≡ false
    → decimal_loop (suc fuel) n ≡ decimal_loop fuel (n / 10) ++ (b'0' + n % 10) ∷ []
unfolding decimal_loop
decimal_loop_more fuel n h = ground (arith, h)

value_from-decimal_loop : (fuel n : ℕ) → n < fuel → value_from 0 (decimal_loop fuel n) ≡ n
value_from-decimal_loop zero n h = absurd (omega (arith, h))
value_from-decimal_loop (suc fuel) n h = elim (Bool-cases (ltb n 10)) [
  | inl one ↦ rw (decimal_loop_one fuel n one) (unfold value_from in omega arith)
  | inr more ↦
      let big : 10 ≤ n = ground (arith, more) in
      let rest = value_from-decimal_loop fuel (n / 10) (omega (arith, h, big)) in
      rw
        (
          decimal_loop_more fuel n more,
          value_from-append 0 (decimal_loop fuel (n / 10)) (b'0' + n % 10),
          rest,
        )
        (omega arith)
]

-- The digits of a number stand for it.
pub decimal_value-decimal : (n : ℕ) → decimal_value (decimal n) ≡ n
unfolding decimal_value decimal
decimal_value-decimal n = value_from-decimal_loop (suc n) n (omega arith)

pub IsDigit : ℕ → Type 0
IsDigit d = (b'0' ≤ d) × (d ≤ b'9')

digits-decimal_loop : (fuel n : ℕ) → All IsDigit (decimal_loop fuel n)
unfolding IsDigit
digits-decimal_loop zero n = unfold decimal_loop in tt
digits-decimal_loop (suc fuel) n = elim (Bool-cases (ltb n 10)) [
  | inl one ↦ rw (decimal_loop_one fuel n one) ((omega arith, ground (arith, one)), tt)
  | inr more ↦ rw (decimal_loop_more fuel n more) (
      All-append IsDigit (decimal_loop fuel (n / 10)) ((b'0' + n % 10) ∷ [])
        (digits-decimal_loop fuel (n / 10)) ((omega arith, omega arith), tt))
]

pub digits-decimal : (n : ℕ) → All IsDigit (decimal n)
unfolding decimal
digits-decimal n = digits-decimal_loop (suc n) n

-- More than one digit, and the first is 0; or none.
pub leads_with_zero : List ℕ → Bool
leads_with_zero [] = true
leads_with_zero (d ∷ []) = false
leads_with_zero (d ∷ e ∷ ds) = d == b'0'

starts_above_zero : List ℕ → Bool
starts_above_zero [] = false
starts_above_zero (d ∷ ds) = not (d == b'0')

starts_above_zero-append :
    (ds : List ℕ) (d : ℕ)
    → starts_above_zero ds ≡ true
    → (starts_above_zero (ds ++ d ∷ []) ≡ true) × (leads_with_zero (ds ++ d ∷ []) ≡ false)
unfolding starts_above_zero leads_with_zero
starts_above_zero-append [] d h = absurd (cc h)
starts_above_zero-append (x ∷ []) d h = (h, ground (arith, h))
starts_above_zero-append (x ∷ y ∷ ds) d h = (h, ground (arith, h))

starts_above_zero-decimal_loop :
    (fuel n : ℕ) → n < fuel → 1 ≤ n → starts_above_zero (decimal_loop fuel n) ≡ true
starts_above_zero-decimal_loop zero n h k = absurd (omega (arith, h))
starts_above_zero-decimal_loop (suc fuel) n h k = elim (Bool-cases (ltb n 10)) [
  | inl one ↦ rw (decimal_loop_one fuel n one) (unfold starts_above_zero in ground (arith, k))
  | inr more ↦
      let big : 10 ≤ n = ground (arith, more) in
      let rest =
        starts_above_zero-decimal_loop fuel (n / 10) (omega (arith, h, big)) (omega (arith, big)) in
      rw (decimal_loop_more fuel n more)
        (starts_above_zero-append (decimal_loop fuel (n / 10)) (b'0' + n % 10) rest).0
]

pub leads_with_zero-decimal : (n : ℕ) → leads_with_zero (decimal n) ≡ false
unfolding decimal
leads_with_zero-decimal n = elim (Bool-cases (ltb n 10)) [
  | inl one ↦ rw (decimal_loop_one n n one) (unfold leads_with_zero in refl)
  | inr more ↦
      let big : 10 ≤ n = ground (arith, more) in
      let rest =
        starts_above_zero-decimal_loop n (n / 10) (omega (arith, big)) (omega (arith, big)) in
      rw (decimal_loop_more n n more)
        (starts_above_zero-append (decimal_loop n (n / 10)) (b'0' + n % 10) rest).1
]
