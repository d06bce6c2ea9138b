-- ===== src/FrameResult/Payload.antt =====
-- The payload of a new result.
use native.Mathlib.Nat.{mod-lt, div-add-mod'}
use eos_reimagined.Base.{
  ℕ, zero, suc, ◌+◌, ◌-◌, ◌*◌, ◌/◌, ◌≤◌, ◌<◌, ◌≡◌, refl, Option, length, arith, All, false,
}
use eos_reimagined.FrameResult.{FrameResult, create_callback, callback_ok_timeout, zeros}

length-zeros : (n : ℕ) → length (zeros n) ≡ n
unfolding zeros
length-zeros zero = refl
length-zeros (suc n) = omega (arith, length-zeros n)

zeros-are_zero : (n : ℕ) → All (λ b. b ≡ 0) (zeros n)
unfolding zeros
zeros-are_zero zero = tt
zeros-are_zero (suc n) = (refl, zeros-are_zero n)

-- The payload of a new result, with elements of `unit` bytes, one at least, holds the `size` bytes that
-- were asked for, in less than one element more, and all are 0; the result is not done, and is not old
-- enough before its timeout has passed.
pub create_callback_payload :
    (unit : ℕ) (r : FrameResult) (type_id size : ℕ) (func : Option ℕ) (ok_timeout now later : ℕ)
    → 1 ≤ unit
    → later < ok_timeout
    → let r' = create_callback unit r type_id size func ok_timeout now in
      (size ≤ length r'.payload)
      × (length r'.payload < size + unit)
      × All (λ b. b ≡ 0) r'.payload
      × (r'.done ≡ false)
      × (callback_ok_timeout r' (now + later) ≡ false)
unfolding create_callback callback_ok_timeout
create_callback_payload unit r type_id size func ok_timeout now later h young =
    let n = (size + unit - 1) / unit * unit in
    let e = length-zeros n in
    let whole = div-add-mod' (size + unit - 1) unit in
    let rest = mod-lt (size + unit - 1) h in
    (
      omega (arith, e, whole, rest),
      omega (arith, e, whole, rest),
      zeros-are_zero n,
      refl,
      ground (arith, young),
    )
