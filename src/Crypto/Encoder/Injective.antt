-- ===== src/Crypto/Encoder/Injective.antt =====
-- Fields that are encoded one behind another are told apart again.
use eos_reimagined.Base.{
  ℕ, ◌/◌, ◌%◌, ◌^◌, ◌<◌, ◌≡◌, refl, sym, ◌∙◌, List, [], ◌∷◌, ◌++◌, append_assoc, arith, length,
}
use eos_reimagined.Crypto.Encoder.{field, length_prefix, u64_bytes}

-- Blocks of one length in front are cancelled.
pub append_cancel :
    (xs ys rest more : List ℕ)
    → length xs ≡ length ys
    → xs ++ rest ≡ ys ++ more
    → (xs ≡ ys) × (rest ≡ more)
append_cancel [] [] rest more h e = (refl, e)
append_cancel [] (y ∷ ys) rest more h e = absurd (omega (arith, h))
append_cancel (x ∷ xs) [] rest more h e = absurd (omega (arith, h))
append_cancel (x ∷ xs) (y ∷ ys) rest more h e =
    let tails : xs ++ rest ≡ ys ++ more = cc in
    let heads : x ≡ y = cc in
    let (same, left) = append_cancel xs ys rest more (omega (arith, h)) tails in
    ((λ i. heads i ∷ same i), left)

prefix_cancel :
    (n m : ℕ) (rest more : List ℕ)
    → n < 2 ^ 32
    → m < 2 ^ 32
    → length_prefix n ++ rest ≡ length_prefix m ++ more
    → (n ≡ m) × (rest ≡ more)
unfolding length_prefix
prefix_cancel n m rest more hn hm e =
    let a : n / 2 ^ 24 % 2 ^ 8 ≡ m / 2 ^ 24 % 2 ^ 8 = cc in
    let b : n / 2 ^ 16 % 2 ^ 8 ≡ m / 2 ^ 16 % 2 ^ 8 = cc in
    let c : n / 2 ^ 8 % 2 ^ 8 ≡ m / 2 ^ 8 % 2 ^ 8 = cc in
    let d : n % 2 ^ 8 ≡ m % 2 ^ 8 = cc in
    let left : rest ≡ more = cc in (omega (arith, a, b, c, d, hn, hm), left)

-- An encoded field in front is cancelled.
pub field_cancel :
    (xs ys rest more : List ℕ)
    → length xs < 2 ^ 32
    → length ys < 2 ^ 32
    → field xs [] ++ rest ≡ field ys [] ++ more
    → (xs ≡ ys) × (rest ≡ more)
unfolding field
field_cancel xs ys rest more hx hy e =
    let n = length xs % 2 ^ 32 in
    let m = length ys % 2 ^ 32 in
    let shown : length_prefix n ++ (xs ++ rest) ≡ length_prefix m ++ (ys ++ more) =
      sym (append_assoc (length_prefix n) xs rest) ∙ (e ∙ append_assoc (length_prefix m) ys more) in
    let (sizes, left) =
      prefix_cancel n m (xs ++ rest) (ys ++ more) (omega arith) (omega arith) shown in
    append_cancel xs ys rest more (omega (arith, sizes, hx, hy)) left

-- Any buffer in front stays in front.
pub field-append : (xs buf : List ℕ) → field xs buf ≡ buf ++ field xs []
unfolding field
field-append xs buf = append_assoc buf (length_prefix (length xs % 2 ^ 32)) xs

pub length-u64_bytes : (n : ℕ) → length (u64_bytes n) ≡ 8
unfolding u64_bytes
length-u64_bytes n = refl

-- A `u64` is told by its field.
pub u64_bytes_injective : (n m : ℕ) → n < 2 ^ 64 → m < 2 ^ 64 → u64_bytes n ≡ u64_bytes m → n ≡ m
unfolding u64_bytes
u64_bytes_injective n m hn hm e =
    let a : n / 2 ^ 56 % 2 ^ 8 ≡ m / 2 ^ 56 % 2 ^ 8 = cc in
    let b : n / 2 ^ 48 % 2 ^ 8 ≡ m / 2 ^ 48 % 2 ^ 8 = cc in
    let c : n / 2 ^ 40 % 2 ^ 8 ≡ m / 2 ^ 40 % 2 ^ 8 = cc in
    let d : n / 2 ^ 32 % 2 ^ 8 ≡ m / 2 ^ 32 % 2 ^ 8 = cc in
    let k : n / 2 ^ 24 % 2 ^ 8 ≡ m / 2 ^ 24 % 2 ^ 8 = cc in
    let l : n / 2 ^ 16 % 2 ^ 8 ≡ m / 2 ^ 16 % 2 ^ 8 = cc in
    let p : n / 2 ^ 8 % 2 ^ 8 ≡ m / 2 ^ 8 % 2 ^ 8 = cc in
    let q : n % 2 ^ 8 ≡ m % 2 ^ 8 = cc in omega (arith, a, b, c, d, k, l, p, q, hn, hm)
