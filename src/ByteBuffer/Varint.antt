-- ===== src/ByteBuffer/Varint.antt =====
-- `put_var` and `get_var`: unsigned LEB128 in 1 to 10 bytes, and the zig-zag of signed values.
use mathlib.Core.WellFounded.{Acc}
use native.Mathlib.Nat.{mod-lt, mod-eq_of_lt, mul-le-mul_right, div-add-mod'}
use eos_reimagined.Base.{
  ℕ, zero, suc, ◌+◌, ◌-◌, ◌*◌, ◌/◌, ◌%◌, ◌^◌, ◌≤◌, ◌<◌, bit_and, bit_or, ◌≡◌, ap, some, List, [],
  ◌∷◌, ◌++◌, append_assoc, arith, length, ltb, if◌then◌else◌,
}
use eos_reimagined.Base.Int.{ℤ, pos, negsuc, IsI64}
use eos_reimagined.Base.Bits.{
  bit_or_disjoint, bit_xor-zero, bit_xor_ones, low_seven, top_bit, set_top_bit, seven_more,
  bit_and_single,
}
use eos_reimagined.Base.Wf.{lt_wf}
use eos_reimagined.ByteBuffer.{
  put_var, put_var_loop, put_svar, zig_zag, get_var, get_var_loop, get_svar, zag_zig,
}
use eos_reimagined.ByteBuffer.Codec.{Codec, Codec-last, IsStable, IsStable-bind, IsStable-pure}

-- The groups of seven bits of `v`, lowest first, in `k + 1` bytes at most.
abbrev leb128 : ℕ → ℕ → List ℕ
leb128 zero v = v ∷ []
leb128 (suc k) v = if ltb v 128 then v ∷ [] else (v % 128 + 128) ∷ leb128 k (v / 128)

leb128-nonempty : (k v : ℕ) → 1 ≤ length (leb128 k v)
leb128-nonempty zero v = omega arith
leb128-nonempty (suc k) v = ground arith

put_var_loop-leb128 :
    (k v : ℕ) (buf : List ℕ) (w : Acc ◌<◌ v)
    → v < 128 ^ suc k
    → put_var_loop buf v w ≡ buf ++ leb128 k v
unfolding put_var_loop
put_var_loop-leb128 zero v buf (Acc.intro _ smaller) h = ground arith
put_var_loop-leb128 (suc k) v buf (Acc.intro _ smaller) h = grind (
  arith,
  λ (p : v / 128 < v).
      put_var_loop-leb128 k (v / 128) (buf ++ (v % 128 + 128) ∷ []) (smaller (v / 128) p)
        (omega arith),
  set_top_bit (v % 256),
  append_assoc buf ((v % 128 + 128) ∷ []) (leb128 k (v / 128)),
)

-- What a group adds to the value read so far.
or_group :
    (g acc shift : ℕ)
    → acc < 2 ^ shift
    → g * 2 ^ shift < 2 ^ 64
    → bit_or acc (g * 2 ^ shift % 2 ^ 64) ≡ acc + g * 2 ^ shift
or_group g acc shift ha hg = rw (mod-eq_of_lt hg, bit_or_disjoint shift acc g ha)

last_byte :
    (w acc shift : ℕ) (rest : List ℕ)
    → w < 128
    → shift ≤ 63
    → acc < 2 ^ shift
    → acc + w * 2 ^ shift < 2 ^ 64
    → get_var_loop (w ∷ rest) acc shift ≡ some (acc + w * 2 ^ shift, rest)
unfolding get_var_loop
last_byte w acc shift rest hw hs ha fits =
    ground (arith, low_seven w, top_bit w, or_group w acc shift)

inner_byte :
    (g acc shift : ℕ) (rest : List ℕ)
    → g < 128
    → shift < 63
    → acc < 2 ^ shift
    → acc + g * 2 ^ shift < 2 ^ 64
    → get_var_loop ((g + 128) ∷ rest) acc shift
      ≡ get_var_loop rest (acc + g * 2 ^ shift) (shift + 7)
unfolding get_var_loop
inner_byte g acc shift rest hg hs ha fits =
    ground (arith, low_seven (g + 128), top_bit (g + 128), or_group g acc shift)

split_group : (s w : ℕ) → w / 128 * 2 ^ (s + 7) + w % 128 * 2 ^ s ≡ w * 2 ^ s
split_group s w =
    let whole = ap (λ (t : ℕ). t * 2 ^ s) (div-add-mod' w 128) in
    let moved = ap (λ (t : ℕ). w / 128 * t) (seven_more s) in omega (arith, moved, whole)

get_var_loop-leb128 :
    (k w acc shift : ℕ) (rest : List ℕ)
    → w < 128 ^ suc k
    → shift + 7 * k ≤ 63
    → acc < 2 ^ shift
    → acc + w * 2 ^ shift < 2 ^ 64
    → get_var_loop (leb128 k w ++ rest) acc shift ≡ some (acc + w * 2 ^ shift, rest)
get_var_loop-leb128 zero w acc shift rest hw hs ha fits =
    last_byte w acc shift rest (omega arith) (omega arith) ha fits
get_var_loop-leb128 (suc k) w acc shift rest hw hs ha fits =
    let group : suc (w % 128) * 2 ^ shift ≤ 128 * 2 ^ shift =
      mul-le-mul_right (2 ^ shift) (mod-lt w (omega arith)) in
    ground (
      arith,
      last_byte w acc shift rest,
      split_group shift w,
      seven_more shift,
      inner_byte (w % 128) acc shift (leb128 k (w / 128) ++ rest),
      get_var_loop-leb128 k (w / 128) (acc + w % 128 * 2 ^ shift) (shift + 7) rest (omega arith),
    )

pub var-Codec : (v : ℕ) → v < 2 ^ 64 → Codec (put_var v) get_var v
unfolding put_var get_var
var-Codec v h = record {
  bytes = leb128 9 v;
  writes = λ buf. put_var_loop-leb128 9 v buf (lt_wf.apply v) (omega arith);
  reads = λ rest. ground (arith, get_var_loop-leb128 9 v 0 0 rest);
  nonempty = leb128-nonempty 9 v;
}

-- A natural number goes to twice itself, and -(n + 1) to 2 * n + 1.
zig_zag-pos : (n : ℕ) → n < 2 ^ 63 → zig_zag (pos n) ≡ n * 2
unfolding zig_zag
zig_zag-pos n h = ground (arith, bit_xor-zero 64 (n * 2))

zig_zag-negsuc : (n : ℕ) → n < 2 ^ 63 → zig_zag (negsuc n) ≡ n * 2 + 1
unfolding zig_zag
zig_zag-negsuc n h =
    let e : (2 ^ 64 - 1 - n % 2 ^ 64) * 2 % 2 ^ 64 ≡ 2 ^ 64 - 2 - n * 2 = omega arith in
    rw e (omega (arith, bit_xor_ones 64 (2 ^ 64 - 2 - n * 2) (omega arith)))

zag_zig-even : (n : ℕ) → n < 2 ^ 63 → zag_zig (n * 2) ≡ pos n
unfolding zag_zig
zag_zig-even n h = ground (arith, bit_and_single 0 (n * 2), bit_xor-zero 64 n)

zag_zig-odd : (n : ℕ) → n < 2 ^ 63 → zag_zig (n * 2 + 1) ≡ negsuc n
unfolding zag_zig
zag_zig-odd n h = ground (arith, bit_and_single 0 (n * 2 + 1), bit_xor_ones 64 n)

-- The zig-zag image is a word, and gives the integer back.
pub zag_zig-zig_zag : (z : ℤ) → IsI64 z → (zig_zag z < 2 ^ 64) × (zag_zig (zig_zag z) ≡ z)
zag_zig-zig_zag (pos n) h = rw (zig_zag-pos n h) (omega arith, zag_zig-even n h)
zag_zig-zig_zag (negsuc n) h = rw (zig_zag-negsuc n h) (omega arith, zag_zig-odd n h)

pub svar-Codec : (z : ℤ) → IsI64 z → Codec (put_svar z) get_svar z
unfolding put_svar get_svar
svar-Codec z h =
    let (fits, back) = zag_zig-zig_zag z h in
    rw back at (Codec-last zag_zig (var-Codec (zig_zag z) fits))

get_var_loop-append :
    (s more : List ℕ) (acc shift v : ℕ) (rest : List ℕ)
    → get_var_loop s acc shift ≡ some (v, rest)
    → get_var_loop (s ++ more) acc shift ≡ some (v, rest ++ more)
unfolding get_var_loop
get_var_loop-append [] more acc shift v rest e = cc
get_var_loop-append (b ∷ s) more acc shift v rest e = ground (
  arith,
  get_var_loop-append s more (bit_or acc (bit_and b 0x7f * 2 ^ shift % 2 ^ 64)) (shift + 7) v rest,
)

pub get_var-IsStable : IsStable get_var
unfolding get_var
get_var-IsStable s more v rest e = ground (arith, get_var_loop-append s more 0 0 v rest)

pub get_svar-IsStable : IsStable get_svar
unfolding get_svar
get_svar-IsStable = IsStable-bind get_var _ get_var-IsStable (λ zig. IsStable-pure (zag_zig zig))
