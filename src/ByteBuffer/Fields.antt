-- ===== src/ByteBuffer/Fields.antt =====
-- Booleans, doubles and length-prefixed bytes; and what every getter does when it fails.
use eos_reimagined.Base.{
  ℕ, ◌^◌, ◌<◌, ◌≡◌, refl, sym, ap, ◌∙◌, Bool, true, false, Option, none, some, List, [], ◌∷◌, ◌++◌,
  append_assoc, arith, length, length-append, take-length_append, drop-length_append, take-append,
  drop-append,
}
use eos_reimagined.ByteBuffer.{
  Reader, ◌>>=◌, pure, continue, or_rewind, put_bool, put_f64, put_bytes, put_string, get_u8,
  get_u16, get_u32, get_u64, get_var, get_svar, zag_zig, get_bool, get_f64, get_block, get_bytes,
  get_string, get_var_loop,
}
use eos_reimagined.ByteBuffer.Codec.{Codec, Codec-last, IsStable, IsStable-bind, IsStable-pure}
use eos_reimagined.ByteBuffer.Words.{u64-Codec, get_u8-IsStable, get_u64-IsStable}
use eos_reimagined.ByteBuffer.Varint.{var-Codec, get_var-IsStable}

pub bool-Codec : (b : Bool) → Codec (put_bool b) get_bool b
unfolding put_bool get_bool get_u8 ◌>>=◌ continue pure
bool-Codec true = record {
  bytes = 1 ∷ [];
  writes = λ buf. refl;
  reads = λ rest. refl;
  nonempty = omega arith;
}
bool-Codec false = record {
  bytes = 0 ∷ [];
  writes = λ buf. refl;
  reads = λ rest. refl;
  nonempty = omega arith;
}

pub f64-Codec : (bits : ℕ) → bits < 2 ^ 64 → Codec (put_f64 bits) get_f64 bits
unfolding put_f64 get_f64
f64-Codec bits h = Codec-last (λ x. x) (u64-Codec bits h)

block_read :
    (start xs rest : List ℕ) → get_block start (some (length xs), xs ++ rest) ≡ (some xs, rest)
unfolding get_block
block_read start xs rest =
    ground (arith, length-append xs rest, take-length_append xs rest, drop-length_append xs rest)

pub bytes-Codec : (xs : List ℕ) → length xs < 2 ^ 64 → Codec (put_bytes xs) get_bytes xs
unfolding put_bytes get_bytes
bytes-Codec xs h =
    let c = var-Codec (length xs) h in
    record {
      bytes = c.bytes ++ xs;
      writes = λ buf. rw (c.writes buf) (append_assoc buf c.bytes xs);
      reads =
          λ rest. rw (append_assoc c.bytes xs rest, c.reads (xs ++ rest)) (block_read _ xs rest);
      nonempty = omega (arith, c.nonempty, length-append c.bytes xs);
    }

pub string-Codec : (xs : List ℕ) → length xs < 2 ^ 64 → Codec (put_string xs) get_string xs
unfolding put_string get_string put_bytes get_bytes
string-Codec xs h = bytes-Codec xs h

pub get_bool-IsStable : IsStable get_bool
unfolding get_bool
get_bool-IsStable = IsStable-bind get_u8 _ get_u8-IsStable (λ v. IsStable-pure _)

pub get_f64-IsStable : IsStable get_f64
unfolding get_f64
get_f64-IsStable = IsStable-bind get_u64 _ get_u64-IsStable (λ v. IsStable-pure _)

pub get_bytes-IsStable : IsStable get_bytes
unfolding get_bytes get_block
get_bytes-IsStable s more a rest e = go (get_var s) refl e
  where
    go :
        (r : Option ℕ × List ℕ)
        → get_var s ≡ r
        → get_block s r ≡ (some a, rest)
        → get_block (s ++ more) (get_var (s ++ more)) ≡ (some a, rest ++ more)
    go (none, t) h e' = cc
    go (some n, t) h e' =
        rw (get_var-IsStable s more n t h)
          (ground (arith, length-append t more, take-append n t more, drop-append n t more))

pub get_string-IsStable : IsStable get_string
unfolding get_string get_bytes
get_string-IsStable = get_bytes-IsStable

-- A getter that fails leaves the cursor where it was.
abbrev pub Rewinds : {A : Type 0} → Reader A → Type 0
Rewinds p = (s : List ℕ) → (p s).0 ≡ none → (p s).1 ≡ s

pub get_u8-Rewinds : Rewinds get_u8
unfolding get_u8
get_u8-Rewinds [] h = refl
get_u8-Rewinds (b ∷ s) h = cc

pub get_u16-Rewinds : Rewinds get_u16
unfolding get_u16
get_u16-Rewinds s h = ground arith

pub get_u32-Rewinds : Rewinds get_u32
unfolding get_u32
get_u32-Rewinds s h = ground arith

pub get_u64-Rewinds : Rewinds get_u64
unfolding get_u64
get_u64-Rewinds s h = ground arith

or_rewind-Rewinds :
    {A : Type 0} (start : List ℕ) (r : Option (A × List ℕ))
    → (or_rewind start r).0 ≡ none
    → (or_rewind start r).1 ≡ start
unfolding or_rewind
or_rewind-Rewinds start none h = refl
or_rewind-Rewinds start (some (a, t)) h = cc

get_block-Rewinds :
    (start : List ℕ) (r : Option ℕ × List ℕ)
    → (r.0 ≡ none → r.1 ≡ start)
    → (get_block start r).0 ≡ none
    → (get_block start r).1 ≡ start
unfolding get_block
get_block-Rewinds start (none, t) k h = k refl
get_block-Rewinds start (some n, t) k h = ground arith

map-Rewinds :
    {A B : Type 0} (p : Reader A) (g : A → B) → Rewinds p → Rewinds (p >>= λ x. pure (g x))
unfolding ◌>>=◌ continue pure
map-Rewinds {A} {B} p g k s h = go (p s) refl h
  where
    go :
        (r : Option A × List ℕ)
        → p s ≡ r
        → (continue (λ x. pure (g x)) r).0 ≡ none
        → (continue (λ x. pure (g x)) r).1 ≡ s
    go (none, t) e h' = ap (λ r. r.1) (sym e) ∙ k s (ap (λ r. r.0) e)
    go (some a, t) e h' = cc

pub get_var-Rewinds : Rewinds get_var
unfolding get_var
get_var-Rewinds s h = or_rewind-Rewinds s (get_var_loop s 0 0) h

pub get_bytes-Rewinds : Rewinds get_bytes
unfolding get_bytes
get_bytes-Rewinds s h = get_block-Rewinds s (get_var s) (get_var-Rewinds s) h

-- Every getter that fails, on any bytes, leaves the cursor where it was.
pub getters-Rewinds :
    Rewinds get_u8
    × Rewinds get_u16
    × Rewinds get_u32
    × Rewinds get_u64
    × Rewinds get_var
    × Rewinds get_svar
    × Rewinds get_bool
    × Rewinds get_f64
    × Rewinds get_bytes
    × Rewinds get_string
unfolding get_svar get_bool get_f64 get_string get_bytes
getters-Rewinds = (
  get_u8-Rewinds,
  get_u16-Rewinds,
  get_u32-Rewinds,
  get_u64-Rewinds,
  get_var-Rewinds,
  map-Rewinds get_var zag_zig get_var-Rewinds,
  map-Rewinds get_u8 _ get_u8-Rewinds,
  map-Rewinds get_u64 _ get_u64-Rewinds,
  get_bytes-Rewinds,
  get_bytes-Rewinds,
)
