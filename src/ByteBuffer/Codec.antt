-- ===== src/ByteBuffer/Codec.antt =====
-- A writer and a reader that belong together, and how such pairs are put one after another.
use mathlib.Core.Path.{subst}
use eos_reimagined.Base.{
  ℕ, ◌≤◌, ◌≡◌, refl, inl, inr, Option, none, some, List, [], ◌∷◌, ◌++◌, append_assoc, append-nil,
  arith, length, length-append, Option-cases,
}
use eos_reimagined.ByteBuffer.{Writer, Reader, ◌⨾◌, ◌>>=◌, pure, continue}

-- `w` appends some bytes, one at least, and `p` reads them back as `a` and stops behind them. A successful read
-- is not changed by what follows, so `p` fails on a proper prefix of the bytes.
pub record Codec {A : Type 0} (w : Writer) (p : Reader A) (a : A) : Type 0 where
  pub bytes : List ℕ
  pub writes : (buf : List ℕ) → w buf ≡ buf ++ bytes
  pub reads : (rest : List ℕ) → p (bytes ++ rest) ≡ (some a, rest)
  pub nonempty : 1 ≤ length bytes

-- More input behind a successful read is left alone.
abbrev pub IsStable : {A : Type 0} → Reader A → Type 0
IsStable {A} p =
    (s more : List ℕ) (a : A) (rest : List ℕ)
    → p s ≡ (some a, rest)
    → p (s ++ more) ≡ (some a, rest ++ more)

module _ {A B : Type 0} {v w : Writer} {p : Reader A} (f : A → Reader B) {a : A} {b : B} where
  pub Codec-then : Codec v p a → Codec w (f a) b → Codec (v ⨾ w) (p >>= f) b
  unfolding ◌⨾◌ ◌>>=◌ continue
  Codec-then c d = record {
    bytes = c.bytes ++ d.bytes;
    writes = λ buf. rw (c.writes buf, d.writes (buf ++ c.bytes)) (append_assoc buf c.bytes d.bytes);
    reads =
        λ rest. rw (append_assoc c.bytes d.bytes rest, c.reads (d.bytes ++ rest)) (d.reads rest);
    nonempty = omega (arith, c.nonempty, length-append c.bytes d.bytes);
  }

module _ {A B : Type 0} {w : Writer} {p : Reader A} {a : A} (g : A → B) where
  -- The last field: what follows only packs the values.
  pub Codec-last : Codec w p a → Codec w (p >>= λ x. pure (g x)) (g a)
  unfolding ◌>>=◌ pure continue
  Codec-last c = record {
    bytes = c.bytes;
    writes = c.writes;
    reads = λ rest. rw (c.reads rest);
    nonempty = c.nonempty;
  }

module _ {A B : Type 0} {w : Writer} {p : Reader A} {a : A} (g : A → B) {b : B} where
  -- The same, where packing also casts.
  pub Codec-cast : g a ≡ b → Codec w p a → Codec w (p >>= λ x. pure (g x)) b
  Codec-cast e c = subst (λ x. Codec w (p >>= λ y. pure (g y)) x) e (Codec-last g c)

module _ {A : Type 0} {w : Writer} {p : Reader A} {a : A} (c : Codec w p a) where
  Codec-bytes : w [] ≡ c.bytes
  Codec-bytes = c.writes []

  -- What was written in an empty buffer is read back, whatever follows.
  pub Codec-read : (rest : List ℕ) → p (w [] ++ rest) ≡ (some a, rest)
  Codec-read rest = rw Codec-bytes (c.reads rest)

  -- A proper prefix of what was written is not read.
  pub Codec-truncated :
      IsStable p
      → (front : List ℕ) (x : ℕ) (back : List ℕ) → w [] ≡ front ++ x ∷ back
      → (p front).0 ≡ none
  Codec-truncated stable front x back e = elim (Option-cases (p front).0) [
    | inl h ↦ h
    | inr (b, h) ↦
        let front_read : p front ≡ (some b, (p front).1) = λ i. (h i, (p front).1) in
        let whole_read = stable front (x ∷ back) b (p front).1 front_read in
        let same : p (front ++ x ∷ back) ≡ (some a, []) =
          rw (← e) (rw append-nil at (Codec-read [])) in
        ground (arith, whole_read, same, length-append (p front).1 (x ∷ back))
  ]

module _ {A : Type 0} where
  pub IsStable-pure : (a : A) → IsStable (pure a)
  unfolding pure
  IsStable-pure a s more b rest e = ground arith

module _ {A B : Type 0} (p : Reader A) (f : A → Reader B) where
  pub IsStable-bind : IsStable p → ((a : A) → IsStable (f a)) → IsStable (p >>= f)
  unfolding ◌>>=◌ continue
  IsStable-bind sp sf s more b rest e = go (p s) refl e
    where
      go :
          (r : Option A × List ℕ)
          → p s ≡ r
          → continue f r ≡ (some b, rest)
          → continue f (p (s ++ more)) ≡ (some b, rest ++ more)
      go (none, t) h e' = cc
      go (some a, t) h e' = rw (sp s more a t h) (sf a t more b rest e')

  -- A chain that succeeds has succeeded in each part.
  pub bind_parts :
      (s rest : List ℕ) (b : B)
      → (p >>= f) s ≡ (some b, rest)
      → (a : A) × (t : List ℕ) × (p s ≡ (some a, t)) × (f a t ≡ (some b, rest))
  unfolding ◌>>=◌ continue
  bind_parts s rest b e = go (p s) refl e
    where
      go :
          (r : Option A × List ℕ)
          → p s ≡ r
          → continue f r ≡ (some b, rest)
          → (a : A) × (t : List ℕ) × (p s ≡ (some a, t)) × (f a t ≡ (some b, rest))
      go (none, t) h e' = absurd (cc e')
      go (some a, t) h e' = (a, t, h, e')
