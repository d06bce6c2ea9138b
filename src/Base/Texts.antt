-- ===== src/Base/Texts.antt =====
-- `==` and `<` of strings, which are lists of bytes, and the maps that are ordered by a key.
use Prim.Native.Nat.{ℕ}
use mathlib.Core.Path.{◌≡◌, refl, ap₂}
use mathlib.Core.Bool.{Bool, true, false, ◌&&◌}
use mathlib.Core.List.{List, [], ◌∷◌}
use native.Mathlib.Omega.{arith}
use eos_reimagined.Base.Tests.{◌==◌, ltb, if◌then◌else◌}

abbrev pub same_text : List ℕ → List ℕ → Bool
same_text [] [] = true
same_text (x ∷ xs) (y ∷ ys) = x == y && same_text xs ys
same_text xs ys = false

abbrev pub text_less : List ℕ → List ℕ → Bool
text_less xs [] = false
text_less [] (y ∷ ys) = true
text_less (x ∷ xs) (y ∷ ys) = let later = text_less xs ys in if x == y then later else ltb x y

abbrev pub is_empty : List ℕ → Bool
is_empty [] = true
is_empty (c ∷ cs) = false

pub same_text_refl : (s : List ℕ) → same_text s s ≡ true
same_text_refl [] = refl
same_text_refl (x ∷ s) = ground (arith, same_text_refl s)

pub same_text_sound : (s t : List ℕ) → same_text s t ≡ true → s ≡ t
same_text_sound [] [] h = refl
same_text_sound [] (y ∷ t) h = absurd cc
same_text_sound (x ∷ s) [] h = absurd cc
same_text_sound (x ∷ s) (y ∷ t) h =
    let heads : x ≡ y = ground (arith, h) in ap₂ ◌∷◌ heads (same_text_sound s t (ground (arith, h)))

-- Keys of a `std::map`: `==`, and `operator<`.
pub record Key {ℓ} (K : Type ℓ) : Type ℓ where
  pub same : K → K → Bool
  pub less : K → K → Bool
  pub same_refl : (a : K) → same a a ≡ true
  pub same_sound : (a b : K) → same a b ≡ true → a ≡ b

instance abbrev pub text_key : Key (List ℕ)
text_key = record {
  same = same_text;
  less = text_less;
  same_refl = same_text_refl;
  same_sound = same_text_sound;
}

pub text_less_irrefl : (s : List ℕ) → text_less s s ≡ false
text_less_irrefl [] = refl
text_less_irrefl (x ∷ s) = ground (arith, text_less_irrefl s)

pub text_less_antisym :
    (s t : List ℕ) → text_less s t ≡ false → text_less t s ≡ false → same_text s t ≡ true
text_less_antisym [] [] h k = refl
text_less_antisym [] (y ∷ t) h k = absurd cc
text_less_antisym (x ∷ s) [] h k = absurd cc
text_less_antisym (x ∷ s) (y ∷ t) h k = ground (arith, h, k, text_less_antisym s t)

pub not_less_trans :
    (s t u : List ℕ) → text_less s t ≡ false → text_less t u ≡ false → text_less s u ≡ false
not_less_trans s t [] h k = refl
not_less_trans s [] (z ∷ u) h k = absurd cc
not_less_trans [] (y ∷ t) (z ∷ u) h k = absurd cc
not_less_trans (x ∷ s) (y ∷ t) (z ∷ u) h k = ground (arith, h, k, not_less_trans s t u)

pub text_less_asym : (s t : List ℕ) → text_less s t ≡ true → text_less t s ≡ false
text_less_asym s [] h = absurd cc
text_less_asym [] (y ∷ t) h = refl
text_less_asym (x ∷ s) (y ∷ t) h = ground (arith, h, text_less_asym s t)
