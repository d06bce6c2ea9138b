-- ===== src/Base/Assoc.antt =====
-- A `std::map` from numbers as an association list in the order of its keys.
use Prim.Native.Nat.{ℕ}
use mathlib.Core.Path.{◌≡◌, refl}
use mathlib.Core.Option.{Option, none, some}
use mathlib.Core.List.{List, [], ◌∷◌}
use native.Mathlib.Omega.{arith}
use eos_reimagined.Base.Tests.{◌==◌, ltb, if◌then◌else◌}

abbrev pub Assoc {ℓ} : Type ℓ → Type ℓ
Assoc V = List (ℕ × V)

module _ {ℓ} {V : Type ℓ} where
  unfoldable pub lookup : ℕ → Assoc V → Option V
  lookup at [] = none
  lookup at ((key, value) ∷ rest) = if key == at then some value else lookup at rest

  unfoldable pub insert : ℕ → V → Assoc V → Assoc V
  insert at new [] = (at, new) ∷ []
  insert at new ((key, value) ∷ rest) =
      if key == at
      then (at, new) ∷ rest
      else if ltb at key
      then (at, new) ∷ (key, value) ∷ rest
      else (key, value) ∷ insert at new rest

  unfoldable pub erase : ℕ → Assoc V → Assoc V
  erase at [] = []
  erase at ((key, value) ∷ rest) =
      let others = erase at rest in if key == at then others else (key, value) ∷ others

  pub lookup-insert :
      (at other : ℕ) (new : V) (m : Assoc V)
      → lookup other (insert at new m) ≡ (if at == other then some new else lookup other m)
  unfolding lookup insert
  lookup-insert at other new [] = refl
  lookup-insert at other new ((key, value) ∷ rest) = ground (arith, lookup-insert at other new rest)

  pub lookup-erase :
      (at other : ℕ) (m : Assoc V)
      → lookup other (erase at m) ≡ (if at == other then none else lookup other m)
  unfolding lookup erase
  lookup-erase at other [] = ground arith
  lookup-erase at other ((key, value) ∷ rest) = ground (arith, lookup-erase at other rest)
