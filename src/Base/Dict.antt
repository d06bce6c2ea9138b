-- ===== src/Base/Dict.antt =====
-- A `std::map` as an association list in the order of its keys.
use mathlib.Core.Path.{◌≡◌, refl}
use mathlib.Core.Option.{Option, none, some}
use mathlib.Core.List.{List, [], ◌∷◌}
use native.Mathlib.Omega.{arith}
use eos_reimagined.Base.Tests.{if◌then◌else◌}
use eos_reimagined.Base.Texts.{Key}

abbrev pub Dict {ℓ κ} : Type ℓ → Type κ → Type (ℓ ⊔ κ)
Dict K V = List (K × V)

module _ {ℓ κ} {K : Type ℓ} {V : Type κ} ⦃key : Key K⦄ where
  unfoldable pub find : K → Dict K V → Option V
  find at [] = none
  find at ((k, value) ∷ rest) =
      let later = find at rest in if key.same k at then some value else later

  -- `m[at] = new`
  unfoldable pub put : K → V → Dict K V → Dict K V
  put at new [] = (at, new) ∷ []
  put at new ((k, value) ∷ rest) =
      let later = put at new rest in
      if key.same k at
      then (at, new) ∷ rest
      else if key.less at k
      then (at, new) ∷ (k, value) ∷ rest
      else (k, value) ∷ later

  -- `it->second = new` for an iterator that `find` gave.
  unfoldable pub modify : K → V → Dict K V → Dict K V
  modify at new [] = []
  modify at new ((k, value) ∷ rest) =
      let later = modify at new rest in
      if key.same k at then (k, new) ∷ rest else (k, value) ∷ later

  unfoldable pub remove : K → Dict K V → Dict K V
  remove at [] = []
  remove at ((k, value) ∷ rest) =
      let others = remove at rest in if key.same k at then others else (k, value) ∷ others

  pub find-put :
      (at other : K) (new : V) (m : Dict K V)
      → find other (put at new m) ≡ (if key.same at other then some new else find other m)
  unfolding find put
  find-put at other new [] = refl
  find-put at other new ((k, value) ∷ rest) = ground (
    arith,
    find-put at other new rest,
    key.same_sound k at,
    key.same_sound k other,
    key.same_sound at other,
    key.same_refl other,
    key.same_refl at,
  )

  pub find-put_self : (at : K) (new : V) (m : Dict K V) → find at (put at new m) ≡ some new
  find-put_self at new m = ground (arith, find-put at at new m, key.same_refl at)

  pub find-remove :
      (at other : K) (m : Dict K V)
      → find other (remove at m) ≡ (if key.same at other then none else find other m)
  unfolding find remove
  find-remove at other [] = ground arith
  find-remove at other ((k, value) ∷ rest) = ground (
    arith,
    find-remove at other rest,
    key.same_sound k at,
    key.same_sound k other,
    key.same_sound at other,
    key.same_refl other,
    key.same_refl at,
  )

  pub find-modify :
      (at other : K) (new old : V) (m : Dict K V)
      → find at m ≡ some old
      → find other (modify at new m) ≡ (if key.same at other then some new else find other m)
  unfolding find modify
  find-modify at other new old [] h = absurd cc
  find-modify at other new old ((k, value) ∷ rest) h = ground (
    arith,
    find-modify at other new old rest,
    key.same_sound k at,
    key.same_sound k other,
    key.same_sound at other,
    key.same_refl other,
    key.same_refl at,
    h,
  )
