-- ===== src/Base/Attempt.antt =====
-- Stateful code that can fail: the result, or `none`, and the state that is left in either case.
use mathlib.Core.Option.{Option, none, some}
use mathlib.Core.Path.{◌≡◌}

abbrev pub Attempt : Type 0 → Type 0 → Type 0
Attempt S A = S → Option A × S

module _ {S A B : Type 0} where
  unfoldable pub proceed : (A → Attempt S B) → Option A × S → Option B × S
  proceed f (none, s) = (none, s)
  proceed f (some a, s) = f a s

  infixl 5 ◌>>=◌
  unfoldable pub ◌>>=◌ : Attempt S A → (A → Attempt S B) → Attempt S B
  unfolding proceed
  ◌>>=◌ p f s = proceed f (p s)

module _ {S A : Type 0} where
  unfoldable pub pure : A → Attempt S A
  pure a s = (some a, s)

  unfoldable pub fail : Attempt S A
  fail s = (none, s)

module _ {S A B : Type 0} where
  -- What a chain does after a part that succeeds.
  pub run_some :
      (p : Attempt S A) (f : A → Attempt S B) (s t : S) (a : A)
      → p s ≡ (some a, t)
      → (p >>= f) s ≡ f a t
  unfolding ◌>>=◌ proceed
  run_some p f s t a e = rw e

-- What holds of the result and the state where the code succeeds, and of the state where it fails.
module _ {S A : Type 0} where
  abbrev pub Ensures : (A → S → Type 0) → (S → Type 0) → Option A × S → Type 0
  Ensures Q E (none, s) = E s
  Ensures Q E (some a, s) = Q a s

module _ {S A B : Type 0} where
  -- Through a chain.
  pub run-Ensures :
      (p : Attempt S A) (f : A → Attempt S B) (Q : A → S → Type 0) (R : B → S → Type 0)
      (E : S → Type 0) (s : S)
      → Ensures Q E (p s)
      → ((a : A) (t : S) → Q a t → Ensures R E (f a t))
      → Ensures R E ((p >>= f) s)
  unfolding ◌>>=◌ proceed
  run-Ensures p f Q R E s h k = over (p s) h
    where
      over : (r : Option A × S) → Ensures Q E r → Ensures R E (proceed f r)
      over (none, t) e = e
      over (some a, t) q = k a t q

module _ {S A : Type 0} where
  -- What holds in either case holds of the state.
  pub Ensures_state : (P : S → Type 0) (r : Option A × S) → Ensures (λ a. P) P r → P r.1
  Ensures_state P (none, s) h = h
  Ensures_state P (some a, s) h = h

  -- A weaker promise for the failure.
  pub weaker_failure :
      (Q : A → S → Type 0) (E F : S → Type 0)
      → ((s : S) → E s → F s)
      → (r : Option A × S) → Ensures Q E r
      → Ensures Q F r
  weaker_failure Q E F k (none, s) h = k s h
  weaker_failure Q E F k (some a, s) h = h
