-- ===== src/HandleStore.antt =====
-- `handle_store` of src/common/handle_store.h: objects behind handles that are minted from one counter
-- for every store. A handle is the number itself; the map is in the order of its keys.
pub mod Reuse
use eos_reimagined.Base.{ℕ, ◌+◌, ◌%◌, ◌^◌, Option, List, [], ◌∷◌, length}
use eos_reimagined.Base.Assoc.{Assoc, lookup, insert, erase}

-- A store, and the counter that all stores share.
pub record HandleStore {ℓ} (V : Type ℓ) : Type ℓ where
  pub counter : ℕ
  pub objects : Assoc V

module _ {ℓ} {V : Type ℓ} where
  -- The value that is handed out, and the counter behind it.
  next_handle_id : HandleStore V → ℕ × HandleStore V
  next_handle_id s = (s.counter, record s { counter = (s.counter + 1) % 2 ^ 64 })

  unfoldable pub add : V → HandleStore V → ℕ × HandleStore V
  unfolding next_handle_id
  add object s =
      let (id, s') = next_handle_id s in (id, record s' { objects = insert id object s'.objects })

  unfoldable pub find : ℕ → HandleStore V → Option V
  find handle s = lookup handle s.objects

  unfoldable pub release : ℕ → HandleStore V → HandleStore V
  release handle s = record s { objects = erase handle s.objects }

  unfoldable pub clear : HandleStore V → HandleStore V
  clear s = record s { objects = [] }

  unfoldable pub live_count : HandleStore V → ℕ
  live_count s = length s.objects
