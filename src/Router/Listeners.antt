-- ===== src/Router/Listeners.antt =====
-- The listeners of the router: `register_listener`, `unregister_listener` and `dispatch`. A listener is a
-- number, 0 for a null pointer, and the map goes from the message type to a bucket.
pub mod Heard
use eos_reimagined.Base.{
  ℕ, Bool, true, false, not, ◌||◌, Option, none, some, List, [], ◌∷◌, ◌++◌, ◌==◌, if◌then◌else◌,
}
use eos_reimagined.Base.Assoc.{Assoc, lookup, insert, erase}

abbrev pub Listeners : Type 0
Listeners = Assoc (List ℕ)

abbrev pub in_bucket : ℕ → List ℕ → Bool
in_bucket listener [] = false
in_bucket listener (x ∷ xs) = x == listener || in_bucket listener xs

-- `listeners_[type]`, which is empty at first.
bucket_of : Option (List ℕ) → List ℕ
bucket_of none = []
bucket_of (some bucket) = bucket

unfoldable pub register_listener : ℕ → ℕ → Listeners → Listeners
unfolding bucket_of
register_listener type listener listeners =
    let bucket = bucket_of (lookup type listeners) in
    if listener == 0
    then listeners
    else insert type (if in_bucket listener bucket then bucket else bucket ++ listener ∷ [])
        listeners

-- The first one that is the listener.
erase_first : ℕ → List ℕ → List ℕ
erase_first listener [] = []
erase_first listener (x ∷ xs) =
    let rest = erase_first listener xs in if x == listener then xs else x ∷ rest

store_bucket : ℕ → List ℕ → Listeners → Listeners
store_bucket type [] listeners = erase type listeners
store_bucket type (x ∷ xs) listeners = insert type (x ∷ xs) listeners

erase_from : ℕ → ℕ → Listeners → Option (List ℕ) → Listeners
unfolding erase_first store_bucket
erase_from type listener listeners none = listeners
erase_from type listener listeners (some bucket) =
    if in_bucket listener bucket
    then store_bucket type (erase_first listener bucket) listeners
    else listeners

unfoldable pub unregister_listener : ℕ → ℕ → Listeners → Listeners
unfolding erase_from erase_first store_bucket
unregister_listener type listener listeners =
    erase_from type listener listeners (lookup type listeners)

-- The listeners that are called, in order, none of them null.
not_null : List ℕ → List ℕ
not_null [] = []
not_null (x ∷ xs) = let rest = not_null xs in if x == 0 then rest else x ∷ rest

called_of : Option (List ℕ) → List ℕ
unfolding not_null
called_of none = []
called_of (some bucket) = not_null bucket

unfoldable pub dispatch : ℕ → Listeners → List ℕ
unfolding called_of not_null
dispatch type_tag listeners = called_of (lookup type_tag listeners)
