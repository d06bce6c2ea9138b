-- ===== src/HandleStore/Reuse.antt =====
-- No handle finds an object that it was not given for.
use eos_reimagined.Base.{ℕ, ◌+◌, ◌^◌, ◌<◌, ◌≤◌, ◌≡◌, refl, none, some, List, [], ◌∷◌, length, arith}
use eos_reimagined.Base.Assoc.{lookup, lookup-insert, lookup-erase}
use eos_reimagined.HandleStore.{HandleStore, next_handle_id, add, find, release, clear}

-- What happens to a store: its own calls, and a handle minted for another store.
pub data StoreCall {ℓ} (V : Type ℓ) : Type ℓ where
  call_add : V → StoreCall V
  call_elsewhere : StoreCall V
  call_release : ℕ → StoreCall V
  call_clear : StoreCall V

module _ {ℓ} {V : Type ℓ} where
  unfoldable pub called : StoreCall V → HandleStore V → HandleStore V
  unfolding next_handle_id
  called (call_add object) s = (add object s).1
  called call_elsewhere s = (next_handle_id s).1
  called (call_release handle) s = release handle s
  called call_clear s = clear s

  unfoldable pub called_all : List (StoreCall V) → HandleStore V → HandleStore V
  unfolding called
  called_all [] s = s
  called_all (c ∷ cs) s = called_all cs (called c s)

  -- A call does not bring an object to a handle that was minted before.
  called-none :
      (c : StoreCall V) (s : HandleStore V) (handle : ℕ)
      → handle < s.counter
      → s.counter + 1 < 2 ^ 64
      → find handle s ≡ none
      → find handle (called c s) ≡ none
  unfolding called find add release clear next_handle_id
  called-none (call_add object) s handle old room gone =
      ground (arith, lookup-insert s.counter handle object s.objects, gone)
  called-none call_elsewhere s handle old room gone = gone
  called-none (call_release other) s handle old room gone =
      ground (arith, lookup-erase other handle s.objects, gone)
  called-none call_clear s handle old room gone = unfold lookup in refl

  called-counter :
      (c : StoreCall V) (s : HandleStore V)
      → s.counter + 1 < 2 ^ 64
      → (s.counter ≤ (called c s).counter) × ((called c s).counter ≤ s.counter + 1)
  unfolding called add release clear next_handle_id
  called-counter (call_add object) s room = (omega (arith, room), omega (arith, room))
  called-counter call_elsewhere s room = (omega (arith, room), omega (arith, room))
  called-counter (call_release other) s room = (omega arith, omega arith)
  called-counter call_clear s room = (omega arith, omega arith)

  -- A handle that was minted, and finds nothing, because it was released or is of another store, finds
  -- nothing after any further calls, as long as the 64-bit counter does not come round.
  pub released_stays :
      (cs : List (StoreCall V)) (s : HandleStore V) (handle : ℕ)
      → handle < s.counter
      → s.counter + length cs < 2 ^ 64
      → find handle s ≡ none
      → find handle (called_all cs s) ≡ none
  unfolding called_all
  released_stays [] s handle old room gone = gone
  released_stays (c ∷ cs) s handle old room gone =
      let (up, one) = called-counter c s (omega (arith, room)) in
      released_stays cs (called c s) handle (omega (arith, old, up)) (omega (arith, room, one))
        (called-none c s handle old (omega (arith, room)) gone)

  -- Nothing is found under a handle that is still to be minted.
  IsAhead : HandleStore V → Type ℓ
  IsAhead s = (handle : ℕ) → s.counter ≤ handle → find handle s ≡ none

  called-IsAhead :
      (c : StoreCall V) (s : HandleStore V)
      → s.counter + 1 < 2 ^ 64
      → IsAhead s
      → IsAhead (called c s)
  unfolding IsAhead called find add release clear next_handle_id
  called-IsAhead (call_add object) s room ahead =
      λ handle le. ground (arith, lookup-insert s.counter handle object s.objects, ahead handle)
  called-IsAhead call_elsewhere s room ahead = λ handle le. ahead handle (omega (arith, le, room))
  called-IsAhead (call_release other) s room ahead =
      λ handle le. ground (arith, lookup-erase other handle s.objects, ahead handle le)
  called-IsAhead call_clear s room ahead = λ handle le. unfold lookup in refl

  called_all-IsAhead :
      (cs : List (StoreCall V)) (s : HandleStore V)
      → s.counter + length cs < 2 ^ 64
      → IsAhead s
      → IsAhead (called_all cs s) × (s.counter ≤ (called_all cs s).counter)
  unfolding called_all
  called_all-IsAhead [] s room ahead = (ahead, omega arith)
  called_all-IsAhead (c ∷ cs) s room ahead =
      let (up, one) = called-counter c s (omega (arith, room)) in
      let (later, more) =
        called_all-IsAhead cs (called c s) (omega (arith, room, one))
          (called-IsAhead c s (omega (arith, room)) ahead) in
      (later, omega (arith, up, more))

  -- After any calls on a new store, the counter at 1 or later and not coming round: an object that is
  -- added gets a handle that is not null and found nothing before, and that finds the object.
  pub add_finds :
      (cs : List (StoreCall V)) (counter : ℕ) (object : V)
      → 1 ≤ counter
      → counter + length cs < 2 ^ 64
      → let s = called_all cs (record { counter = counter; objects = [] }) in
        let (id, s') = add object s in (0 < id) × (find id s ≡ none) × (find id s' ≡ some object)
  unfolding IsAhead find add next_handle_id
  add_finds cs counter object start room =
      let s = called_all cs (record { counter = counter; objects = [] }) in
      let (ahead, up) =
        called_all-IsAhead cs (record { counter = counter; objects = [] }) room
          (λ handle le. unfold lookup in refl) in
      (
        omega (arith, start, up),
        ahead s.counter (omega arith),
        ground (arith, lookup-insert s.counter s.counter object s.objects),
      )
