-- ===== src/CallbackManager/Queues.antt =====
-- What a tick delivers and what it keeps.
use mathlib.Core.List.{flat_map}
use eos_reimagined.Base.{
  ℕ, ◌+◌, ◌-◌, ◌≤◌, ◌≡◌, refl, inl, inr, Bool, true, false, List, [], ◌∷◌, map, arith, length, leb,
  ltb, not, ◌&&◌, ◌||◌, if◌then◌else◌, le→leb, Bool-cases, All,
}
use eos_reimagined.Base.Assoc.{Assoc}
use eos_reimagined.FrameResult.{FrameResult, callback_ok_timeout}
use eos_reimagined.CallbackManager.{
  Manager, Owners, all_queued, deliver, place, sift, sift_all, collect_ready_callbacks,
}

-- The elements that pass a test.
pub those {ℓ} : {A : Type ℓ} → (A → Bool) → List A → List A
those test [] = []
those test (x ∷ xs) = let rest = those test xs in if test x then x ∷ rest else rest

-- How many results wait in all the queues.
abbrev pub queued : Assoc (List FrameResult) → ℕ
queued [] = 0
queued ((owner, q) ∷ m) = length q + queued m

module _ (owners : Owners) (now : ℕ) where
  -- A result is ready once it is past its timeout and is done or has its owner's word; its owner looks at
  -- it, and may change it, if it is past its timeout and not done.
  pub is_ready : ℕ → FrameResult → Bool
  is_ready owner r =
      not (ltb (now - r.created_time) r.ok_timeout) && (r.done || (owners.run_callbacks owner r).0)

  pub looked_at : ℕ → FrameResult → FrameResult
  looked_at owner r =
      if ltb (now - r.created_time) r.ok_timeout || r.done
      then r
      else (owners.run_callbacks owner r).1

  -- The ready results of one owner, and those of all, owner by owner; the results that stay.
  pub ready_of : ℕ → List FrameResult → List (ℕ × FrameResult)
  ready_of owner q = map (λ r. (owner, looked_at owner r)) (those (is_ready owner) q)

  pub kept_of : ℕ → List FrameResult → List FrameResult
  kept_of owner q = map (looked_at owner) (those (λ r. not (is_ready owner r)) q)

  pub all_ready : Assoc (List FrameResult) → List (ℕ × FrameResult)
  all_ready m = flat_map (λ (item : ℕ × List FrameResult). ready_of item.0 item.1) m

  pub all_kept : Assoc (List FrameResult) → Assoc (List FrameResult)
  all_kept m = map (λ (item : ℕ × List FrameResult). (item.0, kept_of item.0 item.1)) m

  deliver_lem :
      (owner : ℕ) (r : FrameResult)
      → deliver owners now owner r ≡ (is_ready owner r, looked_at owner r)
  unfolding deliver callback_ok_timeout is_ready looked_at
  deliver_lem owner r = elim (Bool-cases (ltb (now - r.created_time) r.ok_timeout)) [
    | inl young ↦
        let e : leb r.ok_timeout (now - r.created_time) ≡ false = ground (arith, young) in
        rw (e, young) refl
    | inr old ↦
        let e : leb r.ok_timeout (now - r.created_time) ≡ true = ground (arith, old) in
        elim (Bool-cases r.done) [ inl d ↦ rw (e, old, d) refl | inr d ↦ rw (e, old, d) refl ]
  ]

  sift_lem :
      (owner : ℕ) (q : List FrameResult)
      → sift owners now owner q ≡ (ready_of owner q, kept_of owner q)
  unfolding sift place ready_of kept_of those
  sift_lem owner [] = refl
  sift_lem owner (r ∷ q) = elim (Bool-cases (is_ready owner r)) [
    | inl e ↦ rw (deliver_lem owner r, sift_lem owner q, e) refl
    | inr e ↦ rw (deliver_lem owner r, sift_lem owner q, e) refl
  ]

  sift_all_lem : (m : Assoc (List FrameResult)) → sift_all owners now m ≡ (all_ready m, all_kept m)
  unfolding sift_all all_ready all_kept flat_map
  sift_all_lem [] = refl
  sift_all_lem ((owner, q) ∷ m) = rw (sift_lem owner q, sift_all_lem m) refl

  -- What a collection fires are the ready results, owner by owner and each owner's in the order of its
  -- queue; what stays in a queue are its others, in order. Each is as its owner has left it. Nothing of the
  -- manager but the queues changes.
  pub collect_lem :
      (m : Manager)
      → collect_ready_callbacks owners now m ≡ (
        all_ready m.callbacks_to_run,
        record m { callbacks_to_run = all_kept m.callbacks_to_run },
      )
  unfolding collect_ready_callbacks
  collect_lem m = rw (sift_all_lem m.callbacks_to_run) refl

  -- A result that a tick must deliver: done, and past its timeout.
  pub record IsDue (r : FrameResult) : Type 0 where
    pub old : r.ok_timeout ≤ now - r.created_time
    pub done : r.done ≡ true

  due-Verdict : (owner : ℕ) (r : FrameResult) → IsDue r → deliver owners now owner r ≡ (true, r)
  unfolding deliver callback_ok_timeout
  due-Verdict owner r d = simp (le→leb _ _ d.old, d.done)

  sift_due :
      (owner : ℕ) (q : List FrameResult)
      → All IsDue q
      → sift owners now owner q ≡ (map (λ r. (owner, r)) q, [])
  unfolding sift place
  sift_due owner [] h = refl
  sift_due owner (r ∷ q) h = rw (due-Verdict owner r h.0, sift_due owner q h.1)

  abbrev pub AllDue : Assoc (List FrameResult) → Type 0
  AllDue [] = Unit {0}
  AllDue ((owner, q) ∷ m) = All IsDue q × AllDue m

  sift_all_due :
      (m : Assoc (List FrameResult))
      → AllDue m
      → ((sift_all owners now m).0 ≡ all_queued m) × (queued (sift_all owners now m).1 ≡ 0)
  unfolding sift_all all_queued
  sift_all_due [] h = (refl, refl)
  sift_all_due ((owner, q) ∷ m) h =
      let (front, left) = sift_all_due m h.1 in
      rw (sift_due owner q h.0) (rw front refl, omega (arith, left))

  -- When every queued result is done and past its timeout, one collection delivers all of them, owner
  -- by owner and in the order in which they were queued, and leaves none.
  pub collect_flushes :
      (m : Manager)
      → AllDue m.callbacks_to_run
      → let (fired, m') = collect_ready_callbacks owners now m in
        (fired ≡ all_queued m.callbacks_to_run) × (queued m'.callbacks_to_run ≡ 0)
  unfolding collect_ready_callbacks
  collect_flushes m h = sift_all_due m.callbacks_to_run h
