-- ===== src/CallbackManager/Ids.antt =====
-- The ids of notifications over any run of the manager's methods.
use eos_reimagined.Base.{
  ℕ, ◌+◌, ◌^◌, ◌≤◌, ◌<◌, ◌≡◌, refl, ap, sym, ◌∙◌, ◌&&◌, Bool, true, false, Option, none, some, List,
  [], arith, ◌==◌, inl, inr, Bool-cases, Option-cases, if◌then◌else◌,
}
use eos_reimagined.Base.Assoc.{Assoc, lookup, insert, erase}
use eos_reimagined.ByteBuffer.{Text}
use eos_reimagined.Base.Decimal.{decimal}
use eos_reimagined.FrameResult.{FrameResult, set_notification_trace}
use eos_reimagined.CallbackManager.{
  Manager, callback_manager, register_frame, unregister_frame, register_callbacks,
  unregister_callbacks, add_callback, add_notification, remove_notification,
  remove_all_notifications, find_notification, clear, set_max_tick_budget, Owners,
  collect_ready_callbacks,
}
use eos_reimagined.CallbackManager.Notifications.{
  find_in, find_lem, find-add_notification, find-remove_notification, find-remove_all_notifications,
}

-- The ids that have been handed out are below the next one, which is at most `k`, and none is 0.
pub record IsFresh (k : ℕ) (m : Manager) : Type 0 where
  pub next : 1 ≤ m.next_notification_id
  pub room : m.next_notification_id ≤ k
  pub live :
      (o j : ℕ) (r : FrameResult)
      → find_notification m o j ≡ some r
      → (1 ≤ j) × (j < m.next_notification_id)

-- The methods that change the manager; a tick is the calls that its owners' frames make, and a
-- collection. `clear` starts the ids again, and leaves none live.
pub data Step (m : Manager) : Manager → Type 0 where
  registers : (owner : ℕ) → Step m (register_frame m owner)
  unregisters : (owner : ℕ) → Step m (unregister_frame m owner)
  registers_callbacks : (owner : ℕ) → Step m (register_callbacks m owner)
  unregisters_callbacks : (owner : ℕ) → Step m (unregister_callbacks m owner).0
  adds_callback :
      (tracing : Option (Text × Text)) (owner : ℕ) (r : FrameResult)
      → Step m (add_callback tracing m owner r)
  adds :
      (token owner : ℕ) (note : FrameResult) (event : Text)
      → Step m (add_notification token m owner note event).1
  removes : (owner id : ℕ) → Step m (remove_notification m owner id)
  removes_all : (owner : ℕ) → Step m (remove_all_notifications m owner)
  clears : Step m (clear m).0
  sets_budget : (budget : ℕ) → Step m (set_max_tick_budget m budget)
  collects : (owners : Owners) (now : ℕ) → Step m (collect_ready_callbacks owners now m).1

-- Whatever keeps the notifications and the counter keeps the ids fresh.
IsFresh-same :
    {k : ℕ} {m n : Manager}
    → n.notifications ≡ m.notifications
    → n.next_notification_id ≡ m.next_notification_id
    → IsFresh k m
    → IsFresh (k + 1) n
IsFresh-same {m = m} {n = n} e d f = record {
  next = omega (arith, d, f.next);
  room = omega (arith, d, f.room);
  live = λ o j r h.
      let same : find_notification n o j ≡ find_notification m o j =
        find_lem n o j ∙ (ap (λ ns. find_in j (lookup o ns)) e ∙ sym (find_lem m o j)) in
      omega (arith, d, f.live o j r (sym same ∙ h));
}

still_found :
    (gone : Bool) (x : Option FrameResult) {r : FrameResult}
    → (if gone then none else x) ≡ some r
    → x ≡ some r
still_found true x h = absurd (cc h)
still_found false x h = h

-- Whatever finds no more than before, and keeps the counter, keeps the ids fresh.
IsFresh-fewer :
    {k : ℕ} {m n : Manager}
    → n.next_notification_id ≡ m.next_notification_id
    → ((o j : ℕ)
        → (gone : Bool) × (find_notification n o j
            ≡ (if gone then none else find_notification m o j)))
    → IsFresh k m
    → IsFresh (k + 1) n
IsFresh-fewer {m = m} {n = n} d fewer f = record {
  next = omega (arith, d, f.next);
  room = omega (arith, d, f.room);
  live = λ o j r h.
      let (gone, e) = fewer o j in omega (arith, d, f.live o j r (still_found gone _ (sym e ∙ h)));
}

remove_notification_keeps :
    (m : Manager) (owner id : ℕ)
    → (remove_notification m owner id).next_notification_id ≡ m.next_notification_id
unfolding remove_notification
remove_notification_keeps m owner id = go (lookup owner m.notifications)
  where
    go :
        (found : Option (Assoc FrameResult))
        → (elim found as (λ x. Manager) [
          | none ↦ m
          | some notes ↦ record m { notifications = insert owner (erase id notes) m.notifications }
        ]).next_notification_id
          ≡ m.next_notification_id
    go none = refl
    go (some notes) = refl

Step-IsFresh : {k : ℕ} {m n : Manager} → Step m n → k + 1 < 2 ^ 64 → IsFresh k m → IsFresh (k + 1) n
Step-IsFresh (registers owner) small f =
    unfold register_frame unregister_frame in IsFresh-same refl refl f
Step-IsFresh (unregisters owner) small f =
    unfold register_frame unregister_frame in IsFresh-same refl refl f
Step-IsFresh (registers_callbacks owner) small f =
    unfold register_callbacks in IsFresh-same refl refl f
Step-IsFresh {k = k} {m = m} (unregisters_callbacks owner) small f =
    unfold unregister_callbacks in go (lookup owner m.callbacks_to_run)
  where
    go :
        (found : Option (List FrameResult))
        → IsFresh
            (k + 1)
            (elim found as (λ x. Manager × List FrameResult) [
              | none ↦ (m, [])
              | some queue ↦ (record m { callbacks_to_run = erase owner m.callbacks_to_run }, queue)
            ]).0
    go none = IsFresh-same refl refl f
    go (some queue) = IsFresh-same refl refl f
Step-IsFresh (adds_callback tracing owner r) small f =
    unfold add_callback in IsFresh-same refl refl f
Step-IsFresh {k = k} {m = m} (adds token owner note event) small f = record {
  next = unfold add_notification in omega (arith, f.next, f.room, small);
  room = unfold add_notification in omega (arith, f.room, small);
  live = λ o j r h.
      let e = sym (find-add_notification token m owner note event o j) ∙ h in
      unfold add_notification in
      elim (Bool-cases ((owner == o) && (m.next_notification_id == j))) [
        | inl new ↦ ground (arith, f.next, f.room, small)
        | inr old ↦ omega (arith, f.room, small, f.live o j r (rw old at e))
      ];
}
Step-IsFresh {k = k} {m = m} (removes owner id) small f =
    IsFresh-fewer (remove_notification_keeps m owner id)
      (λ o j. ((owner == o) && (id == j), find-remove_notification m owner id o j)) f
Step-IsFresh {k = k} {m = m} (removes_all owner) small f =
    IsFresh-fewer {m = m} (unfold remove_all_notifications in refl)
      (λ o j. (owner == o, find-remove_all_notifications m owner o j)) f
Step-IsFresh {k = k} {m = m} clears small f = record {
  next = unfold clear in omega arith;
  room = unfold clear in omega arith;
  live = λ o j r h. unfold clear lookup in absurd (cc (sym (find_lem (clear m).0 o j) ∙ h));
}
Step-IsFresh (sets_budget budget) small f = unfold set_max_tick_budget in IsFresh-same refl refl f
Step-IsFresh {k = k} {m = m} (collects owners now) small f =
    unfold collect_ready_callbacks in IsFresh-same refl refl f

-- What the manager can be after so many calls.
pub data Reached : ℕ → Manager → Type 0 where
  new : Reached 0 callback_manager
  then_call : {calls : ℕ} {m n : Manager} → Reached calls m → Step m n → Reached (calls + 1) n

Reached-IsFresh :
    {calls : ℕ} {m : Manager} → Reached calls m → calls + 1 < 2 ^ 64 → IsFresh (calls + 1) m
Reached-IsFresh new small = record {
  next = omega arith;
  room = omega arith;
  live = λ o j r h. unfold lookup in absurd (cc (sym (find_lem callback_manager o j) ∙ h));
}
Reached-IsFresh (then_call reached step) small =
    Step-IsFresh step (omega (arith, small)) (Reached-IsFresh reached (omega (arith, small)))

-- After fewer than 2 ^ 64 - 1 calls of a new manager's methods, the id that `add_notification` gives is
-- not 0, no owner has a live notification under it before, and the owner finds the new one under it.
pub add_notification_is_fresh :
    {calls : ℕ} {m : Manager} (reached : Reached calls m) (token owner : ℕ) (note : FrameResult)
    (event : Text)
    → calls + 1 < 2 ^ 64
    → let (id, m', next) = add_notification token m owner note event in
      (1 ≤ id)
      × ((o : ℕ) → find_notification m o id ≡ none)
      × (find_notification m' owner id ≡ some (set_notification_trace note event (decimal token)))
unfolding add_notification
add_notification_is_fresh {m = m} reached token owner note event small =
    let f = Reached-IsFresh reached small in
    (
      f.next,
      λ o. elim (Option-cases (find_notification m o m.next_notification_id)) [
        | inl free ↦ free
        | inr (r, found) ↦ absurd (omega (arith, f.live o m.next_notification_id r found))
      ],
      find-add_notification token m owner note event owner m.next_notification_id ∙ ground arith,
    )
