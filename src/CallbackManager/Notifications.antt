-- ===== src/CallbackManager/Notifications.antt =====
-- Notification ids: never 0, never live twice, and found until they are removed.
use eos_reimagined.Base.{
  ℕ, ◌≡◌, refl, ap, sym, ◌∙◌, ◌&&◌, Option, none, some, [], arith, ◌==◌, inl, inr, Bool-cases,
  if◌then◌else◌,
}
use eos_reimagined.Base.Assoc.{Assoc, lookup, insert, erase, lookup-insert, lookup-erase}
use eos_reimagined.Base.Decimal.{decimal}
use eos_reimagined.ByteBuffer.{Text}
use eos_reimagined.FrameResult.{FrameResult, set_notification_trace}
use eos_reimagined.CallbackManager.{
  Manager, add_notification, remove_notification, remove_all_notifications, find_notification,
  notes_of,
}

abbrev pub find_in : ℕ → Option (Assoc FrameResult) → Option FrameResult
find_in j none = none
find_in j (some notes) = lookup j notes

lookup-notes_of :
    (o j : ℕ) (ns : Assoc (Assoc FrameResult)) → lookup j (notes_of o ns) ≡ find_in j (lookup o ns)
unfolding notes_of
lookup-notes_of o j ns = go (lookup o ns)
  where
    go :
        (found : Option (Assoc FrameResult))
        → lookup j (elim found [ none ↦ [] | some notes ↦ notes ]) ≡ find_in j found
    go none = unfold lookup in refl
    go (some notes) = refl

pub find_lem :
    (m : Manager) (o j : ℕ) → find_notification m o j ≡ find_in j (lookup o m.notifications)
unfolding find_notification
find_lem m o j = go (lookup o m.notifications)
  where
    go :
        (found : Option (Assoc FrameResult))
        → elim found [ none ↦ none | some notes ↦ lookup j notes ] ≡ find_in j found
    go none = refl
    go (some notes) = refl

-- A new notification is found under its id, with its event and the token, and no other is touched.
pub find-add_notification :
    (token : ℕ) (m : Manager) (owner : ℕ) (note : FrameResult) (event : Text) (o j : ℕ)
    → find_notification (add_notification token m owner note event).1 o j ≡ (
        if (owner == o) && (m.next_notification_id == j)
        then some (set_notification_trace note event (decimal token))
        else find_notification m o j)
find-add_notification token m owner note event o j =
    let note' = set_notification_trace note event (decimal token) in
    let inner = insert m.next_notification_id note' (notes_of owner m.notifications) in
    let shown = find_lem (add_notification token m owner note event).1 o j in
    let same : find_in j (lookup o (add_notification token m owner note event).1.notifications)
        ≡ find_in j (if owner == o then some inner else lookup o m.notifications) =
      unfold add_notification in ap (find_in j) (lookup-insert owner o inner m.notifications) in
    shown
    ∙ (same ∙ elim (Bool-cases (owner == o)) [
      | inr other ↦ rw other (sym (find_lem m o j))
      | inl at ↦
          let e : owner ≡ o = ground (arith) in
          rw at (
            lookup-insert m.next_notification_id j note' (notes_of owner m.notifications)
            ∙ rw e (
                ap (λ f. if m.next_notification_id == j then some note' else f)
                  (lookup-notes_of o j m.notifications ∙ sym (find_lem m o j))))
    ])

-- A removed notification is not found any more, and no other is touched.
pub find-remove_notification :
    (m : Manager) (owner id o j : ℕ)
    → find_notification (remove_notification m owner id) o j
      ≡ (if (owner == o) && (id == j) then none else find_notification m o j)
unfolding remove_notification
find-remove_notification m owner id o j =
    find_lem (remove_notification m owner id) o j
    ∙ rw (find_lem m o j) (go (lookup owner m.notifications) refl)
  where
    go :
        (found : Option (Assoc FrameResult))
        → lookup owner m.notifications ≡ found
        → find_in j (
            lookup o
              (elim found as (λ x. Manager) [
                | none ↦ m
                | some notes ↦ record m {
                  notifications = insert owner (erase id notes) m.notifications;
                }
              ]).notifications)
          ≡ (if (owner == o) && (id == j) then none else find_in j (lookup o m.notifications))
    go none e = elim (Bool-cases (owner == o)) [
      | inr other ↦ rw other refl
      | inl at ↦
          let e' : owner ≡ o = ground (arith) in
          let none_here : lookup o m.notifications ≡ none =
            ap (λ x. lookup x m.notifications) (sym e') ∙ e in
          rw none_here (ground arith)
    ]
    go (some notes) e = elim (Bool-cases (owner == o)) [
      | inr other ↦ ap (find_in j) (lookup-insert owner o _ m.notifications) ∙ rw other refl
      | inl at ↦
          let e' : owner ≡ o = ground (arith) in
          let here : lookup o m.notifications ≡ some notes =
            ap (λ x. lookup x m.notifications) (sym e') ∙ e in
          ap (find_in j) (lookup-insert owner o _ m.notifications)
          ∙ rw (at, here) (lookup-erase id j notes)
    ]

pub find-remove_all_notifications :
    (m : Manager) (owner o j : ℕ)
    → find_notification (remove_all_notifications m owner) o j
      ≡ (if owner == o then none else find_notification m o j)
unfolding remove_all_notifications find_notification
find-remove_all_notifications m owner o j = ground (arith, lookup-erase owner o m.notifications)
