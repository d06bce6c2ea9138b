-- ===== src/CallbackManager.antt =====
-- `callback_manager` of src/core/callback_manager.h and callback_manager.cpp. An owner is its address,
-- a number, and a `std::map` by address is an association list. Each public method holds the lock
-- throughout but for the trace records, so it is one step on the state. The tracer's records are not
-- modelled; `tracing` is what `add_callback` reads of it, the pending function and correlation id, or
-- `none` where it is off.
pub mod Queues
pub mod Notifications
pub mod Ids
use mathlib.Core.List.{flat_map}
use eos_reimagined.Base.{
  ℕ, zero, suc, ◌+◌, ◌%◌, ◌^◌, Bool, true, false, ◌&&◌, ◌||◌, Option, none, some, List, [], ◌∷◌,
  ◌++◌, map, ltb, ◌==◌, if◌then◌else◌,
}
use eos_reimagined.Base.Assoc.{Assoc, lookup, insert, erase}
use eos_reimagined.Base.Decimal.{decimal}
use eos_reimagined.ByteBuffer.{Text}
use eos_reimagined.FrameResult.{
  FrameResult, callback_ok_timeout, set_trace, set_notification_trace, fire, Fired,
}

pub record Manager : Type 0 where
  pub frames_to_run : List ℕ
  pub callbacks_to_run : Assoc (List FrameResult)
  pub notifications : Assoc (Assoc FrameResult)
  pub max_tick_budget : ℕ
  pub next_notification_id : ℕ

abbrev pub first_notification_id : ℕ
first_notification_id = 1

abbrev pub callback_manager : Manager
callback_manager = record {
  frames_to_run = [];
  callbacks_to_run = [];
  notifications = [];
  max_tick_budget = 0;
  next_notification_id = first_notification_id;
}

-- The `std::set` of owners, in order.
pub insert_owner : ℕ → List ℕ → List ℕ
insert_owner o [] = o ∷ []
insert_owner o (x ∷ xs) =
    if x == o then x ∷ xs else if ltb o x then o ∷ x ∷ xs else x ∷ insert_owner o xs

pub erase_owner : ℕ → List ℕ → List ℕ
erase_owner o [] = []
erase_owner o (x ∷ xs) = let rest = erase_owner o xs in if x == o then rest else x ∷ rest

pub has_owner : ℕ → List ℕ → Bool
has_owner o [] = false
has_owner o (x ∷ xs) = x == o || has_owner o xs

unfoldable pub register_frame : Manager → ℕ → Manager
register_frame m owner = record m { frames_to_run = insert_owner owner m.frames_to_run }

unfoldable pub unregister_frame : Manager → ℕ → Manager
unregister_frame m owner = record m { frames_to_run = erase_owner owner m.frames_to_run }

-- `callbacks_[owner]`: the queue of an owner, empty if the map has none.
pub queue_of : ℕ → Assoc (List FrameResult) → List FrameResult
queue_of owner m = elim (lookup owner m) [ none ↦ [] | some q ↦ q ]

unfoldable pub register_callbacks : Manager → ℕ → Manager
unfolding queue_of
register_callbacks m owner = record m {
  callbacks_to_run = insert owner (queue_of owner m.callbacks_to_run) m.callbacks_to_run;
}

-- The new state, and the results that were handed to `free_callback`, in order.
unfoldable pub unregister_callbacks : Manager → ℕ → Manager × List FrameResult
unregister_callbacks m owner = elim (lookup owner m.callbacks_to_run) [
  | none ↦ (m, [])
  | some queue ↦ (record m { callbacks_to_run = erase owner m.callbacks_to_run }, queue)
]

is_empty : Text → Bool
is_empty [] = true
is_empty (c ∷ s) = false

stamp : Option (Text × Text) → FrameResult → FrameResult
stamp none result = result
stamp (some (fn, corr)) result =
    if is_empty result.trace_corr then set_trace result fn corr else result

unfoldable pub add_callback : Option (Text × Text) → Manager → ℕ → FrameResult → Manager
unfolding queue_of stamp is_empty
add_callback tracing m owner result = record m {
  callbacks_to_run =
      insert owner (queue_of owner m.callbacks_to_run ++ stamp tracing result ∷ [])
        m.callbacks_to_run;
}

pub notes_of : ℕ → Assoc (Assoc FrameResult) → Assoc FrameResult
notes_of owner m = elim (lookup owner m) [ none ↦ [] | some notes ↦ notes ]

-- The id, the state, and the process-wide `next_notification_trace_token`.
unfoldable pub add_notification : ℕ → Manager → ℕ → FrameResult → Text → ℕ × Manager × ℕ
unfolding notes_of
add_notification next_token m owner result event =
    let note = set_notification_trace result event (decimal next_token) in
    let id = m.next_notification_id in
    (
      id,
      record m {
        next_notification_id = (id + 1) % 2 ^ 64;
        notifications =
            insert owner (insert id note (notes_of owner m.notifications)) m.notifications;
      },
      next_token + 1,
    )

unfoldable pub remove_notification : Manager → ℕ → ℕ → Manager
remove_notification m owner id = elim (lookup owner m.notifications) [
  | none ↦ m
  | some notes ↦ record m { notifications = insert owner (erase id notes) m.notifications }
]

unfoldable pub remove_all_notifications : Manager → ℕ → Manager
remove_all_notifications m owner = record m { notifications = erase owner m.notifications }

unfoldable pub find_notification : Manager → ℕ → ℕ → Option FrameResult
find_notification m owner id = elim (lookup owner m.notifications) [
  | none ↦ none
  | some notes ↦ lookup id notes
]

pub ids_of_type : ℕ → Assoc FrameResult → List ℕ
ids_of_type type_id [] = []
ids_of_type type_id ((id, note) ∷ notes) =
    let rest = ids_of_type type_id notes in if note.type_id == type_id then id ∷ rest else rest

unfoldable pub notification_ids : Manager → ℕ → ℕ → List ℕ
unfolding ids_of_type
notification_ids m owner type_id = elim (lookup owner m.notifications) [
  | none ↦ []
  | some notes ↦ ids_of_type type_id notes
]

pub all_queued : Assoc (List FrameResult) → List (ℕ × FrameResult)
all_queued [] = []
all_queued ((owner, queue) ∷ m) = map (λ r. (owner, r)) queue ++ all_queued m

-- The new state, and what was handed to `free_callback`, in order.
unfoldable pub clear : Manager → Manager × List (ℕ × FrameResult)
unfolding all_queued
clear m = (
  record m {
    frames_to_run = [];
    callbacks_to_run = [];
    notifications = [];
    next_notification_id = first_notification_id;
  },
  all_queued m.callbacks_to_run,
)

unfoldable pub set_max_tick_budget : Manager → ℕ → Manager
set_max_tick_budget m budget = record m { max_tick_budget = budget }

-- What the owners do in a tick. `run_callbacks` may change the result that it is lent.
pub record Owners : Type 0 where
  pub cb_run_frame : ℕ → Manager → Manager
  pub run_callbacks : ℕ → FrameResult → Bool × FrameResult

module _ (owners : Owners) (now : ℕ) where
  -- Whether a result is delivered, and the result after its owner has seen it.
  pub deliver : ℕ → FrameResult → Bool × FrameResult
  deliver owner res =
      if callback_ok_timeout res now
      then (if res.done then (true, res) else owners.run_callbacks owner res)
      else (false, res)

  -- `ready.push_back` or `keep.push_back`.
  place :
      ℕ
      → Bool × FrameResult
      → List (ℕ × FrameResult) × List FrameResult
      → List (ℕ × FrameResult) × List FrameResult
  place owner (true, res) (ready, keep) = ((owner, res) ∷ ready, keep)
  place owner (false, res) (ready, keep) = (ready, res ∷ keep)

  -- The loop over one queue: what is ready and what is kept, in order.
  pub sift : ℕ → List FrameResult → List (ℕ × FrameResult) × List FrameResult
  unfolding place
  sift owner [] = ([], [])
  sift owner (res ∷ queue) = place owner (deliver owner res) (sift owner queue)

  pub sift_all : Assoc (List FrameResult) → List (ℕ × FrameResult) × Assoc (List FrameResult)
  sift_all [] = ([], [])
  sift_all ((owner, queue) ∷ m) =
      let (ready, keep) = sift owner queue in
      let (more, rest) = sift_all m in (ready ++ more, (owner, keep) ∷ rest)

  unfoldable pub collect_ready_callbacks : Manager → List (ℕ × FrameResult) × Manager
  unfolding deliver sift sift_all
  collect_ready_callbacks m =
      let (ready, rest) = sift_all m.callbacks_to_run in
      (ready, record m { callbacks_to_run = rest })

  -- The loop over the snapshot of the owners.
  pub run_each : List ℕ → Manager → Manager
  run_each [] m = m
  run_each (owner ∷ rest) m =
      run_each rest (if has_owner owner m.frames_to_run then owners.cb_run_frame owner m else m)

  unfoldable pub run_frames : Manager → Manager
  unfolding run_each
  run_frames m = run_each m.frames_to_run m

  -- The results that a tick fires, in order, and the state when the lock is released. Each is then
  -- fired and freed once, outside the lock.
  unfoldable pub tick : Manager → List (ℕ × FrameResult) × Manager
  unfolding run_frames collect_ready_callbacks
  tick m = collect_ready_callbacks (run_frames m)

-- What firing the ready results does, in order.
unfoldable pub fire_all : List (ℕ × FrameResult) → List Fired
fire_all ready = flat_map (λ item. fire item.1) ready
