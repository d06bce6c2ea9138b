-- ===== src/Tests/Callbacks.antt =====
-- The callback manager with two owners, one of which answers for its result.
use eos_reimagined.Base.{ℕ, ◌≤◌, ◌≡◌, refl, true, none, some, [], ◌∷◌, arith, ◌==◌}
use eos_reimagined.Base.Decimal.{decimal}
use eos_reimagined.FrameResult.{FrameResult, frame_result, set_notification_trace}
use eos_reimagined.CallbackManager.{
  Manager, Owners, callback_manager, add_notification, find_notification, all_queued,
  collect_ready_callbacks,
}
use eos_reimagined.CallbackManager.Queues.{
  IsDue, queued, all_ready, all_kept, collect_lem, collect_flushes,
}
use eos_reimagined.CallbackManager.Ids.{new, then_call, adds, add_notification_is_fresh}

-- Owner 1 sets its result done and has it delivered; owner 2 says that its result is not ready.
abbrev owners : Owners
owners = record {
  cb_run_frame = λ owner m. m;
  run_callbacks = λ owner r. (owner == 1, record r { done = true });
}

abbrev finished : FrameResult
finished = record (frame_result 100) { done = true }

abbrev manager : Manager
manager = record callback_manager {
  callbacks_to_run =
      (1, finished ∷ frame_result 100 ∷ []) ∷ (2, frame_result 100 ∷ finished ∷ []) ∷ [];
}

abbrev finished_manager : Manager
finished_manager = record callback_manager {
  callbacks_to_run = (1, finished ∷ []) ∷ (2, finished ∷ finished ∷ []) ∷ [];
}

collect_example : collect_ready_callbacks owners 120 manager ≡ (
  all_ready owners 120 manager.callbacks_to_run,
  record manager { callbacks_to_run = all_kept owners 120 manager.callbacks_to_run },
)
collect_example = collect_lem owners 120 manager

finished-IsDue : IsDue owners 120 finished
unfolding frame_result
finished-IsDue = record { old = omega arith; done = refl }

collect_flushes_example :
    let (fired, m') = collect_ready_callbacks owners 120 finished_manager in
    (fired ≡ all_queued finished_manager.callbacks_to_run) × (queued m'.callbacks_to_run ≡ 0)
collect_flushes_example =
    collect_flushes owners 120 finished_manager
      ((finished-IsDue, tt), ((finished-IsDue, (finished-IsDue, tt)), tt))

abbrev noted : Manager
noted = (add_notification 1 callback_manager 7 finished (b'e' ∷ [])).1

add_notification_is_fresh_example :
    let (id, m', next) = add_notification 2 noted 8 finished (b'f' ∷ []) in
    (1 ≤ id)
    × ((o : ℕ) → find_notification noted o id ≡ none)
    × (find_notification m' 8 id ≡ some (set_notification_trace finished (b'f' ∷ []) (decimal 2)))
add_notification_is_fresh_example =
    add_notification_is_fresh (then_call new (adds 1 7 finished (b'e' ∷ []))) 2 8 finished
      (b'f' ∷ []) (omega arith)
