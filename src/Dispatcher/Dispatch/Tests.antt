-- ===== src/Dispatcher/Dispatch/Tests.antt =====
-- A task that is dispatched, and poll delays.
use open_tiger.Prelude.{◌+◌, ◌≤◌, max, ◌≡◌, refl, true, false, some, [], ◌∷◌, arith}
use open_tiger.Store.{TaskStatus, Db}
use open_tiger.Store.Samples.{task_row}
use open_tiger.Dispatcher.Leases.{insert_result, acquire_lease}
use open_tiger.Dispatcher.Dispatch.{
  process, launch_task, enqueue_and_launch, start_task, dispatch_task, compute_backoff_delay_ms,
  available_slots,
}
use open_tiger.Dispatcher.Dispatch.Laws.{
  undisturbed, Dispatches, dispatch_task-Dispatches, compute_backoff_delay_ms-bounds,
  available_slots-bounds,
}

abbrev waiting : Db
waiting = record {
  tasks = task_row 1 TaskStatus.queued 100 ∷ [];
  runs = [];
  leases = [];
  agents = [];
}

dispatched_at_once :
    (dispatch_task 1000 7 60 (undisturbed process (λ a. a) true false) 1 "worker-1" waiting).1
    ≡ some true
unfolding dispatch_task start_task acquire_lease insert_result enqueue_and_launch launch_task
dispatched_at_once = refl

dispatch_task-Dispatches_example :
    Dispatches 1000 1 "worker-1" process false true waiting
      (dispatch_task 1000 7 60 (undisturbed process (λ a. a) false true) 1 "worker-1" waiting)
dispatch_task-Dispatches_example =
    dispatch_task-Dispatches 1000 7 60 1 "worker-1" process (λ a. a) false true waiting

compute_backoff_delay_ms-bounds_example :
    (3000 ≤ compute_backoff_delay_ms 30000 3000 2)
    × (compute_backoff_delay_ms 30000 3000 2 ≤ max 3000 30000)
    × (compute_backoff_delay_ms 30000 3000 2 ≤ compute_backoff_delay_ms 30000 3000 9)
compute_backoff_delay_ms-bounds_example =
    compute_backoff_delay_ms-bounds 30000 3000 2 9 (omega arith)

available_slots-bounds_example :
    (2 + available_slots false (some 5) 2 ≡ max 5 2)
    × (2 + available_slots true (some 5) 2 ≤ max 1 2)
available_slots-bounds_example = available_slots-bounds 5 2 (some 5)
