-- ===== src/Dispatcher/Lanes/Tests.antt =====
-- lane-policy.ts on concrete tasks, and the theorems at such inputs.
use open_tiger.Prelude.{
  here, there, All, pos, ℕ, String, ◌≡◌, refl, ◌≢◌, ◌⊎◌, Option, none, some, [], ◌∷◌, arith,
}
use open_tiger.Dispatcher.Lanes.{
  AvailableTask, finite, LaneLimits, normalize_lane, lane_count, increment_lane_count,
  count_tasks_by_lane, can_dispatch_in_lane, Params, push_task, feature_like, feature_dispatched,
  refuses, try_select_task, required_feature_dispatch, reserve_round, reserve_features, fill_slots,
  fallback_round, fallback_lanes, after_reserve, after_fill, select_tasks_for_dispatch,
}
use open_tiger.Dispatcher.Lanes.Safety.{ids, IsConflictFree, select-IsConflictFree}
use open_tiger.Dispatcher.Lanes.Caps.{WithinCap, InFullLane, select-Capped}
use open_tiger.Dispatcher.Lanes.Progress.{select-ne-nil}
use open_tiger.Dispatcher.Lanes.Reserve.{FeatureHead, select-FeatureHead}

abbrev task : ℕ → String → Option String → AvailableTask
task id lane area = record {
  id = id;
  title = "t";
  goal = "g";
  priority = pos 0;
  risk_level = "low";
  role = "worker";
  lane = lane;
  timebox_minutes = 60;
  dependencies = [];
  allowed_paths = [];
  commands = [];
  target_area = area;
  touches = [];
}

abbrev limits : LaneLimits
limits = record {
  conflict_max_slots = finite 2;
  feature_min_slots = 1;
  docser_max_slots = finite 1;
}

-- Conflict recovery is at its cap; a feature task waits behind two others.
abbrev busy : Params
busy = record {
  available_tasks =
      task 1 "conflict_recovery" none
      ∷ task 2 "docser" (some "docser:global")
      ∷ task 3 "" (some "path:apps/api")
      ∷ task 4 "feature" (some "path:apps/api")
      ∷ [];
  available_slots = 3;
  active_running_by_lane = ("conflict_recovery", 2) ∷ [];
  lane_limits = limits;
}

abbrev stuck : Params
stuck = record busy { available_tasks = task 1 "conflict_recovery" none ∷ [] }

run : Unit {0}
unfolding select_tasks_for_dispatch after_fill after_reserve reserve_features reserve_round
    fill_slots fallback_lanes fallback_round try_select_task refuses can_dispatch_in_lane push_task
    normalize_lane lane_count increment_lane_count feature_like feature_dispatched
    required_feature_dispatch count_tasks_by_lane
run = tt

busy_selected : ids (select_tasks_for_dispatch busy) ≡ 3 ∷ 2 ∷ []
unfolding run
busy_selected = refl

stuck_selected : ids (select_tasks_for_dispatch stuck) ≡ 1 ∷ []
unfolding run
stuck_selected = refl

lanes_counted :
    count_tasks_by_lane busy.available_tasks
    ≡ ("conflict_recovery", 1) ∷ ("docser", 1) ∷ ("feature", 2) ∷ []
unfolding run
lanes_counted = refl

select-IsConflictFree_example : IsConflictFree busy (select_tasks_for_dispatch busy)
select-IsConflictFree_example = select-IsConflictFree busy

select-Capped_example :
    (WithinCap stuck "conflict_recovery" (finite 2) (select_tasks_for_dispatch stuck)
      × WithinCap stuck "docser" (finite 1) (select_tasks_for_dispatch stuck))
    ⊎ (((t : AvailableTask) × (select_tasks_for_dispatch stuck ≡ t ∷ []))
        × All (InFullLane stuck) stuck.available_tasks)
select-Capped_example = select-Capped stuck

select-ne-nil_example : select_tasks_for_dispatch stuck ≢ []
select-ne-nil_example = select-ne-nil stuck (omega arith) (λ e. cc)

select-FeatureHead_example : FeatureHead (select_tasks_for_dispatch busy)
unfolding run
select-FeatureHead_example =
    select-FeatureHead busy (task 3 "" (some "path:apps/api")) (omega arith) (omega arith)
      (there (there here)) refl
