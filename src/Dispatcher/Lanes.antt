-- ===== src/Dispatcher/Lanes.antt =====
-- apps/dispatcher/src/scheduler/lane-policy.ts: which available tasks a dispatch cycle takes.
pub mod Rule
pub mod Safety
pub mod Caps
pub mod Progress
pub mod Reserve
mod Tests
use open_tiger.Prelude.{
  ltb, leb, ◌==◌, ◌===◌, if◌then◌else◌, length, is_empty, find_first, has_id, has_text, ℤ, ℕ, ◌+◌,
  ◌-◌, String, Bool, true, false, not, ◌&&◌, ◌||◌, Option, none, some, List, [], ◌∷◌, ◌++◌,
}

-- `AvailableTask` of priority.ts. An id is a uuid, a 128-bit number; `context` is not read here.
pub record AvailableTask : Type 0 where
  pub id : ℕ
  pub title : String
  pub goal : String
  pub priority : ℤ
  pub risk_level : String
  pub role : String
  pub lane : String
  pub timebox_minutes : ℕ
  pub dependencies : List ℕ
  pub allowed_paths : List String
  pub commands : List String
  pub target_area : Option String
  pub touches : List String

-- A cap may be `Number.POSITIVE_INFINITY`.
pub data Cap : Type 0 where
  finite : ℕ → Cap
  infinite : Cap

abbrev pub below_cap : ℕ → Cap → Bool
below_cap n (finite m) = ltb n m
below_cap n infinite = true

pub record LaneLimits : Type 0 where
  pub conflict_max_slots : Cap
  pub feature_min_slots : ℕ
  pub docser_max_slots : Cap

-- `Map<DispatcherLane, number>`
abbrev pub LaneCounts : Type 0
LaneCounts = List (String × ℕ)

pub normalize_lane : AvailableTask → String
normalize_lane t = if t.lane === "" then "feature" else t.lane

-- `counter.get(lane) ?? 0`
pub lane_count : LaneCounts → String → ℕ
lane_count [] lane = 0
lane_count ((l, n) ∷ m) lane = if l === lane then n else lane_count m lane

pub increment_lane_count : LaneCounts → String → LaneCounts
increment_lane_count [] lane = (lane, 1) ∷ []
increment_lane_count ((l, n) ∷ m) lane =
    if l === lane then (l, n + 1) ∷ m else (l, n) ∷ increment_lane_count m lane

count_from : LaneCounts → List AvailableTask → LaneCounts
count_from counts [] = counts
count_from counts (t ∷ ts) = count_from (increment_lane_count counts (normalize_lane t)) ts

pub count_tasks_by_lane : List AvailableTask → LaneCounts
unfolding count_from increment_lane_count normalize_lane
count_tasks_by_lane ts = count_from [] ts

pub can_dispatch_in_lane : String → LaneCounts → LaneCounts → LaneLimits → Bool
can_dispatch_in_lane lane active this_cycle limits =
    let effective_usage = lane_count active lane + lane_count this_cycle lane in
    if lane === "conflict_recovery"
    then below_cap effective_usage limits.conflict_max_slots
    else if lane === "docser"
    then below_cap effective_usage limits.docser_max_slots
    else true

pub record Params : Type 0 where
  pub available_tasks : List AvailableTask
  pub available_slots : ℕ
  pub active_running_by_lane : LaneCounts
  pub lane_limits : LaneLimits

-- The variables that the closure `trySelectTask` shares with the loops.
pub record Selection : Type 0 where
  pub selected : List AvailableTask
  pub selected_ids : List ℕ
  pub pending_target_areas : List String
  pub dispatched_by_lane : LaneCounts

abbrev pub nothing_selected : Selection
nothing_selected = record {
  selected = [];
  selected_ids = [];
  pending_target_areas = [];
  dispatched_by_lane = [];
}

-- `task.targetArea &&` is false on null and on the empty text.
abbrev pub truthy : Option String → Option String
truthy none = none
truthy (some s) = if s === "" then none else some s

abbrev pub area_taken : List String → Option String → Bool
area_taken areas none = false
area_taken areas (some a) = has_text areas a

abbrev pub add_area : List String → Option String → List String
add_area areas none = areas
add_area areas (some a) = areas ++ a ∷ []

pub push_task : Selection → AvailableTask → Selection
push_task s t = record {
  selected = s.selected ++ t ∷ [];
  selected_ids = s.selected_ids ++ t.id ∷ [];
  pending_target_areas = add_area s.pending_target_areas (truthy t.target_area);
  dispatched_by_lane = increment_lane_count s.dispatched_by_lane (normalize_lane t);
}

pub feature_like : AvailableTask → Bool
feature_like t = (normalize_lane t === "feature") || (normalize_lane t === "research")

pub feature_dispatched : Selection → ℕ
feature_dispatched s =
    lane_count s.dispatched_by_lane "feature" + lane_count s.dispatched_by_lane "research"

module _ (p : Params) where
  -- The early returns of `trySelectTask`, in order.
  pub refuses : Selection → AvailableTask → Bool → Bool
  refuses s t force_lane_bypass =
      has_id s.selected_ids t.id
      || (area_taken s.pending_target_areas (truthy t.target_area)
          || (leb p.available_slots (length s.selected)
              || (not force_lane_bypass
                  && not (
                      can_dispatch_in_lane (normalize_lane t) p.active_running_by_lane
                        s.dispatched_by_lane p.lane_limits))))

  pub try_select_task : Selection → AvailableTask → Bool → Selection × Bool
  try_select_task s t force_lane_bypass =
      if refuses s t force_lane_bypass then (s, false) else (push_task s t, true)

  -- `Math.max(0, featureMinSlots - (activeFeature + activeResearch))`
  pub required_feature_dispatch : ℕ
  required_feature_dispatch =
      p.lane_limits.feature_min_slots
      - (lane_count p.active_running_by_lane "feature"
          + lane_count p.active_running_by_lane "research")

  -- One round of the first loop: the new state, and whether it breaks.
  pub reserve_round : Selection → AvailableTask → Selection × Bool
  reserve_round s t =
      if feature_like t
      then (let (s', done) = try_select_task s t false in
          (s', done && leb required_feature_dispatch (feature_dispatched s')))
      else (s, false)

  pub reserve_features : Selection → List AvailableTask → Selection
  reserve_features s [] = s
  reserve_features s (t ∷ ts) = elim ((reserve_round s t).1) [
    | true ↦ (reserve_round s t).0
    | false ↦ reserve_features (reserve_round s t).0 ts
  ]

  pub fill_slots : Selection → List AvailableTask → Selection
  fill_slots s [] = s
  fill_slots s (t ∷ ts) = elim (leb p.available_slots (length s.selected)) [
    | true ↦ s
    | false ↦ fill_slots (try_select_task s t false).0 ts
  ]

  -- One round of the last loop.
  pub fallback_round : Selection → String → Selection × Bool
  fallback_round s lane = elim (find_first (λ t. normalize_lane t === lane) p.available_tasks) [
    | none ↦ (s, false)
    | some t ↦ try_select_task s t true
  ]

  pub fallback_lanes : Selection → List String → Selection
  fallback_lanes s [] = s
  fallback_lanes s (lane ∷ lanes) = elim ((fallback_round s lane).1) [
    | true ↦ (fallback_round s lane).0
    | false ↦ fallback_lanes (fallback_round s lane).0 lanes
  ]

abbrev pub lane_order : List String
lane_order = "feature" ∷ "research" ∷ "docser" ∷ "conflict_recovery" ∷ []

module _ (p : Params) where
  pub after_reserve : Selection
  after_reserve =
      if ltb 0 (required_feature_dispatch p)
      then reserve_features p nothing_selected p.available_tasks
      else nothing_selected

  pub after_fill : Selection
  after_fill = fill_slots p after_reserve p.available_tasks

  pub select_tasks_for_dispatch : List AvailableTask
  select_tasks_for_dispatch =
      if (p.available_slots == 0) || is_empty p.available_tasks
      then []
      else (if is_empty after_fill.selected
          then fallback_lanes p after_fill lane_order
          else after_fill).selected
