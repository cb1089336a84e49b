-- ===== src/Dispatcher/Lanes/Rule.antt =====
-- selectTasksForDispatch as a growing selection: one rule by which what each accepted task keeps
-- holds of the tasks returned.
use open_tiger.Prelude.{
  ltb, ◌==◌, ◌===◌, Bool-cases, Option-cases, length, is_empty, find_first, has_id, is_empty→eq,
  ne-nil→is_empty, ◌<◌, String, ◌≡◌, refl, ◌≢◌, ◌⊎◌, inl, inr, Bool, true, false, ◌||◌, List, [],
  ◌∷◌, arith,
}
use open_tiger.Dispatcher.Lanes.{
  AvailableTask, normalize_lane, can_dispatch_in_lane, Params, Selection, nothing_selected, truthy,
  area_taken, push_task, refuses, try_select_task, required_feature_dispatch, reserve_round,
  reserve_features, fill_slots, fallback_round, fallback_lanes, lane_order, after_reserve,
  after_fill, select_tasks_for_dispatch,
}

-- What `trySelectTask` has checked when it accepts a task.
pub record Admitted (p : Params) (s : Selection) (t : AvailableTask) : Type 0 where
  pub fresh : has_id s.selected_ids t.id ≡ false
  pub free : area_taken s.pending_target_areas (truthy t.target_area) ≡ false
  pub room : length s.selected < p.available_slots

abbrev pub InLane : Params → Selection → AvailableTask → Type 0
InLane p s t =
    can_dispatch_in_lane (normalize_lane t) p.active_running_by_lane s.dispatched_by_lane
      p.lane_limits
    ≡ true

Admitted-of_refused :
    (p : Params) (s : Selection) (t : AvailableTask) (force : Bool)
    → refuses p s t force ≡ false
    → Admitted p s t
unfolding refuses
Admitted-of_refused p s t force h = ground arith

InLane-of_refused :
    (p : Params) (s : Selection) (t : AvailableTask) → refuses p s t false ≡ false → InLane p s t
unfolding refuses
InLane-of_refused p s t h = ground arith

-- A try leaves the selection alone and answers false, or pushes an admitted task and answers true.
try_cases {ℓ} :
    (P : Selection × Bool → Type ℓ) (p : Params) (s : Selection) (t : AvailableTask) (force : Bool)
    → P (s, false)
    → (refuses p s t force ≡ false → P (push_task s t, true))
    → P (try_select_task p s t force)
unfolding try_select_task
try_cases P p s t force keep push = elim (Bool-cases (refuses p s t force)) [
  | inl e ↦ rw e keep
  | inr e ↦ rw e (push e)
]

module _ {ℓ} (p : Params) (P : Selection → Type ℓ)
    (grow : (s : Selection) (t : AvailableTask)
      → Admitted p s t
      → InLane p s t
      → P s
      → P (push_task s t)) where
  try_grow : (s : Selection) (t : AvailableTask) → P s → P (try_select_task p s t false).0
  try_grow s t h =
      try_cases (λ r. P r.0) p s t false h
        (λ e. grow s t (Admitted-of_refused p s t false e) (InLane-of_refused p s t e) h)

  round_grow : (s : Selection) (t : AvailableTask) → P s → P (reserve_round p s t).0
  unfolding reserve_round
  round_grow s t h = ground (arith, try_grow s t h)

  pub reserve_grow : (s : Selection) (ts : List AvailableTask) → P s → P (reserve_features p s ts)
  unfolding reserve_features
  reserve_grow s [] h = h
  reserve_grow s (t ∷ ts) h = elim (Bool-cases ((reserve_round p s t).1)) [
    | inl e ↦ rw (e, reserve_features) (round_grow s t h)
    | inr e ↦ rw (e, reserve_features) (reserve_grow (reserve_round p s t).0 ts (round_grow s t h))
  ]

  pub fill_grow : (s : Selection) (ts : List AvailableTask) → P s → P (fill_slots p s ts)
  unfolding fill_slots
  fill_grow s [] h = h
  fill_grow s (t ∷ ts) h =
      let rest = fill_grow (try_select_task p s t false).0 ts (try_grow s t h) in
      ground (arith, rest)

  pub after_reserve_grow : P nothing_selected → P (after_reserve p)
  unfolding after_reserve
  after_reserve_grow h = elim (Bool-cases (ltb 0 (required_feature_dispatch p))) [
    | inl e ↦ rw (e, after_reserve) (reserve_grow nothing_selected p.available_tasks h)
    | inr e ↦ rw (e, after_reserve) h
  ]

  pub after_fill_grow : P nothing_selected → P (after_fill p)
  unfolding after_fill
  after_fill_grow h = fill_grow (after_reserve p) p.available_tasks (after_reserve_grow h)

module _ {ℓ} (p : Params) (Q : Selection → Type ℓ) (s : Selection) (whole : Q s)
    (force : (t : AvailableTask) → Admitted p s t → Q (push_task s t)) where
  -- A fallback round that does not break leaves the selection as it was.
  abbrev Outcome : Selection × Bool → Type ℓ
  Outcome r = ((r.0 ≡ s) × (r.1 ≡ false)) ⊎ (Q r.0 × (r.1 ≡ true))

  round-Outcome : (lane : String) → Outcome (fallback_round p s lane)
  unfolding fallback_round
  round-Outcome lane =
      elim (Option-cases (find_first (λ t. normalize_lane t === lane) p.available_tasks)) [
        | inl e ↦ rw (e, fallback_round) (inl (refl, refl))
        | inr (t, e) ↦
            rw (e, fallback_round)
              (try_cases Outcome p s t true (inl (refl, refl))
                (λ ok. inr (force t (Admitted-of_refused p s t true ok), refl)))
      ]

  pub fallback_holds : (lanes : List String) → Q (fallback_lanes p s lanes)
  unfolding fallback_lanes
  fallback_holds [] = whole
  fallback_holds (lane ∷ lanes) = elim (round-Outcome lane) [
    | inl (same, miss) ↦ rw (miss, same, fallback_lanes) (fallback_holds lanes)
    | inr (q, hit) ↦ rw (hit, fallback_lanes) q
  ]

-- The rule: `P` is kept by each accepted task; the tasks returned satisfy `Q` if every selection
-- with `P` does, and so does a first task that is forced into an empty one.
pub select_rule {ℓ κ} :
    (p : Params) (P : Selection → Type ℓ) (Q : List AvailableTask → Type κ)
    → Q []
    → P nothing_selected
    → ((s : Selection) (t : AvailableTask)
        → Admitted p s t
        → InLane p s t
        → P s
        → P (push_task s t))
    → ((s : Selection) → P s → Q s.selected)
    → ((s : Selection) (t : AvailableTask)
        → Admitted p s t
        → P s
        → s.selected ≡ []
        → Q (push_task s t).selected)
    → Q (select_tasks_for_dispatch p)
unfolding select_tasks_for_dispatch
select_rule p P Q none_ start grow finish force =
    elim (Bool-cases ((p.available_slots == 0) || is_empty p.available_tasks)) [
      | inl e ↦ rw (e, select_tasks_for_dispatch) none_
      | inr e ↦ elim (Bool-cases (is_empty (after_fill p).selected)) [
        | inl empty ↦
            rw (e, empty, select_tasks_for_dispatch)
              (fallback_holds p (λ s. Q s.selected) (after_fill p) (finish _ filled)
                (λ t a. force (after_fill p) t a filled (is_empty→eq _ empty)) lane_order)
        | inr nonempty ↦ rw (e, nonempty, select_tasks_for_dispatch) (finish _ filled)
      ]
    ]
  where
    filled : P (after_fill p)
    filled = after_fill_grow p P grow start

-- With a free slot and an available task the function does not return at once.
pub not_early :
    (p : Params)
    → 0 < p.available_slots
    → p.available_tasks ≢ []
    → ((p.available_slots == 0) || is_empty p.available_tasks) ≡ false
not_early p h some_task = let e = ne-nil→is_empty _ some_task in ground arith
