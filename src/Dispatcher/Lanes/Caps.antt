-- ===== src/Dispatcher/Lanes/Caps.antt =====
-- The caps of the conflict-recovery and docser lanes.
use open_tiger.Dispatcher.Lanes.Rule.{InLane, after_fill_grow, select_rule}
use open_tiger.Dispatcher.Lanes.Progress.{push_task-ne-nil, after_reserve-IdleEmpty, fill-ne-nil}
use native.Mathlib.Nat.{add-zero}
use open_tiger.Prelude.{
  leb, ◌==◌, ◌===◌, if◌then◌else◌, ltb→lt, ===→eq, Bool-cases, Option-cases, is_empty, count_if,
  count_if-append, All, is_empty→eq, List-cases, ℕ, ◌+◌, ◌≤◌, ◌<◌, max, String, ◌≡◌, refl, ◌⊎◌, inl,
  inr, true, false, ◌||◌, List, [], ◌∷◌, arith, eq_iff,
}
use open_tiger.Dispatcher.Lanes.{
  AvailableTask, Cap, finite, infinite, below_cap, LaneCounts, normalize_lane, lane_count,
  increment_lane_count, can_dispatch_in_lane, Params, Selection, nothing_selected, truthy,
  push_task, refuses, try_select_task, fill_slots, after_reserve, after_fill,
  select_tasks_for_dispatch,
}

-- How many tasks of a list run in a lane.
abbrev pub tasks_in_lane : String → List AvailableTask → ℕ
tasks_in_lane lane ts = count_if (λ t. normalize_lane t === lane) ts

pub lane_count-increment :
    (m : LaneCounts) (l lane : String)
    → lane_count (increment_lane_count m l) lane ≡ (if l === lane then 1 else 0) + lane_count m lane
unfolding lane_count increment_lane_count
lane_count-increment [] l lane = ground arith
lane_count-increment ((k, n) ∷ m) l lane =
    ground (arith, eq_iff k l, eq_iff k lane, eq_iff l lane, lane_count-increment m l lane)

-- `thisCycleDispatchByLane` counts the selected tasks.
abbrev pub CountsLanes : Selection → Type 0
CountsLanes s =
    (lane : String) → lane_count s.dispatched_by_lane lane ≡ tasks_in_lane lane s.selected

pub CountsLanes-push :
    (s : Selection) (t : AvailableTask) → CountsLanes s → CountsLanes (push_task s t)
unfolding push_task
CountsLanes-push s t c lane =
    rw (lane_count-increment s.dispatched_by_lane (normalize_lane t) lane)
      (omega (arith, c lane, count_if-append (λ u. normalize_lane u === lane) s.selected (t ∷ [])))

-- The usage of a lane once the tasks are added stays within the cap.
abbrev pub WithinCap : Params → String → Cap → List AvailableTask → Type 0
WithinCap p lane infinite ts = Unit {0}
WithinCap p lane (finite cap) ts =
    lane_count p.active_running_by_lane lane + tasks_in_lane lane ts
    ≤ max cap (lane_count p.active_running_by_lane lane)

module _ (p : Params) where
  abbrev Capped : List AvailableTask → Type 0
  Capped ts =
      WithinCap p "conflict_recovery" p.lane_limits.conflict_max_slots ts
      × WithinCap p "docser" p.lane_limits.docser_max_slots ts

  InLane-conflict :
      (s : Selection) (t : AvailableTask)
      → InLane p s t
      → (normalize_lane t === "conflict_recovery") ≡ true
      → below_cap
          (lane_count p.active_running_by_lane "conflict_recovery"
            + lane_count s.dispatched_by_lane "conflict_recovery")
          p.lane_limits.conflict_max_slots
        ≡ true
  unfolding can_dispatch_in_lane
  InLane-conflict s t i e = let same = ===→eq _ _ e in rw same at i

  InLane-docser :
      (s : Selection) (t : AvailableTask)
      → InLane p s t
      → (normalize_lane t === "docser") ≡ true
      → below_cap
          (lane_count p.active_running_by_lane "docser" + lane_count s.dispatched_by_lane "docser")
          p.lane_limits.docser_max_slots
        ≡ true
  unfolding can_dispatch_in_lane
  InLane-docser s t i e = let same = ===→eq _ _ e in rw same at i

  WithinCap-push :
      (lane : String) (cap : Cap) (s : Selection) (t : AvailableTask)
      → CountsLanes s
      → ((normalize_lane t === lane) ≡ true
          → below_cap
              (lane_count p.active_running_by_lane lane + lane_count s.dispatched_by_lane lane)
              cap
            ≡ true)
      → WithinCap p lane cap s.selected
      → WithinCap p lane cap (push_task s t).selected
  unfolding push_task
  WithinCap-push lane infinite s t c room h = tt
  WithinCap-push lane (finite cap) s t c room h = elim (Bool-cases (normalize_lane t === lane)) [
    | inl e ↦
        let r = ltb→lt _ _ (room e) in
        rw (count_if-append (λ u. normalize_lane u === lane) s.selected (t ∷ []), e)
          (omega (arith, c lane))
    | inr e ↦
        rw (count_if-append (λ u. normalize_lane u === lane) s.selected (t ∷ []), e) (omega arith)
  ]

  Capped-push :
      (s : Selection) (t : AvailableTask)
      → InLane p s t
      → CountsLanes s
      → Capped s.selected
      → Capped (push_task s t).selected
  Capped-push s t i c h = (
    WithinCap-push "conflict_recovery" p.lane_limits.conflict_max_slots s t c
        (InLane-conflict s t i) h.0,
    WithinCap-push "docser" p.lane_limits.docser_max_slots s t c (InLane-docser s t i) h.1,
  )

  WithinCap-empty : (lane : String) (cap : Cap) → WithinCap p lane cap []
  WithinCap-empty lane infinite = tt
  WithinCap-empty lane (finite cap) = omega arith

  push_task-alone :
      (s : Selection) (t : AvailableTask)
      → s.selected ≡ []
      → (u : AvailableTask) × ((push_task s t).selected ≡ u ∷ [])
  unfolding push_task
  push_task-alone s t e = (t, rw e)

  -- A task whose lane has reached its cap by the running tasks alone.
  abbrev pub InFullLane : AvailableTask → Type 0
  InFullLane t =
      (((normalize_lane t === "conflict_recovery") ≡ true)
        × (below_cap (lane_count p.active_running_by_lane "conflict_recovery")
              p.lane_limits.conflict_max_slots
            ≡ false))
      ⊎ (((normalize_lane t === "docser") ≡ true)
          × (below_cap (lane_count p.active_running_by_lane "docser") p.lane_limits.docser_max_slots
              ≡ false))

  no_room-InFullLane :
      (t : AvailableTask)
      → can_dispatch_in_lane (normalize_lane t) p.active_running_by_lane [] p.lane_limits ≡ false
      → InFullLane t
  unfolding can_dispatch_in_lane lane_count
  no_room-InFullLane t h = elim (Bool-cases (normalize_lane t === "conflict_recovery")) [
    | inl e ↦ let same = ===→eq _ _ e in let full = rw (same, add-zero) at h in inl (e, full)
    | inr e ↦ elim (Bool-cases (normalize_lane t === "docser")) [
      | inl f ↦ let same = ===→eq _ _ f in let full = rw (same, add-zero) at h in inr (f, full)
      | inr f ↦ cc (rw (e, f) at h)
    ]
  ]

  refused-InFullLane :
      (t : AvailableTask)
      → 0 < p.available_slots
      → refuses p nothing_selected t false ≡ true
      → InFullLane t
  unfolding refuses
  refused-InFullLane t h e = no_room-InFullLane t (elim (Option-cases (truthy t.target_area)) [
    | inl a ↦ ground arith
    | inr (a, b) ↦ ground arith
  ])

  fill_empty-InFullLane :
      (ts : List AvailableTask)
      → 0 < p.available_slots
      → (fill_slots p nothing_selected ts).selected ≡ []
      → All InFullLane ts
  unfolding fill_slots try_select_task
  fill_empty-InFullLane [] h e = tt
  fill_empty-InFullLane (t ∷ ts) h e =
      let open_slot : leb p.available_slots 0 ≡ false = ground arith in
      elim (Bool-cases (refuses p nothing_selected t false)) [
        | inl no_room ↦
            let rest = rw (open_slot, no_room, fill_slots) at e in
            (refused-InFullLane t h no_room, fill_empty-InFullLane ts h rest)
        | inr fits ↦ absurd (
            fill-ne-nil p (push_task nothing_selected t) ts (push_task-ne-nil nothing_selected t)
              (rw (open_slot, fits, fill_slots) at e))
      ]

  all_full : 0 < p.available_slots → (after_fill p).selected ≡ [] → All InFullLane p.available_tasks
  unfolding after_fill
  all_full h empty = elim (List-cases (after_reserve p).selected) [
    | inl none_ ↦
        fill_empty-InFullLane p.available_tasks h (rw (after_reserve-IdleEmpty p none_) at empty)
    | inr busy ↦ absurd (fill-ne-nil p (after_reserve p) p.available_tasks busy empty)
  ]

  Capped-nil : Capped []
  Capped-nil = (WithinCap-empty _ _, WithinCap-empty _ _)

  abbrev Counted : Selection → Type 0
  Counted s = CountsLanes s × Capped s.selected

  nothing-Counted : Counted nothing_selected
  unfolding lane_count
  nothing-Counted = ((λ lane. refl), Capped-nil)

  push-Counted :
      (s : Selection) (t : AvailableTask) → InLane p s t → Counted s → Counted (push_task s t)
  push-Counted s t i h = (CountsLanes-push s t h.0, Capped-push s t i h.0 h.1)

  filled-Capped : is_empty (after_fill p).selected ≡ false → Capped (select_tasks_for_dispatch p)
  unfolding select_tasks_for_dispatch
  filled-Capped busy = elim (Bool-cases ((p.available_slots == 0) || is_empty p.available_tasks)) [
    | inl e ↦ rw (e, select_tasks_for_dispatch) Capped-nil
    | inr e ↦
        rw (e, busy, select_tasks_for_dispatch)
          ((after_fill_grow p Counted (λ s t _ i h. push-Counted s t i h) nothing-Counted).1)
  ]

-- Counting running tasks and the tasks selected, the conflict-recovery lane and the docser lane
-- stay within their caps (a lane already over its cap gains nothing). The one exception: when
-- every available task is of one of these lanes and the running tasks alone fill its cap, a
-- single task is selected in spite of it.
pub select-Capped :
    (p : Params)
    → (WithinCap p "conflict_recovery" p.lane_limits.conflict_max_slots
          (select_tasks_for_dispatch p)
        × WithinCap p "docser" p.lane_limits.docser_max_slots (select_tasks_for_dispatch p))
      ⊎ (((t : AvailableTask) × (select_tasks_for_dispatch p ≡ t ∷ []))
          × All (InFullLane p) p.available_tasks)
select-Capped p = elim (Bool-cases (is_empty (after_fill p).selected)) [
  | inl empty ↦
      select_rule p (Counted p)
        (λ ts.
          Capped p ts
          ⊎ (((t : AvailableTask) × (ts ≡ t ∷ [])) × All (InFullLane p) p.available_tasks))
        (inl (Capped-nil p)) (nothing-Counted p) (λ s t _ i h. push-Counted p s t i h)
        (λ s h. inl h.1)
        (λ s t a _ e. inr (
          push_task-alone p s t e,
          all_full p (let room = rw e at a.room in omega arith) (is_empty→eq _ empty),
        ))
  | inr busy ↦ inl (filled-Capped p busy)
]
