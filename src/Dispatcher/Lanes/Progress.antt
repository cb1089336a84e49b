-- ===== src/Dispatcher/Lanes/Progress.antt =====
-- A cycle with a free slot and an available task dispatches something.
use open_tiger.Prelude.{
  ◌===◌, Bool-cases, Option-cases, is_empty, find_first, Within, here, there, is_empty→eq,
  List-cases, cons-cases, ◌<◌, String, ◌≡◌, refl, ap, subst, ◌≢◌, ◌⊎◌, inl, inr, Bool, true, false,
  Option, none, some, List, [], ◌∷◌, ◌++◌, arith,
}
use open_tiger.Dispatcher.Lanes.{
  AvailableTask, normalize_lane, can_dispatch_in_lane, Params, Selection, nothing_selected, truthy,
  push_task, refuses, try_select_task, fill_slots, fallback_round, fallback_lanes, lane_order,
  after_reserve, after_fill, select_tasks_for_dispatch,
}
use open_tiger.Dispatcher.Lanes.Rule.{fill_grow, after_reserve_grow, after_fill_grow, not_early}

-- As long as nothing is selected, the selection is the empty one.
abbrev pub IdleEmpty : Selection → Type 0
IdleEmpty s = s.selected ≡ [] → s ≡ nothing_selected

snoc-ne-nil : {A : Type 0} (xs : List A) (x : A) → (xs ++ x ∷ []) ≢ []
snoc-ne-nil [] x e = cc
snoc-ne-nil (y ∷ xs) x e = cc

pub push_task-ne-nil : (s : Selection) (t : AvailableTask) → (push_task s t).selected ≢ []
unfolding push_task
push_task-ne-nil s t = snoc-ne-nil s.selected t

module _ (p : Params) where
  pub after_fill-IdleEmpty : IdleEmpty (after_fill p)
  after_fill-IdleEmpty =
      after_fill_grow p IdleEmpty (λ s t _ _ _ e. absurd (push_task-ne-nil s t e)) (λ _. refl)

  pub after_reserve-IdleEmpty : IdleEmpty (after_reserve p)
  after_reserve-IdleEmpty =
      after_reserve_grow p IdleEmpty (λ s t _ _ _ e. absurd (push_task-ne-nil s t e)) (λ _. refl)

  pub fill-ne-nil :
      (s : Selection) (ts : List AvailableTask)
      → s.selected ≢ []
      → (fill_slots p s ts).selected ≢ []
  fill-ne-nil = fill_grow p (λ s. s.selected ≢ []) (λ s t _ _ _. push_task-ne-nil s t)

  -- The first available task is refused only for the cap of its lane.
  abbrev Blocked : AvailableTask → Type 0
  Blocked t =
      ((normalize_lane t === "docser") ≡ true) ⊎ ((normalize_lane t === "conflict_recovery") ≡ true)

  refused_empty :
      (t : AvailableTask) (force : Bool)
      → 0 < p.available_slots
      → refuses p nothing_selected t force ≡ true
      → (force ≡ false) × Blocked t
  unfolding refuses can_dispatch_in_lane
  refused_empty t force h e = elim (Option-cases (truthy t.target_area)) [
    | inl a ↦ ground arith
    | inr (a, b) ↦ ground arith
  ]

  fill_first :
      (t : AvailableTask) (ts : List AvailableTask)
      → 0 < p.available_slots
      → (fill_slots p nothing_selected (t ∷ ts)).selected ≡ []
      → Blocked t
  unfolding fill_slots try_select_task
  fill_first t ts h e = elim (Bool-cases (refuses p nothing_selected t false)) [
    | inl no_room ↦ (refused_empty t false h no_room).1
    | inr fits ↦ absurd (
        fill-ne-nil (push_task nothing_selected t) ts (push_task-ne-nil nothing_selected t)
          (ground arith))
  ]

  force_first :
      (t : AvailableTask)
      → 0 < p.available_slots
      → try_select_task p nothing_selected t true ≡ (push_task nothing_selected t, true)
  unfolding try_select_task
  force_first t h = elim (Bool-cases (refuses p nothing_selected t true)) [
    | inl no_room ↦ let f = (refused_empty t true h no_room).0 in cc
    | inr fits ↦ rw fits
  ]

  abbrev in_lane : String → Option AvailableTask
  in_lane lane = find_first (λ t. normalize_lane t === lane) p.available_tasks

  round_none :
      (lane : String)
      → in_lane lane ≡ none
      → fallback_round p nothing_selected lane ≡ (nothing_selected, false)
  unfolding fallback_round
  round_none lane e = rw (e, fallback_round)

  round_some :
      (lane : String) (t : AvailableTask)
      → 0 < p.available_slots
      → in_lane lane ≡ some t
      → fallback_round p nothing_selected lane ≡ (push_task nothing_selected t, true)
  unfolding fallback_round
  round_some lane t h e = rw (e, fallback_round) (force_first t h)

  fallback-ne-nil :
      (lane : String) (lanes : List String)
      → 0 < p.available_slots
      → in_lane lane ≢ none
      → Within lane lanes
      → (fallback_lanes p nothing_selected lanes).selected ≢ []
  unfolding fallback_lanes
  fallback-ne-nil lane [] h found w = elim w [ ]
  fallback-ne-nil lane (l ∷ lanes) h found w = elim (Option-cases (in_lane l)) [
    | inl e ↦
        let q = round_none l e in
        rw (ap (λ r. r.1) q, fallback_lanes)
          (rw q (fallback-ne-nil lane lanes h found (later w e found)))
    | inr (t, e) ↦
        let q = round_some l t h e in
        rw (ap (λ r. r.1) q, fallback_lanes) (rw q (push_task-ne-nil nothing_selected t))
  ]
    where
      later :
          {l lane : String} {ls : List String}
          → Within lane (l ∷ ls)
          → in_lane l ≡ none
          → in_lane lane ≢ none
          → Within lane ls
      later here e f = absurd (f e)
      later (there v) e f = v

  Blocked-in_lane :
      (t : AvailableTask) (ts : List AvailableTask)
      → p.available_tasks ≡ t ∷ ts
      → Blocked t
      → (lane : String) × (in_lane lane ≢ none) × Within lane lane_order
  Blocked-in_lane t ts e (inl b) = ("docser", rw (e, b) (λ c. cc), there (there here))
  Blocked-in_lane t ts e (inr b) =
      ("conflict_recovery", rw (e, b) (λ c. cc), there (there (there here)))

  fallback_when_empty :
      (t : AvailableTask) (ts : List AvailableTask)
      → p.available_tasks ≡ t ∷ ts
      → 0 < p.available_slots
      → (after_fill p).selected ≡ []
      → (fallback_lanes p (after_fill p) lane_order).selected ≢ []
  unfolding after_fill
  fallback_when_empty t ts e h empty = elim (List-cases (after_reserve p).selected) [
    | inl none_ ↦
        let start = after_reserve-IdleEmpty none_ in
        let filled = rw start at empty in
        let blocked =
          fill_first t ts h
            (subst (λ xs. (fill_slots p nothing_selected xs).selected ≡ []) e filled) in
        let (lane, found, w) = Blocked-in_lane t ts e blocked in
        rw (after_fill-IdleEmpty empty) (fallback-ne-nil lane lane_order h found w)
    | inr busy ↦ absurd (fill-ne-nil (after_reserve p) p.available_tasks busy empty)
  ]

-- Whenever a slot is free and any task is available, whatever the lanes and their usage, the
-- dispatch cycle selects at least one task.
pub select-ne-nil :
    (p : Params) → 0 < p.available_slots → p.available_tasks ≢ [] → select_tasks_for_dispatch p ≢ []
unfolding select_tasks_for_dispatch
select-ne-nil p h some_task = elim (Bool-cases (is_empty (after_fill p).selected)) [
  | inl empty ↦
      rw (not_early p h some_task, empty, select_tasks_for_dispatch)
        (let (t, ts, e) = cons-cases p.available_tasks some_task in
          fallback_when_empty p t ts e h (is_empty→eq _ empty))
  | inr nonempty ↦
      rw (not_early p h some_task, nonempty, select_tasks_for_dispatch)
        (λ c. let q = ap is_empty c in ground arith)
]
