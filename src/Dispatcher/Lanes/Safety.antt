-- ===== src/Dispatcher/Lanes/Safety.antt =====
-- What every dispatch cycle guarantees of the tasks that it takes, forced ones included.
use open_tiger.Prelude.{
  Option-cases, length, length-append, DistinctIds, DistinctTexts, DistinctIds-snoc,
  DistinctTexts-snoc, ℕ, ◌≤◌, String, ◌≡◌, refl, ap, inl, inr, false, Option, none, some, List, [],
  ◌∷◌, ◌++◌, arith,
}
use open_tiger.Dispatcher.Lanes.{
  AvailableTask, Params, Selection, truthy, area_taken, add_area, push_task,
  select_tasks_for_dispatch,
}
use open_tiger.Dispatcher.Lanes.Rule.{Admitted, select_rule}

abbrev pub ids : List AvailableTask → List ℕ
ids [] = []
ids (t ∷ ts) = t.id ∷ ids ts

-- The target areas of a list of tasks; null and the empty text are none.
abbrev pub areas : List AvailableTask → List String
areas [] = []
areas (t ∷ ts) = elim (truthy t.target_area) [ none ↦ areas ts | some a ↦ a ∷ areas ts ]

ids-snoc : (ts : List AvailableTask) (t : AvailableTask) → ids (ts ++ t ∷ []) ≡ ids ts ++ t.id ∷ []
ids-snoc [] t = refl
ids-snoc (x ∷ ts) t = ap (◌∷◌ x.id) (ids-snoc ts t)

areas-snoc :
    (ts : List AvailableTask) (t : AvailableTask)
    → areas (ts ++ t ∷ []) ≡ add_area (areas ts) (truthy t.target_area)
areas-snoc [] t = elim (Option-cases (truthy t.target_area)) [
  | inl e ↦ ground arith
  | inr (a, e) ↦ ground arith
]
areas-snoc (x ∷ ts) t = ground (arith, areas-snoc ts t)

-- The bookkeeping of the closure agrees with the list of selected tasks.
record Tracks (p : Params) (s : Selection) : Type 0 where
  by_id : s.selected_ids ≡ ids s.selected
  by_area : s.pending_target_areas ≡ areas s.selected
  id_once : DistinctIds (ids s.selected)
  area_once : DistinctTexts (areas s.selected)
  bounded : length s.selected ≤ p.available_slots

add_area-distinct :
    (xs : List String) (a : Option String)
    → DistinctTexts xs
    → area_taken xs a ≡ false
    → DistinctTexts (add_area xs a)
add_area-distinct xs none d h = d
add_area-distinct xs (some a) d h = DistinctTexts-snoc xs a d h

Tracks-push :
    (p : Params) (s : Selection) (t : AvailableTask)
    → Admitted p s t
    → Tracks p s
    → Tracks p (push_task s t)
unfolding push_task
Tracks-push p s t a k = record {
  by_id = rw (k.by_id, ids-snoc s.selected t);
  by_area = rw (k.by_area, areas-snoc s.selected t);
  id_once = rw (ids-snoc s.selected t) (DistinctIds-snoc _ _ k.id_once (rw k.by_id at a.fresh));
  area_once =
      rw (areas-snoc s.selected t) (add_area-distinct _ _ k.area_once (rw k.by_area at a.free));
  bounded = omega (arith, a.room, length-append s.selected (t ∷ []));
}

pub record IsConflictFree (p : Params) (ts : List AvailableTask) : Type 0 where
  pub bounded : length ts ≤ p.available_slots
  pub id_once : DistinctIds (ids ts)
  pub area_once : DistinctTexts (areas ts)

-- A cycle selects at most as many tasks as there are free slots, no task twice, and never two
-- tasks with the same target area.
pub select-IsConflictFree : (p : Params) → IsConflictFree p (select_tasks_for_dispatch p)
select-IsConflictFree p =
    select_rule p (Tracks p) (IsConflictFree p) nil_free
      (record { by_id = refl; by_area = refl; id_once = tt; area_once = tt; bounded = omega arith })
      (λ s t a _ k. Tracks-push p s t a k) of_Tracks
      (λ s t a k _. of_Tracks _ (Tracks-push p s t a k))
  where
    nil_free : IsConflictFree p []
    nil_free = record { bounded = omega arith; id_once = tt; area_once = tt }

    of_Tracks : (s : Selection) → Tracks p s → IsConflictFree p s.selected
    of_Tracks s k = record { bounded = k.bounded; id_once = k.id_once; area_once = k.area_once }
