-- ===== src/Dispatcher/Lanes/Reserve.antt =====
-- The slots reserved for the feature and research lanes.
use open_tiger.Dispatcher.Lanes.Rule.{reserve_grow, fill_grow, not_early}
use open_tiger.Prelude.{
  leb, ◌===◌, lt→ltb, ===→eq, Bool-cases, Within, here, there, ne-nil→is_empty, Within-ne-nil, ◌<◌,
  String, ◌≡◌, refl, sym, ap, subst, ◌≢◌, inl, inr, true, false, ◌||◌, Option, none, some, List, [],
  ◌∷◌, ◌++◌, arith,
}
use open_tiger.Dispatcher.Lanes.{
  AvailableTask, normalize_lane, can_dispatch_in_lane, Params, Selection, nothing_selected, truthy,
  area_taken, push_task, feature_like, refuses, try_select_task, required_feature_dispatch,
  reserve_round, reserve_features, after_reserve, after_fill, select_tasks_for_dispatch,
}

-- The first task of the list is of the feature or the research lane.
abbrev pub FeatureHead : List AvailableTask → Type 0
FeatureHead ts =
    (u : AvailableTask) × (us : List AvailableTask) × (ts ≡ u ∷ us) × (feature_like u ≡ true)

FeatureHead-push :
    (s : Selection) (t : AvailableTask)
    → FeatureHead s.selected
    → FeatureHead (push_task s t).selected
unfolding push_task
FeatureHead-push s t (u, us, e, f) = (u, us ++ t ∷ [], rw e, f)

first-FeatureHead :
    (t : AvailableTask)
    → feature_like t ≡ true
    → FeatureHead (push_task nothing_selected t).selected
unfolding push_task
first-FeatureHead t f = (t, [], refl, f)

-- A text equals at most one of two different texts.
only_one : (a b c : String) → (b === c) ≡ false → (a === b) ≡ true → (a === c) ≡ false
only_one a b c d e = let same = ===→eq a b e in rw same d

module _ (p : Params) where
  not_refused :
      (t : AvailableTask)
      → 0 < p.available_slots
      → feature_like t ≡ true
      → refuses p nothing_selected t false ≡ false
  unfolding refuses can_dispatch_in_lane feature_like
  not_refused t h f = elim (Bool-cases (normalize_lane t === "feature")) [
    | inl e ↦ let same = ===→eq _ _ e in rw same (no_refusal t.target_area)
    | inr e ↦
        let same = ===→eq (normalize_lane t) "research" (ground arith) in
        rw same (no_refusal t.target_area)
  ]
    where
      no_refusal :
          (a : Option String)
          → (area_taken [] (truthy a) || (leb p.available_slots 0 || false)) ≡ false
      no_refusal none = ground arith
      no_refusal (some a) = ground arith

  round_feature :
      (t : AvailableTask)
      → 0 < p.available_slots
      → feature_like t ≡ true
      → (reserve_round p nothing_selected t).0 ≡ push_task nothing_selected t
  unfolding reserve_round try_select_task
  round_feature t h f = rw (f, reserve_round, not_refused t h f)

  round_other :
      (t : AvailableTask)
      → feature_like t ≡ false
      → reserve_round p nothing_selected t ≡ (nothing_selected, false)
  unfolding reserve_round
  round_other t f = rw (f, reserve_round)

  grow_head :
      (s : Selection) (ts : List AvailableTask)
      → FeatureHead s.selected
      → FeatureHead (reserve_features p s ts).selected
  grow_head = reserve_grow p (λ s. FeatureHead s.selected) (λ s t _ _ h. FeatureHead-push s t h)

  reserve_first :
      (t : AvailableTask) (ts : List AvailableTask)
      → 0 < p.available_slots
      → Within t ts
      → feature_like t ≡ true
      → FeatureHead (reserve_features p nothing_selected ts).selected
  unfolding reserve_features
  reserve_first t [] h w f = elim w [ ]
  reserve_first t (x ∷ ts) h w f = elim (Bool-cases (feature_like x)) [
    | inl yes_ ↦
        let head =
          subst (λ s. FeatureHead s.selected) (sym (round_feature x h yes_))
            (first-FeatureHead x yes_) in
        elim (Bool-cases ((reserve_round p nothing_selected x).1)) [
          | inl e ↦ rw (e, reserve_features) head
          | inr e ↦
              rw (e, reserve_features) (grow_head (reserve_round p nothing_selected x).0 ts head)
        ]
    | inr no_ ↦
        let q = round_other x no_ in
        rw (ap (λ r. r.1) q, reserve_features) (rw q (reserve_first t ts h (later w no_ f) f))
  ]
    where
      later :
          {t x : AvailableTask} {ts : List AvailableTask}
          → Within t (x ∷ ts)
          → feature_like x ≡ false
          → feature_like t ≡ true
          → Within t ts
      later here n y = absurd (cc)
      later (there v) n y = v

-- While fewer feature and research tasks run than the lane minimum asks for, a cycle that has a
-- free slot and an available task of those lanes selects one of them first.
pub select-FeatureHead :
    (p : Params) (t : AvailableTask)
    → 0 < p.available_slots
    → 0 < required_feature_dispatch p
    → Within t p.available_tasks
    → feature_like t ≡ true
    → FeatureHead (select_tasks_for_dispatch p)
unfolding select_tasks_for_dispatch after_fill after_reserve
select-FeatureHead p t h r w f =
    let reserved = reserve_first p t p.available_tasks h w f in
    let filled : FeatureHead (after_fill p).selected =
      fill_grow p (λ s. FeatureHead s.selected) (λ s u _ _ k. FeatureHead-push s u k)
        (after_reserve p) p.available_tasks (rw (lt→ltb _ _ r, after_reserve) reserved) in
    rw
      (
        not_early p h (Within-ne-nil w),
        ne-nil→is_empty (after_fill p).selected (FeatureHead-ne-nil filled),
        select_tasks_for_dispatch,
      )
      filled
  where
    FeatureHead-ne-nil : {ts : List AvailableTask} → FeatureHead ts → ts ≢ []
    FeatureHead-ne-nil (u, us, e, _) c = cc
