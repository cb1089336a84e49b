-- ===== src/Plugins/Loader/Search.antt =====
-- What a visit of topologicalSort (packages/plugin-sdk/src/loader.ts) does to its state.
use open_tiger.Prelude.{
  ◌===◌, ===→eq, ===_refl, Bool-cases, Option-cases, if_both, some_injective, Within, here, there,
  All, has_text, ℕ, zero, suc, String, ◌≡◌, refl, sym, ap, ◌∙◌, subst, ◌⊎◌, inl, inr, true, false,
  ◌||◌, Option, some, List, [], ◌∷◌, ◌++◌, arith,
}
use open_tiger.Plugins.Loader.{
  Manifest, LoadError, missing_dependency, invalid_dependency, SortState, has_error, set_error,
  manifest_by_id, required, enter, leave, blame, visit_required, left, visit,
}
use open_tiger.Plugins.Loader.Order.{
  manifest_ids, in_order, IsSearch, IsSearch-set_error, IsSearch-enter, delete_self, in_order-snoc,
  IsSearch-leave,
}

-- From the state `s` to the state `t` nothing is taken back.
pub record Grows (s t : SortState) : Type 0 where
  pub search : IsSearch t
  pub temporary : t.temporary ≡ s.temporary
  pub sorted : (id : String) → in_order s id ≡ true → in_order t id ≡ true
  pub errors : (id : String) → has_error s.errors id ≡ true → has_error t.errors id ≡ true

pub Grows-refl : (s : SortState) → IsSearch s → Grows s s
Grows-refl s i = record { search = i; temporary = refl; sorted = λ id h. h; errors = λ id h. h }

pub Grows-trans : (s t u : SortState) → Grows s t → Grows t u → Grows s u
Grows-trans s t u a b = record {
  search = b.search;
  temporary = b.temporary ∙ a.temporary;
  sorted = λ id h. b.sorted id (a.sorted id h);
  errors = λ id h. b.errors id (a.errors id h);
}

pub Grows-set_error :
    (q : String) (e : LoadError) (s : SortState)
    → has_text s.temporary q ≡ true
    → IsSearch s
    → Grows s (set_error q e s)
Grows-set_error q e s t i = record {
  search = IsSearch-set_error q e s t i;
  temporary = refl;
  sorted = λ id h. h;
  errors = λ id h. ground arith;
}

pub Grows-blame :
    (q d : String) (s : SortState)
    → has_text s.temporary q ≡ true
    → IsSearch s
    → Grows s (blame q d s)
Grows-blame q d s t i =
    if_both (Grows s) (has_error s.errors d) _ s
      (λ e. Grows-set_error q (invalid_dependency d) s t i) (λ e. Grows-refl s i)

-- A plugin that was visited has an error or is finished.
pub record Visits (id : String) (s t : SortState) : Type 0 where
  pub grows : Grows s t
  pub settled : (has_error t.errors id || has_text t.permanent id) ≡ true

-- The loop over required ids leaves the plugin with an error or finds all of them in the order.
pub record Requires (id : String) (ds : List String) (s t : SortState) : Type 0 where
  pub grows : Grows s t
  pub found : has_error t.errors id ≡ false → All (λ d. in_order t d ≡ true) ds

pub manifest_by_id-finds :
    (ms : List Manifest) (d : String) (m : Manifest)
    → manifest_by_id ms d ≡ some m
    → Within m ms × (m.id ≡ d)
manifest_by_id-finds [] d m h = cc
manifest_by_id-finds (x ∷ xs) d m h = elim (Bool-cases (x.id === d)) [
  | inl same ↦
      let x_is_m = some_injective (rw same at h) in
      (subst (λ y. Within y (x ∷ xs)) x_is_m here, ap (λ y. y.id) (sym x_is_m) ∙ ===→eq x.id d same)
  | inr other ↦ let (w, e) = manifest_by_id-finds xs d m (rw other at h) in (there w, e)
]

-- A settled dependency is in the order, or the plugin that requires it has an error.
blame_or_found :
    (q d : String) (s : SortState)
    → IsSearch s
    → (has_error s.errors d || has_text s.permanent d) ≡ true
    → (has_error (blame q d s).errors q ≡ true) ⊎ (in_order s d ≡ true)
blame_or_found q d s i h = elim (Bool-cases (has_error s.errors d)) [
  | inl bad ↦ inl (rw (bad, ===_refl q))
  | inr good ↦ inr (i.placed d (rw good at h) good)
]

kept_on_leaving :
    (p : Manifest) (s : SortState) (id : String)
    → in_order s id ≡ true
    → in_order (leave p s) id ≡ true
kept_on_leaving p s id h =
    if_both (λ ms. has_text (manifest_ids ms) id ≡ true) (has_error s.errors p.id) s.sorted
      (s.sorted ++ p ∷ []) (λ e. h) (λ e. rw (in_order-snoc s p id, h))

module _ (enabled : List Manifest) (again : Manifest → SortState → Option SortState)
    (sound : (m : Manifest) (s t : SortState)
      → Within m enabled
      → IsSearch s
      → again m s ≡ some t
      → Visits m.id s t) where
  pub visit_required-Requires :
      (id : String) (ds : List String) (s t : SortState)
      → has_text s.temporary id ≡ true
      → IsSearch s
      → visit_required again enabled id ds s ≡ some t
      → Requires id ds s t
  unfolding visit_required
  visit_required-Requires id [] s t h i e =
      subst (Requires id [] s) (some_injective e)
        (record { grows = Grows-refl s i; found = λ good. tt })
  visit_required-Requires id (d ∷ ds) s t h i e = elim (Option-cases (manifest_by_id enabled d)) [
    | inl missing ↦
        let failed = set_error id (missing_dependency d) s in
        let step = Grows-set_error id (missing_dependency d) s h i in
        let rest =
          visit_required-Requires id ds failed t h step.search
            (rw (missing, visit_required) at e) in
        record {
          grows = Grows-trans s failed t step rest.grows;
          found =
              λ good. let bad = rest.grows.errors id (rw (===_refl id)) in absurd (cc (bad, good));
        }
    | inr (m, is_m) ↦ elim (Option-cases (again m s)) [
      | inl stops ↦ let bad = (rw (is_m, visit_required, stops) at e) in absurd (cc)
      | inr (after, is_after) ↦
          let (inside, same) = manifest_by_id-finds enabled d m is_m in
          let deeper = sound m s after inside i is_after in
          let kept : has_text after.temporary id ≡ true = rw (deeper.grows.temporary) h in
          let step = Grows-blame id m.id after kept deeper.grows.search in
          let rest =
            visit_required-Requires id ds (blame id m.id after) t (rw step.temporary kept)
              step.search (rw (is_m, visit_required, is_after) at e) in
          record {
            grows = Grows-trans s after t deeper.grows (Grows-trans after _ t step rest.grows);
            found = λ good. (
              elim (blame_or_found id m.id after deeper.grows.search deeper.settled) [
                | inl bad ↦ let still = rest.grows.errors id bad in absurd (cc (still, good))
                | inr placed ↦
                    rest.grows.sorted d
                      (step.sorted d (subst (λ x. in_order after x ≡ true) same placed))
              ],
              rest.found good,
            );
          }
    ]
  ]

  -- The body of a visit that is neither finished nor under way.
  left-Visits :
      (p : Manifest) (s t : SortState)
      → has_text s.permanent p.id ≡ false
      → has_text s.temporary p.id ≡ false
      → IsSearch s
      → left p (visit_required again enabled p.id (required p.requires) (enter p.id s)) ≡ some t
      → Visits p.id s t
  left-Visits p s t new idle i e =
      elim (Option-cases (visit_required again enabled p.id (required p.requires) (enter p.id s))) [
        | inl stops ↦ let bad = (rw stops at e) in absurd (cc)
        | inr (u, loops) ↦
            let inside =
              visit_required-Requires p.id (required p.requires) (enter p.id s) u
                (rw (===_refl p.id)) (IsSearch-enter p.id s new i) loops in
            let grows = inside.grows in
            let away = grows.search.unplaced p.id (rw (grows.temporary, ===_refl p.id)) in
            let is_t = some_injective (rw loops at e) in
            subst (Visits p.id s) is_t (record {
              grows = record {
                search = IsSearch-leave p u away inside.found grows.search;
                temporary = rw (grows.temporary) (delete_self p.id s.temporary idle);
                sorted = λ id h. kept_on_leaving p u id (grows.sorted id h);
                errors = grows.errors;
              };
              settled = ground (arith, ===_refl p.id);
            })
      ]

pub visit-Visits :
    (enabled : List Manifest) (fuel : ℕ) (path : List String) (p : Manifest) (s t : SortState)
    → IsSearch s
    → visit fuel enabled path p s ≡ some t
    → Visits p.id s t
unfolding visit
visit-Visits enabled zero path p s t i e = cc
visit-Visits enabled (suc fuel) path p s t i e =
    elim (Bool-cases (has_error s.errors p.id || has_text s.permanent p.id)) [
      | inl settled ↦
          subst (Visits p.id s) (some_injective (rw (settled, visit) at e))
            (record { grows = Grows-refl s i; settled = settled })
      | inr new ↦ elim (Bool-cases (has_text s.temporary p.id)) [
        | inl cycle ↦
            subst (Visits p.id s) (some_injective (rw (new, visit, cycle) at e))
              (record { grows = Grows-set_error p.id _ s cycle i; settled = rw (===_refl p.id) })
        | inr idle ↦
            left-Visits enabled (visit fuel enabled (path ++ p.id ∷ []))
              (λ m u v w j f. visit-Visits enabled fuel (path ++ p.id ∷ []) m u v j f) p s t
              (ground arith) idle i (rw (new, visit, idle) at e)
      ]
    ]
