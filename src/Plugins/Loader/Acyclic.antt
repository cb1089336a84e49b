-- ===== src/Plugins/Loader/Acyclic.antt =====
-- topologicalSort of packages/plugin-sdk/src/loader.ts rejects no plugin without cause.
use open_tiger.Prelude.{
  ◌===◌, ===→eq, ===_refl, Bool-cases, Option-cases, some_injective, length, Within, All,
  All-Within, has_text, All-imp, All-self, ℕ, zero, suc, ◌+◌, ◌≤◌, ◌<◌, String, ◌≡◌, refl, sym, ap,
  ◌∙◌, subst, inl, inr, true, false, ◌||◌, some, List, [], ◌∷◌, ◌++◌, arith,
}
use open_tiger.Plugins.Loader.{
  Manifest, SortState, has_error, manifest_by_id, required, enter, blame, visit_required, visit,
  visit_all, unsorted, topological_sort,
}
use open_tiger.Plugins.Loader.Order.{in_order, IsSearch, IsSearch-unsorted, IsSearch-enter}
use open_tiger.Plugins.Loader.Search.{manifest_by_id-finds, visit-Visits}
use open_tiger.Plugins.Loader.Ends.{topological_sort_returns}

-- `rank` shows that no plugin requires itself through others, and that all that is required is
-- enabled.
abbrev pub Resolves : (String → ℕ) → List Manifest → Manifest → Type 0
Resolves rank enabled p =
    All (λ d. ((m : Manifest) × (manifest_by_id enabled d ≡ some m)) × (rank d < rank p.id))
      (required p.requires)

blame_none : (q d : String) (s : SortState) → s.errors ≡ [] → blame q d s ≡ s
blame_none q d s h = rw h

module _ (rank : String → ℕ) (enabled : List Manifest)
    (resolves : All (Resolves rank enabled) enabled) where
  visit_required-accepts :
      (fuel : ℕ) (path : List String)
      (deeper : (m : Manifest) (s t : SortState)
        → Within m enabled
        → IsSearch s
        → s.errors ≡ []
        → All (λ x. rank m.id < rank x) s.temporary
        → visit fuel enabled path m s ≡ some t
        → t.errors ≡ [])
      (id : String) (ds : List String) (s t : SortState)
      → has_text s.temporary id ≡ true
      → All (λ d. ((m : Manifest) × (manifest_by_id enabled d ≡ some m)) × (rank d < rank id)) ds
      → IsSearch s
      → s.errors ≡ []
      → All (λ x. rank id ≤ rank x) s.temporary
      → visit_required (visit fuel enabled path) enabled id ds s ≡ some t
      → t.errors ≡ []
  unfolding visit_required
  visit_required-accepts fuel path deeper id [] s t h r i none_yet above e =
      ap (λ x. x.errors) (sym (some_injective e)) ∙ none_yet
  visit_required-accepts fuel path deeper id (d ∷ ds) s t h r i none_yet above e =
      let ((m, is_m), lower) = r.0 in
      let (inside, same) = manifest_by_id-finds enabled d m is_m in
      elim (Option-cases (visit fuel enabled path m s)) [
        | inl stops ↦ let bad = (rw (is_m, visit_required, stops) at e) in absurd (cc)
        | inr (after, is_after) ↦
            let grows = (visit-Visits enabled fuel path m s after i is_after).grows in
            let clean =
              deeper m s after inside i none_yet
                (All-imp (λ x le. omega (arith, ap rank same, lower, le)) s.temporary above)
                is_after in
            visit_required-accepts fuel path deeper id ds after t (rw (grows.temporary) h) r.1
              grows.search clean (rw (grows.temporary) above)
              (subst (λ u. visit_required (visit fuel enabled path) enabled id ds u ≡ some t)
                (blame_none id m.id after clean) (rw (is_m, visit_required, is_after) at e))
      ]

  -- A plugin of lower rank than all that are being visited is not one of them.
  not_open :
      (id : String) (xs : List String) → All (λ x. rank id < rank x) xs → has_text xs id ≡ false
  not_open id [] h = refl
  not_open id (x ∷ xs) h = elim (Bool-cases (id === x)) [
    | inl same ↦ absurd (omega (arith, h.0, ap rank (===→eq id x same)))
    | inr other ↦ rw (other, not_open id xs h.1)
  ]

  visit_accepts :
      (fuel : ℕ) (path : List String) (p : Manifest) (s t : SortState)
      → Within p enabled
      → IsSearch s
      → s.errors ≡ []
      → All (λ x. rank p.id < rank x) s.temporary
      → visit fuel enabled path p s ≡ some t
      → t.errors ≡ []
  unfolding visit
  visit_accepts zero path p s t w i none_yet above e = cc
  visit_accepts (suc fuel) path p s t w i none_yet above e =
      elim (Bool-cases (has_error s.errors p.id || has_text s.permanent p.id)) [
        | inl settled ↦
            ap (λ x. x.errors) (sym (some_injective (rw (settled, visit) at e))) ∙ none_yet
        | inr new ↦
            let idle = not_open p.id s.temporary above in
            let deeper = path ++ p.id ∷ [] in
            elim (Option-cases (
              visit_required (visit fuel enabled deeper) enabled p.id (required p.requires)
                (enter p.id s))) [
                  | inl stops ↦ let bad = (rw (new, visit, idle, stops) at e) in absurd (cc)
                  | inr (u, loops) ↦
                      ap (λ x. x.errors) (sym (some_injective (rw (new, visit, idle, loops) at e)))
                      ∙ visit_required-accepts fuel deeper
                          (λ m v x y j c a f. visit_accepts fuel deeper m v x y j c a f) p.id
                          (required p.requires) (enter p.id s) u (rw (===_refl p.id))
                          (All-Within (Resolves rank enabled) resolves w)
                          (IsSearch-enter p.id s (ground arith) i) none_yet
                          (omega arith, All-imp (λ x lt. omega (arith, lt)) s.temporary above) loops
                ]
      ]

  visit_all_accepts :
      (fuel : ℕ) (ps : List Manifest) (s t : SortState)
      → All (λ p. Within p enabled) ps
      → IsSearch s
      → s.errors ≡ []
      → s.temporary ≡ []
      → visit_all fuel enabled ps s ≡ some t
      → t.errors ≡ []
  unfolding visit_all
  visit_all_accepts fuel [] s t w i c o e = ap (λ x. x.errors) (sym (some_injective e)) ∙ c
  visit_all_accepts fuel (p ∷ ps) s t w i c o e = elim (Option-cases (visit fuel enabled [] p s)) [
    | inl stops ↦ let bad = (rw (stops, visit_all) at e) in absurd (cc)
    | inr (u, is_u) ↦
        let first = (visit-Visits enabled fuel [] p s u i is_u).grows in
        visit_all_accepts fuel ps u t w.1 first.search
          (visit_accepts fuel [] p s u w.0 i c (subst (All (λ x. rank p.id < rank x)) (sym o) tt)
            is_u)
          (first.temporary ∙ o) (rw (is_u, visit_all) at e)
  ]

-- Plugins whose requirements are all enabled and acyclic, as a rank of the ids shows, are all
-- accepted: the sort ends without an error and each of them has its place in the order.
pub topological_sort_accepts :
    (rank : String → ℕ) (enabled : List Manifest)
    → All (Resolves rank enabled) enabled
    → (t : SortState) × (topological_sort enabled enabled ≡ some t)
      × (t.errors ≡ [])
      × All (λ p. in_order t p.id ≡ true) enabled
unfolding topological_sort
topological_sort_accepts rank enabled resolves =
    let (t, e, sorts) = topological_sort_returns enabled in
    let clean =
      visit_all_accepts rank enabled resolves (length enabled + 1) enabled unsorted t
        (All-self enabled enabled (λ m w. w)) IsSearch-unsorted refl refl e in
    (t, e, clean, All-imp (λ p h. rw clean at h) enabled sorts.complete)
