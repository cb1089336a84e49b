-- ===== src/Plugins/Loader/Members.antt =====
-- What topologicalSort of packages/plugin-sdk/src/loader.ts places comes from the enabled plugins.
use open_tiger.Prelude.{
  Bool-cases, Option-cases, if_both, some_injective, length, Within, All, All-append, has_text,
  All-self, ℕ, zero, suc, ◌+◌, String, ◌≡◌, subst, inl, inr, ◌||◌, Option, some, List, [], ◌∷◌,
  ◌++◌,
}
use open_tiger.Plugins.Loader.{
  Manifest, SortState, has_error, manifest_by_id, required, enter, blame, visit_required, visit,
  visit_all, unsorted, topological_sort,
}
use open_tiger.Plugins.Loader.Search.{manifest_by_id-finds}

-- What appending an enabled plugin keeps, a visit keeps.
module _ (Q : List Manifest → Type 0) (enabled : List Manifest)
    (append : (ms : List Manifest) (p : Manifest)
      → Within p enabled
      → Q ms
      → Q (ms ++ p ∷ [])) where
  abbrev Keeps : (Manifest → SortState → Option SortState) → Type 0
  Keeps again =
      (m : Manifest) (s t : SortState)
      → Within m enabled
      → Q s.sorted
      → again m s ≡ some t
      → Q t.sorted

  visit_required-keeps :
      (again : Manifest → SortState → Option SortState)
      → Keeps again
      → (id : String) (ds : List String) (s t : SortState) → Q s.sorted
      → visit_required again enabled id ds s ≡ some t
      → Q t.sorted
  unfolding visit_required
  visit_required-keeps again keeps id [] s t q e = subst (λ x. Q x.sorted) (some_injective e) q
  visit_required-keeps again keeps id (d ∷ ds) s t q e =
      elim (Option-cases (manifest_by_id enabled d)) [
        | inl missing ↦
            visit_required-keeps again keeps id ds _ t q (rw (missing, visit_required) at e)
        | inr (m, is_m) ↦ elim (Option-cases (again m s)) [
          | inl stops ↦ let bad = (rw (is_m, visit_required, stops) at e) in absurd (cc)
          | inr (after, is_after) ↦
              let deeper = keeps m s after (manifest_by_id-finds enabled d m is_m).0 q is_after in
              visit_required-keeps again keeps id ds (blame id m.id after) t
                (if_both (λ x. Q x.sorted) (has_error after.errors m.id) _ after (λ h. deeper)
                  (λ h. deeper))
                (rw (is_m, visit_required, is_after) at e)
        ]
      ]

  visit-Keeps : (fuel : ℕ) (path : List String) → Keeps (visit fuel enabled path)
  unfolding visit
  visit-Keeps zero path p s t w q e = cc
  visit-Keeps (suc fuel) path p s t w q e =
      elim (Bool-cases (has_error s.errors p.id || has_text s.permanent p.id)) [
        | inl settled ↦ subst (λ x. Q x.sorted) (some_injective (rw (settled, visit) at e)) q
        | inr new ↦ elim (Bool-cases (has_text s.temporary p.id)) [
          | inl cycle ↦ subst (λ x. Q x.sorted) (some_injective (rw (new, visit, cycle) at e)) q
          | inr idle ↦
              let deeper = path ++ p.id ∷ [] in
              elim (Option-cases (
                visit_required (visit fuel enabled deeper) enabled p.id (required p.requires)
                  (enter p.id s))) [
                    | inl stops ↦ let bad = (rw (new, visit, idle, stops) at e) in absurd (cc)
                    | inr (u, loops) ↦
                        let inside =
                          visit_required-keeps (visit fuel enabled deeper) (visit-Keeps fuel deeper)
                            p.id (required p.requires) (enter p.id s) u q loops in
                        subst (λ x. Q x.sorted) (some_injective (rw (new, visit, idle, loops) at e))
                          (if_both Q (has_error u.errors p.id) u.sorted (u.sorted ++ p ∷ [])
                            (λ h. inside) (λ h. append u.sorted p w inside))
                  ]
        ]
      ]

  visit_all-keeps :
      (fuel : ℕ) (ps : List Manifest) (s t : SortState)
      → All (λ p. Within p enabled) ps
      → Q s.sorted
      → visit_all fuel enabled ps s ≡ some t
      → Q t.sorted
  unfolding visit_all
  visit_all-keeps fuel [] s t w q e = subst (λ x. Q x.sorted) (some_injective e) q
  visit_all-keeps fuel (p ∷ ps) s t w q e = elim (Option-cases (visit fuel enabled [] p s)) [
    | inl stops ↦ let bad = (rw (stops, visit_all) at e) in absurd (cc)
    | inr (u, is_u) ↦
        visit_all-keeps fuel ps u t w.1 (visit-Keeps fuel [] p s u w.0 q is_u)
          (rw (is_u, visit_all) at e)
  ]

pub topological_sort-Within :
    (enabled : List Manifest) (t : SortState)
    → topological_sort enabled enabled ≡ some t
    → All (λ m. Within m enabled) t.sorted
unfolding topological_sort
topological_sort-Within enabled t e =
    visit_all-keeps (All (λ m. Within m enabled)) enabled
      (λ ms p w h. All-append (λ m. Within m enabled) ms (p ∷ []) h (w, tt)) (length enabled + 1)
      enabled unsorted t (All-self enabled enabled (λ m w. w)) tt e
