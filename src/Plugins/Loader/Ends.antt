-- ===== src/Plugins/Loader/Ends.antt =====
-- topologicalSort of packages/plugin-sdk/src/loader.ts ends.
use open_tiger.Plugins.Loader.Sorted.{SortsPlugins, topological_sort-SortsPlugins}
use open_tiger.Prelude.{
  ===_refl, Bool-cases, Option-cases, length, count_if, count_if-le-length, Within, here, there,
  All, has_text, All-self, ℕ, zero, suc, ◌+◌, ◌≤◌, ◌<◌, String, ◌≡◌, refl, ◌∙◌, inl, inr, true,
  false, not, ◌||◌, Option, some, List, [], ◌∷◌, ◌++◌, arith,
}
use open_tiger.Plugins.Loader.{
  Manifest, dependency_cycle, missing_dependency, SortState, has_error, set_error, manifest_by_id,
  required, enter, leave, blame, visit_required, visit, visit_all, unsorted, topological_sort,
}
use open_tiger.Plugins.Loader.Order.{IsSearch, IsSearch-unsorted, IsSearch-enter}
use open_tiger.Plugins.Loader.Search.{
  Grows-set_error, Grows-blame, Visits, manifest_by_id-finds, visit-Visits,
}

-- The enabled plugins that are not being visited: a visit can go so much deeper.
abbrev room : List Manifest → List String → ℕ
room enabled temporary = count_if (λ m. not (has_text temporary m.id)) enabled

room_le :
    (enabled : List Manifest) (id : String) (xs : List String)
    → room enabled (id ∷ xs) ≤ room enabled xs
room_le [] id xs = omega arith
room_le (m ∷ ms) id xs = ground (arith, room_le ms id xs)

room_lt :
    (enabled : List Manifest) (p : Manifest) (xs : List String)
    → Within p enabled
    → has_text xs p.id ≡ false
    → room enabled (p.id ∷ xs) < room enabled xs
room_lt [] p xs w h = elim w [ ]
room_lt (m ∷ ms) p xs here h = rw (===_refl m.id, h) (omega (arith, room_le ms m.id xs))
room_lt (m ∷ ms) p xs (there w) h = ground (arith, room_lt ms p xs w h)

module _ (enabled : List Manifest) (fuel : ℕ) (again : Manifest → SortState → Option SortState)
    (sound : (m : Manifest) (s t : SortState)
      → Within m enabled
      → IsSearch s
      → again m s ≡ some t
      → Visits m.id s t)
    (returns : (m : Manifest) (s : SortState)
      → Within m enabled
      → IsSearch s
      → room enabled s.temporary < fuel
      → (t : SortState) × (again m s ≡ some t)) where
  visit_required_returns :
      (id : String) (ds : List String) (s : SortState)
      → has_text s.temporary id ≡ true
      → IsSearch s
      → room enabled s.temporary < fuel
      → (t : SortState) × (visit_required again enabled id ds s ≡ some t)
  unfolding visit_required
  visit_required_returns id [] s h i f = (s, refl)
  visit_required_returns id (d ∷ ds) s h i f = elim (Option-cases (manifest_by_id enabled d)) [
    | inl missing ↦
        let step = Grows-set_error id (missing_dependency d) s h i in
        let (t, e) =
          visit_required_returns id ds (set_error id (missing_dependency d) s) h step.search f in
        (t, rw (missing, visit_required) e)
    | inr (m, is_m) ↦
        let inside = (manifest_by_id-finds enabled d m is_m).0 in
        let (after, is_after) = returns m s inside i f in
        let deeper = (sound m s after inside i is_after).grows in
        let step = Grows-blame id m.id after (rw (deeper.temporary) h) deeper.search in
        let same = step.temporary ∙ deeper.temporary in
        let (t, e) =
          visit_required_returns id ds (blame id m.id after) (rw same h) step.search (rw same f) in
        (t, rw (is_m, visit_required, is_after) e)
  ]

pub visit_returns :
    (enabled : List Manifest) (fuel : ℕ) (path : List String) (p : Manifest) (s : SortState)
    → Within p enabled
    → IsSearch s
    → room enabled s.temporary < fuel
    → (t : SortState) × (visit fuel enabled path p s ≡ some t)
unfolding visit
visit_returns enabled zero path p s w i f = absurd (omega arith)
visit_returns enabled (suc fuel) path p s w i f =
    elim (Bool-cases (has_error s.errors p.id || has_text s.permanent p.id)) [
      | inl settled ↦ (s, rw (settled, visit))
      | inr new ↦ elim (Bool-cases (has_text s.temporary p.id)) [
        | inl cycle ↦
            (set_error p.id (dependency_cycle (path ++ p.id ∷ [])) s, rw (new, visit, cycle))
        | inr idle ↦
            let deeper = path ++ p.id ∷ [] in
            let (t, e) =
              visit_required_returns enabled fuel (visit fuel enabled deeper)
                (λ m u v x j g. visit-Visits enabled fuel deeper m u v j g)
                (λ m u x j g. visit_returns enabled fuel deeper m u x j g) p.id
                (required p.requires) (enter p.id s) (rw (===_refl p.id))
                (IsSearch-enter p.id s (ground arith) i)
                (omega (arith, room_lt enabled p s.temporary w idle, f)) in
            (leave p t, rw (new, visit, idle, e))
      ]
    ]

visit_all_returns :
    (enabled ps : List Manifest) (s : SortState)
    → All (λ p. Within p enabled) ps
    → IsSearch s
    → s.temporary ≡ []
    → (t : SortState) × (visit_all (length enabled + 1) enabled ps s ≡ some t)
unfolding visit_all
visit_all_returns enabled [] s w i e = (s, refl)
visit_all_returns enabled (p ∷ ps) s w i e =
    let fuel = length enabled + 1 in
    let enough : room enabled s.temporary < fuel =
      omega (arith, count_if-le-length (λ m. not (has_text s.temporary m.id)) enabled) in
    let (u, is_u) = visit_returns enabled fuel [] p s w.0 i enough in
    let first = (visit-Visits enabled fuel [] p s u i is_u).grows in
    let (t, rest) = visit_all_returns enabled ps u w.1 first.search (first.temporary ∙ e) in
    (t, rw (is_u, visit_all) rest)

-- The sort ends: with the fuel that it is given it has an answer, and it is an order of the enabled
-- plugins as `SortsPlugins` says.
pub topological_sort_returns :
    (enabled : List Manifest)
    → (t : SortState) × (topological_sort enabled enabled ≡ some t) × SortsPlugins enabled t
unfolding topological_sort
topological_sort_returns enabled =
    let (t, e) =
      visit_all_returns enabled enabled unsorted (All-self enabled enabled (λ m w. w))
        IsSearch-unsorted refl in
    (t, e, topological_sort-SortsPlugins enabled enabled t e)
