-- ===== src/Plugins/Loader/Sorted.antt =====
-- What topologicalSort of packages/plugin-sdk/src/loader.ts answers.
use open_tiger.Prelude.{
  Bool-cases, Option-cases, some_injective, length, All, has_text, DistinctTexts, ℕ, ◌+◌, String,
  ◌≡◌, subst, inl, inr, true, false, ◌||◌, some, List, [], ◌∷◌, arith,
}
use open_tiger.Plugins.Loader.{
  Manifest, SortState, has_error, visit, visit_all, unsorted, topological_sort,
}
use open_tiger.Plugins.Loader.Order.{manifest_ids, IsOrdered, in_order, IsSearch, IsSearch-unsorted}
use open_tiger.Plugins.Loader.Search.{Grows, Grows-refl, Grows-trans, visit-Visits}

-- What a sort of the enabled plugins answers for the plugins `ms` it is asked to place.
pub record SortsPlugins (ms : List Manifest) (t : SortState) : Type 0 where
  pub ordered : IsOrdered [] t.sorted
  pub distinct : DistinctTexts (manifest_ids t.sorted)
  pub clean : (id : String) → in_order t id ≡ true → has_error t.errors id ≡ false
  pub complete : All (λ p. (has_error t.errors p.id || in_order t p.id) ≡ true) ms

settled_later :
    (id : String) (u t : SortState)
    → IsSearch u
    → (has_error u.errors id || has_text u.permanent id) ≡ true
    → Grows u t
    → (has_error t.errors id || in_order t id) ≡ true
settled_later id u t i h g = elim (Bool-cases (has_error u.errors id)) [
  | inl bad ↦ rw (g.errors id bad)
  | inr good ↦ let found = g.sorted id (i.placed id (rw good at h) good) in ground arith
]

pub visit_all-Grows :
    (enabled : List Manifest) (fuel : ℕ) (ps : List Manifest) (s t : SortState)
    → IsSearch s
    → visit_all fuel enabled ps s ≡ some t
    → Grows s t × All (λ p. (has_error t.errors p.id || in_order t p.id) ≡ true) ps
unfolding visit_all
visit_all-Grows enabled fuel [] s t i e = (subst (Grows s) (some_injective e) (Grows-refl s i), tt)
visit_all-Grows enabled fuel (p ∷ ps) s t i e = elim (Option-cases (visit fuel enabled [] p s)) [
  | inl stops ↦ let bad = (rw (stops, visit_all) at e) in absurd (cc)
  | inr (u, is_u) ↦
      let first = visit-Visits enabled fuel [] p s u i is_u in
      let rest =
        visit_all-Grows enabled fuel ps u t first.grows.search (rw (is_u, visit_all) at e) in
      (
        Grows-trans s u t first.grows rest.0,
        (settled_later p.id u t first.grows.search first.settled rest.0, rest.1),
      )
]

-- In what the loader enables, each plugin stands once, has no error, and stands after every plugin
-- that it requires; and each plugin that is a candidate is in that order or has an error.
pub topological_sort-SortsPlugins :
    (ms enabled : List Manifest) (t : SortState)
    → topological_sort ms enabled ≡ some t
    → SortsPlugins ms t
unfolding topological_sort
topological_sort-SortsPlugins ms enabled t e =
    let (grows, complete) =
      visit_all-Grows enabled (length enabled + 1) ms unsorted t IsSearch-unsorted e in
    record {
      ordered = grows.search.ordered;
      distinct = grows.search.distinct;
      clean = grows.search.clean;
      complete = complete;
    }
