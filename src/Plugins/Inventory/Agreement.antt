-- ===== src/Plugins/Inventory/Agreement.antt =====
-- What loadPlugins of packages/plugin-sdk/src/loader.ts answers.
use open_tiger.Plugins.Loader.Members.{topological_sort-Within}
use open_tiger.Plugins.Loader.Sorted.{SortsPlugins}
use open_tiger.Plugins.Loader.Ends.{topological_sort_returns}
use open_tiger.Prelude.{
  ◌===◌, ===→eq, ===_refl, Bool-cases, Bool_ext, filterb, any, Within, here, there, All, All-Within,
  has_text, DistinctTexts, All-imp, any-append, String, ◌≡◌, refl, sym, ap, ◌∙◌, subst, inl, inr,
  Bool, true, false, not, ◌||◌, Option, some, List, [], ◌∷◌, ◌++◌, map, arith,
}
use open_tiger.Plugins.Loader.{Manifest, LoadError, SortState, has_error, topological_sort}
use open_tiger.Plugins.Loader.Order.{manifest_ids, IsOrdered, in_order}
use open_tiger.Plugins.Inventory.{
  InventoryItem, LoadResult, Scan, unknown_items, requested_ids, candidate_items, load_result,
  load_plugins,
}
use open_tiger.Plugins.Inventory.Candidates.{
  reports, Candidate, Scans, scan-Scans, unknown_not_enabled, no_error, some_error,
}

-- A candidate that is reported as enabled is in the order.
reported→placed :
    (t : SortState) (id : String) (ms : List Manifest)
    → All (λ p. (has_error t.errors p.id || in_order t p.id) ≡ true) ms
    → any (reports id) (candidate_items t.errors ms) ≡ true
    → in_order t id ≡ true
reported→placed t id [] c h = cc
reported→placed t id (m ∷ ms) c h = elim (Bool-cases (has_error t.errors m.id)) [
  | inl bad ↦
      let (e, is_e) = some_error t.errors m.id bad in reported→placed t id ms c.1 (rw is_e at h)
  | inr good ↦ elim (Bool-cases (m.id === id)) [
    | inl same ↦ subst (λ x. in_order t x ≡ true) (===→eq m.id id same) (rw good at c.0)
    | inr other ↦ reported→placed t id ms c.1 (rw (no_error t.errors m.id good, other) at h)
  ]
]

placed→reported :
    (es : List (String × LoadError)) (m : Manifest) (ms : List Manifest)
    → Within m ms
    → has_error es m.id ≡ false
    → any (reports m.id) (candidate_items es ms) ≡ true
placed→reported es m [] w good = elim w [ ]
placed→reported es m (x ∷ xs) here good = rw (no_error es x.id good, ===_refl x.id)
placed→reported es m (x ∷ xs) (there w) good =
    let rest = placed→reported es m xs w good in ground arith

in_list :
    (ms : List Manifest) (id : String)
    → has_text (manifest_ids ms) id ≡ true
    → (m : Manifest) × Within m ms × (m.id ≡ id)
in_list [] id h = cc
in_list (m ∷ ms) id h = elim (Bool-cases (id === m.id)) [
  | inl same ↦ (m, here, sym (===→eq id m.id same))
  | inr other ↦ let (x, w, e) = in_list ms id (rw other at h) in (x, there w, e)
]

ids_by_map : (ms : List Manifest) → map (λ m. m.id) ms ≡ manifest_ids ms
ids_by_map [] = refl
ids_by_map (m ∷ ms) = ap (◌∷◌ m.id) (ids_by_map ms)

all_clean :
    (es : List (String × LoadError)) (ms : List Manifest)
    → ((id : String) → has_text (manifest_ids ms) id ≡ true → has_error es id ≡ false)
    → filterb (λ m. not (has_error es m.id)) ms ≡ ms
all_clean es [] h = refl
all_clean es (m ∷ ms) h =
    rw (h m.id (rw (===_refl m.id)))
      (ap (◌∷◌ m) (all_clean es ms (λ id w. h id (ground (arith, w)))))

-- What is promised of the result of loading.
pub record LoadsPlugins (supported : String) (requested : Option (List String)) (r : LoadResult)
    : Type 0 where
  pub ordered : IsOrdered [] r.enabled_plugins
  pub distinct : DistinctTexts r.enabled_plugin_ids
  pub chosen : All (Candidate supported requested) r.enabled_plugins
  pub agrees : (id : String) → any (reports id) r.inventory ≡ has_text r.enabled_plugin_ids id

abbrev found : Scan → Option (List String) → String → SortState → List InventoryItem
found s requested supported t =
    s.inventory
    ++ unknown_items supported s.all_ids (requested_ids requested)
    ++ candidate_items t.errors s.candidates

found-agrees :
    (supported : String) (requested : Option (List String)) (s : Scan) (t : SortState)
    → Scans supported requested s
    → SortsPlugins s.candidates t
    → All (λ m. Within m s.candidates) t.sorted
    → (id : String) → any (reports id) (found s requested supported t) ≡ in_order t id
found-agrees supported requested s t h sorts inside id =
    let unknown = unknown_items supported s.all_ids (requested_ids requested) in
    let settled = candidate_items t.errors s.candidates in
    rw
      (
        any-append (reports id) (s.inventory ++ unknown) settled,
        any-append (reports id) s.inventory unknown,
        h.none_enabled id,
        unknown_not_enabled supported s.all_ids (requested_ids requested) id,
      )
      (Bool_ext _ (in_order t id)
        (λ reported. reported→placed t id s.candidates sorts.complete reported)
        (λ placed.
          let (m, w, same) = in_list t.sorted id placed in
          subst (λ x. any (reports x) (candidate_items t.errors s.candidates) ≡ true) same
            (placed→reported t.errors m s.candidates
              (All-Within (λ y. Within y s.candidates) inside w)
              (sorts.clean m.id (subst (λ x. in_order t x ≡ true) (sym same) placed)))))

module _ (sort_by_id : List InventoryItem → List InventoryItem)
    (permutes : (p : InventoryItem → Bool) (xs : List InventoryItem)
      → any p (sort_by_id xs) ≡ any p xs)
    (supported : String) (requested : Option (List String)) where
  load_result-LoadsPlugins :
      (s : Scan)
      → Scans supported requested s
      → (r : LoadResult) × (load_result sort_by_id
            (unknown_items supported s.all_ids (requested_ids requested))
            s
            (topological_sort s.candidates s.candidates)
          ≡ some r)
        × LoadsPlugins supported requested r
  load_result-LoadsPlugins s h =
      let (t, e, sorts) = topological_sort_returns s.candidates in
      let inside = topological_sort-Within s.candidates t e in
      let whole = all_clean t.errors t.sorted sorts.clean in
      (
        record {
          inventory = sort_by_id (found s requested supported t);
          enabled_plugins = t.sorted;
          enabled_plugin_ids = manifest_ids t.sorted;
        },
        rw (e, whole, ids_by_map t.sorted) refl,
        record {
          ordered = sorts.ordered;
          distinct = sorts.distinct;
          chosen =
              All-imp (λ m w. All-Within (Candidate supported requested) h.candidates w) t.sorted
                inside;
          agrees = λ id.
              permutes (reports id) _ ∙ found-agrees supported requested s t h sorts inside id;
        },
      )

  -- Loading always has a result. Each plugin in it is enabled once, was requested where a filter is
  -- given, has the supported version, and stands after all the plugins that it requires; and the
  -- inventory reports a plugin as enabled exactly if it is among the enabled ids. The sort of the
  -- inventory is assumed to keep its items.
  pub load_plugins-LoadsPlugins :
      (manifests : List Manifest)
      → (r : LoadResult) × (load_plugins sort_by_id supported requested manifests ≡ some r)
        × LoadsPlugins supported requested r
  unfolding load_plugins
  load_plugins-LoadsPlugins manifests = load_result-LoadsPlugins _ (
      scan-Scans supported requested manifests _
        (record { candidates = tt; none_enabled = λ id. refl }))
