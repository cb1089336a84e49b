-- ===== src/Plugins/Inventory/Candidates.antt =====
-- The loop of loadPlugins (packages/plugin-sdk/src/loader.ts) over the manifests: its candidates, and
-- what it puts in the inventory.
use open_tiger.Prelude.{
  ◌===◌, ===→eq, Bool-cases, if_both, any, All, All-append, has_text, any-append, String, ◌≡◌, refl,
  inl, inr, Bool, true, false, ◌&&◌, Option, none, some, List, [], ◌∷◌,
}
use open_tiger.Plugins.Loader.{Manifest, LoadError, get_error, has_error}
use open_tiger.Plugins.Inventory.{
  PluginStatus, enabled, InventoryItem, is_requested, Scan, listed, scan_manifest, scan,
  unknown_items,
}

abbrev pub is_enabled : PluginStatus → Bool
is_enabled enabled = true
is_enabled _ = false

-- An inventory item that reports the plugin as enabled.
abbrev pub reports : String → InventoryItem → Bool
reports id i = is_enabled i.status && (i.id === id)

-- What makes a manifest a candidate.
abbrev pub Candidate : String → Option (List String) → Manifest → Type 0
Candidate supported requested m =
    (is_requested requested m.id ≡ true) × (m.plugin_api_version ≡ supported)

pub record Scans (supported : String) (requested : Option (List String)) (s : Scan) : Type 0 where
  pub candidates : All (Candidate supported requested) s.candidates
  pub none_enabled : (id : String) → any (reports id) s.inventory ≡ false

listed-Scans :
    (supported : String) (requested : Option (List String)) (i : InventoryItem) (s : Scan)
    → is_enabled i.status ≡ false
    → Scans supported requested s
    → Scans supported requested (listed i s)
listed-Scans supported requested i s off h = record {
  candidates = h.candidates;
  none_enabled = λ id. rw (any-append (reports id) s.inventory (i ∷ []), h.none_enabled id, off);
}

scan_manifest-Scans :
    (supported : String) (requested : Option (List String)) (m : Manifest) (s : Scan)
    → Scans supported requested s
    → Scans supported requested (scan_manifest supported requested m s)
scan_manifest-Scans supported requested m s h =
    let known : Scans supported requested (record s { all_ids = m.id ∷ s.all_ids }) = record {
      candidates = h.candidates;
      none_enabled = h.none_enabled;
    } in
    if_both (Scans supported requested) (has_text s.all_ids m.id) _ _
      (λ repeated. listed-Scans supported requested _ s refl h)
      (λ fresh.
        if_both (Scans supported requested) (is_requested requested m.id) _ _
          (λ wanted. elim (Bool-cases (m.plugin_api_version === supported)) [
            | inl fits ↦ rw fits (record {
              candidates =
                  All-append (Candidate supported requested) s.candidates (m ∷ []) h.candidates
                    ((wanted, ===→eq m.plugin_api_version supported fits), tt);
              none_enabled = h.none_enabled;
            })
            | inr other ↦ rw other (listed-Scans supported requested _ _ refl known)
          ])
          (λ unwanted. listed-Scans supported requested _ _ refl known))

pub scan-Scans :
    (supported : String) (requested : Option (List String)) (ms : List Manifest) (s : Scan)
    → Scans supported requested s
    → Scans supported requested (scan supported requested ms s)
unfolding scan
scan-Scans supported requested [] s h = h
scan-Scans supported requested (m ∷ ms) s h =
    scan-Scans supported requested ms _ (scan_manifest-Scans supported requested m s h)

pub unknown_not_enabled :
    (supported : String) (all_ids ids : List String) (id : String)
    → any (reports id) (unknown_items supported all_ids ids) ≡ false
unknown_not_enabled supported all_ids [] id = refl
unknown_not_enabled supported all_ids (x ∷ xs) id = elim (Bool-cases (has_text all_ids x)) [
  | inl known ↦ rw known (unknown_not_enabled supported all_ids xs id)
  | inr unknown ↦ rw unknown (unknown_not_enabled supported all_ids xs id)
]

pub no_error :
    (es : List (String × LoadError)) (id : String)
    → has_error es id ≡ false
    → get_error id es ≡ none
no_error [] id h = refl
no_error (e ∷ es) id h = elim (Bool-cases (e.0 === id)) [
  | inl same ↦ let bad = (rw same at h) in absurd (cc)
  | inr other ↦ rw other (no_error es id (rw other at h))
]

pub some_error :
    (es : List (String × LoadError)) (id : String)
    → has_error es id ≡ true
    → (e : LoadError) × (get_error id es ≡ some e)
some_error [] id h = cc
some_error (e ∷ es) id h = elim (Bool-cases (e.0 === id)) [
  | inl same ↦ (e.1, rw same)
  | inr other ↦ let (x, q) = some_error es id (rw other at h) in (x, rw other q)
]
