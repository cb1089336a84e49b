-- ===== src/Plugins/Inventory.antt =====
-- packages/plugin-sdk/src/loader.ts, `loadPlugins`: which manifests are candidates, the order in
-- which the plugins are enabled, and the inventory that says what became of each. The final sort
-- of the inventory by `localeCompare` is a parameter.
pub mod Candidates
pub mod Agreement
use open_tiger.Prelude.{
  ◌===◌, if◌then◌else◌, filterb, has_text, String, Bool, true, not, Option, none, some, List, [],
  ◌∷◌, ◌++◌, map,
}
use open_tiger.Plugins.Loader.{
  Manifest, get_manifest_capabilities, LoadError, SortState, get_error, has_error, topological_sort,
}

pub data PluginStatus : Type 0 where
  enabled disabled incompatible error : PluginStatus

-- The reasons of inventory items, before they are rendered as text.
pub data Reason : Type 0 where
  duplicate_id : String → Reason
  version_mismatch : String → String → Reason
  not_registered : String → Reason
  dependency_error : LoadError → Reason

pub record InventoryItem : Type 0 where
  pub id : String
  pub name : String
  pub description : String
  pub version : String
  pub plugin_api_version : String
  pub status : PluginStatus
  pub capabilities : List String
  pub reason : Option Reason

pub record LoadResult : Type 0 where
  pub inventory : List InventoryItem
  pub enabled_plugins : List Manifest
  pub enabled_plugin_ids : List String

-- `checkPluginCompatibility`: none if compatible.
abbrev pub check_plugin_compatibility : Manifest → String → Option Reason
check_plugin_compatibility m supported =
    if m.plugin_api_version === supported
    then none
    else some (version_mismatch m.plugin_api_version supported)

abbrev pub item : PluginStatus → Option Reason → Manifest → InventoryItem
item status reason m = record {
  id = m.id;
  name = m.name;
  description = m.description;
  version = m.version;
  plugin_api_version = m.plugin_api_version;
  status = status;
  capabilities = get_manifest_capabilities m;
  reason = reason;
}

abbrev pub is_requested : Option (List String) → String → Bool
is_requested none id = true
is_requested (some ids) id = has_text ids id

pub record Scan : Type 0 where
  pub inventory : List InventoryItem
  pub candidates : List Manifest
  pub all_ids : List String

abbrev pub listed : InventoryItem → Scan → Scan
listed i s = record s { inventory = s.inventory ++ i ∷ [] }

abbrev pub judged_compatible : Manifest → Option Reason → Scan → Scan
judged_compatible m none s = record s { candidates = s.candidates ++ m ∷ [] }
judged_compatible m (some why) s = listed (item incompatible (some why) m) s

-- One round of the loop over the manifests.
abbrev pub scan_manifest : String → Option (List String) → Manifest → Scan → Scan
scan_manifest supported requested m s =
    let known = record s { all_ids = m.id ∷ s.all_ids } in
    if has_text s.all_ids m.id
    then listed (item error (some (duplicate_id m.id)) m) s
    else if is_requested requested m.id
    then judged_compatible m (check_plugin_compatibility m supported) known
    else listed (item disabled none m) known

unfoldable pub scan : String → Option (List String) → List Manifest → Scan → Scan
scan supported requested [] s = s
scan supported requested (m ∷ ms) s =
    scan supported requested ms (scan_manifest supported requested m s)

abbrev pub unknown_item : String → String → InventoryItem
unknown_item supported id = record {
  id = id;
  name = id;
  description = "Unknown plugin id";
  version = "unknown";
  plugin_api_version = supported;
  status = error;
  capabilities = [];
  reason = some (not_registered id);
}

-- The requested ids that no manifest has.
abbrev pub unknown_items : String → List String → List String → List InventoryItem
unknown_items supported all_ids [] = []
unknown_items supported all_ids (id ∷ ids) =
    let rest = unknown_items supported all_ids ids in
    if has_text all_ids id then rest else unknown_item supported id ∷ rest

abbrev pub requested_ids : Option (List String) → List String
requested_ids none = []
requested_ids (some ids) = ids

abbrev pub settled_item : Option LoadError → Manifest → InventoryItem
settled_item none m = item enabled none m
settled_item (some e) m = item error (some (dependency_error e)) m

abbrev pub candidate_items : List (String × LoadError) → List Manifest → List InventoryItem
candidate_items errors [] = []
candidate_items errors (m ∷ ms) = settled_item (get_error m.id errors) m ∷ candidate_items errors ms

abbrev pub load_result :
    (List InventoryItem → List InventoryItem)
    → List InventoryItem
    → Scan
    → Option SortState
    → Option LoadResult
load_result sort_by_id unknown s none = none
load_result sort_by_id unknown s (some t) =
    let plugins = filterb (λ m. not (has_error t.errors m.id)) t.sorted in
    some (record {
      inventory = sort_by_id (s.inventory ++ unknown ++ candidate_items t.errors s.candidates);
      enabled_plugins = plugins;
      enabled_plugin_ids = map (λ m. m.id) plugins;
    })

-- No result would mean that the sort of the candidates runs out of fuel.
pub load_plugins :
    (List InventoryItem → List InventoryItem)
    → String
    → Option (List String)
    → List Manifest
    → Option LoadResult
unfolding scan topological_sort
load_plugins sort_by_id supported requested manifests =
    let s =
      scan supported requested manifests
        (record { inventory = []; candidates = []; all_ids = [] }) in
    load_result sort_by_id (unknown_items supported s.all_ids (requested_ids requested)) s
      (topological_sort s.candidates s.candidates)
