-- ===== src/Plugins/Tests.antt =====
-- A queue that requires a database, and a dashboard that requires both.
use open_tiger.Prelude.{
  ◌===◌, if◌then◌else◌, All, ℕ, String, ◌≡◌, refl, true, false, Option, none, some, List, [], ◌∷◌,
  map, arith,
}
use open_tiger.Plugins.Loader.{
  Manifest, SortState, visit_required, visit, visit_all, topological_sort,
}
use open_tiger.Plugins.Loader.Order.{in_order}
use open_tiger.Plugins.Loader.Acyclic.{topological_sort_accepts}
use open_tiger.Plugins.Inventory.{LoadResult, load_plugins}
use open_tiger.Plugins.Inventory.Agreement.{LoadsPlugins, load_plugins-LoadsPlugins}

abbrev plugin : String → Option (List String) → Manifest
plugin id requires = record {
  id = id;
  name = id;
  description = "";
  version = "1.0.0";
  plugin_api_version = "1";
  requires = requires;
  api = true;
  planner = false;
  dispatcher = false;
  worker = false;
  judge = false;
  cycle_manager = false;
  dashboard = true;
  db = false;
}

abbrev store_plugin : Manifest
store_plugin = plugin "store" none

abbrev queue_plugin : Manifest
queue_plugin = plugin "queue" (some ("store" ∷ []))

abbrev panel_plugin : Manifest
panel_plugin = plugin "panel" (some ("queue" ∷ "store" ∷ []))

abbrev three_plugins : List Manifest
three_plugins = panel_plugin ∷ queue_plugin ∷ store_plugin ∷ []

abbrev depth : String → ℕ
depth id = if id === "store" then 0 else if id === "queue" then 1 else 2

abbrev placed : Option SortState → List Manifest
placed none = []
placed (some t) = t.sorted

abbrev blamed : Option SortState → List String
blamed none = []
blamed (some t) = map (λ e. e.0) t.errors

requirements_first :
    placed (topological_sort three_plugins three_plugins)
    ≡ (store_plugin ∷ queue_plugin ∷ panel_plugin ∷ [])
unfolding topological_sort visit_all visit visit_required
requirements_first = refl

-- Two plugins that require each other are both refused.
cycle_refused :
    blamed (
      topological_sort
        (plugin "a" (some ("b" ∷ [])) ∷ plugin "b" (some ("a" ∷ [])) ∷ [])
        (plugin "a" (some ("b" ∷ [])) ∷ plugin "b" (some ("a" ∷ [])) ∷ []))
    ≡ "a" ∷ "b" ∷ "a" ∷ []
unfolding topological_sort visit_all visit visit_required
cycle_refused = refl

topological_sort_accepts_example :
    (t : SortState) × (topological_sort three_plugins three_plugins ≡ some t)
    × (t.errors ≡ [])
    × All (λ p. in_order t p.id ≡ true) three_plugins
topological_sort_accepts_example = topological_sort_accepts depth three_plugins (
  (((queue_plugin, refl), omega arith), (((store_plugin, refl), omega arith), tt)),
  ((((store_plugin, refl), omega arith), tt), (tt, tt)),
)

load_plugins-LoadsPlugins_example :
    (r : LoadResult) × (load_plugins (λ xs. xs) "1" (some ("queue" ∷ "store" ∷ [])) three_plugins
      ≡ some r)
    × LoadsPlugins "1" (some ("queue" ∷ "store" ∷ [])) r
load_plugins-LoadsPlugins_example =
    load_plugins-LoadsPlugins (λ xs. xs) (λ p xs. refl) "1" (some ("queue" ∷ "store" ∷ []))
      three_plugins
