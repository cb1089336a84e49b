-- ===== src/Plugins/Loader.antt =====
-- packages/plugin-sdk/src/loader.ts, with manifest.ts and compat.ts. A Map is a list of entries
-- of which the first counts, a Set a list without repetition. The filter of requested ids is
-- taken after `parseEnabledPlugins` has read it.
pub mod Order
pub mod Search
pub mod Sorted
pub mod Ends
pub mod Acyclic
pub mod Members
use open_tiger.Store.{delete_where}
use open_tiger.Prelude.{
  ◌===◌, if◌then◌else◌, length, any, find_first, has_text, ℕ, zero, suc, ◌+◌, String, Bool, true,
  false, ◌||◌, Option, none, some, List, [], ◌∷◌, ◌++◌,
}

-- Of each hook the loader reads only whether the manifest has it.
pub record Manifest : Type 0 where
  pub id : String
  pub name : String
  pub description : String
  pub version : String
  pub plugin_api_version : String
  pub requires : Option (List String)
  pub api : Bool
  pub planner : Bool
  pub dispatcher : Bool
  pub worker : Bool
  pub judge : Bool
  pub cycle_manager : Bool
  pub dashboard : Bool
  pub db : Bool

abbrev pub when : Bool → String → List String → List String
when true name rest = name ∷ rest
when false name rest = rest

pub get_manifest_capabilities : Manifest → List String
get_manifest_capabilities m = when m.api "api" (
    when m.planner "planner" (
      when m.dispatcher "dispatcher" (
        when m.worker "worker" (
          when m.judge "judge" (
            when m.cycle_manager "cycleManager"
              (when m.dashboard "dashboard" (when m.db "db" [])))))))

-- The messages of the loader, before they are rendered as text.
pub data LoadError : Type 0 where
  dependency_cycle : List String → LoadError
  missing_dependency : String → LoadError
  invalid_dependency : String → LoadError

pub record SortState : Type 0 where
  pub sorted : List Manifest
  pub errors : List (String × LoadError)
  pub permanent : List String
  pub temporary : List String

abbrev pub get_error : String → List (String × LoadError) → Option LoadError
get_error id [] = none
get_error id (e ∷ es) = if e.0 === id then some e.1 else get_error id es

-- `errors.has(id)`
abbrev pub has_error : List (String × LoadError) → String → Bool
has_error es id = any (λ e. e.0 === id) es

-- `errors.set(id, error)`
abbrev pub set_error : String → LoadError → SortState → SortState
set_error id e s = record s { errors = (id, e) ∷ s.errors }

abbrev pub manifest_by_id : List Manifest → String → Option Manifest
manifest_by_id ms id = find_first (λ m. m.id === id) ms

abbrev pub required : Option (List String) → List String
required none = []
required (some ids) = ids

abbrev pub enter : String → SortState → SortState
enter id s = record s { temporary = id ∷ s.temporary }

-- What `visit` does after its loop.
abbrev pub leave : Manifest → SortState → SortState
leave p s = record s {
  temporary = delete_where (λ t. t === p.id) s.temporary;
  permanent = p.id ∷ s.permanent;
  sorted = if has_error s.errors p.id then s.sorted else s.sorted ++ p ∷ [];
}

abbrev pub blame : String → String → SortState → SortState
blame id dependency s =
    if has_error s.errors dependency then set_error id (invalid_dependency dependency) s else s

-- The loop of `visit` over the required ids; `again` visits a dependency, and has no answer when
-- it runs out of fuel.
unfoldable pub visit_required :
    (Manifest → SortState → Option SortState)
    → List Manifest
    → String
    → List String
    → SortState
    → Option SortState
visit_required again enabled id [] s = some s
visit_required again enabled id (d ∷ ds) s = elim (manifest_by_id enabled d) [
  | none ↦ visit_required again enabled id ds (set_error id (missing_dependency d) s)
  | some m ↦ elim (again m s) [
    | none ↦ none
    | some after ↦ visit_required again enabled id ds (blame id m.id after)
  ]
]

abbrev pub left : Manifest → Option SortState → Option SortState
left p none = none
left p (some s) = some (leave p s)

unfoldable pub visit : ℕ → List Manifest → List String → Manifest → SortState → Option SortState
visit zero enabled path p s = none
visit (suc fuel) enabled path p s =
    let again = visit fuel enabled (path ++ p.id ∷ []) in
    if has_error s.errors p.id || has_text s.permanent p.id
    then some s
    else if has_text s.temporary p.id
    then some (set_error p.id (dependency_cycle (path ++ p.id ∷ [])) s)
    else left p (visit_required again enabled p.id (required p.requires) (enter p.id s))

unfoldable pub visit_all : ℕ → List Manifest → List Manifest → SortState → Option SortState
visit_all fuel enabled [] s = some s
visit_all fuel enabled (p ∷ ps) s = elim (visit fuel enabled [] p s) [
  | none ↦ none
  | some after ↦ visit_all fuel enabled ps after
]

abbrev pub unsorted : SortState
unsorted = record { sorted = []; errors = []; permanent = []; temporary = [] }

-- A visit goes at most as deep as there are plugins, and once more to see a cycle.
unfoldable pub topological_sort : List Manifest → List Manifest → Option SortState
topological_sort manifests enabled = visit_all (length enabled + 1) enabled manifests unsorted
