-- ===== src/Dispatcher/Cycles.antt =====
-- apps/dispatcher/src/scheduler/priority.ts: the graph of task dependencies and detectCycles. A Map
-- is a list of rows of which the first counts, a Set a list that is searched.
pub mod Search
pub mod Rounds
pub mod Ends
pub mod Acyclic
mod Tests
use open_tiger.Store.{Db, delete_where}
use open_tiger.Prelude.{
  ◌==◌, if◌then◌else◌, length, is_empty, has_id, ℕ, zero, suc, ◌+◌, Bool, true, false, Option, none,
  some, List, [], ◌∷◌, ◌++◌, map,
}

abbrev pub Graph : Type 0
Graph = List (ℕ × List ℕ)

-- `new Set(dependencies)`, in the order of insertion, after the ids `seen`.
abbrev pub to_set : List ℕ → List ℕ → List ℕ
to_set seen [] = []
to_set seen (x ∷ xs) = let rest = to_set (x ∷ seen) xs in if has_id seen x then rest else x ∷ rest

pub build_dependency_graph : Db → Graph
build_dependency_graph db = map (λ t. (t.id, to_set [] t.dependencies)) db.tasks

-- `graph.get(node) ?? new Set()`
abbrev pub deps_of : Graph → ℕ → List ℕ
deps_of [] node = []
deps_of (row ∷ rows) node = if row.0 == node then row.1 else deps_of rows node

pub record CycleSearch : Type 0 where
  pub cycles : List (List ℕ)
  pub visited : List ℕ
  pub recursion_stack : List ℕ
  pub path : List ℕ

abbrev pub drop_until : ℕ → List ℕ → List ℕ
drop_until x [] = []
drop_until x (y ∷ ys) = if y == x then y ∷ ys else drop_until x ys

abbrev pub last_only : List ℕ → List ℕ
last_only [] = []
last_only (x ∷ xs) = if is_empty xs then x ∷ [] else last_only xs

-- `path.slice(path.indexOf(node))`; the index of what is not there is -1.
abbrev pub slice_from : ℕ → List ℕ → List ℕ
slice_from x path = if has_id path x then drop_until x path else last_only path

-- `path.pop()`
abbrev pub drop_last : List ℕ → List ℕ
drop_last [] = []
drop_last (x ∷ xs) = if is_empty xs then [] else x ∷ drop_last xs

abbrev pub open_node : ℕ → CycleSearch → CycleSearch
open_node node s = record s {
  visited = node ∷ s.visited;
  recursion_stack = node ∷ s.recursion_stack;
  path = s.path ++ node ∷ [];
}

abbrev pub close_node : ℕ → CycleSearch → CycleSearch
close_node node s = record s {
  recursion_stack = delete_where (λ n. n == node) s.recursion_stack;
  path = drop_last s.path;
}

abbrev pub report_cycle : ℕ → CycleSearch → CycleSearch
report_cycle dep s = record s { cycles = s.cycles ++ slice_from dep s.path ∷ [] }

abbrev pub Answer : Type 0
Answer = Option (Bool × CycleSearch)

-- What follows the search of one dependency: on a cycle the search returns at once.
abbrev pub unless_found : (CycleSearch → Answer) → Answer → Answer
unless_found next none = none
unless_found next (some (true, s)) = some (true, s)
unless_found next (some (false, s)) = next s

-- The loop of `dfs` over the dependencies; `again` searches one of them.
unfoldable pub search_deps : (ℕ → CycleSearch → Answer) → List ℕ → CycleSearch → Answer
search_deps again [] s = some (false, s)
search_deps again (d ∷ ds) s =
    let rest = search_deps again ds in
    if has_id s.visited d
    then (if has_id s.recursion_stack d then some (true, report_cycle d s) else rest s)
    else unless_found rest (again d s)

unfoldable pub dfs : ℕ → Graph → ℕ → CycleSearch → Answer
dfs zero graph node s = none
dfs (suc fuel) graph node s =
    unless_found (λ t. some (false, close_node node t))
      (search_deps (dfs fuel graph) (deps_of graph node) (open_node node s))

abbrev pub after_root : (CycleSearch → Option CycleSearch) → Answer → Option CycleSearch
after_root next none = none
after_root next (some r) = next r.1

-- The loop over `graph.keys()`.
unfoldable pub search_roots : ℕ → Graph → List ℕ → CycleSearch → Option CycleSearch
search_roots fuel graph [] s = some s
search_roots fuel graph (n ∷ ns) s =
    let next = search_roots fuel graph ns in
    if has_id s.visited n then next s else after_root next (dfs fuel graph n s)

abbrev pub unsearched : CycleSearch
unsearched = record { cycles = []; visited = []; recursion_stack = []; path = [] }

abbrev pub cycles_of : Option CycleSearch → Option (List (List ℕ))
cycles_of none = none
cycles_of (some s) = some s.cycles

-- Each search opens a node of the graph for the first time, or one that has no row.
unfoldable pub detect_cycles : Graph → Option (List (List ℕ))
unfolding search_roots
detect_cycles graph =
    cycles_of (search_roots (length graph + 1) graph (map (λ row. row.0) graph) unsearched)
