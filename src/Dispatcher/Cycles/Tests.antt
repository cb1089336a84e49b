-- ===== src/Dispatcher/Cycles/Tests.antt =====
-- A chain of three tasks, a cycle, and a task that only leads to one.
use open_tiger.Prelude.{ℕ, ◌≡◌, refl, ◌↔◌, some, List, [], ◌∷◌}
use open_tiger.Dispatcher.Cycles.{Graph, search_deps, dfs, search_roots, detect_cycles}
use open_tiger.Dispatcher.Cycles.Ends.{detect_cycles_returns}
use open_tiger.Dispatcher.Cycles.Acyclic.{IsAcyclic, detect_cycles_iff}

abbrev chain : Graph
chain = (1, 2 ∷ 3 ∷ []) ∷ (2, 3 ∷ []) ∷ (3, []) ∷ []

abbrev cycle : Graph
cycle = (1, 2 ∷ []) ∷ (2, 1 ∷ []) ∷ (3, 1 ∷ []) ∷ []

chain_has_none : detect_cycles chain ≡ some []
unfolding detect_cycles search_roots dfs search_deps
chain_has_none = refl

-- Task 3 is on no cycle, but the path that the first find leaves behind is reported with it.
stale_path_reported : detect_cycles cycle ≡ some ((1 ∷ 2 ∷ []) ∷ (1 ∷ 2 ∷ 3 ∷ []) ∷ [])
unfolding detect_cycles search_roots dfs search_deps
stale_path_reported = refl

detect_cycles_iff_example : (detect_cycles chain ≡ some []) ↔ IsAcyclic chain
detect_cycles_iff_example = detect_cycles_iff chain

detect_cycles_returns_example : (cycles : List (List ℕ)) × (detect_cycles cycle ≡ some cycles)
detect_cycles_returns_example = detect_cycles_returns cycle
