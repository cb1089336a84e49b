-- ===== src/Planner/Dependencies/Acyclic.antt =====
-- The dependencies that apps/planner/src/dependency-resolver.ts infers, as a graph for detectCycles
-- of apps/dispatcher/src/scheduler/priority.ts.
use open_tiger.Prelude.{
  ◌==◌, ==→eq, if_both, length, All, All-imp, ℕ, suc, ◌+◌, ◌<◌, ◌≡◌, some, List, [], ◌∷◌, ◌++◌,
  arith,
}
use open_tiger.Dispatcher.Cycles.{Graph, deps_of, detect_cycles}
use open_tiger.Dispatcher.Cycles.Acyclic.{detect_cycles_iff}
use open_tiger.Planner.Dependencies.{
  NewTask, PlannerFunctions, DependencyResolution, depends_on, earlier_indices, infer_from,
  infer_dependencies,
}

-- The graph of tasks and what they depend on, by index.
abbrev pub graph_of : List DependencyResolution → Graph
graph_of [] = []
graph_of (r ∷ rs) = (r.task_index, r.depends_on_indices) ∷ graph_of rs

earlier-below :
    (fs : PlannerFunctions) (t : NewTask) (j : ℕ) (es : List NewTask)
    → All (λ d. d < j + length es) (earlier_indices fs t j es)
earlier-below fs t j [] = tt
earlier-below fs t j (e ∷ es) =
    let rest =
      All-imp (λ d lt. omega (arith, lt)) (earlier_indices fs t (suc j) es)
        (earlier-below fs t (suc j) es) in
    if_both (All (λ d. d < j + length (e ∷ es))) (depends_on fs e t) _ _ (λ h. (omega arith, rest))
      (λ h. rest)

-- Every row of the graph leads below its own index.
infer_from-below :
    (fs : PlannerFunctions) (earlier ts : List NewTask) (n : ℕ)
    → All (λ d. d < n) (deps_of (graph_of (infer_from fs earlier ts)) n)
unfolding infer_from
infer_from-below fs earlier [] n = tt
infer_from-below fs earlier (t ∷ ts) n =
    if_both (All (λ d. d < n)) (length earlier == n) _ _
      (λ same.
        All-imp (λ d lt. omega (arith, lt, ==→eq (length earlier) n same))
          (earlier_indices fs t 0 earlier) (earlier-below fs t 0 earlier))
      (λ other. infer_from-below fs (earlier ++ t ∷ []) ts n)

-- Whatever the new tasks are, the dependencies inferred between them have no cycle: the search of
-- the dispatcher reports none.
pub infer_dependencies-has_no_cycle :
    (fs : PlannerFunctions) (tasks : List NewTask)
    → detect_cycles (graph_of (infer_dependencies fs tasks)) ≡ some []
unfolding infer_dependencies
infer_dependencies-has_no_cycle fs tasks =
    (detect_cycles_iff (graph_of (infer_from fs [] tasks))).1
      (record { rank = λ n. n; lower = infer_from-below fs [] tasks })
