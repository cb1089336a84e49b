-- ===== src/Planner/Dependencies/Tests.antt =====
-- Three tasks, two of them in one directory.
use open_tiger.Prelude.{String, ◌≡◌, refl, none, some, List, [], ◌∷◌, map}
use open_tiger.Dispatcher.Cycles.{detect_cycles}
use open_tiger.Planner.Dependencies.{
  NewTask, PlannerFunctions, DependencyResolution, paths_overlap, depends_on, infer_from,
  infer_dependencies, filter_duplicate_tasks,
}
use open_tiger.Planner.Dependencies.Acyclic.{graph_of, infer_dependencies-has_no_cycle}

abbrev functions : PlannerFunctions
functions = record { trim = λ s. s; normalize_path = λ s. s; extract_keywords = λ s. s ∷ [] }

abbrev new_task : String → String → NewTask
new_task title path = record { title = title; goal = ""; allowed_paths = path ∷ []; files = none }

abbrev new_tasks : List NewTask
new_tasks = new_task "a" "apps/api" ∷ new_task "b" "docs" ∷ new_task "c" "apps/api/src" ∷ []

third_after_first :
    map
      (λ (r : DependencyResolution). r.depends_on_indices)
      (infer_dependencies functions new_tasks)
    ≡ [] ∷ [] ∷ (0 ∷ []) ∷ []
unfolding infer_dependencies infer_from depends_on paths_overlap
third_after_first = refl

first_kept :
    (filter_duplicate_tasks
      (4, 4)
      new_tasks
      (record {
        task_index = 1;
        duplicate_of_id = none;
        duplicate_of_index = some 0;
        similarity = (9, 9);
      }
        ∷ [])).1
    ≡ 1 ∷ []
unfolding filter_duplicate_tasks
first_kept = refl

infer_dependencies-has_no_cycle_example :
    detect_cycles (graph_of (infer_dependencies functions new_tasks)) ≡ some []
infer_dependencies-has_no_cycle_example = infer_dependencies-has_no_cycle functions new_tasks
