-- ===== src/Planner/Duplicates/Tests.antt =====
-- Three new tasks of which the last repeats the first word for word and nearly the second.
use open_tiger.Prelude.{
  ◌===◌, if◌then◌else◌, ℕ, String, ◌≡◌, refl, Option, none, some, List, [], ◌∷◌, map,
}
use open_tiger.Store.{Db}
use open_tiger.Planner.Dependencies.{NewTask, PlannerFunctions, DuplicateDetection}
use open_tiger.Planner.Duplicates.{calculate_similarity, detect_existing, detect_duplicates}

-- The words of three texts.
abbrev words_of : String → List String
words_of s =
    if s === "parser "
    then "rewrite" ∷ "config" ∷ "parser" ∷ "tests" ∷ "cache" ∷ []
    else if s === "parsers "
    then "rewrite" ∷ "config" ∷ "parser" ∷ "tests" ∷ "cache" ∷ "twice" ∷ []
    else []

abbrev functions : PlannerFunctions
functions = record { trim = λ s. s; normalize_path = λ s. s; extract_keywords = words_of }

abbrev new_task : String → NewTask
new_task title = record { title = title; goal = ""; allowed_paths = []; files = none }

abbrev new_tasks : List NewTask
new_tasks = new_task "parser" ∷ new_task "parsers" ∷ new_task "parser" ∷ []

abbrev empty_db : Db
empty_db = record { tasks = []; runs = []; leases = []; agents = [] }

-- The last task is reported as a duplicate of the second, at 5 of 6 words, although it is the same
-- as the first: the index 0 of that find counts as none.
exact_find_overwritten :
    map {B = Option ℕ × (ℕ × ℕ)}
      (λ (d : DuplicateDetection). (d.duplicate_of_index, d.similarity))
      (detect_duplicates functions (λ s. s) empty_db new_tasks)
    ≡ (none, (0, 0)) ∷ (some 0, (5, 5)) ∷ (some 1, (5, 5)) ∷ []
unfolding detect_duplicates detect_existing calculate_similarity
exact_find_overwritten = refl
