-- ===== src/Planner/Dependencies.antt =====
-- apps/planner/src/dependency-resolver.ts: the dependencies that the planner infers between new
-- tasks, and the removal of those found to be duplicates.
pub mod Acyclic
mod Tests
use package.text.Mathlib.Text.{starts_with}
use Prim.Native.String.{◌++◌ as then_text}
use open_tiger.Prelude.{
  leb, ◌===◌, if◌then◌else◌, length, filterb, any, has_id, has_text, ℕ, zero, suc, ◌+◌, ◌*◌, String,
  Bool, true, false, ◌&&◌, ◌||◌, Option, none, some, List, [], ◌∷◌, ◌++◌, map,
}

-- The fields of CreateTaskInput that are read; `files` is `context.files`.
pub record NewTask : Type 0 where
  pub title : String
  pub goal : String
  pub allowed_paths : List String
  pub files : Option (List String)

-- `trim`, normalizePathForOverlap and extractKeywords, which are made of expressions.
pub record PlannerFunctions : Type 0 where
  pub trim : String → String
  pub normalize_path : String → String
  pub extract_keywords : String → List String

pub record DependencyResolution : Type 0 where
  pub task_index : ℕ
  pub depends_on_indices : List ℕ
  pub depends_on_ids : List ℕ

-- Two paths overlap if they are the same or one lies below the other; `**` overlaps all.
unfoldable pub paths_overlap : PlannerFunctions → String → String → Bool
paths_overlap fs a b =
    let x = fs.normalize_path a in
    let y = fs.normalize_path b in
    if (fs.trim a === "**") || (fs.trim b === "**")
    then true
    else if (x === "") || (y === "")
    then false
    else (x === y) || (starts_with x (then_text y "/") || starts_with y (then_text x "/"))

abbrev pub files_of : Option (List String) → List String
files_of none = []
files_of (some fs) = fs

abbrev pub task_keywords : PlannerFunctions → NewTask → List String
task_keywords fs t = fs.extract_keywords (then_text t.title (then_text " " t.goal))

-- The three rules by which a task depends on an earlier one.
unfoldable pub depends_on : PlannerFunctions → NewTask → NewTask → Bool
unfolding paths_overlap
depends_on fs earlier t =
    any (λ p. any (λ c. paths_overlap fs p c) t.allowed_paths) earlier.allowed_paths
    || (any (λ f. has_text (files_of t.files) f) (files_of earlier.files)
        || leb 2
            (length (filterb (λ k. has_text (task_keywords fs t) k) (task_keywords fs earlier))))

-- The loop over the earlier tasks, from the index `j`.
abbrev pub earlier_indices : PlannerFunctions → NewTask → ℕ → List NewTask → List ℕ
earlier_indices fs t j [] = []
earlier_indices fs t j (e ∷ es) =
    let rest = earlier_indices fs t (suc j) es in if depends_on fs e t then j ∷ rest else rest

-- The loop over the tasks, of which `earlier` have been passed.
unfoldable pub infer_from :
    PlannerFunctions → List NewTask → List NewTask → List DependencyResolution
infer_from fs earlier [] = []
infer_from fs earlier (t ∷ ts) =
    record {
      task_index = length earlier;
      depends_on_indices = earlier_indices fs t 0 earlier;
      depends_on_ids = [];
    }
    ∷ infer_from fs (earlier ++ t ∷ []) ts

unfoldable pub infer_dependencies : PlannerFunctions → List NewTask → List DependencyResolution
unfolding infer_from
infer_dependencies fs tasks = infer_from fs [] tasks

-- `taskIds[index]`, where there is one.
abbrev pub id_at : List ℕ → ℕ → Option ℕ
id_at [] n = none
id_at (x ∷ xs) zero = some x
id_at (x ∷ xs) (suc n) = id_at xs n

abbrev pub add_id : Option ℕ → List ℕ → List ℕ
add_id none rest = rest
add_id (some id) rest = id ∷ rest

abbrev pub ids_at : List ℕ → List ℕ → List ℕ
ids_at ids [] = []
ids_at ids (n ∷ ns) = add_id (id_at ids n) (ids_at ids ns)

unfoldable pub resolve_indices_to_ids :
    List DependencyResolution → List ℕ → List DependencyResolution
resolve_indices_to_ids resolutions ids =
    map
      (λ (r : DependencyResolution). record r { depends_on_ids = ids_at ids r.depends_on_indices })
      resolutions

-- A similarity is a fraction of the numerator `n` and the denominator `d + 1`.
pub record DuplicateDetection : Type 0 where
  pub task_index : ℕ
  pub duplicate_of_id : Option ℕ
  pub duplicate_of_index : Option ℕ
  pub similarity : ℕ × ℕ

abbrev pub is_some : Option ℕ → Bool
is_some none = false
is_some (some n) = true

abbrev pub at_least : ℕ × ℕ → ℕ × ℕ → Bool
at_least (n, d) (m, e) = leb (m * (d + 1)) (n * (e + 1))

abbrev pub is_skipped : ℕ × ℕ → DuplicateDetection → Bool
is_skipped threshold d =
    at_least d.similarity threshold && (is_some d.duplicate_of_id || is_some d.duplicate_of_index)

abbrev pub without_indices : List ℕ → ℕ → List NewTask → List NewTask
without_indices skipped i [] = []
without_indices skipped i (t ∷ ts) =
    let rest = without_indices skipped (suc i) ts in if has_id skipped i then rest else t ∷ rest

-- The unique tasks and the indices skipped.
unfoldable pub filter_duplicate_tasks :
    ℕ × ℕ → List NewTask → List DuplicateDetection → List NewTask × List ℕ
filter_duplicate_tasks threshold tasks detections =
    let skipped = map (λ d. d.task_index) (filterb (is_skipped threshold) detections) in
    (without_indices skipped 0 tasks, skipped)
