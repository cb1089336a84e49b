-- ===== src/Planner/Duplicates.antt =====
-- detectDuplicates of apps/planner/src/dependency-resolver.ts: which new tasks repeat a task that
-- is active or an earlier new one.
mod Tests
use Prim.Native.String.{◌++◌ as then_text}
use open_tiger.Prelude.{
  ltb, ◌==◌, ◌===◌, if◌then◌else◌, length, is_empty, filterb, any, find_first, has_text, ℕ, suc,
  ◌+◌, ◌-◌, ◌*◌, String, Bool, true, ◌&&◌, ◌||◌, Option, none, some, List, [], ◌∷◌, ◌++◌,
}
use open_tiger.Store.{Task, Db, active_status, update_where}
use open_tiger.Planner.Dependencies.{NewTask, PlannerFunctions, paths_overlap, DuplicateDetection}

-- `new Set(words)`, in the order of insertion.
abbrev pub word_set : List String → List String → List String
word_set seen [] = []
word_set seen (w ∷ ws) =
    let rest = word_set (w ∷ seen) ws in if has_text seen w then rest else w ∷ rest

-- `calculateSimilarity`: the common words over all words, as a numerator and a denominator less
-- one.
unfoldable pub calculate_similarity : PlannerFunctions → String → String → ℕ × ℕ
calculate_similarity fs a b =
    let xs = word_set [] (fs.extract_keywords a) in
    let ys = word_set [] (fs.extract_keywords b) in
    if is_empty xs || is_empty ys
    then (0, 0)
    else (length (filterb (λ w. has_text ys w) xs), length (word_set [] (xs ++ ys)) - 1)

-- `similarity > n / m`
abbrev pub exceeds : ℕ × ℕ → ℕ → ℕ → Bool
exceeds (k, d) n m = ltb (n * (d + 1)) (k * m)

abbrev pub duplicate_of : ℕ → Task → ℕ × ℕ → DuplicateDetection
duplicate_of i t similarity = record {
  task_index = i;
  duplicate_of_id = some t.id;
  duplicate_of_index = none;
  similarity = similarity;
}

abbrev pub no_duplicate : ℕ → DuplicateDetection
no_duplicate i = record {
  task_index = i;
  duplicate_of_id = none;
  duplicate_of_index = none;
  similarity = (0, 0);
}

abbrev pub or_detection : Option DuplicateDetection → DuplicateDetection → DuplicateDetection
or_detection none rest = rest
or_detection (some d) rest = d

-- The first task of a list that passes, with the similarity that is reported for it.
abbrev pub detection_of : ℕ → (Task → ℕ × ℕ) → Option Task → Option DuplicateDetection
detection_of i similarity none = none
detection_of i similarity (some t) = some (duplicate_of i t (similarity t))

abbrev pub paths_meet : PlannerFunctions → Task → NewTask → Bool
paths_meet fs t new = any (λ p. any (λ q. paths_overlap fs p q) new.allowed_paths) t.allowed_paths

-- The three tests of a new task against the tasks that are active.
unfoldable pub detect_existing :
    PlannerFunctions → (String → String) → List Task → ℕ → NewTask → DuplicateDetection
unfolding calculate_similarity
detect_existing fs lower existing i new =
    let by_goal : Task → ℕ × ℕ = λ t. calculate_similarity fs t.goal new.goal in
    let by_title : Task → ℕ × ℕ = λ t. calculate_similarity fs t.title new.title in
    or_detection
      (detection_of i (λ t. (1, 0)) (find_first (λ t. lower t.title === lower new.title) existing))
      (or_detection (detection_of i by_goal (find_first (λ t. exceeds (by_goal t) 4 5) existing)) (
        or_detection
          (detection_of i by_title
            (find_first (λ t. paths_meet fs t new && exceeds (by_title t) 3 5) existing))
          (no_duplicate i)))

abbrev pub detect_each :
    PlannerFunctions → (String → String) → List Task → ℕ → List NewTask → List DuplicateDetection
detect_each fs lower existing i [] = []
detect_each fs lower existing i (t ∷ ts) =
    detect_existing fs lower existing i t ∷ detect_each fs lower existing (suc i) ts

-- `!duplicateOfIndex`, which holds of the index 0 too.
abbrev pub falsy_index : Option ℕ → Bool
falsy_index none = true
falsy_index (some n) = n == 0

abbrev pub less_similar : ℕ × ℕ → ℕ × ℕ → Bool
less_similar (n, d) (m, e) = ltb (n * (e + 1)) (m * (d + 1))

-- The later task of a similar pair is marked as a duplicate of the earlier one.
abbrev pub mark_duplicate : (i j : ℕ) → ℕ × ℕ → List DuplicateDetection → List DuplicateDetection
mark_duplicate i j similarity ds =
    update_where
      (λ d.
        (d.task_index == j)
        && (falsy_index d.duplicate_of_index || less_similar d.similarity similarity))
      (λ d. record d { duplicate_of_index = some i; similarity = similarity }) ds

abbrev pub whole_text : NewTask → String
whole_text t = then_text t.title (then_text " " t.goal)

-- The inner loop, over the tasks from the index `j`.
abbrev pub mark_later :
    PlannerFunctions
    → ℕ
    → NewTask
    → ℕ
    → List NewTask
    → List DuplicateDetection
    → List DuplicateDetection
mark_later fs i t j [] ds = ds
mark_later fs i t j (u ∷ us) ds =
    let next = mark_later fs i t (suc j) us in
    let similarity = calculate_similarity fs (whole_text t) (whole_text u) in
    if exceeds similarity 4 5 then next (mark_duplicate i j similarity ds) else next ds

abbrev pub mark_all :
    PlannerFunctions → ℕ → List NewTask → List DuplicateDetection → List DuplicateDetection
mark_all fs i [] ds = ds
mark_all fs i (t ∷ ts) ds = mark_all fs (suc i) ts (mark_later fs i t (suc i) ts ds)

-- `lower` is toLowerCase.
unfoldable pub detect_duplicates :
    PlannerFunctions → (String → String) → Db → List NewTask → List DuplicateDetection
unfolding detect_existing calculate_similarity
detect_duplicates fs lower db tasks =
    mark_all fs 0 tasks
      (detect_each fs lower (filterb (λ t. active_status t.status) db.tasks) 0 tasks)
