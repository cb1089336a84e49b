-- ===== src/Retry/Laws.antt =====
-- What one decision on a failed task means.
use open_tiger.Retry.Context.{is_judge_review_task}
use open_tiger.Json.{Json}
use open_tiger.Prelude.{
  leb, ◌===◌, if◌then◌else◌, ltb→lt, ===→eq, ===_refl, Bool-cases, Option-cases, &&_parts, length,
  is_empty, all, Within, here, there, ℕ, ◌≤◌, ◌<◌, String, ◌≡◌, refl, sym, ◌∙◌, subst, ◌≢◌, ◌⊎◌,
  inl, inr, Bool, true, false, not, ◌&&◌, Option, none, some, List, [], ◌∷◌, arith,
}
use open_tiger.Store.{Task, Run, head}
use open_tiger.Failure.Codes.{
  FailureCategory, Classification, failure_category_retry_limit,
  resolve_failure_category_retry_limit,
}
use open_tiger.Failure.Laws.{hopeless, IsCoherent, classify_failure-IsCoherent}
use open_tiger.Retry.Runs.{
  has_pending_judge_run, restore_latest_judge_run, failed_runs, take, latest_signature,
  has_repeated_failure_signature,
}
use open_tiger.Retry.Failed.{
  RetryDb, RetryEnv, resolve_repeated_failure_signature_threshold, is_retry_allowed, to_judge,
  adjust_commands, adjust_paths, retry, is_policy_violation, lane_override, added_paths,
  classify_latest, may_retry, retry_or_escalate, proposed_commands, decide_standard, decide,
}

-- The last failed runs of a task, as many as the threshold says.
abbrev pub recent_failures : RetryEnv → Task → List Run → List Run
recent_failures io t runs =
    take (resolve_repeated_failure_signature_threshold io.threshold) (failed_runs t.id runs)

-- When a task may be retried as it is: the failure is retryable, its retries are below the
-- category's limit and the global one, and its last failures do not all have the signature of the
-- latest, if that has one.
pub record IsRetriable (io : RetryEnv) (t : Task) (runs : List Run) (c : Classification)
    : Type 0 where
  pub not_hopeless : hopeless c.reason ≡ false
  pub below_category : t.retry_count < failure_category_retry_limit c.category
  pub below_global : is_retry_allowed io.max_retry_count t.retry_count ≡ true
  pub not_repeated :
      latest_signature io.signature (head (failed_runs t.id runs)) ≢ ""
      → resolve_repeated_failure_signature_threshold io.threshold
        ≤ length (recent_failures io t runs)
      → (r : Run) × Within r (recent_failures io t runs)
        × (io.signature r.error_message r.error_meta
            ≢ latest_signature io.signature (head (failed_runs t.id runs)))

all-false :
    (p : Run → Bool) (rs : List Run) → all p rs ≡ false → (r : Run) × Within r rs × (p r ≡ false)
all-false p [] h = cc h
all-false p (r ∷ rs) h = elim (Bool-cases (p r)) [
  | inl e ↦ let (s, w, f) = all-false p rs (rw e at h) in (s, there w, f)
  | inr e ↦ (r, here, e)
]

ne-of_unequal : (a b : String) → (a === b) ≡ false → a ≢ b
ne-of_unequal a b h same = cc (h, subst (λ s. (a === s) ≡ true) same (===_refl a))

unequal-of_ne : (a b : String) → a ≢ b → (a === b) ≡ false
unequal-of_ne a b h = elim (Bool-cases (a === b)) [ inl e ↦ absurd (h (===→eq a b e)) | inr e ↦ e ]

some_differs :
    (signature : Option String → Option Json → String) (threshold task_id : ℕ) (runs : List Run)
    (latest : Option Run)
    → has_repeated_failure_signature signature threshold task_id runs latest ≡ false
    → latest_signature signature latest ≢ ""
    → threshold ≤ length (take threshold (failed_runs task_id runs))
    → (r : Run) × Within r (take threshold (failed_runs task_id runs))
      × (signature r.error_message r.error_meta ≢ latest_signature signature latest)
unfolding has_repeated_failure_signature
some_differs signature threshold task_id runs latest h named_latest enough =
    let recent = take threshold (failed_runs task_id runs) in
    let named = unequal-of_ne _ _ named_latest in
    let full : leb threshold (length recent) ≡ true = ground arith in
    let (r, w, e) =
      all-false (λ r. signature r.error_message r.error_meta === latest_signature signature latest)
        recent (let plain = rw (named, full) at h in ground arith) in
    (r, w, ne-of_unequal _ _ e)

limit-le :
    (category : FailureCategory) (limit : Option ℕ)
    → resolve_failure_category_retry_limit category limit ≤ failure_category_retry_limit category
unfolding resolve_failure_category_retry_limit
limit-le category none = omega arith
limit-le category (some limit) = omega arith

module _ (io : RetryEnv) (t : Task) (runs : List Run) where
  abbrev latest_run : Option Run
  latest_run = head (failed_runs t.id runs)

  abbrev its_failure : Classification
  its_failure = classify_latest io latest_run

  abbrev allows_paths : Bool
  allows_paths =
      is_policy_violation its_failure.reason && not (is_empty (added_paths io t latest_run))

  standard-commands :
      (commands : List String)
      → proposed_commands io t latest_run its_failure ≡ some commands
      → decide_standard io t runs ≡ adjust_commands commands
  unfolding decide_standard
  standard-commands commands e = rw (decide_standard, e) refl

  standard-other :
      proposed_commands io t latest_run its_failure ≡ none
      → decide_standard io t runs ≡ (
          if allows_paths
          then adjust_paths (io.adjusted_paths t latest_run)
          else retry_or_escalate
              (may_retry io t runs latest_run its_failure)
              (lane_override its_failure.reason t))
  unfolding decide_standard
  standard-other e = rw (decide_standard, e) refl

  retries : (b : Bool) (lane : String) → retry_or_escalate b lane ≡ retry → b ≡ true
  retries true lane e = refl
  retries false lane e = cc e

  may_retry-IsRetriable :
      IsCoherent its_failure
      → may_retry io t runs latest_run its_failure ≡ true
      → IsRetriable io t runs its_failure
  unfolding may_retry
  may_retry-IsRetriable c h =
      let (g, rest) = &&_parts _ _ h in
      let (r, rest') = &&_parts _ _ rest in
      let (l, n) = &&_parts _ _ rest' in
      let below =
        ltb→lt t.retry_count
          (resolve_failure_category_retry_limit its_failure.category io.max_retry_count) l in
      record {
        not_hopeless = let same = c.retryable_iff in ground arith;
        below_category = omega (arith, limit-le its_failure.category io.max_retry_count);
        below_global = g;
        not_repeated =
            some_differs io.signature (resolve_repeated_failure_signature_threshold io.threshold)
              t.id runs latest_run (ground arith);
      }

  decide_standard-IsRetriable :
      IsCoherent its_failure → decide_standard io t runs ≡ retry → IsRetriable io t runs its_failure
  decide_standard-IsRetriable c h =
      elim (Option-cases (proposed_commands io t latest_run its_failure)) [
        | inl e ↦
            let h' = subst (λ d. d ≡ retry) (standard-other e) h in
            elim (Bool-cases allows_paths) [
              | inl f ↦ cc (
                  subst
                    (λ b.
                      (if b
                        then adjust_paths (io.adjusted_paths t latest_run)
                        else retry_or_escalate (may_retry io t runs latest_run its_failure)
                            (lane_override its_failure.reason t))
                      ≡ retry)
                    f h')
              | inr f ↦ may_retry-IsRetriable c (
                  retries (may_retry io t runs latest_run its_failure)
                    (lane_override its_failure.reason t)
                    (subst
                      (λ b.
                        (if b
                          then adjust_paths (io.adjusted_paths t latest_run)
                          else retry_or_escalate (may_retry io t runs latest_run its_failure)
                              (lane_override its_failure.reason t))
                        ≡ retry)
                      f h'))
            ]
        | inr (commands, e) ↦ cc (subst (λ d. d ≡ retry) (standard-commands commands e) h)
      ]

classify_latest-IsCoherent :
    (io : RetryEnv) (latest : Option Run) → IsCoherent (classify_latest io latest)
classify_latest-IsCoherent io none = classify_failure-IsCoherent io.fs none none
classify_latest-IsCoherent io (some r) =
    classify_failure-IsCoherent io.fs r.error_message r.error_meta

-- Where a decision comes from: the judge's branch, or the failure of the runs that are left.
decide_source :
    (io : RetryEnv) (t : Task) (db : RetryDb)
    → ((decide io t db).1 ≡ to_judge)
      ⊎ ((decide io t db).1 ≡ decide_standard io t (decide io t db).0)
unfolding decide
decide_source io t db = elim (Bool-cases (is_judge_review_task io.fs t.title t.goal t.context)) [
  | inl e ↦ elim (Bool-cases (has_pending_judge_run t.id db.runs)) [
    | inl f ↦ inl (rw (e, f) refl)
    | inr f ↦ elim (Option-cases ((restore_latest_judge_run db.artifacts t.id db.runs).1)) [
      | inl g ↦ inr (rw (e, f, g) refl)
      | inr (id, g) ↦ inl (rw (e, f, g) refl)
    ]
  ]
  | inr e ↦ inr (rw e refl)
]

-- A failed task is retried as it is only if that makes sense: its latest failure is not of a kind
-- that a retry cannot help, its retries are below the limit of the failure's category and below
-- the global limit, and unless the latest failure has an empty signature, if there are as many
-- failures as the threshold says, one of these last has another signature.
pub decide-IsRetriable :
    (io : RetryEnv) (t : Task) (db : RetryDb)
    → (decide io t db).1 ≡ retry
    → IsRetriable io t
        (decide io t db).0
        (classify_latest io (head (failed_runs t.id (decide io t db).0)))
decide-IsRetriable io t db h = elim (decide_source io t db) [
  | inl e ↦ cc (h, e)
  | inr e ↦
      decide_standard-IsRetriable io t (decide io t db).0
        (classify_latest-IsCoherent io (head (failed_runs t.id (decide io t db).0))) (sym e ∙ h)
]
