-- ===== src/Retry/Blocked/Fixes.antt =====
-- Which task the look-up of an active auto-fix in requeueBlockedTasksWithCooldown
-- (apps/cycle-manager/src/cleaners/cleanup-retry/requeue-blocked.ts) has found.
use open_tiger.Prelude.{
  ◌==◌, Bool-cases, Option-cases, &&_parts, any, Within, here, there, ℕ, ◌≡◌, inl, inr, true, false,
  not, ◌&&◌, some, List, [], ◌∷◌, arith,
}
use open_tiger.Store.{Task, active_status}
use open_tiger.Retry.Context.{is_judge_review_task}
use open_tiger.Retry.Blocked.{
  BlockedEnv, extract_pr_number_for_task, fixes_pr, has_active_auto_fix_task_for_pr,
}
use open_tiger.Retry.Blocked.Decide.{pr_has_fix}

-- Some other active task has a title that starts with the prefix of the auto-fix tasks and the
-- number.
abbrev pub NamesFix : BlockedEnv → List Task → Task → ℕ → Type 0
NamesFix io tasks t pr =
    (u : Task) × Within u tasks
    × (active_status u.status ≡ true)
    × ((u.id == t.id) ≡ false)
    × (fixes_pr io pr u.title ≡ true)

-- The task is a review, and such a title is there for the number of its pull request.
abbrev pub FixNamed : BlockedEnv → List Task → Task → Type 0
FixNamed io tasks t =
    (is_judge_review_task io.fs t.title t.goal t.context ≡ true)
    × ((pr : ℕ) × (extract_pr_number_for_task io t ≡ some pr) × NamesFix io tasks t pr)

any-NamesFix :
    (io : BlockedEnv) (t : Task) (pr : ℕ) (tasks : List Task)
    → any (λ x. active_status x.status && (not (x.id == t.id) && fixes_pr io pr x.title)) tasks
      ≡ true
    → NamesFix io tasks t pr
any-NamesFix io t pr [] h = cc h
any-NamesFix io t pr (x ∷ tasks) h =
    elim (Bool-cases (active_status x.status && (not (x.id == t.id) && fixes_pr io pr x.title))) [
      | inl e ↦
          let (active, rest) = &&_parts (active_status x.status) _ e in
          let (other, fixes) = &&_parts (not (x.id == t.id)) _ rest in
          (x, here, active, ground arith, fixes)
      | inr e ↦
          let (u, w, active, other, fixes) = any-NamesFix io t pr tasks (rw e at h) in
          (u, there w, active, other, fixes)
    ]

pub pr_has_fix-found :
    (io : BlockedEnv) (tasks : List Task) (t : Task)
    → pr_has_fix io tasks t (extract_pr_number_for_task io t) ≡ true
    → (pr : ℕ) × (extract_pr_number_for_task io t ≡ some pr) × NamesFix io tasks t pr
unfolding has_active_auto_fix_task_for_pr
pr_has_fix-found io tasks t h = elim (Option-cases (extract_pr_number_for_task io t)) [
  | inl e ↦ cc (rw e at h)
  | inr (pr, e) ↦
      let (_, found) = &&_parts (not (pr == 0)) _ (rw e at h) in
      (pr, e, any-NamesFix io t pr tasks found)
]
