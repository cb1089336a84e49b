-- ===== src/Retry/Context.antt =====
-- task-context.ts: which tasks are pull request reviews for the judge.
use open_tiger.Prelude.{◌===◌, String, Bool, true, false, not, ◌&&◌, ◌||◌, Option, none, some}
use open_tiger.Json.{Json, num, text, arr, obj, Items, nil, cons}
use open_tiger.Failure.Classify.{TextFunctions, get_field}
use package.text.Mathlib.Text.{starts_with, find?}

abbrev includes : String → String → Bool
includes s part = elim (find? s part) [ none ↦ false | some i ↦ true ]

-- `context.name`, none where the context is no object or has no such field.
unfoldable pub context_field : String → Option Json → Option Json
context_field name (some (obj fields)) = get_field name fields
context_field name _ = none

abbrev is_number : Option Json → Bool
is_number (some (num n)) = true
is_number _ = false

abbrev is_text : String → Json → Bool
is_text s (text t) = t === s
is_text s _ = false

abbrev has_item : String → Items → Bool
has_item s nil = false
has_item s (cons x xs) = is_text s x || has_item s xs

-- `notes.includes(part)`, of a text or a list; other values have no such method.
abbrev note_includes : String → Option Json → Bool
note_includes part (some (text s)) = includes s part
note_includes part (some (arr items)) = has_item part items
note_includes part _ = false

unfoldable pub is_pr_review_task : (title goal : String) → Option Json → Bool
unfolding context_field
is_pr_review_task title goal context =
    starts_with goal "Review and process open PR #"
    || (starts_with title "[PR] Review #"
        || (is_number (context_field "number" (context_field "pr" context))
            || ((is_number (context_field "number" (context_field "issue" context))
                  && starts_with title "[PR]")
                || note_includes "Imported from open GitHub PR backlog"
                    (context_field "notes" context))))

abbrev is_auto_fix_task_title : TextFunctions → String → Bool
is_auto_fix_task_title fs title =
    starts_with (fs.lower (fs.trim title)) "[autofix] pr #"
    || starts_with (fs.lower (fs.trim title)) "[autofix-conflict] pr #"

abbrev is_present : TextFunctions → Option Json → Bool
is_present fs (some (text s)) = not (fs.trim s === "")
is_present fs _ = false

unfoldable pub has_source_task_in_pr_context : TextFunctions → Option Json → Bool
unfolding context_field
has_source_task_in_pr_context fs context =
    is_present fs (context_field "sourceTaskId" (context_field "pr" context))

unfoldable pub is_judge_review_task : TextFunctions → (title goal : String) → Option Json → Bool
unfolding is_pr_review_task has_source_task_in_pr_context
is_judge_review_task fs title goal context =
    is_pr_review_task title goal context
    && (not (is_auto_fix_task_title fs title) && not (has_source_task_in_pr_context fs context))
