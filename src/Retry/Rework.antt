-- ===== src/Retry/Rework.antt =====
-- The rework tasks of apps/cycle-manager/src/cleaners/cleanup-retry/requeue-blocked.ts: the chain
-- of parents that the notes of a task record, and the task that replaces its blocked parent.
pub mod Parents
mod Tests
use package.text.Mathlib.Text.{starts_with, get?}
use Prim.Native.String.{len, ◌++◌ as then_text}
use open_tiger.Retry.Lines.{join, split_lines}
use open_tiger.Prelude.{
  ◌===◌, if◌then◌else◌, length, filterb, has_text, pos, ◌+ℤ◌, ℕ, ◌*◌, ◌/◌, max, String, not, ◌||◌,
  Option, none, some, List, [], ◌∷◌, ◌++◌,
}
use open_tiger.Json.{Json, text, obj, Fields, end, field}
use open_tiger.Store.{TaskStatus, Task}
use open_tiger.Failure.Classify.{TextFunctions}
use open_tiger.Retry.Context.{context_field}

pub record VerifyReworkMeta : Type 0 where
  pub failed_command : Option String
  pub failed_command_source : Option String
  pub stderr_summary : Option String

-- What the rework code calls: `parse_meta` decodes the payload of a marker as JSON (none where that throws or gives no object), `id_text` writes an id,
-- `rework_paths` are the allowed paths with those that the task's commands need.
pub record ReworkFunctions : Type 0 where
  pub parse_meta : String → Option VerifyReworkMeta
  pub id_text : ℕ → String
  pub rework_paths : Task → List String

abbrev pub verify_rework_marker_prefix : String
verify_rework_marker_prefix = "[verify-rework-json]"

abbrev pub auto_rework_parent_marker_prefix : String
auto_rework_parent_marker_prefix = "[auto-rework] parentTask="

abbrev pub or_blank : Option String → String
or_blank none = ""
or_blank (some s) = s

-- `line.slice(prefix.length)`
abbrev pub after_prefix : String → String → String
after_prefix prefix line = or_blank (get? line (len prefix) (len line))

abbrev pub notes_of : Option Json → String
notes_of (some (text s)) = s
notes_of _ = ""

abbrev pub task_notes : Task → String
task_notes t = notes_of (context_field "notes" t.context)

-- `extractVerifyReworkMeta`, over the lines of the notes.
abbrev pub meta_of_line : TextFunctions → ReworkFunctions → String → Option VerifyReworkMeta
meta_of_line fs rs line =
    if starts_with (fs.trim line) verify_rework_marker_prefix
    then (let payload = fs.trim (after_prefix verify_rework_marker_prefix (fs.trim line)) in
        if payload === "" then none else rs.parse_meta payload)
    else none

abbrev pub first_some : Option VerifyReworkMeta → Option VerifyReworkMeta → Option VerifyReworkMeta
first_some none rest = rest
first_some (some m) rest = some m

unfoldable pub extract_verify_rework_meta :
    TextFunctions → ReworkFunctions → List String → Option VerifyReworkMeta
extract_verify_rework_meta fs rs [] = none
extract_verify_rework_meta fs rs (line ∷ lines) =
    first_some (meta_of_line fs rs line) (extract_verify_rework_meta fs rs lines)

unfoldable pub strip_verify_rework_markers : TextFunctions → ReworkFunctions → String → String
strip_verify_rework_markers fs rs notes = fs.trim (
    join "\n" (
      filterb (λ line. not (starts_with (fs.trim line) verify_rework_marker_prefix))
        (split_lines notes)))

-- The parents that one line names: one or none.
abbrev pub parent_of_line : TextFunctions → String → List String
parent_of_line fs line =
    if starts_with (fs.trim line) auto_rework_parent_marker_prefix
    then (let parent = fs.trim (after_prefix auto_rework_parent_marker_prefix (fs.trim line)) in
        if parent === "" then [] else parent ∷ [])
    else []

abbrev pub parents_of_lines : TextFunctions → List String → List String
parents_of_lines fs [] = []
parents_of_lines fs (line ∷ lines) = parent_of_line fs line ++ parents_of_lines fs lines

-- `Array.from(new Set(parents))`
abbrev pub distinct_texts : List String → List String → List String
distinct_texts seen [] = []
distinct_texts seen (x ∷ xs) =
    let rest = distinct_texts (x ∷ seen) xs in if has_text seen x then rest else x ∷ rest

unfoldable pub extract_auto_rework_parents : TextFunctions → ReworkFunctions → String → List String
extract_auto_rework_parents fs rs notes =
    distinct_texts [] (parents_of_lines fs (split_lines notes))

unfoldable pub resolve_auto_rework_depth : TextFunctions → ReworkFunctions → String → ℕ
unfolding extract_auto_rework_parents
resolve_auto_rework_depth fs rs notes = length (extract_auto_rework_parents fs rs notes)

abbrev pub or_text : String → Option String → String
or_text fallback none = fallback
or_text fallback (some s) = s

-- The failed command of the marker, if it names one.
abbrev pub failed_command_of : Option VerifyReworkMeta → Option String
failed_command_of none = none
failed_command_of (some m) = elim (m.failed_command) [
  | none ↦ none
  | some s ↦ if s === "" then none else some s
]

abbrev pub source_of : Option VerifyReworkMeta → String
source_of none = "unknown"
source_of (some m) = or_text "unknown" m.failed_command_source

abbrev pub stderr_of : Option VerifyReworkMeta → String
stderr_of none = "stderr unavailable"
stderr_of (some m) = or_text "stderr unavailable" m.stderr_summary

abbrev pub verify_summary : Option VerifyReworkMeta → Option String → String
verify_summary m none = ""
verify_summary m (some command) = join "\n" (
    "[verify-rework] previous verification failure"
    ∷ then_text "- command: " command
    ∷ then_text "- source: " (source_of m)
    ∷ then_text "- stderr: " (stderr_of m)
    ∷ [])

abbrev pub verify_specs : Option VerifyReworkMeta → Option String → String
verify_specs m none = ""
verify_specs m (some command) =
    then_text "Focus on recovering failed verification command:\n- "
      (then_text command (then_text "\n- source: " (source_of m)))

-- `parts.filter(part => part && part.length > 0).join(separator)`
abbrev pub join_parts : String → List String → String
join_parts separator parts = join separator (filterb (λ s. not (s === "")) parts)

unfoldable pub rework_notes :
    TextFunctions → ReworkFunctions → Task → Option VerifyReworkMeta → String
unfolding strip_verify_rework_markers
rework_notes fs rs t m = join_parts "\n" (
    strip_verify_rework_markers fs rs (task_notes t)
    ∷ verify_summary m (failed_command_of m)
    ∷ then_text auto_rework_parent_marker_prefix (rs.id_text t.id)
    ∷ [])

-- `{ ...fields, name: value }`
abbrev pub set_field : String → Json → Fields → Fields
set_field name value end = field name value end
set_field name value (field other x fields) =
    let rest = set_field name value fields in
    if other === name then field name value fields else field other x rest

abbrev pub fields_of : Option Json → Fields
fields_of (some (obj fields)) = fields
fields_of _ = end

-- The specs are kept where there is nothing to merge.
abbrev pub with_specs : String → Fields → Fields
with_specs specs fields = if specs === "" then fields else set_field "specs" (text specs) fields

unfoldable pub rework_context :
    TextFunctions → ReworkFunctions → Task → Option VerifyReworkMeta → Option Json
unfolding rework_notes
rework_context fs rs t m =
    let specs = join_parts "\n\n" (
      fs.trim (notes_of (context_field "specs" t.context))
      ∷ verify_specs m (failed_command_of m)
      ∷ []) in
    some (
      obj (
        set_field "notes" (text (rework_notes fs rs t m)) (with_specs specs (fields_of t.context))))

abbrev pub title_prefix : Option VerifyReworkMeta → String
title_prefix none = "[Rework] "
title_prefix (some m) = "[Rework-Verify] "

unfoldable pub rework_title : Option VerifyReworkMeta → String → String
rework_title m title =
    if starts_with title "[Rework]" || starts_with title "[Rework-Verify]"
    then title
    else then_text (title_prefix m) title

-- The task that is inserted; `fresh` is the id that the database generates, and the columns that
-- the insert leaves out have their defaults.
unfoldable pub rework_task : TextFunctions → ReworkFunctions → (now fresh : ℕ) → Task → Task
unfolding extract_verify_rework_meta rework_context rework_title
rework_task fs rs now fresh t =
    let m = extract_verify_rework_meta fs rs (split_lines (task_notes t)) in
    record {
      id = fresh;
      title = rework_title m t.title;
      goal = t.goal;
      context = rework_context fs rs t m;
      allowed_paths = rs.rework_paths t;
      commands = t.commands;
      priority = t.priority +ℤ pos 5;
      risk_level = t.risk_level;
      role = t.role;
      lane = t.lane;
      kind = t.kind;
      status = TaskStatus.queued;
      block_reason = none;
      target_area = none;
      touches = [];
      dependencies = t.dependencies;
      timebox_minutes = max 30 (t.timebox_minutes * 4 / 5);
      retry_count = 0;
      created_at = now;
      updated_at = now;
    }
