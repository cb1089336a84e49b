-- ===== src/Retry/Rework/Tests.antt =====
-- A task whose rework names it.
use open_tiger.Prelude.{◌==◌, if◌then◌else◌, has_text, ◌≡◌, refl, true, false, none}
use open_tiger.Store.{TaskStatus, Task}
use open_tiger.Store.Samples.{task_row}
use open_tiger.Failure.Classify.{TextFunctions}
use open_tiger.Retry.Rework.{ReworkFunctions, task_notes, extract_auto_rework_parents, rework_task}
use open_tiger.Retry.Rework.Parents.{WritesId, rework_task-parents}

abbrev plain : TextFunctions
plain = record { lower = λ s. s; trim = λ s. s; matches = λ p s. false }

abbrev functions : ReworkFunctions
functions = record {
  parse_meta = λ s. none;
  id_text = λ n. if n == 1 then "1" else "2";
  rework_paths = λ t. t.allowed_paths;
}

abbrev parent : Task
parent = task_row 1 TaskStatus.blocked 0

parent-WritesId : WritesId plain functions parent
parent-WritesId = record {
  one_line = refl;
  trimmed_line = refl;
  trimmed_id = refl;
  not_blank = refl;
}

rework_task-parents_example :
    has_text
      (extract_auto_rework_parents plain functions
        (task_notes (rework_task plain functions 1000 9 parent)))
      "1"
    ≡ true
rework_task-parents_example = rework_task-parents plain functions parent parent-WritesId 1000 9
