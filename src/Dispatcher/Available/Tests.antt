-- ===== src/Dispatcher/Available/Tests.antt =====
-- An old task, an urgent one, one with an open dependency, and a review that belongs to the judge.
use open_tiger.Store.{TaskStatus, Task, Db}
use open_tiger.Store.Samples.{task_row}
use open_tiger.Prelude.{All, pos, ℕ, ◌≡◌, refl, false, [], ◌∷◌, map}
use open_tiger.Dispatcher.Lanes.{AvailableTask}
use open_tiger.Dispatcher.Available.{
  PriorityEnv, has_judge_backlog, misqueued_ids, return_misqueued, is_cooling_down, passes,
  calculate_priority_score, rank_tasks, get_available_tasks,
}
use open_tiger.Dispatcher.Available.Ranked.{SelectsRanked, get_available_tasks-SelectsRanked}
use open_tiger.Dispatcher.Available.Dispatchable.{
  IsDispatchable, get_available_tasks-IsDispatchable,
}

abbrev setting : PriorityEnv
setting = record {
  kinds = "code" ∷ "research" ∷ [];
  block_on_awaiting_judge = false;
  retry_delay_ms = 300000;
  artifacts = [];
  area = λ t. t.target_area;
  lower = λ s. s;
  quota_message = λ s. false;
}

abbrev waiting : ℕ → Task
waiting id = task_row id TaskStatus.queued 0

abbrev board : Db
board = record {
  tasks =
      waiting 1
      ∷ record (waiting 2) { priority = pos 90; dependencies = 5 ∷ [] }
      ∷ record (waiting 3) { dependencies = 1 ∷ [] }
      ∷ record (waiting 4) { goal = "Review and process open PR #9" }
      ∷ task_row 5 TaskStatus.done 0
      ∷ [];
  runs = [];
  leases = [];
  agents = [];
}

urgent_first :
    map (λ (a : AvailableTask). a.id) (get_available_tasks setting 7200000 board).1 ≡ 2 ∷ 1 ∷ []
unfolding get_available_tasks has_judge_backlog return_misqueued misqueued_ids passes
    is_cooling_down rank_tasks calculate_priority_score
urgent_first = refl

get_available_tasks-SelectsRanked_example :
    SelectsRanked setting 7200000 board (get_available_tasks setting 7200000 board)
get_available_tasks-SelectsRanked_example =
    get_available_tasks-SelectsRanked setting 7200000 board refl

get_available_tasks-IsDispatchable_example :
    All
      (IsDispatchable setting 7200000 (get_available_tasks setting 7200000 board).0)
      (get_available_tasks setting 7200000 board).1
get_available_tasks-IsDispatchable_example =
    get_available_tasks-IsDispatchable setting 7200000 board
