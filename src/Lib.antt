-- ===== src/Lib.antt =====
-- openTiger: the scheduling core of an orchestrator of coding agents.
--
-- The cycle manager, the dispatcher, the workers and the judge are processes that share one
-- database. A task is queued, leased to an agent and run; a failed one is retried or sent to
-- rework; a pull request that the judge approves waits in a merge queue. The development models the
-- parts that decide these steps:
--
-- Store, Json: the tables of packages/db/src/schema.ts as lists of rows. A select is a filter, an
-- update rewrites the rows that match, a delete keeps the others. Column names are as in the
-- schema, in snake case. Priorities are integers. Uuids and times (in milliseconds) are natural numbers.
-- Dispatcher/Lanes: apps/dispatcher/src/scheduler/lane-policy.ts. select_tasks_for_dispatch is
-- selectTasksForDispatch; its inner loops are reserve_features, fill_slots and fallback_lanes.
-- Dispatcher/Leases: apps/dispatcher/src/scheduler/lease.ts, function by function.
-- Dispatcher/Dispatch: dispatchTask, the free slots and the poll delay of
-- apps/dispatcher/src/main.ts. Enqueueing the task and launching a docker worker are arguments, their
-- success or failure; that enqueueTask throws is an answer of its own.
-- Dispatcher/Cycles: detectCycles of apps/dispatcher/src/scheduler/priority.ts, with the graph of task
-- dependencies. Search and Rounds hold what a search keeps, Ends that it ends.
-- Dispatcher/Available: getAvailableTasks of the same file. The score is scaled to a whole number.
-- Dispatcher/Agents: apps/dispatcher/src/scheduler/heartbeat.ts, function by function.
-- MergeQueue: apps/judge/src/judge-merge-queue.ts. Rows holds the table pr_merge_queue and the
-- configuration; Enqueue, Claims and Process the operations; Invariant, Recover, Steps, Claiming,
-- Settling and Histories the invariant and its proof; Laws, Fencing and Once what single calls do.
-- Failure: packages/core/src/failure-codes.ts, failure-classifier.ts and failure-retry-policy.ts.
-- Retry: apps/cycle-manager/src/cleaners/cleanup-retry, the retry of failed and blocked tasks. It
-- classifies by Failure; a requeued task is one that the dispatcher can lease again. Adjust is the repair of
-- the verification commands, Failed the pass over the failed tasks. Blocked is the pass over the
-- blocked tasks, requeue-blocked.ts: Decide the decision for one task, Pass its writes and the loop;
-- Rework is the task that replaces a blocked parent, and Lines the lines of its notes.
-- Planner: apps/planner/src/dependency-resolver.ts. Duplicates is detectDuplicates, Dependencies the
-- rest; its Acyclic takes what is inferred to detectCycles.
-- Plugins: packages/plugin-sdk/src. Loader is topologicalSort with its depth-first visit; Inventory
-- is loadPlugins. Order, Search and Members hold what a visit keeps, Sorted what the sort answers,
-- Ends that it ends.
-- Quota: packages/core/src/quota-retry.ts. The seed of the jitter is the list of its codes; ratios
-- are exact fractions, where the source has floating point; a day has 24 hours.
--
-- Time is an argument, the value that Date.now() reads; one call reads it once, or once before and
-- once after a long wait. A threshold x < now - d is written x + d < now, or with a subtraction that
-- stops at 0, below which no time lies. Every statement is atomic, as one SQL statement is. Where a
-- function awaits between statements that a race could part, the writes of other processes are an
-- argument, a function on the tables, any function unless the theorem says otherwise; elsewhere a
-- function runs by itself. Loops go over lists. Only the depth-first searches of
-- topologicalSort and detectCycles use fuel, one more than there are enabled plugins or tasks: each
-- level opens a new one, and theorems show that it is enough. The batch of the merge
-- queue takes the three rounds of the source, and a claim as many rounds as its argument lists; the
-- source stops after five.
--
-- Not modelled: log lines and the payloads of events; the documentation task created after a
-- merge; the timer of the claim heartbeat, which is renew_claim_lease at any point of a history;
-- merging, auto-fix and re-creation of pull requests, which are arguments of the merge queue; the
-- regular expressions and text functions of the classifier and of the command recovery, the
-- normal form of a failure's text, and what policy recovery proposes for a failed or blocked task,
-- which are arguments of Failure and Retry; the area of a task (packages/core/src/target-area.ts), an
-- argument of Dispatcher/Available; the path and keyword expressions of the planner; the plugins'
-- hooks. Settings read from the environment are arguments. The other
-- parts of the repository, the rest of the planner, of the judge and of the cycle manager, the
-- workers, the API, the dashboard and the clients of outside services, are left out so far or do
-- input and output only.
pub mod Prelude
pub mod Json
pub mod Store
pub mod Dispatcher
pub mod MergeQueue
pub mod Failure
pub mod Retry
pub mod Planner
pub mod Plugins
pub mod Quota
