-- ===== src/Dispatcher/Leases/Tests.antt =====
-- lease.ts on concrete tables, and the theorems at such inputs.
use open_tiger.Prelude.{ℕ, ◌≡◌, refl, List, [], ◌∷◌, map, arith}
use open_tiger.Store.{TaskStatus, AgentStatus, Db}
use open_tiger.Store.Samples.{task_row, sample}
use open_tiger.Dispatcher.Leases.{
  insert_failed, LeaseResult, idle_if_no_active_work, acquire_lease, release_lease, extend_lease,
  requeue_expired, cleanup_expired_leases, dangling, reclaim_dangling, cleanup_dangling_leases,
  idle_holders, recover_task, recover_candidates, recover_orphaned_running_tasks, get_agent_leases,
  get_all_active_leases,
}
use open_tiger.Dispatcher.Leases.Expiry.{
  ExpiresLeases, cleanup_expired_leases-ExpiresLeases, cleanup_expired_leases-agents,
}
use open_tiger.Dispatcher.Leases.Ownership.{acquire_race}
use open_tiger.Dispatcher.Leases.Histories.{
  LeaseCall, acquire, release, extend, expire, reclaim_idle, recover, calls, StaysLeased,
  calls-StaysLeased,
}
use open_tiger.Dispatcher.Leases.Recovery.{
  lease_ids, ReclaimsDangling, cleanup_dangling_leases-ReclaimsDangling,
}
use open_tiger.Dispatcher.Leases.Orphans.{
  RecoversOrphans, recover_orphaned_running_tasks-RecoversOrphans,
}

run : Unit {0}
unfolding cleanup_expired_leases requeue_expired idle_if_no_active_work cleanup_dangling_leases
    reclaim_dangling dangling recover_orphaned_running_tasks recover_candidates recover_task
    idle_holders acquire_lease release_lease extend_lease get_agent_leases get_all_active_leases
run = tt

expiry_test :
    (((cleanup_expired_leases 200 sample).0).tasks
      ≡ task_row 1 TaskStatus.queued 200
        ∷ task_row 2 TaskStatus.running 10
        ∷ task_row 3 TaskStatus.queued 5
        ∷ [])
    × (lease_ids ((cleanup_expired_leases 200 sample).0).leases ≡ 22 ∷ 23 ∷ [])
    × ((cleanup_expired_leases 200 sample).1 ≡ 1)
unfolding run
expiry_test = (refl, refl, refl)

dangling_test :
    (lease_ids ((cleanup_dangling_leases 200 sample).0).leases ≡ 21 ∷ 22 ∷ [])
    × (map (λ a. a.status) ((cleanup_dangling_leases 200 sample).0).agents
        ≡ AgentStatus.busy ∷ AgentStatus.busy ∷ AgentStatus.idle ∷ [])
unfolding run
dangling_test = (refl, refl)

orphan_test :
    (map (λ t. t.status) ((recover_orphaned_running_tasks 500 100 sample).0).tasks
      ≡ TaskStatus.running ∷ TaskStatus.queued ∷ TaskStatus.queued ∷ [])
    × (lease_ids ((recover_orphaned_running_tasks 500 100 sample).0).leases ≡ 21 ∷ 23 ∷ [])
unfolding run
orphan_test = (refl, refl)

active_test : lease_ids (get_all_active_leases 100 sample) ≡ 22 ∷ 23 ∷ []
unfolding run
active_test = refl

agent_lease_test : lease_ids (get_agent_leases "worker-2" sample) ≡ 22 ∷ []
unfolding run
agent_lease_test = refl

abbrev unleased : Db
unleased = record sample { leases = [] }

cleanup_expired_leases-ExpiresLeases_example :
    ExpiresLeases 200 sample (cleanup_expired_leases 200 sample)
cleanup_expired_leases-ExpiresLeases_example = cleanup_expired_leases-ExpiresLeases 200 sample

cleanup_expired_leases-agents_example :
    ((cleanup_expired_leases 200 sample).0).agents ≡ sample.agents
cleanup_expired_leases-agents_example = cleanup_expired_leases-agents 200 sample

acquire_race_example :
    acquire_lease 50 32
      (λ d. (acquire_lease 50 31 (λ c. c) 1 "worker-1" 60 unleased).0)
      1
      "worker-2"
      60
      unleased
    ≡ ((acquire_lease 50 31 (λ c. c) 1 "worker-1" 60 unleased).0, LeaseResult.refused insert_failed)
acquire_race_example = (acquire_race 50 31 32 1 60 "worker-1" "worker-2" unleased refl refl).1

abbrev history : List (ℕ × LeaseCall)
history =
    (10, release 2)
    ∷ (20, acquire 31 2 "worker-4" 60)
    ∷ (25, extend 2 10)
    ∷ (30, acquire 32 1 "worker-4" 60)
    ∷ (100, expire)
    ∷ (210, reclaim_idle)
    ∷ (900, recover 100)
    ∷ []

calls-StaysLeased_example : StaysLeased 21 1 "worker-1" 100 (calls sample history)
calls-StaysLeased_example =
    calls-StaysLeased 21 1 "worker-1" 100 sample history
      (record {
        held = refl;
        alone = (λ e. refl, (λ e. cc e, (λ e. cc e, tt)));
        known = refl;
        working = refl;
      })
      (refl, (refl, (λ e. cc e, (refl, (omega arith, (tt, (tt, tt)))))))

cleanup_dangling_leases-ReclaimsDangling_example :
    ReclaimsDangling sample (cleanup_dangling_leases 200 sample)
cleanup_dangling_leases-ReclaimsDangling_example =
    cleanup_dangling_leases-ReclaimsDangling 200 sample (refl, (refl, (refl, tt)))

recover_orphaned_running_tasks-RecoversOrphans_example :
    RecoversOrphans 500 100 sample (recover_orphaned_running_tasks 500 100 sample)
recover_orphaned_running_tasks-RecoversOrphans_example =
    recover_orphaned_running_tasks-RecoversOrphans 500 100 sample
