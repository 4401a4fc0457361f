-- ===== src/Examples/Tasks.antt =====
-- Leases and cancellation on the data of Examples/Data.
use r_orchestrator.Prelude.{
  arith, ◌≡◌, refl, true, false, none, some, ◌==◌, In, inl, inr, row_where, [], ◌∷◌,
}
use r_orchestrator.Model.{
  TaskStatus, ShardStatus, Task, TaskShard, shard_in, terminal_shard_statuses, active, Cluster,
}
use r_orchestrator.ClusterService.{renew_billing}
use r_orchestrator.ClusterService.Billing.{renewed, renew-moves}
use r_orchestrator.World.{idle, Db, World}
use r_orchestrator.Action.{ok, err, record_not_found, refused, ◌>>=◌}
use r_orchestrator.Action.Quiet.{Ends}
use r_orchestrator.TaskService.Lease.{
  Leased, candidates, joined, join_task, join_tenant, lease_next_shard,
}
use r_orchestrator.TaskService.Lease.Picks.{IsEligible, picked-IsEligible}
use r_orchestrator.TaskService.Lease.Grants.{
  picked, granted, leased_db, lease_next_shard-grants, lease_next_shard_nothing,
}
use r_orchestrator.TaskService.Lease.Exclusive.{leases_differ}
use r_orchestrator.TaskService.Lease.Undone.{requeued_db, lease-rollback}
use r_orchestrator.TaskService.Rollback.{rollback_assigned_shard}
use r_orchestrator.TaskService.Cancel.{cancel_in_transaction}
use r_orchestrator.TaskService.Cancel.Effect.{
  is_task_of, cancelled_task, cancel-closes, cancel-refused,
}
use r_orchestrator.Examples.Data.{
  calm, calm-IsQuiet, task_in_status, shard_of, db_of, agent_of, world_of,
}

abbrev shard_a : TaskShard
shard_a = shard_of 11 "a.R" ShardStatus.queued (some "") ""

abbrev shard_b : TaskShard
shard_b = shard_of 12 "b.R" ShardStatus.queued (some "") ""

abbrev waiting_db : Db
waiting_db = db_of TaskStatus.waiting_for_agents shard_a shard_b

abbrev waiting : World
waiting = world_of waiting_db (agent_of idle none)

abbrev row_a : Leased
row_a = record { task = task_in_status TaskStatus.waiting_for_agents; shard = shard_a }

row_a-picked : picked calm 7 "k8s" waiting_db ≡ some row_a
unfolding candidates joined join_task join_tenant
row_a-picked = refl

picked-IsEligible_example : In shard_a waiting_db.shards × IsEligible 7 "k8s" waiting_db row_a
picked-IsEligible_example = picked-IsEligible 7 "k8s" waiting_db calm row_a row_a-picked

grants_example :
    Ends
      (lease_next_shard 7 "k8s" "agent-1")
      calm
      waiting
      (ok (granted "agent-1" row_a))
      (leased_db "agent-1" waiting.clock row_a waiting_db)
grants_example = lease_next_shard-grants calm-IsQuiet waiting 7 "k8s" "agent-1" row_a row_a-picked

-- The world after a first lease.
abbrev once : World
once = record waiting {
  stmt = (lease_next_shard-grants calm-IsQuiet waiting 7 "k8s" "agent-1" row_a row_a-picked).0;
  db = leased_db "agent-1" waiting.clock row_a waiting_db;
}

first_lease : lease_next_shard 7 "k8s" "agent-1" calm waiting ≡ (ok (granted "agent-1" row_a), once)
first_lease = (lease_next_shard-grants calm-IsQuiet waiting 7 "k8s" "agent-1" row_a row_a-picked).1

abbrev row_b : Leased
row_b = record { task = task_in_status TaskStatus.queued; shard = shard_b }

row_b-picked : picked calm 7 "k8s" once.db ≡ some row_b
unfolding candidates joined join_task join_tenant
row_b-picked = refl

abbrev twice : World
twice = record once {
  stmt = (lease_next_shard-grants calm-IsQuiet once 7 "k8s" "agent-2" row_b row_b-picked).0;
  db = leased_db "agent-2" once.clock row_b once.db;
}

second_lease : lease_next_shard 7 "k8s" "agent-2" calm once ≡ (ok (granted "agent-2" row_b), twice)
second_lease = (lease_next_shard-grants calm-IsQuiet once 7 "k8s" "agent-2" row_b row_b-picked).1

leases_differ_example :
    ((granted "agent-2" row_b).shard.id == (granted "agent-1" row_a).shard.id) ≡ false
leases_differ_example =
    leases_differ calm-IsQuiet waiting once twice 7 7 "k8s" "k8s" "agent-1" "agent-2"
      (granted "agent-1" row_a) (granted "agent-2" row_b) first_lease second_lease

-- No shard is queued on another backend.
none_on_vm : picked calm 7 "vm" waiting_db ≡ none
unfolding candidates joined join_task join_tenant
none_on_vm = refl

nothing_example :
    Ends (lease_next_shard 7 "vm" "agent-1") calm waiting (err record_not_found) waiting_db
nothing_example = lease_next_shard_nothing calm-IsQuiet waiting 7 "vm" "agent-1" none_on_vm

rollback_example :
    Ends
      (lease_next_shard 7 "k8s" "agent-1" >>= λ l. rollback_assigned_shard l.shard.id l.task)
      calm
      waiting
      (ok tt)
      (requeued_db 11 waiting.clock once.db)
rollback_example = lease-rollback calm-IsQuiet waiting 7 "k8s" "agent-1" row_a row_a-picked

abbrev half_done : World
half_done =
    world_of
      (db_of TaskStatus.running (shard_of 11 "a.R" ShardStatus.succeeded (some "agent-1") "out.zip")
        (shard_of 12 "b.R" ShardStatus.running (some "agent-1") ""))
      (agent_of idle none)

cancel_example :
    (d : Db) × Ends (cancel_in_transaction 7 1) calm half_done (ok tt) d
    × (row_where (is_task_of 7 1) d.tasks
        ≡ some (cancelled_task half_done.clock (task_in_status TaskStatus.running)))
    × ((s : TaskShard)
        → In s d.shards
        → (s.task_id == 1) ≡ true
        → shard_in s.status terminal_shard_statuses ≡ true)
cancel_example =
    cancel-closes calm-IsQuiet half_done 7 1 (task_in_status TaskStatus.running) refl refl

abbrev finished : World
finished =
    world_of
      (db_of TaskStatus.succeeded
        (shard_of 11 "a.R" ShardStatus.succeeded (some "agent-1") "out.zip")
        (shard_of 12 "b.R" ShardStatus.succeeded (some "agent-1") "out.zip"))
      (agent_of idle none)

refused_example : Ends (cancel_in_transaction 7 1) calm finished (err refused) finished.db
refused_example =
    cancel-refused calm-IsQuiet finished 7 1 (task_in_status TaskStatus.succeeded) refl only_task
      refl
  where
    only_task :
        (x : Task)
        → In x finished.db.tasks
        → is_task_of 7 1 x ≡ true
        → x ≡ task_in_status TaskStatus.succeeded
    only_task x (inl e) h = e
    only_task x (inr m) h = absurd m

abbrev cluster_of_acme : Cluster
cluster_of_acme = record {
  id = 5;
  created_at = 100;
  tenant_id = 7;
  status = active;
  backend_name = "k8s";
  billing_cycle_seconds = 3600;
  next_billing_boundary_at = 250000000000;
  idle_since = none;
}

abbrev clustered : World
clustered = record waiting { db = record waiting_db { clusters = cluster_of_acme ∷ [] } }

renew_example :
    (d : Db) × Ends (renew_billing 5) calm clustered (ok tt) d
    × (row_where (λ x. x.id == 5) d.clusters ≡ some (renewed cluster_of_acme))
renew_example = renew-moves calm-IsQuiet clustered 5 cluster_of_acme refl (omega arith)
