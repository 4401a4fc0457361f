-- ===== src/Examples/Clusters.antt =====
-- Shards that wait for agents, the cluster of a tenant, and a new tenant.
use r_orchestrator.Prelude.{◌+◌, ◌≤◌, refl, true, none, some, [], ◌∷◌, In, inl, inr, ℤ, arith}
use r_orchestrator.Model.{
  TaskStatus, ShardStatus, TaskShard, Cluster, active, provisioning, terminated,
}
use r_orchestrator.World.{idle, Db, World, Outside}
use r_orchestrator.Action.{ok}
use r_orchestrator.Action.Guarantee.{Relies}
use r_orchestrator.Action.Quiet.{Ends}
use r_orchestrator.Backend.{new_registry}
use r_orchestrator.ClusterService.{recycle_cluster}
use r_orchestrator.ClusterService.Busy.{KeepsStatuses, busy_cluster-kept}
use r_orchestrator.Graph.{Copies, CreateTenantInput, resolve_create_tenant}
use r_orchestrator.Graph.Positive.{Staffed, StaysStaffed, resolve_create_tenant-Staffed}
use r_orchestrator.Orm.Clusters.{NewCluster, get_or_create_active_cluster}
use r_orchestrator.Orm.Clusters.Usable.{ReturnsRow, is_usable, get_or_create-usable}
use r_orchestrator.TaskService.Lease.{Leased, lease_next_shard}
use r_orchestrator.TaskService.Lease.Picks.{IsEligible}
use r_orchestrator.TaskService.Lease.Grants.{granted, leased_db}
use r_orchestrator.TaskService.Lease.Served.{lease-serves}
use r_orchestrator.TaskService.Lease.Bounded.{lease-bounded}
use r_orchestrator.Examples.Data.{
  calm, calm-IsQuiet, acme, task_in_status, shard_of, db_of, agent_of, world_of,
}

abbrev second_shard : TaskShard
second_shard = shard_of 12 "b.R" ShardStatus.queued (some "") ""

abbrev cluster : Cluster
cluster = record {
  id = 5;
  created_at = 100;
  tenant_id = 7;
  status = active;
  backend_name = "k8s";
  billing_cycle_seconds = 3600;
  next_billing_boundary_at = 150000000000;
  idle_since = some 100;
}

abbrev working_db : Db
working_db =
    record (db_of TaskStatus.running (shard_of 11 "a.R" ShardStatus.queued (some "") "")
      second_shard) { clusters = cluster ∷ [] }

abbrev working : World
working = world_of working_db (agent_of idle none)

abbrev second_row : Leased
second_row = record { task = task_in_status TaskStatus.running; shard = second_shard }

second_row-IsEligible : IsEligible 7 "k8s" working_db second_row
second_row-IsEligible = record {
  shard_queued = refl;
  task_found = refl;
  task_of_tenant = refl;
  task_open = refl;
  tenant_on_backend = (acme, refl, refl);
}

serves_example :
    (got : Leased) × In got.shard working_db.shards
    × IsEligible 7 "k8s" working_db got
    × Ends
        (lease_next_shard 7 "k8s" "agent-1")
        calm
        working
        (ok (granted "agent-1" got))
        (leased_db "agent-1" working.clock got working_db)
serves_example =
    lease-serves calm-IsQuiet working 7 "k8s" "agent-1" second_row (inr (inl refl))
      second_row-IsEligible

-- Every statement fails.
abbrev broken : Outside
broken = record calm { sql_fails = λ n. true }

bounded_example : (lease_next_shard 7 "k8s" "agent-1" broken working).1.stmt ≤ 0 + 400
bounded_example = lease-bounded broken working 7 "k8s" "agent-1"

busy_example :
    (d : Db) × Ends (recycle_cluster new_registry 180 600 cluster) calm working (ok tt) d
    × KeepsStatuses working_db d
busy_example =
    busy_cluster-kept calm-IsQuiet new_registry 180 600 cluster working refl
      (task_in_status TaskStatus.running) (inl refl) refl refl

abbrev copies : Copies
copies = record { task = λ t. none; tenant = λ t. none }

abbrev newcomer : CreateTenantInput
newcomer = record { name = "new"; primary_backend_name = "kubernetes"; max_agents = ℤ.pos 3 }

calm-Relies : Relies StaysStaffed calm
calm-Relies n db h = h

working-Staffed : Staffed working_db
working-Staffed = (omega arith, tt)

tenant_example : Staffed (resolve_create_tenant copies newcomer calm working).1.db
tenant_example =
    resolve_create_tenant-Staffed calm calm-Relies copies newcomer working working-Staffed

-- The tenant's only cluster was TERMINATED, and is used again.
abbrev idle_world : World
idle_world = record working {
  db = record working_db { clusters = record cluster { status = terminated } ∷ [] };
}

abbrev asked : NewCluster
asked = record {
  tenant_id = 7;
  status = provisioning;
  backend_name = "k8s";
  billing_cycle_seconds = 3600;
  next_billing_boundary_at = 160000000000;
}

reused_example : ReturnsRow (get_or_create_active_cluster asked) calm idle_world (is_usable 7)
reused_example = get_or_create-usable calm-IsQuiet asked refl idle_world 0 refl
