-- ===== src/TaskService/Validate/Owner.antt =====
-- What a shard that LoadValidatedShard returns is, when no statement fails and nobody else writes.
use r_orchestrator.Prelude.{ℕ, ◌≡◌, String, true, false, some, ◌==◌, In, row_where, same_text}
use r_orchestrator.Model.{Tenant, Task, TaskShard}
use r_orchestrator.World.{Db, World}
use r_orchestrator.Action.{Action}
use r_orchestrator.Orm.Shards
use r_orchestrator.Orm.Shards.{ShardTaskOwner}
use r_orchestrator.TaskService.Validate.{is_foreign}

-- What a report of an agent may be about: a shard of the table that is the agent's or terminal,
-- and whose task belongs to the agent's tenant, on the agent's backend.
pub record MayReport (db : Db) (shard_id : ℕ) (agent_id : String) (tenant_id : ℕ)
    (backend_name : String) (s : TaskShard) : Type 0 where
  pub same_id : s.id ≡ shard_id
  pub in_table : In s db.shards
  pub not_foreign : is_foreign s agent_id ≡ false
  pub task : Task
  pub task_found : row_where (λ t. t.id == s.task_id) db.tasks ≡ some task
  pub of_tenant : task.tenant_id ≡ tenant_id
  pub tenant : Tenant
  pub tenant_found : row_where (λ n. n.id == task.tenant_id) db.tenants ≡ some tenant
  pub on_backend : same_text tenant.primary_backend_name backend_name ≡ true

-- The rows behind an owner that has a tenant.
OwnerRows : Db → ℕ → ShardTaskOwner → Type 0
OwnerRows db task_id owner =
    (t : Task) × (row_where (λ t. t.id == task_id) db.tasks ≡ some t)
    × (t.tenant_id ≡ owner.tenant_id)
    × (n : Tenant) × (row_where (λ n. n.id == t.tenant_id) db.tenants ≡ some n)
    × (n.primary_backend_name ≡ owner.primary_backend_name)
