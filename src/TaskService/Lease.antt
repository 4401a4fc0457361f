-- ===== src/TaskService/Lease.antt =====
-- lease_next_shard.go.
pub mod Picks
pub mod Grants
pub mod Exclusive
pub mod Undone
pub mod Served
pub mod Bounded
use r_orchestrator.Prelude.{
  ℕ, zero, suc, String, Bool, true, false, ◌&&◌, ◌||◌, Option, none, some, List, [], ◌∷◌, ltb, ◌==◌,
  if◌then◌else◌, row_where, least_row, same_text,
}
use r_orchestrator.Model.{
  TaskStatus, ShardStatus, Tenant, Task, TaskShard, same_task_status, same_shard_status, task_in,
}
use r_orchestrator.World.{Db, Outside}
use r_orchestrator.Action.{
  maybe, when◌then◌else◌, Action, record_not_found, refused, pure, raise, ◌>>=◌, ◌>>◌, transaction,
}
use r_orchestrator.Orm.{or_not_found, query, first_task, update_shards, update_tasks}

pub record Leased : Type 0 where
  pub task : Task
  pub shard : TaskShard

-- shardQueryStatuses.
abbrev pub shard_query_statuses : List TaskStatus
shard_query_statuses = TaskStatus.waiting_for_agents ∷ TaskStatus.queued ∷ TaskStatus.running ∷ []

-- The WHERE conditions on a task, its tenant and its shard.
abbrev pub conditions : ℕ → String → Task → Tenant → TaskShard → Bool
conditions tenant_id backend_name t n s =
    t.tenant_id == tenant_id
    && task_in t.status shard_query_statuses
    && same_text n.primary_backend_name backend_name
    && same_shard_status s.status ShardStatus.queued

-- JOIN tenants ON tenants.id = tasks.tenant_id.
unfoldable pub join_tenant : ℕ → String → TaskShard → Task → Option Tenant → Option Leased
join_tenant tenant_id backend_name s t none = none
join_tenant tenant_id backend_name s t (some n) =
    if conditions tenant_id backend_name t n s then some (record { task = t; shard = s }) else none

-- JOIN tasks ON tasks.id = task_shards.task_id.
unfoldable pub join_task : ℕ → String → Db → TaskShard → Option Task → Option Leased
join_task tenant_id backend_name db s none = none
join_task tenant_id backend_name db s (some t) =
    join_tenant tenant_id backend_name s t (row_where (λ n. n.id == t.tenant_id) db.tenants)

-- The row that the two JOINs make of a shard, if it meets the conditions.
unfoldable pub joined : ℕ → String → Db → TaskShard → Option Leased
joined tenant_id backend_name db s =
    join_task tenant_id backend_name db s (row_where (λ t. t.id == s.task_id) db.tasks)

abbrev pub with_row : Option Leased → List Leased → List Leased
with_row none rows = rows
with_row (some r) rows = r ∷ rows

unfoldable pub candidates : ℕ → String → Db → List TaskShard → List Leased
candidates tenant_id backend_name db [] = []
candidates tenant_id backend_name db (s ∷ ss) =
    with_row (joined tenant_id backend_name db s) (candidates tenant_id backend_name db ss)

-- ORDER BY tasks.created_at, task_shards.script_name.
abbrev pub leased_before : Outside → Leased → Leased → Bool
leased_before o a b =
    ltb a.task.created_at b.task.created_at
    || (a.task.created_at == b.task.created_at
        && o.name_before a.shard.script_name b.shard.script_name)

-- Take.
unfoldable pub take_candidate : ℕ → String → Action Leased
take_candidate tenant_id backend_name = do
  found ←
      query (λ o db. least_row (leased_before o) (candidates tenant_id backend_name db db.shards))
  or_not_found found

-- The task as the code goes on with it: a waiting one is promoted.
unfoldable pub promoted : Task → Action Task
promoted task =
    when same_task_status task.status TaskStatus.waiting_for_agents
    then (do
      update_tasks (λ t. t.id == task.id && same_task_status t.status TaskStatus.waiting_for_agents)
          (λ t. record t { status = TaskStatus.queued })
      pure (record task { status = TaskStatus.queued }))
    else pure task

unfoldable pub claim : String → Task → TaskShard → Action (Option Leased)
claim agent_id task shard = do
  affected ←
      update_shards (λ s. s.id == shard.id && same_shard_status s.status ShardStatus.queued)
        (λ s. record s { status = ShardStatus.leased; assigned_agent_id = some agent_id })
  pure (
      if affected == 0
      then none
      else some (record {
        task = task;
        shard = record shard { status = ShardStatus.leased; assigned_agent_id = some agent_id };
      }))

-- One round of the loop; `none` is a `continue`.
unfoldable pub lease_round : ℕ → String → String → Action (Option Leased)
lease_round tenant_id backend_name agent_id = do
  picked ← take_candidate tenant_id backend_name
  loaded ← first_task (λ t. t.tenant_id == tenant_id && t.id == picked.shard.task_id)
  task ← promoted loaded
  when task_in task.status shard_query_statuses then claim agent_id task picked.shard else pure none

unfoldable pub lease_rounds : ℕ → ℕ → String → String → Action Leased
lease_rounds zero tenant_id backend_name agent_id = raise refused
lease_rounds (suc n) tenant_id backend_name agent_id = do
  done ← lease_round tenant_id backend_name agent_id
  maybe done (lease_rounds n tenant_id backend_name agent_id) (λ r. pure r)

abbrev pub max_retries : ℕ
max_retries = 100

-- LeaseNextShard.
unfoldable pub lease_next_shard : ℕ → String → String → Action Leased
lease_next_shard tenant_id backend_name agent_id =
    transaction (lease_rounds max_retries tenant_id backend_name agent_id)
