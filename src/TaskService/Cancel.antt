-- ===== src/TaskService/Cancel.antt =====
-- cancel_task.go.
pub mod Effect
use r_orchestrator.Prelude.{
  ℕ, String, false, not, ◌&&◌, Option, none, some, List, [], ◌∷◌, ◌==◌, is_none,
}
use r_orchestrator.Model.{TaskStatus, TaskShard, shard_in}
use r_orchestrator.World.{CompletionHookPayload}
use r_orchestrator.Action.{
  Result, ok, err, Action, tenant_not_found, pure, raise, ◌>>=◌, ◌>>◌, attempt, transaction,
}
use r_orchestrator.Orm.{find_shards}
use r_orchestrator.Orm.Shards
use r_orchestrator.Orm.Tasks
use r_orchestrator.Orm.Tasks.{TaskWithShards}
use r_orchestrator.Orm.Tenants
use r_orchestrator.TaskService.Hook.{new_completion_hook_payload, dispatch_completion_hook_async}
use r_orchestrator.TaskService.Validate.{column_text}

unfoldable pub or_raise_tenant : {A : Type 0} → Result A → Action A
or_raise_tenant (ok a) = pure a
or_raise_tenant (err e) = raise tenant_not_found

-- The callback that the control plane injects.
abbrev pub NotifyCancelShard : Type 0
NotifyCancelShard = String → ℕ → Action Unit

-- Best effort: an error is logged, and the loop goes on.
unfoldable pub notify_each : NotifyCancelShard → List TaskShard → Action Unit
notify_each notify [] = pure tt
notify_each notify (s ∷ ss) = do
  attempt (notify (column_text s.assigned_agent_id) s.id)
  notify_each notify ss

unfoldable pub notify_all : Option NotifyCancelShard → List TaskShard → Action Unit
notify_all none shards = pure tt
notify_all (some notify) shards = notify_each notify shards

abbrev pub refreshed : CompletionHookPayload → Result TaskWithShards → CompletionHookPayload
refreshed payload (ok x) = record payload { finished_at = x.task.finished_at }
refreshed payload (err e) = payload

unfoldable pub dispatch_cancelled : ℕ → Option CompletionHookPayload → Action Unit
dispatch_cancelled task_id none = pure tt
dispatch_cancelled task_id (some payload) = do
  found ← attempt (Tasks.get_by_id task_id)
  dispatch_completion_hook_async (refreshed payload found)

-- The transaction of CancelTask.
unfoldable pub cancel_in_transaction : (tenant_id task_id : ℕ) → Action Unit
cancel_in_transaction tenant_id task_id =
    transaction
      (do Tasks.cancel_task_by_id tenant_id task_id; Shards.cancel_task_shards_by_task_id task_id)

-- CancelTask.
unfoldable pub cancel_task : Option NotifyCancelShard → String → ℕ → Action Unit
cancel_task notify tenant_name task_id = do
  found ← attempt (Tenants.get_by_name tenant_name)
  tenant ← or_raise_tenant found
  loaded ← Tasks.get_by_id task_id
  running_shards ← find_shards (λ s.
      s.task_id == task_id
      && shard_in s.status Shards.active_shard_statuses
      && not (is_none s.assigned_agent_id))
  cancel_in_transaction tenant.id task_id
  dispatch_cancelled task_id (
      new_completion_hook_payload loaded.task TaskStatus.cancelled "" loaded.task.finished_at false)
  notify_all notify running_shards
