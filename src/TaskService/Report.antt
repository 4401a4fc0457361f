-- ===== src/TaskService/Report.antt =====
-- report_shard_status.go.
pub mod Refusals
pub mod Accepted
pub mod Completed
use r_orchestrator.Prelude.{
  ℕ, String, Bool, not, ◌&&◌, Option, none, some, ◌==◌, if◌then◌else◌, same_text,
}
use r_orchestrator.Model.{
  TaskStatus, ShardStatus, Task, TaskShard, same_task_status, same_shard_status,
}
use r_orchestrator.World.{CompletionHookPayload}
use r_orchestrator.Action.{
  when◌then◌else◌, Action, refused, pure, raise, ◌>>=◌, ◌>>◌, transaction, now,
}
use r_orchestrator.Orm.{update_shards, first_task, update_tasks}
use r_orchestrator.Orm.Shards
use r_orchestrator.TaskService.Hook.{dispatch_completion_hook_async}
use r_orchestrator.TaskService.Recompute.{recompute_task_status}

pub record ReportShardStatusParams : Type 0 where
  pub shard_id : ℕ
  pub shard_status : ShardStatus
  pub error_message : Option String
  pub output_oss_key : String
  pub output_sha256 : String

abbrev pub text_or_empty : Option String → String
text_or_empty none = ""
text_or_empty (some text) = text

-- A SUCCEEDED report of a shard that has succeeded and has its output.
abbrev pub is_duplicate : ReportShardStatusParams → TaskShard → Bool
is_duplicate params s =
    same_shard_status params.shard_status ShardStatus.succeeded
    && same_shard_status s.status ShardStatus.succeeded
    && not (same_text s.output_oss_key "")

-- The `switch` over params.ShardStatus.
unfoldable pub mark_shard : ShardStatus → ReportShardStatusParams → Action Unit
mark_shard ShardStatus.running params = Shards.mark_running params.shard_id
mark_shard ShardStatus.succeeded params = Shards.mark_succeeded params.shard_id
mark_shard ShardStatus.failed params =
    Shards.mark_failed params.shard_id (text_or_empty params.error_message)
mark_shard _ params = pure tt

unfoldable pub store_output : ReportShardStatusParams → Action Unit
store_output params =
    when same_shard_status params.shard_status ShardStatus.succeeded
    then (do
      update_shards (λ s. s.id == params.shard_id)
          (λ s. record s {
            output_oss_key = params.output_oss_key;
            output_sha256 = params.output_sha256;
          })
      pure tt)
    else pure tt

-- The task's part of a RUNNING report. `updates` has no "started_at" if the task had one when it
-- was read: the column keeps its value then.
unfoldable pub mark_task_running : ℕ → Task → ℕ → Action (Option CompletionHookPayload)
mark_task_running task_id task t = do
  affected ←
      update_tasks (λ x. x.id == task_id && not (same_task_status x.status TaskStatus.cancelled))
        (λ x. record x {
          status = TaskStatus.running;
          started_at = elim task.started_at [ none ↦ some t | some _ ↦ x.started_at ];
        })
  when affected == 0 then raise refused else pure none

unfoldable pub follow_up :
    ShardStatus → ReportShardStatusParams → ℕ → Task → ℕ → Action (Option CompletionHookPayload)
follow_up ShardStatus.running params task_id task t = mark_task_running task_id task t
follow_up ShardStatus.succeeded params task_id task t =
    recompute_task_status task_id (text_or_empty params.error_message)
follow_up ShardStatus.failed params task_id task t =
    recompute_task_status task_id (text_or_empty params.error_message)
follow_up _ params task_id task t = pure none

-- The body of the transaction, from the locked read of the task on.
unfoldable pub report_loaded :
    ReportShardStatusParams → ℕ → TaskShard → Task → Action (Option CompletionHookPayload)
report_loaded params t shard task =
    when is_duplicate params shard
    then pure none
    else when same_task_status task.status TaskStatus.cancelled
    then raise refused
    else do
      mark_shard params.shard_status params
      store_output params
      follow_up params.shard_status params shard.task_id task t

unfoldable pub report_in_transaction :
    ReportShardStatusParams → ℕ → Action (Option CompletionHookPayload)
report_in_transaction params t = do
  shard ← Shards.get_by_id params.shard_id
  task ← first_task (λ x. x.id == shard.task_id)
  report_loaded params t shard task

unfoldable pub dispatch_payload : Option CompletionHookPayload → Action Unit
dispatch_payload none = pure tt
dispatch_payload (some payload) = dispatch_completion_hook_async payload

-- ReportShardStatus.
unfoldable pub report_shard_status : ReportShardStatusParams → Action Unit
report_shard_status params = do
  t ← now
  payload ← transaction (report_in_transaction params t)
  dispatch_payload payload
