-- ===== src/TaskService/Recompute.antt =====
-- recompute_task_status.go.
pub mod Steps
pub mod Latest
pub mod Outcome
use r_orchestrator.Prelude.{
  ℕ, suc, String, Bool, true, false, not, ◌&&◌, ◌||◌, Option, none, some, List, [], ◌∷◌, ltb, ◌==◌,
  if◌then◌else◌, same_text,
}
use r_orchestrator.Model.{
  TaskStatus, ShardStatus, Task, TaskShard, same_task_status, same_shard_status, task_in, shard_in,
  terminal_task_statuses, terminal_shard_statuses,
}
use r_orchestrator.World.{CompletionHookPayload}
use r_orchestrator.Action.{
  when◌then◌else◌, Result, ok, err, Action, Error, record_not_found, refused, pure, raise, ◌>>=◌,
  ◌>>◌, attempt, now,
}
use r_orchestrator.Orm.{first_shard_by, count_shards, first_task, update_tasks}
use r_orchestrator.TaskService.Hook.{new_completion_hook_payload}

-- `finished_at DESC`, where PostgreSQL puts NULL first, then `updated_at DESC`.
abbrev pub later_finished : Option ℕ → Option ℕ → Bool
later_finished none none = false
later_finished none (some b) = true
later_finished (some a) none = false
later_finished (some a) (some b) = ltb b a

abbrev pub latest_failure : TaskShard → TaskShard → Bool
latest_failure a b =
    later_finished a.finished_at b.finished_at
    || (not (later_finished b.finished_at a.finished_at) && ltb b.updated_at a.updated_at)

abbrev pub default_failure : String
default_failure = "task failed because one or more shards failed"

unfoldable pub found_failure : String → Result TaskShard → Action String
found_failure fallback (ok s) = pure s.last_error
found_failure fallback (err record_not_found) =
    pure (if same_text fallback "" then default_failure else fallback)
found_failure fallback (err e) = raise e

-- resolveTaskFailureLastError.
unfoldable pub resolve_task_failure_last_error : ℕ → String → Action String
resolve_task_failure_last_error task_id fallback = do
  found ← attempt (
      first_shard_by latest_failure (λ s.
        s.task_id == task_id
        && same_shard_status s.status ShardStatus.failed
        && not (same_text s.last_error "")))
  found_failure fallback found

-- What an UPDATE of no row means, by the status that is there now.
unfoldable pub lost_update : TaskStatus → Action Bool
lost_update TaskStatus.cancelled = raise refused
lost_update TaskStatus.succeeded = pure false
lost_update TaskStatus.failed = pure false
lost_update _ = raise refused

-- updateTaskTerminalStatus.
unfoldable pub update_task_terminal_status : ℕ → (Task → Task) → Action Bool
update_task_terminal_status task_id updates = do
  affected ←
      update_tasks (λ t. t.id == task_id && not (task_in t.status terminal_task_statuses)) updates
  when affected == 0
      then (do current ← first_task (λ t. t.id == task_id); lost_update current.status)
      else pure true

abbrev pub when_updated : Bool → Option CompletionHookPayload → Option CompletionHookPayload
when_updated true payload = payload
when_updated false payload = none

-- The branch of RecomputeTaskStatus for failedCount > 0.
unfoldable pub finish_failed : ℕ → Task → String → ℕ → Action (Option CompletionHookPayload)
finish_failed task_id task last_error finished_at = do
  resolved ← resolve_task_failure_last_error task_id last_error
  updated ← update_task_terminal_status task_id (λ t. record t {
    finished_at = some finished_at;
    status = TaskStatus.failed;
    last_error = resolved;
  })
  pure (
      when_updated updated
        (new_completion_hook_payload task TaskStatus.failed resolved (some finished_at) false))

unfoldable pub finish_succeeded : ℕ → Task → ℕ → Action (Option CompletionHookPayload)
finish_succeeded task_id task finished_at = do
  updated ← update_task_terminal_status task_id (λ t. record t {
    finished_at = some finished_at;
    status = TaskStatus.succeeded;
    last_error = "";
  })
  pure (
      when_updated updated
        (new_completion_hook_payload task TaskStatus.succeeded "" (some finished_at) true))

-- From the two counts on.
unfoldable pub recompute_open : ℕ → Task → String → Action (Option CompletionHookPayload)
recompute_open task_id task last_error = do
  active_count ←
      count_shards (λ s. s.task_id == task_id && not (shard_in s.status terminal_shard_statuses))
  when ltb 0 active_count then pure none else (do
    failed_count ←
        count_shards (λ s. s.task_id == task_id && same_shard_status s.status ShardStatus.failed)
    finished_at ← now
    when ltb 0 failed_count
        then finish_failed task_id task last_error finished_at
        else finish_succeeded task_id task finished_at)

-- RecomputeTaskStatus: the payload is there if this call finished the task and it has a hook.
unfoldable pub recompute_task_status : ℕ → String → Action (Option CompletionHookPayload)
recompute_task_status task_id last_error = do
  task ← first_task (λ t. t.id == task_id)
  when same_task_status task.status TaskStatus.cancelled
      then raise refused
      else (when same_task_status task.status TaskStatus.succeeded
            || same_task_status task.status TaskStatus.failed
          then pure none
          else recompute_open task_id task last_error)
