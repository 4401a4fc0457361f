-- ===== src/TaskService/Hook.antt =====
-- dispatch_completion_hook.go: the payload, and what a dispatch leaves in the task's row.
pub mod Once
use r_orchestrator.Prelude.{
  ℕ, String, Bool, ◌&&◌, Option, none, some, ◌∷◌, ◌==◌, if◌then◌else◌, is_none, same_text,
}
use r_orchestrator.Model.{TaskStatus, Task}
use r_orchestrator.World.{CompletionHookPayload}
use r_orchestrator.Action.{when◌then◌else◌, Action, pure, ◌>>=◌, ◌>>◌, elsewhere, now}
use r_orchestrator.Orm.{update_tasks}

-- newCompletionHookPayload. A time is a value here, so cloneTimePtr is the identity.
unfoldable pub new_completion_hook_payload :
    Task → TaskStatus → String → Option ℕ → Bool → Option CompletionHookPayload
new_completion_hook_payload task status last_error finished_at result_available =
    if same_text task.completion_hook_url ""
    then none
    else some (record {
      task_id = task.id;
      tenant_id = task.tenant_id;
      status = status;
      last_error = last_error;
      finished_at = finished_at;
      result_available = result_available;
      completion_hook_url = task.completion_hook_url;
    })

-- dispatchCompletionHookAsync, as far as the caller's goroutine runs it: the payload is handed
-- to another goroutine.
unfoldable pub dispatch_completion_hook_async : CompletionHookPayload → Action Unit
dispatch_completion_hook_async payload =
    when same_text payload.completion_hook_url ""
    then pure tt
    else elsewhere (λ w. record w { hooks = payload ∷ w.hooks }) tt

-- What recordCompletionHookResult writes; `some text` is the dispatch's error.
abbrev pub hook_updates : Option String → ℕ → Task → Task
hook_updates (some text) t task = record task { hook_delivered_at = none; hook_last_error = text }
hook_updates none t task = record task { hook_delivered_at = some t; hook_last_error = "" }

-- recordCompletionHookResult.
unfoldable pub record_completion_hook_result : ℕ → Option String → Action Unit
record_completion_hook_result task_id dispatch_err = do
  t ← now
  update_tasks (λ x. x.id == task_id && is_none x.hook_delivered_at) (hook_updates dispatch_err t)
  pure tt

-- The body of the goroutine, when the dispatcher has returned.
unfoldable pub hook_dispatched : CompletionHookPayload → Option String → Action Unit
hook_dispatched payload dispatch_err = record_completion_hook_result payload.task_id dispatch_err
