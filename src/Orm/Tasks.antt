-- ===== src/Orm/Tasks.antt =====
-- internal/orm/task_orm.
use r_orchestrator.Prelude.{
  ℕ, String, not, ◌&&◌, ◌||◌, some, List, [], ◌∷◌, ◌++◌, ltb, ◌==◌, if◌then◌else◌, one_of,
  rows_where, sorted_rows, same_text,
}
use r_orchestrator.Model.{
  TaskStatus, Task, TaskShard, same_task_status, task_in, terminal_task_statuses,
}
use r_orchestrator.Action.{
  when◌then◌else◌, Action, record_not_found, refused, pure, raise, ◌>>=◌, ◌>>◌, now,
}
use r_orchestrator.Orm.{is_taken, insert_new, query, first_task, count_tasks, update_tasks}

-- The constants of task.go.
unfoldable pub task_status_text : TaskStatus → String
task_status_text TaskStatus.pending = "PENDING"
task_status_text TaskStatus.waiting_for_agents = "WAITING_FOR_AGENTS"
task_status_text TaskStatus.queued = "QUEUED"
task_status_text TaskStatus.running = "RUNNING"
task_status_text TaskStatus.succeeded = "SUCCEEDED"
task_status_text TaskStatus.failed = "FAILED"
task_status_text TaskStatus.cancelled = "CANCELLED"

-- A task with its Shards field.
pub record TaskWithShards : Type 0 where
  pub task : Task
  pub shards : List TaskShard

-- Create.
unfoldable pub create : (ℕ → Task) → Action Unit
create task =
    insert_new (λ w db. is_taken (λ t. t.id == (task w.clock).id) db.tasks)
      (λ w db. record db { tasks = db.tasks ++ task w.clock ∷ [] })

-- Preload("Shards"), in the order of the script names.
unfoldable pub preload_shards : ℕ → Action (List TaskShard)
preload_shards task_id = query λ o db.
    sorted_rows (λ a b. o.name_before a.script_name b.script_name)
      (rows_where (λ s. s.task_id == task_id) db.shards)

-- GetByID.
unfoldable pub get_by_id : ℕ → Action TaskWithShards
unfolding preload_shards
get_by_id task_id = do
  task ← first_task (λ t. t.id == task_id)
  shards ← preload_shards task.id
  pure (record { task = task; shards = shards })

unfoldable pub preload_each : List Task → Action (List TaskWithShards)
unfolding preload_shards
preload_each [] = pure []
preload_each (t ∷ ts) = do
  shards ← preload_shards t.id
  rest ← preload_each ts
  pure (record { task = t; shards = shards } ∷ rest)

-- ListTasksByTenant: an empty status is no filter.
unfoldable pub list_tasks_by_tenant : ℕ → String → Action (List TaskWithShards)
unfolding preload_each
list_tasks_by_tenant tenant_id status = do
  tasks ← query (λ o db.
      sorted_rows (λ a b. ltb b.created_at a.created_at)
        (rows_where
          (λ t.
            t.tenant_id == tenant_id
            && (same_text status "" || same_text (task_status_text t.status) status))
          db.tasks))
  preload_each tasks

-- GetPendingTaskList.
unfoldable pub get_pending_task_list : Action (List Task)
get_pending_task_list = query λ o db.
    sorted_rows (λ a b. ltb a.created_at b.created_at)
      (rows_where (λ t. same_task_status t.status TaskStatus.pending) db.tasks)

abbrev pub active_task_statuses : List TaskStatus
active_task_statuses =
    TaskStatus.pending ∷ TaskStatus.waiting_for_agents ∷ TaskStatus.queued ∷ TaskStatus.running ∷ []

-- CountActiveTasks.
unfoldable pub count_active_tasks : ℕ → Action ℕ
count_active_tasks tenant_id =
    count_tasks (λ t. t.tenant_id == tenant_id && task_in t.status active_task_statuses)

-- MarkTasksStatus.
unfoldable pub mark_tasks_status : List ℕ → TaskStatus → String → Action Unit
mark_tasks_status [] status last_error = pure tt
mark_tasks_status (i ∷ is) status last_error = do
  update_tasks
      (λ t. one_of (λ a b. a == b) t.id (i ∷ is) && same_task_status t.status TaskStatus.pending)
      (λ t. record t { status = status; last_error = last_error })
  pure tt

-- RollbackTaskToWaiting.
unfoldable pub rollback_task_to_waiting : ℕ → Action Unit
rollback_task_to_waiting task_id = do
  affected ←
      update_tasks (λ t. t.id == task_id && same_task_status t.status TaskStatus.queued)
        (λ t. record t { status = TaskStatus.waiting_for_agents })
  when affected == 0 then raise record_not_found else pure tt

-- CancelTaskById.
unfoldable pub cancel_task_by_id : (tenant_id task_id : ℕ) → Action Unit
cancel_task_by_id tenant_id task_id = do
  t₀ ← now
  affected ←
      update_tasks
        (λ t.
          t.tenant_id == tenant_id
          && t.id == task_id
          && not (task_in t.status terminal_task_statuses))
        (λ t. record t { status = TaskStatus.cancelled; finished_at = some t₀; last_error = "" })
  when affected == 0
      then (do first_task (λ t. t.tenant_id == tenant_id && t.id == task_id); raise refused)
      else pure tt
