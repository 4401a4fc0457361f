-- ===== src/TaskService/Queries.antt =====
-- get_task.go and list_tasks.go.
use r_orchestrator.Prelude.{ℕ, String, List, ◌==◌, if◌then◌else◌}
use r_orchestrator.Action.{
  when◌then◌else◌, Result, ok, err, Action, record_not_found, task_not_found, pure, raise, ◌>>=◌,
  attempt,
}
use r_orchestrator.Orm.Tasks
use r_orchestrator.Orm.Tasks.{TaskWithShards}
use r_orchestrator.Orm.Tenants
use r_orchestrator.TaskService.Cancel.{or_raise_tenant}

unfoldable pub or_raise_task : {A : Type 0} → Result A → Action A
or_raise_task (ok a) = pure a
or_raise_task (err record_not_found) = raise task_not_found
or_raise_task (err e) = raise e

-- GetTask.
unfoldable pub get_task : String → ℕ → Action TaskWithShards
get_task tenant_name task_id = do
  found ← attempt (Tenants.get_by_name tenant_name)
  tenant ← or_raise_tenant found
  loaded ← attempt (Tasks.get_by_id task_id)
  result ← or_raise_task loaded
  when result.task.tenant_id == tenant.id then pure result else raise task_not_found

-- ListTasks.
unfoldable pub list_tasks : String → String → Action (List TaskWithShards)
list_tasks tenant_name status = do
  found ← attempt (Tenants.get_by_name tenant_name)
  tenant ← or_raise_tenant found
  Tasks.list_tasks_by_tenant tenant.id status
