-- ===== src/Orm/Kept/OfTasks.antt =====
-- internal/orm/task_orm under the relation of Action/Evolves.
use r_orchestrator.Prelude.{ℕ, String, List, [], ◌∷◌, arith}
use r_orchestrator.Model.{TaskStatus}
use r_orchestrator.Orm.Kept.{Keeps, update_tasks-then, after_now, read_rules}
use r_orchestrator.Orm.Tasks

pub rollback_task_to_waiting-Keeps : (i : ℕ) → Keeps (Tasks.rollback_task_to_waiting i)
unfolding Tasks.rollback_task_to_waiting
rollback_task_to_waiting-Keeps i = update_tasks-then (λ t h. ground arith) (λ n. search read_rules)

pub cancel_task_by_id-Keeps : (i j : ℕ) → Keeps (Tasks.cancel_task_by_id i j)
unfolding Tasks.cancel_task_by_id
cancel_task_by_id-Keeps i j =
    after_now λ t₀. update_tasks-then (λ t h. ground arith) (λ n. search read_rules)

-- A list of ids has at least one row to change; `status` is never read back.
pub mark_tasks_status-Keeps :
    (is : List ℕ) (status : TaskStatus) (e : String) → Keeps (Tasks.mark_tasks_status is status e)
unfolding Tasks.mark_tasks_status
mark_tasks_status-Keeps [] status e = search read_rules
mark_tasks_status-Keeps (i ∷ is) status e =
    update_tasks-then (λ t h. ground arith) (λ n. search read_rules)

pub get_by_id-Keeps : (i : ℕ) → Keeps (Tasks.get_by_id i)
unfolding Tasks.get_by_id
get_by_id-Keeps i = search read_rules
