-- ===== src/TaskService/Recompute/Steps.antt =====
-- The two helpers of RecomputeTaskStatus when no statement fails and nobody else writes.
use r_orchestrator.Prelude.{
  ℕ, suc, ◌≡◌, ap, String, Bool, true, false, not, ◌&&◌, Option, none, some, ◌==◌, if◌then◌else◌,
  row_where, rows_where, least_row, update_where, count_where-In, not_zero, and_true, row_where-In,
  same_text,
}
use r_orchestrator.Model.{
  TaskStatus, ShardStatus, Task, TaskShard, task_in, shard_in, same_shard_status,
  terminal_task_statuses, terminal_shard_statuses,
}
use r_orchestrator.World.{Db, World, Outside}
use r_orchestrator.Action.{ok, when◌then◌else◌}
use r_orchestrator.Action.Quiet.{IsQuiet, Ends, Ends-bind, Ends-pure, Ends-else, Ends-attempt}
use r_orchestrator.Orm.Quiet.{found, first_shard_by-quiet, update_tasks-quiet}
use r_orchestrator.TaskService.Recompute.{
  latest_failure, default_failure, found_failure, resolve_task_failure_last_error,
  update_task_terminal_status,
}

-- The task with this id is the row `t`.
abbrev pub TaskRow : ℕ → Db → Task → Type 0
TaskRow i db t = row_where (λ t. t.id == i) db.tasks ≡ some t

abbrev pub is_terminal_task : Task → Bool
is_terminal_task t = task_in t.status terminal_task_statuses

abbrev pub is_terminal_shard : TaskShard → Bool
is_terminal_shard s = shard_in s.status terminal_shard_statuses

abbrev pub has_failed : TaskShard → Bool
has_failed s = same_shard_status s.status ShardStatus.failed

-- The failed shard of a task whose error is reported: the last to finish of those with an error.
abbrev pub reported_failure : ℕ → Db → Option TaskShard
reported_failure i db =
    least_row latest_failure (
      rows_where (λ s. s.task_id == i && has_failed s && not (same_text s.last_error "")) db.shards)

abbrev pub failure_text : String → Option TaskShard → String
failure_text fallback (some s) = s.last_error
failure_text fallback none = if same_text fallback "" then default_failure else fallback

-- The database with the task's row in its final state.
abbrev pub finished_db : ℕ → TaskStatus → String → ℕ → Db → Db
finished_db i status text t db = record db {
  tasks =
      update_where (λ x. x.id == i && not (is_terminal_task x))
        (λ x. record x { finished_at = some t; status = status; last_error = text }) db.tasks;
}

module _ {o : Outside} (q : IsQuiet o) (w : World) where
  pub resolve-Ends :
      (i : ℕ) (fallback : String)
      → Ends
          (resolve_task_failure_last_error i fallback)
          o
          w
          (ok (failure_text fallback (reported_failure i w.db)))
          w.db
  unfolding resolve_task_failure_last_error
  resolve-Ends i fallback =
      Ends-bind _ _ (Ends-attempt _ (suc w.stmt, first_shard_by-quiet q w _ _))
        λ n. text n (reported_failure i w.db)
    where
      text :
          (n : ℕ) (x : Option TaskShard)
          → Ends
              (found_failure fallback (found x))
              o
              (record w { stmt = n })
              (ok (failure_text fallback x))
              w.db
      text n none = unfold found_failure in Ends-pure _ _ _
      text n (some s) = unfold found_failure in Ends-pure _ _ _

  pub update_terminal-Ends :
      (i : ℕ) (t : Task) (f : Task → Task)
      → TaskRow i w.db t
      → is_terminal_task t ≡ false
      → Ends (update_task_terminal_status i f) o w (ok true) (record w.db {
        tasks = update_where (λ x. x.id == i && not (is_terminal_task x)) f w.db.tasks;
      })
  unfolding update_task_terminal_status
  update_terminal-Ends i t f row live =
      let (there, same) = row_where-In (λ t. t.id == i) t w.db.tasks row in
      Ends-bind _ _ (suc w.stmt, update_tasks-quiet q w _ _)
        λ n.
          Ends-else _ _ _
            (not_zero _ (
              count_where-In (λ x. x.id == i && not (is_terminal_task x)) t w.db.tasks there
                (and_true _ _ same (ap not live))))
            (Ends-pure _ _ _)
