-- ===== src/TaskService/Kept/Reporting.antt =====
-- report_shard_status.go and recompute_task_status.go under the relation of Action/Evolves.
use r_orchestrator.Prelude.{◌==◌, ◌&&◌, not, ℕ, ◌≡◌, String, true, Option, none, some, arith}
use r_orchestrator.Model.{TaskStatus, ShardStatus, Task, TaskShard, task_in, terminal_task_statuses}
use r_orchestrator.World.{CompletionHookPayload}
use r_orchestrator.Action.{Result, ok, err, record_not_found}
use r_orchestrator.Action.Evolves.{TaskEdge}
use r_orchestrator.Orm.Kept.{
  Keeps, in_order, read_rules, after_now, update_shards-then, update_tasks-then, either_way,
}
use r_orchestrator.Orm.Kept.OfShards.{
  mark_running-Keeps, mark_succeeded-Keeps, mark_failed-Keeps, get_by_id-Keeps,
}
use r_orchestrator.TaskService.Hook
use r_orchestrator.TaskService.Recompute
use r_orchestrator.TaskService.Report
use r_orchestrator.TaskService.Report.{ReportShardStatusParams}

pub dispatch-Keeps : (p : CompletionHookPayload) → Keeps (Hook.dispatch_completion_hook_async p)
unfolding Hook.dispatch_completion_hook_async
dispatch-Keeps p = search read_rules

pub hook_dispatched-Keeps :
    (p : CompletionHookPayload) (e : Option String) → Keeps (Hook.hook_dispatched p e)
unfolding Hook.hook_dispatched Hook.record_completion_hook_result
hook_dispatched-Keeps p none =
    after_now λ t. update_tasks-then (λ x h. ground arith) (λ n. search read_rules)
hook_dispatched-Keeps p (some e) =
    after_now λ t. update_tasks-then (λ x h. ground arith) (λ n. search read_rules)

found_failure-Keeps : (e : String) (r : Result TaskShard) → Keeps (Recompute.found_failure e r)
unfolding Recompute.found_failure
found_failure-Keeps e (ok s) = search read_rules
found_failure-Keeps e (err record_not_found) = search read_rules
found_failure-Keeps e (err _) = search read_rules

lost_update-Keeps : (s : TaskStatus) → Keeps (Recompute.lost_update s)
unfolding Recompute.lost_update
lost_update-Keeps TaskStatus.cancelled = search read_rules
lost_update-Keeps TaskStatus.succeeded = search read_rules
lost_update-Keeps TaskStatus.failed = search read_rules
lost_update-Keeps _ = search read_rules

resolve-Keeps : (i : ℕ) (e : String) → Keeps (Recompute.resolve_task_failure_last_error i e)
unfolding Recompute.resolve_task_failure_last_error
resolve-Keeps i e = search (read_rules, found_failure-Keeps)

-- A terminal status is only written over one that is not.
terminal-then :
    (i : ℕ) (f : Task → Task)
    → ((t : Task)
        → (t.id == i && not (task_in t.status terminal_task_statuses)) ≡ true
        → TaskEdge t (f t))
    → Keeps (Recompute.update_task_terminal_status i f)
unfolding Recompute.update_task_terminal_status
terminal-then i f h = update_tasks-then h (λ n. search (read_rules, lost_update-Keeps))

finish_failed-Keeps :
    (i : ℕ) (t : Task) (e : String) (n : ℕ) → Keeps (Recompute.finish_failed i t e n)
unfolding Recompute.finish_failed
finish_failed-Keeps i t e n =
    in_order (resolve-Keeps i e)
      λ text. in_order (terminal-then i _ (λ x h. ground arith)) (λ u. search read_rules)

finish_succeeded-Keeps : (i : ℕ) (t : Task) (n : ℕ) → Keeps (Recompute.finish_succeeded i t n)
unfolding Recompute.finish_succeeded
finish_succeeded-Keeps i t n =
    in_order (terminal-then i _ (λ x h. ground arith)) (λ u. search read_rules)

recompute_open-Keeps : (i : ℕ) (t : Task) (e : String) → Keeps (Recompute.recompute_open i t e)
unfolding Recompute.recompute_open
recompute_open-Keeps i t e = in_order (search read_rules) λ n.
    either_way _ _ _ (search read_rules) (
      in_order (search read_rules)
        λ m. after_now λ now. search (read_rules, finish_failed-Keeps, finish_succeeded-Keeps))

pub recompute-Keeps : (i : ℕ) (e : String) → Keeps (Recompute.recompute_task_status i e)
unfolding Recompute.recompute_task_status
recompute-Keeps i e = search (read_rules, recompute_open-Keeps)

mark_shard-Keeps : (s : ShardStatus) (p : ReportShardStatusParams) → Keeps (Report.mark_shard s p)
unfolding Report.mark_shard
mark_shard-Keeps ShardStatus.running p = mark_running-Keeps p.shard_id
mark_shard-Keeps ShardStatus.succeeded p = mark_succeeded-Keeps p.shard_id
mark_shard-Keeps ShardStatus.failed p = mark_failed-Keeps p.shard_id _
mark_shard-Keeps _ p = search read_rules

store_output-Keeps : (p : ReportShardStatusParams) → Keeps (Report.store_output p)
unfolding Report.store_output
store_output-Keeps p =
    either_way _ _ _ (update_shards-then (λ x h. ground arith) (λ n. search read_rules))
      (search read_rules)

mark_task_running-Keeps : (i : ℕ) (t : Task) (n : ℕ) → Keeps (Report.mark_task_running i t n)
unfolding Report.mark_task_running
mark_task_running-Keeps i t n = update_tasks-then (λ x h. ground arith) (λ n. search read_rules)

follow_up-Keeps :
    (s : ShardStatus) (p : ReportShardStatusParams) (i : ℕ) (t : Task) (n : ℕ)
    → Keeps (Report.follow_up s p i t n)
unfolding Report.follow_up
follow_up-Keeps ShardStatus.running p i t n = mark_task_running-Keeps i t n
follow_up-Keeps ShardStatus.succeeded p i t n = recompute-Keeps i _
follow_up-Keeps ShardStatus.failed p i t n = recompute-Keeps i _
follow_up-Keeps _ p i t n = search read_rules

report_loaded-Keeps :
    (p : ReportShardStatusParams) (n : ℕ) (s : TaskShard) (t : Task)
    → Keeps (Report.report_loaded p n s t)
unfolding Report.report_loaded
report_loaded-Keeps p n s t = either_way _ _ _ (search read_rules) (
    either_way _ _ _ (search read_rules)
      (search (read_rules, mark_shard-Keeps, store_output-Keeps, follow_up-Keeps)))

dispatch_payload-Keeps : (x : Option CompletionHookPayload) → Keeps (Report.dispatch_payload x)
unfolding Report.dispatch_payload
dispatch_payload-Keeps none = search read_rules
dispatch_payload-Keeps (some p) = dispatch-Keeps p

pub report_shard_status-Keeps : (p : ReportShardStatusParams) → Keeps (Report.report_shard_status p)
unfolding Report.report_shard_status Report.report_in_transaction
report_shard_status-Keeps p =
    after_now λ t. search (read_rules, get_by_id-Keeps, report_loaded-Keeps, dispatch_payload-Keeps)
