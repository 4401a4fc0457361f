-- ===== src/TaskService/Kept/Undoing.antt =====
-- rollback_shard.go, validate_shard.go, cancel_task.go and the queries under the relation of
-- Action/Evolves.
use r_orchestrator.Prelude.{
  ◌&&◌, ℕ, ◌≡◌, String, true, Option, none, some, List, [], ◌∷◌, arith, All,
}
use r_orchestrator.Model.{ShardStatus, Task, TaskShard, shard_in}
use r_orchestrator.World.{CompletionHookPayload}
use r_orchestrator.Action.{Result, ok, err, record_not_found, ◌>>=◌}
use r_orchestrator.Action.Evolves.{Evolves-Preorder}
use r_orchestrator.Action.Guarantee.{
  Guarantees-attempt, Guarantees-transaction, Guarantees-bind_yielded,
}
use r_orchestrator.Orm.Kept.{
  Keeps, in_order, read_rules, find_shards-Yields, find_shards-Keeps, either_way,
}
use r_orchestrator.Orm.Kept.OfShards.{
  NoneTerminal, rollback_to_queued-Keeps, rollback_active-Keeps, rollback_shard_with_task-Keeps,
  leased_NoneTerminal, cancel_task_shards_by_task_id-Keeps, get_by_id-Keeps,
  get_shard_task_owner-Keeps, cleanup_orphan_shards-Keeps,
}
use r_orchestrator.Orm.Kept.OfTasks
use r_orchestrator.Orm.Kept.OfOthers.{tenant_by_name-Keeps}
use r_orchestrator.Orm.Shards
use r_orchestrator.Orm.Tasks
use r_orchestrator.AgentService
use r_orchestrator.TaskService.Rollback
use r_orchestrator.TaskService.Validate
use r_orchestrator.TaskService.Cancel
use r_orchestrator.TaskService.Kept.Reporting.{dispatch-Keeps}
use r_orchestrator.TaskService.Cancel.{NotifyCancelShard}

loaded-Keeps : {A : Type 0} (r : Result A) → Keeps (Validate.loaded r)
unfolding Validate.loaded
loaded-Keeps (ok a) = search read_rules
loaded-Keeps (err record_not_found) = search read_rules
loaded-Keeps (err _) = search read_rules

check_owner-Keeps :
    (s : TaskShard) (x : Shards.ShardTaskOwner) (t : ℕ) (b : String)
    → Keeps (Validate.check_owner s x t b)
unfolding Validate.check_owner
check_owner-Keeps s x t b = search read_rules

pub load_validated_shard-Keeps :
    (i : ℕ) (a : String) (t : ℕ) (b : String) → Keeps (Validate.load_validated_shard i a t b)
unfolding Validate.load_validated_shard
load_validated_shard-Keeps i a t b = either_way _ _ _ (search read_rules) (
    in_order (search (read_rules, get_by_id-Keeps)) λ found.
      in_order (loaded-Keeps found)
        λ shard. search (read_rules, get_shard_task_owner-Keeps, loaded-Keeps, check_owner-Keeps))

pub validate_shard_report-Keeps :
    (i : ℕ) (a : String) (t : ℕ) (b : String) (st : ShardStatus)
    → Keeps (Validate.validate_shard_report i a t b st)
unfolding Validate.validate_shard_report
validate_shard_report-Keeps i a t b st = search (read_rules, load_validated_shard-Keeps)

pub rollback_assigned_shard-Keeps :
    (i : ℕ) (t : Task) → Keeps (Rollback.rollback_assigned_shard i t)
unfolding Rollback.rollback_assigned_shard
rollback_assigned_shard-Keeps i t =
    Guarantees-transaction Evolves-Preorder _
      (rollback_shard_with_task-Keeps i _ t leased_NoneTerminal)

-- The shards that were read are leased or running, and each is rolled back from what was read.
rollback_each-Keeps :
    (agent : String) (ss : List TaskShard)
    → All
        (λ s.
          (Shards.assigned_to agent s.assigned_agent_id
            && shard_in s.status Shards.active_shard_statuses)
          ≡ true)
        ss
    → Keeps (Rollback.rollback_each ss)
unfolding Rollback.rollback_each
rollback_each-Keeps agent [] h = search read_rules
rollback_each-Keeps agent (s ∷ ss) h =
    in_order
      (Guarantees-attempt Evolves-Preorder _ (rollback_to_queued-Keeps s.id _ (single s h.0)))
      λ done. in_order (rollback_each-Keeps agent ss h.1) (λ n. search read_rules)
  where
    single :
        (s : TaskShard)
        → (Shards.assigned_to agent s.assigned_agent_id
            && shard_in s.status Shards.active_shard_statuses)
          ≡ true
        → NoneTerminal (s.status ∷ [])
    single s e x m = ground arith

pub rollback_orphans-Keeps :
    (agent : String) → Keeps (Rollback.rollback_orphan_shards_for_agent agent)
unfolding Rollback.rollback_orphan_shards_for_agent Shards.get_active_task_shard_by_agent
rollback_orphans-Keeps agent =
    Guarantees-bind_yielded Evolves-Preorder _ _ _ (find_shards-Keeps _) (find_shards-Yields _)
      (rollback_each-Keeps agent)

pub rollback_timed_out_shard-Keeps :
    (i : ℕ) (a : String) (t : ℕ) (b : String) → Keeps (Rollback.rollback_timed_out_shard i a t b)
unfolding Rollback.rollback_timed_out_shard
rollback_timed_out_shard-Keeps i a t b =
    search (read_rules, load_validated_shard-Keeps, rollback_active-Keeps)

pub cleanup-Keeps : (threshold : ℕ) → Keeps (Rollback.cleanup_orphan_shards threshold)
unfolding Rollback.cleanup_orphan_shards AgentService.get_all_agent_ids
cleanup-Keeps threshold = search (read_rules, cleanup_orphan_shards-Keeps)

pub or_raise_tenant-Keeps : {A : Type 0} (r : Result A) → Keeps (Cancel.or_raise_tenant r)
unfolding Cancel.or_raise_tenant
or_raise_tenant-Keeps (ok a) = search read_rules
or_raise_tenant-Keeps (err e) = search read_rules

notify_each-Keeps :
    (f : NotifyCancelShard)
    → ((a : String) (i : ℕ) → Keeps (f a i))
    → (ss : List TaskShard) → Keeps (Cancel.notify_each f ss)
unfolding Cancel.notify_each
notify_each-Keeps f h [] = search read_rules
notify_each-Keeps f h (s ∷ ss) =
    in_order (Guarantees-attempt Evolves-Preorder _ (h _ s.id)) (λ _. notify_each-Keeps f h ss)

dispatch_cancelled-Keeps :
    (i : ℕ) (x : Option CompletionHookPayload) → Keeps (Cancel.dispatch_cancelled i x)
unfolding Cancel.dispatch_cancelled
dispatch_cancelled-Keeps i none = search read_rules
dispatch_cancelled-Keeps i (some p) = search (read_rules, OfTasks.get_by_id-Keeps, dispatch-Keeps)

cancel_both-Keeps :
    (n i : ℕ) → Keeps (Tasks.cancel_task_by_id n i >>= λ _. Shards.cancel_task_shards_by_task_id i)
cancel_both-Keeps n i =
    search (read_rules, OfTasks.cancel_task_by_id-Keeps, cancel_task_shards_by_task_id-Keeps)

pub cancel_task-Keeps :
    (f : NotifyCancelShard)
    → ((a : String) (i : ℕ) → Keeps (f a i))
    → (tenant : String) (i : ℕ) → Keeps (Cancel.cancel_task (some f) tenant i)
unfolding Cancel.cancel_task Cancel.cancel_in_transaction Cancel.notify_all
cancel_task-Keeps f h tenant i = in_order (search (read_rules, tenant_by_name-Keeps)) λ found.
    in_order (or_raise_tenant-Keeps found) λ n. in_order (OfTasks.get_by_id-Keeps i) λ t.
      in_order (find_shards-Keeps _) λ ss.
        in_order (Guarantees-transaction Evolves-Preorder _ (cancel_both-Keeps n.id i))
          λ _. in_order (dispatch_cancelled-Keeps i _) (λ _. notify_each-Keeps f h ss)
