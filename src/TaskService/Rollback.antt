-- ===== src/TaskService/Rollback.antt =====
-- rollback_shard.go and cleanup_orphan_shards.go.
use r_orchestrator.Prelude.{ℕ, suc, String, List, [], ◌∷◌, ◌==◌, if◌then◌else◌}
use r_orchestrator.Model.{ShardStatus, Task, TaskShard}
use r_orchestrator.Action.{Action, pure, ◌>>=◌, ◌>>◌, attempt, transaction}
use r_orchestrator.Orm.{first_task}
use r_orchestrator.Orm.Shards
use r_orchestrator.AgentService.{get_all_agent_ids}
use r_orchestrator.TaskService.Validate.{load_validated_shard}

-- RollbackAssignedShard.
unfoldable pub rollback_assigned_shard : ℕ → Task → Action Unit
rollback_assigned_shard shard_id task =
    transaction (Shards.rollback_shard_with_task shard_id (ShardStatus.leased ∷ []) task)

-- The loop of RollbackOrphanShardsForAgent: each shard from the status that was read.
unfoldable pub rollback_each : List TaskShard → Action ℕ
rollback_each [] = pure 0
rollback_each (s ∷ ss) = do
  done ← attempt (Shards.rollback_to_queued s.id (s.status ∷ []))
  rest ← rollback_each ss
  pure (if Shards.succeeded_action done then suc rest else rest)

-- RollbackOrphanShardsForAgent.
unfoldable pub rollback_orphan_shards_for_agent : String → Action ℕ
rollback_orphan_shards_for_agent agent_id = do
  active ← Shards.get_active_task_shard_by_agent agent_id
  rollback_each active

-- RollbackTimedOutShard.
unfoldable pub rollback_timed_out_shard : ℕ → String → ℕ → String → Action Unit
rollback_timed_out_shard shard_id agent_id tenant_id backend_name = do
  shard ← load_validated_shard shard_id agent_id tenant_id backend_name
  task ← first_task (λ t. t.id == shard.task_id)
  transaction (Shards.rollback_shard_with_task shard_id Shards.active_shard_statuses task)

-- CleanupOrphanShards.
unfoldable pub cleanup_orphan_shards : (threshold : ℕ) → Action Unit
cleanup_orphan_shards threshold = do
  registered ← get_all_agent_ids
  Shards.cleanup_orphan_shards registered threshold
  pure tt
