-- ===== src/Model.antt =====
-- The database rows of internal/model: tenant.go, task.go, task_shard.go, cluster.go.
-- A UUID is a number, and uuid.Nil is 0. A time is a number of nanoseconds. The embedded
-- DeletedAt is left out: nothing in the program deletes a row.
use r_orchestrator.Prelude.{ℕ, String, Bool, true, false, Option, List, [], ◌∷◌, one_of}

pub data TaskStatus : Type 0 where
  pending waiting_for_agents queued running succeeded failed cancelled : TaskStatus

pub data ShardStatus : Type 0 where
  queued leased running succeeded failed cancelled : ShardStatus

pub data ClusterStatus : Type 0 where
  provisioning active terminated : ClusterStatus

pub record Tenant : Type 0 where
  pub id : ℕ
  pub name : String
  pub primary_backend_name : String
  pub max_agents : ℕ

pub record Task : Type 0 where
  pub id : ℕ
  pub created_at : ℕ
  pub tenant_id : ℕ
  pub status : TaskStatus
  pub completion_hook_url : String
  pub shard_count : ℕ
  pub started_at : Option ℕ
  pub finished_at : Option ℕ
  pub hook_delivered_at : Option ℕ
  pub hook_last_error : String
  pub last_error : String

-- `assigned_agent_id` is a nullable column, written NULL by some statements and '' by others.
pub record TaskShard : Type 0 where
  pub id : ℕ
  pub updated_at : ℕ
  pub task_id : ℕ
  pub script_name : String
  pub status : ShardStatus
  pub assigned_agent_id : Option String
  pub output_oss_key : String
  pub output_sha256 : String
  pub started_at : Option ℕ
  pub finished_at : Option ℕ
  pub last_error : String

pub record Cluster : Type 0 where
  pub id : ℕ
  pub created_at : ℕ
  pub tenant_id : ℕ
  pub status : ClusterStatus
  pub backend_name : String
  pub billing_cycle_seconds : ℕ
  pub next_billing_boundary_at : ℕ
  pub idle_since : Option ℕ

abbrev pub same_task_status : TaskStatus → TaskStatus → Bool
same_task_status pending pending = true
same_task_status waiting_for_agents waiting_for_agents = true
same_task_status TaskStatus.queued TaskStatus.queued = true
same_task_status TaskStatus.running TaskStatus.running = true
same_task_status TaskStatus.succeeded TaskStatus.succeeded = true
same_task_status TaskStatus.failed TaskStatus.failed = true
same_task_status TaskStatus.cancelled TaskStatus.cancelled = true
same_task_status _ _ = false

abbrev pub same_shard_status : ShardStatus → ShardStatus → Bool
same_shard_status ShardStatus.queued ShardStatus.queued = true
same_shard_status leased leased = true
same_shard_status ShardStatus.running ShardStatus.running = true
same_shard_status ShardStatus.succeeded ShardStatus.succeeded = true
same_shard_status ShardStatus.failed ShardStatus.failed = true
same_shard_status ShardStatus.cancelled ShardStatus.cancelled = true
same_shard_status _ _ = false

abbrev pub same_cluster_status : ClusterStatus → ClusterStatus → Bool
same_cluster_status provisioning provisioning = true
same_cluster_status active active = true
same_cluster_status terminated terminated = true
same_cluster_status _ _ = false

-- `status IN ?`
abbrev pub task_in : TaskStatus → List TaskStatus → Bool
task_in = one_of same_task_status

abbrev pub shard_in : ShardStatus → List ShardStatus → Bool
shard_in = one_of same_shard_status

-- The lists that task_service and task_orm write out as `terminalStatuses`.
abbrev pub terminal_task_statuses : List TaskStatus
terminal_task_statuses = TaskStatus.succeeded ∷ TaskStatus.failed ∷ TaskStatus.cancelled ∷ []

abbrev pub terminal_shard_statuses : List ShardStatus
terminal_shard_statuses = ShardStatus.succeeded ∷ ShardStatus.failed ∷ ShardStatus.cancelled ∷ []
