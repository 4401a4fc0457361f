-- ===== src/TaskService/Validate.antt =====
-- validate_shard.go.
pub mod Owner
pub mod Accepts
use r_orchestrator.Prelude.{
  ℕ, String, Bool, not, ◌&&◌, Option, none, some, ◌==◌, if◌then◌else◌, same_text,
}
use r_orchestrator.Model.{
  ShardStatus, TaskShard, same_shard_status, shard_in, terminal_shard_statuses,
}
use r_orchestrator.Action.{
  when◌then◌else◌, Result, ok, err, Action, record_not_found, grpc, invalid_argument, not_found,
  internal, permission_denied, failed_precondition, pure, raise, ◌>>=◌, attempt,
}
use r_orchestrator.Orm.Shards
use r_orchestrator.Orm.Shards.{ShardTaskOwner}

-- A load error as a gRPC status.
unfoldable pub loaded : {A : Type 0} → Result A → Action A
loaded (ok a) = pure a
loaded (err record_not_found) = raise (grpc not_found)
loaded (err e) = raise (grpc internal)

-- The Go string that a nullable column is scanned into.
abbrev pub column_text : Option String → String
column_text none = ""
column_text (some text) = text

abbrev pub is_foreign : TaskShard → String → Bool
is_foreign shard agent_id =
    not (same_text (column_text shard.assigned_agent_id) agent_id)
    && not (shard_in shard.status terminal_shard_statuses)

unfoldable pub check_owner : TaskShard → ShardTaskOwner → ℕ → String → Action TaskShard
check_owner shard owner tenant_id backend_name =
    when not (owner.tenant_id == tenant_id)
    then raise (grpc permission_denied)
    else when not (same_text owner.primary_backend_name backend_name)
    then raise (grpc permission_denied)
    else pure shard

-- LoadValidatedShard.
unfoldable pub load_validated_shard : ℕ → String → ℕ → String → Action TaskShard
load_validated_shard shard_id agent_id tenant_id backend_name =
    when shard_id == 0 then raise (grpc invalid_argument) else do
      found ← attempt (Shards.get_by_id shard_id)
      shard ← loaded found
      when is_foreign shard agent_id then raise (grpc permission_denied) else do
        joined ← attempt (Shards.get_shard_task_owner shard.task_id)
        owner ← loaded joined
        check_owner shard owner tenant_id backend_name

-- ValidateShardReport.
unfoldable pub validate_shard_report : ℕ → String → ℕ → String → ShardStatus → Action Unit
validate_shard_report shard_id agent_id tenant_id backend_name required_status = do
  shard ← load_validated_shard shard_id agent_id tenant_id backend_name
  when same_shard_status shard.status required_status
      then pure tt
      else raise (grpc failed_precondition)
