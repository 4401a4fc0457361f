-- ===== src/Control/Handlers.antt =====
-- The handlers of the agent's messages: handle_heartbeat.go, handle_shard_started.go,
-- handle_shard_result_ready.go, handle_shard_failed.go, handle_reconnected_agent.go.
use r_orchestrator.Prelude.{
  ℕ, String, Bool, true, false, not, ◌&&◌, Option, none, some, if◌then◌else◌, same_text,
}
use r_orchestrator.Model.{ShardStatus, same_shard_status}
use r_orchestrator.World.{
  AgentStatus, idle, running, disconnected, unresponsive, timed_out, other, Agent,
  shard_result_stored,
}
use r_orchestrator.Action.{
  maybe, when◌then◌else◌, Result, ok, err, Action, agent_not_found, grpc, invalid_argument,
  not_found, internal, pure, raise, gets, ◌>>=◌, ◌>>◌, attempt,
}
use r_orchestrator.AgentService.{get_agent, heartbeat_agent, reset_heartbeat}
use r_orchestrator.TaskService.Report.{report_shard_status}
use r_orchestrator.TaskService.Rollback.{rollback_orphan_shards_for_agent}
use r_orchestrator.TaskService.Validate.{load_validated_shard, validate_shard_report}
use r_orchestrator.Control.Stream.{AgentSession, send}
use r_orchestrator.Control.Assign.{as_internal, try_assign_shard}

-- The constants of agent_service, read from a text.
abbrev pub agent_status_of : String → AgentStatus
agent_status_of text =
    if same_text text "IDLE"
    then idle
    else if same_text text "RUNNING"
    then running
    else if same_text text "DISCONNECTED"
    then disconnected
    else if same_text text "UNRESPONSIVE"
    then unresponsive
    else if same_text text "TIMED_OUT"
    then timed_out
    else other text

abbrev pub is_idle : AgentStatus → Bool
is_idle idle = true
is_idle _ = false

abbrev pub is_running : AgentStatus → Bool
is_running running = true
is_running _ = false

-- A proto string field as a pointer: empty is nil.
abbrev pub non_empty : String → Option String
non_empty text = if same_text text "" then none else some text

-- HandleHeartbeat's translation of an agent_service error.
unfoldable pub heartbeat_result : Result (Unit {0}) → Action Unit
heartbeat_result (ok _) = pure tt
heartbeat_result (err agent_not_found) = raise (grpc not_found)
heartbeat_result (err e) = raise (grpc internal)

unfoldable pub rollback_if_idle : AgentSession → AgentStatus → Action Unit
rollback_if_idle sess status =
    when is_idle status
    then (do
      done ← attempt (rollback_orphan_shards_for_agent sess.agent_id)
      as_internal done
      pure tt)
    else pure tt

-- HandleHeartbeat.
unfoldable pub handle_heartbeat :
    AgentSession → (agent_id status current_shard_id : String) → Action Unit
handle_heartbeat sess agent_id status_text current_shard_id =
    when not (same_text agent_id "") && not (same_text agent_id sess.agent_id)
    then raise (grpc invalid_argument)
    else (do
      let status = agent_status_of status_text
      rollback_if_idle sess status
      done ← attempt (heartbeat_agent sess.agent_id status (non_empty current_shard_id))
      heartbeat_result done
      reset_heartbeat sess.agent_id
      when is_idle status then try_assign_shard sess else pure tt)

-- uuid.Parse, with an invalid shard_id as the error.
unfoldable pub parse_shard_id : String → Action ℕ
parse_shard_id text = do
  parsed ← gets (λ o w. o.parse_uuid text)
  maybe parsed (raise (grpc invalid_argument)) (λ n. pure n)

-- HandleShardStarted.
unfoldable pub handle_shard_started : AgentSession → String → Action Unit
handle_shard_started sess text = do
  shard_id ← parse_shard_id text
  shard_text ← gets (λ o w. o.show_uuid shard_id)
  validate_shard_report shard_id sess.agent_id sess.tenant_id sess.backend ShardStatus.leased
  done ← attempt (
      report_shard_status (record {
        shard_id = shard_id;
        shard_status = ShardStatus.running;
        error_message = none;
        output_oss_key = "";
        output_sha256 = "";
      }))
  as_internal done
  marked ← attempt (heartbeat_agent sess.agent_id running (some shard_text))
  as_internal marked

-- resetAgentAndAssign.
unfoldable pub reset_agent_and_assign : AgentSession → Action Unit
reset_agent_and_assign sess = do
  done ← attempt (heartbeat_agent sess.agent_id idle none)
  as_internal done
  try_assign_shard sess

-- `agentErr != nil || agent.CurrentShardID == nil || *agent.CurrentShardID != shardID.String()`
abbrev pub has_moved_on : Result Agent → String → Bool
has_moved_on (err e) shard_text = true
has_moved_on (ok agent) shard_text = elim agent.current_shard_id [
  | none ↦ true
  | some current ↦ not (same_text current shard_text)
]

-- HandleShardResultReady.
unfoldable pub handle_shard_result_ready :
    AgentSession → (shard_id output_oss_key sha256 : String) → Action Unit
handle_shard_result_ready sess text output_oss_key sha256 = do
  shard_id ← parse_shard_id text
  shard ← load_validated_shard shard_id sess.agent_id sess.tenant_id sess.backend
  shard_text ← gets (λ o w. o.show_uuid shard_id)
  when same_shard_status shard.status ShardStatus.running
      then (do
        done ← attempt (
            report_shard_status (record {
              shard_id = shard_id;
              shard_status = ShardStatus.succeeded;
              error_message = none;
              output_oss_key = output_oss_key;
              output_sha256 = sha256;
            }))
        as_internal done
        send sess.stream (shard_result_stored shard_text)
        reset_agent_and_assign sess)
      else (do
        agent ← attempt (get_agent sess.agent_id)
        send sess.stream (shard_result_stored shard_text)
        when has_moved_on agent shard_text then pure tt else reset_agent_and_assign sess)

-- HandleShardFailed.
unfoldable pub handle_shard_failed : AgentSession → (shard_id error_message : String) → Action Unit
handle_shard_failed sess text error_message = do
  shard_id ← parse_shard_id text
  shard ← load_validated_shard shard_id sess.agent_id sess.tenant_id sess.backend
  shard_text ← gets (λ o w. o.show_uuid shard_id)
  when same_shard_status shard.status ShardStatus.running
      then (do
        done ← attempt (
            report_shard_status (record {
              shard_id = shard_id;
              shard_status = ShardStatus.failed;
              error_message = some error_message;
              output_oss_key = "";
              output_sha256 = "";
            }))
        as_internal done
        reset_agent_and_assign sess)
      else (do
        agent ← attempt (get_agent sess.agent_id)
        when has_moved_on agent shard_text then pure tt else reset_agent_and_assign sess)

-- The first part of HandleReconnectedAgent: a RUNNING agent has lost its work.
unfoldable pub reset_stale_agent : Agent → Action Agent
reset_stale_agent agent =
    when is_running agent.status
    then (do
      done ← attempt (heartbeat_agent agent.id idle none)
      as_internal done
      attempt (rollback_orphan_shards_for_agent agent.id)
      found ← attempt (get_agent agent.id)
      as_internal found)
    else pure agent

-- HandleReconnectedAgent.
unfoldable pub handle_reconnected_agent : AgentSession → Agent → Action Unit
handle_reconnected_agent sess registered = do
  agent ← reset_stale_agent registered
  when is_idle agent.status then try_assign_shard sess else pure tt
