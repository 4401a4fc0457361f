-- ===== src/Control/Timeout.antt =====
-- handle_agent_timeout.go: the callback of agent_service's timers.
pub mod Strikes
pub mod Grace
use r_orchestrator.Prelude.{
  ℕ, String, Bool, true, false, Option, none, some, if◌then◌else◌, same_text,
}
use r_orchestrator.World.{timed_out, Agent}
use r_orchestrator.Action.{
  maybe, when◌then◌else◌, Result, ok, err, Action, pure, gets, ◌>>=◌, ◌>>◌, attempt,
}
use r_orchestrator.AgentService.{
  Reason, heartbeat_timed_out, grace_expired, get_agent, heartbeat_agent,
}
use r_orchestrator.TaskService.Rollback.{rollback_timed_out_shard}

-- An error of the rollback is logged at most.
unfoldable pub rollback_current : String → Agent → Option String → Action Unit
rollback_current agent_id agent none = pure tt
rollback_current agent_id agent (some text) = when same_text text "" then pure tt else do
  parsed ← gets (λ o w. o.parse_uuid text)
  maybe parsed (pure tt) (λ shard_id. (do
    attempt (rollback_timed_out_shard shard_id agent_id agent.tenant_id agent.backend_name)
    pure tt))

unfoldable pub mark_timed_out : String → Reason → Action Unit
mark_timed_out agent_id heartbeat_timed_out = pure tt
mark_timed_out agent_id grace_expired = do
  attempt (heartbeat_agent agent_id timed_out none)
  pure tt

unfoldable pub timed_out_agent : String → Reason → Result Agent → Action Unit
timed_out_agent agent_id reason (err e) = pure tt
timed_out_agent agent_id reason (ok agent) = do
  rollback_current agent_id agent agent.current_shard_id
  mark_timed_out agent_id reason

-- HandleAgentTimeout.
unfoldable pub handle_agent_timeout : String → Reason → Action Unit
handle_agent_timeout agent_id reason = do
  found ← attempt (get_agent agent_id)
  timed_out_agent agent_id reason found
