-- ===== src/Control/Kept.antt =====
-- The streams and the assignment of shards under the relation of Action/Evolves.
pub mod OfHandlers
use r_orchestrator.Prelude.{ℕ, String, Option, none, some, List, [], ◌∷◌}
use r_orchestrator.World.{AgentStatus, Agent, ServerMessage}
use r_orchestrator.Action.{
  Action, Error, Result, ok, err, record_not_found, deadline_exceeded, agent_not_found,
  identity_conflict,
}
use r_orchestrator.Orm.Kept.{Keeps, in_order, maybe_way, either_way, read_rules}
use r_orchestrator.AgentService.{Reason, heartbeat_timed_out, grace_expired}
use r_orchestrator.AgentService.Kept.{
  get_agent-Keeps, heartbeat_agent-Keeps, register_agent-Keeps, disconnect_agent-Keeps,
  reset_heartbeat-Keeps, begin_grace-Keeps, cancel_timer-Keeps,
}
use r_orchestrator.TaskService.Lease.{Leased}
use r_orchestrator.TaskService.Kept.Leasing.{lease_next_shard-Keeps}
use r_orchestrator.TaskService.Kept.Reporting.{report_shard_status-Keeps}
use r_orchestrator.TaskService.Kept.Undoing.{
  load_validated_shard-Keeps, validate_shard_report-Keeps, rollback_assigned_shard-Keeps,
  rollback_orphans-Keeps, rollback_timed_out_shard-Keeps,
}
use r_orchestrator.Control.Stream
use r_orchestrator.Control.Stream.{AgentSession}
use r_orchestrator.Control.Assign
use r_orchestrator.Control.Handlers
use r_orchestrator.Control.Connection
use r_orchestrator.Control.Connection.{AgentMessage, Received}
use r_orchestrator.Control.Timeout

pub send-Keeps : (n : ℕ) (m : ServerMessage) → Keeps (Stream.send n m)
unfolding Stream.send
send-Keeps n m = search read_rules

after_notify-Keeps : (a : String) (r : Result (Unit {0})) → Keeps (Stream.after_notify a r)
unfolding Stream.after_notify
after_notify-Keeps a (ok _) = search read_rules
after_notify-Keeps a (err deadline_exceeded) = search read_rules
after_notify-Keeps a (err _) = search read_rules

send_with_context-Keeps : (n : ℕ) (m : ServerMessage) → Keeps (Stream.send_with_context n m)
unfolding Stream.send_with_context
send_with_context-Keeps n m = search (read_rules, send-Keeps)

pub notify_cancel_shard-Keeps : (a : String) (i : ℕ) → Keeps (Stream.notify_cancel_shard a i)
unfolding Stream.notify_cancel_shard
notify_cancel_shard-Keeps a i = in_order (search read_rules) λ stream.
    in_order (search read_rules) λ text.
      maybe_way stream _ _ (search read_rules)
        λ s. search (read_rules, send_with_context-Keeps, after_notify-Keeps)

pub as_internal-Keeps : {A : Type 0} (r : Result A) → Keeps (Assign.as_internal r)
unfolding Assign.as_internal
as_internal-Keeps (ok a) = search read_rules
as_internal-Keeps (err e) = search read_rules

pub oss_call-Keeps : {A : Type 0} (a : A) → Keeps (Assign.oss_call a)
unfolding Assign.oss_call
oss_call-Keeps a = search read_rules

pub ruleset control_rules = (
  read_rules, send-Keeps, as_internal-Keeps, oss_call-Keeps, heartbeat_agent-Keeps, get_agent-Keeps,
)

assign_leased-Keeps : (s : AgentSession) (l : Leased) → Keeps (Assign.assign_leased s l)
unfolding Assign.assign_leased
assign_leased-Keeps s l = search control_rules depth 24

rolled_back-Keeps : (e : Error) (r : Result (Unit {0})) → Keeps (Assign.rolled_back e r)
unfolding Assign.rolled_back
rolled_back-Keeps e (ok _) = search read_rules
rolled_back-Keeps e (err _) = search read_rules

or_roll_back-Keeps :
    (s : AgentSession) (l : Leased) (r : Result (Unit {0})) → Keeps (Assign.or_roll_back s l r)
unfolding Assign.or_roll_back
or_roll_back-Keeps s l (ok _) = search read_rules
or_roll_back-Keeps s l (err e) =
    search (control_rules, rollback_assigned_shard-Keeps, rolled_back-Keeps) depth 8

assign_found-Keeps : (s : AgentSession) (r : Result Leased) → Keeps (Assign.assign_found s r)
unfolding Assign.assign_found
assign_found-Keeps s (ok l) = search (control_rules, assign_leased-Keeps, or_roll_back-Keeps)
assign_found-Keeps s (err record_not_found) = search read_rules
assign_found-Keeps s (err _) = search read_rules

pub try_assign_shard-Keeps : (s : AgentSession) → Keeps (Assign.try_assign_shard s)
unfolding Assign.try_assign_shard
try_assign_shard-Keeps s =
    either_way _ _ _ (search read_rules)
      (search (read_rules, lease_next_shard-Keeps, assign_found-Keeps))
