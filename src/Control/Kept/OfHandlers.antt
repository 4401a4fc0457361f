-- ===== src/Control/Kept/OfHandlers.antt =====
-- The message handlers and the timeout callback under the relation of Action/Evolves.
use r_orchestrator.Prelude.{ℕ, String, Option, none, some, List, [], ◌∷◌}
use r_orchestrator.World.{AgentStatus, Agent}
use r_orchestrator.Action.{Result, ok, err, agent_not_found, identity_conflict}
use r_orchestrator.Orm.Kept.{Keeps, in_order, maybe_way, either_way, read_rules}
use r_orchestrator.AgentService.{Reason, heartbeat_timed_out, grace_expired}
use r_orchestrator.AgentService.Kept.{
  register_agent-Keeps, disconnect_agent-Keeps, reset_heartbeat-Keeps, begin_grace-Keeps,
  cancel_timer-Keeps,
}
use r_orchestrator.TaskService.Kept.Reporting.{report_shard_status-Keeps}
use r_orchestrator.TaskService.Kept.Undoing.{
  load_validated_shard-Keeps, validate_shard_report-Keeps, rollback_orphans-Keeps,
  rollback_timed_out_shard-Keeps,
}
use r_orchestrator.Control.Stream.{AgentSession}
use r_orchestrator.Control.Handlers
use r_orchestrator.Control.Connection
use r_orchestrator.Control.Connection.{
  AgentMessage, Received, message, register, heartbeat, shard_accepted, shard_started,
  shard_result_ready, shard_failed, unset, eof, recv_failed, context_done,
}
use r_orchestrator.Control.Timeout
use r_orchestrator.Control.Kept.{control_rules, try_assign_shard-Keeps}

heartbeat_result-Keeps : (r : Result (Unit {0})) → Keeps (Handlers.heartbeat_result r)
unfolding Handlers.heartbeat_result
heartbeat_result-Keeps (ok _) = search read_rules
heartbeat_result-Keeps (err agent_not_found) = search read_rules
heartbeat_result-Keeps (err _) = search read_rules

rollback_if_idle-Keeps :
    (s : AgentSession) (x : AgentStatus) → Keeps (Handlers.rollback_if_idle s x)
unfolding Handlers.rollback_if_idle
rollback_if_idle-Keeps s x = search (control_rules, rollback_orphans-Keeps) depth 8

handle_heartbeat-Keeps :
    (s : AgentSession) (a st c : String) → Keeps (Handlers.handle_heartbeat s a st c)
unfolding Handlers.handle_heartbeat
handle_heartbeat-Keeps s a st c = either_way _ _ _ (search read_rules) (
    in_order (rollback_if_idle-Keeps s _) λ _. in_order (search control_rules) λ done.
      in_order (heartbeat_result-Keeps done)
        λ _. search (control_rules, reset_heartbeat-Keeps, try_assign_shard-Keeps))

parse_shard_id-Keeps : (t : String) → Keeps (Handlers.parse_shard_id t)
unfolding Handlers.parse_shard_id
parse_shard_id-Keeps t = search read_rules

handle_shard_started-Keeps :
    (s : AgentSession) (t : String) → Keeps (Handlers.handle_shard_started s t)
unfolding Handlers.handle_shard_started
handle_shard_started-Keeps s t = in_order (parse_shard_id-Keeps t) λ i.
    in_order (search read_rules) λ text.
      in_order (validate_shard_report-Keeps i _ _ _ _)
        λ _. search (control_rules, report_shard_status-Keeps) depth 8

reset_agent_and_assign-Keeps : (s : AgentSession) → Keeps (Handlers.reset_agent_and_assign s)
unfolding Handlers.reset_agent_and_assign
reset_agent_and_assign-Keeps s = search (control_rules, try_assign_shard-Keeps)

handle_shard_result_ready-Keeps :
    (s : AgentSession) (t k h : String) → Keeps (Handlers.handle_shard_result_ready s t k h)
unfolding Handlers.handle_shard_result_ready
handle_shard_result_ready-Keeps s t k h = in_order (parse_shard_id-Keeps t) λ i.
    in_order (load_validated_shard-Keeps i _ _ _) λ shard. in_order (search read_rules) λ text.
      either_way _ _ _
        (search (control_rules, report_shard_status-Keeps, reset_agent_and_assign-Keeps) depth 8)
        (search (control_rules, reset_agent_and_assign-Keeps) depth 8)

handle_shard_failed-Keeps :
    (s : AgentSession) (t e : String) → Keeps (Handlers.handle_shard_failed s t e)
unfolding Handlers.handle_shard_failed
handle_shard_failed-Keeps s t e = in_order (parse_shard_id-Keeps t) λ i.
    in_order (load_validated_shard-Keeps i _ _ _) λ shard. in_order (search read_rules) λ text.
      either_way _ _ _
        (search (control_rules, report_shard_status-Keeps, reset_agent_and_assign-Keeps) depth 8)
        (search (control_rules, reset_agent_and_assign-Keeps) depth 8)

reset_stale_agent-Keeps : (a : Agent) → Keeps (Handlers.reset_stale_agent a)
unfolding Handlers.reset_stale_agent
reset_stale_agent-Keeps a = search (control_rules, rollback_orphans-Keeps) depth 10

handle_reconnected_agent-Keeps :
    (s : AgentSession) (a : Agent) → Keeps (Handlers.handle_reconnected_agent s a)
unfolding Handlers.handle_reconnected_agent
handle_reconnected_agent-Keeps s a =
    search (control_rules, reset_stale_agent-Keeps, try_assign_shard-Keeps)

pub handle_message-Keeps :
    (s : AgentSession) (m : AgentMessage) → Keeps (Connection.handle_message s m)
unfolding Connection.handle_message
handle_message-Keeps s (heartbeat a st c) = handle_heartbeat-Keeps s a st c
handle_message-Keeps s (shard_accepted i) = search read_rules
handle_message-Keeps s (shard_started i) = handle_shard_started-Keeps s i
handle_message-Keeps s (shard_result_ready i k h) = handle_shard_result_ready-Keeps s i k h
handle_message-Keeps s (shard_failed i e) = handle_shard_failed-Keeps s i e
handle_message-Keeps s (register a t b k) = search read_rules
handle_message-Keeps s unset = search read_rules

receive_loop-Keeps : (s : AgentSession) (rs : List Received) → Keeps (Connection.receive_loop s rs)
unfolding Connection.receive_loop
receive_loop-Keeps s [] = search read_rules
receive_loop-Keeps s (eof ∷ rest) = search read_rules
receive_loop-Keeps s (recv_failed ∷ rest) = search read_rules
receive_loop-Keeps s (context_done ∷ rest) = search read_rules
receive_loop-Keeps s (message m ∷ rest) =
    in_order (handle_message-Keeps s m) (λ _. receive_loop-Keeps s rest)

registration-Keeps : (r : Result (Unit {0})) → Keeps (Connection.registration r)
unfolding Connection.registration
registration-Keeps (ok _) = search read_rules
registration-Keeps (err identity_conflict) = search read_rules
registration-Keeps (err _) = search read_rules

pub disconnected-Keeps : (a : String) → Keeps (Connection.disconnected a)
unfolding Connection.disconnected
disconnected-Keeps a = search (read_rules, begin_grace-Keeps, disconnect_agent-Keeps)

serve_session-Keeps :
    (s : AgentSession) (rs : List Received) → Keeps (Connection.serve_session s rs)
unfolding Connection.serve_session
serve_session-Keeps s rs =
    search (control_rules, handle_reconnected_agent-Keeps, receive_loop-Keeps)

run_session-Keeps : (s : AgentSession) (rs : List Received) → Keeps (Connection.run_session s rs)
unfolding Connection.run_session
run_session-Keeps s rs = in_order (search (read_rules, register_agent-Keeps)) λ r.
    in_order (registration-Keeps r) λ _. in_order (cancel_timer-Keeps _) λ _.
      in_order (reset_heartbeat-Keeps _) λ _.
        in_order (search read_rules)
          λ _. search (read_rules, serve_session-Keeps, disconnected-Keeps)

open_registered-Keeps :
    (x : String) (n : ℕ) (a t b k : String) (rs : List Received)
    → Keeps (Connection.open_registered x n a t b k rs)
unfolding Connection.open_registered
open_registered-Keeps x n a t b k rs = either_way _ _ _ (search read_rules) (
    in_order (search read_rules) λ parsed.
      maybe_way parsed _ _ (search read_rules)
        λ tenant. either_way _ _ _ (search read_rules) (run_session-Keeps _ rs))

pub open_control_stream-Keeps :
    (x : String) (n : ℕ) (rs : List Received) → Keeps (Connection.open_control_stream x n rs)
unfolding Connection.open_control_stream
open_control_stream-Keeps x n [] = search read_rules
open_control_stream-Keeps x n (message (register a t b k) ∷ rs) =
    open_registered-Keeps x n a t b k rs
open_control_stream-Keeps x n (recv_failed ∷ rs) = search read_rules
open_control_stream-Keeps x n (context_done ∷ rs) = search read_rules
open_control_stream-Keeps x n (eof ∷ rs) = search read_rules
open_control_stream-Keeps x n (message _ ∷ rs) = search read_rules

rollback_current-Keeps :
    (i : String) (a : Agent) (x : Option String) → Keeps (Timeout.rollback_current i a x)
unfolding Timeout.rollback_current
rollback_current-Keeps i a none = search read_rules
rollback_current-Keeps i a (some text) = either_way _ _ _ (search read_rules) (
    in_order (search read_rules) λ parsed.
      maybe_way parsed _ _ (search read_rules)
        λ n. search (read_rules, rollback_timed_out_shard-Keeps))

mark_timed_out-Keeps : (i : String) (r : Reason) → Keeps (Timeout.mark_timed_out i r)
unfolding Timeout.mark_timed_out
mark_timed_out-Keeps i heartbeat_timed_out = search read_rules
mark_timed_out-Keeps i grace_expired = search control_rules

timed_out_agent-Keeps :
    (i : String) (r : Reason) (x : Result Agent) → Keeps (Timeout.timed_out_agent i r x)
unfolding Timeout.timed_out_agent
timed_out_agent-Keeps i r (err e) = search read_rules
timed_out_agent-Keeps i r (ok a) = search (read_rules, rollback_current-Keeps, mark_timed_out-Keeps)

pub handle_agent_timeout-Keeps :
    (i : String) (r : Reason) → Keeps (Timeout.handle_agent_timeout i r)
unfolding Timeout.handle_agent_timeout
handle_agent_timeout-Keeps i r = search (control_rules, timed_out_agent-Keeps)
