-- ===== src/AgentService/Kept.antt =====
-- The operations of agent_service under the relation of Action/Evolves.
use r_orchestrator.Prelude.{ℕ, String, Option, some}
use r_orchestrator.World.{AgentStatus, idle, running, disconnected, unresponsive, timed_out, Agent}
use r_orchestrator.Orm.Kept.{Keeps, in_order, maybe_way, either_way, read_rules}
use r_orchestrator.AgentService.{
  Reason, heartbeat_timed_out, grace_expired, TimeoutCallback, put_agent, get_agent,
  heartbeat_agent, reregister, register_agent, disconnect_agent, reset_heartbeat, begin_grace,
  cancel_timer, invoke, mark_unresponsive, heartbeat_missed, on_heartbeat_timeout, on_grace_expired,
}

pub put_agent-Keeps : (i : String) (a : Agent) → Keeps (put_agent i a)
unfolding put_agent
put_agent-Keeps i a = search read_rules

pub get_agent-Keeps : (i : String) → Keeps (get_agent i)
unfolding get_agent
get_agent-Keeps i = search read_rules

pub heartbeat_agent-Keeps :
    (i : String) (s : AgentStatus) (c : Option String) → Keeps (heartbeat_agent i s c)
unfolding heartbeat_agent
heartbeat_agent-Keeps i s c = search (read_rules, put_agent-Keeps)

reregister-Keeps : (s : AgentStatus) (i : String) (e f : Agent) → Keeps (reregister s i e f)
unfolding reregister
reregister-Keeps idle i e f = search read_rules
reregister-Keeps running i e f = search read_rules
reregister-Keeps _ i e f = search (read_rules, put_agent-Keeps)

pub register_agent-Keeps : (i : String) (t : ℕ) (b : String) → Keeps (register_agent i t b)
unfolding register_agent
register_agent-Keeps i t b = in_order (search read_rules) λ now.
    in_order (search read_rules) λ found.
      maybe_way found _ _ (search put_agent-Keeps) λ e. search (read_rules, reregister-Keeps)

pub disconnect_agent-Keeps : (i : String) → Keeps (disconnect_agent i)
unfolding disconnect_agent
disconnect_agent-Keeps i = search (read_rules, put_agent-Keeps)

pub reset_heartbeat-Keeps : (i : String) → Keeps (reset_heartbeat i)
unfolding reset_heartbeat
reset_heartbeat-Keeps i = search read_rules

pub begin_grace-Keeps : (i : String) → Keeps (begin_grace i)
unfolding begin_grace
begin_grace-Keeps i = search read_rules

pub cancel_timer-Keeps : (i : String) → Keeps (cancel_timer i)
unfolding cancel_timer
cancel_timer-Keeps i = search read_rules

mark_unresponsive-Keeps : (i : String) (a : Agent) → Keeps (mark_unresponsive i a)
unfolding mark_unresponsive
mark_unresponsive-Keeps i a = search (read_rules, put_agent-Keeps, reset_heartbeat-Keeps)

module _ (cb : TimeoutCallback) (cb-Keeps : (i : String) (r : Reason) → Keeps (cb i r)) where
  heartbeat_missed-Keeps :
      (s : AgentStatus) (i : String) (a : Agent) → Keeps (heartbeat_missed (some cb) s i a)
  unfolding heartbeat_missed invoke
  heartbeat_missed-Keeps disconnected i a = search read_rules
  heartbeat_missed-Keeps timed_out i a = search read_rules
  heartbeat_missed-Keeps unresponsive i a =
      in_order (put_agent-Keeps i _) (λ _. cb-Keeps i heartbeat_timed_out)
  heartbeat_missed-Keeps _ i a = mark_unresponsive-Keeps i a

  pub on_heartbeat_timeout-Keeps : (i : String) → Keeps (on_heartbeat_timeout (some cb) i)
  unfolding on_heartbeat_timeout
  on_heartbeat_timeout-Keeps i = in_order (cancel_timer-Keeps i) λ _.
      in_order (search read_rules) λ found. in_order (search read_rules) λ t.
        in_order (search read_rules) λ timeout.
          maybe_way found _ _ (search read_rules)
            λ a. either_way _ _ _ (reset_heartbeat-Keeps i) (heartbeat_missed-Keeps a.status i a)

  pub on_grace_expired-Keeps : (i : String) → Keeps (on_grace_expired (some cb) i)
  unfolding on_grace_expired invoke
  on_grace_expired-Keeps i = in_order (cancel_timer-Keeps i) λ _.
      in_order (search read_rules) λ found.
        maybe_way found _ _ (search read_rules)
          λ a. either_way _ _ _ (cb-Keeps i grace_expired) (search read_rules)
