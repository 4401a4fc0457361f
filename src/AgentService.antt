-- ===== src/AgentService.antt =====
-- internal/service/agent_service: the map of agents and their timers. The two mutexes make each
-- function one step on the maps; a timer that fires is a call of `on_heartbeat_timeout` or
-- `on_grace_expired`.
pub mod Kept
pub mod Identity
use r_orchestrator.Prelude.{
  ℕ, zero, suc, ◌+◌, ◌-◌, ◌*◌, ◌/◌, String, Bool, true, false, not, ◌||◌, ◌&&◌, Option, none, some,
  List, [], ◌∷◌, ltb, ◌==◌, if◌then◌else◌, Dict, at_key, with_key, without_key, keys, same_text,
}
use r_orchestrator.World.{
  AgentStatus, idle, running, disconnected, unresponsive, timed_out, other, Agent, TimerKind, Timer,
  heartbeat, grace, World,
}
use r_orchestrator.Action.{
  maybe, when◌then◌else◌, Action, agent_not_found, identity_conflict, pure, raise, gets, ◌>>=◌,
  ◌>>◌, elsewhere,
}

abbrev pub second : ℕ
second = 1000000000

-- agents[id] = agent
unfoldable pub put_agent : String → Agent → Action Unit
put_agent id agent = elsewhere (λ w. record w { agents = with_key id agent w.agents }) tt

abbrev pub lookup_agent : String → Action (Option Agent)
lookup_agent id = gets (λ o w. at_key id w.agents)

abbrev pub time_unix : Action ℕ
time_unix = gets (λ o w. w.clock / second)

-- GetAgent.
unfoldable pub get_agent : String → Action Agent
get_agent id = do found ← lookup_agent id; maybe found (raise agent_not_found) (λ agent. pure agent)

-- HeartbeatAgent.
unfoldable pub heartbeat_agent : String → AgentStatus → Option String → Action Unit
heartbeat_agent id status current_shard_id = do
  found ← lookup_agent id
  t ← time_unix
  maybe found (raise agent_not_found) (λ agent. put_agent id (record agent {
    status = status;
    current_shard_id = current_shard_id;
    last_heartbeat_at = some t;
  }))

-- The status that a lost agent comes back with: all that is no work in progress is IDLE.
abbrev pub recovery_status : AgentStatus → AgentStatus
recovery_status disconnected = idle
recovery_status idle = idle
recovery_status timed_out = idle
recovery_status unresponsive = idle
recovery_status running = running
recovery_status (other text) = if same_text text "" then idle else other text

abbrev pub fresh_agent : String → ℕ → String → ℕ → Agent
fresh_agent id tenant_id backend_name t = record {
  id = id;
  tenant_id = tenant_id;
  backend_name = backend_name;
  status = idle;
  pre_disconnect_status = other "";
  current_shard_id = none;
  last_heartbeat_at = some t;
}

abbrev pub recovered : Agent → Agent → Agent
recovered existing fresh = record fresh {
  status = recovery_status existing.pre_disconnect_status;
  current_shard_id = existing.current_shard_id;
}

-- The `switch` of RegisterAgent over the status of the agent that is there.
unfoldable pub reregister : AgentStatus → String → Agent → Agent → Action Unit
reregister disconnected id existing fresh = put_agent id (recovered existing fresh)
reregister timed_out id existing fresh = put_agent id (recovered existing fresh)
reregister unresponsive id existing fresh = put_agent id (recovered existing fresh)
reregister running id existing fresh = raise identity_conflict
reregister idle id existing fresh = raise identity_conflict
reregister (other text) id existing fresh = put_agent id fresh

-- RegisterAgent.
unfoldable pub register_agent : String → ℕ → String → Action Unit
register_agent id tenant_id backend_name = do
  t ← time_unix
  found ← lookup_agent id
  maybe found (put_agent id (fresh_agent id tenant_id backend_name t)) (λ existing.
      when not (existing.tenant_id == tenant_id)
        || not (same_text existing.backend_name backend_name)
      then raise identity_conflict
      else reregister existing.status id existing (fresh_agent id tenant_id backend_name t))

-- DisconnectAgent.
unfoldable pub disconnect_agent : String → Action Unit
disconnect_agent id = do
  found ← lookup_agent id
  maybe found (pure tt) (λ agent. put_agent id (record agent {
    pre_disconnect_status = recovery_status agent.status;
    status = disconnected;
  }))

-- ResetHeartbeat: the map holds one timer for each agent, so the old one is stopped.
unfoldable pub reset_heartbeat : String → Action Unit
reset_heartbeat id =
    elsewhere
      (λ w. record w {
        timers =
            with_key id (record { kind = heartbeat; due = w.clock + w.heartbeat_timeout }) w.timers;
      })
      tt

-- BeginGrace.
unfoldable pub begin_grace : String → Action Unit
begin_grace id =
    elsewhere
      (λ w. record w {
        timers = with_key id (record { kind = grace; due = w.clock + w.grace_period }) w.timers;
      })
      tt

-- CancelTimer; also the removal that each timer callback begins with.
unfoldable pub cancel_timer : String → Action Unit
cancel_timer id = elsewhere (λ w. record w { timers = without_key id w.timers }) tt

-- RemoveAgent.
unfoldable pub remove_agent : String → Action Unit
remove_agent id = do
  cancel_timer id
  elsewhere (λ w. record w { agents = without_key id w.agents }) tt

-- SetTimeouts.
unfoldable pub set_timeouts : ℕ → ℕ → Action Unit
set_timeouts hb gp = elsewhere (λ w. record w { heartbeat_timeout = hb; grace_period = gp }) tt

-- GetAllAgentIDs.
unfoldable pub get_all_agent_ids : Action (List String)
get_all_agent_ids = gets (λ o w. keys w.agents)

abbrev pub counts_as_active : AgentStatus → Bool
counts_as_active idle = true
counts_as_active running = true
counts_as_active unresponsive = true
counts_as_active _ = false

unfoldable pub active_tenants : Dict Agent → List ℕ
active_tenants [] = []
active_tenants ((id, a) ∷ m) =
    let rest = active_tenants m in if counts_as_active a.status then a.tenant_id ∷ rest else rest

-- GetActiveTenantIDs: the keys of the map, with repetitions.
unfoldable pub get_active_tenant_ids : Action (List ℕ)
get_active_tenant_ids = gets (λ o w. active_tenants w.agents)

pub data Reason : Type 0 where
  heartbeat_timed_out grace_expired : Reason

abbrev pub TimeoutCallback : Type 0
TimeoutCallback = String → Reason → Action Unit

unfoldable pub invoke : Option TimeoutCallback → String → Reason → Action Unit
invoke none id reason = pure tt
invoke (some on_timeout) id reason = on_timeout id reason

-- A callback is stale if a heartbeat came less than the timeout ago.
abbrev pub is_stale : Option ℕ → (t timeout : ℕ) → Bool
is_stale none t timeout = false
is_stale (some last) t timeout = ltb t (last * second + timeout)

unfoldable pub mark_unresponsive : String → Agent → Action Unit
mark_unresponsive id agent = do
  put_agent id (record agent { status = unresponsive })
  reset_heartbeat id

-- The `switch` of onHeartbeatTimeout.
unfoldable pub heartbeat_missed :
    Option TimeoutCallback → AgentStatus → String → Agent → Action Unit
heartbeat_missed cb disconnected id agent = pure tt
heartbeat_missed cb timed_out id agent = pure tt
heartbeat_missed cb unresponsive id agent = do
  put_agent id (record agent { status = timed_out; current_shard_id = none })
  invoke cb id heartbeat_timed_out
heartbeat_missed cb idle id agent = mark_unresponsive id agent
heartbeat_missed cb running id agent = mark_unresponsive id agent
heartbeat_missed cb (other text) id agent = mark_unresponsive id agent

-- onHeartbeatTimeout.
unfoldable pub on_heartbeat_timeout : Option TimeoutCallback → String → Action Unit
on_heartbeat_timeout cb id = do
  cancel_timer id
  found ← lookup_agent id
  t ← gets (λ o w. w.clock)
  timeout ← gets (λ o w. w.heartbeat_timeout)
  maybe found (pure tt) (λ agent.
      when is_stale agent.last_heartbeat_at t timeout
      then reset_heartbeat id
      else heartbeat_missed cb agent.status id agent)

abbrev pub is_disconnected : AgentStatus → Bool
is_disconnected disconnected = true
is_disconnected _ = false

-- onGraceExpired.
unfoldable pub on_grace_expired : Option TimeoutCallback → String → Action Unit
on_grace_expired cb id = do
  cancel_timer id
  found ← lookup_agent id
  maybe found (pure tt)
      (λ agent. when is_disconnected agent.status then invoke cb id grace_expired else pure tt)
