-- ===== src/AgentService/Identity.antt =====
-- RegisterAgent and DisconnectAgent: who may take an agent's name, and what comes back with it.
use r_orchestrator.Prelude.{
  ℕ, ◌/◌, ◌≡◌, refl, sym, ◌⊎◌, String, Bool, true, false, not, ◌||◌, some, ◌==◌, arith,
  if◌then◌else◌, at_key, with_key, at_key-stored, same_text,
}
use r_orchestrator.World.{
  AgentStatus, idle, running, disconnected, unresponsive, timed_out, other, Agent, World, Outside,
}
use r_orchestrator.Action.{ok, err, identity_conflict, when◌then◌else◌, ◌>>=◌, ◌>>◌, elsewhere}
use r_orchestrator.AgentService.{
  second, recovery_status, fresh_agent, reregister, put_agent, register_agent, disconnect_agent,
}

-- The owner of a name: a tenant and one of its backends.
abbrev pub is_owner : Agent → ℕ → String → Bool
is_owner a tenant_id backend_name =
    not (not (a.tenant_id == tenant_id) || not (same_text a.backend_name backend_name))

module _ (o : Outside) (w : World) (id : String) (tenant_id : ℕ) (backend_name : String) (a : Agent)
    (known : at_key id w.agents ≡ some a) where
  -- A name that is registered is refused to every other tenant and backend, whatever the status of
  -- its agent, and nothing changes.
  pub register-foreign :
      is_owner a tenant_id backend_name ≡ false
      → register_agent id tenant_id backend_name o w ≡ (err identity_conflict, w)
  unfolding register_agent ◌>>=◌ when◌then◌else◌
  register-foreign h = rw (known, flip _ h) refl
    where
      flip : (b : Bool) → not b ≡ false → b ≡ true
      flip b e = ground arith

  module _ (owner : is_owner a tenant_id backend_name ≡ true) where
    -- The agent of a name is refused a second registration while it is IDLE or RUNNING, and nothing
    -- changes.
    pub register-connected :
        (a.status ≡ idle) ⊎ (a.status ≡ running)
        → register_agent id tenant_id backend_name o w ≡ (err identity_conflict, w)
    unfolding register_agent ◌>>=◌ when◌then◌else◌
    register-connected h = rw (known, flip _ owner) (refused a.status h)
      where
        flip : (b : Bool) → not b ≡ true → b ≡ false
        flip b e = ground arith

        refused :
            (s : AgentStatus)
            → (s ≡ idle) ⊎ (s ≡ running)
            → reregister s id a (fresh_agent id tenant_id backend_name (w.clock / second)) o w
              ≡ (err identity_conflict, w)
        refused idle h = unfold reregister in refl
        refused running h = unfold reregister in refl
        refused _ h = ground arith

-- The status that an agent has after its stream was lost: RUNNING and a status of another name are
-- kept, and each other status becomes IDLE.
abbrev pub kept_status : AgentStatus → AgentStatus
kept_status running = running
kept_status (other text) = if same_text text "" then idle else other text
kept_status _ = idle

recovery_status-kept : (s : AgentStatus) → recovery_status s ≡ kept_status s
recovery_status-kept idle = refl
recovery_status-kept running = refl
recovery_status-kept disconnected = refl
recovery_status-kept unresponsive = refl
recovery_status-kept timed_out = refl
recovery_status-kept (other text) = refl

recovery_status-twice : (s : AgentStatus) → recovery_status (recovery_status s) ≡ recovery_status s
recovery_status-twice (other text) = split (same_text text "") refl
  where
    split :
        (b : Bool)
        → same_text text "" ≡ b
        → recovery_status (if b then idle else other text) ≡ (if b then idle else other text)
    split true e = refl
    split false e = rw e refl
recovery_status-twice _ = refl

-- An agent whose stream is gone.
abbrev pub gone : Agent → Agent
gone a = record a { pre_disconnect_status = kept_status a.status; status = disconnected }

-- The agent that its owner's next registration makes of it.
abbrev pub back : String → ℕ → String → ℕ → Agent → Agent
back id tenant_id backend_name t a = record {
  id = id;
  tenant_id = tenant_id;
  backend_name = backend_name;
  status = kept_status a.status;
  pre_disconnect_status = other "";
  current_shard_id = a.current_shard_id;
  last_heartbeat_at = some t;
}

-- An agent whose stream ends and that registers again as the same tenant and backend has its shard
-- back, and its status: RUNNING if it was RUNNING, and IDLE for each of the other four statuses of
-- agent_service.
pub disconnect-register :
    (o : Outside) (w : World) (id : String) (tenant_id : ℕ) (backend_name : String) (a : Agent)
    → at_key id w.agents ≡ some a
    → is_owner a tenant_id backend_name ≡ true
    → (disconnect_agent id >> register_agent id tenant_id backend_name) o w ≡ (
      ok tt,
      record w {
        agents =
            with_key id
              (back id tenant_id backend_name (w.clock / second) a)
              (with_key id (gone a) w.agents);
      },
    )
unfolding ◌>>=◌ elsewhere disconnect_agent register_agent reregister put_agent when◌then◌else◌
disconnect-register o w id tenant_id backend_name a known owner =
    rw
      (
        sym (recovery_status-kept a.status),
        known,
        at_key-stored id (lost a) w.agents,
        flip _ owner,
        recovery_status-twice a.status,
      )
      refl
  where
    lost : Agent → Agent
    lost a = record a { pre_disconnect_status = recovery_status a.status; status = disconnected }

    flip : (b : Bool) → not b ≡ true → b ≡ false
    flip b e = ground arith
