-- ===== src/Examples/Agents.antt =====
-- Agents, their timers and a whole run on the data of Examples/Data.
use r_orchestrator.Prelude.{
  ◌≡◌, refl, ◌+◌, ◌/◌, none, some, List, [], ◌∷◌, with_key, without_key, at_key, ◌≢◌, ℕ, arith, inl,
}
use r_orchestrator.Model.{TaskStatus, ShardStatus, TaskShard}
use r_orchestrator.World.{
  running, disconnected, unresponsive, timed_out, heartbeat, Agent, Db, World,
}
use r_orchestrator.Action.{ok, err, identity_conflict, ◌>>◌}
use r_orchestrator.Action.Evolves.{Evolves, Evolves-Preorder}
use r_orchestrator.AgentService.{
  second, register_agent, disconnect_agent, on_heartbeat_timeout, on_grace_expired,
}
use r_orchestrator.AgentService.Identity.{gone, back, register-foreign, disconnect-register}
use r_orchestrator.Control.Connection.{register, message}
use r_orchestrator.Control.Timeout.{handle_agent_timeout}
use r_orchestrator.Control.Timeout.Strikes.{stale_timer_rearms, second_strike}
use r_orchestrator.Backend.K8
use r_orchestrator.System.{
  Event, run, control_stream, heartbeat_timer, cancel_requested, task_submitted, poll_tick,
  recycle_tick, orphan_scan, time_passes, run-Evolves,
}
use r_orchestrator.TaskService.Validate.Owner.{MayReport}
use r_orchestrator.Control.Timeout.Grace.{taken_back, grace-rollback}
use r_orchestrator.Examples.Data.{
  calm, calm-IsQuiet, acme, task_in_status, shard_of, db_of, agent_of, world_of,
}

abbrev some_db : Db
some_db =
    db_of TaskStatus.running (shard_of 11 "a.R" ShardStatus.running (some "agent-1") "")
      (shard_of 12 "b.R" ShardStatus.queued none "")

abbrev busy : Agent
busy = agent_of running (some "id")

abbrev at_work : World
at_work = world_of some_db busy

foreign_example : register_agent "agent-1" 8 "k8s" calm at_work ≡ (err identity_conflict, at_work)
unfolding at_key
foreign_example = register-foreign calm at_work "agent-1" 8 "k8s" busy refl refl

return_example : (disconnect_agent "agent-1" >> register_agent "agent-1" 7 "k8s") calm at_work ≡ (
  ok tt,
  record at_work {
    agents =
        with_key "agent-1"
          (back "agent-1" 7 "k8s" (at_work.clock / second) busy)
          (with_key "agent-1" (gone busy) at_work.agents);
  },
)
unfolding at_key
return_example = disconnect-register calm at_work "agent-1" 7 "k8s" busy refl refl

abbrev silent_agent : Agent
silent_agent = agent_of unresponsive (some "id")

abbrev silent : World
silent = world_of some_db silent_agent

second_example : on_heartbeat_timeout (some handle_agent_timeout) "agent-1" calm silent ≡ (
  ok tt,
  record silent {
    agents =
        with_key "agent-1"
          (record silent_agent { status = timed_out; current_shard_id = none })
          silent.agents;
    timers = without_key "agent-1" silent.timers;
  },
)
unfolding at_key
second_example = second_strike calm "agent-1" silent silent_agent refl refl refl

-- 110 seconds on the clock.
abbrev early : World
early = record at_work { clock = 110000000000 }

stale_example : on_heartbeat_timeout (some handle_agent_timeout) "agent-1" calm early ≡ (
  ok tt,
  record early {
    timers =
        with_key "agent-1"
          (record { kind = heartbeat; due = early.clock + early.heartbeat_timeout })
          (without_key "agent-1" early.timers);
  },
)
unfolding at_key
stale_example = stale_timer_rearms calm "agent-1" early busy refl 100 refl (omega arith)

abbrev backend : K8.Config
backend = record {
  namespace = "r-agents";
  agent_image = "agent:latest";
  image_pull_secrets = [];
  server_grpc_addr = "server:9090";
  agent_token = "secret";
  server_public_url = "";
  kube_config_path = "";
  agent_log_level = "info";
}

abbrev afternoon : List Event
afternoon =
    control_stream "secret" 1 (message (register "agent-2" "7" "k8s" "secret") ∷ [])
    ∷ time_passes 60000000000
    ∷ heartbeat_timer "agent-1"
    ∷ orphan_scan 30000000000
    ∷ task_submitted
        (record { tenant_name = "acme"; zip_bytes = 80 ∷ []; completion_hook_url = "" })
    ∷ poll_tick backend (record {
      registry = [];
      billing_cycle_seconds = 3600;
      order = λ groups. groups;
      error_text = λ e. "error";
      no_provider_text = λ name. name;
    })
    ∷ recycle_tick backend 180 600
    ∷ cancel_requested "acme" 1
    ∷ []

run_example : Evolves some_db (run afternoon calm at_work).1.db
run_example = run-Evolves calm afternoon at_work (λ n db. Evolves-Preorder.reflexive db)

zero≢eleven : ◌≢◌ {A = ℕ} 0 11
zero≢eleven e = ground arith

abbrev held_shard : TaskShard
held_shard = shard_of 11 "a.R" ShardStatus.running (some "agent-1") ""

abbrev may_report : MayReport some_db 11 "agent-1" 7 "k8s" held_shard
may_report = record {
  same_id = refl;
  in_table = inl refl;
  not_foreign = refl;
  task = task_in_status TaskStatus.running;
  task_found = refl;
  of_tenant = refl;
  tenant = acme;
  tenant_found = refl;
  on_backend = refl;
}

abbrev lost_agent : Agent
lost_agent = agent_of disconnected (some "11")

abbrev lost : World
lost = world_of some_db lost_agent

grace_example :
    (n : ℕ) × (on_grace_expired (some handle_agent_timeout) "agent-1" calm lost ≡ (
      ok tt,
      record lost {
        stmt = n;
        db = taken_back 11 lost.clock some_db;
        agents =
            with_key "agent-1"
              (record lost_agent {
                status = timed_out;
                current_shard_id = none;
                last_heartbeat_at = some (lost.clock / second);
              })
              lost.agents;
        timers = without_key "agent-1" lost.timers;
      },
    ))
unfolding at_key
grace_example =
    grace-rollback calm-IsQuiet lost 11 "agent-1" lost_agent held_shard "11" refl refl refl refl
      (record {
        named = zero≢eleven;
        row = refl;
        may = may_report;
        active = refl;
        past_waiting = refl;
      })
      refl
