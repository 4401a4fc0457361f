-- ===== src/Examples/Accepted.antt =====
-- Reports that are accepted, on the data of Examples/Data.
use r_orchestrator.Prelude.{ℕ, ◌≡◌, ◌≢◌, ◌==◌, refl, sym, true, false, none, some, []}
use mathlib.Core.Bool.{true≢false}
use r_orchestrator.Model.{TaskStatus, ShardStatus, TaskShard, leased}
use r_orchestrator.World.{running, Db, World}
use r_orchestrator.Action.{ok}
use r_orchestrator.Action.Quiet.{Ends}
use r_orchestrator.TaskService.Report.{ReportShardStatusParams, report_shard_status}
use r_orchestrator.TaskService.Report.Accepted.{Starts, report_running-Starts}
use r_orchestrator.TaskService.Report.Completed.{
  Completes, hooks_after, is_done, report_succeeded-Completes,
}
use r_orchestrator.Examples.Data.{
  calm, calm-IsQuiet, task_in_status, shard_of, db_of, agent_of, world_of, of_two,
}

abbrev first : TaskShard
first = shard_of 11 "a.R" ShardStatus.succeeded (some "agent-1") "out.zip"

abbrev second_in : ShardStatus → TaskShard
second_in status = shard_of 12 "b.R" status (some "agent-1") ""

abbrev world_in : TaskStatus → ShardStatus → World
world_in task shard = world_of (db_of task first (second_in shard)) (agent_of running (some "12"))

abbrev report_of : ShardStatus → ReportShardStatusParams
report_of status = record {
  shard_id = 12;
  shard_status = status;
  error_message = none;
  output_oss_key = "b.zip";
  output_sha256 = "beef";
}

waiting≢cancelled : TaskStatus.waiting_for_agents ≢ TaskStatus.cancelled
waiting≢cancelled e = cc

abbrev granted : World
granted = world_in TaskStatus.waiting_for_agents leased

begins_example :
    (d : Db) × Ends (report_shard_status (report_of ShardStatus.running)) calm granted (ok tt) d
    × Starts 12 granted.clock
        (second_in leased)
        (task_in_status TaskStatus.waiting_for_agents)
        granted.db
        d
begins_example =
    report_running-Starts calm-IsQuiet granted (report_of ShardStatus.running) (second_in leased)
      (task_in_status TaskStatus.waiting_for_agents) (refl, refl) refl refl waiting≢cancelled

abbrev last_one : World
last_one = world_in TaskStatus.running ShardStatus.running

abbrev IsSecond : TaskShard → Type 0
IsSecond x = (x.id == 12) ≡ true → x ≡ second_in ShardStatus.running

abbrev Over : TaskShard → Type 0
Over x = (x.task_id == 1) ≡ true → (x.id == 12) ≡ false → is_done x.status ≡ true

completed_example :
    (d : Db) × (n : ℕ) × (report_shard_status (report_of ShardStatus.succeeded) calm last_one ≡ (
      ok tt,
      record last_one {
        stmt = n;
        db = d;
        hooks = hooks_after last_one.clock (task_in_status TaskStatus.running) [];
      },
    ))
    × Completes
        (report_of ShardStatus.succeeded)
        last_one.clock
        (second_in ShardStatus.running)
        (task_in_status TaskStatus.running)
        last_one.db
        d
completed_example =
    report_succeeded-Completes calm-IsQuiet last_one (report_of ShardStatus.succeeded)
      (second_in ShardStatus.running) (task_in_status TaskStatus.running) (refl, refl) refl
      (of_two IsSecond first (second_in ShardStatus.running) (λ h. absurd (true≢false (sym h)))
        (λ h. refl))
      refl refl
      (of_two Over first (second_in ShardStatus.running) (λ m e. refl)
        (λ m e. absurd (true≢false e)))
