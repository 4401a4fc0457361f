-- ===== src/Examples/Reports.antt =====
-- Reports and what follows from them on the data of Examples/Data.
use mathlib.Core.Bool.{true≢false}
use r_orchestrator.Prelude.{
  ap, same_text, ◌≡◌, ◌≢◌, refl, String, true, none, some, ◌==◌, inl, inr, sym, ℕ,
}
use r_orchestrator.Model.{TaskStatus, ShardStatus, TaskShard, shard_in, terminal_shard_statuses}
use r_orchestrator.World.{running, World}
use r_orchestrator.Action.{ok, err, refused, ◌>>◌}
use r_orchestrator.Action.Quiet.{Ends}
use r_orchestrator.TaskService.Hook.{new_completion_hook_payload, record_completion_hook_result}
use r_orchestrator.TaskService.Hook.Once.{delivered_db, delivery_stays}
use r_orchestrator.TaskService.Recompute.{recompute_task_status}
use r_orchestrator.TaskService.Recompute.Outcome.{
  recompute_waits, recompute_fails, failure_hook, recompute_succeeds,
}
use r_orchestrator.TaskService.Recompute.Latest.{IsReason}
use r_orchestrator.TaskService.Recompute.Steps.{finished_db}
use r_orchestrator.TaskService.Report.{ReportShardStatusParams, report_shard_status}
use r_orchestrator.TaskService.Report.Refusals.{
  report_duplicate, report_cancelled, report_out_of_order,
}
use r_orchestrator.Examples.Data.{
  calm, calm-IsQuiet, task_in_status, shard_of, db_of, agent_of, world_of, of_two,
}

abbrev shard_with : ℕ → ShardStatus → String → TaskShard
shard_with id status key = shard_of id "a.R" status (some "agent-1") key

abbrev world_with : TaskStatus → ShardStatus → ShardStatus → World
world_with t a b =
    world_of (db_of t (shard_with 11 a "out.zip") (shard_with 12 b "")) (agent_of running none)

abbrev report_of : ℕ → ShardStatus → ReportShardStatusParams
report_of id status = record {
  shard_id = id;
  shard_status = status;
  error_message = none;
  output_oss_key = "out.zip";
  output_sha256 = "";
}

abbrev Closed : TaskShard → Type 0
Closed s = (s.task_id == 1) ≡ true → shard_in s.status terminal_shard_statuses ≡ true

abbrev Fine : TaskShard → Type 0
Fine s = (s.task_id == 1) ≡ true → s.status ≢ ShardStatus.failed

succeeded≢failed : ShardStatus.succeeded ≢ ShardStatus.failed
succeeded≢failed e = cc

running≢cancelled : TaskStatus.running ≢ TaskStatus.cancelled
running≢cancelled e = cc

abbrev half_done : World
half_done = world_with TaskStatus.running ShardStatus.succeeded ShardStatus.running

waits_example : Ends (recompute_task_status 1 "") calm half_done (ok none) half_done.db
waits_example =
    recompute_waits calm-IsQuiet half_done 1 (task_in_status TaskStatus.running) refl refl ""
      (shard_with 12 ShardStatus.running "") (inr (inl refl)) refl refl

-- The second shard has failed, and says why.
abbrev broken : TaskShard
broken = record (shard_with 12 ShardStatus.failed "") {
  finished_at = some 150;
  last_error = "exit status 1";
}

abbrev one_failed : World
one_failed =
    world_of (db_of TaskStatus.running (shard_with 11 ShardStatus.succeeded "out.zip") broken)
      (agent_of running none)

fails_example :
    (text : String) × IsReason 1 one_failed.db "" text
    × Ends
        (recompute_task_status 1 "")
        calm
        one_failed
        (ok (failure_hook one_failed.clock (task_in_status TaskStatus.running) text))
        (finished_db 1 TaskStatus.failed text one_failed.clock one_failed.db)
fails_example =
    recompute_fails calm-IsQuiet one_failed 1 (task_in_status TaskStatus.running) refl refl ""
      (of_two Closed (shard_with 11 ShardStatus.succeeded "out.zip") broken (λ m. refl) (λ m. refl))
      broken (inr (inl refl)) refl refl

abbrev all_well : World
all_well = world_with TaskStatus.running ShardStatus.succeeded ShardStatus.succeeded

succeeds_example :
    Ends
      (recompute_task_status 1 "")
      calm
      all_well
      (ok (
        new_completion_hook_payload
          (task_in_status TaskStatus.running)
          TaskStatus.succeeded
          ""
          (some all_well.clock)
          true))
      (finished_db 1 TaskStatus.succeeded "" all_well.clock all_well.db)
succeeds_example =
    recompute_succeeds calm-IsQuiet all_well 1 (task_in_status TaskStatus.running) refl refl ""
      (of_two Closed (shard_with 11 ShardStatus.succeeded "out.zip")
        (shard_with 12 ShardStatus.succeeded "") (λ m. refl) (λ m. refl))
      (of_two Fine (shard_with 11 ShardStatus.succeeded "out.zip")
        (shard_with 12 ShardStatus.succeeded "") (λ m. succeeded≢failed) (λ m. succeeded≢failed))

abbrev over : World
over = world_with TaskStatus.failed ShardStatus.succeeded ShardStatus.failed

duplicate_example :
    Ends
      (report_shard_status (report_of 11 ShardStatus.succeeded))
      calm
      half_done
      (ok tt)
      half_done.db
duplicate_example =
    report_duplicate calm-IsQuiet half_done (report_of 11 ShardStatus.succeeded)
      (shard_with 11 ShardStatus.succeeded "out.zip") (task_in_status TaskStatus.running)
      (refl, refl) refl refl (λ e. true≢false (sym (ap (λ t. same_text t "") e)))

abbrev withdrawn : World
withdrawn = world_with TaskStatus.cancelled ShardStatus.running ShardStatus.running

cancelled_example :
    Ends
      (report_shard_status (report_of 12 ShardStatus.succeeded))
      calm
      withdrawn
      (err refused)
      withdrawn.db
cancelled_example =
    report_cancelled calm-IsQuiet withdrawn (report_of 12 ShardStatus.succeeded)
      (shard_with 12 ShardStatus.running "") (task_in_status TaskStatus.cancelled) (refl, refl) refl
      refl

-- A shard that has succeeded is not started.
out_of_order_example :
    Ends
      (report_shard_status (report_of 11 ShardStatus.running))
      calm
      half_done
      (err refused)
      half_done.db
out_of_order_example =
    report_out_of_order calm-IsQuiet half_done (report_of 11 ShardStatus.running)
      (shard_with 11 ShardStatus.succeeded "out.zip") (task_in_status TaskStatus.running)
      (refl, refl) refl
      (of_two (λ x. (x.id == 11) ≡ true → x ≡ shard_with 11 ShardStatus.succeeded "out.zip")
        (shard_with 11 ShardStatus.succeeded "out.zip") (shard_with 12 ShardStatus.running "")
        (λ h. refl) (λ h. absurd (true≢false (sym h))))
      running≢cancelled refl

delivery_example :
    Ends
      (record_completion_hook_result 1 none >> record_completion_hook_result 1 (some "timeout"))
      calm
      over
      (ok tt)
      (delivered_db 1 over.clock over.db)
delivery_example = delivery_stays calm-IsQuiet over 1 (some "timeout")
