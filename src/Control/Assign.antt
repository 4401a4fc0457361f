-- ===== src/Control/Assign.antt =====
-- try_assign_shard.go. A server has a database: `server.db == nil` is left out.
use r_orchestrator.Prelude.{suc, ◌%◌, ◌^◌, String, ◌||◌, none, some, ◌==◌, if◌then◌else◌, same_text}
use r_orchestrator.World.{idle, running, Outside, assign_shard}
use r_orchestrator.Action.{
  when◌then◌else◌, Result, ok, err, Action, Error, record_not_found, grpc, internal, pure, raise,
  gets, ◌>>=◌, ◌>>◌, attempt, elsewhere,
}
use r_orchestrator.AgentService.{heartbeat_agent}
use r_orchestrator.TaskService.Lease.{Leased, lease_next_shard}
use r_orchestrator.TaskService.Rollback.{rollback_assigned_shard}
use r_orchestrator.Control.Stream.{AgentSession, send}
use Prim.Native.String.{◌++◌}

-- An error that is not a gRPC status becomes codes.Internal.
unfoldable pub as_internal : {A : Type 0} → Result A → Action A
as_internal (ok a) = pure a
as_internal (err e) = raise (grpc internal)

-- One call of the OSS client.
unfoldable pub oss_call : {A : Type 0} → A → Action A
oss_call a = do
  fails ← gets (λ o w. o.oss_fails w.oss_calls)
  elsewhere (λ w. record w { oss_calls = suc w.oss_calls }) tt
  when fails then raise (grpc internal) else pure a

abbrev pub bundle_key : String → String
bundle_key task = "r-orchestrator/tasks/" ++ (task ++ "/bundle.zip")

abbrev pub output_key : String → String → String
output_key task script =
    "r-orchestrator/tasks/" ++ (task ++ ("/output/" ++ (script ++ "-output.zip")))

-- fixOSSURLPath.
unfoldable pub fix_oss_url_path : Outside → String → String
fix_oss_url_path o raw_url = elim (o.parse_url raw_url) [
  | none ↦ raw_url
  | some u ↦ o.show_url (record u { path = o.replace_all u.path "%2F" "/" })
]

-- The steps between the lease and `should_rollback = false`.
unfoldable pub assign_leased : AgentSession → Leased → Action Unit
assign_leased sess leased = do
  shard_text ← gets (λ o w. o.show_uuid leased.shard.id)
  busy ← attempt (heartbeat_agent sess.agent_id running (some shard_text))
  as_internal busy
  oss_call tt
  task_text ← gets (λ o w. o.show_uuid leased.task.id)
  bundle_url ← gets (λ o w. fix_oss_url_path o (o.object_url (bundle_key task_text)))
  oss_call tt
  let key = output_key task_text leased.shard.script_name
  output_url ← gets (λ o w. fix_oss_url_path o (o.sign_put_url key 3600))
  oss_call tt
  sent ← attempt (
      send sess.stream (
        assign_shard shard_text task_text leased.shard.script_name bundle_url output_url key
          (leased.task.shard_count % 2 ^ 32)))
  as_internal sent

-- The deferred rollback: it runs unless the shard was sent, and any error of it is Internal.
unfoldable pub rolled_back : Error → Result (Unit {0}) → Action Unit
rolled_back e (ok _) = raise e
rolled_back e (err _) = raise (grpc internal)

unfoldable pub or_roll_back : AgentSession → Leased → Result (Unit {0}) → Action Unit
or_roll_back sess leased (ok _) = pure tt
or_roll_back sess leased (err e) = do
  undone ← attempt (do
    rollback_assigned_shard leased.shard.id leased.task
    heartbeat_agent sess.agent_id idle none)
  rolled_back e undone

unfoldable pub assign_found : AgentSession → Result Leased → Action Unit
assign_found sess (ok leased) = do
  done ← attempt (assign_leased sess leased)
  or_roll_back sess leased done
assign_found sess (err record_not_found) = pure tt
assign_found sess (err e) = raise (grpc internal)

-- TryAssignShard.
unfoldable pub try_assign_shard : AgentSession → Action Unit
try_assign_shard sess =
    when same_text sess.agent_id "" || (sess.tenant_id == 0 || same_text sess.backend "")
    then pure tt
    else (do
      found ← attempt (lease_next_shard sess.tenant_id sess.backend sess.agent_id)
      assign_found sess found)
