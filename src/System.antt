-- ===== src/System.antt =====
-- The server as a whole: what can happen to it, one after the other. cmd/server/main.go wires
-- HandleAgentTimeout into agent_service and NotifyCancelShard into task_service. What runs at the
-- same time in other goroutines or replicas enters by `Outside.others`.
use r_orchestrator.Prelude.{ℕ, ◌+◌, String, Option, some, List, [], ◌∷◌}
use r_orchestrator.World.{CompletionHookPayload, World, Outside}
use r_orchestrator.Action.{Action, pure, ◌>>◌, attempt, elsewhere}
use r_orchestrator.Action.Evolves.{Evolves, Evolves-Preorder}
use r_orchestrator.Action.Guarantee.{Relies}
use r_orchestrator.Orm.Kept.{Keeps, in_order, read_rules}
use r_orchestrator.AgentService.{on_heartbeat_timeout, on_grace_expired}
use r_orchestrator.AgentService.Kept.{on_heartbeat_timeout-Keeps, on_grace_expired-Keeps}
use r_orchestrator.TaskService.Hook.{hook_dispatched}
use r_orchestrator.TaskService.Rollback.{cleanup_orphan_shards}
use r_orchestrator.TaskService.Cancel.{cancel_task}
use r_orchestrator.TaskService.Kept.Reporting.{hook_dispatched-Keeps}
use r_orchestrator.TaskService.Kept.Undoing.{cleanup-Keeps, cancel_task-Keeps}
use r_orchestrator.Control.Stream.{AgentSession, notify_cancel_shard}
use r_orchestrator.Control.Connection.{AgentMessage, Received, handle_message, open_control_stream}
use r_orchestrator.Control.Connection
use r_orchestrator.Control.Timeout.{handle_agent_timeout}
use r_orchestrator.Control.Kept.{notify_cancel_shard-Keeps}
use r_orchestrator.Control.Kept.OfHandlers.{
  handle_message-Keeps, disconnected-Keeps, open_control_stream-Keeps, handle_agent_timeout-Keeps,
}
use r_orchestrator.Backend.K8
use r_orchestrator.Backend.K8.Reads.{}
use r_orchestrator.ClusterService.{recycle_clusters}
use r_orchestrator.ClusterService.Kept.{recycle_clusters-Keeps}
use r_orchestrator.TaskService.Submit.{SubmitTaskParams, submit_task}
use r_orchestrator.TaskService.Poll.{Poller, poll_pending_tasks}
use r_orchestrator.TaskService.Poll.Flow.{poll-keeps}
use r_orchestrator.TaskService.Kept.Submitting.{submit_task-Keeps, Evolves-Polling}
use r_orchestrator.Graph.{Copies, CreateTenantInput, resolve_create_tenant}
use r_orchestrator.Graph.Kept.{create_tenant-Keeps}
use r_orchestrator.Server.{server_registry}
use r_orchestrator.Server.Only.{registered-LeavesDb, registered-destroys}

pub data Event : Type 0 where
  control_stream : (expected_token : String) (stream : ℕ) → List Received → Event
  control_message : AgentSession → AgentMessage → Event
  stream_closed : (agent_id : String) → Event
  heartbeat_timer grace_timer : (agent_id : String) → Event
  cancel_requested : (tenant_name : String) (task_id : ℕ) → Event
  orphan_scan : (threshold : ℕ) → Event
  hook_answered : CompletionHookPayload → Option String → Event
  task_submitted : SubmitTaskParams → Event
  tenant_created : Copies → CreateTenantInput → Event
  poll_tick : K8.Config → Poller → Event
  recycle_tick : K8.Config → (advance_threshold idle_threshold : ℕ) → Event
  time_passes : ℕ → Event

-- A poller with the registry of main.go.
abbrev pub kubernetes_only : K8.Config → Poller → Poller
kubernetes_only cfg p = record p { registry = server_registry cfg }

unfoldable pub handle : Event → Action Unit
handle (control_stream token stream received) = open_control_stream token stream received
handle (control_message sess m) = handle_message sess m
handle (stream_closed agent_id) = Connection.disconnected agent_id
handle (heartbeat_timer agent_id) = on_heartbeat_timeout (some handle_agent_timeout) agent_id
handle (grace_timer agent_id) = on_grace_expired (some handle_agent_timeout) agent_id
handle (cancel_requested tenant_name task_id) =
    cancel_task (some notify_cancel_shard) tenant_name task_id
handle (orphan_scan threshold) = cleanup_orphan_shards threshold
handle (hook_answered payload error) = hook_dispatched payload error
handle (task_submitted params) = do submit_task params; pure tt
handle (tenant_created copies input) = do resolve_create_tenant copies input; pure tt
handle (poll_tick cfg poller) = poll_pending_tasks (kubernetes_only cfg poller)
handle (recycle_tick cfg advance idle) = recycle_clusters (server_registry cfg) advance idle
handle (time_passes n) = elsewhere (λ w. record w { clock = w.clock + n }) tt

-- An error ends its own request.
unfoldable pub run : List Event → Action Unit
run [] = pure tt
run (e ∷ es) = do attempt (handle e); run es

poll_tick-Keeps :
    (cfg : K8.Config) (p : Poller) → Keeps (poll_pending_tasks (kubernetes_only cfg p))
poll_tick-Keeps cfg p =
    poll-keeps Evolves-Polling (kubernetes_only cfg p) (registered-LeavesDb Evolves-Preorder cfg)

recycle_tick-Keeps :
    (cfg : K8.Config) (a i : ℕ) → Keeps (recycle_clusters (server_registry cfg) a i)
recycle_tick-Keeps cfg a i =
    recycle_clusters-Keeps (server_registry cfg) (registered-destroys Evolves-Preorder cfg) a i

handle-Keeps : (e : Event) → Keeps (handle e)
unfolding handle
handle-Keeps (control_stream token stream rs) = open_control_stream-Keeps token stream rs
handle-Keeps (control_message sess m) = handle_message-Keeps sess m
handle-Keeps (stream_closed a) = disconnected-Keeps a
handle-Keeps (heartbeat_timer a) =
    on_heartbeat_timeout-Keeps handle_agent_timeout handle_agent_timeout-Keeps a
handle-Keeps (grace_timer a) =
    on_grace_expired-Keeps handle_agent_timeout handle_agent_timeout-Keeps a
handle-Keeps (cancel_requested n i) =
    cancel_task-Keeps notify_cancel_shard notify_cancel_shard-Keeps n i
handle-Keeps (orphan_scan threshold) = cleanup-Keeps threshold
handle-Keeps (hook_answered p e) = hook_dispatched-Keeps p e
handle-Keeps (task_submitted params) = search (read_rules, submit_task-Keeps)
handle-Keeps (tenant_created copies input) = search (read_rules, create_tenant-Keeps)
handle-Keeps (poll_tick cfg p) = poll_tick-Keeps cfg p
handle-Keeps (recycle_tick cfg a i) = recycle_tick-Keeps cfg a i
handle-Keeps (time_passes n) = search read_rules

run-Keeps : (es : List Event) → Keeps (run es)
unfolding run
run-Keeps [] = search read_rules
run-Keeps (e ∷ es) = in_order (search (read_rules, handle-Keeps)) (λ _. run-Keeps es)

-- Over any sequence of control streams, agent messages, timer expiries, submissions, cancellations,
-- orphan scans, hook answers, new tenants, ticks of the poller and ticks of the recycler, with any
-- statements, sends and object store calls failing and any commits of other transactions in between
-- that keep to the relation themselves, every shard row stays in its place and keeps its id, task
-- and script name and a SUCCEEDED, FAILED or CANCELLED status for good, and every task row stays in
-- its place and keeps its id, tenant, shard count and hook, and stays CANCELLED once it is.
pub run-Evolves :
    (o : Outside) (es : List Event) (w : World) → Relies Evolves o → Evolves w.db (run es o w).1.db
run-Evolves o es w h = (run-Keeps es).at o h w
