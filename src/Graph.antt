-- ===== src/Graph.antt =====
-- graph: the resolvers of task.resolvers.go and tenant.resolvers.go, and the types of
-- model/models_gen.go. `unmarshal_uuid` and `marshal_uuid` are those of model/uuid.go.
pub mod Kept
pub mod Positive
use r_orchestrator.Prelude.{
  ℕ, String, not, Option, none, some, List, [], ◌∷◌, ◌==◌, length, ℤ, is_above_zero, magnitude,
  same_text, trim_space,
}
use r_orchestrator.Model.{TaskStatus}
use r_orchestrator.Model
use r_orchestrator.World.{Outside}
use r_orchestrator.Action.{
  when◌then◌else◌, maybe, Action, refused, unavailable, pure, raise, gets, ◌>>=◌, ◌>>◌,
}
use r_orchestrator.Orm.Tasks.{TaskWithShards, task_status_text}
use r_orchestrator.Orm.Tenants
use r_orchestrator.TaskService.Cancel.{NotifyCancelShard, cancel_task}
use r_orchestrator.TaskService.Queries.{get_task, list_tasks}
use r_orchestrator.TaskService.Report.{text_or_empty}
use r_orchestrator.TaskService.Submit.{submit_task}

pub record CreateTenantInput : Type 0 where
  pub name : String
  pub primary_backend_name : String
  pub max_agents : ℤ

-- `bundle_zip` is what io.ReadAll returns of the upload.
pub record SubmitTaskInput : Type 0 where
  pub tenant_name : String
  pub bundle_zip : Option (List ℕ)
  pub completion_hook_url : Option String

pub record SubmitTaskResponse : Type 0 where
  pub task_id : ℕ

pub record CancelTaskPayload : Type 0 where
  pub task_id : ℕ
  pub status : String

pub record TaskShard : Type 0 where
  pub id : ℕ
  pub script_name : String
  pub status : String
  pub output_oss_key : Option String
  pub output_sha256 : Option String
  pub last_error : Option String
  pub started_at : Option ℕ
  pub finished_at : Option ℕ

pub record Task : Type 0 where
  pub id : ℕ
  pub status : String
  pub last_error : String
  pub created_at : ℕ
  pub started_at : Option ℕ
  pub finished_at : Option ℕ
  pub shard_count : ℕ
  pub shards : List TaskShard

pub record Tenant : Type 0 where
  pub id : ℕ
  pub name : String
  pub primary_backend_name : String
  pub max_agents : ℕ

-- utils.CopyObj of hopebox, at the two types that it is called with.
pub record Copies : Type 0 where
  pub task : TaskWithShards → Option Task
  pub tenant : Model.Tenant → Option Tenant

-- MarshalUUID.
abbrev pub marshal_uuid : Outside → ℕ → String
marshal_uuid o id = o.show_uuid id

-- UnmarshalUUID, of what graphql.UnmarshalString returns.
abbrev pub unmarshal_uuid : Outside → Option String → Option ℕ
unmarshal_uuid o none = none
unmarshal_uuid o (some value) = o.parse_uuid value

-- mutationResolver.SubmitTask.
unfoldable pub resolve_submit_task : SubmitTaskInput → Action SubmitTaskResponse
resolve_submit_task input =
    when same_text (trim_space input.tenant_name) ""
    then raise refused
    else maybe input.bundle_zip (raise unavailable) (λ zip_bytes.
      when length zip_bytes == 0 then raise refused else (do
        task_id ← submit_task (record {
          tenant_name = input.tenant_name;
          zip_bytes = zip_bytes;
          completion_hook_url = text_or_empty input.completion_hook_url;
        })
        pure (record { task_id = task_id })))

-- mutationResolver.CancelTask.
unfoldable pub resolve_cancel_task :
    Option NotifyCancelShard → (tenant_name : String) (task_id : ℕ) → Action CancelTaskPayload
resolve_cancel_task notify tenant_name task_id = do
  cancel_task notify tenant_name task_id
  pure (record { task_id = task_id; status = task_status_text TaskStatus.cancelled })

unfoldable pub copied : {A : Type 0} → Option A → Action A
copied x = maybe x (raise unavailable) (λ a. pure a)

-- queryResolver.GetTaskByID.
unfoldable pub resolve_get_task_by_id : Copies → (tenant_name : String) (task_id : ℕ) → Action Task
unfolding copied
resolve_get_task_by_id copies tenant_name task_id = do
  task ← get_task tenant_name task_id
  copied (copies.task task)

unfoldable pub copied_each : Copies → List TaskWithShards → Action (List Task)
unfolding copied
copied_each copies [] = pure []
copied_each copies (t ∷ ts) = do
  task ← copied (copies.task t)
  rest ← copied_each copies ts
  pure (task ∷ rest)

-- queryResolver.GetTaskList.
unfoldable pub resolve_get_task_list :
    Copies → (tenant_name : String) (status : Option String) → Action (List Task)
unfolding copied_each
resolve_get_task_list copies tenant_name status = do
  tasks ← list_tasks tenant_name (text_or_empty status)
  copied_each copies tasks

-- mutationResolver.CreateTenant.
unfoldable pub resolve_create_tenant : Copies → CreateTenantInput → Action Tenant
unfolding copied
resolve_create_tenant copies input =
    when not (is_above_zero input.max_agents) then raise refused else (do
      tenant ← Tenants.create input.name input.primary_backend_name (magnitude input.max_agents)
      copied (copies.tenant tenant))
