-- ===== src/World.antt =====
-- What a handler reads and writes: the database, the maps of agent_service, the open control
-- streams, and what has left the server. `Outside` is the code that is not in the repository.
use r_orchestrator.Prelude.{ℕ, String, Bool, Option, List, Dict}
use r_orchestrator.Kubernetes.{KubeCall, KubeAnswer}
use r_orchestrator.Model.{Tenant, Task, TaskShard, TaskStatus, Cluster}

-- The strings of agent_service's Agent.Status: its five constants, and any other text that a
-- heartbeat brings. The zero value is `other ""`.
pub data AgentStatus : Type 0 where
  idle running disconnected unresponsive timed_out : AgentStatus
  other : String → AgentStatus

-- LastHeartbeatAt counts seconds.
pub record Agent : Type 0 where
  pub id : String
  pub tenant_id : ℕ
  pub backend_name : String
  pub status : AgentStatus
  pub pre_disconnect_status : AgentStatus
  pub current_shard_id : Option String
  pub last_heartbeat_at : Option ℕ

pub data TimerKind : Type 0 where
  heartbeat grace : TimerKind

pub record Timer : Type 0 where
  pub kind : TimerKind
  pub due : ℕ

pub record CompletionHookPayload : Type 0 where
  pub task_id : ℕ
  pub tenant_id : ℕ
  pub status : TaskStatus
  pub last_error : String
  pub finished_at : Option ℕ
  pub result_available : Bool
  pub completion_hook_url : String

-- The number of shards is sent as the 32 bits of an int32.
pub data ServerMessage : Type 0 where
  assign_shard :
      (shard_id task_id script_name bundle_download_url output_upload_url output_oss_key : String)
      → (total_shards : ℕ) → ServerMessage
  shard_result_stored : (shard_id : String) → ServerMessage
  cancel_shard : (shard_id : String) → ServerMessage

pub record Db : Type 0 where
  pub tenants : List Tenant
  pub tasks : List Task
  pub shards : List TaskShard
  pub clusters : List Cluster

-- `stmt`, `sends`, `oss_calls` and `uuids` count the calls made so far. A stream is named by a
-- number; `sent`, `uploads`, `kube_calls` and `hooks` have the newest first.
pub record World : Type 0 where
  pub clock : ℕ
  pub stmt : ℕ
  pub db : Db
  pub agents : Dict Agent
  pub timers : Dict Timer
  pub heartbeat_timeout : ℕ
  pub grace_period : ℕ
  pub streams : Dict ℕ
  pub sends : ℕ
  pub sent : List (ℕ × ServerMessage)
  pub oss_calls : ℕ
  pub uploads : List (String × List ℕ)
  pub kube_calls : List KubeCall
  pub uuids : ℕ
  pub hooks : List CompletionHookPayload

-- A file of an archive: its name, and whether it is a directory.
pub record ZipFile : Type 0 where
  pub name : String
  pub is_dir : Bool

-- net/url's URL: the fields that the program reads, and the others in `rest`.
pub record Url : Type 0 where
  pub scheme : String
  pub host : String
  pub path : String
  pub rest : String

-- The n-th SQL statement may fail (`sql_fails n`), and sees what other transactions have
-- committed before it (`others n`). The n-th send on a stream, call of the object store, or new
-- UUID may fail too; a send with a deadline may be given up while it goes on (`send_times_out`).
-- `name_before` is the database's order of texts. The API of Kubernetes answers a call by all calls
-- made of it, this one first; `read_zip` is the files of an archive.
pub record Outside : Type 0 where
  pub sql_fails : ℕ → Bool
  pub others : ℕ → Db → Db
  pub name_before : String → String → Bool
  pub send_fails : ℕ → Bool
  pub send_times_out : ℕ → Bool
  pub oss_fails : ℕ → Bool
  pub object_url : String → String
  pub sign_put_url : String → ℕ → String
  pub new_uuid : ℕ → Option ℕ
  pub parse_uuid : String → Option ℕ
  pub show_uuid : ℕ → String
  pub parse_url : String → Option Url
  pub show_url : Url → String
  pub replace_all : String → (old new : String) → String
  pub read_zip : List ℕ → Option (List ZipFile)
  pub kube : List KubeCall → KubeAnswer
