-- ===== src/Examples/Data.antt =====
-- One tenant with one task of two shards, two agents, and an outside that is quiet.
use r_orchestrator.Prelude.{
  ℕ, String, false, Option, none, some, [], ◌∷◌, refl, sym, subst, In, inl, inr, same_text,
  if◌then◌else◌,
}
use r_orchestrator.Kubernetes.{KubeAnswer}
use r_orchestrator.Model.{TaskStatus, ShardStatus, Tenant, Task, TaskShard}
use r_orchestrator.World.{AgentStatus, other, Agent, Db, World, Outside}
use r_orchestrator.Action.Quiet.{IsQuiet}

abbrev pub calm : Outside
calm = record {
  sql_fails = λ n. false;
  others = λ n db. db;
  name_before = λ a b. false;
  send_fails = λ n. false;
  send_times_out = λ n. false;
  oss_fails = λ n. false;
  object_url = λ key. key;
  sign_put_url = λ key n. key;
  new_uuid = λ n. some n;
  parse_uuid = λ text. if same_text text "7" then some 7 else some 11;
  show_uuid = λ n. "id";
  parse_url = λ text. none;
  show_url = λ u. "";
  replace_all = λ text a b. text;
  read_zip = λ bytes. none;
  kube = λ calls. KubeAnswer.done;
}

pub calm-IsQuiet : IsQuiet calm
calm-IsQuiet = record { no_failure = λ n. refl; alone = λ n db. refl }

abbrev pub acme : Tenant
acme = record { id = 7; name = "acme"; primary_backend_name = "k8s"; max_agents = 2 }

abbrev pub task_in_status : TaskStatus → Task
task_in_status s = record {
  id = 1;
  created_at = 100;
  tenant_id = 7;
  status = s;
  completion_hook_url = "https://acme.example/hook";
  shard_count = 2;
  started_at = none;
  finished_at = none;
  hook_delivered_at = none;
  hook_last_error = "";
  last_error = "";
}

abbrev pub shard_of : ℕ → String → ShardStatus → Option String → String → TaskShard
shard_of id name status agent key = record {
  id = id;
  updated_at = 100;
  task_id = 1;
  script_name = name;
  status = status;
  assigned_agent_id = agent;
  output_oss_key = key;
  output_sha256 = "";
  started_at = none;
  finished_at = none;
  last_error = "";
}

abbrev pub db_of : TaskStatus → TaskShard → TaskShard → Db
db_of status a b = record {
  tenants = acme ∷ [];
  tasks = task_in_status status ∷ [];
  shards = a ∷ b ∷ [];
  clusters = [];
}

abbrev pub agent_of : AgentStatus → Option String → Agent
agent_of status shard = record {
  id = "agent-1";
  tenant_id = 7;
  backend_name = "k8s";
  status = status;
  pre_disconnect_status = other "";
  current_shard_id = shard;
  last_heartbeat_at = some 100;
}

-- 200 seconds on the clock, a heartbeat timeout of 30 seconds and a grace period of 5 minutes.
abbrev pub world_of : Db → Agent → World
world_of db agent = record {
  clock = 200000000000;
  stmt = 0;
  db = db;
  agents = ("agent-1", agent) ∷ [];
  timers = [];
  heartbeat_timeout = 30000000000;
  grace_period = 300000000000;
  streams = [];
  sends = 0;
  sent = [];
  oss_calls = 0;
  uploads = [];
  kube_calls = [];
  uuids = 0;
  hooks = [];
}

-- What holds of two rows holds of each row of a table of the two.
pub of_two : {A : Type 0} (P : A → Type 0) (a b : A) → P a → P b → (x : A) → In x (a ∷ b ∷ []) → P x
of_two P a b p q x (inl e) = subst P (sym e) p
of_two P a b p q x (inr (inl e)) = subst P (sym e) q
of_two P a b p q x (inr (inr m)) = absurd m
