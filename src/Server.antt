-- ===== src/Server.antt =====
-- cmd/server: main.go up to the start of its goroutines, and what grpc_server.go wires. The
-- listeners, gin and the shutdown are calls of libraries.
pub mod Ready
pub mod Only
use r_orchestrator.Prelude.{ℕ, ◌*◌, String, Bool, not, Option, none, some, List}
use r_orchestrator.Action.{
  when◌then◌else◌, maybe, returned, Action, Error, database, unavailable, raise, pure, ◌>>=◌, ◌>>◌,
  attempt,
}
use r_orchestrator.Config.{Config, Environment, load_from_env}
use r_orchestrator.Config.Start.{EnvFile, load_env_variable}
use r_orchestrator.AgentService.{second, set_timeouts}
use r_orchestrator.Backend.{Registry, new_registry, register, backend_kind_kubernetes}
use r_orchestrator.Backend.K8
use r_orchestrator.TaskService.Rollback.{cleanup_orphan_shards}
use r_orchestrator.TaskService.Poll.{Group, Poller}

-- What the libraries answer while the server starts: the files, the connection to the database
-- and its migration, the client library of Kubernetes, and net.Listen.
pub record Surroundings : Type 1 where
  pub environment : Environment
  pub is_set : (name : String) → Bool
  pub missing : String → Bool
  pub load_file : String → EnvFile
  pub opens : (url : String) → Bool
  pub migrates : Bool
  pub KubeConfig : Type 0
  pub Client : Type 0
  pub kube_configs : K8.KubeConfigs KubeConfig
  pub new_for_config : KubeConfig → Option Client
  pub listens : (addr : String) → Bool

-- The k8s_backend.Config that main builds.
abbrev pub k8s_config : Config → K8.Config
k8s_config cfg = record {
  namespace = cfg.cluster.kubernetes.namespace;
  agent_image = cfg.cluster.agent_image;
  image_pull_secrets = cfg.cluster.kubernetes.image_pull_secrets;
  server_grpc_addr = cfg.server.grpc_public_addr;
  agent_token = cfg.cluster.agent_token;
  server_public_url = cfg.server.public_url;
  kube_config_path = cfg.cluster.kubernetes.kube_config_path;
  agent_log_level = cfg.cluster.agent_log_level;
}

-- The registry of main: the Kubernetes provider alone.
unfoldable pub server_registry : K8.Config → Registry
server_registry cfg = register backend_kind_kubernetes (K8.k8s_provider cfg) new_registry

pub record Started : Type 0 where
  pub config : Config
  pub registry : Registry

-- The part behind `registry.Register`: the clean-up at the start fails silently.
unfoldable pub start_serving : (listens : Bool) → Config → K8.Config → Action Started
start_serving listens cfg kcfg = when not listens then raise unavailable else (do
  attempt (cleanup_orphan_shards (600 * second))
  pure (record { config = cfg; registry = server_registry kcfg }))

unfoldable pub start_backend : Surroundings → Config → Action Started
unfolding start_serving
start_backend s cfg = do
  set_timeouts cfg.cluster.agent_heartbeat_timeout cfg.cluster.agent_disconnect_grace
  maybe (K8.new_k8s_provider s.kube_configs s.new_for_config (k8s_config cfg)) (raise unavailable)
      (λ (client, kcfg). start_serving (s.listens cfg.server.grpc_addr) cfg kcfg)

-- main. An error is logged and ends it.
unfoldable pub start : Surroundings → Action Started
unfolding start_backend
start s = do
  getenv ← returned (load_env_variable s.is_set s.environment.getenv s.missing s.load_file)
  cfg ← returned (load_from_env (record s.environment { getenv = getenv }))
  when not (s.opens cfg.database.url)
      then raise database
      else when not s.migrates
      then raise database
      else start_backend s cfg

-- The poller and the recycler that main starts.
unfoldable pub poller :
    Started
    → (order : List Group → List Group) (error_text : Error → String)
      (no_provider_text : String → String)
    → Poller
poller started order error_text no_provider_text = record {
  registry = started.registry;
  billing_cycle_seconds = started.config.cluster.billing_cycle_seconds;
  order = order;
  error_text = error_text;
  no_provider_text = no_provider_text;
}
