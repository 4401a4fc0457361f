-- ===== src/Config.antt =====
-- internal/config/config.go: the settings from environment variables.
pub mod Bounds
pub mod Decimal
pub mod Start
pub mod Variables
use Prim.Native.Char.{code}
use Prim.Native.String.{◌++◌}
use r_orchestrator.Prelude.{
  ℕ, ◌+◌, ◌-◌, ◌*◌, ◌%◌, ◌^◌, String, Bool, true, false, not, ◌&&◌, Option, none, some, List, [],
  ◌∷◌, leb, ◌==◌, if◌then◌else◌, rows_where, is_empty, ℤ, is_above_zero, magnitude, is_at_most_zero,
  same_text,
}
use r_orchestrator.Action.{Result, ok, err, refused}

pub record ServerConfig : Type 0 where
  pub http_addr : String
  pub grpc_addr : String
  pub grpc_public_addr : String
  pub public_url : String
  pub log_level : String

pub record DatabaseConfig : Type 0 where
  pub host : String
  pub port : String
  pub db_name : String
  pub username : String
  pub password : String
  pub url : String

pub record KubernetesBackendConfig : Type 0 where
  pub namespace : String
  pub image_pull_secrets : List String
  pub kube_config_path : String

-- The three numbers of seconds are the 64 bits of an int; the durations count nanoseconds.
pub record ClusterConfig : Type 0 where
  pub billing_cycle_seconds : ℕ
  pub billing_advance_seconds : ℕ
  pub idle_threshold_seconds : ℕ
  pub agent_token : String
  pub agent_image : String
  pub agent_log_level : String
  pub agent_heartbeat_timeout : ℕ
  pub agent_disconnect_grace : ℕ
  pub kubernetes : KubernetesBackendConfig

pub record Config : Type 0 where
  pub server : ServerConfig
  pub database : DatabaseConfig
  pub cluster : ClusterConfig

-- os.Getenv, and what url.URL.String, json.Unmarshal (the names of the items) and
-- time.ParseDuration answer.
pub record Environment : Type 0 where
  pub getenv : String → String
  pub postgres_url : (user password host path : String) → String
  pub parse_names : String → Option (List String)
  pub parse_duration : String → Option ℤ

-- The loop of envOrInt over the characters: `none` is one that is no digit.
unfoldable pub parse_digits : ℕ → String → Option ℕ
parse_digits v String.[] = some v
parse_digits v (String.◌∷◌ c s) =
    let rest = parse_digits ((v * 10 + (code c - b'0')) % 2 ^ 64) s in
    if leb b'0' (code c) && leb (code c) b'9' then rest else none

unfoldable pub parsed_or : ℕ → Option ℕ → ℕ
parsed_or fallback none = fallback
parsed_or fallback (some v) = if v == 0 then fallback else v

-- envOrInt, on the variable's text.
unfoldable pub env_or_int : String → (fallback : ℕ) → ℕ
unfolding parse_digits parsed_or
env_or_int text fallback =
    if same_text text "" then fallback else parsed_or fallback (parse_digits 0 text)

abbrev pub positive_or : (value fallback : ℕ) → ℕ
positive_or value fallback = if is_at_most_zero value then fallback else value

abbrev pub env_or : String → (fallback : String) → String
env_or text fallback = if same_text text "" then fallback else text

abbrev pub duration_or : ℕ → Option ℤ → ℕ
duration_or fallback none = fallback
duration_or fallback (some d) = if is_above_zero d then magnitude d else fallback

-- envOrDuration.
unfoldable pub env_or_duration : Environment → String → (fallback : ℕ) → ℕ
env_or_duration env text fallback =
    if same_text text "" then fallback else duration_or fallback (env.parse_duration text)

abbrev pub named : Option (List String) → List String
named none = []
named (some names) = rows_where (λ n. not (same_text n "")) names

-- parseImagePullSecrets.
unfoldable pub parse_image_pull_secrets : Environment → String → List String
parse_image_pull_secrets env raw = if same_text raw "" then [] else named (env.parse_names raw)

abbrev pub second : ℕ
second = 1000000000

-- The Config that LoadFromEnv builds when nothing that is required is missing.
unfoldable pub loaded_config : Environment → Config
unfolding env_or_duration parse_image_pull_secrets
loaded_config env =
    let get = env.getenv in
    let host = get "DB_HOST" in
    let port = get "DB_PORT" in
    let user = get "DB_USER" in
    let password = get "DB_PASSWORD" in
    let name = get "DB_NAME" in
    record {
      server = record {
        http_addr = env_or (get "SERVER_HTTP_ADDR") ":8089";
        grpc_addr = env_or (get "SERVER_GRPC_ADDR") ":9090";
        grpc_public_addr = get "SERVER_GRPC_PUBLIC_ADDR";
        public_url = get "SERVER_PUBLIC_URL";
        log_level = env_or (get "LOG_LEVEL") "info";
      };
      database = record {
        host = host;
        port = port;
        db_name = name;
        username = user;
        password = password;
        url = env.postgres_url user password (host ++ (":" ++ port)) name;
      };
      cluster = record {
        billing_cycle_seconds =
            positive_or (env_or_int (get "CLUSTER_BILLING_CYCLE_SECONDS") 3600) 3600;
        billing_advance_seconds =
            positive_or (env_or_int (get "CLUSTER_BILLING_ADVANCE_SECONDS") 180) 180;
        idle_threshold_seconds = env_or_int (get "CLUSTER_IDLE_THRESHOLD_SECONDS") 600;
        agent_token = get "CLUSTER_AGENT_TOKEN";
        agent_image = env_or (get "CLUSTER_AGENT_IMAGE") "r-orchestrator/agent:latest";
        agent_log_level = env_or (get "CLUSTER_AGENT_LOG_LEVEL") "info";
        agent_heartbeat_timeout =
            env_or_duration env (get "CLUSTER_AGENT_HEARTBEAT_TIMEOUT") (90 * second);
        agent_disconnect_grace =
            env_or_duration env (get "CLUSTER_AGENT_DISCONNECT_GRACE") (300 * second);
        kubernetes = record {
          namespace = env_or (get "CLUSTER_KUBERNETES_NAMESPACE") "r-agents";
          image_pull_secrets =
              parse_image_pull_secrets env (get "CLUSTER_KUBERNETES_IMAGE_PULL_SECRETS");
          kube_config_path = get "CLUSTER_KUBERNETES_KUBECONFIG_PATH";
        };
      };
    }

-- The variables that LoadFromEnv requires, in the order of its tests.
abbrev pub required_variables : List String
required_variables =
    "DB_HOST" ∷ "DB_PORT" ∷ "DB_USER" ∷ "DB_PASSWORD" ∷ "DB_NAME" ∷ "CLUSTER_AGENT_TOKEN" ∷ []

unfoldable pub require : Environment → List String → Result Config
require env [] = ok (loaded_config env)
require env (v ∷ vs) =
    let rest = require env vs in if same_text (env.getenv v) "" then err refused else rest

-- LoadFromEnv.
unfoldable pub load_from_env : Environment → Result Config
unfolding require
load_from_env env = require env required_variables

-- GlobalConfig once it is initialized.
abbrev pub keep_config : Result Config → Result (Unit {0}) × Option Config
keep_config (ok cfg) = (ok tt, some cfg)
keep_config (err e) = (err e, none)

-- InitGlobalConfig.
unfoldable pub init_global_config : Environment → Option Config → Result (Unit {0}) × Option Config
unfolding load_from_env
init_global_config env (some cfg) = (err refused, some cfg)
init_global_config env none = keep_config (load_from_env env)
