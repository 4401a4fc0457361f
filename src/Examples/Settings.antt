-- ===== src/Examples/Settings.antt =====
-- The settings of a server, its start, and the token of a call.
use r_orchestrator.Backend.K8.{new_k8s_provider}
use r_orchestrator.AgentService.{set_timeouts}
use r_orchestrator.Config.Start.{load_env_variable}
use r_orchestrator.Action.{◌>>=◌, elsewhere, attempt}
use r_orchestrator.Prelude.{cut_prefix}
use Prim.Native.String.{◌++◌}
use r_orchestrator.Prelude.{
  ℕ, Bool, not, same_text, if◌then◌else◌, ◌≡◌, ◌≢◌, refl, String, true, none, some, [], ◌∷◌, List,
  Dict, at_key,
}
use r_orchestrator.World.{World}
use r_orchestrator.Action.{ok}
use r_orchestrator.Config.{Environment, env_or_int, loaded_config, load_from_env}
use r_orchestrator.Config.Decimal.{env_or_int-spelled}
use r_orchestrator.Config.Bounds.{IsUsable, load_from_env-IsUsable}
use r_orchestrator.Config.Start.{loaded, with_file}
use r_orchestrator.Auth.{accepted, validate_token}
use r_orchestrator.Auth.Sound.{Carries, validate_token_sound}
use r_orchestrator.Backend.K8.{}
use r_orchestrator.Server.{Surroundings, Started, server_registry, k8s_config, start}
use r_orchestrator.Server.Ready.{IsReady, start-IsReady}
use r_orchestrator.Model.{TaskStatus, ShardStatus}
use r_orchestrator.World.{idle}
use r_orchestrator.Examples.Data.{calm, world_of, db_of, agent_of, shard_of}

-- Every variable is "x": no number, and no duration.
abbrev settings : Environment
settings = record {
  getenv = λ name. "x";
  postgres_url = λ user password host path. "postgres://" ++ (host ++ ("/" ++ path));
  parse_names = λ text. none;
  parse_duration = λ text. none;
}

-- 2 ^ 64 + 4 wraps around to 4.
spelled_example : env_or_int "18446744073709551620" 600 ≡ 4
spelled_example = env_or_int-spelled "18446744073709551620" 600

settings_load : load_from_env settings ≡ ok (loaded_config settings)
unfolding load_from_env
settings_load = refl

usable_example : IsUsable settings (loaded_config settings)
usable_example = load_from_env-IsUsable settings (loaded_config settings) settings_load

abbrev metadata : Dict (List String)
metadata = ("authorization", "Basic abc" ∷ "Bearer secret" ∷ []) ∷ []

metadata_accepted : validate_token (some metadata) "secret" ≡ accepted
unfolding validate_token at_key cut_prefix
metadata_accepted = refl

token_example : (◌≢◌ {A = String} "secret" "") × Carries metadata "secret"
token_example = validate_token_sound metadata "secret" metadata_accepted

-- The token stands in the .env file, and every other variable in the environment.
abbrev is_token : String → Bool
is_token name = same_text name "CLUSTER_AGENT_TOKEN"

abbrev surroundings : Surroundings
surroundings = record {
  environment = record settings { getenv = λ name. if is_token name then "" else "x" };
  is_set = λ name. not (is_token name);
  missing = λ path. true;
  load_file = λ path. loaded (("CLUSTER_AGENT_TOKEN", "secret") ∷ []);
  opens = λ url. true;
  migrates = true;
  KubeConfig = ℕ;
  Client = ℕ;
  kube_configs = record {
    from_file = λ path. some 1;
    in_cluster = none;
    home = none;
    has_file = λ path. true;
  };
  new_for_config = λ cfg. some cfg;
  listens = λ addr. true;
}

abbrev with_token : Environment
with_token = record settings {
  getenv =
      with_file (λ name. not (is_token name)) (λ name. if is_token name then "" else "x")
        (("CLUSTER_AGENT_TOKEN", "secret") ∷ []);
}

abbrev started : Started
started = record {
  config = loaded_config with_token;
  registry = server_registry (k8s_config (loaded_config with_token));
}

abbrev world : World
world =
    world_of
      (db_of TaskStatus.queued (shard_of 1 "a.sh" ShardStatus.queued none "")
        (shard_of 2 "b.sh" ShardStatus.queued none ""))
      (agent_of idle none)

starts : start surroundings calm world ≡ (ok started, (start surroundings calm world).1)
unfolding start ◌>>=◌ load_env_variable load_from_env set_timeouts elsewhere new_k8s_provider
    loaded_config attempt at_key
starts = refl

start_example : IsReady surroundings started
start_example =
    start-IsReady surroundings calm started world (start surroundings calm world).1 starts
