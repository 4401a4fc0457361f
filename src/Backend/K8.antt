-- ===== src/Backend/K8.antt =====
-- internal/service/cluster_service/backend/k8: a tenant's agents as a StatefulSet.
pub mod Confirmed
pub mod Names
pub mod Reads
use Prim.Native.String.{◌++◌}
use r_orchestrator.Prelude.{
  ℕ, zero, suc, ◌%◌, ◌^◌, String, Bool, ◌||◌, Option, none, some, List, [], ◌∷◌, leb, ◌==◌,
  if◌then◌else◌, is_at_most_zero, same_text,
}
use r_orchestrator.Model.{Tenant}
use r_orchestrator.Kubernetes.{
  Container, StatefulSet, KubeCall, get_namespace, create_namespace, get_stateful_set,
  create_stateful_set, delete_stateful_set, patch_replicas, KubeAnswer, done, missing, exists,
  failed,
}
use r_orchestrator.World.{Outside}
use r_orchestrator.Action.{
  Result, ok, err, Action, unavailable, api_not_found, already_exists, pure, raise, gets, ◌>>=◌,
  ◌>>◌, attempt, elsewhere, when◌then◌else◌,
}
use r_orchestrator.Backend

-- Config of provider.go.
pub record Config : Type 0 where
  pub namespace : String
  pub agent_image : String
  pub image_pull_secrets : List String
  pub server_grpc_addr : String
  pub agent_token : String
  pub server_public_url : String
  pub kube_config_path : String
  pub agent_log_level : String

unfoldable pub first_characters : ℕ → String → String
first_characters zero s = ""
first_characters (suc n) String.[] = ""
first_characters (suc n) (String.◌∷◌ c s) = String.◌∷◌ c (first_characters n s)

-- clusterName.
unfoldable pub cluster_name : (tenant_id : String) → String
unfolding first_characters
cluster_name tenant_id = "r-orch-" ++ (first_characters 8 tenant_id ++ "-agents")

unfoldable pub answered : KubeAnswer → Action Unit
answered done = pure tt
answered missing = raise api_not_found
answered exists = raise already_exists
answered failed = raise unavailable

-- One call of the Kubernetes client.
unfoldable pub kube : KubeCall → Action Unit
unfolding answered
kube call = do
  answer ← gets (λ o w. o.kube (call ∷ w.kube_calls))
  elsewhere (λ w. record w { kube_calls = call ∷ w.kube_calls }) tt
  answered answer

-- `replicas` of ProvisionCluster: an int32, and 1 if it is less than 1.
abbrev pub replicas_of : (max_agents : ℕ) → ℕ
replicas_of max_agents = let n = max_agents % 2 ^ 32 in if n == 0 || leb (2 ^ 31) n then 1 else n

abbrev pub label_app : String
label_app = "r-orchestrator-agent"

abbrev pub label_tenant : String
label_tenant = "r-orchestrator-tenant"

abbrev pub labels_of : (tenant_id : String) → List (String × String)
labels_of tenant_id = (label_app, "true") ∷ (label_tenant, tenant_id) ∷ []

-- `envs`.
unfoldable pub environment_of : Config → (tenant_id : String) → List (String × String)
environment_of cfg tenant_id =
    ("RORCHESTRATOR_TENANT_ID", tenant_id)
    ∷ ("RORCHESTRATOR_SERVER_GRPC_ADDR", cfg.server_grpc_addr)
    ∷ ("RORCHESTRATOR_AGENT_TOKEN", cfg.agent_token)
    ∷ ("RORCHESTRATOR_BACKEND_NAME", "kubernetes")
    ∷ ("RORCHESTRATOR_HEALTH_PORT", "9091")
    ∷ ("RUST_LOG", cfg.agent_log_level)
    ∷ (if same_text cfg.server_public_url ""
        then []
        else ("RORCHESTRATOR_SERVER_URL", cfg.server_public_url) ∷ [])

-- `sts`.
unfoldable pub stateful_set_of : Config → (tenant_id : String) → (max_agents : ℕ) → StatefulSet
unfolding environment_of cluster_name
stateful_set_of cfg tenant_id max_agents = record {
  name = cluster_name tenant_id;
  namespace = cfg.namespace;
  labels = labels_of tenant_id;
  replicas = replicas_of max_agents;
  match_labels = labels_of tenant_id;
  service_name = cluster_name tenant_id;
  pod_labels = labels_of tenant_id;
  image_pull_secrets = cfg.image_pull_secrets;
  container = record {
    name = "agent";
    image = cfg.agent_image;
    image_pull_policy = "IfNotPresent";
    env = environment_of cfg tenant_id;
    probe_port = 9091;
    initial_delay_seconds = 5;
    period_seconds = 10;
  };
  restart_policy = "Always";
}

-- What follows a Create: an object that exists already is no error.
unfoldable pub unless_exists : Result (Unit {0}) → Action Unit
unless_exists (ok _) = pure tt
unless_exists (err already_exists) = pure tt
unless_exists (err e) = raise e

-- What follows a Get: an object that is missing is created.
unfoldable pub or_create : KubeCall → Result (Unit {0}) → Action Unit
unfolding unless_exists
or_create create (ok _) = pure tt
or_create create (err api_not_found) = do created ← attempt (kube create); unless_exists created
or_create create (err e) = raise e

-- A Get of an object, and its Create if it is missing.
unfoldable pub ensure : (get create : KubeCall) → Action Unit
unfolding or_create
ensure get create = do found ← attempt (kube get); or_create create found

-- ProvisionCluster.
unfoldable pub provision_cluster : Config → Tenant → Action Unit
unfolding ensure stateful_set_of
provision_cluster cfg tenant = do
  ensure (get_namespace cfg.namespace) (create_namespace cfg.namespace)
  id ← gets (λ o w. o.show_uuid tenant.id)
  ensure (get_stateful_set cfg.namespace (cluster_name id))
      (create_stateful_set (stateful_set_of cfg id tenant.max_agents))

-- ScaleCluster.
unfoldable pub scale_cluster : Config → Tenant → (replicas : ℕ) → Action Unit
unfolding kube
scale_cluster cfg tenant replicas = do
  id ← gets (λ o w. o.show_uuid tenant.id)
  kube (patch_replicas cfg.namespace (cluster_name id) replicas)

-- DestroyCluster: an object that is missing is no error.
unfoldable pub unless_missing : Result (Unit {0}) → Action Unit
unless_missing (ok _) = pure tt
unless_missing (err api_not_found) = pure tt
unless_missing (err e) = raise e

unfoldable pub destroy_cluster : Config → Tenant → Action Unit
unfolding kube unless_missing
destroy_cluster cfg tenant = do
  id ← gets (λ o w. o.show_uuid tenant.id)
  deleted ← attempt (kube (delete_stateful_set cfg.namespace (cluster_name id)))
  unless_missing deleted

-- The methods of K8sProvider.
unfoldable pub k8s_provider : Config → Backend.Provider
k8s_provider cfg = record {
  provision_cluster = provision_cluster cfg;
  scale_cluster = scale_cluster cfg;
  destroy_cluster = destroy_cluster cfg;
}

-- What the client library knows of a configuration: that of a file, of the cluster it runs in, and
-- where the home directory is and which files exist.
pub record KubeConfigs (A : Type 0) : Type 0 where
  pub from_file : String → Option A
  pub in_cluster : Option A
  pub home : Option String
  pub has_file : String → Bool

abbrev pub from_home : {A : Type 0} → KubeConfigs A → Option String → Option A
from_home k none = none
from_home k (some home) =
    let path = home ++ "/.kube/config" in if k.has_file path then k.from_file path else none

abbrev pub from_surroundings : {A : Type 0} → KubeConfigs A → Option A → Option A
from_surroundings k (some cfg) = some cfg
from_surroundings k none = from_home k k.home

-- BuildKubeConfig.
unfoldable pub build_kube_config : {A : Type 0} → KubeConfigs A → (path : String) → Option A
build_kube_config k path =
    if same_text path "" then from_surroundings k k.in_cluster else k.from_file path

-- NewK8sProvider: `new_for_config` is kubernetes.NewForConfig.
abbrev pub provider_for :
    {A B : Type 0} → (new_for_config : A → Option B) → Config → Option A → Option (B × Config)
provider_for new_for_config cfg none = none
provider_for new_for_config cfg (some kube_config) = elim (new_for_config kube_config) [
  | none ↦ none
  | some client ↦ some (client, cfg)
]

unfoldable pub new_k8s_provider :
    {A B : Type 0} → KubeConfigs A → (A → Option B) → Config → Option (B × Config)
unfolding build_kube_config
new_k8s_provider k new_for_config cfg =
    provider_for new_for_config cfg (build_kube_config k cfg.kube_config_path)
