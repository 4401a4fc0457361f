-- ===== src/Kubernetes.antt =====
-- The Kubernetes objects that internal/service/cluster_service/backend/k8 builds, and the calls
-- that it makes of the API.
use r_orchestrator.Prelude.{ℕ, String, List}

-- A container with a TCP readiness probe.
pub record Container : Type 0 where
  pub name : String
  pub image : String
  pub image_pull_policy : String
  pub env : List (String × String)
  pub probe_port : ℕ
  pub initial_delay_seconds : ℕ
  pub period_seconds : ℕ

pub record StatefulSet : Type 0 where
  pub name : String
  pub namespace : String
  pub labels : List (String × String)
  pub replicas : ℕ
  pub match_labels : List (String × String)
  pub service_name : String
  pub pod_labels : List (String × String)
  pub image_pull_secrets : List String
  pub container : Container
  pub restart_policy : String

pub data KubeCall : Type 0 where
  get_namespace create_namespace : (name : String) → KubeCall
  get_stateful_set delete_stateful_set : (namespace name : String) → KubeCall
  create_stateful_set : StatefulSet → KubeCall
  patch_replicas : (namespace name : String) (replicas : ℕ) → KubeCall

-- `missing` and `exists` are the errors of IsNotFound and of IsAlreadyExists.
pub data KubeAnswer : Type 0 where
  done missing exists failed : KubeAnswer
