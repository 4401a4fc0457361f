-- ===== src/Backend.antt =====
-- internal/service/cluster_service/backend: the providers of clusters, and their registry. The
-- registry's mutex is held for all of a call.
pub mod K8
use r_orchestrator.Prelude.{ℕ, String, Option, [], Dict, at_key, with_key}
use r_orchestrator.Model.{Tenant}
use r_orchestrator.Action.{Action}

-- Provider.
pub record Provider : Type 0 where
  pub provision_cluster : Tenant → Action Unit
  pub scale_cluster : Tenant → (replicas : ℕ) → Action Unit
  pub destroy_cluster : Tenant → Action Unit

-- The field `providers` of Registry.
abbrev pub Registry : Type 0
Registry = Dict Provider

-- NewRegistry.
abbrev pub new_registry : Registry
new_registry = []

-- Register.
unfoldable pub register : String → Provider → Registry → Registry
register kind p r = with_key kind p r

-- Get: `none` is the error.
unfoldable pub get : Registry → (backend_name : String) → Option Provider
get r backend_name = at_key backend_name r

-- BackendKindKubernetes.
abbrev pub backend_kind_kubernetes : String
backend_kind_kubernetes = "kubernetes"
