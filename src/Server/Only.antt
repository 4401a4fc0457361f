-- ===== src/Server/Only.antt =====
-- The registry of main.go has the Kubernetes provider, and no other.
use r_orchestrator.Prelude.{
  ◌≡◌, subst, String, Bool, true, false, none, some, if◌then◌else◌, some_inj, same_text, at_key,
  with_key,
}
use r_orchestrator.Model.{Tenant}
use r_orchestrator.World.{Db}
use r_orchestrator.Action.Evolves.{Preorder}
use r_orchestrator.Action.Guarantee.{Guarantees}
use r_orchestrator.Backend.{Provider, register, get, backend_kind_kubernetes}
use r_orchestrator.Backend.K8
use r_orchestrator.Backend.K8.Reads.{
  provision_cluster-reads, scale_cluster-reads, destroy_cluster-reads,
}
use r_orchestrator.TaskService.Poll.Flow.{LeavesDb}
use r_orchestrator.Server.{server_registry}

only_kubernetes :
    (cfg : K8.Config) (name : String) (p : Provider)
    → get (server_registry cfg) name ≡ some p
    → K8.k8s_provider cfg ≡ p
unfolding get server_registry register at_key with_key
only_kubernetes cfg name p h = chosen (same_text backend_kind_kubernetes name) h
  where
    chosen :
        (b : Bool)
        → (if b then some (K8.k8s_provider cfg) else none) ≡ some p
        → K8.k8s_provider cfg ≡ p
    chosen true h = some_inj _ p h
    chosen false h = cc

module _ {R : Db → Db → Type 0} (P : Preorder R) (cfg : K8.Config) where
  k8s_provider-LeavesDb : LeavesDb R (K8.k8s_provider cfg)
  unfolding K8.k8s_provider
  k8s_provider-LeavesDb = record {
    provisions = provision_cluster-reads P cfg;
    scales = scale_cluster-reads P cfg;
  }

  destroys-Guarantees : (t : Tenant) → Guarantees R ((K8.k8s_provider cfg).destroy_cluster t)
  unfolding K8.k8s_provider
  destroys-Guarantees t = destroy_cluster-reads P cfg t

  pub registered-LeavesDb :
      (name : String) (p : Provider) → get (server_registry cfg) name ≡ some p → LeavesDb R p
  registered-LeavesDb name p h =
      subst (LeavesDb R) (only_kubernetes cfg name p h) k8s_provider-LeavesDb

  pub registered-destroys :
      (name : String) (p : Provider)
      → get (server_registry cfg) name ≡ some p
      → (t : Tenant) → Guarantees R (p.destroy_cluster t)
  registered-destroys name p h t =
      subst (λ x. Guarantees R (x.destroy_cluster t)) (only_kubernetes cfg name p h)
        (destroys-Guarantees t)
