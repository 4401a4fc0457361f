-- ===== src/Backend/K8/Reads.antt =====
-- The provider never touches the database.
use r_orchestrator.Prelude.{ℕ}
use r_orchestrator.Model.{Tenant}
use r_orchestrator.Kubernetes.{KubeCall, KubeAnswer, done, missing, exists, failed}
use r_orchestrator.World.{Db}
use r_orchestrator.Action.{Error, Result, ok, err}
use r_orchestrator.Action.Evolves.{Preorder}
use r_orchestrator.Action.Guarantee.{Guarantees, guarantee_rules}
use r_orchestrator.Backend.K8.{
  Config, answered, kube, unless_exists, or_create, ensure, provision_cluster, scale_cluster,
  unless_missing, destroy_cluster,
}

module _ {R : Db → Db → Type 0} (P : Preorder R) where
  answered-reads : (a : KubeAnswer) → Guarantees R (answered a)
  unfolding answered
  answered-reads done = search (guarantee_rules, P)
  answered-reads missing = search (guarantee_rules, P)
  answered-reads exists = search (guarantee_rules, P)
  answered-reads failed = search (guarantee_rules, P)

  kube-reads : (c : KubeCall) → Guarantees R (kube c)
  unfolding kube
  kube-reads c = search (guarantee_rules, P, answered-reads)

  unless_exists-reads : (r : Result (Unit {0})) → Guarantees R (unless_exists r)
  unfolding unless_exists
  unless_exists-reads (ok _) = search (guarantee_rules, P)
  unless_exists-reads (err Error.already_exists) = search (guarantee_rules, P)
  unless_exists-reads (err _) = search (guarantee_rules, P)

  or_create-reads : (c : KubeCall) (r : Result (Unit {0})) → Guarantees R (or_create c r)
  unfolding or_create
  or_create-reads c (ok _) = search (guarantee_rules, P)
  or_create-reads c (err Error.api_not_found) =
      search (guarantee_rules, P, kube-reads, unless_exists-reads)
  or_create-reads c (err _) = search (guarantee_rules, P)

  ensure-reads : (get create : KubeCall) → Guarantees R (ensure get create)
  unfolding ensure
  ensure-reads get create = search (guarantee_rules, P, kube-reads, or_create-reads)

  unless_missing-reads : (r : Result (Unit {0})) → Guarantees R (unless_missing r)
  unfolding unless_missing
  unless_missing-reads (ok _) = search (guarantee_rules, P)
  unless_missing-reads (err Error.api_not_found) = search (guarantee_rules, P)
  unless_missing-reads (err _) = search (guarantee_rules, P)

  pub provision_cluster-reads : (cfg : Config) (t : Tenant) → Guarantees R (provision_cluster cfg t)
  unfolding provision_cluster
  provision_cluster-reads cfg t = search (guarantee_rules, P, ensure-reads)

  pub scale_cluster-reads :
      (cfg : Config) (t : Tenant) (n : ℕ) → Guarantees R (scale_cluster cfg t n)
  unfolding scale_cluster
  scale_cluster-reads cfg t n = search (guarantee_rules, P, kube-reads)

  pub destroy_cluster-reads : (cfg : Config) (t : Tenant) → Guarantees R (destroy_cluster cfg t)
  unfolding destroy_cluster
  destroy_cluster-reads cfg t = search (guarantee_rules, P, kube-reads, unless_missing-reads)
