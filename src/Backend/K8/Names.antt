-- ===== src/Backend/K8/Names.antt =====
-- The names of the StatefulSets of two tenants.
use Prim.Native.String.{◌++◌}
use r_orchestrator.Prelude.{ℕ, ◌≡◌, ◌∙◌, ◌∷◌, refl, ap}
use r_orchestrator.Model.{Tenant}
use r_orchestrator.Kubernetes.{KubeCall, delete_stateful_set, patch_replicas}
use r_orchestrator.World.{World, Outside}
use r_orchestrator.Action.Quiet.{bind-ok, attempt-eq}
use r_orchestrator.Backend.K8.Confirmed.{kube_eq, called}
use r_orchestrator.Action.{Result, ok, err, Error, pure, raise, gets, ◌>>=◌, attempt}
use r_orchestrator.Prelude.{◌^◌, ◌<◌, arith}
use r_orchestrator.Backend.K8.{
  Config, replicas_of, first_characters, cluster_name, kube, unless_missing, scale_cluster,
  destroy_cluster,
}

ignored : (o : Outside) (r : Result (Unit {0})) (w : World) → (unless_missing r o w).1 ≡ w
unfolding unless_missing pure raise
ignored o (ok a) w = refl
ignored o (err Error.api_not_found) w = refl
ignored o (err _) w = refl

-- The one call of DestroyCluster.
deleted_call :
    (o : Outside) (call : KubeCall) (w : World)
    → ((attempt (kube call) >>= unless_missing) o w).1.kube_calls ≡ call ∷ w.kube_calls
deleted_call o call w =
    ap (λ x. x.1.kube_calls) (bind-ok _ unless_missing (attempt-eq _ (kube_eq o call w)))
    ∙ ap (λ x. x.kube_calls) (ignored o _ (called call w))

module _ (cfg : Config) (s t : Tenant) (o : Outside)
    (alike : first_characters 8 (o.show_uuid s.id) ≡ first_characters 8 (o.show_uuid t.id)) where
  same_name : cluster_name (o.show_uuid s.id) ≡ cluster_name (o.show_uuid t.id)
  unfolding cluster_name
  same_name = rw alike refl

  spelled :
      cluster_name (o.show_uuid t.id)
      ≡ "r-orch-" ++ (first_characters 8 (o.show_uuid t.id) ++ "-agents")
  unfolding cluster_name
  spelled = refl

  -- For two tenants whose UUIDs agree in their first eight characters, DestroyCluster of the one
  -- asks for the deletion of the StatefulSet with the name of the other, and DestroyCluster and
  -- ScaleCluster of the one do to the world and return what those of the other do.
  pub destroy_scale-shared :
      (n : ℕ) (w : World)
      → ((destroy_cluster cfg s o w).1.kube_calls
          ≡ delete_stateful_set cfg.namespace
              ("r-orch-" ++ (first_characters 8 (o.show_uuid t.id) ++ "-agents"))
            ∷ w.kube_calls)
        × (destroy_cluster cfg s o w ≡ destroy_cluster cfg t o w)
        × (scale_cluster cfg s n o w ≡ scale_cluster cfg t n o w)
  unfolding destroy_cluster scale_cluster ◌>>=◌ gets
  destroy_scale-shared n w = (
    deleted_call o (delete_stateful_set cfg.namespace (cluster_name (o.show_uuid s.id))) w
        ∙ ap (λ name. delete_stateful_set cfg.namespace name ∷ w.kube_calls) (same_name ∙ spelled),
    ap (λ name. (attempt (kube (delete_stateful_set cfg.namespace name)) >>= unless_missing) o w)
        same_name,
    ap (λ name. kube (patch_replicas cfg.namespace name n) o w) same_name,
  )

-- The replica count of a StatefulSet is positive and fits an int32, and a given one that does is
-- kept.
pub replicas-bounds :
    (n : ℕ)
    → (0 < replicas_of n) × (replicas_of n < 2 ^ 31) × (0 < n → n < 2 ^ 31 → replicas_of n ≡ n)
replicas-bounds n = ground arith
