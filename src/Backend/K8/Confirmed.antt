-- ===== src/Backend/K8/Confirmed.antt =====
-- ProvisionCluster that succeeds.
use Prim.Native.String.{◌++◌}
use r_orchestrator.Prelude.{
  ℕ, ◌<◌, ◌^◌, String, In, arith, ◌≡◌, subst, ◌⊎◌, inl, inr, refl, sym, ◌∙◌, ap, List, ◌∷◌,
}
use r_orchestrator.Model.{Tenant}
use r_orchestrator.Kubernetes.{
  StatefulSet, KubeCall, get_stateful_set, create_stateful_set, KubeAnswer, done, missing, exists,
  failed,
}
use r_orchestrator.World.{World, Outside}
use r_orchestrator.Action.{Error, Result, ok, err, gets, ◌>>=◌, elsewhere, pure, raise}
use r_orchestrator.Action.Success.{ok≢err, bind-success, after-step}
use r_orchestrator.Action.Quiet.{bind-ok, attempt-eq}
use r_orchestrator.Backend.K8.{
  Config, first_characters, replicas_of, environment_of, answered, kube, unless_exists, or_create,
  ensure, cluster_name, stateful_set_of, provision_cluster,
}

abbrev pub verdict : KubeAnswer → Result (Unit {0})
verdict done = ok tt
verdict missing = err Error.api_not_found
verdict exists = err Error.already_exists
verdict failed = err Error.unavailable

-- The StatefulSet of a tenant: its name and its namespace, as many replicas as the tenant may have
-- agents, and the labels that its pods carry.
pub record IsSetOf (cfg : Config) (id : String) (max_agents : ℕ) (s : StatefulSet) : Type 0 where
  pub name : s.name ≡ "r-orch-" ++ (first_characters 8 id ++ "-agents")
  pub namespace : s.namespace ≡ cfg.namespace
  pub replicas : 0 < max_agents → max_agents < 2 ^ 31 → s.replicas ≡ max_agents
  pub selected : s.match_labels ≡ s.pod_labels
  pub tenant : In ("r-orchestrator-tenant", id) s.pod_labels
  pub image : s.container.image ≡ cfg.agent_image
  pub told_tenant : In ("RORCHESTRATOR_TENANT_ID", id) s.container.env
  pub told_token : In ("RORCHESTRATOR_AGENT_TOKEN", cfg.agent_token) s.container.env

-- The call was the last one, and its answer.
abbrev pub LastCall : Outside → KubeCall → KubeAnswer → World → Type 0
LastCall o call a w =
    (rest : List KubeCall) × (w.kube_calls ≡ call ∷ rest) × (o.kube (call ∷ rest) ≡ a)

-- The last call shows that the object is there.
abbrev pub Confirms : Outside → (get create : KubeCall) → World → Type 0
Confirms o get create w =
    LastCall o get done w ⊎ LastCall o create done w ⊎ LastCall o create exists w

same_count : (n : ℕ) → 0 < n → n < 2 ^ 31 → replicas_of n ≡ n
same_count n h k = ground arith

stateful_set_of-IsSetOf :
    (cfg : Config) (id : String) (n : ℕ) → IsSetOf cfg id n (stateful_set_of cfg id n)
unfolding stateful_set_of cluster_name environment_of
stateful_set_of-IsSetOf cfg id n = record {
  name = refl;
  namespace = refl;
  replicas = same_count n;
  selected = refl;
  tenant = inr (inl refl);
  image = refl;
  told_tenant = inl refl;
  told_token = inr (inr (inl refl));
}

abbrev pub called : KubeCall → World → World
called call w = record w { kube_calls = call ∷ w.kube_calls }

module _ (o : Outside) where
  answered_eq : (a : KubeAnswer) (w : World) → answered a o w ≡ (verdict a, w)
  unfolding answered pure raise
  answered_eq done w = refl
  answered_eq missing w = refl
  answered_eq exists w = refl
  answered_eq failed w = refl

  pub kube_eq :
      (call : KubeCall) (w : World)
      → kube call o w ≡ (verdict (o.kube (call ∷ w.kube_calls)), called call w)
  unfolding kube ◌>>=◌ gets elsewhere
  kube_eq call w = answered_eq (o.kube (call ∷ w.kube_calls)) (called call w)

  created-Confirms :
      (get create : KubeCall) (w : World) (a : KubeAnswer)
      → o.kube (create ∷ w.kube_calls) ≡ a
      → (unless_exists (verdict a) o (called create w)).0 ≡ ok tt
      → Confirms o get create (unless_exists (verdict a) o (called create w)).1
  unfolding unless_exists pure raise
  created-Confirms get create w done e f = inr (inl (w.kube_calls, refl, e))
  created-Confirms get create w missing e f = absurd (ok≢err (sym f))
  created-Confirms get create w exists e f = inr (inr (w.kube_calls, refl, e))
  created-Confirms get create w failed e f = absurd (ok≢err (sym f))

  or_create_eq :
      (create : KubeCall) (w : World)
      → or_create create (err Error.api_not_found) o w
        ≡ unless_exists (verdict (o.kube (create ∷ w.kube_calls))) o (called create w)
  unfolding or_create
  or_create_eq create w = bind-ok _ _ (attempt-eq _ (kube_eq create w))

  found-Confirms :
      (get create : KubeCall) (w : World) (a : KubeAnswer)
      → o.kube (get ∷ w.kube_calls) ≡ a
      → (or_create create (verdict a) o (called get w)).0 ≡ ok tt
      → Confirms o get create (or_create create (verdict a) o (called get w)).1
  unfolding or_create pure raise
  found-Confirms get create w done e f = inl (w.kube_calls, refl, e)
  found-Confirms get create w missing e f =
      let eq = or_create_eq create (called get w) in
      subst (λ x. Confirms o get create x.1) (sym eq)
        (created-Confirms get create (called get w) _ refl (ap (λ x. x.0) (sym eq) ∙ f))
  found-Confirms get create w exists e f = absurd (ok≢err (sym f))
  found-Confirms get create w failed e f = absurd (ok≢err (sym f))

  ensure_eq :
      (get create : KubeCall) (w : World)
      → ensure get create o w
        ≡ or_create create (verdict (o.kube (get ∷ w.kube_calls))) o (called get w)
  unfolding ensure
  ensure_eq get create w = bind-ok _ _ (attempt-eq _ (kube_eq get w))

  ensure-Confirms :
      (get create : KubeCall) (w v : World)
      → ensure get create o w ≡ (ok tt, v)
      → Confirms o get create v
  ensure-Confirms get create w v e =
      let eq = sym (ensure_eq get create w) ∙ e in
      subst (λ x. Confirms o get create x.1) eq
        (found-Confirms get create w _ refl (ap (λ x. x.0) eq))

  -- Whatever the API of Kubernetes answers, if ProvisionCluster succeeds then its last call was a
  -- Get that found the StatefulSet with the tenant's name, r-orch- with the first eight characters
  -- of its UUID, or a Create, done or answered by AlreadyExists, of one with this name and the
  -- namespace of the settings, with as many replicas as the tenant may have agents if that is a
  -- positive int32, that selects its own pods, carries the tenant's label, and runs the agent's
  -- image with the tenant's UUID and the token.
  pub provision_cluster-Confirms :
      (cfg : Config) (t : Tenant) (w v : World)
      → provision_cluster cfg t o w ≡ (ok tt, v)
      → let id = o.show_uuid t.id in
        (s : StatefulSet) × IsSetOf cfg id t.max_agents s
        × Confirms o
            (get_stateful_set cfg.namespace ("r-orch-" ++ (first_characters 8 id ++ "-agents")))
            (create_stateful_set s)
            v
  unfolding provision_cluster gets cluster_name
  provision_cluster-Confirms cfg t w v e =
      let (_, _, f) = bind-success _ _ e in
      (
        stateful_set_of cfg (o.show_uuid t.id) t.max_agents,
        stateful_set_of-IsSetOf cfg (o.show_uuid t.id) t.max_agents,
        ensure-Confirms _ _ _ v (after-step _ _ refl f),
      )
