-- ===== src/ClusterService/Kept.antt =====
-- The recycler under the relation of Action/Evolves.
use r_orchestrator.Prelude.{ℕ, String, ◌≡◌, refl, Option, none, some, List, [], ◌∷◌}
use r_orchestrator.Model.{Tenant, Cluster}
use r_orchestrator.Action.{Action, Result, ok, err, maybe, pure, ◌>>=◌, attempt}
use r_orchestrator.Action.Evolves.{Evolves-Preorder}
use r_orchestrator.Action.Guarantee.{Guarantees-attempt}
use r_orchestrator.Orm.Kept.{Keeps, in_order, either_way, read_rules}
use r_orchestrator.Orm.Tasks.{count_active_tasks}
use r_orchestrator.Orm.Clusters.{get_active_cluster_list, update_status, update_idle_since}
use r_orchestrator.Backend.{Provider, Registry, get}
use r_orchestrator.ClusterService.{
  terminate_cluster, renew_billing, logged, recycle_busy, start_idle, destroyed, recycle_idle,
  recycle_counted, recycle_cluster, recycle_each, recycle_listed, recycle_clusters, bare_tenant,
}

logged-Keeps : (m : Action Unit) → Keeps m → Keeps (logged m)
unfolding logged
logged-Keeps m g = search read_rules

idle_since-Keeps : (i : ℕ) (t : Option ℕ) → Keeps (logged (update_idle_since i t))
unfolding update_idle_since
idle_since-Keeps i t = logged-Keeps _ (search read_rules)

renew-Keeps : (i : ℕ) → Keeps (logged (renew_billing i))
unfolding renew_billing
renew-Keeps i = logged-Keeps _ (search read_rules)

count-Keeps : (i : ℕ) → Keeps (count_active_tasks i)
unfolding count_active_tasks
count-Keeps i = search read_rules

recycle_busy-Keeps : (a : ℕ) (c : Cluster) → Keeps (recycle_busy a c)
unfolding recycle_busy
recycle_busy-Keeps a c = search (read_rules, idle_since-Keeps, renew-Keeps)

start_idle-Keeps : (c : Cluster) (x : Option ℕ) → Keeps (start_idle c x)
unfolding start_idle
start_idle-Keeps c (some t) = search read_rules
start_idle-Keeps c none = search (read_rules, idle_since-Keeps)

destroyed-Keeps : (c : Cluster) (r : Result (Unit {0})) → Keeps (destroyed c r)
unfolding destroyed terminate_cluster update_status
destroyed-Keeps c (ok _) = logged-Keeps _ (search read_rules)
destroyed-Keeps c (err e) = search read_rules

module _ (registry : Registry)
    (keep : (name : String) (p : Provider)
      → get registry name ≡ some p
      → (t : Tenant) → Keeps (p.destroy_cluster t))
    (a i : ℕ) where
  destroyed_by-Keeps :
      (c : Cluster) (x : Option Provider)
      → get registry c.backend_name ≡ x
      → Keeps (
          maybe x (pure tt) (λ p. (do
            done ← attempt (p.destroy_cluster (bare_tenant c.tenant_id))
            destroyed c done)))
  unfolding maybe
  destroyed_by-Keeps c none e = search read_rules
  destroyed_by-Keeps c (some p) e =
      in_order (Guarantees-attempt Evolves-Preorder _ (keep c.backend_name p e _))
        (λ r. destroyed-Keeps c r)

  recycle_idle-Keeps : (c : Cluster) → Keeps (recycle_idle registry a i c)
  unfolding recycle_idle
  recycle_idle-Keeps cluster = in_order (start_idle-Keeps cluster cluster.idle_since) λ c.
      in_order (search read_rules)
        λ t. either_way _ _ _ (destroyed_by-Keeps c _ refl) (search read_rules)

  counted-Keeps : (c : Cluster) (r : Result ℕ) → Keeps (recycle_counted registry a i c r)
  unfolding recycle_counted
  counted-Keeps c (err e) = search read_rules
  counted-Keeps c (ok n) = either_way _ _ _ (recycle_busy-Keeps a c) (recycle_idle-Keeps c)

  recycle_cluster-Keeps : (c : Cluster) → Keeps (recycle_cluster registry a i c)
  unfolding recycle_cluster
  recycle_cluster-Keeps c =
      either_way _ _ _ (search read_rules)
        (in_order (search (read_rules, count-Keeps)) (counted-Keeps c))

  recycle_each-Keeps : (cs : List Cluster) → Keeps (recycle_each registry a i cs)
  unfolding recycle_each
  recycle_each-Keeps [] = search read_rules
  recycle_each-Keeps (c ∷ cs) = in_order (recycle_cluster-Keeps c) (λ _. recycle_each-Keeps cs)

  listed-Keeps : (r : Result (List Cluster)) → Keeps (recycle_listed registry a i r)
  unfolding recycle_listed
  listed-Keeps (ok cs) = recycle_each-Keeps cs
  listed-Keeps (err e) = search read_rules

  pub recycle_clusters-Keeps : Keeps (recycle_clusters registry a i)
  unfolding recycle_clusters get_active_cluster_list
  recycle_clusters-Keeps = in_order (search read_rules) listed-Keeps
