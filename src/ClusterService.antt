-- ===== src/ClusterService.antt =====
-- internal/service/cluster_service: billing.go, service.go and one tick of recycler.go. The
-- providers are those of a registry.
pub mod Billing
pub mod Busy
pub mod Kept
use r_orchestrator.Prelude.{
  ℕ, ◌+◌, ◌-◌, ◌*◌, ◌%◌, ◌^◌, if◌then◌else◌, String, Bool, true, false, not, ◌&&◌, ◌||◌, Option,
  none, some, List, [], ◌∷◌, ltb, leb, ◌==◌, is_none, row_where,
}
use r_orchestrator.Backend.{Provider, Registry, get}
use r_orchestrator.Model.{Tenant, ClusterStatus, active, terminated, Cluster, same_cluster_status}
use r_orchestrator.Action.{
  Result, ok, err, Action, pure, ◌>>=◌, ◌>>◌, when◌then◌else◌, maybe, attempt, now,
}
use r_orchestrator.Orm.{query, or_not_found, update_clusters}
use r_orchestrator.Orm.Tasks.{count_active_tasks}
use r_orchestrator.Orm.Clusters.{get_active_cluster_list, update_status, update_idle_since}
use r_orchestrator.AgentService.{second}

-- t.Add(time.Duration(n) * time.Second): the product is an int64 and wraps around, and an instant
-- before 1970 is 1970 here.
abbrev pub add_seconds : (t n : ℕ) → ℕ
add_seconds t n = let d = n * second % 2 ^ 64 in if ltb d (2 ^ 63) then t + d else t - (2 ^ 64 - d)

-- IsNearBoundary, at the time `t`.
abbrev pub is_near_boundary : Cluster → (threshold t : ℕ) → Bool
is_near_boundary c threshold t = leb c.next_billing_boundary_at (t + threshold)

-- IsExpired.
abbrev pub is_expired : Cluster → (t : ℕ) → Bool
is_expired c t = ltb c.next_billing_boundary_at t

abbrev pub idle_for : Option ℕ → (threshold t : ℕ) → Bool
idle_for none threshold t = false
idle_for (some since) threshold t = leb (since + threshold) t

-- IsIdleExpired.
abbrev pub is_idle_expired : Cluster → (threshold t : ℕ) → Bool
is_idle_expired c threshold t = idle_for c.idle_since threshold t

-- ShouldTerminate.
unfoldable pub should_terminate : Cluster → (idle_threshold : ℕ) → Action Bool
should_terminate c idle_threshold = do
  active_count ← count_active_tasks c.tenant_id
  t ← now
  pure (not (ltb 0 active_count) && is_idle_expired c idle_threshold t)

-- MarkActive.
unfoldable pub mark_active : ℕ → Action Unit
mark_active cluster_id = update_status cluster_id active

-- TerminateCluster.
unfoldable pub terminate_cluster : ℕ → Action Unit
terminate_cluster cluster_id = update_status cluster_id terminated

-- RenewBilling.
unfoldable pub renew_billing : ℕ → Action Unit
renew_billing cluster_id = do
  found ← query (λ o db. row_where (λ c. c.id == cluster_id) db.clusters)
  c ← or_not_found found
  update_clusters (λ x. x.id == cluster_id)
      (λ x. record x {
        next_billing_boundary_at = add_seconds c.next_billing_boundary_at c.billing_cycle_seconds;
      })
  pure tt

-- The Tenant that the recycler makes up: only its ID is set.
abbrev pub bare_tenant : ℕ → Tenant
bare_tenant id = record { id = id; name = ""; primary_backend_name = ""; max_agents = 0 }

-- An error is logged, and the loop goes on.
unfoldable pub logged : Action Unit → Action Unit
logged m = do attempt m; pure tt

-- The branch of a cluster whose tenant has active tasks.
unfoldable pub recycle_busy : (advance_threshold : ℕ) → Cluster → Action Unit
recycle_busy advance_threshold c = do
  when is_none c.idle_since then pure tt else logged (update_idle_since c.id none)
  t ← now
  when is_expired c t || is_near_boundary c advance_threshold t
      then logged (renew_billing c.id)
      else pure tt

unfoldable pub start_idle : Cluster → Option ℕ → Action Cluster
start_idle c (some since) = pure c
start_idle c none = do
  t ← now
  logged (update_idle_since c.id (some t))
  pure (record c { idle_since = some t })

unfoldable pub destroyed : Cluster → Result (Unit {0}) → Action Unit
destroyed c (ok _) = logged (terminate_cluster c.id)
destroyed c (err e) = pure tt

unfoldable pub recycle_idle :
    Registry → (advance_threshold idle_threshold : ℕ) → Cluster → Action Unit
recycle_idle registry advance_threshold idle_threshold cluster = do
  c ← start_idle cluster cluster.idle_since
  t ← now
  when is_idle_expired c idle_threshold t
        && (is_near_boundary c advance_threshold t || is_expired c t)
      then maybe (get registry c.backend_name) (pure tt)
          (λ p. (do done ← attempt (p.destroy_cluster (bare_tenant c.tenant_id)); destroyed c done))
      else pure tt

unfoldable pub recycle_counted :
    Registry → (advance_threshold idle_threshold : ℕ) → Cluster → Result ℕ → Action Unit
recycle_counted registry advance idle c (err e) = pure tt
recycle_counted registry advance idle c (ok active_count) =
    when ltb 0 active_count then recycle_busy advance c else recycle_idle registry advance idle c

-- The body of the loop over the clusters.
unfoldable pub recycle_cluster :
    Registry → (advance_threshold idle_threshold : ℕ) → Cluster → Action Unit
recycle_cluster registry advance idle c =
    when not (same_cluster_status c.status active) then pure tt else do
      counted ← attempt (count_active_tasks c.tenant_id)
      recycle_counted registry advance idle c counted

unfoldable pub recycle_each :
    Registry → (advance_threshold idle_threshold : ℕ) → List Cluster → Action Unit
recycle_each registry advance idle [] = pure tt
recycle_each registry advance idle (c ∷ cs) = do
  recycle_cluster registry advance idle c
  recycle_each registry advance idle cs

unfoldable pub recycle_listed :
    Registry → (advance_threshold idle_threshold : ℕ) → Result (List Cluster) → Action Unit
recycle_listed registry advance idle (ok clusters) = recycle_each registry advance idle clusters
recycle_listed registry advance idle (err e) = pure tt

-- One tick of RecycleClusters.
unfoldable pub recycle_clusters : Registry → (advance_threshold idle_threshold : ℕ) → Action Unit
recycle_clusters registry advance idle = do
  listed ← attempt get_active_cluster_list
  recycle_listed registry advance idle listed
