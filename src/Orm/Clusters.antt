-- ===== src/Orm/Clusters.antt =====
-- internal/orm/cluster_orm.
pub mod Usable
use r_orchestrator.Prelude.{
  ℕ, String, Bool, not, ◌&&◌, Option, none, some, List, [], ◌∷◌, ◌++◌, ltb, ◌==◌, if◌then◌else◌,
  one_of, rows_where, row_where, least_row,
}
use r_orchestrator.Model.{
  ClusterStatus, Cluster, provisioning, active, terminated, same_cluster_status,
}
use r_orchestrator.World.{Db}
use r_orchestrator.Action.{
  when◌then◌else◌, Result, ok, err, Action, database, pure, raise, ◌>>=◌, ◌>>◌, attempt, statement,
}
use r_orchestrator.Orm.{query, or_not_found, update_clusters}
use r_orchestrator.Orm.Shards.{new_uuid}

-- The row that the caller passes: id and created_at are set by gorm.
pub record NewCluster : Type 0 where
  pub tenant_id : ℕ
  pub status : ClusterStatus
  pub backend_name : String
  pub billing_cycle_seconds : ℕ
  pub next_billing_boundary_at : ℕ

abbrev pub newest_first : Cluster → Cluster → Bool
newest_first a b = ltb b.created_at a.created_at

abbrev pub row_of : NewCluster → (id created_at : ℕ) → Cluster
row_of c id t = record {
  id = id;
  created_at = t;
  tenant_id = c.tenant_id;
  status = c.status;
  backend_name = c.backend_name;
  billing_cycle_seconds = c.billing_cycle_seconds;
  next_billing_boundary_at = c.next_billing_boundary_at;
  idle_since = none;
}

-- An INSERT on a table with a unique index on tenant_id: `none` is "duplicate key".
abbrev pub insert_cluster : Cluster → Db → Option Cluster × Db
insert_cluster c db = elim (row_where (λ x. x.tenant_id == c.tenant_id) db.clusters) [
  | none ↦ (some c, record db { clusters = db.clusters ++ c ∷ [] })
  | some x ↦ (none, db)
]

-- Create: `none` is an error that contains "duplicate key".
unfoldable pub create : NewCluster → Action (Option Cluster)
create c = do id ← new_uuid; statement (λ o w db. insert_cluster (row_of c id w.clock) db)

-- GetByTenant.
unfoldable pub get_by_tenant : ℕ → Action Cluster
get_by_tenant tenant_id = do
  found ← query (λ o db. least_row newest_first (
      rows_where (λ c. c.tenant_id == tenant_id && not (same_cluster_status c.status terminated))
        db.clusters))
  or_not_found found

-- GetActiveClusterList.
unfoldable pub get_active_cluster_list : Action (List Cluster)
get_active_cluster_list = query λ o db.
    rows_where (λ c. one_of same_cluster_status c.status (active ∷ provisioning ∷ [])) db.clusters

-- The assignments of the reactivating UPDATE, which leaves idle_since alone.
abbrev pub reactivated : NewCluster → Cluster → Cluster
reactivated c found = record found {
  status = c.status;
  backend_name = c.backend_name;
  billing_cycle_seconds = c.billing_cycle_seconds;
  next_billing_boundary_at = c.next_billing_boundary_at;
}

-- The branch of GetOrCreateActiveCluster for a duplicate key; a row that cannot be fetched makes
-- it return the error of the INSERT.
unfoldable pub reuse_terminated : NewCluster → Result Cluster → Action Cluster
reuse_terminated c (err e) = raise database
reuse_terminated c (ok found) =
    when same_cluster_status found.status terminated
    then (do update_clusters (λ x. x.id == found.id) (reactivated c); pure (reactivated c found))
    else pure found

unfoldable pub create_or_reuse : NewCluster → Option Cluster → Action Cluster
create_or_reuse c (some created) = pure created
create_or_reuse c none = do
  found ← attempt (do
    x ←
        query (λ o db.
          least_row newest_first (rows_where (λ x. x.tenant_id == c.tenant_id) db.clusters))
    or_not_found x)
  reuse_terminated c found

unfoldable pub or_create : NewCluster → Result Cluster → Action Cluster
or_create c (ok existing) = pure existing
or_create c (err e) = do created ← create c; create_or_reuse c created

-- GetOrCreateActiveCluster.
unfoldable pub get_or_create_active_cluster : NewCluster → Action Cluster
get_or_create_active_cluster c = do
  existing ← attempt (get_by_tenant c.tenant_id)
  or_create c existing

-- UpdateStatus.
unfoldable pub update_status : ℕ → ClusterStatus → Action Unit
update_status cluster_id status = do
  update_clusters (λ c. c.id == cluster_id) (λ c. record c { status = status })
  pure tt

-- UpdateIdleSince.
unfoldable pub update_idle_since : ℕ → Option ℕ → Action Unit
update_idle_since cluster_id idle_since = do
  update_clusters (λ c. c.id == cluster_id) (λ c. record c { idle_since = idle_since })
  pure tt
