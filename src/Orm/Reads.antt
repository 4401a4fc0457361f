-- ===== src/Orm/Reads.antt =====
-- Queries, which keep any relation that the others keep.
use r_orchestrator.Prelude.{ℕ, String, Bool, true, false, Option, none, some}
use r_orchestrator.World.{Db, World, Outside}
use r_orchestrator.Action.Evolves.{Preorder}
use r_orchestrator.Action.Guarantee.{
  Guarantees, Guarantees-statement, Guarantees-bind, Guarantees-when, guarantee_rules,
}
use r_orchestrator.Orm.{query, or_not_found, inserted, insert_new}
use r_orchestrator.Orm.Shards.{new_uuid}
use r_orchestrator.Orm.Tenants
use r_orchestrator.Orm.Tasks
use r_orchestrator.Orm.Clusters

module _ {R : Db → Db → Type 0} (P : Preorder R) where
  pub query-reads : {A : Type 0} (f : Outside → Db → A) → Guarantees R (query f)
  unfolding query
  query-reads f = Guarantees-statement P _ (λ o w db. P.reflexive db)

  pub or_not_found-reads : {A : Type 0} (x : Option A) → Guarantees R (or_not_found x)
  unfolding or_not_found
  or_not_found-reads none = search (guarantee_rules, P)
  or_not_found-reads (some a) = search (guarantee_rules, P)

  -- An INSERT, by what it adds.
  pub insert_new-Guarantees :
      (taken : World → Db → Bool) (add : World → Db → Db)
      → ((w : World) (db : Db) → R db (add w db))
      → Guarantees R (insert_new taken add)
  unfolding insert_new
  insert_new-Guarantees taken add h =
      Guarantees-bind P _ _ (Guarantees-statement P _ (λ o w db. one w db (taken w db)))
        (λ b. Guarantees-when P b _ _ (search (guarantee_rules, P)) (search (guarantee_rules, P)))
    where
      one : (w : World) (db : Db) (b : Bool) → R db (inserted b db (add w db)).1
      one w db true = P.reflexive db
      one w db false = h w db

  pub new_uuid-reads : Guarantees R new_uuid
  unfolding new_uuid
  new_uuid-reads = search (guarantee_rules, P)

  pub tenant_by_name-reads : (name : String) → Guarantees R (Tenants.get_by_name name)
  unfolding Tenants.get_by_name
  tenant_by_name-reads name = search (guarantee_rules, P, query-reads, or_not_found-reads)

  pub tenant_by_id-reads : (i : ℕ) → Guarantees R (Tenants.get_by_id i)
  unfolding Tenants.get_by_id
  tenant_by_id-reads i = search (guarantee_rules, P, query-reads, or_not_found-reads)

  pub pending_tasks-reads : Guarantees R Tasks.get_pending_task_list
  unfolding Tasks.get_pending_task_list
  pending_tasks-reads = query-reads _

  pub cluster_by_tenant-reads : (i : ℕ) → Guarantees R (Clusters.get_by_tenant i)
  unfolding Clusters.get_by_tenant
  cluster_by_tenant-reads i = search (guarantee_rules, P, query-reads, or_not_found-reads)

pub ruleset reading_rules = (
  guarantee_rules, query-reads, or_not_found-reads, new_uuid-reads, tenant_by_name-reads,
  tenant_by_id-reads, pending_tasks-reads, cluster_by_tenant-reads,
)
