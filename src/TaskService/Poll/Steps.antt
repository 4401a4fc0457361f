-- ===== src/TaskService/Poll/Steps.antt =====
-- The statements of a tick of PollPendingTasks, and of RecycleClusters, under any relation that
-- they keep.
use r_orchestrator.Prelude.{
  ℕ, ◌≡◌, refl, String, Bool, true, Option, none, some, List, [], ◌∷◌, ◌==◌, ◌++◌, row_where,
}
use r_orchestrator.Model.{
  TaskStatus, Cluster, ClusterStatus, task_in, pending, waiting_for_agents, failed,
}
use r_orchestrator.World.{Db}
use r_orchestrator.Action.{Action, Error, Result, ok, err}
use r_orchestrator.Action.Evolves.{Preorder}
use r_orchestrator.Action.Guarantee.{Guarantees, Guarantees-statement, Guarantees-bind}
use r_orchestrator.Orm.{update_clusters}
use r_orchestrator.Orm.Reads.{reading_rules}
use r_orchestrator.Orm.Tasks.{mark_tasks_status}
use r_orchestrator.Orm.Clusters.{
  NewCluster, insert_cluster, create, reuse_terminated, create_or_reuse, or_create,
  get_or_create_active_cluster, update_status,
}
use r_orchestrator.ClusterService.{logged, mark_active}
use r_orchestrator.TaskService.Poll.{hold, or_hold, activate_found, activate}

abbrev pub polled_statuses : List TaskStatus
polled_statuses = pending ∷ failed ∷ waiting_for_agents ∷ []

-- A relation that the statements of a tick keep: those that mark tasks, and any change of clusters.
pub record Polling (R : Db → Db → Type 0) : Type 0 where
  pub preorder : Preorder R
  pub marks :
      (ids : List ℕ) (status : TaskStatus) (text : String)
      → task_in status polled_statuses ≡ true
      → Guarantees R (mark_tasks_status ids status text)
  pub clusters : (c : Db) (xs : List Cluster) → R c (record c { clusters = xs })

module _ {R : Db → Db → Type 0} (K : Polling R) where
  pub update_clusters-keeps :
      (p : Cluster → Bool) (f : Cluster → Cluster) → Guarantees R (update_clusters p f)
  unfolding update_clusters
  update_clusters-keeps p f = Guarantees-statement K.preorder _ (λ o w db. K.clusters db _)

  insert_cluster-keeps : (c : Cluster) (db : Db) → R db (insert_cluster c db).1
  insert_cluster-keeps c db = inserted (row_where (λ x. x.tenant_id == c.tenant_id) db.clusters)
    where
      inserted :
          (x : Option Cluster)
          → R db
              (elim x as (λ _. Option Cluster × Db) [
                | none ↦ (some c, record db { clusters = db.clusters ++ c ∷ [] })
                | some y ↦ (none, db)
              ]).1
      inserted none = K.clusters db _
      inserted (some y) = K.preorder.reflexive db

  create-keeps : (c : NewCluster) → Guarantees R (create c)
  unfolding create
  create-keeps c =
      Guarantees-bind K.preorder _ _ (search (reading_rules, K.preorder))
        (λ id. Guarantees-statement K.preorder _ (λ o w db. insert_cluster-keeps _ db))

  reuse_terminated-keeps :
      (c : NewCluster) (r : Result Cluster) → Guarantees R (reuse_terminated c r)
  unfolding reuse_terminated
  reuse_terminated-keeps c (ok x) = search (reading_rules, K.preorder, update_clusters-keeps)
  reuse_terminated-keeps c (err e) = search (reading_rules, K.preorder)

  create_or_reuse-keeps : (c : NewCluster) (x : Option Cluster) → Guarantees R (create_or_reuse c x)
  unfolding create_or_reuse
  create_or_reuse-keeps c (some x) = search (reading_rules, K.preorder)
  create_or_reuse-keeps c none = search (reading_rules, K.preorder, reuse_terminated-keeps)

  or_create-keeps : (c : NewCluster) (r : Result Cluster) → Guarantees R (or_create c r)
  unfolding or_create
  or_create-keeps c (ok x) = search (reading_rules, K.preorder)
  or_create-keeps c (err e) =
      search (reading_rules, K.preorder, create-keeps, create_or_reuse-keeps)

  pub get_or_create-keeps : (c : NewCluster) → Guarantees R (get_or_create_active_cluster c)
  unfolding get_or_create_active_cluster
  get_or_create-keeps c = search (reading_rules, K.preorder, or_create-keeps)

  pub logged-keeps : (m : Action Unit) → Guarantees R m → Guarantees R (logged m)
  unfolding logged
  logged-keeps m g = search (reading_rules, K.preorder)

  update_status-keeps : (i : ℕ) (s : ClusterStatus) → Guarantees R (update_status i s)
  unfolding update_status
  update_status-keeps i s = search (reading_rules, K.preorder, update_clusters-keeps)

  pub hold-keeps : (ids : List ℕ) (text : String) → Guarantees R (hold ids text)
  unfolding hold
  hold-keeps ids text = logged-keeps _ (K.marks ids pending text refl)

  pub or_hold-keeps :
      {A : Type 0} (text : Error → String) (ids : List ℕ) (r : Result A) (next : Action Unit)
      → Guarantees R next
      → Guarantees R (or_hold text ids r next)
  unfolding or_hold
  or_hold-keeps text ids (ok a) next g = g
  or_hold-keeps text ids (err e) next g = hold-keeps ids (text e)

  activate_found-keeps : (r : Result Cluster) → Guarantees R (activate_found r)
  unfolding activate_found mark_active
  activate_found-keeps (ok x) = logged-keeps _ (update_status-keeps _ _)
  activate_found-keeps (err e) = search (reading_rules, K.preorder)

  pub activate-keeps : (i : ℕ) → Guarantees R (activate i)
  unfolding activate
  activate-keeps i = search (reading_rules, K.preorder, activate_found-keeps)
