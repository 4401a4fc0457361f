-- ===== src/ClusterService/Busy.antt =====
-- The recycler and a cluster whose tenant has active tasks, when no statement fails and nobody else
-- writes.
use r_orchestrator.Prelude.{
  ℕ, suc, ◌<◌, ◌≡◌, refl, ◌∙◌, ap, Bool, true, false, not, Option, none, some, ◌==◌, In,
  count_where-In, and_true, same_number, is_none, row_where, is_positive, update_where,
}
use r_orchestrator.Model.{active, Task, Cluster, same_cluster_status, task_in}
use r_orchestrator.World.{Db, World, Outside}
use r_orchestrator.Action.{
  record_not_found, Action, Result, ok, err, pure, gets, ◌>>=◌, ◌>>◌, when◌then◌else◌, now,
}
use r_orchestrator.Action.Evolves.{Grows, Grows-refl, Grows-trans, Grows-update_where}
use r_orchestrator.Action.Quiet.{
  IsQuiet, after, statement-quiet, bind-ok, attempt-eq, Ends, Ends-bind, Ends-attempt, Ends-pure,
  Ends-bind_err,
}
use r_orchestrator.Orm.{or_not_found, count_tasks, update_clusters}
use r_orchestrator.Orm.Quiet.{query-quiet, or_not_found-eq}
use r_orchestrator.Orm.Tasks.{count_active_tasks, active_task_statuses}
use r_orchestrator.Orm.Clusters.{update_idle_since}
use r_orchestrator.Backend.{Registry}
use r_orchestrator.ClusterService.{
  add_seconds, logged, renew_billing, recycle_busy, recycle_counted, recycle_cluster,
}

-- Each cluster keeps its id and its status, and the other tables stay.
pub record KeepsStatuses (c d : Db) : Type 0 where
  pub tenants : d.tenants ≡ c.tenants
  pub tasks : d.tasks ≡ c.tasks
  pub shards : d.shards ≡ c.shards
  pub clusters : Grows (λ x y. (y.id ≡ x.id) × (y.status ≡ x.status)) c.clusters d.clusters

keeps_all : (c : Db) → KeepsStatuses c c
keeps_all c = record {
  tenants = refl;
  tasks = refl;
  shards = refl;
  clusters = Grows-refl _ (λ x. (refl, refl)) c.clusters;
}

keeps_trans : (b c d : Db) → KeepsStatuses b c → KeepsStatuses c d → KeepsStatuses b d
keeps_trans b c d p q = record {
  tenants = q.tenants ∙ p.tenants;
  tasks = q.tasks ∙ p.tasks;
  shards = q.shards ∙ p.shards;
  clusters =
      Grows-trans _ (λ x y z h k. (k.0 ∙ h.0, k.1 ∙ h.1)) b.clusters c.clusters d.clusters
        p.clusters q.clusters;
}

-- The database after an UPDATE of clusters.
abbrev updated_db : (Cluster → Bool) → (Cluster → Cluster) → Db → Db
updated_db p f db = record db { clusters = update_where p f db.clusters }

keeps_updated :
    (p : Cluster → Bool) (f : Cluster → Cluster)
    → ((x : Cluster) → p x ≡ true → (((f x).id ≡ x.id) × ((f x).status ≡ x.status)))
    → (db : Db) → KeepsStatuses db (updated_db p f db)
keeps_updated p f h db = record {
  tenants = refl;
  tasks = refl;
  shards = refl;
  clusters = Grows-update_where _ (λ x. (refl, refl)) p f h db.clusters;
}

-- The action succeeds, and keeps the statuses.
abbrev Settles : Action Unit → Outside → World → Type 0
Settles m o w = (d : Db) × Ends m o w (ok tt) d × KeepsStatuses w.db d

module _ {o : Outside} (q : IsQuiet o) where
  update-Ends :
      (w : World) (p : Cluster → Bool) (f : Cluster → Cluster)
      → Ends (update_clusters p f >> pure tt) o w (ok tt) (updated_db p f w.db)
  unfolding update_clusters
  update-Ends w p f = Ends-bind _ _ (suc w.stmt, statement-quiet o q _ w) (λ n. Ends-pure _ _ _)

  logged-Ends :
      (m : Action Unit) (w : World) (r : Result (Unit {0})) (d : Db)
      → Ends m o w r d
      → Ends (logged m) o w (ok tt) d
  unfolding logged
  logged-Ends m w r d e = Ends-bind _ _ (Ends-attempt m e) (λ n. Ends-pure _ _ _)

  idle-Ends :
      (i : ℕ) (since : Option ℕ) (w : World)
      → Ends
          (logged (update_idle_since i since))
          o
          w
          (ok tt)
          (updated_db (λ c. c.id == i) (λ c. record c { idle_since = since }) w.db)
  unfolding update_idle_since
  idle-Ends i since w = logged-Ends _ w (ok tt) _ (update-Ends w _ _)

  -- The database after RenewBilling.
  abbrev renewed_db : ℕ → Option Cluster → Db → Db
  renewed_db i none db = db
  renewed_db i (some c) db =
      updated_db (λ x. x.id == i)
        (λ x. record x {
          next_billing_boundary_at = add_seconds c.next_billing_boundary_at c.billing_cycle_seconds;
        })
        db

  keeps_renewed : (i : ℕ) (x : Option Cluster) (db : Db) → KeepsStatuses db (renewed_db i x db)
  keeps_renewed i none db = keeps_all db
  keeps_renewed i (some c) db = keeps_updated _ _ (λ x h. (refl, refl)) db

  abbrev row_of_id : ℕ → Db → Option Cluster
  row_of_id i db = row_where (λ c. c.id == i) db.clusters

  renew_rest :
      (i : ℕ) (x : Option Cluster) (w : World)
      → (r : Result (Unit {0})) × Ends
          (do
            c ← or_not_found x
            update_clusters
                (λ x. x.id == i)
                (λ x. record x {
                  next_billing_boundary_at =
                      add_seconds c.next_billing_boundary_at c.billing_cycle_seconds;
                })
            pure tt)
          o
          w
          r
          (renewed_db i x w.db)
  renew_rest i none w =
      (err record_not_found, Ends-bind_err _ _ (w.stmt, or_not_found-eq q w none w))
  renew_rest i (some c) w =
      (ok tt, Ends-bind _ _ (w.stmt, or_not_found-eq q w (some c) w) (λ n. update-Ends _ _ _))

  renew-Ends :
      (i : ℕ) (w : World)
      → Ends (logged (renew_billing i)) o w (ok tt) (renewed_db i (row_of_id i w.db) w.db)
  unfolding renew_billing
  renew-Ends i w =
      let (r, (k, e)) = renew_rest i (row_of_id i w.db) (after w w.db) in
      logged-Ends _ w r _ (k, bind-ok _ _ (query-quiet q w _) ∙ e)

  settled :
      (b : Bool) (m : Action Unit) (w : World)
      → Settles m o w
      → Settles (when b then m else pure tt) o w
  unfolding when◌then◌else◌
  settled true m w s = s
  settled false m w s = (w.db, Ends-pure _ _ _, keeps_all w.db)

  cleared :
      (b : Bool) (m : Action Unit) (w : World)
      → Settles m o w
      → Settles (when b then pure tt else m) o w
  unfolding when◌then◌else◌
  cleared true m w s = (w.db, Ends-pure _ _ _, keeps_all w.db)
  cleared false m w s = s

  in_turn :
      (m n : Action Unit) (w : World)
      → Settles m o w
      → ((v : World) → Settles n o v)
      → Settles (m >> n) o w
  in_turn m n w (d, (k, e), keeps) g =
      let (d', (k', e'), keeps') = g (record w { stmt = k; db = d }) in
      (d', (k', bind-ok _ _ e ∙ e'), keeps_trans w.db d d' keeps keeps')

  after_now : (f : ℕ → Action Unit) (w : World) → Settles (f w.clock) o w → Settles (now >>= f) o w
  unfolding gets
  after_now f w (d, (k, e), keeps) = (d, (k, bind-ok _ _ refl ∙ e), keeps)

  after_query :
      {A : Type 0} (m : Action A) (f : A → Action Unit) (w : World) (a : A)
      → m o w ≡ (ok a, after w w.db)
      → Settles (f a) o (after w w.db)
      → Settles (m >>= f) o w
  after_query m f w a h (d, (k, e), keeps) = (d, (k, bind-ok _ _ h ∙ e), keeps)

  chosen :
      (b : Bool) (m n : Action Unit) (w : World)
      → b ≡ true
      → Settles m o w
      → Settles (when b then m else n) o w
  unfolding when◌then◌else◌
  chosen true m n w h s = s
  chosen false m n w h s = cc

  passed :
      (b : Bool) (m n : Action Unit) (w : World)
      → b ≡ false
      → Settles n o w
      → Settles (when b then m else n) o w
  unfolding when◌then◌else◌
  passed true m n w h s = cc
  passed false m n w h s = s

  busy-Settles : (advance : ℕ) (c : Cluster) (w : World) → Settles (recycle_busy advance c) o w
  unfolding recycle_busy
  busy-Settles advance c w =
      in_turn _ _ w
        (cleared (is_none c.idle_since) _ w
          (_, idle-Ends c.id none w, keeps_updated _ _ (λ x h. (refl, refl)) w.db))
        λ v.
          after_now _ v
            (settled _ _ v (_, renew-Ends c.id v, keeps_renewed c.id (row_of_id c.id v.db) v.db))

  module _ (registry : Registry) (advance idle : ℕ) (c : Cluster) (w : World)
      (is_active : same_cluster_status c.status active ≡ true) (t : Task) (row : In t w.db.tasks)
      (tenants : t.tenant_id ≡ c.tenant_id)
      (busy : task_in t.status active_task_statuses ≡ true) where
    counted : (n : ℕ) × (0 < n) × (count_active_tasks c.tenant_id o w ≡ (ok n, after w w.db))
    unfolding count_active_tasks count_tasks
    counted = (
      _,
      count_where-In _ t w.db.tasks row (and_true _ _ ((same_number _ _).1 tenants) busy),
      query-quiet q w _,
    )

    -- With no failing statement and no other writer, the recycler's step for an ACTIVE cluster
    -- whose tenant has a PENDING, WAITING_FOR_AGENTS, QUEUED or RUNNING task calls no provider,
    -- whatever the registry, the billing boundary and idle_since are: it keeps the id and the
    -- status of every cluster and all other tables.
    pub busy_cluster-kept :
        (d : Db) × Ends (recycle_cluster registry advance idle c) o w (ok tt) d
        × KeepsStatuses w.db d
    unfolding recycle_cluster recycle_counted
    busy_cluster-kept =
        let (n, positive, e) = counted in
        passed _ _ _ w (ap not is_active) (
          after_query _ _ w (ok n) (attempt-eq _ e) (
            chosen _ _ _ (after w w.db) (is_positive n positive)
              (busy-Settles advance c (after w w.db))))
