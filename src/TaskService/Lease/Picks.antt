-- ===== src/TaskService/Lease/Picks.antt =====
-- What the query of LeaseNextShard selects.
use r_orchestrator.Prelude.{
  some_inj, subst, ℕ, ◌≡◌, refl, sym, ap, ◌∙◌, String, true, Option, none, some, List, [], ◌∷◌, inl,
  inr, arith, ◌==◌, row_where, least_row, same_text, In, Bool-cases, least_row-In,
}
use r_orchestrator.Model.{ShardStatus, Tenant, Task, TaskShard, task_in}
use r_orchestrator.World.{Db, Outside}
use r_orchestrator.TaskService.Lease.{
  Leased, shard_query_statuses, conditions, join_tenant, join_task, joined, candidates, with_row,
  leased_before,
}

-- The backend of the task's tenant is the one asked for.
abbrev pub OnBackend : String → Db → Task → Type 0
OnBackend backend_name db t =
    (n : Tenant) × (row_where (λ n. n.id == t.tenant_id) db.tenants ≡ some n)
    × (same_text n.primary_backend_name backend_name ≡ true)

-- What the WHERE and JOIN conditions ask of a row.
pub record IsEligible (tenant_id : ℕ) (backend_name : String) (db : Db) (r : Leased) : Type 0 where
  pub shard_queued : r.shard.status ≡ ShardStatus.queued
  pub task_found : row_where (λ t. t.id == r.shard.task_id) db.tasks ≡ some r.task
  pub task_of_tenant : (r.task.tenant_id == tenant_id) ≡ true
  pub task_open : task_in r.task.status shard_query_statuses ≡ true
  pub tenant_on_backend : OnBackend backend_name db r.task

conditions-true :
    (tenant_id : ℕ) (backend_name : String) (t : Task) (n : Tenant) (s : TaskShard)
    → conditions tenant_id backend_name t n s ≡ true
    → ((t.tenant_id == tenant_id) ≡ true)
      × (task_in t.status shard_query_statuses ≡ true)
      × (same_text n.primary_backend_name backend_name ≡ true)
      × (s.status ≡ ShardStatus.queued)
conditions-true tenant_id backend_name t n s e = ground arith

module _ (tenant_id : ℕ) (backend_name : String) (db : Db) (s : TaskShard) (r : Leased) where
  tenant-IsEligible :
      (t : Task) (n : Option Tenant)
      → row_where (λ t. t.id == s.task_id) db.tasks ≡ some t
      → row_where (λ n. n.id == t.tenant_id) db.tenants ≡ n
      → join_tenant tenant_id backend_name s t n ≡ some r
      → (r.shard ≡ s) × IsEligible tenant_id backend_name db r
  unfolding join_tenant
  tenant-IsEligible t none f g e = cc
  tenant-IsEligible t (some n) f g e = elim (Bool-cases (conditions tenant_id backend_name t n s)) [
    | inr h ↦ cc (rw h at e)
    | inl h ↦ kept (conditions-true tenant_id backend_name t n s h) (some_inj _ r (rw h at e))
  ]
    where
      kept :
          ((t.tenant_id == tenant_id) ≡ true)
            × (task_in t.status shard_query_statuses ≡ true)
            × (same_text n.primary_backend_name backend_name ≡ true)
            × (s.status ≡ ShardStatus.queued)
          → record { task = t; shard = s } ≡ r
          → (r.shard ≡ s) × IsEligible tenant_id backend_name db r
      kept (a, b, c, d) p =
          subst (λ x. (x.shard ≡ s) × IsEligible tenant_id backend_name db x) p
            (
              refl,
              record {
                shard_queued = d;
                task_found = f;
                task_of_tenant = a;
                task_open = b;
                tenant_on_backend = (n, g, c);
              },
            )

  task-IsEligible :
      (t : Option Task)
      → row_where (λ t. t.id == s.task_id) db.tasks ≡ t
      → join_task tenant_id backend_name db s t ≡ some r
      → (r.shard ≡ s) × IsEligible tenant_id backend_name db r
  unfolding join_task
  task-IsEligible none f e = cc
  task-IsEligible (some t) f e = tenant-IsEligible t _ f refl e

  joined-IsEligible :
      joined tenant_id backend_name db s ≡ some r
      → (r.shard ≡ s) × IsEligible tenant_id backend_name db r
  unfolding joined
  joined-IsEligible e = task-IsEligible _ refl e

module _ (tenant_id : ℕ) (backend_name : String) (db : Db) where
  with_row-In :
      (s : TaskShard) (ss : List TaskShard) (rows : List Leased) (r : Leased)
      → (In r rows → In r.shard ss × IsEligible tenant_id backend_name db r)
      → (x : Option Leased) → joined tenant_id backend_name db s ≡ x
      → In r (with_row x rows)
      → In r.shard (s ∷ ss) × IsEligible tenant_id backend_name db r
  with_row-In s ss rows r later none e m = let l = later m in (inr l.0, l.1)
  with_row-In s ss rows r later (some y) e (inr m) = let l = later m in (inr l.0, l.1)
  with_row-In s ss rows r later (some y) e (inl h) =
      let l = joined-IsEligible tenant_id backend_name db s r (e ∙ ap some (sym h)) in
      (inl l.0, l.1)

  candidates-In :
      (ss : List TaskShard) (r : Leased)
      → In r (candidates tenant_id backend_name db ss)
      → In r.shard ss × IsEligible tenant_id backend_name db r
  unfolding candidates
  candidates-In [] r m = absurd m
  candidates-In (s ∷ ss) r m =
      with_row-In s ss _ r (candidates-In ss r) (joined tenant_id backend_name db s) refl m

  -- The row that the query of LeaseNextShard takes is of a shard of the table that is QUEUED, whose
  -- task is the tenant's and WAITING_FOR_AGENTS, QUEUED or RUNNING, and whose tenant is on the
  -- agent's backend.
  pub picked-IsEligible :
      (o : Outside) (r : Leased)
      → least_row (leased_before o) (candidates tenant_id backend_name db db.shards) ≡ some r
      → In r.shard db.shards × IsEligible tenant_id backend_name db r
  picked-IsEligible o r e = candidates-In db.shards r (least_row-In (leased_before o) r _ e)
