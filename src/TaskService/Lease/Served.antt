-- ===== src/TaskService/Lease/Served.antt =====
-- A QUEUED shard that an agent may have is served.
use r_orchestrator.Prelude.{
  ℕ, ◌≡◌, refl, sym, ap, ◌∙◌, subst, String, Bool, true, Option, none, some, List, [], ◌∷◌, inl,
  inr, arith, ◌==◌, if◌then◌else◌, least_row, same_text, In,
}
use r_orchestrator.Model.{ShardStatus, Tenant, Task, TaskShard, task_in}
use r_orchestrator.World.{Db, World, Outside}
use r_orchestrator.Action.{ok}
use r_orchestrator.Action.Quiet.{IsQuiet, Ends}
use r_orchestrator.TaskService.Lease.{
  Leased, shard_query_statuses, conditions, join_tenant, join_task, joined, candidates, with_row,
  leased_before, lease_next_shard,
}
use r_orchestrator.TaskService.Lease.Picks.{IsEligible, picked-IsEligible}
use r_orchestrator.TaskService.Lease.Grants.{granted, leased_db, lease_next_shard-grants}

met :
    (tenant_id : ℕ) (backend_name : String) (t : Task) (n : Tenant) (s : TaskShard)
    → (t.tenant_id == tenant_id) ≡ true
    → task_in t.status shard_query_statuses ≡ true
    → same_text n.primary_backend_name backend_name ≡ true
    → s.status ≡ ShardStatus.queued
    → conditions tenant_id backend_name t n s ≡ true
met tenant_id backend_name t n s a b c d = ground arith

least_row-some :
    {A : Type 0} (before : A → A → Bool) (a : A) (xs : List A)
    → In a xs
    → (b : A) × (least_row before xs ≡ some b)
least_row-some before a [] m = absurd m
least_row-some {A} before a (x ∷ xs) m = first (least_row before xs)
  where
    first :
        (y : Option A)
        → (b : A) × ((elim y as (λ _. Option A) [
          | none ↦ some x
          | some z ↦ some (if before z x then z else x)
        ])
            ≡ some b)
    first none = (x, refl)
    first (some z) = (_, refl)

module _ (tenant_id : ℕ) (backend_name : String) (db : Db) where
  joined_eligible :
      (r : Leased)
      → IsEligible tenant_id backend_name db r
      → joined tenant_id backend_name db r.shard ≡ some r
  unfolding joined join_task join_tenant
  joined_eligible r el =
      let (n, g, c) = el.tenant_on_backend in
      rw (el.task_found) (
        rw g (
          rw
            (met tenant_id backend_name r.task n r.shard el.task_of_tenant el.task_open c
              el.shard_queued)
            refl))

  In-with_row :
      (r : Leased) (rows : List Leased) (x : Option Leased) → In r rows → In r (with_row x rows)
  In-with_row r rows none m = m
  In-with_row r rows (some y) m = inr m

  In-candidates :
      (r : Leased) (ss : List TaskShard)
      → joined tenant_id backend_name db r.shard ≡ some r
      → In r.shard ss
      → In r (candidates tenant_id backend_name db ss)
  unfolding candidates
  In-candidates r [] e m = absurd m
  In-candidates r (s ∷ ss) e (inr m) =
      In-with_row r _ (joined tenant_id backend_name db s) (In-candidates r ss e m)
  In-candidates r (s ∷ ss) e (inl h) =
      subst (λ x. In r (with_row x (candidates tenant_id backend_name db ss)))
        (sym (ap (joined tenant_id backend_name db) (sym h) ∙ e)) (inl refl)

-- With no failing statement and no other writer, if some shard of the table is QUEUED, its task the
-- tenant's and WAITING_FOR_AGENTS, QUEUED or RUNNING, and the tenant on the agent's backend, then
-- LeaseNextShard grants the agent a shard of which that holds, and writes that lease.
pub lease-serves :
    {o : Outside} (q : IsQuiet o) (w : World) (tenant_id : ℕ) (backend_name agent_id : String)
    (r : Leased)
    → In r.shard w.db.shards
    → IsEligible tenant_id backend_name w.db r
    → (got : Leased) × In got.shard w.db.shards
      × IsEligible tenant_id backend_name w.db got
      × Ends
          (lease_next_shard tenant_id backend_name agent_id)
          o
          w
          (ok (granted agent_id got))
          (leased_db agent_id w.clock got w.db)
lease-serves {o} q w tenant_id backend_name agent_id r m el =
    let (got, e) = least_row-some (leased_before o) r _ (
      In-candidates tenant_id backend_name w.db r w.db.shards
        (joined_eligible tenant_id backend_name w.db r el) m) in
    let (there, eligible) = picked-IsEligible tenant_id backend_name w.db o got e in
    (got, there, eligible, lease_next_shard-grants q w tenant_id backend_name agent_id got e)
