-- ===== src/TaskService/Lease/Bounded.antt =====
-- The loop of LeaseNextShard comes to an end.
use r_orchestrator.Prelude.{ℕ, zero, suc, ◌+◌, ◌*◌, ◌≤◌, String, Bool, Option, none, some, arith}
use r_orchestrator.Model.{Task, TaskShard}
use r_orchestrator.World.{Db, World, Outside}
use r_orchestrator.Action.Spends.{
  Spends, Spends-pure, Spends-raise, Spends-more, Spends-when, Spends-statement, Spends-transaction,
  Spends-bind, Spends-maybe,
}
use r_orchestrator.Orm.{or_not_found, query, first_task, update_shards, update_tasks}
use r_orchestrator.TaskService.Lease.{
  take_candidate, promoted, claim, lease_round, lease_rounds, lease_next_shard,
}

query-Spends : {A : Type 0} (f : Outside → Db → A) → Spends 1 (query f)
unfolding query
query-Spends f = Spends-statement _

or_not_found-Spends : {A : Type 0} (x : Option A) → Spends 0 (or_not_found x)
unfolding or_not_found
or_not_found-Spends none = Spends-raise _
or_not_found-Spends (some a) = Spends-pure a

first_task-Spends : (p : Task → Bool) → Spends 1 (first_task p)
unfolding first_task
first_task-Spends p = Spends-bind 1 0 _ _ (query-Spends _) (λ x. or_not_found-Spends x)

take_candidate-Spends : (t : ℕ) (b : String) → Spends 1 (take_candidate t b)
unfolding take_candidate
take_candidate-Spends t b = Spends-bind 1 0 _ _ (query-Spends _) (λ x. or_not_found-Spends x)

promoted-Spends : (t : Task) → Spends 1 (promoted t)
unfolding promoted update_tasks
promoted-Spends t =
    Spends-when 1 _ _ _ (Spends-bind 1 0 _ _ (Spends-statement _) (λ _. Spends-pure _))
      (Spends-more 0 1 _ (omega arith) (Spends-pure t))

claim-Spends : (a : String) (t : Task) (s : TaskShard) → Spends 1 (claim a t s)
unfolding claim update_shards
claim-Spends a t s = Spends-bind 1 0 _ _ (Spends-statement _) (λ n. Spends-pure _)

lease_round-Spends : (t : ℕ) (b a : String) → Spends 4 (lease_round t b a)
unfolding lease_round
lease_round-Spends t b a = Spends-bind 1 3 _ _ (take_candidate-Spends t b) λ picked.
    Spends-bind 1 2 _ _ (first_task-Spends _) λ loaded.
      Spends-bind 1 1 _ _ (promoted-Spends loaded) λ task.
        Spends-when 1 _ _ _ (claim-Spends a task picked.shard)
          (Spends-more 0 1 _ (omega arith) (Spends-pure none))

lease_rounds-Spends : (n t : ℕ) (b a : String) → Spends (4 * n) (lease_rounds n t b a)
unfolding lease_rounds
lease_rounds-Spends zero t b a = Spends-raise _
lease_rounds-Spends (suc n) t b a = Spends-more (4 + 4 * n) (4 * suc n) _ (omega arith) (
    Spends-bind 4 (4 * n) _ _ (lease_round-Spends t b a) λ done.
      Spends-maybe (4 * n) done _ _ (lease_rounds-Spends n t b a)
        (λ r. Spends-more 0 (4 * n) _ (omega arith) (Spends-pure r)))

-- Whatever fails and whoever else writes, LeaseNextShard ends after at most 400 statements, four
-- for each of its 100 rounds.
pub lease-bounded :
    (o : Outside) (w : World) (tenant_id : ℕ) (backend_name agent_id : String)
    → (lease_next_shard tenant_id backend_name agent_id o w).1.stmt ≤ w.stmt + 400
unfolding lease_next_shard
lease-bounded o w tenant_id backend_name agent_id =
    (Spends-transaction 400 _ (lease_rounds-Spends 100 tenant_id backend_name agent_id)).at o w
