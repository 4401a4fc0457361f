-- ===== src/TaskService/Lease/Grants.antt =====
-- LeaseNextShard when no statement fails and nobody else writes.
use r_orchestrator.Prelude.{
  ℕ, suc, ◌≡◌, refl, subst, ap, ◌∙◌, String, Bool, true, false, ◌&&◌, Option, none, some, List,
  arith, ◌==◌, if◌then◌else◌, least_row, update_where, In, count_where-In, not_zero,
  row_where-stronger,
}
use r_orchestrator.Model.{
  TaskStatus, ShardStatus, Task, TaskShard, task_in, same_task_status, same_shard_status,
}
use r_orchestrator.World.{Db, World, Outside}
use r_orchestrator.Action.{ok, err, record_not_found, maybe}
use r_orchestrator.Action.Quiet.{
  IsQuiet, Ends, Ends-bind, Ends-bind_err, Ends-pure, Ends-then, Ends-else, Ends-transaction,
  Ends-transaction_err,
}
use r_orchestrator.Orm.{first_task}
use r_orchestrator.Orm.Quiet.{
  found, touched, query-quiet, first_task-quiet, update_shards-quiet, update_tasks-quiet,
  or_not_found-eq,
}
use r_orchestrator.TaskService.Lease.{
  Leased, shard_query_statuses, candidates, leased_before, take_candidate, promoted, claim,
  lease_round, lease_rounds, lease_next_shard,
}
use r_orchestrator.TaskService.Lease.Picks.{picked-IsEligible}

-- The row that the query of LeaseNextShard takes.
abbrev pub picked : Outside → ℕ → String → Db → Option Leased
picked o tenant_id backend_name db =
    least_row (leased_before o) (candidates tenant_id backend_name db db.shards)

abbrev pub is_waiting : Task → Bool
is_waiting t = same_task_status t.status TaskStatus.waiting_for_agents

-- The task that comes back with the lease.
abbrev pub granted_task : Task → Task
granted_task t = if is_waiting t then record t { status = TaskStatus.queued } else t

abbrev pub granted_shard : String → TaskShard → TaskShard
granted_shard agent_id s = record s {
  status = ShardStatus.leased;
  assigned_agent_id = some agent_id;
}

abbrev pub granted : String → Leased → Leased
granted agent_id r = record { task = granted_task r.task; shard = granted_shard agent_id r.shard }

-- A waiting task becomes QUEUED in its row.
abbrev pub promoted_tasks : Task → List Task → List Task
promoted_tasks task ts =
    if is_waiting task
    then update_where (λ t. t.id == task.id && is_waiting t)
        (λ t. record t { status = TaskStatus.queued }) ts
    else ts

-- The shard becomes LEASED by the agent in its row.
abbrev pub leased_shards : String → ℕ → TaskShard → List TaskShard → List TaskShard
leased_shards agent_id t shard ss =
    update_where (λ s. s.id == shard.id && same_shard_status s.status ShardStatus.queued)
      (touched t (granted_shard agent_id)) ss

abbrev pub leased_db : String → ℕ → Leased → Db → Db
leased_db agent_id t r db = record db {
  tasks = promoted_tasks r.task db.tasks;
  shards = leased_shards agent_id t r.shard db.shards;
}

abbrev same_db_tasks : Task → Db → Db
same_db_tasks task db = record db { tasks = promoted_tasks task db.tasks }

-- The condition of the UPDATE that leases a shard.
abbrev pub is_free : TaskShard → TaskShard → Bool
is_free shard s = s.id == shard.id && same_shard_status s.status ShardStatus.queued

pub self : (s : TaskShard) → s.status ≡ ShardStatus.queued → is_free s s ≡ true
self s e = ground arith

module _ {o : Outside} (q : IsQuiet o) (w : World) where
  take_candidate-Ends :
      (tenant_id : ℕ) (backend_name : String)
      → Ends
          (take_candidate tenant_id backend_name)
          o
          w
          (found (picked o tenant_id backend_name w.db))
          w.db
  unfolding take_candidate
  take_candidate-Ends tenant_id backend_name =
      Ends-bind _ _ (suc w.stmt, query-quiet q w _) (λ n. (n, or_not_found-eq q w _ _))

  promoted-Ends :
      (task : Task) → Ends (promoted task) o w (ok (granted_task task)) (same_db_tasks task w.db)
  unfolding promoted
  promoted-Ends task = split (is_waiting task) refl
    where
      split :
          (b : Bool)
          → is_waiting task ≡ b
          → Ends (promoted task) o w (ok (granted_task task)) (same_db_tasks task w.db)
      split true e = rw e (
          Ends-then _ _ _ refl
            (Ends-bind _ _ (suc w.stmt, update_tasks-quiet q w _ _) (λ n. Ends-pure _ _ _)))
      split false e = rw e (Ends-else _ _ _ refl (Ends-pure _ _ _))

  claim-Ends :
      (agent_id : String) (task : Task) (shard : TaskShard)
      → In shard w.db.shards
      → shard.status ≡ ShardStatus.queued
      → Ends
          (claim agent_id task shard)
          o
          w
          (ok (some (record { task = task; shard = granted_shard agent_id shard })))
          (record w.db { shards = leased_shards agent_id w.clock shard w.db.shards })
  unfolding claim
  claim-Ends agent_id task shard m e =
      Ends-bind _ _ (suc w.stmt, update_shards-quiet q w _ _)
        λ n.
          rw (not_zero _ (count_where-In (is_free shard) shard w.db.shards m (self shard e)))
            (Ends-pure _ _ _)

granted_open :
    (t : Task)
    → task_in t.status shard_query_statuses ≡ true
    → task_in (granted_task t).status shard_query_statuses ≡ true
granted_open t h = ground arith

module _ {o : Outside} (q : IsQuiet o) (w : World) (tenant_id : ℕ) (backend_name agent_id : String)
    (r : Leased) (e : picked o tenant_id backend_name w.db ≡ some r) where
  load_task :
      (n : ℕ)
      → Ends
          (first_task (λ t. t.tenant_id == tenant_id && t.id == r.shard.task_id))
          o
          (record w { stmt = n })
          (ok r.task)
          w.db
  load_task n =
      let el = (picked-IsEligible tenant_id backend_name w.db o r e).1 in
      (
        suc n,
        first_task-quiet q _ _
            ∙ ap (λ x. (found x, record w { stmt = suc n }))
                (row_where-stronger (λ t. t.id == r.shard.task_id) (λ t. t.tenant_id == tenant_id)
                  r.task w.db.tasks el.task_found el.task_of_tenant),
      )

  lease_round-Ends :
      Ends
        (lease_round tenant_id backend_name agent_id)
        o
        w
        (ok (some (granted agent_id r)))
        (leased_db agent_id w.clock r w.db)
  unfolding lease_round
  lease_round-Ends =
      let (there, el) = picked-IsEligible tenant_id backend_name w.db o r e in
      Ends-bind _ _
        (subst (λ x. Ends (take_candidate tenant_id backend_name) o w (found x) w.db) e
          (take_candidate-Ends q w tenant_id backend_name))
        λ n. Ends-bind _ _ (load_task n) λ n. Ends-bind _ _ (promoted-Ends q _ r.task) λ n.
          Ends-then _ _ _ (granted_open r.task el.task_open)
            (claim-Ends q _ agent_id (granted_task r.task) r.shard there el.shard_queued)

  lease_rounds-Ends :
      (n : ℕ)
      → Ends
          (lease_rounds (suc n) tenant_id backend_name agent_id)
          o
          w
          (ok (granted agent_id r))
          (leased_db agent_id w.clock r w.db)
  unfolding lease_rounds maybe
  lease_rounds-Ends n = Ends-bind _ _ lease_round-Ends (λ k. Ends-pure _ _ _)

  -- With no failing statement and no other writer, LeaseNextShard takes the first row of its query:
  -- it returns the shard LEASED to the agent and the task, QUEUED if it was WAITING_FOR_AGENTS,
  -- writes these two rows, and changes nothing else.
  pub lease_next_shard-grants :
      Ends
        (lease_next_shard tenant_id backend_name agent_id)
        o
        w
        (ok (granted agent_id r))
        (leased_db agent_id w.clock r w.db)
  unfolding lease_next_shard
  lease_next_shard-grants = Ends-transaction _ (lease_rounds-Ends 99)

-- With no failing statement and no other writer, LeaseNextShard returns gorm.ErrRecordNotFound if
-- its query has no row, and writes nothing.
pub lease_next_shard_nothing :
    {o : Outside} (q : IsQuiet o) (w : World) (tenant_id : ℕ) (backend_name agent_id : String)
    → picked o tenant_id backend_name w.db ≡ none
    → Ends (lease_next_shard tenant_id backend_name agent_id) o w (err record_not_found) w.db
unfolding lease_next_shard lease_rounds lease_round
lease_next_shard_nothing {o} q w tenant_id backend_name agent_id e = Ends-transaction_err q _ (
    Ends-bind_err _ _ (
      Ends-bind_err _ _ (
        subst (λ x. Ends (take_candidate tenant_id backend_name) o w (found x) w.db) e
          (take_candidate-Ends q w tenant_id backend_name))))
