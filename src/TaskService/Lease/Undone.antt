-- ===== src/TaskService/Lease/Undone.antt =====
-- RollbackAssignedShard after LeaseNextShard: what TryAssignShard does when a shard that it has
-- leased cannot be sent.
use r_orchestrator.Prelude.{
  ℕ, suc, ◌≡◌, String, Bool, true, false, ◌&&◌, none, some, [], ◌∷◌, arith, ◌==◌, In, update_where,
  In-update_where, count_where-In, not_zero,
}
use r_orchestrator.Model.{ShardStatus, Task, TaskShard, shard_in}
use r_orchestrator.World.{Db, World, Outside}
use r_orchestrator.Action.{ok, ◌>>=◌}
use r_orchestrator.Action.Quiet.{IsQuiet, Ends, Ends-bind, Ends-pure, Ends-else, Ends-transaction}
use r_orchestrator.Orm.Shards
use r_orchestrator.Orm.Quiet.{touched, update_shards-quiet}
use r_orchestrator.TaskService.Lease.{Leased, lease_next_shard}
use r_orchestrator.TaskService.Lease.Picks.{picked-IsEligible}
use r_orchestrator.TaskService.Lease.Grants.{
  picked, is_waiting, granted_task, granted_shard, leased_db, is_free, self,
  lease_next_shard-grants,
}
use r_orchestrator.TaskService.Rollback.{rollback_assigned_shard}

-- A shard that goes back to the queue.
abbrev pub requeued_shard : TaskShard → TaskShard
requeued_shard s = record s { status = ShardStatus.queued; assigned_agent_id = none }

abbrev pub is_leased_row : ℕ → TaskShard → Bool
is_leased_row i s = s.id == i && shard_in s.status (ShardStatus.leased ∷ [])

abbrev pub requeued_db : ℕ → ℕ → Db → Db
requeued_db i t db = record db {
  shards = update_where (is_leased_row i) (touched t requeued_shard) db.shards;
}

module _ {o : Outside} (q : IsQuiet o) (w : World) where
  rollback-Ends :
      (i : ℕ) (task : Task) (s : TaskShard)
      → is_waiting task ≡ false
      → In s w.db.shards
      → is_leased_row i s ≡ true
      → Ends (rollback_assigned_shard i task) o w (ok tt) (requeued_db i w.clock w.db)
  unfolding rollback_assigned_shard Shards.rollback_shard_with_task Shards.rollback_to_queued
      Shards.transition_status
  rollback-Ends i task s settled there h = Ends-transaction _ (
      Ends-bind _ _
        (Ends-bind _ _ (suc w.stmt, update_shards-quiet q w _ _)
          λ n.
            Ends-else _ _ _ (not_zero _ (count_where-In (is_leased_row i) s w.db.shards there h))
              (Ends-pure _ _ _))
        λ n. Ends-else _ _ _ settled (Ends-pure _ _ _))

granted-settled : (t : Task) → is_waiting (granted_task t) ≡ false
granted-settled t = ground arith

self_leased :
    (agent_id : String) (t : ℕ) (s : TaskShard)
    → is_leased_row s.id (touched t (granted_shard agent_id) s) ≡ true
self_leased agent_id t s = ground arith

-- With no failing statement and no other writer, a shard that is leased and then rolled back by
-- RollbackAssignedShard is QUEUED again, with no agent; its task keeps what the lease made of it,
-- so that one that was WAITING_FOR_AGENTS stays QUEUED.
pub lease-rollback :
    {o : Outside} (q : IsQuiet o) (w : World) (tenant_id : ℕ) (backend_name agent_id : String)
    (r : Leased)
    → picked o tenant_id backend_name w.db ≡ some r
    → Ends
        (lease_next_shard tenant_id backend_name agent_id >>= λ l.
          rollback_assigned_shard l.shard.id l.task)
        o
        w
        (ok tt)
        (requeued_db r.shard.id w.clock (leased_db agent_id w.clock r w.db))
lease-rollback {o} q w tenant_id backend_name agent_id r e =
    let (there, el) = picked-IsEligible tenant_id backend_name w.db o r e in
    Ends-bind _ _ (lease_next_shard-grants q w tenant_id backend_name agent_id r e) λ n.
      rollback-Ends q _ r.shard.id (granted_task r.task) _ (granted-settled r.task)
        (In-update_where (is_free r.shard) (touched w.clock (granted_shard agent_id)) r.shard
          w.db.shards there (self r.shard el.shard_queued))
        (self_leased agent_id w.clock r.shard)
