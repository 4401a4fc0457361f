-- ===== src/TaskService/Validate/Accepts.antt =====
-- The shards that LoadValidatedShard returns, when no statement fails and nobody else writes.
use r_orchestrator.Prelude.{
  ℕ, suc, ◌≡◌, refl, ap, ◌∙◌, String, Bool, true, false, not, some, arith, ◌==◌, row_where,
  same_number, ◌≢◌,
}
use r_orchestrator.Model.{Tenant, Task, TaskShard}
use r_orchestrator.World.{Db, World, Outside}
use r_orchestrator.Action.{ok}
use r_orchestrator.Action.Quiet.{
  IsQuiet, after, Ends, Ends-bind, Ends-pure, Ends-else, Ends-attempt,
}
use r_orchestrator.Orm.Shards
use r_orchestrator.Orm.Shards.{ShardTaskOwner, tenant_owner, task_owner}
use r_orchestrator.Orm.Quiet.{found, query-quiet, first_shard-quiet}
use r_orchestrator.TaskService.Validate.{loaded, check_owner, load_validated_shard}
use r_orchestrator.TaskService.Validate.Owner.{MayReport}

positive_id : (n : ℕ) → ◌≢◌ {A = ℕ} 0 n → (n == 0) ≡ false
positive_id n h = ground arith

negated : (b : Bool) → b ≡ true → not b ≡ false
negated b h = ground arith

task_owner-eq :
    (db : Db) (task_id : ℕ) (t : Task) (n : Tenant)
    → row_where (λ t. t.id == task_id) db.tasks ≡ some t
    → row_where (λ n. n.id == t.tenant_id) db.tenants ≡ some n
    → task_owner db (row_where (λ t. t.id == task_id) db.tasks) ≡ (record {
      task_id = t.id;
      tenant_id = t.tenant_id;
      primary_backend_name = n.primary_backend_name;
    })
unfolding task_owner tenant_owner
task_owner-eq db task_id t n e f = rw (e, f) refl

module _ {o : Outside} (q : IsQuiet o) (w : World) (shard_id : ℕ) (agent_id : String)
    (tenant_id : ℕ) (backend_name : String) (s : TaskShard) where
  pub load-accepts :
      ◌≢◌ {A = ℕ} 0 shard_id
      → row_where (λ x. x.id == shard_id) w.db.shards ≡ some s
      → MayReport w.db shard_id agent_id tenant_id backend_name s
      → Ends (load_validated_shard shard_id agent_id tenant_id backend_name) o w (ok s) w.db
  unfolding load_validated_shard Shards.get_by_id Shards.get_shard_task_owner loaded check_owner
  load-accepts named row may = Ends-else _ _ _ (positive_id shard_id named) (
      Ends-bind _ _
        (Ends-attempt _
          (suc w.stmt, first_shard-quiet q w _ ∙ ap (λ x. (found x, after w w.db)) row))
        λ n. Ends-bind _ _ (Ends-pure _ _ _) λ n. Ends-else _ _ _ may.not_foreign (
          Ends-bind _ _
            (Ends-attempt _ (
              suc n,
              query-quiet q _ _
                  ∙ ap (λ x. (ok x, record w { stmt = suc n }))
                      (task_owner-eq w.db s.task_id may.task may.tenant may.task_found
                        may.tenant_found),
            ))
            λ n. Ends-bind _ _ (Ends-pure _ _ _) λ n.
              Ends-else _ _ _
                (negated _ ((same_number may.task.tenant_id tenant_id).1 may.of_tenant))
                (Ends-else _ _ _ (negated _ may.on_backend) (Ends-pure _ _ _))))
