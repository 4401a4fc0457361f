-- ===== src/TaskService/Kept/Leasing.antt =====
-- lease_next_shard.go under the relation of Action/Evolves.
use r_orchestrator.Prelude.{ℕ, zero, suc, String, arith}
use r_orchestrator.Model.{Task, TaskShard}
use r_orchestrator.Orm.Kept.{
  Keeps, in_order, read_rules, update_shards-then, update_tasks-then, either_way, maybe_way,
}
use r_orchestrator.TaskService.Lease
use r_orchestrator.TaskService.Lease.{Leased}

promoted-Keeps : (t : Task) → Keeps (Lease.promoted t)
unfolding Lease.promoted
promoted-Keeps t =
    either_way _ _ _ (update_tasks-then (λ x h. ground arith) (λ n. search read_rules))
      (search read_rules)

claim-Keeps : (a : String) (t : Task) (s : TaskShard) → Keeps (Lease.claim a t s)
unfolding Lease.claim
claim-Keeps a t s = update_shards-then (λ x h. ground arith) (λ n. search read_rules)

take_candidate-Keeps : (t : ℕ) (b : String) → Keeps (Lease.take_candidate t b)
unfolding Lease.take_candidate
take_candidate-Keeps t b = search read_rules

lease_round-Keeps : (t : ℕ) (b a : String) → Keeps (Lease.lease_round t b a)
unfolding Lease.lease_round
lease_round-Keeps t b a = in_order (take_candidate-Keeps t b) λ picked.
    in_order (search read_rules)
      λ loaded. in_order (promoted-Keeps loaded) λ task. search (read_rules, claim-Keeps)

lease_rounds-Keeps : (n t : ℕ) (b a : String) → Keeps (Lease.lease_rounds n t b a)
unfolding Lease.lease_rounds
lease_rounds-Keeps zero t b a = search read_rules
lease_rounds-Keeps (suc n) t b a =
    in_order (lease_round-Keeps t b a)
      λ done. maybe_way done _ _ (lease_rounds-Keeps n t b a) (λ r. search read_rules)

pub lease_next_shard-Keeps : (t : ℕ) (b a : String) → Keeps (Lease.lease_next_shard t b a)
unfolding Lease.lease_next_shard
lease_next_shard-Keeps t b a = search (read_rules, lease_rounds-Keeps)
