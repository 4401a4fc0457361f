-- ===== src/Graph/Kept.antt =====
-- CreateTenant under the relation of Action/Evolves.
use r_orchestrator.Prelude.{ℕ, String, Option}
use r_orchestrator.Action.Evolves.{
  ShardEdge, TaskEdge, ShardEdge-refl, TaskEdge-refl, Grows-refl, Evolves-Preorder,
}
use r_orchestrator.Orm.Kept.{Keeps, in_order, either_way, read_rules}
use r_orchestrator.Orm.Reads.{new_uuid-reads, insert_new-Guarantees}
use r_orchestrator.Orm.Tenants
use r_orchestrator.Graph.{Copies, CreateTenantInput, copied, resolve_create_tenant}

create-Keeps : (name backend : String) (n : ℕ) → Keeps (Tenants.create name backend n)
unfolding Tenants.create
create-Keeps name backend n = either_way _ _ _ (search read_rules) (
    in_order (new_uuid-reads Evolves-Preorder) λ id.
      in_order
        (insert_new-Guarantees Evolves-Preorder _ _ λ w db. record {
          shards = Grows-refl ShardEdge ShardEdge-refl db.shards;
          tasks = Grows-refl TaskEdge TaskEdge-refl db.tasks;
        })
        (λ _. search read_rules))

copied-Keeps : {A : Type 0} (x : Option A) → Keeps (copied x)
unfolding copied
copied-Keeps x = search read_rules

pub create_tenant-Keeps :
    (copies : Copies) (input : CreateTenantInput) → Keeps (resolve_create_tenant copies input)
unfolding resolve_create_tenant
create_tenant-Keeps copies input =
    either_way _ _ _ (search read_rules) (search (read_rules, create-Keeps, copied-Keeps))
