-- ===== src/Orm/Tenants.antt =====
-- internal/orm/tenant_orm.
use r_orchestrator.Prelude.{
  ℕ, String, ◌||◌, [], ◌∷◌, ◌++◌, ◌==◌, if◌then◌else◌, row_where, same_text,
}
use r_orchestrator.Model.{Tenant}
use r_orchestrator.Action.{when◌then◌else◌, Action, refused, pure, raise, ◌>>=◌, ◌>>◌}
use r_orchestrator.Orm.{query, or_not_found, is_taken, insert_new}
use r_orchestrator.Orm.Shards.{new_uuid}

-- Create.
unfoldable pub create : (name primary_backend_name : String) (max_agents : ℕ) → Action Tenant
create name primary_backend_name max_agents = when same_text name "" then raise refused else do
  id ← new_uuid
  let tenant : Tenant = record {
    id = id;
    name = name;
    primary_backend_name = primary_backend_name;
    max_agents = max_agents;
  }
  insert_new (λ w db. is_taken (λ t. t.id == id || same_text t.name name) db.tenants)
      (λ w db. record db { tenants = db.tenants ++ tenant ∷ [] })
  pure tenant

-- GetById.
unfoldable pub get_by_id : ℕ → Action Tenant
unfolding or_not_found
get_by_id tenant_id = do
  found ← query (λ o db. row_where (λ t. t.id == tenant_id) db.tenants)
  or_not_found found

-- GetByName.
unfoldable pub get_by_name : String → Action Tenant
unfolding or_not_found
get_by_name name = when same_text name "" then raise refused else do
  found ← query (λ o db. row_where (λ t. same_text t.name name) db.tenants)
  or_not_found found
