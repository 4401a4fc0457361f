-- ===== src/Orm/Kept/OfOthers.antt =====
-- internal/orm/tenant_orm and internal/orm/cluster_orm under the relation of Action/Evolves.
use r_orchestrator.Prelude.{ℕ, String}
use r_orchestrator.Orm.Kept.{Keeps, read_rules}
use r_orchestrator.Orm.Tenants

pub tenant_by_name-Keeps : (name : String) → Keeps (Tenants.get_by_name name)
unfolding Tenants.get_by_name
tenant_by_name-Keeps name = search read_rules

pub tenant_by_id-Keeps : (i : ℕ) → Keeps (Tenants.get_by_id i)
unfolding Tenants.get_by_id
tenant_by_id-Keeps i = search read_rules
