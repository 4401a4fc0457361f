-- ===== src/TaskService/Poll.antt =====
-- poll_pending_tasks.go: one tick of PollPendingTasks.
pub mod Effect
pub mod Edge
pub mod Flow
pub mod Steps
use Prim.Native.String.{◌++◌ as text_append}
use r_orchestrator.Prelude.{
  ℕ, ◌+◌, ◌*◌, String, Bool, true, false, none, some, List, [], ◌∷◌, ◌++◌, ◌==◌, if◌then◌else◌,
}
use r_orchestrator.Model.{TaskStatus, Tenant, Task, Cluster, provisioning}
use r_orchestrator.Action.{
  maybe, when◌then◌else◌, Error, Result, ok, err, Action, pure, ◌>>=◌, ◌>>◌, attempt, now,
}
use r_orchestrator.Orm.Tasks.{mark_tasks_status, get_pending_task_list}
use r_orchestrator.Orm.Tenants
use r_orchestrator.Orm.Clusters.{NewCluster, get_by_tenant, get_or_create_active_cluster}
use r_orchestrator.AgentService.{second}
use r_orchestrator.Backend.{Provider, Registry, get}
use r_orchestrator.ClusterService.{add_seconds, logged, mark_active}

-- The ids of the pending tasks of a tenant.
abbrev pub Group : Type 0
Group = ℕ × List ℕ

-- What the poller works with: the order in which Go ranges over a map, and the texts of errors.
pub record Poller : Type 0 where
  pub registry : Registry
  pub billing_cycle_seconds : ℕ
  pub order : List Group → List Group
  pub error_text : Error → String
  pub no_provider_text : (backend_name : String) → String

-- groups[task.TenantID] = append(groups[task.TenantID], task.ID)
unfoldable pub add_to_group : (tenant_id task_id : ℕ) → List Group → List Group
add_to_group tenant_id task_id [] = (tenant_id, task_id ∷ []) ∷ []
add_to_group tenant_id task_id ((t, ids) ∷ groups) =
    let rest = add_to_group tenant_id task_id groups in
    if t == tenant_id then (t, ids ++ task_id ∷ []) ∷ groups else (t, ids) ∷ rest

unfoldable pub group_by_tenant : List Group → List Task → List Group
unfolding add_to_group
group_by_tenant groups [] = groups
group_by_tenant groups (t ∷ ts) = group_by_tenant (add_to_group t.tenant_id t.id groups) ts

-- The tasks stay PENDING, with the text of an error.
unfoldable pub hold : List ℕ → String → Action Unit
hold task_ids text = logged (mark_tasks_status task_ids TaskStatus.pending text)

-- A step that fails holds the tasks, and the others are left out.
unfoldable pub or_hold :
    {A : Type 0} → (Error → String) → List ℕ → Result A → (next : Action Unit) → Action Unit
unfolding hold
or_hold text task_ids (ok a) next = next
or_hold text task_ids (err e) next = hold task_ids (text e)

unfoldable pub activate_found : Result Cluster → Action Unit
activate_found (ok existing) = logged (mark_active existing.id)
activate_found (err e) = pure tt

unfoldable pub activate : (tenant_id : ℕ) → Action Unit
unfolding activate_found
activate tenant_id = do existing ← attempt (get_by_tenant tenant_id); activate_found existing

-- The row that the poller asks for.
abbrev pub wanted_cluster : Tenant → (billing_cycle_seconds t : ℕ) → NewCluster
wanted_cluster tenant billing_cycle_seconds t = record {
  tenant_id = tenant.id;
  status = provisioning;
  backend_name = tenant.primary_backend_name;
  billing_cycle_seconds = billing_cycle_seconds;
  next_billing_boundary_at = add_seconds t billing_cycle_seconds;
}

unfoldable pub finish_tenant : Tenant → List ℕ → Action Unit
unfolding activate
finish_tenant tenant task_ids = do
  activate tenant.id
  logged (mark_tasks_status task_ids TaskStatus.waiting_for_agents "")

unfoldable pub scale_tenant : Poller → Provider → Tenant → List ℕ → Action Unit
unfolding or_hold finish_tenant
scale_tenant p provider tenant task_ids = do
  scaled ← attempt (provider.scale_cluster tenant tenant.max_agents)
  or_hold (λ e. text_append "scale: " (p.error_text e)) task_ids scaled
      (finish_tenant tenant task_ids)

unfoldable pub ensure_tenant : Poller → Provider → Tenant → List ℕ → Action Unit
unfolding or_hold scale_tenant
ensure_tenant p provider tenant task_ids = do
  provisioned ← attempt (provider.provision_cluster tenant)
  or_hold (λ e. text_append "ensure: " (p.error_text e)) task_ids provisioned
      (scale_tenant p provider tenant task_ids)

unfoldable pub start_tenant : Poller → Provider → Tenant → List ℕ → Action Unit
unfolding or_hold ensure_tenant
start_tenant p provider tenant task_ids = do
  t ← now
  created ← attempt (get_or_create_active_cluster (wanted_cluster tenant p.billing_cycle_seconds t))
  or_hold p.error_text task_ids created (ensure_tenant p provider tenant task_ids)

unfoldable pub poll_tenant : Poller → Tenant → List ℕ → Action Unit
unfolding hold start_tenant
poll_tenant p tenant task_ids =
    when tenant.max_agents == 0
    then logged (mark_tasks_status task_ids TaskStatus.failed "tenant max_agents is 0")
    else maybe (get p.registry tenant.primary_backend_name)
        (hold task_ids (p.no_provider_text tenant.primary_backend_name))
        (λ provider. start_tenant p provider tenant task_ids)

unfoldable pub poll_found : Poller → List ℕ → Result Tenant → Action Unit
poll_found p task_ids (ok tenant) = poll_tenant p tenant task_ids
poll_found p task_ids (err e) = pure tt

-- The body of the loop over the groups.
unfoldable pub poll_group : Poller → Group → Action Unit
unfolding poll_found
poll_group p (tenant_id, task_ids) = do
  found ← attempt (Tenants.get_by_id tenant_id)
  poll_found p task_ids found

unfoldable pub poll_groups : Poller → List Group → Action Unit
poll_groups p [] = pure tt
poll_groups p (g ∷ gs) = do poll_group p g; poll_groups p gs

unfoldable pub poll_listed : Poller → Result (List Task) → Action Unit
unfolding poll_groups group_by_tenant
poll_listed p (ok tasks) = poll_groups p (p.order (group_by_tenant [] tasks))
poll_listed p (err e) = pure tt

-- One tick of PollPendingTasks.
unfoldable pub poll_pending_tasks : Poller → Action Unit
unfolding poll_listed
poll_pending_tasks p = do listed ← attempt get_pending_task_list; poll_listed p listed
