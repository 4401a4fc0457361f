-- ===== src/TaskService/Poll/Flow.antt =====
-- A tick of PollPendingTasks under a relation that its statements keep.
use r_orchestrator.Prelude.{ℕ, ◌≡◌, refl, String, Option, none, some, List, [], ◌∷◌}
use r_orchestrator.Model.{TaskStatus, Tenant, Task}
use r_orchestrator.World.{Db}
use r_orchestrator.Action.{Action, Result, ok, err, maybe}
use r_orchestrator.Action.Guarantee.{
  Guarantees, Guarantees-bind, Guarantees-when, Guarantees-attempt,
}
use r_orchestrator.Orm.Reads.{reading_rules}
use r_orchestrator.Backend.{Provider, get}
use r_orchestrator.TaskService.Poll.{
  Poller, Group, finish_tenant, scale_tenant, ensure_tenant, start_tenant, poll_tenant, poll_found,
  poll_group, poll_groups, poll_listed, poll_pending_tasks,
}
use r_orchestrator.TaskService.Poll.Steps.{
  Polling, logged-keeps, hold-keeps, or_hold-keeps, activate-keeps, get_or_create-keeps,
}

-- Provisioning and scaling leave the database alone, or keep to the relation of a tick.
pub record LeavesDb (R : Db → Db → Type 0) (provider : Provider) : Type 0 where
  pub provisions : (t : Tenant) → Guarantees R (provider.provision_cluster t)
  pub scales : (t : Tenant) (n : ℕ) → Guarantees R (provider.scale_cluster t n)

module _ {R : Db → Db → Type 0} (K : Polling R) where
  finish_tenant-keeps : (t : Tenant) (ids : List ℕ) → Guarantees R (finish_tenant t ids)
  unfolding finish_tenant
  finish_tenant-keeps t ids =
      Guarantees-bind K.preorder _ _ (activate-keeps K t.id)
        (λ _. logged-keeps K _ (K.marks ids TaskStatus.waiting_for_agents "" refl))

  module _ (p : Poller) (provider : Provider) (leaves : LeavesDb R provider) (t : Tenant)
      (ids : List ℕ) where
    scale_tenant-keeps : Guarantees R (scale_tenant p provider t ids)
    unfolding scale_tenant
    scale_tenant-keeps =
        Guarantees-bind K.preorder _ _ (Guarantees-attempt K.preorder _ (leaves.scales t _))
          (λ r. or_hold-keeps K _ ids r _ (finish_tenant-keeps t ids))

    ensure_tenant-keeps : Guarantees R (ensure_tenant p provider t ids)
    unfolding ensure_tenant
    ensure_tenant-keeps =
        Guarantees-bind K.preorder _ _ (Guarantees-attempt K.preorder _ (leaves.provisions t))
          (λ r. or_hold-keeps K _ ids r _ scale_tenant-keeps)

    start_tenant-keeps : Guarantees R (start_tenant p provider t ids)
    unfolding start_tenant
    start_tenant-keeps = Guarantees-bind K.preorder _ _ (search (reading_rules, K.preorder)) λ now.
        Guarantees-bind K.preorder _ _ (Guarantees-attempt K.preorder _ (get_or_create-keeps K _))
          (λ r. or_hold-keeps K _ ids r _ ensure_tenant-keeps)

  module _ (p : Poller)
      (leave : (name : String) (provider : Provider)
        → get p.registry name ≡ some provider
        → LeavesDb R provider) where
    with_provider :
        (t : Tenant) (ids : List ℕ) (name : String) (x : Option Provider)
        → get p.registry name ≡ x
        → (m : Action Unit) → Guarantees R m
        → Guarantees R (maybe x m (λ provider. start_tenant p provider t ids))
    unfolding maybe
    with_provider t ids name none e m g = g
    with_provider t ids name (some provider) e m g =
        start_tenant-keeps p provider (leave name provider e) t ids

    poll_tenant-keeps : (t : Tenant) (ids : List ℕ) → Guarantees R (poll_tenant p t ids)
    unfolding poll_tenant
    poll_tenant-keeps t ids =
        Guarantees-when K.preorder _ _ _ (logged-keeps K _ (K.marks ids TaskStatus.failed _ refl))
          (with_provider t ids t.primary_backend_name _ refl _ (hold-keeps K ids _))

    poll_found-keeps : (ids : List ℕ) (r : Result Tenant) → Guarantees R (poll_found p ids r)
    unfolding poll_found
    poll_found-keeps ids (ok t) = poll_tenant-keeps t ids
    poll_found-keeps ids (err e) = search (reading_rules, K.preorder)

    poll_group-keeps : (g : Group) → Guarantees R (poll_group p g)
    unfolding poll_group
    poll_group-keeps (i, ids) =
        Guarantees-bind K.preorder _ _ (search (reading_rules, K.preorder)) (poll_found-keeps ids)

    poll_groups-keeps : (gs : List Group) → Guarantees R (poll_groups p gs)
    unfolding poll_groups
    poll_groups-keeps [] = search (reading_rules, K.preorder)
    poll_groups-keeps (g ∷ gs) =
        Guarantees-bind K.preorder _ _ (poll_group-keeps g) (λ _. poll_groups-keeps gs)

    poll_listed-keeps : (r : Result (List Task)) → Guarantees R (poll_listed p r)
    unfolding poll_listed
    poll_listed-keeps (ok tasks) = poll_groups-keeps _
    poll_listed-keeps (err e) = search (reading_rules, K.preorder)

    pub poll-keeps : Guarantees R (poll_pending_tasks p)
    unfolding poll_pending_tasks
    poll-keeps =
        Guarantees-bind K.preorder _ _ (search (reading_rules, K.preorder)) poll_listed-keeps
