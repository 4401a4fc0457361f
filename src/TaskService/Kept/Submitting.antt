-- ===== src/TaskService/Kept/Submitting.antt =====
-- submit_task.go and poll_pending_tasks.go under the relation of Action/Evolves.
use r_orchestrator.Prelude.{ℕ, String, List, [], ◌∷◌}
use r_orchestrator.Model.{ShardStatus, Task}
use r_orchestrator.Action.{Result, ok, err}
use r_orchestrator.Action.Evolves.{
  ShardEdge, TaskEdge, ShardEdge-refl, TaskEdge-refl, Grows-refl, Grows-append, Evolves,
  Evolves-Preorder,
}
use r_orchestrator.Orm.Kept.{Keeps, in_order, maybe_way, read_rules}
use r_orchestrator.Orm.Kept.OfTasks.{mark_tasks_status-Keeps}
use r_orchestrator.Orm.Kept.OfOthers.{tenant_by_name-Keeps}
use r_orchestrator.Orm.Reads.{new_uuid-reads, insert_new-Guarantees}
use r_orchestrator.Orm.Tasks
use r_orchestrator.Control.Assign.{oss_call}
use r_orchestrator.Orm.Kept.OfShards.{create-Keeps}
use r_orchestrator.TaskService.Kept.Undoing.{or_raise_tenant-Keeps}
use r_orchestrator.TaskService.Poll.Steps.{Polling}
use r_orchestrator.TaskService.Submit.{
  SubmitTaskParams, reached, store_call, upload_bundle, create_shards, create_task, submit_task,
}

create_task_row-Keeps : (task : ℕ → Task) → Keeps (Tasks.create task)
unfolding Tasks.create
create_task_row-Keeps task = insert_new-Guarantees Evolves-Preorder _ _ λ w db. record {
  shards = Grows-refl ShardEdge ShardEdge-refl db.shards;
  tasks = Grows-append TaskEdge TaskEdge-refl db.tasks _;
}

create_shards-Keeps : (i : ℕ) (names : List String) → Keeps (create_shards i names)
unfolding create_shards
create_shards-Keeps i [] = search read_rules
create_shards-Keeps i (n ∷ ns) =
    in_order (create-Keeps i n ShardStatus.queued) (λ _. create_shards-Keeps i ns)

create_task-Keeps :
    (i t : ℕ) (hook : String) (names : List String) → Keeps (create_task i t hook names)
unfolding create_task
create_task-Keeps i t hook names =
    in_order (create_task_row-Keeps _) (λ _. create_shards-Keeps i names)

reached-Keeps : (r : Result (Unit {0})) → Keeps (reached r)
unfolding reached
reached-Keeps (ok _) = search read_rules
reached-Keeps (err e) = search read_rules

oss_call-Keeps : {A : Type 0} (a : A) → Keeps (oss_call a)
unfolding oss_call
oss_call-Keeps a = search read_rules

store_call-Keeps : Keeps store_call
unfolding store_call
store_call-Keeps = search (read_rules, oss_call-Keeps, reached-Keeps)

upload_bundle-Keeps : (key : String) (bytes : List ℕ) → Keeps (upload_bundle key bytes)
unfolding upload_bundle
upload_bundle-Keeps key bytes = search (read_rules, store_call-Keeps)

pub submit_task-Keeps : (params : SubmitTaskParams) → Keeps (submit_task params)
unfolding submit_task
submit_task-Keeps params = in_order (search read_rules) λ hook.
    maybe_way hook _ _ (search read_rules) λ url.
      in_order (search (read_rules, tenant_by_name-Keeps)) λ found.
        in_order (or_raise_tenant-Keeps found) λ tenant. in_order (search read_rules) λ extracted.
          in_order (search read_rules) λ scripts. in_order (new_uuid-reads Evolves-Preorder) λ id.
            in_order (search read_rules) λ text.
              in_order (upload_bundle-Keeps _ _)
                λ _. in_order (search (read_rules, create_task-Keeps)) (λ _. search read_rules)

pub Evolves-Polling : Polling Evolves
Evolves-Polling = record {
  preorder = Evolves-Preorder;
  marks = λ ids status text h. mark_tasks_status-Keeps ids status text;
  clusters = λ c xs. record {
    shards = Grows-refl ShardEdge ShardEdge-refl c.shards;
    tasks = Grows-refl TaskEdge TaskEdge-refl c.tasks;
  };
}
