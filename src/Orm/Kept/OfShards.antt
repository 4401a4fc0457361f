-- ===== src/Orm/Kept/OfShards.antt =====
-- internal/orm/task_shard_orm under the relation of Action/Evolves.
use mathlib.Core.Bool.{true≢false}
use r_orchestrator.Prelude.{
  ℕ, ◌≡◌, refl, sym, ◌∙◌, String, Bool, true, false, List, [], ◌∷◌, ◌&&◌, arith, ◌==◌,
}
use r_orchestrator.Model.{ShardStatus, Task, TaskShard, shard_in, terminal_shard_statuses}
use r_orchestrator.Action.{Result, ok, err, record_not_found}
use r_orchestrator.Action.Evolves.{
  ShardEdge, TaskEdge, ShardEdge-refl, TaskEdge-refl, Grows-refl, Grows-append, Evolves-Preorder,
}
use r_orchestrator.Orm.Kept.{in_order, Keeps, update_shards-then, after_now, read_rules}
use r_orchestrator.Orm.Kept.OfTasks.{rollback_task_to_waiting-Keeps}
use r_orchestrator.Orm.Reads.{insert_new-Guarantees}
use r_orchestrator.Orm.Shards

and_right : (a b : Bool) → (a && b) ≡ true → b ≡ true
and_right a b h = ground arith

abbrev pub SameRow : TaskShard → TaskShard → Type 0
SameRow s t = (t.id ≡ s.id) × (t.task_id ≡ s.task_id) × (t.script_name ≡ s.script_name)

-- None of the statuses of a list is terminal.
abbrev pub NoneTerminal : List ShardStatus → Type 0
NoneTerminal current =
    (x : ShardStatus) → shard_in x current ≡ true → shard_in x terminal_shard_statuses ≡ false

-- The new status is set on a shard whose status was none of the terminal ones.
transition-Edge :
    (i : ℕ) (target : ShardStatus) (current : List ShardStatus) (f : TaskShard → TaskShard)
    → NoneTerminal current
    → ((s : TaskShard) → SameRow s (f s))
    → (s : TaskShard) → (s.id == i && shard_in s.status current) ≡ true
    → ShardEdge s (record (f s) { status = target })
transition-Edge i target current f h g s e = record {
  same_id = (g s).0;
  same_task = (g s).1;
  same_script = (g s).2;
  terminal_stays = λ t. absurd (true≢false (sym t ∙ h s.status (and_right (s.id == i) _ e)));
}

transition_status-Keeps :
    (i : ℕ) (target : ShardStatus) (current : List ShardStatus) (f : TaskShard → TaskShard)
    → NoneTerminal current
    → ((s : TaskShard) → SameRow s (f s))
    → Keeps (Shards.transition_status i target current f)
unfolding Shards.transition_status
transition_status-Keeps i target current f h g =
    update_shards-then (transition-Edge i target current f h g) (λ n. search read_rules)

pub leased_NoneTerminal : NoneTerminal (ShardStatus.leased ∷ [])
leased_NoneTerminal x h = ground arith

running_NoneTerminal : NoneTerminal (ShardStatus.running ∷ [])
running_NoneTerminal x h = ground arith

pub mark_running-Keeps : (i : ℕ) → Keeps (Shards.mark_running i)
unfolding Shards.mark_running
mark_running-Keeps i =
    after_now λ t. transition_status-Keeps i _ _ _ leased_NoneTerminal (λ s. (refl, refl, refl))

pub mark_succeeded-Keeps : (i : ℕ) → Keeps (Shards.mark_succeeded i)
unfolding Shards.mark_succeeded
mark_succeeded-Keeps i =
    after_now λ t. transition_status-Keeps i _ _ _ running_NoneTerminal (λ s. (refl, refl, refl))

pub mark_failed-Keeps : (i : ℕ) (e : String) → Keeps (Shards.mark_failed i e)
unfolding Shards.mark_failed
mark_failed-Keeps i e =
    after_now λ t. transition_status-Keeps i _ _ _ running_NoneTerminal (λ s. (refl, refl, refl))

pub rollback_to_queued-Keeps :
    (i : ℕ) (current : List ShardStatus)
    → NoneTerminal current
    → Keeps (Shards.rollback_to_queued i current)
unfolding Shards.rollback_to_queued
rollback_to_queued-Keeps i current h =
    transition_status-Keeps i _ current _ h (λ s. (refl, refl, refl))

pub rollback_shard_lease-Keeps :
    (i : ℕ) (agent : String) → Keeps (Shards.rollback_shard_lease i agent)
unfolding Shards.rollback_shard_lease
rollback_shard_lease-Keeps i agent =
    update_shards-then (λ s h. ground arith) (λ n. search read_rules)

unless_not_found-Keeps : (r : Result (Unit {0})) → Keeps (Shards.unless_not_found r)
unfolding Shards.unless_not_found
unless_not_found-Keeps (ok a) = search read_rules
unless_not_found-Keeps (err record_not_found) = search read_rules
unless_not_found-Keeps (err _) = search read_rules

pub rollback_shard_with_task-Keeps :
    (i : ℕ) (current : List ShardStatus) (task : Task)
    → NoneTerminal current
    → Keeps (Shards.rollback_shard_with_task i current task)
unfolding Shards.rollback_shard_with_task
rollback_shard_with_task-Keeps i current task h =
    in_order (rollback_to_queued-Keeps i current h)
      λ _. search (read_rules, rollback_task_to_waiting-Keeps, unless_not_found-Keeps)

pub cancel_task_shards_by_task_id-Keeps : (i : ℕ) → Keeps (Shards.cancel_task_shards_by_task_id i)
unfolding Shards.cancel_task_shards_by_task_id
cancel_task_shards_by_task_id-Keeps i =
    after_now λ t. update_shards-then (λ s h. ground arith) (λ n. search read_rules)

pub get_active_task_shard_by_agent-Keeps :
    (a : String) → Keeps (Shards.get_active_task_shard_by_agent a)
unfolding Shards.get_active_task_shard_by_agent
get_active_task_shard_by_agent-Keeps a = search read_rules

pub get_shard_task_owner-Keeps : (i : ℕ) → Keeps (Shards.get_shard_task_owner i)
unfolding Shards.get_shard_task_owner
get_shard_task_owner-Keeps i = search read_rules

pub get_by_id-Keeps : (i : ℕ) → Keeps (Shards.get_by_id i)
unfolding Shards.get_by_id
get_by_id-Keeps i = search read_rules

pub active_NoneTerminal : NoneTerminal Shards.active_shard_statuses
active_NoneTerminal x h = ground arith

pub rollback_active-Keeps :
    (i : ℕ) (task : Task)
    → Keeps (Shards.rollback_shard_with_task i Shards.active_shard_statuses task)
rollback_active-Keeps i task = rollback_shard_with_task-Keeps i _ task active_NoneTerminal

cleanup_one-Keeps : (s : TaskShard) → Keeps (Shards.cleanup_one s)
unfolding Shards.cleanup_one
cleanup_one-Keeps s = search (read_rules, rollback_active-Keeps)

cleanup_each-Keeps :
    (threshold t : ℕ) (ss : List TaskShard) → Keeps (Shards.cleanup_each threshold t ss)
unfolding Shards.cleanup_each
cleanup_each-Keeps threshold t [] = search read_rules
cleanup_each-Keeps threshold t (s ∷ ss) =
    in_order (search (read_rules, cleanup_one-Keeps))
      λ done. in_order (cleanup_each-Keeps threshold t ss) (λ n. search read_rules)

pub cleanup_orphan_shards-Keeps :
    (rs : List String) (threshold : ℕ) → Keeps (Shards.cleanup_orphan_shards rs threshold)
unfolding Shards.cleanup_orphan_shards Shards.find_orphan_shards
cleanup_orphan_shards-Keeps rs threshold = search (read_rules, cleanup_each-Keeps)

pub new_uuid-Keeps : Keeps Shards.new_uuid
unfolding Shards.new_uuid
new_uuid-Keeps = search read_rules

pub create-Keeps : (i : ℕ) (script : String) (st : ShardStatus) → Keeps (Shards.create i script st)
unfolding Shards.create
create-Keeps i script st = in_order new_uuid-Keeps λ id.
    insert_new-Guarantees Evolves-Preorder _ _ λ w db. record {
      shards = Grows-append ShardEdge ShardEdge-refl db.shards _;
      tasks = Grows-refl TaskEdge TaskEdge-refl db.tasks;
    }
