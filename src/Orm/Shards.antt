-- ===== src/Orm/Shards.antt =====
-- internal/orm/task_shard_orm.
use r_orchestrator.Prelude.{
  ℕ, suc, ◌+◌, String, Bool, true, false, not, ◌&&◌, Option, none, some, List, [], ◌∷◌, ◌++◌, ltb,
  ◌==◌, if◌then◌else◌, one_of, row_where, same_text,
}
use r_orchestrator.Model.{
  TaskStatus, ShardStatus, Tenant, Task, TaskShard, same_task_status, same_shard_status, shard_in,
  terminal_shard_statuses,
}
use r_orchestrator.Action.{
  maybe, when◌then◌else◌, Result, ok, err, Action, record_not_found, refused, unavailable, pure,
  raise, gets, ◌>>=◌, ◌>>◌, attempt, elsewhere, transaction, now,
}
use r_orchestrator.World.{Db}
use r_orchestrator.Orm.{
  is_taken, insert_new, query, find_shards, first_shard, update_shards, first_task,
}
use r_orchestrator.Orm.Tasks.{rollback_task_to_waiting}

-- `assigned_agent_id = ?`: never true of NULL.
abbrev pub assigned_to : String → Option String → Bool
assigned_to agent_id none = false
assigned_to agent_id (some a) = same_text a agent_id

-- `err != nil && !errors.Is(err, gorm.ErrRecordNotFound)`
unfoldable pub unless_not_found : Result (Unit {0}) → Action Unit
unless_not_found (ok a) = pure tt
unless_not_found (err record_not_found) = pure tt
unless_not_found (err e) = raise e

abbrev pub succeeded_action : Result (Unit {0}) → Bool
succeeded_action (ok a) = true
succeeded_action (err e) = false

-- `assigned_agent_id IS NOT NULL AND assigned_agent_id != '' [AND assigned_agent_id NOT IN ?]`
abbrev pub names_orphan : List String → Option String → Bool
names_orphan registered none = false
names_orphan [] (some a) = not (same_text a "")
names_orphan (r ∷ rs) (some a) = not (same_text a "") && not (one_of same_text a (r ∷ rs))

abbrev pub has_no_agent_of : List String → TaskShard → Bool
has_no_agent_of registered s = names_orphan registered s.assigned_agent_id

-- BeforeCreate: a row without an id gets a new one.
unfoldable pub new_uuid : Action ℕ
new_uuid = do
  made ← gets (λ o w. o.new_uuid w.uuids)
  elsewhere (λ w. record w { uuids = suc w.uuids }) tt
  maybe made (raise unavailable) (λ n. pure n)

-- The row of a new shard.
abbrev pub new_shard :
    (id updated_at task_id : ℕ) → (script_name : String) → ShardStatus → TaskShard
new_shard id updated_at task_id script_name status = record {
  id = id;
  updated_at = updated_at;
  task_id = task_id;
  script_name = script_name;
  status = status;
  assigned_agent_id = some "";
  output_oss_key = "";
  output_sha256 = "";
  started_at = none;
  finished_at = none;
  last_error = "";
}

-- Create.
unfoldable pub create : (task_id : ℕ) → (script_name : String) → ShardStatus → Action Unit
create task_id script_name status = do
  id ← new_uuid
  insert_new (λ w db. is_taken (λ s. s.id == id) db.shards)
      (λ w db. record db {
        shards = db.shards ++ new_shard id w.clock task_id script_name status ∷ [];
      })

-- GetByID.
unfoldable pub get_by_id : ℕ → Action TaskShard
get_by_id shard_id = first_shard (λ s. s.id == shard_id)

unfoldable pub transition_status :
    ℕ → ShardStatus → List ShardStatus → (TaskShard → TaskShard) → Action Unit
transition_status shard_id target_status current_statuses updates = do
  affected ←
      update_shards (λ s. s.id == shard_id && shard_in s.status current_statuses)
        (λ s. record (updates s) { status = target_status })
  when affected == 0 then (do first_shard (λ s. s.id == shard_id); raise refused) else pure tt

unfoldable pub mark_running : ℕ → Action Unit
mark_running shard_id = do
  t ← now
  transition_status shard_id ShardStatus.running (ShardStatus.leased ∷ [])
      (λ s. record s { started_at = some t })

unfoldable pub mark_succeeded : ℕ → Action Unit
mark_succeeded shard_id = do
  t ← now
  transition_status shard_id ShardStatus.succeeded (ShardStatus.running ∷ [])
      (λ s. record s { finished_at = some t })

unfoldable pub mark_failed : ℕ → String → Action Unit
mark_failed shard_id last_error = do
  t ← now
  transition_status shard_id ShardStatus.failed (ShardStatus.running ∷ [])
      (λ s. record s { finished_at = some t; last_error = last_error })

unfoldable pub rollback_to_queued : ℕ → List ShardStatus → Action Unit
rollback_to_queued shard_id current_statuses =
    transition_status shard_id ShardStatus.queued current_statuses
      (λ s. record s { assigned_agent_id = none })

-- RollbackShardLease.
unfoldable pub rollback_shard_lease : ℕ → String → Action Unit
rollback_shard_lease shard_id agent_id = do
  affected ←
      update_shards
        (λ s.
          s.id == shard_id
          && same_shard_status s.status ShardStatus.leased
          && assigned_to agent_id s.assigned_agent_id)
        (λ s. record s { status = ShardStatus.queued; assigned_agent_id = some "" })
  when affected == 0 then raise record_not_found else pure tt

-- RollbackShardWithTask: `task` is the row as the caller has read it.
unfoldable pub rollback_shard_with_task : ℕ → List ShardStatus → Task → Action Unit
rollback_shard_with_task shard_id current_statuses task = do
  rollback_to_queued shard_id current_statuses
  when same_task_status task.status TaskStatus.waiting_for_agents
      then (do done ← attempt (rollback_task_to_waiting task.id); unless_not_found done)
      else pure tt

-- CancelTaskShardsByTaskId.
unfoldable pub cancel_task_shards_by_task_id : ℕ → Action Unit
cancel_task_shards_by_task_id task_id = do
  t ← now
  update_shards (λ s. s.task_id == task_id && not (shard_in s.status terminal_shard_statuses))
      (λ s. record s {
        status = ShardStatus.cancelled;
        finished_at = some t;
        assigned_agent_id = none;
        started_at = none;
        last_error = "";
      })
  pure tt

abbrev pub active_shard_statuses : List ShardStatus
active_shard_statuses = ShardStatus.leased ∷ ShardStatus.running ∷ []

-- GetActiveTaskShardByAgent.
unfoldable pub get_active_task_shard_by_agent : String → Action (List TaskShard)
get_active_task_shard_by_agent agent_id =
    find_shards
      (λ s. assigned_to agent_id s.assigned_agent_id && shard_in s.status active_shard_statuses)

-- FindOrphanShards: with no registered agent the NOT IN condition is left out.
unfoldable pub find_orphan_shards : List String → Action (List TaskShard)
find_orphan_shards registered =
    find_shards λ s. shard_in s.status active_shard_statuses && has_no_agent_of registered s

-- GetShardTaskOwner.
pub record ShardTaskOwner : Type 0 where
  pub task_id : ℕ
  pub tenant_id : ℕ
  pub primary_backend_name : String

abbrev pub no_owner : ShardTaskOwner
no_owner = record { task_id = 0; tenant_id = 0; primary_backend_name = "" }

-- JOIN tenants ON tenants.id = tasks.tenant_id.
unfoldable pub tenant_owner : Task → Option Tenant → ShardTaskOwner
tenant_owner t none = no_owner
tenant_owner t (some n) = record {
  task_id = t.id;
  tenant_id = t.tenant_id;
  primary_backend_name = n.primary_backend_name;
}

-- The joined row; Raw(…).Scan leaves the zero value where there is none, and is no error then.
unfoldable pub task_owner : Db → Option Task → ShardTaskOwner
task_owner db none = no_owner
task_owner db (some t) = tenant_owner t (row_where (λ n. n.id == t.tenant_id) db.tenants)

unfoldable pub get_shard_task_owner : ℕ → Action ShardTaskOwner
get_shard_task_owner shard_task_id =
    query λ o db. task_owner db (row_where (λ t. t.id == shard_task_id) db.tasks)

abbrev pub before_cutoff : Option ℕ → (threshold t : ℕ) → Bool
before_cutoff none threshold t = false
before_cutoff (some started) threshold t = ltb (started + threshold) t

-- One orphan of CleanupOrphanShards: `true` if it was rolled back, `false` for a `continue`.
unfoldable pub cleanup_one : TaskShard → Action Bool
cleanup_one s = do
  done ← attempt (do
    task ← first_task (λ t. t.id == s.task_id)
    transaction (rollback_shard_with_task s.id active_shard_statuses task))
  pure (succeeded_action done)

unfoldable pub cleanup_each : (threshold t : ℕ) → List TaskShard → Action ℕ
cleanup_each threshold t [] = pure 0
cleanup_each threshold t (s ∷ ss) = do
  done ← when before_cutoff s.started_at threshold t then cleanup_one s else pure false
  rest ← cleanup_each threshold t ss
  pure (if done then suc rest else rest)

-- CleanupOrphanShards: the number of shards rolled back.
unfoldable pub cleanup_orphan_shards : List String → (threshold : ℕ) → Action ℕ
cleanup_orphan_shards registered threshold = do
  shards ← find_orphan_shards registered
  t ← now
  cleanup_each threshold t shards
