-- ===== src/TaskService/Report/Accepted.antt =====
-- ReportShardStatus when no statement fails and nobody else writes: a RUNNING report that is
-- accepted, and what it promises of the rows.
use r_orchestrator.Prelude.{
  ℕ, suc, ◌≡◌, ◌≢◌, refl, ap, sym, subst, Bool, true, false, not, ◌&&◌, none, some, List, [], ◌∷◌,
  arith, ◌==◌, row_where, update_where, count_where-In, row_where-In, row_where-updated,
  row_where-other, and_true, not_zero,
}
use r_orchestrator.Model.{
  TaskStatus, ShardStatus, Task, TaskShard, leased, same_task_status, same_shard_status, shard_in,
}
use r_orchestrator.World.{Db, World, Outside}
use r_orchestrator.Action.{ok}
use r_orchestrator.Action.Quiet.{
  IsQuiet, Ends, Ends-bind, Ends-pure, Ends-gets, Ends-else, Ends-transaction,
}
use r_orchestrator.Orm.Shards
use r_orchestrator.Orm.Quiet.{touched, update_shards-quiet, update_tasks-quiet}
use r_orchestrator.TaskService.Report.{
  ReportShardStatusParams, is_duplicate, mark_shard, store_output, mark_task_running, follow_up,
  report_loaded, dispatch_payload, report_shard_status,
}
use r_orchestrator.TaskService.Report.Refusals.{ReportRows, loaded-Ends}

-- The row of a shard that has started.
abbrev pub started_shard : ℕ → TaskShard → TaskShard
started_shard now s = record s {
  status = ShardStatus.running;
  started_at = some now;
  updated_at = now;
}

-- The row of a task of which a shard has started.
abbrev pub started_task : ℕ → Task → Task
started_task now t = record t {
  status = TaskStatus.running;
  started_at = elim t.started_at [ none ↦ some now | some _ ↦ t.started_at ];
}

-- What a start of the shard `s` with the id `i`, of the task `t`, makes of the tables.
pub record Starts (i now : ℕ) (s : TaskShard) (t : Task) (d d' : Db) : Type 0 where
  pub shard : row_where (λ x. x.id == i) d'.shards ≡ some (started_shard now s)
  pub task : row_where (λ x. x.id == s.task_id) d'.tasks ≡ some (started_task now t)
  pub other_shards :
      (j : ℕ) → j ≢ i → row_where (λ x. x.id == j) d'.shards ≡ row_where (λ x. x.id == j) d.shards
  pub other_tasks :
      (j : ℕ)
      → j ≢ s.task_id
      → row_where (λ x. x.id == j) d'.tasks ≡ row_where (λ x. x.id == j) d.tasks
  pub tenants : d'.tenants ≡ d.tenants
  pub clusters : d'.clusters ≡ d.clusters

abbrev is_leased : ℕ → TaskShard → Bool
is_leased i x = x.id == i && shard_in x.status (leased ∷ [])

abbrev is_live : ℕ → Task → Bool
is_live i x = x.id == i && not (same_task_status x.status TaskStatus.cancelled)

abbrev started_at_once : Task → ℕ → Task → Task
started_at_once t now x = record x {
  status = TaskStatus.running;
  started_at = elim t.started_at [ none ↦ some now | some _ ↦ x.started_at ];
}

abbrev marked_db : ℕ → ℕ → Db → Db
marked_db i now d = record d { shards = update_where (is_leased i) (started_shard now) d.shards }

abbrev started_db : ℕ → ℕ → TaskShard → Task → Db → Db
started_db i now s t d = record (marked_db i now d) {
  tasks = update_where (is_live s.task_id) (started_at_once t now) d.tasks;
}

pub not_cancelled :
    (t : Task)
    → t.status ≢ TaskStatus.cancelled
    → same_task_status t.status TaskStatus.cancelled ≡ false
not_cancelled t h = ground arith

shard_of_other : (i j : ℕ) (x : TaskShard) → j ≢ i → is_leased i x ≡ true → (x.id == j) ≡ false
shard_of_other i j x h k = ground arith

task_of_other : (i j : ℕ) (x : Task) → j ≢ i → is_live i x ≡ true → (x.id == j) ≡ false
task_of_other i j x h k = ground arith

no_shard : (i : ℕ) (x : TaskShard) → (x.id == i) ≡ false → is_leased i x ≡ false
no_shard i x h = ground arith

no_task : (i : ℕ) (x : Task) → (x.id == i) ≡ false → is_live i x ≡ false
no_task i x h = ground arith

module _ {o : Outside} (q : IsQuiet o) (w : World) where
  -- A transition of a row that has one of the statuses it moves from.
  pub transition_accepted :
      (i : ℕ) (target : ShardStatus) (from : List ShardStatus) (f : TaskShard → TaskShard)
      (s : TaskShard)
      → row_where (λ x. x.id == i) w.db.shards ≡ some s
      → (s.id == i && shard_in s.status from) ≡ true
      → Ends (Shards.transition_status i target from f) o w (ok tt) (record w.db {
        shards =
            update_where
              (λ x. x.id == i && shard_in x.status from)
              (touched w.clock (λ x. record (f x) { status = target }))
              w.db.shards;
      })
  unfolding Shards.transition_status
  transition_accepted i target from f s row h =
      Ends-bind _ _ (suc w.stmt, update_shards-quiet q w _ _)
        λ n.
          Ends-else _ _ _
            (not_zero _ (
              count_where-In (λ x. x.id == i && shard_in x.status from) s w.db.shards
                (row_where-In (λ x. x.id == i) s w.db.shards row).0 h))
            (Ends-pure _ _ _)

module _ {o : Outside} (q : IsQuiet o) (w : World) where
  mark_starts :
      (i : ℕ) (s : TaskShard)
      → row_where (λ x. x.id == i) w.db.shards ≡ some s
      → is_leased i s ≡ true
      → Ends (Shards.mark_running i) o w (ok tt) (marked_db i w.clock w.db)
  unfolding Shards.mark_running
  mark_starts i s row h = Ends-bind _ _ (Ends-gets o w _) λ n.
      transition_accepted q (record w { stmt = n }) i ShardStatus.running (leased ∷ []) _ s row h

  task_starts :
      (i now : ℕ) (t : Task)
      → row_where (λ x. x.id == i) w.db.tasks ≡ some t
      → is_live i t ≡ true
      → Ends
          (mark_task_running i t now)
          o
          w
          (ok none)
          (record w.db { tasks = update_where (is_live i) (started_at_once t now) w.db.tasks })
  unfolding mark_task_running
  task_starts i now t row live =
      Ends-bind _ _ (suc w.stmt, update_tasks-quiet q w _ _)
        λ n.
          Ends-else _ _ _
            (not_zero _ (
              count_where-In (is_live i) t w.db.tasks
                (row_where-In (λ x. x.id == i) t w.db.tasks row).0 live))
            (Ends-pure _ _ _)

-- The two UPDATEs of a start, on tables in which the shard is LEASED and the task not CANCELLED.
started_db-Starts :
    (i now : ℕ) (s : TaskShard) (t : Task) (d : Db)
    → ReportRows i d s t
    → is_leased i s ≡ true
    → is_live s.task_id t ≡ true
    → Starts i now s t d (started_db i now s t d)
started_db-Starts i now s t d (shard_row, task_row) h live = record {
  shard =
      row_where-updated (λ x. x.id == i) (is_leased i) (started_shard now) s d.shards shard_row h
        (row_where-In (λ x. x.id == i) s d.shards shard_row).1 (no_shard i);
  task =
      row_where-updated (λ x. x.id == s.task_id) (is_live s.task_id) (started_at_once t now) t
        d.tasks task_row live (row_where-In (λ x. x.id == s.task_id) t d.tasks task_row).1
        (no_task s.task_id);
  other_shards = λ j k.
      row_where-other (λ x. x.id == j) (is_leased i) (started_shard now) d.shards
        (λ x u. (shard_of_other i j x k u, shard_of_other i j x k u));
  other_tasks = λ j k.
      row_where-other (λ x. x.id == j) (is_live s.task_id) (started_at_once t now) d.tasks
        (λ x u. (task_of_other s.task_id j x k u, task_of_other s.task_id j x k u));
  tenants = refl;
  clusters = refl;
}

module _ {o : Outside} (q : IsQuiet o) (w : World) (params : ReportShardStatusParams)
    (s : TaskShard) (t : Task) (rows : ReportRows params.shard_id w.db s t)
    (running : params.shard_status ≡ ShardStatus.running) (h : s.status ≡ leased)
    (live : t.status ≢ TaskStatus.cancelled) where
  is_leased-row : is_leased params.shard_id s ≡ true
  is_leased-row =
      and_true _ _ (row_where-In (λ x. x.id == params.shard_id) s w.db.shards rows.0).1
        (ap (λ x. shard_in x (leased ∷ [])) h)

  is_live-row : is_live s.task_id t ≡ true
  is_live-row =
      and_true _ _ (row_where-In (λ x. x.id == s.task_id) t w.db.tasks rows.1).1
        (ap not (not_cancelled t live))

  loaded_starts :
      (n : ℕ)
      → Ends
          (report_loaded params w.clock s t)
          o
          (record w { stmt = n })
          (ok none)
          (started_db params.shard_id w.clock s t w.db)
  unfolding report_loaded mark_shard store_output follow_up
  loaded_starts n =
      Ends-else _ _ _ (ap (λ x. is_duplicate (record params { shard_status = x }) s) running) (
        Ends-else _ _ _ (not_cancelled t live) (
          Ends-bind _ _
            (subst
              (λ x.
                Ends (mark_shard x params) o (record w { stmt = n }) (ok tt)
                  (marked_db params.shard_id w.clock w.db))
              (sym running)
              (mark_starts q (record w { stmt = n }) params.shard_id s rows.0 is_leased-row))
            λ n.
              Ends-bind _ _
                (Ends-else _ _ _ (ap (λ x. same_shard_status x ShardStatus.succeeded) running)
                  (Ends-pure _ _ _))
                λ n.
                  subst
                    (λ x.
                      Ends (follow_up x params s.task_id t w.clock) o
                        (record w { stmt = n; db = marked_db params.shard_id w.clock w.db })
                        (ok none) (started_db params.shard_id w.clock s t w.db))
                    (sym running) (task_starts q _ s.task_id w.clock t rows.1 is_live-row)))

  -- With no failing statement and no other writer, a RUNNING report of a LEASED shard of a task
  -- that is not CANCELLED is accepted. The shard is then RUNNING and started now, the task is
  -- RUNNING and keeps the time of its first start if it has one, and no other row changes.
  pub report_running-Starts :
      (d : Db) × Ends (report_shard_status params) o w (ok tt) d
      × Starts params.shard_id w.clock s t w.db d
  unfolding report_shard_status dispatch_payload
  report_running-Starts = (
    started_db params.shard_id w.clock s t w.db,
    Ends-bind _ _ (Ends-gets o w _) λ n.
        Ends-bind _ _
          (Ends-transaction _
            (loaded-Ends q (record w { stmt = n }) params s t rows _ _ loaded_starts))
          (λ n. Ends-pure _ _ _),
    started_db-Starts params.shard_id w.clock s t w.db rows is_leased-row is_live-row,
  )
