-- ===== src/TaskService/Report/Refusals.antt =====
-- ReportShardStatus when no statement fails and nobody else writes: the reports that write nothing.
use r_orchestrator.Prelude.{
  ℕ, suc, not, same_text-false, and_true, ◌≡◌, ◌≢◌, refl, ap, ◌∙◌, Bool, true, false, ◌&&◌, Option,
  some, List, [], ◌∷◌, arith, and_guarded, ◌==◌, row_where, In,
}
use r_orchestrator.Model.{
  TaskStatus, ShardStatus, Task, TaskShard, leased, same_task_status, same_shard_status, shard_in,
}
use r_orchestrator.World.{CompletionHookPayload, Db, World, Outside}
use r_orchestrator.Action.{Result, ok, err, refused}
use r_orchestrator.Action.Quiet.{
  IsQuiet, after, Ends, Ends-bind, Ends-bind_err, Ends-pure, Ends-raise, Ends-gets, Ends-then,
  Ends-else, Ends-transaction, Ends-transaction_err,
}
use r_orchestrator.Orm.Shards
use r_orchestrator.Orm.Quiet.{found, first_task-quiet, first_shard-quiet, update_shards-none}
use r_orchestrator.TaskService.Report.{
  ReportShardStatusParams, is_duplicate, mark_shard, report_loaded, report_in_transaction,
  dispatch_payload, report_shard_status,
}

-- The shard with this id is the row `s`, and its task is the row `t`.
abbrev pub ReportRows : ℕ → Db → TaskShard → Task → Type 0
ReportRows i db s t =
    (row_where (λ x. x.id == i) db.shards ≡ some s)
    × (row_where (λ x. x.id == s.task_id) db.tasks ≡ some t)

-- The statuses that a report moves a shard from.
abbrev pub reported_from : ShardStatus → ShardStatus → Bool
reported_from ShardStatus.running s = same_shard_status s leased
reported_from ShardStatus.succeeded s = same_shard_status s ShardStatus.running
reported_from ShardStatus.failed s = same_shard_status s ShardStatus.running
reported_from _ s = true

-- `id` is a primary key: the row with this id is the only one.
abbrev pub OnlyShard : ℕ → Db → TaskShard → Type 0
OnlyShard i db s = (x : TaskShard) → In x db.shards → (x.id == i) ≡ true → x ≡ s

module _ {o : Outside} (q : IsQuiet o) (w : World) (i : ℕ) (s : TaskShard)
    (row : row_where (λ x. x.id == i) w.db.shards ≡ some s) (only : OnlyShard i w.db s) where
  -- A transition from other statuses than the shard's matches no row.
  transition_refused :
      (target : ShardStatus) (from : List ShardStatus) (f : TaskShard → TaskShard)
      → shard_in s.status from ≡ false
      → Ends (Shards.transition_status i target from f) o w (err refused) w.db
  unfolding Shards.transition_status
  transition_refused target from f h =
      Ends-bind _ _ (suc w.stmt, update_shards-none q w _ _ no_row)
        λ n. Ends-then _ _ _ refl (
          Ends-bind _ _
            (suc n, first_shard-quiet q _ _ ∙ ap (λ x. (found x, record w { stmt = suc n })) row)
            (λ n. Ends-raise _ _ _))
    where
      no_row : (x : TaskShard) → In x w.db.shards → (x.id == i && shard_in x.status from) ≡ false
      no_row x m = and_guarded _ _ λ e. ap (λ y. shard_in y.status from) (only x m e) ∙ h

repeated :
    (params : ReportShardStatusParams) (s : TaskShard)
    → params.shard_status ≡ ShardStatus.succeeded
    → s.status ≡ ShardStatus.succeeded
    → s.output_oss_key ≢ ""
    → is_duplicate params s ≡ true
repeated params s reported done stored =
    and_true _ _
      (and_true _ _ (ap (λ x. same_shard_status x ShardStatus.succeeded) reported)
        (ap (λ x. same_shard_status x ShardStatus.succeeded) done))
      (ap not (same_text-false s.output_oss_key "" stored))

one_status : (a b : ShardStatus) → same_shard_status a b ≡ false → shard_in a (b ∷ []) ≡ false
one_status a b h = ground arith

module _ {o : Outside} (q : IsQuiet o) (w : World) (params : ReportShardStatusParams)
    (s : TaskShard) (row : row_where (λ x. x.id == params.shard_id) w.db.shards ≡ some s)
    (only : OnlyShard params.shard_id w.db s) where
  mark_refused :
      (target : ShardStatus)
      → reported_from target s.status ≡ false
      → Ends (mark_shard target params) o w (err refused) w.db
  unfolding mark_shard Shards.mark_running Shards.mark_succeeded Shards.mark_failed
  mark_refused ShardStatus.running h =
      Ends-bind _ _ (Ends-gets o w _)
        λ n. transition_refused q _ _ s row only _ _ _ (one_status s.status leased h)
  mark_refused ShardStatus.succeeded h =
      Ends-bind _ _ (Ends-gets o w _)
        λ n. transition_refused q _ _ s row only _ _ _ (one_status s.status ShardStatus.running h)
  mark_refused ShardStatus.failed h =
      Ends-bind _ _ (Ends-gets o w _)
        λ n. transition_refused q _ _ s row only _ _ _ (one_status s.status ShardStatus.running h)
  mark_refused ShardStatus.queued h = cc
  mark_refused ShardStatus.leased h = cc
  mark_refused ShardStatus.cancelled h = cc

module _ {o : Outside} (q : IsQuiet o) (w : World) (params : ReportShardStatusParams)
    (s : TaskShard) (t : Task) (rows : ReportRows params.shard_id w.db s t) where
  pub loaded-Ends :
      (r : Result (Option CompletionHookPayload)) (d : Db)
      → ((n : ℕ) → Ends (report_loaded params w.clock s t) o (record w { stmt = n }) r d)
      → Ends (report_in_transaction params w.clock) o w r d
  unfolding report_in_transaction Shards.get_by_id
  loaded-Ends r d rest =
      Ends-bind _ _ (suc w.stmt, first_shard-quiet q w _ ∙ ap (λ x. (found x, after w w.db)) rows.0)
        λ n.
          Ends-bind _ _
            (suc n, first_task-quiet q _ _ ∙ ap (λ x. (found x, record w { stmt = suc n })) rows.1)
            rest

module _ {o : Outside} (q : IsQuiet o) (w : World) (params : ReportShardStatusParams)
    (s : TaskShard) (t : Task) (rows : ReportRows params.shard_id w.db s t) where
  refused-Ends :
      (d : Db)
      → ((n : ℕ)
          → Ends (report_loaded params w.clock s t) o (record w { stmt = n }) (err refused) d)
      → Ends (report_shard_status params) o w (err refused) w.db
  unfolding report_shard_status
  refused-Ends d rest = Ends-bind _ _ (Ends-gets o w _) λ n.
      Ends-bind_err _ _
        (Ends-transaction_err q _ (loaded-Ends q (record w { stmt = n }) params s t rows _ _ rest))

  -- With no failing statement and no other writer, a SUCCEEDED report of a shard whose row is
  -- SUCCEEDED and has an output key is accepted and writes nothing, whatever the task's status and
  -- the output of the report are.
  pub report_duplicate :
      params.shard_status ≡ ShardStatus.succeeded
      → s.status ≡ ShardStatus.succeeded
      → s.output_oss_key ≢ ""
      → Ends (report_shard_status params) o w (ok tt) w.db
  unfolding report_shard_status report_loaded dispatch_payload
  report_duplicate reported done stored = Ends-bind _ _ (Ends-gets o w _) λ n.
      Ends-bind _ _
        (Ends-transaction _ (
          loaded-Ends q (record w { stmt = n }) params s t rows _ _
            λ n. Ends-then _ _ _ (repeated params s reported done stored) (Ends-pure _ _ _)))
        (λ n. Ends-pure _ _ _)

  module _ (fresh : is_duplicate params s ≡ false) where
    -- With no failing statement and no other writer, a report of a shard of a CANCELLED task that
    -- is no duplicate is refused, and writes nothing.
    pub report_cancelled :
        t.status ≡ TaskStatus.cancelled → Ends (report_shard_status params) o w (err refused) w.db
    unfolding report_loaded
    report_cancelled h = refused-Ends w.db λ n.
        Ends-else _ _ _ fresh
          (Ends-then _ _ _ (ap (λ x. same_task_status x TaskStatus.cancelled) h) (Ends-raise _ _ _))

    -- With no failing statement and no other writer, a report for a task that is not CANCELLED, no
    -- duplicate, is refused and writes nothing if its shard, the only row with its id, is not where
    -- the report moves it from: LEASED for RUNNING, RUNNING for SUCCEEDED and for FAILED.
    pub report_out_of_order :
        OnlyShard params.shard_id w.db s
        → t.status ≢ TaskStatus.cancelled
        → reported_from params.shard_status s.status ≡ false
        → Ends (report_shard_status params) o w (err refused) w.db
    unfolding report_loaded
    report_out_of_order only live h = refused-Ends w.db λ n. Ends-else _ _ _ fresh (
        Ends-else _ _ _ (not_cancelled t live)
          (Ends-bind_err _ _ (mark_refused q _ params s rows.0 only params.shard_status h)))
      where
        not_cancelled :
            (t : Task)
            → t.status ≢ TaskStatus.cancelled
            → same_task_status t.status TaskStatus.cancelled ≡ false
        not_cancelled t h = ground arith
