-- ===== src/TaskService/Recompute/Outcome.antt =====
-- RecomputeTaskStatus when no statement fails and nobody else writes: the task's new status by
-- the statuses of its shards.
use r_orchestrator.Prelude.{
  ℕ, suc, ◌≡◌, refl, ap, ◌∙◌, String, same_text, Bool, true, false, not, ◌&&◌, ◌||◌, Option, ◌⊎◌,
  ◌≢◌, none, some, arith, ltb, ◌==◌, if◌then◌else◌, count_where, In, count_where-In, is_positive,
  and_true, count_where-zero,
}
use r_orchestrator.Model.{TaskStatus, ShardStatus, Task, TaskShard, same_task_status}
use r_orchestrator.World.{CompletionHookPayload, Db, World, Outside}
use r_orchestrator.Action.{Result, ok, when◌then◌else◌}
use r_orchestrator.Action.Quiet.{
  IsQuiet, after, Ends, Ends-bind, Ends-pure, Ends-gets, Ends-then, Ends-else,
}
use r_orchestrator.Orm.Quiet.{found, first_task-quiet, count_shards-quiet}
use r_orchestrator.TaskService.Hook.{new_completion_hook_payload}
use r_orchestrator.TaskService.Recompute.{
  finish_failed, finish_succeeded, recompute_open, recompute_task_status,
}
use r_orchestrator.TaskService.Recompute.Latest.{IsReason, failure_text-IsReason}
use r_orchestrator.TaskService.Recompute.Steps.{
  TaskRow, is_terminal_task, is_terminal_shard, has_failed, reported_failure, failure_text,
  finished_db, resolve-Ends, update_terminal-Ends,
}

-- The payload of a task that has failed now, if it has a URL for its hook.
abbrev pub failure_hook : (now : ℕ) → Task → (text : String) → Option CompletionHookPayload
failure_hook now t text =
    if same_text t.completion_hook_url ""
    then none
    else some (record {
      task_id = t.id;
      tenant_id = t.tenant_id;
      status = TaskStatus.failed;
      last_error = text;
      finished_at = some now;
      result_available = false;
      completion_hook_url = t.completion_hook_url;
    })

-- Every shard of the task satisfies a condition.
abbrev pub EveryShard : ℕ → Db → (TaskShard → Type 0) → Type 0
EveryShard i db P = (s : TaskShard) → In s db.shards → (s.task_id == i) ≡ true → P s

module _ {o : Outside} (q : IsQuiet o) (w : World) (i : ℕ) (t : Task) (row : TaskRow i w.db t)
    (live : is_terminal_task t ≡ false) (last_error : String) where
  finish_failed-Ends :
      (n : ℕ)
      → let text = failure_text last_error (reported_failure i w.db) in
        Ends
          (finish_failed i t last_error w.clock)
          o
          (record w { stmt = n })
          (ok (new_completion_hook_payload t TaskStatus.failed text (some w.clock) false))
          (finished_db i TaskStatus.failed text w.clock w.db)
  unfolding finish_failed
  finish_failed-Ends n =
      Ends-bind _ _ (resolve-Ends q _ i last_error)
        λ n. Ends-bind _ _ (update_terminal-Ends q _ i t _ row live) (λ n. Ends-pure _ _ _)

  finish_succeeded-Ends :
      (n : ℕ)
      → Ends
          (finish_succeeded i t w.clock)
          o
          (record w { stmt = n })
          (ok (new_completion_hook_payload t TaskStatus.succeeded "" (some w.clock) true))
          (finished_db i TaskStatus.succeeded "" w.clock w.db)
  unfolding finish_succeeded
  finish_succeeded-Ends n =
      Ends-bind _ _ (update_terminal-Ends q _ i t _ row live) (λ n. Ends-pure _ _ _)

  -- The first two tests of RecomputeTaskStatus pass for a task that is not terminal.
  opened :
      (r : Result (Option CompletionHookPayload)) (d : Db)
      → ((n : ℕ) → Ends (recompute_open i t last_error) o (record w { stmt = n }) r d)
      → Ends (recompute_task_status i last_error) o w r d
  unfolding recompute_task_status
  opened r d rest =
      Ends-bind _ _ (suc w.stmt, first_task-quiet q w _ ∙ ap (λ x. (found x, after w w.db)) row)
        λ n. Ends-else _ _ _ (not_cancelled t live) (Ends-else _ _ _ (not_done t live) (rest n))
    where
      not_cancelled :
          (t : Task)
          → is_terminal_task t ≡ false
          → same_task_status t.status TaskStatus.cancelled ≡ false
      not_cancelled t h = ground arith

      not_done :
          (t : Task)
          → is_terminal_task t ≡ false
          → (same_task_status t.status TaskStatus.succeeded
              || same_task_status t.status TaskStatus.failed)
            ≡ false
      not_done t h = ground arith

  -- With no failing statement and no other writer, RecomputeTaskStatus on a task that is not
  -- terminal and has a shard that is not terminal writes nothing and returns no hook payload.
  pub recompute_waits :
      (s : TaskShard)
      → In s w.db.shards
      → (s.task_id == i) ≡ true
      → is_terminal_shard s ≡ false
      → Ends (recompute_task_status i last_error) o w (ok none) w.db
  unfolding recompute_open
  recompute_waits s there mine active = opened _ _ λ n.
      Ends-bind _ _ (suc n, count_shards-quiet q _ _)
        λ n.
          Ends-then _ _ _
            (is_positive _ (
              count_where-In (λ s. s.task_id == i && not (is_terminal_shard s)) s w.db.shards there
                (and_true _ _ mine (ap not active))))
            (Ends-pure _ _ _)

  module _ (done : EveryShard i w.db (λ s. is_terminal_shard s ≡ true)) where
    none_active : count_where (λ s. s.task_id == i && not (is_terminal_shard s)) w.db.shards ≡ 0
    none_active =
        count_where-zero _ w.db.shards
          (λ s there. excluded (s.task_id == i) (is_terminal_shard s) (done s there))
      where
        excluded : (a b : Bool) → (a ≡ true → b ≡ true) → (a && not b) ≡ false
        excluded true b h = ap not (h refl)
        excluded false b h = refl

    -- Past the count of active shards.
    counted :
        (failures : ℕ)
        → count_where (λ s. s.task_id == i && has_failed s) w.db.shards ≡ failures
        → (r : Result (Option CompletionHookPayload)) (d : Db)
        → ((n : ℕ)
            → Ends
                (when ltb 0 failures
                  then finish_failed i t last_error w.clock
                  else finish_succeeded i t w.clock)
                o
                (record w { stmt = n })
                r
                d)
        → Ends (recompute_task_status i last_error) o w r d
    unfolding recompute_open
    counted failures e r d rest = opened r d λ n.
        Ends-bind _ _
          (
            suc n,
            count_shards-quiet q _ _ ∙ ap (λ k. (ok k, record w { stmt = suc n })) none_active,
          )
          λ n. Ends-else _ _ _ refl (
            Ends-bind _ _
              (suc n, count_shards-quiet q _ _ ∙ ap (λ k. (ok k, record w { stmt = suc n })) e)
              λ n. Ends-bind _ _ (Ends-gets _ _ _) (λ n. rest n))

    -- With no failing statement and no other writer, RecomputeTaskStatus on a task that is not
    -- terminal, all of whose shards are terminal and one of them FAILED, makes the task FAILED and
    -- finished now and returns the hook payload of that failure if the task has a URL for it, both
    -- with the same error. It is the error of a FAILED shard of the task with an error that
    -- finished last among those, where one without a finishing time counts as the last and of
    -- equals the later updated; if none has an error it is the given text, and the default one if
    -- that is empty.
    pub recompute_fails :
        (s : TaskShard)
        → In s w.db.shards
        → (s.task_id == i) ≡ true
        → s.status ≡ ShardStatus.failed
        → (text : String) × IsReason i w.db last_error text
          × Ends
              (recompute_task_status i last_error)
              o
              w
              (ok (failure_hook w.clock t text))
              (finished_db i TaskStatus.failed text w.clock w.db)
    unfolding new_completion_hook_payload
    recompute_fails s there mine failed = (
      failure_text last_error (reported_failure i w.db),
      failure_text-IsReason i w.db last_error,
      counted _ refl _ _ λ n.
          Ends-then _ _ _
            (is_positive _ (
              count_where-In (λ s. s.task_id == i && has_failed s) s w.db.shards there
                (and_true _ _ mine (is_failure s failed))))
            (finish_failed-Ends n),
    )
      where
        is_failure : (s : TaskShard) → s.status ≡ ShardStatus.failed → has_failed s ≡ true
        is_failure s h = ground arith

    -- With no failing statement and no other writer, RecomputeTaskStatus on a task that is not
    -- terminal, all of whose shards are terminal and none FAILED, makes the task SUCCEEDED and
    -- finished now, and returns the hook payload of a success.
    pub recompute_succeeds :
        EveryShard i w.db (λ s. s.status ≢ ShardStatus.failed)
        → Ends
            (recompute_task_status i last_error)
            o
            w
            (ok (new_completion_hook_payload t TaskStatus.succeeded "" (some w.clock) true))
            (finished_db i TaskStatus.succeeded "" w.clock w.db)
    recompute_succeeds fine =
        counted 0
          (count_where-zero _ w.db.shards (λ s there. excluded s (s.task_id == i) (fine s there))) _
          _ λ n. Ends-else _ _ _ refl (finish_succeeded-Ends n)
      where
        excluded :
            (s : TaskShard) (a : Bool)
            → (a ≡ true → s.status ≢ ShardStatus.failed)
            → (a && has_failed s) ≡ false
        excluded s a h = ground arith

-- With no failing statement and no other writer, RecomputeTaskStatus leaves a task that is
-- SUCCEEDED or FAILED alone and returns no hook payload.
pub recompute_done :
    {o : Outside} (q : IsQuiet o) (w : World) (i : ℕ) (t : Task)
    → TaskRow i w.db t
    → (t.status ≡ TaskStatus.succeeded) ⊎ (t.status ≡ TaskStatus.failed)
    → (last_error : String) → Ends (recompute_task_status i last_error) o w (ok none) w.db
unfolding recompute_task_status
recompute_done q w i t row h last_error =
    Ends-bind _ _ (suc w.stmt, first_task-quiet q w _ ∙ ap (λ x. (found x, after w w.db)) row)
      λ n. Ends-else _ _ _ (not_cancelled t h) (Ends-then _ _ _ (is_done t h) (Ends-pure _ _ _))
  where
    not_cancelled :
        (t : Task)
        → (t.status ≡ TaskStatus.succeeded) ⊎ (t.status ≡ TaskStatus.failed)
        → same_task_status t.status TaskStatus.cancelled ≡ false
    not_cancelled t h = ground arith

    is_done :
        (t : Task)
        → (t.status ≡ TaskStatus.succeeded) ⊎ (t.status ≡ TaskStatus.failed)
        → (same_task_status t.status TaskStatus.succeeded
            || same_task_status t.status TaskStatus.failed)
          ≡ true
    is_done t h = ground arith
