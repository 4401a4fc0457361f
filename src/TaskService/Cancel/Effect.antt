-- ===== src/TaskService/Cancel/Effect.antt =====
-- The transaction of CancelTask when no statement fails and nobody else writes.
use r_orchestrator.Prelude.{
  ℕ, suc, ◌≡◌, refl, sym, ap, ◌∙◌, Bool, true, false, not, ◌&&◌, none, some, List, arith, ◌==◌,
  if◌then◌else◌, In, row_where, update_where, update_where-In, row_where-updated, row_where-In,
  count_where-In, not_zero,
}
use mathlib.Core.Bool.{true≢false}
use r_orchestrator.Model.{
  TaskStatus, ShardStatus, Task, TaskShard, task_in, shard_in, terminal_task_statuses,
  terminal_shard_statuses,
}
use r_orchestrator.World.{Db, World, Outside}
use r_orchestrator.Action.{ok, err, refused}
use r_orchestrator.Action.Quiet.{
  IsQuiet, Ends, Ends-bind, Ends-bind_err, Ends-pure, Ends-raise, Ends-gets, Ends-then, Ends-else,
  Ends-transaction, Ends-transaction_err,
}
use r_orchestrator.Orm.Shards
use r_orchestrator.Orm.Tasks
use r_orchestrator.Orm.Quiet.{
  found, touched, update_shards-quiet, update_tasks-quiet, update_tasks-none, first_task-quiet,
}
use r_orchestrator.TaskService.Cancel.{cancel_in_transaction}

-- The row that `tenant_id = ? AND id = ?` finds.
abbrev pub is_task_of : ℕ → ℕ → Task → Bool
is_task_of tenant_id task_id t = t.tenant_id == tenant_id && t.id == task_id

abbrev pub cancelled_task : ℕ → Task → Task
cancelled_task t x = record x {
  status = TaskStatus.cancelled;
  finished_at = some t;
  last_error = "";
}

abbrev pub cancelled_shard : ℕ → TaskShard → TaskShard
cancelled_shard t s = record s {
  status = ShardStatus.cancelled;
  finished_at = some t;
  assigned_agent_id = none;
  started_at = none;
  last_error = "";
}

abbrev is_open_task : ℕ → ℕ → Task → Bool
is_open_task tenant_id task_id t =
    t.tenant_id == tenant_id && t.id == task_id && not (task_in t.status terminal_task_statuses)

abbrev is_open_shard : ℕ → TaskShard → Bool
is_open_shard task_id s = s.task_id == task_id && not (shard_in s.status terminal_shard_statuses)

abbrev pub cancelled_db : (tenant_id task_id t : ℕ) → Db → Db
cancelled_db tenant_id task_id t db = record db {
  tasks = update_where (is_open_task tenant_id task_id) (cancelled_task t) db.tasks;
  shards = update_where (is_open_shard task_id) (touched t (cancelled_shard t)) db.shards;
}

still_open :
    (i j : ℕ) (t : Task)
    → is_task_of i j t ≡ true
    → task_in t.status terminal_task_statuses ≡ false
    → is_open_task i j t ≡ true
still_open i j t h k =
    split (t.tenant_id == i) (t.id == j) (task_in t.status terminal_task_statuses) h k
  where
    split : (a b c : Bool) → (a && b) ≡ true → c ≡ false → (a && b && not c) ≡ true
    split a b c h k = ground arith

not_open :
    (i j : ℕ) (t : Task)
    → (is_task_of i j t ≡ true → task_in t.status terminal_task_statuses ≡ true)
    → is_open_task i j t ≡ false
not_open i j t h = split (t.tenant_id == i) (t.id == j) (task_in t.status terminal_task_statuses) h
  where
    split : (a b c : Bool) → ((a && b) ≡ true → c ≡ true) → (a && b && not c) ≡ false
    split a b c h = ground arith

no_other : (i j : ℕ) (t : Task) → is_task_of i j t ≡ false → is_open_task i j t ≡ false
no_other i j t h = not_open i j t λ k. absurd (true≢false (sym k ∙ h))

closed_already : (a c : Bool) → a ≡ true → (a && not c) ≡ false → c ≡ true
closed_already a c h k = ground arith

all_closed :
    (task_id t : ℕ) (s : TaskShard) (ss : List TaskShard)
    → In s (update_where (is_open_shard task_id) (touched t (cancelled_shard t)) ss)
    → (s.task_id == task_id) ≡ true
    → shard_in s.status terminal_shard_statuses ≡ true
all_closed task_id t s ss m mine =
    let (x, _, e) =
      update_where-In (is_open_shard task_id) (touched t (cancelled_shard t)) s ss m in
    closed x (is_open_shard task_id x) refl e
  where
    closed :
        (x : TaskShard) (b : Bool)
        → is_open_shard task_id x ≡ b
        → s ≡ (if b then touched t (cancelled_shard t) x else x)
        → shard_in s.status terminal_shard_statuses ≡ true
    closed x true h e = rw e refl
    closed x false h e =
        ap (λ y. shard_in y.status terminal_shard_statuses) e
        ∙ closed_already _ _ (ap (λ y. y.task_id == task_id) (sym e) ∙ mine) h

module _ {o : Outside} (q : IsQuiet o) (w : World) (tenant_id task_id : ℕ) (t : Task)
    (row : row_where (is_task_of tenant_id task_id) w.db.tasks ≡ some t) where
  -- The transaction of CancelTask, with no failing statement and no other writer, on a task of the
  -- tenant that is not terminal leaves the task's row CANCELLED and finished now, and every shard
  -- of the task in a terminal status.
  pub cancel-closes :
      task_in t.status terminal_task_statuses ≡ false
      → (d : Db) × Ends (cancel_in_transaction tenant_id task_id) o w (ok tt) d
        × (row_where (is_task_of tenant_id task_id) d.tasks ≡ some (cancelled_task w.clock t))
        × ((s : TaskShard)
            → In s d.shards
            → (s.task_id == task_id) ≡ true
            → shard_in s.status terminal_shard_statuses ≡ true)
  unfolding cancel_in_transaction Tasks.cancel_task_by_id Shards.cancel_task_shards_by_task_id
  cancel-closes live =
      let found_row = row_where-In (is_task_of tenant_id task_id) t w.db.tasks row in
      (
        cancelled_db tenant_id task_id w.clock w.db,
        Ends-transaction _ (
            Ends-bind _ _
              (Ends-bind _ _ (Ends-gets o w _) λ n.
                Ends-bind _ _ (suc n, update_tasks-quiet q _ _ _)
                  λ n.
                    Ends-else _ _ _
                      (not_zero _ (
                        count_where-In (is_open_task tenant_id task_id) t w.db.tasks found_row.0
                          (still_open tenant_id task_id t found_row.1 live)))
                      (Ends-pure _ _ _))
              λ n.
                Ends-bind _ _ (Ends-gets o _ _)
                  λ n. Ends-bind _ _ (suc n, update_shards-quiet q _ _ _) (λ n. Ends-pure _ _ _)),
        row_where-updated (is_task_of tenant_id task_id) (is_open_task tenant_id task_id)
            (cancelled_task w.clock) t w.db.tasks row
            (still_open tenant_id task_id t found_row.1 live) found_row.1
            (no_other tenant_id task_id),
        λ s m mine. all_closed task_id w.clock s w.db.shards m mine,
      )

  -- The transaction of CancelTask, with no failing statement and no other writer, on a task of the
  -- tenant that is terminal, the only row with its id, is refused, and writes nothing.
  pub cancel-refused :
      ((x : Task) → In x w.db.tasks → is_task_of tenant_id task_id x ≡ true → x ≡ t)
      → task_in t.status terminal_task_statuses ≡ true
      → Ends (cancel_in_transaction tenant_id task_id) o w (err refused) w.db
  unfolding cancel_in_transaction Tasks.cancel_task_by_id
  cancel-refused only closed = Ends-transaction_err q _ (
      Ends-bind_err _ _ (
        Ends-bind _ _ (Ends-gets o w _) λ n.
          Ends-bind _ _ (suc n, update_tasks-none q _ _ _ no_row)
            λ n. Ends-then _ _ _ refl (
              Ends-bind _ _
                (suc n, first_task-quiet q _ _ ∙ ap (λ x. (found x, record w { stmt = suc n })) row)
                (λ n. Ends-raise _ _ _))))
    where
      no_row : (x : Task) → In x w.db.tasks → is_open_task tenant_id task_id x ≡ false
      no_row x m =
          not_open tenant_id task_id x
            (λ h. ap (λ y. task_in y.status terminal_task_statuses) (only x m h) ∙ closed)
