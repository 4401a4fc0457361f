-- ===== src/TaskService/Report/Completed.antt =====
-- ReportShardStatus when no statement fails and nobody else writes: the SUCCEEDED report of the
-- last shard of a task, through MarkSucceeded, the output, RecomputeTaskStatus and the hook.
use r_orchestrator.Prelude.{
  ℕ, suc, ◌≡◌, refl, ap, ◌∙◌, sym, subst, String, Bool, true, false, not, ◌&&◌, ◌⊎◌, inl, inr, some,
  List, [], ◌∷◌, ◌≢◌, arith, ◌==◌, if◌then◌else◌, row_where, update_where, update_where-In,
  row_where-In, row_where-updated, row_where-other, and_true, same_text, Bool-cases,
}
use r_orchestrator.Model.{
  TaskStatus, ShardStatus, Task, TaskShard, same_task_status, same_shard_status, shard_in,
}
use r_orchestrator.World.{CompletionHookPayload, Db, World, Outside}
use r_orchestrator.Action.{when◌then◌else◌, elsewhere, pure, ok}
use r_orchestrator.Action.Quiet.{
  IsQuiet, Ends, bind-ok, Ends-bind, Ends-pure, Ends-gets, Ends-then, Ends-else, Ends-transaction,
}
use r_orchestrator.Orm.Shards
use r_orchestrator.Orm.Quiet.{update_shards-quiet}
use r_orchestrator.TaskService.Hook.{new_completion_hook_payload, dispatch_completion_hook_async}
use r_orchestrator.TaskService.Recompute.{recompute_task_status}
use r_orchestrator.TaskService.Recompute.Outcome.{EveryShard, recompute_succeeds}
use r_orchestrator.TaskService.Recompute.Steps.{is_terminal_task, is_terminal_shard, finished_db}
use r_orchestrator.TaskService.Report.{
  ReportShardStatusParams, is_duplicate, mark_shard, store_output, follow_up, report_loaded,
  dispatch_payload, report_shard_status,
}
use r_orchestrator.TaskService.Report.Accepted.{transition_accepted}
use r_orchestrator.TaskService.Report.Refusals.{ReportRows, OnlyShard, loaded-Ends}

-- The row of a shard that has succeeded.
abbrev pub succeeded_shard : ℕ → ReportShardStatusParams → TaskShard → TaskShard
succeeded_shard now params s = record s {
  status = ShardStatus.succeeded;
  finished_at = some now;
  output_oss_key = params.output_oss_key;
  output_sha256 = params.output_sha256;
  updated_at = now;
}

abbrev pub succeeded_task : ℕ → Task → Task
succeeded_task now t = record t {
  finished_at = some now;
  status = TaskStatus.succeeded;
  last_error = "";
}

abbrev pub success_payload : ℕ → Task → CompletionHookPayload
success_payload now t = record {
  task_id = t.id;
  tenant_id = t.tenant_id;
  status = TaskStatus.succeeded;
  last_error = "";
  finished_at = some now;
  result_available = true;
  completion_hook_url = t.completion_hook_url;
}

-- The hooks handed to another goroutine: one more, if the task has a URL for it.
abbrev pub hooks_after : ℕ → Task → List CompletionHookPayload → List CompletionHookPayload
hooks_after now t hooks =
    if same_text t.completion_hook_url "" then hooks else success_payload now t ∷ hooks

-- What the report that completes the task `t` makes of the tables.
pub record Completes (params : ReportShardStatusParams) (now : ℕ) (s : TaskShard) (t : Task)
    (d d' : Db) : Type 0 where
  pub shard :
      row_where (λ x. x.id == params.shard_id) d'.shards ≡ some (succeeded_shard now params s)
  pub task : row_where (λ x. x.id == s.task_id) d'.tasks ≡ some (succeeded_task now t)
  pub other_shards :
      (j : ℕ)
      → j ≢ params.shard_id
      → row_where (λ x. x.id == j) d'.shards ≡ row_where (λ x. x.id == j) d.shards
  pub other_tasks :
      (j : ℕ)
      → j ≢ s.task_id
      → row_where (λ x. x.id == j) d'.tasks ≡ row_where (λ x. x.id == j) d.tasks
  pub tenants : d'.tenants ≡ d.tenants
  pub clusters : d'.clusters ≡ d.clusters

-- A shard that neither keeps its task open nor fails it.
abbrev pub is_done : ShardStatus → Bool
is_done c = shard_in c (ShardStatus.succeeded ∷ ShardStatus.cancelled ∷ [])

abbrev is_running : ℕ → TaskShard → Bool
is_running i x = x.id == i && shard_in x.status (ShardStatus.running ∷ [])

abbrev marked : ℕ → TaskShard → TaskShard
marked now x = record x { finished_at = some now; status = ShardStatus.succeeded; updated_at = now }

abbrev stored : ReportShardStatusParams → ℕ → TaskShard → TaskShard
stored params now x = record x {
  output_oss_key = params.output_oss_key;
  output_sha256 = params.output_sha256;
  updated_at = now;
}

abbrev marked_db : ℕ → ℕ → Db → Db
marked_db i now d = record d { shards = update_where (is_running i) (marked now) d.shards }

abbrev stored_db : ReportShardStatusParams → ℕ → Db → Db
stored_db params now d = record d {
  shards =
      update_where (λ x. x.id == params.shard_id) (stored params now)
        (marked_db params.shard_id now d).shards;
}

abbrev completed_db : ReportShardStatusParams → ℕ → TaskShard → Db → Db
completed_db params now s d =
    finished_db s.task_id TaskStatus.succeeded "" now (stored_db params now d)

terminal_lem : (x : TaskShard) → is_done x.status ≡ true → is_terminal_shard x ≡ true
terminal_lem x h = ground arith

not_failed : (c : ShardStatus) → is_done c ≡ true → c ≢ ShardStatus.failed
not_failed c h = ground arith

no_open_task :
    (i : ℕ) (x : Task) → (x.id == i) ≡ false → (x.id == i && not (is_terminal_task x)) ≡ false
no_open_task i x h = ground arith

-- Handing the payload over.
dispatched :
    (now : ℕ) (t : Task) (o : Outside) (v : World)
    → dispatch_payload (new_completion_hook_payload t TaskStatus.succeeded "" (some now) true) o v
      ≡ (ok tt, record v { hooks = hooks_after now t v.hooks })
unfolding dispatch_payload new_completion_hook_payload dispatch_completion_hook_async
    when◌then◌else◌ pure elsewhere
dispatched now t o v = elim (Bool-cases (same_text t.completion_hook_url "")) [
  | inl h ↦ rw h refl
  | inr h ↦ rw h (
      ap
        (λ c.
          (when c
              then pure tt
              else elsewhere (λ x. record x { hooks = success_payload now t ∷ x.hooks }) tt)
            o v)
        h)
]

other_id : (a i j : ℕ) → j ≢ i → (a == i) ≡ true → (a == j) ≡ false
other_id a i j h k = ground arith

and_first : (a b : Bool) → (a && b) ≡ true → a ≡ true
and_first true b h = refl
and_first false b h = h

fresh :
    (params : ReportShardStatusParams) (s : TaskShard)
    → s.status ≡ ShardStatus.running
    → is_duplicate params s ≡ false
fresh params s h = ground arith

live_task :
    (t : Task) → is_terminal_task t ≡ false → same_task_status t.status TaskStatus.cancelled ≡ false
live_task t h = ground arith

not_running : (i : ℕ) (x : TaskShard) → (x.id == i) ≡ false → is_running i x ≡ false
not_running i x h = ground arith

-- A row of the table after both UPDATEs: it has succeeded, or it is another row as it was.
row_after :
    (params : ReportShardStatusParams) (now : ℕ) (y x z : TaskShard)
    → x ≡ (if is_running params.shard_id z then marked now z else z)
    → y ≡ (if x.id == params.shard_id then stored params now x else x)
    → ((z.id == params.shard_id) ≡ true → z.status ≡ ShardStatus.running)
    → (y.status ≡ ShardStatus.succeeded) ⊎ ((y ≡ z) × ((z.id == params.shard_id) ≡ false))
row_after params now y x z e k h = elim (Bool-cases (z.id == params.shard_id)) [
  | inl b ↦
      let done = and_true _ _ b (ap (λ c. shard_in c (ShardStatus.running ∷ [])) (h b)) in
      let same = settled (marked now z) (e ∙ ap (λ c. if c then marked now z else z) done) in
      inl (
        ap (λ u. u.status)
          (same ∙ ap (λ c. if c then stored params now (marked now z) else marked now z) b))
  | inr b ↦
      let same =
        settled z (e ∙ ap (λ c. if c then marked now z else z) (not_running params.shard_id z b)) in
      inr (same ∙ ap (λ c. if c then stored params now z else z) b, b)
]
  where
    settled :
        (a : TaskShard) → x ≡ a → y ≡ (if a.id == params.shard_id then stored params now a else a)
    settled a same = k ∙ ap (λ u. if u.id == params.shard_id then stored params now u else u) same

module _ {o : Outside} (q : IsQuiet o) (w : World) (params : ReportShardStatusParams)
    (s : TaskShard) (t : Task) (rows : ReportRows params.shard_id w.db s t)
    (h : s.status ≡ ShardStatus.running) where
  own_row : (s.id == params.shard_id) ≡ true
  own_row = (row_where-In (λ x. x.id == params.shard_id) s w.db.shards rows.0).1

  is_running-row : is_running params.shard_id s ≡ true
  is_running-row = and_true _ _ own_row (ap (λ x. shard_in x (ShardStatus.running ∷ [])) h)

  -- MarkSucceeded.
  mark_completes :
      (n : ℕ)
      → Ends
          (Shards.mark_succeeded params.shard_id)
          o
          (record w { stmt = n })
          (ok tt)
          (marked_db params.shard_id w.clock w.db)
  unfolding Shards.mark_succeeded
  mark_completes n = Ends-bind _ _ (Ends-gets o _ _) λ n.
      transition_accepted q (record w { stmt = n }) params.shard_id ShardStatus.succeeded
        (ShardStatus.running ∷ []) _ s rows.0 is_running-row

  stored_row :
      row_where (λ x. x.id == params.shard_id) (stored_db params w.clock w.db).shards
      ≡ some (succeeded_shard w.clock params s)
  stored_row =
      row_where-updated (λ x. x.id == params.shard_id) (λ x. x.id == params.shard_id)
        (stored params w.clock) (marked w.clock s) (marked_db params.shard_id w.clock w.db).shards
        (row_where-updated (λ x. x.id == params.shard_id) (is_running params.shard_id)
          (marked w.clock) s w.db.shards rows.0 is_running-row own_row
          (not_running params.shard_id))
        own_row own_row (λ x e. e)

  module _ (only : OnlyShard params.shard_id w.db s) where
    -- What holds of a succeeded shard and of the task's other shards holds of all afterwards.
    every_after :
        (P : ShardStatus → Type 0)
        → P ShardStatus.succeeded
        → EveryShard s.task_id w.db (λ x. (x.id == params.shard_id) ≡ false → P x.status)
        → EveryShard s.task_id (stored_db params w.clock w.db) (λ x. P x.status)
    every_after P p others y there mine =
        let (x, m, k) =
          update_where-In (λ x. x.id == params.shard_id) (stored params w.clock) y
            (marked_db params.shard_id w.clock w.db).shards there in
        let (z, m', e) =
          update_where-In (is_running params.shard_id) (marked w.clock) x w.db.shards m in
        elim (row_after params w.clock y x z e k (λ b. ap (λ u. u.status) (only z m' b) ∙ h)) [
          | inl done ↦ subst P (sym done) p
          | inr same ↦
              subst P (ap (λ u. u.status) (sym same.0))
                (others z m' (ap (λ u. u.task_id == s.task_id) (sym same.0) ∙ mine) same.1)
        ]

    module _ (reported : params.shard_status ≡ ShardStatus.succeeded)
        (live : is_terminal_task t ≡ false)
        (others : EveryShard s.task_id w.db
          (λ x. (x.id == params.shard_id) ≡ false → is_done x.status ≡ true)) where
      recomputed :
          (text : String) (n : ℕ)
          → Ends
              (recompute_task_status s.task_id text)
              o
              (record w { stmt = n; db = stored_db params w.clock w.db })
              (ok (new_completion_hook_payload t TaskStatus.succeeded "" (some w.clock) true))
              (completed_db params w.clock s w.db)
      recomputed text n =
          let done = every_after (λ c. is_done c ≡ true) refl others in
          recompute_succeeds q _ s.task_id t rows.1 live text
            (λ x m mine. terminal_lem x (done x m mine))
            (λ x m mine. not_failed x.status (done x m mine))

      loaded_completes :
          (n : ℕ)
          → Ends
              (report_loaded params w.clock s t)
              o
              (record w { stmt = n })
              (ok (new_completion_hook_payload t TaskStatus.succeeded "" (some w.clock) true))
              (completed_db params w.clock s w.db)
      unfolding report_loaded mark_shard store_output follow_up
      loaded_completes n = Ends-else _ _ _ (fresh params s h) (
          Ends-else _ _ _ (live_task t live) (
            Ends-bind _ _
              (subst
                (λ x.
                  Ends (mark_shard x params) o (record w { stmt = n }) (ok tt)
                    (marked_db params.shard_id w.clock w.db))
                (sym reported) (mark_completes n))
              λ n.
                Ends-bind _ _
                  (Ends-then _ _ _ (ap (λ x. same_shard_status x ShardStatus.succeeded) reported)
                    (Ends-bind _ _ (suc n, update_shards-quiet q _ _ _) (λ n. Ends-pure _ _ _)))
                  λ n.
                    subst
                      (λ x.
                        Ends (follow_up x params s.task_id t w.clock) o
                          (record w { stmt = n; db = stored_db params w.clock w.db })
                          (ok (
                            new_completion_hook_payload t TaskStatus.succeeded "" (some w.clock)
                              true))
                          (completed_db params w.clock s w.db))
                      (sym reported) (recomputed _ n)))

      -- With no failing statement and no other writer, a SUCCEEDED report is accepted if its shard,
      -- the only row with its id, is RUNNING, the task is not terminal, and the other shards of the
      -- task are SUCCEEDED or CANCELLED. The shard is then SUCCEEDED with the output of the report,
      -- the task SUCCEEDED without an error, both finished now, and the hook is handed over if the
      -- task has a URL for it; no other row changes.
      pub report_succeeded-Completes :
          (d : Db) × (n : ℕ) × (report_shard_status params o w
            ≡ (ok tt, record w { stmt = n; db = d; hooks = hooks_after w.clock t w.hooks }))
          × Completes params w.clock s t w.db d
      unfolding report_shard_status
      report_succeeded-Completes =
          let (k, g) = Ends-gets o w (λ o x. x.clock) in
          let (n, e) = Ends-transaction _ (
            loaded-Ends q (record w { stmt = k }) params s t rows _
              (completed_db params w.clock s w.db) loaded_completes) in
          (
            completed_db params w.clock s w.db,
            n,
            bind-ok _ _ g ∙ bind-ok _ _ e ∙ dispatched w.clock t o _,
            record {
              shard = stored_row;
              task =
                  row_where-updated (λ x. x.id == s.task_id)
                    (λ x. x.id == s.task_id && not (is_terminal_task x)) (succeeded_task w.clock) t
                    w.db.tasks rows.1
                    (and_true _ _ (row_where-In (λ x. x.id == s.task_id) t w.db.tasks rows.1).1
                      (ap not live))
                    (row_where-In (λ x. x.id == s.task_id) t w.db.tasks rows.1).1
                    (no_open_task s.task_id);
              other_shards = λ j k.
                  row_where-other (λ x. x.id == j) (λ x. x.id == params.shard_id)
                    (stored params w.clock) (marked_db params.shard_id w.clock w.db).shards
                    (λ x u.
                      (other_id x.id params.shard_id j k u, other_id x.id params.shard_id j k u))
                  ∙ row_where-other (λ x. x.id == j) (is_running params.shard_id) (marked w.clock)
                      w.db.shards
                      (λ x u. (
                        other_id x.id params.shard_id j k (and_first _ _ u),
                        other_id x.id params.shard_id j k (and_first _ _ u),
                      ));
              other_tasks = λ j k.
                  row_where-other (λ x. x.id == j)
                    (λ x. x.id == s.task_id && not (is_terminal_task x)) (succeeded_task w.clock)
                    w.db.tasks
                    (λ x u. (
                      other_id x.id s.task_id j k (and_first _ _ u),
                      other_id x.id s.task_id j k (and_first _ _ u),
                    ));
              tenants = refl;
              clusters = refl;
            },
          )
