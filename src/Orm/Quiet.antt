-- ===== src/Orm/Quiet.antt =====
-- The statements of internal/orm when none fails and nobody else writes.
use r_orchestrator.Prelude.{
  ℕ, ◌≡◌, refl, ap, ◌∙◌, Bool, Option, none, some, rows_where, row_where, count_where, update_where,
  least_row, In, false, count_where-zero, update_where-none,
}
use r_orchestrator.Model.{Task, TaskShard}
use r_orchestrator.World.{Db, World, Outside}
use r_orchestrator.Action.{Result, ok, err, record_not_found, when◌then◌else◌, pure, raise}
use r_orchestrator.Action.Quiet.{IsQuiet, after, statement-quiet, bind-ok}
use r_orchestrator.Orm.{
  or_not_found, inserted, insert_new, query, find_shards, first_shard, first_shard_by, count_shards,
  update_shards, first_task, update_tasks,
}

abbrev pub found {ℓ} : {A : Type ℓ} → Option A → Result A
found none = err record_not_found
found (some a) = ok a

-- A shard as an UPDATE leaves it.
abbrev pub touched : ℕ → (TaskShard → TaskShard) → TaskShard → TaskShard
touched t f s = record (f s) { updated_at = t }

module _ {o : Outside} (q : IsQuiet o) (w : World) where
  pub query-quiet :
      {A : Type 0} (f : Outside → Db → A) → query f o w ≡ (ok (f o w.db), after w w.db)
  unfolding query
  query-quiet f = statement-quiet o q _ w

  pub or_not_found-eq : {A : Type 0} (x : Option A) (v : World) → or_not_found x o v ≡ (found x, v)
  unfolding or_not_found pure raise
  or_not_found-eq none v = refl
  or_not_found-eq (some a) v = refl

  pub first_shard-quiet :
      (p : TaskShard → Bool) → first_shard p o w ≡ (found (row_where p w.db.shards), after w w.db)
  unfolding first_shard
  first_shard-quiet p = bind-ok _ _ (query-quiet _) ∙ or_not_found-eq _ _

  pub first_shard_by-quiet :
      (before : TaskShard → TaskShard → Bool) (p : TaskShard → Bool)
      → first_shard_by before p o w
        ≡ (found (least_row before (rows_where p w.db.shards)), after w w.db)
  unfolding first_shard_by
  first_shard_by-quiet before p = bind-ok _ _ (query-quiet _) ∙ or_not_found-eq _ _

  pub first_task-quiet :
      (p : Task → Bool) → first_task p o w ≡ (found (row_where p w.db.tasks), after w w.db)
  unfolding first_task
  first_task-quiet p = bind-ok _ _ (query-quiet _) ∙ or_not_found-eq _ _

  pub find_shards-quiet :
      (p : TaskShard → Bool) → find_shards p o w ≡ (ok (rows_where p w.db.shards), after w w.db)
  unfolding find_shards
  find_shards-quiet p = query-quiet _

  pub count_shards-quiet :
      (p : TaskShard → Bool) → count_shards p o w ≡ (ok (count_where p w.db.shards), after w w.db)
  unfolding count_shards
  count_shards-quiet p = query-quiet _

  pub update_shards-quiet :
      (p : TaskShard → Bool) (f : TaskShard → TaskShard)
      → update_shards p f o w ≡ (
        ok (count_where p w.db.shards),
        after w (record w.db { shards = update_where p (touched w.clock f) w.db.shards }),
      )
  unfolding update_shards
  update_shards-quiet p f = statement-quiet o q _ w

  -- An UPDATE that matches no row.
  pub update_shards-none :
      (p : TaskShard → Bool) (f : TaskShard → TaskShard)
      → ((s : TaskShard) → In s w.db.shards → p s ≡ false)
      → update_shards p f o w ≡ (ok 0, after w w.db)
  update_shards-none p f h =
      update_shards-quiet p f
      ∙ rw (count_where-zero p w.db.shards h, update_where-none p (touched w.clock f) w.db.shards h)
          refl

  pub insert_new-quiet :
      (taken : World → Db → Bool) (add : World → Db → Db)
      → taken w w.db ≡ false
      → insert_new taken add o w ≡ (ok tt, after w (add w w.db))
  unfolding insert_new when◌then◌else◌ pure
  insert_new-quiet taken add h = bind-ok _ _ (
      statement-quiet o q _ w
      ∙ ap (λ b. let x = inserted b w.db (add w w.db) in (ok x.0, after w x.1)) h)

  pub update_tasks-quiet :
      (p : Task → Bool) (f : Task → Task)
      → update_tasks p f o w ≡ (
        ok (count_where p w.db.tasks),
        after w (record w.db { tasks = update_where p f w.db.tasks }),
      )
  unfolding update_tasks
  update_tasks-quiet p f = statement-quiet o q _ w

  pub update_tasks-none :
      (p : Task → Bool) (f : Task → Task)
      → ((t : Task) → In t w.db.tasks → p t ≡ false)
      → update_tasks p f o w ≡ (ok 0, after w w.db)
  update_tasks-none p f h =
      update_tasks-quiet p f
      ∙ rw (count_where-zero p w.db.tasks h, update_where-none p f w.db.tasks h) refl
