-- ===== src/Orm.antt =====
-- internal/orm: the statements that its packages are made of. An UPDATE returns RowsAffected;
-- First without a matching row is gorm.ErrRecordNotFound.
pub mod Shards
pub mod Tasks
pub mod Clusters
pub mod Tenants
pub mod Kept
pub mod Quiet
pub mod Reads
use r_orchestrator.Prelude.{
  ℕ, Bool, true, false, not, is_none, Option, none, some, List, [], ◌∷◌, ◌++◌, rows_where,
  row_where, count_where, update_where, least_row,
}
use r_orchestrator.Model.{Tenant, Task, TaskShard, Cluster}
use r_orchestrator.World.{Db, World, Outside}
use r_orchestrator.Action.{
  when◌then◌else◌, Action, database, record_not_found, pure, raise, ◌>>=◌, statement,
}

-- First: no row is an error.
unfoldable pub or_not_found : {A : Type 0} → Option A → Action A
or_not_found none = raise record_not_found
or_not_found (some a) = pure a

unfoldable pub query : {A : Type 0} → (Outside → Db → A) → Action A
query f = statement (λ o w db. (f o db, db))

unfoldable pub find_shards : (TaskShard → Bool) → Action (List TaskShard)
find_shards p = query (λ o db. rows_where p db.shards)

unfoldable pub first_shard : (TaskShard → Bool) → Action TaskShard
unfolding or_not_found
first_shard p = do found ← query (λ o db. row_where p db.shards); or_not_found found

-- `before` is the ORDER BY of the query.
unfoldable pub first_shard_by :
    (TaskShard → TaskShard → Bool) → (TaskShard → Bool) → Action TaskShard
unfolding or_not_found
first_shard_by before p = do
  found ← query (λ o db. least_row before (rows_where p db.shards))
  or_not_found found

unfoldable pub count_shards : (TaskShard → Bool) → Action ℕ
count_shards p = query (λ o db. count_where p db.shards)

-- A row of the table has this key.
abbrev pub is_taken : {A : Type 0} → (A → Bool) → List A → Bool
is_taken p rows = not (is_none (row_where p rows))

abbrev pub inserted : (refused : Bool) → (before with_row : Db) → Bool × Db
inserted true before with_row = (true, before)
inserted false before with_row = (false, with_row)

-- An INSERT into a table with a primary key and unique indices: a key that is taken is an error.
unfoldable pub insert_new : (World → Db → Bool) → (World → Db → Db) → Action Unit
insert_new taken add = do
  refused ← statement (λ o w db. inserted (taken w db) db (add w db))
  when refused then raise database else pure tt

-- gorm sets `updated_at` on every Updates.
unfoldable pub update_shards : (TaskShard → Bool) → (TaskShard → TaskShard) → Action ℕ
update_shards p f = statement λ o w db. (
  count_where p db.shards,
  record db { shards = update_where p (λ s. record (f s) { updated_at = w.clock }) db.shards },
)

unfoldable pub find_tasks : (Task → Bool) → Action (List Task)
find_tasks p = query (λ o db. rows_where p db.tasks)

unfoldable pub first_task : (Task → Bool) → Action Task
unfolding or_not_found
first_task p = do found ← query (λ o db. row_where p db.tasks); or_not_found found

unfoldable pub count_tasks : (Task → Bool) → Action ℕ
count_tasks p = query (λ o db. count_where p db.tasks)

unfoldable pub update_tasks : (Task → Bool) → (Task → Task) → Action ℕ
update_tasks p f =
    statement λ o w db. (count_where p db.tasks, record db { tasks = update_where p f db.tasks })

unfoldable pub update_clusters : (Cluster → Bool) → (Cluster → Cluster) → Action ℕ
update_clusters p f =
    statement
      λ o w db. (count_where p db.clusters, record db { clusters = update_where p f db.clusters })
