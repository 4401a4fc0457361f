-- ===== src/Orm/Kept.antt =====
-- The statements of internal/orm under the relation of Action/Evolves.
pub mod OfShards
pub mod OfTasks
pub mod OfOthers
use r_orchestrator.Prelude.{
  ℕ, All, rows_where-All, subst, ◌≡◌, refl, sym, ◌∙◌, String, Bool, true, false, Option, some, List,
  [], ◌∷◌, ◌++◌, ◌&&◌, arith, if◌then◌else◌, ◌==◌,
}
use r_orchestrator.Model.{
  TaskStatus, ShardStatus, Task, TaskShard, Cluster, shard_in, task_in, terminal_shard_statuses,
}
use r_orchestrator.World.{Db, World, Outside}
use r_orchestrator.Action.{when◌then◌else◌, maybe, Action, ok, ◌>>=◌, statement, now}
use r_orchestrator.Action.Evolves.{
  ShardEdge, TaskEdge, Evolves, Grows, ShardEdge-refl, TaskEdge-refl, Grows-refl, Grows-append,
  Grows-update_where, Evolves-Preorder,
}
use r_orchestrator.Action.Guarantee.{
  Yields, Guarantees, Guarantees-statement, Guarantees-bind, Guarantees-when, Guarantees-maybe,
  Guarantees-gets, guarantee_rules,
}
use r_orchestrator.Orm.{
  or_not_found, query, find_shards, first_shard, first_shard_by, count_shards, update_shards,
  find_tasks, first_task, count_tasks, update_tasks, update_clusters,
}

abbrev pub Keeps : {A : Type 0} → Action A → Type 0
Keeps m = Guarantees Evolves m

pub query-Keeps : {A : Type 0} (f : Outside → Db → A) → Keeps (query f)
unfolding query
query-Keeps f = Guarantees-statement Evolves-Preorder _ (λ o w db. Evolves-Preorder.reflexive db)

pub or_not_found-Keeps : {A : Type 0} (x : Option A) → Keeps (or_not_found x)
unfolding or_not_found
or_not_found-Keeps Option.none = search (guarantee_rules, Evolves-Preorder)
or_not_found-Keeps (some a) = search (guarantee_rules, Evolves-Preorder)

pub first_shard-Keeps : (p : TaskShard → Bool) → Keeps (first_shard p)
unfolding first_shard
first_shard-Keeps p = search (guarantee_rules, Evolves-Preorder, query-Keeps, or_not_found-Keeps)

pub update_shards-Keeps :
    (p : TaskShard → Bool) (f : TaskShard → TaskShard)
    → ((s : TaskShard) → p s ≡ true → ShardEdge s (f s))
    → Keeps (update_shards p f)
unfolding update_shards
update_shards-Keeps p f h = Guarantees-statement Evolves-Preorder _ λ o w db. record {
  shards =
      Grows-update_where ShardEdge ShardEdge-refl p _
        (λ s e.
          let g = h s e in
          record {
            same_id = g.same_id;
            same_task = g.same_task;
            same_script = g.same_script;
            terminal_stays = g.terminal_stays;
          })
        db.shards;
  tasks = Grows-refl TaskEdge TaskEdge-refl db.tasks;
}

pub update_tasks-Keeps :
    (p : Task → Bool) (f : Task → Task)
    → ((t : Task) → p t ≡ true → TaskEdge t (f t))
    → Keeps (update_tasks p f)
unfolding update_tasks
update_tasks-Keeps p f h = Guarantees-statement Evolves-Preorder _ λ o w db. record {
  shards = Grows-refl ShardEdge ShardEdge-refl db.shards;
  tasks = Grows-update_where TaskEdge TaskEdge-refl p f h db.tasks;
}

pub update_clusters-Keeps :
    (p : Cluster → Bool) (f : Cluster → Cluster) → Keeps (update_clusters p f)
unfolding update_clusters
update_clusters-Keeps p f = Guarantees-statement Evolves-Preorder _ λ o w db. record {
  shards = Grows-refl ShardEdge ShardEdge-refl db.shards;
  tasks = Grows-refl TaskEdge TaskEdge-refl db.tasks;
}

pub find_shards-Keeps : (p : TaskShard → Bool) → Keeps (find_shards p)
unfolding find_shards
find_shards-Keeps p = query-Keeps _

pub count_shards-Keeps : (p : TaskShard → Bool) → Keeps (count_shards p)
unfolding count_shards
count_shards-Keeps p = query-Keeps _

pub first_shard_by-Keeps :
    (before : TaskShard → TaskShard → Bool) (p : TaskShard → Bool) → Keeps (first_shard_by before p)
unfolding first_shard_by
first_shard_by-Keeps before p =
    search (guarantee_rules, Evolves-Preorder, query-Keeps, or_not_found-Keeps)

pub find_tasks-Keeps : (p : Task → Bool) → Keeps (find_tasks p)
unfolding find_tasks
find_tasks-Keeps p = query-Keeps _

pub count_tasks-Keeps : (p : Task → Bool) → Keeps (count_tasks p)
unfolding count_tasks
count_tasks-Keeps p = query-Keeps _

pub first_task-Keeps : (p : Task → Bool) → Keeps (first_task p)
unfolding first_task
first_task-Keeps p = search (guarantee_rules, Evolves-Preorder, query-Keeps, or_not_found-Keeps)

pub ruleset read_rules = (
  guarantee_rules, Evolves-Preorder, query-Keeps, or_not_found-Keeps, find_shards-Keeps,
  count_shards-Keeps, first_shard-Keeps, first_shard_by-Keeps, find_tasks-Keeps, count_tasks-Keeps,
  first_task-Keeps, update_clusters-Keeps,
)

-- An update first, and then the rest of the block.
pub update_shards-then :
    {B : Type 0} {p : TaskShard → Bool} {f : TaskShard → TaskShard} {k : ℕ → Action B}
    → ((s : TaskShard) → p s ≡ true → ShardEdge s (f s))
    → ((n : ℕ) → Keeps (k n))
    → Keeps (update_shards p f >>= k)
update_shards-then {p} {f} h g = Guarantees-bind Evolves-Preorder _ _ (update_shards-Keeps p f h) g

pub update_tasks-then :
    {B : Type 0} {p : Task → Bool} {f : Task → Task} {k : ℕ → Action B}
    → ((t : Task) → p t ≡ true → TaskEdge t (f t))
    → ((n : ℕ) → Keeps (k n))
    → Keeps (update_tasks p f >>= k)
update_tasks-then {p} {f} h g = Guarantees-bind Evolves-Preorder _ _ (update_tasks-Keeps p f h) g

pub after_now : {B : Type 0} {k : ℕ → Action B} → ((t : ℕ) → Keeps (k t)) → Keeps (now >>= k)
after_now g = Guarantees-bind Evolves-Preorder _ _ (Guarantees-gets Evolves-Preorder _) g

statement-Yields :
    {A : Type 0} (Q : A → Type 0) (f : Outside → Db → A)
    → ((o : Outside) (db : Db) → Q (f o db))
    → Yields Q (query f)
unfolding query statement
statement-Yields {A} Q f h = record { at = λ o w a e. split o w a (o.sql_fails w.stmt) refl e }
  where
    split :
        (o : Outside) (w : World) (a : A) (b : Bool)
        → o.sql_fails w.stmt ≡ b
        → (query f o w).0 ≡ ok a
        → Q a
    split o w a true s e = cc
    split o w a false s e = subst Q (cc) (h o (o.others w.stmt w.db))

-- A query for many rows returns rows that meet its condition.
pub find_shards-Yields : (p : TaskShard → Bool) → Yields (All (λ s. p s ≡ true)) (find_shards p)
unfolding find_shards
find_shards-Yields p = statement-Yields _ _ (λ o db. rows_where-All p db.shards)

-- An action first, and then the rest of the block.
pub in_order :
    {A B : Type 0} {m : Action A} {f : A → Action B}
    → Keeps m
    → ((a : A) → Keeps (f a))
    → Keeps (m >>= f)
in_order gm gf = Guarantees-bind Evolves-Preorder _ _ gm gf

pub either_way :
    {A : Type 0} (b : Bool) (m n : Action A) → Keeps m → Keeps n → Keeps (when b then m else n)
either_way b m n gm gn = Guarantees-when Evolves-Preorder b m n gm gn

pub maybe_way :
    {A B : Type 0} (x : Option A) (m : Action B) (f : A → Action B)
    → Keeps m
    → ((a : A) → Keeps (f a))
    → Keeps (maybe x m f)
maybe_way x m f gm gf = Guarantees-maybe x m f gm gf
