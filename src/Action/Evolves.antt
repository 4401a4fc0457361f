-- ===== src/Action/Evolves.antt =====
-- How a database may change, whoever changes it.
use r_orchestrator.Prelude.{
  ◌≡◌, refl, ◌∙◌, Bool, true, false, List, [], ◌∷◌, ◌++◌, if◌then◌else◌, update_where,
}
use r_orchestrator.Model.{TaskStatus, Task, TaskShard, shard_in, terminal_shard_statuses}
use r_orchestrator.World.{Db}

-- A shard keeps its identity, and a terminal status for good.
pub record ShardEdge (s t : TaskShard) : Type 0 where
  pub same_id : t.id ≡ s.id
  pub same_task : t.task_id ≡ s.task_id
  pub same_script : t.script_name ≡ s.script_name
  pub terminal_stays : shard_in s.status terminal_shard_statuses ≡ true → t.status ≡ s.status

-- A task keeps its identity and its tenant, and stays cancelled once it is.
pub record TaskEdge (s t : Task) : Type 0 where
  pub same_id : t.id ≡ s.id
  pub same_tenant : t.tenant_id ≡ s.tenant_id
  pub same_count : t.shard_count ≡ s.shard_count
  pub same_hook : t.completion_hook_url ≡ s.completion_hook_url
  pub cancelled_stays : s.status ≡ TaskStatus.cancelled → t.status ≡ TaskStatus.cancelled

-- Each row is followed by the row in its place, and rows are only added at the end.
abbrev pub Grows : {A : Type 0} → (A → A → Type 0) → List A → List A → Type 0
Grows E [] ys = Unit
Grows E (x ∷ xs) [] = ⊥
Grows E (x ∷ xs) (y ∷ ys) = E x y × Grows E xs ys

pub record Evolves (c d : Db) : Type 0 where
  pub shards : Grows ShardEdge c.shards d.shards
  pub tasks : Grows TaskEdge c.tasks d.tasks

pub ShardEdge-refl : (s : TaskShard) → ShardEdge s s
ShardEdge-refl s = record {
  same_id = refl;
  same_task = refl;
  same_script = refl;
  terminal_stays = λ h. refl;
}

pub TaskEdge-refl : (s : Task) → TaskEdge s s
TaskEdge-refl s = record {
  same_id = refl;
  same_tenant = refl;
  same_count = refl;
  same_hook = refl;
  cancelled_stays = λ h. h;
}

ShardEdge-trans : (s t u : TaskShard) → ShardEdge s t → ShardEdge t u → ShardEdge s u
ShardEdge-trans s t u p q = record {
  same_id = q.same_id ∙ p.same_id;
  same_task = q.same_task ∙ p.same_task;
  same_script = q.same_script ∙ p.same_script;
  terminal_stays = λ h. q.terminal_stays (rw (p.terminal_stays h) h) ∙ p.terminal_stays h;
}

TaskEdge-trans : (s t u : Task) → TaskEdge s t → TaskEdge t u → TaskEdge s u
TaskEdge-trans s t u p q = record {
  same_id = q.same_id ∙ p.same_id;
  same_tenant = q.same_tenant ∙ p.same_tenant;
  same_count = q.same_count ∙ p.same_count;
  same_hook = q.same_hook ∙ p.same_hook;
  cancelled_stays = λ h. q.cancelled_stays (p.cancelled_stays h);
}

module _ {A : Type 0} (E : A → A → Type 0) where
  pub Grows-refl : ((x : A) → E x x) → (xs : List A) → Grows E xs xs
  Grows-refl r [] = tt
  Grows-refl r (x ∷ xs) = (r x, Grows-refl r xs)

  pub Grows-trans :
      ((x y z : A) → E x y → E y z → E x z)
      → (xs ys zs : List A) → Grows E xs ys
      → Grows E ys zs
      → Grows E xs zs
  Grows-trans t [] ys zs p q = tt
  Grows-trans t (x ∷ xs) [] zs p q = absurd p
  Grows-trans t (x ∷ xs) (y ∷ ys) [] p q = absurd q
  Grows-trans t (x ∷ xs) (y ∷ ys) (z ∷ zs) p q = (t x y z p.0 q.0, Grows-trans t xs ys zs p.1 q.1)

  pub Grows-append : ((x : A) → E x x) → (xs ys : List A) → Grows E xs (xs ++ ys)
  Grows-append r [] ys = tt
  Grows-append r (x ∷ xs) ys = (r x, Grows-append r xs ys)

  -- An update keeps to `E` where its condition and its assignment do.
  pub Grows-update_where :
      ((x : A) → E x x)
      → (p : A → Bool) (f : A → A) → ((x : A) → p x ≡ true → E x (f x))
      → (xs : List A) → Grows E xs (update_where p f xs)
  Grows-update_where r p f h [] = tt
  Grows-update_where r p f h (x ∷ xs) = (one (p x) refl, Grows-update_where r p f h xs)
    where
      one : (b : Bool) → p x ≡ b → E x (if b then f x else x)
      one true e = h x e
      one false e = r x

pub record Preorder (R : Db → Db → Type 0) : Type 0 where
  pub reflexive : (c : Db) → R c c
  pub transitive : (b c d : Db) → R b c → R c d → R b d

pub Evolves-Preorder : Preorder Evolves
Evolves-Preorder = record {
  reflexive = λ c. record {
    shards = Grows-refl ShardEdge ShardEdge-refl c.shards;
    tasks = Grows-refl TaskEdge TaskEdge-refl c.tasks;
  };
  transitive = λ b c d p q. record {
    shards = Grows-trans ShardEdge ShardEdge-trans b.shards c.shards d.shards p.shards q.shards;
    tasks = Grows-trans TaskEdge TaskEdge-trans b.tasks c.tasks d.tasks p.tasks q.tasks;
  };
}
