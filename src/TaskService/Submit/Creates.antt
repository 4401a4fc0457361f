-- ===== src/TaskService/Submit/Creates.antt =====
-- SubmitTask that succeeds, when no statement fails and nobody else writes.
use Prim.Native.String.{◌++◌ as text_append}
use mathlib.Core.List.{append_assoc, append-nil}
use r_orchestrator.Prelude.{
  ℕ, suc, ◌≤◌, ◌≢◌, ◌==◌, if◌then◌else◌, Bool, Bool-cases, inl, inr, not, is_none, none, arith, ◌≡◌,
  refl, sym, ◌∙◌, ap, String, false, some, List, [], ◌∷◌, ◌++◌, length, row_where, same_text,
}
use r_orchestrator.Model.{TaskStatus, ShardStatus, Tenant, Task, TaskShard}
use r_orchestrator.World.{World, Outside}
use r_orchestrator.Action.{
  ok, pure, gets, returned, maybe, ◌>>=◌, elsewhere, attempt, when◌then◌else◌,
}
use r_orchestrator.Action.Quiet.{IsQuiet, after, bind-ok, attempt-eq, transaction-ok}
use r_orchestrator.Orm.Quiet.{found, query-quiet, or_not_found-eq, insert_new-quiet}
use r_orchestrator.Orm.Shards.{new_shard, new_uuid}
use r_orchestrator.Orm.Shards
use r_orchestrator.Orm.Tasks
use r_orchestrator.Orm.Tenants
use r_orchestrator.Control.Assign.{oss_call, bundle_key}
use r_orchestrator.TaskService.Cancel.{or_raise_tenant}
use r_orchestrator.TaskService.Submit.{
  SubmitTaskParams, completion_hook, extract_scripts, reached, store_call, upload_bundle,
  create_shards, create_task, submit_task,
}

-- The object store and the source of UUIDs work, and no UUID is drawn twice.
pub record Works (o : Outside) (uuid : ℕ → ℕ) : Type 0 where
  pub stores : (n : ℕ) → o.oss_fails n ≡ false
  pub generates : (n : ℕ) → o.new_uuid n ≡ some (uuid n)
  pub distinct : (m n : ℕ) → uuid m ≡ uuid n → m ≡ n

-- The source of UUIDs draws none that the task table or the shard table has.
pub record DrawsNew (uuid : ℕ → ℕ) (w : World) : Type 0 where
  pub no_task : row_where (λ t. t.id == uuid w.uuids) w.db.tasks ≡ none
  pub no_shard : (n : ℕ) → w.uuids ≤ n → row_where (λ s. s.id == uuid n) w.db.shards ≡ none

-- The key of a task's bundle in the object store.
abbrev pub bundle_of : (task : String) → String
bundle_of task = text_append "r-orchestrator/tasks/" (text_append task "/bundle.zip")

-- The row of a task that waits for its first poll.
abbrev pub pending_task : (id tenant_id : ℕ) → (hook : String) → (shard_count t : ℕ) → Task
pending_task id tenant_id hook shard_count t = record {
  id = id;
  created_at = t;
  tenant_id = tenant_id;
  status = TaskStatus.pending;
  completion_hook_url = hook;
  shard_count = shard_count;
  started_at = none;
  finished_at = none;
  hook_delivered_at = none;
  hook_last_error = "";
  last_error = "";
}

abbrev pub queued_shard : (id t task_id : ℕ) → String → TaskShard
queued_shard id t task_id name = record {
  id = id;
  updated_at = t;
  task_id = task_id;
  script_name = name;
  status = ShardStatus.queued;
  assigned_agent_id = some "";
  output_oss_key = "";
  output_sha256 = "";
  started_at = none;
  finished_at = none;
  last_error = "";
}

none_appended :
    {A : Type 0} (p : A → Bool) (xs : List A) (a : A)
    → row_where p xs ≡ none
    → p a ≡ false
    → row_where p (xs ++ a ∷ []) ≡ none
none_appended p [] a e h = rw h refl
none_appended p (x ∷ xs) a e h = elim (Bool-cases (p x)) [
  | inl b ↦ cc
  | inr b ↦
      ap (λ c. if c then some x else row_where p (xs ++ a ∷ [])) b
      ∙ none_appended p xs a (sym (ap (λ c. if c then some x else row_where p xs) b) ∙ e) h
]

differs : (a b : ℕ) → a ≢ b → (a == b) ≡ false
differs a b h = ground arith

past : (k n : ℕ) → suc k ≤ n → k ≢ n
past k n h = ground arith

weaken : (k n : ℕ) → suc k ≤ n → k ≤ n
weaken k n h = ground arith

self_le : (k : ℕ) → k ≤ k
self_le k = ground arith

-- No shard has a UUID that is still to be drawn.
abbrev pub NoShard : (uuid : ℕ → ℕ) → ℕ → List TaskShard → Type 0
NoShard uuid k ss = (n : ℕ) → k ≤ n → row_where (λ s. s.id == uuid n) ss ≡ none

NoShard-append :
    (uuid : ℕ → ℕ) (k : ℕ) (ss : List TaskShard) (s : TaskShard)
    → ((m n : ℕ) → uuid m ≡ uuid n → m ≡ n)
    → s.id ≡ uuid k
    → NoShard uuid k ss
    → NoShard uuid (suc k) (ss ++ s ∷ [])
NoShard-append uuid k ss s injective e free n h =
    none_appended (λ s. s.id == uuid n) ss s (free n (weaken k n h))
      (differs s.id (uuid n) (λ same. past k n h (injective k n (sym e ∙ same))))

-- One QUEUED shard for each script, in their order.
abbrev pub queued_shards : (uuid : ℕ → ℕ) (first t task_id : ℕ) → List String → List TaskShard
queued_shards uuid first t task_id [] = []
queued_shards uuid first t task_id (name ∷ names) =
    queued_shard (uuid first) t task_id name ∷ queued_shards uuid (suc first) t task_id names

module _ {o : Outside} (q : IsQuiet o) {uuid : ℕ → ℕ} (works : Works o uuid) where
  new_uuid_eq : (w : World) → new_uuid o w ≡ (ok (uuid w.uuids), record w { uuids = suc w.uuids })
  unfolding new_uuid ◌>>=◌ gets elsewhere maybe pure
  new_uuid_eq w = rw (works.generates w.uuids) refl

  store_call_eq : (w : World) → store_call o w ≡ (ok tt, record w { oss_calls = suc w.oss_calls })
  unfolding store_call oss_call reached ◌>>=◌ gets elsewhere pure attempt when◌then◌else◌
  store_call_eq w = rw (works.stores w.oss_calls) refl

  create_eq :
      (w : World) (task_id : ℕ) (name : String)
      → NoShard uuid w.uuids w.db.shards
      → Shards.create task_id name ShardStatus.queued o w ≡ (
        ok tt,
        record w {
          stmt = suc w.stmt;
          uuids = suc w.uuids;
          db = record w.db {
            shards = w.db.shards ++ queued_shard (uuid w.uuids) w.clock task_id name ∷ [];
          };
        },
      )
  unfolding Shards.create
  create_eq w task_id name free =
      bind-ok _ _ (new_uuid_eq w)
      ∙ insert_new-quiet q _ _ _ (ap (λ x. not (is_none x)) (free w.uuids (self_le w.uuids)))

  create_shards_eq :
      (task_id : ℕ) (names : List String) (w : World)
      → NoShard uuid w.uuids w.db.shards
      → (n : ℕ) × (k : ℕ) × (create_shards task_id names o w ≡ (
        ok tt,
        record w {
          stmt = n;
          uuids = k;
          db = record w.db {
            shards = w.db.shards ++ queued_shards uuid w.uuids w.clock task_id names;
          };
        },
      ))
  unfolding create_shards pure
  create_shards_eq task_id [] w free = (
    w.stmt,
    w.uuids,
    ap (λ xs. (ok tt, record w { db = record w.db { shards = xs } }))
        (sym (append-nil w.db.shards)),
  )
  create_shards_eq task_id (name ∷ names) w free =
      let row = queued_shard (uuid w.uuids) w.clock task_id name in
      let rest = queued_shards uuid (suc w.uuids) w.clock task_id names in
      let (n, k, e) =
        create_shards_eq task_id names
          (record w {
            stmt = suc w.stmt;
            uuids = suc w.uuids;
            db = record w.db { shards = w.db.shards ++ row ∷ [] };
          })
          (NoShard-append uuid w.uuids w.db.shards row works.distinct refl free) in
      (
        n,
        k,
        bind-ok _ _ (create_eq w task_id name free)
            ∙ e
            ∙ ap (λ xs. (ok tt, record w { stmt = n; uuids = k; db = record w.db { shards = xs } }))
                (append_assoc w.db.shards (row ∷ []) rest),
      )

  create_task_eq :
      (w : World) (id tenant_id : ℕ) (hook : String) (scripts : List String)
      → row_where (λ t. t.id == id) w.db.tasks ≡ none
      → NoShard uuid w.uuids w.db.shards
      → (n : ℕ) × (k : ℕ) × (create_task id tenant_id hook scripts o w ≡ (
        ok tt,
        record w {
          stmt = n;
          uuids = k;
          db = record w.db {
            tasks = w.db.tasks ++ pending_task id tenant_id hook (length scripts) w.clock ∷ [];
            shards = w.db.shards ++ queued_shards uuid w.uuids w.clock id scripts;
          };
        },
      ))
  unfolding create_task Tasks.create
  create_task_eq w id tenant_id hook scripts absent free =
      let task = pending_task id tenant_id hook (length scripts) w.clock in
      let (n, k, e) =
        create_shards_eq id scripts
          (record w { stmt = suc w.stmt; db = record w.db { tasks = w.db.tasks ++ task ∷ [] } })
          free in
      (n, k, bind-ok _ _ (insert_new-quiet q w _ _ (ap (λ x. not (is_none x)) absent)) ∙ e)

  upload_bundle_eq :
      (w : World) (key : String) (bytes : List ℕ)
      → upload_bundle key bytes o w ≡ (
        ok tt,
        record w { oss_calls = suc (suc w.oss_calls); uploads = (key, bytes) ∷ w.uploads },
      )
  unfolding upload_bundle elsewhere
  upload_bundle_eq w key bytes = bind-ok _ _ (store_call_eq w) ∙ bind-ok _ _ (store_call_eq _)

  tenant_eq :
      (w : World) (name : String) (tenant : Tenant)
      → same_text name "" ≡ false
      → row_where (λ t. same_text t.name name) w.db.tenants ≡ some tenant
      → Tenants.get_by_name name o w ≡ (ok tenant, after w w.db)
  unfolding Tenants.get_by_name when◌then◌else◌
  tenant_eq w name tenant h e = rw h (
      bind-ok _ _ (query-quiet q w _)
      ∙ or_not_found-eq q w _ _
      ∙ ap (λ x. (found x, after w w.db)) e)

  module _ (params : SubmitTaskParams) (w : World) (hook : String) (tenant : Tenant)
      (scripts : List String) (accepted : completion_hook o params.completion_hook_url ≡ some hook)
      (named : same_text params.tenant_name "" ≡ false)
      (known : row_where (λ t. same_text t.name params.tenant_name) w.db.tenants ≡ some tenant)
      (bundle : extract_scripts (o.read_zip params.zip_bytes) ≡ ok scripts)
      (draws : DrawsNew uuid w) where
    -- With no failing statement and no other writer, an object store that works, and a source of
    -- UUIDs that draws none twice and none of a stored task or shard, SubmitTask with an accepted
    -- hook, a known tenant and an archive of scripts returns the next UUID, uploads the bundle
    -- under the key of that task, and adds to the tables one PENDING task of the tenant with that
    -- id and as many shards as scripts, and one QUEUED shard for each script, in their order, and
    -- nothing else.
    pub submit_task-creates :
        (n : ℕ) × (k : ℕ) × (submit_task params o w ≡ (
          ok (uuid w.uuids),
          record w {
            stmt = n;
            uuids = k;
            oss_calls = suc (suc w.oss_calls);
            uploads = (bundle_of (o.show_uuid (uuid w.uuids)), params.zip_bytes) ∷ w.uploads;
            db = record w.db {
              tasks =
                  w.db.tasks
                  ++ pending_task (uuid w.uuids) tenant.id hook (length scripts) w.clock ∷ [];
              shards =
                  w.db.shards ++ queued_shards uuid (suc w.uuids) w.clock (uuid w.uuids) scripts;
            };
          },
        ))
    unfolding submit_task gets pure returned maybe or_raise_tenant
    submit_task-creates =
        let id = uuid w.uuids in
        let (n, k, e) =
          create_task_eq
            (record w {
              stmt = suc w.stmt;
              uuids = suc w.uuids;
              oss_calls = suc (suc w.oss_calls);
              uploads = (bundle_key (o.show_uuid id), params.zip_bytes) ∷ w.uploads;
            })
            id tenant.id hook scripts draws.no_task
            (λ n h. draws.no_shard n (weaken w.uuids n h)) in
        (
          n,
          k,
          bind-ok _ _ (ap (λ x. (ok x, w)) accepted)
              ∙ bind-ok _ _ (attempt-eq _ (tenant_eq w _ tenant named known))
              ∙ bind-ok _ _ refl
              ∙ bind-ok _ _ (ap (λ x. (ok x, after w w.db)) bundle)
              ∙ bind-ok _ _ refl
              ∙ bind-ok _ _ (new_uuid_eq (after w w.db))
              ∙ bind-ok _ _ refl
              ∙ bind-ok _ _ (upload_bundle_eq _ _ _)
              ∙ bind-ok _ _ (transaction-ok _ e),
        )
