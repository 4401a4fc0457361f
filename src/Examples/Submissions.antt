-- ===== src/Examples/Submissions.antt =====
-- A task is submitted, and provisioned.
use r_orchestrator.Backend.K8.{kube}
use r_orchestrator.Action.{◌>>=◌, attempt, elsewhere, statement, transaction}
use r_orchestrator.Orm.Tasks
use r_orchestrator.Orm.Shards
use r_orchestrator.Control.Assign.{oss_call}
use r_orchestrator.Orm.Shards.{new_uuid}
use r_orchestrator.Orm.{query, insert_new}
use r_orchestrator.Orm.Tenants.{get_by_name}
use r_orchestrator.TaskService.Cancel.{or_raise_tenant}
use r_orchestrator.Prelude.{trim_space, clean, split_path, has_suffix}
use r_orchestrator.TaskService.Submit.{completion_hook}
use r_orchestrator.Prelude.{
  ℕ, ◌+◌, ◌<◌, arith, ◌≡◌, refl, true, false, none, some, List, [], ◌∷◌, ◌++◌, ◌==◌, if◌then◌else◌,
}
use Prim.Native.String.{◌++◌ as text_append}
use r_orchestrator.Kubernetes.{
  StatefulSet, delete_stateful_set, get_stateful_set, create_stateful_set,
}
use r_orchestrator.Model.{TaskStatus, ShardStatus, Tenant}
use r_orchestrator.World.{ZipFile, idle, Db, World, Outside}
use r_orchestrator.Action.{Error, ok, err}
use r_orchestrator.Action.Quiet.{IsQuiet}
use r_orchestrator.Backend.K8.{
  Config, first_characters, destroy_cluster, scale_cluster, provision_cluster,
}
use r_orchestrator.Backend.K8.Confirmed.{IsSetOf, Confirms, provision_cluster-Confirms}
use r_orchestrator.Backend.K8.Names.{destroy_scale-shared}
use r_orchestrator.TaskService.Submit.{SubmitTaskParams, extract_scripts, submit_task}
use r_orchestrator.TaskService.Submit.Scripts.{AreScripts, extract_scripts-AreScripts}
use r_orchestrator.TaskService.Submit.Atomic.{submit_task-atomic}
use r_orchestrator.TaskService.Submit.Creates.{
  Works, DrawsNew, pending_task, queued_shards, submit_task-creates,
}
use r_orchestrator.TaskService.Poll.{Poller, poll_pending_tasks}
use r_orchestrator.TaskService.Poll.Edge.{Polls, Polls-Preorder}
use r_orchestrator.TaskService.Poll.Effect.{poll-Polls}
use r_orchestrator.Server.{server_registry}
use r_orchestrator.Server.Only.{registered-LeavesDb}
use r_orchestrator.Examples.Data.{calm, acme, world_of, db_of, agent_of, shard_of}

abbrev archive : List ZipFile
archive =
    record { name = "install.sh"; is_dir = false }
    ∷ record { name = "cmd/"; is_dir = true }
    ∷ record { name = "cmd/b.sh"; is_dir = false }
    ∷ record { name = "./cmd/a.sh"; is_dir = false }
    ∷ []

archive_scripts : extract_scripts (some archive) ≡ ok ("a.sh" ∷ "b.sh" ∷ [])
unfolding extract_scripts clean split_path has_suffix
archive_scripts = refl

scripts_example : AreScripts archive ("a.sh" ∷ "b.sh" ∷ [])
scripts_example = extract_scripts-AreScripts archive ("a.sh" ∷ "b.sh" ∷ []) archive_scripts

abbrev stored : Outside
stored = record calm { read_zip = λ bytes. some archive; new_uuid = λ n. some (n + 20) }

stored-IsQuiet : IsQuiet stored
stored-IsQuiet = record { no_failure = λ n. refl; alone = λ n db. refl }

add_cancels : (m n : ℕ) → m + 20 ≡ n + 20 → m ≡ n
add_cancels m n h = omega arith

stored-Works : Works stored (λ n. n + 20)
stored-Works = record { stores = λ n. refl; generates = λ n. refl; distinct = add_cancels }

abbrev world : World
world =
    world_of
      (db_of TaskStatus.pending (shard_of 1 "a.sh" ShardStatus.queued none "")
        (shard_of 2 "b.sh" ShardStatus.queued none ""))
      (agent_of idle none)

abbrev params : SubmitTaskParams
params = record { tenant_name = "acme"; zip_bytes = 80 ∷ 75 ∷ []; completion_hook_url = " " }

-- The tables have the task 1 and the shards 1 and 2.
large : (n k : ℕ) → k < 20 → (k == n + 20) ≡ false
large n k h = ground arith

world-DrawsNew : DrawsNew (λ n. n + 20) world
world-DrawsNew = record {
  no_task = refl;
  no_shard = λ n h. rw (large n 1 (omega arith), large n 2 (omega arith)) refl;
}

creates_example :
    (n : ℕ) × (k : ℕ) × (submit_task params stored world ≡ (
      ok 20,
      record world {
        stmt = n;
        uuids = k;
        oss_calls = 2;
        uploads = ("r-orchestrator/tasks/id/bundle.zip", 80 ∷ 75 ∷ []) ∷ [];
        db = record world.db {
          tasks = world.db.tasks ++ pending_task 20 7 "" 2 world.clock ∷ [];
          shards =
              world.db.shards
              ++ queued_shards (λ n. n + 20) 1 world.clock 20 ("a.sh" ∷ "b.sh" ∷ []);
        };
      },
    ))
unfolding extract_scripts completion_hook trim_space
creates_example =
    submit_task-creates stored-IsQuiet stored-Works params world "" acme ("a.sh" ∷ "b.sh" ∷ []) refl
      refl refl archive_scripts world-DrawsNew

-- The second shard's INSERT fails.
abbrev failing : Outside
failing = record stored { sql_fails = λ n. n == 3 }

failing_alone : (n : ℕ) (db : Db) → failing.others n db ≡ db
failing_alone n db = refl

submission_fails : (submit_task params failing world).0 ≡ err Error.database
unfolding submit_task ◌>>=◌ trim_space attempt or_raise_tenant get_by_name query statement clean
    split_path has_suffix new_uuid elsewhere oss_call transaction Tasks.create Shards.create
    insert_new
submission_fails = refl

atomic_example : (submit_task params failing world).1.db ≡ world.db
atomic_example =
    submit_task-atomic failing failing_alone params world Error.database submission_fails

abbrev k8s : Config
k8s = record {
  namespace = "r-agents";
  agent_image = "agent:latest";
  image_pull_secrets = [];
  server_grpc_addr = "server:9090";
  agent_token = "secret";
  server_public_url = "";
  kube_config_path = "";
  agent_log_level = "info";
}

abbrev poller : Poller
poller = record {
  registry = server_registry k8s;
  billing_cycle_seconds = 3600;
  order = λ groups. groups;
  error_text = λ e. "error";
  no_provider_text = λ name. name;
}

calm_alone : (n : ℕ) (db : Db) → calm.others n db ≡ db
calm_alone n db = refl

tick_example : Polls world.db (poll_pending_tasks poller calm world).1.db
tick_example = poll-Polls poller (registered-LeavesDb Polls-Preorder k8s) calm calm_alone world

provisions :
    provision_cluster k8s acme calm world ≡ (ok tt, (provision_cluster k8s acme calm world).1)
unfolding provision_cluster ◌>>=◌ attempt kube elsewhere
provisions = refl

provisioned_example :
    (s : StatefulSet) × IsSetOf k8s "id" 2 s
    × Confirms calm
        (get_stateful_set "r-agents"
          (text_append "r-orch-" (text_append (first_characters 8 "id") "-agents")))
        (create_stateful_set s)
        (provision_cluster k8s acme calm world).1
provisioned_example =
    provision_cluster-Confirms calm k8s acme world (provision_cluster k8s acme calm world).1
      provisions

-- The UUIDs of the two tenants agree in their first eight characters, which are of their time.
abbrev two_tenants : Outside
two_tenants = record calm {
  show_uuid = λ n.
      if n == 7
      then "01985a3c-7d10-7c2e-8a52-0f6d2b91e3aa"
      else "01985a3c-91f4-7b06-b3c8-5be1f2a7704d";
}

abbrev other : Tenant
other = record acme { id = 8; name = "other" }

shared_example :
    ((destroy_cluster k8s acme two_tenants world).1.kube_calls
      ≡ delete_stateful_set "r-agents" "r-orch-01985a3c-agents" ∷ [])
    × (destroy_cluster k8s acme two_tenants world ≡ destroy_cluster k8s other two_tenants world)
    × (scale_cluster k8s acme 0 two_tenants world ≡ scale_cluster k8s other 0 two_tenants world)
unfolding first_characters
shared_example = destroy_scale-shared k8s acme other two_tenants refl 0 world
