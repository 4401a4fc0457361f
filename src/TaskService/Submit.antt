-- ===== src/TaskService/Submit.antt =====
-- submit_task.go.
pub mod Atomic
pub mod Creates
pub mod Scripts
use r_orchestrator.Prelude.{
  ℕ, suc, String, Bool, true, false, not, ◌&&◌, ◌||◌, Option, none, some, List, [], ◌∷◌, ◌++◌, ◌==◌,
  if◌then◌else◌, length, clean, split_path, has_suffix, trim_space, sorted_texts, same_text,
}
use r_orchestrator.Model.{TaskStatus, ShardStatus, Task}
use r_orchestrator.World.{ZipFile, Url, Outside}
use r_orchestrator.Action.{
  maybe, returned, Result, ok, err, Action, refused, unavailable, pure, raise, gets, ◌>>=◌, ◌>>◌,
  attempt, elsewhere, transaction,
}
use r_orchestrator.Orm.Shards
use r_orchestrator.Orm.Tasks
use r_orchestrator.Orm.Tenants
use r_orchestrator.TaskService.Cancel.{or_raise_tenant}
use r_orchestrator.Control.Assign.{oss_call, bundle_key}

pub record SubmitTaskParams : Type 0 where
  pub tenant_name : String
  pub zip_bytes : List ℕ
  pub completion_hook_url : String

-- A hook must be an absolute http(s) URL: `none` is an error.
abbrev pub checked_hook : Outside → Option Url → Option String
checked_hook o none = none
checked_hook o (some parsed) =
    if same_text parsed.scheme "" || same_text parsed.host ""
    then none
    else if not (same_text parsed.scheme "http") && not (same_text parsed.scheme "https")
    then none
    else some (o.show_url parsed)

unfoldable pub completion_hook : Outside → String → Option String
completion_hook o raw =
    let hook = trim_space raw in
    if same_text hook "" then some "" else checked_hook o (o.parse_url hook)

-- The file is install.sh at the root.
unfoldable pub is_install : ZipFile → Bool
is_install f = not f.is_dir && same_text (clean f.name) "install.sh"

abbrev pub base_name : ZipFile → String
base_name f = (split_path f.name).1

-- The file is cmd/*.sh.
unfoldable pub is_script : ZipFile → Bool
is_script f =
    not f.is_dir
    && (same_text (clean (split_path f.name).0) "cmd" && has_suffix (base_name f) ".sh")

-- The loop over the files, on hasInstall and scripts.
unfoldable pub visit : (has_install : Bool) → List String → List ZipFile → Bool × List String
unfolding is_install is_script
visit has_install scripts [] = (has_install, scripts)
visit has_install scripts (f ∷ fs) =
    visit (has_install || is_install f)
      (if is_script f then scripts ++ base_name f ∷ [] else scripts) fs

abbrev pub checked_scripts : Bool × List String → Result (List String)
checked_scripts (has_install, scripts) =
    if not has_install
    then err refused
    else if length scripts == 0
    then err refused
    else ok (sorted_texts scripts)

-- extractScriptsFromZip, on what zip.NewReader answers.
unfoldable pub extract_scripts : Option (List ZipFile) → Result (List String)
unfolding visit
extract_scripts none = err refused
extract_scripts (some files) = checked_scripts (visit false [] files)

-- A failed call of the object store.
unfoldable pub reached : Result (Unit {0}) → Action Unit
reached (ok _) = pure tt
reached (err e) = raise unavailable

-- One call of the object store: NewOss, and UploadBytes.
unfoldable pub store_call : Action Unit
unfolding reached
store_call = do answer ← attempt (oss_call tt); reached answer

-- The upload of the bundle, under the key that TryAssignShard hands out.
unfoldable pub upload_bundle : (key : String) → List ℕ → Action Unit
unfolding store_call
upload_bundle key bytes = do
  store_call
  store_call
  elsewhere (λ w. record w { uploads = (key, bytes) ∷ w.uploads }) tt

abbrev pub new_task : (id tenant_id : ℕ) → (hook : String) → (shard_count created_at : ℕ) → Task
new_task id tenant_id hook shard_count created_at = record {
  id = id;
  created_at = created_at;
  tenant_id = tenant_id;
  status = TaskStatus.pending;
  completion_hook_url = hook;
  shard_count = shard_count;
  started_at = none;
  finished_at = none;
  hook_delivered_at = none;
  hook_last_error = "";
  last_error = "";
}

unfoldable pub create_shards : (task_id : ℕ) → List String → Action Unit
create_shards task_id [] = pure tt
create_shards task_id (name ∷ names) = do
  Shards.create task_id name ShardStatus.queued
  create_shards task_id names

-- The transaction of SubmitTask.
unfoldable pub create_task : (id tenant_id : ℕ) → (hook : String) → List String → Action Unit
unfolding create_shards
create_task id tenant_id hook scripts = do
  Tasks.create (new_task id tenant_id hook (length scripts))
  create_shards id scripts

-- SubmitTask.
unfoldable pub submit_task : SubmitTaskParams → Action ℕ
unfolding completion_hook extract_scripts upload_bundle create_task
submit_task params = do
  hook ← gets (λ o w. completion_hook o params.completion_hook_url)
  maybe hook (raise refused) (λ completion_hook_url. do
    found ← attempt (Tenants.get_by_name params.tenant_name)
    tenant ← or_raise_tenant found
    extracted ← gets (λ o w. extract_scripts (o.read_zip params.zip_bytes))
    scripts ← returned extracted
    task_id ← Shards.new_uuid
    text ← gets (λ o w. o.show_uuid task_id)
    upload_bundle (bundle_key text) params.zip_bytes
    transaction (create_task task_id tenant.id completion_hook_url scripts)
    pure task_id)
