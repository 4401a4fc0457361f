-- ===== src/TaskService/Submit/Atomic.antt =====
-- SubmitTask that fails.
use r_orchestrator.Prelude.{ℕ, ◌≡◌, String, List}
use r_orchestrator.World.{Db, World, Outside}
use r_orchestrator.Action.{Error, Result, ok, err}
use r_orchestrator.Action.Atomic.{
  Same, Same-Preorder, IsAtomic, IsAtomic-reads, IsAtomic-transaction, IsAtomic-after,
  IsAtomic-answer, IsAtomic-maybe,
}
use r_orchestrator.Action.Guarantee.{Guarantees}
use r_orchestrator.Orm.Reads.{reading_rules}
use r_orchestrator.TaskService.Cancel.{or_raise_tenant}
use r_orchestrator.TaskService.Submit.{
  SubmitTaskParams, reached, store_call, upload_bundle, submit_task,
}
use r_orchestrator.Control.Assign.{oss_call}

or_raise_tenant-Same : {A : Type 0} (r : Result A) → Guarantees Same (or_raise_tenant r)
unfolding or_raise_tenant
or_raise_tenant-Same (ok a) = search (reading_rules, Same-Preorder)
or_raise_tenant-Same (err e) = search (reading_rules, Same-Preorder)

reached-Same : (r : Result (Unit {0})) → Guarantees Same (reached r)
unfolding reached
reached-Same (ok a) = search (reading_rules, Same-Preorder)
reached-Same (err e) = search (reading_rules, Same-Preorder)

oss_call-Same : {A : Type 0} (a : A) → Guarantees Same (oss_call a)
unfolding oss_call
oss_call-Same a = search (reading_rules, Same-Preorder)

store_call-Same : Guarantees Same store_call
unfolding store_call
store_call-Same = search (reading_rules, Same-Preorder, oss_call-Same, reached-Same)

upload_bundle-Same : (key : String) (bytes : List ℕ) → Guarantees Same (upload_bundle key bytes)
unfolding upload_bundle
upload_bundle-Same key bytes = search (reading_rules, Same-Preorder, store_call-Same)

submit_task-IsAtomic : (params : SubmitTaskParams) → IsAtomic (submit_task params)
unfolding submit_task
submit_task-IsAtomic params = IsAtomic-after _ _ (search (reading_rules, Same-Preorder)) λ hook.
    IsAtomic-maybe hook _ _ (IsAtomic-reads _ (search (reading_rules, Same-Preorder))) λ url.
      IsAtomic-after _ _ (search (reading_rules, Same-Preorder)) λ found.
        IsAtomic-after _ _ (or_raise_tenant-Same found) λ tenant.
          IsAtomic-after _ _ (search (reading_rules, Same-Preorder)) λ extracted.
            IsAtomic-after _ _ (search (reading_rules, Same-Preorder)) λ scripts.
              IsAtomic-after _ _ (search (reading_rules, Same-Preorder)) λ task_id.
                IsAtomic-after _ _ (search (reading_rules, Same-Preorder)) λ text.
                  IsAtomic-after _ _ (upload_bundle-Same _ _)
                    λ _. IsAtomic-answer _ _ (IsAtomic-transaction _)

-- Whichever statement, call of the object store or UUID fails, with no other writer, a SubmitTask
-- that returns an error leaves the database as it was.
pub submit_task-atomic :
    (o : Outside) (alone : (n : ℕ) (db : Db) → o.others n db ≡ db) (params : SubmitTaskParams)
    (w : World) (e : Error)
    → (submit_task params o w).0 ≡ err e
    → (submit_task params o w).1.db ≡ w.db
submit_task-atomic o alone params w e f = (submit_task-IsAtomic params).at o alone w e f
