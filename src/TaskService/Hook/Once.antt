-- ===== src/TaskService/Hook/Once.antt =====
-- recordCompletionHookResult, once and again, when no statement fails and nobody else writes.
use r_orchestrator.Prelude.{
  ℕ, suc, ◌≡◌, refl, ap, ◌∙◌, String, Bool, true, false, ◌&&◌, Option, none, some, List, ◌==◌,
  if◌then◌else◌, is_none, In, update_where, update_where-In, and_guarded,
}
use r_orchestrator.Model.{Task}
use r_orchestrator.World.{Db, World, Outside}
use r_orchestrator.Action.{ok, ◌>>◌}
use r_orchestrator.Action.Quiet.{IsQuiet, Ends, Ends-bind, Ends-pure, Ends-gets}
use r_orchestrator.Orm.Quiet.{update_tasks-quiet, update_tasks-none}
use r_orchestrator.TaskService.Hook.{hook_updates, record_completion_hook_result}

abbrev pub is_due : ℕ → Task → Bool
is_due i x = x.id == i && is_none x.hook_delivered_at

-- The hook of a task is delivered at a time.
abbrev pub delivered_db : ℕ → ℕ → Db → Db
delivered_db i t db = record db {
  tasks =
      update_where (is_due i) (λ x. record x { hook_delivered_at = some t; hook_last_error = "" })
        db.tasks;
}

none_due :
    (i t : ℕ) (x : Task) (ts : List Task)
    → In x (update_where (is_due i) (hook_updates none t) ts)
    → is_due i x ≡ false
none_due i t x ts m =
    let (y, _, e) = update_where-In (is_due i) (hook_updates none t) x ts m in
    closed y (is_due i y) refl e
  where
    closed :
        (y : Task) (b : Bool)
        → is_due i y ≡ b
        → x ≡ (if b then hook_updates none t y else y)
        → is_due i x ≡ false
    closed y true h e = ap (is_due i) e ∙ and_guarded (y.id == i) false (λ _. refl)
    closed y false h e = ap (is_due i) e ∙ h

-- With no failing statement and no other writer, a result that is recorded after a delivery of the
-- same task's hook, be it a failure or a second delivery, changes nothing: a row that was not
-- delivered before has the time of this delivery and no error, and every other row is as it was.
pub delivery_stays :
    {o : Outside} (q : IsQuiet o) (w : World) (i : ℕ) (later : Option String)
    → Ends
        (record_completion_hook_result i none >> record_completion_hook_result i later)
        o
        w
        (ok tt)
        (delivered_db i w.clock w.db)
unfolding record_completion_hook_result
delivery_stays {o} q w i later =
    Ends-bind _ _
      (Ends-bind _ _ (Ends-gets o w _)
        λ n. Ends-bind _ _ (suc n, update_tasks-quiet q _ _ _) (λ n. Ends-pure _ _ _))
      λ n. Ends-bind _ _ (Ends-gets o _ _) λ n.
        Ends-bind _ _ (suc n, update_tasks-none q _ _ _ (λ x m. none_due i w.clock x w.db.tasks m))
          (λ n. Ends-pure _ _ _)
