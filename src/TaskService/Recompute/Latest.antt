-- ===== src/TaskService/Recompute/Latest.antt =====
-- resolveTaskFailureLastError: which failed shard gives the task its error.
use r_orchestrator.Prelude.{
  ℕ, ◌<◌, ◌≤◌, ◌≡◌, ◌≢◌, ◌⊎◌, inl, inr, ap, String, Bool, true, false, not, ◌&&◌, ◌||◌, Option,
  none, some, arith, ltb, ◌==◌, if◌then◌else◌, In, rows_where, rows_where-In, In-rows_where,
  least_row-In, least_row-none, least_row-first, IsOrder, Option-cases, same_text, eq_iff,
  same_number, same_text-false, and_true,
}
use r_orchestrator.Model.{ShardStatus, TaskShard, same_shard_status}
use r_orchestrator.World.{Db}
use r_orchestrator.TaskService.Recompute.{later_finished, latest_failure}
use r_orchestrator.TaskService.Recompute.Steps.{has_failed, reported_failure, failure_text}

-- A FAILED shard of the task, with an error.
pub record HasError (i : ℕ) (s : TaskShard) : Type 0 where
  pub of_task : s.task_id ≡ i
  pub failed : s.status ≡ ShardStatus.failed
  pub written : s.last_error ≢ ""

-- The first finished no earlier than the second. One without a time counts as the last, and
-- of equals the later update does.
abbrev pub FinishedLast : (first second : Option ℕ) → (updated updated' : ℕ) → Type 0
FinishedLast none none u v = v ≤ u
FinishedLast none (some b) u v = Unit
FinishedLast (some a) none u v = ⊥
FinishedLast (some a) (some b) u v = (b < a) ⊎ ((b ≡ a) × (v ≤ u))

-- The error is that of the failed shard that finished last among those with an error; without one
-- it is the given text, and without that the default one.
abbrev pub IsReason : ℕ → Db → (given text : String) → Type 0
IsReason i db given text =
    ((r : TaskShard) × In r db.shards
      × HasError i r
      × (text ≡ r.last_error)
      × ((s : TaskShard)
          → In s db.shards
          → HasError i s
          → FinishedLast r.finished_at s.finished_at r.updated_at s.updated_at))
    ⊎ (((s : TaskShard) → In s db.shards → HasError i s → ⊥)
        × (text ≡ (
            if same_text given "" then "task failed because one or more shards failed" else given)))

abbrev comes_first : Option ℕ → ℕ → Option ℕ → ℕ → Bool
comes_first o u p v = later_finished o p || (not (later_finished p o) && ltb v u)

not_itself : (o : Option ℕ) (u : ℕ) → comes_first o u o u ≡ false
not_itself none u = ground arith
not_itself (some a) u = ground arith

not_both :
    (o : Option ℕ) (u : ℕ) (p : Option ℕ) (v : ℕ)
    → comes_first o u p v ≡ true
    → comes_first p v o u ≡ false
not_both none u none v h = ground arith
not_both none u (some b) v h = ground arith
not_both (some a) u none v h = ground arith
not_both (some a) u (some b) v h = ground arith

through :
    (o p q : Option ℕ) (u v t : ℕ)
    → comes_first o u p v ≡ false
    → comes_first p v q t ≡ false
    → comes_first o u q t ≡ false
through none none none u v t h k = ground arith
through none none (some c) u v t h k = ground arith
through none (some b) none u v t h k = ground arith
through none (some b) (some c) u v t h k = ground arith
through (some a) none none u v t h k = ground arith
through (some a) none (some c) u v t h k = ground arith
through (some a) (some b) none u v t h k = ground arith
through (some a) (some b) (some c) u v t h k = ground arith

latest_failure-IsOrder : IsOrder latest_failure
latest_failure-IsOrder = record {
  irreflexive = λ s. not_itself s.finished_at s.updated_at;
  asymmetric = λ s t. not_both s.finished_at s.updated_at t.finished_at t.updated_at;
  connected = λ s t u.
      through s.finished_at t.finished_at u.finished_at s.updated_at t.updated_at u.updated_at;
}

last_lem : (r s : Option ℕ) (u v : ℕ) → comes_first s v r u ≡ false → FinishedLast r s u v
last_lem none none u v h = ground arith
last_lem none (some b) u v h = tt
last_lem (some a) none u v h = ground arith
last_lem (some a) (some b) u v h = ground arith

-- The condition of the query.
abbrev with_error : ℕ → TaskShard → Bool
with_error i s = s.task_id == i && has_failed s && not (same_text s.last_error "")

with_error-HasError : (i : ℕ) (s : TaskShard) → with_error i s ≡ true → HasError i s
with_error-HasError i s h = record {
  of_task = ground arith;
  failed = ground arith;
  written = λ e. ground (arith, eq_iff s.last_error "");
}

HasError-with_error : (i : ℕ) (s : TaskShard) → HasError i s → with_error i s ≡ true
HasError-with_error i s h =
    and_true _ _
      (and_true _ _ ((same_number s.task_id i).1 h.of_task)
        (ap (λ x. same_shard_status x ShardStatus.failed) h.failed))
      (ap not (same_text-false s.last_error "" h.written))

pub failure_text-IsReason :
    (i : ℕ) (db : Db) (given : String)
    → IsReason i db given (failure_text given (reported_failure i db))
failure_text-IsReason i db given = elim (Option-cases (reported_failure i db)) [
  | inl h ↦ inr (
    (λ s m e.
        least_row-none latest_failure s (rows_where (with_error i) db.shards)
          (In-rows_where (with_error i) s db.shards m (HasError-with_error i s e)) h),
    ap (failure_text given) h,
  )
  | inr (r, h) ↦
      let (there, holds) =
        rows_where-In (with_error i) r db.shards (least_row-In latest_failure r _ h) in
      inl (
        r,
        there,
        with_error-HasError i r holds,
        ap (failure_text given) h,
        λ s m e. last_lem r.finished_at s.finished_at r.updated_at s.updated_at (
            least_row-first latest_failure latest_failure-IsOrder r
              (rows_where (with_error i) db.shards) h s
              (In-rows_where (with_error i) s db.shards m (HasError-with_error i s e))),
      )
]
