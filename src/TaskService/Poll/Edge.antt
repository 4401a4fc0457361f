-- ===== src/TaskService/Poll/Edge.antt =====
-- The relation between the database before and after a tick of PollPendingTasks.
use r_orchestrator.Prelude.{
  ℕ, ◌≡◌, refl, ◌∙◌, ap, String, Bool, true, false, List, [], ◌∷◌, arith, ◌&&◌, ◌==◌, Bool-cases,
  inl, inr, one_of,
}
use r_orchestrator.Model.{
  TaskStatus, Task, Cluster, same_task_status, task_in, pending, waiting_for_agents, failed,
}
use r_orchestrator.World.{Db}
use r_orchestrator.Action.Evolves.{Grows, Grows-refl, Grows-trans, Grows-update_where, Preorder}
use r_orchestrator.Action.Guarantee.{Guarantees, Guarantees-statement, Guarantees-bind}
use r_orchestrator.Orm.{update_tasks}
use r_orchestrator.Orm.Reads.{reading_rules}
use r_orchestrator.Orm.Tasks.{mark_tasks_status}
use r_orchestrator.TaskService.Poll.Steps.{Polling}

abbrev pub polled_statuses : List TaskStatus
polled_statuses = pending ∷ failed ∷ waiting_for_agents ∷ []

-- A row that is not PENDING stays; a PENDING one gets a status and a text.
pub record PollEdge (s t : Task) : Type 0 where
  pub rest : t ≡ record s { status = t.status; last_error = t.last_error }
  pub closed : same_task_status s.status pending ≡ false → t ≡ s
  pub opened : same_task_status s.status pending ≡ true → task_in t.status polled_statuses ≡ true

pub record Polls (c d : Db) : Type 0 where
  pub tenants : d.tenants ≡ c.tenants
  pub shards : d.shards ≡ c.shards
  pub tasks : Grows PollEdge c.tasks d.tasks

is_pending : (s : TaskStatus) → same_task_status s pending ≡ true → task_in s polled_statuses ≡ true
is_pending s h = ground arith

PollEdge-refl : (s : Task) → PollEdge s s
PollEdge-refl s = record { rest = refl; closed = λ h. refl; opened = is_pending s.status }

PollEdge-trans : (s t u : Task) → PollEdge s t → PollEdge t u → PollEdge s u
PollEdge-trans s t u p q = record {
  rest =
      q.rest
      ∙ ap {A = Task} (λ x. record x { status = u.status; last_error = u.last_error }) p.rest;
  closed =
      λ h. q.closed (ap (λ x. same_task_status x.status pending) (p.closed h) ∙ h) ∙ p.closed h;
  opened = λ h. elim (Bool-cases (same_task_status t.status pending)) [
    | inl e ↦ q.opened e
    | inr e ↦ ap (λ x. task_in x.status polled_statuses) (q.closed e) ∙ p.opened h
  ];
}

pub Polls-Preorder : Preorder Polls
Polls-Preorder = record {
  reflexive = λ c. record {
    tenants = refl;
    shards = refl;
    tasks = Grows-refl PollEdge PollEdge-refl c.tasks;
  };
  transitive = λ b c d p q. record {
    tenants = q.tenants ∙ p.tenants;
    shards = q.shards ∙ p.shards;
    tasks = Grows-trans PollEdge PollEdge-trans b.tasks c.tasks d.tasks p.tasks q.tasks;
  };
}

marked :
    (status : TaskStatus) (text : String)
    → task_in status polled_statuses ≡ true
    → (ids : List ℕ) (t : Task)
    → (one_of (λ a b. a == b) t.id ids && same_task_status t.status pending) ≡ true
    → PollEdge t (record t { status = status; last_error = text })
marked status text h ids t e = record {
  rest = refl;
  closed = λ f. absurd (apart _ _ e f);
  opened = λ f. h;
}
  where
    apart : (a b : Bool) → (a && b) ≡ true → b ≡ false → ⊥
    apart a b p q = ground arith

pub mark_tasks_status-Polls :
    (ids : List ℕ) (status : TaskStatus) (text : String)
    → task_in status polled_statuses ≡ true
    → Guarantees Polls (mark_tasks_status ids status text)
unfolding mark_tasks_status update_tasks
mark_tasks_status-Polls [] status text h = search (reading_rules, Polls-Preorder)
mark_tasks_status-Polls (i ∷ is) status text h =
    Guarantees-bind Polls-Preorder _ _
      (Guarantees-statement Polls-Preorder _ λ o w db. record {
        tenants = refl;
        shards = refl;
        tasks =
            Grows-update_where PollEdge PollEdge-refl _ _ (marked status text h (i ∷ is)) db.tasks;
      })
      (λ _. search (reading_rules, Polls-Preorder))

clusters_only : (c : Db) (xs : List Cluster) → Polls c (record c { clusters = xs })
clusters_only c xs = record {
  tenants = refl;
  shards = refl;
  tasks = Grows-refl PollEdge PollEdge-refl c.tasks;
}

pub Polls-Polling : Polling Polls
Polls-Polling = record {
  preorder = Polls-Preorder;
  marks = mark_tasks_status-Polls;
  clusters = clusters_only;
}
