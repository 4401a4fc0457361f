-- ===== src/TaskService/Poll/Effect.antt =====
-- What a tick of PollPendingTasks may change.
use r_orchestrator.Prelude.{ℕ, ◌≡◌, sym, subst, String, some}
use r_orchestrator.World.{Db, World, Outside}
use r_orchestrator.Backend.{Provider, get}
use r_orchestrator.TaskService.Poll.{Poller, poll_pending_tasks}
use r_orchestrator.TaskService.Poll.Edge.{Polls, Polls-Preorder, Polls-Polling}
use r_orchestrator.TaskService.Poll.Flow.{LeavesDb, poll-keeps}

-- Over any failures of statements, with no other writer and providers that leave tasks, shards and
-- tenants to the same relation, a tick of PollPendingTasks leaves tenants and shards alone, leaves
-- every task that is not PENDING as it is, and changes of a PENDING task the status, to PENDING,
-- FAILED or WAITING_FOR_AGENTS, and the error text only.
pub poll-Polls :
    (p : Poller)
    → ((name : String) (provider : Provider)
        → get p.registry name ≡ some provider
        → LeavesDb Polls provider)
    → (o : Outside) (alone : (n : ℕ) (db : Db) → o.others n db ≡ db) (w : World)
    → Polls w.db (poll_pending_tasks p o w).1.db
poll-Polls p leave o alone w =
    (poll-keeps Polls-Polling p leave).at o
      (λ n db. subst (Polls db) (sym (alone n db)) (Polls-Preorder.reflexive db)) w
