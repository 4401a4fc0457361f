-- ===== src/Control/Timeout/Grace.antt =====
-- The end of a grace period: onGraceExpired with HandleAgentTimeout as the callback, when no
-- statement fails and nobody else writes.
use r_orchestrator.Prelude.{
  ℕ, suc, ◌/◌, ◌≡◌, ◌≢◌, refl, ap, ◌∙◌, String, Bool, true, false, ◌&&◌, none, some, ◌==◌,
  row_where, row_where-In, update_where, count_where-In, not_zero, and_true, at_key, with_key,
  without_key, same_text,
}
use r_orchestrator.Model.{TaskStatus, ShardStatus, TaskShard, same_task_status, shard_in}
use r_orchestrator.World.{disconnected, timed_out, Agent, Db, World, Outside}
use r_orchestrator.Action.{ok, gets, maybe, when◌then◌else◌, ◌>>=◌, elsewhere, attempt}
use r_orchestrator.Action.Quiet.{
  IsQuiet, Ends, Ends-bind, Ends-pure, Ends-else, Ends-transaction, Ends-attempt, bind-ok,
  attempt-eq,
}
use r_orchestrator.Orm.Shards
use r_orchestrator.Orm.Quiet.{found, touched, first_task-quiet, update_shards-quiet}
use r_orchestrator.AgentService.{
  second, grace_expired, put_agent, heartbeat_agent, cancel_timer, invoke, on_grace_expired,
}
use r_orchestrator.Control.Timeout.Strikes.{get_agent-eq}
use r_orchestrator.TaskService.Validate.Owner.{MayReport}
use r_orchestrator.TaskService.Validate.Accepts.{load-accepts}
use r_orchestrator.TaskService.Rollback.{rollback_timed_out_shard}
use r_orchestrator.Control.Timeout.{
  rollback_current, mark_timed_out, timed_out_agent, handle_agent_timeout,
}

-- A shard that somebody works on goes back to the queue.
abbrev pub is_active_row : ℕ → TaskShard → Bool
is_active_row i s = s.id == i && shard_in s.status Shards.active_shard_statuses

abbrev pub taken_back : ℕ → ℕ → Db → Db
taken_back i t db = record db {
  shards =
      update_where (is_active_row i)
        (touched t (λ s. record s { status = ShardStatus.queued; assigned_agent_id = none }))
        db.shards;
}

-- The shard is a row that the agent may report about, LEASED or RUNNING, and its task is past
-- WAITING_FOR_AGENTS.
pub record HoldsShard (db : Db) (i : ℕ) (agent_id : String) (a : Agent) (s : TaskShard)
    : Type 0 where
  pub named : ◌≢◌ {A = ℕ} 0 i
  pub row : row_where (λ x. x.id == i) db.shards ≡ some s
  pub may : MayReport db i agent_id a.tenant_id a.backend_name s
  pub active : shard_in s.status Shards.active_shard_statuses ≡ true
  pub past_waiting : same_task_status may.task.status TaskStatus.waiting_for_agents ≡ false

module _ {o : Outside} (q : IsQuiet o) (w : World) (i : ℕ) (agent_id : String) (a : Agent)
    (s : TaskShard) (holds : HoldsShard w.db i agent_id a s) where
  rollback-Ends :
      Ends
        (rollback_timed_out_shard i agent_id a.tenant_id a.backend_name)
        o
        w
        (ok tt)
        (taken_back i w.clock w.db)
  unfolding rollback_timed_out_shard Shards.rollback_shard_with_task Shards.rollback_to_queued
      Shards.transition_status
  rollback-Ends =
      let (there, same) = row_where-In (λ x. x.id == i) s w.db.shards holds.row in
      Ends-bind _ _
        (load-accepts q w i agent_id a.tenant_id a.backend_name s holds.named holds.row holds.may)
        λ n.
          Ends-bind _ _
            (
              suc n,
              first_task-quiet q _ _
                  ∙ ap (λ x. (found x, record w { stmt = suc n })) holds.may.task_found,
            )
            λ n. Ends-transaction _ (
              Ends-bind _ _
                (Ends-bind _ _ (suc n, update_shards-quiet q _ _ _)
                  λ n.
                    Ends-else _ _ _
                      (not_zero _ (
                        count_where-In (is_active_row i) s w.db.shards there
                          (and_true _ _ same holds.active)))
                      (Ends-pure _ _ _))
                λ n. Ends-else _ _ _ holds.past_waiting (Ends-pure _ _ _))

module _ {o : Outside} (q : IsQuiet o) (w : World) (i : ℕ) (agent_id : String) (a : Agent)
    (s : TaskShard) (text : String) (written : same_text text "" ≡ false)
    (parsed : o.parse_uuid text ≡ some i) where
  rollback_current-Ends :
      HoldsShard w.db i agent_id a s
      → Ends (rollback_current agent_id a (some text)) o w (ok tt) (taken_back i w.clock w.db)
  unfolding rollback_current maybe gets
  rollback_current-Ends holds = Ends-else _ _ _ written (
      Ends-bind _ _ (w.stmt, ap (λ x. (ok x, w)) parsed)
        λ n.
          Ends-bind _ _ (Ends-attempt _ (rollback-Ends q _ i agent_id a s holds))
            (λ n. Ends-pure _ _ _))

heartbeat-eq :
    (o : Outside) (w : World) (id : String) (a : Agent)
    → at_key id w.agents ≡ some a
    → mark_timed_out id grace_expired o w ≡ (
      ok tt,
      record w {
        agents =
            with_key id
              (record a {
                status = timed_out;
                current_shard_id = none;
                last_heartbeat_at = some (w.clock / second);
              })
              w.agents;
      },
    )
unfolding mark_timed_out heartbeat_agent attempt put_agent elsewhere ◌>>=◌
heartbeat-eq o w id a known = rw known refl

module _ {o : Outside} (q : IsQuiet o) (w : World) (i : ℕ) (agent_id : String) (a : Agent)
    (s : TaskShard) (text : String) (written : same_text text "" ≡ false)
    (parsed : o.parse_uuid text ≡ some i) (known : at_key agent_id w.agents ≡ some a)
    (held : a.current_shard_id ≡ some text) (holds : HoldsShard w.db i agent_id a s) where
  timed_out_grace :
      (n : ℕ) × (handle_agent_timeout agent_id grace_expired o w ≡ (
        ok tt,
        record w {
          stmt = n;
          db = taken_back i w.clock w.db;
          agents =
              with_key agent_id
                (record a {
                  status = timed_out;
                  current_shard_id = none;
                  last_heartbeat_at = some (w.clock / second);
                })
                w.agents;
        },
      ))
  unfolding handle_agent_timeout timed_out_agent
  timed_out_grace =
      let (n, e) = rollback_current-Ends q w i agent_id a s text written parsed holds in
      (
        n,
        bind-ok _ _ (attempt-eq _ (get_agent-eq o agent_id w a known))
            ∙ bind-ok _ _ (ap (λ x. rollback_current agent_id a x o w) held ∙ e)
            ∙ heartbeat-eq o _ agent_id a known,
      )

module _ {o : Outside} (q : IsQuiet o) (w : World) (i : ℕ) (agent_id : String) (a : Agent)
    (s : TaskShard) (text : String) (written : same_text text "" ≡ false)
    (parsed : o.parse_uuid text ≡ some i) (known : at_key agent_id w.agents ≡ some a)
    (held : a.current_shard_id ≡ some text) (holds : HoldsShard w.db i agent_id a s) where
  -- With no failing statement and no other writer, the end of the grace period of a DISCONNECTED
  -- agent that holds a LEASED or RUNNING shard it may report about, whose task is not
  -- WAITING_FOR_AGENTS, puts the shard back to QUEUED with no agent, and makes the agent TIMED_OUT
  -- with no shard.
  pub grace-rollback :
      a.status ≡ disconnected
      → (n : ℕ) × (on_grace_expired (some handle_agent_timeout) agent_id o w ≡ (
        ok tt,
        record w {
          stmt = n;
          db = taken_back i w.clock w.db;
          agents =
              with_key agent_id
                (record a {
                  status = timed_out;
                  current_shard_id = none;
                  last_heartbeat_at = some (w.clock / second);
                })
                w.agents;
          timers = without_key agent_id w.timers;
        },
      ))
  unfolding on_grace_expired cancel_timer elsewhere ◌>>=◌ maybe when◌then◌else◌ invoke
  grace-rollback gone =
      let (n, e) =
        timed_out_grace q (record w { timers = without_key agent_id w.timers }) i agent_id a s text
          written parsed known held holds in
      (n, rw known (rw gone e))
