-- ===== src/Control/Timeout/Strikes.antt =====
-- A heartbeat timer that fires, with HandleAgentTimeout as the callback of agent_service.
use r_orchestrator.Prelude.{
  ℕ, ◌+◌, ◌*◌, ◌<◌, ltb, ◌≡◌, refl, ap, some_inj, ◌∙◌, String, true, false, Option, none, some,
  if◌then◌else◌, at_key, with_key, without_key, at_key-stored, ◌⊎◌, arith,
}
use r_orchestrator.World.{
  AgentStatus, idle, running, unresponsive, timed_out, Agent, heartbeat, World, Outside,
}
use r_orchestrator.Action.{ok, pure, when◌then◌else◌, ◌>>=◌, elsewhere}
use r_orchestrator.Action.Quiet.{bind-ok, attempt-eq}
use r_orchestrator.AgentService.{
  heartbeat_timed_out, get_agent, put_agent, reset_heartbeat, cancel_timer, is_stale, invoke,
  mark_unresponsive, heartbeat_missed, on_heartbeat_timeout,
}
use r_orchestrator.Control.Timeout.{
  rollback_current, mark_timed_out, timed_out_agent, handle_agent_timeout,
}

recent :
    (beat : Option ℕ) (last t timeout : ℕ)
    → beat ≡ some last
    → t < last * 1000000000 + timeout
    → is_stale beat t timeout ≡ true
recent none last t timeout e h = cc
recent (some at) last t timeout e h =
    ap (λ x. ltb t (x * 1000000000 + timeout)) (some_inj _ _ e) ∙ before t _ h
  where
    before : (a b : ℕ) → a < b → ltb a b ≡ true
    before a b h = ground arith

module _ (o : Outside) (id : String) where
  pub get_agent-eq :
      (w : World) (a : Agent) → at_key id w.agents ≡ some a → get_agent id o w ≡ (ok a, w)
  unfolding get_agent ◌>>=◌
  get_agent-eq w a e = rw e

  rollback_none :
      (w : World) (a : Agent) (x : Option String)
      → x ≡ none
      → rollback_current id a x o w ≡ (ok tt, w)
  unfolding rollback_current pure
  rollback_none w a none e = refl
  rollback_none w a (some text) e = cc

  -- The callback finds no current shard, and does nothing.
  callback_idle :
      (w : World) (a : Agent)
      → at_key id w.agents ≡ some a
      → a.current_shard_id ≡ none
      → handle_agent_timeout id heartbeat_timed_out o w ≡ (ok tt, w)
  unfolding handle_agent_timeout timed_out_agent mark_timed_out pure
  callback_idle w a e c =
      bind-ok _ _ (attempt-eq _ (get_agent-eq w a e)) ∙ bind-ok _ _ (rollback_none w a _ c)

  module _ (w : World) (a : Agent) (registered : at_key id w.agents ≡ some a) where
    -- The world when the timer has fired and its entry is gone.
    abbrev fired : World
    fired = record w { timers = without_key id w.timers }

    -- Up to the test for a stale callback.
    to_switch :
        on_heartbeat_timeout (some handle_agent_timeout) id o w
        ≡ (when is_stale a.last_heartbeat_at w.clock w.heartbeat_timeout
              then reset_heartbeat id
              else heartbeat_missed (some handle_agent_timeout) a.status id a)
            o fired
    unfolding on_heartbeat_timeout cancel_timer elsewhere ◌>>=◌
    to_switch = rw registered

    -- A timer callback for an agent whose last heartbeat, in whole seconds, lies less than the
    -- heartbeat timeout back arms a new timer for a full timeout, and changes nothing else.
    pub stale_timer_rearms :
        (last : ℕ)
        → a.last_heartbeat_at ≡ some last
        → w.clock < last * 1000000000 + w.heartbeat_timeout
        → on_heartbeat_timeout (some handle_agent_timeout) id o w ≡ (
          ok tt,
          record w {
            timers =
                with_key id
                  (record { kind = heartbeat; due = w.clock + w.heartbeat_timeout })
                  (without_key id w.timers);
          },
        )
    unfolding when◌then◌else◌ reset_heartbeat elsewhere
    stale_timer_rearms last e h =
        to_switch ∙ rw (recent a.last_heartbeat_at last w.clock w.heartbeat_timeout e h)

    module _ (silent : is_stale a.last_heartbeat_at w.clock w.heartbeat_timeout ≡ false) where
      -- The first missed heartbeat of an IDLE or RUNNING agent makes it UNRESPONSIVE, keeps its
      -- shard, and arms a timer for one more timeout; no statement is sent to the database.
      pub first_strike :
          (a.status ≡ idle) ⊎ (a.status ≡ running)
          → on_heartbeat_timeout (some handle_agent_timeout) id o w ≡ (
            ok tt,
            record w {
              agents = with_key id (record a { status = unresponsive }) w.agents;
              timers =
                  with_key id
                    (record { kind = heartbeat; due = w.clock + w.heartbeat_timeout })
                    (without_key id w.timers);
            },
          )
      unfolding when◌then◌else◌ mark_unresponsive heartbeat_missed reset_heartbeat put_agent
      first_strike h = to_switch ∙ rw silent (missed a.status h)
        where
          missed :
              (s : AgentStatus)
              → (s ≡ idle) ⊎ (s ≡ running)
              → heartbeat_missed (some handle_agent_timeout) s id a o fired ≡ (
                ok tt,
                record w {
                  agents = with_key id (record a { status = unresponsive }) w.agents;
                  timers =
                      with_key id
                        (record { kind = heartbeat; due = w.clock + w.heartbeat_timeout })
                        (without_key id w.timers);
                },
              )
          missed idle h = unfold ◌>>=◌ elsewhere in refl
          missed running h = unfold ◌>>=◌ elsewhere in refl
          missed _ h = ground arith

      -- The second missed heartbeat makes an UNRESPONSIVE agent TIMED_OUT and forgets its shard
      -- before HandleAgentTimeout reads it: whatever the shard, no statement is sent to the
      -- database, so the shard is not rolled back.
      pub second_strike :
          a.status ≡ unresponsive
          → on_heartbeat_timeout (some handle_agent_timeout) id o w ≡ (
            ok tt,
            record w {
              agents =
                  with_key id (record a { status = timed_out; current_shard_id = none }) w.agents;
              timers = without_key id w.timers;
            },
          )
      unfolding when◌then◌else◌ heartbeat_missed put_agent invoke elsewhere
      second_strike h = to_switch ∙ rw silent (missed a.status h)
        where
          missed :
              (s : AgentStatus)
              → s ≡ unresponsive
              → heartbeat_missed (some handle_agent_timeout) s id a o fired ≡ (
                ok tt,
                record w {
                  agents =
                      with_key id
                        (record a { status = timed_out; current_shard_id = none })
                        w.agents;
                  timers = without_key id w.timers;
                },
              )
          missed unresponsive h =
              bind-ok _ _ refl
              ∙ callback_idle _ (record a { status = timed_out; current_shard_id = none })
                  (at_key-stored id _ w.agents) refl
          missed _ h = ground arith
