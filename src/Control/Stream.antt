-- ===== src/Control/Stream.antt =====
-- agent.go and notify_cancel_shard.go: a session, and sending on its stream.
use r_orchestrator.Prelude.{ℕ, suc, String, ◌∷◌, if◌then◌else◌, at_key, without_key}
use r_orchestrator.World.{ServerMessage, cancel_shard, World}
use r_orchestrator.Action.{
  returned, maybe, when◌then◌else◌, Result, ok, err, Action, unavailable, deadline_exceeded, pure,
  raise, gets, ◌>>=◌, ◌>>◌, attempt, elsewhere,
}

-- agentSession: the stream is named by a number.
pub record AgentSession : Type 0 where
  pub stream : ℕ
  pub agent_id : String
  pub tenant_id : ℕ
  pub backend : String

abbrev pub put_on_stream : ℕ → ServerMessage → World → World
put_on_stream stream message w = record w { sends = suc w.sends; sent = (stream, message) ∷ w.sent }

abbrev pub failed_send : World → World
failed_send w = record w { sends = suc w.sends }

-- agentStream.Send.
unfoldable pub send : ℕ → ServerMessage → Action Unit
send stream message = do
  fails ← gets (λ o w. o.send_fails w.sends)
  when fails
      then (do elsewhere failed_send tt; raise unavailable)
      else elsewhere (put_on_stream stream message) tt

-- agentStream.SendWithContext: at the deadline the send goes on by itself.
unfoldable pub send_with_context : ℕ → ServerMessage → Action Unit
send_with_context stream message = do
  gives_up ← gets (λ o w. o.send_times_out w.sends)
  done ← attempt (send stream message)
  when gives_up then raise deadline_exceeded else returned done

abbrev pub close_stream : String → Action Unit
close_stream agent_id = elsewhere (λ w. record w { streams = without_key agent_id w.streams }) tt

-- The error branch of NotifyCancelShard: a stream that failed, not one that is late, is dropped.
unfoldable pub after_notify : String → Result (Unit {0}) → Action Unit
after_notify agent_id (ok _) = pure tt
after_notify agent_id (err deadline_exceeded) = raise deadline_exceeded
after_notify agent_id (err e) = do close_stream agent_id; raise e

-- NotifyCancelShard.
unfoldable pub notify_cancel_shard : String → ℕ → Action Unit
notify_cancel_shard agent_id shard_id = do
  stream ← gets (λ o w. at_key agent_id w.streams)
  text ← gets (λ o w. o.show_uuid shard_id)
  maybe stream (pure tt) (λ s. (do
    done ← attempt (send_with_context s (cancel_shard text))
    after_notify agent_id done))
