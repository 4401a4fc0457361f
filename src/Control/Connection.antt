-- ===== src/Control/Connection.antt =====
-- server.go: OpenControlStream. What the stream yields is a list, and its end is the agent's EOF.
use r_orchestrator.Prelude.{ℕ, String, not, List, [], ◌∷◌, if◌then◌else◌, with_key, same_text}
use r_orchestrator.Action.{
  returned, maybe, when◌then◌else◌, Result, ok, err, Action, identity_conflict, unavailable, grpc,
  invalid_argument, internal, permission_denied, unauthenticated, pure, raise, gets, ◌>>=◌, ◌>>◌,
  attempt, elsewhere,
}
use r_orchestrator.AgentService.{
  register_agent, get_agent, cancel_timer, reset_heartbeat, begin_grace, disconnect_agent,
}
use r_orchestrator.Control.Stream.{AgentSession, close_stream}
use r_orchestrator.Control.Assign.{as_internal}
use r_orchestrator.Control.Handlers.{
  handle_heartbeat, handle_shard_started, handle_shard_result_ready, handle_shard_failed,
  handle_reconnected_agent,
}

-- The payloads of controlv1.AgentMessage; `unset` has none that the server knows.
pub data AgentMessage : Type 0 where
  register : (agent_id tenant_id backend_name token : String) → AgentMessage
  heartbeat : (agent_id status current_shard_id : String) → AgentMessage
  shard_accepted : (shard_id : String) → AgentMessage
  shard_started : (shard_id : String) → AgentMessage
  shard_result_ready : (shard_id output_oss_key sha256 : String) → AgentMessage
  shard_failed : (shard_id error_message : String) → AgentMessage
  unset : AgentMessage

-- What Recv returns, or the stream's context having ended before it.
pub data Received : Type 0 where
  message : AgentMessage → Received
  eof recv_failed context_done : Received

-- The body of the receive loop for one message.
unfoldable pub handle_message : AgentSession → AgentMessage → Action Unit
handle_message sess (heartbeat agent_id status current) =
    handle_heartbeat sess agent_id status current
handle_message sess (shard_accepted shard_id) = pure tt
handle_message sess (shard_started shard_id) = handle_shard_started sess shard_id
handle_message sess (shard_result_ready shard_id key sha) =
    handle_shard_result_ready sess shard_id key sha
handle_message sess (shard_failed shard_id text) = handle_shard_failed sess shard_id text
handle_message sess (register agent_id tenant_id backend token) = raise (grpc invalid_argument)
handle_message sess unset = raise (grpc invalid_argument)

-- The receive loop.
unfoldable pub receive_loop : AgentSession → List Received → Action Unit
receive_loop sess [] = pure tt
receive_loop sess (eof ∷ rest) = pure tt
receive_loop sess (recv_failed ∷ rest) = raise (grpc internal)
receive_loop sess (context_done ∷ rest) = raise unavailable
receive_loop sess (message m ∷ rest) = do handle_message sess m; receive_loop sess rest

-- The error of a refused registration.
unfoldable pub registration : Result (Unit {0}) → Action Unit
registration (ok _) = pure tt
registration (err identity_conflict) = raise (grpc permission_denied)
registration (err e) = raise (grpc internal)

-- The deferred function.
unfoldable pub disconnected : String → Action Unit
disconnected agent_id = do close_stream agent_id; begin_grace agent_id; disconnect_agent agent_id

unfoldable pub serve_session : AgentSession → List Received → Action Unit
serve_session sess rest = do
  found ← attempt (get_agent sess.agent_id)
  agent ← as_internal found
  handle_reconnected_agent sess agent
  receive_loop sess rest

-- From the registration on.
unfoldable pub run_session : AgentSession → List Received → Action Unit
run_session sess rest = do
  registered ← attempt (register_agent sess.agent_id sess.tenant_id sess.backend)
  registration registered
  cancel_timer sess.agent_id
  reset_heartbeat sess.agent_id
  elsewhere (λ w. record w { streams = with_key sess.agent_id sess.stream w.streams }) tt
  result ← attempt (serve_session sess rest)
  disconnected sess.agent_id
  returned result

-- The checks of the first message.
unfoldable pub open_registered :
    String → ℕ → (agent_id tenant_id backend_name token : String) → List Received → Action Unit
open_registered expected_token stream agent_id tenant_text backend_name token rest =
    when same_text agent_id "" then raise (grpc invalid_argument) else do
      parsed ← gets (λ o w. o.parse_uuid tenant_text)
      maybe parsed (raise (grpc invalid_argument)) (λ tenant_id.
          when not (same_text token expected_token)
          then raise (grpc unauthenticated)
          else run_session
              (record {
                stream = stream;
                agent_id = agent_id;
                tenant_id = tenant_id;
                backend = backend_name;
              })
              rest)

-- OpenControlStream.
unfoldable pub open_control_stream : String → ℕ → List Received → Action Unit
open_control_stream expected_token stream (message (register a t b k) ∷ rest) =
    open_registered expected_token stream a t b k rest
open_control_stream expected_token stream (recv_failed ∷ rest) = raise (grpc internal)
open_control_stream expected_token stream (context_done ∷ rest) = raise (grpc internal)
open_control_stream expected_token stream _ = raise (grpc invalid_argument)
