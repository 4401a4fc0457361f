-- ===== src/Lib.antt =====
-- r-orchestrator: the server that hands the shards of R tasks to agents.
--
-- The server keeps tasks and their shards in PostgreSQL, and its agents, their timers and their
-- open gRPC streams in memory. An agent opens a control stream, registers, and is sent a shard
-- whenever it is idle (internal/control). A shard goes QUEUED, LEASED, RUNNING and then SUCCEEDED,
-- FAILED or CANCELLED (internal/orm/task_shard_orm). The task follows its shards, and a hook is
-- called when it ends (internal/service/task_service). Timers watch the agents' heartbeats
-- (internal/service/agent_service), and a scan looks for shards whose agent is gone.
--
-- Files, by what they model:
--   Prelude          shared names; Go maps as association lists, tables as lists of rows
--   Config           internal/config: config.go (LoadFromEnv); Start, load_env.go and logger.go;
--                    Decimal, Bounds, Variables
--   Auth             internal/auth/token.go (ValidateToken); Sound
--   Kubernetes       the Kubernetes objects and calls of cluster_service/backend/k8
--   Model            internal/model: Tenant, Task, TaskShard, Cluster and their statuses
--   World            the state of one server with its database, and the code outside (Outside)
--   Action           Go functions that return an error, SQL statements, db.Transaction; children:
--                    Evolves, how a database may change; Guarantee, rely and guarantee over all
--                    failures and commits of others; Atomic, actions that fail without a trace;
--                    Spends, how many statements are sent; Quiet, runs without failures and
--                    other writers; Success
--   Orm              internal/orm: Shards is task_shard_orm, Tasks task_orm, Tenants tenant_orm,
--                    Clusters cluster_orm; Kept, Reads and Quiet are about them
--   AgentService     internal/service/agent_service: Register, Heartbeat, Disconnect and the two
--                    timer callbacks onHeartbeatTimeout and onGraceExpired; Identity, Kept
--   TaskService      internal/service/task_service, a child for each file: Lease
--                    (LeaseNextShard), Report (ReportShardStatus), Recompute
--                    (RecomputeTaskStatus), Validate (LoadValidatedShard), Rollback
--                    (RollbackAssignedShard, RollbackOrphanShardsForAgent,
--                    RollbackTimedOutShard, CleanupOrphanShards), Cancel (CancelTask), Hook
--                    (dispatchCompletionHookAsync, recordCompletionHookResult), Queries
--                    (GetTask, ListTasks), Submit (SubmitTask), Poll (PollPendingTasks)
--   Control          internal/control: Stream (agent.go, notify_cancel_shard.go), Assign
--                    (TryAssignShard), Handlers (the messages), Connection (OpenControlStream),
--                    Timeout (HandleAgentTimeout)
--   Backend          cluster_service/backend: Provider, Registry; K8, the provider for Kubernetes,
--                    with Confirmed, Names and Reads about it
--   ClusterService   internal/service/cluster_service: billing.go, service.go, and one tick of
--                    RecycleClusters; Billing, Busy, Kept
--   System           the events of a server and runs of them; cmd/server wires the callbacks so
--   Graph            graph: the resolvers and their types; Kept, Positive
--   Server           cmd/server: main up to the start of its goroutines; Only, Ready
--   Examples         concrete data, and runs on it
--
-- A Go function is a function of the same name in snake case. A function that can fail or change
-- state is an Action: it takes the world to a world and a value or an error, and what it did
-- before an error stays done unless a transaction takes it back. An SQL statement sees what other
-- transactions have committed (`Outside.others`), may fail (`Outside.sql_fails`), and is atomic; a
-- failed transaction leaves the commits of others and takes back its own writes. Locks of rows
-- are not modelled, so more interleavings are allowed than PostgreSQL has. gorm, net/url, UUIDs,
-- the object store and the sends of gRPC are not in the repository: what they answer is in
-- Outside. Each agent_service function holds its mutex for all it does, and is one step.
--
-- An INSERT fails on a primary key or a unique index that is taken (`Orm.insert_new`; the index on
-- tenant_id in Orm/Clusters). The primary key of clusters is left out.
--
-- Numbers: a UUID is a natural number and uuid.Nil is 0; times and durations are natural numbers
-- of nanoseconds, LastHeartbeatAt of seconds; counts are not bounded by the width of int. The
-- 100 retries of LeaseNextShard are fuel of the source. All other loops are over lists.
--
-- An instant before 1970 counts as 1970. The numbers of seconds in the settings are the 64 bits of
-- an int. A text is a list of code points.
--
-- The API of Kubernetes answers by all calls that the server has made of it (`Outside.kube`).
-- utils.CopyObj, godotenv, json, time.ParseDuration and the client library of Kubernetes are
-- arguments of what calls them.
--
-- Not modelled: the generated code of GraphQL and protobuf; listeners, tickers, gin, signals and
-- the shutdown of the server; logging, metrics and contexts that are cancelled between two
-- statements; the agent, which is written in Rust.
pub mod Prelude
pub mod Config
pub mod Auth
pub mod Model
pub mod Kubernetes
pub mod World
pub mod Action
pub mod Orm
pub mod AgentService
pub mod TaskService
pub mod Control
pub mod System
pub mod Backend
pub mod ClusterService
pub mod Graph
pub mod Server
pub mod Examples
