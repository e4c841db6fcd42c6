-- ===== src/Lib.antt =====
-- The device worker runs on an edge device. It takes a configuration from its operator, evaluates the
-- device's profiles over the metrics it receives, and runs the workloads of the configuration, which
-- the profiles make active or inactive, in podman or Kubernetes. The scheduler keeps a job for each
-- workload, asks the executor for its state at each heartbeat, and starts a reconciliation where the
-- state is not the one wanted. The controller enrols and registers the device with the operator, and
-- then sends heartbeats and gets configurations, over a client of HTTP with the device's certificate.
--
-- Files, with the code that each is about:
--   Base/             lists, byte strings, maps and tests that the other files share
--   Interpreter/      internal/configuration/interpreter: Token.antt (token.go), Lexer.antt (lexer.go),
--                     Expr.antt (expr.go), Parser.antt (parser.go), Eval.antt (ast.go, value.go,
--                     interpreter.go). Lexer/Listed.antt has a scanner of lists as its specification,
--                     Parser/Grammar.antt the grammar as shapes of expressions.
--   Entity/           internal/entity: State.antt (state.go), Workload.antt (workload.go),
--                     Future.antt (future.go), Job.antt (job.go, with the hooks of `createJob`),
--                     Hardware.antt (hardware.go), Heartbeat.antt (heartbeat.go), Configuration.antt
--                     (configuration.go, heartbeat_configuration.go)
--   Profile/          internal/profile: Results.antt (the results in manager.go),
--                     Evaluator.antt (evaluator.go, and internal/entity/profile.go),
--                     Manager.antt (manager.go: the loop as a step relation),
--                     Server.antt (server.go: the handler as a step relation)
--   Configuration/    internal/configuration/manager.go: Configuration.antt (`createDeviceProfiles`),
--                     Manager.antt (`SetConfiguration`, `Heartbeat`)
--   Scheduler/        internal/scheduler: Store.antt (store.go), Util.antt (util.go), Create.antt
--                     (`createJob`), Visit.antt (the body of the loop of the execution branch of
--                     `run`), Loop.antt (that loop), Evaluate.antt (`evaluate`), Interfaces.antt
--                     (common/interfaces.go), Reconcile.antt (reconcile/reconciler.go), Receive.antt
--                     (the branch of `run` that receives workloads, and `GetWorkloadsStatus`), Run.antt (the
--                     loop of `run` as a step relation), Resources.antt (`getJobResources`),
--                     Resources/Reconcile.antt (reconcile/resources.go), Resources/Branch.antt (the branch of
--                     `run` that reconciles the resources)
--   Resources.antt    internal/resources/manager.go: `Set`, `GetResources` and `CreateSlice`;
--                     Resources/Search.antt `GetCGroup` as a step relation
--   Certificate.antt  internal/certificate/manager.go
--   Client/           internal/client/http: Request.antt (request.go), Http.antt (client.go, utils.go),
--                     Hardware.antt and Mapper.antt (mapper.go), Models.antt (the generated models, of
--                     which the fields that are used)
--   Edge/             internal/edge: Interface.antt (errors.go, and the interface of the client),
--                     Controller.antt (the state of the controller and its branches), Loop.antt (the loop
--                     of `run` as a step relation)
--   Executor.antt     internal/executor/executor.go
--   Executor/         Podman.antt (internal/executor/podman, and common/util.go) and
--                     Podman/Backend.antt (its executor as a backend), K8s.antt (internal/executor/k8s)
-- Below a file's name its folder has the proofs about it, and Tests.antt the runs at concrete inputs.
--
-- State is passed on: a method that mutates its receiver returns the new record. The jobs that the
-- scheduler shares by pointer are cells of a heap (Scheduler.Store), so that a slice and its backing
-- array are told apart. The executor's system outside is a type parameter whose state each call takes
-- and gives. A goroutine of a reconciliation is one function (Scheduler.Reconcile), its result a future
-- that a visit polls.
--
-- Panics of the parser and of the visitor are values. `float32`, the parsers of numerals and cron
-- specifications, the back-offs, SHA-256 and the clock are parameters. Numbers are naturals: offsets
-- and lengths do not reach the bound of Go's `int`, and the CPU quotas keep their 64 bits.
--
-- Fuel: the lexer's loops take one more than the length of the source, and each of their rounds moves
-- the offset. The parser's recursion takes two more than that length: each call of `expression` from
-- `primary` has read a token, which leaves less text.
--
-- Durations and other `int64` values are bit patterns of 64 bits, and the products of seconds wrap around.
--
-- Not modelled: HTTP, TLS, JSON and cryptography below the interfaces that the code calls, the
-- command line, and the logs. The search for a cgroup is modelled by itself; where resources are read
-- and set, its answer is a parameter. The backends call the podman bindings and the client of
-- Kubernetes, which are parameters. A backend that runs a workload with labels changes its
-- identifier, which Executor.Podman models; in a run of the scheduler's loop identifiers may change
-- between two steps, and are fixed within one, while the configuration that the manager keeps is not
-- changed through the maps that it shares. A map is a list of its pairs: what is proved of the
-- profiles of a message is so for every order in which the maps are ranged over, and elsewhere a map
-- has one order. A list of pointers from the operator has no nil in it. A message sent to a channel
-- of another component is put out in order, and the sender goes on once there is room; what is
-- blocked in the loops' own channels is modelled.
pub mod Base
pub mod Interpreter
pub mod Edge
pub mod Entity
pub mod Profile
pub mod Certificate
pub mod Client
pub mod Configuration
pub mod Executor
pub mod Resources
pub mod Scheduler
