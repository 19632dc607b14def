-- ===== src/Lib.antt =====
-- Verification of xg-canvas: the task lifecycle, the canvas graph, permissions, login methods and
-- model parameters.
--
-- A task row (canvas.tasks) is created pending. The runner claims rows under a lease token, the
-- executor dispatches them to a vendor, the poller follows asynchronous vendor jobs, the recovery
-- settles attempts whose worker was lost, owners cancel and retry, and each terminal transition
-- writes the task, its source node and the ledger of vendor requests in one transaction.
--
-- A canvas is a graph of typed nodes. The edge service accepts an edge if the ports of its nodes fit
-- and it closes no cycle, the batch mutator applies many edits in one transaction, and a task writes
-- its result to the node that it was started from.
--
-- Parts and files (paths from the repository's root):
-- - Prelude: shared tests, options, lists, results and names.
-- - RequestLog: the ledger of vendor requests (apps/canvas-api/src/request-log/
--   request-log.service.ts, request-log.utils.ts, request-log.types.ts). `finalize_pending` is
--   finalizePending, `finalize_pending_without_external` finalizePendingWithoutExternal,
--   `update_pending` updatePending, and RequestLog/Queries holds the recovery queries. Record is
--   `record` with request-log-record.ts and the CHECK constraints of
--   database/migrations/ops/001_init_ops_schema.sql, Reconciler request-log-reconciler.service.ts;
--   a task id that no task has, as those of chat turns, is a number that the table lacks.
-- - Task/Status, Task/Row: the state machine (apps/canvas-api/src/task/state-machine.ts), the row
--   (apps/canvas-api/src/database/entities/task.entity.ts) and the CHECK constraints
--   (database/migrations/canvas/001_init_canvas_schema.sql).
-- - Task/Table: an UPDATE … WHERE … RETURNING over a table as a list of rows.
-- - Task/Claim, Task/Store: the statements of apps/canvas-api/src/task/task-execution.store.ts, each
--   as a condition (its WHERE), an assignment (its SET) and an operation.
-- - Task/Statement: all statements that set task rows as one data type, `run` for one of them, and
--   in its children what they keep.
-- - Task/World, Task/Projection: the tables and outgoing calls that the services share, and the
--   write-back to the source node (apps/canvas-api/src/database/task-node-terminal-projection.ts).
-- - Task/Terminal: succeed, fail and cancelByOwner (apps/canvas-api/src/task/
--   task-terminal.service.ts), with persistProduced and discardProduced of
--   apps/canvas-api/src/asset/asset.service.ts. A transaction that throws leaves the old world.
-- - Task/RetryPolicy, Task/Retry: decideRetry (apps/canvas-api/src/task/retry-policy.ts) and the
--   manual retry (apps/canvas-api/src/task/task-retry.service.ts).
-- - Task/Failure, Task/Recovery, Task/Executor, Task/Poller, Task/Runner: task-executor.service.ts,
--   task-invoke-recovery.service.ts (its periodic part in Task/Recovery/Orphans and Abandoned),
--   task-poller.service.ts and task-runner.service.ts of apps/canvas-api/src/task.
-- - Task/Invoke: `invoke` of apps/canvas-api/src/account/invoke/invoke.service.ts, which tries up to
--   four channels and credentials for one request of the executor.
-- - Task/Dispatch: the requests to the invoke service under interleavings of all statements.
-- - Canvas/Cycle, Canvas/Io, Canvas/Rules, Canvas/NodeSpec, Canvas/Validator: assertNoCycle and
--   validateEdge (apps/canvas-api/src/canvas/connection-validator.ts) with node-spec.ts beside it and
--   packages/shared-types/src/io-types.ts and connection-rules.ts. The search of assertNoCycle runs on
--   two more rounds of fuel than there are edges, which is enough: each edge is pushed once at most.
-- - Canvas/Board, Canvas/Nodes, Canvas/Edges, Canvas/Edit: the node and the edge service
--   (apps/canvas-api/src/canvas/node.service.ts, edge.service.ts) over the tables of a canvas.
-- - Canvas/Mutator: the batch mutator (apps/canvas-api/src/canvas/canvas-mutator.service.ts).
-- - Canvas/Replace, Canvas/Snapshots: update and replace (apps/canvas-api/src/canvas/
--   canvas.service.ts), create and restore (apps/canvas-api/src/canvas/snapshot.service.ts).
-- - Authz: permissions (apps/canvas-api/src/authz). Catalog is catalog.ts, Resolve authz.service.ts
--   with its cache in Redis, Bindings role-binding.service.ts and system-admin.controller.ts, Guard
--   permission.guard.ts and member.controller.ts, Bootstrap authz-bootstrap.service.ts. Runs has the
--   operations as one data type; Allowed describes the answer of `can` by the tables alone.
-- - Identity: login methods and merges (apps/canvas-api/src/identity). Methods is
--   identity-helpers.ts, Service identity.service.ts, Merge merge.service.ts; Runs has the
--   operations as one data type.
-- - Constraints: the parameter schemas of the models (packages/constraint-engine/src). Condition is
--   condition.ts, Engine engine.ts, Validate validate.ts, Schema the types of types.ts. Numbers and
--   the operators of the language are the record `Js` of Constraints/Values. InForce reads what holds
--   for a field off the schema and the constraints, without the states that the engine computes.
-- - Task/Samples, and the Tests modules: concrete rows and the theorems at them.
--
-- Conventions. Ids and timestamps (milliseconds) are natural numbers, JSON values are opaque
-- strings, and a table is a list of rows; a primary key is the hypothesis `Distinct`. Each database
-- statement and each transaction is one atomic step, as row locks and the transactions of PostgreSQL
-- make it; the interleavings are sequences of such steps. Random UUIDs, the clock, the vendor, the
-- cost service, the redaction of secrets, membership and permission services and the object store
-- are arguments. No definition but the cycle search runs on fuel.
--
-- A call of the authorization, the identity, the edge and the node services is one step too, though
-- it may be several statements: what two calls do that read before either writes is left out, and so
-- is a permission that is cached after the invalidation that a change of bindings made meanwhile.
--
-- A pattern of a parameter is one that RegExp accepts; validate.ts throws for any other.
--
-- Not modelled: log lines, timers and module hooks, transport and adapters, the listing and the
-- purge of ledger rows, the rows that `invoke` writes to the ledger, and the parts of the repository
-- outside the files above (user interface, vendor accounts, model catalog, sessions).
pub mod Authz
pub mod Canvas
pub mod Constraints
pub mod Identity
pub mod Prelude
pub mod RequestLog
pub mod Task
