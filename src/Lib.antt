-- ===== src/Lib.antt =====
-- A model of the core of orc-state, which gives coding tasks to agents and follows their runs, and the
-- theorems that make it correct.
--
-- A task stands in the project's task store (lib/projectTaskStore.ts). The coordinator asks the
-- scheduler (lib/taskScheduler.ts) for the next task of an agent, which asks the routing rules
-- (lib/taskRouting.ts) whether the agent may execute it, and the planner (lib/dispatchPlanner.ts) turns
-- the answers into assignments. Claiming a task records a transition in the store and binds a run to
-- a revision of its text; the claim itself, one row for each run, stands with the event log in
-- events.db (lib/runStore.ts, lib/eventLog.ts) and is changed by lib/claimStateManager.ts and
-- lib/claimManager.ts. Workers report by events; the coordinator reads them from its offset
-- (lib/eventOffsets.ts), and lib/workerLifecycleReducer.ts says what each event does to the claim.
-- An idle run is measured by lib/runActivity.ts and treated by lib/remediationPolicies.ts.
--
-- Files:
--   Base       tests, lists, optional values, results, instants, shared by all
--   Model      types/claims.ts, types/backlog.ts, types/agents.ts
--   Contract   lib/projectContract.ts: legal changes of status, readiness
--   Selection  selectProject of lib/projectContract.ts
--   Store      lib/projectTaskStore.ts: Schema has the tables and the table of legal transitions,
--              Transition applyTransition with its triggers, Binding the runs and claimTask,
--              Plans the plan documents; the other children have theorems
--   Routing    lib/taskRouting.ts
--   Scheduler  lib/taskScheduler.ts
--   Dispatch   lib/dispatchPlanner.ts
--   Runs       commitClaims of lib/runStore.ts and appendSequencedEvent of lib/eventLog.ts
--   Claims     lib/claimStateManager.ts, and heartbeat and renewLeaseOnly of lib/claimManager.ts
--   Backoff    requeueBackoffMs of lib/claimLeaseManager.ts
--   Lifecycle  lib/workerLifecycleReducer.ts
--   Offsets    lib/eventOffsets.ts
--   Checkpoint lib/eventCheckpoint.ts
--   Activity   lib/runActivity.ts
--   Remediation  lib/remediationPolicies.ts
--   Session    the claims' part of the reset in lib/sessionState.ts
--   Delivery   lib/commandDelivery.ts: Schema, Queue, Sending, Acks, Reconcile and Dispatcher have
--              the code, Phases the abstract life of a command; the other children have theorems
--   Projects   lib/projectTasks.ts: the backlog that is read from the store, in Reading, and commitBacklog
--   Manager    claimTask, startRun and finishRun of lib/claimManager.ts, and in Expiry the expiry
--              of leases in lib/claimLeaseManager.ts; in Restore restoreBacklogStatuses of lib/projectTasks.ts
--   Examples   the theorems at concrete inputs
--
-- A function of the source keeps its name in snake case (claimTask is claim_task); heartbeat of
-- lib/claimManager.ts is heartbeat_run. A table is the list of its rows, an operation on a database
-- takes the database and returns the new one, and what the source throws is a constructor of a fault
-- type; a fault leaves the database of the caller, as the rolled back transaction does. A text of a
-- closed set is a constructor, as are the reasons and the messages that the source writes as texts. A
-- timestamp is an instant in milliseconds or a text that Date does not read. The clock is an argument.
-- Loops run over lists, without fuel, but for the loop of a tick (Delivery.Dispatcher), which may meet
-- a command again, and during whose awaits other operations run: Delivery.Ending shows which fuel is
-- enough. A transaction that deletes runs or sessions changes commands by their foreign keys
-- (lib/runtimeSchema.ts), and the id of a new command is one that randomUUID has not given before.
--
-- The validator of events is a parameter, named valid: it stands for the JSON schemas checked by ajv,
-- together with the rules of lib/eventValidation.ts. The text of a legacy event id in the import of a
-- checkpoint, the reading of a revision's metadata (JSON), the texts of faults, and the hash of a
-- plan's body (SHA-256) are parameters too.
--
-- Not modelled: lock files, writing of JSON projections, processes, terminals and sockets, the
-- metadata JSON of a task revision, the creation and revision of tasks, migrations of old databases,
-- and the loop of the coordinator. Instants before 1970 and after the range of Date are left out.
pub mod Base
pub mod Model
pub mod Contract
pub mod Selection
pub mod Store
pub mod Routing
pub mod Scheduler
pub mod Dispatch
pub mod Runs
pub mod Claims
pub mod Backoff
pub mod Lifecycle
pub mod Offsets
pub mod Checkpoint
pub mod Activity
pub mod Remediation
pub mod Session
pub mod Delivery
pub mod Projects
pub mod Manager
pub mod Examples
