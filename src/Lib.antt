-- ===== src/Lib.antt =====
-- GoalRouter: a command line program that splits an objective into work items, routes each to a
-- model, asks for approvals, and runs the items through the Codex client. This library models its
-- core, one module for each file of src/goalrouter/, in the order of their use:
--
--   Common      shared types, lists, strings, dictionaries, integers
--   Errors      errors.py: an exception is its class, with its exit code
--   Actions     code with effects on a state, which may raise
--   Domain      domain.py: records, enumerations, `to_dict` and `from_dict`
--   Config      config.py: the readers, `_validate_semantics`, the parsers, `load_router_config`;
--               Validity is the contract that its names have entries
--   Routing     routing.py: `TaskRouter`
--   Approvals   approvals.py: `ApprovalService`
--   Planner     planner.py: `StructuredPlanner.plan` and the checks of its response
--   Scheduler   scheduler.py: `WorkScheduler.run_ready`; Steps is an abstract scheduler, with its
--               steps as an indexed data type
--   Application application.py: the items it makes itself and `_adopt_current_configuration`; Ports,
--               Operations and Coordinator have the ports, the shared operations and the use cases
--               of `GoalRouterApplication`
--   Store       storage/json_store.py: `redact_json`; Disk, Files and Runs have the disk, the calls
--               of the operating system and `JsonRunStore`
--   Reporting   reporting.py: `_display_text` and, in Render, `ReportRenderer.render`
--   Repository  repository.py: the bounded reading of Git's output, the results of its commands and
--               the parsers of what it prints
--   RunIds      run_ids.py: `validate_run_id`
--   Locking     locking.py: the project lease and the run lease
--   Samples, Tests   a concrete platform, configuration and run, and the theorems applied to them
--
-- The planner turns an objective into items with the configuration; the router decides each item; the
-- scheduler runs the items that are ready and that the approval service lets through, and records the
-- results in the run state. The coordinator runs these under the run lease, with the store and the
-- report behind its ports. A definition has the name of the function it models, without a leading
-- underscore; a loop body or an `except` branch that needs a name of its own says so in its comment.
--
-- State and effects. The run state is a record, passed along. The scheduler's actions thread the state
-- and a log of effects, also when they raise; the outside world answers from the log (Scheduler/
-- Effects). The coordinator threads a log of the effects on its ports, one entry for each run of the
-- planner or the scheduler (Application/Ports), and the store a disk with the calls so far, each with
-- the disk after it (Store/Disk), so that a theorem can speak of every disk at which a process may
-- stop. Both are instances of one kind of action (Actions). The leases thread the set of open
-- descriptors, the set of locks and the calls so far, from which each call of the operating system is
-- answered (Locking). The planner returns its result with the calls it made. Exceptions are `Result`
-- values.
--
-- Parameters: `float`, `datetime`, `casefold`, `strip`, `repr`, `fnmatchcase` (Domain/Platform), the
-- SHA-256 digest of canonical JSON, `json.dumps`, `json.loads`, the JSON schema validators, `{:g}` and
-- `rstrip` of the report, `Path.resolve`, reading and decoding YAML, `int` of a text that Git prints,
-- and the Codex client.
--
-- Bounds and fuel. `run_ready` makes as many rounds as the source's `for` loop. `_reject_cycles` is a
-- recursion of unknown depth: the model gives it one more unit of fuel than there are items, since the
-- open calls are for different nodes. Python integers are unbounded, over the native numbers.
--
-- Not modelled: the subprocesses and the work tree of the repository inspection, the hash helper, the
-- command line and the adapter of the Codex SDK, which are mostly effects; messages and notes of
-- exceptions and the prompt of the planner, which no later step reads; two operations of the store on
-- one run at a time, which its lock keeps apart, unless the first was cancelled and its thread still
-- writes: what begins before that thread has come to its end, or after the run lease was given back
-- meanwhile, is not modelled. The log of the coordinator has the effects as they are begun.
--
-- `RunState.from_dict` (domain.py) does not test that a work item stands under its own identifier, as in
-- every state that the program makes. It is a hypothesis where a proof needs it.
pub mod Common
pub mod Errors
pub mod Domain
pub mod Config
pub mod Routing
pub mod Approvals
pub mod Scheduler
pub mod Planner
pub mod Repository
pub mod Locking
pub mod Reporting
pub mod RunIds
pub mod Store
pub mod Actions
pub mod Application
pub mod Samples
pub mod Tests
