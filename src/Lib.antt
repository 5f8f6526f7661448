-- ===== src/Lib.antt =====
-- A model of the persistence layer of the instructional agent: the repositories of
-- src/persistence/repositories, their tables of src/persistence/models.py, and their result types of
-- src/domain. A file named below without its directory is in one of these two directories.
--
-- The parts and how they interact. An object has versions, and its approved state is a pointer to
-- one of them, which only `commit_approved_state` moves. A version's status is only moved by a
-- workflow transition. The context engine assembles a package of approved objects, relations,
-- evidence and gaps for a task. The orchestrator resolves a request for a producer's execution: it
-- assembles a context, reserves the key together with a new run (phase A), lets a worker execute
-- attempts under a lease with a generation (phase B), and ends the run with the content, the
-- transition and the audit event in one transaction (phase C). All entry points resolve an
-- idempotency key by the same protocol on `idempotency_operation`.
--
-- Which file models which part:
--   Schema, with Schema/Values, Vocabulary, Rows, Tables: src/persistence/models.py. A table is
--     the list of its rows (Prelude/Table), the database a record of tables.
--   Session: SQLAlchemy's session. `execute`, `commit` and `rollback` are steps on what is stored,
--     what the open transaction sees, and the turns of the other sessions. A rollback expires the
--     rows that have been loaded: an attribute that is read after it is a SELECT of its own.
--   Idempotency: the reservation, SELECT and UPDATE that the repositories share.
--   Hashing, Sorting, Dumps: `"|".join`, `sorted`, and `json.dumps` as the hashes use them.
--   TaskIntake: task_intake.py. `is_known_task_type`.
--   ApprovedState: approved_state.py and commit_result.py. Its children: Effects (what the owner of
--     a key writes), Rounds (whole calls), Log (pointer and commits), Written
--     (what a success has written), Replay (whole calls, once and again).
--   WorkflowTransition: workflow_transition.py and transition_result.py, with the children
--     Effects, Rounds and Replay.
--   ContextEngine: context_engine.py, context_engine_contract.py, dependency_resolver.py,
--     evidence_retriever.py and context_result.py. Contract is the mapping of the task types,
--     Resolvers the adapters, Assembly steps 4 to 8 of `_proceed_as_owner`, Canonical the hashes,
--     Package step 9 and `_reject`, Operation the loop of `assemble_context`.
--   AgentRunManager: agent_run_manager.py. Lease has the clock, Attempts the attempt rows; the
--     others prove an invariant over any sequence of its transactions (Steps).
--   VersionCreation: version_creation.py.
--   ProducerOutput: producer_output_schema.py. ProducerExecutor: producer_executor.py.
--   Orchestrator: orchestrator.py and agent_run_result.py. Request is the loop of
--     `request_producer_execution` on its key, PhaseA `_phase_a_create_run`, PhaseB
--     `_phase_b_execute`, PhaseC `_phase_c_finalize`, and Calls the whole request with its polling.
--   Examples, and every module named Tests, RequestTests, LoopTests, StepTests or Samples:
--     concrete data, and the theorems applied to them.
--
-- A function of the source is a function of the same name. One that the source calls inside a
-- transaction of its caller takes the database and returns its result and the database after it; one
-- that commits is an `Action` on a session. `None` is `none`, an exception is `raised`, an enum is a
-- data type with the members of the source.
--
-- Concurrency. Other sessions take their turns between the transactions of a call: the schedule is
-- a list of functions on the database, so any interleaving of whole transactions is one. The
-- statements of one transaction see one state. A row lock or a unique index that would make a
-- transaction wait, and the serialization failures of the context engine (Interruption), are the
-- only places where transactions meet. The clock of the database is read by each operation that
-- reads it, and its readings are arguments.
--
-- Bounds and fuel. The loops on a key make 5 rounds, as in the source, and raise after them.
-- Recursion is structural everywhere else: on a list, a text, a number, or on JSON. `decimal` of
-- Dumps has as fuel one more than the number, which has fewer digits than that. The loop of phase B
-- is unbounded in the source; its model takes fuel for one pass more than the run's bound on its
-- attempts, since each pass but the last creates an attempt. The polling takes the number of polls
-- before its deadline.
--
-- Parameters. The SHA-256 digest and `str` of a UUID (Hashing), the dependency resolver and the
-- evidence retriever that a caller injects (Adapters), `repr` and `json.loads`, the producer, and the
-- correlation identifier that is generated. Texts are compared by code points, which is the order of
-- the sort keys in Python and stands for the collation of the database.
--
-- Not modelled. The migrations and src/persistence/db.py, whose effect is DDL and a connection;
-- the foreign keys that the code cannot violate (those of a package's target and of a pointer's
-- object are modelled); the CHECK constraints that the data types already give; the triggers that
-- forbid updates, since no modelled statement makes one; time stamps that no statement reads; the
-- text of the prompt; negative numbers and floats in JSON; the copies of earlier files at the root
-- of the repository.
pub mod Prelude
pub mod Examples
pub mod Schema
pub mod Session
pub mod Hashing
pub mod Sorting
pub mod Dumps
pub mod Idempotency
pub mod TaskIntake
pub mod ApprovedState
pub mod WorkflowTransition
pub mod ContextEngine
pub mod ProducerOutput
pub mod ProducerExecutor
pub mod AgentRunManager
pub mod Orchestrator
pub mod VersionCreation
