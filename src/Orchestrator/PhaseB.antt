-- ===== src/Orchestrator/PhaseB.antt =====
-- `_phase_b_execute` of src/persistence/repositories/orchestrator.py, with
-- `_ensure_no_open_transaction` and `_fetch_context_package_payload`.
use instructional_agent_mvp.Prelude.{
  ℕ, zero, suc, String, Bool, true, false, Option, none, some, List, find, ◌==◌, if◌then◌else◌,
}
use instructional_agent_mvp.Schema.{
  Uuid, AttemptOutcome, Json, null, text, object, Fields, end, field, ContextPackage, Database,
}
use instructional_agent_mvp.Session.{
  Action, Result, ok, raised, open_transaction, no_result_found, pure, raise, ◌>>=◌, ◌>>◌, follow,
  execute, query, commit, rollback,
}
use instructional_agent_mvp.Hashing.{Hashing}
use instructional_agent_mvp.ContextEngine.Resolvers.{object_type_of}
use instructional_agent_mvp.ContextEngine.Canonical.{pinned_json}
use instructional_agent_mvp.AgentRunManager.{
  AttemptAuthorization, acquire_and_create_first_attempt, reclaim_and_create_attempt,
  refresh_and_create_retry_attempt,
}
use instructional_agent_mvp.AgentRunManager.Lease.{Clock, provider_timeout_seconds}
use instructional_agent_mvp.AgentRunManager.Attempts.{AttemptConfig, close_attempt}
use instructional_agent_mvp.ProducerExecutor.{
  ExecutionContract, ProducerExecutionResult, compute_allowed_learning_outcome_ids,
}
use instructional_agent_mvp.ProducerOutput.{StructuralValidationResult, validate_structural}
use instructional_agent_mvp.Orchestrator.PhaseC.{Finalization, FinalClock, phase_c_finalize}
use instructional_agent_mvp.Orchestrator.Request.{task_type}

-- `if session.in_transaction(): raise RuntimeError`.
abbrev pub ensure_no_open_transaction : Action (Unit {0})
ensure_no_open_transaction s = if s.in_transaction then (raised open_transaction, s) else (ok tt, s)

abbrev pub payload_json : (Uuid → String) → ContextPackage → Json
payload_json str_uuid p = object (
    field "context_package_id" (text (str_uuid p.context_package_id)) (
      field "context_package_hash" (text p.context_package_hash) (
        field "context_contract_version" (text p.context_contract_version) (
          field "task_type" (text p.task_type) (
            field "target_object_id" (text p.target_object_id) (
              field "pinned_version_id" (pinned_json str_uuid p.pinned_version_id) (
                field "approved_objects" p.approved_objects (
                  field "relations" p.relations (
                    field "evidence" p.evidence (
                      field "dependency_status" p.dependency_status
                        (field "gaps" p.gaps end)))))))))))

abbrev pub one_package : Option ContextPackage → Action ContextPackage
one_package none = raise no_result_found
one_package (some p) = pure p

-- `_fetch_context_package_payload`, as the row whose payload and hash it gives.
abbrev pub fetch_context_package : Uuid → Action ContextPackage
fetch_context_package id = do
  p ← query (λ db. find (λ p. p.context_package_id == id) db.packages)
  one_package p

-- The arguments of `_phase_b_execute`.
pub record Execution : Type 0 where
  pub logical_run_id : Uuid
  pub target_object_id : String
  pub target_object_version_id : Uuid
  pub worker_id : String
  pub provider : String
  pub model_identifier : String
  pub instructions_version : String
  pub output_schema_version : String
  pub context_package_id : Uuid
  pub max_attempts : ℕ

-- The clock's readings in the transactions of one pass of the loop.
pub record Pass : Type 0 where
  pub ended : ℕ
  pub final : FinalClock
  pub refreshed : Clock
  pub reclaimed : Clock

-- What the world outside gives: the clock's readings, and what the producer answers to each call.
-- Passes are numbered down to 0.
pub record Outside : Type 1 where
  pub Raw : Type 0
  pub produce : ℕ → ExecutionContract → Json → ProducerExecutionResult Raw
  pub passes : ℕ → Pass
  pub acquired : Clock
  pub reclaimed : Clock

abbrev pub attempt_config : Execution → AttemptConfig
attempt_config e = record {
  provider = some e.provider;
  model_identifier = some e.model_identifier;
  instructions_version = some e.instructions_version;
  output_schema_version = some e.output_schema_version;
}

-- The generation and the attempt that the worker holds.
pub record Held : Type 0 where
  pub generation : ℕ
  pub attempt_id : Uuid

-- `none` for a refusal, and for a run that has failed with its last attempt.
abbrev pub held : AttemptAuthorization → Option Held
held auth = elim auth.generation [
  | none ↦ none
  | some g ↦ elim auth.failed_max_attempts [
    | true ↦ none
    | false ↦ elim auth.attempt_id [
      | none ↦ none
      | some id ↦ some (record { generation = g; attempt_id = id })
    ]
  ]
]

abbrev pub reclaim_run : Clock → Execution → Database → AttemptAuthorization × Database
reclaim_run clock e =
    reclaim_and_create_attempt clock (attempt_config e) e.logical_run_id e.worker_id e.max_attempts

-- A granted authorization is committed; a refused one is rolled back, and the run is reclaimed if
-- its lease has expired.
abbrev pub or_reclaim : Clock → Execution → AttemptAuthorization → Action (Option Held)
or_reclaim clock e auth = elim auth.generation [
  | some g ↦ (do commit; pure (held auth))
  | none ↦ (do rollback; auth' ← execute (reclaim_run clock e); commit; pure (held auth'))
]

-- The first authorization, and the one after a failed attempt.
abbrev pub acquire_run : Outside → Execution → Action (Option Held)
acquire_run w e = do
  auth ←
      execute (
        acquire_and_create_first_attempt w.acquired (attempt_config e) e.logical_run_id e.worker_id)
  or_reclaim w.reclaimed e auth

abbrev pub retry_run : Pass → Execution → Held → Action (Option Held)
retry_run pass e x = do
  auth ← execute (
      refresh_and_create_retry_attempt pass.refreshed (attempt_config e) e.logical_run_id
        e.worker_id x.generation e.max_attempts)
  or_reclaim pass.reclaimed e auth

abbrev pub close_as : Pass → Held → AttemptOutcome → Option String → Option Json → Action (Unit {0})
close_as pass x outcome detail output = do
  execute (λ db. (tt, close_attempt pass.ended x.attempt_id outcome detail output db))
  commit

abbrev pub finalization : Execution → Held → Fields → Finalization
finalization e x output = record {
  logical_run_id = e.logical_run_id;
  target_object_id = e.target_object_id;
  target_object_version_id = e.target_object_version_id;
  worker_id = e.worker_id;
  generation = x.generation;
  attempt_id = x.attempt_id;
  parsed_output = output;
}

-- What one answer comes to: an attempt that has been closed as failed, or an output to finalize.
pub data Judgement : Type 0 where
  rejected : AttemptOutcome → Option String → Option Json → Judgement
  accepted : Fields → Judgement

abbrev pub judge_output : Option Fields → StructuralValidationResult → Judgement
judge_output none v = rejected AttemptOutcome.invalid_output v.reason none
judge_output (some output) v =
    if v.is_valid
    then accepted output
    else rejected AttemptOutcome.invalid_output v.reason (some (object output))

abbrev output_json : Option Fields → Json
output_json none = null
output_json (some output) = object output

unfoldable pub judge :
    {R : Type 0}
    → (Json → String)
    → Option String
    → List String
    → ProducerExecutionResult R
    → Judgement
judge repr expected allowed r = elim r.technical_error [
  | some message ↦ rejected AttemptOutcome.technical_failure (some message) none
  | none ↦
      judge_output r.parsed_output
        (validate_structural repr (output_json r.parsed_output) expected allowed)
]

abbrev pub execution_contract : Execution → ContextPackage → Option String → ExecutionContract
execution_contract e p expected = record {
  execution_contract_version = "execution-contract-v1";
  role = "PRODUCER";
  task_type = task_type;
  context_package_id = e.context_package_id;
  context_package_hash = p.context_package_hash;
  provider = e.provider;
  model_identifier = e.model_identifier;
  instructions_version = e.instructions_version;
  output_schema_version = e.output_schema_version;
  provider_timeout_seconds = provider_timeout_seconds;
  expected_object_type = expected;
}

-- What is read once, before the loop.
pub record Reading : Type 0 where
  pub context : ContextPackage
  pub expected : Option String
  pub allowed : List String

module _ (h : Hashing) (repr : Json → String) (w : Outside) (e : Execution) where
  -- What the producer answers to a call.
  abbrev pub judged : Reading → ℕ → Judgement
  judged x n =
      judge repr x.expected x.allowed (
        w.produce n (execution_contract e x.context x.expected) (payload_json h.str_uuid x.context))

  -- `while True`, on fuel: false if it has run out.
  abbrev pub next_pass : (Held → Action Bool) → Option Held → Action Bool
  next_pass again none = pure true
  next_pass again (some y) = again y

  abbrev pub after_judgement : (Held → Action Bool) → Pass → Held → Judgement → Action Bool
  after_judgement again pass y (rejected outcome detail output) = do
    close_as pass y outcome detail output
    next ← retry_run pass e y
    next_pass again next
  after_judgement again pass y (accepted output) = do
    phase_c_finalize h pass.final (finalization e y output)
    pure true

  unfoldable pub attempts_loop : Reading → ℕ → Held → Action Bool
  attempts_loop x zero y s = (ok false, s)
  attempts_loop x (suc n) y s =
      follow (λ u. after_judgement (attempts_loop x n) (w.passes n) y (judged x n))
        (ensure_no_open_transaction s)

  abbrev pub ids_or_raise : Result (List String) → Action (List String)
  ids_or_raise (ok ids) = pure ids
  ids_or_raise (raised error) = raise error

  abbrev pub read_context : Action Reading
  read_context = do
    context ← fetch_context_package e.context_package_id
    rollback
    expected ← query (object_type_of e.target_object_id)
    rollback
    allowed ← ids_or_raise (compute_allowed_learning_outcome_ids context.approved_objects)
    pure (record { context = context; expected = expected; allowed = allowed })

  abbrev pub execute_held : Option Held → Action Bool
  execute_held none = pure true
  execute_held (some y) = do x ← read_context; attempts_loop x (suc e.max_attempts) y

  -- Each pass but the last creates an attempt, so that this fuel is enough.
  unfoldable pub phase_b_execute : Action Bool
  unfolding attempts_loop
  phase_b_execute = do y ← acquire_run w e; execute_held y
