-- ===== src/Orchestrator/Request.antt =====
-- `request_producer_execution` of src/persistence/repositories/orchestrator.py up to the run that it
-- executes, with src/domain/agent_run_result.py: the request hashes and the loop that resolves the
-- idempotency key, by a preflight read, the assembly of a context, and phase A.
use Prim.Native.String.{◌++◌}
use instructional_agent_mvp.Prelude.{
  ℕ, String, Bool, true, false, Option, none, some, [], ◌∷◌, text_eq, if◌then◌else◌,
}
use instructional_agent_mvp.Schema.{
  Uuid, OperationStatus, RejectedReason, IdempotencyOperation, producer_execution,
}
use instructional_agent_mvp.Session.{
  Action, integrity_error, pure, raise, ◌>>=◌, ◌>>◌, execute, query, commit, rollback, refresh,
  retry_each,
}
use instructional_agent_mvp.Hashing.{Hashing, join}
use instructional_agent_mvp.Idempotency.{
  max_ownership_retries, find_operation, insert_operation, operation_row,
}
use instructional_agent_mvp.ContextEngine.Resolvers.{postgres_adapters}
use instructional_agent_mvp.ContextEngine.Assembly.{ContextRequest, ContextAssemblyOutcome}
use instructional_agent_mvp.ContextEngine.Package.{ContextAssemblyResult}
use instructional_agent_mvp.ContextEngine.Operation.{Interruption, assemble_context}
use instructional_agent_mvp.Orchestrator.PhaseA.{Creation, phase_a_create_run}

pub data AgentRunOutcome : Type 0 where
  task_type_unresolved invalid_context_package idempotency_conflict : AgentRunOutcome
  succeeded failed pending_poll_timeout : AgentRunOutcome

pub record AgentRunResult : Type 0 where
  pub outcome : AgentRunOutcome
  pub logical_run_id : Option Uuid
  pub object_version_id : Option Uuid
  pub object_version_content_id : Option Uuid

abbrev pub outcome_only : AgentRunOutcome → AgentRunResult
outcome_only o = record {
  outcome = o;
  logical_run_id = none;
  object_version_id = none;
  object_version_content_id = none;
}

abbrev pub task_type : String
task_type = "PRODUCE_LEARNING_OBJECT"

-- The arguments of `request_producer_execution`, its correlation identifier given or generated.
pub record ProducerRequest : Type 0 where
  pub target_object_id : String
  pub requested_by : String
  pub idempotency_key : String
  pub provider : String
  pub model_identifier : String
  pub instructions_version : String
  pub worker_id : String
  pub output_schema_version : String
  pub max_attempts : ℕ
  pub correlation_id : String

-- The hash of a request whose context is resolved; no other code calls it.
unfoldable pub compute_producer_request_hash : Hashing → ProducerRequest → Uuid → String
compute_producer_request_hash h q context_package_id = h.digest (
    join (
      task_type
      ∷ q.target_object_id
      ∷ h.str_uuid context_package_id
      ∷ q.provider
      ∷ q.model_identifier
      ∷ q.instructions_version
      ∷ q.output_schema_version
      ∷ []))

-- The identity of a request before its context is known.
unfoldable pub compute_producer_request_identity_hash : Hashing → ProducerRequest → String
compute_producer_request_identity_hash h q = h.digest (
    join (
      task_type ∷ q.target_object_id ∷ q.provider ∷ q.model_identifier ∷ q.instructions_version
      ∷ q.output_schema_version ∷ []))

-- How a key is resolved: by an answer, or as the run to execute.
pub data Resolution : Type 0 where
  answered : AgentRunResult → Resolution
  running : Option Uuid → Resolution

-- What the row of the key decides.
abbrev pub replayed : String → IdempotencyOperation → Resolution
replayed hash o =
    if text_eq o.idempotency_payload_hash hash
    then (elim o.status [
      | OperationStatus.rejected ↦ answered (outcome_only AgentRunOutcome.invalid_context_package)
      | other ↦ running o.agent_run_id
    ])
    else answered (outcome_only AgentRunOutcome.idempotency_conflict)

abbrev pub context_request : ProducerRequest → ContextRequest
context_request q = record {
  task_type = task_type;
  target_object_id = q.target_object_id;
  idempotency_key = "context-for:" ++ q.idempotency_key;
  pinned_version_id = none;
}

abbrev pub rejected_row : ProducerRequest → String → IdempotencyOperation
rejected_row q hash =
    record (operation_row producer_execution q.idempotency_key hash OperationStatus.rejected) {
      rejected_reason = some RejectedReason.invalid_context_package;
    }

abbrev pub committed_row : ProducerRequest → String → Uuid → IdempotencyOperation
committed_row q hash run_id =
    record (operation_row producer_execution q.idempotency_key hash OperationStatus.committed) {
      agent_run_id = some run_id;
    }

-- The context engine refused: the refusal is stored under the request's own key.
abbrev pub persist_rejection : ProducerRequest → String → Action (Option Resolution)
persist_rejection q hash = do
  won ← execute (insert_operation (rejected_row q hash))
  commit
  pure
      (if won then some (answered (outcome_only AgentRunOutcome.invalid_context_package)) else none)

abbrev pub creation : ProducerRequest → Uuid → Creation
creation q context_package_id = record {
  target_object_id = q.target_object_id;
  context_package_id = context_package_id;
  requested_by = q.requested_by;
  correlation_id = q.correlation_id;
  idempotency_key = q.idempotency_key;
  max_attempts = q.max_attempts;
}

abbrev pub end_competition : Uuid → Bool → Action (Option Resolution)
end_competition run_id true = do commit; pure (some (running (some run_id)))
end_competition run_id false = do rollback; pure none

-- The reservation and the run, in one transaction: both are committed, or neither.
abbrev pub compete : ProducerRequest → String → Uuid → Action (Option Resolution)
compete q hash context_package_id = do
  ids ← phase_a_create_run (creation q context_package_id)
  won ← execute (insert_operation (committed_row q hash ids.0))
  end_competition ids.0 won

-- A committed assembly always has an identifier; NULL would violate a constraint.
abbrev pub compete_with : ProducerRequest → String → Option Uuid → Action (Option Resolution)
compete_with q hash none = raise integrity_error
compete_with q hash (some id) = compete q hash id

abbrev pub after_context :
    ProducerRequest → String → ContextAssemblyResult → Action (Option Resolution)
after_context q hash r = elim r.outcome [
  | ContextAssemblyOutcome.idempotency_conflict ↦
      pure (some (answered (outcome_only AgentRunOutcome.idempotency_conflict)))
  | ContextAssemblyOutcome.committed ↦ compete_with q hash r.context_package_id
  | other ↦ persist_rejection q hash
]

-- The rollback after the preflight read expires its row, so that `existing.*` reads it again and
-- leaves that transaction open; without a row the key is new.
abbrev pub decide :
    Hashing
    → ProducerRequest
    → String
    → (ℕ → Interruption)
    → Option IdempotencyOperation
    → Action (Option Resolution)
decide h q hash interruptions (some o) = do
  again ← refresh (find_operation producer_execution o.idempotency_key)
  pure (some (replayed hash again))
decide h q hash interruptions none = do
  r ← assemble_context h postgres_adapters (context_request q) interruptions
  after_context q hash r

-- One round of the loop; `none` is `continue`.
abbrev pub resolve_round :
    Hashing → ProducerRequest → String → (ℕ → Interruption) → Action (Option Resolution)
resolve_round h q hash interruptions = do
  existing ← query (find_operation producer_execution q.idempotency_key)
  rollback
  decide h q hash interruptions existing

unfoldable pub resolve_run : Hashing → ProducerRequest → (ℕ → ℕ → Interruption) → Action Resolution
resolve_run h q interruptions =
    retry_each max_ownership_retries
      (λ n. resolve_round h q (compute_producer_request_identity_hash h q) (interruptions n))
