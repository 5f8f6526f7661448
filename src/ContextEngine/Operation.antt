-- ===== src/ContextEngine/Operation.antt =====
-- `assemble_context` of src/persistence/repositories/context_engine.py: the entry point and its loop.
use instructional_agent_mvp.Prelude.{
  ℕ, String, Bool, false, ◌||◌, not, Option, none, some, find, text_eq, ◌==◌, if◌then◌else◌,
}
use instructional_agent_mvp.Schema.{
  Uuid, OperationStatus, RejectedReason, ContextPackage, IdempotencyOperation, Database,
  context_assembly,
}
use instructional_agent_mvp.Session.{
  Action, Result, ok, raised, open_transaction, no_result_found, value_error, operational_error,
  pure, raise, let_through, ◌>>=◌, ◌>>◌, execute, query, commit, rollback, retry_each,
}
use instructional_agent_mvp.Hashing.{Hashing}
use instructional_agent_mvp.Idempotency.{max_ownership_retries, reserve, find_operation}
use instructional_agent_mvp.TaskIntake.{is_known_task_type}
use instructional_agent_mvp.ContextEngine.Contract.{get_mapping, task_type_context_mapping}
use instructional_agent_mvp.ContextEngine.Resolvers.{Adapters}
use instructional_agent_mvp.ContextEngine.Assembly.{
  task_type_unresolved, mapping_undefined, newer_version_available, invalid_object_version,
  idempotency_conflict, ContextRequest,
}
use instructional_agent_mvp.ContextEngine.Canonical.{compute_request_idempotency_hash}
use instructional_agent_mvp.ContextEngine.Package.{
  ContextAssemblyResult, outcome_only, package_result, owner_statements,
}

-- `ContextAssemblyOutcome(existing.rejected_reason)`.
abbrev pub outcome_of : Option RejectedReason → Result ContextAssemblyResult
outcome_of (some RejectedReason.task_type_unresolved) = ok (outcome_only task_type_unresolved)
outcome_of (some RejectedReason.mapping_undefined) = ok (outcome_only mapping_undefined)
outcome_of (some RejectedReason.newer_version_available) = ok (outcome_only newer_version_available)
outcome_of (some RejectedReason.invalid_object_version) = ok (outcome_only invalid_object_version)
outcome_of _ = raised value_error

abbrev pub has_package_id : Option Uuid → ContextPackage → Bool
has_package_id none p = false
has_package_id (some id) p = p.context_package_id == id

abbrev pub package_again : Option ContextPackage → Result ContextAssemblyResult
package_again none = raised no_result_found
package_again (some p) = ok (package_result p.context_package_id p.context_package_hash)

-- `_replay_result`, on the database that the SELECT reads.
unfoldable pub replay_result : IdempotencyOperation → Database → Result ContextAssemblyResult
replay_result o db = elim o.status [
  | OperationStatus.committed ↦
      package_again (find (has_package_id o.context_package_id) db.packages)
  | other ↦ outcome_of o.rejected_reason
]

-- An `OperationalError` of the driver, with its SQLSTATE, while the transaction of the assembly or
-- the one of the replay runs.
pub data Interruption : Type 0 where
  uninterrupted : Interruption
  in_assembly in_replay : Option String → Interruption

unfoldable pub is_retryable_serialization_error : Option String → Bool
is_retryable_serialization_error none = false
is_retryable_serialization_error (some sqlstate) =
    text_eq sqlstate "40001" || text_eq sqlstate "40P01"

-- The `except OperationalError`.
abbrev pub on_operational_error : Option String → Action (Option ContextAssemblyResult)
on_operational_error sqlstate = do
  rollback
  if is_retryable_serialization_error sqlstate then pure none else raise operational_error

abbrev pub end_as_owner : Result ContextAssemblyResult → Action (Option ContextAssemblyResult)
end_as_owner (raised e) = let_through e
end_as_owner (ok r) = do commit; pure (some r)

abbrev pub proceed_as_owner :
    Hashing → Adapters → ContextRequest → Action (Option ContextAssemblyResult)
proceed_as_owner h a q = do
  r ← execute (owner_statements h a (get_mapping q.task_type task_type_context_mapping) q)
  end_as_owner r

abbrev pub answer : Result ContextAssemblyResult → Action (Option ContextAssemblyResult)
answer (raised e) = raise e
answer (ok r) = do rollback; pure (some r)

abbrev pub compare_and_replay :
    String → Option IdempotencyOperation → Action (Option ContextAssemblyResult)
compare_and_replay hash none = do rollback; pure none
compare_and_replay hash (some o) =
    if text_eq o.idempotency_payload_hash hash
    then (do r ← query (replay_result o); answer r)
    else (do rollback; pure (some (outcome_only idempotency_conflict)))

abbrev pub read_and_replay :
    ContextRequest → String → Interruption → Action (Option ContextAssemblyResult)
read_and_replay q hash (in_replay sqlstate) = do
  rollback
  query (find_operation context_assembly q.idempotency_key)
  on_operational_error sqlstate
read_and_replay q hash other = do
  rollback
  existing ← query (find_operation context_assembly q.idempotency_key)
  compare_and_replay hash existing

-- One round of the loop; `none` is `continue`.
abbrev pub assemble_round :
    Hashing
    → Adapters
    → ContextRequest
    → String
    → Interruption
    → Action (Option ContextAssemblyResult)
assemble_round h a q hash (in_assembly sqlstate) = do
  execute (reserve context_assembly q.idempotency_key hash)
  on_operational_error sqlstate
assemble_round h a q hash other = do
  won ← execute (reserve context_assembly q.idempotency_key hash)
  if won then proceed_as_owner h a q else read_and_replay q hash other

-- The interruptions are those of the rounds that are left, down to 0.
unfoldable pub assemble_context :
    Hashing → Adapters → ContextRequest → (ℕ → Interruption) → Action ContextAssemblyResult
assemble_context h a q interruptions s =
    if not (is_known_task_type q.task_type)
    then (ok (outcome_only task_type_unresolved), s)
    else if s.in_transaction
    then (raised open_transaction, s)
    else retry_each max_ownership_retries
        (λ n. assemble_round h a q (compute_request_idempotency_hash h q) (interruptions n)) s
