-- ===== src/Orchestrator/RequestTests.antt =====
-- The theorems on requests for a producer's execution at concrete requests.
use instructional_agent_mvp.Prelude.{
  ◌≡◌, ◌≢◌, refl, ℕ, String, true, some, none, [], ◌∷◌, arith, text_eq_iff, List,
}
use instructional_agent_mvp.Schema.{
  text, array, object, nil, cons, Fields, end, field, OperationStatus, producer_execution,
  IdempotencyOperation, ObjectVersionContent, Database,
}
use instructional_agent_mvp.Session.{ok, idle, reading, retry_each}
use instructional_agent_mvp.Hashing.{join}
use instructional_agent_mvp.Idempotency.{operation_row, reserve, finish_operation, find_operation}
use instructional_agent_mvp.TaskIntake.{is_known_task_type}
use instructional_agent_mvp.ApprovedState.{current_approved}
use instructional_agent_mvp.ContextEngine.Contract.{is_consistent}
use instructional_agent_mvp.ContextEngine.Resolvers.{
  postgres_adapters, object_type_of, resolve_one, resolve_relations, first_source,
  retrieve_evidence,
}
use instructional_agent_mvp.ContextEngine.Assembly.{
  assemble, resolve_target, target_contents, add_dependencies, add_dependency, add_evidence,
  resolve_approved_object,
}
use instructional_agent_mvp.ContextEngine.Package.{owner_statements, store_package, package_result}
use instructional_agent_mvp.ContextEngine.Canonical.{compute_context_package_hash}
use instructional_agent_mvp.ContextEngine.Operation.{Interruption, uninterrupted, assemble_context}
use instructional_agent_mvp.ContextEngine.Samples.{collected}
use instructional_agent_mvp.Orchestrator.PhaseC.{Finalization, content_row}
use instructional_agent_mvp.Orchestrator.Content.{IsContent, valid-IsContent}
use instructional_agent_mvp.ProducerOutput.{validate_structural, is_blank, len}
use instructional_agent_mvp.Orchestrator.Request.{
  AgentRunOutcome, outcome_only, ProducerRequest, context_request, answered, running,
  compute_producer_request_identity_hash, resolve_run, committed_row,
}
use instructional_agent_mvp.Orchestrator.Resolved.{conflicting, created_before, resolve_taken}
use instructional_agent_mvp.Orchestrator.Competition.{new_run_id}
use instructional_agent_mvp.Orchestrator.Races.{resolve_wins, resolve_loses}
use instructional_agent_mvp.Examples.{plain, course}

abbrev request : ProducerRequest
request = record {
  target_object_id = "lesson";
  requested_by = "editor";
  idempotency_key = "k";
  provider = "p";
  model_identifier = "m";
  instructions_version = "i";
  worker_id = "ann";
  output_schema_version = "producer-output-v1";
  max_attempts = 2;
  correlation_id = "c";
}

abbrev calm : ℕ → ℕ → Interruption
calm n m = uninterrupted

abbrev identity : String
identity = compute_producer_request_identity_hash plain request

-- A key that another request has taken.
abbrev used : Database
used = record course {
  operations = operation_row producer_execution "k" "other" OperationStatus.committed ∷ [];
}

other_identity : ◌≢◌ {A = String} "other" identity
unfolding compute_producer_request_identity_hash join
other_identity e =
    ground (arith, text_eq_iff "other" "PRODUCE_LEARNING_OBJECT|lesson|p|m|i|producer-output-v1")

resolve_taken_example :
    resolve_run plain request calm (idle used [])
    ≡ (ok (answered (outcome_only AgentRunOutcome.idempotency_conflict)), reading used [])
resolve_taken_example =
    resolve_taken plain request calm used []
      (operation_row producer_execution "k" "other" OperationStatus.committed)
      (operation_row producer_execution "k" "other" OperationStatus.committed)
      (answered (outcome_only AgentRunOutcome.idempotency_conflict)) refl refl
      (conflicting other_identity)

-- The lesson's context, as the request's own key assembles it.
abbrev package_hash : String
package_hash =
    compute_context_package_hash plain "context-engine-v1" (context_request request) collected

abbrev with_context : Database
with_context =
    (assemble_context plain postgres_adapters (context_request request) (λ n. uninterrupted)
      (idle course [])).1.stored

context_assembled :
    (schedule : List (Database → Database))
    → assemble_context plain postgres_adapters
        (context_request request)
        (λ n. uninterrupted)
        (idle course ((λ d. d) ∷ schedule))
      ≡ (ok (package_result 3 package_hash), idle with_context schedule)
unfolding assemble_context retry_each owner_statements is_consistent store_package finish_operation
    is_known_task_type assemble resolve_target current_approved target_contents resolve_relations
    resolve_one object_type_of add_dependencies add_dependency resolve_approved_object add_evidence
    retrieve_evidence first_source reserve
context_assembled schedule = refl

with_context_lem :
    (find_operation producer_execution "k" with_context ≡ none)
    × (with_context.objects ≡ course.objects)
unfolding assemble_context retry_each owner_statements is_consistent store_package finish_operation
    is_known_task_type assemble resolve_target current_approved target_contents resolve_relations
    resolve_one object_type_of add_dependencies add_dependency resolve_approved_object add_evidence
    retrieve_evidence first_source reserve
with_context_lem = (refl, refl)

resolve_wins_example :
    (resolve_run plain request calm (idle course ((λ d. d) ∷ (λ d. d) ∷ []))).0
    ≡ ok (running (some (new_run_id request identity 3 with_context)))
resolve_wins_example =
    (resolve_wins plain request calm course with_context ((λ d. d) ∷ (λ d. d) ∷ []) [] 3
      package_hash refl (context_assembled []) (rw with_context_lem.1 refl) with_context_lem.0).0

-- The run of another call, which takes the key while this one assembles its context.
abbrev winner : IdempotencyOperation
winner = committed_row request identity 9

abbrev take : Database → Database
take d = record d { operations = winner ∷ d.operations }

resolve_loses_example :
    resolve_run plain request calm
      (idle course ((λ d. d) ∷ (λ d. d) ∷ take ∷ (λ d. d) ∷ (λ d. d) ∷ []))
    ≡ (ok (running (some 9)), reading (take with_context) [])
resolve_loses_example =
    resolve_loses plain request calm course with_context
      ((λ d. d) ∷ (λ d. d) ∷ take ∷ (λ d. d) ∷ (λ d. d) ∷ []) (take ∷ (λ d. d) ∷ (λ d. d) ∷ []) 3
      package_hash refl (context_assembled (take ∷ (λ d. d) ∷ (λ d. d) ∷ []))
      (rw with_context_lem.1 refl) winner winner winner (running (some 9)) refl refl refl
      (created_before refl refl)

abbrev output : Fields
output = field "schema_version" (text "producer-output-v1") (
    field "object_type" (text "CONTENT") (
      field "title" (text "A lesson") (
        field "body" (text "The body") (
          field "learning_outcome_refs" (array (cons (text "goal") nil))
            (field "metadata" (object end) end)))))

abbrev finalization : Finalization
finalization = record {
  logical_run_id = 3;
  target_object_id = "lesson";
  target_object_version_id = 0;
  worker_id = "ann";
  generation = 1;
  attempt_id = 4;
  parsed_output = output;
}

output_valid :
    (validate_structural (λ j. "") (object output) (some "CONTENT") ("goal" ∷ [])).is_valid ≡ true
unfolding validate_structural is_blank len
output_valid = refl

valid-IsContent_example :
    (c : ObjectVersionContent) × ((content_row finalization ≡ some c)
      × IsContent finalization ("goal" ∷ []) c)
valid-IsContent_example =
    valid-IsContent (λ j. "") (some "CONTENT") ("goal" ∷ []) finalization output_valid
