-- ===== src/Orchestrator/PhaseC.antt =====
-- `_phase_c_finalize` of src/persistence/repositories/orchestrator.py.
use Prim.Native.String.{◌++◌}
use instructional_agent_mvp.Prelude.{
  ℕ, String, Bool, true, false, Option, none, some, find, insert, ◌==◌, if◌then◌else◌,
}
use instructional_agent_mvp.Schema.{
  Uuid, AttemptOutcome, claim_lost, text, object, Fields, end, field, get_field, AgentRun,
  AuditEvent, ObjectVersionContent, Database, uuid4,
}
use instructional_agent_mvp.Session.{
  Action, key_error, no_result_found, pure, raise, ◌>>=◌, ◌>>◌, execute, query, commit, rollback,
}
use instructional_agent_mvp.Hashing.{Hashing}
use instructional_agent_mvp.WorkflowTransition.{
  TransitionOutcome, TransitionResult, TransitionRequest, compute_transition_payload_hash,
  apply_transition_in_transaction,
}
use instructional_agent_mvp.AgentRunManager.{authorize_terminal_success}
use instructional_agent_mvp.AgentRunManager.Attempts.{close_attempt}

-- The arguments of `_phase_c_finalize`. The output is the dict that the validation has passed.
pub record Finalization : Type 0 where
  pub logical_run_id : Uuid
  pub target_object_id : String
  pub target_object_version_id : Uuid
  pub worker_id : String
  pub generation : ℕ
  pub attempt_id : Uuid
  pub parsed_output : Fields

-- What its transactions read of the database's clock: `clock_timestamp()` in the authorisation,
-- and `now()` in the first transaction and in the one that follows a rollback.
pub record FinalClock : Type 0 where
  pub tested : ℕ
  pub started : ℕ
  pub restarted : ℕ

unfoldable pub content_row : Finalization → Option ObjectVersionContent
content_row f = elim (get_field "schema_version" f.parsed_output) [
  | none ↦ none
  | some schema_version ↦ elim (get_field "title" f.parsed_output) [
    | none ↦ none
    | some title ↦ elim (get_field "body" f.parsed_output) [
      | none ↦ none
      | some body ↦ elim (get_field "learning_outcome_refs" f.parsed_output) [
        | none ↦ none
        | some refs ↦ elim (get_field "metadata" f.parsed_output) [
          | none ↦ none
          | some metadata ↦ some (record {
            object_version_id = f.target_object_version_id;
            schema_version = schema_version;
            title = title;
            body = body;
            learning_outcome_refs = refs;
            metadata = metadata;
            produced_by_attempt_id = f.attempt_id;
          })
        ]
      ]
    ]
  ]
]

abbrev pub add_content : ObjectVersionContent → Database → Database
add_content content db = record db { contents = insert content db.contents }

-- The transition that the producer asks for, on behalf of its run.
unfoldable pub final_transition : Hashing → Finalization → AgentRun → TransitionRequest
final_transition h f run = record {
  target_object_id = f.target_object_id;
  target_object_version_id = f.target_object_version_id;
  from_state = "ELIGIBLE_PENDING";
  to_state = "DRAFT";
  requested_by = "agent_run:" ++ h.str_uuid f.logical_run_id;
  correlation_id = run.correlation_id;
  idempotency_key = "producer-transition:" ++ h.str_uuid f.logical_run_id;
}

abbrev pub persisted_event : Hashing → Finalization → Uuid → AuditEvent
persisted_event h f id = record {
  event_id = id;
  event_type = "PRODUCER_CONTENT_PERSISTED";
  object_id = f.target_object_id;
  object_version_id = some f.target_object_version_id;
  commit_id = none;
  context_package_id = none;
  agent_run_id = some f.logical_run_id;
  payload = object (field "attempt_id" (text (h.str_uuid f.attempt_id)) end);
}

-- The last statements of a success: the attempt is closed, and an event is recorded.
abbrev pub record_success : Hashing → FinalClock → Finalization → Database → Database
record_success h clock f db =
    let db₁ =
      close_attempt clock.started f.attempt_id AttemptOutcome.success none
        (some (object f.parsed_output)) db in
    let (id, db₂) = uuid4 db₁ in
    record db₂ { audit_events = insert (persisted_event h f id) db₂.audit_events }

-- A rollback of everything so far, and the attempt closed in a transaction of its own.
abbrev pub give_up : FinalClock → Finalization → AttemptOutcome → Option String → Action Bool
give_up clock f outcome detail = do
  rollback
  execute (λ db. (tt, close_attempt clock.restarted f.attempt_id outcome detail none db))
  commit
  pure false

-- After the transition was tried: by its outcome.
abbrev pub after_transition : Hashing → FinalClock → Finalization → TransitionOutcome → Action Bool
after_transition h clock f TransitionOutcome.committed = do
  execute (λ db. (tt, record_success h clock f db))
  commit
  pure true
after_transition h clock f _ =
    give_up clock f AttemptOutcome.technical_failure (some "transition_rejected")

abbrev pub apply_final : Hashing → TransitionRequest → Database → TransitionResult × Database
apply_final h q = apply_transition_in_transaction q (compute_transition_payload_hash h q)

abbrev pub persist_content :
    Hashing → FinalClock → Finalization → AgentRun → Option ObjectVersionContent → Action Bool
persist_content h clock f run none = raise key_error
persist_content h clock f run (some content) = do
  execute (λ db. (tt, add_content content db))
  result ← execute (apply_final h (final_transition h f run))
  after_transition h clock f result.outcome

-- `.one()` on the run, and what follows.
abbrev pub finalize_run : Hashing → FinalClock → Finalization → Option AgentRun → Action Bool
finalize_run h clock f none = raise no_result_found
finalize_run h clock f (some run) = persist_content h clock f run (content_row f)

abbrev pub finalize_as_owner : Hashing → FinalClock → Finalization → Action Bool
finalize_as_owner h clock f = do
  run ← query (λ db. find (λ r. r.logical_run_id == f.logical_run_id) db.agent_runs)
  finalize_run h clock f run

unfoldable pub phase_c_finalize : Hashing → FinalClock → Finalization → Action Bool
phase_c_finalize h clock f = do
  authorized ←
      execute (authorize_terminal_success clock.tested f.logical_run_id f.worker_id f.generation)
  if authorized then finalize_as_owner h clock f else give_up clock f claim_lost none
