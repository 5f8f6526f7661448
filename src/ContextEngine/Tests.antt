-- ===== src/ContextEngine/Tests.antt =====
-- The theorems on calls of `assemble_context` at concrete requests.
use instructional_agent_mvp.Prelude.{
  ◌≡◌, ◌≢◌, refl, true, false, none, some, [], ◌∷◌, ℕ, String, arith, text_eq_iff,
}
use instructional_agent_mvp.Schema.{Database, empty_database, context_assembly, claimed}
use instructional_agent_mvp.Session.{
  ok, raised, idle, reading, integrity_error, contention, retry_each,
}
use instructional_agent_mvp.Hashing.{join}
use instructional_agent_mvp.Idempotency.{reserve, finish_operation, operation_row}
use instructional_agent_mvp.TaskIntake.{is_known_task_type}
use instructional_agent_mvp.ApprovedState.{current_approved}
use instructional_agent_mvp.ContextEngine.Contract.{learning_object_mapping, is_consistent}
use instructional_agent_mvp.ContextEngine.Resolvers.{
  postgres_adapters, object_type_of, resolve_one, resolve_relations, first_source,
  retrieve_evidence,
}
use instructional_agent_mvp.ContextEngine.Assembly.{
  Contents, complete, assemble, declined, resolve_target, newer_version_available, add_dependencies,
  add_dependency, add_evidence, target_contents, resolve_approved_object, resolve_pinned_version,
  compare_with_approved, idempotency_conflict,
}
use instructional_agent_mvp.ContextEngine.Canonical.{
  compute_context_package_hash, compute_request_idempotency_hash,
}
use instructional_agent_mvp.ContextEngine.Package.{
  ContextAssemblyResult, package_result, outcome_only, owner_statements, store_package,
}
use instructional_agent_mvp.ContextEngine.Operation.{
  in_assembly, is_retryable_serialization_error, Interruption, assemble_context,
}
use instructional_agent_mvp.ContextEngine.Rounds.{reserved}
use instructional_agent_mvp.ContextEngine.Calls.{
  IsSerializationFailure, assemble_exhausted, assemble_conflict,
}
use instructional_agent_mvp.ContextEngine.Stored.{KeepsPackages}
use instructional_agent_mvp.ContextEngine.Replay.{
  assemble-complete, assemble_unregistered, assemble-IsRefused, assemble_again,
}
use instructional_agent_mvp.Examples.{plain, course}
use instructional_agent_mvp.ContextEngine.Samples.{
  request, request_known, calm, none_failed, collected, request-collected, revised, pinned,
}

assemble-complete_example :
    (assemble_context plain postgres_adapters request calm (idle course [])).0
    ≡ ok (
        package_result 3 (compute_context_package_hash plain "context-engine-v1" request collected))
assemble-complete_example =
    (assemble-complete plain postgres_adapters request request_known 0 4 refl calm course []
      none_failed refl collected refl
      (request-collected (compute_request_idempotency_hash plain request)) refl).0

-- The lesson is not registered: the steps complete with everything missing.
abbrev nothing_found : Contents
nothing_found = record {
  effective_version_id = none;
  approved_objects = [];
  relations =
      record {
        from_id = "lesson";
        to_id = none;
        relation_type = "PARENT_ACTIVITY";
        status = "UNRESOLVED";
      }
      ∷ record {
        from_id = "lesson";
        to_id = none;
        relation_type = "LEARNING_OUTCOME";
        status = "UNRESOLVED";
      }
      ∷ [];
  dependency_status =
      record { dependency_id = "PARENT_ACTIVITY"; status = "BLOCKED_BY_DEPENDENCY" }
      ∷ record { dependency_id = "LEARNING_OUTCOME"; status = "BLOCKED_BY_DEPENDENCY" }
      ∷ [];
  evidence =
      record {
        source_id = none;
        evidence_class = "E1";
        requirement_level = "REQUIRED";
        blocking_behavior = "BLOCKING";
        resolution_status = "MISSING";
      }
      ∷ record {
        source_id = none;
        evidence_class = "E3";
        requirement_level = "OPTIONAL";
        blocking_behavior = "NON_BLOCKING";
        resolution_status = "MISSING";
      }
      ∷ [];
  gaps =
      record {
        gap_id = "NO_APPROVED_VERSION:lesson";
        missing_object_or_value = "lesson";
        blocking = true;
      }
      ∷ record {
        gap_id = "BLOCKED_BY_DEPENDENCY:PARENT_ACTIVITY";
        missing_object_or_value = "PARENT_ACTIVITY";
        blocking = true;
      }
      ∷ record {
        gap_id = "BLOCKED_BY_DEPENDENCY:LEARNING_OUTCOME";
        missing_object_or_value = "LEARNING_OUTCOME";
        blocking = true;
      }
      ∷ record { gap_id = "EVIDENCE_MISSING:E1"; missing_object_or_value = "E1"; blocking = true }
      ∷ record { gap_id = "EVIDENCE_MISSING:E3"; missing_object_or_value = "E3"; blocking = false }
      ∷ [];
}

nothing-found :
    (hash : String)
    → assemble
        (λ id. "id")
        postgres_adapters
        learning_object_mapping
        request
        (reserved request hash empty_database)
      ≡ ok (complete nothing_found)
unfolding assemble resolve_target current_approved target_contents resolve_relations resolve_one
    object_type_of add_dependencies add_dependency resolve_approved_object add_evidence
    retrieve_evidence first_source reserve
nothing-found hash = refl

assemble_unregistered_example :
    assemble_context plain postgres_adapters request calm (idle empty_database [])
    ≡ (raised integrity_error, reading empty_database [])
assemble_unregistered_example =
    assemble_unregistered plain postgres_adapters request request_known 0 4 refl calm empty_database
      [] none_failed refl nothing_found refl
      (nothing-found (compute_request_idempotency_hash plain request)) refl

pinned-declined :
    (hash : String)
    → assemble
        (λ id. "id")
        postgres_adapters
        learning_object_mapping
        pinned
        (reserved pinned hash revised)
      ≡ ok (declined newer_version_available)
unfolding assemble resolve_target resolve_pinned_version compare_with_approved current_approved
    reserve
pinned-declined hash = refl

assemble-IsRefused_example :
    (assemble_context plain postgres_adapters pinned calm (idle revised [])).0
    ≡ ok (outcome_only newer_version_available)
assemble-IsRefused_example =
    (assemble-IsRefused plain postgres_adapters pinned request_known 0 4 refl calm revised []
      none_failed refl newer_version_available refl
      (pinned-declined (compute_request_idempotency_hash plain pinned))).0

abbrev once : Database
once = (assemble_context plain postgres_adapters request calm (idle course [])).1.stored

abbrev answer : ContextAssemblyResult
answer = package_result 3 (compute_context_package_hash plain "context-engine-v1" request collected)

request_answered :
    assemble_context plain postgres_adapters request calm (idle course [])
    ≡ (ok answer, idle once [])
unfolding assemble_context retry_each owner_statements is_consistent store_package finish_operation
    is_known_task_type assemble resolve_target current_approved target_contents resolve_relations
    resolve_one object_type_of add_dependencies add_dependency resolve_approved_object add_evidence
    retrieve_evidence first_source reserve
request_answered = refl

keeps_all : (d : Database) → KeepsPackages d d
keeps_all d = record { operations = λ kind key o e. e; packages = λ id p e. e }

assemble_again_example :
    assemble_context plain postgres_adapters request calm (idle once ((λ d. d) ∷ (λ d. d) ∷ []))
    ≡ (ok answer, idle once [])
assemble_again_example =
    assemble_again plain postgres_adapters request request_known postgres_adapters calm calm course
      once answer (λ d. d) (λ d. d) refl refl refl tt request_answered (keeps_all once)
      (keeps_all once)

abbrev failing : ℕ → Interruption
failing n = in_assembly (some "40001")

failing-IsSerializationFailure : IsSerializationFailure (in_assembly (some "40001"))
unfolding is_retryable_serialization_error
failing-IsSerializationFailure = record { sqlstate = some "40001"; at = refl; retryable = refl }

assemble_exhausted_example :
    assemble_context plain postgres_adapters request failing (idle course [])
    ≡ (raised contention, idle course [])
assemble_exhausted_example =
    assemble_exhausted plain postgres_adapters request request_known failing course []
      (λ j lt. failing-IsSerializationFailure)

-- A key that another request has taken.
abbrev used : Database
used = record course { operations = operation_row context_assembly "k1" "other" claimed ∷ [] }

other_request : ◌≢◌ {A = String} "other" (compute_request_idempotency_hash plain request)
unfolding compute_request_idempotency_hash join
other_request e = ground (arith, text_eq_iff "other" "PRODUCE_LEARNING_OBJECT|lesson|NULL")

assemble_conflict_example :
    assemble_context plain postgres_adapters request calm (idle used [])
    ≡ (ok (outcome_only idempotency_conflict), idle used [])
assemble_conflict_example =
    assemble_conflict plain postgres_adapters request request_known 0 4 refl calm used []
      none_failed refl (operation_row context_assembly "k1" "other" claimed)
      (operation_row context_assembly "k1" "other" claimed) refl refl other_request
