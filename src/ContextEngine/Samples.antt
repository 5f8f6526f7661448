-- ===== src/ContextEngine/Samples.antt =====
-- The data of the tests of the context engine.
use instructional_agent_mvp.Prelude.{
  ◌≡◌, ◌<◌, refl, none, some, [], ◌∷◌, ℕ, String, true, false, arith,
}
use instructional_agent_mvp.Schema.{Database}
use instructional_agent_mvp.Session.{ok}
use instructional_agent_mvp.Idempotency.{reserve}
use instructional_agent_mvp.TaskIntake.{is_known_task_type}
use instructional_agent_mvp.ApprovedState.{current_approved}
use instructional_agent_mvp.ContextEngine.Contract.{learning_object_mapping}
use instructional_agent_mvp.ContextEngine.Resolvers.{
  postgres_adapters, object_type_of, resolve_one, resolve_relations, first_source,
  retrieve_evidence,
}
use instructional_agent_mvp.ContextEngine.Assembly.{
  ContextRequest, Contents, assemble, complete, resolve_target, add_dependencies, add_dependency,
  add_evidence, target_contents, resolve_approved_object,
}
use instructional_agent_mvp.ContextEngine.Operation.{uninterrupted, Interruption}
use instructional_agent_mvp.ContextEngine.Rounds.{reserved}
use instructional_agent_mvp.ContextEngine.Calls.{IsSerializationFailure}
use instructional_agent_mvp.Examples.{course, version_of, pointer_to}

abbrev pub request : ContextRequest
request = record {
  task_type = "PRODUCE_LEARNING_OBJECT";
  target_object_id = "lesson";
  idempotency_key = "k1";
  pinned_version_id = none;
}

pub request_known : is_known_task_type "PRODUCE_LEARNING_OBJECT" ≡ true
unfolding is_known_task_type
request_known = refl

abbrev pub calm : ℕ → Interruption
calm n = uninterrupted

pub none_failed : (j : ℕ) → 4 < j → j < 5 → IsSerializationFailure uninterrupted
none_failed j lt lt' = absurd (omega arith)

-- What the steps collect for the lesson, which has no approved version yet.
abbrev pub collected : Contents
collected = record {
  effective_version_id = none;
  approved_objects =
      record {
        object_id = "task";
        object_type = some "ACTIVITY";
        version = 1;
        status = "APPROVED_CONTENT";
      }
      ∷ record {
        object_id = "goal";
        object_type = some "LEARNING_OUTCOME";
        version = 1;
        status = "APPROVED_CONTENT";
      }
      ∷ [];
  relations =
      record {
        from_id = "lesson";
        to_id = some "task";
        relation_type = "PARENT_ACTIVITY";
        status = "RESOLVED";
      }
      ∷ record {
        from_id = "lesson";
        to_id = some "goal";
        relation_type = "LEARNING_OUTCOME";
        status = "RESOLVED";
      }
      ∷ [];
  dependency_status =
      record { dependency_id = "PARENT_ACTIVITY"; status = "SATISFIED" }
      ∷ record { dependency_id = "LEARNING_OUTCOME"; status = "SATISFIED" }
      ∷ [];
  evidence =
      record {
        source_id = some "book";
        evidence_class = "E1";
        requirement_level = "REQUIRED";
        blocking_behavior = "BLOCKING";
        resolution_status = "FOUND";
      }
      ∷ record {
        source_id = none;
        evidence_class = "E3";
        requirement_level = "OPTIONAL";
        blocking_behavior = "NON_BLOCKING";
        resolution_status = "MISSING";
      }
      ∷ [];
  gaps =
      record {
        gap_id = "NO_APPROVED_VERSION:lesson";
        missing_object_or_value = "lesson";
        blocking = true;
      }
      ∷ record { gap_id = "EVIDENCE_MISSING:E3"; missing_object_or_value = "E3"; blocking = false }
      ∷ [];
}

pub request-collected :
    (hash : String)
    → assemble
        (λ id. "id")
        postgres_adapters
        learning_object_mapping
        request
        (reserved request hash course)
      ≡ ok (complete collected)
unfolding assemble resolve_target current_approved target_contents resolve_relations resolve_one
    object_type_of add_dependencies add_dependency resolve_approved_object add_evidence
    retrieve_evidence first_source reserve
request-collected hash = refl

-- The lesson has a newer approved version than the pinned one.
abbrev pub revised : Database
revised = record course {
  versions =
      version_of 0 "lesson" 1 "APPROVED_CONTENT" ∷ version_of 1 "lesson" 2 "APPROVED_CONTENT" ∷ [];
  pointers = pointer_to "lesson" (some 1) ∷ [];
}

abbrev pub pinned : ContextRequest
pinned = record request { pinned_version_id = some 0 }
