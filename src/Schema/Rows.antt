-- ===== src/Schema/Rows.antt =====
-- The rows of the tables of src/persistence/models.py.
use instructional_agent_mvp.Prelude.{ℕ, String, Option}
use instructional_agent_mvp.Schema.Values.{Json}
use instructional_agent_mvp.Schema.Vocabulary.{
  Uuid, OperationType, OperationStatus, RejectedReason, RunStatus, AttemptOutcome,
}

pub record InstructionalObject : Type 0 where
  pub object_id : String
  pub object_type : Option String

pub record ObjectVersion : Type 0 where
  pub object_version_id : Uuid
  pub object_id : String
  pub version_number : ℕ
  pub status : String
  pub supersedes_version_id : Option Uuid

pub record ApprovedStatePointer : Type 0 where
  pub object_id : String
  pub current_approved_version_id : Option Uuid

pub record ApprovedStateCommit : Type 0 where
  pub commit_id : Uuid
  pub object_id : String
  pub object_version_id : Uuid
  pub expected_previous_approved_version_id : Option Uuid
  pub actual_previous_approved_version_id : Option Uuid
  pub idempotency_key : String
  pub idempotency_payload_hash : String

pub record WorkflowTransition : Type 0 where
  pub transition_id : Uuid
  pub object_version_id : Uuid
  pub from_state : String
  pub to_state : String
  pub idempotency_key : String
  pub idempotency_payload_hash : String
  pub requested_by : String
  pub correlation_id : String
  pub causation_id : Option String

pub record ObjectRelation : Type 0 where
  pub from_object_id : String
  pub to_object_id : String
  pub relation_type : String

pub record EvidenceSource : Type 0 where
  pub source_id : String
  pub object_id : String
  pub evidence_class : String
  pub content_reference : String

pub record ContextPackage : Type 0 where
  pub context_package_id : Uuid
  pub context_package_hash : String
  pub context_contract_version : String
  pub task_type : String
  pub target_object_id : String
  pub pinned_version_id : Option Uuid
  pub idempotency_key : String
  pub approved_objects : Json
  pub relations : Json
  pub evidence : Json
  pub dependency_status : Json
  pub gaps : Json
  pub run_metadata : Json

pub record IdempotencyOperation : Type 0 where
  pub operation_type : OperationType
  pub idempotency_key : String
  pub idempotency_payload_hash : String
  pub status : OperationStatus
  pub commit_id : Option Uuid
  pub transition_id : Option Uuid
  pub context_package_id : Option Uuid
  pub agent_run_id : Option Uuid
  pub rejected_reason : Option RejectedReason

pub record AuditEvent : Type 0 where
  pub event_id : Uuid
  pub event_type : String
  pub object_id : String
  pub object_version_id : Option Uuid
  pub commit_id : Option Uuid
  pub context_package_id : Option Uuid
  pub agent_run_id : Option Uuid
  pub payload : Json

pub record AgentRun : Type 0 where
  pub logical_run_id : Uuid
  pub role : String
  pub producer_logical_run_id : Option Uuid
  pub task_type : String
  pub target_object_version_id : Uuid
  pub context_package_id : Uuid
  pub requested_by : String
  pub correlation_id : String
  pub idempotency_key : String
  pub status : RunStatus
  pub claimed_by : Option String
  pub lease_expires_at : Option ℕ
  pub lease_generation : ℕ
  pub max_attempts : ℕ

pub record AgentRunAttempt : Type 0 where
  pub attempt_id : Uuid
  pub logical_run_id : Uuid
  pub attempt_number : ℕ
  pub lease_generation_at_creation : ℕ
  pub outcome : Option AttemptOutcome
  pub failure_detail : Option String
  pub provider : Option String
  pub model_identifier : Option String
  pub instructions_version : Option String
  pub output_schema_version : Option String
  pub output_payload : Option Json
  pub finished_at : Option ℕ

pub record ObjectVersionContent : Type 0 where
  pub object_version_id : Uuid
  pub schema_version : Json
  pub title : Json
  pub body : Json
  pub learning_outcome_refs : Json
  pub metadata : Json
  pub produced_by_attempt_id : Uuid
