-- ===== src/Schema/Vocabulary.antt =====
-- The closed vocabularies of src/persistence/models.py. A column that a CHECK constraint closes is
-- an enumeration, except for the lifecycle states, which a caller of a transition may misspell.
use instructional_agent_mvp.Prelude.{
  ℕ, String, Bool, true, false, Option, some, List, [], ◌∷◌, text_eq, if◌then◌else◌,
}

-- A `uuid.UUID`, by number.
abbrev pub Uuid : Type 0
Uuid = ℕ

abbrev pub known_states : List String
known_states =
    "NOT_ELIGIBLE" ∷ "ELIGIBLE_PENDING" ∷ "DRAFT" ∷ "QA_IN_PROGRESS" ∷ "REVISION_REQUIRED"
    ∷ "QA_PASS_PROVISIONAL" ∷ "DEPENDENCY_RESOLUTION" ∷ "DEPENDENCY_BLOCKED" ∷ "ROUTING_RESOLUTION"
    ∷ "READY_FOR_HUMAN_APPROVAL" ∷ "APPROVED_CONTENT" ∷ "SUPERSEDED" ∷ []

-- `value in tuple` on texts.
abbrev pub contains : List String → String → Bool
contains [] t = false
contains (s ∷ rest) t = if text_eq s t then true else contains rest t

-- `state in KNOWN_STATES`.
unfoldable pub is_known_state : String → Bool
is_known_state = contains known_states

pub data OperationType : Type 0 where
  approved_state_commit workflow_transition context_assembly producer_execution : OperationType

pub data OperationStatus : Type 0 where
  claimed committed rejected : OperationStatus

pub data RejectedReason : Type 0 where
  unknown_state transition_not_enabled state_conflict invalid_object_version : RejectedReason
  task_type_unresolved mapping_undefined newer_version_available : RejectedReason
  invalid_context_package : RejectedReason

pub data RunStatus : Type 0 where
  pending in_progress succeeded failed : RunStatus

pub data AttemptOutcome : Type 0 where
  success technical_failure invalid_output claim_lost : AttemptOutcome

abbrev pub is_pending : RunStatus → Bool
is_pending pending = true
is_pending _ = false

abbrev pub is_in_progress : RunStatus → Bool
is_in_progress in_progress = true
is_in_progress _ = false

-- `status IN ('PENDING', 'IN_PROGRESS')`.
abbrev pub is_active : RunStatus → Bool
is_active pending = true
is_active in_progress = true
is_active _ = false

abbrev pub is_success : Option AttemptOutcome → Bool
is_success (some success) = true
is_success _ = false

abbrev pub same_operation : OperationType → OperationType → Bool
same_operation approved_state_commit approved_state_commit = true
same_operation workflow_transition workflow_transition = true
same_operation context_assembly context_assembly = true
same_operation producer_execution producer_execution = true
same_operation _ _ = false
