-- ===== src/WorkflowTransition.antt =====
-- src/persistence/repositories/workflow_transition.py and src/domain/transition_result.py
pub mod Effects
pub mod Rounds
pub mod Replay
mod Tests
use instructional_agent_mvp.Prelude.{
  ℕ, String, Bool, true, false, ◌&&◌, ◌||◌, not, Option, none, some, List, [], ◌∷◌, find, update,
  insert, exists, text_eq, ◌==◌, is_none, if◌then◌else◌,
}
use instructional_agent_mvp.Schema.{
  Uuid, is_known_state, OperationType, workflow_transition, OperationStatus, RejectedReason,
  ObjectVersion, IdempotencyOperation, Database, uuid4,
}
use instructional_agent_mvp.Schema
use instructional_agent_mvp.Session.{
  Action, Result, ok, raised, value_error, no_result_found, pure, raise, ◌>>=◌, ◌>>◌, execute,
  query, commit, rollback, retry,
}
use instructional_agent_mvp.Hashing.{Hashing, join}
use instructional_agent_mvp.Idempotency.{
  max_ownership_retries, reserve, find_operation, finish_operation,
}
use instructional_agent_mvp.TaskIntake.{is_known_task_type}

pub data TransitionOutcome : Type 0 where
  committed state_conflict idempotency_conflict invalid_object_version : TransitionOutcome
  unknown_state transition_not_enabled_this_iteration task_type_unresolved : TransitionOutcome

pub record TransitionResult : Type 0 where
  pub outcome : TransitionOutcome
  pub transition_id : Option Uuid
  pub object_version_id : Option Uuid
  pub from_state : Option String
  pub to_state : Option String

-- `TransitionResult(outcome=...)` with the other fields at their defaults.
abbrev pub outcome_only : TransitionOutcome → TransitionResult
outcome_only o = record {
  outcome = o;
  transition_id = none;
  object_version_id = none;
  from_state = none;
  to_state = none;
}

abbrev pub enabled_transitions : List (String × String)
enabled_transitions = ("ELIGIBLE_PENDING", "DRAFT") ∷ []

unfoldable pub is_enabled : String → String → Bool
is_enabled from to =
    exists (λ (t : String × String). text_eq t.0 from && text_eq t.1 to) enabled_transitions

-- The arguments of a transition.
pub record TransitionRequest : Type 0 where
  pub target_object_id : String
  pub target_object_version_id : Uuid
  pub from_state : String
  pub to_state : String
  pub requested_by : String
  pub correlation_id : String
  pub idempotency_key : String

unfoldable pub compute_transition_payload_hash : Hashing → TransitionRequest → String
compute_transition_payload_hash h q = h.digest (
    join (
      q.target_object_id
      ∷ h.str_uuid q.target_object_version_id
      ∷ q.from_state
      ∷ q.to_state
      ∷ q.requested_by
      ∷ []))

abbrev pub belongs : TransitionRequest → ObjectVersion → Bool
belongs q v =
    v.object_version_id == q.target_object_version_id && text_eq v.object_id q.target_object_id

-- The WHERE clause of the UPDATE, on `object_version_id` and `status`.
abbrev pub movable : TransitionRequest → ObjectVersion → Bool
movable q v = v.object_version_id == q.target_object_version_id && text_eq v.status q.from_state

abbrev pub moved : TransitionRequest → ObjectVersion → ObjectVersion
moved q v = record v { status = q.to_state }

abbrev pub transition_row : TransitionRequest → String → Uuid → Schema.WorkflowTransition
transition_row q hash id = record {
  transition_id = id;
  object_version_id = q.target_object_version_id;
  from_state = q.from_state;
  to_state = q.to_state;
  idempotency_key = q.idempotency_key;
  idempotency_payload_hash = hash;
  requested_by = q.requested_by;
  correlation_id = q.correlation_id;
  causation_id = none;
}

abbrev pub committed_result : TransitionRequest → Uuid → TransitionResult
committed_result q id = record {
  outcome = TransitionOutcome.committed;
  transition_id = some id;
  object_version_id = some q.target_object_version_id;
  from_state = some q.from_state;
  to_state = some q.to_state;
}

-- Step 5, after the UPDATE hit: the row that records the transition.
abbrev pub after_move : TransitionRequest → String → Database → TransitionResult × Database
after_move q hash db =
    let db' = record db { versions = update (movable q) (moved q) db.versions } in
    let (id, db'') = uuid4 db' in
    (
      committed_result q id,
      record db'' { transitions = insert (transition_row q hash id) db''.transitions },
    )

-- Step 4: the conditional UPDATE, by its `rowcount`.
unfoldable pub move_version : TransitionRequest → String → Database → TransitionResult × Database
move_version q hash db =
    if exists (movable q) db.versions
    then after_move q hash db
    else (outcome_only TransitionOutcome.state_conflict, db)

-- It neither commits nor rolls back: it is a function of what its caller's transaction sees.
unfoldable pub apply_transition_in_transaction :
    TransitionRequest → String → Database → TransitionResult × Database
unfolding is_enabled
apply_transition_in_transaction q hash db =
    if is_none (find (belongs q) db.versions)
    then (outcome_only TransitionOutcome.invalid_object_version, db)
    else if not (is_known_state q.from_state) || not (is_known_state q.to_state)
    then (outcome_only TransitionOutcome.unknown_state, db)
    else if not (is_enabled q.from_state q.to_state)
    then (outcome_only TransitionOutcome.transition_not_enabled_this_iteration, db)
    else move_version q hash db

-- `result.outcome.value`, where it is a reason for a rejection.
abbrev pub reason_of : TransitionOutcome → Option RejectedReason
reason_of TransitionOutcome.committed = none
reason_of TransitionOutcome.state_conflict = some RejectedReason.state_conflict
reason_of TransitionOutcome.idempotency_conflict = none
reason_of TransitionOutcome.invalid_object_version = some RejectedReason.invalid_object_version
reason_of TransitionOutcome.unknown_state = some RejectedReason.unknown_state
reason_of TransitionOutcome.transition_not_enabled_this_iteration =
    some RejectedReason.transition_not_enabled
reason_of TransitionOutcome.task_type_unresolved = some RejectedReason.task_type_unresolved

-- `TransitionOutcome(existing.rejected_reason)`; no value has the other reasons' texts.
abbrev pub outcome_of : Option RejectedReason → Option TransitionOutcome
outcome_of (some RejectedReason.state_conflict) = some TransitionOutcome.state_conflict
outcome_of (some RejectedReason.invalid_object_version) =
    some TransitionOutcome.invalid_object_version
outcome_of (some RejectedReason.unknown_state) = some TransitionOutcome.unknown_state
outcome_of (some RejectedReason.transition_not_enabled) =
    some TransitionOutcome.transition_not_enabled_this_iteration
outcome_of (some RejectedReason.task_type_unresolved) = some TransitionOutcome.task_type_unresolved
outcome_of _ = none

-- How the owner of a reservation ends it, by the outcome.
abbrev pub ended_by : TransitionOutcome → Option Uuid → IdempotencyOperation → IdempotencyOperation
ended_by TransitionOutcome.committed id o = record o {
  status = OperationStatus.committed;
  transition_id = id;
}
ended_by other id o = record o {
  status = OperationStatus.rejected;
  rejected_reason = reason_of other;
}

unfoldable pub finish_transition : TransitionRequest → TransitionResult → Database → Database
finish_transition q r =
    finish_operation workflow_transition q.idempotency_key (ended_by r.outcome r.transition_id)

abbrev pub replayed : Schema.WorkflowTransition → TransitionResult
replayed t = record {
  outcome = TransitionOutcome.committed;
  transition_id = some t.transition_id;
  object_version_id = some t.object_version_id;
  from_state = some t.from_state;
  to_state = some t.to_state;
}

-- `_replay_result`, on the database that the SELECT reads.
unfoldable pub replay_result : IdempotencyOperation → Database → Result TransitionResult
replay_result o db = elim o.status [
  | OperationStatus.committed ↦
      elim (find (λ t. elim o.transition_id [ none ↦ false | some id ↦ t.transition_id == id ])
        db.transitions) [ none ↦ raised no_result_found | some t ↦ ok (replayed t) ]
  | other ↦ elim (outcome_of o.rejected_reason) [
    | none ↦ raised value_error
    | some outcome ↦ ok (outcome_only outcome)
  ]
]

-- The owner's part of a round: the transition, the end of the reservation, and the commit.
abbrev pub proceed_as_owner : TransitionRequest → String → Action (Option TransitionResult)
proceed_as_owner q hash = do
  r ← execute (apply_transition_in_transaction q hash)
  execute (λ db. (tt, finish_transition q r db))
  commit
  pure (some r)

abbrev answer : Result TransitionResult → Action (Option TransitionResult)
answer (raised e) = raise e
answer (ok r) = do rollback; pure (some r)

abbrev pub compare_and_replay :
    String → Option IdempotencyOperation → Action (Option TransitionResult)
compare_and_replay hash none = pure none
compare_and_replay hash (some o) =
    if text_eq o.idempotency_payload_hash hash
    then (do r ← query (replay_result o); answer r)
    else (do rollback; pure (some (outcome_only TransitionOutcome.idempotency_conflict)))

abbrev pub read_and_replay : TransitionRequest → String → Action (Option TransitionResult)
read_and_replay q hash = do
  rollback
  existing ← query (find_operation workflow_transition q.idempotency_key)
  compare_and_replay hash existing

-- One round of the loop; `none` is `continue`.
abbrev pub transition_round : TransitionRequest → String → Action (Option TransitionResult)
transition_round q hash = do
  won ← execute (reserve workflow_transition q.idempotency_key hash)
  if won then proceed_as_owner q hash else read_and_replay q hash

-- `correlation_id or str(uuid.uuid4())`.
abbrev pub or_generated : Option String → String → String
or_generated none generated = generated
or_generated (some t) generated = if text_eq t "" then generated else t

abbrev pub filled : TransitionRequest → Option String → String → TransitionRequest
filled q correlation_id generated = record q {
  correlation_id = or_generated correlation_id generated;
}

unfoldable pub request_workflow_transition :
    Hashing → String → TransitionRequest → Option String → String → Action TransitionResult
request_workflow_transition h task_type q correlation_id generated =
    if not (is_known_task_type task_type)
    then pure (outcome_only TransitionOutcome.task_type_unresolved)
    else (let q' = filled q correlation_id generated in
        retry max_ownership_retries (transition_round q' (compute_transition_payload_hash h q')))
