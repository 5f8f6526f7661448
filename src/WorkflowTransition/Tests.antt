-- ===== src/WorkflowTransition/Tests.antt =====
-- The theorems on transitions at concrete requests.
use instructional_agent_mvp.Prelude.{
  ◌≡◌, ◌≢◌, ◌↔◌, refl, String, true, none, [], ◌∷◌, arith, text_eq_iff,
}
use instructional_agent_mvp.Schema.{workflow_transition, claimed, Database}
use instructional_agent_mvp.Session.{ok, idle}
use instructional_agent_mvp.Hashing.{join}
use instructional_agent_mvp.TaskIntake.{is_known_task_type}
use instructional_agent_mvp.Idempotency.{operation_row}
use instructional_agent_mvp.WorkflowTransition.{
  TransitionRequest, TransitionOutcome, committed_result, outcome_only,
  apply_transition_in_transaction, request_workflow_transition, compute_transition_payload_hash,
}
use instructional_agent_mvp.WorkflowTransition.Effects.{IsLegal, committed_iff_legal, legal_writes}
use instructional_agent_mvp.WorkflowTransition.Rounds.{request_conflict}
use instructional_agent_mvp.WorkflowTransition.Replay.{KeepsResults, request_again}
use instructional_agent_mvp.Examples.{plain, course}
use instructional_agent_mvp.Examples

-- The lesson's version is drafted.
abbrev draft : TransitionRequest
draft = record {
  target_object_id = "lesson";
  target_object_version_id = 0;
  from_state = "ELIGIBLE_PENDING";
  to_state = "DRAFT";
  requested_by = "editor";
  correlation_id = "c";
  idempotency_key = "t1";
}

draft_legal : IsLegal draft course
draft_legal = record {
  version = Examples.version_of 0 "lesson" 1 "ELIGIBLE_PENDING";
  found = refl;
  owned = refl;
  status = refl;
  from = refl;
  to = refl;
}

committed_iff_legal_example :
    ((apply_transition_in_transaction draft "h" course).0.outcome ≡ TransitionOutcome.committed)
    ↔ IsLegal draft course
committed_iff_legal_example = committed_iff_legal draft "h" course (refl, (refl, (refl, tt)))

legal_writes_example :
    (apply_transition_in_transaction draft "h" course).0 ≡ committed_result draft 3
legal_writes_example = (legal_writes draft "h" course (refl, (refl, (refl, tt))) draft_legal).0

keeps_all : (d : Database) → KeepsResults d d
keeps_all d = record { operations = λ kind key o e. e; transitions = λ id t e. e }

task_known : is_known_task_type "PRODUCE_LEARNING_OBJECT" ≡ true
unfolding is_known_task_type
task_known = refl

request_again_example :
    let (result, after) =
      request_workflow_transition plain "PRODUCE_LEARNING_OBJECT" draft none "x" (idle course []) in
    request_workflow_transition plain "PRODUCE_LEARNING_OBJECT" draft none "y"
      (idle after.stored ((λ d. d) ∷ (λ d. d) ∷ []))
    ≡ (result, idle after.stored [])
request_again_example =
    request_again plain "PRODUCE_LEARNING_OBJECT" task_known draft course none none "x" "y" (λ d. d)
      (λ d. d) refl tt keeps_all keeps_all

-- A key that another payload has taken.
abbrev used : Database
used = record course { operations = operation_row workflow_transition "t1" "other" claimed ∷ [] }

other_payload : ◌≢◌ {A = String} "other" (compute_transition_payload_hash plain draft)
unfolding compute_transition_payload_hash join
other_payload e = ground (arith, text_eq_iff "other" "lesson|id|ELIGIBLE_PENDING|DRAFT|editor")

request_conflict_example :
    request_workflow_transition plain "PRODUCE_LEARNING_OBJECT" draft none "x" (idle used [])
    ≡ (ok (outcome_only TransitionOutcome.idempotency_conflict), idle used [])
request_conflict_example =
    request_conflict plain "PRODUCE_LEARNING_OBJECT" task_known draft none "x" [] used
      (operation_row workflow_transition "t1" "other" claimed)
      (operation_row workflow_transition "t1" "other" claimed) refl refl other_payload
