-- ===== src/Orchestrator/Tests.antt =====
-- The theorems on phases A and C at a run of the example course.
use instructional_agent_mvp.Prelude.{
  ◌≡◌, refl, true, false, none, some, [], ◌∷◌, arith, text_eq_iff,
}
use instructional_agent_mvp.Schema.{
  in_progress, claim_lost, AttemptOutcome, text, object, array, nil, Fields, end, field, AgentRun,
  ObjectVersionContent, Database,
}
use instructional_agent_mvp.Session.{ok, idle}
use instructional_agent_mvp.WorkflowTransition.Effects.{IsLegal}
use instructional_agent_mvp.AgentRunManager.Attempts.{new_attempt, close_attempt}
use instructional_agent_mvp.AgentRunManager.Invariant.{run_of, Keys}
use instructional_agent_mvp.AgentRunManager.Fencing.{IsOwner}
use instructional_agent_mvp.Orchestrator.PhaseA.{Creation}
use instructional_agent_mvp.Orchestrator.ActiveRuns.{OneActive, created, created-OneActive}
use instructional_agent_mvp.Orchestrator.PhaseC.{
  Finalization, FinalClock, content_row, final_transition, phase_c_finalize,
}
use instructional_agent_mvp.Orchestrator.Finalized.{finalize_lost, finalize_rejected}
use instructional_agent_mvp.Orchestrator.Success.{finalize_success}
use instructional_agent_mvp.VersionCreation.Reuse.{IsDrawn}
use instructional_agent_mvp.Examples.{plain, course, version_of}

abbrev creation : Creation
creation = record {
  target_object_id = "lesson";
  context_package_id = 9;
  requested_by = "editor";
  correlation_id = "c";
  idempotency_key = "k";
  max_attempts = 2;
}

course-IsDrawn : IsDrawn course
course-IsDrawn = record { versions = omega arith; contents = tt; targets = tt }

course-OneActive : OneActive course
course-OneActive id = omega arith

created-OneActive_example : OneActive (created creation course).1
created-OneActive_example =
    created-OneActive creation course (refl, (refl, (refl, tt))) course-IsDrawn course-OneActive

-- The run 3 of the lesson's version, which "ann" holds under generation 1 until 160.
abbrev held : AgentRun
held = record {
  logical_run_id = 3;
  role = "PRODUCER";
  producer_logical_run_id = none;
  task_type = "PRODUCE_LEARNING_OBJECT";
  target_object_version_id = 0;
  context_package_id = 9;
  requested_by = "editor";
  correlation_id = "c";
  idempotency_key = "k";
  status = in_progress;
  claimed_by = some "ann";
  lease_expires_at = some 160;
  lease_generation = 1;
  max_attempts = 2;
}

abbrev running : Database
running = record course {
  agent_runs = held ∷ [];
  attempts =
      new_attempt
        (record {
          provider = none;
          model_identifier = none;
          instructions_version = none;
          output_schema_version = none;
        })
        4 3 1 1
      ∷ [];
  next_uuid = 5;
}

abbrev clock : FinalClock
clock = record { tested = 150; started = 150; restarted = 151 }

abbrev output : Fields
output = field "schema_version" (text "producer-output-v1") (
    field "object_type" (text "CONTENT") (
      field "title" (text "Title") (
        field "body" (text "Body")
          (field "learning_outcome_refs" (array nil) (field "metadata" (object end) end)))))

abbrev final : Finalization
final = record {
  logical_run_id = 3;
  target_object_id = "lesson";
  target_object_version_id = 0;
  worker_id = "ann";
  generation = 1;
  attempt_id = 4;
  parsed_output = output;
}

abbrev content : ObjectVersionContent
content = record {
  object_version_id = 0;
  schema_version = text "producer-output-v1";
  title = text "Title";
  body = text "Body";
  learning_outcome_refs = array nil;
  metadata = object end;
  produced_by_attempt_id = 4;
}

complete : content_row final ≡ some content
unfolding content_row
complete = refl

running-Keys : Keys running
running-Keys = record {
  runs_unique = (refl, tt);
  runs_fresh = omega arith;
  attempts_unique = (refl, tt);
  attempts_fresh = omega arith;
}

ann_owns : IsOwner "ann" 1 150 held
ann_owns = record {
  holds = refl;
  current = refl;
  running = refl;
  expiry = 160;
  leased = refl;
  lasts = omega arith;
}

legal : IsLegal (final_transition plain final held) running
unfolding final_transition
legal = record {
  version = version_of 0 "lesson" 1 "ELIGIBLE_PENDING";
  found = refl;
  owned = refl;
  status = refl;
  from = refl;
  to = refl;
}

finalize_success_example : (phase_c_finalize plain clock final (idle running [])).0 ≡ ok true
finalize_success_example =
    (finalize_success plain clock final held content complete ann_owns [] running running-Keys
      (refl, (refl, (refl, tt))) refl legal).0

-- The same call after the lease, and one whose version has been drafted already.
abbrev late : FinalClock
late = record clock { tested = 170 }

lease_over : (r : AgentRun) → run_of 3 running ≡ some r → ¬ IsOwner "ann" 1 170 r
lease_over r e o = ground (arith, e, o.leased, o.lasts)

finalize_lost_example :
    phase_c_finalize plain late final (idle running [])
    ≡ (ok false, idle (close_attempt 151 4 claim_lost none none running) [])
finalize_lost_example = finalize_lost plain late final [] running running-Keys lease_over

abbrev drafted : Database
drafted = record running { versions = version_of 0 "lesson" 1 "DRAFT" ∷ [] }

drafted-Keys : Keys drafted
drafted-Keys = record {
  runs_unique = (refl, tt);
  runs_fresh = omega arith;
  attempts_unique = (refl, tt);
  attempts_fresh = omega arith;
}

illegal : ¬ IsLegal (final_transition plain final held) drafted
unfolding final_transition
illegal l = ground (arith, l.found, l.status, text_eq_iff "DRAFT" "ELIGIBLE_PENDING")

finalize_rejected_example : phase_c_finalize plain clock final (idle drafted []) ≡ (
  ok false,
  idle
      (close_attempt 151 4 AttemptOutcome.technical_failure
        (some "transition_rejected")
        none
        drafted)
      [],
)
finalize_rejected_example =
    finalize_rejected plain clock final held content complete ann_owns [] drafted drafted-Keys
      (refl, tt) refl illegal
