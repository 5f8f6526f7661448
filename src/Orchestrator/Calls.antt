-- ===== src/Orchestrator/Calls.antt =====
-- `request_producer_execution` of src/persistence/repositories/orchestrator.py as a whole, and
-- `_poll_terminal_result`.
use instructional_agent_mvp.Prelude.{
  ℕ, zero, suc, String, Option, none, some, find, not, ◌==◌, if◌then◌else◌,
}
use instructional_agent_mvp.Schema.{Uuid, Json, RunStatus, AgentRun, Database}
use instructional_agent_mvp.Session.{
  Action, no_result_found, pure, raise, ◌>>=◌, ◌>>◌, query, rollback,
}
use instructional_agent_mvp.Hashing.{Hashing}
use instructional_agent_mvp.TaskIntake.{is_known_task_type}
use instructional_agent_mvp.ContextEngine.Operation.{Interruption}
use instructional_agent_mvp.Orchestrator.Request.{
  AgentRunOutcome, AgentRunResult, outcome_only, ProducerRequest, task_type, Resolution, answered,
  running, resolve_run,
}
use instructional_agent_mvp.Orchestrator.PhaseB.{Execution, Outside, phase_b_execute}

-- `.one()` on a run; no row has NULL for its identifier.
abbrev pub find_run : Option Uuid → Database → Option AgentRun
find_run none db = none
find_run (some id) db = find (λ r. r.logical_run_id == id) db.agent_runs

abbrev pub one_run : Option AgentRun → Action AgentRun
one_run none = raise no_result_found
one_run (some r) = pure r

abbrev pub succeeded_result : AgentRun → AgentRunResult
succeeded_result r = record {
  outcome = AgentRunOutcome.succeeded;
  logical_run_id = some r.logical_run_id;
  object_version_id = some r.target_object_version_id;
  object_version_content_id = some r.target_object_version_id;
}

abbrev pub result_of : AgentRunOutcome → Option Uuid → AgentRunResult
result_of outcome id = record (outcome_only outcome) { logical_run_id = id }

-- What one poll comes to; it goes on while the run is active.
abbrev pub after_poll : Action AgentRunResult → AgentRun → Action AgentRunResult
after_poll again r = elim r.status [
  | RunStatus.succeeded ↦ pure (succeeded_result r)
  | RunStatus.failed ↦ pure (result_of AgentRunOutcome.failed (some r.logical_run_id))
  | other ↦ again
]

-- The number is that of the polls before the deadline.
unfoldable pub poll_terminal_result : ℕ → Option Uuid → Action AgentRunResult
poll_terminal_result zero id = pure (result_of AgentRunOutcome.pending_poll_timeout id)
poll_terminal_result (suc polls) id =
    let again = poll_terminal_result polls id in
    (do rollback; found ← query (find_run id); r ← one_run found; rollback; after_poll again r)

-- The run's row is the authority for its version, its package and its bound.
abbrev pub execution_of : ProducerRequest → AgentRun → Execution
execution_of q r = record {
  logical_run_id = r.logical_run_id;
  target_object_id = q.target_object_id;
  target_object_version_id = r.target_object_version_id;
  worker_id = q.worker_id;
  provider = q.provider;
  model_identifier = q.model_identifier;
  instructions_version = q.instructions_version;
  output_schema_version = q.output_schema_version;
  context_package_id = r.context_package_id;
  max_attempts = r.max_attempts;
}

module _ (h : Hashing) (repr : Json → String) (w : Outside) (q : ProducerRequest) (polls : ℕ) where
  abbrev pub execute_run : Option Uuid → Action AgentRunResult
  execute_run id = do
    found ← query (find_run id)
    r ← one_run found
    rollback
    phase_b_execute h repr w (execution_of q r)
    poll_terminal_result polls id

  abbrev pub finish_request : Resolution → Action AgentRunResult
  finish_request (answered r) = pure r
  finish_request (running id) = execute_run id

  unfoldable pub request_producer_execution : (ℕ → ℕ → Interruption) → Action AgentRunResult
  request_producer_execution interruptions =
      if not (is_known_task_type task_type)
      then pure (outcome_only AgentRunOutcome.task_type_unresolved)
      else (do resolution ← resolve_run h q interruptions; finish_request resolution)
