-- ===== src/Orchestrator/PhaseA.antt =====
-- `_phase_a_create_run` of src/persistence/repositories/orchestrator.py.
use instructional_agent_mvp.Prelude.{ℕ, String}
use instructional_agent_mvp.Schema.{Uuid}
use instructional_agent_mvp.Session.{Action, pure, ◌>>=◌, ◌>>◌, execute}
use instructional_agent_mvp.AgentRunManager.{RunRequest, create_agent_run}
use instructional_agent_mvp.VersionCreation.{
  lock_instructional_object, resolve_or_create_object_version,
}

-- The arguments of `_phase_a_create_run`.
pub record Creation : Type 0 where
  pub target_object_id : String
  pub context_package_id : Uuid
  pub requested_by : String
  pub correlation_id : String
  pub idempotency_key : String
  pub max_attempts : ℕ

abbrev pub run_request : Creation → Uuid → RunRequest
run_request c version_id = record {
  role = "PRODUCER";
  task_type = "PRODUCE_LEARNING_OBJECT";
  target_object_version_id = version_id;
  context_package_id = c.context_package_id;
  requested_by = c.requested_by;
  correlation_id = c.correlation_id;
  idempotency_key = c.idempotency_key;
  max_attempts = c.max_attempts;
}

-- The run's identifier, and its version's.
unfoldable pub phase_a_create_run : Creation → Action (Uuid × Uuid)
phase_a_create_run c = do
  lock_instructional_object c.target_object_id
  version_id ← execute (resolve_or_create_object_version c.target_object_id)
  run_id ← execute (create_agent_run (run_request c version_id))
  pure (run_id, version_id)
