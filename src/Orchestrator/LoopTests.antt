-- ===== src/Orchestrator/LoopTests.antt =====
-- The theorems on phase B at a run whose producer never answers well.
use instructional_agent_mvp.Prelude.{ℕ, ◌≢◌, false, some, none, []}
use instructional_agent_mvp.Schema.{object, array, nil, end}
use instructional_agent_mvp.Session.{open_transaction, ok, raised, idle}
use instructional_agent_mvp.AgentRunManager.Lease.{Clock}
use instructional_agent_mvp.Orchestrator.PhaseB.{
  Execution, Outside, Reading, attempts_loop, phase_b_execute,
}
use instructional_agent_mvp.Orchestrator.Guard.{phase_b_guarded}
use instructional_agent_mvp.Orchestrator.Termination.{attempts_loop-Returns}
use instructional_agent_mvp.Examples.{plain, course}

abbrev at : ℕ → Clock
at t = record { started = t; tested = t; written = t; marked = t }

abbrev failing : Outside
failing = record {
  Raw = Unit {0};
  produce = λ n contract payload. record {
    raw_response = none;
    parsed_output = none;
    technical_error = some "down";
  };
  passes = λ n. record {
    ended = 120;
    final = record { tested = 120; started = 120; restarted = 120 };
    refreshed = at 120;
    reclaimed = at 120;
  };
  acquired = at 100;
  reclaimed = at 100;
}

abbrev execution : Execution
execution = record {
  logical_run_id = 3;
  target_object_id = "lesson";
  target_object_version_id = 0;
  worker_id = "ann";
  provider = "p";
  model_identifier = "m";
  instructions_version = "i";
  output_schema_version = "producer-output-v1";
  context_package_id = 9;
  max_attempts = 2;
}

abbrev reading : Reading
reading = record {
  context = record {
    context_package_id = 9;
    context_package_hash = "h";
    context_contract_version = "context-engine-v1";
    task_type = "PRODUCE_LEARNING_OBJECT";
    target_object_id = "lesson";
    pinned_version_id = none;
    idempotency_key = "context-for:k";
    approved_objects = array nil;
    relations = array nil;
    evidence = array nil;
    dependency_status = array nil;
    gaps = array nil;
    run_metadata = object end;
  };
  expected = some "CONTENT";
  allowed = [];
}

phase_b_guarded_example :
    (phase_b_execute plain (λ j. "") failing execution (idle course [])).0 ≢ raised open_transaction
phase_b_guarded_example = phase_b_guarded plain (λ j. "") failing execution (idle course [])

attempts_loop-Returns_example :
    (attempts_loop plain
      (λ j. "")
      failing
      execution
      reading
      3
      (record { generation = 1; attempt_id = 4 })
      (idle course [])).0
    ≢ ok false
attempts_loop-Returns_example =
    attempts_loop-Returns plain (λ j. "") failing execution reading
      (record { generation = 1; attempt_id = 4 }) course [] tt
