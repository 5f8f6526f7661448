-- ===== src/AgentRunManager/Tests.antt =====
-- The theorems on runs at a run that a worker has acquired, and that another one takes over.
use instructional_agent_mvp.Prelude.{
  ℕ, ◌≤◌, ◌≡◌, ◌↔◌, refl, String, true, false, none, some, arith, length,
}
use instructional_agent_mvp.Schema.{
  in_progress, succeeded, AttemptOutcome, AgentRun, AgentRunAttempt, Database, empty_database,
}
use instructional_agent_mvp.AgentRunManager.{
  RunRequest, create_agent_run, acquire_and_create_first_attempt, reclaim_and_create_attempt,
  authorize_terminal_success, acquire, reclaim, attempt_or_fail, refresh_and_create_retry_attempt,
  refresh_lease_for_same_owner_retry, lock_agent_run_row_for_update,
}
use instructional_agent_mvp.AgentRunManager.Lease.{Clock}
use instructional_agent_mvp.AgentRunManager.Attempts.{
  AttemptConfig, new_attempt, create_attempt, next_attempt_number, close_attempt,
}
use instructional_agent_mvp.AgentRunManager.Counts.{success_count, Numbered, Fenced}
use instructional_agent_mvp.AgentRunManager.Invariant.{run_of, own_attempts, Inv}
use instructional_agent_mvp.AgentRunManager.Fencing.{IsOwner, authorized_iff_IsOwner}
use instructional_agent_mvp.AgentRunManager.Steps.{
  Step, Steps, IsBound, IsAttemptOf, end_by_owner, reachable_attempts, stale_generation_refused,
  ended_stays, Steps-Inv, empty-Inv,
}

abbrev asked : RunRequest
asked = record {
  role = "PRODUCER";
  task_type = "PRODUCE_LEARNING_OBJECT";
  target_object_version_id = 0;
  context_package_id = 9;
  requested_by = "editor";
  correlation_id = "c";
  idempotency_key = "k";
  max_attempts = 2;
}

abbrev config : AttemptConfig
config = record {
  provider = some "p";
  model_identifier = some "m";
  instructions_version = some "i";
  output_schema_version = some "o";
}

abbrev at : ℕ → Clock
at t = record { started = t; tested = t; written = t; marked = t }

-- The run 0 is created, acquired by "ann" at 100, and taken over by "bob" at 200.
created : Database
created = (create_agent_run asked empty_database).1

acquired : Database
unfolding created
acquired = (acquire_and_create_first_attempt (at 100) config 0 "ann" created).1

taken : Database
unfolding acquired
taken = (reclaim_and_create_attempt (at 200) config 0 "bob" 2 acquired).1

abbrev row : ℕ → String → ℕ → AgentRun
row generation worker expiry = record {
  logical_run_id = 0;
  role = "PRODUCER";
  producer_logical_run_id = none;
  task_type = "PRODUCE_LEARNING_OBJECT";
  target_object_version_id = 0;
  context_package_id = 9;
  requested_by = "editor";
  correlation_id = "c";
  idempotency_key = "k";
  status = in_progress;
  claimed_by = some worker;
  lease_expires_at = some expiry;
  lease_generation = generation;
  max_attempts = 2;
}

run_acquired : run_of 0 acquired ≡ some (row 1 "ann" 160)
unfolding acquired create_agent_run acquire_and_create_first_attempt acquire create_attempt
run_acquired = refl

run_taken : run_of 0 taken ≡ some (row 2 "bob" 260)
unfolding taken create_agent_run acquire_and_create_first_attempt acquire create_attempt
    reclaim_and_create_attempt reclaim attempt_or_fail next_attempt_number
run_taken = refl

to_acquired : Steps empty_database acquired
unfolding acquired
to_acquired =
    Steps.next empty_database created acquired
      (Steps.next empty_database empty_database created (Steps.done empty_database)
        (Step.create asked empty_database))
      (Step.acquire_first (at 100) config 0 "ann" created)

bound : IsBound 0 2 acquired
bound r e = ground (arith, run_acquired)

take : Steps acquired taken
unfolding taken
take =
    Steps.next acquired acquired taken (Steps.done acquired)
      (Step.take_over (at 200) config 0 "bob" 2 acquired bound)

-- Ann's first call fails at 120, and she tries again at 130.
retried : Database
unfolding acquired
retried =
    (refresh_and_create_retry_attempt (at 130) config 0 "ann" 1 2
      (close_attempt 120 1 AttemptOutcome.technical_failure (some "timeout") none acquired)).1

run_retried : run_of 0 retried ≡ some (row 1 "ann" 190)
unfolding retried acquired create_agent_run acquire_and_create_first_attempt acquire create_attempt
    close_attempt refresh_and_create_retry_attempt refresh_lease_for_same_owner_retry
    lock_agent_run_row_for_update attempt_or_fail next_attempt_number
run_retried = refl

IsBound-closed :
    IsBound 0 2
      (close_attempt 120 1 AttemptOutcome.technical_failure (some "timeout") none acquired)
unfolding close_attempt
IsBound-closed r e = ground (arith, run_acquired)

to_retried : Steps empty_database retried
unfolding retried
to_retried =
    let failed =
      close_attempt 120 1 AttemptOutcome.technical_failure (some "timeout") none acquired in
    Steps.next empty_database failed retried
      (Steps.next empty_database acquired failed to_acquired
        (Step.close 120 1 AttemptOutcome.technical_failure (some "timeout") none acquired refl))
      (Step.retry (at 130) config 0 "ann" 1 2 failed IsBound-closed)

reachable_attempts_example :
    (success_count (own_attempts 0 retried) ≤ 1)
    × ((length (own_attempts 0 retried) ≤ 2)
        × (Numbered 1 (own_attempts 0 retried) × Fenced 1 (own_attempts 0 retried)))
reachable_attempts_example = reachable_attempts retried 0 (row 1 "ann" 190) to_retried run_retried

acquired-Inv : Inv acquired
acquired-Inv = Steps-Inv empty_database acquired to_acquired empty-Inv

authorized_iff_IsOwner_example :
    ((authorize_terminal_success 150 0 "ann" 1 acquired).0 ≡ true)
    ↔ ((r : AgentRun) × ((run_of 0 acquired ≡ some r) × IsOwner "ann" 1 150 r))
authorized_iff_IsOwner_example = authorized_iff_IsOwner 150 0 "ann" 1 acquired acquired-Inv.keys

-- Ann's generation is overtaken.
stale_generation_refused_example : authorize_terminal_success 210 0 "ann" 1 taken ≡ (false, taken)
stale_generation_refused_example =
    (stale_generation_refused taken taken 0 (row 2 "bob" 260)
      (Steps-Inv acquired taken take acquired-Inv) run_taken (Steps.done taken) "ann" 1 210 (at 210)
      config 2 (omega arith)).0

-- Ann's call succeeds instead, and Bob finds the run ended.
finished : Database
unfolding acquired
finished = end_by_owner 150 1 0 AttemptOutcome.success none none 150 "ann" 1 acquired

abbrev ended_row : AgentRun
ended_row = record (row 1 "ann" 160) { status = succeeded }

run_finished : run_of 0 finished ≡ some ended_row
unfolding finished create_agent_run acquire_and_create_first_attempt acquire create_attempt
    close_attempt authorize_terminal_success end_by_owner
run_finished = refl

abbrev first_attempt : AgentRunAttempt
first_attempt = new_attempt config 1 0 1 1

ann_attempt : IsAttemptOf 1 0 acquired
unfolding acquired create_agent_run acquire_and_create_first_attempt acquire create_attempt
ann_attempt = record { attempt = first_attempt; found = refl; of_run = refl }

to_finished : Steps empty_database finished
unfolding finished
to_finished =
    Steps.next empty_database acquired finished to_acquired
      (Step.succeed 150 1 0 AttemptOutcome.success none none 150 "ann" 1 acquired ann_attempt)

abbrev after_bob : Database
after_bob = (acquire_and_create_first_attempt (at 300) config 0 "bob" finished).1

ended_stays_example : run_of 0 after_bob ≡ some ended_row
ended_stays_example =
    ended_stays finished after_bob 0 ended_row
      (Steps-Inv empty_database finished to_finished empty-Inv) run_finished
      (Steps.next finished finished after_bob (Steps.done finished)
        (Step.acquire_first (at 300) config 0 "bob" finished))
      refl
