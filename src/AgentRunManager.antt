-- ===== src/AgentRunManager.antt =====
-- src/persistence/repositories/agent_run_manager.py. Each function runs inside the transaction of
-- its caller: it takes the database as that transaction sees it, and returns its result and the
-- database after its statements. None of them commits.
pub mod Lease
pub mod Attempts
pub mod Counts
pub mod Consistency
pub mod Invariant
pub mod Writes
pub mod Operations
pub mod Fencing
pub mod Evolution
pub mod Closing
pub mod Creation
pub mod Steps
mod Tests
use instructional_agent_mvp.Prelude.{
  ℕ, ◌+◌, String, Bool, true, false, ◌&&◌, not, Option, none, some, arith, find, update, insert,
  ltb, ◌==◌, is_none, is_text, if◌then◌else◌,
}
use instructional_agent_mvp.Schema.{
  Uuid, RunStatus, pending, in_progress, succeeded, failed, is_pending, is_in_progress,
  AttemptOutcome, claim_lost, Json, AgentRun, AgentRunAttempt, Database, uuid4,
}
use Lease.{Clock, new_lease_expiry, lease_is_valid, lease_is_expired}
use Attempts.{AttemptConfig, next_attempt_number, create_attempt}

-- What an ownership operation answers: the generation, the attempt, and whether the attempts have
-- run out.
pub record AttemptAuthorization : Type 0 where
  pub generation : Option ℕ
  pub attempt_id : Option Uuid
  pub failed_max_attempts : Bool

-- `_lock_agent_run_row_for_update`: whether the row exists. Its lock shows in the clock, whose
-- readings for the next statement are taken after the wait.
pub lock_agent_run_row_for_update : Uuid → Database → Bool
lock_agent_run_row_for_update run_id db =
    not (is_none (find (λ r. r.logical_run_id == run_id) db.agent_runs))

-- What `request_producer_execution` passes for a new run.
pub record RunRequest : Type 0 where
  pub role : String
  pub task_type : String
  pub target_object_version_id : Uuid
  pub context_package_id : Uuid
  pub requested_by : String
  pub correlation_id : String
  pub idempotency_key : String
  pub max_attempts : ℕ

abbrev pub new_run : RunRequest → Uuid → AgentRun
new_run q id = record {
  logical_run_id = id;
  role = q.role;
  producer_logical_run_id = none;
  task_type = q.task_type;
  target_object_version_id = q.target_object_version_id;
  context_package_id = q.context_package_id;
  requested_by = q.requested_by;
  correlation_id = q.correlation_id;
  idempotency_key = q.idempotency_key;
  status = pending;
  claimed_by = none;
  lease_expires_at = none;
  lease_generation = 0;
  max_attempts = q.max_attempts;
}

unfoldable pub create_agent_run : RunRequest → Database → Uuid × Database
create_agent_run q db =
    let (id, db') = uuid4 db in
    (id, record db' { agent_runs = insert (new_run q id) db'.agent_runs })

-- An UPDATE of `agent_run` with its RETURNING clause, read by `scalar_one_or_none()`.
abbrev update_run :
    {A : Type 0}
    → (AgentRun → Bool)
    → (AgentRun → AgentRun)
    → (AgentRun → A)
    → Database
    → Option A × Database
update_run p f returning db = (
  elim (find p db.agent_runs) [ none ↦ none | some r ↦ some (returning (f r)) ],
  record db { agent_runs = update p f db.agent_runs },
)

abbrev pub can_acquire : Uuid → AgentRun → Bool
can_acquire run_id r = r.logical_run_id == run_id && is_pending r.status

abbrev pub acquired : Clock → String → AgentRun → AgentRun
acquired clock worker r = record r {
  status = in_progress;
  claimed_by = some worker;
  lease_expires_at = some (new_lease_expiry clock.written);
  lease_generation = r.lease_generation + 1;
}

unfoldable pub acquire : Clock → Uuid → String → Database → Option ℕ × Database
acquire clock run_id worker =
    update_run (can_acquire run_id) (acquired clock worker) (λ r. r.lease_generation)

abbrev pub can_reclaim : Clock → Uuid → AgentRun → Bool
can_reclaim clock run_id r =
    r.logical_run_id == run_id
    && (is_in_progress r.status && lease_is_expired r.lease_expires_at clock.tested)

abbrev pub reclaimed : Clock → String → AgentRun → AgentRun
reclaimed clock worker r = record r {
  claimed_by = some worker;
  lease_expires_at = some (new_lease_expiry clock.written);
  lease_generation = r.lease_generation + 1;
}

abbrev pub is_abandoned : Uuid → AgentRunAttempt → Bool
is_abandoned run_id a = a.logical_run_id == run_id && is_none a.outcome

abbrev pub abandoned : Clock → AgentRunAttempt → AgentRunAttempt
abandoned clock a = record a { outcome = some claim_lost; finished_at = some clock.started }

-- The second statement of `reclaim`, which runs only if the first took the run.
abbrev pub close_abandoned : Clock → Uuid → Option ℕ × Database → Option ℕ × Database
close_abandoned clock run_id (none, db) = (none, db)
close_abandoned clock run_id (some generation, db) = (
  some generation,
  record db { attempts = update (is_abandoned run_id) (abandoned clock) db.attempts },
)

unfoldable pub reclaim : Clock → Uuid → String → Database → Option ℕ × Database
reclaim clock run_id worker db =
    close_abandoned clock run_id
      (update_run (can_reclaim clock run_id) (reclaimed clock worker) (λ r. r.lease_generation) db)

-- The WHERE clause that the owner of a valid lease passes, read at one time.
abbrev pub is_owner : Uuid → String → ℕ → ℕ → AgentRun → Bool
is_owner run_id worker generation now r =
    r.logical_run_id == run_id
    && (is_text r.claimed_by worker
        && (r.lease_generation == generation
            && (is_in_progress r.status && lease_is_valid r.lease_expires_at now)))

abbrev pub refreshed : Clock → AgentRun → AgentRun
refreshed clock r = record r { lease_expires_at = some (new_lease_expiry clock.written) }

unfoldable pub refresh_lease_for_same_owner_retry :
    Clock → Uuid → String → ℕ → Database → Option ℕ × Database
unfolding lock_agent_run_row_for_update
refresh_lease_for_same_owner_retry clock run_id worker generation db =
    if lock_agent_run_row_for_update run_id db
    then update_run (is_owner run_id worker generation clock.tested) (refreshed clock)
        (λ r. r.lease_generation) db
    else (none, db)

abbrev pub finished : RunStatus → AgentRun → AgentRun
finished status r = record r { status = status }

-- `mark_failed_if_owner` and `authorize_terminal_success` are this function at their status.
unfoldable pub finish_if_owner : RunStatus → ℕ → Uuid → String → ℕ → Database → Bool × Database
unfolding lock_agent_run_row_for_update
finish_if_owner status now run_id worker generation db =
    if lock_agent_run_row_for_update run_id db
    then (let (returned, db') =
          update_run (is_owner run_id worker generation now) (finished status)
            (λ r. r.logical_run_id) db in
        (not (is_none returned), db'))
    else (false, db)

unfoldable pub mark_failed_if_owner : ℕ → Uuid → String → ℕ → Database → Bool × Database
unfolding finish_if_owner
mark_failed_if_owner = finish_if_owner failed

unfoldable pub authorize_terminal_success : ℕ → Uuid → String → ℕ → Database → Bool × Database
unfolding finish_if_owner
authorize_terminal_success = finish_if_owner succeeded

abbrev pub refused : AttemptAuthorization
refused = record { generation = none; attempt_id = none; failed_max_attempts = false }

-- The end that `reclaim_and_create_attempt` and `refresh_and_create_retry_attempt` share: fail the
-- run if its attempts have run out, and else create the next attempt. What
-- `mark_failed_if_owner` answers is dropped, as in the code.
unfoldable pub attempt_or_fail :
    Clock → AttemptConfig → Uuid → String → ℕ → ℕ → Database → AttemptAuthorization × Database
unfolding mark_failed_if_owner
attempt_or_fail clock config run_id worker max_attempts generation db =
    let next_number = next_attempt_number run_id db in
    if ltb max_attempts next_number
    then (
      record { generation = some generation; attempt_id = none; failed_max_attempts = true },
      (mark_failed_if_owner clock.marked run_id worker generation db).1,
    )
    else (let (id, db') = create_attempt config run_id next_number generation db in
        (
          record {
            generation = some generation;
            attempt_id = some id;
            failed_max_attempts = false;
          },
          db',
        ))

unfoldable pub acquire_and_create_first_attempt :
    Clock → AttemptConfig → Uuid → String → Database → AttemptAuthorization × Database
acquire_and_create_first_attempt clock config run_id worker db =
    let (generation, db') = acquire clock run_id worker db in
    elim generation [
      | none ↦ (refused, db')
      | some g ↦
          let (id, db'') = create_attempt config run_id 1 g db' in
          (record { generation = some g; attempt_id = some id; failed_max_attempts = false }, db'')
    ]

-- `if generation is None: return` refused, and else go on.
abbrev pub authorize :
    Clock
    → AttemptConfig
    → Uuid
    → String
    → ℕ
    → Option ℕ × Database
    → AttemptAuthorization × Database
authorize clock config run_id worker max_attempts (none, db) = (refused, db)
authorize clock config run_id worker max_attempts (some generation, db) =
    attempt_or_fail clock config run_id worker max_attempts generation db

unfoldable pub reclaim_and_create_attempt :
    Clock → AttemptConfig → Uuid → String → ℕ → Database → AttemptAuthorization × Database
reclaim_and_create_attempt clock config run_id worker max_attempts db =
    authorize clock config run_id worker max_attempts (reclaim clock run_id worker db)

unfoldable pub refresh_and_create_retry_attempt :
    Clock → AttemptConfig → Uuid → String → ℕ → ℕ → Database → AttemptAuthorization × Database
refresh_and_create_retry_attempt clock config run_id worker generation max_attempts db =
    authorize clock config run_id worker max_attempts
      (refresh_lease_for_same_owner_retry clock run_id worker generation db)
