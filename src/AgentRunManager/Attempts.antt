-- ===== src/AgentRunManager/Attempts.antt =====
-- `next_attempt_number`, `create_attempt` and `close_attempt` of
-- src/persistence/repositories/agent_run_manager.py.
use instructional_agent_mvp.Prelude.{
  ℕ, ◌+◌, max, String, Bool, ◌&&◌, Option, none, some, List, [], ◌∷◌, select, update, insert, ◌==◌,
  is_none,
}
use instructional_agent_mvp.Schema.{Uuid, AttemptOutcome, Json, AgentRunAttempt, Database, uuid4}

-- What every attempt records of the call that made it.
pub record AttemptConfig : Type 0 where
  pub provider : Option String
  pub model_identifier : Option String
  pub instructions_version : Option String
  pub output_schema_version : Option String

-- The attempts of a run.
abbrev pub attempts_of : Uuid → List AgentRunAttempt → List AgentRunAttempt
attempts_of run_id = select (λ a. a.logical_run_id == run_id)

-- `coalesce(max(attempt_number), 0)`.
abbrev pub max_number : List AgentRunAttempt → ℕ
max_number [] = 0
max_number (a ∷ rows) = max a.attempt_number (max_number rows)

unfoldable pub next_attempt_number : Uuid → Database → ℕ
next_attempt_number run_id db = max_number (attempts_of run_id db.attempts) + 1

abbrev pub new_attempt : AttemptConfig → Uuid → Uuid → ℕ → ℕ → AgentRunAttempt
new_attempt c id run_id number generation = record {
  attempt_id = id;
  logical_run_id = run_id;
  attempt_number = number;
  lease_generation_at_creation = generation;
  outcome = none;
  failure_detail = none;
  provider = c.provider;
  model_identifier = c.model_identifier;
  instructions_version = c.instructions_version;
  output_schema_version = c.output_schema_version;
  output_payload = none;
  finished_at = none;
}

unfoldable pub create_attempt : AttemptConfig → Uuid → ℕ → ℕ → Database → Uuid × Database
create_attempt c run_id number generation db =
    let (id, db') = uuid4 db in
    (id, record db' { attempts = insert (new_attempt c id run_id number generation) db'.attempts })

abbrev pub is_open_attempt : Uuid → AgentRunAttempt → Bool
is_open_attempt id a = a.attempt_id == id && is_none a.outcome

abbrev pub closed :
    ℕ → AttemptOutcome → Option String → Option Json → AgentRunAttempt → AgentRunAttempt
closed started outcome detail payload a = record a {
  outcome = some outcome;
  failure_detail = detail;
  output_payload = payload;
  finished_at = some started;
}

-- Only an open attempt is closed.
unfoldable pub close_attempt :
    ℕ → Uuid → AttemptOutcome → Option String → Option Json → Database → Database
close_attempt started id outcome detail payload db = record db {
  attempts = update (is_open_attempt id) (closed started outcome detail payload) db.attempts;
}
