-- ===== src/AgentRunManager/Steps.antt =====
-- The transactions on `agent_run` and `agent_run_attempt` as steps, in any order and by any workers.
use instructional_agent_mvp.Prelude.{
  ℕ, ◌<◌, ◌≤◌, ◌≡◌, refl, ap, ◌∙◌, max, String, true, false, Bool-cases, Option-cases, inl, inr,
  row, if◌then◌else◌, Option, some, arith, All-map, length,
}
use instructional_agent_mvp.Schema.{
  Uuid, failed, succeeded, AttemptOutcome, is_success, Json, AgentRun, AgentRunAttempt, Database,
  empty_database,
}
use instructional_agent_mvp.AgentRunManager.{
  RunRequest, create_agent_run, authorize_terminal_success, mark_failed_if_owner,
  acquire_and_create_first_attempt, reclaim_and_create_attempt, refresh_and_create_retry_attempt,
  refused,
}
use instructional_agent_mvp.AgentRunManager.Lease.{Clock}
use instructional_agent_mvp.AgentRunManager.Attempts.{AttemptConfig, close_attempt}
use instructional_agent_mvp.AgentRunManager.Counts.{success_count, Numbered, Fenced}
use instructional_agent_mvp.AgentRunManager.Invariant.{run_of, own_attempts, Inv, Inv-run}
use instructional_agent_mvp.AgentRunManager.Operations.{
  acquire_and_create_first_attempt-Inv, reclaim_and_create_attempt-Inv,
  refresh_and_create_retry_attempt-Inv,
}
use instructional_agent_mvp.AgentRunManager.Fencing.{
  IsOwner, authorized_iff_IsOwner, others_finish_nothing, others_refresh_nothing,
}
use instructional_agent_mvp.AgentRunManager.Evolution.{
  has_ended, RunsEvolve, RunsEvolve-trans, same_runs-RunsEvolve, acquire-RunsEvolve,
  refresh-RunsEvolve, reclaim-RunsEvolve, success-RunsEvolve, create-RunsEvolve,
}
use instructional_agent_mvp.AgentRunManager.Creation.{create_agent_run-Inv}
use instructional_agent_mvp.AgentRunManager.Closing.{
  attempt_key, close_attempt-Inv, success-Inv, success_closed-Inv,
}

-- The bound that a caller passes is the one that the run was created with.
abbrev pub IsBound : Uuid → ℕ → Database → Type 0
IsBound i max_attempts db = (r : AgentRun) → run_of i db ≡ some r → max_attempts ≡ r.max_attempts

-- The attempt that a caller was given is one of its run.
pub record IsAttemptOf (id i : Uuid) (db : Database) : Type 0 where
  pub attempt : AgentRunAttempt
  pub found : row attempt_key id db.attempts ≡ some attempt
  pub of_run : attempt.logical_run_id ≡ i

-- What phase C does to runs and attempts: the run ends together with the attempt, if the caller
-- owns it.
unfoldable pub end_by_owner :
    ℕ
    → Uuid
    → Uuid
    → AttemptOutcome
    → Option String
    → Option Json
    → ℕ
    → String
    → ℕ
    → Database
    → Database
end_by_owner started id i outcome detail payload now worker g db =
    let (authorized, ended) = authorize_terminal_success now i worker g db in
    if authorized then close_attempt started id outcome detail payload ended else db

-- One committed transaction on runs and attempts, by any caller and at any time. `elsewhere` is any
-- transaction on other tables.
pub data Step : Database → Database → Type 0 where
  create : (q : RunRequest) (db : Database) → Step db (create_agent_run q db).1
  acquire_first :
      (clock : Clock) (c : AttemptConfig) (i : Uuid) (worker : String) (db : Database)
      → Step db (acquire_and_create_first_attempt clock c i worker db).1
  take_over :
      (clock : Clock) (c : AttemptConfig) (i : Uuid) (worker : String) (max_attempts : ℕ)
      (db : Database)
      → IsBound i max_attempts db
      → Step db (reclaim_and_create_attempt clock c i worker max_attempts db).1
  retry :
      (clock : Clock) (c : AttemptConfig) (i : Uuid) (worker : String) (g max_attempts : ℕ)
      (db : Database)
      → IsBound i max_attempts db
      → Step db (refresh_and_create_retry_attempt clock c i worker g max_attempts db).1
  close :
      (started : ℕ) (id : Uuid) (outcome : AttemptOutcome) (detail : Option String)
      (payload : Option Json) (db : Database)
      → is_success (some outcome) ≡ false
      → Step db (close_attempt started id outcome detail payload db)
  succeed :
      (started : ℕ) (id i : Uuid) (outcome : AttemptOutcome) (detail : Option String)
      (payload : Option Json) (now : ℕ) (worker : String) (g : ℕ) (db : Database)
      → IsAttemptOf id i db
      → Step db (end_by_owner started id i outcome detail payload now worker g db)
  elsewhere :
      (db db' : Database)
      → db'.agent_runs ≡ db.agent_runs
      → db'.attempts ≡ db.attempts
      → db.next_uuid ≤ db'.next_uuid
      → Step db db'

pub data Steps : Database → Database → Type 0 where
  done : (db : Database) → Steps db db
  next : (a b c : Database) → Steps a b → Step b c → Steps a c

pub elsewhere-Inv :
    (db db' : Database)
    → db'.agent_runs ≡ db.agent_runs
    → db'.attempts ≡ db.attempts
    → db.next_uuid ≤ db'.next_uuid
    → Inv db
    → Inv db'
elsewhere-Inv db db' e e' le inv = record {
  keys =
      rw (e, e')
        (record {
          runs_unique = inv.keys.runs_unique;
          runs_fresh =
              All-map (λ r. r.logical_run_id < db.next_uuid) (λ r. r.logical_run_id < db'.next_uuid)
                db.agent_runs (λ r h. omega arith) inv.keys.runs_fresh;
          attempts_unique = inv.keys.attempts_unique;
          attempts_fresh =
              All-map (λ a. a.attempt_id < db.next_uuid) (λ a. a.attempt_id < db'.next_uuid)
                db.attempts (λ a h. omega arith) inv.keys.attempts_fresh;
        });
  runs = λ i. rw (e, e') (inv.runs i);
}

end_by_owner-Inv :
    (started : ℕ) (id i : Uuid) (outcome : AttemptOutcome) (detail : Option String)
    (payload : Option Json) (now : ℕ) (worker : String) (g : ℕ) (db : Database)
    → Inv db
    → IsAttemptOf id i db
    → Inv (end_by_owner started id i outcome detail payload now worker g db)
unfolding end_by_owner
end_by_owner-Inv started id i outcome detail payload now worker g db inv held =
    elim (Bool-cases (authorize_terminal_success now i worker g db).0) [
      | inr e ↦ rw (e, end_by_owner) inv
      | inl e ↦
          let (r, (found, o)) = (authorized_iff_IsOwner now i worker g db inv.keys).0 e in
          rw (e, end_by_owner)
            (elim (Option-cases held.attempt.outcome) [
              | inl unended ↦
                  success-Inv started id i outcome detail payload now worker g db r inv
                    (record {
                      attempt = held.attempt;
                      found = held.found;
                      of_run = held.of_run;
                      still_open = unended;
                    })
                    found o
              | inr (x, shut) ↦
                  success_closed-Inv started id i outcome detail payload now worker g db r
                    held.attempt x inv held.found shut found o
            ])
    ]

-- Every transaction keeps the invariant.
pub step-Inv : (db db' : Database) → Step db db' → Inv db → Inv db'
step-Inv _ _ (create q db) inv = create_agent_run-Inv q db inv
step-Inv _ _ (acquire_first clock c i worker db) inv =
    acquire_and_create_first_attempt-Inv clock c i worker db inv
step-Inv _ _ (take_over clock c i worker m db bound) inv =
    reclaim_and_create_attempt-Inv clock c i worker m db inv bound
step-Inv _ _ (retry clock c i worker g m db bound) inv =
    refresh_and_create_retry_attempt-Inv clock c i worker g m db inv bound
step-Inv _ _ (close started id outcome detail payload db fails) inv =
    close_attempt-Inv started id outcome detail payload db fails inv
step-Inv _ _ (succeed started id i outcome detail payload now worker g db held) inv =
    end_by_owner-Inv started id i outcome detail payload now worker g db inv held
step-Inv _ _ (elsewhere db db' e e' le) inv = elsewhere-Inv db db' e e' le inv

step-RunsEvolve : (db db' : Database) → Step db db' → Inv db → RunsEvolve db db'
unfolding close_attempt end_by_owner
step-RunsEvolve _ _ (create q db) inv = create-RunsEvolve q db
step-RunsEvolve _ _ (acquire_first clock c i worker db) inv =
    acquire-RunsEvolve clock c i worker db inv.keys
step-RunsEvolve _ _ (take_over clock c i worker m db bound) inv =
    reclaim-RunsEvolve clock c i worker db inv.keys m
step-RunsEvolve _ _ (retry clock c i worker g m db bound) inv =
    refresh-RunsEvolve clock c i worker db inv.keys g m
step-RunsEvolve _ _ (close started id outcome detail payload db fails) inv =
    same_runs-RunsEvolve db (close_attempt started id outcome detail payload db) refl
step-RunsEvolve _ _ (succeed started id i outcome detail payload now worker g db held) inv =
    elim (Bool-cases (authorize_terminal_success now i worker g db).0) [
      | inl e ↦ rw (e, end_by_owner) (success-RunsEvolve now i worker g db inv.keys)
      | inr e ↦ rw (e, end_by_owner) (same_runs-RunsEvolve db db refl)
    ]
step-RunsEvolve _ _ (elsewhere db db' e e' le) inv = same_runs-RunsEvolve db db' e

pub Steps-Inv : (db db' : Database) → Steps db db' → Inv db → Inv db'
Steps-Inv _ _ (done db) inv = inv
Steps-Inv _ _ (next a b c steps step) inv = step-Inv b c step (Steps-Inv a b steps inv)

Steps-RunsEvolve : (db db' : Database) → Steps db db' → Inv db → RunsEvolve db db'
Steps-RunsEvolve _ _ (done db) inv = same_runs-RunsEvolve db db refl
Steps-RunsEvolve _ _ (next a b c steps step) inv =
    RunsEvolve-trans a b c (Steps-RunsEvolve a b steps inv)
      (step-RunsEvolve b c step (Steps-Inv a b steps inv))

pub empty-Inv : Inv empty_database
empty-Inv = record {
  keys = record { runs_unique = tt; runs_fresh = tt; attempts_unique = tt; attempts_fresh = tt };
  runs = λ i. refl;
}

-- In every database that the transactions reach from the empty one, for any callers that pass the
-- bound the run was created with, end a run only with an attempt of it, and otherwise close attempts
-- as failures: a run has at most one successful attempt, and no more attempts than the greater of 1
-- and its bound; they are numbered upwards from 1, none was created under a later generation than
-- the run's, and an open one was created under the run's.
pub reachable_attempts :
    (db : Database) (i : Uuid) (r : AgentRun)
    → Steps empty_database db
    → run_of i db ≡ some r
    → (success_count (own_attempts i db) ≤ 1)
      × ((length (own_attempts i db) ≤ max 1 r.max_attempts)
          × (Numbered 1 (own_attempts i db) × Fenced r.lease_generation (own_attempts i db)))
reachable_attempts db i r steps found =
    let v = Inv-run db i r (Steps-Inv empty_database db steps empty-Inv) found in
    (ground (arith, v.one_success), (ground (arith, v.bounded), (v.numbered, v.fenced)))

module _ (db db' : Database) (i : Uuid) (r : AgentRun) (inv : Inv db) (found : run_of i db ≡ some r)
    (steps : Steps db db') where
  overtaken :
      (worker : String) (g now : ℕ)
      → g < r.lease_generation
      → (r' : AgentRun) → run_of i db' ≡ some r'
      → ¬ IsOwner worker g now r'
  overtaken worker g now later r' found' o =
      let (r'', (e, v)) = Steps-RunsEvolve db db' steps inv i r found in
      ground (arith, v.generation, o.current)

  -- A generation below the run's is refused for ever: whatever transactions follow, its holder can
  -- end the run neither as a success nor as a failure, nor refresh its lease, and writes nothing.
  pub stale_generation_refused :
      (worker : String) (g now : ℕ) (clock : Clock) (c : AttemptConfig) (max_attempts : ℕ)
      → g < r.lease_generation
      → (authorize_terminal_success now i worker g db' ≡ (false, db'))
        × ((mark_failed_if_owner now i worker g db' ≡ (false, db'))
            × (refresh_and_create_retry_attempt clock c i worker g max_attempts db'
                ≡ (refused, db')))
  unfolding authorize_terminal_success mark_failed_if_owner
  stale_generation_refused worker g now clock c max_attempts later =
      let k = (Steps-Inv db db' steps inv).keys in
      (
        others_finish_nothing succeeded now i worker g db' k (overtaken worker g now later),
        (
          others_finish_nothing failed now i worker g db' k (overtaken worker g now later),
          others_refresh_nothing clock i worker db' k c g max_attempts
              (overtaken worker g clock.tested later),
        ),
      )

  -- The row of a run that has ended is the same after any transactions.
  pub ended_stays : has_ended r.status ≡ true → run_of i db' ≡ some r
  ended_stays ended =
      let (r', (found', v)) = Steps-RunsEvolve db db' steps inv i r found in
      found' ∙ ap some (v.ended ended)
