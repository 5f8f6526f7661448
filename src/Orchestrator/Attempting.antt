-- ===== src/Orchestrator/Attempting.antt =====
-- What the attempts of a run are after the operations that `_phase_b_execute` of
-- src/persistence/repositories/orchestrator.py commits.
use instructional_agent_mvp.Prelude.{
  ℕ, suc, ◌+◌, ◌≤◌, ◌≡◌, refl, ap, max, String, Bool, Option, some, inl, inr, List, [], ◌∷◌, arith,
  insert, update, select-insert, select-update, ltb, ◌==◌, Bool-cases, Option-cases,
}
use instructional_agent_mvp.Schema.{Uuid, AttemptOutcome, Json, AgentRunAttempt, Database}
use instructional_agent_mvp.AgentRunManager.{
  attempt_or_fail, reclaim, refresh_lease_for_same_owner_retry, reclaim_and_create_attempt,
  refresh_and_create_retry_attempt, abandoned, is_abandoned,
}
use instructional_agent_mvp.AgentRunManager.Lease.{Clock}
use instructional_agent_mvp.AgentRunManager.Attempts.{
  AttemptConfig, attempts_of, max_number, next_attempt_number, new_attempt, create_attempt,
  close_attempt, closed, is_open_attempt,
}
use instructional_agent_mvp.Orchestrator.PhaseB.{Held, held}

max_number-insert :
    (a : AgentRunAttempt) (rows : List AgentRunAttempt)
    → max_number (insert a rows) ≡ max (max_number rows) a.attempt_number
max_number-insert a [] = omega arith
max_number-insert a (r ∷ rows) = ground (arith, max_number-insert a rows)

max_number-update :
    (p : AgentRunAttempt → Bool) (f : AgentRunAttempt → AgentRunAttempt)
    (rows : List AgentRunAttempt)
    → ((a : AgentRunAttempt) → (f a).attempt_number ≡ a.attempt_number)
    → max_number (update p f rows) ≡ max_number rows
max_number-update p f [] same = refl
max_number-update p f (r ∷ rows) same = ground (arith, same r, max_number-update p f rows same)

module _ (run_id : Uuid) where
  next-create :
      (c : AttemptConfig) (generation : ℕ) (db : Database)
      → let number = next_attempt_number run_id db in
        next_attempt_number run_id (create_attempt c run_id number generation db).1 ≡ suc number
  unfolding next_attempt_number create_attempt
  next-create c generation db =
      let n = new_attempt c db.next_uuid run_id (next_attempt_number run_id db) generation in
      ground (
        arith,
        select-insert (λ (a : AgentRunAttempt). a.logical_run_id == run_id) n db.attempts,
        max_number-insert n (attempts_of run_id db.attempts),
      )

  pub next-close :
      (started : ℕ) (id : Uuid) (outcome : AttemptOutcome) (detail : Option String)
      (payload : Option Json) (db : Database)
      → next_attempt_number run_id (close_attempt started id outcome detail payload db)
        ≡ next_attempt_number run_id db
  unfolding next_attempt_number close_attempt
  next-close started id outcome detail payload db = ground (
    arith,
    select-update (λ (a : AgentRunAttempt). a.logical_run_id == run_id) (is_open_attempt id)
        (closed started outcome detail payload) db.attempts (λ a. refl),
    max_number-update (is_open_attempt id) (closed started outcome detail payload)
        (attempts_of run_id db.attempts) (λ a. refl),
  )

  next-same :
      (db db' : Database)
      → db'.attempts ≡ db.attempts
      → next_attempt_number run_id db' ≡ next_attempt_number run_id db
  unfolding next_attempt_number
  next-same db db' e = ap (λ rows. max_number (attempts_of run_id rows) + 1) e

  next-abandon :
      (clock : Clock) (db : Database)
      → max_number (attempts_of run_id (update (is_abandoned run_id) (abandoned clock) db.attempts))
        ≡ max_number (attempts_of run_id db.attempts)
  next-abandon clock db = ground (
    arith,
    select-update (λ (a : AgentRunAttempt). a.logical_run_id == run_id) (is_abandoned run_id)
        (abandoned clock) db.attempts (λ a. refl),
    max_number-update (is_abandoned run_id) (abandoned clock) (attempts_of run_id db.attempts)
        (λ a. refl),
  )

  next-reclaim :
      (clock : Clock) (worker : String) (db : Database)
      → next_attempt_number run_id (reclaim clock run_id worker db).1
        ≡ next_attempt_number run_id db
  unfolding next_attempt_number reclaim
  next-reclaim clock worker db = ground (arith, next-abandon clock db)

  next-refresh :
      (clock : Clock) (worker : String) (generation : ℕ) (db : Database)
      → next_attempt_number run_id
          (refresh_lease_for_same_owner_retry clock run_id worker generation db).1
        ≡ next_attempt_number run_id db
  unfolding next_attempt_number refresh_lease_for_same_owner_retry
  next-refresh clock worker generation db = ground arith

  module _ (clock : Clock) (c : AttemptConfig) (worker : String) (max_attempts : ℕ) where
    -- A granted attempt is within the bound, and the next number is greater by one.
    granted :
        (generation : ℕ) (db : Database) (y : Held)
        → held (attempt_or_fail clock c run_id worker max_attempts generation db).0 ≡ some y
        → (next_attempt_number run_id db ≤ max_attempts)
          × (next_attempt_number run_id
                (attempt_or_fail clock c run_id worker max_attempts generation db).1
              ≡ suc (next_attempt_number run_id db))
    unfolding attempt_or_fail
    granted generation db y e =
        elim (Bool-cases (ltb max_attempts (next_attempt_number run_id db))) [
          | inl e' ↦ absurd (ground arith)
          | inr e' ↦ (ground arith, rw e' (next-create c generation db))
        ]

    pub reclaim-granted :
        (db : Database) (y : Held)
        → held (reclaim_and_create_attempt clock c run_id worker max_attempts db).0 ≡ some y
        → (next_attempt_number run_id db ≤ max_attempts)
          × (next_attempt_number run_id
                (reclaim_and_create_attempt clock c run_id worker max_attempts db).1
              ≡ suc (next_attempt_number run_id db))
    unfolding reclaim_and_create_attempt
    reclaim-granted db y e = elim (Option-cases (reclaim clock run_id worker db).0) [
      | inl e' ↦ absurd (ground arith)
      | inr (g, e') ↦
          ground
            (arith, granted g (reclaim clock run_id worker db).1 y, next-reclaim clock worker db)
    ]

    pub retry-granted :
        (generation : ℕ) (db : Database) (y : Held)
        → held (refresh_and_create_retry_attempt clock c run_id worker generation max_attempts db).0
          ≡ some y
        → (next_attempt_number run_id db ≤ max_attempts)
          × (next_attempt_number run_id
                (refresh_and_create_retry_attempt clock c run_id worker generation max_attempts
                  db).1
              ≡ suc (next_attempt_number run_id db))
    unfolding refresh_and_create_retry_attempt
    retry-granted generation db y e =
        elim (Option-cases
          (refresh_lease_for_same_owner_retry clock run_id worker generation db).0) [
            | inl e' ↦ absurd (ground arith)
            | inr (g, e') ↦ ground (
              arith,
              granted g (refresh_lease_for_same_owner_retry clock run_id worker generation db).1 y,
              next-refresh clock worker generation db,
            )
          ]
