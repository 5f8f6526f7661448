-- ===== src/WorkflowTransition/Rounds.antt =====
-- What one call of `request_workflow_transition` answers, by the row of its key.
use instructional_agent_mvp.Prelude.{
  ◌≡◌, ◌≢◌, ◌∙◌, refl, String, true, Option, none, some, List, [], ◌∷◌, text_eq, text_eq_iff,
  Bool-cases, inl, inr,
}
use instructional_agent_mvp.Schema.{workflow_transition, IdempotencyOperation, Database}
use instructional_agent_mvp.Session.{ok, idle}
use instructional_agent_mvp.Session.Laws.{turn, later, retry_returns}
use instructional_agent_mvp.Hashing.{Hashing}
use instructional_agent_mvp.TaskIntake.{is_known_task_type}
use instructional_agent_mvp.Idempotency.{find_operation, reserve}
use instructional_agent_mvp.Idempotency.Laws.{reserve_free, reserve_taken}
use instructional_agent_mvp.WorkflowTransition.{
  TransitionRequest, TransitionResult, TransitionOutcome, outcome_only,
  apply_transition_in_transaction, finish_transition, replay_result, transition_round,
  compare_and_replay, compute_transition_payload_hash, filled, request_workflow_transition,
}

-- What the owner of the key commits, from what its transaction sees.
abbrev pub owned : TransitionRequest → String → Database → TransitionResult × Database
owned q hash db =
    let (r, db') =
      apply_transition_in_transaction q hash
        (reserve workflow_transition q.idempotency_key hash db).1 in
    (r, finish_transition q r db')

module _ (q : TransitionRequest) (hash : String) where
  -- A free key: the transition is tried, and its result is committed with the key.
  pub round_free :
      (schedule : List (Database → Database)) (db : Database)
      → find_operation workflow_transition q.idempotency_key (turn schedule db) ≡ none
      → transition_round q hash (idle db schedule) ≡ (
        ok (some (owned q hash (turn schedule db)).0),
        idle (owned q hash (turn schedule db)).1 (later schedule),
      )
  round_free [] db free = rw (reserve_free workflow_transition q.idempotency_key db hash free) refl
  round_free (others ∷ rest) db free =
      rw (reserve_free workflow_transition q.idempotency_key (others db) hash free)

  -- A key that is taken: its row is read in the next transaction, and compared.
  pub round_taken :
      (schedule : List (Database → Database)) (db : Database) (o o' : IdempotencyOperation)
      → find_operation workflow_transition q.idempotency_key (turn schedule db) ≡ some o
      → let now = turn (later schedule) (turn schedule db) in
        find_operation workflow_transition q.idempotency_key now ≡ some o'
        → transition_round q hash (idle db schedule)
          ≡ compare_and_replay hash
              (some o')
              (record (idle now (later (later schedule))) { in_transaction = true })
  round_taken [] db o o' taken seen =
      rw (reserve_taken workflow_transition q.idempotency_key db hash o taken) (rw seen refl)
  round_taken (f ∷ []) db o o' taken seen =
      rw (reserve_taken workflow_transition q.idempotency_key (f db) hash o taken) (rw seen refl)
  round_taken (f ∷ g ∷ rest) db o o' taken seen =
      rw (reserve_taken workflow_transition q.idempotency_key (f db) hash o taken) (rw seen refl)

  module _ (now : Database) (rest : List (Database → Database)) (o : IdempotencyOperation) where
    pub compared_same :
        (r : TransitionResult)
        → o.idempotency_payload_hash ≡ hash
        → replay_result o now ≡ ok r
        → compare_and_replay hash (some o) (record (idle now rest) { in_transaction = true })
          ≡ (ok (some r), idle now rest)
    compared_same r same replay =
        rw ((text_eq_iff o.idempotency_payload_hash hash).1 same) (rw replay refl)

    pub compared_different :
        o.idempotency_payload_hash ≢ hash
        → compare_and_replay hash (some o) (record (idle now rest) { in_transaction = true })
          ≡ (ok (some (outcome_only TransitionOutcome.idempotency_conflict)), idle now rest)
    compared_different differ = elim (Bool-cases (text_eq o.idempotency_payload_hash hash)) [
      | inl e ↦ absurd (differ ((text_eq_iff o.idempotency_payload_hash hash).0 e))
      | inr e ↦ rw e refl
    ]

module _ (h : Hashing) (task_type : String) (known : is_known_task_type task_type ≡ true)
    (q : TransitionRequest) (correlation_id : Option String) (generated : String) where
  abbrev filled_request : TransitionRequest
  filled_request = filled q correlation_id generated

  pub request_free :
      (schedule : List (Database → Database)) (db : Database)
      → find_operation workflow_transition q.idempotency_key (turn schedule db) ≡ none
      → let result =
          owned filled_request (compute_transition_payload_hash h q) (turn schedule db) in
        request_workflow_transition h task_type q correlation_id generated (idle db schedule)
        ≡ (ok result.0, idle result.1 (later schedule))
  unfolding request_workflow_transition compute_transition_payload_hash
  request_free schedule db free = rw known (
      retry_returns 4 _ (idle db schedule) _
        (round_free filled_request (compute_transition_payload_hash h q) schedule db free))

  module _ (schedule : List (Database → Database)) (db : Database) (o o' : IdempotencyOperation)
      (taken : find_operation workflow_transition q.idempotency_key (turn schedule db) ≡ some o)
      (seen : find_operation workflow_transition q.idempotency_key
          (turn (later schedule) (turn schedule db))
        ≡ some o') where
    pub request_taken :
        (r : TransitionResult)
        → o'.idempotency_payload_hash ≡ compute_transition_payload_hash h q
        → let now = turn (later schedule) (turn schedule db) in
          replay_result o' now ≡ ok r
          → request_workflow_transition h task_type q correlation_id generated (idle db schedule)
            ≡ (ok r, idle now (later (later schedule)))
    unfolding request_workflow_transition compute_transition_payload_hash
    request_taken r same replay =
        let hash = compute_transition_payload_hash h q in
        let now = turn (later schedule) (turn schedule db) in
        rw known (
          retry_returns 4 _ (idle db schedule) _ (
            round_taken filled_request hash schedule db o o' taken seen
            ∙ compared_same filled_request hash now (later (later schedule)) o' r same replay))

    -- A key that another payload has taken gives a conflict, and the call writes nothing.
    pub request_conflict :
        o'.idempotency_payload_hash ≢ compute_transition_payload_hash h q
        → let now = turn (later schedule) (turn schedule db) in
          request_workflow_transition h task_type q correlation_id generated (idle db schedule) ≡ (
            ok (outcome_only TransitionOutcome.idempotency_conflict),
            idle now (later (later schedule)),
          )
    unfolding request_workflow_transition compute_transition_payload_hash
    request_conflict differ =
        let hash = compute_transition_payload_hash h q in
        let now = turn (later schedule) (turn schedule db) in
        rw known (
          retry_returns 4 _ (idle db schedule) _ (
            round_taken filled_request hash schedule db o o' taken seen
            ∙ compared_different filled_request hash now (later (later schedule)) o' differ))
