-- ===== src/ContextEngine/Calls.antt =====
-- What one call of `assemble_context` answers and leaves stored.
use instructional_agent_mvp.Prelude.{
  ℕ, suc, zero, ◌+◌, ◌≤◌, ◌<◌, ◌≡◌, ◌≢◌, ◌∙◌, refl, ap, String, true, false, some, none, Option,
  List, [], ◌∷◌, ◌&&◌, arith, if◌then◌else◌, not,
}
use instructional_agent_mvp.Schema.{context_assembly, IdempotencyOperation, Database}
use instructional_agent_mvp.Session.{
  Session, Result, ok, raised, open_transaction, operational_error, contention, idle, Action,
  retry_each,
}
use instructional_agent_mvp.Session.Laws.{
  turn, later, retry_each_returns, retry_each_raises, retry_each_continues,
}
use instructional_agent_mvp.Hashing.{Hashing}
use instructional_agent_mvp.Idempotency.{find_operation}
use instructional_agent_mvp.TaskIntake.{is_known_task_type}
use instructional_agent_mvp.ContextEngine.Resolvers.{Adapters}
use instructional_agent_mvp.ContextEngine.Assembly.{
  ContextRequest, task_type_unresolved, idempotency_conflict,
}
use instructional_agent_mvp.ContextEngine.Canonical.{compute_request_idempotency_hash}
use instructional_agent_mvp.ContextEngine.Package.{ContextAssemblyResult, outcome_only}
use instructional_agent_mvp.ContextEngine.Operation.{
  Interruption, uninterrupted, in_assembly, is_retryable_serialization_error, replay_result,
  assemble_round, assemble_context,
}
use instructional_agent_mvp.ContextEngine.Rounds.{
  optional, ended_by, owner, round_free, round_taken, same_payload, other_payload,
}

-- An unknown task type is answered without a statement, in any transaction; a known one is refused
-- inside a transaction of the caller, which stays as it is.
pub assemble_guarded :
    (h : Hashing) (a : Adapters) (q : ContextRequest) (i : ℕ → Interruption) (s : Session)
    → (is_known_task_type q.task_type && not s.in_transaction) ≡ false
    → assemble_context h a q i s ≡ (
      (if is_known_task_type q.task_type
          then raised open_transaction
          else ok (outcome_only task_type_unresolved)),
      s,
    )
unfolding assemble_context
assemble_guarded h a q i s e = ground arith

pub record IsSerializationFailure (i : Interruption) : Type 0 where
  pub sqlstate : Option String
  pub at : i ≡ in_assembly sqlstate
  pub retryable : is_retryable_serialization_error sqlstate ≡ true

-- What is stored, and the turns that are left, after as many transactions that write nothing.
abbrev pub waited :
    ℕ → Database → List (Database → Database) → Database × List (Database → Database)
waited zero db schedule = (db, schedule)
waited (suc k) db schedule = waited k (turn schedule db) (later schedule)

loop_ends :
    (n : ℕ) (body : ℕ → Action (Option ContextAssemblyResult)) (s : Session) {s' : Session}
    (r : Result ContextAssemblyResult)
    → body n s ≡ (optional r, s')
    → retry_each (suc n) body s ≡ (r, s')
loop_ends n body s (ok r) e = retry_each_returns n body s r e
loop_ends n body s (raised x) e = retry_each_raises n body s x e

module _ (h : Hashing) (a : Adapters) (q : ContextRequest)
    (known : is_known_task_type q.task_type ≡ true) where
  abbrev request_hash : String
  request_hash = compute_request_idempotency_hash h q

  abbrev pub rounds : (ℕ → Interruption) → ℕ → Action (Option ContextAssemblyResult)
  rounds i n = assemble_round h a q request_hash (i n)

  -- Outside of a transaction the call is its loop.
  pub assemble_loop :
      (i : ℕ → Interruption) (db : Database) (schedule : List (Database → Database))
      → assemble_context h a q i (idle db schedule) ≡ retry_each 5 (rounds i) (idle db schedule)
  unfolding assemble_context
  assemble_loop i db schedule = rw (known, assemble_context) refl

  -- A serialization failure ends a round with nothing written.
  failed_round :
      (n : ℕ) (i : ℕ → Interruption) (db : Database) (schedule : List (Database → Database))
      → IsSerializationFailure (i n)
      → rounds i n (idle db schedule) ≡ (ok none, idle (turn schedule db) (later schedule))
  failed_round n i db [] f = rw (f.at, f.retryable) refl
  failed_round n i db (others ∷ rest) f = rw (f.at, f.retryable) refl

  -- After them the loop begins its next round with what is stored then.
  failed_rounds :
      (k n total : ℕ) (i : ℕ → Interruption) (db : Database) (schedule : List (Database → Database))
      → total ≡ k + n
      → ((j : ℕ) → n ≤ j → j < total → IsSerializationFailure (i j))
      → retry_each total (rounds i) (idle db schedule) ≡ (
          let (db', schedule') = waited k db schedule in
          retry_each n (rounds i) (idle db' schedule'))
  failed_rounds zero n total i db schedule e f =
      ap (λ m. retry_each m (rounds i) (idle db schedule)) (omega arith)
  failed_rounds (suc k) n total i db schedule e f =
      let e' : total ≡ suc (k + n) = omega arith in
      ap (λ m. retry_each m (rounds i) (idle db schedule)) e'
      ∙ retry_each_continues (k + n) (rounds i) (idle db schedule)
          (failed_round (k + n) i db schedule (f (k + n) (omega arith) (omega arith)))
      ∙ failed_rounds k n (k + n) i (turn schedule db) (later schedule) refl
          (λ j le lt. f j le (omega arith))

  -- Five serialization failures raise, and the call has written nothing.
  pub assemble_exhausted :
      (i : ℕ → Interruption) (db : Database) (schedule : List (Database → Database))
      → ((j : ℕ) → j < 5 → IsSerializationFailure (i j))
      → assemble_context h a q i (idle db schedule)
        ≡ (let (db', schedule') = waited 5 db schedule in (raised contention, idle db' schedule'))
  unfolding retry_each
  assemble_exhausted i db schedule f =
      assemble_loop i db schedule ∙ failed_rounds 5 0 5 i db schedule refl (λ j le lt. f j lt)

  -- Any other error of the driver in the first round is raised, and the call has written nothing.
  pub assemble_driver_error :
      (i : ℕ → Interruption) (db : Database) (schedule : List (Database → Database))
      (sqlstate : Option String)
      → i 4 ≡ in_assembly sqlstate
      → is_retryable_serialization_error sqlstate ≡ false
      → assemble_context h a q i (idle db schedule)
        ≡ (raised operational_error, idle (turn schedule db) (later schedule))
  assemble_driver_error i db [] sqlstate e other =
      assemble_loop i db [] ∙ retry_each_raises 4 (rounds i) (idle db []) _ (rw (e, other) refl)
  assemble_driver_error i db (f ∷ rest) sqlstate e other =
      assemble_loop i db (f ∷ rest)
      ∙ retry_each_raises 4 (rounds i) (idle db (f ∷ rest)) _ (rw (e, other) refl)

  -- What one call answers and leaves, when the round after at most four serialization failures is
  -- not interrupted and finds its key free.
  module _ (k n : ℕ) (few : k + n ≡ 4) (i : ℕ → Interruption) (db : Database)
      (schedule : List (Database → Database))
      (failures : (j : ℕ) → n < j → j < 5 → IsSerializationFailure (i j))
      (then_runs : i n ≡ uninterrupted) where
    abbrev pub before : Database
    before = (waited k db schedule).0

    abbrev pub waiting : List (Database → Database)
    waiting = (waited k db schedule).1

    after_failures :
        assemble_context h a q i (idle db schedule)
        ≡ retry_each (suc n) (rounds i) (idle before waiting)
    after_failures =
        assemble_loop i db schedule
        ∙ failed_rounds k (suc n) 5 i db schedule (omega arith)
            (λ j le lt. failures j (omega arith) lt)

    pub assemble_free :
        find_operation context_assembly q.idempotency_key (turn waiting before) ≡ none
        → let now = turn waiting before in
          let (r, after) = owner h a q request_hash now in
          assemble_context h a q i (idle db schedule) ≡ (r, ended_by r now after (later waiting))
    assemble_free free =
        after_failures
        ∙ loop_ends n (rounds i) (idle before waiting) _ (
            ap (λ x. assemble_round h a q request_hash x (idle before waiting)) then_runs
            ∙ round_free h a q request_hash waiting before known free)

    module _ (o o' : IdempotencyOperation)
        (taken : find_operation context_assembly q.idempotency_key (turn waiting before) ≡ some o)
        (seen : find_operation context_assembly q.idempotency_key
            (turn (later waiting) (turn waiting before))
          ≡ some o') where
      pub assemble_taken :
          (r : ContextAssemblyResult)
          → o'.idempotency_payload_hash ≡ request_hash
          → let now = turn (later waiting) (turn waiting before) in
            replay_result o' now ≡ ok r
            → assemble_context h a q i (idle db schedule) ≡ (ok r, idle now (later (later waiting)))
      assemble_taken r same replay =
          let now = turn (later waiting) (turn waiting before) in
          after_failures
          ∙ retry_each_returns n (rounds i) (idle before waiting) _ (
              ap (λ x. assemble_round h a q request_hash x (idle before waiting)) then_runs
              ∙ round_taken h a q request_hash waiting before o o' taken seen
              ∙ same_payload h a q request_hash now (later (later waiting)) o' r same replay)

      -- A key that another request has taken gives a conflict, and the call writes nothing.
      pub assemble_conflict :
          o'.idempotency_payload_hash ≢ request_hash
          → let now = turn (later waiting) (turn waiting before) in
            assemble_context h a q i (idle db schedule)
            ≡ (ok (outcome_only idempotency_conflict), idle now (later (later waiting)))
      assemble_conflict differ =
          let now = turn (later waiting) (turn waiting before) in
          after_failures
          ∙ retry_each_returns n (rounds i) (idle before waiting) _ (
              ap (λ x. assemble_round h a q request_hash x (idle before waiting)) then_runs
              ∙ round_taken h a q request_hash waiting before o o' taken seen
              ∙ other_payload h a q request_hash now (later (later waiting)) o' differ)
