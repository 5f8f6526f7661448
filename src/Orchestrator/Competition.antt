-- ===== src/Orchestrator/Competition.antt =====
-- The end of a round of `request_producer_execution` of
-- src/persistence/repositories/orchestrator.py: the run and the reservation of the key are stored
-- together, or neither is.
use instructional_agent_mvp.Prelude.{
  ◌≡◌, ◌∙◌, refl, sym, ap, String, true, false, none, some, List, [], ◌∷◌, arith, insert, find,
  text_eq_refl, find-insert, subst,
}
use instructional_agent_mvp.Schema.{Uuid, producer_execution, IdempotencyOperation, Database}
use instructional_agent_mvp.Session.{ok, idle}
use instructional_agent_mvp.Session.Laws.{turn, later}
use instructional_agent_mvp.Idempotency.{find_operation, insert_operation, has_key}
use instructional_agent_mvp.Idempotency.Laws.{insert_operation_free, insert_operation_taken}
use instructional_agent_mvp.VersionCreation.{
  lock_instructional_object, resolve_or_create_object_version,
}
use instructional_agent_mvp.AgentRunManager.{create_agent_run}
use instructional_agent_mvp.Orchestrator.PhaseA.{Creation, phase_a_create_run}
use instructional_agent_mvp.Orchestrator.ActiveRuns.{created, is_there}
use instructional_agent_mvp.Orchestrator.Request.{
  ProducerRequest, running, committed_row, creation, compete, end_competition,
}

same_operations : (c : Creation) (db : Database) → (created c db).1.operations ≡ db.operations
unfolding resolve_or_create_object_version create_agent_run
same_operations c db = ground arith

module _ (q : ProducerRequest) (hash : String) (context_package_id : Uuid) where
  abbrev pub run_of_request : Creation
  run_of_request = creation q context_package_id

  abbrev pub new_run_id : Database → Uuid
  new_run_id db = (created run_of_request db).0.0

  -- What the winner stores: the run with its version, and the reservation.
  abbrev pub won : Database → Database
  won db = record (created run_of_request db).1 {
    operations = insert (committed_row q hash (new_run_id db)) db.operations;
  }

  compete_ends :
      (db : Database) (rest : List (Database → Database))
      → is_there run_of_request (turn rest db) ≡ true
      → let now = turn rest db in
        let (inserted, after) =
          insert_operation (committed_row q hash (new_run_id now)) (created run_of_request now).1 in
        compete q hash context_package_id (idle db rest)
        ≡ end_competition
            (new_run_id now)
            inserted
            (record (idle now (later rest)) { working = after; in_transaction = true })
  unfolding phase_a_create_run lock_instructional_object
  compete_ends db [] there = rw there refl
  compete_ends db (others ∷ rest) there = rw there refl

  insert_free :
      (db : Database)
      → find_operation producer_execution q.idempotency_key db ≡ none
      → insert_operation (committed_row q hash (new_run_id db)) (created run_of_request db).1
        ≡ (true, won db)
  insert_free db free =
      let row = committed_row q hash (new_run_id db) in
      let d = (created run_of_request db).1 in
      let same = same_operations run_of_request db in
      insert_operation_free row d (
        subst (λ rows. find (has_key producer_execution q.idempotency_key) rows ≡ none) (sym same)
          free)
      ∙ ap (λ (rows : List IdempotencyOperation). (true, record d { operations = insert row rows }))
          same

  insert_taken :
      (db : Database) (o : IdempotencyOperation)
      → find_operation producer_execution q.idempotency_key db ≡ some o
      → insert_operation (committed_row q hash (new_run_id db)) (created run_of_request db).1
        ≡ (false, (created run_of_request db).1)
  insert_taken db o taken =
      insert_operation_taken (committed_row q hash (new_run_id db)) (created run_of_request db).1 o
        (subst (λ rows. find (has_key producer_execution q.idempotency_key) rows ≡ some o)
          (sym (same_operations run_of_request db)) taken)

  pub compete_wins :
      (db : Database) (rest : List (Database → Database))
      → is_there run_of_request (turn rest db) ≡ true
      → find_operation producer_execution q.idempotency_key (turn rest db) ≡ none
      → let now = turn rest db in
        compete q hash context_package_id (idle db rest)
        ≡ (ok (some (running (some (new_run_id now)))), idle (won now) (later rest))
  compete_wins db rest there free =
      compete_ends db rest there ∙ rw (insert_free (turn rest db) free) refl

  pub compete_loses :
      (db : Database) (rest : List (Database → Database)) (o : IdempotencyOperation)
      → is_there run_of_request (turn rest db) ≡ true
      → find_operation producer_execution q.idempotency_key (turn rest db) ≡ some o
      → compete q hash context_package_id (idle db rest)
        ≡ (ok none, idle (turn rest db) (later rest))
  compete_loses db rest o there taken =
      compete_ends db rest there ∙ rw (insert_taken (turn rest db) o taken) refl

  -- The winner's row is the row of the key.
  pub won-find :
      (db : Database)
      → find_operation producer_execution q.idempotency_key db ≡ none
      → find_operation producer_execution q.idempotency_key (won db)
        ≡ some (committed_row q hash (new_run_id db))
  won-find db free = ground (
    arith,
    find-insert (has_key producer_execution q.idempotency_key)
        (committed_row q hash (new_run_id db)) db.operations,
    text_eq_refl q.idempotency_key,
  )
