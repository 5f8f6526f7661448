-- ===== src/Idempotency/Laws.antt =====
-- What the row of a key is after a reservation and after the statement that ends it.
use instructional_agent_mvp.Prelude.{
  ◌≡◌, refl, String, true, false, none, some, arith, insert, find-insert, find-update, find-fits,
  text_eq_refl, text_eq_iff,
}
use instructional_agent_mvp.Schema.{
  OperationType, approved_state_commit, workflow_transition, context_assembly, producer_execution,
  same_operation, claimed, IdempotencyOperation, Database,
}
use instructional_agent_mvp.Idempotency.{
  has_key, find_operation, operation_row, insert_operation, reserve, finish_operation,
}

pub same_operation_refl : (t : OperationType) → same_operation t t ≡ true
same_operation_refl approved_state_commit = refl
same_operation_refl workflow_transition = refl
same_operation_refl context_assembly = refl
same_operation_refl producer_execution = refl

module _ (kind : OperationType) (key : String) (db : Database) where
  -- A free key is won, and its row is the reservation.
  pub reserve_free :
      (hash : String)
      → find_operation kind key db ≡ none
      → reserve kind key hash db ≡ (
        true,
        record db { operations = insert (operation_row kind key hash claimed) db.operations },
      )
  unfolding reserve
  reserve_free hash free = ground arith

  -- A key that is taken is lost, and nothing is written.
  pub reserve_taken :
      (hash : String) (o : IdempotencyOperation)
      → find_operation kind key db ≡ some o
      → reserve kind key hash db ≡ (false, db)
  unfolding reserve
  reserve_taken hash o taken = ground arith

  pub find-reserved :
      (hash : String)
      → find_operation kind key db ≡ none
      → find_operation kind key (reserve kind key hash db).1
        ≡ some (operation_row kind key hash claimed)
  unfolding reserve
  find-reserved hash free = ground (
    arith,
    find-insert (has_key kind key) (operation_row kind key hash claimed) db.operations,
    same_operation_refl kind,
    text_eq_refl key,
  )

  -- The UPDATE that ends a reservation writes the row of the key.
  pub find-finished :
      (f : IdempotencyOperation → IdempotencyOperation) (o : IdempotencyOperation)
      → ((x : IdempotencyOperation) → has_key kind key (f x) ≡ has_key kind key x)
      → find_operation kind key db ≡ some o
      → find_operation kind key (finish_operation kind key f db) ≡ some (f o)
  unfolding finish_operation
  find-finished f o same found = ground (
    arith,
    find-update (has_key kind key) (has_key kind key) f db.operations same,
    find-fits (has_key kind key) db.operations o,
  )

-- The same for an INSERT of any row.
module _ (o : IdempotencyOperation) (db : Database) where
  pub insert_operation_free :
      find_operation o.operation_type o.idempotency_key db ≡ none
      → insert_operation o db ≡ (true, record db { operations = insert o db.operations })
  unfolding insert_operation
  insert_operation_free free = ground arith

  pub insert_operation_taken :
      (x : IdempotencyOperation)
      → find_operation o.operation_type o.idempotency_key db ≡ some x
      → insert_operation o db ≡ (false, db)
  unfolding insert_operation
  insert_operation_taken x taken = ground arith

-- The row that is found under a key has that key.
pub found-key :
    (kind : OperationType) (key : String) (db : Database) (o : IdempotencyOperation)
    → find_operation kind key db ≡ some o
    → o.idempotency_key ≡ key
found-key kind key db o e =
    (text_eq_iff o.idempotency_key key).0
      (ground (arith, find-fits (has_key kind key) db.operations o e))
