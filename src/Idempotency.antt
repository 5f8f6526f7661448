-- ===== src/Idempotency.antt =====
-- The reservation protocol on `idempotency_operation` that approved_state.py,
-- workflow_transition.py, context_engine.py and orchestrator.py of src/persistence/repositories
-- share: an INSERT that does nothing on a conflict, a SELECT by key, and the UPDATE that ends it.
pub mod Laws
use instructional_agent_mvp.Prelude.{
  ℕ, String, Bool, true, false, ◌&&◌, Option, none, some, find, update, insert, text_eq, is_none,
  if◌then◌else◌,
}
use instructional_agent_mvp.Schema.{
  Uuid, OperationType, OperationStatus, claimed, same_operation, IdempotencyOperation, Database,
}

-- The retries of every loop that resolves a key.
abbrev pub max_ownership_retries : ℕ
max_ownership_retries = 5

abbrev pub has_key : OperationType → String → IdempotencyOperation → Bool
has_key kind key o = same_operation o.operation_type kind && text_eq o.idempotency_key key

abbrev pub find_operation : OperationType → String → Database → Option IdempotencyOperation
find_operation kind key db = find (has_key kind key) db.operations

-- A row with no reference and no reason.
abbrev pub operation_row : OperationType → String → String → OperationStatus → IdempotencyOperation
operation_row kind key hash status = record {
  operation_type = kind;
  idempotency_key = key;
  idempotency_payload_hash = hash;
  status = status;
  commit_id = none;
  transition_id = none;
  context_package_id = none;
  agent_run_id = none;
  rejected_reason = none;
}

-- INSERT ... ON CONFLICT DO NOTHING RETURNING: whether the row was inserted.
unfoldable pub insert_operation : IdempotencyOperation → Database → Bool × Database
insert_operation o db =
    if is_none (find_operation o.operation_type o.idempotency_key db)
    then (true, record db { operations = insert o db.operations })
    else (false, db)

unfoldable pub reserve : OperationType → String → String → Database → Bool × Database
unfolding insert_operation
reserve kind key hash = insert_operation (operation_row kind key hash claimed)

-- UPDATE ... WHERE operation_type AND idempotency_key.
unfoldable pub finish_operation :
    OperationType → String → (IdempotencyOperation → IdempotencyOperation) → Database → Database
finish_operation kind key f db = record db {
  operations = update (has_key kind key) f db.operations;
}
