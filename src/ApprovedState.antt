-- ===== src/ApprovedState.antt =====
-- src/persistence/repositories/approved_state.py and src/domain/commit_result.py
pub mod Effects
pub mod Rounds
pub mod Log
pub mod Written
pub mod Replay
mod Tests
use instructional_agent_mvp.Prelude.{
  ℕ, String, Bool, true, false, ◌&&◌, Option, none, some, List, [], ◌∷◌, find, update, insert,
  exists, text_eq, not, ◌==◌, is_none, is_not_distinct, if◌then◌else◌,
}
use instructional_agent_mvp.Schema.{
  Uuid, OperationStatus, Json, null, text, object, end, field, ObjectVersion, ApprovedStatePointer,
  ApprovedStateCommit, AuditEvent, IdempotencyOperation, Database, uuid4, approved_state_commit,
}
use instructional_agent_mvp.Session.{
  Action, Result, ok, raised, no_result_found, integrity_error, pure, raise, let_through, ◌>>=◌,
  ◌>>◌, execute, query, commit, rollback, refresh, retry,
}
use instructional_agent_mvp.Hashing.{Hashing, join, str_or_null}
use instructional_agent_mvp.Idempotency.{
  max_ownership_retries, reserve, find_operation, finish_operation,
}

pub data CommitOutcome : Type 0 where
  committed state_conflict idempotency_conflict invalid_object_version : CommitOutcome

pub record CommitResult : Type 0 where
  pub outcome : CommitOutcome
  pub commit_id : Option Uuid
  pub object_id : Option String
  pub object_version_id : Option Uuid

abbrev pub outcome_only : CommitOutcome → CommitResult
outcome_only o = record {
  outcome = o;
  commit_id = none;
  object_id = none;
  object_version_id = none;
}

-- The arguments of `commit_approved_state`.
pub record CommitRequest : Type 0 where
  pub object_id : String
  pub object_version_id : Uuid
  pub expected_previous_approved_version_id : Option Uuid
  pub idempotency_key : String

unfoldable pub compute_idempotency_payload_hash : Hashing → CommitRequest → String
compute_idempotency_payload_hash h q = h.digest (
    join (
      q.object_id
      ∷ h.str_uuid q.object_version_id
      ∷ str_or_null h.str_uuid q.expected_previous_approved_version_id
      ∷ []))

abbrev pub is_pointer_of : String → ApprovedStatePointer → Bool
is_pointer_of object_id p = text_eq p.object_id object_id

abbrev pub new_pointer : String → ApprovedStatePointer
new_pointer object_id = record { object_id = object_id; current_approved_version_id = none }

-- INSERT ... ON CONFLICT DO NOTHING on the object's pointer, whose object is a foreign key.
unfoldable pub insert_pointer : String → Database → Result (Unit {0}) × Database
insert_pointer object_id db =
    if not (is_none (find (is_pointer_of object_id) db.pointers))
    then (ok tt, db)
    else if exists (λ o. text_eq o.object_id object_id) db.objects
    then (ok tt, record db { pointers = insert (new_pointer object_id) db.pointers })
    else (raised integrity_error, db)

abbrev end_initialization : Result (Unit {0}) → Action (Unit {0})
end_initialization (raised e) = let_through e
end_initialization (ok r) = commit

unfoldable pub initialize_approved_state_pointer : String → Action (Unit {0})
initialize_approved_state_pointer object_id = do
  r ← execute (insert_pointer object_id)
  end_initialization r

-- `scalar_one_or_none()` on a nullable column: no row and NULL are both None.
unfoldable pub current_approved : String → Database → Option Uuid
current_approved object_id db = elim (find (is_pointer_of object_id) db.pointers) [
  | none ↦ none
  | some p ↦ p.current_approved_version_id
]

unfoldable pub get_current_approved_version_id : String → Action (Option Uuid)
get_current_approved_version_id object_id = query (current_approved object_id)

abbrev pub is_version_of : CommitRequest → ObjectVersion → Bool
is_version_of q v = v.object_version_id == q.object_version_id && text_eq v.object_id q.object_id

-- The WHERE clause of the optimistic UPDATE, with `IS NOT DISTINCT FROM`.
abbrev pub is_as_expected : CommitRequest → ApprovedStatePointer → Bool
is_as_expected q p =
    text_eq p.object_id q.object_id
    && is_not_distinct p.current_approved_version_id q.expected_previous_approved_version_id

abbrev pub pointed : CommitRequest → ApprovedStatePointer → ApprovedStatePointer
pointed q p = record p { current_approved_version_id = some q.object_version_id }

abbrev pub commit_row : CommitRequest → String → Uuid → ApprovedStateCommit
commit_row q hash id = record {
  commit_id = id;
  object_id = q.object_id;
  object_version_id = q.object_version_id;
  expected_previous_approved_version_id = q.expected_previous_approved_version_id;
  actual_previous_approved_version_id = q.expected_previous_approved_version_id;
  idempotency_key = q.idempotency_key;
  idempotency_payload_hash = hash;
}

abbrev expected_json : Hashing → Option Uuid → Json
expected_json h none = null
expected_json h (some id) = text (h.str_uuid id)

abbrev pub commit_event : Hashing → CommitRequest → String → Uuid → Uuid → AuditEvent
commit_event h q hash commit_id id = record {
  event_id = id;
  event_type = "APPROVED_STATE_COMMIT";
  object_id = q.object_id;
  object_version_id = some q.object_version_id;
  commit_id = some commit_id;
  context_package_id = none;
  agent_run_id = none;
  payload = object (
      field "idempotency_payload_hash" (text hash) (
        field "expected_previous_approved_version_id"
          (expected_json h q.expected_previous_approved_version_id) end));
}

abbrev pub committed_result : CommitRequest → Uuid → CommitResult
committed_result q id = record {
  outcome = committed;
  commit_id = some id;
  object_id = some q.object_id;
  object_version_id = some q.object_version_id;
}

abbrev pub ended : Uuid → IdempotencyOperation → IdempotencyOperation
ended id o = record o { status = OperationStatus.committed; commit_id = some id }

-- Steps 3 to 5, after the UPDATE of the pointer hit.
abbrev pub approve : Hashing → CommitRequest → String → Database → CommitResult × Database
approve h q hash db =
    let db₁ = record db { pointers = update (is_as_expected q) (pointed q) db.pointers } in
    let (id, db₂) = uuid4 db₁ in
    let db₃ = record db₂ { commits = insert (commit_row q hash id) db₂.commits } in
    let (event_id, db₄) = uuid4 db₃ in
    let db₅ = record db₄ {
      audit_events = insert (commit_event h q hash id event_id) db₄.audit_events;
    } in
    (committed_result q id, finish_operation approved_state_commit q.idempotency_key (ended id) db₅)

-- The statements of `_proceed_as_owner`, and what it returns.
unfoldable pub owner_statements :
    Hashing → CommitRequest → String → Database → CommitResult × Database
owner_statements h q hash db =
    if is_none (find (is_version_of q) db.versions)
    then (outcome_only invalid_object_version, db)
    else if exists (is_as_expected q) db.pointers
    then approve h q hash db
    else (outcome_only state_conflict, db)

-- It commits a success, and rolls anything else back, the reservation included.
abbrev pub end_as_owner : CommitOutcome → CommitResult → Action (Option CommitResult)
end_as_owner committed r = do commit; pure (some r)
end_as_owner _ r = do rollback; pure (some r)

abbrev pub proceed_as_owner : Hashing → CommitRequest → String → Action (Option CommitResult)
proceed_as_owner h q hash = do r ← execute (owner_statements h q hash); end_as_owner r.outcome r

abbrev pub has_commit_id : Option Uuid → ApprovedStateCommit → Bool
has_commit_id none c = false
has_commit_id (some id) c = c.commit_id == id

abbrev pub replayed : ApprovedStateCommit → CommitResult
replayed c = record {
  outcome = committed;
  commit_id = some c.commit_id;
  object_id = some c.object_id;
  object_version_id = some c.object_version_id;
}

-- The rollback expires the commit's row, so that its attributes are read again after it.
abbrev pub answer : Option ApprovedStateCommit → Action (Option CommitResult)
answer none = raise no_result_found
answer (some c) = do
  rollback
  again ← refresh (λ db. find (has_commit_id (some c.commit_id)) db.commits)
  pure (some (replayed again))

abbrev pub compare_and_replay : String → Option IdempotencyOperation → Action (Option CommitResult)
compare_and_replay hash none = pure none
compare_and_replay hash (some o) =
    if text_eq o.idempotency_payload_hash hash
    then (do c ← query (λ db. find (has_commit_id o.commit_id) db.commits); answer c)
    else (do rollback; pure (some (outcome_only idempotency_conflict)))

abbrev pub read_and_replay : CommitRequest → String → Action (Option CommitResult)
read_and_replay q hash = do
  rollback
  existing ← query (find_operation approved_state_commit q.idempotency_key)
  compare_and_replay hash existing

-- One round of the loop; `none` is `continue`.
abbrev pub commit_round : Hashing → CommitRequest → String → Action (Option CommitResult)
commit_round h q hash = do
  won ← execute (reserve approved_state_commit q.idempotency_key hash)
  if won then proceed_as_owner h q hash else read_and_replay q hash

unfoldable pub commit_approved_state : Hashing → CommitRequest → Action CommitResult
commit_approved_state h q =
    retry max_ownership_retries (commit_round h q (compute_idempotency_payload_hash h q))
