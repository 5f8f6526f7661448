-- ===== src/ContextEngine/Package.antt =====
-- The end of `_proceed_as_owner` of src/persistence/repositories/context_engine.py: the statements
-- that store a package, and those of `_reject`.
use instructional_agent_mvp.Prelude.{
  String, Bool, Option, none, some, insert, exists, text_eq, if◌then◌else◌,
}
use instructional_agent_mvp.Schema.{
  Uuid, OperationStatus, RejectedReason, text, object, end, field, ContextPackage, AuditEvent,
  IdempotencyOperation, Database, uuid4, context_assembly,
}
use instructional_agent_mvp.Session.{Result, ok, raised, integrity_error}
use instructional_agent_mvp.Hashing.{Hashing}
use instructional_agent_mvp.Idempotency.{finish_operation}
use instructional_agent_mvp.ContextEngine.Contract.{
  ContextMapping, context_contract_version, is_consistent,
}
use instructional_agent_mvp.ContextEngine.Entries.{
  approved_json, relation_json, evidence_json, dependency_json, gap_json, list_json,
}
use instructional_agent_mvp.ContextEngine.Resolvers.{Adapters}
use instructional_agent_mvp.ContextEngine.Assembly.{
  ContextAssemblyOutcome, committed, task_type_unresolved, mapping_undefined,
  newer_version_available, invalid_object_version, ContextRequest, Contents, Assembled, declined,
  complete, assemble,
}
use instructional_agent_mvp.ContextEngine.Canonical.{compute_context_package_hash}

pub record ContextAssemblyResult : Type 0 where
  pub outcome : ContextAssemblyOutcome
  pub context_package_id : Option Uuid
  pub context_package_hash : Option String

abbrev pub outcome_only : ContextAssemblyOutcome → ContextAssemblyResult
outcome_only o = record { outcome = o; context_package_id = none; context_package_hash = none }

abbrev pub package_result : Uuid → String → ContextAssemblyResult
package_result id hash = record {
  outcome = committed;
  context_package_id = some id;
  context_package_hash = some hash;
}

-- `reason.value`, where the column has it.
abbrev pub reason_of : ContextAssemblyOutcome → Option RejectedReason
reason_of task_type_unresolved = some RejectedReason.task_type_unresolved
reason_of mapping_undefined = some RejectedReason.mapping_undefined
reason_of newer_version_available = some RejectedReason.newer_version_available
reason_of invalid_object_version = some RejectedReason.invalid_object_version
reason_of _ = none

abbrev pub refused_as : ContextAssemblyOutcome → IdempotencyOperation → IdempotencyOperation
refused_as reason o = record o {
  status = OperationStatus.rejected;
  rejected_reason = reason_of reason;
}

-- `_reject`, up to its commit.
unfoldable pub reject :
    String → ContextAssemblyOutcome → Database → ContextAssemblyResult × Database
reject key reason db =
    (outcome_only reason, finish_operation context_assembly key (refused_as reason) db)

abbrev pub package_row : ContextRequest → Contents → String → Uuid → ContextPackage
package_row q c hash id = record {
  context_package_id = id;
  context_package_hash = hash;
  context_contract_version = context_contract_version;
  task_type = q.task_type;
  target_object_id = q.target_object_id;
  pinned_version_id = q.pinned_version_id;
  idempotency_key = q.idempotency_key;
  approved_objects = list_json approved_json c.approved_objects;
  relations = list_json relation_json c.relations;
  evidence = list_json evidence_json c.evidence;
  dependency_status = list_json dependency_json c.dependency_status;
  gaps = list_json gap_json c.gaps;
  run_metadata = object (field "context_engine_version" (text context_contract_version) end);
}

abbrev pub package_event : ContextRequest → Contents → String → Uuid → Uuid → AuditEvent
package_event q c hash package_id id = record {
  event_id = id;
  event_type = "CONTEXT_PACKAGE_ASSEMBLED";
  object_id = q.target_object_id;
  object_version_id = c.effective_version_id;
  commit_id = none;
  context_package_id = some package_id;
  agent_run_id = none;
  payload =
      object (field "context_package_hash" (text hash) (field "task_type" (text q.task_type) end));
}

abbrev pub packaged : Uuid → IdempotencyOperation → IdempotencyOperation
packaged id o = record o { status = OperationStatus.committed; context_package_id = some id }

-- The foreign key of `context_package.target_object_id`.
abbrev pub is_registered : String → Database → Bool
is_registered object_id db = exists (λ o. text_eq o.object_id object_id) db.objects

-- Step 9, up to the commit. The flush fails for a target that is not registered.
unfoldable pub store_package :
    Hashing → ContextRequest → Contents → Database → Result ContextAssemblyResult × Database
store_package h q c db =
    let hash = compute_context_package_hash h context_contract_version q c in
    let (id, db₁) = uuid4 db in
    let db₂ = record db₁ { packages = insert (package_row q c hash id) db₁.packages } in
    let (event_id, db₃) = uuid4 db₂ in
    let db₄ = record db₃ {
      audit_events = insert (package_event q c hash id event_id) db₃.audit_events;
    } in
    if is_registered q.target_object_id db
    then (
      ok (package_result id hash),
      finish_operation context_assembly q.idempotency_key (packaged id) db₄,
    )
    else (raised integrity_error, db)

abbrev pub finish_assembly :
    Hashing → ContextRequest → Result Assembled → Database → Result ContextAssemblyResult × Database
finish_assembly h q (raised e) db = (raised e, db)
finish_assembly h q (ok (declined reason)) db =
    let (r, db') = reject q.idempotency_key reason db in (ok r, db')
finish_assembly h q (ok (complete c)) db = store_package h q c db

-- The statements of `_proceed_as_owner` for the mapping of the task type, and what it returns; an
-- exception leaves its transaction open.
unfoldable pub owner_statements :
    Hashing
    → Adapters
    → Option ContextMapping
    → ContextRequest
    → Database
    → Result ContextAssemblyResult × Database
owner_statements h a none q db = finish_assembly h q (ok (declined mapping_undefined)) db
owner_statements h a (some m) q db =
    if is_consistent m
    then finish_assembly h q (assemble h.str_uuid a m q db) db
    else finish_assembly h q (ok (declined mapping_undefined)) db
