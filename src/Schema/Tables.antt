-- ===== src/Schema/Tables.antt =====
-- The database: one table of rows for each class of src/persistence/models.py, and the supply of
-- `uuid.uuid4()`, of which the code only needs that it never gives a value twice.
use instructional_agent_mvp.Prelude.{ℕ, List, [], suc}
use instructional_agent_mvp.Schema.Vocabulary.{Uuid}
use instructional_agent_mvp.Schema.Rows.{
  InstructionalObject, ObjectVersion, ApprovedStatePointer, ApprovedStateCommit, WorkflowTransition,
  ObjectRelation, EvidenceSource, ContextPackage, IdempotencyOperation, AuditEvent, AgentRun,
  AgentRunAttempt, ObjectVersionContent,
}

pub record Database : Type 0 where
  pub objects : List InstructionalObject
  pub versions : List ObjectVersion
  pub pointers : List ApprovedStatePointer
  pub commits : List ApprovedStateCommit
  pub transitions : List WorkflowTransition
  pub object_relations : List ObjectRelation
  pub evidence_sources : List EvidenceSource
  pub packages : List ContextPackage
  pub operations : List IdempotencyOperation
  pub audit_events : List AuditEvent
  pub agent_runs : List AgentRun
  pub attempts : List AgentRunAttempt
  pub contents : List ObjectVersionContent
  pub next_uuid : ℕ

abbrev pub empty_database : Database
empty_database = record {
  objects = [];
  versions = [];
  pointers = [];
  commits = [];
  transitions = [];
  object_relations = [];
  evidence_sources = [];
  packages = [];
  operations = [];
  audit_events = [];
  agent_runs = [];
  attempts = [];
  contents = [];
  next_uuid = 0;
}

-- `uuid.uuid4()`.
abbrev pub uuid4 : Database → Uuid × Database
uuid4 db = (db.next_uuid, record db { next_uuid = suc db.next_uuid })
