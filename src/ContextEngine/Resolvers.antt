-- ===== src/ContextEngine/Resolvers.antt =====
-- src/persistence/repositories/dependency_resolver.py and evidence_retriever.py: the two protocols
-- that the context engine calls, and the adapters that read the database.
use instructional_agent_mvp.Prelude.{
  String, Bool, ◌&&◌, Option, none, some, List, [], ◌∷◌, map, find, text_eq, is_none, if◌then◌else◌,
  is_text,
}
use instructional_agent_mvp.Schema.{ObjectRelation, EvidenceSource, Database}
use instructional_agent_mvp.Sorting.{text_le}
use instructional_agent_mvp.ApprovedState.{current_approved}
use instructional_agent_mvp.ContextEngine.Contract.{RequiredRelation, RequiredEvidence}

pub data DependencyStatus : Type 0 where
  satisfied blocked_by_dependency : DependencyStatus

abbrev pub dependency_text : DependencyStatus → String
dependency_text satisfied = "SATISFIED"
dependency_text blocked_by_dependency = "BLOCKED_BY_DEPENDENCY"

pub record DependencyResolution : Type 0 where
  pub dependency_id : String
  pub status : DependencyStatus
  pub to_object_id : Option String

pub data ResolutionStatus : Type 0 where
  found missing : ResolutionStatus

abbrev pub resolution_text : ResolutionStatus → String
resolution_text found = "FOUND"
resolution_text missing = "MISSING"

pub record EvidenceResolution : Type 0 where
  pub evidence_class : String
  pub requirement_level : String
  pub blocking_behavior : String
  pub resolution_status : ResolutionStatus
  pub source_id : Option String

-- `DependencyResolver` and `EvidenceRetriever`: what a caller may inject.
pub record Adapters : Type 0 where
  pub resolve : String → List RequiredRelation → Database → List DependencyResolution
  pub retrieve : String → RequiredEvidence → Database → EvidenceResolution

-- `scalar_one_or_none()` on the type of an object: no row and NULL are both None.
unfoldable pub object_type_of : String → Database → Option String
object_type_of object_id db = elim (find (λ o. text_eq o.object_id object_id) db.objects) [
  | none ↦ none
  | some o ↦ o.object_type
]

abbrev pub is_relation : String → String → ObjectRelation → Bool
is_relation object_id relation_type r =
    text_eq r.from_object_id object_id && text_eq r.relation_type relation_type

abbrev blocked : String → Option String → DependencyResolution
blocked id to = record { dependency_id = id; status = blocked_by_dependency; to_object_id = to }

-- The body of the loop of `PostgresDependencyResolver.resolve`.
unfoldable pub resolve_one : String → RequiredRelation → Database → DependencyResolution
resolve_one object_id requirement db =
    elim (find (is_relation object_id requirement.relation_type) db.object_relations) [
      | none ↦ blocked requirement.relation_type none
      | some relation ↦
          if is_text (object_type_of relation.to_object_id db) requirement.required_object_type
          then (record {
            dependency_id = requirement.relation_type;
            status =
                if is_none (current_approved relation.to_object_id db)
                then blocked_by_dependency
                else satisfied;
            to_object_id = some relation.to_object_id;
          })
          else blocked requirement.relation_type (some relation.to_object_id)
    ]

unfoldable pub resolve_relations :
    String → List RequiredRelation → Database → List DependencyResolution
resolve_relations object_id requirements db = map (λ r. resolve_one object_id r db) requirements

abbrev pub is_source : String → String → EvidenceSource → Bool
is_source object_id evidence_class s =
    text_eq s.object_id object_id && text_eq s.evidence_class evidence_class

abbrev earlier : EvidenceSource → Option EvidenceSource → Option EvidenceSource
earlier s none = some s
earlier s (some t) = if text_le s.source_id t.source_id then some s else some t

-- ORDER BY source_id ASC, and the first row.
unfoldable pub first_source : (EvidenceSource → Bool) → List EvidenceSource → Option EvidenceSource
first_source fits [] = none
first_source fits (s ∷ rows) =
    let rest = first_source fits rows in if fits s then earlier s rest else rest

abbrev evidence_of : RequiredEvidence → Option EvidenceSource → EvidenceResolution
evidence_of requirement source = record {
  evidence_class = requirement.evidence_class;
  requirement_level = requirement.requirement_level;
  blocking_behavior = requirement.blocking_behavior;
  resolution_status = elim source [ none ↦ missing | some s ↦ found ];
  source_id = elim source [ none ↦ none | some s ↦ some s.source_id ];
}

unfoldable pub retrieve_evidence : String → RequiredEvidence → Database → EvidenceResolution
retrieve_evidence object_id requirement db =
    evidence_of requirement
      (first_source (is_source object_id requirement.evidence_class) db.evidence_sources)

-- The adapters that are used if none are injected.
abbrev pub postgres_adapters : Adapters
postgres_adapters = record { resolve = resolve_relations; retrieve = retrieve_evidence }
