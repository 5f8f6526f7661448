-- ===== src/ContextEngine/Assembly.antt =====
-- Steps 4 to 8 of `_proceed_as_owner` of src/persistence/repositories/context_engine.py: what one
-- transaction reads of the database, as the contents of a package, a rejection, or the exception of
-- a `.one()` that finds no row.
use Prim.Native.String.{◌++◌ as cat}
use instructional_agent_mvp.Prelude.{
  String, true, Option, none, some, List, [], ◌∷◌, ◌++◌, row, text_eq, ltb, if◌then◌else◌,
}
use instructional_agent_mvp.Schema.{Uuid, ObjectVersion, Database}
use instructional_agent_mvp.Session.{Result, ok, raised, no_result_found}
use instructional_agent_mvp.ApprovedState.{current_approved}
use instructional_agent_mvp.ContextEngine.Contract.{ContextMapping, RequiredEvidence}
use instructional_agent_mvp.ContextEngine.Entries.{
  ApprovedObject, RelationEntry, EvidenceEntry, DependencyEntry, Gap,
}
use instructional_agent_mvp.ContextEngine.Resolvers.{
  Adapters, satisfied, blocked_by_dependency, dependency_text, DependencyResolution, found, missing,
  resolution_text, EvidenceResolution, object_type_of,
}

pub data ContextAssemblyOutcome : Type 0 where
  committed task_type_unresolved mapping_undefined newer_version_available : ContextAssemblyOutcome
  invalid_object_version idempotency_conflict : ContextAssemblyOutcome

-- What follows a value, or nothing after an exception.
infixl 5 ◌>>=◌
abbrev pub ◌>>=◌ : {A B : Type 0} → Result A → (A → Result B) → Result B
ok a >>= f = f a
raised e >>= f = raised e

-- The arguments of `assemble_context`, and `str` on identifiers.
pub record ContextRequest : Type 0 where
  pub task_type : String
  pub target_object_id : String
  pub idempotency_key : String
  pub pinned_version_id : Option Uuid

abbrev pub version_key : ObjectVersion → Uuid
version_key v = v.object_version_id

abbrev pub find_version : Uuid → Database → Option ObjectVersion
find_version id db = row version_key id db.versions

-- `.one()` and `scalar_one()`.
abbrev pub one {ℓ} : {A : Type ℓ} → Option A → Result A
one none = raised no_result_found
one (some a) = ok a

abbrev pub approved_entry : String → Database → ObjectVersion → ApprovedObject
approved_entry object_id db v = record {
  object_id = object_id;
  object_type = object_type_of object_id db;
  version = v.version_number;
  status = v.status;
}

-- `_resolve_approved_object`.
unfoldable pub resolve_approved_object : String → Database → Result (List ApprovedObject)
resolve_approved_object object_id db = elim (current_approved object_id db) [
  | none ↦ ok []
  | some id ↦ do v ← one (find_version id db); ok (approved_entry object_id db v ∷ [])
]

pub data Pinned : Type 0 where
  refused : ContextAssemblyOutcome → Pinned
  insufficient : Gap → Pinned
  approved : Pinned

abbrev pub approval_gap : (Uuid → String) → Uuid → Gap
approval_gap str_uuid id = record {
  gap_id = cat "APPROVAL_INSUFFICIENT:" (str_uuid id);
  missing_object_or_value = str_uuid id;
  blocking = true;
}

-- `_resolve_pinned_version`.
unfoldable pub resolve_pinned_version : (Uuid → String) → String → Uuid → Database → Pinned
resolve_pinned_version str_uuid target id db = elim (find_version id db) [
  | none ↦ refused invalid_object_version
  | some v ↦
      if text_eq v.object_id target
      then (if text_eq v.status "APPROVED_CONTENT"
          then approved
          else insufficient (approval_gap str_uuid id))
      else refused invalid_object_version
]

-- Step 4 and 5: a rejection, or the version that counts and the gaps so far.
pub data Target : Type 0 where
  rejected : ContextAssemblyOutcome → Target
  effective : Option Uuid → List Gap → Target

-- The comparison of a valid pinned version with the approved one, by number.
unfoldable pub compare_with_approved : String → Uuid → Database → Result Target
compare_with_approved target id db = do
  pinned ← one (find_version id db)
  elim (current_approved target db) [
    | none ↦ ok (effective (some id) [])
    | some current_id ↦ do
      current ← one (find_version current_id db)
      if ltb pinned.version_number current.version_number
          then ok (rejected newer_version_available)
          else ok (effective (some id) [])
  ]

unfoldable pub resolve_target : (Uuid → String) → ContextRequest → Database → Result Target
unfolding resolve_pinned_version
resolve_target str_uuid q db = elim q.pinned_version_id [
  | none ↦ ok (effective (current_approved q.target_object_id db) [])
  | some id ↦ elim (resolve_pinned_version str_uuid q.target_object_id id db) [
    | refused outcome ↦ ok (rejected outcome)
    | insufficient gap ↦ ok (effective none (gap ∷ []))
    | approved ↦ compare_with_approved q.target_object_id id db
  ]
]

abbrev pub no_approved_gap : String → Gap
no_approved_gap target = record {
  gap_id = cat "NO_APPROVED_VERSION:" target;
  missing_object_or_value = target;
  blocking = true;
}

-- What the steps have collected.
pub record Contents : Type 0 where
  pub effective_version_id : Option Uuid
  pub approved_objects : List ApprovedObject
  pub relations : List RelationEntry
  pub dependency_status : List DependencyEntry
  pub evidence : List EvidenceEntry
  pub gaps : List Gap

-- The entry of the target, or the gap that it leaves.
unfoldable pub target_contents :
    ContextRequest → Option Uuid → List Gap → Database → Result Contents
target_contents q (some id) gaps db = do
  v ← one (find_version id db)
  ok (record {
    effective_version_id = some id;
    approved_objects = approved_entry q.target_object_id db v ∷ [];
    relations = [];
    dependency_status = [];
    evidence = [];
    gaps = gaps;
  })
target_contents q none gaps db = ok (record {
  effective_version_id = none;
  approved_objects = [];
  relations = [];
  dependency_status = [];
  evidence = [];
  gaps = elim gaps [ [] ↦ no_approved_gap q.target_object_id ∷ [] | g ∷ rest ↦ g ∷ rest ];
})

abbrev pub relation_entry : String → DependencyResolution → RelationEntry
relation_entry target d = record {
  from_id = target;
  to_id = d.to_object_id;
  relation_type = d.dependency_id;
  status = elim d.status [ satisfied ↦ "RESOLVED" | blocked_by_dependency ↦ "UNRESOLVED" ];
}

abbrev pub dependency_entry : DependencyResolution → DependencyEntry
dependency_entry d = record { dependency_id = d.dependency_id; status = dependency_text d.status }

abbrev pub dependency_gap : DependencyResolution → Gap
dependency_gap d = record {
  gap_id = cat "BLOCKED_BY_DEPENDENCY:" d.dependency_id;
  missing_object_or_value = d.dependency_id;
  blocking = true;
}

-- No row has NULL for its object.
abbrev pub resolve_related : Option String → Database → Result (List ApprovedObject)
resolve_related none db = ok []
resolve_related (some object_id) db = resolve_approved_object object_id db

-- The body of the loop over the dependencies.
unfoldable pub add_dependency :
    String → Database → Contents → DependencyResolution → Result Contents
add_dependency target db c d =
    let c' = record c {
      relations = c.relations ++ relation_entry target d ∷ [];
      dependency_status = c.dependency_status ++ dependency_entry d ∷ [];
    } in
    elim d.status [
      | blocked_by_dependency ↦ ok (record c' { gaps = c.gaps ++ dependency_gap d ∷ [] })
      | satisfied ↦ do
        related ← resolve_related d.to_object_id db
        ok (record c' { approved_objects = c.approved_objects ++ related })
    ]

unfoldable pub add_dependencies :
    String → Database → List DependencyResolution → Contents → Result Contents
add_dependencies target db [] c = ok c
add_dependencies target db (d ∷ rest) c =
    add_dependency target db c d >>= add_dependencies target db rest

abbrev pub evidence_entry : EvidenceResolution → EvidenceEntry
evidence_entry e = record {
  source_id = e.source_id;
  evidence_class = e.evidence_class;
  requirement_level = e.requirement_level;
  blocking_behavior = e.blocking_behavior;
  resolution_status = resolution_text e.resolution_status;
}

abbrev pub evidence_gap : RequiredEvidence → EvidenceResolution → Gap
evidence_gap requirement e = record {
  gap_id = cat "EVIDENCE_MISSING:" requirement.evidence_class;
  missing_object_or_value = requirement.evidence_class;
  blocking = text_eq e.blocking_behavior "BLOCKING";
}

abbrev pub gaps_of_evidence : RequiredEvidence → EvidenceResolution → List Gap
gaps_of_evidence requirement e = elim e.resolution_status [
  | found ↦ []
  | missing ↦ evidence_gap requirement e ∷ []
]

-- The loop over the required evidence.
unfoldable pub add_evidence :
    Adapters → String → Database → List RequiredEvidence → Contents → Contents
add_evidence a target db [] c = c
add_evidence a target db (requirement ∷ rest) c =
    let e = a.retrieve target requirement db in
    add_evidence a target db rest (record c {
      evidence = c.evidence ++ evidence_entry e ∷ [];
      gaps = c.gaps ++ gaps_of_evidence requirement e;
    })

pub data Assembled : Type 0 where
  declined : ContextAssemblyOutcome → Assembled
  complete : Contents → Assembled

abbrev pub collect :
    Adapters → ContextMapping → ContextRequest → Database → Target → Result Assembled
collect a m q db (rejected outcome) = ok (declined outcome)
collect a m q db (effective version gaps) = do
  start ← target_contents q version gaps db
  c ←
      add_dependencies q.target_object_id db (a.resolve q.target_object_id m.required_relations db)
        start
  ok (complete (add_evidence a q.target_object_id db m.required_evidence c))

-- Steps 4 to 8.
unfoldable pub assemble :
    (Uuid → String) → Adapters → ContextMapping → ContextRequest → Database → Result Assembled
assemble str_uuid a m q db = resolve_target str_uuid q db >>= collect a m q db
