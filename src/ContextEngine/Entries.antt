-- ===== src/ContextEngine/Entries.antt =====
-- The entries of a context package: the dicts that `_proceed_as_owner` of
-- src/persistence/repositories/context_engine.py builds, and their JSON.
use instructional_agent_mvp.Prelude.{ℕ, String, Bool, Option, none, some, List, [], ◌∷◌}
use instructional_agent_mvp.Schema.{
  Json, null, bool, num, text, array, object, Items, nil, cons, end, field,
}

pub record ApprovedObject : Type 0 where
  pub object_id : String
  pub object_type : Option String
  pub version : ℕ
  pub status : String

pub record RelationEntry : Type 0 where
  pub from_id : String
  pub to_id : Option String
  pub relation_type : String
  pub status : String

pub record EvidenceEntry : Type 0 where
  pub source_id : Option String
  pub evidence_class : String
  pub requirement_level : String
  pub blocking_behavior : String
  pub resolution_status : String

pub record DependencyEntry : Type 0 where
  pub dependency_id : String
  pub status : String

pub record Gap : Type 0 where
  pub gap_id : String
  pub missing_object_or_value : String
  pub blocking : Bool

abbrev pub text_or_null : Option String → Json
text_or_null none = null
text_or_null (some t) = text t

abbrev pub approved_json : ApprovedObject → Json
approved_json o = object (
    field "object_id" (text o.object_id) (
      field "object_type" (text_or_null o.object_type) (
        field "version" (num o.version)
          (field "status" (text o.status) (field "data" (object end) end)))))

abbrev pub relation_json : RelationEntry → Json
relation_json r = object (
    field "from_id" (text r.from_id) (
      field "to_id" (text_or_null r.to_id)
        (field "relation_type" (text r.relation_type) (field "status" (text r.status) end))))

abbrev pub evidence_json : EvidenceEntry → Json
evidence_json e = object (
    field "source_id" (text_or_null e.source_id) (
      field "evidence_class" (text e.evidence_class) (
        field "requirement_level" (text e.requirement_level) (
          field "blocking_behavior" (text e.blocking_behavior)
            (field "resolution_status" (text e.resolution_status) end)))))

abbrev pub dependency_json : DependencyEntry → Json
dependency_json d =
    object (field "dependency_id" (text d.dependency_id) (field "status" (text d.status) end))

abbrev pub gap_json : Gap → Json
gap_json g = object (
    field "gap_id" (text g.gap_id) (
      field "missing_object_or_value" (text g.missing_object_or_value)
        (field "blocking" (bool g.blocking) end)))

-- A list of dicts.
abbrev pub items_of {ℓ} : {A : Type ℓ} → (A → Json) → List A → Items
items_of f [] = nil
items_of f (a ∷ rest) = cons (f a) (items_of f rest)

abbrev pub list_json {ℓ} : {A : Type ℓ} → (A → Json) → List A → Json
list_json f l = array (items_of f l)
