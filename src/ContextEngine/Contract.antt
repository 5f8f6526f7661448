-- ===== src/ContextEngine/Contract.antt =====
-- src/persistence/repositories/context_engine_contract.py: what the context of a task needs.
use instructional_agent_mvp.Prelude.{
  String, Bool, true, Option, none, some, List, [], ◌∷◌, ◌&&◌, text_eq, if◌then◌else◌,
}
use instructional_agent_mvp.Schema.{contains}

abbrev pub context_contract_version : String
context_contract_version = "context-engine-v1"

pub record RequiredRelation : Type 0 where
  pub relation_type : String
  pub required_object_type : String

pub record RequiredEvidence : Type 0 where
  pub evidence_class : String
  pub requirement_level : String
  pub blocking_behavior : String

pub record ContextMapping : Type 0 where
  pub required_object_types : List String
  pub required_relations : List RequiredRelation
  pub required_evidence : List RequiredEvidence

abbrev pub learning_object_mapping : ContextMapping
learning_object_mapping = record {
  required_object_types = "LEARNING_OUTCOME" ∷ "ACTIVITY" ∷ [];
  required_relations =
      record { relation_type = "PARENT_ACTIVITY"; required_object_type = "ACTIVITY" }
      ∷ record { relation_type = "LEARNING_OUTCOME"; required_object_type = "LEARNING_OUTCOME" }
      ∷ [];
  required_evidence =
      record {
        evidence_class = "E1";
        requirement_level = "REQUIRED";
        blocking_behavior = "BLOCKING";
      }
      ∷ record {
        evidence_class = "E3";
        requirement_level = "OPTIONAL";
        blocking_behavior = "NON_BLOCKING";
      }
      ∷ [];
}

abbrev pub task_type_context_mapping : List (String × ContextMapping)
task_type_context_mapping = ("PRODUCE_LEARNING_OBJECT", learning_object_mapping) ∷ []

-- `mapping.get(task_type)`.
abbrev pub get_mapping : String → List (String × ContextMapping) → Option ContextMapping
get_mapping task_type [] = none
get_mapping task_type ((t, m) ∷ rest) =
    if text_eq t task_type then some m else get_mapping task_type rest

-- `declared_types.issubset(required_object_types)`.
abbrev types_declared : List String → List RequiredRelation → Bool
types_declared types [] = true
types_declared types (r ∷ rest) = contains types r.required_object_type && types_declared types rest

unfoldable pub is_consistent : ContextMapping → Bool
is_consistent m = types_declared m.required_object_types m.required_relations
