-- ===== src/Examples.antt =====
-- The data of the tests: a hash that keeps its text, and a database with one learning object, whose
-- activity and learning outcome are approved.
use instructional_agent_mvp.Prelude.{Option, none, some, [], ◌∷◌, String, ℕ}
use instructional_agent_mvp.Schema.{
  InstructionalObject, ObjectVersion, ApprovedStatePointer, ObjectRelation, Database, Uuid,
  empty_database,
}
use instructional_agent_mvp.Hashing.{Hashing}

abbrev pub plain : Hashing
plain = record { digest = λ t. t; str_uuid = λ id. "id" }

abbrev pub object_of : String → String → InstructionalObject
object_of id kind = record { object_id = id; object_type = some kind }

abbrev pub version_of : Uuid → String → ℕ → String → ObjectVersion
version_of id object_id number status = record {
  object_version_id = id;
  object_id = object_id;
  version_number = number;
  status = status;
  supersedes_version_id = none;
}

abbrev pub pointer_to : String → Option Uuid → ApprovedStatePointer
pointer_to object_id version = record {
  object_id = object_id;
  current_approved_version_id = version;
}

abbrev pub relation_of : String → String → String → ObjectRelation
relation_of from to kind = record { from_object_id = from; to_object_id = to; relation_type = kind }

abbrev pub course : Database
course = record empty_database {
  objects =
      object_of "lesson" "CONTENT"
      ∷ object_of "task" "ACTIVITY"
      ∷ object_of "goal" "LEARNING_OUTCOME"
      ∷ [];
  versions =
      version_of 0 "lesson" 1 "ELIGIBLE_PENDING"
      ∷ version_of 1 "task" 1 "APPROVED_CONTENT"
      ∷ version_of 2 "goal" 1 "APPROVED_CONTENT"
      ∷ [];
  pointers =
      pointer_to "lesson" none ∷ pointer_to "task" (some 1) ∷ pointer_to "goal" (some 2) ∷ [];
  object_relations =
      relation_of "lesson" "task" "PARENT_ACTIVITY"
      ∷ relation_of "lesson" "goal" "LEARNING_OUTCOME"
      ∷ [];
  evidence_sources =
      record {
        source_id = "book";
        object_id = "lesson";
        evidence_class = "E1";
        content_reference = "page 1";
      }
      ∷ [];
  next_uuid = 3;
}
