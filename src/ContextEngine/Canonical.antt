-- ===== src/ContextEngine/Canonical.antt =====
-- The two hashes of src/persistence/repositories/context_engine.py: of a request, and of the
-- contents of a package, whose lists are put in the order of their natural keys.
use instructional_agent_mvp.Prelude.{String, Bool, Option, none, some, [], ◌∷◌}
use instructional_agent_mvp.Schema.{Uuid, Json, null, text, object, end, field}
use instructional_agent_mvp.Hashing.{Hashing, join, str_or_null}
use instructional_agent_mvp.Sorting.{text_le, lex, sorted}
use instructional_agent_mvp.Dumps.{dumps}
use instructional_agent_mvp.ContextEngine.Entries.{
  ApprovedObject, RelationEntry, EvidenceEntry, DependencyEntry, Gap, approved_json, relation_json,
  evidence_json, dependency_json, gap_json, list_json,
}
use instructional_agent_mvp.ContextEngine.Assembly.{ContextRequest, Contents}

unfoldable pub compute_request_idempotency_hash : Hashing → ContextRequest → String
compute_request_idempotency_hash h q =
    h.digest
      (join (q.task_type ∷ q.target_object_id ∷ str_or_null h.str_uuid q.pinned_version_id ∷ []))

-- `value or ""`.
abbrev pub or_empty : Option String → String
or_empty none = ""
or_empty (some t) = t

abbrev pub relation_key : RelationEntry → String × (String × String)
relation_key r = (r.from_id, (or_empty r.to_id, r.relation_type))

abbrev pub relation_le : String × (String × String) → String × (String × String) → Bool
relation_le = lex text_le (lex text_le text_le)

abbrev pub evidence_key : EvidenceEntry → String × String
evidence_key e = (e.evidence_class, or_empty e.source_id)

abbrev pub pinned_json : (Uuid → String) → Option Uuid → Json
pinned_json str_uuid none = null
pinned_json str_uuid (some id) = text (str_uuid id)

unfoldable pub canonical : (Uuid → String) → String → ContextRequest → Contents → Json
unfolding sorted
canonical str_uuid contract_version q c = object (
    field "context_contract_version" (text contract_version) (
      field "task_type" (text q.task_type) (
        field "target_object_id" (text q.target_object_id) (
          field "pinned_version_id" (pinned_json str_uuid q.pinned_version_id) (
            field "approved_objects"
              (list_json approved_json
                (sorted text_le (λ (o : ApprovedObject). o.object_id) c.approved_objects))
              (field "relations"
                (list_json relation_json (sorted relation_le relation_key c.relations))
                (field "evidence"
                  (list_json evidence_json (sorted (lex text_le text_le) evidence_key c.evidence))
                  (field "dependency_status"
                    (list_json dependency_json (
                      sorted text_le (λ (d : DependencyEntry). d.dependency_id)
                        c.dependency_status))
                    (field "gaps"
                      (list_json gap_json (sorted text_le (λ (g : Gap). g.gap_id) c.gaps))
                      end)))))))))

unfoldable pub compute_context_package_hash : Hashing → String → ContextRequest → Contents → String
unfolding canonical dumps
compute_context_package_hash h contract_version q c =
    h.digest (dumps (canonical h.str_uuid contract_version q c))
