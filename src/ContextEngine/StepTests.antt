-- ===== src/ContextEngine/StepTests.antt =====
-- The theorems on the steps of the context engine at concrete requests.
use instructional_agent_mvp.Prelude.{
  ◌≡◌, ◌≢◌, ◌↔◌, ◌||◌, refl, none, some, [], ◌∷◌, String, true, arith, exists, text_eq_iff, select,
  ◌⊎◌, All,
}
use instructional_agent_mvp.Schema.{EvidenceSource}
use instructional_agent_mvp.Session.{ok}
use instructional_agent_mvp.ApprovedState.{current_approved}
use instructional_agent_mvp.ContextEngine.Contract.{
  learning_object_mapping, RequiredRelation, RequiredEvidence,
}
use instructional_agent_mvp.ContextEngine.Resolvers.{
  postgres_adapters, resolve_one, retrieve_evidence, satisfied, found, missing, is_source,
}
use instructional_agent_mvp.ContextEngine.Assembly.{
  Contents, resolve_target, newer_version_available, rejected,
}
use instructional_agent_mvp.ContextEngine.Canonical.{compute_context_package_hash}
use instructional_agent_mvp.ContextEngine.Gaps.{
  blocking_iff_lacking, has_blocking, is_blocked, lacks,
}
use instructional_agent_mvp.ContextEngine.Ordering.{IsReordered, hash-IsReordered}
use instructional_agent_mvp.ContextEngine.Pinned.{IsOutdated, newer_iff_IsOutdated}
use instructional_agent_mvp.ContextEngine.Sources.{
  IsResolved, satisfied_iff_IsResolved, retrieve_least,
}
use instructional_agent_mvp.ContextEngine.Rounds.{reserved}
use instructional_agent_mvp.Sorting.{text_le}
use instructional_agent_mvp.Sorting.Laws.{Reordered}
use instructional_agent_mvp.Examples.{plain, course, version_of}
use instructional_agent_mvp.ContextEngine.Samples.{
  request, collected, request-collected, revised, pinned,
}

pinned-IsOutdated : IsOutdated pinned revised
unfolding current_approved
pinned-IsOutdated = record {
  id = 0;
  pinned = refl;
  version = version_of 0 "lesson" 1 "APPROVED_CONTENT";
  found = refl;
  owned = refl;
  approved = refl;
  current_id = 1;
  pointed_to = refl;
  current = version_of 1 "lesson" 2 "APPROVED_CONTENT";
  current_found = refl;
  newer = omega arith;
}

newer_iff_IsOutdated_example :
    (resolve_target (λ id. "id") pinned revised ≡ ok (rejected newer_version_available))
    ↔ IsOutdated pinned revised
newer_iff_IsOutdated_example = newer_iff_IsOutdated (λ id. "id") pinned revised

blocking_iff_lacking_example : has_blocking collected.gaps ≡ (
    true
    || (exists is_blocked (
          postgres_adapters.resolve "lesson" learning_object_mapping.required_relations
            (reserved request "h" course))
        || exists
            (lacks postgres_adapters "lesson" (reserved request "h" course))
            learning_object_mapping.required_evidence))
blocking_iff_lacking_example =
    blocking_iff_lacking (λ id. "id") postgres_adapters learning_object_mapping request
      (reserved request "h" course) collected (request-collected "h")

-- The dependencies in the other order.
abbrev turned : Contents
turned = record collected {
  dependency_status =
      record { dependency_id = "LEARNING_OUTCOME"; status = "SATISFIED" }
      ∷ record { dependency_id = "PARENT_ACTIVITY"; status = "SATISFIED" }
      ∷ [];
}

other_relation : ◌≢◌ {A = String} "PARENT_ACTIVITY" "LEARNING_OUTCOME"
other_relation e = ground (arith, text_eq_iff "PARENT_ACTIVITY" "LEARNING_OUTCOME")

turned-IsReordered : IsReordered collected turned
turned-IsReordered = record {
  objects = Reordered.same _;
  relations = Reordered.same _;
  evidence = Reordered.same _;
  dependencies = Reordered.swap _ _ [] other_relation;
  gaps = Reordered.same _;
}

hash-IsReordered_example :
    compute_context_package_hash plain "context-engine-v1" request collected
    ≡ compute_context_package_hash plain "context-engine-v1" request turned
hash-IsReordered_example =
    hash-IsReordered plain "context-engine-v1" request collected turned turned-IsReordered

abbrev parent : RequiredRelation
parent = record { relation_type = "PARENT_ACTIVITY"; required_object_type = "ACTIVITY" }

satisfied_iff_IsResolved_example :
    ((resolve_one "lesson" parent course).status ≡ satisfied) ↔ IsResolved "lesson" parent course
satisfied_iff_IsResolved_example = satisfied_iff_IsResolved "lesson" parent course

abbrev e1 : RequiredEvidence
e1 = record {
  evidence_class = "E1";
  requirement_level = "REQUIRED";
  blocking_behavior = "BLOCKING";
}

retrieve_least_example :
    (((retrieve_evidence "lesson" e1 course).resolution_status ≡ missing)
      × (((retrieve_evidence "lesson" e1 course).source_id ≡ none)
          × (select (is_source "lesson" "E1") course.evidence_sources ≡ [])))
    ⊎ ((s : EvidenceSource) × (((retrieve_evidence "lesson" e1 course).resolution_status ≡ found)
          × (((retrieve_evidence "lesson" e1 course).source_id ≡ some s.source_id)
              × ((is_source "lesson" "E1" s ≡ true)
                  × All
                      (λ (t : EvidenceSource). text_le s.source_id t.source_id ≡ true)
                      (select (is_source "lesson" "E1") course.evidence_sources)))))
retrieve_least_example = retrieve_least "lesson" e1 course
