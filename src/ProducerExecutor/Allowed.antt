-- ===== src/ProducerExecutor/Allowed.antt =====
-- The references that a package allows are its approved learning outcomes.
use instructional_agent_mvp.Prelude.{◌≡◌, refl, List, [], ◌∷◌, map, arith, select, is_text}
use instructional_agent_mvp.Session.{ok}
use instructional_agent_mvp.ContextEngine.Entries.{
  ApprovedObject, approved_json, list_json, items_of,
}
use instructional_agent_mvp.ProducerExecutor.{compute_allowed_learning_outcome_ids, outcome_ids}

allowed_ids :
    (l : List ApprovedObject)
    → outcome_ids (items_of approved_json l)
      ≡ ok (
          map
            (λ (o : ApprovedObject). o.object_id)
            (select (λ (o : ApprovedObject). is_text o.object_type "LEARNING_OUTCOME") l))
allowed_ids [] = refl
allowed_ids (o ∷ l) = ground (arith, allowed_ids l)

-- Of the entries that the context engine writes, exactly those of type LEARNING_OUTCOME are
-- allowed as references, and computing them raises nothing.
pub allowed_learning_outcomes :
    (l : List ApprovedObject)
    → compute_allowed_learning_outcome_ids (list_json approved_json l)
      ≡ ok (
          map
            (λ (o : ApprovedObject). o.object_id)
            (select (λ (o : ApprovedObject). is_text o.object_type "LEARNING_OUTCOME") l))
unfolding compute_allowed_learning_outcome_ids
allowed_learning_outcomes l = allowed_ids l
