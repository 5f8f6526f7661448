-- ===== src/ProducerExecutor/Tests.antt =====
-- The theorems on the allowed references and on calls of the provider at concrete data.
use instructional_agent_mvp.Prelude.{◌≡◌, String, some, [], ◌∷◌}
use instructional_agent_mvp.Session.{ok}
use instructional_agent_mvp.ContextEngine.Entries.{ApprovedObject, approved_json, list_json}
use instructional_agent_mvp.ProducerExecutor.{compute_allowed_learning_outcome_ids}
use instructional_agent_mvp.ProducerExecutor.Allowed.{allowed_learning_outcomes}

abbrev entry : String → String → ApprovedObject
entry id kind = record {
  object_id = id;
  object_type = some kind;
  version = 1;
  status = "APPROVED_CONTENT";
}

allowed_learning_outcomes_example :
    compute_allowed_learning_outcome_ids
      (list_json approved_json (entry "task" "ACTIVITY" ∷ entry "goal" "LEARNING_OUTCOME" ∷ []))
    ≡ ok ("goal" ∷ [])
allowed_learning_outcomes_example =
    allowed_learning_outcomes (entry "task" "ACTIVITY" ∷ entry "goal" "LEARNING_OUTCOME" ∷ [])
