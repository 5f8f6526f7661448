-- ===== src/ProducerOutput/Tests.antt =====
-- The theorems on the validation at concrete outputs.
use instructional_agent_mvp.Prelude.{◌≡◌, ◌↔◌, refl, true, some, [], ◌∷◌}
use instructional_agent_mvp.Schema.{Json, text, array, object, nil, cons, end, field}
use instructional_agent_mvp.ProducerOutput.{validate_structural, is_blank, len}
use instructional_agent_mvp.ProducerOutput.Valid.{IsOutput, valid_iff_IsOutput}

abbrev output : Json
output = object (
    field "schema_version" (text "producer-output-v1") (
      field "object_type" (text "CONTENT") (
        field "title" (text "A lesson") (
          field "body" (text "The body") (
            field "learning_outcome_refs" (array (cons (text "goal") nil))
              (field "metadata" (object end) end))))))

-- A run: the output passes.
output_valid : (validate_structural (λ j. "") output (some "CONTENT") ("goal" ∷ [])).is_valid ≡ true
unfolding validate_structural is_blank len
output_valid = refl

valid_iff_IsOutput_example :
    ((validate_structural (λ j. "") output (some "CONTENT") ("goal" ∷ [])).is_valid ≡ true)
    ↔ IsOutput output (some "CONTENT") ("goal" ∷ [])
valid_iff_IsOutput_example = valid_iff_IsOutput (λ j. "") (some "CONTENT") ("goal" ∷ []) output
