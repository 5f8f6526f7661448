-- ===== src/Orchestrator/Content.antt =====
-- An output that `validate_structural` passes has every field that `_phase_c_finalize` of
-- src/persistence/repositories/orchestrator.py reads.
use instructional_agent_mvp.Prelude.{
  ◌≡◌, refl, ◌∙◌, sym, ap, arith, Option, String, true, false, some, List, All,
}
use instructional_agent_mvp.Schema.{
  contains, Json, text, array, object, ObjectVersionContent, get_field, Fields,
}
use instructional_agent_mvp.ProducerOutput.{validate_structural, is_blank, text_items}
use instructional_agent_mvp.ProducerOutput.Valid.{IsOutput, valid_iff_IsOutput}
use instructional_agent_mvp.Orchestrator.PhaseC.{Finalization, content_row}

-- The content of a valid output: its texts are not blank, its references are allowed.
pub record IsContent (f : Finalization) (allowed : List String) (c : ObjectVersionContent)
    : Type 0 where
  pub version : c.schema_version ≡ text "producer-output-v1"
  pub title : String
  pub titled : c.title ≡ text title
  pub title_filled : is_blank title ≡ false
  pub body : String
  pub has_body : c.body ≡ text body
  pub body_filled : is_blank body ≡ false
  pub refs : List String
  pub referring : c.learning_outcome_refs ≡ array (text_items refs)
  pub refs_allowed : All (λ r. contains allowed r ≡ true) refs
  pub metadata : Fields
  pub described : c.metadata ≡ object metadata
  pub version_id : c.object_version_id ≡ f.target_object_version_id
  pub attempt_id : c.produced_by_attempt_id ≡ f.attempt_id

fields_eq : {a b : Fields} → ◌≡◌ {A = Json} (object a) (object b) → b ≡ a
fields_eq e = ground arith

output-IsContent :
    (f : Finalization) (expected : Option String) (allowed : List String)
    → (o : IsOutput (object f.parsed_output) expected allowed) → o.fields ≡ f.parsed_output
    → (c : ObjectVersionContent) × ((content_row f ≡ some c) × IsContent f allowed c)
unfolding content_row
output-IsContent f expected allowed o same =
    let at = λ (k : String) (j : Json) (e : get_field k o.fields ≡ some j).
      ap (λ d. get_field k d) (sym same) ∙ e in
    let content : ObjectVersionContent = record {
      object_version_id = f.target_object_version_id;
      schema_version = text "producer-output-v1";
      title = text o.title;
      body = text o.body;
      learning_outcome_refs = array (text_items o.refs);
      metadata = object o.metadata;
      produced_by_attempt_id = f.attempt_id;
    } in
    (
      content,
      (
        ground (
          arith,
          at "schema_version" _ o.version,
          at "title" _ o.titled,
          at "body" _ o.has_body,
          at "learning_outcome_refs" _ o.referring,
          at "metadata" _ o.described,
        ),
        record {
          version = refl;
          title = o.title;
          titled = refl;
          title_filled = o.title_filled;
          body = o.body;
          has_body = refl;
          body_filled = o.body_filled;
          refs = o.refs;
          referring = refl;
          refs_allowed = o.refs_allowed;
          metadata = o.metadata;
          described = refl;
          version_id = refl;
          attempt_id = refl;
        },
      ),
    )

-- For an output that the validation passes, the content row is built, without a KeyError: with the
-- schema's version, texts that are not blank, and references among the allowed ones.
pub valid-IsContent :
    (repr : Json → String) (expected : Option String) (allowed : List String) (f : Finalization)
    → (validate_structural repr (object f.parsed_output) expected allowed).is_valid ≡ true
    → (c : ObjectVersionContent) × ((content_row f ≡ some c) × IsContent f allowed c)
valid-IsContent repr expected allowed f e =
    let o = (valid_iff_IsOutput repr expected allowed (object f.parsed_output)).0 e in
    output-IsContent f expected allowed o (fields_eq o.is_dict)
