-- ===== src/ProducerOutput/Valid.antt =====
-- What `validate_structural` accepts.
use instructional_agent_mvp.Prelude.{
  ◌≡◌, ◌↔◌, ◌≤◌, ◌∙◌, refl, sym, String, true, false, Option, some, inl, inr, List, arith, ltb, All,
  Bool-cases, Option-cases,
}
use instructional_agent_mvp.Schema.{contains, Json, text, array, object, Fields, get_field}
use instructional_agent_mvp.ProducerOutput.{
  required_fields, is_blank, len, keys, without, is_empty, text_items, equals_text, equals_type,
  list_of_texts, filled_text, validate_structural, text_or_none, check_keys, check_schema_version,
  check_object_type, check_title, check_body, check_refs, check_metadata,
}
use instructional_agent_mvp.ProducerOutput.Parts.{
  contains-without, without-empty, without-All, All-without, texts_of-text_items, equals_text-some,
  equals_type-some, equals_type_self, filled_text-some, list_of_texts-some, is_object-some,
}

-- The documented schema, version 1: an object with exactly the six fields, the version and the type
-- that are expected, a title and a body that are not blank, the title not too long, a list of
-- allowed references, and an object of metadata.
pub record IsOutput (raw : Json) (expected : Option String) (allowed : List String) : Type 0 where
  pub fields : Fields
  pub is_dict : raw ≡ object fields
  pub exact : (k : String) → contains (keys fields) k ≡ contains required_fields k
  pub version : get_field "schema_version" fields ≡ some (text "producer-output-v1")
  pub typed : get_field "object_type" fields ≡ some (text_or_none expected)
  pub title : String
  pub titled : get_field "title" fields ≡ some (text title)
  pub title_filled : is_blank title ≡ false
  pub title_short : len title ≤ 300
  pub body : String
  pub has_body : get_field "body" fields ≡ some (text body)
  pub body_filled : is_blank body ≡ false
  pub refs : List String
  pub referring : get_field "learning_outcome_refs" fields ≡ some (array (text_items refs))
  pub refs_allowed : All (λ r. contains allowed r ≡ true) refs
  pub metadata : Fields
  pub described : get_field "metadata" fields ≡ some (object metadata)

module _ (repr : Json → String) (expected : Option String) (allowed : List String) where
  IsOutput-valid :
      (raw : Json)
      → IsOutput raw expected allowed
      → (validate_structural repr raw expected allowed).is_valid ≡ true
  unfolding validate_structural
  IsOutput-valid raw o = rw o.is_dict (
      ground (
        arith,
        without-empty required_fields (keys o.fields) (λ k e. sym (o.exact k) ∙ e),
        without-empty (keys o.fields) required_fields (λ k e. o.exact k ∙ e),
        o.version,
        o.typed,
        equals_type_self expected,
        o.titled,
        o.title_filled,
        o.title_short,
        o.has_body,
        o.body_filled,
        o.referring,
        texts_of-text_items o.refs,
        All-without allowed o.refs o.refs_allowed,
        o.described,
      ))

  -- What each check asserts, and that the next one passes.
  keys_pass :
      (fields : Fields)
      → (check_keys repr fields expected allowed).is_valid ≡ true
      → ((is_empty (without (keys fields) required_fields) ≡ true)
          × (is_empty (without required_fields (keys fields)) ≡ true))
        × ((check_schema_version repr fields expected allowed).is_valid ≡ true)
  keys_pass fields e = elim (Bool-cases (is_empty (without (keys fields) required_fields))) [
    | inr e₁ ↦ absurd (ground arith)
    | inl e₁ ↦ elim (Bool-cases (is_empty (without required_fields (keys fields)))) [
      | inr e₂ ↦ absurd (ground arith)
      | inl e₂ ↦ ((e₁, e₂), rw (sym e, e₁, e₂) refl)
    ]
  ]

  version_pass :
      (fields : Fields)
      → (check_schema_version repr fields expected allowed).is_valid ≡ true
      → (get_field "schema_version" fields ≡ some (text "producer-output-v1"))
        × ((check_object_type repr fields expected allowed).is_valid ≡ true)
  version_pass fields e =
      elim (Bool-cases (equals_text (get_field "schema_version" fields) "producer-output-v1")) [
        | inr e₁ ↦ absurd (ground arith)
        | inl e₁ ↦ (
          equals_text-some (get_field "schema_version" fields) "producer-output-v1" e₁,
          rw (sym e, e₁) refl,
        )
      ]

  type_pass :
      (fields : Fields)
      → (check_object_type repr fields expected allowed).is_valid ≡ true
      → (get_field "object_type" fields ≡ some (text_or_none expected))
        × ((check_title repr fields allowed).is_valid ≡ true)
  type_pass fields e = elim (Bool-cases (equals_type (get_field "object_type" fields) expected)) [
    | inr e₁ ↦ absurd (ground arith)
    | inl e₁ ↦ (equals_type-some (get_field "object_type" fields) expected e₁, rw (sym e, e₁) refl)
  ]

  title_pass :
      (fields : Fields)
      → (check_title repr fields allowed).is_valid ≡ true
      → (t : String) × ((get_field "title" fields ≡ some (text t))
          × ((is_blank t ≡ false)
              × ((len t ≤ 300) × ((check_body repr fields allowed).is_valid ≡ true))))
  title_pass fields e = elim (Option-cases (filled_text (get_field "title" fields))) [
    | inl e₁ ↦ absurd (ground arith)
    | inr (t, e₁) ↦
        let (e₂, e₃) = filled_text-some (get_field "title" fields) t e₁ in
        elim (Bool-cases (ltb 300 (len t))) [
          | inl e₄ ↦ absurd (ground arith)
          | inr e₄ ↦ (t, (e₂, (e₃, (ground arith, ground arith))))
        ]
  ]

  body_pass :
      (fields : Fields)
      → (check_body repr fields allowed).is_valid ≡ true
      → (t : String) × ((get_field "body" fields ≡ some (text t))
          × ((is_blank t ≡ false) × ((check_refs repr fields allowed).is_valid ≡ true)))
  body_pass fields e = elim (Option-cases (filled_text (get_field "body" fields))) [
    | inl e₁ ↦ absurd (ground arith)
    | inr (t, e₁) ↦
        let (e₂, e₃) = filled_text-some (get_field "body" fields) t e₁ in
        (t, (e₂, (e₃, ground arith)))
  ]

  refs_pass :
      (fields : Fields)
      → (check_refs repr fields allowed).is_valid ≡ true
      → (l : List String) × ((get_field "learning_outcome_refs" fields
            ≡ some (array (text_items l)))
          × (All (λ r. contains allowed r ≡ true) l
              × ((check_metadata repr fields).is_valid ≡ true)))
  refs_pass fields e =
      elim (Option-cases (list_of_texts (get_field "learning_outcome_refs" fields))) [
        | inl e₁ ↦ absurd (ground arith)
        | inr (l, e₁) ↦ elim (Bool-cases (is_empty (without l allowed))) [
          | inr e₂ ↦ absurd (ground arith)
          | inl e₂ ↦ (
            l,
            (
              list_of_texts-some (get_field "learning_outcome_refs" fields) l e₁,
              (without-All allowed l e₂, ground arith),
            ),
          )
        ]
      ]

  metadata_pass :
      (fields : Fields)
      → (check_metadata repr fields).is_valid ≡ true
      → (m : Fields) × (get_field "metadata" fields ≡ some (object m))
  metadata_pass fields e = is_object-some (get_field "metadata" fields) (ground arith)

  valid-IsOutput :
      (raw : Json)
      → (validate_structural repr raw expected allowed).is_valid ≡ true
      → IsOutput raw expected allowed
  unfolding validate_structural
  valid-IsOutput (object fields) e =
      let ((extra, missing), e₁) = keys_pass fields e in
      let (version, e₂) = version_pass fields e₁ in
      let (typed, e₃) = type_pass fields e₂ in
      let (title, (titled, (filled, (short, e₄)))) = title_pass fields e₃ in
      let (body, (has_body, (body_filled, e₅))) = body_pass fields e₄ in
      let (refs, (referring, (refs_allowed, e₆))) = refs_pass fields e₅ in
      let (metadata, described) = metadata_pass fields e₆ in
      record {
        fields = fields;
        is_dict = refl;
        exact = λ k. ground (
          arith,
          contains-without required_fields (keys fields) k extra,
          contains-without (keys fields) required_fields k missing,
        );
        version = version;
        typed = typed;
        title = title;
        titled = titled;
        title_filled = filled;
        title_short = short;
        body = body;
        has_body = has_body;
        body_filled = body_filled;
        refs = refs;
        referring = referring;
        refs_allowed = refs_allowed;
        metadata = metadata;
        described = described;
      }
  valid-IsOutput _ e = absurd (ground arith)

  -- An output is valid exactly if it is one of the schema's first version: an object with the six
  -- fields and no other, of the version and the type that are expected, with a title and a body
  -- that are not blank, a title of at most 300 characters, references among the allowed ones, and
  -- an object of metadata.
  pub valid_iff_IsOutput :
      (raw : Json)
      → ((validate_structural repr raw expected allowed).is_valid ≡ true)
        ↔ IsOutput raw expected allowed
  valid_iff_IsOutput raw = (valid-IsOutput raw, IsOutput-valid raw)
