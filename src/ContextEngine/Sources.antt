-- ===== src/ContextEngine/Sources.antt =====
-- What the adapters on the database resolve.
use instructional_agent_mvp.Prelude.{
  ◌≡◌, ◌↔◌, refl, String, Bool, true, Option, some, none, inl, inr, List, [], ◌∷◌, arith,
  Option-cases, find, text_eq_iff, is_text, All, All-map, ◌⊎◌, select, Bool-cases,
}
use instructional_agent_mvp.Schema.{Uuid, ObjectRelation, EvidenceSource, Database}
use instructional_agent_mvp.Sorting.{text_le}
use instructional_agent_mvp.Sorting.Laws.{text_le-IsOrder}
use instructional_agent_mvp.ApprovedState.{current_approved}
use instructional_agent_mvp.ContextEngine.Contract.{RequiredRelation, RequiredEvidence}
use instructional_agent_mvp.ContextEngine.Resolvers.{
  satisfied, found, missing, is_relation, is_source, first_source, object_type_of, resolve_one,
  retrieve_evidence,
}

-- A required relation leads from the object to an approved object of the required type.
pub record IsResolved (object_id : String) (r : RequiredRelation) (db : Database) : Type 0 where
  pub relation : ObjectRelation
  pub related : find (is_relation object_id r.relation_type) db.object_relations ≡ some relation
  pub typed : object_type_of relation.to_object_id db ≡ some r.required_object_type
  pub version_id : Uuid
  pub approved : current_approved relation.to_object_id db ≡ some version_id

is_text_iff : (o : Option String) (t : String) → (is_text o t ≡ true) ↔ (o ≡ some t)
is_text_iff none t = ground arith
is_text_iff (some s) t = ground (arith, text_eq_iff s t)

module _ (object_id : String) (r : RequiredRelation) (db : Database) where
  IsResolved-satisfied : IsResolved object_id r db → (resolve_one object_id r db).status ≡ satisfied
  unfolding resolve_one
  IsResolved-satisfied x = ground (
    arith,
    x.related,
    x.typed,
    x.approved,
    is_text_iff (object_type_of x.relation.to_object_id db) r.required_object_type,
  )

  satisfied-IsResolved : (resolve_one object_id r db).status ≡ satisfied → IsResolved object_id r db
  unfolding resolve_one
  satisfied-IsResolved e =
      elim (Option-cases (find (is_relation object_id r.relation_type) db.object_relations)) [
        | inl e₁ ↦ absurd (ground arith)
        | inr (x, e₁) ↦ elim (Option-cases (current_approved x.to_object_id db)) [
          | inl e₂ ↦ absurd (ground arith)
          | inr (id, e₂) ↦ record {
            relation = x;
            related = e₁;
            typed =
                ground
                  (arith, is_text_iff (object_type_of x.to_object_id db) r.required_object_type);
            version_id = id;
            approved = e₂;
          }
        ]
      ]

  -- A dependency is satisfied exactly if the object has the required relation, it leads to an
  -- object of the required type, and that object has an approved version.
  pub satisfied_iff_IsResolved :
      ((resolve_one object_id r db).status ≡ satisfied) ↔ IsResolved object_id r db
  satisfied_iff_IsResolved = (satisfied-IsResolved, IsResolved-satisfied)

first_source-none :
    (fits : EvidenceSource → Bool) (rows : List EvidenceSource)
    → first_source fits rows ≡ none
    → select fits rows ≡ []
unfolding first_source
first_source-none fits [] e = refl
first_source-none fits (t ∷ rows) e = ground (arith, first_source-none fits rows)

text_le_refl : (s : String) → text_le s s ≡ true
text_le_refl s = ground (arith, text_le-IsOrder.total s s)

-- The first source of those that fit has the least identifier.
first_source-least :
    (fits : EvidenceSource → Bool) (rows : List EvidenceSource) (s : EvidenceSource)
    → first_source fits rows ≡ some s
    → (fits s ≡ true) × All (λ t. text_le s.source_id t.source_id ≡ true) (select fits rows)
unfolding first_source
first_source-least fits [] s e = ground arith
first_source-least fits (t ∷ rows) s e = elim (Bool-cases (fits t)) [
  | inr e₁ ↦ rw e₁ (first_source-least fits rows s (ground arith))
  | inl e₁ ↦ elim (Option-cases (first_source fits rows)) [
    | inl e₂ ↦
        rw (e₁, first_source-none fits rows e₂)
          (ground (arith, text_le_refl s.source_id), (ground (arith, text_le_refl s.source_id), tt))
    | inr (u, e₂) ↦
        let (fits_u, least_u) = first_source-least fits rows u e₂ in
        elim (Bool-cases (text_le t.source_id u.source_id)) [
          | inl e₃ ↦ rw e₁ (
            ground arith,
            (
              ground (arith, text_le_refl s.source_id),
              All-map _ _ (select fits rows)
                  (λ x le.
                    ground (arith, text_le-IsOrder.trans t.source_id u.source_id x.source_id))
                  least_u,
            ),
          )
          | inr e₃ ↦ rw e₁ (
            ground arith,
            (
              ground (arith, text_le-IsOrder.total t.source_id u.source_id),
              All-map _ _ (select fits rows) (λ x le. ground arith) least_u,
            ),
          )
        ]
  ]
]

-- Either the evidence is found, as the source of the object and the class with the least
-- identifier, or it is missing and there is no such source.
pub retrieve_least :
    (object_id : String) (r : RequiredEvidence) (db : Database)
    → let fits = is_source object_id r.evidence_class in
      let e = retrieve_evidence object_id r db in
      ((e.resolution_status ≡ missing)
        × ((e.source_id ≡ none) × (select fits db.evidence_sources ≡ [])))
      ⊎ ((s : EvidenceSource) × ((e.resolution_status ≡ found)
            × ((e.source_id ≡ some s.source_id)
                × ((fits s ≡ true)
                    × All
                        (λ t. text_le s.source_id t.source_id ≡ true)
                        (select fits db.evidence_sources)))))
unfolding retrieve_evidence
retrieve_least object_id r db =
    let fits = is_source object_id r.evidence_class in
    elim (Option-cases (first_source fits db.evidence_sources)) [
      | inl e ↦ rw e (inl (refl, (refl, first_source-none fits db.evidence_sources e)))
      | inr (s, e) ↦ rw e (inr (s, (refl, (refl, first_source-least fits db.evidence_sources s e))))
    ]
