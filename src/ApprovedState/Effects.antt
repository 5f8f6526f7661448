-- ===== src/ApprovedState/Effects.antt =====
-- When the owner of a key approves a version, and what it writes then.
use instructional_agent_mvp.Prelude.{
  ◌≡◌, refl, ◌↔◌, String, true, false, inl, inr, Option, none, some, List, [], ◌∷◌, arith, find,
  exists, text_eq, text_eq_iff, is_not_distinct, if◌then◌else◌, row, Unique, find-row, Option-cases,
}
use instructional_agent_mvp.Schema.{Uuid, ObjectVersion, ApprovedStatePointer, Database}
use instructional_agent_mvp.Hashing.{Hashing}
use instructional_agent_mvp.ApprovedState.{
  CommitRequest, committed, is_pointer_of, is_version_of, is_as_expected, approve, owner_statements,
}

abbrev pub version_key : ObjectVersion → Uuid
version_key v = v.object_version_id

abbrev pub pointer_of : String → List ApprovedStatePointer → Option ApprovedStatePointer
pointer_of object_id = find (is_pointer_of object_id)

-- The primary key of `approved_state_pointer`.
abbrev pub UniquePointers : List ApprovedStatePointer → Type 0
UniquePointers [] = Unit
UniquePointers (p ∷ rows) = (pointer_of p.object_id rows ≡ none) × UniquePointers rows

-- NULL equals NULL, and nothing else.
pub is_not_distinct_iff : (a b : Option Uuid) → (is_not_distinct a b ≡ true) ↔ (a ≡ b)
is_not_distinct_iff a b = ground arith

-- The optimistic UPDATE hits iff the object's pointer is there and is as expected.
pub exists-expected :
    (q : CommitRequest) (rows : List ApprovedStatePointer)
    → UniquePointers rows
    → exists (is_as_expected q) rows ≡ elim (pointer_of q.object_id rows) [
      | none ↦ false
      | some p ↦
          is_not_distinct p.current_approved_version_id q.expected_previous_approved_version_id
    ]
exists-expected q [] u = refl
exists-expected q (p ∷ rows) u =
    ground (arith, exists-expected q rows u.1, text_eq_iff p.object_id q.object_id)

-- A request is acceptable if its version is one of the object's, and the object has a pointer,
-- which is at the expected previous version.
pub record IsAcceptable (q : CommitRequest) (db : Database) : Type 0 where
  pub version : ObjectVersion
  pub found : row version_key q.object_version_id db.versions ≡ some version
  pub owned : version.object_id ≡ q.object_id
  pub pointer : ApprovedStatePointer
  pub pointed_to : pointer_of q.object_id db.pointers ≡ some pointer
  pub expected : pointer.current_approved_version_id ≡ q.expected_previous_approved_version_id

module _ (h : Hashing) (q : CommitRequest) (hash : String) (db : Database)
    (uv : Unique version_key db.versions) (up : UniquePointers db.pointers) where
  find-version :
      find (is_version_of q) db.versions ≡ elim (row version_key q.object_version_id db.versions) [
        | none ↦ none
        | some v ↦ if text_eq v.object_id q.object_id then some v else none
      ]
  find-version =
      find-row version_key q.object_version_id (λ v. text_eq v.object_id q.object_id) db.versions uv

  pub acceptable_approves : IsAcceptable q db → owner_statements h q hash db ≡ approve h q hash db
  unfolding owner_statements
  acceptable_approves a = ground (
    arith,
    find-version,
    text_eq_iff a.version.object_id q.object_id,
    exists-expected q db.pointers up,
    is_not_distinct_iff a.pointer.current_approved_version_id
        q.expected_previous_approved_version_id,
  )

  committed-IsAcceptable : (owner_statements h q hash db).0.outcome ≡ committed → IsAcceptable q db
  unfolding owner_statements
  committed-IsAcceptable e = elim (Option-cases (row version_key q.object_version_id db.versions)) [
    | inl e' ↦ absurd (ground (arith, find-version))
    | inr (v, e') ↦ elim (Option-cases (pointer_of q.object_id db.pointers)) [
      | inl e'' ↦ absurd (ground (arith, find-version, exists-expected q db.pointers up))
      | inr (p, e'') ↦ record {
        version = v;
        found = e';
        owned = ground (arith, find-version, text_eq_iff v.object_id q.object_id);
        pointer = p;
        pointed_to = e'';
        expected = ground (
          arith,
          find-version,
          exists-expected q db.pointers up,
          is_not_distinct_iff p.current_approved_version_id q.expected_previous_approved_version_id,
        );
      }
    ]
  ]

  -- With unique keys, the owner's statements end in a commit exactly for an acceptable request: its
  -- version is one of the object's, and the object's pointer is at the expected version.
  pub committed_iff_IsAcceptable :
      ((owner_statements h q hash db).0.outcome ≡ committed) ↔ IsAcceptable q db
  committed_iff_IsAcceptable = (committed-IsAcceptable, λ a. rw (acceptable_approves a) refl)
