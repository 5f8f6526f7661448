-- ===== src/ContextEngine/Pinned.antt =====
-- When a pinned version is refused.
use instructional_agent_mvp.Prelude.{
  ◌≡◌, ◌↔◌, ◌<◌, String, some, inl, inr, arith, Option-cases, text_eq_iff,
}
use instructional_agent_mvp.Schema.{Uuid, ObjectVersion, Database}
use instructional_agent_mvp.Session.{ok}
use instructional_agent_mvp.ApprovedState.{current_approved}
use instructional_agent_mvp.ContextEngine.Assembly.{
  ContextRequest, newer_version_available, rejected, resolve_target, resolve_pinned_version,
  compare_with_approved, find_version,
}

-- The pinned version is an approved one of the target, and the target's current version has a
-- greater number.
pub record IsOutdated (q : ContextRequest) (db : Database) : Type 0 where
  pub id : Uuid
  pub pinned : q.pinned_version_id ≡ some id
  pub version : ObjectVersion
  pub found : find_version id db ≡ some version
  pub owned : version.object_id ≡ q.target_object_id
  pub approved : version.status ≡ "APPROVED_CONTENT"
  pub current_id : Uuid
  pub pointed_to : current_approved q.target_object_id db ≡ some current_id
  pub current : ObjectVersion
  pub current_found : find_version current_id db ≡ some current
  pub newer : version.version_number < current.version_number

module _ (str_uuid : Uuid → String) (q : ContextRequest) (db : Database) where
  IsOutdated-newer :
      IsOutdated q db → resolve_target str_uuid q db ≡ ok (rejected newer_version_available)
  unfolding resolve_target resolve_pinned_version compare_with_approved
  IsOutdated-newer o = ground (
    arith,
    o.pinned,
    o.found,
    o.pointed_to,
    o.current_found,
    text_eq_iff o.version.object_id q.target_object_id,
    text_eq_iff o.version.status "APPROVED_CONTENT",
  )

  newer-IsOutdated :
      resolve_target str_uuid q db ≡ ok (rejected newer_version_available) → IsOutdated q db
  unfolding resolve_target resolve_pinned_version compare_with_approved
  newer-IsOutdated e = elim (Option-cases q.pinned_version_id) [
    | inl e₁ ↦ absurd (ground arith)
    | inr (id, e₁) ↦ elim (Option-cases (find_version id db)) [
      | inl e₂ ↦ absurd (ground arith)
      | inr (v, e₂) ↦ elim (Option-cases (current_approved q.target_object_id db)) [
        | inl e₃ ↦ absurd (ground arith)
        | inr (current_id, e₃) ↦ elim (Option-cases (find_version current_id db)) [
          | inl e₄ ↦ absurd (ground arith)
          | inr (w, e₄) ↦ record {
            id = id;
            pinned = e₁;
            version = v;
            found = e₂;
            owned = ground (arith, text_eq_iff v.object_id q.target_object_id);
            approved = ground (arith, text_eq_iff v.status "APPROVED_CONTENT");
            current_id = current_id;
            pointed_to = e₃;
            current = w;
            current_found = e₄;
            newer = ground arith;
          }
        ]
      ]
    ]
  ]

  -- A request is refused for a newer version exactly if it pins an approved version of its target
  -- whose number is less than the number of the target's current version.
  pub newer_iff_IsOutdated :
      (resolve_target str_uuid q db ≡ ok (rejected newer_version_available)) ↔ IsOutdated q db
  newer_iff_IsOutdated = (newer-IsOutdated, IsOutdated-newer)
