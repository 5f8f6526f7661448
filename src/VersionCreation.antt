-- ===== src/VersionCreation.antt =====
-- src/persistence/repositories/version_creation.py
pub mod Numbers
pub mod Reuse
mod Tests
use instructional_agent_mvp.Prelude.{
  ℕ, ◌+◌, max, String, Bool, true, false, ◌&&◌, not, Option, none, some, List, [], ◌∷◌, exists,
  insert, select, text_eq, ◌==◌, leb, if◌then◌else◌,
}
use instructional_agent_mvp.Schema.{Uuid, is_active, ObjectVersion, Database, uuid4}
use instructional_agent_mvp.Session.{
  Action, Result, ok, raised, no_result_found, pure, raise, ◌>>=◌, ◌>>◌, query,
}

-- `scalar_one()` on the row of the object, whose lock is held until the transaction ends.
unfoldable pub lock_instructional_object : String → Action (Unit {0})
lock_instructional_object object_id = do
  found ← query (λ db. exists (λ o. text_eq o.object_id object_id) db.objects)
  if found then pure tt else raise no_result_found

abbrev pub has_active_run : Uuid → Database → Bool
has_active_run id db =
    exists (λ r. r.target_object_version_id == id && is_active r.status) db.agent_runs

abbrev pub has_content : Uuid → Database → Bool
has_content id db = exists (λ c. c.object_version_id == id) db.contents

-- The WHERE clause of the reusable version.
abbrev pub is_reusable : String → Database → ObjectVersion → Bool
is_reusable object_id db v =
    text_eq v.object_id object_id
    && (text_eq v.status "ELIGIBLE_PENDING"
        && (not (has_content v.object_version_id db)
            && not (has_active_run v.object_version_id db)))

abbrev pub lower : ObjectVersion → Option ObjectVersion → Option ObjectVersion
lower v none = some v
lower v (some w) = if leb v.version_number w.version_number then some v else some w

-- ORDER BY version_number ASC LIMIT 1, among the rows that fit.
abbrev pub lowest : (ObjectVersion → Bool) → List ObjectVersion → Option ObjectVersion
lowest fits [] = none
lowest fits (v ∷ rows) = let rest = lowest fits rows in if fits v then lower v rest else rest

abbrev pub versions_of : String → List ObjectVersion → List ObjectVersion
versions_of object_id = select (λ v. text_eq v.object_id object_id)

-- `coalesce(max(version_number), 0)`.
abbrev pub max_version : List ObjectVersion → ℕ
max_version [] = 0
max_version (v ∷ rows) = max v.version_number (max_version rows)

abbrev pub new_version : String → ℕ → Uuid → ObjectVersion
new_version object_id number id = record {
  object_version_id = id;
  object_id = object_id;
  version_number = number;
  status = "ELIGIBLE_PENDING";
  supersedes_version_id = none;
}

abbrev pub create_version : String → Database → Uuid × Database
create_version object_id db =
    let number = max_version (versions_of object_id db.versions) + 1 in
    let (id, db') = uuid4 db in
    (id, record db' { versions = insert (new_version object_id number id) db'.versions })

abbrev pub reuse_or_create : String → Option ObjectVersion → Database → Uuid × Database
reuse_or_create object_id (some v) db = (v.object_version_id, db)
reuse_or_create object_id none db = create_version object_id db

unfoldable pub resolve_or_create_object_version : String → Database → Uuid × Database
resolve_or_create_object_version object_id db =
    reuse_or_create object_id (lowest (is_reusable object_id db) db.versions) db
